-- ===== src/Exp/Scan.antt =====
-- The scanner `eval` of src/src/exp.c, with `pushsymbol`. A round of its loop is `scan_char`. The text
-- is the list of the bytes before the NUL; `nested` is the call of `eval` on a macro's text.
pub mod Eval
pub mod Pieces
pub mod Rounds
pub mod Stops
pub mod Ends
pub mod Numbers
use dasm_dillon_code_sourcef.Common.{
  ℕ, suc, ◌+◌, Bool, true, ◌&&◌, ◌||◌, List, [], ◌∷◌, Option, none, some, if◌then◌else◌, ◌==◌, leb,
  length, get_or, drop, Run, ok, fault, ◌>>=◌,
}
use dasm_dillon_code_sourcef.Asm.{Symbol, no_flags, unknown_flag, only_unknown}
use dasm_dillon_code_sourcef.Symbols.{Globals, Handle, find_symbol, create_symbol, modify_symbol}
use dasm_dillon_code_sourcef.Exp.Operators.{Operator, Message, invalid_character}
use dasm_dillon_code_sourcef.Exp.Machine.{Machine, say, stackarg, doop}

-- The locals of `eval`, with the statics and globals it works on. `cur` is the node being built, and
-- `earlier` holds the finished ones, the last first; the first of all is `base`.
pub record Scan : Type 0 where
  pub text : List ℕ
  pub wantmode : Bool
  pub cur : Symbol
  pub earlier : List Symbol
  pub machine : Machine
  pub globals : Globals

-- a call of `eval` with its text: the list that it returns
abbrev pub Nested : Type 0
Nested = List ℕ → Machine → Globals → Run (List Symbol × Machine × Globals)

-- str[n]; a text ends in a NUL
abbrev pub peek : ℕ → List ℕ → ℕ
peek n s = get_or s n 0

abbrev pub is_digit : ℕ → Bool
is_digit c = leb b'0' c && leb c b'9'

-- `isalnum` in the C locale
abbrev pub is_alpha_num : ℕ → Bool
is_alpha_num c = is_digit c || (leb b'A' c && leb c b'Z' || leb b'a' c && leb c b'z')

-- str += n, which stays within the text
unfoldable pub advance : ℕ → Scan → Run Scan
advance n sc = if leb n (length sc.text) then ok (record sc { text = drop n sc.text }) else fault

abbrev pub report : Message → Scan → Scan
report e sc = record sc { machine = say e sc.machine }

-- `doop(func, pri); str += n;`
unfoldable pub scan_operator : Operator → ℕ → ℕ → Scan → Run Scan
scan_operator func pri n sc = do m ← doop func pri sc.machine; advance n (record sc { machine = m })

-- `str = push...(str);`
unfoldable pub scan_operand : (List ℕ → Machine → Run (List ℕ × Machine)) → List ℕ → Scan → Run Scan
scan_operand push str sc = do
  (rest, m) ← push str sc.machine
  ok (record sc { text = rest; machine = m })

-- the bytes of a symbol's name
unfoldable pub name_length : List ℕ → ℕ
name_length [] = 0
name_length (c ∷ s) =
    let n = name_length s in if c == b'_' || (c == b'.' || is_alpha_num c) then suc n else 0

abbrev pub count_eval : Globals → Globals
count_eval g = record g { redo_eval = g.redo_eval + 1 }

-- the operand that a symbol stands for
unfoldable pub push_value : Symbol → Machine → Run Machine
push_value sym m =
    if sym.flags.string
    then elim sym.string [
      | none ↦ fault
      | some text ↦ stackarg 0 (record no_flags { string = true }) text m
    ]
    else stackarg sym.value (only_unknown sym.flags) [] m

-- flags |= SYM_REF|SYM_MASREF
abbrev pub refer : Symbol → Symbol
refer sym = record sym { flags = record (sym.flags) { ref = true; masref = true } }

-- a macro stands for the first node of its text; that node is marked, and thrown away
unfoldable pub push_nested : List Symbol × Machine × Globals → Run (Machine × Globals)
push_nested ([], m, g) = fault
push_nested (sym ∷ rest, m, g) = do m' ← push_value sym m; ok (m', g)

unfoldable pub push_macro : Nested → Option (List ℕ) → Machine → Globals → Run (Machine × Globals)
push_macro nested none m g = fault
push_macro nested (some text) m g = nested text m g >>= push_nested

unfoldable pub push_known : Nested → Handle → Symbol → Machine → Globals → Run (Machine × Globals)
push_known nested h sym m g =
    let g1 = if sym.flags.unknown then count_eval g else g in
    if sym.flags.macro
    then push_macro nested sym.string m g1
    else do m' ← push_value sym m; ok (m', modify_symbol h refer g1)

-- a name that is not in the table yet is put there, unknown
unfoldable pub push_unknown : List ℕ → ℕ → Machine → Globals → Run (Machine × Globals)
push_unknown str len m g = do
  m' ← stackarg 0 unknown_flag [] m
  let (h, g1) = create_symbol g str len
  ok (
    m',
    count_eval (
        modify_symbol h
          (λ sym. record sym {
            flags = record no_flags { ref = true; masref = true; unknown = true };
          })
          g1),
  )

unfoldable pub push_name : Nested → List ℕ → ℕ → Machine → Globals → Run (Machine × Globals)
push_name nested str len m g = elim (find_symbol g str len) [
  | none ↦ push_unknown str len m g
  | some r ↦ push_known nested r.0 r.1 m g
]

unfoldable pub pushsymbol : Nested → List ℕ → Machine → Globals → Run (List ℕ × Machine × Globals)
pushsymbol nested str m g =
    let n = name_length str in
    if n == 0
    then ok (drop 1 str, say invalid_character m, g)
    else (let len = if peek n str == b'$' then n + 1 else n in
        do (m', g') ← push_name nested str len m g; ok (drop len str, m', g'))

unfoldable pub scan_symbol : Nested → Scan → Run Scan
scan_symbol nested sc = do
  (rest, m, g) ← pushsymbol nested sc.text sc.machine sc.globals
  ok (record sc { text = rest; machine = m; globals = g })

-- case '*' behind an operator: the origin
unfoldable pub scan_origin : Nested → Scan → Run Scan
scan_origin nested sc = do
  (rest, m, g) ← pushsymbol nested (b'.' ∷ []) sc.machine sc.globals
  advance 1 (record sc { machine = m; globals = g })
