-- ===== src/Exp/Scan/Pieces.antt =====
-- What the pieces of a round of `eval` in src/src/exp.c leave of the text.
use dasm_dillon_code_sourcef.Common.{
  ℕ, suc, ◌+◌, ◌-◌, ◌≤◌, ◌≡◌, refl, ap, Bool, true, false, ◌&&◌, List, [], ◌∷◌, Option, none, some,
  if◌then◌else◌, ◌==◌, ltb, leb, length, length-drop, drop, arith, Run, ok, Partial, Partial-any,
  Partial-bind, Bool-cases, Option-cases, ==_iff, inl, inr,
}
use dasm_dillon_code_sourcef.Asm.{no_flags}
use dasm_dillon_code_sourcef.Symbols.{Globals}
use dasm_dillon_code_sourcef.Exp.Operators.{Operator}
use dasm_dillon_code_sourcef.Exp.Machine.{Machine, doop, stackarg}
use dasm_dillon_code_sourcef.Exp.Literals.{
  push_number, pushhex, pushoct, pushdec, pushbin, pushchar, pushstr, scan_digits, skip_string,
  char_long, hex_digit, step_hex, step_oct, step_dec, step_bin, digit_below,
}
use dasm_dillon_code_sourcef.Exp.Scan.{
  Scan, Nested, peek, advance, scan_operator, scan_operand, scan_symbol, scan_origin, pushsymbol,
  push_name, name_length,
}
use dasm_dillon_code_sourcef.Exp.Scan.Eval.{
  binary_operator, unary_operator, infix_operator, find_operator,
}

-- If the run ends, at most `b` bytes are left.
abbrev pub Leaves : ℕ → Run Scan → Type 0
Leaves b r = Partial (λ t. length t.text ≤ b) r

pub Leaves-if :
    (b : ℕ) (t : Bool) (x y : Run Scan) → Leaves b x → Leaves b y → Leaves b (if t then x else y)
Leaves-if b true x y h k = h
Leaves-if b false x y h k = k

pub Leaves-when :
    (b : ℕ) (t : Bool) (x y : Run Scan)
    → (t ≡ true → Leaves b x)
    → Leaves b y
    → Leaves b (if t then x else y)
Leaves-when b true x y h k = h refl
Leaves-when b false x y h k = k

pub advance-Leaves : (n b : ℕ) (sc : Scan) → length sc.text ≤ b + n → Leaves b (advance n sc)
unfolding advance
advance-Leaves n b sc h = elim (Bool-cases (leb n (length sc.text))) [
  | inl e ↦ rw e (omega (arith, length-drop n sc.text))
  | inr e ↦ rw e tt
]

-- the operator reads a byte at least
abbrev pub IsWide : Option (Operator × ℕ × ℕ) → Type 0
IsWide none = Unit
IsWide (some r) = 1 ≤ r.2

IsWide-if :
    (t : Bool) (x y : Option (Operator × ℕ × ℕ)) → IsWide x → IsWide y → IsWide (if t then x else y)
IsWide-if true x y h k = h
IsWide-if false x y h k = k

binary_operator-IsWide : (c next : ℕ) → IsWide (binary_operator c next)
unfolding binary_operator
binary_operator-IsWide c next = ground arith

unary_operator-IsWide : (c : ℕ) → IsWide (unary_operator c)
unfolding unary_operator
unary_operator-IsWide c = ground arith

infix_operator-IsWide : (c next : ℕ) → IsWide (infix_operator c next)
unfolding infix_operator
infix_operator-IsWide c next = ground arith

IsWide-else :
    (o x : Option (Operator × ℕ × ℕ))
    → IsWide o
    → IsWide x
    → IsWide (elim o [ some r ↦ some r | none ↦ x ])
IsWide-else none x h k = k
IsWide-else (some r) x h k = h

pub find_operator-IsWide : (lastwasop : Bool) (c next : ℕ) → IsWide (find_operator lastwasop c next)
unfolding find_operator
find_operator-IsWide lastwasop c next =
    IsWide-else (binary_operator c next)
      (if lastwasop then unary_operator c else infix_operator c next)
      (binary_operator-IsWide c next)
      (IsWide-if lastwasop (unary_operator c) (infix_operator c next) (unary_operator-IsWide c)
        (infix_operator-IsWide c next))

pub scan_operator-Leaves :
    (f : Operator) (p n b : ℕ) (sc : Scan)
    → length sc.text ≤ b + n
    → Leaves b (scan_operator f p n sc)
unfolding scan_operator
scan_operator-Leaves f p n b sc h =
    Partial-any (λ t. length t.text ≤ b) (doop f p sc.machine)
      (λ m. advance n (record sc { machine = m }))
      (λ m. advance-Leaves n b (record sc { machine = m }) h)

-- the text behind an operand
abbrev Rest : ℕ → Run (List ℕ × Machine) → Type 0
Rest b r = Partial (λ t. length t.0 ≤ b) r

pub scan_operand-Leaves :
    (push : List ℕ → Machine → Run (List ℕ × Machine)) (str : List ℕ) (b : ℕ) (sc : Scan)
    → Rest b (push str sc.machine)
    → Leaves b (scan_operand push str sc)
unfolding scan_operand
scan_operand-Leaves push str b sc h =
    Partial-bind (λ t. length t.0 ≤ b) (λ t. length t.text ≤ b) (push str sc.machine)
      (λ r. ok (record sc { text = r.0; machine = r.1 })) h (λ r k. k)

push_number-Rest :
    (v : ℕ) (rest : List ℕ) (b : ℕ) (m : Machine)
    → length rest ≤ b
    → Rest b (push_number (v, rest) m)
unfolding push_number
push_number-Rest v rest b m h =
    Partial-any (λ t. length t.0 ≤ b) (stackarg v no_flags [] m) (λ m'. ok (rest, m')) (λ m'. h)

scan_digits-none :
    (digit : ℕ → Option ℕ) (step : ℕ → ℕ → ℕ) (v c : ℕ) (s : List ℕ)
    → digit c ≡ none
    → scan_digits digit step v (c ∷ s) ≡ (v, c ∷ s)
unfolding scan_digits
scan_digits-none digit step v c s e = rw (scan_digits, e) refl

scan_digits-some :
    (digit : ℕ → Option ℕ) (step : ℕ → ℕ → ℕ) (v c d : ℕ) (s : List ℕ)
    → digit c ≡ some d
    → scan_digits digit step v (c ∷ s) ≡ scan_digits digit step (step v d) s
unfolding scan_digits
scan_digits-some digit step v c d s e = rw (scan_digits, e) refl

scan_digits-length :
    (digit : ℕ → Option ℕ) (step : ℕ → ℕ → ℕ) (v : ℕ) (s : List ℕ)
    → length (scan_digits digit step v s).1 ≤ length s
unfolding scan_digits
scan_digits-length digit step v [] = omega arith
scan_digits-length digit step v (c ∷ s) = elim (Option-cases (digit c)) [
  | inl e ↦ omega (arith, ap (λ r. length r.1) (scan_digits-none digit step v c s e))
  | inr (d, e) ↦ omega (
    arith,
    ap (λ r. length r.1) (scan_digits-some digit step v c d s e),
    scan_digits-length digit step (step v d) s,
  )
]

scan_digits-digit :
    (digit : ℕ → Option ℕ) (step : ℕ → ℕ → ℕ) (v c d : ℕ) (s : List ℕ)
    → digit c ≡ some d
    → length (scan_digits digit step v (c ∷ s)).1 ≤ length s
scan_digits-digit digit step v c d s e = omega (
  arith,
  ap (λ r. length r.1) (scan_digits-some digit step v c d s e),
  scan_digits-length digit step (step v d) s,
)

skip_string-length : (s : List ℕ) → length (skip_string s) ≤ length s
unfolding skip_string
skip_string-length [] = omega arith
skip_string-length (c ∷ s) = elim (Bool-cases (c == 0x22)) [
  | inl e ↦ rw e (omega arith)
  | inr e ↦ rw e (omega (arith, skip_string-length s))
]

pub pushstr-Rest : (s : List ℕ) (m : Machine) → Rest (length s) (pushstr s m)
unfolding pushstr
pushstr-Rest s m =
    Partial-any (λ t. length t.0 ≤ length s) (stackarg 0 (record no_flags { string = true }) s m)
      (λ m'. ok (skip_string s, m')) (λ m'. skip_string-length s)

pub pushchar-Rest : (s : List ℕ) (m : Machine) → Rest (length s) (pushchar s m)
unfolding pushchar
pushchar-Rest [] m = push_number-Rest 32 [] 0 m (omega arith)
pushchar-Rest (c ∷ s) m = push_number-Rest (char_long c) s (suc (length s)) m (omega arith)

pub pushoct-Rest :
    (c : ℕ) (s : List ℕ) (m : Machine) → (c == b'0') ≡ true → Rest (length s) (pushoct (c ∷ s) m)
unfolding pushoct
pushoct-Rest c s m h =
    push_number-Rest _ _ (length s) m
      (scan_digits-digit (digit_below 8) step_oct 0 c 0 s (rw ((==_iff c b'0').0 h) refl))

pub pushdec-Rest :
    (c : ℕ) (s : List ℕ) (m : Machine)
    → (ltb b'0' c && leb c b'9') ≡ true
    → Rest (length s) (pushdec (c ∷ s) m)
unfolding pushdec
pushdec-Rest c s m h =
    push_number-Rest _ _ (length s) m
      (scan_digits-digit (digit_below 10) step_dec 0 c (c - b'0') s (ground arith))

pub pushhex-Rest : (s : List ℕ) (m : Machine) → Rest (length s) (pushhex s m)
unfolding pushhex
pushhex-Rest s m = push_number-Rest _ _ (length s) m (scan_digits-length hex_digit step_hex 0 s)

pub pushbin-Rest : (s : List ℕ) (m : Machine) → Rest (length s) (pushbin s m)
unfolding pushbin
pushbin-Rest s m =
    push_number-Rest _ _ (length s) m (scan_digits-length (digit_below 2) step_bin 0 s)

-- the text behind a symbol
abbrev Behind : ℕ → Run (List ℕ × Machine × Globals) → Type 0
Behind b r = Partial (λ t. length t.0 ≤ b) r

pushsymbol-Behind :
    (nested : Nested) (c : ℕ) (s : List ℕ) (m : Machine) (g : Globals)
    → Behind (length s) (pushsymbol nested (c ∷ s) m g)
unfolding pushsymbol
pushsymbol-Behind nested c s m g = elim (Bool-cases (name_length (c ∷ s) == 0)) [
  | inl e ↦ rw e (omega arith)
  | inr e ↦
      let n = name_length (c ∷ s) in
      let len = if peek n (c ∷ s) == b'$' then n + 1 else n in
      let pos : 1 ≤ len = ground arith in
      rw e (
        Partial-any (λ t. length t.0 ≤ length s) (push_name nested (c ∷ s) len m g)
          (λ r. ok (drop len (c ∷ s), r.0, r.1)) (λ r. omega (arith, length-drop len (c ∷ s))))
]

pub scan_symbol-Leaves :
    (nested : Nested) (c : ℕ) (s : List ℕ) (sc : Scan)
    → Leaves (length s) (scan_symbol nested (record sc { text = c ∷ s }))
unfolding scan_symbol
scan_symbol-Leaves nested c s sc =
    Partial-bind (λ t. length t.0 ≤ length s) (λ t. length t.text ≤ length s)
      (pushsymbol nested (c ∷ s) sc.machine sc.globals)
      (λ r. ok (record sc { text = r.0; machine = r.1; globals = r.2 }))
      (pushsymbol-Behind nested c s sc.machine sc.globals) (λ r k. k)

pub scan_origin-Leaves :
    (nested : Nested) (b : ℕ) (sc : Scan)
    → length sc.text ≤ b + 1
    → Leaves b (scan_origin nested sc)
unfolding scan_origin
scan_origin-Leaves nested b sc h =
    Partial-any (λ t. length t.text ≤ b) (pushsymbol nested (b'.' ∷ []) sc.machine sc.globals)
      (λ r. advance 1 (record sc { machine = r.1; globals = r.2 }))
      (λ r. advance-Leaves 1 b (record sc { machine = r.1; globals = r.2 }) h)
