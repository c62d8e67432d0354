-- ===== src/Exp/Scan/Eval.antt =====
-- The rounds of `eval` in src/src/exp.c, its loop and its end.
use dasm_dillon_code_sourcef.Common.{
  ℕ, zero, suc, Bool, true, false, not, ◌&&◌, ◌||◌, List, [], ◌∷◌, ◌++◌, Option, none, some,
  if◌then◌else◌, ◌==◌, ltb, leb, length, reverse, Run, ok, fault, out_of_fuel, ◌>>=◌,
}
use dasm_dillon_code_sourcef.Asm.{
  Symbol, AddressMode, indword, indbytex, indbytey, zero_x, zero_y, imm8, byteadr, is_imp,
  is_indword, alloc_symbol, any_flag,
}
use dasm_dillon_code_sourcef.Long.{is_negative, magnitude}
use dasm_dillon_code_sourcef.Util.{tolower, decimal}
use dasm_dillon_code_sourcef.Symbols.{Globals}
use dasm_dillon_code_sourcef.Exp.Operators.{
  Operator, mult, div, mod_, add_, sub_, shiftleft, shiftright, greater, greatereq, smaller,
  smallereq, eqeq, noteq, andand, oror, xor_, and_, or_, question, takelsb, takemsb, negate,
  invert_, not_, syntax_one, no_arg_on_stack,
}
use dasm_dillon_code_sourcef.Exp.Machine.{
  Machine, Arg, say, at_base, reset_args, reset_ops, drained, open_bracket, close_bracket,
}
use dasm_dillon_code_sourcef.Exp.Literals.{pushhex, pushoct, pushdec, pushbin, pushchar, pushstr}
use dasm_dillon_code_sourcef.Exp.Scan.{
  Scan, Nested, peek, is_digit, is_alpha_num, advance, report, scan_operator, scan_operand,
  scan_symbol, scan_origin,
}

-- `%ld`
unfoldable pub signed_decimal : ℕ → List ℕ
signed_decimal v = if is_negative v then b'-' ∷ decimal (magnitude v) else decimal v

-- "]d": a known value becomes its decimal text
unfoldable pub string_conversion : Machine → Run Machine
string_conversion m = elim m.args [
  | [] ↦ fault
  | a ∷ rest ↦ ok (
      if any_flag a.flags
      then m
      else record m { args = record a { string = some (signed_decimal a.value) } ∷ rest })
]

-- case ']'
unfoldable pub scan_close : Scan → Run Scan
scan_close sc = do
  m ← close_bracket sc.machine
  sc1 ← advance 1 (record sc { machine = m })
  if length m.args == m.argibase
      then ok (report no_arg_on_stack sc1)
      else if peek 0 sc1.text == b'd'
      then (do m2 ← string_conversion m; advance 1 (record sc1 { machine = m2 }))
      else ok sc1

-- a finished node takes the value, the flags and the string of the top operand
unfoldable pub finish_node : Arg → Symbol → Symbol
finish_node a cur = elim a.string [
  | none ↦ record cur { value = a.value; flags = a.flags; string = none }
  | some s ↦ record cur {
    value = a.value;
    flags = record (a.flags) { string = true };
    string = some s;
  }
]

-- the part of case ',' that starts another node
unfoldable pub next_node : Scan → Run Scan
next_node sc = elim sc.machine.args [
  | [] ↦ fault
  | a ∷ rest ↦
      let m = record (sc.machine) { args = rest } in
      let m2 = if length rest == m.argibase then m else say syntax_one m in
      ok (record sc {
        machine = m2;
        earlier = finish_node a sc.cur ∷ sc.earlier;
        cur = alloc_symbol;
      })
]

abbrev pub set_mode : AddressMode → Scan → Scan
set_mode mode sc = record sc { cur = record (sc.cur) { addrmode = mode } }

-- case ','
unfoldable pub scan_comma : Scan → Run Scan
scan_comma sc = do
  m ← drained sc.machine
  let sc1 = record sc { machine = record m { lastwasop = true } }
  let scr = tolower (peek 1 sc.text)
  let alone = not (is_alpha_num (peek 2 sc.text))
  if is_indword sc.cur.addrmode && (scr == b'x' && alone)
      then advance 2 (set_mode indbytex sc1)
      else if scr == b'x' && alone
      then advance 2 (set_mode zero_x sc1)
      else if scr == b'y' && alone
      then advance 2 (set_mode zero_y sc1)
      else next_node sc1 >>= advance 1

-- case ')' where the parentheses give the addressing mode
unfoldable pub scan_indirect : Scan → Run Scan
scan_indirect sc =
    if is_indword sc.cur.addrmode && (peek 1 sc.text == b',' && tolower (peek 2 sc.text) == b'y')
    then advance 3 (set_mode indbytey sc)
    else advance 1 sc

-- case '['
unfoldable pub scan_open : Scan → Run Scan
scan_open sc = do m ← open_bracket sc.machine; advance 1 (record sc { machine = m })

-- the operators that are read alike wherever they stand
unfoldable pub binary_operator : ℕ → ℕ → Option (Operator × ℕ × ℕ)
binary_operator c next =
    if c == b'/'
    then some (div, 20, 1)
    else if c == b'?'
    then some (question, 10, 1)
    else if c == b'+'
    then some (add_, 19, 1)
    else if c == b'='
    then some (eqeq, 16, if next == b'=' then 2 else 1)
    else if c == b'&'
    then (if next == b'&' then some (andand, 12, 2) else some (and_, 15, 1))
    else if c == b'^'
    then some (xor_, 14, 1)
    else if c == b'|'
    then (if next == b'|' then some (oror, 11, 2) else some (or_, 13, 1))
    else none

-- behind an operator: the unary operators
unfoldable pub unary_operator : ℕ → Option (Operator × ℕ × ℕ)
unary_operator c =
    if c == b'~'
    then some (invert_, 128, 1)
    else if c == b'-'
    then some (negate, 128, 1)
    else if c == b'>'
    then some (takemsb, 128, 1)
    else if c == b'<'
    then some (takelsb, 128, 1)
    else if c == b'!'
    then some (not_, 128, 1)
    else none

-- behind an operand: the binary ones of the same bytes
unfoldable pub infix_operator : ℕ → ℕ → Option (Operator × ℕ × ℕ)
infix_operator c next =
    if c == b'*'
    then some (mult, 20, 1)
    else if c == b'%'
    then some (mod_, 20, 1)
    else if c == b'-'
    then some (sub_, 19, 1)
    else if c == b'>'
    then (if next == b'>'
        then some (shiftright, 18, 2)
        else if next == b'='
        then some (greatereq, 17, 2)
        else some (greater, 17, 1))
    else if c == b'<'
    then (if next == b'<'
        then some (shiftleft, 18, 2)
        else if next == b'='
        then some (smallereq, 17, 2)
        else some (smaller, 17, 1))
    else if c == b'!'
    then some (noteq, 16, 2)
    else none

-- The operator, its priority and its bytes, where the byte `c` is one.
unfoldable pub find_operator : Bool → ℕ → ℕ → Option (Operator × ℕ × ℕ)
find_operator lastwasop c next = elim (binary_operator c next) [
  | some r ↦ some r
  | none ↦ if lastwasop then unary_operator c else infix_operator c next
]

-- the digits that the default case steps over
unfoldable pub skip_digits : List ℕ → List ℕ
skip_digits [] = []
skip_digits (c ∷ s) = let rest = skip_digits s in if is_digit c then rest else c ∷ s

-- the default case
unfoldable pub scan_default : Nested → ℕ → Scan → Run Scan
scan_default nested c sc =
    if peek 0 (skip_digits sc.text) == b'$'
    then scan_symbol nested sc
    else if c == b'0'
    then scan_operand pushoct sc.text sc
    else if ltb b'0' c && leb c b'9'
    then scan_operand pushdec sc.text sc
    else scan_symbol nested sc

-- the cases that are no operators, for the byte `c` at the head of the text, and `rest` behind it
unfoldable pub scan_other : Nested → ℕ → List ℕ → Scan → Run Scan
scan_other nested c rest sc =
    if c == b' ' || c == 10
    then advance 1 sc
    else if c == b'~'
    then advance 1 (report syntax_one sc)
    else if c == b'*'
    then scan_origin nested sc
    else if c == b'%'
    then scan_operand pushbin rest sc
    else if c == b'(' && sc.wantmode
    then advance 1 (set_mode indword sc)
    else if c == b'(' || c == b'['
    then scan_open sc
    else if c == b')' && sc.wantmode
    then scan_indirect sc
    else if c == b')' || c == b']'
    then scan_close sc
    else if c == b'#'
    then advance 1 (set_mode imm8 (record sc { wantmode = false }))
    else if c == b','
    then scan_comma sc
    else if c == b'$'
    then scan_operand pushhex rest sc
    else if c == 39
    then scan_operand pushchar rest sc
    else if c == 0x22
    then scan_operand pushstr rest sc
    else scan_default nested c sc

-- one round of the loop, at the byte `c`
unfoldable pub scan_char : Nested → ℕ → List ℕ → Scan → Run Scan
scan_char nested c rest sc = elim (find_operator sc.machine.lastwasop c (peek 0 rest)) [
  | some r ↦ scan_operator r.0 r.1 r.2 sc
  | none ↦ scan_other nested c rest sc
]

unfoldable pub scan_text : Nested → List ℕ → Scan → Run Scan
scan_text nested [] sc = ok sc
scan_text nested (c ∷ rest) sc = scan_char nested c rest sc

-- The loop. Each round reads at least a byte, so the bytes bound the rounds.
unfoldable pub scan_loop : ℕ → Nested → Scan → Run Scan
scan_loop zero nested sc = if length sc.text == 0 then ok sc else out_of_fuel
scan_loop (suc k) nested sc =
    let more = scan_text nested sc.text sc >>= scan_loop k nested in
    if length sc.text == 0 then ok sc else more

-- base->addrmode = AM_BYTEADR, where it is 0
unfoldable pub base_mode : List Symbol → List Symbol
base_mode [] = []
base_mode (base ∷ rest) =
    (if is_imp base.addrmode then record base { addrmode = byteadr } else base) ∷ rest

-- the list from `base` to `cur`
abbrev pub node_list : Scan → List Symbol
node_list sc = reverse sc.earlier ++ sc.cur ∷ []

unfoldable pub last_node : Scan → Run (List Symbol × Machine)
last_node sc = elim sc.machine.args [
  | [] ↦ fault
  | a ∷ rest ↦ ok (
    base_mode (reverse sc.earlier ++ finish_node a sc.cur ∷ []),
    record (sc.machine) { args = rest },
  )
]

-- the end of `eval`, behind the loops
unfoldable pub finish_eval : ℕ → ℕ → Scan → Run (List Symbol × Machine × Globals)
finish_eval oldargibase oldopibase sc = do
  m ← drained sc.machine
  (nodes, m1) ←
      if length m.args == m.argibase
      then ok (node_list (record sc { machine = m }), m)
      else last_node (record sc { machine = m })
  m2 ← reset_args (if length m1.args == m1.argibase && at_base m1 then m1 else say syntax_one m1)
  m3 ← reset_ops m2
  ok (nodes, record m3 { argibase = oldargibase; opibase = oldopibase }, sc.globals)

-- the start of `eval`: the stacks begin where they are
abbrev pub start_eval : List ℕ → Bool → Machine → Globals → Scan
start_eval str wantmode m g = record {
  text = str;
  wantmode = wantmode;
  cur = alloc_symbol;
  earlier = [];
  machine = record m { argibase = length m.args; opibase = length m.ops; lastwasop = true };
  globals = g;
}

-- `eval(str, wantmode)`. The fuel bounds how deep macros stand in one another, which the program
-- leaves to the C stack.
unfoldable pub eval : ℕ → List ℕ → Bool → Machine → Globals → Run (List Symbol × Machine × Globals)
eval zero str wantmode m g = out_of_fuel
eval (suc depth) str wantmode m g =
    scan_loop (length str) (λ text m' g'. eval depth text false m' g') (start_eval str wantmode m g)
    >>= finish_eval m.argibase m.opibase
