-- ===== src/Exp/Scan/Numbers.antt =====
-- `eval` of src/src/exp.c on the text of a number.
use native.Mathlib.Omega.{pow_step}
use dasm_dillon_code_sourcef.Common.{
  ℕ, zero, suc, ◌+◌, ◌-◌, ◌/◌, ◌%◌, ◌^◌, ◌≤◌, ◌<◌, ◌≡◌, refl, ap, sym, ◌∙◌, Bool, true, false, ◌&&◌,
  List, [], ◌∷◌, ◌++◌, none, some, ◌==◌, ltb, leb, length, arith, ok, ◌>>=◌, Bool-cases, inl, inr,
  ltb→lt, ==_refl,
}
use dasm_dillon_code_sourcef.Asm.{alloc_symbol, byteadr, no_flags}
use dasm_dillon_code_sourcef.Long.{long_mod}
use dasm_dillon_code_sourcef.Util.{decimal, decimal_loop}
use dasm_dillon_code_sourcef.Symbols.{Globals}
use dasm_dillon_code_sourcef.Exp.Machine.{
  Machine, Arg, Op, reset_args, reset_ops, at_base, unary_on_top, stackarg, store_arg, make_arg,
}
use dasm_dillon_code_sourcef.Exp.Machine.Steps.{settled_idle}
use dasm_dillon_code_sourcef.Exp.Machine.Drain.{drained_idle}
use dasm_dillon_code_sourcef.Exp.Literals.{scan_digits, digit_below, step_dec, pushdec, push_number}
use dasm_dillon_code_sourcef.Exp.Literals.Digits.{scan_digits-decimal}
use dasm_dillon_code_sourcef.Exp.Scan.{Scan, Nested, is_digit, peek, scan_operand, scan_operator}
use dasm_dillon_code_sourcef.Exp.Scan.Eval.{
  find_operator, binary_operator, unary_operator, infix_operator, scan_other, scan_default,
  scan_char, scan_text, scan_loop, skip_digits, eval, start_eval, finish_eval, last_node, base_mode,
  finish_node,
}

digit_no_operator :
    (lastwasop : Bool) (c next : ℕ) → 48 ≤ c → c < 58 → find_operator lastwasop c next ≡ none
unfolding find_operator binary_operator unary_operator infix_operator
digit_no_operator lastwasop c next h k = ground arith

not_small : (n : ℕ) → ltb n 10 ≡ false → 10 ≤ n
not_small n e = ground arith

-- the first digit of a number that is not zero
decimal_loop-head :
    (k n : ℕ) (out : List ℕ)
    → 0 < n
    → n < 10 ^ k
    → (c : ℕ) × (s : List ℕ) × (decimal_loop k n out ≡ c ∷ s) × (48 < c) × (c < 58)
unfolding decimal_loop
decimal_loop-head zero n out h l = absurd (omega arith)
decimal_loop-head (suc k) n out h l = elim (Bool-cases (ltb n 10)) [
  | inl e ↦ rw e (b'0' + n % 10, out, refl, omega (arith, ltb→lt n 10 e), omega arith)
  | inr e ↦ rw e (
      decimal_loop-head k (n / 10) ((b'0' + n % 10) ∷ out) (omega (arith, not_small n e))
        (omega (arith, pow_step 10 k)))
]

digit_other :
    (nested : Nested) (c : ℕ) (s : List ℕ) (sc : Scan)
    → 48 ≤ c
    → c < 58
    → scan_other nested c s sc ≡ scan_default nested c sc
unfolding scan_other
digit_other nested c s sc h k = ground arith

is_digit_of : (d : ℕ) → d < 10 → is_digit (b'0' + d) ≡ true
is_digit_of d h = ground arith

skip_digits_loop : (k n : ℕ) (out : List ℕ) → skip_digits (decimal_loop k n out) ≡ skip_digits out
unfolding decimal_loop skip_digits
skip_digits_loop zero n out = refl
skip_digits_loop (suc k) n out = elim (Bool-cases (ltb n 10)) [
  | inl e ↦ rw (e, is_digit_of (n % 10) (omega arith)) refl
  | inr e ↦ rw e (
      skip_digits_loop k (n / 10) ((b'0' + n % 10) ∷ out)
      ∙ rw (is_digit_of (n % 10) (omega arith)) refl)
]

skip_digits-decimal : (n : ℕ) → skip_digits (decimal n) ≡ []
unfolding decimal skip_digits
skip_digits-decimal n = skip_digits_loop 20 n []

base-unary_at :
    (l : List Op) (m : Machine)
    → at_base (record m { ops = l }) ≡ true
    → unary_on_top (record m { ops = l }) ≡ false
unfolding unary_on_top
base-unary_at [] m h = refl
base-unary_at (o ∷ os) m h = rw h refl

base-unary_on_top : (m : Machine) → at_base m ≡ true → unary_on_top m ≡ false
base-unary_on_top m h = base-unary_at m.ops m h

-- the machine with a number on top
abbrev number_arg : ℕ → Arg
number_arg n = record { value = n; flags = no_flags; string = none }

abbrev with_number : ℕ → Machine → Machine
with_number n m = record m { args = number_arg n ∷ m.args; lastwasop = false }

stackarg_number :
    (n : ℕ) (m : Machine)
    → at_base m ≡ true
    → length m.args < 63
    → stackarg n no_flags [] m ≡ ok (with_number n m)
unfolding stackarg store_arg make_arg
stackarg_number n m base room =
    let below : (suc (length m.args) == 64) ≡ false = ground arith in
    rw below (settled_idle (with_number n m) (base-unary_on_top (with_number n m) base))

append_nil : (s : List ℕ) → s ++ [] ≡ s
append_nil [] = refl
append_nil (c ∷ s) = ap (λ t. c ∷ t) (append_nil s)

scan_default_number :
    (nested : Nested) (n c : ℕ) (sc : Scan)
    → n < long_mod
    → 48 < c
    → c < 58
    → sc.text ≡ decimal n
    → at_base sc.machine ≡ true
    → length sc.machine.args < 63
    → scan_default nested c sc ≡ ok (record sc { text = []; machine = with_number n sc.machine })
unfolding scan_default scan_operand pushdec push_number
scan_default_number nested n c sc h l u e base room =
    let skipped : skip_digits sc.text ≡ [] = ap skip_digits e ∙ skip_digits-decimal n in
    let no_zero : (c == b'0') ≡ false = ground arith in
    let digit : (ltb b'0' c && leb c b'9') ≡ true = ground arith in
    let read : scan_digits (digit_below 10) step_dec 0 sc.text ≡ (n, []) =
      ap (scan_digits (digit_below 10) step_dec 0) (e ∙ sym (append_nil (decimal n)))
      ∙ scan_digits-decimal n [] h tt in
    rw (skipped, no_zero, digit, read, stackarg_number n sc.machine base room) refl

scan_text_number :
    (nested : Nested) (n c : ℕ) (s : List ℕ) (sc : Scan)
    → n < long_mod
    → 48 < c
    → c < 58
    → decimal n ≡ c ∷ s
    → at_base sc.machine ≡ true
    → length sc.machine.args < 63
    → scan_text nested (c ∷ s) (record sc { text = c ∷ s })
      ≡ ok (record sc { text = []; machine = with_number n sc.machine })
unfolding scan_text scan_char
scan_text_number nested n c s sc h l u e base room =
    let at : Scan = record sc { text = c ∷ s } in
    ap (λ o. elim o [ some r ↦ scan_operator r.0 r.1 r.2 at | none ↦ scan_other nested c s at ])
      (digit_no_operator sc.machine.lastwasop c (peek 0 s) (omega arith) u)
    ∙ digit_other nested c s at (omega arith) u
    ∙ scan_default_number nested n c at h l u (sym e) base room

scan_loop_end :
    (k : ℕ) (nested : Nested) (sc : Scan)
    → scan_loop k nested (record sc { text = [] }) ≡ ok (record sc { text = [] })
unfolding scan_loop
scan_loop_end zero nested sc = refl
scan_loop_end (suc k) nested sc = refl

scan_loop_step :
    (nested : Nested) (n c : ℕ) (s : List ℕ) (sc : Scan)
    → n < long_mod
    → 48 < c
    → c < 58
    → decimal n ≡ c ∷ s
    → at_base sc.machine ≡ true
    → length sc.machine.args < 63
    → scan_loop (length (c ∷ s)) nested (record sc { text = c ∷ s })
      ≡ ok (record sc { text = []; machine = with_number n sc.machine })
unfolding scan_loop
scan_loop_step nested n c s sc h l u e base room =
    let left : (suc (length s) == 0) ≡ false = ground arith in
    rw left (
      ap (λ r. r >>= scan_loop (length s) nested)
        (scan_text_number nested n c s sc h l u e base room)
      ∙ scan_loop_end (length s) nested (record sc { machine = with_number n sc.machine }))

leb_self : (a : ℕ) → leb a a ≡ true
leb_self a = ground arith

sub_self : (a : ℕ) → a - a ≡ 0
sub_self a = omega arith

reset_args_idle :
    (m : Machine)
    → reset_args (record m { argibase = length m.args })
      ≡ ok (record m { argibase = length m.args })
unfolding reset_args
reset_args_idle m = rw (leb_self (length m.args), sub_self (length m.args)) refl

reset_ops_idle :
    (m : Machine)
    → reset_ops (record m { opibase = length m.ops }) ≡ ok (record m { opibase = length m.ops })
unfolding reset_ops
reset_ops_idle m = rw (leb_self (length m.ops), sub_self (length m.ops)) refl

finish_number :
    (n : ℕ) (str : List ℕ) (wantmode : Bool) (m : Machine) (g : Globals)
    → finish_eval m.argibase m.opibase (record (start_eval str wantmode m g) {
      text = [];
      machine = with_number n (start_eval str wantmode m g).machine;
    })
      ≡ ok (
        record alloc_symbol { value = n; addrmode = byteadr } ∷ [],
        record m { lastwasop = false },
        g,
      )
unfolding finish_eval last_node base_mode finish_node
finish_number n str wantmode m g =
    let m1 : Machine = record (with_number n m) {
      argibase = length m.args;
      opibase = length m.ops;
    } in
    let pushed : (suc (length m.args) == length m.args) ≡ false = ground arith in
    let m2 : Machine = record m {
      argibase = length m.args;
      opibase = length m.ops;
      lastwasop = false;
    } in
    rw
      (
        drained_idle m1 (==_refl (length m.ops)),
        pushed,
        ==_refl (length m.args),
        ==_refl (length m.ops),
        reset_args_idle m2,
        reset_ops_idle m2,
      )
      refl

-- `eval` on the decimal text of a number from 1 on and below 2 ^ 64, with room on the operand stack, returns
-- one node: it has the number as its value, which is known, and the mode of a byte address. The stacks and
-- the globals are as before; only `Lastwasop` is reset.
pub eval-decimal :
    (depth n : ℕ) (wantmode : Bool) (m : Machine) (g : Globals)
    → 0 < n
    → n < long_mod
    → length m.args < 63
    → eval (suc depth) (decimal n) wantmode m g
      ≡ ok (
        record alloc_symbol { value = n; addrmode = byteadr } ∷ [],
        record m { lastwasop = false },
        g,
      )
unfolding eval decimal
eval-decimal depth n wantmode m g z h room =
    let (c, s, e, l, u) = decimal_loop-head 20 n [] z (omega arith) in
    let nested : Nested = λ text m' g'. eval depth text false m' g' in
    ap
      (λ t.
        scan_loop (length t) nested (start_eval t wantmode m g)
        >>= finish_eval m.argibase m.opibase)
      e
    ∙ ap (λ r. r >>= finish_eval m.argibase m.opibase)
        (scan_loop_step nested n c s (start_eval [] wantmode m g) h l u e (==_refl (length m.ops))
          room)
    ∙ finish_number n [] wantmode m g
