-- ===== src/Exp/Literals/Digits.antt =====
-- Numbers of src/src/exp.c: what the digit loops read.
use native.Mathlib.Omega.{pow_step}
use dasm_dillon_code_sourcef.Common.{
  ℕ, zero, suc, ◌+◌, ◌-◌, ◌*◌, ◌/◌, ◌%◌, ◌^◌, ◌<◌, ◌≡◌, refl, ap, ◌∙◌, List, [], ◌∷◌, ◌++◌, none,
  some, arith, ltb→lt, true, ltb, leb, Bool-cases, inl, inr,
}
use dasm_dillon_code_sourcef.Long.{long_mod}
use dasm_dillon_code_sourcef.Util.{decimal, decimal_loop}
use dasm_dillon_code_sourcef.Exp.Literals.{scan_digits, digit_below, step_dec}

div_power : (k n : ℕ) → n < 10 ^ suc k → n / 10 < 10 ^ k
div_power k n h = omega (arith, pow_step 10 k)

leb_add : (a d : ℕ) → leb a (a + d) ≡ true
leb_add a d = ground arith

ltb_ten : (d : ℕ) → d < 10 → ltb (48 + d) 58 ≡ true
ltb_ten d h = ground arith

add_sub : (a d : ℕ) → a + d - a ≡ d
add_sub a d = omega arith

digit_below_ten : (d : ℕ) → d < 10 → digit_below 10 (b'0' + d) ≡ some d
digit_below_ten d h = rw (leb_add 48 d, ltb_ten d h, add_sub 48 d) refl

-- one digit
scan_digits_one :
    (n d : ℕ) (out : List ℕ)
    → d < 10
    → n * 10 + d < long_mod
    → scan_digits (digit_below 10) step_dec n ((b'0' + d) ∷ out)
      ≡ scan_digits (digit_below 10) step_dec (n * 10 + d) out
unfolding scan_digits
scan_digits_one n d out h k =
    rw (scan_digits, digit_below_ten d h)
      (ap (λ v. scan_digits (digit_below 10) step_dec v out) (omega arith))

scan_digits_loop :
    (k n : ℕ) (out : List ℕ)
    → n < 10 ^ k
    → n < long_mod
    → scan_digits (digit_below 10) step_dec 0 (decimal_loop k n out)
      ≡ scan_digits (digit_below 10) step_dec n out
unfolding decimal_loop
scan_digits_loop zero n out h k =
    ap (λ v. scan_digits (digit_below 10) step_dec v out) (omega arith)
scan_digits_loop (suc k) n out h l = elim (Bool-cases (ltb n 10)) [
  | inl e ↦ rw e (
      scan_digits_one 0 (n % 10) out (omega arith) (omega arith)
      ∙ ap (λ v. scan_digits (digit_below 10) step_dec v out) (omega (arith, ltb→lt n 10 e)))
  | inr e ↦ rw e (
      scan_digits_loop k (n / 10) ((b'0' + n % 10) ∷ out) (div_power k n h) (omega arith)
      ∙ scan_digits_one (n / 10) (n % 10) out (omega arith) (omega arith)
      ∙ ap (λ v. scan_digits (digit_below 10) step_dec v out) (omega arith))
]

decimal_loop_append :
    (k n : ℕ) (out rest : List ℕ) → decimal_loop k n out ++ rest ≡ decimal_loop k n (out ++ rest)
unfolding decimal_loop
decimal_loop_append zero n out rest = refl
decimal_loop_append (suc k) n out rest = elim (Bool-cases (ltb n 10)) [
  | inl e ↦ rw e refl
  | inr e ↦ rw e (decimal_loop_append k (n / 10) ((b'0' + n % 10) ∷ out) rest)
]

-- where a number ends: nothing follows, or a byte that is no digit
abbrev pub EndsNumber : List ℕ → Type 0
EndsNumber [] = Unit
EndsNumber (c ∷ s) = digit_below 10 c ≡ none

scan_digits_end :
    (n : ℕ) (s : List ℕ) → EndsNumber s → scan_digits (digit_below 10) step_dec n s ≡ (n, s)
unfolding scan_digits
scan_digits_end n [] h = refl
scan_digits_end n (c ∷ s) h = rw (scan_digits, h) refl

-- A number that `%lu` prints, followed by a byte that is no digit, is read by the loop of `pushdec` as the
-- same number, and the reading stops at that byte; the number is below 2 ^ 64.
pub scan_digits-decimal :
    (n : ℕ) (rest : List ℕ)
    → n < long_mod
    → EndsNumber rest
    → scan_digits (digit_below 10) step_dec 0 (decimal n ++ rest) ≡ (n, rest)
unfolding decimal
scan_digits-decimal n rest h e =
    ap (scan_digits (digit_below 10) step_dec 0) (decimal_loop_append 20 n [] rest)
    ∙ scan_digits_loop 20 n rest (omega arith) h
    ∙ scan_digits_end n rest e
