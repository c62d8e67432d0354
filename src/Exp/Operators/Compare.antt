-- ===== src/Exp/Operators/Compare.antt =====
-- The comparison operators of src/src/exp.c on the integers that their operands stand for.
use dasm_dillon_code_sourcef.Common.{
  ℕ, ◌<◌, ◌≡◌, refl, ap, ◌∙◌, Bool, true, false, not, [], if◌then◌else◌, ok,
}
use dasm_dillon_code_sourcef.Common.Int.{ltb_ℤ}
use dasm_dillon_code_sourcef.Asm.{Flags, or_flags}
use dasm_dillon_code_sourcef.Long.{long_mod}
use dasm_dillon_code_sourcef.Long.Signed.{signed, lt_long-ltb_ℤ}
use dasm_dillon_code_sourcef.Exp.Operators.{
  Operator, OpResult, apply_operator, truth, greater, greatereq, smaller, smallereq,
}

-- The operator pushes 1 where the test holds and 0 where it does not, with the flags of both operands, and says nothing.
abbrev pub Pushes : Operator → ℕ → ℕ → Flags → Flags → Bool → Type 0
Pushes f v1 v2 f1 f2 test =
    apply_operator f v1 v2 f1 f2 ≡ ok ((if test then 1 else 0), or_flags f1 f2, [])

pushes_truth : (test : Bool) → truth test ≡ (if test then 1 else 0)
pushes_truth true = refl
pushes_truth false = refl

-- Each of the four order comparisons pushes the truth of its own comparison of the signed integers that the two patterns
-- of 64 bits stand for, the left operand on its left, with the flags of both operands and no diagnostic.
pub apply_operator-ltb_ℤ :
    (v1 v2 : ℕ) (f1 f2 : Flags)
    → v1 < long_mod
    → v2 < long_mod
    → Pushes smaller v1 v2 f1 f2 (ltb_ℤ (signed v1) (signed v2))
      × Pushes greater v1 v2 f1 f2 (ltb_ℤ (signed v2) (signed v1))
      × Pushes smallereq v1 v2 f1 f2 (not (ltb_ℤ (signed v2) (signed v1)))
      × Pushes greatereq v1 v2 f1 f2 (not (ltb_ℤ (signed v1) (signed v2)))
unfolding apply_operator
apply_operator-ltb_ℤ v1 v2 f1 f2 h1 h2 =
    let below = lt_long-ltb_ℤ v1 v2 h1 h2 in
    let above = lt_long-ltb_ℤ v2 v1 h2 h1 in
    let done : (x y : Bool) → x ≡ y → ◌≡◌ {A = ℕ} (truth x) (if y then 1 else 0) =
      λ x y e. ap truth e ∙ pushes_truth y in
    let result : ℕ → OpResult = λ n. (n, or_flags f1 f2, []) in
    (
      ap (λ n. ok (result n)) (done _ _ below),
      ap (λ n. ok (result n)) (done _ _ above),
      ap (λ n. ok (result n)) (done _ _ (ap not above)),
      ap (λ n. ok (result n)) (done _ _ (ap not below)),
    )
