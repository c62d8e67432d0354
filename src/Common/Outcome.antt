-- ===== src/Common/Outcome.antt =====
-- Outcomes of C code. `fault` is an access outside an array, a call through a null pointer or
-- another step that the C standard leaves undefined; `out_of_fuel` has no counterpart in the
-- program.
use mathlib.Core.Path.{◌≡◌, refl, subst}
use mathlib.Core.Bool.{Bool, true, false}
use dasm_dillon_code_sourcef.Common.Tests.{if◌then◌else◌}

pub data Run {ℓ} (A : Type ℓ) : Type ℓ where
  ok : A → Run A
  fault : Run A
  out_of_fuel : Run A

infixl 5 ◌>>=◌ ◌>>◌
abbrev pub ◌>>=◌ {ℓ κ} : {A : Type ℓ} {B : Type κ} → Run A → (A → Run B) → Run B
ok a >>= f = f a
fault >>= f = fault
out_of_fuel >>= f = out_of_fuel

abbrev pub ◌>>◌ {ℓ} : {B : Type ℓ} → Run (Unit {0}) → Run B → Run B
m >> k = m >>= λ _. k

-- `P` holds of the result, if the run ends without a fault.
abbrev pub Partial {ℓ} : {A : Type ℓ} → (A → Type 0) → Run A → Type 0
Partial P (ok a) = P a
Partial P fault = Unit
Partial P out_of_fuel = Unit

-- The run ends without a fault, and `P` holds of its result.
abbrev pub Total {ℓ} : {A : Type ℓ} → (A → Type 0) → Run A → Type 0
Total P (ok a) = P a
Total P fault = ⊥
Total P out_of_fuel = ⊥

-- The run comes to an end, by a fault or with a result of which `P` holds.
abbrev pub Ended {ℓ} : {A : Type ℓ} → (A → Type 0) → Run A → Type 0
Ended P (ok a) = P a
Ended P fault = Unit
Ended P out_of_fuel = ⊥

module _ {ℓ} {A : Type ℓ} (P : A → Type 0) where
  pub Ended-bind {κ} :
      {B : Type κ} (Q : B → Type 0) (r : Run A) (f : A → Run B)
      → Ended P r
      → ((a : A) → P a → Ended Q (f a))
      → Ended Q (r >>= f)
  Ended-bind Q (ok a) f h k = k a h
  Ended-bind Q fault f h k = tt
  Ended-bind Q out_of_fuel f h k = absurd h

  pub Partial-bind {κ} :
      {B : Type κ} (Q : B → Type 0) (r : Run A) (f : A → Run B)
      → Partial P r
      → ((a : A) → P a → Partial Q (f a))
      → Partial Q (r >>= f)
  Partial-bind Q (ok a) f h k = k a h
  Partial-bind Q fault f h k = tt
  Partial-bind Q out_of_fuel f h k = tt

  pub Total-bind {κ} :
      {B : Type κ} (Q : B → Type 0) (r : Run A) (f : A → Run B)
      → Total P r
      → ((a : A) → P a → Total Q (f a))
      → Total Q (r >>= f)
  Total-bind Q (ok a) f h k = k a h
  Total-bind Q fault f h k = absurd h
  Total-bind Q out_of_fuel f h k = absurd h

  pub Total-weaken : (Q : A → Type 0) (r : Run A) → Total P r → ((a : A) → P a → Q a) → Total Q r
  Total-weaken Q (ok a) h k = k a h
  Total-weaken Q fault h k = absurd h
  Total-weaken Q out_of_fuel h k = absurd h

  pub Partial-ok : (r : Run A) (a : A) → r ≡ ok a → Partial P r → P a
  Partial-ok (ok b) a e h = subst P (cc) h
  Partial-ok fault a e h = cc
  Partial-ok out_of_fuel a e h = cc

  pub Total-Partial : (r : Run A) → Total P r → Partial P r
  Total-Partial (ok a) h = h
  Total-Partial fault h = tt
  Total-Partial out_of_fuel h = tt

pub Partial-any {ℓ κ} :
    {A : Type ℓ} {B : Type κ} (Q : B → Type 0) (r : Run A) (f : A → Run B)
    → ((a : A) → Partial Q (f a))
    → Partial Q (r >>= f)
Partial-any Q (ok a) f k = k a
Partial-any Q fault f k = tt
Partial-any Q out_of_fuel f k = tt

-- Two continuations that agree wherever the run can end.
pub bind_congr {ℓ κ} :
    {A : Type ℓ} {B : Type κ} (P : A → Type 0) (r : Run A) (f g : A → Run B)
    → Partial P r
    → ((a : A) → P a → f a ≡ g a)
    → (r >>= f) ≡ (r >>= g)
bind_congr P (ok a) f g h k = k a h
bind_congr P fault f g h k = refl
bind_congr P out_of_fuel f g h k = refl

pub bind_assoc {ℓ κ λ'} :
    {A : Type ℓ} {B : Type κ} {C : Type λ'} (r : Run A) (f : A → Run B) (g : B → Run C)
    → ((r >>= f) >>= g) ≡ (r >>= (λ a. f a >>= g))
bind_assoc (ok a) f g = refl
bind_assoc fault f g = refl
bind_assoc out_of_fuel f g = refl

pub bind_congr_all {ℓ κ} :
    {A : Type ℓ} {B : Type κ} (r : Run A) {f g : A → Run B}
    → ((a : A) → f a ≡ g a)
    → (r >>= f) ≡ (r >>= g)
bind_congr_all (ok a) k = k a
bind_congr_all fault k = refl
bind_congr_all out_of_fuel k = refl

pub bind_ok {ℓ} : {A : Type ℓ} (r : Run A) → (r >>= (λ a. ok a)) ≡ r
bind_ok (ok a) = refl
bind_ok fault = refl
bind_ok out_of_fuel = refl

pub Partial-both {ℓ} :
    {A : Type ℓ} (P Q : A → Type 0) (r : Run A)
    → Partial P r
    → Partial Q r
    → Partial (λ a. P a × Q a) r
Partial-both P Q (ok a) h k = (h, k)
Partial-both P Q fault h k = tt
Partial-both P Q out_of_fuel h k = tt

-- An outcome that depends on a test.
pub Partial-if {ℓ} :
    {A : Type ℓ} (P : A → Type 0) (b : Bool) (x y : Run A)
    → (b ≡ true → Partial P x)
    → (b ≡ false → Partial P y)
    → Partial P (if b then x else y)
Partial-if P true x y h k = h refl
Partial-if P false x y h k = k refl

pub Total-if {ℓ} :
    {A : Type ℓ} (P : A → Type 0) (b : Bool) (x y : Run A)
    → (b ≡ true → Total P x)
    → (b ≡ false → Total P y)
    → Total P (if b then x else y)
Total-if P true x y h k = h refl
Total-if P false x y h k = k refl

-- A chain with a result has one at each step.
pub bind-ok {ℓ κ} :
    {A : Type ℓ} {B : Type κ} (r : Run A) (f : A → Run B) (b : B)
    → (r >>= f) ≡ ok b
    → (a : A) × (r ≡ ok a) × (f a ≡ ok b)
bind-ok (ok a) f b e = (a, refl, e)
bind-ok fault f b e = cc
bind-ok out_of_fuel f b e = cc
