-- ===== src/Exp/Machine/Steps.antt =====
-- One round of each evaluation loop of src/src/exp.c, with the number of rounds left out.
use dasm_dillon_code_sourcef.Common.{
  ℕ, zero, suc, ◌≤◌, ◌≡◌, refl, true, false, List, [], ◌∷◌, length, sym, ◌∙◌, ap, arith, Run, ok,
  ◌>>=◌, Partial-bind, bind_congr, bind_assoc, Bool-cases, inl, inr, ◌⊎◌,
}
use dasm_dillon_code_sourcef.Exp.Machine.{
  Machine, Op, settle, settled, evaltop, evaltop_with, unary_on_top, reduce, reduced, reduce_test,
  at_base,
}
use dasm_dillon_code_sourcef.Exp.Machine.Loops.{
  Keeps, Shrinks, evaltop_with-Keeps, evaltop_with-Shrinks, evaltop_with_congr,
}

pub List-cases {ℓ} :
    {A : Type ℓ} (xs : List A) → (xs ≡ []) ⊎ ((x : A) × (rest : List A) × (xs ≡ x ∷ rest))
List-cases [] = inl refl
List-cases (x ∷ rest) = inr (x, rest, refl)

-- an operator is on top, above the base
abbrev pub HasTop : Machine → Type 0
HasTop m = (o : Op) × (os : List Op) × (m.ops ≡ o ∷ os) × (at_base m ≡ false)

unary_on_top-HasTop : (m : Machine) → unary_on_top m ≡ true → HasTop m
unfolding unary_on_top
unary_on_top-HasTop m h = elim (List-cases m.ops) [
  | inl e ↦ absurd (ground arith)
  | inr (o, os, e) ↦ (o, os, e, ground arith)
]

pub reduce_test-HasTop : (p : ℕ) (m : Machine) → reduce_test p m ≡ true → HasTop m
unfolding reduce_test
reduce_test-HasTop p m h = elim (List-cases m.ops) [
  | inl e ↦ absurd (ground arith)
  | inr (o, os, e) ↦ (o, os, e, ground arith)
]

pub settle-Keeps : (k n : ℕ) (m : Machine) → length m.ops ≤ n → Keeps n (settle k m)
unfolding settle
settle-Keeps zero n m h = h
settle-Keeps (suc k) n m h = elim (Bool-cases (unary_on_top m)) [
  | inl e ↦
      rw (e, settle)
        (Partial-bind (λ t. length t.ops ≤ n) (λ t. length t.ops ≤ n)
          (evaltop_with (settle k) m m.ops) (settle k)
          (evaltop_with-Shrinks (settle k) (settle-Keeps k) n m m.ops refl h) (settle-Keeps k n))
  | inr e ↦ rw (e, settle) h
]

pub settle_idle : (k : ℕ) (m : Machine) → unary_on_top m ≡ false → settle k m ≡ ok m
unfolding settle
settle_idle zero m h = refl
settle_idle (suc k) m h = rw (h, settle)

no_unary : (m : Machine) → length m.ops ≤ 0 → unary_on_top m ≡ false
unfolding unary_on_top
no_unary m h = elim (List-cases m.ops) [
  | inl e ↦ rw e
  | inr (o, os, e) ↦ absurd (omega (arith, ap length e))
]

-- One round, with either of two continuations that agree on fewer operators.
round_congr :
    (f g : Machine → Run Machine)
    → Shrinks g
    → (m : Machine) (o : Op) (os : List Op) → m.ops ≡ o ∷ os
    → at_base m ≡ false
    → ((t : Machine) → length t.ops ≤ length os → f t ≡ g t)
    → (evaltop_with f m m.ops >>= f) ≡ (evaltop_with g m m.ops >>= g)
round_congr f g shrinks m o os top above same = simp top (
    rw (evaltop_with_congr f g (length os) same m o os (omega arith)) (
      bind_congr (λ t. length t.ops ≤ length os) (evaltop_with g m (o ∷ os)) f g
        (evaltop_with-Keeps g shrinks (length os) m o os top above (omega arith)) same))

settle-suc :
    (k : ℕ) (m : Machine)
    → unary_on_top m ≡ true
    → settle (suc k) m ≡ (evaltop_with (settle k) m m.ops >>= settle k)
unfolding settle
settle-suc k m e = rw (e, settle)

-- More rounds than operators change nothing.
settle_rounds :
    (k j : ℕ) (m : Machine) → length m.ops ≤ k → length m.ops ≤ j → settle k m ≡ settle j m
unfolding settle
settle_rounds zero j m h g =
    settle_idle zero m (no_unary m h) ∙ sym (settle_idle j m (no_unary m h))
settle_rounds (suc k) zero m h g = settle_idle (suc k) m (no_unary m g)
settle_rounds (suc k) (suc j) m h g = elim (Bool-cases (unary_on_top m)) [
  | inr e ↦ settle_idle (suc k) m e ∙ sym (settle_idle (suc j) m e)
  | inl e ↦
      let (o, os, top, above) = unary_on_top-HasTop m e in
      let lk : length os ≤ k = omega (arith, ap length top) in
      let lj : length os ≤ j = omega (arith, ap length top) in
      settle-suc k m e
      ∙ round_congr (settle k) (settle j) (settle-Keeps j) m o os top above
          (λ t l. settle_rounds k j t (omega arith) (omega arith))
      ∙ sym (settle-suc j m e)
]

pub settled_idle : (m : Machine) → unary_on_top m ≡ false → settled m ≡ ok m
unfolding settled
settled_idle m h = settle_idle (length m.ops) m h

settled-Keeps : (n : ℕ) (m : Machine) → length m.ops ≤ n → Keeps n (settled m)
unfolding settled
settled-Keeps n m h = settle-Keeps (length m.ops) n m h

pub evaltop-Keeps :
    (m : Machine) (o : Op) (os : List Op)
    → m.ops ≡ o ∷ os
    → at_base m ≡ false
    → Keeps (length os) (evaltop m)
unfolding evaltop
evaltop-Keeps m o os e above =
    simp e (evaltop_with-Keeps settled settled-Keeps (length os) m o os e above (omega arith))

-- A round of `stackarg`'s loop is an `evaltop`.
pub settled_step : (m : Machine) → unary_on_top m ≡ true → settled m ≡ (evaltop m >>= settled)
unfolding settled evaltop
settled_step m e =
    let (o, os, top, above) = unary_on_top-HasTop m e in
    settle_rounds (length m.ops) (suc (length os)) m (omega arith) (omega (arith, ap length top))
    ∙ settle-suc (length os) m e
    ∙ round_congr (settle (length os)) settled settled-Keeps m o os top above
        (λ t l. settle_rounds (length os) (length t.ops) t l (omega arith))

-- The same for the loop of `doop`.
reduce_idle : (k p : ℕ) (m : Machine) → reduce_test p m ≡ false → reduce k p m ≡ ok m
unfolding reduce
reduce_idle zero p m h = refl
reduce_idle (suc k) p m h = rw (h, reduce)

pub reduced_idle : (p : ℕ) (m : Machine) → reduce_test p m ≡ false → reduced p m ≡ ok m
unfolding reduced
reduced_idle p m h = reduce_idle (length m.ops) p m h

no_reduce : (p : ℕ) (m : Machine) → length m.ops ≤ 0 → reduce_test p m ≡ false
unfolding reduce_test
no_reduce p m h = elim (List-cases m.ops) [
  | inl e ↦ rw e
  | inr (o, os, e) ↦ absurd (omega (arith, ap length e))
]

reduce-suc :
    (k p : ℕ) (m : Machine)
    → reduce_test p m ≡ true
    → reduce (suc k) p m ≡ (evaltop m >>= reduce k p)
unfolding reduce
reduce-suc k p m e = rw (e, reduce)

reduce_rounds :
    (k j p : ℕ) (m : Machine) → length m.ops ≤ k → length m.ops ≤ j → reduce k p m ≡ reduce j p m
unfolding reduce
reduce_rounds zero j p m h g =
    reduce_idle zero p m (no_reduce p m h) ∙ sym (reduce_idle j p m (no_reduce p m h))
reduce_rounds (suc k) zero p m h g = reduce_idle (suc k) p m (no_reduce p m g)
reduce_rounds (suc k) (suc j) p m h g = elim (Bool-cases (reduce_test p m)) [
  | inr e ↦ reduce_idle (suc k) p m e ∙ sym (reduce_idle (suc j) p m e)
  | inl e ↦
      let (o, os, top, above) = reduce_test-HasTop p m e in
      let lk : length os ≤ k = omega (arith, ap length top) in
      let lj : length os ≤ j = omega (arith, ap length top) in
      reduce-suc k p m e
      ∙ bind_congr (λ t. length t.ops ≤ length os) (evaltop m) (reduce k p) (reduce j p)
          (evaltop-Keeps m o os top above)
          (λ t l. reduce_rounds k j p t (omega arith) (omega arith))
      ∙ sym (reduce-suc j p m e)
]

-- A round of `doop`'s loop is an `evaltop`.
pub reduced_step :
    (p : ℕ) (m : Machine) → reduce_test p m ≡ true → reduced p m ≡ (evaltop m >>= reduced p)
unfolding reduced
reduced_step p m e =
    let (o, os, top, above) = reduce_test-HasTop p m e in
    reduce_rounds (length m.ops) (suc (length os)) p m (omega arith) (omega (arith, ap length top))
    ∙ reduce-suc (length os) p m e
    ∙ bind_congr (λ t. length t.ops ≤ length os) (evaltop m) (reduce (length os) p) (reduced p)
        (evaltop-Keeps m o os top above)
        (λ t l. reduce_rounds (length os) (length t.ops) p t l (omega arith))

unary-reduce_test : (p : ℕ) (m : Machine) → p ≤ 128 → unary_on_top m ≡ true → reduce_test p m ≡ true
unfolding unary_on_top reduce_test
unary-reduce_test p m hi h = elim (List-cases m.ops) [
  | inl e ↦ absurd (ground arith)
  | inr (o, os, e) ↦ ground arith
]

reduced-settled_rounds :
    (k p : ℕ) (m : Machine) → length m.ops ≤ k → p ≤ 128 → (settled m >>= reduced p) ≡ reduced p m
reduced-settled_rounds zero p m h hi = rw (settled_idle m (no_unary m h))
reduced-settled_rounds (suc k) p m h hi = elim (Bool-cases (unary_on_top m)) [
  | inr e ↦ rw (settled_idle m e)
  | inl e ↦
      let (o, os, top, above) = unary_on_top-HasTop m e in
      ap (λ r. r >>= reduced p) (settled_step m e)
      ∙ bind_assoc (evaltop m) settled (reduced p)
      ∙ bind_congr (λ t. length t.ops ≤ length os) (evaltop m) (λ t. settled t >>= reduced p)
          (reduced p) (evaltop-Keeps m o os top above)
          (λ t l. reduced-settled_rounds k p t (omega (arith, ap length top)) hi)
      ∙ sym (reduced_step p m (unary-reduce_test p m hi e))
]

-- `doop`'s loop takes the unary operators along that `stackarg`'s loop would have taken.
pub reduced-settled : (p : ℕ) (m : Machine) → p ≤ 128 → (settled m >>= reduced p) ≡ reduced p m
reduced-settled p m = reduced-settled_rounds (length m.ops) p m (omega arith)

-- The loops of `stackarg` and `doop` come to their ends within as many rounds as there are operators:
-- with any larger number of rounds they do the same.
pub rounds_enough :
    (k p : ℕ) (m : Machine)
    → length m.ops ≤ k
    → (settle k m ≡ settled m) × (reduce k p m ≡ reduced p m)
unfolding settled reduced
rounds_enough k p m h = (
  settle_rounds k (length m.ops) m h (omega arith),
  reduce_rounds k (length m.ops) p m h (omega arith),
)
