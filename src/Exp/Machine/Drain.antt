-- ===== src/Exp/Machine/Drain.antt =====
-- The loop of `eval` in src/src/exp.c at a comma and at the end of the text.
use dasm_dillon_code_sourcef.Common.{
  ℕ, zero, suc, ◌≤◌, ◌≡◌, refl, true, false, List, ◌∷◌, length, sym, ◌∙◌, ap, arith, ok, ◌>>=◌,
  Partial, Partial-both, bind_congr, bind_assoc, Bool-cases, inl, inr,
}
use dasm_dillon_code_sourcef.Exp.Machine.{
  Machine, Op, evaltop, reduced, reduce_test, at_base, drain, drained,
}
use dasm_dillon_code_sourcef.Exp.Machine.Steps.{
  List-cases, HasTop, reduce_test-HasTop, evaltop-Keeps, reduced_idle, reduced_step,
}
use dasm_dillon_code_sourcef.Exp.Machine.Sound.{IsSound, evaltop-Sound}

drain_idle : (k : ℕ) (m : Machine) → at_base m ≡ true → drain k m ≡ ok m
unfolding drain
drain_idle zero m h = refl
drain_idle (suc k) m h = rw (h, drain)

pub drained_idle : (m : Machine) → at_base m ≡ true → drained m ≡ ok m
unfolding drained
drained_idle m h = drain_idle (length m.ops) m h

drain-suc : (k : ℕ) (m : Machine) → at_base m ≡ false → drain (suc k) m ≡ (evaltop m >>= drain k)
unfolding drain
drain-suc k m e = rw (e, drain)

module _ (ab ob : ℕ) where
  no_ops-at_base : (m : Machine) → IsSound ab ob m → length m.ops ≤ 0 → at_base m ≡ true
  no_ops-at_base m s h = ground arith

  above-HasTop : (m : Machine) → IsSound ab ob m → at_base m ≡ false → HasTop m
  above-HasTop m s e = elim (List-cases m.ops) [
    | inl n ↦ absurd (ground (arith, ap length n))
    | inr (o, os, n) ↦ (o, os, n, e)
  ]

  -- what holds after an `evaltop` above the base
  after_evaltop :
      (m : Machine) (o : Op) (os : List Op)
      → IsSound ab ob m
      → m.ops ≡ o ∷ os
      → at_base m ≡ false
      → Partial (λ t. (length t.ops ≤ length os) × IsSound ab ob t) (evaltop m)
  after_evaltop m o os s top e =
      Partial-both (λ t. length t.ops ≤ length os) (IsSound ab ob) (evaltop m)
        (evaltop-Keeps m o os top e) (evaltop-Sound ab ob m s)

  drain_rounds :
      (k j : ℕ) (m : Machine)
      → length m.ops ≤ k
      → length m.ops ≤ j
      → IsSound ab ob m
      → drain k m ≡ drain j m
  drain_rounds zero j m h g s =
      drain_idle zero m (no_ops-at_base m s h) ∙ sym (drain_idle j m (no_ops-at_base m s h))
  drain_rounds (suc k) zero m h g s =
      drain_idle (suc k) m (no_ops-at_base m s g) ∙ sym (drain_idle zero m (no_ops-at_base m s g))
  drain_rounds (suc k) (suc j) m h g s = elim (Bool-cases (at_base m)) [
    | inl e ↦ drain_idle (suc k) m e ∙ sym (drain_idle (suc j) m e)
    | inr e ↦
        let (o, os, top, above) = above-HasTop m s e in
        let lk : length os ≤ k = omega (arith, ap length top) in
        let lj : length os ≤ j = omega (arith, ap length top) in
        drain-suc k m e
        ∙ bind_congr (λ t. (length t.ops ≤ length os) × IsSound ab ob t) (evaltop m) (drain k)
            (drain j) (after_evaltop m o os s top e)
            (λ t l. drain_rounds k j t (omega arith) (omega arith) l.1)
        ∙ sym (drain-suc j m e)
  ]

  drained_step :
      (m : Machine) → IsSound ab ob m → at_base m ≡ false → drained m ≡ (evaltop m >>= drained)
  unfolding drained
  drained_step m s e =
      let (o, os, top, above) = above-HasTop m s e in
      drain_rounds (length m.ops) (suc (length os)) m (omega arith) (omega (arith, ap length top)) s
      ∙ drain-suc (length os) m e
      ∙ bind_congr (λ t. (length t.ops ≤ length os) × IsSound ab ob t) (evaltop m)
          (drain (length os)) drained (after_evaltop m o os s top e)
          (λ t l. drain_rounds (length os) (length t.ops) t l.0 (omega arith) l.1)

  drained-reduced_rounds :
      (k p : ℕ) (m : Machine)
      → length m.ops ≤ k
      → IsSound ab ob m
      → (reduced p m >>= drained) ≡ drained m
  drained-reduced_rounds zero p m h s = elim (Bool-cases (reduce_test p m)) [
    | inr e ↦ rw (reduced_idle p m e)
    | inl e ↦
        let (o, os, top, above) = reduce_test-HasTop p m e in absurd (omega (arith, ap length top))
  ]
  drained-reduced_rounds (suc k) p m h s = elim (Bool-cases (reduce_test p m)) [
    | inr e ↦ rw (reduced_idle p m e)
    | inl e ↦
        let (o, os, top, above) = reduce_test-HasTop p m e in
        ap (λ r. r >>= drained) (reduced_step p m e)
        ∙ bind_assoc (evaltop m) (reduced p) drained
        ∙ bind_congr (λ t. (length t.ops ≤ length os) × IsSound ab ob t) (evaltop m)
            (λ t. reduced p t >>= drained) drained (after_evaltop m o os s top above)
            (λ t l. drained-reduced_rounds k p t (omega (arith, ap length top)) l.1)
        ∙ sym (drained_step m s above)
  ]

  -- The last loop finishes what `doop`'s loop began.
  pub drained-reduced :
      (p : ℕ) (m : Machine) → IsSound ab ob m → (reduced p m >>= drained) ≡ drained m
  drained-reduced p m s = drained-reduced_rounds (length m.ops) p m (omega arith) s
