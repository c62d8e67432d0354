-- ===== src/Output/Fill.antt =====
-- `genfill` of src/src/ops.c in a pass that writes nothing.
use dasm_dillon_code_sourcef.Common.{
  ℕ, zero, suc, ◌+◌, ◌-◌, ◌*◌, ◌/◌, ◌%◌, ◌≤◌, ◌<◌, ◌≡◌, ◌≢◌, refl, ap, ◌∙◌, Bool, true, false, List,
  [], ◌∷◌, Option, some, length, take, length-append, ◌==◌, ltb, arith, ne→==, subst, Run, ok, ◌⊎◌,
  inl, inr, Bool-cases, ltb→lt,
}
use dasm_dillon_code_sourcef.Long.{long_mod, long_min, is_negative}
use dasm_dillon_code_sourcef.Symbols.{Globals}
use dasm_dillon_code_sourcef.Output.{
  Output, generate, advance_origin, fill_loop, fill_gen, entry_bytes, genfill, size_of_gen,
}

generate_quiet :
    (o : Output) (g : Globals)
    → g.redo ≢ 0
    → generate o g ≡ some (o, advance_origin (length o.gen) g)
unfolding generate
generate_quiet o g h = rw (ne→== g.redo 0 h) refl

length-take_all : (n : ℕ) (xs : List ℕ) → n ≤ length xs → length (take n xs) ≡ n
length-take_all zero xs h = refl
length-take_all (suc n) [] h = absurd (omega arith)
length-take_all (suc n) (x ∷ xs) h = ap suc (length-take_all n xs (omega arith))

-- the run ends, and the origin is `bytes` further on
abbrev pub Advances : ℕ → Globals → Run (Option (Output × Globals)) → Type 0
Advances bytes g r =
    (o' : Output) × (g' : Globals) × (r ≡ ok (some (o', g')))
    × (g'.segment.org ≡ (g.segment.org + bytes) % long_mod)
    × (g'.redo ≡ g.redo)

fill_loop-Advances :
    (k : ℕ) (full : List ℕ) (bytes : ℕ) (o : Output) (g : Globals)
    → bytes < k
    → length full ≡ 256
    → g.redo ≢ 0
    → Advances bytes g (fill_loop k full bytes o g)
unfolding fill_loop advance_origin
fill_loop-Advances zero full bytes o g h e r = absurd (omega arith)
fill_loop-Advances (suc k) full bytes o g h e r = elim (Bool-cases (ltb size_of_gen bytes)) [
  | inr d ↦
      let short : bytes ≤ 256 = ground arith in
      let q = generate_quiet (record o { gen = take bytes full }) g r in
      (
        record o { gen = take bytes full },
        advance_origin (length (take bytes full)) g,
        rw (d, q) refl,
        ap (λ n. (g.segment.org + n) % long_mod)
            (length-take_all bytes full (omega (arith, e, short))),
        refl,
      )
  | inl d ↦
      let long : 256 < bytes = ltb→lt 256 bytes d in
      let q = generate_quiet (record o { gen = full }) g r in
      let (o', g', run, org, redo) =
        fill_loop-Advances k full (bytes - 256) (record o { gen = full })
          (advance_origin (length full) g) (omega arith) e r in
      (o', g', rw (d, q) run, org ∙ omega (arith, e), redo)
]

length-fill_gen : (n : ℕ) (entry : List ℕ) → length (fill_gen n entry) ≡ n * length entry
unfolding fill_gen
length-fill_gen zero entry = omega arith
length-fill_gen (suc n) entry =
    length-append entry (fill_gen n entry) ∙ grind (arith, length-fill_gen n entry)

length-entry_bytes :
    (msb_order : Bool) (fill size : ℕ)
    → ((size ≡ 1) ⊎ (size ≡ 2) ⊎ (size ≡ 4))
    → length (fill_gen (size_of_gen / size) (entry_bytes msb_order fill size)) ≡ 256
unfolding entry_bytes
length-entry_bytes true fill size (inl e) = length-fill_gen _ _ ∙ simp e refl
length-entry_bytes false fill size (inl e) = length-fill_gen _ _ ∙ simp e refl
length-entry_bytes true fill size (inr (inl e)) = length-fill_gen _ _ ∙ simp e refl
length-entry_bytes false fill size (inr (inl e)) = length-fill_gen _ _ ∙ simp e refl
length-entry_bytes true fill size (inr (inr e)) = length-fill_gen _ _ ∙ simp e refl
length-entry_bytes false fill size (inr (inr e)) = length-fill_gen _ _ ∙ simp e refl

small : (n : ℕ) → n < long_min → n % long_mod ≡ n
small n h = omega arith

positive : (n : ℕ) → n < long_min → is_negative n ≡ false
positive n h = ground arith

few_entries :
    (entries size : ℕ)
    → ((size ≡ 1) ⊎ (size ≡ 2) ⊎ (size ≡ 4))
    → entries * size < long_min
    → is_negative entries ≡ false
few_entries entries size (inl e) h =
    let h' : entries * 1 < long_min = subst (λ z. entries * z < long_min) e h in
    positive entries (omega (arith, h'))
few_entries entries size (inr (inl e)) h =
    let h' : entries * 2 < long_min = subst (λ z. entries * z < long_min) e h in
    positive entries (omega (arith, h'))
few_entries entries size (inr (inr e)) h =
    let h' : entries * 4 < long_min = subst (λ z. entries * z < long_min) e h in
    positive entries (omega (arith, h'))

-- Once another pass is wanted, `genfill` with at least one entry of 1, 2 or 4 bytes, of which all together are less
-- than 2 ^ 63 bytes, comes to its end, and moves the origin on by exactly the bytes of all entries, modulo 2 ^ 64.
pub genfill-Advances :
    (msb_order : Bool) (fill entries size : ℕ) (o : Output) (g : Globals)
    → ((size ≡ 1) ⊎ (size ≡ 2) ⊎ (size ≡ 4))
    → 0 < entries
    → entries * size < long_min
    → g.redo ≢ 0
    → Advances (entries * size) g (genfill msb_order fill entries size o g)
unfolding genfill
genfill-Advances msb_order fill entries size o g w h fits r =
    let some_entries : (entries == 0) ≡ false = ground arith in
    let few : is_negative entries ≡ false = few_entries entries size w fits in
    let whole : (entries * size) % long_mod ≡ entries * size = small (entries * size) fits in
    let long_enough : is_negative (entries * size) ≡ false = positive (entries * size) fits in
    rw (few, some_entries, whole, long_enough)
      (fill_loop-Advances (entries * size + 1)
        (fill_gen (size_of_gen / size) (entry_bytes msb_order fill size)) (entries * size) o g
        (omega arith) (length-entry_bytes msb_order fill size w) r)
