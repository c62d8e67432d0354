-- ===== src/Includes/Args.antt =====
-- The arguments of a macro call in src/src/ops.c.
use dasm_dillon_code_sourcef.Common.{
  ℕ, ◌≡◌, ◌≢◌, refl, ap, sym, ◌∙◌, true, false, List, [], ◌∷◌, ◌++◌, append_assoc, append-nil,
  arith, ◌==◌,
}
use dasm_dillon_code_sourcef.Symbols.{starts_with}
use dasm_dillon_code_sourcef.Includes.{args_loop, split_args}

-- a text without a comma or a line end
abbrev pub IsOne : List ℕ → Type 0
IsOne [] = Unit
IsOne (c ∷ s) = (c ≢ b',') × (c ≢ 10) × IsOne s

-- arguments, none of which starts with a space, and the last of which is not empty
abbrev pub IsArgs : List (List ℕ) → Type 0
IsArgs [] = Unit
IsArgs (a ∷ []) = IsOne a × (starts_with b' ' a ≡ false) × (a ≢ [])
IsArgs (a ∷ b ∷ rest) = IsOne a × (starts_with b' ' a ≡ false) × IsArgs (b ∷ rest)

-- the arguments with commas between them
abbrev pub join : List (List ℕ) → List ℕ
join [] = []
join (a ∷ []) = a
join (a ∷ b ∷ rest) = a ++ (b',' ∷ join (b ∷ rest))

tests : (c : ℕ) → c ≢ b',' → c ≢ 10 → ((c == 10) ≡ false) × ((c == b',') ≡ false)
tests c h k = ground arith

args_loop-last : (arg a : List ℕ) → IsOne a → args_loop false arg a ≡ (arg ++ a) ∷ []
unfolding args_loop
args_loop-last arg [] h = ap (λ s. s ∷ []) (sym (append-nil arg))
args_loop-last arg (c ∷ a) (h, k, l) =
    let (x, y) = tests c h k in
    rw (x, y) (args_loop-last (arg ++ c ∷ []) a l ∙ ap (λ s. s ∷ []) (append_assoc arg (c ∷ []) a))

args_loop-comma :
    (arg a s : List ℕ)
    → IsOne a
    → args_loop false arg (a ++ (b',' ∷ s)) ≡ (arg ++ a) ∷ args_loop true [] s
unfolding args_loop
args_loop-comma arg [] s h = ap (λ x. x ∷ args_loop true [] s) (sym (append-nil arg))
args_loop-comma arg (c ∷ a) s (h, k, l) =
    let (x, y) = tests c h k in
    rw (x, y)
      (args_loop-comma (arg ++ c ∷ []) a s l
        ∙ ap (λ x. x ∷ args_loop true [] s) (append_assoc arg (c ∷ []) a))

-- at the start of an argument that has a first byte
args_loop-start :
    (c : ℕ) (s : List ℕ)
    → (c == b' ') ≡ false
    → c ≢ b','
    → c ≢ 10
    → args_loop true [] (c ∷ s) ≡ args_loop false [] (c ∷ s)
unfolding args_loop
args_loop-start c s e h k = let (x, y) = tests c h k in rw (e, x, y) refl

args_loop-join : (args : List (List ℕ)) → IsArgs args → args_loop true [] (join args) ≡ args
unfolding args_loop
args_loop-join [] h = refl
args_loop-join ([] ∷ []) h = absurd (h.2 refl)
args_loop-join ((c ∷ a) ∷ []) h =
    args_loop-start c a h.1 h.0.0 h.0.1 ∙ args_loop-last [] (c ∷ a) h.0
args_loop-join ([] ∷ b ∷ rest) h = ap (λ s. [] ∷ s) (args_loop-join (b ∷ rest) h.2)
args_loop-join ((c ∷ a) ∷ b ∷ rest) h =
    args_loop-start c (a ++ (b',' ∷ join (b ∷ rest))) h.1 h.0.0 h.0.1
    ∙ args_loop-comma [] (c ∷ a) (join (b ∷ rest)) h.0
    ∙ ap (λ s. (c ∷ a) ∷ s) (args_loop-join (b ∷ rest) h.2)

split_args-start :
    (s : List ℕ) → starts_with b' ' s ≡ false → split_args s ≡ s ∷ args_loop true [] s
unfolding split_args args_loop
split_args-start [] e = refl
split_args-start (c ∷ s) e = rw e refl

join-start : (args : List (List ℕ)) → IsArgs args → starts_with b' ' (join args) ≡ false
join-start [] h = refl
join-start (a ∷ []) h = h.1
join-start ([] ∷ b ∷ rest) h = refl
join-start ((c ∷ a) ∷ b ∷ rest) h = h.1

-- The operand of a macro call that joins arguments with commas is split into the operand as a whole, for
-- `{0}`, and those arguments, for `{1}` and on, where no argument has a comma, a line end or a space at its start,
-- and the last is not empty; the others may be.
pub split_args-join :
    (args : List (List ℕ)) → IsArgs args → split_args (join args) ≡ join args ∷ args
split_args-join args h =
    split_args-start (join args) (join-start args h)
    ∙ ap (λ s. join args ∷ s) (args_loop-join args h)
