-- ===== src/Assignments/Segments.antt =====
-- The segments of SEG in src/src/ops.c.
use dasm_dillon_code_sourcef.Common.{
  ℕ, ◌≡◌, refl, ap, sym, ◌∙◌, Bool, true, false, List, [], ◌∷◌, Option, none, some, if◌then◌else◌,
  Bool-cases, inl, inr,
}
use mathlib.Core.Bool.{false≢true}
use dasm_dillon_code_sourcef.Asm.{Segment, AddressMode}
use dasm_dillon_code_sourcef.Util.{same_bytes}
use dasm_dillon_code_sourcef.Util.Strings.{same_bytes_refl, same_bytes_iff}
use dasm_dillon_code_sourcef.Conditional.{Source}
use dasm_dillon_code_sourcef.Assignments.{
  take_segment, switch_segment, enter_segment, new_segment, is_bss, Segments,
}

-- what is found has the name
abbrev HasName : List ℕ → Option (Segment × List Segment) → Type 0
HasName name none = Unit
HasName name (some r) = r.0.name ≡ name

take_segment-HasName :
    (name : List ℕ) (others : List Segment) → HasName name (take_segment name others)
unfolding take_segment
take_segment-HasName name [] = tt
take_segment-HasName name (seg ∷ rest) =
    first (same_bytes name seg.name) refl (take_segment name rest) (take_segment-HasName name rest)
  where
    first :
        (b : Bool)
        → same_bytes name seg.name ≡ b
        → (more : Option (Segment × List Segment)) → HasName name more
        → HasName name (
            if b
            then some (seg, rest)
            else elim more [ none ↦ none | some r ↦ some (r.0, seg ∷ r.1) ])
    first true e more h = sym ((same_bytes_iff name seg.name).0 e)
    first false e none h = tt
    first false e (some r) h = h

different : (a b : List ℕ) → same_bytes a b ≡ false → same_bytes b a ≡ false
different a b e = elim (Bool-cases (same_bytes b a)) [
  | inr d ↦ d
  | inl d ↦ absurd (false≢true (sym e ∙ (same_bytes_iff a b).1 (sym ((same_bytes_iff b a).0 d))))
]

-- back to the segment at the head of the others
back_to :
    (mnext : Option AddressMode) (s : Source) (seg : Segment) (rest : List Segment)
    → same_bytes s.globals.segment.name seg.name ≡ false
    → (switch_segment mnext s.globals.segment.name
        (enter_segment seg (s.globals.segment ∷ rest) s)).0
      ≡ s
unfolding switch_segment take_segment
back_to mnext s seg rest e = rw (e, same_bytes_refl s.globals.segment.name) refl

-- where `switch_segment` leads
abbrev switched :
    Option AddressMode
    → List ℕ
    → Source
    → List Segment
    → Bool
    → Option (Segment × List Segment)
    → Segments
switched mnext name s others true found = (s, others)
switched mnext name s others false none =
    enter_segment (new_segment name (is_bss mnext)) (s.globals.segment ∷ others) s
switched mnext name s others false (some r) = enter_segment r.0 (s.globals.segment ∷ r.1) s

switch_segment-switched :
    (mnext : Option AddressMode) (name : List ℕ) (s : Source) (others : List Segment) (b : Bool)
    (found : Option (Segment × List Segment))
    → same_bytes name s.globals.segment.name ≡ b
    → take_segment name others ≡ found
    → switch_segment mnext name (s, others) ≡ switched mnext name s others b found
unfolding switch_segment
switch_segment-switched mnext name s others true found e f = rw e refl
switch_segment-switched mnext name s others false none e f = rw (e, f) refl
switch_segment-switched mnext name s others false (some r) e f = rw (e, f) refl

switched-back :
    (mnext mnext' : Option AddressMode) (name : List ℕ) (s : Source) (others : List Segment)
    (b : Bool) (found : Option (Segment × List Segment))
    → same_bytes name s.globals.segment.name ≡ b
    → HasName name found
    → (switch_segment mnext' s.globals.segment.name (switched mnext name s others b found)).0 ≡ s
unfolding switch_segment
switched-back mnext mnext' name s others true found e h =
    rw (same_bytes_refl s.globals.segment.name) refl
switched-back mnext mnext' name s others false none e h =
    back_to mnext' s (new_segment name (is_bss mnext)) others (different name _ e)
switched-back mnext mnext' name s others false (some r) e h =
    back_to mnext' s r.0 r.1
      (different r.0.name _ (ap (λ n. same_bytes n s.globals.segment.name) h ∙ e))

-- From any segment, changing to the segment of a name, old or new, and back by the name of the first one leaves
-- the first one in force with its origins and flags as they were.
pub switch_segment-back :
    (mnext mnext' : Option AddressMode) (name : List ℕ) (s : Source) (others : List Segment)
    → (switch_segment mnext' s.globals.segment.name (switch_segment mnext name (s, others))).0 ≡ s
switch_segment-back mnext mnext' name s others =
    ap (λ w. (switch_segment mnext' s.globals.segment.name w).0)
      (switch_segment-switched mnext name s others _ _ refl refl)
    ∙ switched-back mnext mnext' name s others _ _ refl (take_segment-HasName name others)
