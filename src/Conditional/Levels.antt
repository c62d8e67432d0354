-- ===== src/Conditional/Levels.antt =====
-- The invariant of the stack of IF directives of src/src/ops.c.
use dasm_dillon_code_sourcef.Common.{
  ℕ, ◌≡◌, refl, sym, Bool, true, false, not, ◌&&◌, ◌||◌, List, [], ◌∷◌, ◌==◌, arith, Run, ok, ◌>>=◌,
  Bool-cases, inl, inr, if◌then◌else◌, Partial, Partial-any, Partial-bind, bit_or,
}
use dasm_dillon_code_sourcef.Asm.{Symbol, any_flag}
use dasm_dillon_code_sourcef.Symbols.{Globals, programlabel, count_redo}
use dasm_dillon_code_sourcef.Exp.Machine.{Machine}
use dasm_dillon_code_sourcef.Exp.Scan.Eval.{eval}
use dasm_dillon_code_sourcef.Conditional.{
  first_node, reason_if_not_resolved, If, Source, is_active, pushif, place_here, eval_first,
  forget_top, push_condition, v_if, v_ifconst, v_ifnconst, turn_top, v_else, v_endif, pop_if,
}

-- An entry is marked as standing in assembled lines only if the entries below assemble.
abbrev pub IsNested : List If → Type 0
IsNested [] = Unit
IsNested (i ∷ []) = Unit
IsNested (i ∷ j ∷ rest) = (i.acctrue ≡ true → is_active (j ∷ rest) ≡ true) × IsNested (j ∷ rest)

-- what is left when entries are taken off, or turned
IsNested-tail : (i : If) (rest : List If) → IsNested (i ∷ rest) → IsNested rest
IsNested-tail i [] h = tt
IsNested-tail i (j ∷ rest) h = h.1

IsNested-top :
    (i k : If) (rest : List If)
    → (k.acctrue ≡ true → i.acctrue ≡ true)
    → IsNested (i ∷ rest)
    → IsNested (k ∷ rest)
IsNested-top i k [] e h = tt
IsNested-top i k (j ∷ rest) e h = (λ a. h.0 (e a), h.1)

IsNested-push :
    (i k : If) (rest : List If)
    → k.acctrue ≡ (i.acctrue && i.xtrue)
    → IsNested (i ∷ rest)
    → IsNested (k ∷ i ∷ rest)
unfolding is_active
IsNested-push i k rest e h = (λ a. ground (arith, e, a), h)

-- the stack of a state is in order
abbrev pub NestedSource : Source → Type 0
NestedSource s = IsNested s.ifstack

place_here-Nested : (s : Source) → NestedSource s → Partial NestedSource (place_here s)
place_here-Nested s h =
    Partial-any NestedSource (programlabel s.label s.globals) (λ r. ok (record s { globals = r.0 }))
      (λ r. h)

abbrev pub NestedPair : Symbol × Source → Type 0
NestedPair r = NestedSource r.1

first_node-Nested :
    (s : Source) (r : List Symbol × Machine × Globals)
    → NestedSource s
    → Partial NestedPair (first_node s r)
unfolding first_node
first_node-Nested s ([], m, g) h = tt
first_node-Nested s (sym ∷ rest, m, g) h = h

eval_first-Nested :
    (depth : ℕ) (str : List ℕ) (s : Source)
    → NestedSource s
    → Partial NestedPair (eval_first depth str s)
unfolding eval_first
eval_first-Nested depth str s h =
    Partial-any NestedPair (eval depth str false s.machine s.globals) (first_node s)
      (λ r. first_node-Nested s r h)

pushif-at :
    (b : Bool) (l : List If) (s : Source)
    → IsNested l
    → Partial NestedSource (pushif b (record s { ifstack = l }))
unfolding pushif
pushif-at b [] s h = tt
pushif-at b (i ∷ rest) s h =
    IsNested-push i
      (record { file = s.incfile; base = false; xtrue = b; acctrue = i.acctrue && i.xtrue }) rest
      refl h

pushif-Nested : (b : Bool) (s : Source) → NestedSource s → Partial NestedSource (pushif b s)
pushif-Nested b s h = pushif-at b s.ifstack s h

forget_top-at :
    (l : List If) (s : Source) → IsNested l → NestedSource (forget_top (record s { ifstack = l }))
forget_top-at [] s h = tt
forget_top-at (i ∷ rest) s h = IsNested-top i (record i { acctrue = false }) rest (λ e. cc) h

push_condition-Nested :
    (sym : Symbol) (s : Source) → NestedSource s → Partial NestedSource (push_condition (sym, s))
unfolding push_condition
push_condition-Nested sym s h = elim (Bool-cases (any_flag sym.flags)) [
  | inl e ↦ rw e (
      Partial-bind NestedSource NestedSource
        (pushif false (record s { globals = count_redo reason_if_not_resolved s.globals }))
        (λ t. ok (record (forget_top t) {
          globals = record ((forget_top t).globals) {
            redo_if = bit_or (forget_top t).globals.redo_if 1;
          };
        }))
        (pushif-Nested false (record s { globals = count_redo reason_if_not_resolved s.globals }) h)
        (λ t k. forget_top-at t.ifstack t k))
  | inr e ↦ rw e (pushif-Nested (not (sym.value == 0)) s h)
]

-- placing the label, evaluating, and a push that depends on the value
evaluated-Nested :
    (depth : ℕ) (str : List ℕ) (s : Source) (push : Symbol × Source → Run Source)
    → ((sym : Symbol) (t : Source) → NestedSource t → Partial NestedSource (push (sym, t)))
    → NestedSource s
    → Partial NestedSource (place_here s >>= eval_first depth str >>= push)
evaluated-Nested depth str s push k h =
    Partial-bind NestedPair NestedSource (place_here s >>= eval_first depth str) push
      (Partial-bind NestedSource NestedPair (place_here s) (eval_first depth str)
        (place_here-Nested s h) (λ t e. eval_first-Nested depth str t e))
      (λ r e. k r.0 r.1 e)

v_if-at :
    (depth : ℕ) (str : List ℕ) (l : List If) (s : Source)
    → IsNested l
    → Partial NestedSource (v_if depth str (record s { ifstack = l }))
unfolding v_if
v_if-at depth str [] s h = tt
v_if-at depth str (i ∷ rest) s h = elim (Bool-cases (not i.xtrue || not i.acctrue)) [
  | inl e ↦ rw e (pushif-at false (i ∷ rest) s h)
  | inr e ↦ rw e (
      evaluated-Nested depth str (record s { ifstack = i ∷ rest }) push_condition
        push_condition-Nested h)
]

v_ifconst-Nested :
    (depth : ℕ) (str : List ℕ) (s : Source)
    → NestedSource s
    → Partial NestedSource (v_ifconst depth str s)
unfolding v_ifconst
v_ifconst-Nested depth str s h =
    Partial-bind NestedSource NestedSource (place_here s)
      (λ t. eval_first depth str t >>= (λ r. pushif (not (any_flag r.0.flags)) r.1))
      (place_here-Nested s h)
      (λ t k.
        Partial-bind NestedPair NestedSource (eval_first depth str t)
          (λ r. pushif (not (any_flag r.0.flags)) r.1) (eval_first-Nested depth str t k)
          (λ r e. pushif-Nested (not (any_flag r.0.flags)) r.1 e))

v_ifnconst-Nested :
    (depth : ℕ) (str : List ℕ) (s : Source)
    → NestedSource s
    → Partial NestedSource (v_ifnconst depth str s)
unfolding v_ifnconst
v_ifnconst-Nested depth str s h =
    Partial-bind NestedSource NestedSource (place_here s)
      (λ t. eval_first depth str t >>= (λ r. pushif (any_flag r.0.flags) r.1))
      (place_here-Nested s h)
      (λ t k.
        Partial-bind NestedPair NestedSource (eval_first depth str t)
          (λ r. pushif (any_flag r.0.flags) r.1) (eval_first-Nested depth str t k)
          (λ r e. pushif-Nested (any_flag r.0.flags) r.1 e))

turn_top-at :
    (l : List If) (s : Source) → IsNested l → NestedSource (turn_top (record s { ifstack = l }))
turn_top-at [] s h = tt
turn_top-at (i ∷ rest) s h = IsNested-top i (record i { xtrue = not i.xtrue }) rest (λ e. e) h

v_else-at :
    (l : List If) (s : Source)
    → IsNested l
    → Partial NestedSource (v_else (record s { ifstack = l }))
unfolding v_else
v_else-at [] s h = tt
v_else-at (i ∷ rest) s h = elim (Bool-cases (i.acctrue && not i.base)) [
  | inl e ↦ rw e (
      Partial-bind NestedSource NestedSource (place_here (record s { ifstack = i ∷ rest }))
        (λ t. ok (turn_top t)) (place_here-Nested (record s { ifstack = i ∷ rest }) h)
        (λ t k. turn_top-at t.ifstack t k))
  | inr e ↦ rw e h
]

abbrev pub NestedState : Source × Bool → Type 0
NestedState r = NestedSource r.0

pop_if-at :
    (l : List If) (s : Source) → IsNested l → NestedState (pop_if (record s { ifstack = l }))
unfolding pop_if
pop_if-at [] s h = tt
pop_if-at (i ∷ rest) s h = elim (Bool-cases (i.file == s.incfile)) [
  | inl e ↦ rw e (IsNested-tail i rest h)
  | inr e ↦ rw e h
]

leave-Nested :
    (b : Bool) (s : Source)
    → NestedSource s
    → Partial NestedSource (if b then place_here s else ok s)
leave-Nested true s h = place_here-Nested s h
leave-Nested false s h = h

v_endif-at :
    (l : List If) (s : Source)
    → IsNested l
    → Partial NestedState (v_endif (record s { ifstack = l }))
unfolding v_endif
v_endif-at [] s h = tt
v_endif-at (i ∷ rest) s h = elim (Bool-cases (not i.base)) [
  | inl e ↦ rw e (
      Partial-bind NestedSource NestedState
        (if i.acctrue
          then place_here (record s { ifstack = i ∷ rest })
          else ok (record s { ifstack = i ∷ rest }))
        (λ t. ok (pop_if t)) (leave-Nested i.acctrue (record s { ifstack = i ∷ rest }) h)
        (λ t k. pop_if-at t.ifstack t k))
  | inr e ↦ rw e h
]

-- Each of the directives IF, IFCONST, IFNCONST, ELSE and ENDIF keeps the stack nested: wherever its run ends
-- without a fault, an entry that is marked as standing in assembled lines has assembling entries below it.
pub directives-IsNested :
    (depth : ℕ) (str : List ℕ) (s : Source)
    → IsNested s.ifstack
    → Partial NestedSource (v_if depth str s)
      × Partial NestedSource (v_ifconst depth str s)
      × Partial NestedSource (v_ifnconst depth str s)
      × Partial NestedSource (v_else s)
      × Partial NestedState (v_endif s)
directives-IsNested depth str s h = (
  v_if-at depth str s.ifstack s h,
  v_ifconst-Nested depth str s h,
  v_ifnconst-Nested depth str s h,
  v_else-at s.ifstack s h,
  v_endif-at s.ifstack s h,
)

-- every entry assembles
abbrev pub all_active : List If → Bool
all_active [] = true
all_active (i ∷ []) = i.xtrue && i.acctrue
all_active (i ∷ j ∷ rest) = i.xtrue && i.acctrue && all_active (j ∷ rest)

-- In a nested stack the two bits of the top entry, which the program asks for each line, tell that every IF
-- around the line assembles.
pub is_active-all_active :
    (i : If) (rest : List If) → IsNested (i ∷ rest) → is_active (i ∷ rest) ≡ all_active (i ∷ rest)
unfolding is_active
is_active-all_active i [] h = refl
is_active-all_active i (j ∷ rest) h = ground (arith, h.0, is_active-all_active j rest h.1)
