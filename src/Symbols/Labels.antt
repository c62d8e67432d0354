-- ===== src/Symbols/Labels.antt =====
-- What `programlabel` of src/src/symbols.c does to the table and to the counters of passes.
use dasm_dillon_code_sourcef.Common.{
  ℕ, ◌+◌, ◌≡◌, ◌≢◌, refl, Bool, true, false, not, ◌&&◌, List, Option, none, some, length, ap, sym,
  ◌∙◌, subst, ◌==◌, arith, Bool-cases, inl, inr, Option-cases, ◌⊎◌,
}
use dasm_dillon_code_sourcef.Asm.{Symbol}
use dasm_dillon_code_sourcef.Util.{same_bytes}
use dasm_dillon_code_sourcef.Util.Strings.{same_bytes_refl}
use dasm_dillon_code_sourcef.Symbols.{
  label_scope, define_at, cut_name, as_entry, new_symbol, Globals, Handle, entry, chain_of, find_in,
  find_entry, find_special, find_symbol, create_symbol, insert_symbol, modify_symbol, local_name,
  check_label, place_label, define_label, current_pc, current_unknown,
}
use dasm_dillon_code_sourcef.Symbols.Lookup.{
  IsTable, KeepsName, find_entry-insert_symbol, find_entry-modify_symbol, insert_symbol-IsTable,
  modify_symbol-IsTable,
}

-- another pass is asked for
abbrev pub WantsPass : Symbol → Globals → Type 0
WantsPass sym g =
    ((sym.flags.unknown ≡ true) × (sym.flags.ref ≡ true))
    ⊎ (((current_unknown g ≡ true) × (sym.flags.ref ≡ true))
        ⊎ ((current_unknown g ≡ false) × (sym.flags.unknown ≡ false) × (current_pc g ≢ sym.value)))

both_false : (a b : Bool) → ((a ≡ true) × (b ≡ true) → ⊥) → (a && b) ≡ false
both_false false b h = refl
both_false true false h = refl
both_false true true h = absurd (h (refl, refl))

moved_false :
    (c u : Bool) (pc value : ℕ)
    → ((c ≡ false) × (u ≡ false) × (pc ≢ value) → ⊥)
    → (not c && not u && not (pc == value)) ≡ false
moved_false true u pc value h = refl
moved_false false true pc value h = refl
moved_false false false pc value h = elim (Bool-cases (pc == value)) [
  | inl e ↦ rw e refl
  | inr e ↦ absurd (h (refl, refl, ground arith))
]

-- A label that is there asks for another pass exactly when it was used before its value was known, or is
-- used while the origin is not known, or has another value than the origin, both being known: then `Redo`
-- grows by one. Else nothing changes. The table is left alone.
pub check_label-redo :
    (sym : Symbol) (g : Globals)
    → (WantsPass sym g → (check_label sym g).0.redo ≡ g.redo + 1)
      × ((WantsPass sym g → ⊥) → (check_label sym g).0 ≡ g)
      × ((check_label sym g).0.shash ≡ g.shash)
unfolding check_label
check_label-redo sym g = (
  λ h. ground arith,
  λ h.
      rw
        (
          both_false sym.flags.unknown sym.flags.ref (λ e. h (inl e)),
          both_false (current_unknown g) sym.flags.ref (λ e. h (inr (inl e))),
          moved_false (current_unknown g) sym.flags.unknown (current_pc g) sym.value
              (λ e. h (inr (inr e))),
        )
        refl,
  ground arith,
)

define_label-KeepsName : (pc : ℕ) (unknown : Bool) → KeepsName (define_label pc unknown)
define_label-KeepsName pc unknown sym = refl

-- tables with the same chains answer alike
find_entry-shash :
    (g h : Globals) (str : List ℕ) → g.shash ≡ h.shash → find_entry g str ≡ find_entry h str
unfolding find_entry chain_of
find_entry-shash g h str e = rw e refl

IsTable-shash : (g h : Globals) → g.shash ≡ h.shash → IsTable h → IsTable g
IsTable-shash g h e t = record {
  size = ap length e ∙ t.size;
  placed = λ str i. rw e (t.placed str i);
}

-- the state behind a label whose key is `key`
pub record IsPlaced (key : List ℕ) (g h : Globals) : Type 0 where
  pub table : IsTable h
  pub found :
      (s : Symbol) × (find_entry h key ≡ some (entry key, s))
      × (s.value ≡ current_pc g)
      × (s.flags.unknown ≡ current_unknown g)
  pub others : (str : List ℕ) → same_bytes key str ≡ false → find_entry h str ≡ find_entry g str

find_in_entry :
    (g : Globals) (key : List ℕ) (s : Symbol)
    → find_entry g key ≡ some (entry key, s)
    → find_in key (chain_of g key) ≡ some s
unfolding find_entry as_entry
find_in_entry g key s e = elim (Option-cases (find_in key (chain_of g key))) [
  | inl n ↦ cc
  | inr (r, n) ↦ cc
]

pub modify_symbol_found :
    (g : Globals) (key : List ℕ) (s : Symbol) (f : Symbol → Symbol)
    → IsTable g
    → KeepsName f
    → find_entry g key ≡ some (entry key, s)
    → find_entry (modify_symbol (entry key) f g) key ≡ some (entry key, f s)
unfolding as_entry
modify_symbol_found g key s f t keep e =
    find_entry-modify_symbol g key key f t keep
    ∙ rw (same_bytes_refl key, find_in_entry g key s e) refl

pub modify_symbol_other :
    (g : Globals) (key str : List ℕ) (f : Symbol → Symbol)
    → IsTable g
    → KeepsName f
    → same_bytes key str ≡ false
    → find_entry (modify_symbol (entry key) f g) str ≡ find_entry g str
modify_symbol_other g key str f t keep e = find_entry-modify_symbol g key str f t keep ∙ rw e refl

place_known :
    (g h : Globals) (key : List ℕ) (s : Symbol)
    → h.shash ≡ g.shash
    → IsTable g
    → find_entry g key ≡ some (entry key, s)
    → IsPlaced key g (modify_symbol (entry key) (define_label (current_pc g) (current_unknown g)) h)
place_known g h key s e t f =
    let th = IsTable-shash h g e t in
    let keep = define_label-KeepsName (current_pc g) (current_unknown g) in
    let fh = find_entry-shash h g key e ∙ f in
    record {
      table = modify_symbol-IsTable h key (define_label (current_pc g) (current_unknown g)) keep th;
      found = (
        define_label (current_pc g) (current_unknown g) s,
        modify_symbol_found h key s (define_label (current_pc g) (current_unknown g)) th keep fh,
        refl,
        refl,
      );
      others = λ str d.
          modify_symbol_other h key str (define_label (current_pc g) (current_unknown g)) th keep d
          ∙ find_entry-shash h g str e;
    }

place_new :
    (g h : Globals) (key : List ℕ)
    → h.shash ≡ g.shash
    → IsTable g
    → find_entry g key ≡ none
    → IsPlaced key g (
        modify_symbol
          (entry key)
          (define_label (current_pc g) (current_unknown g))
          (insert_symbol h key))
place_new g h key e t f =
    let th = IsTable-shash h g e t in
    let keep = define_label-KeepsName (current_pc g) (current_unknown g) in
    let ti = insert_symbol-IsTable h key (find_entry-shash h g key e ∙ f) th in
    let there = find_entry-insert_symbol h key key th ∙ rw (same_bytes_refl key) refl in
    record {
      table =
          modify_symbol-IsTable (insert_symbol h key) key
            (define_label (current_pc g) (current_unknown g)) keep ti;
      found = (
        define_label (current_pc g) (current_unknown g) (new_symbol key),
        modify_symbol_found (insert_symbol h key) key (new_symbol key)
            (define_label (current_pc g) (current_unknown g)) ti keep there,
        refl,
        refl,
      );
      others = λ str d.
          modify_symbol_other (insert_symbol h key) key str
            (define_label (current_pc g) (current_unknown g)) ti keep d
          ∙ find_entry-insert_symbol h key str th
          ∙ rw d refl
          ∙ find_entry-shash h g str e;
    }

-- the key of a label in the scope that it opens
abbrev pub label_key : Globals → List ℕ → List ℕ
label_key g str = local_name (label_scope g str) (cut_name str (length str))

label_scope-shash : (g : Globals) (str : List ℕ) → (label_scope g str).shash ≡ g.shash
unfolding label_scope
label_scope-shash g str = ground arith

pub find_symbol_plain :
    (g : Globals) (str : List ℕ) (len : ℕ)
    → find_special g (cut_name str len) ≡ none
    → find_symbol g str len ≡ find_entry g (local_name g (cut_name str len))
unfolding find_symbol
find_symbol_plain g str len e = rw (e, find_symbol) refl

pub find_entry-cases :
    (g : Globals) (key : List ℕ)
    → (find_entry g key ≡ none) ⊎ ((s : Symbol) × (find_entry g key ≡ some (entry key, s)))
unfolding find_entry as_entry
find_entry-cases g key = elim (Option-cases (find_in key (chain_of g key))) [
  | inl n ↦ inl (rw n refl)
  | inr (s, n) ↦ inr (s, rw n refl)
]

place_at :
    (g h : Globals) (str : List ℕ) (found : Option (Handle × Symbol))
    → h.shash ≡ g.shash
    → IsTable g
    → found ≡ find_entry h (local_name h (cut_name str (length str)))
    → IsPlaced
        (local_name h (cut_name str (length str)))
        g
        (define_at (current_pc g) (current_unknown g) str h found).0
unfolding define_at create_symbol
place_at g h str found e t f =
    let key = local_name h (cut_name str (length str)) in
    elim (find_entry-cases h key) [
      | inl n ↦
          subst (λ r. IsPlaced key g (define_at (current_pc g) (current_unknown g) str h r).0)
            (sym (f ∙ n)) (place_new g h key e t (sym (find_entry-shash h g key e) ∙ n))
      | inr (s, n) ↦
          subst (λ r. IsPlaced key g (define_at (current_pc g) (current_unknown g) str h r).0)
            (sym (f ∙ n))
            (place_known g (check_label s h).0 key s ((check_label-redo s h).2 ∙ e) t
              (sym (find_entry-shash h g key e) ∙ n))
    ]

-- After `programlabel` on a label that is none of the three special names, the label's key is found with
-- the segment's origin as its value and the origin's unknown bit, every other key is found as before, and
-- the table is in order.
pub place_label-IsPlaced :
    (g : Globals) (str : List ℕ)
    → IsTable g
    → find_special (label_scope g str) (cut_name str (length str)) ≡ none
    → IsPlaced (label_key g str) g (place_label g str).0
unfolding place_label
place_label-IsPlaced g str t special =
    place_at g (label_scope g str) str (find_symbol (label_scope g str) str (length str))
      (label_scope-shash g str) t (find_symbol_plain (label_scope g str) str (length str) special)
