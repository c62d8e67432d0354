-- ===== src/Symbols/Lookup.antt =====
-- Finding, creating and changing entries of the table of src/src/symbols.c.
use dasm_dillon_code_sourcef.Common.{
  ℕ, zero, suc, ◌<◌, ◌≤◌, ◌≡◌, refl, true, List, [], ◌∷◌, none, some, length, ap, sym, ◌∙◌, get_or,
  set, if◌then◌else◌, ◌==◌, arith, length-set, replicate, length-replicate, Bool-cases, inl, inr,
  ==_iff,
}
use dasm_dillon_code_sourcef.Asm.{Symbol}
use dasm_dillon_code_sourcef.Util.{same_bytes}
use dasm_dillon_code_sourcef.Util.Strings.{same_bytes_iff}
use dasm_dillon_code_sourcef.Symbols.{
  as_entry, new_symbol, Globals, entry, hash_symbol, chain_of, find_in, find_entry, insert_symbol,
  modify_in, modify_symbol,
}
use mathlib.Core.Option

hash_symbol-lt : (str : List ℕ) → hash_symbol str < 1024
unfolding hash_symbol
hash_symbol-lt str = omega arith

suc-== : (i j : ℕ) → (i == j) ≡ (suc i == suc j)
suc-== i j = ground arith

pub get_or-set {ℓ} :
    {A : Type ℓ} (xs : List A) (i j : ℕ) (v d : A)
    → i < length xs
    → get_or (set xs i v) j d ≡ (if i == j then v else get_or xs j d)
get_or-set [] i j v d h = absurd (omega arith)
get_or-set (x ∷ xs) zero zero v d h = refl
get_or-set (x ∷ xs) zero (suc j) v d h = ground arith
get_or-set (x ∷ xs) (suc i) zero v d h = ground arith
get_or-set (x ∷ xs) (suc i) (suc j) v d h =
    get_or-set xs i j v d (omega arith) ∙ ap (λ b. if b then v else get_or xs j d) (suc-== i j)

-- how often a chain holds a name
pub count_in : List ℕ → List Symbol → ℕ
count_in str [] = 0
count_in str (sym ∷ chain) =
    if same_bytes sym.name str then suc (count_in str chain) else count_in str chain

-- The table has its 1024 chains, and every name stands at most once, in the chain of its hash.
pub record IsTable (g : Globals) : Type 0 where
  pub size : length g.shash ≡ 1024
  pub placed :
      (str : List ℕ) (i : ℕ)
      → count_in str (get_or g.shash i []) ≤ (if hash_symbol str == i then 1 else 0)

get_or-replicate : (n i : ℕ) → get_or {A = List Symbol} (replicate n []) i [] ≡ []
get_or-replicate zero i = refl
get_or-replicate (suc n) zero = refl
get_or-replicate (suc n) (suc i) = get_or-replicate n i

-- the table at the start, which is all null pointers
pub empty-IsTable : (g : Globals) → g.shash ≡ replicate 1024 [] → IsTable g
unfolding count_in
empty-IsTable g e = record {
  size = ap length e ∙ length-replicate {A = List Symbol} 1024 [];
  placed = λ str i. rw (e, get_or-replicate 1024 i) (omega arith);
}

pub find_entry-empty :
    (g : Globals) (str : List ℕ) → g.shash ≡ replicate 1024 [] → find_entry g str ≡ none
unfolding find_entry chain_of find_in as_entry
find_entry-empty g str e = rw (e, get_or-replicate 1024 (hash_symbol str)) refl

same_bytes_trans :
    (a b c : List ℕ) → same_bytes a b ≡ true → same_bytes b c ≡ true → same_bytes a c ≡ true
same_bytes_trans a b c h k =
    (same_bytes_iff a c).1 ((same_bytes_iff a b).0 h ∙ (same_bytes_iff b c).0 k)

same_bytes_euclid :
    (a b c : List ℕ) → same_bytes a b ≡ true → same_bytes a c ≡ true → same_bytes b c ≡ true
same_bytes_euclid a b c h k =
    (same_bytes_iff b c).1 (sym ((same_bytes_iff a b).0 h) ∙ (same_bytes_iff a c).0 k)

same_bytes_common :
    (a b c : List ℕ) → same_bytes b c ≡ true → same_bytes a c ≡ true → same_bytes a b ≡ true
same_bytes_common a b c h k =
    (same_bytes_iff a b).1 ((same_bytes_iff a c).0 k ∙ sym ((same_bytes_iff b c).0 h))

same_bytes_hash : (s t : List ℕ) → same_bytes s t ≡ true → hash_symbol s ≡ hash_symbol t
same_bytes_hash s t h = ap hash_symbol ((same_bytes_iff s t).0 h)

-- The chain of a name after a chain is replaced.
chain_of-set :
    (g : Globals) (name str : List ℕ) (chain : List Symbol)
    → IsTable g
    → chain_of (record g { shash = set g.shash (hash_symbol name) chain }) str
      ≡ (if hash_symbol name == hash_symbol str then chain else chain_of g str)
unfolding chain_of
chain_of-set g name str chain t =
    get_or-set g.shash (hash_symbol name) (hash_symbol str) chain []
      (omega (arith, hash_symbol-lt name, t.size))

chain_of_hash :
    (g : Globals) (name : List ℕ) (i : ℕ)
    → (hash_symbol name == i) ≡ true
    → chain_of g name ≡ get_or g.shash i []
unfolding chain_of
chain_of_hash g name i h = ap (λ i. get_or g.shash i []) ((==_iff _ _).0 h)

chain_of_same :
    (g : Globals) (name str : List ℕ)
    → (hash_symbol name == hash_symbol str) ≡ true
    → chain_of g name ≡ chain_of g str
unfolding chain_of
chain_of_same g name str h = ap (λ i. get_or g.shash i []) ((==_iff _ _).0 h)

hash_same :
    (name str : List ℕ) → same_bytes name str ≡ true → (hash_symbol name == hash_symbol str) ≡ true
hash_same name str h = (==_iff _ _).1 (same_bytes_hash name str h)

find_in_new :
    (name str : List ℕ) (chain : List Symbol)
    → find_in str (new_symbol name ∷ chain)
      ≡ (if same_bytes name str then some (new_symbol name) else find_in str chain)
unfolding find_in new_symbol
find_in_new name str chain = refl

find_in-insert_symbol :
    (g : Globals) (name str : List ℕ)
    → IsTable g
    → find_in str (chain_of (insert_symbol g name) str)
      ≡ (if same_bytes name str then some (new_symbol name) else find_in str (chain_of g str))
unfolding insert_symbol
find_in-insert_symbol g name str t =
    ap (find_in str) (chain_of-set g name str (new_symbol name ∷ chain_of g name) t)
    ∙ ground (
      arith,
      find_in_new name str (chain_of g name),
      chain_of_same g name str,
      hash_same name str,
    )

-- After `create_symbol` put a node into a table, a lookup of its name gives the new, unknown symbol, and a
-- lookup of any other name gives what it gave before.
pub find_entry-insert_symbol :
    (g : Globals) (name str : List ℕ)
    → IsTable g
    → find_entry (insert_symbol g name) str
      ≡ (if same_bytes name str then some (entry str, new_symbol name) else find_entry g str)
unfolding find_entry as_entry
find_entry-insert_symbol g name str t =
    ap (as_entry str) (find_in-insert_symbol g name str t) ∙ ground arith

-- a change that keeps the name
abbrev pub KeepsName : (Symbol → Symbol) → Type 0
KeepsName f = (sym : Symbol) → (f sym).name ≡ sym.name

find_in-modify_in :
    (name str : List ℕ) (f : Symbol → Symbol) (chain : List Symbol)
    → KeepsName f
    → find_in str (modify_in name f chain)
      ≡ (if same_bytes name str then Option.map f (find_in str chain) else find_in str chain)
unfolding find_in modify_in
find_in-modify_in name str f [] keep = ground arith
find_in-modify_in name str f (sym ∷ chain) keep = ground (
  arith,
  keep sym,
  find_in-modify_in name str f chain keep,
  same_bytes_trans sym.name name str,
  same_bytes_euclid sym.name name str,
  same_bytes_common sym.name name str,
)

-- A write through a symbol's pointer is seen by a lookup of its name, and by no other lookup.
pub find_entry-modify_symbol :
    (g : Globals) (name str : List ℕ) (f : Symbol → Symbol)
    → IsTable g
    → KeepsName f
    → find_entry (modify_symbol (entry name) f g) str ≡ (
        if same_bytes name str
        then as_entry str (Option.map f (find_in str (chain_of g str)))
        else find_entry g str)
unfolding find_entry modify_symbol
find_entry-modify_symbol g name str f t keep =
    ap (λ c. as_entry str (find_in str c))
      (chain_of-set g name str (modify_in name f (chain_of g name)) t)
    ∙ ground (
      arith,
      chain_of_same g name str,
      hash_same name str,
      find_in-modify_in name str f (chain_of g name) keep,
      find_in-modify_in name str f (chain_of g str) keep,
    )

count_in-modify_in :
    (name str : List ℕ) (f : Symbol → Symbol) (chain : List Symbol)
    → KeepsName f
    → count_in str (modify_in name f chain) ≡ count_in str chain
unfolding count_in modify_in
count_in-modify_in name str f [] keep = refl
count_in-modify_in name str f (sym ∷ chain) keep =
    ground (arith, keep sym, count_in-modify_in name str f chain keep)

-- A write through a pointer that keeps the name keeps the table in order.
pub modify_symbol-IsTable :
    (g : Globals) (name : List ℕ) (f : Symbol → Symbol)
    → KeepsName f
    → IsTable g
    → IsTable (modify_symbol (entry name) f g)
unfolding modify_symbol chain_of
modify_symbol-IsTable g name f keep t = record {
  size = length-set g.shash (hash_symbol name) _ ∙ t.size;
  placed = λ str i.
      rw
        (get_or-set g.shash (hash_symbol name) i
          (modify_in name f (get_or g.shash (hash_symbol name) [])) []
          (omega (arith, hash_symbol-lt name, t.size)))
        (elim (Bool-cases (hash_symbol name == i)) [
          | inr e ↦ rw e (t.placed str i)
          | inl e ↦
              rw
                (
                  e,
                  count_in-modify_in name str f (get_or g.shash (hash_symbol name) []) keep,
                  (==_iff _ _).0 e,
                )
                (t.placed str i)
        ]);
}

find_in-count_in :
    (str : List ℕ) (chain : List Symbol) → find_in str chain ≡ none → count_in str chain ≡ 0
unfolding find_in count_in
find_in-count_in str [] h = refl
find_in-count_in str (sym ∷ chain) h = ground (arith, find_in-count_in str chain)

find_entry-find_in :
    (g : Globals) (str : List ℕ) → find_entry g str ≡ none → find_in str (chain_of g str) ≡ none
unfolding find_entry as_entry
find_entry-find_in g str h = ground arith

placed_new :
    (g : Globals) (name str : List ℕ) (i : ℕ)
    → find_entry g name ≡ none
    → IsTable g
    → count_in str
        (if hash_symbol name == i then new_symbol name ∷ chain_of g name else get_or g.shash i [])
      ≤ (if hash_symbol str == i then 1 else 0)
unfolding count_in new_symbol
placed_new g name str i new t = elim (Bool-cases (hash_symbol name == i)) [
  | inr e ↦ rw e (t.placed str i)
  | inl e ↦ rw e (elim (Bool-cases (same_bytes name str)) [
    | inr d ↦ rw d (rw (chain_of_hash g name i e) (t.placed str i))
    | inl d ↦
        let none_yet = find_in-count_in name (chain_of g name) (find_entry-find_in g name new) in
        let same = sym ((same_bytes_iff name str).0 d) in
        let none_here = ap (λ s. count_in s (chain_of g name)) same ∙ none_yet in
        let in_place = ap (λ s. hash_symbol s == i) same ∙ e in
        rw (d, none_here, in_place) (omega arith)
  ])
]

-- Creating a symbol that is not there keeps the table in order: still one node for each name, in the chain
-- of its hash.
pub insert_symbol-IsTable :
    (g : Globals) (name : List ℕ)
    → find_entry g name ≡ none
    → IsTable g
    → IsTable (insert_symbol g name)
unfolding insert_symbol
insert_symbol-IsTable g name new t = record {
  size = length-set g.shash (hash_symbol name) _ ∙ t.size;
  placed = λ str i.
      rw
        (get_or-set g.shash (hash_symbol name) i (new_symbol name ∷ chain_of g name) []
          (omega (arith, hash_symbol-lt name, t.size)))
        (placed_new g name str i new t);
}
