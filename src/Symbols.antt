-- ===== src/Symbols.antt =====
-- The symbol table of src/src/symbols.c, with the globals of src/src/globals.c that it reads and writes.
-- A pointer to a symbol is a `Handle`: the table never holds two symbols of one name, since
-- `create_symbol` is called only where `find_symbol` found none, so the name stands for the node.
pub mod Lookup
pub mod Labels
use dasm_dillon_code_sourcef.Common.{
  ℕ, suc, ◌+◌, ◌-◌, ◌/◌, ◌%◌, ◌^◌, Bool, false, not, ◌&&◌, ◌||◌, List, [], ◌∷◌, ◌++◌, map, Option,
  none, some, length, get_or, set, take, if◌then◌else◌, ◌==◌, ltb, leb, bit_or, Run, ok, fault,
}
use dasm_dillon_code_sourcef.Asm.{
  Flags, Symbol, Segment, SegmentFlags, no_flags, unknown_flag, alloc_symbol, max_sym_len,
}
use dasm_dillon_code_sourcef.Util.{hash_string, same_bytes, decimal}

pub record Globals : Type 0 where
  pub shash : List (List Symbol)
  pub special_dv : Symbol
  pub segment : Segment
  pub checksum : ℕ
  pub localindex : ℕ
  pub lastlocalindex : ℕ
  pub localdollarindex : ℕ
  pub lastlocaldollarindex : ℕ
  pub redo : ℕ
  pub redo_why : ℕ
  pub redo_eval : ℕ
  pub redo_if : ℕ
  pub verbose : ℕ
  pub plab : ℕ
  pub pflags : SegmentFlags

abbrev pub reason_obscure : ℕ
reason_obscure = 2

abbrev pub reason_forward_reference : ℕ
reason_forward_reference = 2 ^ 13

abbrev pub reason_phase_error : ℕ
reason_phase_error = 2 ^ 14

-- `hash & SHASHAND`, for a table of 2 ^ 10 chains
unfoldable pub hash_symbol : List ℕ → ℕ
hash_symbol str = hash_string str % 2 ^ 10

pub data Handle : Type 0 where
  special_org special_dv_eqm special_checksum : Handle
  entry : List ℕ → Handle

-- `str[0] == c`
abbrev pub starts_with : ℕ → List ℕ → Bool
starts_with c [] = false
starts_with c (d ∷ s) = d == c

-- `str[len - 1] == c`
unfoldable pub ends_with : ℕ → List ℕ → Bool
ends_with c [] = false
ends_with c (d ∷ []) = d == c
ends_with c (d ∷ e ∷ s) = ends_with c (e ∷ s)

-- The name under which the table knows a label: local labels carry the number of their scope.
unfoldable pub local_name : Globals → List ℕ → List ℕ
local_name g str =
    if starts_with b'.' str
    then decimal g.localindex ++ str
    else if ends_with b'$' str
    then decimal g.localdollarindex ++ b'$' ∷ str
    else str

-- the loop along a chain
unfoldable pub find_in : List ℕ → List Symbol → Option Symbol
find_in str [] = none
find_in str (sym ∷ chain) = if same_bytes sym.name str then some sym else find_in str chain

unfoldable pub chain_of : Globals → List ℕ → List Symbol
chain_of g str = get_or g.shash (hash_symbol str) []

-- the names "." and ".." and "..."
unfoldable pub find_special : Globals → List ℕ → Option (Handle × Symbol)
find_special g str =
    if same_bytes str (b'.' ∷ [])
    then (if g.segment.flags.rorg
        then some (
          special_org,
          record alloc_symbol {
            flags = record no_flags { unknown = g.segment.rflags.unknown };
            value = g.segment.rorg;
          },
        )
        else some (
          special_org,
          record alloc_symbol {
            flags = record no_flags { unknown = g.segment.flags.unknown };
            value = g.segment.org;
          },
        ))
    else if same_bytes str (b'.' ∷ b'.' ∷ [])
    then some (special_dv_eqm, g.special_dv)
    else if same_bytes str (b'.' ∷ b'.' ∷ b'.' ∷ [])
    then some (special_checksum, record alloc_symbol { value = g.checksum })
    else none

unfoldable pub as_entry : List ℕ → Option Symbol → Option (Handle × Symbol)
as_entry name none = none
as_entry name (some sym) = some (entry name, sym)

-- the lookup behind the special names
unfoldable pub find_entry : Globals → List ℕ → Option (Handle × Symbol)
find_entry g name = as_entry name (find_in name (chain_of g name))

-- a name is cut to MAX_SYM_LEN bytes
unfoldable pub cut_name : List ℕ → ℕ → List ℕ
cut_name str len = take (if ltb max_sym_len len then max_sym_len else len) str

-- `find_symbol(str, len)`; the assertions ask for a name
unfoldable pub find_symbol : Globals → List ℕ → ℕ → Option (Handle × Symbol)
find_symbol g str len =
    let name = cut_name str len in
    elim (find_special g name) [ none ↦ find_entry g (local_name g name) | some r ↦ some r ]

-- a new node
unfoldable pub new_symbol : List ℕ → Symbol
new_symbol name = record alloc_symbol { name = name; flags = unknown_flag }

-- the new node at the head of its chain
unfoldable pub insert_symbol : Globals → List ℕ → Globals
insert_symbol g name = record g {
  shash = set g.shash (hash_symbol name) (new_symbol name ∷ chain_of g name);
}

unfoldable pub create_symbol : Globals → List ℕ → ℕ → Handle × Globals
create_symbol g str len =
    let name = cut_name str len in let key = local_name g name in (entry key, insert_symbol g key)

-- a write through a pointer into a chain
unfoldable pub modify_in : List ℕ → (Symbol → Symbol) → List Symbol → List Symbol
modify_in str f [] = []
modify_in str f (sym ∷ chain) =
    if same_bytes sym.name str then f sym ∷ chain else sym ∷ modify_in str f chain

-- A write through a handle. What is written to `special_org` and `special_checksum` is overwritten by the
-- `find_symbol` that gives them out next, and is not kept.
unfoldable pub modify_symbol : Handle → (Symbol → Symbol) → Globals → Globals
modify_symbol special_org f g = g
modify_symbol special_checksum f g = g
modify_symbol special_dv_eqm f g = record g { special_dv = f g.special_dv }
modify_symbol (entry name) f g = record g {
  shash = set g.shash (hash_symbol name) (modify_in name f (chain_of g name));
}

-- the conversion of a long to an int and back
abbrev pub through_int : ℕ → ℕ
through_int value =
    let low = value % 2 ^ 32 in if ltb low (2 ^ 31) then low else low + (2 ^ 64 - 2 ^ 32)

-- the value is an int
unfoldable pub set_special_dv_symbol : ℕ → Flags → Globals → Globals
set_special_dv_symbol value flags g = record g {
  special_dv = record (g.special_dv) { value = through_int value; flags = flags };
}

unfoldable pub clear_chain : List Symbol → List Symbol
clear_chain [] = []
clear_chain (sym ∷ chain) =
    record sym { flags = record (sym.flags) { ref = false } } ∷ clear_chain chain

unfoldable pub clear_all_symbol_refs : Globals → Globals
clear_all_symbol_refs g = record g { shash = map clear_chain g.shash }

unfoldable pub unresolved_in : List Symbol → ℕ
unresolved_in [] = 0
unresolved_in (sym ∷ chain) =
    if sym.flags.unknown then suc (unresolved_in chain) else unresolved_in chain

unfoldable pub unresolved_loop : List (List Symbol) → ℕ
unresolved_loop [] = 0
unresolved_loop (chain ∷ rest) = unresolved_in chain + unresolved_loop rest

unfoldable pub nof_unresolved_symbols : Globals → ℕ
nof_unresolved_symbols g = unresolved_loop g.shash

-- `++Redo; Redo_why |= reason`
abbrev pub count_redo : ℕ → Globals → Globals
count_redo reason g = record g { redo = g.redo + 1; redo_why = bit_or g.redo_why reason }

-- the origin that a label gets, and whether it is unknown
abbrev pub current_pc : Globals → ℕ
current_pc g = if g.segment.flags.rorg then g.segment.rorg else g.segment.org

abbrev pub current_unknown : Globals → Bool
current_unknown g =
    if g.segment.flags.rorg then g.segment.rflags.unknown else g.segment.flags.unknown

-- The checks of `programlabel` on a label that is there: another pass where it was used before its value
-- was known, or where its value changed. The Boolean tells that "Label mismatch" is reported.
unfoldable pub check_label : Symbol → Globals → Globals × Bool
check_label sym g =
    if sym.flags.unknown && sym.flags.ref
    then (count_redo reason_forward_reference g, false)
    else if current_unknown g && sym.flags.ref
    then (count_redo reason_forward_reference g, false)
    else if not (current_unknown g) && not sym.flags.unknown && not (current_pc g == sym.value)
    then (count_redo reason_phase_error g, leb 1 g.verbose || (g.redo_if / reason_obscure) % 2 == 0)
    else (g, false)

-- the value that `programlabel` stores in the end
abbrev pub define_label : ℕ → Bool → Symbol → Symbol
define_label pc unknown sym = record sym {
  value = pc;
  flags = record (sym.flags) { unknown = unknown };
}

-- a label that is not local opens a new scope for the labels with a dollar sign
unfoldable pub label_scope : Globals → List ℕ → Globals
label_scope g str =
    if not (starts_with b'.' str) && not (ends_with b'$' str)
    then record g {
      lastlocaldollarindex = g.lastlocaldollarindex + 1;
      localdollarindex = g.lastlocaldollarindex + 1;
    }
    else g

-- the end of `programlabel`: `pc` and `unknown` are the segment's
unfoldable pub define_at : ℕ → Bool → List ℕ → Globals → Option (Handle × Symbol) → Globals × Bool
define_at pc unknown str g (some (h, sym)) =
    let (g2, mismatch) = check_label sym g in
    (modify_symbol h (define_label pc unknown) g2, mismatch)
define_at pc unknown str g none =
    let (h, g2) = create_symbol g str (length str) in
    (modify_symbol h (define_label pc unknown) g2, false)

-- `programlabel` on `str[0 .. len)`, behind the tests of the empty label and of the colon
unfoldable pub place_label : Globals → List ℕ → Globals × Bool
place_label g str =
    let g1 = label_scope g str in
    define_at (current_pc g) (current_unknown g) str g1 (find_symbol g1 str (length str))

unfoldable pub drop_last : List ℕ → List ℕ
drop_last [] = []
drop_last (c ∷ []) = []
drop_last (c ∷ d ∷ s) = c ∷ drop_last (d ∷ s)

-- A label that is a colon alone makes `programlabel` read before the string.
unfoldable pub label_text : List ℕ → Globals → Run (Globals × Bool)
label_text [] g = fault
label_text (c ∷ s) g = ok (place_label g (c ∷ s))

-- `programlabel()` with `Av[0]`
unfoldable pub programlabel : List ℕ → Globals → Run (Globals × Bool)
programlabel [] g = ok (record g { plab = g.segment.org; pflags = g.segment.flags }, false)
programlabel (c ∷ s) g =
    label_text (if ends_with b':' (c ∷ s) then drop_last (c ∷ s) else c ∷ s)
      (record g { plab = g.segment.org; pflags = g.segment.flags })
