-- ===== src/Mnemonics/Processors.antt =====
-- `available_processors` and `v_processor` of src/src/ops.c.
use dasm_dillon_code_sourcef.Common.{
  ℕ, ◌^◌, ◌<◌, ◌≡◌, refl, sym, ◌∙◌, Bool, true, false, not, ◌&&◌, List, [], ◌∷◌, Option, none, some,
  length, if◌then◌else◌, ◌==◌, ltb, arith, Run, ok, fault, codes, Bool-cases, inl, inr, ==_iff,
  ltb→lt,
}
use mathlib.Core.Bool.{false≢true}
use dasm_dillon_code_sourcef.Util.{same_bytes, match_either_case}
use dasm_dillon_code_sourcef.Util.Strings.{same_bytes_refl}
use dasm_dillon_code_sourcef.Mnemonics.{Mnemonic, MnemonicHash, addhashtable}
use dasm_dillon_code_sourcef.Mnemonics.Lookup.{bits_below}
use dasm_dillon_code_sourcef.Mnemonics.Tables.{mne_f8}
use dasm_dillon_code_sourcef.Mnemonics.Mos6502.{mne_6502, mne_6502_illegal, mne_6502_dtv}
use dasm_dillon_code_sourcef.Mnemonics.Hitachi6303.{mne_6803, mne_hd6303}
use dasm_dillon_code_sourcef.Mnemonics.Motorola6811.{mne_68hc11}
use dasm_dillon_code_sourcef.Mnemonics.Motorola68705.{mne_68705}

-- struct processor_description
pub record Processor : Type 0 where
  pub name : List ℕ
  pub msb_order : Bool
  pub mnemonic_tables : List (List Mnemonic)

abbrev pub processor : List ℕ → Bool → List (List Mnemonic) → Processor
processor name msb_order tables = record {
  name = name;
  msb_order = msb_order;
  mnemonic_tables = tables;
}

abbrev pub available_processors : List Processor
available_processors =
    processor (codes "6502") false (mne_6502 ∷ mne_6502_illegal ∷ [])
    ∷ processor (codes "C64DTV2") false (mne_6502 ∷ mne_6502_illegal ∷ mne_6502_dtv ∷ [])
    ∷ processor (codes "6803") true (mne_6803 ∷ [])
    ∷ processor (codes "HD6303") true (mne_6803 ∷ mne_hd6303 ∷ [])
    ∷ processor (codes "68705") true (mne_68705 ∷ [])
    ∷ processor (codes "68HC11") true (mne_68hc11 ∷ [])
    ∷ processor (codes "F8") true (mne_f8 ∷ [])
    ∷ []

-- the loop of `v_processor`
unfoldable pub find_processor : List ℕ → List Processor → Option Processor
find_processor str [] = none
find_processor str (p ∷ rest) =
    let more = find_processor str rest in if match_either_case str p.name then some p else more

-- processor_forced, selected_processor, called_already and MHash
pub record Selection : Type 0 where
  pub forced : Bool
  pub selected : Option Processor
  pub called_already : Bool
  pub table : MnemonicHash

unfoldable pub add_tables : List (List Mnemonic) → MnemonicHash → MnemonicHash
add_tables [] table = table
add_tables (mnes ∷ rest) table = add_tables rest (addhashtable mnes table)

-- the processor is another one than before
abbrev pub is_other : Option Processor → Processor → Bool
is_other none p = false
is_other (some previous) p = not (same_bytes previous.name p.name)

-- the tables are added once
unfoldable pub add_once : Processor → Selection → Selection
add_once p st =
    if st.called_already
    then st
    else record st { called_already = true; table = add_tables p.mnemonic_tables st.table }

-- a processor that is not there is a fatal error, and so is a second one, which stays selected
unfoldable pub select_found : Selection → Option Processor → Selection × Bool
select_found st none = (st, true)
select_found st (some p) =
    let selected = record st { selected = some p } in
    if is_other st.selected p then (selected, true) else (add_once p selected, false)

-- with a forced processor the directive is ignored, with a warning on another one
unfoldable pub v_processor : List ℕ → Selection → Run (Selection × Bool)
v_processor str st =
    if st.forced
    then elim st.selected [ none ↦ fault | some p ↦ ok (st, false) ]
    else ok (select_found st (find_processor str available_processors))

-- a line with one opcode for each addressing mode of its mask, which are all modes of an operand
abbrev pub IsFull : Mnemonic → Type 0
IsFull mne = (length mne.opcode ≡ bits_below mne.okmask 17) × (mne.okmask < 2 ^ 17)

abbrev pub AllFull : List Mnemonic → Type 0
AllFull [] = Unit
AllFull (mne ∷ rest) = IsFull mne × AllFull rest

abbrev pub TablesFull : List (List Mnemonic) → Type 0
TablesFull [] = Unit
TablesFull (mnes ∷ rest) = AllFull mnes × TablesFull rest

abbrev is_full : Mnemonic → Bool
is_full mne = length mne.opcode == bits_below mne.okmask 17 && ltb mne.okmask (2 ^ 17)

abbrev all_full : List Mnemonic → Bool
all_full [] = true
all_full (mne ∷ rest) = is_full mne && all_full rest

abbrev tables_full : List (List Mnemonic) → Bool
tables_full [] = true
tables_full (mnes ∷ rest) = all_full mnes && tables_full rest

abbrev processors_full : List Processor → Bool
processors_full [] = true
processors_full (p ∷ rest) = tables_full p.mnemonic_tables && processors_full rest

both : (a b : Bool) → (a && b) ≡ true → (a ≡ true) × (b ≡ true)
both a b h = ground arith

all_full-AllFull : (mnes : List Mnemonic) → all_full mnes ≡ true → AllFull mnes
all_full-AllFull [] h = tt
all_full-AllFull (mne ∷ rest) h =
    let (one, more) = both (is_full mne) (all_full rest) h in
    let (opcodes, mask) = both _ _ one in
    (((==_iff _ _).0 opcodes, ltb→lt _ _ mask), all_full-AllFull rest more)

tables_full-TablesFull :
    (tables : List (List Mnemonic)) → tables_full tables ≡ true → TablesFull tables
tables_full-TablesFull [] h = tt
tables_full-TablesFull (mnes ∷ rest) h =
    let (one, more) = both (all_full mnes) (tables_full rest) h in
    (all_full-AllFull mnes one, tables_full-TablesFull rest more)

-- what is found, if anything, has full tables
abbrev pub FoundFull : Option Processor → Type 0
FoundFull none = Unit
FoundFull (some p) = TablesFull p.mnemonic_tables

find_processor-FoundFull :
    (str : List ℕ) (ps : List Processor)
    → processors_full ps ≡ true
    → FoundFull (find_processor str ps)
unfolding find_processor
find_processor-FoundFull str [] h = tt
find_processor-FoundFull str (p ∷ rest) h =
    let (one, more) = both (tables_full p.mnemonic_tables) (processors_full rest) h in
    choose (match_either_case str p.name) (find_processor str rest)
      (tables_full-TablesFull p.mnemonic_tables one) (find_processor-FoundFull str rest more)
  where
    choose :
        (b : Bool) (found : Option Processor)
        → TablesFull p.mnemonic_tables
        → FoundFull found
        → FoundFull (if b then some p else found)
    choose true found here there = here
    choose false found here there = there

-- Whatever name PROCESSOR gives, the tables of the processor that is found have one opcode for each addressing mode of
-- each line's mask, and no mode but the 17 that an operand can have.
pub available_processors-FoundFull :
    (str : List ℕ) → FoundFull (find_processor str available_processors)
available_processors-FoundFull str = find_processor-FoundFull str available_processors refl

select_none : (st : Selection) → (select_found st none).1 ≡ true
unfolding select_found
select_none st = refl

select_added :
    (st : Selection) (p : Processor) (called : Bool)
    → let added = add_once p (record st { selected = some p; called_already = called }) in
      select_found added (some p) ≡ (added, false)
unfolding select_found add_once
select_added st p true = rw (same_bytes_refl p.name) refl
select_added st p false = rw (same_bytes_refl p.name) refl

select_same :
    (st : Selection) (p : Processor)
    → is_other st.selected p ≡ false
    → select_found st (some p) ≡ (add_once p (record st { selected = some p }), false)
unfolding select_found
select_same st p e = rw e refl

select_other :
    (st : Selection) (p : Processor)
    → is_other st.selected p ≡ true
    → (select_found st (some p)).1 ≡ true
unfolding select_found
select_other st p e = rw e refl

-- The directive PROCESSOR, which every pass meets again, changes nothing the second time where it was accepted: the
-- tables of the processor are not added twice.
pub select_found-again :
    (st : Selection) (found : Option Processor)
    → (select_found st found).1 ≡ false
    → select_found (select_found st found).0 found ≡ select_found st found
select_found-again st none e = absurd (false≢true (sym e ∙ select_none st))
select_found-again st (some p) e = elim (Bool-cases (is_other st.selected p)) [
  | inl other ↦ absurd (false≢true (sym e ∙ select_other st p other))
  | inr same ↦ rw (select_same st p same) (select_added st p st.called_already)
]
