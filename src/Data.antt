-- ===== src/Data.antt =====
-- The directives of src/src/ops.c that lay down data: DC with its other names and DV, and DS. `mnext` is Mnext,
-- `msb_order` that of the processor.
pub mod Bytes
use dasm_dillon_code_sourcef.Common.{
  ℕ, ◌+◌, ◌-◌, ◌^◌, Bool, true, false, not, ◌||◌, List, [], ◌∷◌, ◌++◌, Option, none, some, length,
  get_or, drop, if◌then◌else◌, ◌==◌, ltb, leb, Run, ok, fault, ◌>>=◌,
}
use dasm_dillon_code_sourcef.Asm.{Symbol, Flags, no_flags, AddressMode, wordadr, long}
use dasm_dillon_code_sourcef.Long.{is_negative}
use dasm_dillon_code_sourcef.Symbols.{
  Globals, Handle, find_symbol, set_special_dv_symbol, count_redo,
}
use dasm_dillon_code_sourcef.Output.{Output, generate, genfill, entry_bytes, size_of_gen}
use dasm_dillon_code_sourcef.Conditional.{Source, place_here, eval_first}
use dasm_dillon_code_sourcef.Origin.{Work, Done, eval_nodes, with_source}
use dasm_dillon_code_sourcef.Mnemonics.{Mnemonic}
use dasm_dillon_code_sourcef.Lines.{findext}

abbrev pub reason_dc_not_resolved : ℕ
reason_dc_not_resolved = 2 ^ 2

abbrev pub reason_dv_not_resolved_probably : ℕ
reason_dv_not_resolved_probably = 2 ^ 3

abbrev pub reason_dv_not_resolved_could : ℕ
reason_dv_not_resolved_could = 2 ^ 4

abbrev pub reason_ds_not_resolved : ℕ
reason_ds_not_resolved = 2 ^ 5

-- Mnext where `findext` is called on "x." and a letter
unfoldable pub mode_of_letter : ℕ → Run (Option AddressMode)
mode_of_letter c = do (word, mode, ext) ← findext (b'x' ∷ b'.' ∷ c ∷ []); ok mode

-- Mnext behind the two tests on the name: BYTE, WORD and LONG go by their first letter, DB, DW and DD by the second
unfoldable pub dc_mode : Mnemonic → Option AddressMode → Run (Option AddressMode)
dc_mode mne mnext =
    let first = get_or mne.name 0 0 in
    let second = get_or mne.name 1 0 in
    let by_first = mode_of_letter first in
    let by_second = mode_of_letter (if second == b'd' then b'l' else second) in
    if not (first == b'd') then by_first else if not (second == b'c') then by_second else ok mnext

-- the bytes of an entry
unfoldable pub mode_size : Option AddressMode → ℕ
mode_size (some wordadr) = 2
mode_size (some long) = 4
mode_size _ = 1

-- a `char`, which is signed, as a `long`
abbrev pub char_long : ℕ → ℕ
char_long c = if ltb c 128 then c else 2 ^ 64 - 256 + c

-- another pass, where a flag says so
abbrev pub redo_if_unknown : ℕ → Bool → Source → Source
redo_if_unknown reason unknown s =
    if unknown then record s { globals = count_redo reason s.globals } else s

-- the value of an entry; for DV, `macstr` is the text of the EQM symbol, which is evaluated with the value as ".."
unfoldable pub entry_value : ℕ → Option (List ℕ) → ℕ → Flags → ℕ → Source → Run (ℕ × Source)
entry_value depth none value flags reason s = ok (value, s)
entry_value depth (some macstr) value flags reason s = do
  (sym, s1) ←
      eval_first depth macstr (record s { globals = set_special_dv_symbol value flags s.globals })
  ok (sym.value, redo_if_unknown reason sym.flags.unknown s1)

-- the bytes of an entry behind `glen` bytes in Gen
unfoldable pub put_entry : Bool → ℕ → ℕ → ℕ → Run (List ℕ)
put_entry msb_order size glen value =
    if leb (glen + size) size_of_gen then ok (entry_bytes msb_order value size) else fault

-- the entries of a string
unfoldable pub dc_string :
    ℕ → Bool → ℕ → Option (List ℕ) → ℕ → List ℕ → Source → Run (List ℕ × Source)
dc_string depth msb_order size macstr glen [] s = ok ([], s)
dc_string depth msb_order size macstr glen (c ∷ text) s = do
  (value, s1) ← entry_value depth macstr (char_long c) no_flags reason_dv_not_resolved_probably s
  bytes ← put_entry msb_order size glen value
  (rest, s2) ← dc_string depth msb_order size macstr (glen + size) text s1
  ok (bytes ++ rest, s2)

-- a single value
unfoldable pub dc_value :
    ℕ → Bool → ℕ → Option (List ℕ) → ℕ → Symbol → Source → Run (List ℕ × Source)
dc_value depth msb_order size macstr glen sym s = do
  (value, s1) ← entry_value depth macstr sym.value sym.flags reason_dv_not_resolved_could s
  bytes ← put_entry msb_order size glen value
  ok (bytes, s1)

-- the entries of a node; a node with SYM_STRING has a string
unfoldable pub dc_node :
    ℕ → Bool → ℕ → Option (List ℕ) → ℕ → Symbol → Source → Run (List ℕ × Source)
dc_node depth msb_order size macstr glen sym s = elim sym.flags.string [
  | true ↦ elim sym.string [
    | none ↦ fault
    | some text ↦ dc_string depth msb_order size macstr glen text s
  ]
  | false ↦ dc_value depth msb_order size macstr glen sym s
]

-- the loop on the nodes of the operand
unfoldable pub dc_nodes :
    ℕ → Bool → ℕ → Option (List ℕ) → ℕ → List Symbol → Source → Run (List ℕ × Source)
dc_nodes depth msb_order size macstr glen [] s = ok ([], s)
dc_nodes depth msb_order size macstr glen (sym ∷ nodes) s = do
  (bytes, s1) ←
      dc_node depth msb_order size macstr glen sym
        (redo_if_unknown reason_dc_not_resolved sym.flags.unknown s)
  (rest, s2) ← dc_nodes depth msb_order size macstr (glen + length bytes) nodes s1
  ok (bytes ++ rest, s2)

-- the operand laid down
unfoldable pub lay_down : ℕ → Bool → ℕ → Option (List ℕ) → List ℕ → Work → Done
lay_down depth msb_order size macstr str (s, o) = do
  (nodes, s1) ← eval_nodes depth str s
  (bytes, s2) ← dc_nodes depth msb_order size macstr 0 nodes s1
  ok (with_source s2 (generate (record o { gen = bytes }) s2.globals))

-- the name in front of the operand of DV, up to a space
unfoldable pub dv_name : List ℕ → List ℕ
dv_name [] = []
dv_name (c ∷ str) = let rest = dv_name str in if c == b' ' then [] else c ∷ rest

-- DV: the text of the EQM symbol; a symbol that is not there, or is none of EQM, is told, and ends the directive
unfoldable pub eqm_text : Option (Handle × Symbol) → Option (Option (List ℕ))
eqm_text none = none
eqm_text (some (h, sym)) = if sym.flags.macro then some sym.string else none

-- A symbol of EQM without a text would be a null pointer.
unfoldable pub dv_with : ℕ → Bool → ℕ → List ℕ → Work → Option (Option (List ℕ)) → Done
dv_with depth msb_order size str w none = ok (some w)
dv_with depth msb_order size str w (some none) = fault
dv_with depth msb_order size str w (some (some text)) =
    lay_down depth msb_order size (some text) str w

-- `find_symbol` asks for a name
unfoldable pub v_dv : ℕ → Bool → ℕ → List ℕ → Work → Done
v_dv depth msb_order size str (s, o) =
    let name = dv_name str in
    let found = eqm_text (find_symbol s.globals name (length name)) in
    if length name == 0
    then fault
    else dv_with depth msb_order size (drop (length name) str) (s, o) found

unfoldable pub v_dc : ℕ → Bool → Option AddressMode → List ℕ → Mnemonic → Work → Done
v_dc depth msb_order mnext str mne (s, o) = do
  s1 ← place_here s
  mode ← dc_mode mne mnext
  elim (get_or mne.name 1 0 == b'v') [
    | true ↦ v_dv depth msb_order (mode_size mode) str (s1, o)
    | false ↦ lay_down depth msb_order (mode_size mode) none str (s1, o)
  ]

-- the filler of DS
abbrev pub second_value : List Symbol → ℕ
second_value [] = 0
second_value (next ∷ rest) = next.value

abbrev pub second_unknown : List Symbol → Bool
second_unknown [] = false
second_unknown (next ∷ rest) = next.flags.unknown

-- what `genfill` leaves
abbrev pub filled_work : Source → Option (Output × Globals) → Done
filled_work s r = ok (with_source s r)

-- DS behind the evaluation; a length below 0 is reported
unfoldable pub ds_nodes : Bool → ℕ → Work → List Symbol → Done
ds_nodes msb_order size w [] = fault
ds_nodes msb_order size (s, o) (sym ∷ rest) =
    let s1 = redo_if_unknown reason_ds_not_resolved (sym.flags.unknown || second_unknown rest) s in
    if sym.flags.unknown || is_negative sym.value
    then ok (some (s1, o))
    else genfill msb_order (second_value rest) sym.value size o s1.globals >>= filled_work s1

unfoldable pub v_ds : ℕ → Bool → Option AddressMode → List ℕ → Work → Done
v_ds depth msb_order mnext str (s, o) = do
  s1 ← place_here s
  (nodes, s2) ← eval_nodes depth str s1
  ds_nodes msb_order (mode_size mnext) (s2, o) nodes
