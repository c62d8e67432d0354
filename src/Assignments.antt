-- ===== src/Assignments.antt =====
-- The directives of src/src/ops.c that define symbols and choose the segment: SET, EQU, EQM and SEG. `mnext` is Mnext.
pub mod Symbols
pub mod Segments
use dasm_dillon_code_sourcef.Common.{
  ℕ, ◌*◌, ◌/◌, ◌%◌, ◌^◌, Bool, true, false, ◌||◌, List, [], ◌∷◌, Option, none, some, length,
  if◌then◌else◌, ◌==◌, ltb, Run, ok, fault, ◌>>=◌,
}
use dasm_dillon_code_sourcef.Asm.{Symbol, no_flags, Segment, SegmentFlags, AddressMode, bss}
use dasm_dillon_code_sourcef.Util.{same_bytes}
use dasm_dillon_code_sourcef.Symbols.{
  Globals, Handle, find_symbol, create_symbol, modify_symbol, count_redo,
}
use dasm_dillon_code_sourcef.Output.{Output}
use dasm_dillon_code_sourcef.Conditional.{Source, place_here, eval_first}
use dasm_dillon_code_sourcef.Origin.{Work, Done, v_org, v_rorg}

abbrev pub reason_equ_not_resolved : ℕ
reason_equ_not_resolved = 2 ^ 9

abbrev pub reason_equ_value_mismatch : ℕ
reason_equ_value_mismatch = 2 ^ 10

-- `find_symbol`, or else `create_symbol`
abbrev pub found_or_new : List ℕ → Globals → Option (Handle × Symbol) → Handle × Globals
found_or_new label g none = create_symbol g label (length label)
found_or_new label g (some (h, lab)) = (h, g)

unfoldable pub find_or_create : List ℕ → Globals → Handle × Globals
find_or_create label g = found_or_new label g (find_symbol g label (length label))

-- what SET and EQU store: the value, SYM_UNKNOWN and SYM_STRING, and the string
abbrev pub assign : Symbol → Symbol → Symbol
assign sym lab = record lab {
  value = sym.value;
  flags = record no_flags { unknown = sym.flags.unknown; string = sym.flags.string };
  string = sym.string;
}

abbrev pub in_globals : (Globals → Globals) → Source → Source
in_globals f s = record s { globals = f s.globals }

unfoldable pub define_symbol : (Symbol → Symbol) → List ℕ → Globals → Globals
define_symbol f label g = let (h, g1) = find_or_create label g in modify_symbol h f g1

-- a line without a label fails the assertion of `find_symbol`
unfoldable pub v_set : ℕ → List ℕ → Source → Run Source
v_set depth str s = do
  (sym, s1) ← eval_first depth str s
  if length s1.label == 0 then fault else ok (in_globals (define_symbol (assign sym) s1.label) s1)

-- the check of EQU on a symbol that was known; the Boolean tells that a mismatch is reported
unfoldable pub check_equ : Symbol → Option (Handle × Symbol) → Globals → Globals × Bool
check_equ sym none g = (g, false)
check_equ sym (some (h, lab)) g =
    if lab.flags.unknown
    then (g, false)
    else if sym.flags.unknown
    then (count_redo reason_equ_not_resolved g, false)
    else if lab.value == sym.value
    then (g, false)
    else (count_redo reason_equ_value_mismatch g, true)

-- the bytes that are listed; they are not generated
unfoldable pub listed_value : ℕ → List ℕ
listed_value v =
    let low = (v / 2 ^ 8) % 256 ∷ v % 256 ∷ [] in
    if ltb 0xffff v then (v / 2 ^ 24) % 256 ∷ (v / 2 ^ 16) % 256 ∷ low else low

-- EQU on a label. A symbol that is created is unknown, so the check finds nothing to compare.
unfoldable pub equ_label : Symbol → Work → Work
equ_label sym (s, o) =
    let (g, mismatch) = check_equ sym (find_symbol s.globals s.label (length s.label)) s.globals in
    (
      record s { globals = define_symbol (assign sym) s.label g },
      record o { gen = listed_value sym.value },
    )

-- "." and "*" are the origin; "*" is turned into "."
abbrev pub is_origin : List ℕ → Bool
is_origin label = same_bytes label (b'.' ∷ []) || same_bytes label (b'*' ∷ [])

-- EQU behind its evaluation; the origin is evaluated again
unfoldable pub equ_at : ℕ → List ℕ → Output → Symbol × Source → Done
equ_at depth str o (sym, s) =
    let dot = record s { label = b'.' ∷ [] } in
    let org =
      if s.globals.segment.flags.rorg
      then v_rorg depth str (dot, o)
      else v_org depth str (dot, o) in
    if is_origin s.label
    then org
    else if length s.label == 0
    then fault
    else ok (some (equ_label sym (s, o)))

unfoldable pub v_equ : ℕ → List ℕ → Work → Done
v_equ depth str (s, o) = eval_first depth str s >>= equ_at depth str o

-- what EQM stores: the text of its operand
abbrev pub assign_text : List ℕ → Symbol → Symbol
assign_text str lab = record lab {
  value = 0;
  flags = record no_flags { string = true; set = true; macro = true };
  string = some str;
}

unfoldable pub v_eqm : List ℕ → Source → Run Source
v_eqm str s =
    if length s.label == 0
    then fault
    else ok (in_globals (define_symbol (assign_text str) s.label) s)

-- the segments: the one in force is in the globals, and the list holds the others
abbrev pub Segments : Type 0
Segments = Source × List Segment

abbrev pub new_segment : List ℕ → Bool → Segment
new_segment name is_bss =
    let unknown : SegmentFlags = record {
      unknown = true;
      ref = false;
      bss = false;
      rorg = false;
    } in
    record {
      name = name;
      flags = record unknown { bss = is_bss };
      rflags = unknown;
      org = 0;
      rorg = 0;
      initorg = 0;
      initrorg = 0;
      initflags = unknown;
      initrflags = unknown;
    }

-- the segment of a name, and the others without it
unfoldable pub take_segment : List ℕ → List Segment → Option (Segment × List Segment)
take_segment name [] = none
take_segment name (seg ∷ rest) =
    let more = take_segment name rest in
    if same_bytes name seg.name
    then some (seg, rest)
    else elim more [ none ↦ none | some r ↦ some (r.0, seg ∷ r.1) ]

abbrev pub enter_segment : Segment → List Segment → Source → Segments
enter_segment seg others s = (record s { globals = record (s.globals) { segment = seg } }, others)

abbrev pub is_bss : Option AddressMode → Bool
is_bss (some bss) = true
is_bss _ = false

-- the segment of a name, which is a new one where there is none
unfoldable pub switch_segment : Option AddressMode → List ℕ → Segments → Segments
switch_segment mnext name (s, others) =
    let here = s.globals.segment in
    let found = take_segment name others in
    if same_bytes name here.name then (s, others) else elim found [
      | none ↦ enter_segment (new_segment name (is_bss mnext)) (here ∷ others) s
      | some r ↦ enter_segment r.0 (here ∷ r.1) s
    ]

unfoldable pub v_seg : Option AddressMode → List ℕ → Segments → Run Segments
v_seg mnext str w =
    let (s, others) = switch_segment mnext str w in do s1 ← place_here s; ok (s1, others)
