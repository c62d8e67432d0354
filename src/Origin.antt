-- ===== src/Origin.antt =====
-- Directives of src/src/ops.c that move the origin or write bytes: ORG, RORG, REND, ALIGN, SUBROUTINE and
-- HEX. The fuel `depth` is that of `eval`; nothing stands for the end of the program by `exit`
-- in `generate`.
use dasm_dillon_code_sourcef.Common.{
  ℕ, ◌+◌, ◌-◌, ◌*◌, ◌%◌, ◌^◌, Bool, true, false, ◌&&◌, ◌||◌, List, [], ◌∷◌, Option, none, some,
  if◌then◌else◌, ◌==◌, ltb, leb, Run, ok, fault, ◌>>=◌,
}
use dasm_dillon_code_sourcef.Asm.{Symbol, Flags, Segment, SegmentFlags, is_imp}
use dasm_dillon_code_sourcef.Long.{is_negative}
use dasm_dillon_code_sourcef.Util.{toupper}
use dasm_dillon_code_sourcef.Symbols.{Globals, count_redo}
use dasm_dillon_code_sourcef.Exp.Scan.Eval.{eval}
use dasm_dillon_code_sourcef.Output.{Output, generate, genfill}
use dasm_dillon_code_sourcef.Conditional.{Source, place_here}

-- the state of a directive, with the object file
abbrev pub Work : Type 0
Work = Source × Output

abbrev pub Done : Type 0
Done = Run (Option Work)

-- the bits of a symbol in a segment's flags; SYM_SET and SYM_MACRO are the bits SF_BSS and SF_RORG,
-- SYM_STRING and SYM_MASREF have no meaning there
abbrev pub as_segment_flags : Flags → SegmentFlags
as_segment_flags f = record { unknown = f.unknown; ref = f.ref; bss = f.set; rorg = f.macro }

abbrev pub in_segment : (Segment → Segment) → Source → Source
in_segment f s = record s { globals = record (s.globals) { segment = f s.globals.segment } }

-- `programlabel();` at the end
abbrev pub labelled : Work → Done
labelled w = do s ← place_here w.0; ok (some (s, w.1))

-- what ORG stores in the segment
unfoldable pub set_origin : Symbol → Segment → Segment
set_origin sym seg =
    let seg1 = record seg {
      org = sym.value;
      flags = record (seg.flags) { unknown = sym.flags.unknown };
    } in
    if seg.initflags.unknown
    then record seg1 { initorg = sym.value; initflags = as_segment_flags sym.flags }
    else seg1

-- the second argument of ORG; an unknown one is reported by `fatal_fmt`, which lets the pass go on
unfoldable pub set_fill : List Symbol → Work → Done
set_fill [] w = labelled w
set_fill (next ∷ rest) (s, o) = labelled (s, record o { org_fill = next.value % 256 })

unfoldable pub store_origin : Work → List Symbol → Done
store_origin w [] = fault
store_origin (s, o) (sym ∷ rest) = set_fill rest (in_segment (set_origin sym) s, o)

-- the nodes of an expression, and the state behind its evaluation
unfoldable pub eval_nodes : ℕ → List ℕ → Source → Run (List Symbol × Source)
eval_nodes depth str s = do
  (nodes, m, g) ← eval depth str false s.machine s.globals
  ok (nodes, record s { machine = m; globals = g })

unfoldable pub v_org : ℕ → List ℕ → Work → Done
v_org depth str (s, o) = do (nodes, s1) ← eval_nodes depth str s; store_origin (s1, o) nodes

-- what RORG stores in the segment
unfoldable pub set_relocated : Symbol → Segment → Segment
set_relocated sym seg =
    let seg1 = record seg { flags = record (seg.flags) { rorg = true } } in
    let seg2 = record seg1 {
      rorg = sym.value;
      rflags = record (seg.rflags) { unknown = sym.flags.unknown };
    } in
    if is_imp sym.addrmode
    then seg1
    else if seg.initrflags.unknown
    then record seg2 { initrorg = sym.value; initrflags = as_segment_flags sym.flags }
    else seg2

unfoldable pub store_relocated : Work → List Symbol → Done
store_relocated w [] = fault
store_relocated (s, o) (sym ∷ rest) = labelled (in_segment (set_relocated sym) s, o)

unfoldable pub v_rorg : ℕ → List ℕ → Work → Done
v_rorg depth str (s, o) = do (nodes, s1) ← eval_nodes depth str s; store_relocated (s1, o) nodes

unfoldable pub v_rend : Work → Done
v_rend (s, o) = do
  s1 ← place_here s
  ok (some (in_segment (λ seg. record seg { flags = record (seg.flags) { rorg = false } }) s1, o))

unfoldable pub v_subroutine : Work → Done
v_subroutine (s, o) =
    let index = s.globals.lastlocalindex + 1 in
    labelled
      (record s { globals = record (s.globals) { lastlocalindex = index; localindex = index } }, o)

abbrev pub reason_align_not_resolved : ℕ
reason_align_not_resolved = 2 ^ 6

abbrev pub reason_align_relocatable : ℕ
reason_align_relocatable = 2 ^ 7

abbrev pub reason_align_normal : ℕ
reason_align_normal = 2 ^ 8

-- the origin of ALIGN is referenced
unfoldable pub refer_origin : Segment → Segment
refer_origin seg =
    if seg.flags.rorg
    then record seg { rflags = record (seg.rflags) { ref = true } }
    else record seg { flags = record (seg.flags) { ref = true } }

-- the second argument of ALIGN: the byte to fill with, and the globals
unfoldable pub align_fill : List Symbol → Globals → ℕ × Globals
align_fill [] g = (0, g)
align_fill (next ∷ rest) g =
    if next.flags.unknown
    then (0, count_redo reason_align_not_resolved g)
    else (next.value % 256, g)

-- the label behind the filling
unfoldable pub label_filled : Source → Option (Output × Globals) → Done
label_filled s none = ok none
label_filled s (some (o, g)) = labelled (record s { globals = g }, o)

-- The bytes up to the next multiple. A division by 0 is a fault, and so is the assertion of `genfill`.
unfoldable pub fill_to : Bool → ℕ → ℕ → ℕ → Work → Done
fill_to msb_order fill value org (s, o) =
    if value == 0
    then fault
    else if value - org % value == value
    then labelled (s, o)
    else if is_negative (value - org % value)
    then fault
    else genfill msb_order fill (value - org % value) 1 o s.globals >>= label_filled s

-- ALIGN behind the evaluation; `unknown` and `org` are those of the origin that is in force
unfoldable pub align_at : Bool → ℕ → Symbol → Bool → ℕ → ℕ → Work → Done
align_at msb_order fill sym unknown org reason (s, o) =
    if unknown || sym.flags.unknown
    then labelled (record s { globals = count_redo reason s.globals }, o)
    else fill_to msb_order fill sym.value org (s, o)

unfoldable pub align_nodes : Bool → Work → List Symbol → Done
align_nodes msb_order w [] = fault
align_nodes msb_order (s, o) (sym ∷ rest) =
    let s1 = in_segment refer_origin s in
    let (fill, g) = align_fill rest s1.globals in
    let s2 = record s1 { globals = g } in
    if g.segment.flags.rorg
    then align_at msb_order fill sym g.segment.rflags.unknown g.segment.rorg
        reason_align_relocatable (s2, o)
    else align_at msb_order fill sym g.segment.flags.unknown g.segment.org reason_align_normal
        (s2, o)

unfoldable pub v_align : ℕ → Bool → List ℕ → Work → Done
v_align depth msb_order str (s, o) = do
  (nodes, s1) ← eval_nodes depth str s
  align_nodes msb_order (s1, o) nodes

-- a byte that is no digit is reported, and counts as 0
unfoldable pub get_hex_digit : ℕ → ℕ
get_hex_digit c =
    let u = toupper c in
    if leb b'0' u && leb u b'9'
    then u - b'0'
    else if leb b'A' u && leb u b'F'
    then u - b'A' + 10
    else 0

-- the loop of HEX, with `glen` bytes in Gen, which has room for 256
unfoldable pub hex_bytes : ℕ → List ℕ → Run (List ℕ)
hex_bytes glen [] = ok []
hex_bytes glen (c ∷ []) = ok []
hex_bytes glen (c ∷ d ∷ str) = elim (c == b' ') [
  | true ↦ hex_bytes glen (d ∷ str)
  | false ↦ elim (ltb glen 256) [
    | true ↦
        hex_bytes (glen + 1) str
        >>= (λ bytes. ok ((get_hex_digit c * 16 + get_hex_digit d) ∷ bytes))
    | false ↦ fault
  ]
]

abbrev pub with_source : Source → Option (Output × Globals) → Option Work
with_source s none = none
with_source s (some (o, g)) = some (record s { globals = g }, o)

unfoldable pub v_hex : List ℕ → Work → Done
v_hex str (s, o) = do
  s1 ← place_here s
  bytes ← hex_bytes 0 str
  ok (with_source s1 (generate (record o { gen = bytes }) s1.globals))
