-- ===== src/Session.antt =====
-- A pass of src/src/main.c over the lines of the source: the loop of `MainShadow` that reads a line, takes it apart and
-- calls the handler of its mnemonic. The handlers that only list, print, search directories or choose the
-- processor, and those that read other files, are a parameter, `other`. Nothing stands for the end of the
-- program by `exit`.
use dasm_dillon_code_sourcef.Common.{
  ℕ, zero, suc, ◌+◌, Bool, true, false, ◌||◌, List, [], ◌∷◌, Option, none, some, length,
  if◌then◌else◌, ◌==◌, Run, ok, out_of_fuel, ◌>>=◌,
}
use dasm_dillon_code_sourcef.Asm.{Segment, AddressMode}
use dasm_dillon_code_sourcef.Output.{Output}
use dasm_dillon_code_sourcef.Conditional.{
  Source, is_active, place_here, v_if, v_ifconst, v_ifnconst, v_else, v_endif,
}
use dasm_dillon_code_sourcef.Origin.{
  Work, Done, v_org, v_rorg, v_rend, v_subroutine, v_align, v_hex,
}
use dasm_dillon_code_sourcef.Data.{v_dc, v_ds}
use dasm_dillon_code_sourcef.Assignments.{Segments, v_equ, v_set, v_eqm, v_seg}
use dasm_dillon_code_sourcef.Instructions.{v_mnemonic}
use dasm_dillon_code_sourcef.F8.{run_f8}
use dasm_dillon_code_sourcef.Mnemonics.{
  Vect, Mnemonic, Command, instruction, defined, findmne, vect_if, vect_ifconst, vect_ifnconst,
  vect_else, vect_set, vect_eqm, vect_endif, vect_org, vect_rorg, vect_rend, vect_subroutine,
  vect_align, vect_hex, vect_equ, vect_dc, vect_ds, vect_mnemonic, vect_byteop, vect_wordop,
  vect_branch, vect_bf_bt, vect_sreg_op, vect_ins_outs, vect_lis, vect_lisu_lisl, vect_sl_sr,
  vect_lr, vect_end, vect_endm, vect_mexit, vect_macro, vect_repeat, vect_repend, vect_seg,
}
use dasm_dillon_code_sourcef.Lines.{Cleaned, Parsed, cleanup, parse}
use dasm_dillon_code_sourcef.Includes.{
  Incfile, Reader, v_execmac, v_endm, v_mexit, v_end, v_macro, pop_include,
}
use dasm_dillon_code_sourcef.Repeats.{Reploop, Loops, v_repeat, v_repend}

-- what a pass works on
pub record Session : Type 0 where
  pub reader : Reader
  pub loops : List Reploop
  pub output : Output
  pub others : List Segment

-- the depth of `eval`, the rounds of `cleanup`, the order of bytes, and what Gen holds of earlier lines
pub record Machinery : Type 0 where
  pub depth : ℕ
  pub fuel : ℕ
  pub msb_order : Bool
  pub stale : ℕ → ℕ

abbrev pub Step : Type 0
Step = Run (Option Session)

abbrev pub with_reader : Reader → Session → Session
with_reader r s = record s { reader = r }

abbrev pub with_source_of : Source → Session → Session
with_source_of src s = record s { reader = record (s.reader) { source = src } }

-- the handlers on the parts of the state that they work on
abbrev pub on_source : (Source → Run Source) → Session → Step
on_source f s = do src ← f s.reader.source; ok (some (with_source_of src s))

abbrev pub after_work : Session → Option Work → Option Session
after_work s none = none
after_work s (some (src, o)) = some (record (with_source_of src s) { output = o })

abbrev pub on_work : (Work → Done) → Session → Step
on_work f s = do w ← f (s.reader.source, s.output); ok (after_work s w)

abbrev pub on_reader : (Reader → Run Reader) → Session → Step
on_reader f s = do r ← f s.reader; ok (some (with_reader r s))

abbrev pub after_macro : Session → Option Reader → Option Session
after_macro s none = none
after_macro s (some r) = some (with_reader r s)

abbrev pub on_macro : (Reader → Run (Option Reader)) → Session → Step
on_macro f s = do r ← f s.reader; ok (after_macro s r)

abbrev pub on_loops : (Loops → Run Loops) → Session → Step
on_loops f s = do
  (r, loops) ← f (s.reader, s.loops)
  ok (some (record (with_reader r s) { loops = loops }))

abbrev pub on_segments : (Segments → Run Segments) → Session → Step
on_segments f s = do
  (src, others) ← f (s.reader.source, s.others)
  ok (some (record (with_source_of src s) { others = others }))

-- ENDIF, with its message left out
abbrev pub end_condition : Source → Run Source
end_condition src = do (src1, told) ← v_endif src; ok src1

abbrev pub Handler : Type 0
Handler = Vect → Option AddressMode → List ℕ → Mnemonic → Session → Step

-- `(*mne->vect)(Av[2], mne)`
unfoldable pub dispatch : Machinery → Handler → Handler
dispatch p other vect_if mnext str mne s = on_source (v_if p.depth str) s
dispatch p other vect_ifconst mnext str mne s = on_source (v_ifconst p.depth str) s
dispatch p other vect_ifnconst mnext str mne s = on_source (v_ifnconst p.depth str) s
dispatch p other vect_else mnext str mne s = on_source (v_else) s
dispatch p other vect_set mnext str mne s = on_source (v_set p.depth str) s
dispatch p other vect_eqm mnext str mne s = on_source (v_eqm str) s
dispatch p other vect_endif mnext str mne s = on_source end_condition s
dispatch p other vect_org mnext str mne s = on_work (v_org p.depth str) s
dispatch p other vect_rorg mnext str mne s = on_work (v_rorg p.depth str) s
dispatch p other vect_rend mnext str mne s = on_work (v_rend) s
dispatch p other vect_subroutine mnext str mne s = on_work (v_subroutine) s
dispatch p other vect_align mnext str mne s = on_work (v_align p.depth p.msb_order str) s
dispatch p other vect_hex mnext str mne s = on_work (v_hex str) s
dispatch p other vect_equ mnext str mne s = on_work (v_equ p.depth str) s
dispatch p other vect_dc mnext str mne s = on_work (v_dc p.depth p.msb_order mnext str mne) s
dispatch p other vect_ds mnext str mne s = on_work (v_ds p.depth p.msb_order mnext str) s
dispatch p other vect_mnemonic mnext str mne s =
    on_work (v_mnemonic p.stale p.depth p.msb_order mnext str mne) s
dispatch p other vect_byteop mnext str mne s =
    on_work (run_f8 vect_byteop (p.stale 0) p.depth str mne) s
dispatch p other vect_wordop mnext str mne s =
    on_work (run_f8 vect_wordop (p.stale 0) p.depth str mne) s
dispatch p other vect_branch mnext str mne s =
    on_work (run_f8 vect_branch (p.stale 0) p.depth str mne) s
dispatch p other vect_bf_bt mnext str mne s =
    on_work (run_f8 vect_bf_bt (p.stale 0) p.depth str mne) s
dispatch p other vect_sreg_op mnext str mne s =
    on_work (run_f8 vect_sreg_op (p.stale 0) p.depth str mne) s
dispatch p other vect_ins_outs mnext str mne s =
    on_work (run_f8 vect_ins_outs (p.stale 0) p.depth str mne) s
dispatch p other vect_lis mnext str mne s = on_work (run_f8 vect_lis (p.stale 0) p.depth str mne) s
dispatch p other vect_lisu_lisl mnext str mne s =
    on_work (run_f8 vect_lisu_lisl (p.stale 0) p.depth str mne) s
dispatch p other vect_sl_sr mnext str mne s =
    on_work (run_f8 vect_sl_sr (p.stale 0) p.depth str mne) s
dispatch p other vect_lr mnext str mne s = on_work (run_f8 vect_lr (p.stale 0) p.depth str mne) s
dispatch p other vect_end mnext str mne s = on_reader v_end s
dispatch p other vect_endm mnext str mne s = on_reader v_endm s
dispatch p other vect_mexit mnext str mne s = on_reader v_mexit s
dispatch p other vect_macro mnext str mne s = on_macro (v_macro p.fuel str) s
dispatch p other vect_repeat mnext str mne s = on_loops (v_repeat p.depth str) s
dispatch p other vect_repend mnext str mne s = on_loops (v_repend) s
dispatch p other vect_seg mnext str mne s = on_segments (v_seg mnext str) s
dispatch p other vect mnext str mne s = other vect mnext str mne s

-- a mnemonic runs in assembled lines, or with MF_IF; a macro has no MF_IF
unfoldable pub run_command : Machinery → Handler → Parsed → Bool → Option Command → Session → Step
run_command p other words active none s = ok (some s)
run_command p other words active (some (instruction mne)) s =
    let run = dispatch p other mne.vect words.mnext words.operand mne s in
    if mne.is_if || active then run else ok (some s)
run_command p other words active (some (defined mac)) s =
    let run = on_reader (v_execmac words.operand mac) s in if active then run else ok (some s)

-- a line in its parts: a mnemonic, or the label alone
unfoldable pub run_words : Machinery → Handler → Parsed → Session → Step
run_words p other words s =
    let active = is_active s.reader.source.ifstack in
    let labelled = on_source place_here s in
    let command = findmne s.reader.table words.word >>= λ c. run_command p other words active c s in
    if length words.word == 0 then (if active then labelled else ok (some s)) else command

-- Av[0]
abbrev pub set_label : List ℕ → Session → Session
set_label label s = with_source_of (record (s.reader.source) { label = label }) s

unfoldable pub run_cleaned : Machinery → Handler → Session → Option Cleaned → Step
run_cleaned p other s none = ok none
run_cleaned p other s (some (line, note)) = do
  words ← parse line
  run_words p other words (set_label words.label s)

-- a line of the innermost file or macro, whose head is taken off
unfoldable pub run_line : Machinery → Handler → List ℕ → Incfile → List Incfile → Session → Step
run_line p other buf inc rest s = do
  cleaned ← cleanup p.fuel false inc.args buf
  let counted = record inc { lineno = inc.lineno + 1 } ∷ rest
  run_cleaned p other (with_reader (record (s.reader) { includes = counted }) s) cleaned

-- the loops of a file that ends
unfoldable pub drop_loops : ℕ → List Reploop → List Reploop
drop_loops id [] = []
drop_loops id (loop ∷ loops) =
    let rest = drop_loops id loops in if loop.file == id then rest else loop ∷ loops

-- the end of a file
unfoldable pub end_file : ℕ → Session → Step
end_file id s = on_reader pop_include (record s { loops = drop_loops id s.loops })

-- the next line of a macro, or its end
unfoldable pub macro_line :
    Machinery → Handler → Incfile → List Incfile → List (List ℕ) → Session → Step
macro_line p other inc rest [] s = on_reader v_mexit (set_label [] s)
macro_line p other inc rest (buf ∷ lines) s =
    run_line p other buf (record inc { strlist = lines }) rest s

-- the next line of a file, or its end
unfoldable pub file_line :
    Machinery → Handler → Incfile → List Incfile → List (List ℕ) → Session → Step
file_line p other inc rest [] s = end_file inc.id s
file_line p other inc rest (buf ∷ lines) s =
    run_line p other buf (record inc { lines = lines }) rest s

unfoldable pub next_line : Machinery → Handler → Incfile → List Incfile → Session → Step
next_line p other inc rest s = elim inc.is_macro [
  | true ↦ macro_line p other inc rest inc.strlist s
  | false ↦ file_line p other inc rest inc.lines s
]

-- the lines up to the end of the outermost file, in `rounds` rounds at most
unfoldable pub run_lines : ℕ → Machinery → Handler → Session → Step
run_lines zero p other s = out_of_fuel
run_lines (suc k) p other s = elim s.reader.includes [
  | [] ↦ ok (some s)
  | inc ∷ rest ↦ next_line p other inc rest s >>= λ r. elim r [
    | none ↦ ok none
    | some s1 ↦ run_lines k p other s1
  ]
]
