-- ===== src/Tests/Coding.antt =====
-- The theorems on instructions, data, loops and tables at concrete states and texts.
use dasm_dillon_code_sourcef.Common.{
  ◌∙◌, sym, Bool-cases, some, ℕ, ◌<◌, ◌≡◌, refl, true, false, List, [], ◌∷◌, none, length, arith,
  ok, Partial, codes, ◌↔◌, inl, inr, replicate,
}
use dasm_dillon_code_sourcef.Asm.{Symbol, alloc_symbol, byteadr}
use dasm_dillon_code_sourcef.Util.{decimal, same_bytes}
use dasm_dillon_code_sourcef.Symbols.{Globals, programlabel, find_special, local_name, cut_name}
use dasm_dillon_code_sourcef.Conditional.{Source, is_active, eval_first, first_node}
use dasm_dillon_code_sourcef.Symbols.Lookup.{IsTable, empty-IsTable}
use dasm_dillon_code_sourcef.Exp.Scan.Numbers.{eval-decimal}
use dasm_dillon_code_sourcef.Origin.{eval_nodes}
use dasm_dillon_code_sourcef.Mnemonics.{
  Mnemonic, line_of, directive, vect_mnemonic, vect_branch, vect_byteop, vect_dc, addhashtable,
  find_name, MnemonicHash,
}
use dasm_dillon_code_sourcef.Mnemonics.Lookup.{find_name-addhashtable, last_named}
use dasm_dillon_code_sourcef.Mnemonics.Processors.{
  available_processors, find_processor, FoundFull, available_processors-FoundFull, Processor,
  Selection, select_found, select_found-again,
}
use dasm_dillon_code_sourcef.Instructions.{rel_displacement}
use dasm_dillon_code_sourcef.Instructions.Modes.{relative_target, rel_displacement_iff}
use dasm_dillon_code_sourcef.F8.{run_f8, lr_opcode, v_branch, emit_opcode}
use dasm_dillon_code_sourcef.F8Operands.{reg_a}
use dasm_dillon_code_sourcef.F8.Branch.{v_branch-reaches}
use dasm_dillon_code_sourcef.F8.Registers.{ReadsAs, lr_opcode-operands}
use dasm_dillon_code_sourcef.F8.Sizes.{Reserves, run_f8-Reserves}
use dasm_dillon_code_sourcef.Data.{dc_nodes, v_dc}
use dasm_dillon_code_sourcef.Assignments.{v_set}
use dasm_dillon_code_sourcef.Data.Bytes.{read_entries, dc_nodes-read_entries, v_dc-dv}
use dasm_dillon_code_sourcef.Assignments.Symbols.{IsValued, v_set-IsValued}
use dasm_dillon_code_sourcef.Includes.{Incfile, Reader, top_id, count_lines, set_stream}
use dasm_dillon_code_sourcef.Repeats.{Reploop, end_if}
use dasm_dillon_code_sourcef.Repeats.Rounds.{
  IsInLoop, StaysInLoop, rounds, read_again, repends-count,
}
use dasm_dillon_code_sourcef.Tests.{globals, output, source, top_if, fresh_machine}

-- LDA of the 6502, with immediate, zero page and absolute operands
abbrev lda : Mnemonic
lda = line_of vect_mnemonic (codes "lda") 0x4a (0xa9 ∷ 0xa5 ∷ 0xad ∷ [])

abbrev wide_node : Symbol
wide_node = record alloc_symbol { value = 0x1234; addrmode = byteadr }

rel_displacement_iff_example : ((rel_displacement 0xf010 0xf000 2).1 ≡ false) ↔ (
    (d : ℕ) × (d < 256)
    × (relative_target 0xf000 2 d ≡ 0xf010)
    × ((rel_displacement 0xf010 0xf000 2).0 ≡ d))
rel_displacement_iff_example =
    rel_displacement_iff 0xf010 0xf000 2 (omega arith) (omega arith) (omega arith)

abbrev br : Mnemonic
br = line_of vect_branch (codes "br") 1 (0x90 ∷ [])

-- the state in active lines
abbrev active_source : Source
active_source = record source { ifstack = top_if ∷ []; globals = record globals { plab = 0xf000 } }

active_source-IsTable : IsTable (active_source.globals)
active_source-IsTable = empty-IsTable (active_source.globals) refl

abbrev address_node : Symbol
address_node = record alloc_symbol { value = 61450; addrmode = byteadr }

abbrev read_source : Source
read_source = record active_source { machine = record fresh_machine { lastwasop = false } }

reads_address : eval_nodes 1 (decimal 61450) active_source ≡ ok (address_node ∷ [], read_source)
unfolding eval_nodes
reads_address =
    rw
      (eval-decimal 0 61450 false fresh_machine (active_source.globals) (omega arith) (omega arith)
        (omega arith))
      refl

v_branch-reaches_example :
    v_branch 1 (decimal 61450) br (active_source, output)
    ≡ emit_opcode (0x90 ∷ 9 ∷ []) (read_source, output)
unfolding programlabel
v_branch-reaches_example =
    v_branch-reaches 1 (decimal 61450) br active_source active_source read_source output
      address_node 9 refl reads_address refl refl refl (omega arith) (omega arith) (omega arith)
      refl

-- the label of a line
abbrev labelled_source : Source
labelled_source = record active_source { label = codes "here" }

reads_first :
    eval_first 1 (decimal 61450) labelled_source
    ≡ ok (address_node, record read_source { label = codes "here" })
unfolding eval_first first_node
reads_first =
    rw
      (eval-decimal 0 61450 false fresh_machine (active_source.globals) (omega arith) (omega arith)
        (omega arith))
      refl

v_set-IsValued_example :
    (g : Globals) × (v_set 1 (decimal 61450) labelled_source
      ≡ ok (record read_source { label = codes "here"; globals = g }))
    × IsValued address_node
        (local_name (active_source.globals) (cut_name (codes "here") 4))
        (active_source.globals)
        g
unfolding find_special cut_name same_bytes
v_set-IsValued_example =
    v_set-IsValued 1 (decimal 61450) labelled_source (record read_source { label = codes "here" })
      address_node reads_first active_source-IsTable refl refl

lr_opcode-operands_example : Partial (ReadsAs reg_a 4) (lr_opcode reg_a 4)
lr_opcode-operands_example = lr_opcode-operands reg_a 4

run_f8-Reserves_example :
    Partial
      (Reserves 2 false output)
      (run_f8 vect_byteop 0 5 (codes "5") br (active_source, output))
run_f8-Reserves_example = run_f8-Reserves vect_byteop 0 5 (codes "5") br active_source output

abbrev low_node : Symbol
low_node = record alloc_symbol { value = 5 }

dc_nodes-read_entries_example :
    (bytes : List ℕ) × (s' : Source) × (dc_nodes 5 true 2 none 0
        (wide_node ∷ low_node ∷ [])
        active_source
      ≡ ok (bytes, s'))
    × (length bytes ≡ 4)
    × (read_entries true 2 2 bytes ≡ 0x1234 ∷ 5 ∷ [])
dc_nodes-read_entries_example =
    dc_nodes-read_entries 5 true 2 0 (wide_node ∷ low_node ∷ []) active_source (inr (inl refl))
      (refl, (refl, tt)) (omega arith)

v_dc-dv_example :
    Partial
      (λ r. ⊥)
      (v_dc 5 false none (codes "x 1") (directive vect_dc (codes "dv")) (active_source, output))
v_dc-dv_example =
    v_dc-dv 5 false none (codes "x 1") [] (directive vect_dc (codes "dv")) (active_source, output)
      refl

abbrev loop : Reploop
loop = record { count = 3; seek = codes " nop" ∷ []; lineno = 4; file = 1; unresolved = false }

abbrev file : Incfile
file = record {
  id = 1;
  name = codes "a.asm";
  lines = [];
  lineno = 6;
  is_macro = false;
  nolist = false;
  args = [];
  strlist = [];
  saveidx = 0;
  savedolidx = 0;
}

abbrev loop_reader : Reader
loop_reader = record {
  includes = file ∷ [];
  mlevel = 0;
  inclevel = 1;
  table = replicate 1024 [];
  next_id = 2;
  source = active_source;
}

loop_reader-IsInLoop : IsInLoop loop_reader loop
unfolding is_active
loop_reader-IsInLoop = record { active = refl; here = refl; known = refl }

-- the line of the loop is read
abbrev read_line : Reader → Reader
read_line r = record r { includes = count_lines 1 (set_stream [] r.includes) }

kept_on_top : (l : List Incfile) → top_id (count_lines 1 (set_stream [] l)) ≡ top_id l
unfolding set_stream
kept_on_top [] = refl
kept_on_top (inc ∷ rest) = elim (Bool-cases inc.is_macro) [ inl e ↦ rw e refl | inr e ↦ rw e refl ]

read_line-stays : StaysInLoop read_line loop
read_line-stays r h = record {
  active = h.active;
  here = h.here ∙ sym (kept_on_top r.includes);
  known = h.known;
}

repends-count_example :
    rounds read_line 3 (loop_reader, loop ∷ [])
    ≡ end_if (read_again read_line loop 2 loop_reader) []
repends-count_example =
    repends-count 2 read_line loop_reader loop [] read_line-stays loop_reader-IsInLoop refl

abbrev no_commands : MnemonicHash
no_commands = replicate 1024 []

find_name-addhashtable_example :
    find_name (addhashtable (lda ∷ br ∷ []) no_commands) (codes "br")
    ≡ last_named (codes "br") (lda ∷ br ∷ []) (find_name no_commands (codes "br"))
find_name-addhashtable_example =
    find_name-addhashtable (lda ∷ br ∷ []) no_commands (codes "br") refl

available_processors-FoundFull_example :
    FoundFull (find_processor (codes "6502") available_processors)
available_processors-FoundFull_example = available_processors-FoundFull (codes "6502")

-- before the first PROCESSOR
abbrev selection : Selection
selection = record { forced = false; table = no_commands; selected = none; called_already = false }

abbrev small_processor : Processor
small_processor = record { name = codes "F8"; msb_order = true; mnemonic_tables = (br ∷ []) ∷ [] }

select_found-again_example :
    select_found (select_found selection (some small_processor)).0 (some small_processor)
    ≡ select_found selection (some small_processor)
unfolding select_found
select_found-again_example = select_found-again selection (some small_processor) refl
