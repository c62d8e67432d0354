-- ===== src/Tests.antt =====
-- The theorems at concrete states and texts of the program; the children have those on whole programs and on
-- instructions.
pub mod Programs
pub mod Coding
use dasm_dillon_code_sourcef.Common.{
  not, Ended, inr, fault, ℕ, ◌-◌, ◌≡◌, refl, true, false, List, [], ◌∷◌, ◌++◌, some, replicate,
  take, drop, arith, ok, ◌>>=◌, Partial, codes, inl, if◌then◌else◌,
}
use dasm_dillon_code_sourcef.Common.Int.{ltb_ℤ}
use dasm_dillon_code_sourcef.Asm.{byteadr, no_flags, Symbol, alloc_symbol, SegmentFlags, Segment}
use dasm_dillon_code_sourcef.Long.{long_mod}
use dasm_dillon_code_sourcef.Exp.Operators.{mult, add_, sub_}
use dasm_dillon_code_sourcef.Exp.Machine.{Machine, ending, run_steps}
use dasm_dillon_code_sourcef.Exp.Machine.Sound.{IsSound, run_steps-IsSound}
use dasm_dillon_code_sourcef.Exp.Machine.Blind.{seen}
use dasm_dillon_code_sourcef.Exp.Precedence.{
  Expr, literal, binary, group, steps, ops_depth, args_depth, evaluate, level, priority,
}
use dasm_dillon_code_sourcef.Exp.Precedence.Value.{expression_value, finished}
use dasm_dillon_code_sourcef.Symbols.{
  Globals, entry, find_entry, find_special, insert_symbol, new_symbol, check_label, place_label,
  cut_name,
}
use dasm_dillon_code_sourcef.Symbols.Lookup.{
  IsTable, empty-IsTable, find_entry-empty, find_entry-insert_symbol, insert_symbol-IsTable,
}
use dasm_dillon_code_sourcef.Symbols.Labels.{
  IsPlaced, WantsPass, label_key, check_label-redo, place_label-IsPlaced,
}
use dasm_dillon_code_sourcef.Util.{strlcat, same_bytes, decimal}
use dasm_dillon_code_sourcef.Util.Strings.{strlcat_lem}
use dasm_dillon_code_sourcef.Long.Signed.{signed}
use dasm_dillon_code_sourcef.Exp.Operators.Compare.{Pushes, apply_operator-ltb_ℤ}
use dasm_dillon_code_sourcef.Exp.Operators.{smaller, greater, smallereq, greatereq}
use dasm_dillon_code_sourcef.Exp.Scan.{Nested}
use dasm_dillon_code_sourcef.Exp.Scan.Eval.{eval}
use dasm_dillon_code_sourcef.Exp.Scan.Numbers.{eval-decimal}
use dasm_dillon_code_sourcef.Ftohex.{convert, returned}
use dasm_dillon_code_sourcef.Ftohex.Load.{load, place}
use dasm_dillon_code_sourcef.Ftohex.RoundTrip.{convert-load}
use dasm_dillon_code_sourcef.Ftohex.Blocks.{IsExit, convert_two-IsExit}
use dasm_dillon_code_sourcef.Output.{Output, generate, genfill}
use dasm_dillon_code_sourcef.Output.Fill.{Advances, genfill-Advances}
use dasm_dillon_code_sourcef.Output.Places.{IsRawAt, generate-IsRawAt}
use dasm_dillon_code_sourcef.Conditional.{
  If, Source, is_active, v_if, v_ifconst, v_ifnconst, v_else, v_endif,
}
use dasm_dillon_code_sourcef.Conditional.Nesting.{
  Block, nothing, branch, choice, run_block, run_block_inactive,
}
use dasm_dillon_code_sourcef.Conditional.Levels.{
  NestedSource, NestedState, directives-IsNested, is_active-all_active, all_active,
}
use mathlib.Core.Option

abbrev pub fresh_machine : Machine
fresh_machine = record {
  args = [];
  ops = [];
  argibase = 0;
  opibase = 0;
  lastwasop = true;
  log = [];
}

fresh_machine-IsSound : IsSound 0 0 fresh_machine
fresh_machine-IsSound = record {
  argibase = refl;
  opibase = refl;
  args_above = omega arith;
  args_below = omega arith;
  ops_above = omega arith;
}

-- (1 + 2) * 3 - 4 * 5
abbrev formula : Expr
formula =
    binary sub_
      (binary mult (group (binary add_ (literal 1 no_flags) (literal 2 no_flags)))
        (literal 3 no_flags))
      (binary mult (literal 4 no_flags) (literal 5 no_flags))

expression_value_example :
    (run_steps (steps formula ++ ending ∷ []) fresh_machine >>= seen)
    ≡ finished fresh_machine (evaluate formula [])
unfolding ops_depth args_depth level priority
expression_value_example =
    expression_value formula 0 0 fresh_machine
      (
        omega arith,
        omega arith,
        (omega arith, omega arith, (omega arith, omega arith, tt, tt), tt),
        (omega arith, omega arith, tt, tt),
      )
      fresh_machine-IsSound refl (omega arith) (omega arith)

run_steps-IsSound_example : Partial (IsSound 0 0) (run_steps (steps formula) fresh_machine)
run_steps-IsSound_example =
    run_steps-IsSound (steps formula) 0 0 fresh_machine fresh_machine-IsSound

abbrev pub no_segment_flags : SegmentFlags
no_segment_flags = record { unknown = false; ref = false; bss = false; rorg = false }

abbrev pub code_segment : Segment
code_segment = record {
  name = codes "CODE";
  flags = no_segment_flags;
  rflags = no_segment_flags;
  org = 0xf000;
  rorg = 0;
  initorg = 0xf000;
  initrorg = 0;
  initflags = no_segment_flags;
  initrflags = no_segment_flags;
}

abbrev pub globals : Globals
globals = record {
  shash = replicate 1024 [];
  special_dv = alloc_symbol;
  segment = code_segment;
  checksum = 0;
  localindex = 0;
  lastlocalindex = 0;
  localdollarindex = 0;
  lastlocaldollarindex = 0;
  redo = 0;
  redo_why = 0;
  redo_eval = 0;
  redo_if = 0;
  verbose = 0;
  plab = 0;
  pflags = no_segment_flags;
}

pub globals-IsTable : IsTable globals
globals-IsTable = empty-IsTable globals refl

place_label-IsPlaced_example :
    IsPlaced (label_key globals (codes "loop")) globals (place_label globals (codes "loop")).0
unfolding find_special cut_name same_bytes
place_label-IsPlaced_example = place_label-IsPlaced globals (codes "loop") globals-IsTable refl

find_entry-insert_symbol_example :
    find_entry (insert_symbol globals (codes "loop")) (codes "loop") ≡ (
      if same_bytes (codes "loop") (codes "loop")
      then some (entry (codes "loop"), new_symbol (codes "loop"))
      else find_entry globals (codes "loop"))
find_entry-insert_symbol_example =
    find_entry-insert_symbol globals (codes "loop") (codes "loop") globals-IsTable

insert_symbol-IsTable_again : IsTable (insert_symbol globals (codes "loop"))
insert_symbol-IsTable_again =
    insert_symbol-IsTable globals (codes "loop") (find_entry-empty globals (codes "loop") refl)
      globals-IsTable

-- a table with a symbol
abbrev filled_globals : Globals
filled_globals = insert_symbol globals (codes "loop")

abbrev at_five : Symbol → Symbol
at_five sym = record sym { value = 5 }

-- a symbol that was used before its value was known
abbrev used_early : Symbol
used_early = record alloc_symbol {
  name = codes "loop";
  flags = record no_flags { unknown = true; ref = true };
}

check_label-redo_example :
    (WantsPass used_early globals → (check_label used_early globals).0.redo ≡ 1)
    × ((WantsPass used_early globals → ⊥) → (check_label used_early globals).0 ≡ globals)
    × ((check_label used_early globals).0.shash ≡ globals.shash)
check_label-redo_example = check_label-redo used_early globals

apply_operator-ltb_ℤ_example :
    Pushes smaller (long_mod - 1) 1 no_flags no_flags (ltb_ℤ (signed (long_mod - 1)) (signed 1))
    × Pushes greater (long_mod - 1) 1 no_flags no_flags (ltb_ℤ (signed 1) (signed (long_mod - 1)))
    × Pushes smallereq
        (long_mod - 1)
        1
        no_flags
        no_flags
        (not (ltb_ℤ (signed 1) (signed (long_mod - 1))))
    × Pushes greatereq
        (long_mod - 1)
        1
        no_flags
        no_flags
        (not (ltb_ℤ (signed (long_mod - 1)) (signed 1)))
apply_operator-ltb_ℤ_example =
    apply_operator-ltb_ℤ (long_mod - 1) 1 no_flags no_flags (omega arith) (omega arith)

strlcat_lem_example : strlcat (codes "ab") (codes "cdef") 5 ≡ (codes "abcd", 6)
strlcat_lem_example = strlcat_lem (codes "ab") (codes "cdef") 5 (omega arith)

convert-load_example :
    (out : List ℕ) × (convert 1 (0x00 ∷ 0xf0 ∷ 0xa9 ∷ 0x01 ∷ []) ≡ ok (returned out))
    × (load 3 out ≡ some (place 0xf000 (0xa9 ∷ 0x01 ∷ [])))
convert-load_example =
    convert-load 0x00 0xf0 (0xa9 ∷ 0x01 ∷ []) (omega arith) (omega arith)
      (omega arith, (omega arith, tt)) (omega arith)

convert_two-IsExit_example : Ended IsExit (convert 2 (0x00 ∷ 0xf0 ∷ 0x01 ∷ 0x00 ∷ 0xea ∷ []))
convert_two-IsExit_example = convert_two-IsExit (0x00 ∷ 0xf0 ∷ 0x01 ∷ 0x00 ∷ 0xea ∷ [])

-- an open file of FORMAT_RAW, four bytes in front of the segment's origin
abbrev pub output : Output
output = record {
  format = 3;
  fisclear = false;
  file = 1 ∷ 2 ∷ [];
  gen = 0xa9 ∷ 0x05 ∷ [];
  org = 0xeffc;
  seglen = 0;
  seekback = 0;
  org_fill = 0xff;
}

output-IsRawAt : IsRawAt 0xeffa 0 output
output-IsRawAt = record { format = inl refl; shut = refl; header_there = omega arith; place = refl }

generate-IsRawAt_example :
    (o' : Output) × (g' : Globals) × (generate output globals ≡ some (o', g'))
    × IsRawAt 0xeffa 0 o'
    × (o'.org ≡ g'.segment.org)
    × (g'.segment.org ≡ 0xf002)
    × (take 2 o'.file ≡ 1 ∷ 2 ∷ [])
    × (drop 6 o'.file ≡ 0xa9 ∷ 0x05 ∷ [])
generate-IsRawAt_example =
    generate-IsRawAt 0xeffa 0 output globals output-IsRawAt refl refl (omega arith) (omega arith)

-- the scanner in front of a text, with a call on macros that faults
abbrev no_macros : Nested
no_macros text m g = fault

eval-decimal_example :
    eval 1 (decimal 6502) true fresh_machine globals
    ≡ ok (
      record alloc_symbol { value = 6502; addrmode = byteadr } ∷ [],
      record fresh_machine { lastwasop = false },
      globals,
    )
eval-decimal_example =
    eval-decimal 0 6502 true fresh_machine globals (omega arith) (omega arith) (omega arith)

-- a pass after which another one is wanted
abbrev unresolved_globals : Globals
unresolved_globals = record globals { redo = 1 }

genfill-Advances_example :
    Advances 1000 unresolved_globals (genfill false 0xea 500 2 output unresolved_globals)
genfill-Advances_example =
    genfill-Advances false 0xea 500 2 output unresolved_globals (inr (inl refl)) (omega arith)
      (omega arith) (λ e. omega arith)

abbrev pub top_if : If
top_if = record { file = 0; base = true; xtrue = true; acctrue = true }

-- a state inside of an IF that is not taken
abbrev pub source : Source
source = record {
  ifstack = record { file = 1; base = false; xtrue = false; acctrue = true } ∷ top_if ∷ [];
  incfile = 1;
  label = [];
  machine = fresh_machine;
  globals = globals;
}

abbrev directives : Block
directives = choice (codes "1") (branch (codes "2") nothing nothing) nothing nothing

run_block_inactive_example : run_block 1 directives source ≡ ok source
unfolding is_active
run_block_inactive_example =
    run_block_inactive 1 directives source
      (record { file = 1; base = false; xtrue = false; acctrue = true }) (top_if ∷ []) refl refl

directives-IsNested_example :
    Partial NestedSource (v_if 1 (codes "1") source)
    × Partial NestedSource (v_ifconst 1 (codes "1") source)
    × Partial NestedSource (v_ifnconst 1 (codes "1") source)
    × Partial NestedSource (v_else source)
    × Partial NestedState (v_endif source)
unfolding is_active
directives-IsNested_example = directives-IsNested 1 (codes "1") source (λ e. refl, tt)

is_active-all_active_example : is_active (top_if ∷ top_if ∷ []) ≡ all_active (top_if ∷ top_if ∷ [])
unfolding is_active
is_active-all_active_example = is_active-all_active top_if (top_if ∷ []) (λ e. refl, tt)
