-- ===== src/Passes.antt =====
-- The passes of src/src/main.c: the loop of `MainShadow`, `clearsegs`, and the exit code of `main`. What a pass
-- reads and writes is a parameter, `run_pass`, which stands for the lines of the source up to
-- `closegenerate`. The segment in force is in the globals, and the list holds the others.
pub mod Ends
pub mod Refines
use dasm_dillon_code_sourcef.Common.{
  ℕ, zero, suc, ◌+◌, ◌*◌, ◌%◌, Bool, true, false, not, ◌&&◌, List, [], map, Option, none, some,
  if◌then◌else◌, ◌==◌, ltb, Run, ok, out_of_fuel, ◌>>=◌,
}
use dasm_dillon_code_sourcef.Long.{long_mod}
use dasm_dillon_code_sourcef.Asm.{SegmentFlags, Segment}
use dasm_dillon_code_sourcef.Symbols.{Globals, clear_all_symbol_refs}
use dasm_dillon_code_sourcef.Output.{Output}

-- the program's state between passes; `errors` and `fatals` are the counters of src/src/errors.c
pub record Env : Type 0 where
  pub globals : Globals
  pub others : List Segment
  pub output : Output
  pub errors : ℕ
  pub fatals : ℕ

-- the variables of the loop; `oldredo` is none for -1
pub record Driver : Type 0 where
  pub pass : ℕ
  pub oldredo : Option ℕ
  pub oldwhy : ℕ
  pub oldeval : ℕ

abbrev pub first_pass : Driver
first_pass = record { pass = 1; oldredo = none; oldwhy = 0; oldeval = 0 }

abbrev pub unknown_segment : SegmentFlags
unknown_segment = record { unknown = true; ref = false; bss = false; rorg = false }

abbrev pub clear_segment : Segment → Segment
clear_segment seg = record seg {
  flags = record unknown_segment { bss = seg.flags.bss };
  rflags = unknown_segment;
  initflags = unknown_segment;
  initrflags = unknown_segment;
}

unfoldable pub clearsegs : Env → Env
clearsegs e = record e {
  globals = record (e.globals) { segment = clear_segment e.globals.segment };
  others = map clear_segment e.others;
}

-- the start of a pass, where the object file is opened again
unfoldable pub begin_pass : Env → Env
begin_pass e = record e {
  globals = record (e.globals) {
    localindex = 0;
    lastlocalindex = 0;
    localdollarindex = 0;
    lastlocaldollarindex = 0;
    checksum = 0;
  };
  output = record (e.output) { fisclear = true; file = [] };
}

-- how the loop ends: every symbol resolved, the source not resolvable, too many passes, or fatal errors
pub data Verdict : Type 0 where
  resolved not_resolvable too_many_passes aborted : Verdict

pub data Next : Type 0 where
  stop : Verdict → Env → Next
  again : Driver → Env → Next

abbrev pub same_redo : Option ℕ → ℕ → Bool
same_redo none redo = false
same_redo (some old) redo = old == redo

-- the pass asks for as much as the one before
unfoldable pub same_as_before : Driver → Globals → Bool
same_as_before d g =
    same_redo d.oldredo g.redo && g.redo_why == d.oldwhy && g.redo_eval == d.oldeval

abbrev pub count_fatal : Env → Env
count_fatal e = record e { fatals = e.fatals + 1 }

-- the counters for the next pass
abbrev pub reset_redo : Env → Env
reset_redo e = record e {
  globals = record (e.globals) {
    redo = 0;
    redo_why = 0;
    redo_eval = 0;
    redo_if = (e.globals.redo_if * 2) % long_mod;
  };
}

abbrev pub next_pass : Driver → Globals → Driver
next_pass d g = record {
  pass = d.pass + 1;
  oldredo = some g.redo;
  oldwhy = g.redo_why;
  oldeval = g.redo_eval;
}

-- the state that the next pass starts from
unfoldable pub cleared : Env → Env
cleared e =
    let r = reset_redo e in clearsegs (record r { globals = clear_all_symbol_refs r.globals })

module _ (max_passes : ℕ) (do_all_passes : Bool) where
  -- what follows a pass
  unfoldable pub after_pass : Driver → Env → Next
  after_pass d e =
      if e.globals.redo == 0
      then stop resolved e
      else if not do_all_passes && same_as_before d e.globals
      then stop not_resolvable (count_fatal e)
      else if ltb 0 e.fatals
      then stop aborted (reset_redo e)
      else if ltb max_passes (d.pass + 1)
      then stop too_many_passes (count_fatal (reset_redo e))
      else again (next_pass d e.globals) (cleared e)

  module _ (run_pass : Env → Run Env) where
    -- the passes from one on; no more than `max_passes` are made, or one
    unfoldable pub passes : ℕ → Driver → Env → Run (Verdict × Env)
    passes zero d e = out_of_fuel
    passes (suc k) d e = run_pass (begin_pass e) >>= λ e1. elim (after_pass d e1) [
      | stop verdict e2 ↦ ok (verdict, e2)
      | again d2 e2 ↦ passes k d2 e2
    ]

    -- `MainShadow` behind its options
    unfoldable pub main_shadow : Env → Run (Verdict × Env)
    main_shadow e = passes (max_passes + 1) first_pass e

    -- the exit code, EXIT_SUCCESS or EXIT_FAILURE; the result of `MainShadow` is not looked at
    unfoldable pub exit_code : Env → ℕ
    exit_code e = if ltb 0 e.errors then 1 else 0

    unfoldable pub main : Env → Run ℕ
    main e = do (verdict, e1) ← main_shadow e; ok (exit_code e1)
