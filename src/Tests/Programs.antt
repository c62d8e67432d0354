-- ===== src/Tests/Programs.antt =====
-- The theorems on passes, files, lines and messages at concrete programs.
use dasm_dillon_code_sourcef.Common.{
  inr, ℕ, ◌≡◌, refl, true, false, List, [], ◌∷◌, some, none, if◌then◌else◌, ◌==◌, arith, Run, ok,
  out_of_fuel, ◌>>=◌, Total, codes, replicate,
}
use dasm_dillon_code_sourcef.Conditional.{Source}
use dasm_dillon_code_sourcef.Symbols.{programlabel, clear_all_symbol_refs}
use dasm_dillon_code_sourcef.Passes.{
  Env, resolved, not_resolvable, main_shadow, main, begin_pass, cleared, clearsegs,
}
use dasm_dillon_code_sourcef.Passes.Ends.{main-Ends, main-IsStuck}
use dasm_dillon_code_sourcef.Passes.Refines.{main_shadow-Resolves}
use dasm_dillon_code_sourcef.Lines.{cleanup, parse_cleaned, nth_arg}
use dasm_dillon_code_sourcef.Lines.Cleanup.{Ends, cleanup-Ends, cleanup_diverges}
use dasm_dillon_code_sourcef.Lines.Words.{string_line, parse-cleanup}
use dasm_dillon_code_sourcef.Mnemonics.{Macro}
use dasm_dillon_code_sourcef.Includes.{Reader, pushinclude, v_endm, v_execmac, split_args}
use dasm_dillon_code_sourcef.Includes.Args.{IsOne, split_args-join}
use dasm_dillon_code_sourcef.Includes.Macros.{Reads, v_endm-v_execmac}
use dasm_dillon_code_sourcef.Includes.Levels.{IsReader, Reach-IsReader, here, next, opened, left}
use dasm_dillon_code_sourcef.Errors.{Message, Messages, error, warning, woe, notify_all}
use dasm_dillon_code_sourcef.Errors.Counts.{Counted, OfResult, notify_all-Counted}
use dasm_dillon_code_sourcef.Tests.{globals, output, source}

abbrev env : Env
env = record { globals = globals; others = []; output = output; errors = 0; fatals = 0 }

-- a source whose first pass leaves something to be resolved, and whose second does not
abbrev two_passes : Env → Run Env
two_passes e = ok (record e {
  globals = record (e.globals) { redo = (if e.globals.redo_if == 0 then 1 else 0); redo_if = 1 };
})

-- what its first pass leaves, and its second
abbrev after_first : Env
after_first = record env {
  globals = record globals { redo = 1; redo_if = 1 };
  output = (begin_pass env).output;
}

abbrev after_second : Env
after_second = record (cleared after_first) {
  globals = record ((begin_pass (cleared after_first)).globals) { redo = 0; redo_if = 1 };
  output = (begin_pass (cleared after_first)).output;
}

main_shadow-Resolves_example : main_shadow 10 false two_passes env ≡ ok (resolved, after_second)
unfolding begin_pass cleared clearsegs clear_all_symbol_refs
main_shadow-Resolves_example = (main_shadow-Resolves two_passes false 10 env after_second).1 (
  1,
  inr (omega arith),
  (
    cleared after_first,
    (after_first, refl, (λ e. omega arith), refl, inr (λ e. cc), refl),
    refl,
    refl,
  ),
)

main-Ends_example : Total (λ code. Unit) (main 10 false two_passes env)
main-Ends_example = main-Ends 10 false two_passes (λ e. tt) env

-- a source whose passes all ask for the same, and count neither errors nor fatal errors
abbrev stuck_pass : Env → Run Env
stuck_pass e =
    ok (record e { globals = record (e.globals) { redo = 1; redo_why = 2; redo_eval = 0 } })

abbrev stuck : Env → Env
stuck e = record (begin_pass e) {
  globals = record ((begin_pass e).globals) { redo = 1; redo_why = 2; redo_eval = 0 };
}

main-IsStuck_example :
    (main_shadow 10 false stuck_pass env
      ≡ ok (not_resolvable, record (stuck (cleared (stuck env))) { fatals = 1 }))
    × (main 10 false stuck_pass env ≡ ok 0)
unfolding begin_pass cleared clearsegs
main-IsStuck_example =
    main-IsStuck 10 stuck_pass env (stuck env) (stuck (cleared (stuck env))) (omega arith) refl refl
      (λ e. omega arith) refl refl refl refl refl

abbrev reader : Reader
reader = record {
  includes = [];
  mlevel = 0;
  inclevel = 0;
  table = replicate 1024 [];
  next_id = 1;
  source = record source { incfile = 0 };
}

reader-IsReader : IsReader reader
reader-IsReader = record { level = refl; bound = omega arith; top = refl; below = tt }

abbrev lines : List (List ℕ)
lines = codes " nop" ∷ []

Reach-IsReader_example : IsReader (pushinclude (codes "a.asm") lines reader)
unfolding pushinclude v_endm
Reach-IsReader_example =
    Reach-IsReader reader-IsReader
      (next (next here (opened (codes "a.asm") lines refl)) (left refl))

abbrev store : Macro
store = record { name = codes "store"; strlist = codes " sta {1}" ∷ [] }

-- the reader in a file, in front of a line without a label
abbrev file_reader : Reader
file_reader = pushinclude (codes "a.asm") lines reader

abbrev placed : Source
placed = record (source) { incfile = 1 }

v_endm-v_execmac_example :
    (called : Reader) × (back : Reader) × (v_execmac (codes "$80") store file_reader ≡ ok called)
    × (v_endm called ≡ ok back)
    × Reads (codes "$80") store file_reader.includes called.includes
    × (called.mlevel ≡ 1)
    × (called.source.globals.localindex ≡ 1)
    × (called.source.globals.localdollarindex ≡ 1)
    × (back.includes ≡ file_reader.includes)
    × (back.mlevel ≡ 0)
    × (back.source ≡ record placed {
      globals = record globals { plab = 0xf000; lastlocalindex = 1; lastlocaldollarindex = 1 };
    })
unfolding pushinclude programlabel
v_endm-v_execmac_example =
    v_endm-v_execmac (codes "$80") store file_reader
      (record placed { globals = record globals { plab = 0xf000 } }) refl (λ e. cc) refl
      (λ e. omega arith)

x_plus_1 : IsOne (codes "x+1")
x_plus_1 = (
  λ e. omega arith,
  λ e. omega arith,
  (λ e. omega arith, λ e. omega arith, (λ e. omega arith, λ e. omega arith, tt)),
)

split_args-join_example :
    split_args (codes "1,,x+1") ≡ codes "1,,x+1" ∷ codes "1" ∷ [] ∷ codes "x+1" ∷ []
split_args-join_example =
    split_args-join (codes "1" ∷ [] ∷ codes "x+1" ∷ [])
      ((λ e. omega arith, λ e. omega arith, tt), refl, (tt, refl, (x_plus_1, refl, λ e. cc)))

parse-cleanup_example :
    (cleanup 8 false [] (string_line [] (codes "echo") (codes "a  b;{c") (10 ∷ []))
      >>= parse_cleaned)
    ≡ ok (
        some (record {
          label = [];
          word = codes "echo";
          operand = codes "\"a  b;{c\"";
          mnext = none;
          extstr = none;
        }))
parse-cleanup_example =
    parse-cleanup false [] [] (codes "a  b;{c") b'e' (codes "cho") tt
      (refl, (refl, (refl, (refl, tt)))) (refl, (refl, (refl, (refl, (refl, (refl, (refl, tt)))))))
      (omega arith)

cleanup-Ends_example : Ends 9 (cleanup 9 true [] (codes " lda {1}"))
cleanup-Ends_example = cleanup-Ends 9 [] (codes " lda {1}") (omega arith) (omega arith)

cleanup_diverges_example :
    cleanup 500 false (codes "{1}" ∷ codes "{1}" ∷ []) (codes "{1}") ≡ out_of_fuel
unfolding nth_arg
cleanup_diverges_example = cleanup_diverges 500 (codes "{1}" ∷ codes "{1}" ∷ []) refl

abbrev messages : Messages
messages = record {
  format = woe;
  level = warning;
  nof_fatals = 0;
  nof_errors = 0;
  nof_warnings = 0;
  listfile = false;
  fi_listfile = none;
  stderr = [];
}

abbrev unknown_mnemonic : Message
unknown_mnemonic = record {
  includes = file_reader.includes;
  severity = error;
  information = codes "Unknown mnemonic 'foo'!";
}

notify_all-Counted_example :
    OfResult
      (Counted 3 (unknown_mnemonic ∷ []) messages)
      (notify_all (codes "dasm") (unknown_mnemonic ∷ []) messages)
notify_all-Counted_example = notify_all-Counted (codes "dasm") (unknown_mnemonic ∷ []) messages
