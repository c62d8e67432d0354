-- ===== src/Repeats.antt =====
-- REPEAT and REPEND of src/src/ops.c: the stack `Reploop`, with the head of the list for the innermost loop.
pub mod Rounds
use dasm_dillon_code_sourcef.Common.{
  ℕ, ◌-◌, ◌^◌, Bool, true, false, not, ◌&&◌, ◌||◌, List, [], ◌∷◌, if◌then◌else◌, ◌==◌, Run, ok,
  fault, ◌>>=◌,
}
use dasm_dillon_code_sourcef.Asm.{Symbol, any_flag}
use dasm_dillon_code_sourcef.Long.{is_negative}
use dasm_dillon_code_sourcef.Symbols.{count_redo}
use dasm_dillon_code_sourcef.Conditional.{
  Source, is_active, pushif, place_here, eval_first, v_endif,
}
use dasm_dillon_code_sourcef.Includes.{Incfile, Reader, top_id}

-- REPLOOP; `seek` holds the lines from the top of the loop on, and `unresolved` that `flags` is not 0
pub record Reploop : Type 0 where
  pub count : ℕ
  pub seek : List (List ℕ)
  pub lineno : ℕ
  pub file : ℕ
  pub unresolved : Bool

abbrev pub Loops : Type 0
Loops = Reader × List Reploop

abbrev pub reason_repeat_not_resolved : ℕ
reason_repeat_not_resolved = 2 ^ 12

-- where the reader stands: in the lines of a macro, or in a stream
abbrev pub lines_at : Bool → Incfile → List (List ℕ)
lines_at true inc = inc.strlist
lines_at false inc = inc.lines

abbrev pub loop_at : ℕ → Bool → Incfile → Reploop
loop_at count unresolved inc = record {
  count = count;
  seek = lines_at inc.is_macro inc;
  lineno = inc.lineno;
  file = inc.id;
  unresolved = unresolved;
}

abbrev pub put_source : Source → Reader → Reader
put_source s r = record r { source = s }

-- another pass, where the count is not resolved
abbrev pub count_repeat : Bool → Source → Source
count_repeat true s = record s { globals = count_redo reason_repeat_not_resolved s.globals }
count_repeat false s = s

unfoldable pub push_loop : Symbol → Source → Reader → List Reploop → List Incfile → Run Loops
push_loop sym s r loops [] = fault
push_loop sym s r loops (inc ∷ rest) = do
  s1 ← pushif true (count_repeat (any_flag sym.flags) s)
  ok (put_source s1 r, loop_at sym.value (any_flag sym.flags) inc ∷ loops)

-- REPEAT behind its evaluation; lines that are repeated no time are skipped, and a count below 0 is reported
unfoldable pub start_loop : Reader → List Reploop → Symbol × Source → Run Loops
start_loop r loops (sym, s) =
    let skipped = pushif false s >>= λ s1. ok (put_source s1 r, loops) in
    if sym.value == 0 || is_negative sym.value then skipped else push_loop sym s r loops r.includes

unfoldable pub v_repeat : ℕ → List ℕ → Loops → Run Loops
v_repeat depth str (r, loops) =
    let skipped = pushif false r.source >>= λ s1. ok (put_source s1 r, loops) in
    let started = place_here r.source >>= eval_first depth str >>= start_loop r loops in
    if is_active r.source.ifstack then started else skipped

-- back to the top of the loop
abbrev pub rewind_as : Bool → List (List ℕ) → ℕ → Incfile → Incfile
rewind_as true seek lineno inc = record inc { strlist = seek; lineno = lineno }
rewind_as false seek lineno inc = record inc { lines = seek; lineno = lineno }

abbrev pub rewind : Reploop → List Incfile → List Incfile
rewind loop [] = []
rewind loop (inc ∷ rest) = rewind_as inc.is_macro loop.seek loop.lineno inc ∷ rest

-- `v_endif` on the source of the reader
unfoldable pub end_if : Reader → List Reploop → Run Loops
end_if r loops = v_endif r.source >>= λ e. ok (put_source e.0 r, loops)

-- a loop whose count is known goes on while the count, one less, is not 0
unfoldable pub end_round : Reader → Reploop → List Reploop → Run Loops
end_round r loop loops =
    let ended = end_if r loops in
    if not loop.unresolved && not (loop.count - 1 == 0)
    then ok (
      record r { includes = rewind loop r.includes },
      record loop { count = loop.count - 1 } ∷ loops,
    )
    else ended

-- outside of a loop of this file, which is told, it does nothing
unfoldable pub repend_active : Reader → List Reploop → Run Loops
repend_active r [] = ok (r, [])
repend_active r (loop ∷ loops) =
    let round = end_round r loop loops in
    if loop.file == top_id r.includes then round else ok (r, loop ∷ loops)

unfoldable pub v_repend : Loops → Run Loops
v_repend (r, loops) =
    let ended = end_if r loops in
    let active = repend_active r loops in if is_active r.source.ifstack then active else ended
