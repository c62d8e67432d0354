-- ===== src/Repeats/Rounds.antt =====
-- How often the lines of a REPEAT loop of src/src/ops.c are read.
use dasm_dillon_code_sourcef.Common.{
  ℕ, zero, suc, ◌-◌, ◌≤◌, ◌≡◌, refl, ap, sym, ◌∙◌, Bool, true, false, List, [], ◌∷◌, if◌then◌else◌,
  ◌==◌, arith, bind_ok, Run, ok, ◌>>=◌,
}
use dasm_dillon_code_sourcef.Conditional.{is_active}
use dasm_dillon_code_sourcef.Includes.{Incfile, Reader, top_id}
use dasm_dillon_code_sourcef.Repeats.{
  Reploop, rewind_as, rewind, end_if, end_round, repend_active, v_repend, Loops,
}

-- a reader in the file of a loop whose count is known, in lines that are assembled
pub record IsInLoop (r : Reader) (loop : Reploop) : Type 0 where
  pub active : is_active r.source.ifstack ≡ true
  pub here : loop.file ≡ top_id r.includes
  pub known : loop.unresolved ≡ false

-- the innermost file or macro in front of the loop's first line, whatever was read of it since
abbrev pub standing : Reploop → Incfile → Incfile
standing loop inc = record inc {
  lines = (if inc.is_macro then inc.lines else loop.seek);
  strlist = (if inc.is_macro then loop.seek else inc.strlist);
  lineno = loop.lineno;
}

abbrev pub standing_on_top : Reploop → List Incfile → List Incfile
standing_on_top loop [] = []
standing_on_top loop (inc ∷ rest) = standing loop inc ∷ rest

-- the reader at the top of the loop, with everything else as it is
abbrev pub at_top : Reploop → Reader → Reader
at_top loop r = record r { includes = standing_on_top loop r.includes }

rewind_as-standing :
    (b : Bool) (loop : Reploop) (inc : Incfile)
    → inc.is_macro ≡ b
    → rewind_as b loop.seek loop.lineno inc ≡ standing loop inc
rewind_as-standing true loop inc e = rw e refl
rewind_as-standing false loop inc e = rw e refl

rewind-standing : (loop : Reploop) (l : List Incfile) → rewind loop l ≡ standing_on_top loop l
rewind-standing loop [] = refl
rewind-standing loop (inc ∷ rest) =
    ap (λ i. i ∷ rest) (rewind_as-standing inc.is_macro loop inc refl)

top_id-standing : (loop : Reploop) (l : List Incfile) → top_id (standing_on_top loop l) ≡ top_id l
top_id-standing loop [] = refl
top_id-standing loop (inc ∷ rest) = refl

at_top-IsInLoop :
    (r : Reader) (loop : Reploop) (count : ℕ)
    → IsInLoop r loop
    → IsInLoop (at_top loop r) (record loop { count = count })
at_top-IsInLoop r loop count h = record {
  active = h.active;
  here = h.here ∙ sym (top_id-standing loop r.includes);
  known = h.known;
}

v_repend-back :
    (r : Reader) (loop : Reploop) (loops : List Reploop)
    → IsInLoop r loop
    → 2 ≤ loop.count
    → v_repend (r, loop ∷ loops)
      ≡ ok (at_top loop r, record loop { count = loop.count - 1 } ∷ loops)
unfolding v_repend repend_active end_round
v_repend-back r loop loops h more =
    let here : (loop.file == top_id r.includes) ≡ true = ground (arith, h.here) in
    let left : (loop.count - 1 == 0) ≡ false = ground arith in
    rw (h.active, here, h.known, left, rewind-standing loop r.includes) refl

v_repend-last :
    (r : Reader) (loop : Reploop) (loops : List Reploop)
    → IsInLoop r loop
    → loop.count ≡ 1
    → v_repend (r, loop ∷ loops) ≡ end_if r loops
unfolding v_repend repend_active end_round
v_repend-last r loop loops h one =
    let here : (loop.file == top_id r.includes) ≡ true = ground (arith, h.here) in
    let left : (loop.count - 1 == 0) ≡ true = ground arith in
    rw (h.active, here, h.known, left) refl

-- The lines of the loop are read by `body`, which may do anything but leave the loop, and REPEND ends each round.
abbrev pub rounds : (Reader → Reader) → ℕ → Loops → Run Loops
rounds body zero w = ok w
rounds body (suc n) (r, loops) = v_repend (body r, loops) >>= rounds body n

-- the reader behind `body` has been run `n + 1` times, each time but the first from the top of the loop
abbrev pub read_again : (Reader → Reader) → Reploop → ℕ → Reader → Reader
read_again body loop zero r = body r
read_again body loop (suc n) r = read_again body loop n (at_top loop (body r))

-- what the lines of the loop keep: whatever the count, they end in the loop
abbrev pub StaysInLoop : (Reader → Reader) → Reploop → Type 0
StaysInLoop body loop = (r : Reader) → IsInLoop r loop → IsInLoop (body r) loop

recount :
    (r : Reader) (loop : Reploop) (count : ℕ)
    → IsInLoop r (record loop { count = count })
    → IsInLoop r loop
recount r loop count h = record { active = h.active; here = h.here; known = h.known }

read_again-count :
    (body : Reader → Reader) (loop : Reploop) (count n : ℕ) (r : Reader)
    → read_again body (record loop { count = count }) n r ≡ read_again body loop n r
read_again-count body loop count zero r = refl
read_again-count body loop count (suc n) r =
    read_again-count body loop count n (at_top loop (body r))

-- In a loop whose known count is n, whose lines come to their REPEND in the loop, those lines are read exactly n times:
-- the first time from where the reader is, and each other time from the loop's first line, with its line number, in
-- the file or the macro of the loop. The REPEND behind the n-th time takes the loop off and ends its condition.
pub repends-count :
    (n : ℕ) (body : Reader → Reader) (r : Reader) (loop : Reploop) (loops : List Reploop)
    → StaysInLoop body loop
    → IsInLoop r loop
    → loop.count ≡ suc n
    → rounds body (suc n) (r, loop ∷ loops) ≡ end_if (read_again body loop n r) loops
repends-count zero body r loop loops stays h e =
    rw (v_repend-last (body r) loop loops (stays r h) e) (bind_ok (end_if (body r) loops))
repends-count (suc n) body r loop loops stays h e =
    let fewer : loop.count - 1 ≡ suc n = omega arith in
    let next : Reploop = record loop { count = loop.count - 1 } in
    let top : Reader = at_top loop (body r) in
    let stays' : StaysInLoop body next = λ r' h'.
      let i = stays r' (recount r' loop next.count h') in
      record { active = i.active; here = i.here; known = i.known } in
    rw (v_repend-back (body r) loop loops (stays r h) (omega arith)) (
      repends-count n body top next loops stays'
        (at_top-IsInLoop (body r) loop next.count (stays r h)) fewer
      ∙ ap (λ x. end_if x loops) (read_again-count body loop next.count n top))
