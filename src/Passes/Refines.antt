-- ===== src/Passes/Refines.antt =====
-- What the loop of the passes of src/src/main.c computes, without its counters.
use dasm_dillon_code_sourcef.Common.{
  ℕ, zero, suc, ◌+◌, ◌≤◌, ◌<◌, ◌≡◌, ◌≢◌, refl, ap, sym, ◌∙◌, subst, Bool, true, false, not, ◌&&◌,
  ◌==◌, ltb, Bool-cases, ==_refl, Option, none, some, arith, Run, ok, ◌⊎◌, inl, inr, ◌↔◌, bind-ok,
}
use dasm_dillon_code_sourcef.Passes.{
  Env, Driver, Verdict, Next, stop, again, resolved, first_pass, after_pass, passes, main_shadow,
  begin_pass, next_pass, cleared, same_as_before, same_redo,
}
use mathlib.Core.Bool.{false≢true}
use dasm_dillon_code_sourcef.Passes.Ends.{passes-stop, passes-again}

-- what a pass asks for: its three counters
abbrev pub Work : Type 0
Work = ℕ × ℕ × ℕ

abbrev pub work_of : Env → Work
work_of e = (e.globals.redo, e.globals.redo_why, e.globals.redo_eval)

-- what the pass before asked for, if there was one
abbrev work_before : Option ℕ → ℕ → ℕ → Option Work
work_before none why eval = none
work_before (some redo) why eval = some (redo, why, eval)

abbrev before : Driver → Option Work
before d = work_before d.oldredo d.oldwhy d.oldeval

-- A pass makes progress where it asks for something else than the one before. With -P, which turns the comparison
-- off, nothing is asked of it.
abbrev pub Progresses : Bool → Option Work → Env → Type 0
Progresses all earlier e = (all ≡ true) ⊎ (earlier ≢ some (work_of e))

abbrev the_work : Option Work → Work
the_work none = (0, 0, 0)
the_work (some w) = w

same_work :
    (old : Option ℕ) (why eval redo why' eval' : ℕ)
    → work_before old why eval ≡ some (redo, why', eval')
    → (same_redo old redo && why' == why && eval' == eval) ≡ true
same_work none why eval redo why' eval' e = cc
same_work (some x) why eval redo why' eval' e =
    let whole : ◌≡◌ {A = Work} (x, why, eval) (redo, why', eval') = ap the_work e in
    let first : x ≡ redo = ap (λ w. w.0) whole in
    let second : why ≡ why' = ap (λ w. w.1) whole in
    let third : eval ≡ eval' = ap (λ w. w.2) whole in
    rw (first, second, third, ==_refl redo, ==_refl why', ==_refl eval') refl

work_same :
    (old : Option ℕ) (why eval redo why' eval' : ℕ)
    → (same_redo old redo && why' == why && eval' == eval) ≡ true
    → work_before old why eval ≡ some (redo, why', eval')
work_same none why eval redo why' eval' e = absurd (false≢true e)
work_same (some x) why eval redo why' eval' e =
    let first : x ≡ redo = ground arith in
    let second : why ≡ why' = ground arith in
    let third : eval ≡ eval' = ground arith in rw (first, second, third) refl

-- the comparison of the passes, where it is on
progress_test :
    (all : Bool) (d : Driver) (e : Env)
    → (not all && same_as_before d e.globals) ≡ false
    → Progresses all (before d) e
unfolding same_as_before
progress_test true d e h = inl refl
progress_test false d e h = inr (λ p. absurd (
    false≢true (
      sym h
      ∙ same_work d.oldredo d.oldwhy d.oldeval e.globals.redo e.globals.redo_why e.globals.redo_eval
          p)))

test_progress :
    (all : Bool) (d : Driver) (e : Env)
    → Progresses all (before d) e
    → (not all && same_as_before d e.globals) ≡ false
unfolding same_as_before
test_progress true d e p = refl
test_progress false d e (inl p) = absurd (false≢true p)
test_progress false d e (inr p) = elim (Bool-cases (same_as_before d e.globals)) [
  | inl s ↦ absurd (
      p (
        work_same d.oldredo d.oldwhy d.oldeval e.globals.redo e.globals.redo_why e.globals.redo_eval
          s))
  | inr s ↦ s
]

-- what is known of the outcome of a pass
abbrev After : ℕ → Bool → Driver → Env → Next → Type 0
After max_passes all d e1 (stop verdict e2) = verdict ≡ resolved → (e1.globals.redo ≡ 0) × (e1 ≡ e2)
After max_passes all d e1 (again d2 e2) =
    (e1.globals.redo ≢ 0)
    × (e1.fatals ≡ 0)
    × ((not all && same_as_before d e1.globals) ≡ false)
    × (before d2 ≡ some (work_of e1))
    × (d2.pass ≡ d.pass + 1)
    × (d2.pass ≤ max_passes)
    × (cleared e1 ≡ e2)

after_pass-After :
    (max_passes : ℕ) (all : Bool) (d : Driver) (e1 : Env)
    → After max_passes all d e1 (after_pass max_passes all d e1)
unfolding after_pass
after_pass-After max_passes all d e1 = ground arith

-- The bound on the passes: the first one is always made.
abbrev pub IsAllowed : ℕ → ℕ → ℕ → Type 0
IsAllowed max_passes pass n = (n ≡ 0) ⊎ (n + pass ≤ max_passes)

more_allowed :
    (max_passes pass next n : ℕ)
    → next ≡ pass + 1
    → next ≤ max_passes
    → IsAllowed max_passes next n
    → suc n + pass ≤ max_passes
more_allowed max_passes pass next n e h (inl z) = omega arith
more_allowed max_passes pass next n e h (inr le) = omega arith

less-IsAllowed :
    (max_passes pass n : ℕ)
    → IsAllowed max_passes pass (suc n)
    → (pass + 1 ≤ max_passes) × IsAllowed max_passes (pass + 1) n
less-IsAllowed max_passes pass n (inl z) = absurd (omega arith)
less-IsAllowed max_passes pass n (inr le) = (omega arith, inr (omega arith))

last_pass :
    (max_passes : ℕ) (all : Bool) (d : Driver) (e : Env)
    → e.globals.redo ≡ 0
    → after_pass max_passes all d e ≡ stop resolved e
unfolding after_pass
last_pass max_passes all d e done = ground arith

other_pass :
    (max_passes : ℕ) (all : Bool) (d : Driver) (e : Env)
    → e.globals.redo ≢ 0
    → e.fatals ≡ 0
    → Progresses all (before d) e
    → d.pass + 1 ≤ max_passes
    → after_pass max_passes all d e ≡ again (next_pass d e.globals) (cleared e)
unfolding after_pass
other_pass max_passes all d e wanted well progress room =
    let some_work : (e.globals.redo == 0) ≡ false = ground arith in
    let no_fatals : ltb 0 e.fatals ≡ false = ground arith in
    let allowed : ltb max_passes (d.pass + 1) ≡ false = ground arith in
    rw (some_work, test_progress all d e progress, no_fatals, allowed) refl

module _ (run_pass : Env → Run Env) (all : Bool) where
  -- The states that passes start from: `n` of them in a row leave symbols unresolved, report nothing fatal and make
  -- progress, and each starts from what the one before leaves, cleared. `earlier` is what was asked for before them.
  abbrev pub Rounds : ℕ → Option Work → Env → Env → Type 0
  Rounds zero earlier e e' = e ≡ e'
  Rounds (suc n) earlier e e' =
      (e1 : Env) × (run_pass (begin_pass e) ≡ ok e1)
      × (e1.globals.redo ≢ 0)
      × (e1.fatals ≡ 0)
      × Progresses all earlier e1
      × Rounds n (some (work_of e1)) (cleared e1) e'

  -- the pass behind them leaves nothing to be resolved
  abbrev pub Resolves : ℕ → Option Work → Env → Env → Type 0
  Resolves n earlier e e2 =
      (e' : Env) × Rounds n earlier e e'
      × (run_pass (begin_pass e') ≡ ok e2)
      × (e2.globals.redo ≡ 0)

  module _ (max_passes : ℕ) where
    -- the outcome of the loop is one of the abstract ones
    abbrev Sound : Driver → Env → Env → Type 0
    Sound d e e2 = (n : ℕ) × IsAllowed max_passes d.pass n × Resolves n (before d) e e2

    Sound-next :
        (d : Driver) (e e1 e2 : Env) (k : ℕ) (n : Next)
        → run_pass (begin_pass e) ≡ ok e1
        → After max_passes all d e1 n
        → ((d2 : Driver) (e3 : Env)
            → passes max_passes all run_pass k d2 e3 ≡ ok (resolved, e2)
            → Sound d2 e3 e2)
        → ◌≡◌ {A = Run (Verdict × Env)}
            (elim n [
              | stop v e3 ↦ ok (v, e3)
              | again d2 e3 ↦ passes max_passes all run_pass k d2 e3
            ])
            (ok (resolved, e2))
        → Sound d e e2
    Sound-next d e e1 e2 k (stop v e3) run known rest r =
        let first : v ≡ resolved = cc in
        let second : e3 ≡ e2 = cc in
        let (done, same) = known first in
        let whole : e1 ≡ e2 = same ∙ second in
        (
          0,
          inl refl,
          (e, refl, run ∙ ap (λ x. ok x) whole, subst (λ x. x.globals.redo ≡ 0) whole done),
        )
    Sound-next d e e1 e2 k (again d2 e3) run known rest r =
        let (wanted, well, differs, asked, next, below, clean) = known in
        let (n, allowed, (e', rounds, last, done)) = rest d2 e3 r in
        let rounds' : Rounds n (some (work_of e1)) (cleared e1) e' =
          subst (λ w. Rounds n w (cleared e1) e') asked
            (subst (λ x. Rounds n (before d2) x e') (sym clean) rounds) in
        (
          suc n,
          inr (more_allowed max_passes d.pass d2.pass n next below allowed),
          (e', (e1, run, wanted, well, progress_test all d e1 differs, rounds'), last, done),
        )

    passes-Sound :
        (k : ℕ) (d : Driver) (e e2 : Env)
        → passes max_passes all run_pass k d e ≡ ok (resolved, e2)
        → Sound d e e2
    unfolding passes
    passes-Sound zero d e e2 r = cc
    passes-Sound (suc k) d e e2 r =
        let (e1, run, rest) = bind-ok (run_pass (begin_pass e)) _ (resolved, e2) r in
        Sound-next d e e1 e2 k (after_pass max_passes all d e1) run
          (after_pass-After max_passes all d e1) (λ d2 e3. passes-Sound k d2 e3 e2) rest

    passes_complete :
        (n k : ℕ) (d : Driver) (e e2 : Env)
        → IsAllowed max_passes d.pass n
        → n < k
        → Resolves n (before d) e e2
        → passes max_passes all run_pass k d e ≡ ok (resolved, e2)
    passes_complete n zero d e e2 a h r = absurd (omega arith)
    passes_complete zero (suc k) d e e2 a h (e', same, run, done) =
        passes-stop max_passes all run_pass k d e e2 e2 resolved
          (subst (λ x. run_pass (begin_pass x) ≡ ok e2) (sym same) run)
          (last_pass max_passes all d e2 done)
    passes_complete (suc n) (suc k) d e e2 a h
          (e', (e1, run, wanted, well, progress, rounds), last, done) =
        let (room, allowed) = less-IsAllowed max_passes d.pass n a in
        passes-again max_passes all run_pass k d (next_pass d e1.globals) e e1 (cleared e1) run
          (other_pass max_passes all d e1 wanted well progress room)
        ∙ passes_complete n k (next_pass d e1.globals) (cleared e1) e2 allowed (omega arith)
            (e', rounds, last, done)

    -- With the comparison of passes on or off, `MainShadow` ends with everything resolved in a state exactly where
    -- fewer than `max_passes` passes in a row, or none, leave symbols unresolved and nothing fatal, each from what
    -- the one before leaves, cleared, and, where the comparison is on, each asking for something else than the one
    -- before, and the pass behind them leaves nothing unresolved and that state.
    pub main_shadow-Resolves :
        (e e2 : Env)
        → (main_shadow max_passes all run_pass e ≡ ok (resolved, e2))
          ↔ ((n : ℕ) × IsAllowed max_passes 1 n × Resolves n none e e2)
    unfolding main_shadow
    main_shadow-Resolves e e2 = (
      passes-Sound (max_passes + 1) first_pass e e2,
      λ (n, allowed, r).
          passes_complete n (max_passes + 1) first_pass e e2 allowed (enough n allowed) r,
    )
      where
        enough : (n : ℕ) → IsAllowed max_passes 1 n → n < max_passes + 1
        enough n (inl z) = omega arith
        enough n (inr le) = omega arith
