-- ===== src/Passes/Ends.antt =====
-- That the passes of src/src/main.c end, and what the program says of it.
use dasm_dillon_code_sourcef.Common.{
  ℕ, zero, suc, ◌+◌, ◌-◌, ◌≤◌, ◌<◌, ◌≡◌, ◌≢◌, refl, ap, ◌∙◌, Bool, true, false, some, ◌==◌, ltb,
  arith, Run, ok, Total, Total-bind, ==_refl,
}
use dasm_dillon_code_sourcef.Passes.{
  Env, Driver, Verdict, Next, stop, again, not_resolvable, first_pass, after_pass, passes,
  main_shadow, exit_code, main, begin_pass, next_pass, cleared, count_fatal, same_as_before,
  same_redo,
}

-- Another pass is made only below the bound.
abbrev IsNext : ℕ → Driver → Next → Type 0
IsNext max_passes d (stop verdict e) = Unit
IsNext max_passes d (again d2 e) = (d2.pass ≡ d.pass + 1) × (d2.pass ≤ max_passes)

after_pass-IsNext :
    (max_passes : ℕ) (all : Bool) (d : Driver) (e : Env)
    → IsNext max_passes d (after_pass max_passes all d e)
unfolding after_pass
after_pass-IsNext max_passes all d e = ground arith

module _ (max_passes : ℕ) (all : Bool) (run_pass : Env → Run Env) where
  -- the run ends, at a pass that the run has made
  abbrev pub EndsIn : Run (Verdict × Env) → Type 0
  EndsIn r = Total (λ v. Unit) r

  -- what follows a pass ends, if the passes behind it do
  follow-EndsIn :
      (k : ℕ) (d : Driver) (n : Next)
      → IsNext max_passes d n
      → ((d2 : Driver) (e2 : Env)
          → (d2.pass ≡ d.pass + 1)
          → d2.pass ≤ max_passes
          → EndsIn (passes max_passes all run_pass k d2 e2))
      → EndsIn (elim n [
        | stop verdict e2 ↦ ok (verdict, e2)
        | again d2 e2 ↦ passes max_passes all run_pass k d2 e2
      ])
  follow-EndsIn k d (stop verdict e2) n rest = tt
  follow-EndsIn k d (again d2 e2) n rest = rest d2 e2 n.0 n.1

  -- one pass, and the end or the passes behind it
  pub passes-stop :
      (k : ℕ) (d : Driver) (e e1 e2 : Env) (verdict : Verdict)
      → run_pass (begin_pass e) ≡ ok e1
      → after_pass max_passes all d e1 ≡ stop verdict e2
      → passes max_passes all run_pass (suc k) d e ≡ ok (verdict, e2)
  unfolding passes
  passes-stop k d e e1 e2 verdict run next = rw run (
      ap
        (λ n. elim n [
          | stop v e3 ↦ ok (v, e3)
          | again d2 e3 ↦ passes max_passes all run_pass k d2 e3
        ])
        next)

  pub passes-again :
      (k : ℕ) (d d2 : Driver) (e e1 e2 : Env)
      → run_pass (begin_pass e) ≡ ok e1
      → after_pass max_passes all d e1 ≡ again d2 e2
      → passes max_passes all run_pass (suc k) d e ≡ passes max_passes all run_pass k d2 e2
  unfolding passes
  passes-again k d d2 e e1 e2 run next = rw run (
      ap
        (λ n. elim n [
          | stop v e3 ↦ ok (v, e3)
          | again d3 e3 ↦ passes max_passes all run_pass k d3 e3
        ])
        next)

  module _ (pass-ends : (e : Env) → Total (λ e1. Unit) (run_pass e)) where
    passes-EndsIn :
        (k : ℕ) (d : Driver) (e : Env)
        → max_passes < d.pass + k
        → 0 < k
        → EndsIn (passes max_passes all run_pass k d e)
    unfolding passes
    passes-EndsIn zero d e h some_fuel = absurd (omega arith)
    passes-EndsIn (suc k) d e h some_fuel =
        Total-bind (λ e1. Unit) (λ v. Unit) (run_pass (begin_pass e)) _ (pass-ends (begin_pass e))
          (λ e1 t.
            follow-EndsIn k d (after_pass max_passes all d e1)
              (after_pass-IsNext max_passes all d e1)
              (λ d2 e2 next below.
                passes-EndsIn k d2 e2 (omega (arith, next, below)) (omega (arith, h, next, below))))

    -- If every pass comes to an end, so does the program, within `max_passes` + 1 passes, whatever the
    -- passes leave to be resolved and whether the comparison with the pass before is on or off.
    pub main-Ends : (e : Env) → Total (λ code. Unit) (main max_passes all run_pass e)
    unfolding main main_shadow
    main-Ends e =
        Total-bind (λ v. Unit) (λ code. Unit)
          (passes max_passes all run_pass (max_passes + 1) first_pass e) _
          (passes-EndsIn (max_passes + 1) first_pass e (omega arith) (omega arith)) (λ v t. tt)

stuck_once :
    (max_passes redo : ℕ) (e1 : Env)
    → 2 ≤ max_passes
    → redo ≢ 0
    → e1.globals.redo ≡ redo
    → e1.fatals ≡ 0
    → after_pass max_passes false first_pass e1
      ≡ again (next_pass first_pass e1.globals) (cleared e1)
unfolding after_pass same_as_before
stuck_once max_passes redo e1 two n r f =
    let wanted : (e1.globals.redo == 0) ≡ false = ground arith in
    let well : ltb 0 e1.fatals ≡ false = ground arith in
    let room : ltb max_passes (1 + 1) ≡ false = ground arith in rw (wanted, well, room) refl

stuck_twice :
    (max_passes redo why eval : ℕ) (d : Driver) (e2 : Env)
    → redo ≢ 0
    → d.oldredo ≡ some redo
    → d.oldwhy ≡ why
    → d.oldeval ≡ eval
    → e2.globals.redo ≡ redo
    → e2.globals.redo_why ≡ why
    → e2.globals.redo_eval ≡ eval
    → after_pass max_passes false d e2 ≡ stop not_resolvable (count_fatal e2)
unfolding after_pass same_as_before
stuck_twice max_passes redo why eval d e2 n od ow oe r w v =
    let wanted : (e2.globals.redo == 0) ≡ false = ground arith in
    let same : same_redo d.oldredo e2.globals.redo ≡ true = rw (od, r) (==_refl redo) in
    let why_same : (e2.globals.redo_why == d.oldwhy) ≡ true = ground arith in
    let eval_same : (e2.globals.redo_eval == d.oldeval) ≡ true = ground arith in
    rw (wanted, same, why_same, eval_same) refl

-- Where the first two passes leave the same things unresolved, and neither has counted an error or a fatal error, the
-- program gives up behind the second one with a fatal error, if it may make two passes and the comparison is on, and
-- still returns EXIT_SUCCESS.
pub main-IsStuck :
    (max_passes : ℕ) (run_pass : Env → Run Env) (e e1 e2 : Env)
    → 2 ≤ max_passes
    → run_pass (begin_pass e) ≡ ok e1
    → run_pass (begin_pass (cleared e1)) ≡ ok e2
    → e1.globals.redo ≢ 0
    → e2.globals.redo ≡ e1.globals.redo
    → e2.globals.redo_why ≡ e1.globals.redo_why
    → e2.globals.redo_eval ≡ e1.globals.redo_eval
    → e1.fatals ≡ 0
    → e2.errors ≡ 0
    → (main_shadow max_passes false run_pass e
        ≡ ok (not_resolvable, record e2 { fatals = e2.fatals + 1 }))
      × (main max_passes false run_pass e ≡ ok 0)
unfolding main main_shadow exit_code
main-IsStuck max_passes run_pass e e1 e2 two run1 run2 n r w v f c =
    let fuel : max_passes + 1 ≡ suc (suc (max_passes - 1)) = omega (arith, two) in
    let first = stuck_once max_passes e1.globals.redo e1 two n refl f in
    let second =
      stuck_twice max_passes e1.globals.redo e1.globals.redo_why e1.globals.redo_eval
        (next_pass first_pass e1.globals) e2 n refl refl refl r w v in
    let no_errors : ltb 0 e2.errors ≡ false = ground arith in
    let ends : passes max_passes false run_pass (max_passes + 1) first_pass e
        ≡ ok (not_resolvable, count_fatal e2) =
      ap (λ k. passes max_passes false run_pass k first_pass e) fuel
      ∙ passes-again max_passes false run_pass (suc (max_passes - 1)) first_pass _ e e1 (cleared e1)
          run1 first
      ∙ passes-stop max_passes false run_pass (max_passes - 1) (next_pass first_pass e1.globals)
          (cleared e1) e2 (count_fatal e2) not_resolvable run2 second in
    (ends, rw (ends, no_errors) refl)
