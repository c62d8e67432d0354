-- ===== src/Exp/Machine/Sound.antt =====
-- The invariant of the evaluator's statics in src/src/exp.c: during one `eval` the bases stay, the tops
-- stay at or above them, and the operands stay inside their arrays.
use dasm_dillon_code_sourcef.Common.{
  ℕ, zero, suc, ◌+◌, ◌-◌, ◌≤◌, ◌<◌, ◌≡◌, refl, Bool, true, false, List, [], ◌∷◌, ◌++◌, length, drop,
  ap, length-drop, if◌then◌else◌, ◌==◌, arith, Run, ok, fault, out_of_fuel, ◌>>=◌, Partial, ◌||◌,
  Partial-bind, Option, none, some,
}
use dasm_dillon_code_sourcef.Asm.{Flags, no_flags}
use dasm_dillon_code_sourcef.Exp.Operators.{
  too_many_ops, too_many_operators, max_args_stacked, syntax_none, Message, Operator,
}
use dasm_dillon_code_sourcef.Exp.Machine.{
  drained, Step, operand, operator, opening, closing, ending, run_step, run_steps, finish_call,
  call_unary, call_binary, call, at_base, say, make_arg, Machine, Op, Arg, settle, settled, evaltop,
  evaltop_with, reset_args, reset_ops, store_arg, unary_on_top, reduce, reduced, reduce_test,
  stackarg, doop, push_op, open_bracket, close_bracket, close_loop, close_test, drain, store_op,
  max_args,
}

pub record IsSound (ab ob : ℕ) (m : Machine) : Type 0 where
  pub argibase : m.argibase ≡ ab
  pub opibase : m.opibase ≡ ob
  pub args_above : ab ≤ length m.args
  pub args_below : length m.args < max_args
  pub ops_above : ob ≤ length m.ops

module _ (ab ob : ℕ) where
  abbrev pub Sound : Run Machine → Type 0
  Sound r = Partial (IsSound ab ob) r

  reset_args-Sound :
      (m : Machine)
      → m.argibase ≡ ab
      → m.opibase ≡ ob
      → ab < 64
      → ob ≤ length m.ops
      → Sound (reset_args m)
  unfolding reset_args
  reset_args-Sound m a o below above =
      ground (arith, length-drop (length m.args - m.argibase) m.args)

  reset_ops-Sound :
      (m : Machine)
      → m.argibase ≡ ab
      → m.opibase ≡ ob
      → ab ≤ length m.args
      → length m.args < 64
      → Sound (reset_ops m)
  unfolding reset_ops
  reset_ops-Sound m a o above below = ground (arith, length-drop (length m.ops - m.opibase) m.ops)

  pub store_arg-Sound : (a : Arg) (m : Machine) → IsSound ab ob m → Sound (store_arg a m)
  unfolding store_arg
  store_arg-Sound a m s = ground (
    arith,
    reset_args-Sound (say max_args_stacked (record m { args = a ∷ m.args; lastwasop = false })),
  )

  module _ (next : Machine → Run Machine)
      (keeps : (m : Machine) → IsSound ab ob m → Sound (next m)) where
    finish_call-Sound :
        (m : Machine) (r : ℕ × Flags × List Message)
        → IsSound ab ob m
        → Sound (finish_call next m r)
    unfolding finish_call
    finish_call-Sound m (v, f, msgs) s =
        let m' : Machine = record m { log = msgs ++ m.log } in
        Partial-bind (IsSound ab ob) (IsSound ab ob) (store_arg (make_arg v f []) m') next
          (store_arg-Sound (make_arg v f []) m' (ground arith)) keeps

    call-Sound :
        (r : Run (ℕ × Flags × List Message)) (m : Machine)
        → IsSound ab ob m
        → Sound (r >>= finish_call next m)
    call-Sound (ok r) m s = finish_call-Sound m r s
    call-Sound fault m s = tt
    call-Sound out_of_fuel m s = tt

    call_unary-Sound :
        (o : Op) (m : Machine) (rest : List Arg)
        → m.args ≡ rest
        → ab < length rest
        → IsSound ab ob m
        → Sound (call_unary next o m rest)
    unfolding call_unary
    call_unary-Sound o m [] e h s = tt
    call_unary-Sound o m (a ∷ rest) e h s =
        call-Sound (call o.dis a.value 0 a.flags no_flags) (record m { args = rest }) (ground arith)

    call_binary-Sound :
        (o : Op) (m : Machine) (rest : List Arg)
        → m.args ≡ rest
        → ab + 1 < length rest
        → IsSound ab ob m
        → Sound (call_binary next o m rest)
    unfolding call_binary
    call_binary-Sound o m [] e h s = tt
    call_binary-Sound o m (a ∷ []) e h s = tt
    call_binary-Sound o m (b ∷ a ∷ rest) e h s =
        call-Sound (call o.dis a.value b.value a.flags b.flags) (record m { args = rest })
          (ground arith)

    evaltop_with-Sound :
        (m : Machine) (os : List Op) → m.ops ≡ os → IsSound ab ob m → Sound (evaltop_with next m os)
    unfolding evaltop_with
    evaltop_with-Sound m [] e s =
        reset_ops-Sound (say syntax_none m) s.argibase s.opibase s.args_above s.args_below
    evaltop_with-Sound m (o ∷ os) e s = ground (
      arith,
      ap length e,
      reset_ops-Sound (say syntax_none m),
      reset_args-Sound (say syntax_none (record m { ops = os })),
      call_unary-Sound o (record m { ops = os }) m.args,
      call_binary-Sound o (record m { ops = os }) m.args,
    )

  Sound-bind :
      (r : Run Machine) (f : Machine → Run Machine)
      → Sound r
      → ((m : Machine) → IsSound ab ob m → Sound (f m))
      → Sound (r >>= f)
  Sound-bind r f h k = Partial-bind (IsSound ab ob) (IsSound ab ob) r f h k

  Sound-if : (b : Bool) (x y : Run Machine) → Sound x → Sound y → Sound (if b then x else y)
  Sound-if true x y h k = h
  Sound-if false x y h k = k

  settle-Sound : (k : ℕ) (m : Machine) → IsSound ab ob m → Sound (settle k m)
  unfolding settle
  settle-Sound zero m s = s
  settle-Sound (suc k) m s =
      Sound-if (unary_on_top m) _ (ok m)
        (Sound-bind (evaltop_with (settle k) m m.ops) (settle k)
          (evaltop_with-Sound (settle k) (settle-Sound k) m m.ops refl s) (settle-Sound k))
        s

  pub settled-Sound : (m : Machine) → IsSound ab ob m → Sound (settled m)
  unfolding settled
  settled-Sound m s = settle-Sound (length m.ops) m s

  pub stackarg-Sound :
      (v : ℕ) (f : Flags) (text : List ℕ) (m : Machine)
      → IsSound ab ob m
      → Sound (stackarg v f text m)
  unfolding stackarg
  stackarg-Sound v f text m s =
      Sound-bind (store_arg (make_arg v f text) m) settled (store_arg-Sound (make_arg v f text) m s)
        settled-Sound

  pub evaltop-Sound : (m : Machine) → IsSound ab ob m → Sound (evaltop m)
  unfolding evaltop
  evaltop-Sound m s = evaltop_with-Sound settled settled-Sound m m.ops refl s

  reduce-Sound : (k p : ℕ) (m : Machine) → IsSound ab ob m → Sound (reduce k p m)
  unfolding reduce
  reduce-Sound zero p m s = s
  reduce-Sound (suc k) p m s =
      Sound-if (reduce_test p m) _ (ok m)
        (Sound-bind (evaltop m) (reduce k p) (evaltop-Sound m s) (reduce-Sound k p)) s

  pub reduced-Sound : (p : ℕ) (m : Machine) → IsSound ab ob m → Sound (reduced p m)
  unfolding reduced
  reduced-Sound p m s = reduce-Sound (length m.ops) p m s

  close_loop-Sound : (k : ℕ) (m : Machine) → IsSound ab ob m → Sound (close_loop k m)
  unfolding close_loop
  close_loop-Sound zero m s = s
  close_loop-Sound (suc k) m s =
      Sound-if (close_test m) _ (ok m)
        (Sound-bind (evaltop m) (close_loop k) (evaltop-Sound m s) (close_loop-Sound k)) s

  drain-Sound : (k : ℕ) (m : Machine) → IsSound ab ob m → Sound (drain k m)
  unfolding drain
  drain-Sound zero m s = s
  drain-Sound (suc k) m s =
      Sound-if (at_base m) (ok m) _ s
        (Sound-bind (evaltop m) (drain k) (evaltop-Sound m s) (drain-Sound k))

  store_op-Sound :
      (f : Option Operator) (p : ℕ) (m : Machine) → IsSound ab ob m → Sound (store_op f p m)
  unfolding store_op
  store_op-Sound f p m s = ground arith

  pub open_bracket-Sound : (m : Machine) → IsSound ab ob m → Sound (open_bracket m)
  unfolding open_bracket
  open_bracket-Sound m s =
      Sound-if (length m.ops == 32) (ok (say too_many_ops m)) _ (ground arith)
        (store_op-Sound none 0 m s)

  pop_bracket :
      (m : Machine)
      → IsSound ab ob m
      → IsSound ab ob (if at_base m then m else record m { ops = drop 1 m.ops })
  pop_bracket m s = ground (arith, length-drop 1 m.ops)

  pub close_bracket-Sound : (m : Machine) → IsSound ab ob m → Sound (close_bracket m)
  unfolding close_bracket
  close_bracket-Sound m s =
      Sound-bind (close_loop (length m.ops) m)
        (λ t. ok (if at_base t then t else record t { ops = drop 1 t.ops }))
        (close_loop-Sound (length m.ops) m s) pop_bracket

  check_ops :
      (m : Machine)
      → IsSound ab ob m
      → Sound (if length m.ops == 32 then reset_ops (say too_many_operators m) else ok m)
  check_ops m s =
      Sound-if (length m.ops == 32) (reset_ops (say too_many_operators m)) (ok m)
        (reset_ops-Sound (say too_many_operators m) s.argibase s.opibase s.args_above s.args_below)
        s

  push_op-Sound : (f : Operator) (p : ℕ) (m : Machine) → IsSound ab ob m → Sound (push_op f p m)
  unfolding push_op
  push_op-Sound f p m s =
      Sound-bind (store_op (some f) p m)
        (λ m2. if length m2.ops == 32 then reset_ops (say too_many_operators m2) else ok m2)
        (store_op-Sound (some f) p m s) check_ops

  pub doop-Sound : (f : Operator) (p : ℕ) (m : Machine) → IsSound ab ob m → Sound (doop f p m)
  unfolding doop
  doop-Sound f p m s =
      let m' : Machine = record m { lastwasop = true } in
      let s' : IsSound ab ob m' = ground arith in
      Sound-if (at_base m' || (p == 128)) (store_op (some f) p m') _
        (store_op-Sound (some f) p m' s')
        (Sound-bind (reduced p m') (push_op f p) (reduced-Sound p m' s') (push_op-Sound f p))

run_step-Sound : (ab ob : ℕ) (t : Step) (m : Machine) → IsSound ab ob m → Sound ab ob (run_step t m)
unfolding run_step drained
run_step-Sound ab ob (operand v f text) m s = stackarg-Sound ab ob v f text m s
run_step-Sound ab ob (operator f p) m s = doop-Sound ab ob f p m s
run_step-Sound ab ob opening m s = open_bracket-Sound ab ob m s
run_step-Sound ab ob closing m s = close_bracket-Sound ab ob m s
run_step-Sound ab ob ending m s = drain-Sound ab ob (length m.ops) m s

-- Whatever operands, operators and brackets come, a run without a fault leaves both bases where they were, both
-- tops at or above them, and fewer than 64 operands, so that the next operand is stored inside the arrays. Nothing
-- is said of the upper end of the operators' arrays.
pub run_steps-IsSound :
    (steps : List Step) (ab ob : ℕ) (m : Machine)
    → IsSound ab ob m
    → Partial (IsSound ab ob) (run_steps steps m)
unfolding run_steps
run_steps-IsSound [] ab ob m s = s
run_steps-IsSound (t ∷ ts) ab ob m s =
    Sound-bind ab ob (run_step t m) (run_steps ts) (run_step-Sound ab ob t m s)
      (λ m' s'. run_steps-IsSound ts ab ob m' s')
