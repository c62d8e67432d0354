-- ===== src/Exp/Precedence/Value.antt =====
-- The value that src/src/exp.c gives to the text of an expression.
use dasm_dillon_code_sourcef.Common.{
  ℕ, ◌+◌, ◌<◌, ◌≡◌, refl, true, false, List, [], ◌∷◌, ◌++◌, length, ap, sym, ◌∙◌, arith, Run, fault,
  out_of_fuel, ok, ◌>>=◌, bind_assoc, bind_congr, bind_congr_all, bind_ok,
}
use dasm_dillon_code_sourcef.Exp.Operators.{Message}
use dasm_dillon_code_sourcef.Exp.Machine.{
  Machine, Arg, run_step, run_steps, ending, reduced, at_base, drained,
}
use dasm_dillon_code_sourcef.Exp.Machine.Steps.{reduced_idle}
use dasm_dillon_code_sourcef.Exp.Machine.Drain.{drained_idle, drained-reduced}
use dasm_dillon_code_sourcef.Exp.Machine.Sound.{IsSound, run_steps-IsSound}
use dasm_dillon_code_sourcef.Exp.Machine.Blind.{seen, drained-Blind, Blind-agree}
use dasm_dillon_code_sourcef.Exp.Precedence.{
  Expr, literal, unary, binary, group, level, IsReadable, steps, ops_depth, args_depth, evaluate,
}
use dasm_dillon_code_sourcef.Exp.Precedence.Moves.{
  run_steps-append, place, place_room, at_base-reduce_test,
}
use dasm_dillon_code_sourcef.Exp.Precedence.Correct.{
  Reads, literal-Reads, unary-Reads, binary-Reads, group-Reads, args_depth_pos, level_pos,
}

readable-Reads : (e : Expr) → IsReadable e → Reads e
readable-Reads (literal v f) h = literal-Reads v f
readable-Reads (unary f e) h = unary-Reads f e h.0 (readable-Reads e h.1)
readable-Reads (binary f l r) h =
    binary-Reads f l r h.0 h.1 (readable-Reads l h.2) (readable-Reads r h.3)
readable-Reads (group e) h = group-Reads e (readable-Reads e h)

-- the state with the value of an expression on top
abbrev pub finished : Machine → Run (Arg × List Message) → Run Machine
finished m r = r >>= (λ (a, log). seen (record m { args = a ∷ m.args; log = log }))

drained_value :
    (m : Machine) (x : Run (Arg × List Message))
    → at_base m ≡ true
    → length m.args + 1 < 64
    → ((((x >>= place m) >>= reduced 1) >>= drained) >>= seen) ≡ finished m x
drained_value m fault e room = refl
drained_value m out_of_fuel e room = refl
drained_value m (ok (a, log)) e room =
    let m2 : Machine = record m { args = a ∷ m.args; lastwasop = false; log = log } in
    ap (λ r. ((r >>= reduced 1) >>= drained) >>= seen) (place_room m a log room)
    ∙ ap (λ r. (r >>= drained) >>= seen) (reduced_idle 1 m2 (at_base-reduce_test 1 m2 e))
    ∙ ap (λ r. r >>= seen) (drained_idle m2 e)

run_ending : (x : Run Machine) → (x >>= run_steps (ending ∷ [])) ≡ (x >>= drained)
unfolding run_steps run_step
run_ending x = bind_congr_all x (λ t. bind_ok (drained t))

-- The steps of a readable expression's text, run from the base of an `eval` with room on both stacks and
-- finished by the last loop, push exactly the tree's value: operators of a higher priority are applied
-- first, those of one priority from left to right, and brackets and unary operators bind tightest. Nothing
-- else changes but the diagnostics that the operators give, and `Lastwasop`, which is not compared. A
-- division that the C standard leaves undefined is a fault on both sides.
pub expression_value :
    (e : Expr) (ab ob : ℕ) (m : Machine)
    → IsReadable e
    → IsSound ab ob m
    → at_base m ≡ true
    → length m.ops + ops_depth e + 1 < 32
    → length m.args + args_depth e < 64
    → (run_steps (steps e ++ ending ∷ []) m >>= seen) ≡ finished m (evaluate e m.log)
expression_value e ab ob m readable s base room1 room2 =
    let x = run_steps (steps e) m in
    ap (λ r. r >>= seen)
      (run_steps-append (steps e) (ending ∷ []) m
        ∙ run_ending x
        ∙ sym (
            bind_congr (IsSound ab ob) x (λ t. reduced 1 t >>= drained) drained
              (run_steps-IsSound (steps e) ab ob m s) (drained-reduced ab ob 1))
        ∙ sym (bind_assoc x (reduced 1) drained))
    ∙ Blind-agree (x >>= reduced 1) ((evaluate e m.log >>= place m) >>= reduced 1) drained
        drained-Blind
        (readable-Reads e readable 1 ab ob m s (omega arith) (omega arith) (level_pos e)
          (at_base-reduce_test (level e) m base) room1 room2)
    ∙ drained_value m (evaluate e m.log) base (omega (arith, args_depth_pos e))
