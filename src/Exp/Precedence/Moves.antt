-- ===== src/Exp/Precedence/Moves.antt =====
-- What the evaluator of src/src/exp.c does at the states that a readable expression meets.
use dasm_dillon_code_sourcef.Common.{
  ℕ, suc, ◌+◌, ◌≤◌, ◌<◌, ◌≡◌, refl, true, false, List, [], ◌∷◌, ◌++◌, length, ap, sym, ◌∙◌, arith,
  Run, fault, out_of_fuel, ok, ◌>>=◌, bind_assoc, bind_congr_all, ◌⊎◌, none, Option, zero, drop,
  some, if◌then◌else◌, ◌==◌, Bool-cases, inl, inr, ltb, leb,
}
use dasm_dillon_code_sourcef.Asm.{Flags, no_flags}
use dasm_dillon_code_sourcef.Exp.Operators.{Operator, Message, apply_operator}
use dasm_dillon_code_sourcef.Exp.Machine.{
  open_bracket, close_bracket, close_loop, close_test, reduce, Machine, Arg, Op, Step, run_step,
  run_steps, reduced, reduce_test, doop, push_op, store_op, store_arg, make_arg, evaltop,
  evaltop_with, call_unary, call_binary, finish_call, settled, at_base,
}
use dasm_dillon_code_sourcef.Exp.Machine.Steps.{List-cases, reduced_idle}
use dasm_dillon_code_sourcef.Exp.Machine.Sound.{IsSound}
use dasm_dillon_code_sourcef.Exp.Machine.Blind.{marked}
use dasm_dillon_code_sourcef.Exp.Precedence.{apply_arg}

pub run_steps-append :
    (ss ts : List Step) (m : Machine) → run_steps (ss ++ ts) m ≡ (run_steps ss m >>= run_steps ts)
unfolding run_steps
run_steps-append [] ts m = refl
run_steps-append (s ∷ ss) ts m =
    bind_congr_all (run_step s m) (run_steps-append ss ts)
    ∙ sym (bind_assoc (run_step s m) (run_steps ss) (run_steps ts))

pub at_base-reduce_test : (p : ℕ) (m : Machine) → at_base m ≡ true → reduce_test p m ≡ false
unfolding reduce_test
at_base-reduce_test p m e = elim (List-cases m.ops) [ inl n ↦ rw n | inr (o, os, n) ↦ ground arith ]

-- `doop` as one loop and one store, below the last slot
pub doop-reduced :
    (f : Operator) (p ab ob : ℕ) (m : Machine)
    → p < 128
    → ob + 1 < 32
    → IsSound ab ob m
    → doop f p m ≡ (reduced p (marked m) >>= push_op f p)
unfolding doop push_op store_op
doop-reduced f p ab ob m hp room s = elim (Bool-cases (at_base m)) [
  | inl e ↦ rw (e, reduced_idle p (marked m) (at_base-reduce_test p (marked m) e)) (ground arith)
  | inr e ↦ let other : (p == 128) ≡ false = ground arith in rw (e, other)
]

-- the operand of a subtree, on top of the state in which the subtree began
unfoldable pub place : Machine → Arg × List Message → Run Machine
place m (a, log) = store_arg a (record m { log = log })

pub place_room :
    (m : Machine) (a : Arg) (log : List Message)
    → length m.args + 1 < 64
    → place m (a, log) ≡ ok (record m { args = a ∷ m.args; lastwasop = false; log = log })
unfolding place store_arg
place_room m a log h = ground arith

pub push_op_room :
    (f : Operator) (p : ℕ) (m : Machine)
    → length m.ops + 1 < 32
    → push_op f p m ≡ ok (record m { ops = record { dis = some f; pri = p } ∷ m.ops })
unfolding push_op store_op
push_op_room f p m h = ground arith

-- the tail of `evaltop`, as the value that the operator gives
finish_call-place :
    (m : Machine) (log : List Message) (r : Run (ℕ × Flags × List Message))
    → (r >>= finish_call settled (record m { lastwasop = false; log = log }))
      ≡ (((r >>= (λ (v, g, msgs). ok (make_arg v g [], msgs ++ log))) >>= place m) >>= settled)
unfolding finish_call place store_arg
finish_call-place m log (ok (v, g, msgs)) = refl
finish_call-place m log fault = refl
finish_call-place m log out_of_fuel = refl

-- `evaltop` with a unary operator and its operand on top
pub evaltop_unary :
    (f : Operator) (ab ob : ℕ) (m : Machine) (a : Arg) (log : List Message)
    → IsSound ab ob m
    → evaltop (record m {
      args = a ∷ m.args;
      ops = record { dis = some f; pri = 128 } ∷ m.ops;
      lastwasop = false;
      log = log;
    })
      ≡ ((apply_arg f a 0 no_flags log >>= place m) >>= settled)
unfolding evaltop evaltop_with call_unary apply_arg
evaltop_unary f ab ob m a log s =
    let above : leb (suc (length m.ops)) m.opibase ≡ false = ground arith in
    let enough : ltb (suc (length m.args)) (m.argibase + 1) ≡ false = ground arith in
    rw (above, enough) (finish_call-place m log (apply_operator f a.value 0 a.flags no_flags))

-- `evaltop` with a binary operator and its operands on top
pub evaltop_binary :
    (f : Operator) (p ab ob : ℕ) (m : Machine) (a b : Arg) (log : List Message)
    → p < 128
    → IsSound ab ob m
    → evaltop (record m {
      args = b ∷ a ∷ m.args;
      ops = record { dis = some f; pri = p } ∷ m.ops;
      lastwasop = false;
      log = log;
    })
      ≡ ((apply_arg f a b.value b.flags log >>= place m) >>= settled)
unfolding evaltop evaltop_with call_binary apply_arg
evaltop_binary f p ab ob m a b log hp s =
    let other : (p == 128) ≡ false = ground arith in
    let above : leb (suc (length m.ops)) m.opibase ≡ false = ground arith in
    let enough : ltb (suc (suc (length m.args))) (m.argibase + 2) ≡ false = ground arith in
    rw (above, other, enough)
      (finish_call-place m log (apply_operator f a.value b.value a.flags b.flags))

pub doop_unary :
    (f : Operator) (m : Machine)
    → length m.ops + 1 < 32
    → doop f 128 m
      ≡ ok (record m { ops = record { dis = some f; pri = 128 } ∷ m.ops; lastwasop = true })
unfolding doop store_op
doop_unary f m h = elim (Bool-cases (at_base m)) [
  | inl e ↦ rw e (ground arith)
  | inr e ↦ rw e (ground arith)
]

pub open_bracket_room :
    (m : Machine)
    → length m.ops + 1 < 32
    → open_bracket m ≡ ok (record m { ops = record { dis = none; pri = 0 } ∷ m.ops })
unfolding open_bracket store_op
open_bracket_room m h = ground arith

-- the pop of case ']'
abbrev pub pop_bracket : Machine → Run Machine
pop_bracket t = ok (if at_base t then t else record t { ops = drop 1 t.ops })

close_test-reduce_test : (m : Machine) → close_test m ≡ reduce_test 1 m
unfolding close_test reduce_test
close_test-reduce_test m = elim (List-cases m.ops) [ inl n ↦ rw n | inr (o, os, n) ↦ ground arith ]

close_loop-reduce : (k : ℕ) (m : Machine) → close_loop k m ≡ reduce k 1 m
unfolding close_loop reduce
close_loop-reduce zero m = refl
close_loop-reduce (suc k) m = rw close_test-reduce_test (
    ap (λ r. if reduce_test 1 m then r else ok m)
      (bind_congr_all (evaltop m) (close_loop-reduce k)))

-- case ']' is `doop`'s loop at priority 1, and the pop
pub close_bracket-reduced : (m : Machine) → close_bracket m ≡ (reduced 1 m >>= pop_bracket)
unfolding close_bracket reduced
close_bracket-reduced m = ap (λ r. r >>= pop_bracket) (close_loop-reduce (length m.ops) m)

-- an operator of at least priority `p` on top goes first
pub reduce_test_top :
    (f : Operator) (q p ab ob : ℕ) (m : Machine) (stack : List Arg) (log : List Message)
    → IsSound ab ob m
    → 0 < q
    → p ≤ q
    → reduce_test p (record m {
      args = stack;
      ops = record { dis = some f; pri = q } ∷ m.ops;
      lastwasop = false;
      log = log;
    })
      ≡ true
unfolding reduce_test
reduce_test_top f q p ab ob m stack log s lo h = ground arith

-- one of a lower priority, and a bracket, wait
pub reduce_test_wait :
    (d : Option Operator) (q p : ℕ) (m : Machine)
    → (q < p) ⊎ (q ≡ 0)
    → reduce_test p (record m { ops = record { dis = d; pri = q } ∷ m.ops }) ≡ false
unfolding reduce_test
reduce_test_wait d q p m h = ground arith

pub IsSound-push :
    (o : Op) (ab ob : ℕ) (m : Machine)
    → IsSound ab ob m
    → length m.ops + 1 < 32
    → IsSound ab ob (record m { ops = o ∷ m.ops })
IsSound-push o ab ob m s h = ground arith

-- what stops the loop at one priority stops it at every higher one
pub reduce_test_mono :
    (p q : ℕ) (m : Machine) → p ≤ q → reduce_test p m ≡ false → reduce_test q m ≡ false
unfolding reduce_test
reduce_test_mono p q m h e = elim (List-cases m.ops) [
  | inl n ↦ rw n
  | inr (o, os, n) ↦ ground arith
]
