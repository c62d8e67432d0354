-- ===== src/Exp/Machine/Ends.antt =====
-- The fuel of the calls that the evaluator of src/src/exp.c makes on its stacks.
use dasm_dillon_code_sourcef.Common.{
  ℕ, length, Option, zero, suc, Bool, true, false, List, [], ◌∷◌, none, some, if◌then◌else◌, Run,
  ok, fault, out_of_fuel, ◌>>=◌, Ended,
}
use dasm_dillon_code_sourcef.Asm.{Flags, no_flags}
use dasm_dillon_code_sourcef.Exp.Operators.{
  Operator, Message, apply_operator, takelsb, takemsb, negate, invert_, not_, mult, add_, sub_,
  greater, greatereq, smaller, smallereq, eqeq, noteq, xor_, and_, or_, div, mod_, question,
  shiftright, shiftleft, andand, oror,
}
use dasm_dillon_code_sourcef.Exp.Machine.{
  Machine, Op, Arg, reset_args, reset_ops, store_arg, call, finish_call, call_unary, call_binary,
  evaltop_with, settle, settled, stackarg, evaltop, reduce, reduced, drain, drained, store_op,
  push_op, doop, open_bracket, close_loop, close_bracket,
}

-- The run comes to an end.
pub data Stops {ℓ} {A : Type ℓ} (r : Run A) : Type 0 where
  stop : Ended (λ a. Unit) r → Stops r

pub Stops-bind {ℓ κ} :
    {A : Type ℓ} {B : Type κ} (r : Run A) (f : A → Run B)
    → Stops r
    → ((a : A) → Stops (f a))
    → Stops (r >>= f)
Stops-bind (ok a) f h k = k a
Stops-bind fault f h k = stop tt
Stops-bind out_of_fuel f (stop h) k = absurd h

pub Stops-if {ℓ} :
    {A : Type ℓ} (b : Bool) (x y : Run A) → Stops x → Stops y → Stops (if b then x else y)
Stops-if true x y h k = h
Stops-if false x y h k = k

reset_args-Stops : (m : Machine) → Stops (reset_args m)
unfolding reset_args
reset_args-Stops m = search (Stops-if, stop)

pub reset_ops-Stops : (m : Machine) → Stops (reset_ops m)
unfolding reset_ops
reset_ops-Stops m = search (Stops-if, stop)

store_arg-Stops : (a : Arg) (m : Machine) → Stops (store_arg a m)
unfolding store_arg
store_arg-Stops a m = search (Stops-if, stop, reset_args-Stops)

apply_operator-Stops :
    (f : Operator) (v1 v2 : ℕ) (f1 f2 : Flags) → Stops (apply_operator f v1 v2 f1 f2)
unfolding apply_operator
apply_operator-Stops takelsb v1 v2 f1 f2 = stop tt
apply_operator-Stops takemsb v1 v2 f1 f2 = stop tt
apply_operator-Stops negate v1 v2 f1 f2 = stop tt
apply_operator-Stops invert_ v1 v2 f1 f2 = stop tt
apply_operator-Stops not_ v1 v2 f1 f2 = stop tt
apply_operator-Stops mult v1 v2 f1 f2 = stop tt
apply_operator-Stops add_ v1 v2 f1 f2 = stop tt
apply_operator-Stops sub_ v1 v2 f1 f2 = stop tt
apply_operator-Stops greater v1 v2 f1 f2 = stop tt
apply_operator-Stops greatereq v1 v2 f1 f2 = stop tt
apply_operator-Stops smaller v1 v2 f1 f2 = stop tt
apply_operator-Stops smallereq v1 v2 f1 f2 = stop tt
apply_operator-Stops eqeq v1 v2 f1 f2 = stop tt
apply_operator-Stops noteq v1 v2 f1 f2 = stop tt
apply_operator-Stops xor_ v1 v2 f1 f2 = stop tt
apply_operator-Stops and_ v1 v2 f1 f2 = stop tt
apply_operator-Stops or_ v1 v2 f1 f2 = stop tt
apply_operator-Stops div v1 v2 f1 f2 = search (Stops-if, stop)
apply_operator-Stops mod_ v1 v2 f1 f2 = search (Stops-if, stop)
apply_operator-Stops question v1 v2 f1 f2 = search (Stops-if, stop)
apply_operator-Stops shiftright v1 v2 f1 f2 = search (Stops-if, stop)
apply_operator-Stops shiftleft v1 v2 f1 f2 = search (Stops-if, stop)
apply_operator-Stops andand v1 v2 f1 f2 = search (Stops-if, stop)
apply_operator-Stops oror v1 v2 f1 f2 = search (Stops-if, stop)

call-Stops : (o : Option Operator) (v1 v2 : ℕ) (f1 f2 : Flags) → Stops (call o v1 v2 f1 f2)
call-Stops none v1 v2 f1 f2 = stop tt
call-Stops (some f) v1 v2 f1 f2 = apply_operator-Stops f v1 v2 f1 f2

module _ (next : Machine → Run Machine) (stops : (m : Machine) → Stops (next m)) where
  finish_call-Stops : (m : Machine) (r : ℕ × Flags × List Message) → Stops (finish_call next m r)
  unfolding finish_call
  finish_call-Stops m (v, f, msgs) = Stops-bind (store_arg _ _) next (store_arg-Stops _ _) stops

  call_unary-Stops : (o : Op) (m : Machine) (l : List Arg) → Stops (call_unary next o m l)
  unfolding call_unary
  call_unary-Stops o m [] = stop tt
  call_unary-Stops o m (a ∷ rest) =
      Stops-bind (call o.dis a.value 0 a.flags no_flags) _ (call-Stops o.dis _ _ _ _)
        (finish_call-Stops (record m { args = rest }))

  call_binary-Stops : (o : Op) (m : Machine) (l : List Arg) → Stops (call_binary next o m l)
  unfolding call_binary
  call_binary-Stops o m [] = stop tt
  call_binary-Stops o m (b ∷ []) = stop tt
  call_binary-Stops o m (b ∷ a ∷ rest) =
      Stops-bind (call o.dis a.value b.value a.flags b.flags) _ (call-Stops o.dis _ _ _ _)
        (finish_call-Stops (record m { args = rest }))

  evaltop_with-Stops : (m : Machine) (l : List Op) → Stops (evaltop_with next m l)
  unfolding evaltop_with
  evaltop_with-Stops m [] = reset_ops-Stops _
  evaltop_with-Stops m (o ∷ os) =
      search (Stops-if, reset_ops-Stops, reset_args-Stops, call_unary-Stops, call_binary-Stops)

settle-Stops : (k : ℕ) (m : Machine) → Stops (settle k m)
unfolding settle
settle-Stops zero m = stop tt
settle-Stops (suc k) m =
    let round = evaltop_with-Stops (settle k) (settle-Stops k) m m.ops in
    let more = Stops-bind (evaltop_with (settle k) m m.ops) (settle k) round (settle-Stops k) in
    search (Stops-if, stop)

settled-Stops : (m : Machine) → Stops (settled m)
unfolding settled
settled-Stops m = settle-Stops _ m

pub stackarg-Stops : (v : ℕ) (f : Flags) (text : List ℕ) (m : Machine) → Stops (stackarg v f text m)
unfolding stackarg
stackarg-Stops v f text m = Stops-bind (store_arg _ m) settled (store_arg-Stops _ m) settled-Stops

evaltop-Stops : (m : Machine) → Stops (evaltop m)
unfolding evaltop
evaltop-Stops m = evaltop_with-Stops settled settled-Stops m m.ops

reduce-Stops : (k pri : ℕ) (m : Machine) → Stops (reduce k pri m)
unfolding reduce
reduce-Stops zero pri m = stop tt
reduce-Stops (suc k) pri m =
    let more = Stops-bind (evaltop m) (reduce k pri) (evaltop-Stops m) (reduce-Stops k pri) in
    search (Stops-if, stop)

drain-Stops : (k : ℕ) (m : Machine) → Stops (drain k m)
unfolding drain
drain-Stops zero m = stop tt
drain-Stops (suc k) m =
    let more = Stops-bind (evaltop m) (drain k) (evaltop-Stops m) (drain-Stops k) in
    search (Stops-if, stop)

pub drained-Stops : (m : Machine) → Stops (drained m)
unfolding drained
drained-Stops m = drain-Stops _ m

store_op-Stops : (f : Option Operator) (pri : ℕ) (m : Machine) → Stops (store_op f pri m)
unfolding store_op
store_op-Stops f pri m = search (Stops-if, stop)

push_op-Stops : (f : Operator) (pri : ℕ) (m : Machine) → Stops (push_op f pri m)
unfolding push_op
push_op-Stops f pri m =
    Stops-bind (store_op (some f) pri m) _ (store_op-Stops _ pri m)
      (λ m2. search (Stops-if, reset_ops-Stops, stop))

pub doop-Stops : (f : Operator) (pri : ℕ) (m : Machine) → Stops (doop f pri m)
unfolding doop reduced
doop-Stops f pri m =
    let m' = record m { lastwasop = true } in
    let more =
      Stops-bind (reduce (length m.ops) pri m') (push_op f pri) (reduce-Stops _ pri m')
        (push_op-Stops f pri) in
    search (Stops-if, store_op-Stops)

pub open_bracket-Stops : (m : Machine) → Stops (open_bracket m)
unfolding open_bracket
open_bracket-Stops m = search (Stops-if, store_op-Stops, stop)

close_loop-Stops : (k : ℕ) (m : Machine) → Stops (close_loop k m)
unfolding close_loop
close_loop-Stops zero m = stop tt
close_loop-Stops (suc k) m =
    let more = Stops-bind (evaltop m) (close_loop k) (evaltop-Stops m) (close_loop-Stops k) in
    search (Stops-if, stop)

pub close_bracket-Stops : (m : Machine) → Stops (close_bracket m)
unfolding close_bracket
close_bracket-Stops m = Stops-bind (close_loop _ m) _ (close_loop-Stops _ m) (λ m'. stop tt)
