-- ===== src/Exp/Machine/Blind.antt =====
-- `Lastwasop` is written by `stackarg` and `doop` of src/src/exp.c and read by neither: what the stacks
-- hold after a step does not depend on it.
use dasm_dillon_code_sourcef.Common.{
  ℕ, zero, suc, ◌+◌, ◌≡◌, refl, Bool, true, false, List, [], ◌∷◌, length, sym, ◌∙◌, ap, Run, ok,
  ◌>>=◌, bind_assoc, Bool-cases, inl, inr, leb, ltb, ◌==◌, drop, Option, none, some, if◌then◌else◌,
  bind_congr_all,
}
use dasm_dillon_code_sourcef.Exp.Machine.{
  drained, push_op, Machine, Op, settle, settled, evaltop, evaltop_with, unary_on_top, reduce,
  reduced, reduce_test, at_base, close_test, close_loop, stackarg, drain, Step, operand, operator,
  opening, closing, ending, run_step, run_steps, reset_args, reset_ops, say, store_op, call_unary,
  call_binary, open_bracket, close_bracket, Arg, store_arg, finish_call, doop,
}
use dasm_dillon_code_sourcef.Asm.{Flags}
use dasm_dillon_code_sourcef.Exp.Operators.{Operator, syntax_none, too_many_operators}

-- the state with `Lastwasop` set
abbrev pub marked : Machine → Machine
marked m = record m { lastwasop = true }

abbrev pub seen : Machine → Run Machine
seen m = ok (marked m)

abbrev pub Blind : (Machine → Run Machine) → Type 0
Blind f = (m : Machine) → (f (marked m) >>= seen) ≡ (f m >>= seen)

pub Blind-then : (f g : Machine → Run Machine) → Blind f → Blind g → Blind (λ m. f m >>= g)
Blind-then f g bf bg m =
    bind_assoc (f (marked m)) g seen
    ∙ bind_congr_all (f (marked m)) (λ t. sym (bg t))
    ∙ sym (bind_assoc (f (marked m)) seen (λ t. g t >>= seen))
    ∙ ap (λ r. r >>= (λ t. g t >>= seen)) (bf m)
    ∙ bind_assoc (f m) seen (λ t. g t >>= seen)
    ∙ bind_congr_all (f m) bg
    ∙ sym (bind_assoc (f m) g seen)

pub Blind-if :
    (b : Bool) (x y x' y' : Run Machine)
    → (x >>= seen) ≡ (x' >>= seen)
    → (y >>= seen) ≡ (y' >>= seen)
    → ((if b then x else y) >>= seen) ≡ ((if b then x' else y') >>= seen)
Blind-if true x y x' y' h k = h
Blind-if false x y x' y' h k = k

reset_args-Blind : Blind reset_args
unfolding reset_args
reset_args-Blind m = Blind-if (leb m.argibase (length m.args)) _ _ _ _ refl refl

reset_ops-Blind : Blind reset_ops
unfolding reset_ops
reset_ops-Blind m = Blind-if (leb m.opibase (length m.ops)) _ _ _ _ refl refl

call_unary-Blind :
    (next : Machine → Run Machine) (o : Op) (m : Machine) (rest : List Arg)
    → call_unary next o (marked m) rest ≡ call_unary next o m rest
unfolding call_unary finish_call store_arg
call_unary-Blind next o m [] = refl
call_unary-Blind next o m (a ∷ rest) = refl

call_binary-Blind :
    (next : Machine → Run Machine) (o : Op) (m : Machine) (rest : List Arg)
    → call_binary next o (marked m) rest ≡ call_binary next o m rest
unfolding call_binary finish_call store_arg
call_binary-Blind next o m [] = refl
call_binary-Blind next o m (a ∷ []) = refl
call_binary-Blind next o m (b ∷ a ∷ rest) = refl

-- `evaltop` on the operators of any state
pub evaltop_with-Blind :
    (next : Machine → Run Machine) (m : Machine) (os : List Op)
    → (evaltop_with next (marked m) os >>= seen) ≡ (evaltop_with next m os >>= seen)
unfolding evaltop_with
evaltop_with-Blind next m [] = reset_ops-Blind (say syntax_none m)
evaltop_with-Blind next m (o ∷ os) =
    let m' : Machine = record m { ops = os } in
    Blind-if (leb (length m.ops) m.opibase) _ _ _ _ (reset_ops-Blind (say syntax_none m)) (
      Blind-if (o.pri == 128) _ _ _ _
        (Blind-if (ltb (length m.args) (m.argibase + 1)) _ _ _ _
          (reset_args-Blind (say syntax_none m'))
          (ap (λ r. r >>= seen) (call_unary-Blind next o m' m.args)))
        (Blind-if (ltb (length m.args) (m.argibase + 2)) _ _ _ _
          (reset_args-Blind (say syntax_none m'))
          (ap (λ r. r >>= seen) (call_binary-Blind next o m' m.args))))

settle-Blind : (k : ℕ) → Blind (settle k)
unfolding settle unary_on_top
settle-Blind zero m = refl
settle-Blind (suc k) m =
    Blind-if (unary_on_top m) _ (ok (marked m)) _ (ok m)
      (Blind-then (λ t. evaltop_with (settle k) t t.ops) (settle k)
        (λ t. evaltop_with-Blind (settle k) t t.ops) (settle-Blind k) m)
      refl

pub settled-Blind : Blind settled
unfolding settled
settled-Blind m = settle-Blind (length m.ops) m

pub evaltop-Blind : Blind evaltop
unfolding evaltop
evaltop-Blind m = evaltop_with-Blind settled m m.ops

reduce-Blind : (k p : ℕ) → Blind (reduce k p)
unfolding reduce reduce_test
reduce-Blind zero p m = refl
reduce-Blind (suc k) p m =
    Blind-if (reduce_test p m) _ (ok (marked m)) _ (ok m)
      (Blind-then evaltop (reduce k p) evaltop-Blind (reduce-Blind k p) m) refl

pub reduced-Blind : (p : ℕ) → Blind (reduced p)
unfolding reduced
reduced-Blind p m = reduce-Blind (length m.ops) p m

close_loop-Blind : (k : ℕ) → Blind (close_loop k)
unfolding close_loop close_test
close_loop-Blind zero m = refl
close_loop-Blind (suc k) m =
    Blind-if (close_test m) _ _ _ _
      (Blind-then evaltop (close_loop k) evaltop-Blind (close_loop-Blind k) m) refl

pub store_op-Blind : (f : Option Operator) (p : ℕ) → Blind (store_op f p)
unfolding store_op
store_op-Blind f p m = Blind-if (ltb (length m.ops) 32) _ _ _ _ refl refl

pub open_bracket-Blind : Blind open_bracket
unfolding open_bracket
open_bracket-Blind m = Blind-if (length m.ops == 32) _ _ _ _ refl (store_op-Blind none 0 m)

pub pop_bracket-Blind : Blind (λ t. ok (if at_base t then t else record t { ops = drop 1 t.ops }))
pop_bracket-Blind t =
    ap (λ (r : Machine). ok r) (elim (Bool-cases (at_base t)) [ inl e ↦ rw e | inr e ↦ rw e ])

pub close_bracket-Blind : Blind close_bracket
unfolding close_bracket
close_bracket-Blind m =
    Blind-then (close_loop (length m.ops))
      (λ t. ok (if at_base t then t else record t { ops = drop 1 t.ops }))
      (close_loop-Blind (length m.ops)) pop_bracket-Blind m

pub doop-Blind : (f : Operator) (p : ℕ) → Blind (doop f p)
unfolding doop
doop-Blind f p m = refl

pub stackarg-Blind : (v : ℕ) (f : Flags) (text : List ℕ) → Blind (stackarg v f text)
unfolding stackarg store_arg
stackarg-Blind v f text m = refl

pub push_op-Blind : (f : Operator) (p : ℕ) → Blind (push_op f p)
unfolding push_op
push_op-Blind f p =
    Blind-then (store_op (some f) p)
      (λ t. if length t.ops == 32 then reset_ops (say too_many_operators t) else ok t)
      (store_op-Blind (some f) p)
      (λ t.
        Blind-if (length t.ops == 32) _ (ok (marked t)) _ (ok t)
          (reset_ops-Blind (say too_many_operators t)) refl)

drain-Blind : (k : ℕ) → Blind (drain k)
unfolding drain
drain-Blind zero m = refl
drain-Blind (suc k) m =
    Blind-if (at_base m) (ok (marked m)) _ (ok m) _ refl
      (Blind-then evaltop (drain k) evaltop-Blind (drain-Blind k) m)

pub drained-Blind : Blind drained
unfolding drained
drained-Blind m = drain-Blind (length m.ops) m

run_step-Blind : (t : Step) → Blind (run_step t)
unfolding run_step drained
run_step-Blind (operand v f text) m = stackarg-Blind v f text m
run_step-Blind (operator f p) m = doop-Blind f p m
run_step-Blind opening m = open_bracket-Blind m
run_step-Blind closing m = close_bracket-Blind m
run_step-Blind ending m = drain-Blind (length m.ops) m

pub run_steps-Blind : (ts : List Step) → Blind (run_steps ts)
unfolding run_steps
run_steps-Blind [] m = refl
run_steps-Blind (t ∷ ts) m =
    Blind-then (run_step t) (run_steps ts) (run_step-Blind t) (run_steps-Blind ts) m

-- Runs that agree but for `Lastwasop` agree after a step that does not read it.
pub Blind-agree :
    (r r' : Run Machine) (f : Machine → Run Machine)
    → Blind f
    → (r >>= seen) ≡ (r' >>= seen)
    → ((r >>= f) >>= seen) ≡ ((r' >>= f) >>= seen)
Blind-agree r r' f blind h = through r ∙ ap (λ x. x >>= (λ t. f t >>= seen)) h ∙ sym (through r')
  where
    through : (x : Run Machine) → ((x >>= f) >>= seen) ≡ ((x >>= seen) >>= (λ t. f t >>= seen))
    through x =
        bind_assoc x f seen
        ∙ bind_congr_all x (λ t. sym (blind t))
        ∙ sym (bind_assoc x seen (λ t. f t >>= seen))
