-- ===== src/Exp/Machine/Loops.antt =====
-- The evaluation loops of src/src/exp.c end: each `evaltop` takes an operator away, so more rounds
-- than there are operators change nothing.
use dasm_dillon_code_sourcef.Common.{
  ℕ, ◌-◌, ◌≤◌, ◌≡◌, refl, false, List, [], ◌∷◌, ◌++◌, length, ap, length-drop, leb, arith, Run, ok,
  fault, out_of_fuel, ◌>>=◌, Partial, bind_congr, Partial-bind, Bool-cases, inl, inr,
}
use dasm_dillon_code_sourcef.Asm.{Flags, no_flags}
use dasm_dillon_code_sourcef.Exp.Operators.{syntax_none, Message}
use dasm_dillon_code_sourcef.Exp.Machine.{
  finish_call, call_unary, call_binary, call, at_base, say, make_arg, Machine, Op, Arg,
  evaltop_with, reset_args, reset_ops, store_arg,
}

-- If the run ends, at most `n` operators are left.
abbrev pub Keeps : ℕ → Run Machine → Type 0
Keeps n r = Partial (λ m. length m.ops ≤ n) r

reset_args-Keeps : (n : ℕ) (m : Machine) → length m.ops ≤ n → Keeps n (reset_args m)
unfolding reset_args
reset_args-Keeps n m h = ground arith

reset_ops-Keeps : (n : ℕ) (m : Machine) → length m.ops ≤ n → Keeps n (reset_ops m)
unfolding reset_ops
reset_ops-Keeps n m h = elim (Bool-cases (leb m.opibase (length m.ops))) [
  | inl e ↦ rw e (omega (arith, length-drop (length m.ops - m.opibase) m.ops))
  | inr e ↦ rw e tt
]

pub store_arg-Keeps : (a : Arg) (n : ℕ) (m : Machine) → length m.ops ≤ n → Keeps n (store_arg a m)
unfolding store_arg reset_args
store_arg-Keeps a n m h = ground arith

-- a continuation that adds no operators
abbrev pub Shrinks : (Machine → Run Machine) → Type 0
Shrinks next = (n : ℕ) (m : Machine) → length m.ops ≤ n → Keeps n (next m)

module _ (next : Machine → Run Machine) (shrinks : Shrinks next) where
  finish_call-Keeps :
      (n : ℕ) (m : Machine) (r : ℕ × Flags × List Message)
      → length m.ops ≤ n
      → Keeps n (finish_call next m r)
  unfolding finish_call
  finish_call-Keeps n m (v, f, msgs) h =
      let m' : Machine = record m { log = msgs ++ m.log } in
      Partial-bind (λ t. length t.ops ≤ n) (λ t. length t.ops ≤ n) (store_arg (make_arg v f []) m')
        next (store_arg-Keeps (make_arg v f []) n m' h) (shrinks n)

  call-Keeps :
      (r : Run (ℕ × Flags × List Message)) (n : ℕ) (m : Machine)
      → length m.ops ≤ n
      → Keeps n (r >>= finish_call next m)
  call-Keeps (ok r) n m h = finish_call-Keeps n m r h
  call-Keeps fault n m h = tt
  call-Keeps out_of_fuel n m h = tt

  call_unary-Keeps :
      (o : Op) (n : ℕ) (m : Machine) (rest : List Arg)
      → length m.ops ≤ n
      → Keeps n (call_unary next o m rest)
  unfolding call_unary
  call_unary-Keeps o n m [] h = tt
  call_unary-Keeps o n m (a ∷ rest) h =
      call-Keeps (call o.dis a.value 0 a.flags no_flags) n (record m { args = rest }) h

  call_binary-Keeps :
      (o : Op) (n : ℕ) (m : Machine) (rest : List Arg)
      → length m.ops ≤ n
      → Keeps n (call_binary next o m rest)
  unfolding call_binary
  call_binary-Keeps o n m [] h = tt
  call_binary-Keeps o n m (a ∷ []) h = tt
  call_binary-Keeps o n m (b ∷ a ∷ rest) h =
      call-Keeps (call o.dis a.value b.value a.flags b.flags) n (record m { args = rest }) h

  -- Away from the base, `evaltop` takes one operator away.
  pub evaltop_with-Keeps :
      (n : ℕ) (m : Machine) (o : Op) (os : List Op)
      → m.ops ≡ o ∷ os
      → at_base m ≡ false
      → length os ≤ n
      → Keeps n (evaltop_with next m (o ∷ os))
  unfolding evaltop_with reset_ops
  evaltop_with-Keeps n m o os e above h = ground (
    arith,
    reset_args-Keeps n (say syntax_none (record m { ops = os })),
    call_unary-Keeps o n (record m { ops = os }) m.args,
    call_binary-Keeps o n (record m { ops = os }) m.args,
  )

  -- In every state `evaltop` adds no operators.
  pub evaltop_with-Shrinks :
      (n : ℕ) (m : Machine) (os : List Op)
      → m.ops ≡ os
      → length m.ops ≤ n
      → Keeps n (evaltop_with next m os)
  unfolding evaltop_with
  evaltop_with-Shrinks n m [] e h = reset_ops-Keeps n (say syntax_none m) h
  evaltop_with-Shrinks n m (o ∷ os) e h = elim (Bool-cases (at_base m)) [
    | inl b ↦ ground (arith, reset_ops-Keeps n (say syntax_none m))
    | inr b ↦ evaltop_with-Keeps n m o os e b (omega (arith, ap length e))
  ]

-- Two continuations that agree where `evaltop` can call them.
module _ (next next' : Machine → Run Machine) (n : ℕ)
    (agree : (m : Machine) → length m.ops ≤ n → next m ≡ next' m) where
  finish_call_congr :
      (m : Machine) (r : ℕ × Flags × List Message)
      → length m.ops ≤ n
      → finish_call next m r ≡ finish_call next' m r
  unfolding finish_call
  finish_call_congr m (v, f, msgs) h =
      let m' : Machine = record m { log = msgs ++ m.log } in
      bind_congr (λ t. length t.ops ≤ n) (store_arg (make_arg v f []) m') next next'
        (store_arg-Keeps (make_arg v f []) n m' h) agree

  call_congr :
      (r : Run (ℕ × Flags × List Message)) (m : Machine)
      → length m.ops ≤ n
      → (r >>= finish_call next m) ≡ (r >>= finish_call next' m)
  call_congr (ok r) m h = finish_call_congr m r h
  call_congr fault m h = refl
  call_congr out_of_fuel m h = refl

  call_unary_congr :
      (o : Op) (m : Machine) (rest : List Arg)
      → length m.ops ≤ n
      → call_unary next o m rest ≡ call_unary next' o m rest
  unfolding call_unary
  call_unary_congr o m [] h = refl
  call_unary_congr o m (a ∷ rest) h =
      call_congr (call o.dis a.value 0 a.flags no_flags) (record m { args = rest }) h

  call_binary_congr :
      (o : Op) (m : Machine) (rest : List Arg)
      → length m.ops ≤ n
      → call_binary next o m rest ≡ call_binary next' o m rest
  unfolding call_binary
  call_binary_congr o m [] h = refl
  call_binary_congr o m (a ∷ []) h = refl
  call_binary_congr o m (b ∷ a ∷ rest) h =
      call_congr (call o.dis a.value b.value a.flags b.flags) (record m { args = rest }) h

  pub evaltop_with_congr :
      (m : Machine) (o : Op) (os : List Op)
      → length os ≤ n
      → evaltop_with next m (o ∷ os) ≡ evaltop_with next' m (o ∷ os)
  unfolding evaltop_with
  evaltop_with_congr m o os h = rw (
    call_unary_congr o (record m { ops = os }) m.args h,
    call_binary_congr o (record m { ops = os }) m.args h,
  )
