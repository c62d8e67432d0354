-- ===== src/Exp/Precedence/Correct.antt =====
-- The evaluator of src/src/exp.c gives an expression the value of its tree.
use dasm_dillon_code_sourcef.Common.{
  ℕ, ◌+◌, ◌≤◌, ◌<◌, ◌≡◌, refl, Bool, true, false, List, [], ◌∷◌, ◌++◌, length, ap, sym, ◌∙◌, arith,
  Run, fault, out_of_fuel, ok, ◌>>=◌, bind_assoc, bind_congr, bind_congr_all, bind_ok, inl, inr,
  some, none, if◌then◌else◌,
}
use dasm_dillon_code_sourcef.Asm.{Flags, no_flags}
use dasm_dillon_code_sourcef.Exp.Operators.{Operator, mult, Message}
use dasm_dillon_code_sourcef.Exp.Machine.{
  Machine, Arg, run_step, run_steps, operator, closing, reduced, reduce_test, doop, push_op,
  store_arg, make_arg, settled, at_base, stackarg, close_bracket,
}
use dasm_dillon_code_sourcef.Exp.Machine.Steps.{reduced_idle, reduced_step, reduced-settled}
use dasm_dillon_code_sourcef.Exp.Machine.Sound.{IsSound, run_steps-IsSound}
use dasm_dillon_code_sourcef.Exp.Machine.Blind.{
  marked, seen, pop_bracket-Blind, Blind, Blind-then, Blind-agree, reduced-Blind, push_op-Blind,
  run_steps-Blind,
}
use dasm_dillon_code_sourcef.Exp.Precedence.{
  Expr, literal, unary, binary, group, level, priority, steps, ops_depth, args_depth, evaluate,
  apply_arg,
}
use dasm_dillon_code_sourcef.Exp.Precedence.Moves.{
  run_steps-append, doop-reduced, place, place_room, push_op_room, evaltop_unary, evaltop_binary,
  doop_unary, open_bracket_room, pop_bracket, close_bracket-reduced, reduce_test_top,
  reduce_test_wait, reduce_test_mono, IsSound-push,
}

-- Reading the tree's text, and then what the next operator of priority `p` makes of it, is placing the
-- tree's value and going on.
abbrev pub Reads : Expr → Type 0
Reads e =
    (p ab ob : ℕ) (m : Machine)
    → IsSound ab ob m
    → 0 < p
    → p ≤ 128
    → p ≤ level e
    → reduce_test (level e) m ≡ false
    → length m.ops + ops_depth e + 1 < 32
    → length m.args + args_depth e < 64
    → ((run_steps (steps e) m >>= reduced p) >>= seen)
      ≡ (((evaluate e m.log >>= place m) >>= reduced p) >>= seen)

-- after the settling loop of `stackarg` the loop of `doop` goes on
settled-reduced :
    (r : Run Machine) (p : ℕ) → p ≤ 128 → ((r >>= settled) >>= reduced p) ≡ (r >>= reduced p)
settled-reduced r p h =
    bind_assoc r settled (reduced p) ∙ bind_congr_all r (λ m. reduced-settled p m h)

pub args_depth_pos : (e : Expr) → 0 < args_depth e
unfolding args_depth
args_depth_pos (literal v f) = omega arith
args_depth_pos (unary f e) = args_depth_pos e
args_depth_pos (binary f l r) = omega arith
args_depth_pos (group e) = args_depth_pos e

pub literal-Reads : (v : ℕ) (f : Flags) → Reads (literal v f)
unfolding steps run_steps run_step stackarg evaluate place level
literal-Reads v f p ab ob m s lo hi lv below room1 room2 =
    ap (λ r. r >>= seen)
      (ap (λ r. r >>= reduced p) (bind_ok (stackarg v f [] m))
        ∙ settled-reduced (store_arg (make_arg v f []) m) p hi)

-- The unary operator waits for its operand, and is applied to it.
unary_applied :
    (f : Operator) (p ab ob : ℕ) (m : Machine) (r : Run (Arg × List Message))
    → IsSound ab ob m
    → p ≤ 128
    → length m.args + 1 < 64
    → ((r
          >>= place
              (record m { ops = record { dis = some f; pri = 128 } ∷ m.ops; lastwasop = true }))
        >>= reduced p)
      ≡ (((r >>= (λ (a, log). apply_arg f a 0 no_flags log)) >>= place m) >>= reduced p)
unary_applied f p ab ob m fault s hi room = refl
unary_applied f p ab ob m out_of_fuel s hi room = refl
unary_applied f p ab ob m (ok (a, log)) s hi room =
    ap (λ r. r >>= reduced p)
      (place_room (record m { ops = record { dis = some f; pri = 128 } ∷ m.ops; lastwasop = true })
        a log room)
    ∙ reduced_step p _ (reduce_test_top f 128 p ab ob m (a ∷ m.args) log s (omega arith) hi)
    ∙ ap (λ r. r >>= reduced p) (evaltop_unary f ab ob m a log s)
    ∙ settled-reduced (apply_arg f a 0 no_flags log >>= place m) p hi

pub unary-Reads : (f : Operator) (e : Expr) → 128 < level e → Reads e → Reads (unary f e)
unfolding steps run_steps run_step evaluate level ops_depth args_depth
unary-Reads f e tight ih p ab ob m s lo hi lv below room1 room2 =
    let m1 : Machine = record m {
      ops = record { dis = some f; pri = 128 } ∷ m.ops;
      lastwasop = true;
    } in
    ap (λ r. ((r >>= run_steps (steps e)) >>= reduced p) >>= seen) (doop_unary f m (omega arith))
    ∙ ih p ab ob m1 (ground arith) lo hi (omega arith)
        (reduce_test_wait (some f) 128 (level e) (record m { lastwasop = true }) (inl tight))
        (omega arith) room2
    ∙ ap (λ r. r >>= seen)
        (unary_applied f p ab ob m (evaluate e m.log) s hi (omega (arith, args_depth_pos e)))

-- Both operands are there: the operator is applied when the loop comes to it.
binary_applied :
    (f : Operator) (q p ab ob : ℕ) (m : Machine) (a : Arg) (log : List Message)
    (r : Run (Arg × List Message))
    → IsSound ab ob m
    → 0 < q
    → q < 128
    → p ≤ q
    → length m.args + 2 < 64
    → ((r
          >>= place (record m {
            args = a ∷ m.args;
            ops = record { dis = some f; pri = q } ∷ m.ops;
            lastwasop = false;
            log = log;
          }))
        >>= reduced p)
      ≡ (((r >>= (λ (b, log'). apply_arg f a b.value b.flags log')) >>= place m) >>= reduced p)
binary_applied f q p ab ob m a log fault s lo hq hp room = refl
binary_applied f q p ab ob m a log out_of_fuel s lo hq hp room = refl
binary_applied f q p ab ob m a log (ok (b, log')) s lo hq hp room =
    ap (λ r. r >>= reduced p)
      (place_room
        (record m {
          args = a ∷ m.args;
          ops = record { dis = some f; pri = q } ∷ m.ops;
          lastwasop = false;
          log = log;
        })
        b log' (omega arith))
    ∙ reduced_step p _ (reduce_test_top f q p ab ob m (b ∷ a ∷ m.args) log' s lo hp)
    ∙ ap (λ r. r >>= reduced p) (evaltop_binary f q ab ob m a b log' hq s)
    ∙ settled-reduced (apply_arg f a b.value b.flags log' >>= place m) p (omega arith)

priority_range : (f : Operator) → (0 < priority f) × (priority f < 128)
unfolding priority
priority_range mult = omega arith
priority_range _ = omega arith

module _ (f : Operator) (l r : Expr) (loose : priority f ≤ level l) (tight : priority f < level r)
    (ih_l : Reads l) (ih_r : Reads r) where
  -- the operator and the right operand, with the left operand's value in place
  right_operand :
      (p ab ob : ℕ) (m : Machine) (a : Arg) (log : List Message)
      → IsSound ab ob m
      → 0 < p
      → p ≤ priority f
      → reduce_test (priority f) m ≡ false
      → length m.ops + ops_depth r + 2 < 32
      → length m.args + args_depth r + 1 < 64
      → ((((place m (a, log) >>= reduced (priority f)) >>= push_op f (priority f))
              >>= run_steps (steps r))
            >>= reduced p)
          >>= seen
        ≡ ((((evaluate r log >>= (λ (b, log'). apply_arg f a b.value b.flags log')) >>= place m)
              >>= reduced p)
            >>= seen)
  unfolding reduce_test
  right_operand p ab ob m a log s lo hp below room1 room2 =
      let q = priority f in
      let m_a : Machine = record m { args = a ∷ m.args; lastwasop = false; log = log } in
      let m_f : Machine = record m_a { ops = record { dis = some f; pri = q } ∷ m.ops } in
      let deep = args_depth_pos r in
      ap
        (λ x.
          ((((x >>= reduced q) >>= push_op f q) >>= run_steps (steps r)) >>= reduced p) >>= seen)
        (place_room m a log (omega arith))
      ∙ ap (λ x. (((x >>= push_op f q) >>= run_steps (steps r)) >>= reduced p) >>= seen)
          (reduced_idle q m_a below)
      ∙ ap (λ x. ((x >>= run_steps (steps r)) >>= reduced p) >>= seen)
          (push_op_room f q m_a (omega arith))
      ∙ ih_r p ab ob m_f (ground arith) lo (omega (arith, priority_range f)) (omega arith)
          (reduce_test_wait (some f) q (level r) m_a (inl tight)) (omega arith) (omega arith)
      ∙ ap (λ x. x >>= seen)
          (binary_applied f q p ab ob m a log (evaluate r log) s (priority_range f).0
            (priority_range f).1 hp (omega arith))

  -- what follows the left operand: the operator, the right operand and the loop of what comes next
  rest : ℕ → Machine → Run Machine
  rest p t = (push_op f (priority f) t >>= run_steps (steps r)) >>= reduced p

  rest_assoc :
      (p : ℕ) (x : Run Machine)
      → (x >>= rest p) ≡ (((x >>= push_op f (priority f)) >>= run_steps (steps r)) >>= reduced p)
  unfolding rest
  rest_assoc p (ok t) = refl
  rest_assoc p fault = refl
  rest_assoc p out_of_fuel = refl

  rest-Blind : (p : ℕ) → Blind (rest p)
  unfolding rest
  rest-Blind p =
      Blind-then (λ t. push_op f (priority f) t >>= run_steps (steps r)) (reduced p)
        (Blind-then (push_op f (priority f)) (run_steps (steps r)) (push_op-Blind f (priority f))
          (run_steps-Blind (steps r)))
        (reduced-Blind p)

  operator_and_rest :
      (p ab ob : ℕ) (m : Machine)
      → ob + 1 < 32
      → IsSound ab ob m
      → ((doop f (priority f) m >>= run_steps (steps r)) >>= reduced p)
        ≡ (reduced (priority f) (marked m) >>= rest p)
  operator_and_rest p ab ob m room s =
      ap (λ x. (x >>= run_steps (steps r)) >>= reduced p)
        (doop-reduced f (priority f) ab ob m (priority_range f).1 room s)
      ∙ sym (rest_assoc p (reduced (priority f) (marked m)))

  left_operand :
      (p ab ob : ℕ) (m : Machine)
      → IsSound ab ob m
      → 0 < p
      → p ≤ priority f
      → reduce_test (priority f) m ≡ false
      → length m.ops + ops_depth r + 2 < 32
      → length m.args + args_depth r + 1 < 64
      → (x : Run (Arg × List Message))
      → ((((x >>= place m) >>= reduced (priority f)) >>= rest p) >>= seen) ≡ (
          (((x >>= (λ (a, log).
                evaluate r log >>= (λ (b, log'). apply_arg f a b.value b.flags log')))
              >>= place m)
            >>= reduced p)
          >>= seen)
  left_operand p ab ob m s lo hp below room1 room2 fault = refl
  left_operand p ab ob m s lo hp below room1 room2 out_of_fuel = refl
  left_operand p ab ob m s lo hp below room1 room2 (ok (a, log)) =
      ap (λ y. y >>= seen) (rest_assoc p (place m (a, log) >>= reduced (priority f)))
      ∙ right_operand p ab ob m a log s lo hp below room1 room2

  pub binary-Reads : Reads (binary f l r)
  unfolding steps run_steps run_step evaluate level ops_depth args_depth
  binary-Reads p ab ob m s lo hi lv below room1 room2 =
      let q = priority f in
      let after_left = λ (t : Machine). doop f q t >>= run_steps (steps r) in
      let sound = run_steps-IsSound (steps l) ab ob m s in
      ap (λ x. (x >>= reduced p) >>= seen) (run_steps-append (steps l) (operator f q ∷ steps r) m)
      ∙ ap (λ x. x >>= seen)
          (bind_assoc (run_steps (steps l) m) after_left (reduced p)
            ∙ bind_congr (IsSound ab ob) (run_steps (steps l) m) (λ t. after_left t >>= reduced p)
                (λ t. reduced q (marked t) >>= rest p) sound
                (λ t s'. operator_and_rest p ab ob t (omega arith) s'))
      ∙ bind_assoc (run_steps (steps l) m) (λ t. reduced q (marked t) >>= rest p) seen
      ∙ bind_congr_all (run_steps (steps l) m)
          (Blind-then (reduced q) (rest p) (reduced-Blind q) (rest-Blind p))
      ∙ sym (bind_assoc (run_steps (steps l) m) (λ t. reduced q t >>= rest p) seen)
      ∙ ap (λ x. x >>= seen) (sym (bind_assoc (run_steps (steps l) m) (reduced q) (rest p)))
      ∙ Blind-agree (run_steps (steps l) m >>= reduced q)
          ((evaluate l m.log >>= place m) >>= reduced q) (rest p) (rest-Blind p)
          (ih_l q ab ob m s (priority_range f).0 (omega (arith, priority_range f)) loose
            (reduce_test_mono q (level l) m loose below) (omega arith) (omega arith))
      ∙ left_operand p ab ob m s lo lv below (omega arith) (omega arith) (evaluate l m.log)

if_not {ℓ} : {A : Type ℓ} (b : Bool) (x y : A) → b ≡ false → (if b then x else y) ≡ y
if_not true x y h = cc
if_not false x y h = refl

-- A bracketed subtree leaves its value and takes both brackets away.
group_closed :
    (p ab ob : ℕ) (m : Machine) (x : Run (Arg × List Message))
    → IsSound ab ob m
    → length m.args + 1 < 64
    → ((((x >>= place (record m { ops = record { dis = none; pri = 0 } ∷ m.ops })) >>= reduced 1)
          >>= pop_bracket)
        >>= reduced p)
      ≡ ((x >>= place m) >>= reduced p)
group_closed p ab ob m fault s room = refl
group_closed p ab ob m out_of_fuel s room = refl
group_closed p ab ob m (ok (a, log)) s room =
    let m1 : Machine = record m { ops = record { dis = none; pri = 0 } ∷ m.ops } in
    let m2 : Machine = record m { args = a ∷ m.args; lastwasop = false; log = log } in
    ap (λ r. ((r >>= reduced 1) >>= pop_bracket) >>= reduced p) (place_room m1 a log room)
    ∙ ap (λ r. (r >>= pop_bracket) >>= reduced p)
        (reduced_idle 1 (record m2 { ops = m1.ops }) (reduce_test_wait none 0 1 m2 (inr refl)))
    ∙ ap (λ r. r >>= reduced p)
        (ap (λ (t : Machine). ok t)
            (if_not (at_base (record m2 { ops = m1.ops })) _ m2 (ground arith))
          ∙ sym (place_room m a log room))

-- the bracket's loop is the loop at priority 1
closing_reduced :
    (p : ℕ) (x : Run Machine)
    → ((x >>= run_steps (closing ∷ [])) >>= reduced p)
      ≡ ((x >>= reduced 1) >>= (λ t. pop_bracket t >>= reduced p))
unfolding run_steps run_step
closing_reduced p fault = refl
closing_reduced p out_of_fuel = refl
closing_reduced p (ok t) =
    ap (λ r. r >>= reduced p) (bind_ok (close_bracket t) ∙ close_bracket-reduced t)
    ∙ bind_assoc (reduced 1 t) pop_bracket (reduced p)

closing-Blind : (p : ℕ) → Blind (λ t. pop_bracket t >>= reduced p)
closing-Blind p = Blind-then pop_bracket (reduced p) pop_bracket-Blind (reduced-Blind p)

pub level_pos : (e : Expr) → 1 ≤ level e
unfolding level
level_pos (binary f l r) = omega (arith, priority_range f)
level_pos _ = omega arith

pub group-Reads : (e : Expr) → Reads e → Reads (group e)
unfolding steps run_steps run_step evaluate level ops_depth args_depth
group-Reads e ih p ab ob m s lo hi lv below room1 room2 =
    let m1 : Machine = record m { ops = record { dis = none; pri = 0 } ∷ m.ops } in
    let close = λ (t : Machine). pop_bracket t >>= reduced p in
    let x = run_steps (steps e) m1 in
    ap (λ r. ((r >>= run_steps (steps e ++ closing ∷ [])) >>= reduced p) >>= seen)
      (open_bracket_room m (omega arith))
    ∙ ap (λ r. (r >>= reduced p) >>= seen) (run_steps-append (steps e) (closing ∷ []) m1)
    ∙ ap (λ r. r >>= seen) (closing_reduced p x)
    ∙ Blind-agree (x >>= reduced 1) ((evaluate e m.log >>= place m1) >>= reduced 1) close
        (closing-Blind p)
        (ih 1 ab ob m1 (IsSound-push (record { dis = none; pri = 0 }) ab ob m s (omega arith))
          (omega arith) (omega arith) (level_pos e) (reduce_test_wait none 0 (level e) m (inr refl))
          (omega arith) room2)
    ∙ ap (λ r. r >>= seen)
        (sym (bind_assoc ((evaluate e m.log >>= place m1) >>= reduced 1) pop_bracket (reduced p))
          ∙ group_closed p ab ob m (evaluate e m.log) s (omega (arith, args_depth_pos e)))
