-- ===== src/Exp/Precedence.antt =====
-- Expression trees, their texts as steps of the evaluator of src/src/exp.c, and their values.
pub mod Moves
pub mod Correct
pub mod Value
use dasm_dillon_code_sourcef.Common.{ℕ, ◌+◌, ◌≤◌, ◌<◌, List, [], ◌∷◌, ◌++◌, Run, ok, ◌>>=◌}
use dasm_dillon_code_sourcef.Asm.{Flags, no_flags}
use dasm_dillon_code_sourcef.Exp.Operators.{
  Operator, Message, apply_operator, mult, div, mod_, add_, sub_, shiftleft, shiftright, greater,
  greatereq, smaller, smallereq, eqeq, noteq, andand, oror, xor_, and_, or_,
}
use dasm_dillon_code_sourcef.Exp.Machine.{Arg, Step, operand, operator, opening, closing, make_arg}
use Prim.Native.Nat.{max}

-- the priorities that `eval` hands to `doop`; a unary operator has 128
unfoldable pub priority : Operator → ℕ
priority mult = 20
priority div = 20
priority mod_ = 20
priority add_ = 19
priority sub_ = 19
priority shiftright = 18
priority shiftleft = 18
priority greater = 17
priority greatereq = 17
priority smaller = 17
priority smallereq = 17
priority eqeq = 16
priority noteq = 16
priority and_ = 15
priority xor_ = 14
priority or_ = 13
priority andand = 12
priority oror = 11
priority _ = 10

pub data Expr : Type 0 where
  literal : ℕ → Flags → Expr
  unary : Operator → Expr → Expr
  binary : Operator → Expr → Expr → Expr
  group : Expr → Expr

-- how tightly an expression holds together
unfoldable pub level : Expr → ℕ
level (binary f l r) = priority f
level _ = 129

-- The tree is the one that the priorities give its text: operators of one priority group to the left.
abbrev pub IsReadable : Expr → Type 0
IsReadable (literal v f) = Unit
IsReadable (unary f e) = (128 < level e) × IsReadable e
IsReadable (binary f l r) =
    (priority f ≤ level l) × (priority f < level r) × IsReadable l × IsReadable r
IsReadable (group e) = IsReadable e

unfoldable pub steps : Expr → List Step
steps (literal v f) = operand v f [] ∷ []
steps (unary f e) = operator f 128 ∷ steps e
steps (binary f l r) = steps l ++ operator f (priority f) ∷ steps r
steps (group e) = opening ∷ (steps e ++ closing ∷ [])

-- operators and operands that wait at the deepest place
unfoldable pub ops_depth : Expr → ℕ
ops_depth (literal v f) = 0
ops_depth (unary f e) = ops_depth e + 1
ops_depth (binary f l r) = max (ops_depth l) (ops_depth r + 1)
ops_depth (group e) = ops_depth e + 1

unfoldable pub args_depth : Expr → ℕ
args_depth (literal v f) = 1
args_depth (unary f e) = args_depth e
args_depth (binary f l r) = max (args_depth l) (args_depth r + 1)
args_depth (group e) = args_depth e

-- an operator's result as `stackarg` stores it, and the diagnostics so far
unfoldable pub apply_arg : Operator → Arg → ℕ → Flags → List Message → Run (Arg × List Message)
apply_arg f a v2 f2 log = do
  (v, g, msgs) ← apply_operator f a.value v2 a.flags f2
  ok (make_arg v g [], msgs ++ log)

-- The value of a tree, subtrees first, from left to right.
unfoldable pub evaluate : Expr → List Message → Run (Arg × List Message)
evaluate (literal v f) log = ok (make_arg v f [], log)
evaluate (unary f e) log = do (a, log1) ← evaluate e log; apply_arg f a 0 no_flags log1
evaluate (binary f l r) log = do
  (a, log1) ← evaluate l log
  (b, log2) ← evaluate r log1
  apply_arg f a b.value b.flags log2
evaluate (group e) log = evaluate e log
