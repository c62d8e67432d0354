-- ===== src/Exp/Machine.antt =====
-- The operand and operator stacks of src/src/exp.c and the routines that move them. `Argi` and `Opi`
-- are the lengths of the two lists, whose heads are the tops. What the arrays hold above the tops is
-- not kept: a step of the program that would read such a left-over slot is a `fault`.
pub mod Loops
pub mod Steps
pub mod Blind
pub mod Sound
pub mod Drain
pub mod Ends
use dasm_dillon_code_sourcef.Common.{
  ℕ, zero, suc, ◌+◌, ◌-◌, ◌*◌, ◌%◌, Bool, true, false, not, ◌||◌, ◌&&◌, List, [], ◌∷◌, ◌++◌, Option,
  none, some, if◌then◌else◌, ◌==◌, ltb, leb, length, drop, Run, ok, fault, ◌>>=◌, bit_or,
}
use dasm_dillon_code_sourcef.Asm.{Flags, no_flags}
use dasm_dillon_code_sourcef.Long.{long_mod}
use dasm_dillon_code_sourcef.Exp.Operators.{
  Operator, Message, apply_operator, syntax_none, max_args_stacked, too_many_ops,
  too_many_operators,
}

abbrev pub max_ops : ℕ
max_ops = 32

abbrev pub max_args : ℕ
max_args = 64

-- Argstack, Argflags and Argstring at one index
pub record Arg : Type 0 where
  pub value : ℕ
  pub flags : Flags
  pub string : Option (List ℕ)

-- Opdis and Oppri at one index; `[` writes only the priority, and leaves no known function
pub record Op : Type 0 where
  pub dis : Option Operator
  pub pri : ℕ

pub record Machine : Type 0 where
  pub args : List Arg
  pub ops : List Op
  pub argibase : ℕ
  pub opibase : ℕ
  pub lastwasop : Bool
  pub log : List Message

abbrev pub say : Message → Machine → Machine
say e m = record m { log = e ∷ m.log }

abbrev pub at_base : Machine → Bool
at_base m = length m.ops == m.opibase

-- Argi = Argibase
unfoldable pub reset_args : Machine → Run Machine
reset_args m =
    if leb m.argibase (length m.args)
    then ok (record m { args = drop (length m.args - m.argibase) m.args })
    else fault

-- Opi = Opibase
unfoldable pub reset_ops : Machine → Run Machine
reset_ops m =
    if leb m.opibase (length m.ops)
    then ok (record m { ops = drop (length m.ops - m.opibase) m.ops })
    else fault

-- the loop of `stackarg` over the text of a string
unfoldable pub string_value : List ℕ → ℕ → ℕ
string_value [] val = val
string_value (c ∷ s) val =
    if (c == 0) || (c == 0x22) then val else string_value s (bit_or ((val * 256) % long_mod) c)

unfoldable pub string_text : List ℕ → List ℕ
string_text [] = []
string_text (c ∷ s) = if (c == 0) || (c == 0x22) then [] else c ∷ string_text s

-- the operand that `stackarg` stores: a string is cut at its end, and its value is its bytes
unfoldable pub make_arg : ℕ → Flags → List ℕ → Arg
make_arg val flags text =
    if flags.string
    then record {
      value = string_value text 0;
      flags = record flags { string = false };
      string = some (string_text text);
    }
    else record { value = val; flags = flags; string = none }

-- The stores and the overflow test of `stackarg`. No test guards the stores themselves: that the place which they
-- write is one of the array's is the invariant of the stack, not a condition here.
unfoldable pub store_arg : Arg → Machine → Run Machine
store_arg a m =
    let m' = record m { args = a ∷ m.args; lastwasop = false } in
    if length m'.args == max_args then reset_args (say max_args_stacked m') else ok m'

-- Opi != Opibase && Oppri[Opi-1] == 128
unfoldable pub unary_on_top : Machine → Bool
unary_on_top m = elim m.ops [ [] ↦ false | o ∷ os ↦ not (at_base m) && (o.pri == 128) ]

abbrev pub call : Option Operator → ℕ → ℕ → Flags → Flags → Run (ℕ × Flags × List Message)
call none v1 v2 f1 f2 = fault
call (some f) v1 v2 f1 f2 = apply_operator f v1 v2 f1 f2

-- The tail of `evaltop`: the operator's function runs and ends in `stackarg`, whose loop is `next`.
unfoldable pub finish_call :
    (Machine → Run Machine) → Machine → ℕ × Flags × List Message → Run Machine
finish_call next m (v, f, msgs) =
    store_arg (make_arg v f []) (record m { log = msgs ++ m.log }) >>= next

unfoldable pub call_unary : (Machine → Run Machine) → Op → Machine → List Arg → Run Machine
call_unary next o m (a ∷ rest) =
    call o.dis a.value 0 a.flags no_flags >>= finish_call next (record m { args = rest })
call_unary next o m [] = fault

unfoldable pub call_binary : (Machine → Run Machine) → Op → Machine → List Arg → Run Machine
call_binary next o m (b ∷ a ∷ rest) =
    call o.dis a.value b.value a.flags b.flags >>= finish_call next (record m { args = rest })
call_binary next o m _ = fault

unfoldable pub evaltop_with : (Machine → Run Machine) → Machine → List Op → Run Machine
evaltop_with next m [] = reset_ops (say syntax_none m)
evaltop_with next m (o ∷ os) =
    let m' = record m { ops = os } in
    if leb (length m.ops) m.opibase
    then reset_ops (say syntax_none m)
    else if o.pri == 128
    then (if ltb (length m.args) (m.argibase + 1)
        then reset_args (say syntax_none m')
        else call_unary next o m' m.args)
    else (if ltb (length m.args) (m.argibase + 2)
        then reset_args (say syntax_none m')
        else call_binary next o m' m.args)

-- `while (Opi != Opibase && Oppri[Opi-1] == 128) evaltop();` Each round takes an operator away, so
-- the number of operators bounds the rounds.
unfoldable pub settle : ℕ → Machine → Run Machine
settle zero m = ok m
settle (suc k) m =
    let more = evaltop_with (settle k) m m.ops >>= settle k in if unary_on_top m then more else ok m

unfoldable pub settled : Machine → Run Machine
settled m = settle (length m.ops) m

unfoldable pub stackarg : ℕ → Flags → List ℕ → Machine → Run Machine
stackarg val flags text m = store_arg (make_arg val flags text) m >>= settled

unfoldable pub evaltop : Machine → Run Machine
evaltop m = evaltop_with settled m m.ops

-- `while (Opi != Opibase && Oppri[Opi-1] && pri <= Oppri[Opi-1]) evaltop();`
unfoldable pub reduce_test : ℕ → Machine → Bool
reduce_test pri m = elim m.ops [
  | [] ↦ false
  | o ∷ os ↦ not (at_base m) && (not (o.pri == 0) && leb pri o.pri)
]

unfoldable pub reduce : ℕ → ℕ → Machine → Run Machine
reduce zero pri m = ok m
reduce (suc k) pri m =
    let more = evaltop m >>= reduce k pri in if reduce_test pri m then more else ok m

unfoldable pub reduced : ℕ → Machine → Run Machine
reduced pri m = reduce (length m.ops) pri m

-- `while (Opi != Opibase) evaltop();`
unfoldable pub drain : ℕ → Machine → Run Machine
drain zero m = ok m
drain (suc k) m = let more = evaltop m >>= drain k in if at_base m then ok m else more

unfoldable pub drained : Machine → Run Machine
drained m = drain (length m.ops) m

-- Opdis[Opi] = func; Oppri[Opi] = pri; ++Opi
unfoldable pub store_op : Option Operator → ℕ → Machine → Run Machine
store_op func pri m =
    if ltb (length m.ops) max_ops
    then ok (record m { ops = record { dis = func; pri = pri } ∷ m.ops })
    else fault

-- the end of `doop`: the stores and the overflow test
unfoldable pub push_op : Operator → ℕ → Machine → Run Machine
push_op func pri m = do
  m2 ← store_op (some func) pri m
  if length m2.ops == max_ops then reset_ops (say too_many_operators m2) else ok m2

unfoldable pub doop : Operator → ℕ → Machine → Run Machine
doop func pri m =
    let m' = record m { lastwasop = true } in
    if at_base m' || (pri == 128)
    then store_op (some func) pri m'
    else reduced pri m' >>= push_op func pri

-- case '[' of `eval`
unfoldable pub open_bracket : Machine → Run Machine
open_bracket m = if length m.ops == max_ops then ok (say too_many_ops m) else store_op none 0 m

-- the loop and the pop of case ']': `while (Opi != Opibase && Oppri[Opi-1]) evaltop();`
unfoldable pub close_test : Machine → Bool
close_test m = elim m.ops [ [] ↦ false | o ∷ os ↦ not (at_base m) && not (o.pri == 0) ]

unfoldable pub close_loop : ℕ → Machine → Run Machine
close_loop zero m = ok m
close_loop (suc k) m = let more = evaltop m >>= close_loop k in if close_test m then more else ok m

unfoldable pub close_bracket : Machine → Run Machine
close_bracket m = do
  m' ← close_loop (length m.ops) m
  ok (if at_base m' then m' else record m' { ops = drop 1 m'.ops })

-- The calls that `eval` makes, one for each piece of the text: an operand, an operator with its
-- priority, a bracket, and the loop at a comma or at the end.
pub data Step : Type 0 where
  operand : ℕ → Flags → List ℕ → Step
  operator : Operator → ℕ → Step
  opening closing ending : Step

unfoldable pub run_step : Step → Machine → Run Machine
run_step (operand v f text) m = stackarg v f text m
run_step (operator f p) m = doop f p m
run_step opening m = open_bracket m
run_step closing m = close_bracket m
run_step ending m = drained m

unfoldable pub run_steps : List Step → Machine → Run Machine
run_steps [] m = ok m
run_steps (s ∷ ss) m = run_step s m >>= run_steps ss

-- What a run by computation sees through.
unfoldable pub machine_code : Unit {0}
unfolding reset_args reset_ops string_value string_text make_arg store_arg unary_on_top finish_call
    call_unary call_binary evaltop_with settle settled stackarg evaltop reduce_test reduce reduced
    drain drained store_op push_op doop open_bracket close_test close_loop close_bracket run_step
    run_steps apply_operator
machine_code = tt
