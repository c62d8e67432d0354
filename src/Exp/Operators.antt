-- ===== src/Exp/Operators.antt =====
-- The operators of src/src/exp.c: what each `op_` function hands to `stackarg`.
pub mod Compare
use dasm_dillon_code_sourcef.Common.{
  ℕ, ◌-◌, Bool, true, false, not, ◌||◌, ◌&&◌, List, [], ◌∷◌, if◌then◌else◌, ◌==◌, ltb, bit_and,
  bit_or, bit_xor, Run, ok, fault,
}
use dasm_dillon_code_sourcef.Asm.{Flags, no_flags, or_flags, any_flag}
use dasm_dillon_code_sourcef.Long.{
  long_mod, long_min, neg, invert, add, sub, mul, lt_long, quot, rem, shl, shr,
}

pub data Operator : Type 0 where
  mult div mod_ add_ sub_ shiftleft shiftright greater greatereq smaller smallereq eqeq noteq andand
        oror xor_ and_ or_ question takelsb takemsb negate invert_ not_ :
      Operator

-- Diagnostics: `error_fmt`, `fatal_fmt` and `puts` calls of src/src/exp.c.
pub data Message : Type 0 where
  syntax_one syntax_none division_by_zero invalid_character too_many_ops no_arg_on_stack
        max_args_stacked too_many_operators :
      Message

abbrev pub truth : Bool → ℕ
truth true = 1
truth false = 0

-- value, flags and diagnostics
abbrev pub OpResult : Type 0
OpResult = ℕ × Flags × List Message

abbrev pub plain : ℕ → Flags → Run OpResult
plain v f = ok (v, f, [])

-- the value of a comparison or a bitwise operator, or nothing for the other operators
unfoldable pub apply_operator : Operator → ℕ → ℕ → Flags → Flags → Run OpResult
apply_operator takelsb v1 v2 f1 f2 = plain (bit_and v1 0xff) f1
apply_operator takemsb v1 v2 f1 f2 = plain (bit_and (shr v1 8) 0xff) f1
apply_operator negate v1 v2 f1 f2 = plain (neg v1) f1
apply_operator invert_ v1 v2 f1 f2 = plain (invert v1) f1
apply_operator not_ v1 v2 f1 f2 = plain (truth (v1 == 0)) f1
apply_operator mult v1 v2 f1 f2 = plain (mul v1 v2) (or_flags f1 f2)
apply_operator div v1 v2 f1 f2 =
    if any_flag (or_flags f1 f2)
    then plain 0 (or_flags f1 f2)
    else if v2 == 0
    then ok (0, no_flags, division_by_zero ∷ [])
    else if (v1 == long_min) && (v2 == long_mod - 1)
    then fault
    else plain (quot v1 v2) no_flags
apply_operator mod_ v1 v2 f1 f2 =
    if any_flag (or_flags f1 f2)
    then plain 0 (or_flags f1 f2)
    else if v2 == 0
    then plain v1 no_flags
    else if (v1 == long_min) && (v2 == long_mod - 1)
    then fault
    else plain (rem v1 v2) no_flags
apply_operator question v1 v2 f1 f2 =
    if any_flag f1 then plain 0 f1 else if v1 == 0 then plain 0 no_flags else plain v2 f2
apply_operator add_ v1 v2 f1 f2 = plain (add v1 v2) (or_flags f1 f2)
apply_operator sub_ v1 v2 f1 f2 = plain (sub v1 v2) (or_flags f1 f2)
apply_operator shiftright v1 v2 f1 f2 =
    if any_flag (or_flags f1 f2)
    then plain 0 (or_flags f1 f2)
    else if ltb v2 64
    then plain (shr v1 v2) no_flags
    else fault
apply_operator shiftleft v1 v2 f1 f2 =
    if any_flag (or_flags f1 f2)
    then plain 0 (or_flags f1 f2)
    else if ltb v2 64
    then plain (shl v1 v2) no_flags
    else fault
apply_operator greater v1 v2 f1 f2 = plain (truth (lt_long v2 v1)) (or_flags f1 f2)
apply_operator greatereq v1 v2 f1 f2 = plain (truth (not (lt_long v1 v2))) (or_flags f1 f2)
apply_operator smaller v1 v2 f1 f2 = plain (truth (lt_long v1 v2)) (or_flags f1 f2)
apply_operator smallereq v1 v2 f1 f2 = plain (truth (not (lt_long v2 v1))) (or_flags f1 f2)
apply_operator eqeq v1 v2 f1 f2 = plain (truth (v1 == v2)) (or_flags f1 f2)
apply_operator noteq v1 v2 f1 f2 = plain (truth (not (v1 == v2))) (or_flags f1 f2)
apply_operator andand v1 v2 f1 f2 =
    if (not (any_flag f1) && (v1 == 0)) || (not (any_flag f2) && (v2 == 0))
    then plain 0 no_flags
    else plain 1 (or_flags f1 f2)
apply_operator oror v1 v2 f1 f2 =
    if (not (any_flag f1) && not (v1 == 0)) || (not (any_flag f2) && not (v2 == 0))
    then plain 1 no_flags
    else plain 0 (or_flags f1 f2)
apply_operator xor_ v1 v2 f1 f2 = plain (bit_xor v1 v2) (or_flags f1 f2)
apply_operator and_ v1 v2 f1 f2 = plain (bit_and v1 v2) (or_flags f1 f2)
apply_operator or_ v1 v2 f1 f2 = plain (bit_or v1 v2) (or_flags f1 f2)
