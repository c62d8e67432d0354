-- ===== src/Conditional.antt =====
-- Conditional assembly of src/src/ops.c: the stack of IF directives, and the directives that move it. The
-- head of the list is `Ifstack`; an include file is known by a number. The fuel `depth` is that of `eval`.
pub mod Nesting
pub mod Levels
use dasm_dillon_code_sourcef.Common.{
  ℕ, ◌^◌, Bool, true, false, not, ◌&&◌, ◌||◌, List, [], ◌∷◌, if◌then◌else◌, ◌==◌, bit_or, Run, ok,
  fault, ◌>>=◌,
}
use dasm_dillon_code_sourcef.Asm.{Symbol, any_flag}
use dasm_dillon_code_sourcef.Symbols.{Globals, programlabel, count_redo}
use dasm_dillon_code_sourcef.Exp.Machine.{Machine}
use dasm_dillon_code_sourcef.Exp.Scan.Eval.{eval}

-- IFSTACK; `base` is the bit IFF_BASE
pub record If : Type 0 where
  pub file : ℕ
  pub base : Bool
  pub xtrue : Bool
  pub acctrue : Bool

-- what the directives work on: `label` is Av[0], `incfile` is pIncfile
pub record Source : Type 0 where
  pub ifstack : List If
  pub incfile : ℕ
  pub label : List ℕ
  pub machine : Machine
  pub globals : Globals

-- `Ifstack->xtrue && Ifstack->acctrue`: the lines are assembled
unfoldable pub is_active : List If → Bool
is_active [] = false
is_active (i ∷ rest) = i.xtrue && i.acctrue

-- `pushif`, which reads the entry below
unfoldable pub pushif : Bool → Source → Run Source
pushif xbool s = elim s.ifstack [
  | [] ↦ fault
  | i ∷ rest ↦ ok (record s {
    ifstack =
        record { file = s.incfile; base = false; xtrue = xbool; acctrue = i.acctrue && i.xtrue }
        ∷ i
        ∷ rest;
  })
]

abbrev pub place_here : Source → Run Source
place_here s = do (g, mismatch) ← programlabel s.label s.globals; ok (record s { globals = g })

-- the first node of the expression
unfoldable pub first_node : Source → List Symbol × Machine × Globals → Run (Symbol × Source)
first_node s ([], m, g) = fault
first_node s (sym ∷ rest, m, g) = ok (sym, record s { machine = m; globals = g })

unfoldable pub eval_first : ℕ → List ℕ → Source → Run (Symbol × Source)
eval_first depth str s = eval depth str false s.machine s.globals >>= first_node s

-- Ifstack->acctrue = false
abbrev pub forget_top : Source → Source
forget_top s = elim s.ifstack [
  | [] ↦ s
  | i ∷ rest ↦ record s { ifstack = record i { acctrue = false } ∷ rest }
]

abbrev pub reason_if_not_resolved : ℕ
reason_if_not_resolved = 2 ^ 11

-- the end of `v_if`
unfoldable pub push_condition : Symbol × Source → Run Source
push_condition (sym, s) =
    if any_flag sym.flags
    then (do
      s2 ← pushif false (record s { globals = count_redo reason_if_not_resolved s.globals })
      let s3 = forget_top s2
      ok (record s3 { globals = record (s3.globals) { redo_if = bit_or s3.globals.redo_if 1 } }))
    else pushif (not (sym.value == 0)) s

unfoldable pub v_if : ℕ → List ℕ → Source → Run Source
v_if depth str s = elim s.ifstack [
  | [] ↦ fault
  | i ∷ rest ↦
      if not i.xtrue || not i.acctrue
      then pushif false s
      else place_here s >>= eval_first depth str >>= push_condition
]

unfoldable pub v_ifconst : ℕ → List ℕ → Source → Run Source
v_ifconst depth str s = do
  s1 ← place_here s
  (sym, s2) ← eval_first depth str s1
  pushif (not (any_flag sym.flags)) s2

unfoldable pub v_ifnconst : ℕ → List ℕ → Source → Run Source
v_ifnconst depth str s = do
  s1 ← place_here s
  (sym, s2) ← eval_first depth str s1
  pushif (any_flag sym.flags) s2

-- Ifstack->xtrue = !Ifstack->xtrue
abbrev pub turn_top : Source → Source
turn_top s = elim s.ifstack [
  | [] ↦ s
  | i ∷ rest ↦ record s { ifstack = record i { xtrue = not i.xtrue } ∷ rest }
]

unfoldable pub v_else : Source → Run Source
v_else s = elim s.ifstack [
  | [] ↦ fault
  | i ∷ rest ↦ if i.acctrue && not i.base then (do s1 ← place_here s; ok (turn_top s1)) else ok s
]

-- the entry goes, if it is one of this file; the Boolean tells that "too many endif's" is printed
unfoldable pub pop_if : Source → Source × Bool
pop_if s = elim s.ifstack [
  | [] ↦ (s, false)
  | i ∷ rest ↦ if i.file == s.incfile then (record s { ifstack = rest }, false) else (s, true)
]

unfoldable pub v_endif : Source → Run (Source × Bool)
v_endif s = elim s.ifstack [
  | [] ↦ fault
  | i ∷ rest ↦
      if not i.base
      then (do s1 ← (if i.acctrue then place_here s else ok s); ok (pop_if s1))
      else ok (s, false)
]
