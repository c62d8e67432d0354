-- ===== src/Exp/Scan/Stops.antt =====
-- The fuel of the pieces of a round of `eval` in src/src/exp.c that read no symbol.
use dasm_dillon_code_sourcef.Common.{
  ℕ, true, List, [], ◌∷◌, Option, none, some, if◌then◌else◌, Run, fault,
}
use dasm_dillon_code_sourcef.Asm.{Symbol, only_unknown, no_flags}
use dasm_dillon_code_sourcef.Exp.Operators.{Operator}
use dasm_dillon_code_sourcef.Exp.Machine.{
  Machine, Arg, stackarg, doop, drained, open_bracket, close_bracket,
}
use dasm_dillon_code_sourcef.Exp.Machine.Ends.{
  Stops, stop, Stops-bind, Stops-if, stackarg-Stops, doop-Stops, drained-Stops, open_bracket-Stops,
  close_bracket-Stops,
}
use dasm_dillon_code_sourcef.Exp.Literals.{push_number, pushchar, pushstr}
use dasm_dillon_code_sourcef.Exp.Scan.{Scan, advance, scan_operator, scan_operand, push_value}
use dasm_dillon_code_sourcef.Exp.Scan.Eval.{
  scan_close, scan_comma, scan_open, scan_indirect, next_node, string_conversion,
}

pub advance-Stops : (n : ℕ) (sc : Scan) → Stops (advance n sc)
unfolding advance
advance-Stops n sc = search (Stops-if, stop)

pub scan_operator-Stops : (f : Operator) (p n : ℕ) (sc : Scan) → Stops (scan_operator f p n sc)
unfolding scan_operator
scan_operator-Stops f p n sc =
    Stops-bind (doop f p sc.machine) _ (doop-Stops f p sc.machine) (λ m. advance-Stops n _)

pub scan_operand-Stops :
    (push : List ℕ → Machine → Run (List ℕ × Machine)) (str : List ℕ) (sc : Scan)
    → Stops (push str sc.machine)
    → Stops (scan_operand push str sc)
unfolding scan_operand
scan_operand-Stops push str sc h = Stops-bind (push str sc.machine) _ h (λ r. stop tt)

pub push_number-Stops : (r : ℕ × List ℕ) (m : Machine) → Stops (push_number r m)
unfolding push_number
push_number-Stops (v, rest) m =
    Stops-bind (stackarg v no_flags [] m) _ (stackarg-Stops v no_flags [] m) (λ m'. stop tt)

pub pushstr-Stops : (s : List ℕ) (m : Machine) → Stops (pushstr s m)
unfolding pushstr
pushstr-Stops s m =
    Stops-bind (stackarg 0 (record no_flags { string = true }) s m) _ (stackarg-Stops _ _ _ m)
      (λ m'. stop tt)

pub pushchar-Stops : (s : List ℕ) (m : Machine) → Stops (pushchar s m)
unfolding pushchar
pushchar-Stops [] m = push_number-Stops _ m
pushchar-Stops (c ∷ s) m = push_number-Stops _ m

pub push_value-Stops : (sym : Symbol) (m : Machine) → Stops (push_value sym m)
unfolding push_value
push_value-Stops sym m = go sym.string
  where
    go :
        (text : Option (List ℕ))
        → Stops (
            if sym.flags.string
            then elim text [
              | none ↦ fault
              | some s ↦ stackarg 0 (record no_flags { string = true }) s m
            ]
            else stackarg sym.value (only_unknown sym.flags) [] m)
    go none = search (Stops-if, stop, stackarg-Stops)
    go (some s) = search (Stops-if, stackarg-Stops)

pub scan_open-Stops : (sc : Scan) → Stops (scan_open sc)
unfolding scan_open
scan_open-Stops sc =
    Stops-bind (open_bracket sc.machine) _ (open_bracket-Stops sc.machine) (λ m. advance-Stops 1 _)

pub scan_indirect-Stops : (sc : Scan) → Stops (scan_indirect sc)
unfolding scan_indirect
scan_indirect-Stops sc = search (Stops-if, advance-Stops)

string_conversion-Stops : (m : Machine) → Stops (string_conversion m)
unfolding string_conversion
string_conversion-Stops m = go m.args
  where
    go : (l : List Arg) → Stops (string_conversion (record m { args = l }))
    go [] = stop tt
    go (a ∷ rest) = stop tt

next_node-Stops : (sc : Scan) → Stops (next_node sc)
unfolding next_node
next_node-Stops sc = go sc.machine.args
  where
    go :
        (l : List Arg)
        → Stops (next_node (record sc { machine = record (sc.machine) { args = l } }))
    go [] = stop tt
    go (a ∷ rest) = stop tt

pub scan_close-Stops : (sc : Scan) → Stops (scan_close sc)
unfolding scan_close
scan_close-Stops sc = Stops-bind (close_bracket sc.machine) _ (close_bracket-Stops sc.machine) (λ m.
    Stops-bind (advance 1 (record sc { machine = m })) _ (advance-Stops 1 _) (λ t.
      let more =
        Stops-bind (string_conversion m) (λ m2. advance 1 (record t { machine = m2 }))
          (string_conversion-Stops m) (λ m2. advance-Stops 1 _) in
      search (Stops-if, stop)))

pub scan_comma-Stops : (sc : Scan) → Stops (scan_comma sc)
unfolding scan_comma
scan_comma-Stops sc = Stops-bind (drained sc.machine) _ (drained-Stops sc.machine) (λ m.
    let sc1 : Scan = record sc { machine = record m { lastwasop = true } } in
    let node = Stops-bind (next_node sc1) (advance 1) (next_node-Stops sc1) (advance-Stops 1) in
    search (Stops-if, advance-Stops))
