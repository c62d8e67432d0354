-- ===== src/Exp/Scan/Rounds.antt =====
-- What a round of the loop of `eval` in src/src/exp.c leaves of the text.
use dasm_dillon_code_sourcef.Common.{
  ℕ, suc, ◌+◌, ◌≤◌, true, false, not, ◌&&◌, ◌||◌, List, [], ◌∷◌, Option, none, some, if◌then◌else◌,
  ◌==◌, ltb, leb, length, arith, Run, ok, ◌>>=◌, Partial-any, Partial-bind,
}
use dasm_dillon_code_sourcef.Asm.{indbytex, indbytey, indword, zero_x, zero_y, imm8, is_indword}
use dasm_dillon_code_sourcef.Util.{tolower}
use dasm_dillon_code_sourcef.Exp.Operators.{Operator, syntax_one, no_arg_on_stack}
use dasm_dillon_code_sourcef.Exp.Machine.{Arg, close_bracket, open_bracket, drained}
use dasm_dillon_code_sourcef.Exp.Literals.{pushhex, pushoct, pushdec, pushbin, pushchar, pushstr}
use dasm_dillon_code_sourcef.Exp.Scan.{
  Scan, Nested, peek, is_alpha_num, advance, report, scan_operator, scan_operand, scan_symbol,
  scan_origin,
}
use dasm_dillon_code_sourcef.Exp.Scan.Eval.{
  find_operator, scan_close, scan_comma, scan_open, scan_indirect, scan_default, scan_other,
  scan_char, scan_text, next_node, set_mode, string_conversion,
}
use dasm_dillon_code_sourcef.Exp.Scan.Pieces.{
  Leaves, Leaves-if, Leaves-when, advance-Leaves, IsWide, find_operator-IsWide,
  scan_operator-Leaves, scan_operand-Leaves, pushstr-Rest, pushchar-Rest, pushoct-Rest,
  pushdec-Rest, pushhex-Rest, pushbin-Rest, scan_symbol-Leaves, scan_origin-Leaves,
}

scan_default-Leaves :
    (nested : Nested) (c : ℕ) (s : List ℕ) (sc : Scan)
    → Leaves (length s) (scan_default nested c (record sc { text = c ∷ s }))
unfolding scan_default
scan_default-Leaves nested c s sc =
    let at : Scan = record sc { text = c ∷ s } in
    let named = scan_symbol-Leaves nested c s sc in
    Leaves-if (length s) _ (scan_symbol nested at) _ named (
      Leaves-when (length s) (c == b'0') (scan_operand pushoct (c ∷ s) at) _
        (λ e. scan_operand-Leaves pushoct (c ∷ s) (length s) at (pushoct-Rest c s sc.machine e))
        (Leaves-when (length s) (ltb b'0' c && leb c b'9') (scan_operand pushdec (c ∷ s) at)
          (scan_symbol nested at)
          (λ e. scan_operand-Leaves pushdec (c ∷ s) (length s) at (pushdec-Rest c s sc.machine e))
          named))

scan_open-Leaves : (b : ℕ) (sc : Scan) → length sc.text ≤ b + 1 → Leaves b (scan_open sc)
unfolding scan_open
scan_open-Leaves b sc h =
    Partial-any (λ t. length t.text ≤ b) (open_bracket sc.machine)
      (λ m. advance 1 (record sc { machine = m }))
      (λ m. advance-Leaves 1 b (record sc { machine = m }) h)

scan_indirect-Leaves : (b : ℕ) (sc : Scan) → length sc.text ≤ b + 1 → Leaves b (scan_indirect sc)
unfolding scan_indirect
scan_indirect-Leaves b sc h =
    Leaves-if b _ (advance 3 (set_mode indbytey sc)) (advance 1 sc)
      (advance-Leaves 3 b (set_mode indbytey sc) (omega arith)) (advance-Leaves 1 b sc h)

scan_close-Leaves : (b : ℕ) (sc : Scan) → length sc.text ≤ b + 1 → Leaves b (scan_close sc)
unfolding scan_close
scan_close-Leaves b sc h =
    Partial-any (λ t. length t.text ≤ b) (close_bracket sc.machine) _
      (λ m.
        Partial-bind (λ t. length t.text ≤ b) (λ t. length t.text ≤ b)
          (advance 1 (record sc { machine = m })) _
          (advance-Leaves 1 b (record sc { machine = m }) h)
          (λ t k. Leaves-if b (length m.args == m.argibase) (ok (report no_arg_on_stack t)) _ k (
            Leaves-if b (peek 0 t.text == b'd') _ (ok t)
              (Partial-any (λ t. length t.text ≤ b) (string_conversion m)
                (λ m2. advance 1 (record t { machine = m2 }))
                (λ m2. advance-Leaves 1 b (record t { machine = m2 }) (omega arith)))
              k)))

next_node-at :
    (b : ℕ) (l : List Arg) (sc : Scan)
    → length sc.text ≤ b
    → Leaves b (next_node (record sc { machine = record (sc.machine) { args = l } }))
unfolding next_node
next_node-at b [] sc h = tt
next_node-at b (a ∷ rest) sc h = h

scan_comma-Leaves : (b : ℕ) (sc : Scan) → length sc.text ≤ b + 1 → Leaves b (scan_comma sc)
unfolding scan_comma
scan_comma-Leaves b sc h =
    Partial-any (λ t. length t.text ≤ b) (drained sc.machine) _
      (λ m.
        let sc1 : Scan = record sc { machine = record m { lastwasop = true } } in
        let scr = tolower (peek 1 sc.text) in
        let alone = not (is_alpha_num (peek 2 sc.text)) in
        Leaves-if b (is_indword sc.cur.addrmode && (scr == b'x' && alone))
          (advance 2 (set_mode indbytex sc1)) _
          (advance-Leaves 2 b (set_mode indbytex sc1) (omega arith))
          (Leaves-if b (scr == b'x' && alone) (advance 2 (set_mode zero_x sc1)) _
            (advance-Leaves 2 b (set_mode zero_x sc1) (omega arith))
            (Leaves-if b (scr == b'y' && alone) (advance 2 (set_mode zero_y sc1))
              (next_node sc1 >>= advance 1) (advance-Leaves 2 b (set_mode zero_y sc1) (omega arith))
              (Partial-bind (λ t. length t.text ≤ b + 1) (λ t. length t.text ≤ b) (next_node sc1)
                (advance 1) (next_node-at (b + 1) m.args sc1 h) (λ t k. advance-Leaves 1 b t k)))))

scan_other-Leaves :
    (nested : Nested) (c : ℕ) (s : List ℕ) (sc : Scan)
    → Leaves (length s) (scan_other nested c s (record sc { text = c ∷ s }))
unfolding scan_other
scan_other-Leaves nested c s sc =
    let at : Scan = record sc { text = c ∷ s } in
    let b = length s in
    let room : suc (length s) ≤ length s + 1 = omega arith in
    let r13 = scan_default nested c at in
    let p13 = scan_default-Leaves nested c s sc in
    let p12 =
      Leaves-if b (c == 0x22) (scan_operand pushstr s at) r13
        (scan_operand-Leaves pushstr s b at (pushstr-Rest s sc.machine)) p13 in
    let r12 = if c == 0x22 then scan_operand pushstr s at else r13 in
    let p11 =
      Leaves-if b (c == 39) (scan_operand pushchar s at) r12
        (scan_operand-Leaves pushchar s b at (pushchar-Rest s sc.machine)) p12 in
    let r11 = if c == 39 then scan_operand pushchar s at else r12 in
    let p10 =
      Leaves-if b (c == b'$') (scan_operand pushhex s at) r11
        (scan_operand-Leaves pushhex s b at (pushhex-Rest s sc.machine)) p11 in
    let r10 = if c == b'$' then scan_operand pushhex s at else r11 in
    let p9 = Leaves-if b (c == b',') (scan_comma at) r10 (scan_comma-Leaves b at room) p10 in
    let r9 = if c == b',' then scan_comma at else r10 in
    let p8 =
      Leaves-if b (c == b'#') (advance 1 (set_mode imm8 (record at { wantmode = false }))) r9
        (advance-Leaves 1 b (set_mode imm8 (record at { wantmode = false })) room) p9 in
    let r8 = if c == b'#' then advance 1 (set_mode imm8 (record at { wantmode = false })) else r9 in
    let p7 =
      Leaves-if b (c == b')' || c == b']') (scan_close at) r8 (scan_close-Leaves b at room) p8 in
    let r7 = if c == b')' || c == b']' then scan_close at else r8 in
    let p6 =
      Leaves-if b (c == b')' && sc.wantmode) (scan_indirect at) r7 (scan_indirect-Leaves b at room)
        p7 in
    let r6 = if c == b')' && sc.wantmode then scan_indirect at else r7 in
    let p5 =
      Leaves-if b (c == b'(' || c == b'[') (scan_open at) r6 (scan_open-Leaves b at room) p6 in
    let r5 = if c == b'(' || c == b'[' then scan_open at else r6 in
    let p4 =
      Leaves-if b (c == b'(' && sc.wantmode) (advance 1 (set_mode indword at)) r5
        (advance-Leaves 1 b (set_mode indword at) room) p5 in
    let r4 = if c == b'(' && sc.wantmode then advance 1 (set_mode indword at) else r5 in
    let p3 =
      Leaves-if b (c == b'%') (scan_operand pushbin s at) r4
        (scan_operand-Leaves pushbin s b at (pushbin-Rest s sc.machine)) p4 in
    let r3 = if c == b'%' then scan_operand pushbin s at else r4 in
    let p2 =
      Leaves-if b (c == b'*') (scan_origin nested at) r3 (scan_origin-Leaves nested b at room) p3 in
    let r2 = if c == b'*' then scan_origin nested at else r3 in
    let p1 =
      Leaves-if b (c == b'~') (advance 1 (report syntax_one at)) r2
        (advance-Leaves 1 b (report syntax_one at) room) p2 in
    let r1 = if c == b'~' then advance 1 (report syntax_one at) else r2 in
    let p0 = Leaves-if b (c == b' ' || c == 10) (advance 1 at) r1 (advance-Leaves 1 b at room) p1 in
    p0

scan_char-else :
    (b : ℕ) (o : Option (Operator × ℕ × ℕ)) (y : Run Scan) (sc : Scan)
    → IsWide o
    → length sc.text ≤ b + 1
    → Leaves b y
    → Leaves b (elim o [ some r ↦ scan_operator r.0 r.1 r.2 sc | none ↦ y ])
scan_char-else b none y sc w h k = k
scan_char-else b (some r) y sc w h k = scan_operator-Leaves r.0 r.1 r.2 b sc (omega arith)

-- A round of the loop of `eval` that ends without a fault has read its first byte, whatever that byte is.
pub scan_text-Leaves :
    (nested : Nested) (c : ℕ) (s : List ℕ) (sc : Scan)
    → Leaves (length s) (scan_text nested (c ∷ s) (record sc { text = c ∷ s }))
unfolding scan_text scan_char
scan_text-Leaves nested c s sc =
    scan_char-else (length s) (find_operator sc.machine.lastwasop c (peek 0 s))
      (scan_other nested c s (record sc { text = c ∷ s })) (record sc { text = c ∷ s })
      (find_operator-IsWide sc.machine.lastwasop c (peek 0 s)) (omega arith)
      (scan_other-Leaves nested c s sc)
