-- ===== src/F8.antt =====
-- The instructions of the Fairchild F8, src/src/mnef8.c. Where a handler reports an error and goes on, the
-- Boolean beside its bytes tells that it does; nothing else depends on the message. `s1` is the state behind
-- the label of the line.
pub mod Branch
pub mod Registers
pub mod Sizes
use dasm_dillon_code_sourcef.Common.{
  ℕ, ◌+◌, ◌/◌, ◌%◌, ◌^◌, Bool, true, false, ◌&&◌, ◌||◌, List, [], ◌∷◌, Option, none, some, get_or,
  if◌then◌else◌, ◌==◌, ltb, bit_or, Run, ok, fault, ◌>>=◌,
}
use dasm_dillon_code_sourcef.F8Operands.{
  extract_operands, find_commas, parse_register, parse_scratchpad_register, parse_value, reg_a,
  reg_dc0, reg_h, reg_is, reg_k, reg_kl, reg_ku, reg_pc0, reg_pc1, reg_q, reg_ql, reg_qu, reg_w,
}
use dasm_dillon_code_sourcef.Long.{sub, neg, lt_long}
use dasm_dillon_code_sourcef.Symbols.{current_pc, current_unknown}
use dasm_dillon_code_sourcef.Output.{generate}
use dasm_dillon_code_sourcef.Conditional.{Source, place_here}
use dasm_dillon_code_sourcef.Origin.{Work, Done, with_source}
use dasm_dillon_code_sourcef.Mnemonics.{
  Mnemonic, base_opcode, Vect, vect_byteop, vect_wordop, vect_branch, vect_bf_bt, vect_sreg_op,
  vect_ins_outs, vect_lis, vect_lisu_lisl, vect_sl_sr, vect_lr,
}

-- `emit_opcode1`, `emit_opcode2` and `emit_opcode3`: the bytes, and the call of `generate`
unfoldable pub emit_opcode : List ℕ → Work → Done
emit_opcode bytes (s, o) = ok (with_source s (generate (record o { gen = bytes }) s.globals))

-- `opcode | low` as an unsigned char
abbrev pub or_byte : ℕ → ℕ → ℕ
or_byte opcode low = bit_or opcode low % 256

-- An operand that is unresolved counts as 0 here; one above 15 is reported.
unfoldable pub v_ins_outs : ℕ → List ℕ → Mnemonic → Work → Done
v_ins_outs depth str mne (s, o) = do
  s1 ← place_here s
  (unresolved, operand, s2) ← parse_value depth str s1
  emit_opcode (or_byte (base_opcode mne) (operand % 16) ∷ []) (s2, o)

-- the opcode of a shift, and whether its operand is reported
unfoldable pub shift_opcode : ℕ → ℕ → ℕ × Bool
shift_opcode base operand =
    if operand == 1
    then (base % 256, false)
    else if operand == 4
    then ((base + 2) % 256, false)
    else (0, true)

unfoldable pub v_sl_sr : ℕ → List ℕ → Mnemonic → Work → Done
v_sl_sr depth str mne (s, o) = do
  s1 ← place_here s
  (unresolved, operand, s2) ← parse_value depth str s1
  let opcode = if unresolved then 0 else (shift_opcode (base_opcode mne) operand).0
  emit_opcode (opcode ∷ []) (s2, o)

unfoldable pub v_lis : ℕ → List ℕ → Work → Done
v_lis depth str (s, o) = do
  s1 ← place_here s
  (unresolved, operand, s2) ← parse_value depth str s1
  emit_opcode (or_byte 0x70 (operand % 16) ∷ []) (s2, o)

unfoldable pub v_lisu_lisl : ℕ → List ℕ → Mnemonic → Work → Done
v_lisu_lisl depth str mne (s, o) = do
  s1 ← place_here s
  (unresolved, operand, s2) ← parse_value depth str s1
  emit_opcode (or_byte (base_opcode mne) (operand % 8) ∷ []) (s2, o)

abbrev pub or_junk : ℕ → Option ℕ → ℕ
or_junk junk none = junk
or_junk junk (some reg) = reg

-- `junk` is what the variable `reg` holds where `parse_scratchpad_register` does not write it
unfoldable pub v_sreg_op : ℕ → ℕ → List ℕ → Mnemonic → Work → Done
v_sreg_op junk depth str mne (s, o) = do
  s1 ← place_here s
  (reg, s2) ← parse_scratchpad_register depth str s1
  emit_opcode (or_byte (base_opcode mne) (or_junk junk reg) ∷ []) (s2, o)

-- the opcode where the source is the one that the destination asks for
abbrev pub only_from : ℕ → ℕ → ℕ → Run (Option ℕ)
only_from reg opcode src = ok (if src == reg then some opcode else none)

-- `lr a,src`
unfoldable pub load_a : ℕ → Option ℕ
load_a src =
    if src == reg_is
    then some 0x0a
    else if src == reg_kl
    then some 0x01
    else if src == reg_ku
    then some 0x00
    else if src == reg_ql
    then some 0x03
    else if src == reg_qu
    then some 0x02
    else if ltb src 15
    then some (bit_or 0x40 src)
    else none

-- `lr dst,src` for a scratchpad register
unfoldable pub load_scratchpad : ℕ → ℕ → Option ℕ
load_scratchpad dst src =
    if ltb dst 15 && src == reg_a
    then some (bit_or 0x50 dst)
    else if dst == 9 && src == reg_w
    then some 0x1e
    else none

-- the switch of `v_lr`; no opcode stands for -1, which is reported
unfoldable pub lr_opcode : ℕ → ℕ → Run (Option ℕ)
lr_opcode dst src =
    if dst == reg_a
    then ok (load_a src)
    else if dst == reg_dc0
    then (if src == reg_h then ok (some 0x10) else if src == reg_q then ok (some 0x0f) else fault)
    else if dst == reg_h
    then only_from reg_dc0 0x11 src
    else if dst == reg_is
    then only_from reg_a 0x0b src
    else if dst == reg_k
    then only_from reg_pc1 0x08 src
    else if dst == reg_kl
    then only_from reg_a 0x05 src
    else if dst == reg_ku
    then only_from reg_a 0x04 src
    else if dst == reg_pc0
    then only_from reg_q 0x0d src
    else if dst == reg_pc1
    then only_from reg_k 0x09 src
    else if dst == reg_q
    then only_from reg_dc0 0x0e src
    else if dst == reg_ql
    then only_from reg_a 0x07 src
    else if dst == reg_qu
    then only_from reg_a 0x06 src
    else if dst == reg_w
    then only_from 9 0x1d src
    else ok (load_scratchpad dst src)

-- an opcode, or the report of an invalid combination
unfoldable pub emit_found : Option ℕ → Work → Done
emit_found none w = ok (some w)
emit_found (some opcode) w = emit_opcode (opcode ∷ []) w

-- the switch on two registers; an unresolved one reserves a byte
unfoldable pub lr_second : ℕ → Work → Option ℕ → Done
lr_second dst w none = emit_opcode (0 ∷ []) w
lr_second dst w (some src) = do opcode ← lr_opcode dst src; emit_found opcode w

-- the second operand
unfoldable pub lr_from : ℕ → List ℕ → Work → Option ℕ × Source → Done
lr_from depth op2 w (none, s) = emit_opcode (0 ∷ []) (s, w.1)
lr_from depth op2 w (some dst, s) = do
  (reg, s2) ← parse_register depth op2 s
  lr_second dst (s2, w.1) reg

unfoldable pub v_lr : ℕ → List ℕ → Work → Done
v_lr depth str (s, o) = do
  s1 ← place_here s
  elim ((find_commas str).0 == 1) [
    | false ↦ ok (some (s1, o))
    | true ↦ (do
      (op1, op2) ← extract_operands str (find_commas str).1
      r ← parse_register depth op1 s1
      lr_from depth op2 (s1, o) r)
  ]

-- the bytes of a branch to `target` at a known origin, and whether the distance is reported
unfoldable pub branch_bytes : ℕ → ℕ → ℕ → List ℕ × Bool
branch_bytes opcode target pc =
    let disp = sub (sub target pc) 1 in
    (opcode ∷ disp % 256 ∷ [], lt_long 127 disp || lt_long disp (neg 128))

-- the branch behind its operand
unfoldable pub branch_to : ℕ → Bool × ℕ × Source → List ℕ
branch_to opcode (unresolved, target, s) =
    if unresolved
    then 0 ∷ 0 ∷ []
    else if current_unknown s.globals
    then opcode ∷ 0 ∷ []
    else (branch_bytes opcode target (current_pc s.globals)).0

unfoldable pub generate_branch : ℕ → ℕ → List ℕ → Work → Done
generate_branch depth opcode str (s, o) = do
  s1 ← place_here s
  r ← parse_value depth str s1
  emit_opcode (branch_to opcode r) (r.2, o)

unfoldable pub v_branch : ℕ → List ℕ → Mnemonic → Work → Done
v_branch depth str mne w = generate_branch depth (base_opcode mne % 256) str w

-- the condition of BF, of four bits, or of BT, of three; a larger one is reported
unfoldable pub condition_bits : Mnemonic → ℕ → ℕ
condition_bits mne value =
    if get_or mne.name 1 0 == b'f'
    then (if ltb 15 value then value % 16 else value)
    else (if ltb 7 value then value % 8 else value)

-- the branch, or two bytes for an unresolved condition
unfoldable pub branch_if : ℕ → List ℕ → Mnemonic → Work → Bool × ℕ × Source → Done
branch_if depth op2 mne w (unresolved, value, s) = elim unresolved [
  | true ↦ emit_opcode (0 ∷ 0 ∷ []) (s, w.1)
  | false ↦
      generate_branch depth (or_byte (base_opcode mne) (condition_bits mne value)) op2 (s, w.1)
]

unfoldable pub v_bf_bt : ℕ → List ℕ → Mnemonic → Work → Done
v_bf_bt depth str mne (s, o) = elim ((find_commas str).0 == 1) [
  | false ↦ ok (some (s, o))
  | true ↦ (do
    (op1, op2) ← extract_operands str (find_commas str).1
    r ← parse_value depth op1 s
    branch_if depth op2 mne (s, o) r)
]

unfoldable pub v_wordop : ℕ → List ℕ → Mnemonic → Work → Done
v_wordop depth str mne (s, o) = do
  s1 ← place_here s
  (unresolved, value, s2) ← parse_value depth str s1
  emit_opcode (base_opcode mne % 256 ∷ (value / 2 ^ 8) % 256 ∷ value % 256 ∷ []) (s2, o)

unfoldable pub v_byteop : ℕ → List ℕ → Mnemonic → Work → Done
v_byteop depth str mne (s, o) = do
  s1 ← place_here s
  (unresolved, value, s2) ← parse_value depth str s1
  emit_opcode (base_opcode mne % 256 ∷ value % 256 ∷ []) (s2, o)

-- `(*mne->vect)(str, mne)` for the handlers of this file; those of ops.c are none of them
unfoldable pub run_f8 : Vect → ℕ → ℕ → List ℕ → Mnemonic → Work → Done
run_f8 vect_byteop junk depth str mne w = v_byteop depth str mne w
run_f8 vect_wordop junk depth str mne w = v_wordop depth str mne w
run_f8 vect_branch junk depth str mne w = v_branch depth str mne w
run_f8 vect_bf_bt junk depth str mne w = v_bf_bt depth str mne w
run_f8 vect_sreg_op junk depth str mne w = v_sreg_op junk depth str mne w
run_f8 vect_ins_outs junk depth str mne w = v_ins_outs depth str mne w
run_f8 vect_lis junk depth str mne w = v_lis depth str w
run_f8 vect_lisu_lisl junk depth str mne w = v_lisu_lisl depth str mne w
run_f8 vect_sl_sr junk depth str mne w = v_sl_sr depth str mne w
run_f8 vect_lr junk depth str mne w = v_lr depth str w
run_f8 _ junk depth str mne w = fault
