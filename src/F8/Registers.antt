-- ===== src/F8/Registers.antt =====
-- The opcodes of LR in src/src/mnef8.c.
use dasm_dillon_code_sourcef.Common.{
  ℕ, ◌+◌, ◌-◌, ◌<◌, ◌≡◌, refl, Option, none, some, if◌then◌else◌, ◌==◌, ltb, leb, bit_or, arith,
  ==_iff, all_below-lt, ltb→lt, Partial, inl, inr, Bool-cases,
}
use dasm_dillon_code_sourcef.F8.{load_a, load_scratchpad, lr_opcode}
use dasm_dillon_code_sourcef.F8Operands.{
  reg_a, reg_dc0, reg_h, reg_is, reg_k, reg_ku, reg_kl, reg_pc0, reg_pc1, reg_q, reg_qu, reg_ql,
  reg_w,
}

-- The operands that the processor reads from an opcode of LR, as destination and source.
abbrev pub lr_operands : ℕ → ℕ × ℕ
lr_operands op =
    if op == 0x00
    then (reg_a, reg_ku)
    else if op == 0x01
    then (reg_a, reg_kl)
    else if op == 0x02
    then (reg_a, reg_qu)
    else if op == 0x03
    then (reg_a, reg_ql)
    else if op == 0x04
    then (reg_ku, reg_a)
    else if op == 0x05
    then (reg_kl, reg_a)
    else if op == 0x06
    then (reg_qu, reg_a)
    else if op == 0x07
    then (reg_ql, reg_a)
    else if op == 0x08
    then (reg_k, reg_pc1)
    else if op == 0x09
    then (reg_pc1, reg_k)
    else if op == 0x0a
    then (reg_a, reg_is)
    else if op == 0x0b
    then (reg_is, reg_a)
    else if op == 0x0d
    then (reg_pc0, reg_q)
    else if op == 0x0e
    then (reg_q, reg_dc0)
    else if op == 0x0f
    then (reg_dc0, reg_q)
    else if op == 0x10
    then (reg_dc0, reg_h)
    else if op == 0x11
    then (reg_h, reg_dc0)
    else if op == 0x1d
    then (reg_w, 9)
    else if op == 0x1e
    then (9, reg_w)
    else if leb 0x50 op
    then (op - 0x50, reg_a)
    else (reg_a, op - 0x40)

bit_or_nibble : (r : ℕ) → r < 15 → (bit_or 0x40 r ≡ 0x40 + r) × (bit_or 0x50 r ≡ 0x50 + r)
bit_or_nibble r h = (
  (==_iff _ _).0 (all_below-lt 15 r (λ r. bit_or 0x40 r == 0x40 + r) refl h),
  (==_iff _ _).0 (all_below-lt 15 r (λ r. bit_or 0x50 r == 0x50 + r) refl h),
)

-- an opcode that was found is read as the two operands
abbrev pub ReadsAs : ℕ → ℕ → Option ℕ → Type 0
ReadsAs dst src none = Unit
ReadsAs dst src (some op) = lr_operands op ≡ (dst, src)

load_a_lem : (src : ℕ) → ReadsAs reg_a src (load_a src)
unfolding load_a
load_a_lem src = elim (Bool-cases (ltb src 15)) [
  | inl h ↦ rw (h, (bit_or_nibble src (ltb→lt src 15 h)).0) (ground arith)
  | inr h ↦ ground arith
]

load_scratchpad_lem : (dst src : ℕ) → ReadsAs dst src (load_scratchpad dst src)
unfolding load_scratchpad
load_scratchpad_lem dst src = elim (Bool-cases (ltb dst 15)) [
  | inl h ↦ rw (h, (bit_or_nibble dst (ltb→lt dst 15 h)).1) (ground arith)
  | inr h ↦ ground arith
]

-- For every pair of operands, an opcode that LR finds is one that the processor reads as that pair of
-- destination and source, so no two pairs share an opcode.
pub lr_opcode-operands : (dst src : ℕ) → Partial (ReadsAs dst src) (lr_opcode dst src)
unfolding lr_opcode
lr_opcode-operands dst src = ground (arith, load_a_lem src, load_scratchpad_lem dst src)
