-- ===== src/F8/Branch.antt =====
-- Where the branches of src/src/mnef8.c go.
use dasm_dillon_code_sourcef.Common.{
  ℕ, ◌+◌, ◌-◌, ◌%◌, ◌<◌, ◌≡◌, refl, ap, false, ◌||◌, [], ◌∷◌, List, if◌then◌else◌, ltb, arith, ok,
  ◌↔◌,
}
use dasm_dillon_code_sourcef.Long.{long_mod, sub, neg, lt_long}
use dasm_dillon_code_sourcef.Asm.{Symbol, byteadr}
use dasm_dillon_code_sourcef.Symbols.{current_pc, current_unknown}
use dasm_dillon_code_sourcef.Output.{Output}
use dasm_dillon_code_sourcef.Conditional.{Source, place_here}
use dasm_dillon_code_sourcef.Origin.{eval_nodes}
use dasm_dillon_code_sourcef.Mnemonics.{Mnemonic, base_opcode}
use dasm_dillon_code_sourcef.F8.{branch_bytes, branch_to, generate_branch, v_branch, emit_opcode}
use dasm_dillon_code_sourcef.F8Operands.{parse_value, value_of}

-- where the processor goes on for a displacement: the byte counts from its own address, and is signed
abbrev pub branch_target : ℕ → ℕ → ℕ
branch_target pc d = (pc + 1 + (if ltb d 128 then d else d + (long_mod - 256))) % long_mod

branch_bytes_only :
    (opcode target pc d : ℕ)
    → target < long_mod
    → pc < long_mod
    → d < 256
    → branch_target pc d ≡ target
    → branch_bytes opcode target pc ≡ (opcode ∷ d ∷ [], false)
unfolding branch_bytes sub neg lt_long
branch_bytes_only opcode target pc d ht hp hd e =
    let far : sub (sub target pc) 1 ≡ (if ltb d 128 then d else d + (long_mod - 256)) =
      ground arith in
    let low : sub (sub target pc) 1 % 256 ≡ d = ground arith in
    let near : (lt_long 127 (sub (sub target pc) 1) || lt_long (sub (sub target pc) 1) (neg 128))
        ≡ false =
      rw far (ground arith) in
    rw (low, near) refl

displacement_of :
    (opcode target pc : ℕ)
    → target < long_mod
    → pc < long_mod
    → (branch_bytes opcode target pc).1 ≡ false
    → branch_target pc (sub (sub target pc) 1 % 256) ≡ target
unfolding branch_bytes sub neg lt_long
displacement_of opcode target pc ht hp near = ground arith

-- At a known origin, a branch is reported as out of range exactly where no byte of displacement leads from
-- it to the target; where one does, that byte is the one behind the opcode.
pub branch_bytes_iff :
    (opcode target pc : ℕ)
    → target < long_mod
    → pc < long_mod
    → ((branch_bytes opcode target pc).1 ≡ false) ↔ (
        (d : ℕ) × (d < 256)
        × (branch_target pc d ≡ target)
        × ((branch_bytes opcode target pc).0 ≡ opcode ∷ d ∷ []))
branch_bytes_iff opcode target pc ht hp = (
  λ near.
      let reached = displacement_of opcode target pc ht hp near in
      let below : sub (sub target pc) 1 % 256 < 256 = omega arith in
      (
        sub (sub target pc) 1 % 256,
        below,
        reached,
        ap (λ r. r.0) (branch_bytes_only opcode target pc _ ht hp below reached),
      ),
  λ (d, below, reached, bytes).
      ap (λ r. r.1) (branch_bytes_only opcode target pc d ht hp below reached),
)

-- A branch whose label is placed, whose operand evaluates to one known byte address at a known origin, and
-- for which a displacement leads to that address, generates its opcode and that displacement.
pub v_branch-reaches :
    (depth : ℕ) (str : List ℕ) (mne : Mnemonic) (s s1 s2 : Source) (o : Output) (node : Symbol)
    (d : ℕ)
    → place_here s ≡ ok s1
    → eval_nodes depth str s1 ≡ ok (node ∷ [], s2)
    → node.addrmode ≡ byteadr
    → node.flags.unknown ≡ false
    → current_unknown s2.globals ≡ false
    → node.value < long_mod
    → current_pc s2.globals < long_mod
    → d < 256
    → branch_target (current_pc s2.globals) d ≡ node.value
    → v_branch depth str mne (s, o) ≡ emit_opcode (base_opcode mne % 256 ∷ d ∷ []) (s2, o)
unfolding v_branch generate_branch parse_value value_of branch_to
v_branch-reaches depth str mne s s1 s2 o node d placed read mode known here ht hp hd reached =
    rw
      (
        placed,
        read,
        mode,
        known,
        here,
        branch_bytes_only (base_opcode mne % 256) node.value (current_pc s2.globals) d ht hp hd
            reached,
      )
      refl
