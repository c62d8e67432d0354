-- ===== src/F8/Sizes.antt =====
-- How many bytes the handlers of src/src/mnef8.c generate.
use dasm_dillon_code_sourcef.Common.{
  ℕ, ◌≡◌, refl, Bool, true, false, List, [], ◌∷◌, Option, some, none, length, Run, ok, ◌>>=◌,
  Partial, Partial-any, ◌⊎◌, inl, inr, ◌==◌, arith,
}
use dasm_dillon_code_sourcef.Output.{Output, generate}
use dasm_dillon_code_sourcef.Conditional.{Source, place_here}
use dasm_dillon_code_sourcef.Origin.{Work, Done, with_source}
use dasm_dillon_code_sourcef.Mnemonics.{
  Vect, Mnemonic, vect_byteop, vect_wordop, vect_branch, vect_bf_bt, vect_sreg_op, vect_ins_outs,
  vect_lis, vect_lisu_lisl, vect_sl_sr, vect_lr,
}
use dasm_dillon_code_sourcef.F8.{
  run_f8, emit_opcode, emit_found, v_byteop, v_wordop, v_branch, v_bf_bt, v_sreg_op, v_ins_outs,
  v_lis, v_lisu_lisl, v_sl_sr, v_lr, generate_branch, branch_if, branch_to, branch_bytes, lr_from,
  lr_second, lr_opcode,
}
use dasm_dillon_code_sourcef.F8Operands.{
  find_commas, extract_operands, parse_value, parse_register, parse_scratchpad_register,
}

-- the length of an instruction in bytes
abbrev pub instruction_size : Vect → ℕ
instruction_size vect_wordop = 3
instruction_size vect_byteop = 2
instruction_size vect_branch = 2
instruction_size vect_bf_bt = 2
instruction_size _ = 1

-- the handlers of two operands, which report a text that is none
abbrev pub takes_two : Vect → Bool
takes_two vect_bf_bt = true
takes_two vect_lr = true
takes_two _ = false

-- The result is that of `generate` on `n` bytes, or else, where `two` allows it, nothing was generated.
abbrev pub Reserves : ℕ → Bool → Output → Option Work → Type 0
Reserves n two o r =
    ((bytes : List ℕ) × (s : Source) × (length bytes ≡ n)
      × (r ≡ with_source s (generate (record o { gen = bytes }) s.globals)))
    ⊎ ((two ≡ true) × (s : Source) × (r ≡ some (s, o)))

emit_opcode-Reserves :
    (two : Bool) (bytes : List ℕ) (s : Source) (o : Output)
    → Partial (Reserves (length bytes) two o) (emit_opcode bytes (s, o))
unfolding emit_opcode
emit_opcode-Reserves two bytes s o = inl (bytes, s, refl, refl)

-- the handlers that place the label, evaluate the operand and generate
operand-Reserves :
    {A : Type 0} (n : ℕ) (two : Bool) (s : Source) (o : Output) (parse : Source → Run A)
    (f : A → Done)
    → ((a : A) → Partial (Reserves n two o) (f a))
    → Partial (Reserves n two o) (place_here s >>= (λ s1. parse s1 >>= f))
operand-Reserves n two s o parse f h =
    Partial-any (Reserves n two o) (place_here s) _
      (λ s1. Partial-any (Reserves n two o) (parse s1) f h)

branch_to-length : (opcode : ℕ) (r : Bool × ℕ × Source) → length (branch_to opcode r) ≡ 2
unfolding branch_to branch_bytes
branch_to-length opcode (unresolved, target, s) = ground arith

generate_branch-Reserves :
    (two : Bool) (depth opcode : ℕ) (str : List ℕ) (s : Source) (o : Output)
    → Partial (Reserves 2 two o) (generate_branch depth opcode str (s, o))
unfolding generate_branch emit_opcode
generate_branch-Reserves two depth opcode str s o =
    operand-Reserves 2 two s o (parse_value depth str) _
      (λ r. inl (branch_to opcode r, r.2, branch_to-length opcode r, refl))

branch_if-Reserves :
    (depth : ℕ) (op2 : List ℕ) (mne : Mnemonic) (s : Source) (o : Output) (r : Bool × ℕ × Source)
    → Partial (Reserves 2 true o) (branch_if depth op2 mne (s, o) r)
unfolding branch_if
branch_if-Reserves depth op2 mne s o (true, value, s2) = emit_opcode-Reserves true (0 ∷ 0 ∷ []) s2 o
branch_if-Reserves depth op2 mne s o (false, value, s2) =
    generate_branch-Reserves true depth _ op2 s2 o

two_commas :
    (b : Bool) (n : ℕ) (s : Source) (o : Output) (r : Done)
    → Partial (Reserves n true o) r
    → Partial (Reserves n true o) (elim b [ false ↦ ok (some (s, o)) | true ↦ r ])
two_commas true n s o r h = h
two_commas false n s o r h = inr (refl, s, refl)

v_bf_bt-Reserves :
    (depth : ℕ) (str : List ℕ) (mne : Mnemonic) (s : Source) (o : Output)
    → Partial (Reserves 2 true o) (v_bf_bt depth str mne (s, o))
unfolding v_bf_bt
v_bf_bt-Reserves depth str mne s o = two_commas ((find_commas str).0 == 1) 2 s o _ (
    Partial-any _ (extract_operands str (find_commas str).1) _ (λ (op1, op2).
      Partial-any _ (parse_value depth op1 s) _ (branch_if-Reserves depth op2 mne s o)))

emit_found-Reserves :
    (s : Source) (o : Output) (opcode : Option ℕ)
    → Partial (Reserves 1 true o) (emit_found opcode (s, o))
unfolding emit_found
emit_found-Reserves s o none = inr (refl, s, refl)
emit_found-Reserves s o (some opcode) = emit_opcode-Reserves true (opcode ∷ []) s o

lr_second-Reserves :
    (dst : ℕ) (s : Source) (o : Output) (reg : Option ℕ)
    → Partial (Reserves 1 true o) (lr_second dst (s, o) reg)
unfolding lr_second
lr_second-Reserves dst s o none = emit_opcode-Reserves true (0 ∷ []) s o
lr_second-Reserves dst s o (some src) =
    Partial-any _ (lr_opcode dst src) _ (emit_found-Reserves s o)

lr_from-Reserves :
    (depth : ℕ) (op2 : List ℕ) (s : Source) (o : Output) (r : Option ℕ × Source)
    → Partial (Reserves 1 true o) (lr_from depth op2 (s, o) r)
unfolding lr_from
lr_from-Reserves depth op2 s o (none, s2) = emit_opcode-Reserves true (0 ∷ []) s2 o
lr_from-Reserves depth op2 s o (some dst, s2) =
    Partial-any _ (parse_register depth op2 s2) _ (λ (reg, s3). lr_second-Reserves dst s3 o reg)

v_lr-Reserves :
    (depth : ℕ) (str : List ℕ) (s : Source) (o : Output)
    → Partial (Reserves 1 true o) (v_lr depth str (s, o))
unfolding v_lr
v_lr-Reserves depth str s o = Partial-any _ (place_here s) _ (λ s1.
    two_commas ((find_commas str).0 == 1) 1 s1 o _ (
      Partial-any _ (extract_operands str (find_commas str).1) _ (λ (op1, op2).
        Partial-any _ (parse_register depth op1 s1) _ (lr_from-Reserves depth op2 s1 o))))

-- Whatever its operand is, unresolved, out of range or no operand at all, an F8 instruction that comes to an
-- end generates exactly as many bytes as the instruction has. Only the handlers of two operands may instead
-- report their text, and then leave the object file alone.
pub run_f8-Reserves :
    (vect : Vect) (junk depth : ℕ) (str : List ℕ) (mne : Mnemonic) (s : Source) (o : Output)
    → Partial
        (Reserves (instruction_size vect) (takes_two vect) o)
        (run_f8 vect junk depth str mne (s, o))
unfolding run_f8 v_byteop v_wordop v_branch v_sreg_op v_ins_outs v_lis v_lisu_lisl v_sl_sr
    emit_opcode
run_f8-Reserves vect_byteop junk depth str mne s o =
    operand-Reserves 2 false s o (parse_value depth str) _
      (λ (unresolved, value, s2). inl (_, s2, refl, refl))
run_f8-Reserves vect_wordop junk depth str mne s o =
    operand-Reserves 3 false s o (parse_value depth str) _
      (λ (unresolved, value, s2). inl (_, s2, refl, refl))
run_f8-Reserves vect_branch junk depth str mne s o = generate_branch-Reserves false depth _ str s o
run_f8-Reserves vect_bf_bt junk depth str mne s o = v_bf_bt-Reserves depth str mne s o
run_f8-Reserves vect_sreg_op junk depth str mne s o =
    operand-Reserves 1 false s o (parse_scratchpad_register depth str) _
      (λ (reg, s2). inl (_, s2, refl, refl))
run_f8-Reserves vect_ins_outs junk depth str mne s o =
    operand-Reserves 1 false s o (parse_value depth str) _
      (λ (unresolved, value, s2). inl (_, s2, refl, refl))
run_f8-Reserves vect_lis junk depth str mne s o =
    operand-Reserves 1 false s o (parse_value depth str) _
      (λ (unresolved, value, s2). inl (_, s2, refl, refl))
run_f8-Reserves vect_lisu_lisl junk depth str mne s o =
    operand-Reserves 1 false s o (parse_value depth str) _
      (λ (unresolved, value, s2). inl (_, s2, refl, refl))
run_f8-Reserves vect_sl_sr junk depth str mne s o =
    operand-Reserves 1 false s o (parse_value depth str) _
      (λ (unresolved, value, s2). inl (_, s2, refl, refl))
run_f8-Reserves vect_lr junk depth str mne s o = v_lr-Reserves depth str s o
run_f8-Reserves _ junk depth str mne s o = tt
