-- ===== src/Instructions.antt =====
-- `v_mnemonic` of src/src/ops.c: an instruction from its operands. Addressing modes are numbers here, as in the tables
-- of src/src/globals.c. `stale i` is what an earlier line left in Gen[i], which is generated where an
-- argument is missing or a branch is not known yet.
pub mod Modes
use dasm_dillon_code_sourcef.Common.{
  ℕ, zero, suc, ◌+◌, ◌*◌, ◌/◌, ◌%◌, ◌^◌, Bool, true, not, ◌||◌, List, [], ◌∷◌, ◌++◌, Option, none,
  some, length, get_or, if◌then◌else◌, ◌==◌, ltb, Run, ok, fault, out_of_fuel, ◌>>=◌,
}
use dasm_dillon_code_sourcef.Asm.{
  Symbol, AddressMode, imp, imm8, imm16, byteadr, byteadrx, byteadry, wordadr, wordadrx, wordadry,
  rel, indbytex, indbytey, indword, zero_x, zero_y, bitmod, bitbramod, symbol, explist, long, bss,
}
use dasm_dillon_code_sourcef.Long.{sub, neg, lt_long}
use dasm_dillon_code_sourcef.Symbols.{Globals, count_redo, current_pc, current_unknown}
use dasm_dillon_code_sourcef.Exp.Scan.Eval.{eval}
use dasm_dillon_code_sourcef.Output.{generate}
use dasm_dillon_code_sourcef.Conditional.{place_here}
use dasm_dillon_code_sourcef.Origin.{Work, Done, in_segment, with_source}
use dasm_dillon_code_sourcef.Mnemonics.{Mnemonic}
use dasm_dillon_code_sourcef.F8Operands.{reason_mnemonic_not_resolved}

-- enum ADDRESS_MODES
abbrev pub mode_number : AddressMode → ℕ
mode_number imp = 0
mode_number imm8 = 1
mode_number imm16 = 2
mode_number byteadr = 3
mode_number byteadrx = 4
mode_number byteadry = 5
mode_number wordadr = 6
mode_number wordadrx = 7
mode_number wordadry = 8
mode_number rel = 9
mode_number indbytex = 10
mode_number indbytey = 11
mode_number indword = 12
mode_number zero_x = 13
mode_number zero_y = 14
mode_number bitmod = 15
mode_number bitbramod = 16
mode_number symbol = 17
mode_number explist = 18
mode_number long = 19
mode_number bss = 20

-- Cvt
abbrev pub cvt : List ℕ
cvt = 0 ∷ 2 ∷ 0 ∷ 6 ∷ 7 ∷ 8 ∷ 9 ∷ 0 ∷ 0 ∷ 0 ∷ 0 ∷ 0 ∷ 0 ∷ 4 ∷ 5 ∷ 0 ∷ 0 ∷ []

-- Opsize
abbrev pub opsizes : List ℕ
opsizes = 0 ∷ 1 ∷ 2 ∷ 1 ∷ 1 ∷ 1 ∷ 2 ∷ 2 ∷ 2 ∷ 2 ∷ 1 ∷ 1 ∷ 2 ∷ 0 ∷ 0 ∷ 1 ∷ 1 ∷ []

-- the assertion is a fault
unfoldable pub convert_address_mode : ℕ → Run ℕ
convert_address_mode am = if ltb am 17 then ok (get_or cvt am 0) else fault

unfoldable pub operand_size : ℕ → Run ℕ
operand_size am = if ltb am 17 then ok (get_or opsizes am 0) else fault

-- badcode(mne, am)
unfoldable pub badcode : ℕ → ℕ → Bool
badcode okmask am = (okmask / 2 ^ am) % 2 == 0

-- every unknown operand asks for another pass
unfoldable pub count_unknown : List Symbol → Globals → Globals
count_unknown [] g = g
count_unknown (sym ∷ rest) g =
    count_unknown rest (if sym.flags.unknown then count_redo reason_mnemonic_not_resolved g else g)

-- a value that does not fit the range from -128 to 255
abbrev pub out_of_byte : ℕ → Bool
out_of_byte value = lt_long value (neg 0x80) || not (lt_long value 0x100)

-- the mode that the operands have
unfoldable pub first_mode : Mnemonic → Symbol → List Symbol → ℕ
first_mode mne sym [] = mode_number sym.addrmode
first_mode mne sym (next ∷ rest) =
    if mne.imod then (if mne.rel then 16 else 15) else mode_number sym.addrmode

-- the bytes that the operand needs
unfoldable pub needed_size : Symbol → ℕ
needed_size sym =
    if sym.flags.unknown || out_of_byte sym.value then 2 else if sym.value == 0 then 0 else 1

-- the first loop: modes that the instruction does not have are converted
unfoldable pub allowed_mode : ℕ → ℕ → ℕ → Run ℕ
allowed_mode zero okmask am = out_of_fuel
allowed_mode (suc k) okmask am =
    let next = convert_address_mode am >>= λ wider.
    (if wider == 0 then ok am else allowed_mode k okmask wider) in
    if badcode okmask am then next else ok am

-- the second loop, on a mode that the instruction has: it is widened to the needed size as far as that goes
unfoldable pub widened_mode : ℕ → ℕ → ℕ → ℕ → Run ℕ
widened_mode zero okmask opsize am = out_of_fuel
widened_mode (suc k) okmask opsize am = do
  size ← operand_size am
  wider ← convert_address_mode am
  let more = widened_mode k okmask opsize wider
  if ltb size opsize then (if wider == 0 || badcode okmask wider then ok am else more) else ok am

-- the mode, between the loops: the forced one, if there is one; none stands for the error of a mode that the
-- instruction does not have
unfoldable pub forced_mode : ℕ → Option AddressMode → ℕ → Option ℕ
forced_mode okmask none am = if badcode okmask am then none else some am
forced_mode okmask (some mnext) am =
    if badcode okmask am
    then none
    else if badcode okmask (mode_number mnext)
    then none
    else some (mode_number mnext)

-- rounds enough for both loops
abbrev pub mode_fuel : ℕ
mode_fuel = 5

unfoldable pub widen : ℕ → ℕ → Option ℕ → Run (Option ℕ)
widen okmask opsize none = ok none
widen okmask opsize (some am) = do wide ← widened_mode mode_fuel okmask opsize am; ok (some wide)

-- the final mode
unfoldable pub choose_mode : Mnemonic → Option AddressMode → Symbol → List Symbol → Run (Option ℕ)
choose_mode mne mnext sym rest = do
  am ← allowed_mode mode_fuel mne.okmask (first_mode mne sym rest)
  widen mne.okmask (needed_size sym) (forced_mode mne.okmask mnext am)

-- an opcode of one byte, or of two
unfoldable pub opcode_bytes : ℕ → List ℕ
opcode_bytes opcode =
    if ltb 0xff opcode then (opcode / 2 ^ 8) % 256 ∷ opcode % 256 ∷ [] else opcode % 256 ∷ []

-- the number of a bit, in the first byte; an unknown one, or one above 7, which is reported, adds nothing
unfoldable pub add_bit : Symbol → List ℕ → List ℕ
add_bit sym [] = []
add_bit sym (b ∷ bytes) =
    if sym.flags.unknown || lt_long 7 sym.value
    then b ∷ bytes
    else (b + sym.value * 2) % 256 ∷ bytes

-- the bytes of an address
unfoldable pub value_bytes : Bool → ℕ → ℕ → List ℕ
value_bytes msb_order size value =
    let low = value % 256 in
    let high = (value / 2 ^ 8) % 256 in
    if size == 0
    then []
    else if size == 2
    then (if msb_order then high ∷ low ∷ [] else low ∷ high ∷ [])
    else low ∷ []

-- The switch on the mode: the bytes so far, and the operands that are left. The modes of bits need a second operand.
abbrev pub Operands : Type 0
Operands = List ℕ × List Symbol

unfoldable pub bit_operand : Bool → Symbol → List Symbol → List ℕ → Run Operands
bit_operand branches sym [] bytes = fault
bit_operand branches sym (next ∷ rest) bytes =
    ok (add_bit sym (bytes ++ next.value % 256 ∷ []), (if branches then rest else next ∷ rest))

unfoldable pub mode_bytes : Bool → ℕ → Symbol → List Symbol → List ℕ → Run Operands
mode_bytes msb_order am sym rest bytes =
    let address =
      operand_size am >>= λ size. ok (bytes ++ value_bytes msb_order size sym.value, rest) in
    let bits = bit_operand (am == 16) sym rest bytes in
    if am == 15 || am == 16 then bits else if am == 9 then ok (bytes, sym ∷ rest) else address

-- MF_MASK; without an argument, which is reported, the byte is an earlier one
unfoldable pub mask_byte : (ℕ → ℕ) → Operands → Operands
mask_byte stale (bytes, []) = (bytes ++ stale (length bytes) ∷ [], [])
mask_byte stale (bytes, sym ∷ rest) = (bytes ++ sym.value % 256 ∷ [], rest)

-- the displacement of a branch, of an instruction of `opidx` bytes; the Boolean tells that it is reported
unfoldable pub rel_displacement : ℕ → ℕ → ℕ → ℕ × Bool
rel_displacement target pc opidx =
    let dest = sub (sub target pc) opidx in
    (dest % 256, not (lt_long dest 128) || lt_long dest (neg 128))

-- MF_REL: the displacement of a known operand at a known origin, 0 at an unknown one; without an argument, which is
-- reported, or for an unknown operand, the byte is an earlier one
unfoldable pub rel_byte : (ℕ → ℕ) → Globals → Operands → List ℕ
rel_byte stale g (bytes, []) = bytes ++ stale (length bytes) ∷ []
rel_byte stale g (bytes, sym ∷ rest) =
    if sym.flags.unknown
    then bytes ++ stale (length bytes) ∷ []
    else if current_unknown g
    then bytes ++ 0 ∷ []
    else bytes ++ (rel_displacement sym.value (current_pc g) (length bytes + 1)).0 ∷ []

-- all bytes of the instruction
unfoldable pub instruction_bytes :
    (ℕ → ℕ) → Bool → Mnemonic → ℕ → Symbol → List Symbol → Globals → Run (List ℕ)
instruction_bytes stale msb_order mne am sym rest g = do
  r ← mode_bytes msb_order am sym rest (opcode_bytes (get_or mne.opcode am 0))
  let masked = if mne.mask then mask_byte stale r else r
  ok (if mne.rel || am == 9 then rel_byte stale g masked else masked.0)

-- the instruction in its mode; without one, which is reported, nothing is generated
unfoldable pub assemble : (ℕ → ℕ) → Bool → Mnemonic → Symbol → List Symbol → Work → Option ℕ → Done
assemble stale msb_order mne sym rest w none = ok (some w)
assemble stale msb_order mne sym rest (s, o) (some am) = do
  bytes ← instruction_bytes stale msb_order mne am sym rest s.globals
  ok (with_source s (generate (record o { gen = bytes }) s.globals))

unfoldable pub mnemonic_nodes :
    (ℕ → ℕ) → Bool → Option AddressMode → Mnemonic → Work → List Symbol → Done
mnemonic_nodes stale msb_order mnext mne w [] = fault
mnemonic_nodes stale msb_order mnext mne (s, o) (sym ∷ rest) = do
  am ← choose_mode mne mnext sym rest
  assemble stale msb_order mne sym rest
      (record s { globals = count_unknown (sym ∷ rest) s.globals }, o) am

unfoldable pub v_mnemonic :
    (ℕ → ℕ) → ℕ → Bool → Option AddressMode → List ℕ → Mnemonic → Work → Done
v_mnemonic stale depth msb_order mnext str mne (s, o) = do
  s1 ← place_here (in_segment (λ seg. record seg { flags = record (seg.flags) { ref = true } }) s)
  (nodes, m, g) ← eval depth str true s1.machine s1.globals
  mnemonic_nodes stale msb_order mnext mne (record s1 { machine = m; globals = g }, o) nodes
