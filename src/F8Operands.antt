-- ===== src/F8Operands.antt =====
-- The operands of the instructions of the Fairchild F8, src/src/mnef8.c: values, registers and the comma between
-- two of them.
pub mod Commas
use dasm_dillon_code_sourcef.Common.{
  ℕ, ◌+◌, ◌%◌, Bool, true, false, not, ◌&&◌, ◌||◌, List, [], ◌∷◌, map, Option, none, some, length,
  take, drop, if◌then◌else◌, ◌==◌, ltb, Run, ok, fault, ◌>>=◌, codes,
}
use dasm_dillon_code_sourcef.Asm.{Symbol, AddressMode, byteadr, max_sym_len}
use dasm_dillon_code_sourcef.Util.{same_bytes, tolower, strip_whitespace}
use dasm_dillon_code_sourcef.Symbols.{count_redo}
use dasm_dillon_code_sourcef.Conditional.{Source}
use dasm_dillon_code_sourcef.Origin.{eval_nodes}

-- enum REGISTERS
abbrev pub reg_a : ℕ
reg_a = 16

abbrev pub reg_dc0 : ℕ
reg_dc0 = 17

abbrev pub reg_h : ℕ
reg_h = 18

abbrev pub reg_is : ℕ
reg_is = 19

abbrev pub reg_k : ℕ
reg_k = 20

abbrev pub reg_ku : ℕ
reg_ku = 21

abbrev pub reg_kl : ℕ
reg_kl = 22

abbrev pub reg_pc0 : ℕ
reg_pc0 = 23

abbrev pub reg_pc1 : ℕ
reg_pc1 = 24

abbrev pub reg_q : ℕ
reg_q = 25

abbrev pub reg_qu : ℕ
reg_qu = 26

abbrev pub reg_ql : ℕ
reg_ql = 27

abbrev pub reg_w : ℕ
reg_w = 28

abbrev pub reg_none : ℕ
reg_none = 29

abbrev pub reason_mnemonic_not_resolved : ℕ
reason_mnemonic_not_resolved = 1

abbrev pub is_byteadr : AddressMode → Bool
is_byteadr byteadr = true
is_byteadr _ = false

abbrev pub is_empty : List Symbol → Bool
is_empty [] = true
is_empty _ = false

-- what `parse_value` reads: whether the expression is unresolved, and the value, which is 0 for an
-- unresolved expression and for one that is reported
unfoldable pub value_of : List Symbol → Source → Run (Bool × ℕ × Source)
value_of [] s = fault
value_of (sym ∷ rest) s =
    if not (is_empty rest) || not (is_byteadr sym.addrmode)
    then ok (false, 0, s)
    else if sym.flags.unknown
    then ok (true, 0, record s { globals = count_redo reason_mnemonic_not_resolved s.globals })
    else ok (false, sym.value, s)

unfoldable pub parse_value : ℕ → List ℕ → Source → Run (Bool × ℕ × Source)
parse_value depth str s = do (nodes, s1) ← eval_nodes depth str s; value_of nodes s1

-- `strcasecmp(a, b) == 0`
abbrev pub same_text : List ℕ → List ℕ → Bool
same_text a b = same_bytes (map tolower a) (map tolower b)

-- the names of scratchpad registers
unfoldable pub register_name : List ℕ → Option ℕ
register_name str =
    if same_text (codes "s") str || same_text (codes "(is)") str
    then some 0x0c
    else if same_text (codes "i") str || same_text (codes "(is)+") str
    then some 0x0d
    else if same_text (codes "d") str || same_text (codes "(is)-") str
    then some 0x0e
    else if same_text (codes "j") str
    then some 0x09
    else if same_text (codes "hu") str
    then some 0x0a
    else if same_text (codes "hl") str
    then some 0x0b
    else none

-- the register that an expression names; a value above 14 is reported and kept
unfoldable pub register_number : Bool × ℕ × Source → Option ℕ × Source
register_number (unresolved, regnum, s) = if unresolved then (none, s) else (some (regnum % 256), s)

-- `*reg`, which is not written where the expression is unresolved
unfoldable pub parse_scratchpad_register : ℕ → List ℕ → Source → Run (Option ℕ × Source)
parse_scratchpad_register depth str s = elim (register_name str) [
  | some reg ↦ ok (some reg, s)
  | none ↦ (do r ← parse_value depth str s; ok (register_number r))
]

unfoldable pub parse_special_register : List ℕ → ℕ
parse_special_register str =
    if same_text (codes "a") str
    then reg_a
    else if same_text (codes "dc0") str || same_text (codes "dc") str
    then reg_dc0
    else if same_text (codes "h") str
    then reg_h
    else if same_text (codes "is") str
    then reg_is
    else if same_text (codes "k") str
    then reg_k
    else if same_text (codes "ku") str
    then reg_ku
    else if same_text (codes "kl") str
    then reg_kl
    else if same_text (codes "pc0") str || same_text (codes "p0") str
    then reg_pc0
    else if same_text (codes "pc1") str || same_text (codes "p") str
    then reg_pc1
    else if same_text (codes "q") str
    then reg_q
    else if same_text (codes "qu") str
    then reg_qu
    else if same_text (codes "ql") str
    then reg_ql
    else if same_text (codes "w") str
    then reg_w
    else reg_none

-- the loop of `find_commas` from index `i`
unfoldable pub commas_from : ℕ → List ℕ → ℕ × ℕ → ℕ × ℕ
commas_from i [] found = found
commas_from i (c ∷ str) (n, first) =
    commas_from (i + 1) str (if c == b',' then (n + 1, i) else (n, first))

-- the number of commas, and the place of the last one
unfoldable pub find_commas : List ℕ → ℕ × ℕ
find_commas str = commas_from 0 str (0, 0)

-- the assertions are faults
unfoldable pub extract_operands : List ℕ → ℕ → Run (List ℕ × List ℕ)
extract_operands str cindex =
    if ltb 0 cindex && ltb cindex (length str) && ltb (length str) max_sym_len
    then ok (
      (strip_whitespace (take cindex str) max_sym_len).0,
      (strip_whitespace (drop (cindex + 1) str) max_sym_len).0,
    )
    else fault

-- an operand of LR: none where its expression is unresolved
unfoldable pub parse_register : ℕ → List ℕ → Source → Run (Option ℕ × Source)
parse_register depth str s =
    let reg = parse_special_register str in
    if reg == reg_none then parse_scratchpad_register depth str s else ok (some reg, s)
