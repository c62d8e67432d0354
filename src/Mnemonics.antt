-- ===== src/Mnemonics.antt =====
-- The mnemonics of src/src/main.c: MNEMONIC and MACRO of src/src/asm.h, and the hash table `MHash` that holds
-- both. A list of nodes is a chain, and a table the list of its chains.
pub mod Tables
pub mod Lookup
pub mod Mos6502
pub mod Hitachi6303
pub mod Motorola6811
pub mod Motorola68705
pub mod Processors
use dasm_dillon_code_sourcef.Common.{
  ℕ, zero, suc, ◌/◌, ◌%◌, ◌^◌, Bool, true, false, List, [], ◌∷◌, Option, none, some, map, length,
  get_or, set, drop, if◌then◌else◌, ◌==◌, ltb, Run, ok, fault,
}
use dasm_dillon_code_sourcef.Util.{hash_string, same_bytes, tolower}
use dasm_dillon_code_sourcef.Symbols.{starts_with}

-- the handlers that the tables name: the field `vect`, a pointer to a function, as the name of the function
pub data Vect : Type 0 where
  vect_list vect_include vect_seg vect_hex vect_err vect_dc vect_ds vect_end vect_trace vect_org
        vect_rorg vect_rend vect_align vect_subroutine vect_equ vect_eqm vect_set vect_macro
        vect_endm vect_mexit vect_ifconst vect_ifnconst vect_if vect_else vect_endif vect_repeat
        vect_repend vect_echo vect_processor vect_incbin vect_incdir vect_mnemonic vect_byteop
        vect_sreg_op vect_branch vect_bf_bt vect_wordop vect_ins_outs vect_lis vect_lisu_lisl
        vect_lr vect_sl_sr vect_execmac :
      Vect

-- MNEMONIC, with the bits of its flags: MF_IF, MF_MASK, MF_REL, MF_IMOD and MF_ENDM; `okmask` has a bit for
-- each addressing mode
pub record Mnemonic : Type 0 where
  pub vect : Vect
  pub name : List ℕ
  pub is_if : Bool
  pub mask : Bool
  pub rel : Bool
  pub imod : Bool
  pub is_endm : Bool
  pub okmask : ℕ
  pub opcode : List ℕ

-- MACRO, which is in the same chains: its name and its lines
pub record Macro : Type 0 where
  pub name : List ℕ
  pub strlist : List (List ℕ)

pub data Command : Type 0 where
  instruction : Mnemonic → Command
  defined : Macro → Command

abbrev pub command_name : Command → List ℕ
command_name (instruction mne) = mne.name
command_name (defined mac) = mac.name

-- mne->opcode[0]
abbrev pub base_opcode : Mnemonic → ℕ
base_opcode mne = get_or mne.opcode 0 0

abbrev pub MnemonicHash : Type 0
MnemonicHash = List (List Command)

-- NUMOC, the number of addressing modes
abbrev pub numoc : ℕ
numoc = 21

-- `hash_mnemonic`, for a table of 2 ^ 10 chains
unfoldable pub hash_mnemonic : List ℕ → ℕ
hash_mnemonic str = hash_string str % 2 ^ 10

-- the loop along a chain
unfoldable pub find_command : List ℕ → List Command → Option Command
find_command name [] = none
find_command name (c ∷ chain) =
    let rest = find_command name chain in if same_bytes (command_name c) name then some c else rest

unfoldable pub find_name : MnemonicHash → List ℕ → Option Command
find_name table name = find_command name (get_or table (hash_mnemonic name) [])

-- a leading period is no part of the name
abbrev pub drop_period : List ℕ → List ℕ
drop_period str = if starts_with b'.' str then drop 1 str else str

-- `findmne`; a name that does not fit the buffer fails the assertion
unfoldable pub findmne : MnemonicHash → List ℕ → Run (Option Command)
findmne table [] = ok none
findmne table (c ∷ str) =
    let name = drop_period (c ∷ str) in
    if ltb (length name) 1024 then ok (find_name table (map tolower name)) else fault

-- the opcodes of `n` addressing modes, where each bit of `okmask` takes the next entry of the table
unfoldable pub spread_opcodes : ℕ → ℕ → List ℕ → List ℕ
spread_opcodes zero okmask opcode = []
spread_opcodes (suc n) okmask opcode =
    let taken = get_or opcode 0 0 ∷ spread_opcodes n (okmask / 2) (drop 1 opcode) in
    let left = 0 ∷ spread_opcodes n (okmask / 2) opcode in if okmask % 2 == 1 then taken else left

-- a node at the head of its chain
unfoldable pub add_command : Command → MnemonicHash → MnemonicHash
add_command c table = let i = hash_mnemonic (command_name c) in set table i (c ∷ get_or table i [])

unfoldable pub add_mnemonic : Mnemonic → MnemonicHash → MnemonicHash
add_mnemonic mne table =
    add_command (instruction (record mne { opcode = spread_opcodes numoc mne.okmask mne.opcode }))
      table

-- `addhashtable`; that a name is overridden is only told
unfoldable pub addhashtable : List Mnemonic → MnemonicHash → MnemonicHash
addhashtable [] table = table
addhashtable (mne ∷ rest) table = addhashtable rest (add_mnemonic mne table)

-- a line of the tables
abbrev pub line_of : Vect → List ℕ → ℕ → List ℕ → Mnemonic
line_of vect name okmask opcode = record {
  vect = vect;
  name = name;
  is_if = false;
  mask = false;
  rel = false;
  imod = false;
  is_endm = false;
  okmask = okmask;
  opcode = opcode;
}

-- a line without opcodes
abbrev pub directive : Vect → List ℕ → Mnemonic
directive vect name = line_of vect name 0 []

-- a line with MF_IF
abbrev pub always : Vect → List ℕ → Mnemonic
always vect name = record (directive vect name) { is_if = true }
