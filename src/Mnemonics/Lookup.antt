-- ===== src/Mnemonics/Lookup.antt =====
-- What `findmne` of src/src/main.c finds behind `addhashtable`.
use dasm_dillon_code_sourcef.Common.{
  ℕ, zero, suc, ◌+◌, ◌/◌, ◌%◌, ◌<◌, ◌≡◌, refl, ap, ◌∙◌, Bool, true, false, List, [], ◌∷◌, Option,
  some, length, ==_refl, length-set, get_or, drop, if◌then◌else◌, ◌==◌, arith, Bool-cases, inl, inr,
  ==_iff,
}
use mathlib.Core.Bool.{false≢true}
use dasm_dillon_code_sourcef.Symbols.Lookup.{get_or-set}
use dasm_dillon_code_sourcef.Util.{same_bytes}
use dasm_dillon_code_sourcef.Util.Strings.{same_bytes_iff}
use dasm_dillon_code_sourcef.Mnemonics.{
  Mnemonic, Command, MnemonicHash, instruction, command_name, numoc, hash_mnemonic, find_command,
  find_name, spread_opcodes, add_command, add_mnemonic, addhashtable,
}

hash_mnemonic-lt : (str : List ℕ) → hash_mnemonic str < 1024
unfolding hash_mnemonic
hash_mnemonic-lt str = omega arith

-- the head of a chain is found under its name, whichever chain it is
find_command-head :
    (b : Bool) (c : Command) (name : List ℕ) (own other : List Command)
    → (same_bytes (command_name c) name ≡ true → b ≡ true)
    → (b ≡ true → own ≡ other)
    → find_command name (if b then c ∷ own else other)
      ≡ (if same_bytes (command_name c) name then some c else find_command name other)
unfolding find_command
find_command-head true c name own other h k = rw (k refl) refl
find_command-head false c name own other h k =
    elim (Bool-cases (same_bytes (command_name c) name)) [
      | inl e ↦ absurd (false≢true (h e))
      | inr e ↦ rw e refl
    ]

-- A node that is added is found under its name, and every other name is found as before.
pub find_name-add_command :
    (c : Command) (table : MnemonicHash) (name : List ℕ)
    → length table ≡ 1024
    → find_name (add_command c table) name
      ≡ (if same_bytes (command_name c) name then some c else find_name table name)
unfolding find_name add_command
find_name-add_command c table name size =
    let i = hash_mnemonic (command_name c) in
    let j = hash_mnemonic name in
    ap (find_command name) (
      get_or-set table i j (c ∷ get_or table i []) []
        (omega (arith, hash_mnemonic-lt (command_name c))))
    ∙ find_command-head (i == j) c name (get_or table i []) (get_or table j [])
        (λ e. rw ((same_bytes_iff (command_name c) name).0 e) (==_refl j))
        (λ e. ap (λ k. get_or table k []) ((==_iff i j).0 e))

-- a line of a table as it stands in a chain
abbrev pub added : Mnemonic → Command
added mne = instruction (record mne { opcode = spread_opcodes numoc mne.okmask mne.opcode })

-- the last line of a table with a name
abbrev pub last_named : List ℕ → List Mnemonic → Option Command → Option Command
last_named name [] before = before
last_named name (mne ∷ rest) before =
    last_named name rest (if same_bytes mne.name name then some (added mne) else before)

length-add_command :
    (c : Command) (table : MnemonicHash) → length (add_command c table) ≡ length table
unfolding add_command
length-add_command c table = length-set table _ _

-- Behind `addhashtable`, a name is found as the last line of the new table that has it, with its opcodes at
-- their addressing modes, and where no line has it, as before.
pub find_name-addhashtable :
    (mnes : List Mnemonic) (table : MnemonicHash) (name : List ℕ)
    → length table ≡ 1024
    → find_name (addhashtable mnes table) name ≡ last_named name mnes (find_name table name)
unfolding addhashtable add_mnemonic
find_name-addhashtable [] table name size = refl
find_name-addhashtable (mne ∷ mnes) table name size =
    find_name-addhashtable mnes (add_mnemonic mne table) name
      (length-add_command (added mne) table ∙ size)
    ∙ ap (last_named name mnes) (find_name-add_command (added mne) table name size)

-- a bit of a mask, and the number of bits below it
abbrev pub bit_at : ℕ → ℕ → Bool
bit_at mask zero = mask % 2 == 1
bit_at mask (suc i) = bit_at (mask / 2) i

abbrev pub bits_below : ℕ → ℕ → ℕ
bits_below mask zero = 0
bits_below mask (suc i) = mask % 2 + bits_below (mask / 2) i

get_or-drop_one : (ops : List ℕ) (i k : ℕ) → k ≡ suc i → get_or (drop 1 ops) i 0 ≡ get_or ops k 0
get_or-drop_one [] i k e = refl
get_or-drop_one (x ∷ ops) i zero e = absurd (omega arith)
get_or-drop_one (x ∷ ops) i (suc k) e = ap (λ n. get_or ops n 0) (omega arith)

-- The opcode of an addressing mode is the entry of the table's line whose place is the number of allowed modes
-- before it, and 0 for a mode that is not allowed.
pub spread_opcodes-get :
    (n i okmask : ℕ) (opcode : List ℕ)
    → i < n
    → get_or (spread_opcodes n okmask opcode) i 0
      ≡ (if bit_at okmask i then get_or opcode (bits_below okmask i) 0 else 0)
unfolding spread_opcodes
spread_opcodes-get zero i okmask opcode h = absurd (omega arith)
spread_opcodes-get (suc n) zero okmask opcode h = elim (Bool-cases (okmask % 2 == 1)) [
  | inl e ↦ rw e refl
  | inr e ↦ rw e refl
]
spread_opcodes-get (suc n) (suc i) okmask opcode h = elim (Bool-cases (okmask % 2 == 1)) [
  | inl e ↦ rw e (
      spread_opcodes-get n i (okmask / 2) (drop 1 opcode) (omega arith)
      ∙ ap (λ x. if bit_at (okmask / 2) i then x else 0)
          (get_or-drop_one opcode _ _ (ground arith)))
  | inr e ↦ rw e (
      spread_opcodes-get n i (okmask / 2) opcode (omega arith)
      ∙ ap (λ x. if bit_at (okmask / 2) i then get_or opcode x 0 else 0) (ground arith))
]
