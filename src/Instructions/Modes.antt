-- ===== src/Instructions/Modes.antt =====
-- The addressing mode that `v_mnemonic` of src/src/ops.c chooses, and its relative branches.
use dasm_dillon_code_sourcef.Common.{
  ℕ, ◌+◌, ◌-◌, ◌%◌, ◌≤◌, ◌<◌, ◌≡◌, refl, ap, Bool, true, false, not, ◌&&◌, ◌||◌, List, [], ◌∷◌,
  Option, none, some, get_or, if◌then◌else◌, ◌==◌, ltb, arith, ◌⊎◌, ◌↔◌,
}
use dasm_dillon_code_sourcef.Asm.{AddressMode}
use dasm_dillon_code_sourcef.Long.{long_mod, sub, neg, lt_long}
use dasm_dillon_code_sourcef.Instructions.{cvt, opsizes, badcode, mode_number, rel_displacement}

-- how often a mode can be converted
abbrev ranks : List ℕ
ranks = 0 ∷ 1 ∷ 0 ∷ 2 ∷ 1 ∷ 1 ∷ 1 ∷ 0 ∷ 0 ∷ 0 ∷ 0 ∷ 0 ∷ 0 ∷ 2 ∷ 2 ∷ 0 ∷ 0 ∷ []

abbrev rank : ℕ → ℕ
rank am = get_or ranks am 0

abbrev goes_down : ℕ → Bool
goes_down am =
    get_or cvt am 0 == 0 || (ltb (rank (get_or cvt am 0)) (rank am) && ltb (get_or cvt am 0) 17)

-- the modes that a mode is converted to, one behind the other, itself included
pub data Converts : ℕ → ℕ → Type 0 where
  same : {am : ℕ} → Converts am am
  further :
      {am to : ℕ} → (get_or cvt am 0 == 0) ≡ false → Converts (get_or cvt am 0) to → Converts am to

-- the instruction has none of the modes that a mode is converted to
abbrev pub HasNone : ℕ → ℕ → Type 0
HasNone okmask first = (to : ℕ) → Converts first to → badcode okmask to ≡ true

-- a mode of the tables that `first` is converted to; if the instruction does not have it, it has no other of these
abbrev pub IsAllowed : ℕ → ℕ → ℕ → Type 0
IsAllowed okmask first am =
    (am < 17) × Converts first am × (badcode okmask am ≡ true → HasNone okmask first)

-- A mode that `start` is converted to, that the instruction has, and that is as wide as the operand needs, or that
-- cannot be widened.
abbrev pub IsWide : ℕ → ℕ → ℕ → ℕ → Type 0
IsWide okmask opsize start am =
    (am < 17)
    × Converts start am
    × (badcode okmask am ≡ false)
    × ((opsize ≤ get_or opsizes am 0)
        ⊎ (get_or cvt am 0 ≡ 0)
        ⊎ (badcode okmask (get_or cvt am 0) ≡ true))

-- the mode is one of the tables of modes
abbrev pub IsForced : Option AddressMode → Type 0
IsForced none = Unit
IsForced (some mnext) = mode_number mnext < 17

-- the forced mode, if there is one, is not one that the instruction has
abbrev pub IsRefused : ℕ → Option AddressMode → Type 0
IsRefused okmask none = ⊥
IsRefused okmask (some mnext) = badcode okmask (mode_number mnext) ≡ true

-- where the second loop starts: at the forced mode, or at the mode of the operands
abbrev pub start_mode : ℕ → Option AddressMode → ℕ
start_mode first none = first
start_mode first (some mnext) = mode_number mnext

-- No mode is chosen exactly where the instruction has none that the operands' mode is converted to, or does not have the
-- forced one; a mode that is chosen serves.
abbrev pub IsChosen : ℕ → ℕ → ℕ → Option AddressMode → Option ℕ → Type 0
IsChosen okmask opsize first mnext none = HasNone okmask first ⊎ IsRefused okmask mnext
IsChosen okmask opsize first mnext (some am) =
    IsWide okmask opsize (start_mode first mnext) am
    × ((to : ℕ) × Converts first to × (badcode okmask to ≡ false))
    × (IsRefused okmask mnext → ⊥)

-- where the processor goes on behind a branch of `size` bytes whose last one is the displacement
abbrev pub relative_target : ℕ → ℕ → ℕ → ℕ
relative_target pc size d = (pc + size + (if ltb d 128 then d else d + (long_mod - 256))) % long_mod

rel_displacement_only :
    (target pc size d : ℕ)
    → target < long_mod
    → pc < long_mod
    → size < 256
    → d < 256
    → relative_target pc size d ≡ target
    → rel_displacement target pc size ≡ (d, false)
unfolding rel_displacement sub neg lt_long
rel_displacement_only target pc size d ht hp hs hd e =
    let far : sub (sub target pc) size ≡ (if ltb d 128 then d else d + (long_mod - 256)) =
      ground arith in
    let low : sub (sub target pc) size % 256 ≡ d = ground arith in
    let near : (not (lt_long (sub (sub target pc) size) 128)
          || lt_long (sub (sub target pc) size) (neg 128))
        ≡ false =
      rw far (ground arith) in
    rw (low, near) refl

rel_reached :
    (target pc size : ℕ)
    → target < long_mod
    → pc < long_mod
    → size < 256
    → (rel_displacement target pc size).1 ≡ false
    → relative_target pc size (rel_displacement target pc size).0 ≡ target
unfolding rel_displacement sub neg lt_long
rel_reached target pc size ht hp hs near = ground arith

rel_displacement-lt : (target pc size : ℕ) → (rel_displacement target pc size).0 < 256
unfolding rel_displacement
rel_displacement-lt target pc size = omega arith

-- At a known origin, the relative branch of an instruction is reported as out of range exactly where no byte leads from
-- behind the instruction to the target; where one does, that byte is generated.
pub rel_displacement_iff :
    (target pc size : ℕ)
    → target < long_mod
    → pc < long_mod
    → size < 256
    → ((rel_displacement target pc size).1 ≡ false) ↔ (
        (d : ℕ) × (d < 256)
        × (relative_target pc size d ≡ target)
        × ((rel_displacement target pc size).0 ≡ d))
rel_displacement_iff target pc size ht hp hs = (
  λ near. (
    (rel_displacement target pc size).0,
    rel_displacement-lt target pc size,
    rel_reached target pc size ht hp hs near,
    refl,
  ),
  λ (d, below, reached, byte).
      ap (λ r. r.1) (rel_displacement_only target pc size d ht hp hs below reached),
)
