-- ===== src/Exp/Literals.antt =====
-- The operands that src/src/exp.c reads: numbers in four bases, characters and strings. A text is the
-- list of its bytes before the NUL; each routine gives the machine and the text behind the operand.
pub mod Digits
use dasm_dillon_code_sourcef.Common.{
  ℕ, ◌+◌, ◌-◌, ◌*◌, ◌%◌, true, ◌&&◌, ◌||◌, List, [], ◌∷◌, Option, none, some, if◌then◌else◌, ◌==◌,
  ltb, leb, bit_or, Run, ok, ◌>>=◌,
}
use dasm_dillon_code_sourcef.Asm.{no_flags}
use dasm_dillon_code_sourcef.Long.{long_mod}
use dasm_dillon_code_sourcef.Exp.Machine.{Machine, stackarg}

-- `(long)*str`: a `char` is signed
abbrev pub char_long : ℕ → ℕ
char_long c = if ltb c 128 then c else long_mod - 256 + c

-- the digits of a loop, from '0' on
abbrev pub digit_below : ℕ → ℕ → Option ℕ
digit_below base c = if leb b'0' c && ltb c (b'0' + base) then some (c - b'0') else none

-- `(*str&0x1F) + 9` for a letter
abbrev pub hex_digit : ℕ → Option ℕ
hex_digit c =
    if leb b'0' c && leb c b'9'
    then some (c - b'0')
    else if leb b'a' c && leb c b'f' || leb b'A' c && leb c b'F'
    then some (c % 32 + 9)
    else none

-- The loop of the four routines, in which `step` takes a digit in.
unfoldable pub scan_digits : (ℕ → Option ℕ) → (ℕ → ℕ → ℕ) → ℕ → List ℕ → ℕ × List ℕ
scan_digits digit step val [] = (val, [])
scan_digits digit step val (c ∷ s) = elim (digit c) [
  | none ↦ (val, c ∷ s)
  | some d ↦ scan_digits digit step (step val d) s
]

-- `(val << 4) + d`, `(val << 3) + d`, `(val * 10) + d` and `(val << 1) | d`
abbrev pub step_hex : ℕ → ℕ → ℕ
step_hex val d = (val * 16 % long_mod + d) % long_mod

abbrev pub step_oct : ℕ → ℕ → ℕ
step_oct val d = (val * 8 % long_mod + d) % long_mod

abbrev pub step_dec : ℕ → ℕ → ℕ
step_dec val d = (val * 10 % long_mod + d) % long_mod

abbrev pub step_bin : ℕ → ℕ → ℕ
step_bin val d = bit_or (val * 2 % long_mod) d

-- the operand and the text behind it
unfoldable pub push_number : ℕ × List ℕ → Machine → Run (List ℕ × Machine)
push_number (val, rest) m = do m' ← stackarg val no_flags [] m; ok (rest, m')

unfoldable pub pushhex : List ℕ → Machine → Run (List ℕ × Machine)
pushhex str m = push_number (scan_digits hex_digit step_hex 0 str) m

unfoldable pub pushoct : List ℕ → Machine → Run (List ℕ × Machine)
pushoct str m = push_number (scan_digits (digit_below 8) step_oct 0 str) m

unfoldable pub pushdec : List ℕ → Machine → Run (List ℕ × Machine)
pushdec str m = push_number (scan_digits (digit_below 10) step_dec 0 str) m

unfoldable pub pushbin : List ℕ → Machine → Run (List ℕ × Machine)
pushbin str m = push_number (scan_digits (digit_below 2) step_bin 0 str) m

unfoldable pub pushchar : List ℕ → Machine → Run (List ℕ × Machine)
pushchar [] m = push_number (32, []) m
pushchar (c ∷ s) m = push_number (char_long c, s) m

-- the text behind a string: the closing quote is skipped, if there is one
unfoldable pub skip_string : List ℕ → List ℕ
skip_string [] = []
skip_string (c ∷ s) = if c == 0x22 then s else skip_string s

unfoldable pub pushstr : List ℕ → Machine → Run (List ℕ × Machine)
pushstr str m = do
  m' ← stackarg 0 (record no_flags { string = true }) str m
  ok (skip_string str, m')
