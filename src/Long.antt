-- ===== src/Long.antt =====
-- The C type `long` of src/exp.c: 64 bits in two's complement. A `long` is kept as its bit
-- pattern, a number below 2 ^ 64; arithmetic wraps, as the compiled code does.
pub mod Signed
use dasm_dillon_code_sourcef.Common.{ℕ, ◌+◌, ◌-◌, ◌*◌, ◌/◌, ◌%◌, ◌^◌, Bool, ltb, if◌then◌else◌, not}

abbrev pub long_mod : ℕ
long_mod = 2 ^ 64

-- the pattern of LONG_MIN
abbrev pub long_min : ℕ
long_min = 2 ^ 63

abbrev pub wrap : ℕ → ℕ
wrap n = n % long_mod

abbrev pub is_negative : ℕ → Bool
is_negative a = not (ltb a long_min)

-- -v
unfoldable pub neg : ℕ → ℕ
neg a = (long_mod - a) % long_mod

-- ~v
unfoldable pub invert : ℕ → ℕ
invert a = long_mod - 1 - a

unfoldable pub add : ℕ → ℕ → ℕ
add a b = (a + b) % long_mod

unfoldable pub sub : ℕ → ℕ → ℕ
sub a b = (a + (long_mod - b)) % long_mod

unfoldable pub mul : ℕ → ℕ → ℕ
mul a b = (a * b) % long_mod

-- |v|, as an unsigned number
unfoldable pub magnitude : ℕ → ℕ
unfolding neg
magnitude a = if is_negative a then neg a else a

-- v1 < v2 on the signed values
unfoldable pub lt_long : ℕ → ℕ → Bool
lt_long a b = ltb ((a + long_min) % long_mod) ((b + long_min) % long_mod)

-- v1 / v2, which truncates towards zero, for v2 other than zero
unfoldable pub quot : ℕ → ℕ → ℕ
unfolding magnitude
quot a b =
    let q = magnitude a / magnitude b in
    if is_negative a
    then (if is_negative b then q % long_mod else neg q)
    else (if is_negative b then neg q else q)

-- v1 % v2, which has the sign of v1
unfoldable pub rem : ℕ → ℕ → ℕ
unfolding magnitude
rem a b = let r = magnitude a % magnitude b in if is_negative a then neg r else r

-- v << k, for k below 64
unfoldable pub shl : ℕ → ℕ → ℕ
shl a k = (a * 2 ^ k) % long_mod

-- v >> k, for k below 64; the sign is copied in from the left, as GCC does
unfoldable pub shr : ℕ → ℕ → ℕ
unfolding invert
shr a k = if is_negative a then invert (invert a / 2 ^ k) else a / 2 ^ k
