-- ===== src/Long/Signed.antt =====
-- What the word operations of `Long` mean on the signed values that the patterns stand for.
use dasm_dillon_code_sourcef.Common.{ℕ, ◌-◌, ◌<◌, ◌≡◌, ◌≢◌, ltb, if◌then◌else◌, arith}
use dasm_dillon_code_sourcef.Common.Int.{ℤ, pos, negsuc, ◌+ℤ◌, ◌-ℤ◌, ltb_ℤ, ◌≤ℤ◌}
use dasm_dillon_code_sourcef.Long.{long_mod, long_min, neg, add, sub, lt_long}

-- the number that a pattern stands for
abbrev pub signed : ℕ → ℤ
signed a = if ltb a long_min then pos a else negsuc (long_mod - a - 1)

-- The comparison of two patterns is the comparison of the integers.
pub lt_long-ltb_ℤ :
    (a b : ℕ) → a < long_mod → b < long_mod → lt_long a b ≡ ltb_ℤ (signed a) (signed b)
unfolding lt_long
lt_long-ltb_ℤ a b ha hb = ground arith

-- Where the true sum is in range, `add` is the sum of the integers.
pub add-signed :
    (a b : ℕ)
    → a < long_mod
    → b < long_mod
    → negsuc (long_min - 1) ≤ℤ signed a +ℤ signed b
    → signed a +ℤ signed b ≤ℤ pos (long_min - 1)
    → signed (add a b) ≡ signed a +ℤ signed b
unfolding add ◌+ℤ◌
add-signed a b ha hb lo hi = ground arith

-- Where the true difference is in range, `sub` is the difference of the integers.
pub sub-signed :
    (a b : ℕ)
    → a < long_mod
    → b < long_mod
    → negsuc (long_min - 1) ≤ℤ signed a -ℤ signed b
    → signed a -ℤ signed b ≤ℤ pos (long_min - 1)
    → signed (sub a b) ≡ signed a -ℤ signed b
unfolding sub ◌-ℤ◌
sub-signed a b ha hb lo hi = ground arith

-- But for the least integer, `neg` is the negation of the integer.
pub neg-signed : (a : ℕ) → a < long_mod → a ≢ long_min → signed (neg a) ≡ pos 0 -ℤ signed a
unfolding neg ◌-ℤ◌
neg-signed a ha hm = ground arith
