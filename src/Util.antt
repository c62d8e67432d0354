-- ===== src/Util.antt =====
-- The helpers of src/src/util.c on strings. A C string is the list of its bytes before the NUL; a
-- result in a buffer is given as the string that the buffer holds afterwards.
pub mod Strings
use dasm_dillon_code_sourcef.Common.{
  ℕ, zero, suc, ◌+◌, ◌-◌, ◌*◌, ◌/◌, ◌%◌, ◌^◌, Bool, true, false, ◌&&◌, ◌||◌, List, [], ◌∷◌, ◌++◌,
  map, length, if◌then◌else◌, ◌==◌, ltb, leb,
}

-- a `char` as `int` and `unsigned int`: signed, so a byte from 128 on is negative
unfoldable pub char_uint : ℕ → ℕ
char_uint c = if ltb c 128 then c else 2 ^ 32 - 256 + c

hash_loop : ℕ → List ℕ → ℕ
hash_loop hash [] = hash
hash_loop hash (c ∷ s) = hash_loop (((hash * 2 ^ 5) % 2 ^ 32 + hash + char_uint c) % 2 ^ 32) s

unfoldable pub hash_string : List ℕ → ℕ
unfolding hash_loop char_uint
hash_string s = hash_loop 5381 s

-- `tolower`, `toupper` and `isspace` in the C locale
abbrev pub tolower : ℕ → ℕ
tolower c = if leb b'A' c && leb c b'Z' then c + 32 else c

abbrev pub toupper : ℕ → ℕ
toupper c = if leb b'a' c && leb c b'z' then c - 32 else c

abbrev pub isspace : ℕ → Bool
isspace c = c == 32 || leb 9 c && leb c 13

-- the first loop of `strlcpy`: `--n` counts the bytes that still fit
unfoldable pub strlcpy_loop : ℕ → List ℕ → List ℕ
strlcpy_loop zero s = []
strlcpy_loop (suc n) [] = []
strlcpy_loop (suc n) (c ∷ s) = c ∷ strlcpy_loop n s

-- the buffer's string and the returned length
unfoldable pub strlcpy : List ℕ → ℕ → List ℕ × ℕ
strlcpy src siz = (strlcpy_loop (siz - 1) src, length src)

-- the copying loop of `strlcat`: `n != 1` leaves room for the NUL
unfoldable pub strlcat_loop : ℕ → List ℕ → List ℕ
strlcat_loop n [] = []
strlcat_loop n (c ∷ s) = if n == 1 then strlcat_loop n s else c ∷ strlcat_loop (n - 1) s

-- the end of `dst`, looked for in the first `n` bytes
unfoldable pub strlcat_seek : ℕ → List ℕ → ℕ
strlcat_seek zero dst = 0
strlcat_seek (suc n) [] = 0
strlcat_seek (suc n) (c ∷ dst) = suc (strlcat_seek n dst)

unfoldable pub strlcat : List ℕ → List ℕ → ℕ → List ℕ × ℕ
strlcat dst src siz =
    let dlen = strlcat_seek siz dst in
    if siz - dlen == 0
    then (dst, dlen + length src)
    else (dst ++ strlcat_loop (siz - dlen) src, dlen + length src)

unfoldable pub strlower : List ℕ → ℕ → List ℕ × ℕ
strlower src siz = (map tolower (strlcpy src siz).0, (strlcpy src siz).1)

unfoldable pub strupper : List ℕ → ℕ → List ℕ × ℕ
strupper src siz = (map toupper (strlcpy src siz).0, (strlcpy src siz).1)

-- the first loop of `strip_whitespace`
unfoldable pub count_needed : List ℕ → ℕ
count_needed [] = 0
count_needed (c ∷ s) = let n = count_needed s in if isspace c then n else suc n

-- the copying loop, while more than one byte of room is left
unfoldable pub strip_loop : List ℕ → ℕ → List ℕ
strip_loop [] n = []
strip_loop (c ∷ s) n =
    let skip = strip_loop s n in
    let keep = c ∷ strip_loop s (n - 1) in if leb n 1 then [] else if isspace c then skip else keep

unfoldable pub strip_whitespace : List ℕ → ℕ → List ℕ × ℕ
strip_whitespace src size = (strip_loop src size, count_needed src)

-- `strcmp(a, b) == 0`
unfoldable pub same_bytes : List ℕ → List ℕ → Bool
same_bytes [] [] = true
same_bytes (a ∷ s) (b ∷ t) = a == b && same_bytes s t
same_bytes _ _ = false

unfoldable pub match_either_case : List ℕ → List ℕ → Bool
match_either_case string either =
    same_bytes string (strlower either 1024).0 || same_bytes string (strupper either 1024).0

-- `%lu`: decimal digits, most significant first; a `size_t` has at most 20
unfoldable pub decimal_loop : ℕ → ℕ → List ℕ → List ℕ
decimal_loop zero n out = out
decimal_loop (suc k) n out =
    let digit = (b'0' + n % 10) ∷ out in
    let more = decimal_loop k (n / 10) digit in if ltb n 10 then digit else more

unfoldable pub decimal : ℕ → List ℕ
decimal n = decimal_loop 20 n []
