-- ===== src/Util/Strings.antt =====
-- What the string helpers of src/src/util.c promise.
use dasm_dillon_code_sourcef.Common.{
  take_all, ℕ, zero, suc, ◌+◌, ◌-◌, ◌≤◌, ◌<◌, ◌≡◌, ◌↔◌, ◌⊎◌, refl, inl, inr, ap, sym, ◌∙◌, ==_refl,
  leb, Bool, true, false, ◌||◌, List, [], ◌∷◌, ◌++◌, map, length, take, if◌then◌else◌, ◌==◌, arith,
  Bool-cases,
}
use dasm_dillon_code_sourcef.Util.{
  strlcpy, strlcpy_loop, strlcat, strlcat_loop, strlcat_seek, strip_whitespace, strip_loop,
  count_needed, isspace, same_bytes, match_either_case, strlower, strupper, tolower, toupper,
}

pub strlcpy_loop-take : (n : ℕ) (s : List ℕ) → strlcpy_loop n s ≡ take n s
unfolding strlcpy_loop
strlcpy_loop-take zero s = refl
strlcpy_loop-take (suc n) [] = refl
strlcpy_loop-take (suc n) (c ∷ s) = ap (λ t. c ∷ t) (strlcpy_loop-take n s)

strlcat_loop-take : (n : ℕ) (s : List ℕ) → strlcat_loop (suc n) s ≡ take n s
unfolding strlcat_loop
strlcat_loop-take zero [] = refl
strlcat_loop-take zero (c ∷ s) = strlcat_loop-take zero s
strlcat_loop-take (suc n) [] = refl
strlcat_loop-take (suc n) (c ∷ s) =
    let more : (suc (suc n) == 1) ≡ false = ground arith in
    let room : suc (suc n) - 1 ≡ suc n = omega arith in
    rw (more, room) (ap (λ t. c ∷ t) (strlcat_loop-take n s))

strlcat_seek-length : (n : ℕ) (s : List ℕ) → length s ≤ n → strlcat_seek n s ≡ length s
unfolding strlcat_seek
strlcat_seek-length zero [] h = refl
strlcat_seek-length zero (c ∷ s) h = absurd (omega arith)
strlcat_seek-length (suc n) [] h = refl
strlcat_seek-length (suc n) (c ∷ s) h = ap suc (strlcat_seek-length n s (omega arith))

take-append : (n : ℕ) (s t : List ℕ) → length s ≤ n → take n (s ++ t) ≡ s ++ take (n - length s) t
take-append n [] t h = let e : n - 0 ≡ n = omega arith in rw e
take-append zero (c ∷ s) t h = absurd (omega arith)
take-append (suc n) (c ∷ s) t h =
    let e : suc n - suc (length s) ≡ n - length s = omega arith in
    rw e (ap (λ r. c ∷ r) (take-append n s t (omega arith)))

-- With a terminated string in the buffer, `strlcat` leaves the first `siz - 1` bytes of the
-- concatenation and returns the length that it tried to make.
pub strlcat_lem :
    (dst src : List ℕ) (siz : ℕ)
    → length dst < siz
    → strlcat dst src siz ≡ (take (siz - 1) (dst ++ src), length dst + length src)
unfolding strlcat
strlcat_lem dst src siz h =
    let len = strlcat_seek-length siz dst (omega arith) in
    let some_room : (siz - length dst == 0) ≡ false = ground arith in
    let room : siz - length dst ≡ suc (siz - 1 - length dst) = omega arith in
    rw (len, some_room, room)
      (ap (λ t. (t, length dst + length src))
        (ap (λ t. dst ++ t) (strlcat_loop-take (siz - 1 - length dst) src)
          ∙ sym (take-append (siz - 1) dst src (omega arith))))

-- the bytes of a text that are no space
pub without_space : List ℕ → List ℕ
without_space [] = []
without_space (c ∷ s) = if isspace c then without_space s else c ∷ without_space s

strip_loop-take : (s : List ℕ) (n : ℕ) → strip_loop s (suc n) ≡ take n (without_space s)
unfolding strip_loop without_space
strip_loop-take [] zero = refl
strip_loop-take [] (suc n) = refl
strip_loop-take (c ∷ s) zero = refl
strip_loop-take (c ∷ s) (suc n) =
    let more : leb (suc (suc n)) 1 ≡ false = ground arith in
    let room : suc (suc n) - 1 ≡ suc n = omega arith in
    elim (Bool-cases (isspace c)) [
      | inl e ↦ rw (more, e) (strip_loop-take s (suc n))
      | inr e ↦ rw (more, e, room) (ap (λ t. c ∷ t) (strip_loop-take s n))
    ]

count_needed-length : (s : List ℕ) → count_needed s ≡ length (without_space s)
unfolding count_needed without_space
count_needed-length [] = refl
count_needed-length (c ∷ s) = elim (Bool-cases (isspace c)) [
  | inl e ↦ rw e (count_needed-length s)
  | inr e ↦ rw e (ap suc (count_needed-length s))
]

-- `strip_whitespace` leaves the first `size - 1` bytes that are no space, and returns how many such bytes
-- the source has.
pub strip_whitespace_lem :
    (src : List ℕ) (size : ℕ)
    → 0 < size
    → strip_whitespace src size ≡ (take (size - 1) (without_space src), length (without_space src))
unfolding strip_whitespace
strip_whitespace_lem src size h =
    let room : size ≡ suc (size - 1) = omega arith in
    rw count_needed-length (
      ap (λ t. (t, length (without_space src)))
        (ap (strip_loop src) room ∙ strip_loop-take src (size - 1)))

length-without_space : (s : List ℕ) → length (without_space s) ≤ length s
unfolding without_space
length-without_space [] = omega arith
length-without_space (c ∷ s) = elim (Bool-cases (isspace c)) [
  | inl e ↦ rw e (omega (arith, length-without_space s))
  | inr e ↦ rw e (omega (arith, length-without_space s))
]

-- a text that is shorter than the buffer
pub strip_whitespace_whole :
    (s : List ℕ) (size : ℕ) → length s < size → (strip_whitespace s size).0 ≡ without_space s
strip_whitespace_whole s size h =
    ap (λ r. r.0) (strip_whitespace_lem s size (omega arith))
    ∙ take_all (size - 1) (without_space s) (omega (arith, length-without_space s))

same_bytes→eq : (s t : List ℕ) → same_bytes s t ≡ true → s ≡ t
unfolding same_bytes
same_bytes→eq [] [] h = refl
same_bytes→eq [] (b ∷ t) h = cc
same_bytes→eq (a ∷ s) [] h = cc
same_bytes→eq (a ∷ s) (b ∷ t) h = ground (arith, same_bytes→eq s t)

pub same_bytes_refl : (s : List ℕ) → same_bytes s s ≡ true
unfolding same_bytes
same_bytes_refl [] = refl
same_bytes_refl (a ∷ s) = rw (==_refl a) (same_bytes_refl s)

pub same_bytes_iff : (s t : List ℕ) → (same_bytes s t ≡ true) ↔ (s ≡ t)
same_bytes_iff s t = (same_bytes→eq s t, λ e. rw e (same_bytes_refl t))

or_iff : (a b : Bool) → ((a || b) ≡ true) ↔ ((a ≡ true) ⊎ (b ≡ true))
or_iff a b = ground arith

-- `match_either_case` holds exactly when the string is the other one with all letters lowered, or with all
-- raised, so mixed case does not match.
pub match_either_case_iff :
    (string either : List ℕ)
    → length either < 1024
    → (match_either_case string either ≡ true)
      ↔ ((string ≡ map tolower either) ⊎ (string ≡ map toupper either))
unfolding match_either_case strlower strupper strlcpy
match_either_case_iff string either h =
    let whole = strlcpy_loop-take 1023 either ∙ take_all 1023 either (omega arith) in
    let low = same_bytes_iff string (map tolower either) in
    let high = same_bytes_iff string (map toupper either) in rw whole (ground (arith, low, high))
