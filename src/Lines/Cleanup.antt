-- ===== src/Lines/Cleanup.antt =====
-- Where the loop of `cleanup` of src/src/main.c ends, and where it does not.
use dasm_dillon_code_sourcef.Common.{
  ℕ, zero, suc, ◌+◌, ◌≤◌, ◌<◌, ◌≡◌, ◌≢◌, refl, true, false, List, [], ◌∷◌, ◌++◌, Option, some,
  length, length-append, ltb, arith, Run, ok, out_of_fuel, ◌==◌, Bool-cases, inl, inr, codes,
}
use dasm_dillon_code_sourcef.Lines.{
  Cleaned, keep, kept, quoted, quoted_byte, Case, comment, line_end, tab, character, string, brace,
  other, case_of, Rest, cleanup_character, cleanup_string, cleanup_string_end, cleanup_case,
  cleanup_loop, strip_end, trim_space, finish_cleanup, cleanup, nth_arg, insert_arg, cleanup_brace,
  braced, atoi, atoi_signed, atoi_digits,
}

-- the run gives a line of at most `n` bytes
abbrev pub Ends : ℕ → Run (Option Cleaned) → Type 0
Ends n r = (line : List ℕ) × (note : List ℕ) × (r ≡ ok (some (line, note))) × (length line ≤ n)

kept-Ends :
    (s : List ℕ) (n : ℕ) (r : Run (Option Cleaned)) → Ends n r → Ends (length s + n) (kept s r)
unfolding keep
kept-Ends s n r (line, note, e, h) =
    (s ++ line, note, rw e refl, omega (arith, h, length-append s line))

Ends-le : (n m : ℕ) (r : Run (Option Cleaned)) → n ≤ m → Ends n r → Ends m r
Ends-le n m r le (line, note, e, h) = (line, note, e, omega (arith, h))

quoted-length : (s : List ℕ) → length (quoted s).0 + length (quoted s).1 ≡ length s
unfolding quoted
quoted-length [] = omega arith
quoted-length (c ∷ s) = elim (Bool-cases (c == b'"')) [
  | inl e ↦ rw e (omega arith)
  | inr e ↦ rw e (omega (arith, quoted-length s))
]

quoted_byte-length : (c : ℕ) (s : List ℕ) → length (quoted_byte c s).1 ≤ length s
unfolding quoted_byte
quoted_byte-length c s = ground arith

-- the loop on what is left of the line, of fewer than `k` bytes
abbrev IsGood : ℕ → Rest → Type 0
IsGood k rest =
    (q : ℕ) (s : List ℕ) → length s < k → q + length s + 1 < 1024 → Ends (length s + 1) (rest q s)

cleanup_character-Ends :
    (k : ℕ) (rest : Rest) (p : ℕ) (s : List ℕ)
    → IsGood k rest
    → length s < k
    → p + length s + 2 < 1024
    → Ends (length s + 2) (cleanup_character rest p s)
unfolding cleanup_character
cleanup_character-Ends k rest p [] good h room =
    let inside : ltb (p + 2) 1024 ≡ true = ground arith in
    (39 ∷ 0x80 ∷ [], [], rw inside refl, omega arith)
cleanup_character-Ends k rest p (c ∷ s) good h room =
    let (byte, s') = quoted_byte c s in
    let shorter = quoted_byte-length c s in
    Ends-le _ _ _ (omega (arith, shorter)) (
      kept-Ends (39 ∷ byte ∷ []) (length s' + 1) _
        (good (p + 2) s' (omega (arith, shorter)) (omega (arith, shorter))))

cleanup_string_end-Ends :
    (k : ℕ) (rest : Rest) (p : ℕ) (s : List ℕ)
    → IsGood k rest
    → length s < k
    → p + length s + 1 < 1024
    → Ends (length s + 1) (cleanup_string_end rest p s)
unfolding cleanup_string_end
cleanup_string_end-Ends k rest p [] good h room = ([], [], refl, omega arith)
cleanup_string_end-Ends k rest p (c ∷ s) good h room =
    Ends-le _ _ _ (omega arith)
      (kept-Ends (c ∷ []) (length s + 1) _ (good (p + 1) s (omega arith) (omega arith)))

cleanup_case-Ends :
    (k : ℕ) (rest : Rest) (args : List (List ℕ)) (p c : ℕ) (s : List ℕ) (case : Case)
    → case ≢ brace
    → IsGood k rest
    → length s < k
    → p + length s + 2 < 1024
    → Ends (length s + 2) (cleanup_case rest args p c s case)
unfolding cleanup_case cleanup_string
cleanup_case-Ends k rest args p c s comment n good h room = ([], s, refl, omega arith)
cleanup_case-Ends k rest args p c s line_end n good h room = ([], [], refl, omega arith)
cleanup_case-Ends k rest args p c s tab n good h room =
    Ends-le _ _ _ (omega arith)
      (kept-Ends (b' ' ∷ []) (length s + 1) _ (good (p + 1) s h (omega arith)))
cleanup_case-Ends k rest args p c s character n good h room =
    cleanup_character-Ends k rest p s good h room
cleanup_case-Ends k rest args p c s string n good h room =
    let (inside, s') = quoted s in
    let whole = quoted-length s in
    Ends-le _ _ _ (omega (arith, whole)) (
      kept-Ends (b'"' ∷ inside) (length s' + 1) _ (
        cleanup_string_end-Ends k rest (p + 1 + length inside) s' good (omega (arith, whole))
          (omega (arith, whole))))
cleanup_case-Ends k rest args p c s brace n good h room = absurd (n refl)
cleanup_case-Ends k rest args p c s other n good h room =
    Ends-le _ _ _ (omega arith)
      (kept-Ends (c ∷ []) (length s + 1) _ (good (p + 1) s h (omega arith)))

case_of-disabled : (c : ℕ) → case_of true c ≢ brace
unfolding case_of
case_of-disabled c = ground arith

cleanup_loop-Ends : (k : ℕ) (args : List (List ℕ)) → IsGood k (cleanup_loop k true args)
unfolding cleanup_loop
cleanup_loop-Ends zero args p s h room = absurd (omega arith)
cleanup_loop-Ends (suc k) args p [] h room = ([], [], refl, omega arith)
cleanup_loop-Ends (suc k) args p (c ∷ s) h room = Ends-le _ _ _ (omega arith) (
    cleanup_case-Ends k (cleanup_loop k true args) args p c s (case_of true c) (case_of-disabled c)
      (cleanup_loop-Ends k args) (omega arith) (omega arith))

length-trim_space : (s : List ℕ) → length (trim_space s) ≤ length s + 1
length-trim_space [] = omega arith
length-trim_space (c ∷ s) = omega arith

length-strip_end : (s : List ℕ) → length (strip_end s) ≤ length s
unfolding strip_end
length-strip_end [] = omega arith
length-strip_end (c ∷ s) = elim (Bool-cases (c == b' ')) [
  | inl e ↦ rw e (omega (arith, length-strip_end s, length-trim_space (strip_end s)))
  | inr e ↦ rw e (omega (arith, length-strip_end s))
]

-- Where macro arguments are not inserted because bDisable is set, as for the lines that `v_macro` stores, `cleanup`
-- comes to its end on every line of up to 1022 bytes within one round more than the line has bytes, without an
-- access outside of the buffer, and the line grows by at most one byte.
pub cleanup-Ends :
    (fuel : ℕ) (args : List (List ℕ)) (buf : List ℕ)
    → length buf < fuel
    → length buf < 1023
    → Ends (length buf + 1) (cleanup fuel true args buf)
unfolding cleanup
cleanup-Ends fuel args buf h room =
    let (line, note, e, short) = cleanup_loop-Ends fuel args 0 buf h (omega arith) in
    (strip_end line, note, rw (e, finish_cleanup) refl, omega (arith, short, length-strip_end line))

cleanup_loop_diverges :
    (fuel : ℕ) (args : List (List ℕ))
    → nth_arg args (some 1) ≡ some (codes "{1}")
    → cleanup_loop fuel false args 0 (codes "{1}") ≡ out_of_fuel
unfolding cleanup_loop cleanup_case case_of cleanup_brace insert_arg braced atoi atoi_signed
    atoi_digits
cleanup_loop_diverges zero args e = refl
cleanup_loop_diverges (suc fuel) args e = rw e (cleanup_loop_diverges fuel args e)

-- A macro argument that is the reference to itself, `{1}` as the first argument, is inserted for ever: no
-- number of rounds is enough for `cleanup` on that reference.
pub cleanup_diverges :
    (fuel : ℕ) (args : List (List ℕ))
    → nth_arg args (some 1) ≡ some (codes "{1}")
    → cleanup fuel false args (codes "{1}") ≡ out_of_fuel
unfolding cleanup
cleanup_diverges fuel args e = rw (cleanup_loop_diverges fuel args e) refl
