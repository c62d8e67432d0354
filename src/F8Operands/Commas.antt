-- ===== src/F8Operands/Commas.antt =====
-- The two operands of LR, BF and BT in src/src/mnef8.c.
use dasm_dillon_code_sourcef.Common.{
  ℕ, suc, ◌+◌, ◌<◌, ◌≡◌, refl, ap, sym, ◌∙◌, true, ◌&&◌, List, [], ◌∷◌, ◌++◌, length, take, drop,
  ltb, arith, ok, ne→==, ◌≢◌, take-append_at, append_assoc, drop-append_at, length-append,
}
use dasm_dillon_code_sourcef.Util.Strings.{strip_whitespace_whole, without_space}
use dasm_dillon_code_sourcef.F8Operands.{commas_from, find_commas, extract_operands}

-- no byte of the text is a comma
abbrev pub CommaFree : List ℕ → Type 0
CommaFree [] = Unit
CommaFree (c ∷ s) = (c ≢ b',') × CommaFree s

commas_from-CommaFree :
    (i : ℕ) (s t : List ℕ) (found : ℕ × ℕ)
    → CommaFree s
    → commas_from i (s ++ t) found ≡ commas_from (i + length s) t found
unfolding commas_from
commas_from-CommaFree i [] t found h = ap (λ k. commas_from k t found) (omega arith)
commas_from-CommaFree i (c ∷ s) t (n, first) h =
    rw (commas_from, ne→== c b',' h.0)
      (commas_from-CommaFree (i + 1) s t (n, first) h.1
        ∙ ap (λ k. commas_from k t (n, first)) (omega arith))

commas_from-end : (i : ℕ) (s : List ℕ) (found : ℕ × ℕ) → CommaFree s → commas_from i s found ≡ found
unfolding commas_from
commas_from-end i [] found h = refl
commas_from-end i (c ∷ s) (n, first) h =
    rw (commas_from, ne→== c b',' h.0) (commas_from-end (i + 1) s (n, first) h.1)

-- A text of two operands with one comma between them, the first of them not empty and the whole shorter than
-- MAX_SYM_LEN, is found to have one comma, and is taken apart into the two operands without their spaces.
pub extract_operands-find_commas :
    (one two : List ℕ)
    → CommaFree one
    → CommaFree two
    → 0 < length one
    → length one + length two < 1023
    → let text = one ++ b',' ∷ two in
      ((find_commas text).0 ≡ 1)
      × (extract_operands text (find_commas text).1 ≡ ok (without_space one, without_space two))
unfolding find_commas extract_operands commas_from
extract_operands-find_commas one two free1 free2 some_text short =
    let text : List ℕ = one ++ b',' ∷ two in
    let found : commas_from 0 text (0, 0) ≡ (1, length one) =
      commas_from-CommaFree 0 one (b',' ∷ two) (0, 0) free1
      ∙ commas_from-end (0 + length one + 1) two (1, 0 + length one) free2
      ∙ ap (λ n. (1, n)) (omega arith) in
    let len : length text ≡ length one + suc (length two) = length-append one (b',' ∷ two) in
    let cut : take (length one) text ≡ one = take-append_at (length one) one (b',' ∷ two) refl in
    let rest : drop (length one + 1) text ≡ two =
      ap (drop (length one + 1)) (sym (append_assoc one (b',' ∷ []) two))
      ∙ drop-append_at (length one + 1) (one ++ b',' ∷ []) two (length-append one (b',' ∷ [])) in
    let inside : (ltb 0 (length one) && ltb (length one) (length text) && ltb (length text) 1024)
        ≡ true =
      rw len (ground arith) in
    let first = strip_whitespace_whole one 1024 (omega (arith, short)) in
    let second = strip_whitespace_whole two 1024 (omega (arith, short)) in
    (ap (λ r. r.0) found, rw (found, inside, cut, rest, first, second) refl)
