-- ===== src/Lines/Words.antt =====
-- The way of a quoted string through `cleanup` and `parse` of src/src/main.c.
use dasm_dillon_code_sourcef.Common.{
  ℕ, zero, suc, ◌+◌, ◌≤◌, ◌≡◌, refl, ap, sym, Bool, true, false, not, ◌&&◌, ◌||◌, List, [], ◌∷◌,
  ◌++◌, map, some, none, length, length-append, ◌==◌, leb, arith, ok, ◌>>=◌, Bool-cases, inl, inr,
  ==_iff,
}
use dasm_dillon_code_sourcef.Lines.{
  keep, mark, unmark, quoted, case_of, other, cleanup_loop, cleanup_case, cleanup_string,
  cleanup_string_end, strip_end, finish_cleanup, cleanup, first_word, skip_spaces, next_word,
  rest_of_line, split_extension, findext, with_extension, parse, parse_cleaned,
}

-- a byte that `cleanup` and `parse` keep as it is, and that ends no word
abbrev pub is_plain : ℕ → Bool
is_plain c =
    not (c == b';' || c == 13 || c == 10 || c == 9 || c == 39 || c == b'"' || c == b'{')
    && not (c == b' ' || c == b':' || c == 0x80 || c == b'.')

-- the bytes of a text all pass a test
abbrev pub All : (ℕ → Bool) → List ℕ → Type 0
All test [] = Unit
All test (c ∷ s) = (test c ≡ true) × All test s

-- a byte that can stand in a string: no quote, and not the mark of a space
abbrev pub in_string : ℕ → Bool
in_string c = not (c == b'"') && not (c == 0x80)

case_of-plain : (disable : Bool) (c : ℕ) → is_plain c ≡ true → case_of disable c ≡ other
unfolding case_of
case_of-plain disable c h = ground arith

case_of-space : (disable : Bool) → case_of disable b' ' ≡ other
unfolding case_of
case_of-space disable = refl

cleanup_loop-other :
    (fuel k : ℕ) (disable : Bool) (args : List (List ℕ)) (p c : ℕ) (s : List ℕ) (line note : List ℕ)
    → fuel ≡ suc k
    → case_of disable c ≡ other
    → cleanup_loop k disable args (p + 1) s ≡ ok (some (line, note))
    → cleanup_loop fuel disable args p (c ∷ s) ≡ ok (some (c ∷ line, note))
unfolding cleanup_loop cleanup_case keep
cleanup_loop-other zero k disable args p c s line note e o r = absurd (omega arith)
cleanup_loop-other (suc fuel) k disable args p c s line note e o r =
    let less : fuel ≡ k = omega arith in rw (less, o, r) refl

cleanup_loop-word :
    (w : List ℕ) (fuel k : ℕ) (disable : Bool) (args : List (List ℕ)) (p : ℕ) (s line note : List ℕ)
    → fuel ≡ length w + k
    → All is_plain w
    → ((q : ℕ) → cleanup_loop k disable args q s ≡ ok (some (line, note)))
    → cleanup_loop fuel disable args p (w ++ s) ≡ ok (some (w ++ line, note))
cleanup_loop-word [] fuel k disable args p s line note e h r =
    let less : fuel ≡ k = omega arith in rw less (r p)
cleanup_loop-word (c ∷ w) fuel k disable args p s line note e h r =
    cleanup_loop-other fuel (length w + k) disable args p c (w ++ s) (w ++ line) note (omega arith)
      (case_of-plain disable c h.0)
      (cleanup_loop-word w (length w + k) k disable args (p + 1) s line note refl h.1 r)

quoted-string : (t r : List ℕ) → All in_string t → quoted (t ++ b'"' ∷ r) ≡ (map mark t, b'"' ∷ r)
unfolding quoted
quoted-string [] r h = refl
quoted-string (c ∷ t) r h =
    let no_quote : (c == b'"') ≡ false = ground (arith, h.0) in
    rw (no_quote, quoted-string t r h.1) refl

cleanup_loop-line_end :
    (fuel k : ℕ) (disable : Bool) (args : List (List ℕ)) (p : ℕ)
    → fuel ≡ suc k
    → cleanup_loop fuel disable args p (10 ∷ []) ≡ ok (some ([], []))
unfolding cleanup_loop cleanup_case case_of
cleanup_loop-line_end zero k disable args p e = absurd (omega arith)
cleanup_loop-line_end (suc fuel) k disable args p e = refl

-- a string at the end of the line
cleanup_loop-string :
    (fuel k : ℕ) (disable : Bool) (args : List (List ℕ)) (p : ℕ) (t : List ℕ)
    → fuel ≡ suc (suc k)
    → All in_string t
    → cleanup_loop fuel disable args p (b'"' ∷ t ++ b'"' ∷ 10 ∷ [])
      ≡ ok (some (b'"' ∷ map mark t ++ b'"' ∷ [], []))
unfolding cleanup_loop cleanup_case case_of cleanup_string cleanup_string_end keep
cleanup_loop-string zero k disable args p t e h = absurd (omega arith)
cleanup_loop-string (suc fuel) k disable args p t e h =
    let less : fuel ≡ suc k = omega arith in
    rw
      (
        quoted-string t (10 ∷ []) h,
        cleanup_loop-line_end fuel k disable args (p + 1 + length (map mark t) + 1) less,
      )
      refl

strip_end-prefix :
    (xs : List ℕ) (d : ℕ) (ys : List ℕ)
    → strip_end (d ∷ ys) ≡ d ∷ ys
    → strip_end (xs ++ (d ∷ ys)) ≡ xs ++ (d ∷ ys)
unfolding strip_end
strip_end-prefix [] d ys h = h
strip_end-prefix (c ∷ []) d ys h = elim (Bool-cases (c == b' ')) [
  | inl e ↦ rw (h, e) (ap (λ c. c ∷ d ∷ ys) (sym ((==_iff c b' ').0 e)))
  | inr e ↦ rw (h, e) refl
]
strip_end-prefix (c ∷ x ∷ xs) d ys h =
    let r = strip_end-prefix (x ∷ xs) d ys h in
    elim (Bool-cases (c == b' ')) [
      | inl e ↦ rw (r, e) (ap (λ c. c ∷ x ∷ (xs ++ (d ∷ ys))) (sym ((==_iff c b' ').0 e)))
      | inr e ↦ rw (r, e) refl
    ]

strip_end-string : (s : List ℕ) → strip_end (s ++ b'"' ∷ []) ≡ s ++ b'"' ∷ []
unfolding strip_end
strip_end-string s = strip_end-prefix s b'"' [] refl

first_word-plain : (w s : List ℕ) → All is_plain w → first_word (w ++ b' ' ∷ s) ≡ (w, b' ' ∷ s)
unfolding first_word
first_word-plain [] s h = refl
first_word-plain (c ∷ w) s h =
    let tests : ((c == b' ') ≡ false) × ((c == b':') ≡ false) × ((c == 0x80) ≡ false) =
      ground (arith, h.0) in
    rw (tests.0, tests.1, tests.2, first_word-plain w s h.1) refl

next_word-plain : (w s : List ℕ) → All is_plain w → next_word (w ++ b' ' ∷ s) ≡ (w, b' ' ∷ s)
unfolding next_word
next_word-plain [] s h = refl
next_word-plain (c ∷ w) s h =
    let tests : ((c == b' ') ≡ false) × ((c == 0x80) ≡ false) = ground (arith, h.0) in
    rw (tests.0, tests.1, next_word-plain w s h.1) refl

split_extension-plain : (w : List ℕ) → All is_plain w → split_extension w ≡ (w, none)
unfolding split_extension
split_extension-plain [] h = refl
split_extension-plain (c ∷ w) h =
    let no_period : (c == b'.') ≡ false = ground (arith, h.0) in
    rw (no_period, split_extension-plain w h.1) refl

findext-plain :
    (c : ℕ) (w : List ℕ) → All is_plain (c ∷ w) → findext (c ∷ w) ≡ ok (c ∷ w, none, none)
unfolding findext with_extension
findext-plain c w h =
    let no_period : (c == b'.') ≡ false = ground (arith, h.0) in
    rw (no_period, split_extension-plain (c ∷ w) h) refl

skip_spaces-plain : (c : ℕ) (s : List ℕ) → (c == b' ') ≡ false → skip_spaces (b' ' ∷ c ∷ s) ≡ c ∷ s
unfolding skip_spaces
skip_spaces-plain c s h = rw h refl

rest_of_line-string :
    (t : List ℕ) → All in_string t → rest_of_line (map mark t ++ b'"' ∷ []) ≡ t ++ b'"' ∷ []
unfolding rest_of_line
rest_of_line-string [] h = refl
rest_of_line-string (c ∷ t) h =
    let back : (mark c == b' ' ≡ false) × (unmark (mark c) ≡ c) = ground (arith, h.0) in
    rw (back.0, back.1, rest_of_line-string t h.1) refl

rest_of_line-after :
    (t : List ℕ)
    → All in_string t
    → rest_of_line (skip_spaces (b' ' ∷ b'"' ∷ map mark t ++ b'"' ∷ [])) ≡ b'"' ∷ t ++ b'"' ∷ []
unfolding rest_of_line skip_spaces
rest_of_line-after t h = ap (λ r. b'"' ∷ r) (rest_of_line-string t h)

-- the line of a directive with a string
abbrev pub string_line : List ℕ → List ℕ → List ℕ → List ℕ → List ℕ
string_line label word t end = label ++ (b' ' ∷ (word ++ (b' ' ∷ b'"' ∷ (t ++ (b'"' ∷ end)))))

cleanup-string_line :
    (disable : Bool) (args : List (List ℕ)) (label word t : List ℕ)
    → All is_plain label
    → All is_plain word
    → All in_string t
    → cleanup (length label + length word + 4) disable args (string_line label word t (10 ∷ []))
      ≡ ok (some (string_line label word (map mark t) [], []))
unfolding cleanup
cleanup-string_line disable args label word t hl hw ht =
    let n = length label in
    let m = length word in
    let text : List ℕ = b'"' ∷ map mark t ++ b'"' ∷ [] in
    let string : (q : ℕ)
        → cleanup_loop 2 disable args q (b'"' ∷ t ++ b'"' ∷ 10 ∷ []) ≡ ok (some (text, [])) =
      λ q. cleanup_loop-string 2 0 disable args q t refl ht in
    let second : (q : ℕ)
        → cleanup_loop (m + 3) disable args q (word ++ (b' ' ∷ b'"' ∷ (t ++ (b'"' ∷ 10 ∷ []))))
          ≡ ok (some (word ++ (b' ' ∷ text), [])) =
      λ q. cleanup_loop-word word (m + 3) 3 disable args q _ _ [] refl hw (λ q'.
        cleanup_loop-other 3 2 disable args q' b' ' _ text [] refl (case_of-space disable)
          (string (q' + 1))) in
    let whole : cleanup_loop (n + m + 4) disable args 0 (string_line label word t (10 ∷ []))
        ≡ ok (some (string_line label word (map mark t) [], [])) =
      cleanup_loop-word label (n + m + 4) (m + 4) disable args 0 _ _ [] (omega arith) hl (λ q.
        cleanup_loop-other (m + 4) (m + 3) disable args q b' ' _ _ [] (omega arith)
          (case_of-space disable) (second (q + 1))) in
    let inner = strip_end-prefix (b' ' ∷ []) b'"' _ (strip_end-string (b'"' ∷ map mark t)) in
    let stripped = strip_end-prefix label b' ' _ (strip_end-prefix (b' ' ∷ word) b' ' text inner) in
    rw (whole, finish_cleanup) (ap (λ l. ok (some (l, []))) stripped)

parse-string_line :
    (label t : List ℕ) (c : ℕ) (word : List ℕ)
    → All is_plain label
    → All is_plain (c ∷ word)
    → All in_string t
    → length label + length word + length t ≤ 505
    → parse (string_line label (c ∷ word) (map mark t) [])
      ≡ ok (record {
        label = label;
        word = c ∷ word;
        operand = b'"' ∷ t ++ b'"' ∷ [];
        mnext = none;
        extstr = none;
      })
unfolding parse
parse-string_line label t c word hl hw ht room =
    let after : List ℕ = b' ' ∷ b'"' ∷ map mark t ++ b'"' ∷ [] in
    let first = first_word-plain label (c ∷ word ++ after) hl in
    let no_space : (c == b' ') ≡ false = ground (arith, hw.0) in
    let second = next_word-plain (c ∷ word) (b'"' ∷ map mark t ++ b'"' ∷ []) hw in
    let string : rest_of_line (skip_spaces after) ≡ b'"' ∷ t ++ b'"' ∷ [] =
      rest_of_line-after t ht in
    let fits : leb (length label + length (c ∷ word) + length (b'"' ∷ t ++ b'"' ∷ []) + 4) 512
        ≡ true =
      rw (length-append t (b'"' ∷ [])) (ground arith) in
    rw
      (
        first,
        skip_spaces-plain c (word ++ after) no_space,
        second,
        string,
        fits,
        findext-plain c word hw,
      )
      refl

-- Whatever a string in quotes is made of, spaces, semicolons and braces included, but quotes and the byte 0x80,
-- it reaches the directive of its line as it was written: `cleanup` and `parse` take a line of a label, a
-- directive and a string apart into these three, where label and directive are words of plain bytes,
-- the directive is not empty, and the line fits Avbuf.
pub parse-cleanup :
    (disable : Bool) (args : List (List ℕ)) (label t : List ℕ) (c : ℕ) (word : List ℕ)
    → All is_plain label
    → All is_plain (c ∷ word)
    → All in_string t
    → length label + length word + length t ≤ 505
    → (cleanup
          (length label + length word + 5)
          disable
          args
          (string_line label (c ∷ word) t (10 ∷ []))
        >>= parse_cleaned)
      ≡ ok (
          some (record {
            label = label;
            word = c ∷ word;
            operand = b'"' ∷ t ++ b'"' ∷ [];
            mnext = none;
            extstr = none;
          }))
unfolding parse_cleaned
parse-cleanup disable args label t c word hl hw ht room =
    let enough : length label + length word + 5 ≡ length label + length (c ∷ word) + 4 =
      omega arith in
    rw
      (
        enough,
        cleanup-string_line disable args label (c ∷ word) t hl hw ht,
        parse-string_line label t c word hl hw ht room,
      )
      refl
