-- ===== src/Ftohex/RoundTrip.antt =====
-- The files that src/src/ftohex.c writes, read back.
use dasm_dillon_code_sourcef.Common.{
  ℕ, zero, suc, ◌+◌, ◌-◌, ◌*◌, ◌%◌, ◌^◌, ◌≤◌, ◌<◌, ◌≡◌, refl, ap, sym, ◌∙◌, false, List, [], ◌∷◌,
  ◌++◌, some, length, take, drop, if◌then◌else◌, ◌==◌, ltb, arith, Run, ok, append_assoc,
  length-drop,
}
use dasm_dillon_code_sourcef.Ftohex.{
  put_line, put_lines, end_line, put_rest, convert, returned, get_word, getc, per_line,
}
use dasm_dillon_code_sourcef.Ftohex.Load.{AllBytes, place, load, join, load-put_line, load-end_line}

AllBytes-take : (n : ℕ) (bytes : List ℕ) → AllBytes bytes → AllBytes (take n bytes)
AllBytes-take zero bytes h = tt
AllBytes-take (suc n) [] h = tt
AllBytes-take (suc n) (b ∷ bytes) h = (h.0, AllBytes-take n bytes h.1)

AllBytes-drop : (n : ℕ) (bytes : List ℕ) → AllBytes bytes → AllBytes (drop n bytes)
AllBytes-drop zero bytes h = h
AllBytes-drop (suc n) [] h = tt
AllBytes-drop (suc n) (b ∷ bytes) h = AllBytes-drop n bytes h.1

length-take : (n : ℕ) (bytes : List ℕ) → n ≤ length bytes → length (take n bytes) ≡ n
length-take zero bytes h = refl
length-take (suc n) [] h = absurd (omega arith)
length-take (suc n) (b ∷ bytes) h = ap suc (length-take n bytes (omega arith))

place-split :
    (n org : ℕ) (bytes : List ℕ)
    → org < 2 ^ 16
    → n ≤ length bytes
    → place org bytes ≡ place org (take n bytes) ++ place ((org + n) % 2 ^ 16) (drop n bytes)
unfolding place
place-split zero org bytes h k = ap (λ o. place o bytes) (omega arith)
place-split (suc n) org [] h k = absurd (omega arith)
place-split (suc n) org (b ∷ bytes) h k =
    ap (λ t. (org, b) ∷ t)
      (place-split n ((org + 1) % 2 ^ 16) bytes (omega arith) (omega arith)
        ∙ ap (λ o. place ((org + 1) % 2 ^ 16) (take n bytes) ++ place o (drop n bytes))
            (omega arith))

-- what the lines of an input give back
record Given (org len : ℕ) (input : List ℕ) (r : Run (List ℕ × ℕ × List ℕ)) : Type 0 where
  next : ℕ
  lines : List ℕ
  written : r ≡ ok ([], next, lines)
  read : (fuel : ℕ) → len ≤ fuel → load (suc fuel) (lines ++ end_line) ≡ some (place org input)

read_line :
    (fuel org idx : ℕ) (input lines : List ℕ)
    → ((f : ℕ)
        → length (drop idx input) ≤ f
        → load (suc f) (lines ++ end_line) ≡ some (place ((org + idx) % 2 ^ 16) (drop idx input)))
    → 0 < idx
    → idx ≤ length input
    → idx < 256
    → org < 2 ^ 16
    → AllBytes input
    → length input ≤ fuel
    → load (suc fuel) ((put_line org (take idx input) ++ lines) ++ end_line)
      ≡ some (place org input)
read_line zero org idx input lines rest pos le small o b f = absurd (omega arith)
read_line (suc fuel) org idx input lines rest pos le small o b f =
    ap (load (suc (suc fuel))) (append_assoc (put_line org (take idx input)) lines end_line)
    ∙ load-put_line (suc fuel) org (take idx input) (lines ++ end_line) o
        (omega (arith, length-take idx input le)) (AllBytes-take idx input b)
    ∙ ap (join (place org (take idx input))) (rest fuel (omega (arith, length-drop idx input)))
    ∙ ap (λ t. some t) (sym (place-split idx org input o le))

put_lines-Given :
    (k org : ℕ) (input : List ℕ)
    → length input ≤ k
    → org < 2 ^ 16
    → AllBytes input
    → Given org (length input) input (put_lines k org (length input) input)
unfolding put_lines place
put_lines-Given zero org [] h o b = record {
  next = org;
  lines = [];
  written = refl;
  read = λ fuel e. load-end_line fuel;
}
put_lines-Given zero org (c ∷ input) h o b = absurd (omega arith)
put_lines-Given (suc k) org [] h o b = record {
  next = org;
  lines = [];
  written = refl;
  read = λ fuel e. load-end_line fuel;
}
put_lines-Given (suc k) org (c ∷ input) h o b =
    let input' = c ∷ input in
    let len = length input' in
    let idx = if ltb per_line len then per_line else len in
    let idx_pos : 0 < idx = ground arith in
    let idx_len : idx ≤ len = ground arith in
    let idx_line : idx < 256 = ground arith in
    let left = length-drop idx input' in
    let chunk = take idx input' in
    let chunk_length = length-take idx input' idx_len in
    let g =
      put_lines-Given k ((org + idx) % 2 ^ 16) (drop idx input') (omega (arith, left)) (omega arith)
        (AllBytes-drop idx input' b) in
    let written_rest : put_lines k ((org + idx) % 2 ^ 16) (len - idx) (drop idx input')
        ≡ ok ([], g.next, g.lines) =
      ap (λ n. put_lines k ((org + idx) % 2 ^ 16) n (drop idx input')) (sym left) ∙ g.written in
    let enough : ltb len idx ≡ false = ground arith in
    let some_left : (len == 0) ≡ false = ground arith in
    record {
      next = g.next;
      lines = put_line org chunk ++ g.lines;
      written = rw (some_left, enough, written_rest) refl;
      read = λ fuel. read_line fuel org idx input' g.lines g.read idx_pos idx_len idx_line o b;
    }

put_rest-Given :
    (org : ℕ) (input : List ℕ)
    (g : Given org (length input) input (put_lines (length input) org (length input) input))
    → length input < 2 ^ 16
    → put_rest org input ≡ ok (returned (g.lines ++ end_line))
unfolding put_rest
put_rest-Given org input g h =
    let whole : length input % 2 ^ 16 ≡ length input = omega arith in rw (whole, g.written) refl

-- A file of format 1, its origin in two bytes and its data behind it, is converted with no error, and a
-- loader that checks every line and its checksum reads from the output exactly the data, each byte at its
-- address from the origin on, modulo 2 ^ 16; there are fewer than 2 ^ 16 bytes of data.
pub convert-load :
    (lsb msb : ℕ) (input : List ℕ)
    → lsb < 256
    → msb < 256
    → AllBytes input
    → length input < 2 ^ 16
    → (out : List ℕ) × (convert 1 (lsb ∷ msb ∷ input) ≡ ok (returned out))
      × (load (length input + 1) out ≡ some (place (lsb + msb * 256) input))
unfolding convert get_word getc
convert-load lsb msb input l m b h =
    let g = put_lines-Given (length input) (lsb + msb * 256) input (omega arith) (omega arith) b in
    (
      g.lines ++ end_line,
      put_rest-Given (lsb + msb * 256) input g h,
      ap (λ n. load n (g.lines ++ end_line)) (omega arith) ∙ g.read (length input) (omega arith),
    )
