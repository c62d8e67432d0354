-- ===== src/Ftohex/Load.antt =====
-- What a loader of Intel hex reads from the output of src/src/ftohex.c.
use dasm_dillon_code_sourcef.Common.{
  ℕ, zero, suc, ◌+◌, ◌-◌, ◌*◌, ◌/◌, ◌%◌, ◌^◌, ◌<◌, ◌≡◌, refl, ap, ◌∙◌, ◌&&◌, List, [], ◌∷◌, ◌++◌,
  Option, none, some, length, get_or, if◌then◌else◌, ◌==◌, leb, arith, append_assoc,
}
use dasm_dillon_code_sourcef.Ftohex.{digits, put_hex, put_data, sum_data, put_line, end_line}

-- A reader of the format, written from its description: digits, bytes, lines.
abbrev hex_value : ℕ → Option ℕ
hex_value c =
    if leb b'0' c && leb c b'9'
    then some (c - b'0')
    else if leb b'A' c && leb c b'F'
    then some (c - b'A' + 10)
    else none

module _ {A : Type 0} where
  both_digits : (ℕ → Option A) → Option ℕ → Option ℕ → Option A
  both_digits k (some x) (some y) = k (x * 16 + y)
  both_digits k _ _ = none

  with_byte : (ℕ → List ℕ → Option A) → List ℕ → Option A
  unfolding both_digits
  with_byte k (a ∷ b ∷ s) = both_digits (λ c. k c s) (hex_value a) (hex_value b)
  with_byte k _ = none

  with_bytes : ℕ → (List ℕ → List ℕ → Option A) → List ℕ → Option A
  with_bytes zero k s = k [] s
  with_bytes (suc n) k s = with_byte (λ b. with_bytes n (λ bs. k (b ∷ bs))) s

sum_bytes : List ℕ → ℕ
sum_bytes [] = 0
sum_bytes (b ∷ bytes) = b + sum_bytes bytes

digit_value : (n : ℕ) → n < 16 → hex_value (get_or digits n 0) ≡ some n
digit_value zero h = refl
digit_value (suc zero) h = refl
digit_value (suc (suc zero)) h = refl
digit_value (suc (suc (suc zero))) h = refl
digit_value (suc (suc (suc (suc zero)))) h = refl
digit_value (suc (suc (suc (suc (suc zero))))) h = refl
digit_value (suc (suc (suc (suc (suc (suc zero)))))) h = refl
digit_value (suc (suc (suc (suc (suc (suc (suc zero))))))) h = refl
digit_value (suc (suc (suc (suc (suc (suc (suc (suc zero)))))))) h = refl
digit_value (suc (suc (suc (suc (suc (suc (suc (suc (suc zero))))))))) h = refl
digit_value (suc (suc (suc (suc (suc (suc (suc (suc (suc (suc zero)))))))))) h = refl
digit_value (suc (suc (suc (suc (suc (suc (suc (suc (suc (suc (suc zero))))))))))) h = refl
digit_value (suc (suc (suc (suc (suc (suc (suc (suc (suc (suc (suc (suc zero)))))))))))) h = refl
digit_value (suc (suc (suc (suc (suc (suc (suc (suc (suc (suc (suc (suc (suc zero))))))))))))) h =
    refl
digit_value (suc (suc (suc (suc (suc (suc (suc (suc (suc (suc (suc (suc (suc (suc zero))))))))))))))
      h =
    refl
digit_value
      (suc (suc (suc (suc (suc (suc (suc (suc (suc (suc (suc (suc (suc (suc (suc zero)))))))))))))))
      h =
    refl
digit_value
      (suc
        (suc (suc (suc (suc (suc (suc (suc (suc (suc (suc (suc (suc (suc (suc (suc n))))))))))))))))
      h =
    absurd (omega arith)

with_byte-put_hex :
    {A : Type 0} (k : ℕ → List ℕ → Option A) (c : ℕ) (s : List ℕ)
    → c < 256
    → with_byte k (put_hex c ++ s) ≡ k c s
unfolding with_byte both_digits put_hex
with_byte-put_hex k c s h =
    rw (digit_value (c / 16 % 16) (omega arith), digit_value (c % 16) (omega arith))
      (ap (λ d. k d s) (omega arith))

-- the bytes that a file holds
abbrev pub AllBytes : List ℕ → Type 0
AllBytes [] = Unit
AllBytes (b ∷ bytes) = (b < 256) × AllBytes bytes

with_bytes-put_data :
    {A : Type 0} (k : List ℕ → List ℕ → Option A) (bytes s : List ℕ)
    → AllBytes bytes
    → with_bytes (length bytes) k (put_data bytes ++ s) ≡ k bytes s
unfolding with_bytes put_data
with_bytes-put_data k [] s h = refl
with_bytes-put_data k (b ∷ bytes) s h =
    ap (with_bytes (suc (length bytes)) k) (append_assoc (put_hex b) (put_data bytes) s)
    ∙ with_byte-put_hex (λ b. with_bytes (length bytes) (λ bs. k (b ∷ bs))) b (put_data bytes ++ s)
        h.0
    ∙ with_bytes-put_data (λ bs. k (b ∷ bs)) bytes s h.1

module _ {A : Type 0} where
  -- the end of a line, and the sum of all its bytes
  end_of_line : (ℕ → ℕ → List ℕ → List ℕ → Option A) → ℕ → ℕ → ℕ → List ℕ → ℕ → List ℕ → Option A
  end_of_line k hi lo kind bytes chk (a ∷ b ∷ s) =
      if a == 13 && b == 10 && (length bytes + hi + lo + kind + sum_bytes bytes + chk) % 256 == 0
      then k kind (hi * 256 + lo) bytes s
      else none
  end_of_line k hi lo kind bytes chk _ = none

  -- `k` gets the kind, the address and the data of a line, and the text behind it
  load_line : (ℕ → ℕ → List ℕ → List ℕ → Option A) → List ℕ → Option A
  load_line k [] = none
  load_line k (c ∷ s) =
      if c == b':'
      then with_byte
          (λ len. with_byte (λ hi. with_byte (λ lo.
            with_byte
              (λ kind. with_bytes len (λ bytes. with_byte (end_of_line k hi lo kind bytes))))))
          s
      else none

-- the bytes at their addresses
unfoldable pub place : ℕ → List ℕ → List (ℕ × ℕ)
place org [] = []
place org (b ∷ bytes) = (org, b) ∷ place ((org + 1) % 2 ^ 16) bytes

abbrev pub join : List (ℕ × ℕ) → Option (List (ℕ × ℕ)) → Option (List (ℕ × ℕ))
join cells none = none
join cells (some more) = some (cells ++ more)

-- The loader: lines of kind 0 hold data, a line of kind 1 ends the file. The fuel counts the lines.
pub load : ℕ → List ℕ → Option (List (ℕ × ℕ))
load zero s = none
load (suc fuel) s =
    load_line
      (λ kind addr bytes rest.
        if kind == 0
        then join (place addr bytes) (load fuel rest)
        else if kind == 1
        then some []
        else none)
      s

sum_data-sum_bytes :
    (chk : ℕ) (bytes : List ℕ) → chk < 256 → sum_data chk bytes ≡ (chk + sum_bytes bytes) % 256
unfolding sum_data sum_bytes
sum_data-sum_bytes chk [] h = omega arith
sum_data-sum_bytes chk (b ∷ bytes) h =
    sum_data-sum_bytes ((chk + b) % 256) bytes (omega arith) ∙ omega arith

line_sum :
    (len org : ℕ) (bytes : List ℕ)
    → (len
          + org / 256
          + org % 256
          + 0
          + sum_bytes bytes
          + (256 - sum_data ((len + org / 256 + org % 256) % 256) bytes) % 256)
        % 256
      ≡ 0
line_sum len org bytes =
    rw (sum_data-sum_bytes ((len + org / 256 + org % 256) % 256) bytes (omega arith)) (omega arith)

-- a line's bytes, in front of the text behind it
line_then : ℕ → List ℕ → List ℕ → List ℕ
line_then org bytes rest =
    put_hex (length bytes)
    ++ (put_hex (org / 256)
        ++ (put_hex (org % 256)
            ++ (b'0'
                ∷ b'0'
                ∷ (put_data bytes
                    ++ (put_hex (
                          (256 - sum_data ((length bytes + org / 256 + org % 256) % 256) bytes)
                          % 256)
                        ++ (13 ∷ 10 ∷ rest))))))

put_line_then :
    (org : ℕ) (bytes rest : List ℕ) → put_line org bytes ++ rest ≡ b':' ∷ line_then org bytes rest
unfolding put_line line_then put_hex
put_line_then org bytes rest =
    ap
      (λ t.
        b':'
        ∷ (put_hex (length bytes)
            ++ (put_hex (org / 256) ++ (put_hex (org % 256) ++ (b'0' ∷ b'0' ∷ t)))))
      (append_assoc (put_data bytes) _ rest)

end_of_line-closes :
    {A : Type 0} (k : ℕ → ℕ → List ℕ → List ℕ → Option A) (org : ℕ) (bytes rest : List ℕ)
    → end_of_line k
        (org / 256)
        (org % 256)
        0
        bytes
        ((256 - sum_data ((length bytes + org / 256 + org % 256) % 256) bytes) % 256)
        (13 ∷ 10 ∷ rest)
      ≡ k 0 org bytes rest
unfolding end_of_line
end_of_line-closes k org bytes rest =
    rw (line_sum (length bytes) org bytes) (ap (λ a. k 0 a bytes rest) (omega arith))

load_line-put_line :
    {A : Type 0} (k : ℕ → ℕ → List ℕ → List ℕ → Option A) (org : ℕ) (bytes rest : List ℕ)
    → org < 2 ^ 16
    → length bytes < 256
    → AllBytes bytes
    → load_line k (put_line org bytes ++ rest) ≡ k 0 org bytes rest
unfolding load_line with_byte both_digits line_then
load_line-put_line {A = A} k org bytes rest h l b =
    let len = length bytes in
    let hi = org / 256 in
    let lo = org % 256 in
    let chk = (256 - sum_data ((len + hi + lo) % 256) bytes) % 256 in
    let at_kind : ℕ → ℕ → ℕ → ℕ → List ℕ → Option A =
      λ len hi lo kind. with_bytes len (λ bytes. with_byte (end_of_line k hi lo kind bytes)) in
    let at_lo : ℕ → ℕ → ℕ → List ℕ → Option A = λ len hi lo. with_byte (at_kind len hi lo) in
    let at_hi : ℕ → ℕ → List ℕ → Option A = λ len hi. with_byte (at_lo len hi) in
    let after_data = put_hex chk ++ (13 ∷ 10 ∷ rest) in
    let after_kind = b'0' ∷ b'0' ∷ (put_data bytes ++ after_data) in
    ap (load_line k) (put_line_then org bytes rest)
    ∙ with_byte-put_hex (λ len. with_byte (at_hi len)) len
        (put_hex hi ++ (put_hex lo ++ after_kind)) l
    ∙ with_byte-put_hex (at_hi len) hi (put_hex lo ++ after_kind) (omega arith)
    ∙ with_byte-put_hex (at_lo len hi) lo after_kind (omega arith)
    ∙ with_bytes-put_data (λ bytes. with_byte (end_of_line k hi lo 0 bytes)) bytes after_data b
    ∙ with_byte-put_hex (end_of_line k hi lo 0 bytes) chk (13 ∷ 10 ∷ rest) (omega arith)
    ∙ end_of_line-closes k org bytes rest

pub load-put_line :
    (fuel org : ℕ) (bytes rest : List ℕ)
    → org < 2 ^ 16
    → length bytes < 256
    → AllBytes bytes
    → load (suc fuel) (put_line org bytes ++ rest) ≡ join (place org bytes) (load fuel rest)
unfolding load
load-put_line fuel org bytes rest h l b = load_line-put_line _ org bytes rest h l b

pub load-end_line : (fuel : ℕ) → load (suc fuel) end_line ≡ some []
unfolding load load_line with_byte with_bytes end_of_line sum_bytes
load-end_line fuel = refl
