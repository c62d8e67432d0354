-- ===== src/Ftohex/Blocks.antt =====
-- Format 2 of src/src/ftohex.c.
use dasm_dillon_code_sourcef.Common.{
  ℕ, zero, suc, ◌+◌, ◌-◌, ◌≤◌, ◌<◌, ◌≡◌, refl, Bool, true, false, List, [], ◌∷◌, none, some, Ended,
  Ended-bind, inl, inr, ◌⊎◌, length, drop, length-drop, ltb, ◌==◌, if◌then◌else◌, arith, Bool-cases,
}
use dasm_dillon_code_sourcef.Ftohex.{
  Finish, returned, exited, convert, behind, put_blocks, put_lines, get_word, getc, per_line,
}

-- `convert` does not return
abbrev pub IsExit : Finish → Type 0
IsExit (returned out) = ⊥
IsExit (exited out) = Unit

behind-IsExit : (lines : List ℕ) (done : Finish) → IsExit done → IsExit (behind lines done)
unfolding behind
behind-IsExit lines (returned more) h = h
behind-IsExit lines (exited more) h = tt

abbrev Shorter : ℕ → List ℕ × ℕ × List ℕ → Type 0
Shorter n r = length r.0 ≤ n

put_lines-Ended :
    (k org len : ℕ) (input : List ℕ)
    → len ≤ k
    → Ended (Shorter (length input)) (put_lines k org len input)
unfolding put_lines
put_lines-Ended zero org len input h =
    let done : (len == 0) ≡ true = ground arith in rw done (omega arith)
put_lines-Ended (suc k) org len input h = elim (Bool-cases (len == 0)) [
  | inl z ↦ rw z (omega arith)
  | inr z ↦
      let idx : ℕ = if ltb per_line len then per_line else len in
      elim (Bool-cases (ltb (length input) idx)) [
        | inl short ↦ rw (z, short) tt
        | inr enough ↦
            rw (z, enough)
              (Ended-bind (Shorter (length (drop idx input))) (Shorter (length input))
                (put_lines k _ (len - idx) (drop idx input)) _
                (put_lines-Ended k _ (len - idx) (drop idx input) (ground arith))
                (λ r le. omega (arith, le, length-drop idx input)))
      ]
]

-- A word is read from two bytes that are there, which leaves `feof` alone.
get_word-cases :
    (bytes : List ℕ) (eof : Bool)
    → (get_word (record { bytes = bytes; eof = eof }) ≡ none)
      ⊎ ((w : ℕ) × (rest : List ℕ) × (get_word (record { bytes = bytes; eof = eof })
            ≡ some (w, record { bytes = rest; eof = eof }))
          × (length rest + 2 ≡ length bytes))
unfolding get_word getc
get_word-cases [] eof = inl refl
get_word-cases (b ∷ []) eof = inl refl
get_word-cases (b ∷ c ∷ rest) eof = inr (_, rest, refl, omega arith)

put_blocks-IsExit :
    (k org len : ℕ) (bytes : List ℕ)
    → length bytes < k
    → Ended IsExit (put_blocks k org len (record { bytes = bytes; eof = false }))
unfolding put_blocks
put_blocks-IsExit zero org len bytes h = absurd (omega arith)
put_blocks-IsExit (suc k) org len bytes h =
    Ended-bind (Shorter (length bytes)) IsExit (put_lines len org len bytes) _
      (put_lines-Ended len org len bytes (omega arith))
      (λ r le. elim (get_word-cases r.0 false) [
        | inl e ↦ rw e tt
        | inr (w, header, e, n) ↦ rw e (elim (get_word-cases header false) [
          | inl d ↦ rw d tt
          | inr (size, rest, d, m) ↦ rw d (
              Ended-bind IsExit IsExit (put_blocks k w size (record { bytes = rest; eof = false }))
                _ (put_blocks-IsExit k w size rest (omega (arith, n, m, le, h)))
                (behind-IsExit r.2))
        ])
      ])

-- On an input of format 2, `convert` never returns, so the line that ends the file is never written: within as many
-- rounds as the input has bytes, the program leaves by `exit_error`, or by the failing assertion on an `fread`
-- that is cut short.
pub convert_two-IsExit : (input : List ℕ) → Ended IsExit (convert 2 input)
unfolding convert
convert_two-IsExit input = elim (get_word-cases input false) [
  | inl e ↦ rw e tt
  | inr (org, first, e, n) ↦ rw e (elim (get_word-cases first false) [
    | inl d ↦ rw d tt
    | inr (size, rest, d, m) ↦
        rw d (put_blocks-IsExit (length input) org size rest (omega (arith, n, m)))
  ])
]
