-- ===== src/Ftohex.antt =====
-- The converter src/src/ftohex.c from object files to Intel hex. A file is the list of its bytes; the
-- bytes not read yet are the input, or a Stream where the end of the file is asked for. What `main` adds behind `convert` is not modelled.
pub mod Load
pub mod RoundTrip
pub mod Blocks
use dasm_dillon_code_sourcef.Common.{
  ℕ, zero, suc, ◌+◌, ◌-◌, ◌*◌, ◌/◌, ◌%◌, ◌^◌, Bool, true, false, List, [], ◌∷◌, ◌++◌, Option, none,
  some, length, get_or, take, drop, if◌then◌else◌, ◌==◌, ltb, Run, ok, fault, out_of_fuel, ◌>>=◌,
}

abbrev pub per_line : ℕ
per_line = 16

-- The end of a run: `convert` returns, or `exit_error` ends the program, with what is written.
pub data Finish : Type 0 where
  returned exited : List ℕ → Finish

-- FILE: the bytes that are not read yet, and what `feof` tells, which a read behind the last byte sets
pub record Stream : Type 0 where
  pub bytes : List ℕ
  pub eof : Bool

-- nothing stands for EOF
unfoldable pub getc : Stream → Option ℕ × Stream
getc s = elim s.bytes [
  | [] ↦ (none, record s { eof = true })
  | b ∷ rest ↦ (some b, record s { bytes = rest })
]

-- nothing stands for the `exit_error` at EOF
unfoldable pub get_word : Stream → Option (ℕ × Stream)
get_word s =
    let first = getc s in
    let second = getc first.1 in
    elim first.0 [
      | none ↦ none
      | some lsb ↦ elim second.0 [ none ↦ none | some msb ↦ some (lsb + msb * 256, second.1) ]
    ]

abbrev pub digits : List ℕ
digits =
    b'0' ∷ b'1' ∷ b'2' ∷ b'3' ∷ b'4' ∷ b'5' ∷ b'6' ∷ b'7' ∷ b'8' ∷ b'9' ∷ b'A' ∷ b'B' ∷ b'C' ∷ b'D'
    ∷ b'E' ∷ b'F' ∷ []

-- the two digits of a byte
unfoldable pub put_hex : ℕ → List ℕ
put_hex c = get_or digits ((c / 16) % 16) 0 ∷ get_or digits (c % 16) 0 ∷ []

-- the loop over the data of a line
unfoldable pub put_data : List ℕ → List ℕ
put_data [] = []
put_data (b ∷ bytes) = put_hex b ++ put_data bytes

unfoldable pub sum_data : ℕ → List ℕ → ℕ
sum_data chk [] = chk
sum_data chk (b ∷ bytes) = sum_data ((chk + b) % 256) bytes

-- a line of the output
unfoldable pub put_line : ℕ → List ℕ → List ℕ
put_line org bytes =
    let idx = length bytes in
    let chk = sum_data ((idx + org / 256 + org % 256) % 256) bytes in
    b':'
    ∷ (put_hex idx
        ++ (put_hex (org / 256)
            ++ (put_hex (org % 256)
                ++ (b'0'
                    ∷ b'0'
                    ∷ (put_data bytes ++ (put_hex ((256 - chk) % 256) ++ (13 ∷ 10 ∷ [])))))))

-- `while (len > 0)`: a line holds a byte at least, so `len` bounds the lines. The assertion on `fread`
-- fails where the input is shorter. The result is the input that is left, the next origin and the lines.
unfoldable pub put_lines : ℕ → ℕ → ℕ → List ℕ → Run (List ℕ × ℕ × List ℕ)
put_lines zero org len input = if len == 0 then ok (input, org, []) else out_of_fuel
put_lines (suc k) org len input =
    let idx = if ltb per_line len then per_line else len in
    let more = put_lines k ((org + idx) % 2 ^ 16) (len - idx) (drop idx input) in
    if len == 0
    then ok (input, org, [])
    else if ltb (length input) idx
    then fault
    else (do (rest, org2, lines) ← more; ok (rest, org2, put_line org (take idx input) ++ lines))

-- ":00000001FF\r\n"
abbrev pub end_line : List ℕ
end_line = b':' ∷ b'0' ∷ b'0' ∷ b'0' ∷ b'0' ∷ b'0' ∷ b'0' ∷ b'0' ∷ b'1' ∷ b'F' ∷ b'F' ∷ 13 ∷ 10 ∷ []

-- what was written before comes first
unfoldable pub behind : List ℕ → Finish → Finish
behind lines (returned more) = returned (lines ++ more)
behind lines (exited more) = exited (lines ++ more)

-- The loop for format 2, up to a break at the end of the file. Each round reads four bytes at least, so the
-- input's length bounds the rounds. An `fread` that gets all its bytes leaves `feof` as it is.
unfoldable pub put_blocks : ℕ → ℕ → ℕ → Stream → Run Finish
put_blocks zero org len s = out_of_fuel
put_blocks (suc k) org len s = do
  (rest, org2, lines) ← put_lines len org len s.bytes
  elim (get_word (record s { bytes = rest })) [
    | none ↦ ok (exited lines)
    | some header ↦ elim header.1.eof [
      | true ↦ ok (returned (lines ++ end_line))
      | false ↦ elim (get_word header.1) [
        | none ↦ ok (exited lines)
        | some size ↦ (do done ← put_blocks k header.0 size.0 size.1; ok (behind lines done))
      ]
    ]
  ]

-- formats 1 and 3: the rest of the file is the data, its length kept in 16 bits
unfoldable pub put_rest : ℕ → List ℕ → Run Finish
put_rest org input = do
  (rest, org2, lines) ← put_lines (length input % 2 ^ 16) org (length input % 2 ^ 16) input
  ok (returned (lines ++ end_line))

unfoldable pub convert : ℕ → List ℕ → Run Finish
convert format input =
    let s : Stream = record { bytes = input; eof = false } in
    if ltb format 3
    then elim (get_word s) [
      | none ↦ ok (exited [])
      | some first ↦
          if format == 2
          then elim (get_word first.1) [
            | none ↦ ok (exited [])
            | some size ↦ put_blocks (length input) first.0 size.0 size.1
          ]
          else put_rest first.0 first.1.bytes
    ]
    else put_rest 0 input
