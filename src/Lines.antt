-- ===== src/Lines.antt =====
-- How src/src/main.c takes a line apart: `cleanup`, `findext` and `parse`. A line is the list of its bytes
-- before the NUL.
pub mod Cleanup
pub mod Words
use dasm_dillon_code_sourcef.Common.{
  ℕ, zero, suc, ◌+◌, ◌-◌, ◌*◌, Bool, not, ◌&&◌, ◌||◌, List, [], ◌∷◌, ◌++◌, Option, none, some,
  length, get_or, if◌then◌else◌, ◌==◌, ltb, leb, Run, ok, fault, out_of_fuel, ◌>>=◌,
}
use dasm_dillon_code_sourcef.Asm.{
  AddressMode, zero_x, zero_y, indword, byteadrx, byteadry, bitmod, bitbramod, byteadr, wordadrx,
  wordadry, wordadr, long, rel, bss,
}
use dasm_dillon_code_sourcef.Util.{tolower, isspace}
use dasm_dillon_code_sourcef.Symbols.{starts_with}

-- MAXLINE, the size of the buffer of a line
abbrev pub max_line : ℕ
max_line = 1024

-- a line of `cleanup`, and its comment
abbrev pub Cleaned : Type 0
Cleaned = List ℕ × List ℕ

-- bytes that are kept in front; `none` stands for the end of the program by `panic_fmt`
unfoldable pub keep : List ℕ → Option Cleaned → Option Cleaned
keep s none = none
keep s (some (line, note)) = some (s ++ line, note)

-- a space inside of quotes
abbrev pub mark : ℕ → ℕ
mark c = if c == b' ' then 0x80 else c

abbrev pub unmark : ℕ → ℕ
unmark c = if c == 0x80 then b' ' else c

-- the bytes of a string up to the closing quote, and the text from there on; a string without a closing
-- quote, which is reported, reaches to the end
unfoldable pub quoted : List ℕ → List ℕ × List ℕ
quoted [] = ([], [])
quoted (c ∷ s) =
    let (inside, rest) = quoted s in if c == b'"' then ([], c ∷ s) else (mark c ∷ inside, rest)

-- the digits that `atoi` reads
unfoldable pub atoi_digits : ℕ → List ℕ → ℕ
atoi_digits n [] = n
atoi_digits n (c ∷ s) =
    let more = atoi_digits (n * 10 + (c - b'0')) s in if leb b'0' c && leb c b'9' then more else n

-- a number below 0 counts as none
unfoldable pub atoi_signed : List ℕ → Option ℕ
atoi_signed [] = some 0
atoi_signed (c ∷ s) =
    if c == b'-'
    then (if atoi_digits 0 s == 0 then some 0 else none)
    else if c == b'+'
    then some (atoi_digits 0 s)
    else some (atoi_digits 0 (c ∷ s))

unfoldable pub atoi : List ℕ → Option ℕ
atoi [] = some 0
atoi (c ∷ s) = let more = atoi s in if isspace c then more else atoi_signed (c ∷ s)

-- the text in front of the closing brace, and what follows it
unfoldable pub braced : List ℕ → Option (List ℕ × List ℕ)
braced [] = none
braced (c ∷ s) =
    let more = braced s in
    if c == b'}' then some ([], s) else elim more [ none ↦ none | some r ↦ some (c ∷ r.0, r.1) ]

-- the argument of a macro
unfoldable pub nth_arg : List (List ℕ) → Option ℕ → Option (List ℕ)
nth_arg args none = none
nth_arg [] (some n) = none
nth_arg (arg ∷ args) (some zero) = some arg
nth_arg (arg ∷ args) (some (suc n)) = nth_arg args (some n)

-- the cases of the switch; where `bDisable` holds, a brace is an ordinary byte
pub data Case : Type 0 where
  comment line_end tab character string brace other : Case

unfoldable pub case_of : Bool → ℕ → Case
case_of disable c =
    if c == b';'
    then comment
    else if c == 13 || c == 10
    then line_end
    else if c == 9
    then tab
    else if c == 39
    then character
    else if c == b'"'
    then string
    else if c == b'{' && not disable
    then brace
    else other

-- the byte behind a single quote, and the text behind it
unfoldable pub quoted_byte : ℕ → List ℕ → ℕ × List ℕ
quoted_byte c s = if c == 10 then (0x80, []) else if c == 9 || c == b' ' then (0x80, s) else (c, s)

-- the rest of the loop: from a place in the buffer, on the text from there
abbrev pub Rest : Type 0
Rest = ℕ → List ℕ → Run (Option Cleaned)

abbrev pub kept : List ℕ → Run (Option Cleaned) → Run (Option Cleaned)
kept s r = r >>= λ x. ok (keep s x)

-- A single quote at the end of the line: a space and a NUL are written from the NUL on, and the second
-- may lie behind the buffer.
unfoldable pub cleanup_character : Rest → ℕ → List ℕ → Run (Option Cleaned)
cleanup_character rest p [] = if ltb (p + 2) max_line then ok (some (39 ∷ 0x80 ∷ [], [])) else fault
cleanup_character rest p (c ∷ s) =
    let (byte, s') = quoted_byte c s in kept (39 ∷ byte ∷ []) (rest (p + 2) s')

-- the closing quote, if there is one, and the rest
unfoldable pub cleanup_string_end : Rest → ℕ → List ℕ → Run (Option Cleaned)
cleanup_string_end rest p [] = ok (some ([], []))
cleanup_string_end rest p (c ∷ s) = kept (c ∷ []) (rest (p + 1) s)

unfoldable pub cleanup_string : Rest → ℕ → List ℕ → Run (Option Cleaned)
cleanup_string rest p s =
    let (inside, s') = quoted s in
    kept (b'"' ∷ inside) (cleanup_string_end rest (p + 1 + length inside) s')

-- The argument goes in the place of the braces and is read again; a line that gets too long ends the program,
-- and without the argument, which is reported, the line ends behind the braces.
unfoldable pub insert_arg : Rest → ℕ → Option (List ℕ) → List ℕ → List ℕ → Run (Option Cleaned)
insert_arg rest p none inside s = ok (some (b'{' ∷ inside ++ b'}' ∷ [], []))
insert_arg rest p (some arg) inside s =
    let more = rest p (arg ++ s) in
    if ltb max_line (p + length arg + length s + 1) then ok none else more

-- without a closing brace the whole rest is kept
unfoldable pub cleanup_brace :
    Rest → List (List ℕ) → ℕ → List ℕ → Option (List ℕ × List ℕ) → Run (Option Cleaned)
cleanup_brace rest args p s none = ok (some (b'{' ∷ s, []))
cleanup_brace rest args p s (some (inside, s')) =
    insert_arg rest p (nth_arg args (atoi (inside ++ b'}' ∷ []))) inside s'

unfoldable pub cleanup_case : Rest → List (List ℕ) → ℕ → ℕ → List ℕ → Case → Run (Option Cleaned)
cleanup_case rest args p c s comment = ok (some ([], s))
cleanup_case rest args p c s line_end = ok (some ([], []))
cleanup_case rest args p c s tab = kept (b' ' ∷ []) (rest (p + 1) s)
cleanup_case rest args p c s character = cleanup_character rest p s
cleanup_case rest args p c s string = cleanup_string rest p s
cleanup_case rest args p c s brace = cleanup_brace rest args p s (braced s)
cleanup_case rest args p c s other = kept (c ∷ []) (rest (p + 1) s)

-- the loop of `cleanup`, at the place `p` of the buffer
unfoldable pub cleanup_loop : ℕ → Bool → List (List ℕ) → ℕ → List ℕ → Run (Option Cleaned)
cleanup_loop zero disable args p str = out_of_fuel
cleanup_loop (suc k) disable args p [] = ok (some ([], []))
cleanup_loop (suc k) disable args p (c ∷ s) =
    cleanup_case (cleanup_loop k disable args) args p c s (case_of disable c)

-- a space in front of what is left, unless nothing is
abbrev pub trim_space : List ℕ → List ℕ
trim_space [] = []
trim_space (c ∷ s) = b' ' ∷ c ∷ s

-- the line without the spaces at its end
unfoldable pub strip_end : List ℕ → List ℕ
strip_end [] = []
strip_end (c ∷ s) = let rest = strip_end s in if c == b' ' then trim_space rest else c ∷ rest

abbrev pub finish_cleanup : Option Cleaned → Option Cleaned
finish_cleanup none = none
finish_cleanup (some (line, note)) = some (strip_end line, note)

-- `cleanup(buf, bDisable)` with the arguments of the file that is read
unfoldable pub cleanup : ℕ → Bool → List (List ℕ) → List ℕ → Run (Option Cleaned)
cleanup fuel disable args buf = do r ← cleanup_loop fuel disable args 0 buf; ok (finish_cleanup r)

-- Av[0], up to a space or a colon, and the rest behind the colon or from the space on
unfoldable pub first_word : List ℕ → List ℕ × List ℕ
first_word [] = ([], [])
first_word (c ∷ s) =
    let (word, rest) = first_word s in
    if c == b' ' then ([], c ∷ s) else if c == b':' then ([], s) else (unmark c ∷ word, rest)

unfoldable pub skip_spaces : List ℕ → List ℕ
skip_spaces [] = []
skip_spaces (c ∷ s) = let rest = skip_spaces s in if c == b' ' then rest else c ∷ s

-- the second word, up to a space
unfoldable pub next_word : List ℕ → List ℕ × List ℕ
next_word [] = ([], [])
next_word (c ∷ s) =
    let (word, rest) = next_word s in if c == b' ' then ([], c ∷ s) else (unmark c ∷ word, rest)

-- the rest of the line, with one space for several
unfoldable pub rest_of_line : List ℕ → List ℕ
rest_of_line [] = []
rest_of_line (c ∷ s) =
    let rest = rest_of_line s in if c == b' ' && starts_with b' ' s then rest else unmark c ∷ rest

-- the addressing mode of an extension: a fault stands for the assertions on extensions that have none
unfoldable pub extension_mode : ℕ → ℕ → Run AddressMode
extension_mode c d =
    if c == b'0' || c == b'i'
    then (if d == b'x'
        then ok zero_x
        else if d == b'y'
        then ok zero_y
        else if d == b'n'
        then ok indword
        else fault)
    else if c == b'd' || c == b'b' || c == b'z'
    then ok (
        if d == b'x'
        then byteadrx
        else if d == b'y'
        then byteadry
        else if d == b'i'
        then bitmod
        else if d == b'b'
        then bitbramod
        else byteadr)
    else if c == b'e' || c == b'w' || c == b'a'
    then ok (if d == b'x' then wordadrx else if d == b'y' then wordadry else wordadr)
    else if c == b'l'
    then ok long
    else if c == b'r'
    then ok rel
    else if c == b'u'
    then ok bss
    else fault

-- the word in front of the first period, and the text behind it
unfoldable pub split_extension : List ℕ → List ℕ × Option (List ℕ)
split_extension [] = ([], none)
split_extension (c ∷ s) =
    let (word, ext) = split_extension s in if c == b'.' then ([], some s) else (c ∷ word, ext)

-- what `findext` leaves in the word, in Mnext and in Extstr; -1 in Mnext is none
abbrev pub Extension : Type 0
Extension = List ℕ × Option AddressMode × Option (List ℕ)

-- the first two bytes of the extension; a byte behind its end is the NUL
unfoldable pub with_extension : List ℕ → Option (List ℕ) → Run Extension
with_extension word none = ok (word, none, none)
with_extension word (some ext) = do
  mode ← extension_mode (tolower (get_or ext 0 0)) (tolower (get_or ext 1 0))
  ok (word, some mode, some ext)

unfoldable pub findext : List ℕ → Run Extension
findext str =
    if starts_with b'.' str
    then ok (str, none, none)
    else let (word, ext) = split_extension str in with_extension word ext

-- a line in its three parts, and what `findext` says of the second one
pub record Parsed : Type 0 where
  pub label : List ℕ
  pub word : List ℕ
  pub operand : List ℕ
  pub mnext : Option AddressMode
  pub extstr : Option (List ℕ)

-- sizeof(Avbuf)
abbrev pub size_of_avbuf : ℕ
size_of_avbuf = 512

-- `parse` but for its last step, the search of the mnemonic. Avbuf has its first byte and three NULs beside the
-- three parts.
unfoldable pub parse : List ℕ → Run Parsed
parse buf =
    let (label, rest1) = first_word buf in
    let (second, rest2) = next_word (skip_spaces rest1) in
    let operand = rest_of_line (skip_spaces rest2) in
    if leb (length label + length second + length operand + 4) size_of_avbuf
    then (do
      (word, mnext, extstr) ← findext second
      ok (record { label = label; word = word; operand = operand; mnext = mnext; extstr = extstr }))
    else fault

-- `parse` behind `cleanup`
unfoldable pub parse_cleaned : Option Cleaned → Run (Option Parsed)
parse_cleaned none = ok none
parse_cleaned (some (line, note)) = do words ← parse line; ok (some words)
