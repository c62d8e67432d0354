-- ===== src/Errors.antt =====
-- The messages of src/src/errors.c: `vanotify`, the text of a message and its counters. The text that `vsnprintf` makes
-- of the caller's format is given. Where a message does not fit, or on ERRORLEVEL_PANIC, the program ends.
pub mod Counts
use dasm_dillon_code_sourcef.Common.{
  ℕ, ◌+◌, ◌-◌, Bool, true, false, not, ◌&&◌, List, [], ◌∷◌, ◌++◌, Option, none, some, length,
  replicate, if◌then◌else◌, ◌==◌, ltb, leb, codes,
}
use dasm_dillon_code_sourcef.Util.{strlcat, decimal}
use dasm_dillon_code_sourcef.Includes.{Incfile}

-- error_level_t
pub data Level : Type 0 where
  debug info notice warning error fatal panic : Level

abbrev pub level_number : Level → ℕ
level_number debug = 0
level_number info = 1
level_number notice = 2
level_number warning = 3
level_number error = 4
level_number fatal = 5
level_number panic = 6

abbrev pub level_name : Level → List ℕ
level_name debug = codes "debug"
level_name info = codes "info"
level_name notice = codes "notice"
level_name warning = codes "warning"
level_name error = codes "error"
level_name fatal = codes "fatal"
level_name panic = codes "***panic***"

-- error_format_t
pub data Format : Type 0 where
  woe dillon gnu : Format

-- F_error_format, F_error_level, the counters, what the listing file has got, if it is wanted and open, and
-- the standard error stream
pub record Messages : Type 0 where
  pub format : Format
  pub level : Level
  pub nof_fatals : ℕ
  pub nof_errors : ℕ
  pub nof_warnings : ℕ
  pub listfile : Bool
  pub fi_listfile : Option (List ℕ)
  pub stderr : List ℕ

unfoldable pub visible_error_level : Messages → Level → Bool
visible_error_level m level = leb (level_number m.level) (level_number level)

-- the file of a message: macros are skipped
unfoldable pub message_file : List Incfile → Option Incfile
message_file [] = none
message_file (inc ∷ rest) =
    let below = message_file rest in if inc.is_macro then below else some inc

-- "%7lu" and "%-10s"
abbrev pub pad_left : ℕ → List ℕ → List ℕ
pad_left n s = replicate (n - length s) b' ' ++ s

abbrev pub pad_right : ℕ → List ℕ → List ℕ
pad_right n s = s ++ replicate (n - length s) b' '

unfoldable pub location : Format → List ℕ → Option Incfile → List ℕ
location woe progname none = []
location woe progname (some file) =
    file.name ++ (codes " (" ++ (decimal file.lineno ++ codes "): "))
location dillon progname none = []
location dillon progname (some file) =
    codes "line "
    ++ (pad_left 7 (decimal file.lineno) ++ (b' ' ∷ (pad_right 10 file.name ++ b' ' ∷ [])))
location gnu progname none = progname ++ codes ": "
location gnu progname (some file) = file.name ++ (b':' ∷ (decimal file.lineno ++ codes ": "))

-- A piece appended to the buffer. A piece that is too long for its own buffer, or for the message, ends the program;
-- the test on the message lets a length of exactly 1024 pass, which `strlcat` has cut.
unfoldable pub append_piece : List ℕ → Option (List ℕ) → Option (List ℕ)
append_piece piece none = none
append_piece piece (some buffer) =
    let (text, res) = strlcat buffer piece 1024 in
    if ltb (length piece) 1024 && leb res 1024 then some text else none

-- the text of a message
unfoldable pub message_text : Messages → List ℕ → List Incfile → Level → List ℕ → Option (List ℕ)
message_text m progname includes level information = append_piece information (
    append_piece (level_name level ++ codes ": ")
      (append_piece (location m.format progname (message_file includes)) (some [])))

-- what the two streams get; a listing file that is wanted and not open is noted
unfoldable pub print_error_message : List ℕ → Messages → Messages
print_error_message text m = elim m.fi_listfile [
  | none ↦ record m {
    stderr =
        m.stderr
        ++ (text ++ ((if m.listfile then codes " [not in listing file]" else []) ++ 10 ∷ []));
  }
  | some listing ↦ record m {
    fi_listfile = some (if m.listfile then listing ++ (b'*' ∷ (text ++ 10 ∷ [])) else listing);
    stderr = m.stderr ++ (text ++ 10 ∷ []);
  }
]

abbrev pub one_if : Bool → ℕ
one_if true = 1
one_if false = 0

unfoldable pub count_message : Level → Messages → Messages
count_message level m = record m {
  nof_warnings = m.nof_warnings + one_if (level_number level == 3);
  nof_errors = m.nof_errors + one_if (level_number level == 4);
  nof_fatals = m.nof_fatals + one_if (leb 5 (level_number level));
}

-- the end of `vanotify`; nothing stands for the end of the program
unfoldable pub print_and_count : Level → Messages → Option (List ℕ) → Option Messages
print_and_count level m none = none
print_and_count level m (some text) =
    if level_number level == 6
    then none
    else some (count_message level (print_error_message text m))

unfoldable pub vanotify : List ℕ → List Incfile → Level → List ℕ → Messages → Option Messages
vanotify progname includes level information m =
    if visible_error_level m level
    then print_and_count level m (message_text m progname includes level information)
    else some m

-- a message at a place of the source
pub record Message : Type 0 where
  pub includes : List Incfile
  pub severity : Level
  pub information : List ℕ

-- the messages of a run, in their order
unfoldable pub notify_all : List ℕ → List Message → Messages → Option Messages
notify_all progname [] m = some m
notify_all progname (msg ∷ rest) m =
    elim (vanotify progname msg.includes msg.severity msg.information m) [
      | none ↦ none
      | some m1 ↦ notify_all progname rest m1
    ]
