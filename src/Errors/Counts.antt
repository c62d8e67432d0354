-- ===== src/Errors/Counts.antt =====
-- The counters of src/src/errors.c over the messages of a run.
use dasm_dillon_code_sourcef.Common.{
  ℕ, ◌+◌, ◌<◌, ◌≡◌, refl, sym, ◌∙◌, subst, Bool, true, false, ◌&&◌, List, [], ◌∷◌, ◌++◌, Option,
  none, some, length, take_all, length-append, ◌==◌, ltb, leb, arith, Bool-cases, inl, inr, codes,
}
use mathlib.Core.Path.{ap₂}
use dasm_dillon_code_sourcef.Includes.{Incfile}
use dasm_dillon_code_sourcef.Util.Strings.{strlcat_lem}
use dasm_dillon_code_sourcef.Errors.{
  Level, level_number, level_name, Messages, Message, visible_error_level, vanotify,
  print_and_count, count_message, print_error_message, one_if, notify_all, message_text,
  append_piece, location, message_file,
}

-- the messages that are shown and pass a test on the level
abbrev pub shown : ℕ → (ℕ → Bool) → List Message → ℕ
shown least test [] = 0
shown least test (msg ∷ rest) =
    one_if (leb least (level_number msg.severity) && test (level_number msg.severity))
    + shown least test rest

-- The counters have grown by the shown messages, and the least level shown is the same.
pub record Counted (least : ℕ) (msgs : List Message) (m m1 : Messages) : Type 0 where
  pub warnings : m1.nof_warnings ≡ m.nof_warnings + shown least (λ l. l == 3) msgs
  pub errors : m1.nof_errors ≡ m.nof_errors + shown least (λ l. l == 4) msgs
  pub fatals : m1.nof_fatals ≡ m.nof_fatals + shown least (λ l. leb 5 l) msgs
  pub least_level : m1.level ≡ m.level

-- the result, if there is one
abbrev pub OfResult : (Messages → Type 0) → Option Messages → Type 0
OfResult P none = Unit
OfResult P (some m) = P m

-- what printing leaves alone
record SameCounts (m m1 : Messages) : Type 0 where
  warnings : m1.nof_warnings ≡ m.nof_warnings
  errors : m1.nof_errors ≡ m.nof_errors
  fatals : m1.nof_fatals ≡ m.nof_fatals
  least_level : m1.level ≡ m.level

print-SameCounts :
    (text : List ℕ) (m : Messages) (l : Option (List ℕ))
    → SameCounts
        (record m { fi_listfile = l })
        (print_error_message text (record m { fi_listfile = l }))
unfolding print_error_message
print-SameCounts text m none = record {
  warnings = refl;
  errors = refl;
  fatals = refl;
  least_level = refl;
}
print-SameCounts text m (some listing) = record {
  warnings = refl;
  errors = refl;
  fatals = refl;
  least_level = refl;
}

shown_one :
    (least : ℕ) (test : ℕ → Bool) (msg : Message)
    → leb least (level_number msg.severity) ≡ true
    → shown least test (msg ∷ []) ≡ one_if (test (level_number msg.severity))
shown_one least test msg e = rw e (omega arith)

hidden_one :
    (least : ℕ) (test : ℕ → Bool) (msg : Message)
    → leb least (level_number msg.severity) ≡ false
    → shown least test (msg ∷ []) ≡ 0
hidden_one least test msg e = rw e (omega arith)

-- a shown message that does not end the program
Counted-one :
    (msg : Message) (m : Messages) (text : List ℕ)
    → leb (level_number m.level) (level_number msg.severity) ≡ true
    → Counted
        (level_number m.level)
        (msg ∷ [])
        m
        (count_message msg.severity (print_error_message text m))
unfolding count_message
Counted-one msg m text e =
    let same = print-SameCounts text m m.fi_listfile in
    let one = λ (test : ℕ → Bool). shown_one (level_number m.level) test msg e in
    record {
      warnings = ap₂ (λ a b. a + b) same.warnings (sym (one (λ l. l == 3)));
      errors = ap₂ (λ a b. a + b) same.errors (sym (one (λ l. l == 4)));
      fatals = ap₂ (λ a b. a + b) same.fatals (sym (one (λ l. leb 5 l)));
      least_level = same.least_level;
    }

print_and_count-Counted :
    (msg : Message) (m : Messages) (text : Option (List ℕ))
    → leb (level_number m.level) (level_number msg.severity) ≡ true
    → OfResult (Counted (level_number m.level) (msg ∷ []) m) (print_and_count msg.severity m text)
unfolding print_and_count
print_and_count-Counted msg m none e = tt
print_and_count-Counted msg m (some text) e = elim (Bool-cases (level_number msg.severity == 6)) [
  | inl p ↦ rw p tt
  | inr p ↦ rw p (Counted-one msg m text e)
]

vanotify-Counted :
    (progname : List ℕ) (msg : Message) (m : Messages)
    → OfResult
        (Counted (level_number m.level) (msg ∷ []) m)
        (vanotify progname msg.includes msg.severity msg.information m)
unfolding vanotify visible_error_level
vanotify-Counted progname msg m =
    elim (Bool-cases (leb (level_number m.level) (level_number msg.severity))) [
      | inl e ↦ rw e (
          print_and_count-Counted msg m
            (message_text m progname msg.includes msg.severity msg.information) e)
      | inr e ↦
          let none_here = λ (test : ℕ → Bool). hidden_one (level_number m.level) test msg e in
          rw e (record {
            warnings = omega (arith, none_here (λ l. l == 3));
            errors = omega (arith, none_here (λ l. l == 4));
            fatals = omega (arith, none_here (λ l. leb 5 l));
            least_level = refl;
          })
    ]

Counted-then :
    (least : ℕ) (msg : Message) (rest : List Message) (m m1 m2 : Messages)
    → Counted least (msg ∷ []) m m1
    → Counted least rest m1 m2
    → Counted least (msg ∷ rest) m m2
Counted-then least msg rest m m1 m2 c d = record {
  warnings = omega (arith, c.warnings, d.warnings);
  errors = omega (arith, c.errors, d.errors);
  fatals = omega (arith, c.fatals, d.fatals);
  least_level = d.least_level ∙ c.least_level;
}

notify_rest-Counted :
    (progname : List ℕ) (msg : Message) (rest : List Message) (m : Messages)
    (first : Option Messages)
    → OfResult (Counted (level_number m.level) (msg ∷ []) m) first
    → ((m1 : Messages)
        → OfResult (Counted (level_number m1.level) rest m1) (notify_all progname rest m1))
    → OfResult
        (Counted (level_number m.level) (msg ∷ rest) m)
        (elim first [ none ↦ none | some m1 ↦ notify_all progname rest m1 ])
notify_rest-Counted progname msg rest m none c k = tt
notify_rest-Counted progname msg rest m (some m1) c k = both (notify_all progname rest m1) (
    subst (λ l. OfResult (Counted (level_number l) rest m1) (notify_all progname rest m1))
      c.least_level (k m1))
  where
    both :
        (r : Option Messages)
        → OfResult (Counted (level_number m.level) rest m1) r
        → OfResult (Counted (level_number m.level) (msg ∷ rest) m) r
    both none d = tt
    both (some m2) d = Counted-then (level_number m.level) msg rest m m1 m2 c d

-- Over any messages that do not end the program, the counters of warnings, errors and fatal errors grow by exactly the
-- messages of these levels, of level FATAL and above for the last, that are at least as severe as the level that
-- is shown: an error that is not shown is not counted.
pub notify_all-Counted :
    (progname : List ℕ) (msgs : List Message) (m : Messages)
    → OfResult (Counted (level_number m.level) msgs m) (notify_all progname msgs m)
unfolding notify_all
notify_all-Counted progname [] m = record {
  warnings = omega arith;
  errors = omega arith;
  fatals = omega arith;
  least_level = refl;
}
notify_all-Counted progname (msg ∷ rest) m =
    notify_rest-Counted progname msg rest m
      (vanotify progname msg.includes msg.severity msg.information m)
      (vanotify-Counted progname msg m) (notify_all-Counted progname rest)

append_piece-short :
    (piece buffer : List ℕ)
    → length buffer + length piece < 1024
    → append_piece piece (some buffer) ≡ some (buffer ++ piece)
unfolding append_piece
append_piece-short piece buffer h =
    let text = strlcat_lem buffer piece 1024 (omega arith) in
    let whole = take_all 1023 (buffer ++ piece) (omega (arith, length-append buffer piece)) in
    let one : ltb (length piece) 1024 ≡ true = ground arith in
    let all : leb (length buffer + length piece) 1024 ≡ true = ground arith in
    rw (text, whole, one, all) refl

-- A message of fewer than 1024 bytes in all is printed as its location, its level and its text, none of them cut.
pub message_text-append :
    (m : Messages) (progname information : List ℕ) (includes : List Incfile) (level : Level)
    → let place = location m.format progname (message_file includes) in
      let kind = level_name level ++ codes ": " in
      length place + length kind + length information < 1024
      → message_text m progname includes level information ≡ some ((place ++ kind) ++ information)
unfolding message_text
message_text-append m progname information includes level h =
    let place = location m.format progname (message_file includes) in
    let kind = level_name level ++ codes ": " in
    rw
      (
        append_piece-short place [] (omega arith),
        append_piece-short kind place (omega arith),
        append_piece-short information (place ++ kind) (omega (arith, length-append place kind)),
      )
      refl
