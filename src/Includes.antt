-- ===== src/Includes.antt =====
-- The files and macros that are read, `pIncfile` of src/src/main.c and src/src/ops.c: a stack, with the head of the
-- list for the innermost. A file is known by a number, and by the lines that `fgets` still gives.
pub mod Macros
pub mod Args
pub mod Levels
use dasm_dillon_code_sourcef.Common.{
  ℕ, ◌+◌, ◌-◌, Bool, true, false, ◌&&◌, List, [], ◌∷◌, ◌++◌, Option, none, some, map, length,
  if◌then◌else◌, ◌==◌, ltb, Run, ok, fault, ◌>>=◌,
}
use dasm_dillon_code_sourcef.Util.{tolower}
use dasm_dillon_code_sourcef.Conditional.{If, Source, is_active, place_here}
use dasm_dillon_code_sourcef.Mnemonics.{
  Macro, Command, instruction, defined, MnemonicHash, findmne, add_command,
}
use dasm_dillon_code_sourcef.Lines.{cleanup, parse, unmark}

-- INCFILE; `lines` is what is left of the stream `fi`, and empty for a macro, which has the stream of
-- the file below
pub record Incfile : Type 0 where
  pub id : ℕ
  pub name : List ℕ
  pub lines : List (List ℕ)
  pub lineno : ℕ
  pub is_macro : Bool
  pub nolist : Bool
  pub args : List (List ℕ)
  pub strlist : List (List ℕ)
  pub saveidx : ℕ
  pub savedolidx : ℕ

-- pIncfile, Mlevel, Inclevel, MHash, and the number of the next file
pub record Reader : Type 0 where
  pub includes : List Incfile
  pub mlevel : ℕ
  pub inclevel : ℕ
  pub table : MnemonicHash
  pub next_id : ℕ
  pub source : Source

-- MAXMACLEVEL
abbrev pub max_mac_level : ℕ
max_mac_level = 32

-- the number of the innermost file, and 0 for none
abbrev pub top_id : List Incfile → ℕ
top_id [] = 0
top_id (inc ∷ rest) = inc.id

-- pIncfile is set
abbrev pub with_includes : List Incfile → Reader → Reader
with_includes includes r = record r {
  includes = includes;
  source = record (r.source) { incfile = top_id includes };
}

-- The loop of `v_execmac` on the operand: `at_start` in front of an argument, where spaces are skipped,
-- and `arg` holds the bytes of the argument that is read.
unfoldable pub args_loop : Bool → List ℕ → List ℕ → List (List ℕ)
args_loop at_start arg [] = if at_start then [] else arg ∷ []
args_loop at_start arg (c ∷ str) =
    let skipped = args_loop true [] str in
    let next = arg ∷ skipped in
    let more = args_loop false (arg ++ c ∷ []) str in
    if at_start && c == b' '
    then skipped
    else if c == 10
    then (if at_start then [] else arg ∷ [])
    else if c == b','
    then next
    else more

-- the operand as a whole, and its arguments
unfoldable pub split_args : List ℕ → List (List ℕ)
split_args [] = [] ∷ []
split_args (c ∷ str) =
    (c ∷ str) ∷ (if c == b' ' then args_loop false [] (c ∷ str) else args_loop true [] (c ∷ str))

-- a new scope of local labels of both kinds
abbrev pub new_scope : Source → Source
new_scope s =
    let index = s.globals.lastlocalindex + 1 in
    let dollar = s.globals.lastlocaldollarindex + 1 in
    record s {
      globals = record (s.globals) {
        lastlocalindex = index;
        localindex = index;
        lastlocaldollarindex = dollar;
        localdollarindex = dollar;
      };
    }

-- the entry of a macro call
abbrev pub macro_entry : ℕ → List ℕ → Macro → Source → Incfile
macro_entry id str mac s = record {
  id = id;
  name = mac.name;
  lines = [];
  lineno = 0;
  is_macro = true;
  nolist = false;
  args = split_args str;
  strlist = mac.strlist;
  saveidx = s.globals.localindex;
  savedolidx = s.globals.localdollarindex;
}

unfoldable pub push_macro_call : List ℕ → Macro → Reader → Reader
push_macro_call str mac r =
    let called = with_includes (macro_entry r.next_id str mac r.source ∷ r.includes) r in
    record called {
      mlevel = r.mlevel + 1;
      next_id = r.next_id + 1;
      source = new_scope called.source;
    }

-- A call that is too deep is told and left out. It takes the stream of the file below, which has to be there.
unfoldable pub call_macro : List ℕ → Macro → Reader → Run Reader
call_macro str mac r =
    if r.mlevel == max_mac_level
    then ok r
    else elim r.includes [ [] ↦ fault | inc ∷ rest ↦ ok (push_macro_call str mac r) ]

unfoldable pub v_execmac : List ℕ → Macro → Reader → Run Reader
v_execmac str mac r = do s ← place_here r.source; call_macro str mac (record r { source = s })

-- the scopes of local labels in front of the call
abbrev pub restore_scope : Incfile → Source → Source
restore_scope inc s = record s {
  globals = record (s.globals) { localindex = inc.saveidx; localdollarindex = inc.savedolidx };
}

unfoldable pub leave_macro : Incfile → List Incfile → Reader → Reader
leave_macro inc rest r =
    let left = with_includes rest r in
    record left { mlevel = r.mlevel - 1; source = restore_scope inc left.source }

-- outside of a macro, which is told, it does nothing
unfoldable pub v_endm : Reader → Run Reader
v_endm r = elim r.includes [
  | [] ↦ fault
  | inc ∷ rest ↦ ok (if inc.is_macro then leave_macro inc rest r else r)
]

unfoldable pub v_mexit : Reader → Run Reader
v_mexit r = v_endm r

-- the macros above the file are left; a file below is there
unfoldable pub leave_macros : List Incfile → Reader → Run Reader
leave_macros [] r = fault
leave_macros (inc ∷ rest) r =
    let left = leave_macros rest (leave_macro inc rest r) in if inc.is_macro then left else ok r

-- the end of the stream
abbrev pub skip_lines : Reader → Reader
skip_lines r = elim r.includes [
  | [] ↦ r
  | inc ∷ rest ↦ record r { includes = record inc { lines = [] } ∷ rest }
]

unfoldable pub v_end : Reader → Run Reader
v_end r = do left ← leave_macros r.includes r; ok (skip_lines left)

-- the stream that `pIncfile->fi` is: that of the innermost file that is no macro
unfoldable pub stream : List Incfile → List (List ℕ)
stream [] = []
stream (inc ∷ rest) = let below = stream rest in if inc.is_macro then below else inc.lines

unfoldable pub set_stream : List (List ℕ) → List Incfile → List Incfile
set_stream lines [] = []
set_stream lines (inc ∷ rest) =
    let below = inc ∷ set_stream lines rest in
    if inc.is_macro then below else record inc { lines = lines } ∷ rest

-- `n` more lines are counted
abbrev pub count_lines : ℕ → List Incfile → List Incfile
count_lines n [] = []
count_lines n (inc ∷ rest) = record inc { lineno = inc.lineno + n } ∷ rest

-- the entry of a file
abbrev pub file_entry : ℕ → List ℕ → List (List ℕ) → Incfile
file_entry id name lines = record {
  id = id;
  name = name;
  lines = lines;
  lineno = 0;
  is_macro = false;
  nolist = false;
  args = [];
  strlist = [];
  saveidx = 0;
  savedolidx = 0;
}

-- `pushinclude` on a file that `pfopen` opens
unfoldable pub pushinclude : List ℕ → List (List ℕ) → Reader → Reader
pushinclude name lines r =
    let pushed = with_includes (file_entry r.next_id name lines ∷ r.includes) r in
    record pushed { inclevel = r.inclevel + 1; next_id = r.next_id + 1 }

-- the entries of a file that ends; the loop reads the entry below the last one
unfoldable pub drop_ifs : ℕ → List If → Run (List If)
drop_ifs id [] = fault
drop_ifs id (i ∷ rest) = let more = drop_ifs id rest in if i.file == id then more else ok (i ∷ rest)

-- the end of a file
unfoldable pub pop_include : Reader → Run Reader
pop_include r = elim r.includes [
  | [] ↦ fault
  | inc ∷ rest ↦ (do
    ifs ← drop_ifs inc.id r.source.ifstack
    let popped = with_includes rest r
    ok (record popped {
      inclevel = r.inclevel - 1;
      source = record (popped.source) { ifstack = ifs };
    }))
]

-- the command of a line, by the word that `findext` leaves
unfoldable pub is_endm : Option Command → Bool
is_endm none = false
is_endm (some (defined mac)) = false
is_endm (some (instruction mne)) = mne.is_endm

-- the lines of a macro up to ENDM, the number of lines read, and the lines behind; nothing stands for the end
-- of the program at the end of the file
abbrev pub Body : Type 0
Body = List (List ℕ) × ℕ × List (List ℕ)

abbrev pub body_line : List ℕ → Option Body → Option Body
body_line line none = none
body_line line (some (body, n, rest)) = some (line ∷ body, n + 1, rest)

-- what follows a line: the end, at ENDM, or the rest, with the line as `parse` leaves it
unfoldable pub body_step : List ℕ → List (List ℕ) → Bool → Run (Option Body) → Run (Option Body)
body_step line rest true more = ok (some ([], 1, rest))
body_step line rest false more = more >>= (λ b. ok (body_line (map unmark line) b))

-- a line of the definition: whether it is ENDM
unfoldable pub ends_macro : MnemonicHash → List ℕ → Run Bool
ends_macro table line = do
  words ← parse line
  command ← findmne table words.word
  ok (is_endm command)

-- the loop of `v_macro` on the lines of the stream; `fuel` is that of `cleanup`
unfoldable pub macro_body : ℕ → MnemonicHash → List (List ℕ) → Run (Option Body)
macro_body fuel table [] = ok none
macro_body fuel table (buf ∷ rest) =
    let more = macro_body fuel table rest in
    cleanup fuel true [] buf >>= λ c. elim c [
      | none ↦ ok none
      | some cleaned ↦ (do ends ← ends_macro table cleaned.0; body_step cleaned.0 rest ends more)
    ]

-- the stream behind the definition
abbrev pub behind_body : ℕ → List (List ℕ) → Reader → Reader
behind_body n rest r = record r { includes = count_lines n (set_stream rest r.includes) }

unfoldable pub define_macro : Bool → List ℕ → Reader → Option Body → Option Reader
define_macro known name r none = none
define_macro known name r (some (body, n, rest)) =
    let read = behind_body n rest r in
    some (
      if known then read else record read {
        table = add_command (defined (record { name = name; strlist = body })) r.table;
      })

abbrev pub is_some : Option Command → Bool
is_some none = false
is_some (some c) = true

-- a name that is known already, or lines that are skipped: the body is read over
unfoldable pub already_defined : List ℕ → Reader → Run Bool
already_defined name r =
    if is_active r.source.ifstack then (do c ← findmne r.table name; ok (is_some c)) else ok true

-- The new macro is in the table, without lines, while its lines are read.
unfoldable pub v_macro : ℕ → List ℕ → Reader → Run (Option Reader)
v_macro fuel str r =
    let name = map tolower str in
    if ltb (length str) 1024
    then (do
      known ← already_defined name r
      let table =
          if known
          then r.table
          else add_command (defined (record { name = name; strlist = [] })) r.table
      body ← macro_body fuel table (stream r.includes)
      ok (define_macro known name r body))
    else fault
