-- ===== src/Assignments/Symbols.antt =====
-- What SET, EQU and EQM of src/src/ops.c store in the table of symbols.
use dasm_dillon_code_sourcef.Common.{
  ℕ, ◌≡◌, refl, sym, ◌∙◌, subst, false, List, Option, none, some, length, inl, inr, ok, ◌==◌,
}
use dasm_dillon_code_sourcef.Asm.{Symbol, no_flags}
use dasm_dillon_code_sourcef.Util.{same_bytes}
use dasm_dillon_code_sourcef.Util.Strings.{same_bytes_refl}
use dasm_dillon_code_sourcef.Symbols.{
  Globals, Handle, entry, find_entry, find_special, local_name, cut_name, create_symbol,
  insert_symbol, modify_symbol, new_symbol,
}
use dasm_dillon_code_sourcef.Symbols.Lookup.{
  IsTable, KeepsName, find_entry-insert_symbol, insert_symbol-IsTable, modify_symbol-IsTable,
}
use dasm_dillon_code_sourcef.Symbols.Labels.{
  find_entry-cases, find_symbol_plain, modify_symbol_found, modify_symbol_other,
}
use dasm_dillon_code_sourcef.Conditional.{Source, eval_first}
use dasm_dillon_code_sourcef.Assignments.{
  found_or_new, find_or_create, define_symbol, assign, v_set,
}

-- The symbol of a key is what `f` makes of a symbol, all other keys have what they had, and the table is in order.
pub record IsDefined (f : Symbol → Symbol) (key : List ℕ) (g h : Globals) : Type 0 where
  pub table : IsTable h
  pub found : (s : Symbol) × (find_entry h key ≡ some (entry key, f s))
  pub others : (str : List ℕ) → same_bytes key str ≡ false → find_entry h str ≡ find_entry g str

define_known :
    (f : Symbol → Symbol) (g : Globals) (key : List ℕ) (s : Symbol)
    → KeepsName f
    → IsTable g
    → find_entry g key ≡ some (entry key, s)
    → IsDefined f key g (modify_symbol (entry key) f g)
define_known f g key s keep t e = record {
  table = modify_symbol-IsTable g key f keep t;
  found = (s, modify_symbol_found g key s f t keep e);
  others = λ str d. modify_symbol_other g key str f t keep d;
}

define_new :
    (f : Symbol → Symbol) (g : Globals) (key : List ℕ)
    → KeepsName f
    → IsTable g
    → find_entry g key ≡ none
    → IsDefined f key g (modify_symbol (entry key) f (insert_symbol g key))
define_new f g key keep t e =
    let ti = insert_symbol-IsTable g key e t in
    let there = find_entry-insert_symbol g key key t ∙ rw (same_bytes_refl key) refl in
    record {
      table = modify_symbol-IsTable (insert_symbol g key) key f keep ti;
      found = (
        new_symbol key,
        modify_symbol_found (insert_symbol g key) key (new_symbol key) f ti keep there,
      );
      others = λ str d.
          modify_symbol_other (insert_symbol g key) key str f ti keep d
          ∙ find_entry-insert_symbol g key str t
          ∙ rw d refl;
    }

-- SET, EQU and EQM on a label that is none of the three special names change exactly the symbol of the label's key,
-- which they create where it is missing, and keep the table in order.
pub define_symbol-IsDefined :
    (f : Symbol → Symbol) (label : List ℕ) (g : Globals)
    → KeepsName f
    → IsTable g
    → find_special g (cut_name label (length label)) ≡ none
    → IsDefined f (local_name g (cut_name label (length label))) g (define_symbol f label g)
unfolding define_symbol find_or_create create_symbol
define_symbol-IsDefined f label g keep t special =
    let key = local_name g (cut_name label (length label)) in
    let plain = find_symbol_plain g label (length label) special in
    let stored : Option (Handle × Symbol) → Globals =
      λ r. modify_symbol (found_or_new label g r).0 f (found_or_new label g r).1 in
    elim (find_entry-cases g key) [
      | inl n ↦
          subst (λ r. IsDefined f key g (stored r)) (sym (plain ∙ n)) (define_new f g key keep t n)
      | inr (s, n) ↦
          subst (λ r. IsDefined f key g (stored r)) (sym (plain ∙ n))
            (define_known f g key s keep t n)
    ]

-- The key's symbol has the value of an operand: it is unknown exactly where the operand is, it is a string where
-- the operand is one, with the same text, and it has no other flag. All other keys have what they had.
pub record IsValued (node : Symbol) (key : List ℕ) (g h : Globals) : Type 0 where
  pub symbol : Symbol
  pub found : find_entry h key ≡ some (entry key, symbol)
  pub value : symbol.value ≡ node.value
  pub flags :
      symbol.flags ≡ record no_flags { unknown = node.flags.unknown; string = node.flags.string }
  pub string : symbol.string ≡ node.string
  pub table : IsTable h
  pub others : (str : List ℕ) → same_bytes key str ≡ false → find_entry h str ≡ find_entry g str

assigned-IsValued :
    (node : Symbol) (key : List ℕ) (g h : Globals)
    → IsDefined (assign node) key g h
    → IsValued node key g h
assigned-IsValued node key g h d = record {
  symbol = assign node d.found.0;
  found = d.found.1;
  value = refl;
  flags = refl;
  string = refl;
  table = d.table;
  others = d.others;
}

-- SET on a label that is none of the special names gives the label's symbol the value of its operand, with the
-- operand's unknown and string bits and its text and no other flag, creates the symbol where it is missing, and
-- changes no other symbol.
pub v_set-IsValued :
    (depth : ℕ) (str : List ℕ) (s s1 : Source) (node : Symbol)
    → eval_first depth str s ≡ ok (node, s1)
    → IsTable s1.globals
    → (length s1.label == 0) ≡ false
    → find_special s1.globals (cut_name s1.label (length s1.label)) ≡ none
    → (g : Globals) × (v_set depth str s ≡ ok (record s1 { globals = g }))
      × IsValued node (local_name s1.globals (cut_name s1.label (length s1.label))) s1.globals g
unfolding v_set
v_set-IsValued depth str s s1 node read t named special = (
  define_symbol (assign node) s1.label s1.globals,
  rw (read, named) refl,
  assigned-IsValued node (local_name s1.globals (cut_name s1.label (length s1.label))) s1.globals
      (define_symbol (assign node) s1.label s1.globals)
      (define_symbol-IsDefined (assign node) s1.label s1.globals (λ lab. refl) t special),
)
