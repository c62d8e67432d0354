-- ===== src/Includes/Levels.antt =====
-- The invariant of the stack of files and macros of src/src/main.c and src/src/ops.c.
use dasm_dillon_code_sourcef.Common.{
  ℕ, suc, ◌≤◌, ◌≡◌, ◌≢◌, refl, ap, sym, ◌∙◌, Bool, true, false, List, [], ◌∷◌, if◌then◌else◌, ◌==◌,
  arith, ok, Partial, Partial-any, Partial-bind, Partial-ok, Total-Partial, subst, Total,
  Total-bind, Partial-if, Total-if,
}
use mathlib.Core.Bool.{false≢true}
use dasm_dillon_code_sourcef.Symbols.{programlabel}
use dasm_dillon_code_sourcef.Conditional.{Source, place_here}
use dasm_dillon_code_sourcef.Mnemonics.{Macro}
use dasm_dillon_code_sourcef.Includes.{
  Incfile, Reader, top_id, v_execmac, v_endm, v_end, call_macro, push_macro_call, leave_macro,
  leave_macros, skip_lines, file_entry, pushinclude, pop_include, drop_ifs,
}

-- the macros of a stack
abbrev pub macros : List Incfile → ℕ
macros [] = 0
macros (inc ∷ rest) = if inc.is_macro then suc (macros rest) else macros rest

-- the lowest entry is a file
abbrev pub HasFile : List Incfile → Type 0
HasFile [] = Unit
HasFile (inc ∷ []) = inc.is_macro ≡ false
HasFile (inc ∷ next ∷ rest) = HasFile (next ∷ rest)

-- Mlevel counts the macros and is at most MAXMACLEVEL, the innermost file is the one that IF directives
-- note, and there is a file below every macro.
pub record IsReader (r : Reader) : Type 0 where
  pub level : r.mlevel ≡ macros r.includes
  pub bound : r.mlevel ≤ 32
  pub top : r.source.incfile ≡ top_id r.includes
  pub below : HasFile r.includes

HasFile-tail : (inc : Incfile) (rest : List Incfile) → HasFile (inc ∷ rest) → HasFile rest
HasFile-tail inc [] h = tt
HasFile-tail inc (next ∷ rest) h = h

push_macro_call-IsReader :
    (str : List ℕ) (mac : Macro) (r : Reader) (inc : Incfile) (rest : List Incfile)
    → (r.mlevel == 32) ≡ false
    → IsReader (record r { includes = inc ∷ rest })
    → IsReader (push_macro_call str mac (record r { includes = inc ∷ rest }))
unfolding push_macro_call
push_macro_call-IsReader str mac r inc rest shallow h = record {
  level = omega (arith, h.level);
  bound = ground (arith, h.bound, shallow);
  top = refl;
  below = h.below;
}

call_macro-IsReader :
    (str : List ℕ) (mac : Macro) (r : Reader) (l : List Incfile)
    → IsReader (record r { includes = l })
    → Partial IsReader (call_macro str mac (record r { includes = l }))
unfolding call_macro
call_macro-IsReader str mac r [] h = Partial-if IsReader (r.mlevel == 32) _ _ (λ e. h) (λ e. tt)
call_macro-IsReader str mac r (inc ∷ rest) h =
    Partial-if IsReader (r.mlevel == 32) _ _ (λ e. h)
      (λ e. push_macro_call-IsReader str mac r inc rest e h)

-- what does not change the files
with_source-IsReader :
    (r : Reader) (s : Source)
    → s.incfile ≡ r.source.incfile
    → IsReader r
    → IsReader (record r { source = s })
with_source-IsReader r s e h = record {
  level = h.level;
  bound = h.bound;
  top = e ∙ h.top;
  below = h.below;
}

v_execmac-IsReader :
    (str : List ℕ) (mac : Macro) (r : Reader) → IsReader r → Partial IsReader (v_execmac str mac r)
unfolding v_execmac
v_execmac-IsReader str mac r h =
    Partial-bind (λ s. s.incfile ≡ r.source.incfile) IsReader (place_here r.source) _
      (Partial-any (λ s. s.incfile ≡ r.source.incfile)
        (programlabel r.source.label r.source.globals) _ (λ a. refl))
      (λ s e.
        call_macro-IsReader str mac (record r { source = s }) r.includes
          (with_source-IsReader r s e h))

leave_macro-IsReader :
    (inc : Incfile) (rest : List Incfile) (r : Reader)
    → inc.is_macro ≡ true
    → IsReader (record r { includes = inc ∷ rest })
    → IsReader (leave_macro inc rest r)
unfolding leave_macro
leave_macro-IsReader inc rest r e h = record {
  level = omega (arith, h.level, ap (λ b. if b then suc (macros rest) else macros rest) e);
  bound = omega (arith, h.bound);
  top = refl;
  below = HasFile-tail inc rest h.below;
}

v_endm-IsReader :
    (r : Reader) (l : List Incfile)
    → IsReader (record r { includes = l })
    → Partial IsReader (v_endm (record r { includes = l }))
unfolding v_endm leave_macro
v_endm-IsReader r [] h = tt
v_endm-IsReader r (inc ∷ rest) h = if_macro inc.is_macro refl
  where
    if_macro :
        (b : Bool)
        → inc.is_macro ≡ b
        → IsReader (
            if b
            then leave_macro inc rest (record r { includes = inc ∷ rest })
            else record r { includes = inc ∷ rest })
    if_macro true e = leave_macro-IsReader inc rest r e h
    if_macro false e = h

macro_not_last :
    (inc : Incfile) (rest : List Incfile) → inc.is_macro ≡ true → HasFile (inc ∷ rest) → rest ≢ []
macro_not_last inc [] e h = λ _. false≢true (sym h ∙ e)
macro_not_last inc (next ∷ rest) e h = λ none. cc

-- a file, not a macro, is innermost
abbrev pub InFile : Reader → Type 0
InFile r =
    (inc : Incfile) × (rest : List Incfile) × (r.includes ≡ inc ∷ rest) × (inc.is_macro ≡ false)

leave_macros-IsReader :
    (l : List Incfile) (r : Reader)
    → l ≢ []
    → IsReader (record r { includes = l })
    → Total (λ r'. IsReader r' × InFile r') (leave_macros l (record r { includes = l }))
unfolding leave_macros leave_macro
leave_macros-IsReader [] r n h = absurd (n refl)
leave_macros-IsReader (inc ∷ rest) r n h =
    Total-if (λ r'. IsReader r' × InFile r') inc.is_macro _ _
      (λ e.
        leave_macros-IsReader rest (leave_macro inc rest (record r { includes = inc ∷ rest }))
          (macro_not_last inc rest e h.below) (leave_macro-IsReader inc rest r e h))
      (λ e. (h, (inc, rest, refl, e)))

-- the end of the innermost file
abbrev pub AtEnd : Reader → Type 0
AtEnd r =
    (inc : Incfile) × (rest : List Incfile) × (r.includes ≡ inc ∷ rest)
    × (inc.is_macro ≡ false)
    × (inc.lines ≡ [])

skip_lines-AtEnd :
    (r : Reader) (inc : Incfile) (rest : List Incfile)
    → inc.is_macro ≡ false
    → IsReader (record r { includes = inc ∷ rest })
    → IsReader (skip_lines (record r { includes = inc ∷ rest }))
      × AtEnd (skip_lines (record r { includes = inc ∷ rest }))
skip_lines-AtEnd r inc rest e h = (
  record { level = h.level; bound = h.bound; top = h.top; below = keep_file rest h.below },
  (record inc { lines = [] }, rest, refl, e, refl),
)
  where
    keep_file : (l : List Incfile) → HasFile (inc ∷ l) → HasFile (record inc { lines = [] } ∷ l)
    keep_file [] k = k
    keep_file (next ∷ l) k = k

-- However deep macros are nested in it, END comes back to the file they are called from, which is then at
-- its end, with the stack of files in order.
pub v_end-AtEnd :
    (r : Reader) → IsReader r → r.includes ≢ [] → Total (λ r'. IsReader r' × AtEnd r') (v_end r)
unfolding v_end
v_end-AtEnd r h n =
    Total-bind (λ r'. IsReader r' × InFile r') (λ r'. IsReader r' × AtEnd r')
      (leave_macros r.includes r) _ (leave_macros-IsReader r.includes r n h)
      (λ r' (k, (inc, rest, e, file)).
        let shape : r' ≡ record r' { includes = inc ∷ rest } =
          ap (λ l. record r' { includes = l }) e in
        subst (λ q. IsReader (skip_lines q) × AtEnd (skip_lines q)) (sym shape)
          (skip_lines-AtEnd r' inc rest file (subst IsReader shape k)))

HasFile-push :
    (inc : Incfile) (l : List Incfile) → inc.is_macro ≡ false → HasFile l → HasFile (inc ∷ l)
HasFile-push inc [] e h = e
HasFile-push inc (next ∷ l) e h = h

pushinclude-IsReader :
    (name : List ℕ) (lines : List (List ℕ)) (r : Reader)
    → IsReader r
    → IsReader (pushinclude name lines r)
unfolding pushinclude
pushinclude-IsReader name lines r h = record {
  level = h.level;
  bound = h.bound;
  top = refl;
  below = HasFile-push (file_entry r.next_id name lines) r.includes refl h.below;
}

pop_include-IsReader :
    (r : Reader) (inc : Incfile) (rest : List Incfile)
    → inc.is_macro ≡ false
    → IsReader (record r { includes = inc ∷ rest })
    → Partial IsReader (pop_include (record r { includes = inc ∷ rest }))
unfolding pop_include
pop_include-IsReader r inc rest e h =
    Partial-any IsReader (drop_ifs inc.id r.source.ifstack) _ (λ ifs. record {
      level = h.level ∙ ap (λ b. if b then suc (macros rest) else macros rest) e;
      bound = h.bound;
      top = refl;
      below = HasFile-tail inc rest h.below;
    })

-- The moves of the reader: a file is opened, a macro is called, left or ended, and a file, not a macro, ends.
pub data Moves (r : Reader) (r' : Reader) : Type 0 where
  opened : (name : List ℕ) (lines : List (List ℕ)) → r' ≡ pushinclude name lines r → Moves r r'
  called : (str : List ℕ) (mac : Macro) → v_execmac str mac r ≡ ok r' → Moves r r'
  left : v_endm r ≡ ok r' → Moves r r'
  ended : r.includes ≢ [] → v_end r ≡ ok r' → Moves r r'
  closed : InFile r → pop_include r ≡ ok r' → Moves r r'

pub data Reach (r : Reader) : Reader → Type 0 where
  here : Reach r r
  next : {r1 r2 : Reader} → Reach r r1 → Moves r1 r2 → Reach r r2

Moves-IsReader : (r r' : Reader) → Moves r r' → IsReader r → IsReader r'
Moves-IsReader r r' (opened name lines e) h =
    subst IsReader (sym e) (pushinclude-IsReader name lines r h)
Moves-IsReader r r' (called str mac e) h =
    Partial-ok IsReader _ r' e (v_execmac-IsReader str mac r h)
Moves-IsReader r r' (left e) h = Partial-ok IsReader _ r' e (v_endm-IsReader r r.includes h)
Moves-IsReader r r' (ended n e) h =
    (Partial-ok (λ r'. IsReader r' × AtEnd r') (v_end r) r' e
      (Total-Partial (λ r'. IsReader r' × AtEnd r') (v_end r) (v_end-AtEnd r h n))).0
Moves-IsReader r r' (closed (inc, rest, e, file) p) h =
    let shape : r ≡ record r { includes = inc ∷ rest } = ap (λ l. record r { includes = l }) e in
    Partial-ok IsReader (pop_include r) r' p (
      subst (λ q. Partial IsReader (pop_include q)) (sym shape)
        (pop_include-IsReader r inc rest file (subst IsReader shape h)))

-- From a stack in order, no sequence of these moves leads to one that is not: the level counts the macros on the
-- stack and never passes MAXMACLEVEL, IF directives note the innermost file, and a file is below every macro.
pub Reach-IsReader : {r r' : Reader} → IsReader r → Reach r r' → IsReader r'
Reach-IsReader h here = h
Reach-IsReader h (next reach move) = Moves-IsReader _ _ move (Reach-IsReader h reach)
