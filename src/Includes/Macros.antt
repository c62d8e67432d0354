-- ===== src/Includes/Macros.antt =====
-- Calling a macro and leaving it, in src/src/ops.c.
use dasm_dillon_code_sourcef.Common.{
  ℕ, ◌+◌, ◌≡◌, ◌≢◌, refl, true, List, [], ◌∷◌, arith, ok, ne→==, ap, sym, fault,
}
use dasm_dillon_code_sourcef.Conditional.{Source, place_here}
use dasm_dillon_code_sourcef.Symbols.{Globals}
use dasm_dillon_code_sourcef.Mnemonics.{Macro}
use dasm_dillon_code_sourcef.Includes.{
  Incfile, Reader, v_execmac, v_endm, call_macro, push_macro_call, leave_macro, top_id, macro_entry,
  split_args,
}

nonempty_elim {ℓ} :
    {A : Type ℓ} (l : List Incfile) (x y : A) → l ≢ [] → (elim l [ [] ↦ x | inc ∷ rest ↦ y ]) ≡ y
nonempty_elim [] x y h = absurd (h refl)
nonempty_elim (inc ∷ rest) x y h = refl

-- What is read next is the macro's lines from the first one on, with the arguments that the operand gives.
abbrev pub Reads : List ℕ → Macro → List Incfile → List Incfile → Type 0
Reads str mac below includes =
    (inc : Incfile) × (includes ≡ inc ∷ below)
    × (inc.is_macro ≡ true)
    × (inc.name ≡ mac.name)
    × (inc.strlist ≡ mac.strlist)
    × (inc.args ≡ split_args str)
    × (inc.lineno ≡ 0)

-- A macro call at less than the full depth puts a macro on top of the stack that has the lines of the definition and
-- the arguments that its operand is split into, counts one level more, and opens scopes of local labels behind the
-- last ones used. ENDM in it leaves the files, the level and the two scopes in force as they were behind the call's
-- own label, and keeps count of the scopes used.
pub v_endm-v_execmac :
    (str : List ℕ) (mac : Macro) (r : Reader) (s : Source)
    → place_here r.source ≡ ok s
    → r.includes ≢ []
    → s.incfile ≡ top_id r.includes
    → r.mlevel ≢ 32
    → (called : Reader) × (back : Reader) × (v_execmac str mac r ≡ ok called)
      × (v_endm called ≡ ok back)
      × Reads str mac r.includes called.includes
      × (called.mlevel ≡ r.mlevel + 1)
      × (called.source.globals.localindex ≡ s.globals.lastlocalindex + 1)
      × (called.source.globals.localdollarindex ≡ s.globals.lastlocaldollarindex + 1)
      × (back.includes ≡ r.includes)
      × (back.mlevel ≡ r.mlevel)
      × (back.source ≡ record s {
        globals = record (s.globals) {
          lastlocalindex = s.globals.lastlocalindex + 1;
          lastlocaldollarindex = s.globals.lastlocaldollarindex + 1;
        };
      })
unfolding v_execmac v_endm call_macro push_macro_call leave_macro
v_endm-v_execmac str mac r s placed there here shallow =
    let called : Reader = push_macro_call str mac (record r { source = s }) in
    let back : Reader = leave_macro (macro_entry r.next_id str mac s) r.includes called in
    let scopes : Globals = record (s.globals) {
      lastlocalindex = s.globals.lastlocalindex + 1;
      lastlocaldollarindex = s.globals.lastlocaldollarindex + 1;
    } in
    (
      called,
      back,
      rw (placed, ne→== r.mlevel 32 shallow) (nonempty_elim r.includes fault (ok called) there),
      refl,
      (macro_entry r.next_id str mac s, refl, refl, refl, refl, refl, refl),
      refl,
      refl,
      refl,
      refl,
      omega arith,
      ap (λ i. record s { incfile = i; globals = scopes }) (sym here),
    )
