-- ===== src/Conditional/Nesting.antt =====
-- How the IF directives of src/src/ops.c nest.
use dasm_dillon_code_sourcef.Common.{
  ℕ, ◌≡◌, refl, ap, sym, ◌∙◌, Bool, true, false, not, ◌&&◌, ◌||◌, List, ◌∷◌, ==_refl, arith, Run,
  ok, ◌>>=◌,
}
use dasm_dillon_code_sourcef.Conditional.{
  If, Source, is_active, pushif, v_if, v_else, v_endif, pop_if,
}

-- IF directives that are closed: `branch` is IF .. ENDIF, `choice` is IF .. ELSE .. ENDIF
pub data Block : Type 0 where
  nothing : Block
  branch : List ℕ → Block → Block → Block
  choice : List ℕ → Block → Block → Block → Block

-- the directives of a block, one after another
pub run_block : ℕ → Block → Source → Run Source
run_block depth nothing s = ok s
run_block depth (branch str inner next) s = do
  s1 ← v_if depth str s
  s2 ← run_block depth inner s1
  s3 ← v_endif s2
  run_block depth next s3.0
run_block depth (choice str inner other next) s = do
  s1 ← v_if depth str s
  s2 ← run_block depth inner s1
  s3 ← v_else s2
  s4 ← run_block depth other s3
  s5 ← v_endif s4
  run_block depth next s5.0

-- the state with an entry on top
abbrev on_top : If → List If → Source → Source
on_top i rest s = record s { ifstack = i ∷ rest }

-- the entry of an IF that is skipped
abbrev skipped : Source → If
skipped s = record { file = s.incfile; base = false; xtrue = false; acctrue = false }

skip_test : (a b : Bool) → (b && a) ≡ false → ((not b || not a) ≡ true) × ((a && b) ≡ false)
skip_test a b h = ground arith

v_if_skips :
    (depth : ℕ) (str : List ℕ) (s : Source) (i : If) (rest : List If)
    → (i.xtrue && i.acctrue) ≡ false
    → v_if depth str (on_top i rest s) ≡ ok (on_top (skipped s) (i ∷ rest) s)
unfolding v_if pushif
v_if_skips depth str s i rest h = let t = skip_test i.acctrue i.xtrue h in rw (t.0, t.1) refl

v_else_skips :
    (rest : List If) (s : Source)
    → v_else (on_top (skipped s) rest s) ≡ ok (on_top (skipped s) rest s)
unfolding v_else
v_else_skips rest s = refl

v_endif_skips :
    (rest : List If) (s : Source)
    → v_endif (on_top (skipped s) rest s) ≡ ok (record s { ifstack = rest }, false)
unfolding v_endif pop_if
v_endif_skips rest s = rw (==_refl s.incfile) refl

run_block_skips :
    (depth : ℕ) (b : Block) (s : Source) (i : If) (rest : List If)
    → (i.xtrue && i.acctrue) ≡ false
    → run_block depth b (on_top i rest s) ≡ ok (on_top i rest s)
unfolding run_block
run_block_skips depth nothing s i rest h = refl
run_block_skips depth (branch str inner next) s i rest h =
    rw
      (
        v_if_skips depth str s i rest h,
        run_block_skips depth inner s (skipped s) (i ∷ rest) refl,
        v_endif_skips (i ∷ rest) s,
      )
      (run_block_skips depth next s i rest h)
run_block_skips depth (choice str inner other next) s i rest h =
    rw
      (
        v_if_skips depth str s i rest h,
        run_block_skips depth inner s (skipped s) (i ∷ rest) refl,
        v_else_skips (i ∷ rest) s,
        run_block_skips depth other s (skipped s) (i ∷ rest) refl,
        v_endif_skips (i ∷ rest) s,
      )
      (run_block_skips depth next s i rest h)

-- Where lines are not assembled, closed IF, ELSE and ENDIF directives change nothing at all, however they
-- nest: no expression is evaluated, no label is placed, and the stack is as before.
pub run_block_inactive :
    (depth : ℕ) (b : Block) (s : Source) (i : If) (rest : List If)
    → s.ifstack ≡ i ∷ rest
    → is_active s.ifstack ≡ false
    → run_block depth b s ≡ ok s
unfolding is_active
run_block_inactive depth b s i rest e h =
    let same : record s { ifstack = i ∷ rest } ≡ s = ap (λ l. record s { ifstack = l }) (sym e) in
    ap (run_block depth b) (sym same)
    ∙ run_block_skips depth b s i rest (sym (ap is_active e) ∙ h)
    ∙ ap (λ t. ok t) same
