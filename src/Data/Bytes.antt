-- ===== src/Data/Bytes.antt =====
-- The bytes that DC of src/src/ops.c lays down.
use dasm_dillon_code_sourcef.Common.{
  ℕ, zero, suc, ◌+◌, ◌*◌, ◌%◌, ◌^◌, ◌≤◌, ◌≡◌, refl, ap, ◌∙◌, Bool, true, false, List, [], ◌∷◌, ◌++◌,
  map, Option, none, length, get_or, take, drop, length-append, take-append_at, drop-append_at,
  if◌then◌else◌, leb, arith, ok, fault, Partial, Partial-any, Partial-bind, ◌⊎◌, inl, inr,
}
use dasm_dillon_code_sourcef.Asm.{Symbol, AddressMode}
use dasm_dillon_code_sourcef.Output.{entry_bytes}
use dasm_dillon_code_sourcef.Conditional.{Source, place_here}
use dasm_dillon_code_sourcef.Origin.{Work}
use dasm_dillon_code_sourcef.Mnemonics.{Mnemonic}
use dasm_dillon_code_sourcef.Lines.{findext, split_extension, with_extension, extension_mode}
use dasm_dillon_code_sourcef.Data.{
  mode_of_letter, dc_mode, v_dc, dc_nodes, dc_node, dc_value, entry_value, put_entry,
  redo_if_unknown, reason_dc_not_resolved,
}

-- the sizes of the entries of DC
abbrev pub IsSize : ℕ → Type 0
IsSize size = (size ≡ 1) ⊎ (size ≡ 2) ⊎ (size ≡ 4)

-- the number that the bytes of an entry are, in the order of the processor
abbrev pub read_entry : Bool → List ℕ → ℕ
read_entry msb_order [] = 0
read_entry msb_order (b ∷ []) = b
read_entry msb_order (b ∷ c ∷ []) = if msb_order then b * 256 + c else c * 256 + b
read_entry msb_order (b ∷ c ∷ d ∷ e) =
    let e0 = get_or e 0 0 in
    if msb_order then ((b * 256 + c) * 256 + d) * 256 + e0 else ((e0 * 256 + d) * 256 + c) * 256 + b

-- `n` entries
abbrev pub read_entries : Bool → ℕ → ℕ → List ℕ → List ℕ
read_entries msb_order size zero bytes = []
read_entries msb_order size (suc n) bytes =
    read_entry msb_order (take size bytes) ∷ read_entries msb_order size n (drop size bytes)

read_entry-entry_bytes :
    (msb_order : Bool) (size value : ℕ)
    → IsSize size
    → (length (entry_bytes msb_order value size) ≡ size)
      × (read_entry msb_order (entry_bytes msb_order value size) ≡ value % 2 ^ (8 * size))
unfolding entry_bytes
read_entry-entry_bytes true size value (inl e) = rw e (refl, refl)
read_entry-entry_bytes false size value (inl e) = rw e (refl, refl)
read_entry-entry_bytes true size value (inr (inl e)) = rw e (refl, omega arith)
read_entry-entry_bytes false size value (inr (inl e)) = rw e (refl, omega arith)
read_entry-entry_bytes true size value (inr (inr e)) = rw e (refl, omega arith)
read_entry-entry_bytes false size value (inr (inr e)) = rw e (refl, omega arith)

mul-suc : (n size : ℕ) → suc n * size ≡ size + n * size
mul-suc n size = grind arith

-- no node is a string
abbrev pub NoStrings : List Symbol → Type 0
NoStrings [] = Unit
NoStrings (node ∷ nodes) = (node.flags.string ≡ false) × NoStrings nodes

abbrev pub reduced : ℕ → Symbol → ℕ
reduced size node = node.value % 2 ^ (8 * size)

-- The operands of DC without strings are laid down as one entry each, which, read in the processor's order of
-- bytes, are the values modulo the size of an entry, as long as the entries fit the buffer.
pub dc_nodes-read_entries :
    (depth : ℕ) (msb_order : Bool) (size glen : ℕ) (nodes : List Symbol) (s : Source)
    → IsSize size
    → NoStrings nodes
    → glen + length nodes * size ≤ 256
    → (bytes : List ℕ) × (s' : Source) × (dc_nodes depth msb_order size none glen nodes s
        ≡ ok (bytes, s'))
      × (length bytes ≡ length nodes * size)
      × (read_entries msb_order size (length nodes) bytes ≡ map (reduced size) nodes)
unfolding dc_nodes dc_node dc_value entry_value put_entry
dc_nodes-read_entries depth msb_order size glen [] s w plain room = ([], s, refl, omega arith, refl)
dc_nodes-read_entries depth msb_order size glen (node ∷ nodes) s w plain room =
    let entry : List ℕ = entry_bytes msb_order node.value size in
    let (len, value) = read_entry-entry_bytes msb_order size node.value w in
    let s1 = redo_if_unknown reason_dc_not_resolved node.flags.unknown s in
    let more : length (node ∷ nodes) * size ≡ size + length nodes * size =
      mul-suc (length nodes) size in
    let fits : leb (glen + size) 256 ≡ true = ground (arith, room, more) in
    let (rest, s', run, rest_len, values) =
      dc_nodes-read_entries depth msb_order size (glen + length entry) nodes s1 w plain.1
        (omega (arith, room, more, len)) in
    (
      entry ++ rest,
      s',
      rw (plain.0, fits, run) refl,
      length-append entry rest ∙ omega (arith, len, rest_len, more),
      ap (λ v. v ∷ read_entries msb_order size (length nodes) (drop size (entry ++ rest)))
            (ap (read_entry msb_order) (take-append_at size entry rest len) ∙ value)
          ∙ ap (λ t. reduced size node ∷ read_entries msb_order size (length nodes) t)
              (drop-append_at size entry rest len)
          ∙ ap (λ vs. reduced size node ∷ vs) values,
    )

dv_mode :
    (mne : Mnemonic) (mnext : Option AddressMode) (rest : List ℕ)
    → mne.name ≡ b'd' ∷ b'v' ∷ rest
    → dc_mode mne mnext ≡ fault
unfolding dc_mode mode_of_letter findext split_extension with_extension extension_mode
dv_mode mne mnext rest e = rw e refl

-- DV, which a comment and the table of directives offer, comes to no end on any operand: `findext` is called on the
-- extension "v", for which it has only an assertion that fails.
pub v_dc-dv :
    (depth : ℕ) (msb_order : Bool) (mnext : Option AddressMode) (str rest : List ℕ) (mne : Mnemonic)
    (w : Work)
    → mne.name ≡ b'd' ∷ b'v' ∷ rest
    → Partial (λ r. ⊥) (v_dc depth msb_order mnext str mne w)
unfolding v_dc
v_dc-dv depth msb_order mnext str rest mne (s, o) e =
    Partial-any (λ r. ⊥) (place_here s) _
      (λ s1.
        Partial-bind (λ m. ⊥) (λ r. ⊥) (dc_mode mne mnext) _ (rw (dv_mode mne mnext rest e) tt)
          (λ m h. absurd h))
