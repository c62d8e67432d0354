-- ===== src/Output/Places.antt =====
-- Where the bytes of src/src/ops.c stand in the object file.
use dasm_dillon_code_sourcef.Common.{
  ℕ, ◌+◌, ◌-◌, ◌%◌, ◌≤◌, ◌<◌, ◌≡◌, refl, ap, sym, ◌∙◌, true, false, ◌||◌, List, ◌++◌, some, length,
  take, drop, replicate, length-append, length-replicate, take-append_at, drop-append_at,
  append_assoc, ◌==◌, ltb, arith, ◌⊎◌, inl, inr,
}
use dasm_dillon_code_sourcef.Long.{long_mod}
use dasm_dillon_code_sourcef.Symbols.{Globals}
use dasm_dillon_code_sourcef.Output.{
  Output, format_default, format_raw, generate, write_file, write_raw, advance_origin, sum_gen,
}

-- The file is open in one of the formats without blocks, and an address stands as far behind the first
-- `header` bytes as it is above `start`.
pub record IsRawAt (start header : ℕ) (o : Output) : Type 0 where
  pub format : (o.format ≡ format_raw) ⊎ (o.format ≡ format_default)
  pub shut : o.fisclear ≡ false
  pub header_there : header ≤ length o.file
  pub place : length o.file + start ≡ header + o.org

-- the file behind a run of `generate`
abbrev pub filled : Output → ℕ → List ℕ
filled o org = o.file ++ replicate (org - o.org) o.org_fill ++ o.gen

format_tests :
    (n : ℕ)
    → ((n ≡ format_raw) ⊎ (n ≡ format_default))
    → ((n == 2) ≡ false) × ((n == 3 || n == 1) ≡ true)
format_tests n (inl e) = (ground arith, ground arith)
format_tests n (inr e) = (ground arith, ground arith)

write_file_raw :
    (o : Output) (org : ℕ)
    → ((o.format ≡ format_raw) ⊎ (o.format ≡ format_default))
    → o.org ≤ org
    → org + length o.gen < long_mod
    → write_file org o ≡ some (record o { file = filled o org; org = org + length o.gen })
unfolding write_file write_raw
write_file_raw o org f h k =
    let t : ((o.format == 2) ≡ false) × ((o.format == 3 || o.format == 1) ≡ true) =
      format_tests o.format f in
    let forward : ltb org o.org ≡ false = ground arith in
    let room : (org + length o.gen) % long_mod ≡ org + length o.gen = omega arith in
    rw (t.0, t.1, forward, room) refl

generate_raw :
    (o : Output) (g : Globals)
    → ((o.format ≡ format_raw) ⊎ (o.format ≡ format_default))
    → o.fisclear ≡ false
    → g.redo ≡ 0
    → g.segment.flags.bss ≡ false
    → o.org ≤ g.segment.org
    → g.segment.org + length o.gen < long_mod
    → generate o g
      ≡ some (
        record o { file = filled o g.segment.org; org = g.segment.org + length o.gen },
        advance_origin (length o.gen) (record g { checksum = sum_gen o.gen g.checksum }),
      )
unfolding generate
generate_raw o g f c r b h k =
    let started : (g.redo == 0) ≡ true = ground arith in
    simp (started, b, c, write_file_raw o g.segment.org f h k)

-- In the formats without blocks, while nothing asks for another pass and the segment is not uninitialised,
-- `generate` at an origin that does not go back, and with no overflow of it, puts the bytes of Gen where
-- their addresses belong: they are what stands in the file from the place of the origin on. What was
-- written before stays, the gap between is filled, the segment's origin grows by Glen and is again the
-- address of the file's end.
pub generate-IsRawAt :
    (start header : ℕ) (o : Output) (g : Globals)
    → IsRawAt start header o
    → g.redo ≡ 0
    → g.segment.flags.bss ≡ false
    → o.org ≤ g.segment.org
    → g.segment.org + length o.gen < long_mod
    → (o' : Output) × (g' : Globals) × (generate o g ≡ some (o', g'))
      × IsRawAt start header o'
      × (o'.org ≡ g'.segment.org)
      × (g'.segment.org ≡ g.segment.org + length o.gen)
      × (take (length o.file) o'.file ≡ o.file)
      × (drop (header + g.segment.org - start) o'.file ≡ o.gen)
unfolding advance_origin
generate-IsRawAt start header o g p r b h k =
    let file = filled o g.segment.org in
    let gap = replicate (g.segment.org - o.org) o.org_fill in
    let gap_length = length-replicate (g.segment.org - o.org) o.org_fill in
    let room : (g.segment.org + length o.gen) % long_mod ≡ g.segment.org + length o.gen =
      omega arith in
    let before : length (o.file ++ gap) ≡ header + g.segment.org - start =
      omega (arith, length-append o.file gap, gap_length, p.place, p.header_there) in
    let whole : length file ≡ length o.file + (g.segment.org - o.org) + length o.gen =
      omega (arith, length-append (o.file ++ gap) o.gen, length-append o.file gap, gap_length) in
    (
      record o { file = file; org = g.segment.org + length o.gen },
      advance_origin (length o.gen) (record g { checksum = sum_gen o.gen g.checksum }),
      generate_raw o g p.format p.shut r b h k,
      record {
        format = p.format;
        shut = p.shut;
        header_there = omega (arith, whole, p.header_there);
        place = omega (arith, whole, p.place);
      },
      sym room,
      room,
      ap (take (length o.file)) (append_assoc o.file gap o.gen)
          ∙ take-append_at (length o.file) o.file (gap ++ o.gen) refl,
      drop-append_at (header + g.segment.org - start) (o.file ++ gap) o.gen before,
    )
