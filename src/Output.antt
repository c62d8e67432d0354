-- ===== src/Output.antt =====
-- The object file of src/src/ops.c: `generate`, `closegenerate` and `genfill`. The file is the list of
-- its bytes, and every write but those of a block's length goes to its end. `gen` holds Gen[0 .. Glen).
pub mod Places
pub mod Fill
use dasm_dillon_code_sourcef.Common.{
  ℕ, zero, suc, ◌+◌, ◌-◌, ◌*◌, ◌/◌, ◌%◌, ◌^◌, Bool, false, not, ◌&&◌, ◌||◌, List, [], ◌∷◌, ◌++◌,
  Option, none, some, length, set, take, replicate, if◌then◌else◌, ◌==◌, ltb, leb, Run, ok, fault,
  out_of_fuel, ◌>>=◌,
}
use dasm_dillon_code_sourcef.Long.{long_mod, is_negative}
use dasm_dillon_code_sourcef.Symbols.{Globals, count_redo, reason_obscure}

abbrev pub format_default : ℕ
format_default = 1

abbrev pub format_ras : ℕ
format_ras = 2

abbrev pub format_raw : ℕ
format_raw = 3

-- `org`, `Seglen` and `Seekback` are statics, the others globals
pub record Output : Type 0 where
  pub format : ℕ
  pub fisclear : Bool
  pub file : List ℕ
  pub gen : List ℕ
  pub org : ℕ
  pub seglen : ℕ
  pub seekback : ℕ
  pub org_fill : ℕ

-- the low byte and the next one
abbrev pub put_word : ℕ → List ℕ
put_word n = n % 256 ∷ (n / 256) % 256 ∷ []

unfoldable pub sum_gen : List ℕ → ℕ → ℕ
sum_gen [] sum = sum
sum_gen (b ∷ gen) sum = (sum_gen gen sum + b) % long_mod

-- the start of a block of FORMAT_RAS: its origin, and two bytes for its length
unfoldable pub start_block : ℕ → Output → Output
start_block org o = record o {
  org = org;
  file = o.file ++ put_word org ++ 0 ∷ 0 ∷ [];
  seekback = length o.file + 2;
  seglen = 0;
}

-- the length of the block, written where it starts
unfoldable pub end_block : Output → Output
end_block o = record o {
  file = set (set o.file o.seekback (o.seglen % 256)) (o.seekback + 1) ((o.seglen / 256) % 256);
}

-- the first bytes of the file
unfoldable pub open_file : ℕ → Output → Output
open_file org o =
    if o.format == format_ras
    then start_block org (record o { fisclear = false })
    else if ltb o.format format_raw
    then record o { fisclear = false; org = org; file = o.file ++ put_word org }
    else record o { fisclear = false; org = org }

-- the bytes, and the origin behind them
abbrev pub write_gen : Output → Output
write_gen o = record o {
  file = o.file ++ o.gen;
  org = (o.org + length o.gen) % long_mod;
  seglen = o.seglen + length o.gen;
}

-- FORMAT_RAW and FORMAT_DEFAULT: a gap is filled; the program ends where the origin goes back
unfoldable pub write_raw : ℕ → Output → Option Output
write_raw org o =
    if ltb org o.org
    then none
    else some (record o {
      file = o.file ++ replicate (org - o.org) o.org_fill ++ o.gen;
      org = (org + length o.gen) % long_mod;
    })

-- FORMAT_RAS: another origin starts another block
unfoldable pub write_ras : ℕ → Output → Output
write_ras org o = if o.org == org then write_gen o else write_gen (start_block org (end_block o))

-- the switch on the format; another format is reported, and nothing is written
unfoldable pub write_file : ℕ → Output → Option Output
write_file org o =
    if o.format == format_ras
    then some (write_ras org o)
    else if o.format == format_raw || o.format == format_default
    then write_raw org o
    else some (record o { org = (o.org + length o.gen) % long_mod })

-- `Csegment->org += Glen`, and the same for `rorg`
unfoldable pub advance_origin : ℕ → Globals → Globals
advance_origin n g = record g {
  segment = record (g.segment) {
    org = (g.segment.org + n) % long_mod;
    rorg = if g.segment.flags.rorg then (g.segment.rorg + n) % long_mod else g.segment.rorg;
  };
}

-- the end of `generate`
abbrev pub after_write : Globals → Option Output → Option (Output × Globals)
after_write g none = none
after_write g (some o) = some (o, advance_origin (length o.gen) g)

-- `generate()`; nothing stands for the end of the program by `exit`
unfoldable pub generate : Output → Globals → Option (Output × Globals)
generate o g =
    if (g.redo == 0) && not g.segment.flags.bss
    then (let g1 = record g { checksum = sum_gen o.gen g.checksum } in
        if o.fisclear && g.segment.flags.unknown
        then some (record o { fisclear = false }, count_redo reason_obscure g1)
        else after_write g1
            (write_file g.segment.org (if o.fisclear then open_file g.segment.org o else o)))
    else some (o, advance_origin (length o.gen) g)

unfoldable pub closegenerate : Output → Globals → Output
closegenerate o g = if g.redo == 0 && o.format == format_ras then end_block o else o

-- sizeof(Gen)
abbrev pub size_of_gen : ℕ
size_of_gen = 256

-- Gen filled with copies of the bytes of an entry
unfoldable pub fill_gen : ℕ → List ℕ → List ℕ
fill_gen zero entry = []
fill_gen (suc n) entry = entry ++ fill_gen n entry

-- the bytes of an entry: `selected_processor->msb_order` is `msb_order`
unfoldable pub entry_bytes : Bool → ℕ → ℕ → List ℕ
entry_bytes msb_order fill size =
    let c0 = fill % 256 in
    let c1 = (fill / 2 ^ 8) % 256 in
    let c2 = (fill / 2 ^ 16) % 256 in
    let c3 = (fill / 2 ^ 24) % 256 in
    if size == 1
    then c0 ∷ []
    else if size == 2
    then (if msb_order then c1 ∷ c0 ∷ [] else c0 ∷ c1 ∷ [])
    else if msb_order
    then c3 ∷ c2 ∷ c1 ∷ c0 ∷ []
    else c0 ∷ c1 ∷ c2 ∷ c3 ∷ []

-- the loop of `genfill` on a full Gen: a round writes more than a byte, so `bytes` bounds the rounds
unfoldable pub fill_loop : ℕ → List ℕ → ℕ → Output → Globals → Run (Option (Output × Globals))
fill_loop zero full bytes o g = out_of_fuel
fill_loop (suc k) full bytes o g =
    if ltb size_of_gen bytes
    then elim (generate (record o { gen = full }) g) [
      | none ↦ ok none
      | some r ↦ fill_loop k full (bytes - size_of_gen) r.0 r.1
    ]
    else ok (generate (record o { gen = take bytes full }) g)

-- The bytes are more than a long holds, and come out below 0: no round is made, and Glen is what an int keeps of them.
-- A Glen outside of Gen is a fault.
abbrev pub fill_wrapped : List ℕ → ℕ → Output → Globals → Run (Option (Output × Globals))
fill_wrapped full bytes o g =
    let glen = bytes % 2 ^ 32 in
    if leb glen size_of_gen then ok (generate (record o { gen = take glen full }) g) else fault

-- `genfill(fill, entries, size)`: a number of entries below 0 fails the assertion, and the number of bytes is a long.
-- The sizes that the callers pass are 1, 2 and 4.
unfoldable pub genfill : Bool → ℕ → ℕ → ℕ → Output → Globals → Run (Option (Output × Globals))
genfill msb_order fill entries size o g =
    let bytes = (entries * size) % long_mod in
    let full = fill_gen (size_of_gen / size) (entry_bytes msb_order fill size) in
    if is_negative entries
    then fault
    else if entries == 0
    then ok (some (o, g))
    else if is_negative bytes
    then fill_wrapped full bytes o g
    else fill_loop (bytes + 1) full bytes o g
