-- ===== src/Asm.antt =====
-- The data of src/src/asm.h: the bits of the flag words, addressing modes, symbols and segments.
-- A flag word is kept as one Boolean for each bit that asm.h names.
use dasm_dillon_code_sourcef.Common.{ℕ, Bool, true, false, ◌||◌, List, [], Option, none}

-- SYM_UNKNOWN, SYM_REF, SYM_STRING, SYM_SET, SYM_MACRO and SYM_MASREF
pub record Flags : Type 0 where
  pub unknown : Bool
  pub ref : Bool
  pub string : Bool
  pub set : Bool
  pub macro : Bool
  pub masref : Bool

abbrev pub no_flags : Flags
no_flags = record {
  unknown = false;
  ref = false;
  string = false;
  set = false;
  macro = false;
  masref = false;
}

abbrev pub unknown_flag : Flags
unknown_flag = record no_flags { unknown = true }

-- f1 | f2
abbrev pub or_flags : Flags → Flags → Flags
or_flags f g = record {
  unknown = f.unknown || g.unknown;
  ref = f.ref || g.ref;
  string = f.string || g.string;
  set = f.set || g.set;
  macro = f.macro || g.macro;
  masref = f.masref || g.masref;
}

-- flags != 0
abbrev pub any_flag : Flags → Bool
any_flag f = f.unknown || (f.ref || (f.string || (f.set || (f.macro || f.masref))))

-- flags & SYM_UNKNOWN
abbrev pub only_unknown : Flags → Flags
only_unknown f = record no_flags { unknown = f.unknown }

-- SF_UNKNOWN, SF_REF, SF_BSS and SF_RORG
pub record SegmentFlags : Type 0 where
  pub unknown : Bool
  pub ref : Bool
  pub bss : Bool
  pub rorg : Bool

pub data AddressMode : Type 0 where
  imp imm8 imm16 byteadr byteadrx byteadry wordadr wordadrx wordadry rel indbytex indbytey indword
        zero_x zero_y bitmod bitbramod symbol explist long bss :
      AddressMode

-- `base->addrmode == 0`
abbrev pub is_imp : AddressMode → Bool
is_imp imp = true
is_imp _ = false

abbrev pub is_indword : AddressMode → Bool
is_indword indword = true
is_indword _ = false

-- A node of the symbol table or of an evaluated expression; the list pointer is the place in a
-- list, and the name's length is the length of the name.
pub record Symbol : Type 0 where
  pub name : List ℕ
  pub string : Option (List ℕ)
  pub flags : Flags
  pub addrmode : AddressMode
  pub value : ℕ

-- `alloc_symbol` of src/src/symbols.c: a node with all bits zero
abbrev pub alloc_symbol : Symbol
alloc_symbol = record { name = []; string = none; flags = no_flags; addrmode = imp; value = 0 }

pub record Segment : Type 0 where
  pub name : List ℕ
  pub flags : SegmentFlags
  pub rflags : SegmentFlags
  pub org : ℕ
  pub rorg : ℕ
  pub initorg : ℕ
  pub initrorg : ℕ
  pub initflags : SegmentFlags
  pub initrflags : SegmentFlags

abbrev pub max_sym_len : ℕ
max_sym_len = 1024
