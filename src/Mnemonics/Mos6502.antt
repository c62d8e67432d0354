-- ===== src/Mnemonics/Mos6502.antt =====
-- The tables of src/src/mne6502.c.
use dasm_dillon_code_sourcef.Common.{List, [], ◌∷◌, codes}
use dasm_dillon_code_sourcef.Mnemonics.{Mnemonic, line_of, vect_mnemonic}

abbrev pub mne_6502 : List Mnemonic
mne_6502 =
    line_of vect_mnemonic (codes "adc") 0xdda
      (0x69 ∷ 0x65 ∷ 0x75 ∷ 0x6d ∷ 0x7d ∷ 0x79 ∷ 0x61 ∷ 0x71 ∷ [])
    ∷ line_of vect_mnemonic (codes "and") 0xdda
        (0x29 ∷ 0x25 ∷ 0x35 ∷ 0x2d ∷ 0x3d ∷ 0x39 ∷ 0x21 ∷ 0x31 ∷ [])
    ∷ line_of vect_mnemonic (codes "asl") 0xd9 (0x0a ∷ 0x06 ∷ 0x16 ∷ 0x0e ∷ 0x1e ∷ [])
    ∷ line_of vect_mnemonic (codes "bcc") 0x200 (0x90 ∷ [])
    ∷ line_of vect_mnemonic (codes "bcs") 0x200 (0xb0 ∷ [])
    ∷ line_of vect_mnemonic (codes "beq") 0x200 (0xf0 ∷ [])
    ∷ line_of vect_mnemonic (codes "bit") 0x48 (0x24 ∷ 0x2c ∷ [])
    ∷ line_of vect_mnemonic (codes "bmi") 0x200 (0x30 ∷ [])
    ∷ line_of vect_mnemonic (codes "bne") 0x200 (0xd0 ∷ [])
    ∷ line_of vect_mnemonic (codes "bpl") 0x200 (0x10 ∷ [])
    ∷ line_of vect_mnemonic (codes "brk") 0x1 (0x00 ∷ [])
    ∷ line_of vect_mnemonic (codes "bvc") 0x200 (0x50 ∷ [])
    ∷ line_of vect_mnemonic (codes "bvs") 0x200 (0x70 ∷ [])
    ∷ line_of vect_mnemonic (codes "clc") 0x1 (0x18 ∷ [])
    ∷ line_of vect_mnemonic (codes "cld") 0x1 (0xd8 ∷ [])
    ∷ line_of vect_mnemonic (codes "cli") 0x1 (0x58 ∷ [])
    ∷ line_of vect_mnemonic (codes "clv") 0x1 (0xb8 ∷ [])
    ∷ line_of vect_mnemonic (codes "cmp") 0xdda
        (0xc9 ∷ 0xc5 ∷ 0xd5 ∷ 0xcd ∷ 0xdd ∷ 0xd9 ∷ 0xc1 ∷ 0xd1 ∷ [])
    ∷ line_of vect_mnemonic (codes "cpx") 0x4a (0xe0 ∷ 0xe4 ∷ 0xec ∷ [])
    ∷ line_of vect_mnemonic (codes "cpy") 0x4a (0xc0 ∷ 0xc4 ∷ 0xcc ∷ [])
    ∷ line_of vect_mnemonic (codes "dec") 0xd8 (0xc6 ∷ 0xd6 ∷ 0xce ∷ 0xde ∷ [])
    ∷ line_of vect_mnemonic (codes "dex") 0x1 (0xca ∷ [])
    ∷ line_of vect_mnemonic (codes "dey") 0x1 (0x88 ∷ [])
    ∷ line_of vect_mnemonic (codes "eor") 0xdda
        (0x49 ∷ 0x45 ∷ 0x55 ∷ 0x4d ∷ 0x5d ∷ 0x59 ∷ 0x41 ∷ 0x51 ∷ [])
    ∷ line_of vect_mnemonic (codes "inc") 0xd8 (0xe6 ∷ 0xf6 ∷ 0xee ∷ 0xfe ∷ [])
    ∷ line_of vect_mnemonic (codes "inx") 0x1 (0xe8 ∷ [])
    ∷ line_of vect_mnemonic (codes "iny") 0x1 (0xc8 ∷ [])
    ∷ line_of vect_mnemonic (codes "jmp") 0x1040 (0x4c ∷ 0x6c ∷ [])
    ∷ line_of vect_mnemonic (codes "jsr") 0x40 (0x20 ∷ [])
    ∷ line_of vect_mnemonic (codes "lda") 0xdda
        (0xa9 ∷ 0xa5 ∷ 0xb5 ∷ 0xad ∷ 0xbd ∷ 0xb9 ∷ 0xa1 ∷ 0xb1 ∷ [])
    ∷ line_of vect_mnemonic (codes "ldx") 0x16a (0xa2 ∷ 0xa6 ∷ 0xb6 ∷ 0xae ∷ 0xbe ∷ [])
    ∷ line_of vect_mnemonic (codes "ldy") 0xda (0xa0 ∷ 0xa4 ∷ 0xb4 ∷ 0xac ∷ 0xbc ∷ [])
    ∷ line_of vect_mnemonic (codes "lsr") 0xd9 (0x4a ∷ 0x46 ∷ 0x56 ∷ 0x4e ∷ 0x5e ∷ [])
    ∷ line_of vect_mnemonic (codes "nop") 0xdb (0xea ∷ 0x80 ∷ 0x04 ∷ 0x14 ∷ 0x0c ∷ 0x1c ∷ [])
    ∷ line_of vect_mnemonic (codes "ora") 0xdda
        (0x09 ∷ 0x05 ∷ 0x15 ∷ 0x0d ∷ 0x1d ∷ 0x19 ∷ 0x01 ∷ 0x11 ∷ [])
    ∷ line_of vect_mnemonic (codes "pha") 0x1 (0x48 ∷ [])
    ∷ line_of vect_mnemonic (codes "php") 0x1 (0x08 ∷ [])
    ∷ line_of vect_mnemonic (codes "pla") 0x1 (0x68 ∷ [])
    ∷ line_of vect_mnemonic (codes "plp") 0x1 (0x28 ∷ [])
    ∷ line_of vect_mnemonic (codes "rol") 0xd9 (0x2a ∷ 0x26 ∷ 0x36 ∷ 0x2e ∷ 0x3e ∷ [])
    ∷ line_of vect_mnemonic (codes "ror") 0xd9 (0x6a ∷ 0x66 ∷ 0x76 ∷ 0x6e ∷ 0x7e ∷ [])
    ∷ line_of vect_mnemonic (codes "rti") 0x1 (0x40 ∷ [])
    ∷ line_of vect_mnemonic (codes "rts") 0x1 (0x60 ∷ [])
    ∷ line_of vect_mnemonic (codes "sbc") 0xdda
        (0xe9 ∷ 0xe5 ∷ 0xf5 ∷ 0xed ∷ 0xfd ∷ 0xf9 ∷ 0xe1 ∷ 0xf1 ∷ [])
    ∷ line_of vect_mnemonic (codes "sec") 0x1 (0x38 ∷ [])
    ∷ line_of vect_mnemonic (codes "sed") 0x1 (0xf8 ∷ [])
    ∷ line_of vect_mnemonic (codes "sei") 0x1 (0x78 ∷ [])
    ∷ line_of vect_mnemonic (codes "sta") 0xdd8
        (0x85 ∷ 0x95 ∷ 0x8d ∷ 0x9d ∷ 0x99 ∷ 0x81 ∷ 0x91 ∷ [])
    ∷ line_of vect_mnemonic (codes "stx") 0x68 (0x86 ∷ 0x96 ∷ 0x8e ∷ [])
    ∷ line_of vect_mnemonic (codes "sty") 0x58 (0x84 ∷ 0x94 ∷ 0x8c ∷ [])
    ∷ line_of vect_mnemonic (codes "tax") 0x1 (0xaa ∷ [])
    ∷ line_of vect_mnemonic (codes "tay") 0x1 (0xa8 ∷ [])
    ∷ line_of vect_mnemonic (codes "tsx") 0x1 (0xba ∷ [])
    ∷ line_of vect_mnemonic (codes "txa") 0x1 (0x8a ∷ [])
    ∷ line_of vect_mnemonic (codes "txs") 0x1 (0x9a ∷ [])
    ∷ line_of vect_mnemonic (codes "tya") 0x1 (0x98 ∷ [])
    ∷ []

abbrev pub mne_6502_illegal : List Mnemonic
mne_6502_illegal =
    line_of vect_mnemonic (codes "anc") 0x2 (0x0b ∷ [])
    ∷ line_of vect_mnemonic (codes "ane") 0x2 (0x8b ∷ [])
    ∷ line_of vect_mnemonic (codes "arr") 0x2 (0x6b ∷ [])
    ∷ line_of vect_mnemonic (codes "asr") 0x2 (0x4b ∷ [])
    ∷ line_of vect_mnemonic (codes "dcp") 0xdd8
        (0xc7 ∷ 0xd7 ∷ 0xcf ∷ 0xdf ∷ 0xdb ∷ 0xc3 ∷ 0xd3 ∷ [])
    ∷ line_of vect_mnemonic (codes "isb") 0xdd8
        (0xe7 ∷ 0xf7 ∷ 0xef ∷ 0xff ∷ 0xfb ∷ 0xe3 ∷ 0xf3 ∷ [])
    ∷ line_of vect_mnemonic (codes "las") 0x100 (0xbb ∷ [])
    ∷ line_of vect_mnemonic (codes "lax") 0xd68 (0xa7 ∷ 0xb7 ∷ 0xaf ∷ 0xbf ∷ 0xa3 ∷ 0xb3 ∷ [])
    ∷ line_of vect_mnemonic (codes "lxa") 0x2 (0xab ∷ [])
    ∷ line_of vect_mnemonic (codes "rla") 0xdd8
        (0x27 ∷ 0x37 ∷ 0x2f ∷ 0x3f ∷ 0x3b ∷ 0x23 ∷ 0x33 ∷ [])
    ∷ line_of vect_mnemonic (codes "rra") 0xdd8
        (0x67 ∷ 0x77 ∷ 0x6f ∷ 0x7f ∷ 0x7b ∷ 0x63 ∷ 0x73 ∷ [])
    ∷ line_of vect_mnemonic (codes "sax") 0x468 (0x87 ∷ 0x97 ∷ 0x8f ∷ 0x83 ∷ [])
    ∷ line_of vect_mnemonic (codes "sbx") 0x2 (0xcb ∷ [])
    ∷ line_of vect_mnemonic (codes "sha") 0x900 (0x9f ∷ 0x93 ∷ [])
    ∷ line_of vect_mnemonic (codes "shs") 0x100 (0x9b ∷ [])
    ∷ line_of vect_mnemonic (codes "shx") 0x100 (0x9e ∷ [])
    ∷ line_of vect_mnemonic (codes "shy") 0x80 (0x9c ∷ [])
    ∷ line_of vect_mnemonic (codes "slo") 0xdd8
        (0x07 ∷ 0x17 ∷ 0x0f ∷ 0x1f ∷ 0x1b ∷ 0x03 ∷ 0x13 ∷ [])
    ∷ line_of vect_mnemonic (codes "sre") 0xdd8
        (0x47 ∷ 0x57 ∷ 0x4f ∷ 0x5f ∷ 0x5b ∷ 0x43 ∷ 0x53 ∷ [])
    ∷ []

abbrev pub mne_6502_dtv : List Mnemonic
mne_6502_dtv =
    line_of vect_mnemonic (codes "bra") 0x200 (0x12 ∷ [])
    ∷ line_of vect_mnemonic (codes "sac") 0x2 (0x32 ∷ [])
    ∷ line_of vect_mnemonic (codes "sir") 0x2 (0x42 ∷ [])
    ∷ []

abbrev pub mne_65c02 : List Mnemonic
mne_65c02 =
    line_of vect_mnemonic (codes "bit") 0xda (0x89 ∷ 0x24 ∷ 0x34 ∷ 0x2c ∷ 0x3c ∷ [])
    ∷ line_of vect_mnemonic (codes "bra") 0x200 (0x80 ∷ [])
    ∷ line_of vect_mnemonic (codes "dea") 0x1 (0x3a ∷ [])
    ∷ line_of vect_mnemonic (codes "ina") 0x1 (0x1a ∷ [])
    ∷ line_of vect_mnemonic (codes "phx") 0x1 (0xda ∷ [])
    ∷ line_of vect_mnemonic (codes "phy") 0x1 (0x5a ∷ [])
    ∷ line_of vect_mnemonic (codes "plx") 0x1 (0xfa ∷ [])
    ∷ line_of vect_mnemonic (codes "ply") 0x1 (0x7a ∷ [])
    ∷ line_of vect_mnemonic (codes "stz") 0xd8 (0x64 ∷ 0x74 ∷ 0x9c ∷ 0x9e ∷ [])
    ∷ line_of vect_mnemonic (codes "trb") 0x48 (0x14 ∷ 0x1c ∷ [])
    ∷ line_of vect_mnemonic (codes "tsb") 0x48 (0x04 ∷ 0x0c ∷ [])
    ∷ []
