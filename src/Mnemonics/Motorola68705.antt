-- ===== src/Mnemonics/Motorola68705.antt =====
-- The table of src/src/mne68705.c.
use dasm_dillon_code_sourcef.Common.{List, [], ◌∷◌, codes, true}
use dasm_dillon_code_sourcef.Mnemonics.{Mnemonic, line_of, vect_mnemonic}

abbrev pub mne_68705 : List Mnemonic
mne_68705 =
    line_of vect_mnemonic (codes "adc") 0x20da (0xa9 ∷ 0xb9 ∷ 0xe9 ∷ 0xc9 ∷ 0xd9 ∷ 0xf9 ∷ [])
    ∷ line_of vect_mnemonic (codes "add") 0x20da (0xab ∷ 0xbb ∷ 0xeb ∷ 0xcb ∷ 0xdb ∷ 0xfb ∷ [])
    ∷ line_of vect_mnemonic (codes "and") 0x20da (0xa4 ∷ 0xb4 ∷ 0xe4 ∷ 0xc4 ∷ 0xd4 ∷ 0xf4 ∷ [])
    ∷ line_of vect_mnemonic (codes "asl") 0x2019 (0x48 ∷ 0x38 ∷ 0x68 ∷ 0x78 ∷ [])
    ∷ line_of vect_mnemonic (codes "asla") 0x1 (0x48 ∷ [])
    ∷ line_of vect_mnemonic (codes "aslx") 0x1 (0x58 ∷ [])
    ∷ line_of vect_mnemonic (codes "asr") 0x2019 (0x47 ∷ 0x37 ∷ 0x67 ∷ 0x77 ∷ [])
    ∷ line_of vect_mnemonic (codes "asra") 0x1 (0x47 ∷ [])
    ∷ line_of vect_mnemonic (codes "asrx") 0x1 (0x57 ∷ [])
    ∷ line_of vect_mnemonic (codes "bcc") 0x200 (0x24 ∷ [])
    ∷ record (line_of vect_mnemonic (codes "bclr") 0x8000 (0x11 ∷ [])) { imod = true }
    ∷ line_of vect_mnemonic (codes "bcs") 0x200 (0x25 ∷ [])
    ∷ line_of vect_mnemonic (codes "beq") 0x200 (0x27 ∷ [])
    ∷ line_of vect_mnemonic (codes "bhcc") 0x200 (0x28 ∷ [])
    ∷ line_of vect_mnemonic (codes "bhcs") 0x200 (0x29 ∷ [])
    ∷ line_of vect_mnemonic (codes "bhi") 0x200 (0x22 ∷ [])
    ∷ line_of vect_mnemonic (codes "bhs") 0x200 (0x24 ∷ [])
    ∷ line_of vect_mnemonic (codes "bih") 0x200 (0x2f ∷ [])
    ∷ line_of vect_mnemonic (codes "bil") 0x200 (0x2e ∷ [])
    ∷ line_of vect_mnemonic (codes "bit") 0x20da (0xa5 ∷ 0xb5 ∷ 0xe5 ∷ 0xc5 ∷ 0xd5 ∷ 0xf5 ∷ [])
    ∷ line_of vect_mnemonic (codes "blo") 0x200 (0x25 ∷ [])
    ∷ line_of vect_mnemonic (codes "bls") 0x200 (0x23 ∷ [])
    ∷ line_of vect_mnemonic (codes "bmc") 0x200 (0x2c ∷ [])
    ∷ line_of vect_mnemonic (codes "bmi") 0x200 (0x2b ∷ [])
    ∷ line_of vect_mnemonic (codes "bms") 0x200 (0x2d ∷ [])
    ∷ line_of vect_mnemonic (codes "bne") 0x200 (0x26 ∷ [])
    ∷ line_of vect_mnemonic (codes "bpl") 0x200 (0x2a ∷ [])
    ∷ line_of vect_mnemonic (codes "bra") 0x200 (0x20 ∷ [])
    ∷ line_of vect_mnemonic (codes "brn") 0x200 (0x21 ∷ [])
    ∷ record (line_of vect_mnemonic (codes "brclr") 0x10000 (0x01 ∷ [])) { rel = true; imod = true }
    ∷ record (line_of vect_mnemonic (codes "brset") 0x10000 (0x00 ∷ [])) { rel = true; imod = true }
    ∷ record (line_of vect_mnemonic (codes "bset") 0x8000 (0x10 ∷ [])) { imod = true }
    ∷ line_of vect_mnemonic (codes "bsr") 0x200 (0xad ∷ [])
    ∷ line_of vect_mnemonic (codes "clc") 0x1 (0x98 ∷ [])
    ∷ line_of vect_mnemonic (codes "cli") 0x1 (0x9a ∷ [])
    ∷ line_of vect_mnemonic (codes "clr") 0x2019 (0x4f ∷ 0x3f ∷ 0x6f ∷ 0x7f ∷ [])
    ∷ line_of vect_mnemonic (codes "clra") 0x1 (0x4f ∷ [])
    ∷ line_of vect_mnemonic (codes "clrx") 0x1 (0x5f ∷ [])
    ∷ line_of vect_mnemonic (codes "cmp") 0x20da (0xa1 ∷ 0xb1 ∷ 0xe1 ∷ 0xc1 ∷ 0xd1 ∷ 0xf1 ∷ [])
    ∷ line_of vect_mnemonic (codes "com") 0x2019 (0x43 ∷ 0x33 ∷ 0x63 ∷ 0x73 ∷ [])
    ∷ line_of vect_mnemonic (codes "coma") 0x1 (0x43 ∷ [])
    ∷ line_of vect_mnemonic (codes "comx") 0x1 (0x53 ∷ [])
    ∷ line_of vect_mnemonic (codes "cpx") 0x20da (0xa3 ∷ 0xb3 ∷ 0xe3 ∷ 0xc3 ∷ 0xd3 ∷ 0xf3 ∷ [])
    ∷ line_of vect_mnemonic (codes "dec") 0x2019 (0x4a ∷ 0x3a ∷ 0x6a ∷ 0x7a ∷ [])
    ∷ line_of vect_mnemonic (codes "deca") 0x1 (0x4a ∷ [])
    ∷ line_of vect_mnemonic (codes "decx") 0x1 (0x5a ∷ [])
    ∷ line_of vect_mnemonic (codes "dex") 0x1 (0x5a ∷ [])
    ∷ line_of vect_mnemonic (codes "eor") 0x20da (0xa8 ∷ 0xb8 ∷ 0xe8 ∷ 0xc8 ∷ 0xd8 ∷ 0xf8 ∷ [])
    ∷ line_of vect_mnemonic (codes "inc") 0x2019 (0x4c ∷ 0x3c ∷ 0x6c ∷ 0x7c ∷ [])
    ∷ line_of vect_mnemonic (codes "inca") 0x1 (0x4c ∷ [])
    ∷ line_of vect_mnemonic (codes "incx") 0x1 (0x5c ∷ [])
    ∷ line_of vect_mnemonic (codes "inx") 0x1 (0x5c ∷ [])
    ∷ line_of vect_mnemonic (codes "jmp") 0x20d8 (0xbc ∷ 0xec ∷ 0xcc ∷ 0xdc ∷ 0xfc ∷ [])
    ∷ line_of vect_mnemonic (codes "jsr") 0x20d8 (0xbd ∷ 0xed ∷ 0xcd ∷ 0xdd ∷ 0xfd ∷ [])
    ∷ line_of vect_mnemonic (codes "lda") 0x20da (0xa6 ∷ 0xb6 ∷ 0xe6 ∷ 0xc6 ∷ 0xd6 ∷ 0xf6 ∷ [])
    ∷ line_of vect_mnemonic (codes "ldx") 0x20da (0xae ∷ 0xbe ∷ 0xee ∷ 0xce ∷ 0xde ∷ 0xfe ∷ [])
    ∷ line_of vect_mnemonic (codes "lsl") 0x2019 (0x48 ∷ 0x38 ∷ 0x68 ∷ 0x78 ∷ [])
    ∷ line_of vect_mnemonic (codes "lsla") 0x1 (0x48 ∷ [])
    ∷ line_of vect_mnemonic (codes "lslx") 0x1 (0x58 ∷ [])
    ∷ line_of vect_mnemonic (codes "lsr") 0x2019 (0x44 ∷ 0x34 ∷ 0x64 ∷ 0x74 ∷ [])
    ∷ line_of vect_mnemonic (codes "lsra") 0x1 (0x44 ∷ [])
    ∷ line_of vect_mnemonic (codes "lsrx") 0x1 (0x54 ∷ [])
    ∷ line_of vect_mnemonic (codes "neg") 0x2019 (0x40 ∷ 0x30 ∷ 0x60 ∷ 0x70 ∷ [])
    ∷ line_of vect_mnemonic (codes "nega") 0x1 (0x40 ∷ [])
    ∷ line_of vect_mnemonic (codes "negx") 0x1 (0x50 ∷ [])
    ∷ line_of vect_mnemonic (codes "nop") 0x1 (0x9d ∷ [])
    ∷ line_of vect_mnemonic (codes "ora") 0x20da (0xaa ∷ 0xba ∷ 0xea ∷ 0xca ∷ 0xda ∷ 0xfa ∷ [])
    ∷ line_of vect_mnemonic (codes "rol") 0x2019 (0x49 ∷ 0x39 ∷ 0x69 ∷ 0x79 ∷ [])
    ∷ line_of vect_mnemonic (codes "rola") 0x1 (0x49 ∷ [])
    ∷ line_of vect_mnemonic (codes "rolx") 0x1 (0x59 ∷ [])
    ∷ line_of vect_mnemonic (codes "ror") 0x2019 (0x46 ∷ 0x36 ∷ 0x66 ∷ 0x76 ∷ [])
    ∷ line_of vect_mnemonic (codes "rora") 0x1 (0x46 ∷ [])
    ∷ line_of vect_mnemonic (codes "rorx") 0x1 (0x56 ∷ [])
    ∷ line_of vect_mnemonic (codes "rsp") 0x1 (0x9c ∷ [])
    ∷ line_of vect_mnemonic (codes "rti") 0x1 (0x80 ∷ [])
    ∷ line_of vect_mnemonic (codes "rts") 0x1 (0x81 ∷ [])
    ∷ line_of vect_mnemonic (codes "sbc") 0x20da (0xa2 ∷ 0xb2 ∷ 0xe2 ∷ 0xc2 ∷ 0xd2 ∷ 0xf2 ∷ [])
    ∷ line_of vect_mnemonic (codes "sec") 0x1 (0x99 ∷ [])
    ∷ line_of vect_mnemonic (codes "sei") 0x1 (0x9b ∷ [])
    ∷ line_of vect_mnemonic (codes "sta") 0x20d8 (0xb7 ∷ 0xe7 ∷ 0xc7 ∷ 0xd7 ∷ 0xf7 ∷ [])
    ∷ line_of vect_mnemonic (codes "stx") 0x20d8 (0xbf ∷ 0xef ∷ 0xcf ∷ 0xdf ∷ 0xff ∷ [])
    ∷ line_of vect_mnemonic (codes "sub") 0x20da (0xa0 ∷ 0xb0 ∷ 0xe0 ∷ 0xc0 ∷ 0xd0 ∷ 0xf0 ∷ [])
    ∷ line_of vect_mnemonic (codes "swi") 0x1 (0x83 ∷ [])
    ∷ line_of vect_mnemonic (codes "tax") 0x1 (0x97 ∷ [])
    ∷ line_of vect_mnemonic (codes "tst") 0x2019 (0x4d ∷ 0x3d ∷ 0x6d ∷ 0x7d ∷ [])
    ∷ line_of vect_mnemonic (codes "tsta") 0x1 (0x4d ∷ [])
    ∷ line_of vect_mnemonic (codes "tstx") 0x1 (0x5d ∷ [])
    ∷ line_of vect_mnemonic (codes "txa") 0x1 (0x9f ∷ [])
    ∷ []
