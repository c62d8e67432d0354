-- ===== src/Mnemonics/Motorola6811.antt =====
-- The table of src/src/mne6811.c.
use dasm_dillon_code_sourcef.Common.{List, [], ◌∷◌, codes, true}
use dasm_dillon_code_sourcef.Mnemonics.{Mnemonic, line_of, vect_mnemonic}

abbrev pub mne_68hc11 : List Mnemonic
mne_68hc11 =
    line_of vect_mnemonic (codes "aba") 0x1 (0x1b ∷ [])
    ∷ line_of vect_mnemonic (codes "abx") 0x1 (0x3a ∷ [])
    ∷ line_of vect_mnemonic (codes "aby") 0x1 (0x183a ∷ [])
    ∷ line_of vect_mnemonic (codes "adca") 0x7a (0x89 ∷ 0x99 ∷ 0xa9 ∷ 0x18a9 ∷ 0xb9 ∷ [])
    ∷ line_of vect_mnemonic (codes "adcb") 0x7a (0xc9 ∷ 0xd9 ∷ 0xe9 ∷ 0x18e9 ∷ 0xf9 ∷ [])
    ∷ line_of vect_mnemonic (codes "adda") 0x7a (0x8b ∷ 0x9b ∷ 0xab ∷ 0x18ab ∷ 0xbb ∷ [])
    ∷ line_of vect_mnemonic (codes "addb") 0x7a (0xcb ∷ 0xdb ∷ 0xeb ∷ 0x18eb ∷ 0xfb ∷ [])
    ∷ line_of vect_mnemonic (codes "addd") 0x7c (0xc3 ∷ 0xd3 ∷ 0xe3 ∷ 0x18e3 ∷ 0xf3 ∷ [])
    ∷ line_of vect_mnemonic (codes "anda") 0x7a (0x84 ∷ 0x94 ∷ 0xa4 ∷ 0x18a4 ∷ 0xb4 ∷ [])
    ∷ line_of vect_mnemonic (codes "andb") 0x7a (0xc4 ∷ 0xd4 ∷ 0xe4 ∷ 0x18e4 ∷ 0xf4 ∷ [])
    ∷ line_of vect_mnemonic (codes "asla") 0x1 (0x48 ∷ [])
    ∷ line_of vect_mnemonic (codes "aslb") 0x1 (0x58 ∷ [])
    ∷ line_of vect_mnemonic (codes "asl") 0x70 (0x68 ∷ 0x1868 ∷ 0x78 ∷ [])
    ∷ line_of vect_mnemonic (codes "asld") 0x1 (0x05 ∷ [])
    ∷ line_of vect_mnemonic (codes "asra") 0x1 (0x47 ∷ [])
    ∷ line_of vect_mnemonic (codes "asrb") 0x1 (0x57 ∷ [])
    ∷ line_of vect_mnemonic (codes "asr") 0x70 (0x67 ∷ 0x1867 ∷ 0x77 ∷ [])
    ∷ line_of vect_mnemonic (codes "bcc") 0x200 (0x24 ∷ [])
    ∷ record (line_of vect_mnemonic (codes "bclr") 0x38 (0x15 ∷ 0x1d ∷ 0x181d ∷ [])) { mask = true }
    ∷ line_of vect_mnemonic (codes "bcs") 0x200 (0x25 ∷ [])
    ∷ line_of vect_mnemonic (codes "beq") 0x200 (0x27 ∷ [])
    ∷ line_of vect_mnemonic (codes "bge") 0x200 (0x2c ∷ [])
    ∷ line_of vect_mnemonic (codes "bgt") 0x200 (0x2e ∷ [])
    ∷ line_of vect_mnemonic (codes "bhi") 0x200 (0x22 ∷ [])
    ∷ line_of vect_mnemonic (codes "bhs") 0x200 (0x24 ∷ [])
    ∷ line_of vect_mnemonic (codes "bita") 0x7a (0x85 ∷ 0x95 ∷ 0xa5 ∷ 0x18a5 ∷ 0xb5 ∷ [])
    ∷ line_of vect_mnemonic (codes "bitb") 0x7a (0xc5 ∷ 0xd5 ∷ 0xe5 ∷ 0x18e5 ∷ 0xf5 ∷ [])
    ∷ line_of vect_mnemonic (codes "ble") 0x200 (0x2f ∷ [])
    ∷ line_of vect_mnemonic (codes "blo") 0x200 (0x25 ∷ [])
    ∷ line_of vect_mnemonic (codes "bls") 0x200 (0x23 ∷ [])
    ∷ line_of vect_mnemonic (codes "blt") 0x200 (0x2d ∷ [])
    ∷ line_of vect_mnemonic (codes "bmi") 0x200 (0x2b ∷ [])
    ∷ line_of vect_mnemonic (codes "bne") 0x200 (0x26 ∷ [])
    ∷ line_of vect_mnemonic (codes "bpl") 0x200 (0x2a ∷ [])
    ∷ line_of vect_mnemonic (codes "bra") 0x200 (0x20 ∷ [])
    ∷ record (line_of vect_mnemonic (codes "brclr") 0x38 (0x13 ∷ 0x1f ∷ 0x181f ∷ [])) {
      mask = true;
      rel = true;
    }
    ∷ line_of vect_mnemonic (codes "brn") 0x200 (0x21 ∷ [])
    ∷ record (line_of vect_mnemonic (codes "brset") 0x38 (0x12 ∷ 0x1e ∷ 0x181e ∷ [])) {
      mask = true;
      rel = true;
    }
    ∷ record (line_of vect_mnemonic (codes "bset") 0x38 (0x14 ∷ 0x1c ∷ 0x181c ∷ [])) { mask = true }
    ∷ line_of vect_mnemonic (codes "bsr") 0x200 (0x8d ∷ [])
    ∷ line_of vect_mnemonic (codes "bvc") 0x200 (0x28 ∷ [])
    ∷ line_of vect_mnemonic (codes "bvs") 0x200 (0x29 ∷ [])
    ∷ line_of vect_mnemonic (codes "cba") 0x1 (0x11 ∷ [])
    ∷ line_of vect_mnemonic (codes "clc") 0x1 (0x0c ∷ [])
    ∷ line_of vect_mnemonic (codes "cli") 0x1 (0x0e ∷ [])
    ∷ line_of vect_mnemonic (codes "clra") 0x1 (0x4f ∷ [])
    ∷ line_of vect_mnemonic (codes "clrb") 0x1 (0x5f ∷ [])
    ∷ line_of vect_mnemonic (codes "clr") 0x70 (0x6f ∷ 0x186f ∷ 0x7f ∷ [])
    ∷ line_of vect_mnemonic (codes "clv") 0x1 (0x0a ∷ [])
    ∷ line_of vect_mnemonic (codes "cmpa") 0x7a (0x81 ∷ 0x91 ∷ 0xa1 ∷ 0x18a1 ∷ 0xb1 ∷ [])
    ∷ line_of vect_mnemonic (codes "cmpb") 0x7a (0xc1 ∷ 0xd1 ∷ 0xe1 ∷ 0x18e1 ∷ 0xf1 ∷ [])
    ∷ line_of vect_mnemonic (codes "coma") 0x1 (0x43 ∷ [])
    ∷ line_of vect_mnemonic (codes "comb") 0x1 (0x53 ∷ [])
    ∷ line_of vect_mnemonic (codes "com") 0x70 (0x63 ∷ 0x1863 ∷ 0x73 ∷ [])
    ∷ line_of vect_mnemonic (codes "cpd") 0x7c (0x1a83 ∷ 0x1a93 ∷ 0x1aa3 ∷ 0xcda3 ∷ 0x1ab3 ∷ [])
    ∷ line_of vect_mnemonic (codes "cpx") 0x7c (0x8c ∷ 0x9c ∷ 0xac ∷ 0xcdac ∷ 0xbc ∷ [])
    ∷ line_of vect_mnemonic (codes "cpy") 0x7c (0x188c ∷ 0x189c ∷ 0x1aac ∷ 0x18ac ∷ 0x18bc ∷ [])
    ∷ line_of vect_mnemonic (codes "daa") 0x1 (0x19 ∷ [])
    ∷ line_of vect_mnemonic (codes "deca") 0x1 (0x4a ∷ [])
    ∷ line_of vect_mnemonic (codes "decb") 0x1 (0x5a ∷ [])
    ∷ line_of vect_mnemonic (codes "dec") 0x70 (0x6a ∷ 0x186a ∷ 0x7a ∷ [])
    ∷ line_of vect_mnemonic (codes "des") 0x1 (0x34 ∷ [])
    ∷ line_of vect_mnemonic (codes "dex") 0x1 (0x09 ∷ [])
    ∷ line_of vect_mnemonic (codes "dey") 0x1 (0x1809 ∷ [])
    ∷ line_of vect_mnemonic (codes "eora") 0x7a (0x88 ∷ 0x98 ∷ 0xa8 ∷ 0x18a8 ∷ 0xb8 ∷ [])
    ∷ line_of vect_mnemonic (codes "eorb") 0x7a (0xc8 ∷ 0xd8 ∷ 0xe8 ∷ 0x18e8 ∷ 0xf8 ∷ [])
    ∷ line_of vect_mnemonic (codes "fdiv") 0x1 (0x03 ∷ [])
    ∷ line_of vect_mnemonic (codes "idiv") 0x1 (0x02 ∷ [])
    ∷ line_of vect_mnemonic (codes "inca") 0x1 (0x4c ∷ [])
    ∷ line_of vect_mnemonic (codes "incb") 0x1 (0x5c ∷ [])
    ∷ line_of vect_mnemonic (codes "inc") 0x70 (0x6c ∷ 0x186c ∷ 0x7c ∷ [])
    ∷ line_of vect_mnemonic (codes "ins") 0x1 (0x31 ∷ [])
    ∷ line_of vect_mnemonic (codes "inx") 0x1 (0x08 ∷ [])
    ∷ line_of vect_mnemonic (codes "iny") 0x1 (0x1808 ∷ [])
    ∷ line_of vect_mnemonic (codes "jmp") 0x70 (0x6e ∷ 0x186e ∷ 0x7e ∷ [])
    ∷ line_of vect_mnemonic (codes "jsr") 0x78 (0x9d ∷ 0xad ∷ 0x18ad ∷ 0xbd ∷ [])
    ∷ line_of vect_mnemonic (codes "ldaa") 0x7a (0x86 ∷ 0x96 ∷ 0xa6 ∷ 0x18a6 ∷ 0xb6 ∷ [])
    ∷ line_of vect_mnemonic (codes "ldab") 0x7a (0xc6 ∷ 0xd6 ∷ 0xe6 ∷ 0x18e6 ∷ 0xf6 ∷ [])
    ∷ line_of vect_mnemonic (codes "ldd") 0x7c (0xcc ∷ 0xdc ∷ 0xec ∷ 0x18ec ∷ 0xfc ∷ [])
    ∷ line_of vect_mnemonic (codes "lds") 0x7c (0x8e ∷ 0x9e ∷ 0xae ∷ 0x18ae ∷ 0xbe ∷ [])
    ∷ line_of vect_mnemonic (codes "ldx") 0x7c (0xce ∷ 0xde ∷ 0xee ∷ 0xcdee ∷ 0xfe ∷ [])
    ∷ line_of vect_mnemonic (codes "ldy") 0x7c (0x18ce ∷ 0x18de ∷ 0x1aee ∷ 0x18ee ∷ 0x18fe ∷ [])
    ∷ line_of vect_mnemonic (codes "lsla") 0x1 (0x48 ∷ [])
    ∷ line_of vect_mnemonic (codes "lslb") 0x1 (0x58 ∷ [])
    ∷ line_of vect_mnemonic (codes "lsl") 0x70 (0x68 ∷ 0x1868 ∷ 0x78 ∷ [])
    ∷ line_of vect_mnemonic (codes "lsld") 0x1 (0x05 ∷ [])
    ∷ line_of vect_mnemonic (codes "lsra") 0x1 (0x44 ∷ [])
    ∷ line_of vect_mnemonic (codes "lsrb") 0x1 (0x54 ∷ [])
    ∷ line_of vect_mnemonic (codes "lsr") 0x70 (0x64 ∷ 0x1864 ∷ 0x74 ∷ [])
    ∷ line_of vect_mnemonic (codes "lsrd") 0x1 (0x04 ∷ [])
    ∷ line_of vect_mnemonic (codes "mul") 0x1 (0x3d ∷ [])
    ∷ line_of vect_mnemonic (codes "nega") 0x1 (0x40 ∷ [])
    ∷ line_of vect_mnemonic (codes "negb") 0x1 (0x50 ∷ [])
    ∷ line_of vect_mnemonic (codes "neg") 0x70 (0x60 ∷ 0x1860 ∷ 0x70 ∷ [])
    ∷ line_of vect_mnemonic (codes "nop") 0x1 (0x01 ∷ [])
    ∷ line_of vect_mnemonic (codes "oraa") 0x7a (0x8a ∷ 0x9a ∷ 0xaa ∷ 0x18aa ∷ 0xba ∷ [])
    ∷ line_of vect_mnemonic (codes "orab") 0x7a (0xca ∷ 0xda ∷ 0xea ∷ 0x18ea ∷ 0xfa ∷ [])
    ∷ line_of vect_mnemonic (codes "psha") 0x1 (0x36 ∷ [])
    ∷ line_of vect_mnemonic (codes "pshb") 0x1 (0x37 ∷ [])
    ∷ line_of vect_mnemonic (codes "pshx") 0x1 (0x3c ∷ [])
    ∷ line_of vect_mnemonic (codes "pshy") 0x1 (0x183c ∷ [])
    ∷ line_of vect_mnemonic (codes "pula") 0x1 (0x32 ∷ [])
    ∷ line_of vect_mnemonic (codes "pulb") 0x1 (0x33 ∷ [])
    ∷ line_of vect_mnemonic (codes "pulx") 0x1 (0x38 ∷ [])
    ∷ line_of vect_mnemonic (codes "puly") 0x1 (0x1838 ∷ [])
    ∷ line_of vect_mnemonic (codes "rola") 0x1 (0x49 ∷ [])
    ∷ line_of vect_mnemonic (codes "rolb") 0x1 (0x59 ∷ [])
    ∷ line_of vect_mnemonic (codes "rol") 0x70 (0x69 ∷ 0x1869 ∷ 0x79 ∷ [])
    ∷ line_of vect_mnemonic (codes "rora") 0x1 (0x46 ∷ [])
    ∷ line_of vect_mnemonic (codes "rorb") 0x1 (0x56 ∷ [])
    ∷ line_of vect_mnemonic (codes "ror") 0x70 (0x66 ∷ 0x1866 ∷ 0x76 ∷ [])
    ∷ line_of vect_mnemonic (codes "rti") 0x1 (0x3b ∷ [])
    ∷ line_of vect_mnemonic (codes "rts") 0x1 (0x39 ∷ [])
    ∷ line_of vect_mnemonic (codes "sba") 0x1 (0x10 ∷ [])
    ∷ line_of vect_mnemonic (codes "sbca") 0x7a (0x82 ∷ 0x92 ∷ 0xa2 ∷ 0x18a2 ∷ 0xb2 ∷ [])
    ∷ line_of vect_mnemonic (codes "sbcb") 0x7a (0xc2 ∷ 0xd2 ∷ 0xe2 ∷ 0x18e2 ∷ 0xf2 ∷ [])
    ∷ line_of vect_mnemonic (codes "sec") 0x1 (0x0d ∷ [])
    ∷ line_of vect_mnemonic (codes "sei") 0x1 (0x0f ∷ [])
    ∷ line_of vect_mnemonic (codes "sev") 0x1 (0x0b ∷ [])
    ∷ line_of vect_mnemonic (codes "staa") 0x78 (0x97 ∷ 0xa7 ∷ 0x18a7 ∷ 0xb7 ∷ [])
    ∷ line_of vect_mnemonic (codes "stab") 0x78 (0xd7 ∷ 0xe7 ∷ 0x18e7 ∷ 0xf7 ∷ [])
    ∷ line_of vect_mnemonic (codes "std") 0x78 (0xdd ∷ 0xed ∷ 0x18ed ∷ 0xfd ∷ [])
    ∷ line_of vect_mnemonic (codes "stop") 0x1 (0xcf ∷ [])
    ∷ line_of vect_mnemonic (codes "sts") 0x78 (0x9f ∷ 0xaf ∷ 0x18af ∷ 0xbf ∷ [])
    ∷ line_of vect_mnemonic (codes "stx") 0x78 (0xdf ∷ 0xef ∷ 0xcdef ∷ 0xff ∷ [])
    ∷ line_of vect_mnemonic (codes "sty") 0x78 (0x18df ∷ 0x1aef ∷ 0x18ef ∷ 0x18ff ∷ [])
    ∷ line_of vect_mnemonic (codes "suba") 0x7a (0x80 ∷ 0x90 ∷ 0xa0 ∷ 0x18a0 ∷ 0xb0 ∷ [])
    ∷ line_of vect_mnemonic (codes "subb") 0x7a (0xc0 ∷ 0xd0 ∷ 0xe0 ∷ 0x18e0 ∷ 0xf0 ∷ [])
    ∷ line_of vect_mnemonic (codes "subd") 0x7c (0x83 ∷ 0x93 ∷ 0xa3 ∷ 0x18a3 ∷ 0xb3 ∷ [])
    ∷ line_of vect_mnemonic (codes "swi") 0x1 (0x3f ∷ [])
    ∷ line_of vect_mnemonic (codes "tab") 0x1 (0x16 ∷ [])
    ∷ line_of vect_mnemonic (codes "tap") 0x1 (0x06 ∷ [])
    ∷ line_of vect_mnemonic (codes "tba") 0x1 (0x17 ∷ [])
    ∷ line_of vect_mnemonic (codes "test") 0x1 (0x00 ∷ [])
    ∷ line_of vect_mnemonic (codes "tpa") 0x1 (0x07 ∷ [])
    ∷ line_of vect_mnemonic (codes "tsta") 0x1 (0x4d ∷ [])
    ∷ line_of vect_mnemonic (codes "tstb") 0x1 (0x5d ∷ [])
    ∷ line_of vect_mnemonic (codes "tst") 0x70 (0x6d ∷ 0x186d ∷ 0x7d ∷ [])
    ∷ line_of vect_mnemonic (codes "tsx") 0x1 (0x30 ∷ [])
    ∷ line_of vect_mnemonic (codes "tsy") 0x1 (0x1830 ∷ [])
    ∷ line_of vect_mnemonic (codes "txs") 0x1 (0x35 ∷ [])
    ∷ line_of vect_mnemonic (codes "tys") 0x1 (0x1835 ∷ [])
    ∷ line_of vect_mnemonic (codes "wai") 0x1 (0x3e ∷ [])
    ∷ line_of vect_mnemonic (codes "xgdx") 0x1 (0x8f ∷ [])
    ∷ line_of vect_mnemonic (codes "xgdy") 0x1 (0x188f ∷ [])
    ∷ []
