-- ===== src/Mnemonics/Tables.antt =====
-- The tables of mnemonics: `Ops` of src/src/globals.c and `MneF8` of src/src/mnef8.c.
use dasm_dillon_code_sourcef.Common.{List, [], ◌∷◌, true, codes}
use dasm_dillon_code_sourcef.Mnemonics.{
  Mnemonic, line_of, directive, always, vect_list, vect_include, vect_seg, vect_hex, vect_err,
  vect_dc, vect_ds, vect_end, vect_trace, vect_org, vect_rorg, vect_rend, vect_align,
  vect_subroutine, vect_equ, vect_eqm, vect_set, vect_macro, vect_endm, vect_mexit, vect_ifconst,
  vect_ifnconst, vect_if, vect_else, vect_endif, vect_repeat, vect_repend, vect_echo,
  vect_processor, vect_incbin, vect_incdir, vect_mnemonic, vect_byteop, vect_sreg_op, vect_branch,
  vect_bf_bt, vect_wordop, vect_ins_outs, vect_lis, vect_lisu_lisl, vect_lr, vect_sl_sr,
}

abbrev pub mne_ops : List Mnemonic
mne_ops =
    directive vect_list (codes "list")
    ∷ directive vect_include (codes "include")
    ∷ directive vect_seg (codes "seg")
    ∷ directive vect_hex (codes "hex")
    ∷ directive vect_err (codes "err")
    ∷ directive vect_dc (codes "dc")
    ∷ directive vect_dc (codes "byte")
    ∷ directive vect_dc (codes "word")
    ∷ directive vect_dc (codes "long")
    ∷ directive vect_ds (codes "ds")
    ∷ directive vect_dc (codes "dv")
    ∷ directive vect_end (codes "end")
    ∷ directive vect_trace (codes "trace")
    ∷ directive vect_org (codes "org")
    ∷ directive vect_rorg (codes "rorg")
    ∷ directive vect_rend (codes "rend")
    ∷ directive vect_align (codes "align")
    ∷ directive vect_subroutine (codes "subroutine")
    ∷ directive vect_equ (codes "equ")
    ∷ directive vect_equ (codes "=")
    ∷ directive vect_eqm (codes "eqm")
    ∷ directive vect_set (codes "set")
    ∷ always vect_macro (codes "mac")
    ∷ record (directive vect_endm (codes "endm")) { is_endm = true }
    ∷ directive vect_mexit (codes "mexit")
    ∷ always vect_ifconst (codes "ifconst")
    ∷ always vect_ifnconst (codes "ifnconst")
    ∷ always vect_if (codes "if")
    ∷ always vect_else (codes "else")
    ∷ always vect_endif (codes "endif")
    ∷ always vect_endif (codes "eif")
    ∷ always vect_repeat (codes "repeat")
    ∷ always vect_repend (codes "repend")
    ∷ directive vect_echo (codes "echo")
    ∷ directive vect_processor (codes "processor")
    ∷ directive vect_incbin (codes "incbin")
    ∷ directive vect_incdir (codes "incdir")
    ∷ []

-- the lines with AF_IMP have one opcode
abbrev pub mne_f8 : List Mnemonic
mne_f8 =
    directive vect_ds (codes "res")
    ∷ directive vect_dc (codes "db")
    ∷ directive vect_dc (codes "dw")
    ∷ directive vect_dc (codes "dd")
    ∷ line_of vect_mnemonic (codes "adc") 1 (0x8e ∷ [])
    ∷ line_of vect_byteop (codes "ai") 1 (0x24 ∷ [])
    ∷ line_of vect_mnemonic (codes "am") 1 (0x88 ∷ [])
    ∷ line_of vect_mnemonic (codes "amd") 1 (0x89 ∷ [])
    ∷ line_of vect_sreg_op (codes "as") 1 (0xc0 ∷ [])
    ∷ line_of vect_sreg_op (codes "asd") 1 (0xd0 ∷ [])
    ∷ line_of vect_branch (codes "bc") 1 (0x82 ∷ [])
    ∷ line_of vect_bf_bt (codes "bf") 1 (0x90 ∷ [])
    ∷ line_of vect_branch (codes "bm") 1 (0x91 ∷ [])
    ∷ line_of vect_branch (codes "bnc") 1 (0x92 ∷ [])
    ∷ line_of vect_branch (codes "bno") 1 (0x98 ∷ [])
    ∷ line_of vect_branch (codes "bnz") 1 (0x94 ∷ [])
    ∷ line_of vect_branch (codes "bp") 1 (0x81 ∷ [])
    ∷ line_of vect_branch (codes "br") 1 (0x90 ∷ [])
    ∷ line_of vect_branch (codes "br7") 1 (0x8f ∷ [])
    ∷ line_of vect_bf_bt (codes "bt") 1 (0x80 ∷ [])
    ∷ line_of vect_branch (codes "bz") 1 (0x84 ∷ [])
    ∷ line_of vect_byteop (codes "ci") 1 (0x25 ∷ [])
    ∷ line_of vect_mnemonic (codes "clr") 1 (0x70 ∷ [])
    ∷ line_of vect_mnemonic (codes "cm") 1 (0x8d ∷ [])
    ∷ line_of vect_mnemonic (codes "com") 1 (0x18 ∷ [])
    ∷ line_of vect_wordop (codes "dci") 1 (0x2a ∷ [])
    ∷ line_of vect_mnemonic (codes "di") 1 (0x1a ∷ [])
    ∷ line_of vect_sreg_op (codes "ds") 1 (0x30 ∷ [])
    ∷ line_of vect_mnemonic (codes "ei") 1 (0x1b ∷ [])
    ∷ line_of vect_byteop (codes "in") 1 (0x26 ∷ [])
    ∷ line_of vect_mnemonic (codes "inc") 1 (0x1f ∷ [])
    ∷ line_of vect_ins_outs (codes "ins") 1 (0xa0 ∷ [])
    ∷ line_of vect_wordop (codes "jmp") 1 (0x29 ∷ [])
    ∷ line_of vect_byteop (codes "li") 1 (0x20 ∷ [])
    ∷ directive vect_lis (codes "lis")
    ∷ line_of vect_lisu_lisl (codes "lisl") 1 (0x68 ∷ [])
    ∷ line_of vect_lisu_lisl (codes "lisu") 1 (0x60 ∷ [])
    ∷ line_of vect_mnemonic (codes "lm") 1 (0x16 ∷ [])
    ∷ line_of vect_mnemonic (codes "lnk") 1 (0x19 ∷ [])
    ∷ directive vect_lr (codes "lr")
    ∷ line_of vect_byteop (codes "ni") 1 (0x21 ∷ [])
    ∷ line_of vect_mnemonic (codes "nm") 1 (0x8a ∷ [])
    ∷ line_of vect_mnemonic (codes "nop") 1 (0x2b ∷ [])
    ∷ line_of vect_sreg_op (codes "ns") 1 (0xf0 ∷ [])
    ∷ line_of vect_byteop (codes "oi") 1 (0x22 ∷ [])
    ∷ line_of vect_mnemonic (codes "om") 1 (0x8b ∷ [])
    ∷ line_of vect_byteop (codes "out") 1 (0x27 ∷ [])
    ∷ line_of vect_ins_outs (codes "outs") 1 (0xb0 ∷ [])
    ∷ line_of vect_wordop (codes "pi") 1 (0x28 ∷ [])
    ∷ line_of vect_mnemonic (codes "pk") 1 (0x0c ∷ [])
    ∷ line_of vect_mnemonic (codes "pop") 1 (0x1c ∷ [])
    ∷ line_of vect_sl_sr (codes "sl") 1 (0x13 ∷ [])
    ∷ line_of vect_sl_sr (codes "sr") 1 (0x12 ∷ [])
    ∷ line_of vect_mnemonic (codes "st") 1 (0x17 ∷ [])
    ∷ line_of vect_mnemonic (codes "xdc") 1 (0x2c ∷ [])
    ∷ line_of vect_byteop (codes "xi") 1 (0x23 ∷ [])
    ∷ line_of vect_mnemonic (codes "xm") 1 (0x8c ∷ [])
    ∷ line_of vect_sreg_op (codes "xs") 1 (0xe0 ∷ [])
    ∷ []
