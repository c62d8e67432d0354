-- ===== src/Lib.antt =====
-- The macro assembler DASM: a verification library for the C sources under src/.
--
-- The program reads an assembly text line by line, evaluates expressions over a table of symbols, writes
-- object code, and repeats the pass until no symbol is unresolved. The library models the parts that do this
-- work, each as functions on an explicit state, in the order of the calls of the sources:
--
-- Common      lists, Boolean tests and integers over the native numbers; `Run`, the outcomes of C code:
--             a result, a fault (what the C standard leaves undefined, or a step that reads what an array
--             holds above its top), or the end of the fuel.
-- Long        the type `long`: patterns of 64 bits with the arithmetic that exp.c uses.
-- Asm         src/asm.h: flags, symbols, segments, addressing modes.
-- Util        src/util.c: hash_string, strlower, strupper, strip_whitespace, match_either_case, strlcat, strlcpy.
-- Symbols     src/symbols.c: the table (SHash), find_symbol, create_symbol, programlabel, and the globals that
--             they read and write. Lookup has the laws of the table, Labels those of programlabel.
-- Exp         src/exp.c: Operators (the op_ functions), Machine (Argstack, Opdis and the routines stackarg,
--             evaltop and doop), Literals (pushdec and its like), Scan (pushsymbol and eval), Precedence (the
--             tree of an expression and its value).
-- Output      src/ops.c: generate, closegenerate, genfill and the object file.
-- Conditional src/ops.c: the IF directives and their stack.
-- Origin      src/ops.c: ORG, RORG, REND, ALIGN, SUBROUTINE and HEX.
-- Data        src/ops.c: DC, DV and DS.
-- Assignments src/ops.c: EQU, EQM, SET and SEG.
-- Instructions src/ops.c: v_mnemonic, the instructions of all processors but the F8, and the modes of
--             src/globals.c.
-- F8Operands  src/mnef8.c: the operands of the F8.
-- F8          src/mnef8.c: the handlers of the F8.
-- Mnemonics   src/main.c: the hash table of mnemonics and macros; the tables of src/globals.c and src/mne*.c;
--             src/ops.c: PROCESSOR.
-- Lines       src/main.c: cleanup, parse and findext, from a line to its label, mnemonic and operand.
-- Includes    src/main.c and src/ops.c: the stack of files and macro calls, MAC, ENDM, MEXIT and END.
-- Repeats     src/ops.c: REPEAT and REPEND.
-- Session     src/main.c: the loop over the lines of a pass, which hands each line to its directive.
-- Passes      src/main.c: MainShadow and main, from pass to pass.
-- Errors      src/errors.c: the levels, texts and counters of messages.
-- Ftohex      src/ftohex.c: the conversion to Intel hex, and a loader for it.
-- Tests       every theorem at a concrete state.
--
-- The expression evaluator calls the symbol table (pushsymbol), the directives call both (programlabel, eval),
-- and generate moves the origins that the table hands out for "." and for labels. Session takes a line from
-- Includes, words from Lines, a command from Mnemonics, and runs the handler of Data, Assignments, Instructions, F8,
-- Conditional, Repeats or Includes on its part of the state. Passes takes one pass as a parameter, a
-- function on the globals and the file, and decides what follows it.
--
-- Fuel. The loops on the operator stack run at most as often as there are operators, those of ftohex.c and
-- genfill at most as often as there are bytes, the loop of eval at most as often as the text has bytes.
-- The depth of eval bounds how macros stand in one another; the program leaves this to the C stack, and a
-- macro that names itself has no bound. The loops of v_mnemonic on a mode take at most three rounds, and get
-- five. A line is cleaned up with fuel for 1024 rounds in the tests; a line that inserts no macro argument
-- needs one round for each byte, one that does may need any number. The pass loop has one round more than
-- passes are allowed.
--
-- A char is signed and a long has 64 bits. A flag word is a record of the bits that asm.h names. Signed
-- overflow is taken to wrap around, as the compiled code does; the quotient of the least long by -1 and a
-- shift by 64 or more are faults. Memory never runs out.
--
-- What a file holds is a parameter, as its lines, and so are the text that printf makes of a message and, where
-- the program reads bytes of Gen that no one wrote, those bytes. The directives that only read or write files
-- or print (LIST, TRACE, ERR, ECHO, INCLUDE, INCBIN, INCDIR) are a parameter of Session.
--
-- Not modelled: in src/main.c the options, the listing and the debug output; in src/ops.c the directives named
-- above and the search for files; in src/symbols.c the listings and dumps; src/ftobin.c, src/dalloc.c,
-- and the test programs.
pub mod Common
pub mod Long
pub mod Asm
pub mod Util
pub mod Symbols
pub mod Exp
pub mod Ftohex
pub mod Output
pub mod Conditional
pub mod Origin
pub mod Mnemonics
pub mod F8Operands
pub mod F8
pub mod Lines
pub mod Includes
pub mod Passes
pub mod Data
pub mod Assignments
pub mod Instructions
pub mod Errors
pub mod Repeats
pub mod Session
pub mod Tests
