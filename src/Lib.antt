-- ===== src/Lib.antt =====
-- The Forth compiler of V4-front, from source text to bytecode for the V4 machine.
--
-- The compiler is one pass over the text. `compile_internal` of src/compile.cpp skips blanks and
-- comments, takes a token, and either opens or closes a control structure, defines a word, or puts
-- bytes behind the code; a jump forward gets a placeholder, and the word that closes the structure
-- writes the distance into it. A compiler context keeps the names of earlier compilations.
--
-- Files, and the code that each is about:
--   Base, Base/Lists, Base/Every, Base/Tests: shared helpers, no code of the repository
--   Result: include/v4front/errors.def, and the monad of the handlers
--   Platform: the opcodes of the V4 engine and the allocator, both parameters
--   Buffer: append_byte, append_i16_le, append_i32_le, backpatch_i16_le (src/compile.cpp); the
--     proofs are in Buffer/Append and Buffer/Patch
--   Text, Text/Integer, Text/Blanks: str_eq_ci, the token loop, try_parse_int,
--     skip_whitespace_and_comments; Text/Equality has the proofs on names, Text/Skipping the grammar
--     of blanks and comments
--   DataSpace: the struct of that name
--   Context: V4FrontContext and v4front_context_*; Context/Entries, Context/Laws and
--     Context/Sessions have the proofs
--   Compiler: ControlFrame, WordDefEntry and the locals of compile_internal
--   Compiler/Branch, Compiler/Counted: the control words; Compiler/Emission has the lemmas on emitting
--   Compiler/Composite, Compiler/Opcodes, Compiler/Locals, Compiler/Words: the other tokens;
--     Compiler/Literals has the proofs on CONSTANT and VARIABLE, Compiler/Effects those on stacks
--   Compiler/Dispatch, Compiler/Driver: the chain of comparisons, the loop and the end of
--     compile_internal
--   Structured: programs as trees, compiled by the handlers and laid out by nesting; the proofs are
--     in the modules below it, and Structured/Nested has the theorem on whole programs
--   Source: texts of such programs, with definitions, variables and constants; the modules
--     below it have the proofs from the text to the output
--   Machine: the machine that runs the code, a parameter; Machine/Opcodes has what is said of its
--     opcodes, Machine/Meaning what programs mean, Machine/Jumping, Machine/Branches,
--     Machine/Counted, Machine/Leaving and Machine/Execution the run of a layout, Machine/Texts and
--     Machine/Calls that of a text and of its words, Machine/Rounds and Machine/Composites two parts
--     of the compiler
--   Errors: the values and messages of errors.def, include/v4front/errors.hpp, write_error_msg;
--     Errors/Codes has the proof that an error's code is negative
--   Report, Report/Format: V4FrontError, calculate_line_column, extract_error_token,
--     extract_context, fill_error_info, v4front_format_error; the proofs are in Report/Lines,
--     Report/Around, Report/Format/Room and Report/Format/Layout
--   Api: v4front_compile and the four functions like it; Api/Outputs has the proofs on what an error
--     leaves in the output buffer, Api/Reports those on what the caller is told
--   Disasm, Disasm/Output: src/disasm.cpp and its text stream; the proofs are in Disasm/Steps,
--     Disasm/Lines, Disasm/Jumps and Disasm/Head
--   BytecodeFile: src/bytecode_io.cpp; BytecodeFile/RoundTrip has the proofs
--   Memory: cleanup_compile_state, v4front_free, v4front_context_destroy and the end of
--     compile_internal, on a heap of blocks; Memory/Wrapper: include/v4front/compile.hpp. The proofs
--     are in Memory/Owned, Memory/Release, Memory/Transfer, Memory/EndParts,
--     Memory/Agreement and Memory/Wrapper/Lifetime
--   Invariant and its children: what each outcome satisfies, carried from the buffers to whole compilations
--   Tests: an instruction set, runs at fixed inputs, and examples of the theorems
--
-- Representation: a pointer into the text is the list of the bytes from there to the NUL, and the
-- position of an error is the number of bytes behind it. A buffer is its bytes and its capacity. An
-- `int`, `int16_t` or `uint32_t` is its bit pattern, wrapped by `%` where the code can wrap. A
-- memory access outside an allocation is the outcome `undefined`.
--
-- Fuel: the token loop may run as many rounds as the text has bytes. A round that goes on has moved
-- the pointer, so that is enough. The loop of the disassembler may run as many rounds as the code has
-- bytes, and each takes one at least. Printing a number n takes n + 1 rounds at most, since each
-- divides by the base. All other loops are recursion on lists and counts.
--
-- The machine is a step function with laws: JZ, JMP, CALL and the opcodes that the control words and
-- the composite words emit do what the documents say, on stacks without a bound. A run is a sequence
-- of steps, so a program whose loop never ends has no run to its end, and the theorems on runs say
-- nothing of it.
--
-- Left out of the texts of Source: CONSTANT without an integer right before it.
--
-- Not modelled: the blocks that the token loop allocates, and the releases on its error returns;
-- include/v4front/prim_table.hpp, which the compiler does not use. The heap never gives an address
-- out twice. The opcodes come from a header of the V4 engine, which is not part of the repository, so
-- their bytes and the disassembler's table are parameters; that each opcode fits a byte is a
-- hypothesis where it matters. Whether a request for memory succeeds is a function of its size. A file
-- system is whether a file opens, how many bytes `fwrite` takes, and how many of them are in the file
-- after `fclose`. Counters of lines and columns are not cut to 32 bits: a text has fewer than 2 ^ 31
-- bytes. A context has fewer than 2 ^ 30 words, so that its capacity does not overflow.
pub mod Base
pub mod Result
pub mod Platform
pub mod Buffer
pub mod Text
pub mod DataSpace
pub mod Context
pub mod Errors
pub mod Report
pub mod Compiler
pub mod Api
pub mod Disasm
pub mod BytecodeFile
pub mod Structured
pub mod Source
pub mod Memory
pub mod Machine
pub mod Invariant
mod Tests
