-- ===== src/Tests/Runs.antt =====
-- Runs of the compiler at fixed inputs.
use v4_front.Base.{◌≡◌, refl, none, some, [], ◌∷◌, Bytes}
use v4_front.Result.{Result, ok, err, undefined, unknown_token, unterminated_comment, unclosed_if}
use v4_front.Text.{codes, take_token}
use v4_front.Text.Integer.{try_parse_int}
use v4_front.Buffer.{append_bytes, append_byte, i16_le, i32_le, offset_i16, backpatch_i16_le}
use v4_front.Compiler.{emit}
use v4_front.Compiler.Branch.{handle_if, handle_then, handle_begin, handle_while, handle_repeat}
use v4_front.Compiler.Words.{handle_literal, handle_call, handle_colon_start, handle_semicolon_end}
use v4_front.Compiler.Opcodes.{lookup_simple_opcode}
use v4_front.Compiler.Dispatch.{round, match_token, keyword_table, composite_table, find_word}
use v4_front.Compiler.Driver.{V4FrontBuf, compile_internal}
use v4_front.Tests.{test_platform}

-- The result of a compilation without a context.
abbrev pub run : Bytes → Result V4FrontBuf
run source = compile_internal test_platform none (some source)

abbrev pub double_text : Bytes
double_text = codes ": DOUBLE DUP + ; 5 Double"

abbrev pub double_out : V4FrontBuf
double_out = record {
  words = record { name = codes "DOUBLE"; code = 2 ∷ 16 ∷ 81 ∷ [] } ∷ [];
  code = 0 ∷ 5 ∷ 0 ∷ 0 ∷ 0 ∷ 83 ∷ 0 ∷ 0 ∷ 81 ∷ [];
}

-- A definition, and its call under another case.
pub run-double : run double_text ≡ ok double_out
unfolding compile_internal round match_token keyword_table take_token composite_table
    lookup_simple_opcode find_word try_parse_int emit append_bytes append_byte i16_le i32_le
    offset_i16 backpatch_i16_le handle_literal handle_call handle_colon_start handle_semicolon_end
    handle_if handle_then handle_begin handle_while handle_repeat
run-double = refl

-- REPEAT at the end: no RET, and the JZ of WHILE jumps to the end.
run-while :
    run (codes "BEGIN DUP WHILE 1- REPEAT")
    ≡ ok (record { words = []; code = 2 ∷ 80 ∷ 4 ∷ 0 ∷ 129 ∷ 82 ∷ 248 ∷ 255 ∷ [] })
unfolding compile_internal round match_token keyword_table take_token composite_table
    lookup_simple_opcode find_word try_parse_int emit append_bytes append_byte i16_le i32_le
    offset_i16 backpatch_i16_le handle_literal handle_call handle_colon_start handle_semicolon_end
    handle_if handle_then handle_begin handle_while handle_repeat
run-while = refl

-- The IF of the main code, closed inside a definition.
run-across : run (codes "IF : F THEN ;") ≡ undefined
unfolding compile_internal round match_token keyword_table take_token composite_table
    lookup_simple_opcode find_word try_parse_int emit append_bytes append_byte i16_le i32_le
    offset_i16 backpatch_i16_le handle_literal handle_call handle_colon_start handle_semicolon_end
    handle_if handle_then handle_begin handle_while handle_repeat
run-across = refl

pub run-unknown : run (codes "1 foo 2") ≡ err unknown_token (some 5)
unfolding compile_internal round match_token keyword_table take_token composite_table
    lookup_simple_opcode find_word try_parse_int emit append_bytes append_byte i16_le i32_le
    offset_i16 backpatch_i16_le handle_literal handle_call handle_colon_start handle_semicolon_end
    handle_if handle_then handle_begin handle_while handle_repeat
run-unknown = refl

run-comment : run (codes "1 ( never") ≡ err unterminated_comment (some 1)
unfolding compile_internal round match_token keyword_table take_token composite_table
    lookup_simple_opcode find_word try_parse_int emit append_bytes append_byte i16_le i32_le
    offset_i16 backpatch_i16_le handle_literal handle_call handle_colon_start handle_semicolon_end
    handle_if handle_then handle_begin handle_while handle_repeat
run-comment = refl

run-open : run (codes "1 IF 2") ≡ err unclosed_if (some 0)
unfolding compile_internal round match_token keyword_table take_token composite_table
    lookup_simple_opcode find_word try_parse_int emit append_bytes append_byte i16_le i32_le
    offset_i16 backpatch_i16_le handle_literal handle_call handle_colon_start handle_semicolon_end
    handle_if handle_then handle_begin handle_while handle_repeat
run-open = refl
