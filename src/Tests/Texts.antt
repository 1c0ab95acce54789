-- ===== src/Tests/Texts.antt =====
-- A text with a constant, a variable, a definition, a comment, a local and a conditional, read token by token.
use v4_front.Base.{◌≡◌, refl, ℕ, List, ◌∷◌, ◌++◌, [], true, false, Bytes, some, none, arith}
use v4_front.Result.{ok}
use v4_front.DataSpace.{data_space_base}
use v4_front.Source.{
  Item, cell_word, variable_cell, cell, constant_value, value, Token, call, integer, opcode, Reads,
  token, read_local, both, read_if_else, code, definition, word_of, words_of, main_of, Texts,
  finished, main_code, defined,
}
use v4_front.Text.{codes, take_token, str_eq_ci}
use v4_front.Text.Integer.{try_parse_int}
use v4_front.Text.Blanks.{skip_whitespace_and_comments}
use v4_front.Text.Skipping.{skip_whitespace_and_comments-Skips}
use v4_front.Buffer.{i16_le, i32_le}
use v4_front.Compiler.{WordDefEntry}
use v4_front.Compiler.Opcodes.{lookup_simple_opcode}
use v4_front.Compiler.Words.{is_defined}
use v4_front.Compiler.Dispatch.{keyword_table, composite_table, match_token, find_word}
use v4_front.Compiler.Driver.{compile_internal}
use v4_front.Platform.{Op}
use v4_front.Structured.{Prog, plain, seq, if_else, layout_with, layout}
use v4_front.Source.Whole.{ended, compile_internal-text}
use v4_front.Tests.{test_platform, test_platform-NeverRefuses}

-- The next token, found by a run.
pub next-Token :
    {p q t r : Bytes} {x : ℕ}
    → skip_whitespace_and_comments p ≡ ok (x ∷ q)
    → take_token (x ∷ q) ≡ (t, r)
    → Token p t r
next-Token {p} {q} {x = x} e is = (x, q, (skip_whitespace_and_comments-Skips p (x ∷ q)).0 e, is)

abbrev square_main : Bytes
square_main = codes "\n3 sq IF Sq ELSE ( no ) 0 THEN"

abbrev square_text : Bytes
square_text = codes "5 Constant FIVE Variable X : SQ L>! 2 DUP * ; \\ twice" ++ square_main

-- L>! 2 DUP *
abbrev square : Prog
square =
    seq (plain (test_platform.op_byte Op.ltee ∷ 2 ∷ [])) (seq (plain (2 ∷ [])) (plain (18 ∷ [])))

-- CALL 2
abbrev call_square : Bytes
call_square = 83 ∷ 2 ∷ 0 ∷ []

-- 3 sq IF Sq ELSE 0 THEN
abbrev main : Prog
main =
    seq (plain (0 ∷ 3 ∷ 0 ∷ 0 ∷ 0 ∷ []))
      (seq (plain call_square) (if_else (plain call_square) (plain (0 ∷ 0 ∷ 0 ∷ 0 ∷ 0 ∷ []))))

abbrev cell_words : List WordDefEntry
cell_words =
    cell_word test_platform (codes "FIVE") 5
    ∷ cell_word test_platform (codes "X") data_space_base
    ∷ []

abbrev square_words : List WordDefEntry
square_words =
    cell_word test_platform (codes "FIVE") 5
    ∷ cell_word test_platform (codes "X") data_space_base
    ∷ word_of test_platform (codes "SQ") square
    ∷ []

abbrev square_items : List Item
square_items =
    constant_value (codes "FIVE") 5
    ∷ variable_cell (codes "X")
    ∷ definition (codes "SQ") square
    ∷ code main
    ∷ []

abbrev behind_name : Bytes
behind_name = codes " L>! 2 DUP * ; \\ twice" ++ square_main

abbrev behind_body : Bytes
behind_body = codes " ; \\ twice" ++ square_main

abbrev behind_definition : Bytes
behind_definition = codes " \\ twice" ++ square_main

square-Reads : Reads test_platform none true cell_words square behind_name behind_body
unfolding skip_whitespace_and_comments take_token match_token find_word try_parse_int
    lookup_simple_opcode keyword_table composite_table
square-Reads =
    both (read_local _ 2 (_, next-Token refl refl, refl) (next-Token refl refl) refl (omega arith))
      (both (token _ (next-Token refl refl) (opcode Op.dup refl refl refl refl refl))
        (token _ (next-Token refl refl) (opcode Op.mul refl refl refl refl refl)))

main-Reads : Reads test_platform none false square_words main behind_definition []
unfolding skip_whitespace_and_comments take_token match_token find_word try_parse_int
    lookup_simple_opcode keyword_table composite_table i32_le i16_le str_eq_ci
main-Reads = both (token _ (next-Token refl refl) (integer 3 refl refl refl)) (
    both (token _ (next-Token refl refl) (call 2 refl refl)) (
      read_if_else (_, next-Token refl refl, refl)
        (token _ (next-Token refl refl) (call 2 refl refl)) (_, next-Token refl refl, refl)
        (token _ (next-Token refl refl) (integer 0 refl refl refl))
        (_, next-Token refl refl, refl)))

square-Texts : Texts test_platform none [] data_space_base square_items square_text
unfolding skip_whitespace_and_comments take_token match_token keyword_table is_defined find_word
    try_parse_int
square-Texts =
    value {q = codes " Constant FIVE Variable X : SQ" ++ behind_name}
      {r = codes " FIVE Variable X : SQ" ++ behind_name}
      {s = codes " Variable X : SQ" ++ behind_name} (codes "FIVE") 5 (next-Token refl refl) refl
      refl refl (_, next-Token refl refl, refl) (next-Token refl refl) (omega arith) refl
      (omega arith)
      (cell {r = codes " : SQ" ++ behind_name} (codes "X") (_, next-Token refl refl, refl)
        (next-Token refl refl) (omega arith) refl (omega arith)
        (defined {q = codes " SQ" ++ behind_name} {r = behind_name} {s = behind_body}
          {t = behind_definition} (codes "SQ") (_, next-Token refl refl, refl)
          (next-Token refl refl) (omega arith) refl (omega arith) square-Reads
          (_, next-Token refl refl, refl)
          (main_code main-Reads (finished ((skip_whitespace_and_comments-Skips [] []).0 refl)))))

compile_internal-text_example :
    compile_internal test_platform none (some square_text)
    ≡ ok (record {
      words = words_of test_platform data_space_base square_items;
      code = ended test_platform (main_of test_platform square_items);
    })
unfolding layout layout_with i16_le
compile_internal-text_example =
    compile_internal-text test_platform none square_text square_items test_platform-NeverRefuses
      square-Texts
      (
        tt,
        (
          tt,
          (
            (omega arith, omega arith, (refl, (tt, (tt, tt)))),
            ((omega arith, (refl, (tt, (tt, (tt, tt))))), tt),
          ),
        ),
      )
      (omega arith)
