-- ===== src/Tests/Machine.antt =====
-- A text with a loop, run on the machine.
use v4_front.Base.{
  ◌≡◌, refl, ℕ, zero, suc, ◌^◌, ◌<◌, List, ◌∷◌, [], Bytes, some, none, arith, length,
}
use v4_front.Result.{ok}
use v4_front.DataSpace.{data_space_base}
use v4_front.Text.{codes, take_token}
use v4_front.Text.Integer.{try_parse_int}
use v4_front.Text.Blanks.{skip_whitespace_and_comments}
use v4_front.Text.Skipping.{skip_whitespace_and_comments-Skips}
use v4_front.Buffer.{i16_le, i32_le}
use v4_front.Compiler.Opcodes.{lookup_simple_opcode}
use v4_front.Compiler.Dispatch.{keyword_table, composite_table, match_token, find_word}
use v4_front.Compiler.Driver.{V4FrontBuf, compile_internal}
use v4_front.Platform.{Op}
use v4_front.Structured.{Prog, plain, leave_loop, seq, begin_while, do_loop, layout_with, layout}
use v4_front.Source.{
  integer, opcode, token, both, read_begin_while, read_do_loop, read_leave, Item, code, main_of,
  Texts, finished, main_code,
}
use v4_front.Machine.{Reaches, Does}
use v4_front.Machine.Meaning.{
  Means, plainly, in_turn, while_false, while_true, counted, left, leave_here,
}
use v4_front.Machine.Texts.{nothing_left, runs, compile_internal-Reaches}
use v4_front.Tests.{test_platform, test_platform-NeverRefuses}
use v4_front.Tests.Texts.{next-Token}
use v4_front.Tests.Vm.{test_vm, test_vm-Jumps, test_vm-Opcodes, dec-Does}

three-Does : Does test_vm (0 ∷ 3 ∷ 0 ∷ 0 ∷ 0 ∷ []) ([], []) (3 ∷ [], [])
unfolding i32_le
three-Does = test_vm-Opcodes.lit 3 [] [] (omega arith)

-- BEGIN DUP WHILE 1- REPEAT
abbrev count_down : Prog
count_down = begin_while (plain (2 ∷ [])) (plain (129 ∷ []))

count_down-Means : (x : ℕ) → x < 2 ^ 31 → Means test_vm count_down (x ∷ [], []) (0 ∷ [], [])
count_down-Means zero small = while_false (plainly (2 ∷ []) (test_vm-Opcodes.dup 0 [] []))
count_down-Means (suc x) small =
    while_true x (plainly (2 ∷ []) (test_vm-Opcodes.dup (suc x) [] []))
      (plainly (129 ∷ []) (dec-Does x [] [] (omega arith))) (count_down-Means x (omega arith))

abbrev count_items : List Item
count_items =
    code (seq (plain (0 ∷ 3 ∷ 0 ∷ 0 ∷ 0 ∷ [])) count_down)
    ∷ code (
        seq (plain (0 ∷ 10 ∷ 0 ∷ 0 ∷ 0 ∷ []))
          (seq (plain (0 ∷ 5 ∷ 0 ∷ 0 ∷ 0 ∷ [])) (do_loop leave_loop)))
    ∷ []

abbrev count_text : Bytes
count_text = codes "3 BEGIN DUP WHILE 1- ( less ) REPEAT 10 5 DO LEAVE LOOP"

count-Texts : Texts test_platform none [] data_space_base count_items count_text
unfolding skip_whitespace_and_comments take_token match_token find_word try_parse_int
    lookup_simple_opcode keyword_table composite_table i32_le
count-Texts =
    main_code
      (both (token _ (next-Token refl refl) (integer 3 refl refl refl)) (
        read_begin_while (_, next-Token refl refl, refl)
          (token _ (next-Token refl refl) (opcode Op.dup refl refl refl refl refl))
          (_, next-Token refl refl, refl)
          (token _ (next-Token refl refl) (opcode Op.dec refl refl refl refl refl))
          (_, next-Token refl refl, refl)))
      (main_code
        (both (token _ (next-Token refl refl) (integer 10 refl refl refl)) (
          both (token _ (next-Token refl refl) (integer 5 refl refl refl)) (
            read_do_loop (_, next-Token refl refl, refl)
              (read_leave (_, next-Token refl refl, refl)) (_, next-Token refl refl, refl))))
        (finished ((skip_whitespace_and_comments-Skips [] []).0 refl)))

compile_internal-Reaches_example :
    (out : V4FrontBuf) × (compile_internal test_platform none (some count_text) ≡ ok out)
    × Reaches test_vm out.code
        (0, ([], []))
        (length (main_of test_platform count_items), (0 ∷ [], []))
unfolding layout layout_with i16_le i32_le
compile_internal-Reaches_example =
    compile_internal-Reaches test_platform test_vm none count_text count_items ([], []) (0 ∷ [], [])
      test_platform-NeverRefuses test_vm-Jumps test_vm-Opcodes count-Texts
      (
        (omega arith, (refl, (tt, (tt, tt)))),
        ((omega arith, (refl, (tt, (tt, (omega arith, tt))))), tt),
      )
      (omega arith, (omega arith, tt)) (omega arith)
      (runs (in_turn (plainly _ three-Does) (count_down-Means 3 (omega arith))) (
        runs
          (in_turn (plainly _ (test_vm-Opcodes.lit 10 (0 ∷ []) [] (omega arith))) (
            in_turn (plainly _ (test_vm-Opcodes.lit 5 (10 ∷ 0 ∷ []) [] (omega arith)))
              (counted (left leave_here))))
          nothing_left))
