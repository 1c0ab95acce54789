-- ===== src/Tests/Examples.antt =====
-- The theorems at inputs that meet their hypotheses.
use v4_front.Base.{
  ◌≡◌, ◌≢◌, refl, none, some, [], ◌∷◌, ◌++◌, pos, Bytes, arith, if◌then◌else◌, map, ◌↔◌, Option,
  true, false,
}
use v4_front.Result.{ok, no_fuel, unknown_token}
use v4_front.Buffer.{Buf, no_buf, append_bytes, append_byte, i32_le}
use v4_front.Text.{codes, str_eq_ci, take_token, to_lower}
use v4_front.Context.{V4FrontContext, context_register_word, register_entry, context_find_word}
use v4_front.Context.Laws.{find-register, register-IsValid, IsValid}
use v4_front.Compiler.{Compilation, initial, on_current, view, put, emit}
use v4_front.Text.Blanks.{skip_whitespace_and_comments}
use v4_front.Compiler.Words.{
  handle_literal, handle_constant, last_literal, constant_of, literal_word, new_name, add_word,
  from_i32_le, handle_variable,
}
use v4_front.Compiler.Literals.{
  handle_constant-handle_literal, DefinesConstant, handle_variable-cell,
}
use v4_front.Compiler.Driver.{compile_internal}
use v4_front.Structured.{
  Prog, plain, leave_loop, seq, if_then, if_else, begin_while, do_loop, compile, layout,
}
use v4_front.Structured.Nested.{compile-layout}
use v4_front.Invariant.{IsRaised, IsWithin}
use v4_front.Invariant.Whole.{
  OutputInv, compile_internal-ne-no_fuel, compile_internal-OutputInv, compile_internal-error,
}
use v4_front.DataSpace.{allot, init}
use v4_front.Compiler.Composite.{j, two_over, pieces}
use v4_front.Compiler.Effects.{
  Stacks, Machine, MovesCells, run_pieces, two_over_effect, run_pieces-Effect, run_pieces-j,
}
use v4_front.Text.Equality.{str_eq_ci_iff}
use v4_front.Buffer.Append.{Extends, append_bytes-total}
use v4_front.Platform.{Op, Platform}
use v4_front.Text.Skipping.{Skips, skip_whitespace_and_comments-Skips}
use v4_front.Tests.Runs.{double_text, double_out, run-double, run-unknown}
use v4_front.Tests.{test_platform, test_platform-OpcodesFit, test_platform-NeverRefuses}

-- IF 1 BEGIN DUP WHILE 1- REPEAT ELSE DO I DUP IF LEAVE THEN LOOP THEN, in bytes
abbrev nested : Prog
nested =
    if_else (seq (plain (0 ∷ 1 ∷ 0 ∷ 0 ∷ 0 ∷ [])) (begin_while (plain (2 ∷ [])) (plain (129 ∷ []))))
      (do_loop (seq (plain (8 ∷ 2 ∷ [])) (if_then leave_loop)))

compile-layout_example :
    (b' : Buf) × (compile test_platform 0 nested (record { current = no_buf; control = [] })
      ≡ ok (record { current = b'; control = [] }))
    × (b'.bytes ≡ [] ++ layout test_platform nested)
compile-layout_example =
    compile-layout test_platform 0 nested [] no_buf test_platform-NeverRefuses (omega arith)
      (omega arith) (omega arith) (refl, ((tt, (tt, tt)), (omega arith, (tt, tt))))

compile_internal-ne-no_fuel_example :
    compile_internal test_platform none (some double_text) ≢ no_fuel
compile_internal-ne-no_fuel_example =
    compile_internal-ne-no_fuel test_platform test_platform-OpcodesFit none (some double_text)

compile_internal-OutputInv_example : OutputInv test_platform double_out
compile_internal-OutputInv_example =
    compile_internal-OutputInv test_platform test_platform-OpcodesFit none (some double_text)
      run-double

compile_internal-error_example : IsRaised unknown_token × IsWithin 7 (some 5)
compile_internal-error_example =
    compile_internal-error test_platform test_platform-OpcodesFit none (some (codes "1 foo 2"))
      run-unknown

abbrev two_words : V4FrontContext
two_words = record {
  words =
      record { name = codes "SQUARE"; vm_word_idx = 3 }
      ∷ record { name = codes "cube"; vm_word_idx = 4 }
      ∷ [];
  word_capacity = 16;
}

abbrev two_words_after : V4FrontContext
two_words_after = record {
  words =
      record { name = codes "SQUARE"; vm_word_idx = 3 }
      ∷ record { name = codes "cube"; vm_word_idx = 9 }
      ∷ [];
  word_capacity = 16;
}

register-cube :
    context_register_word test_platform (some two_words) (some (codes "CUBE")) 9
    ≡ (some two_words_after, pos 0)
unfolding context_register_word register_entry
register-cube = refl

find-register_example : context_find_word (some two_words_after) (some (codes "Cube")) ≡ (
    if str_eq_ci (codes "CUBE") (codes "Cube")
    then 9
    else context_find_word (some two_words) (some (codes "Cube")))
find-register_example =
    find-register test_platform two_words (codes "CUBE") (codes "Cube") 9 register-cube

two_words-IsValid : IsValid two_words
unfolding str_eq_ci
two_words-IsValid = record { fits = omega arith; distinct = ((refl, tt), (tt, tt)) }

register-IsValid_example : IsValid two_words_after
register-IsValid_example =
    register-IsValid test_platform two_words (some (codes "CUBE")) 9 two_words-IsValid register-cube

-- The state behind `42`, and behind `42 CONSTANT ANSWER`.
abbrev after_literal : Compilation
after_literal = record initial { main = record { bytes = 0 ∷ 42 ∷ 0 ∷ 0 ∷ 0 ∷ []; cap = 64 } }

abbrev after_constant : Compilation
after_constant = record initial {
  main = record { bytes = []; cap = 64 };
  dict = record { name = codes "ANSWER"; code = 0 ∷ 42 ∷ 0 ∷ 0 ∷ 0 ∷ 81 ∷ [] } ∷ [];
}

literal-42 : handle_literal test_platform 42 initial ≡ ok after_literal
unfolding handle_literal on_current view put emit append_bytes append_byte i32_le
literal-42 = refl

constant-answer :
    handle_constant test_platform 0 (codes " ( ) ANSWER") after_literal ≡ ok (after_constant, [])
unfolding handle_constant last_literal constant_of view put append_bytes append_byte i32_le
    literal_word skip_whitespace_and_comments new_name take_token add_word from_i32_le
constant-answer = refl

handle_constant-handle_literal_example :
    (q : Bytes) × (skip_whitespace_and_comments (codes " ( ) ANSWER") ≡ ok q)
    × ([] ≡ (take_token q).1)
    × DefinesConstant test_platform 42 q initial after_constant
unfolding view
handle_constant-handle_literal_example =
    handle_constant-handle_literal test_platform 0 42 (codes " ( ) ANSWER") initial after_literal
      after_constant [] (omega arith) (omega arith) literal-42 constant-answer

abbrev after_variable : Compilation
after_variable = record initial {
  dict = record { name = codes "X"; code = 0 ∷ 0 ∷ 0 ∷ 1 ∷ 0 ∷ 81 ∷ [] } ∷ [];
  data_space = record { base = 0x10000; here = 0x10004; limit = 0x20000 };
}

variable-x :
    handle_variable test_platform 0 (codes " X 1") initial ≡ ok (after_variable, codes " 1")
unfolding handle_variable append_bytes append_byte i32_le literal_word skip_whitespace_and_comments
    new_name take_token add_word allot init
variable-x = refl

handle_variable-cell_example :
    (q : Bytes) × (skip_whitespace_and_comments (codes " X 1") ≡ ok q)
    × (codes " 1" ≡ (take_token q).1)
    × DefinesConstant test_platform 0x10000 q initial after_variable
    × (after_variable.data_space ≡ record initial.data_space { here = 0x10004 })
unfolding init
handle_variable-cell_example =
    handle_variable-cell test_platform 0 (codes " X 1") initial after_variable (codes " 1")
      (omega arith) (omega arith) variable-x

-- A machine with the six words that move cells.
abbrev move_cells : Op → Stacks → Option Stacks
move_cells Op.dup (x ∷ d, r) = some (x ∷ x ∷ d, r)
move_cells Op.drop (x ∷ d, r) = some (d, r)
move_cells Op.swap (y ∷ x ∷ d, r) = some (x ∷ y ∷ d, r)
move_cells Op.over (y ∷ x ∷ d, r) = some (x ∷ y ∷ x ∷ d, r)
move_cells Op.tor (x ∷ d, r) = some (d, x ∷ r)
move_cells Op.fromr (d, x ∷ r) = some (x ∷ d, r)
move_cells _ _ = none

abbrev cell_machine : Machine
cell_machine = record { step = move_cells }

cell_machine-MovesCells : MovesCells cell_machine
cell_machine-MovesCells = record {
  dup = λ x d r. refl;
  drop = λ x d r. refl;
  swap = λ x y d r. refl;
  over = λ x y d r. refl;
  tor = λ x d r. refl;
  fromr = λ x d r. refl;
}

run_pieces-Effect_example :
    run_pieces cell_machine (pieces two_over) (4 ∷ 3 ∷ 2 ∷ 1 ∷ [], 9 ∷ [])
    ≡ some (2 ∷ 1 ∷ 4 ∷ 3 ∷ 2 ∷ 1 ∷ [], 9 ∷ [])
run_pieces-Effect_example =
    run_pieces-Effect cell_machine cell_machine-MovesCells two_over (4 ∷ 3 ∷ 2 ∷ 1 ∷ [])
      (2 ∷ 1 ∷ 4 ∷ 3 ∷ 2 ∷ 1 ∷ []) (9 ∷ []) two_over_effect

run_pieces-j_example :
    run_pieces cell_machine (pieces j) ([], 0 ∷ 5 ∷ 2 ∷ 8 ∷ []) ≡ some (0 ∷ [], 5 ∷ 2 ∷ 2 ∷ 8 ∷ [])
run_pieces-j_example = run_pieces-j cell_machine cell_machine-MovesCells 0 5 2 [] (8 ∷ [])

str_eq_ci_iff_example :
    (str_eq_ci (codes "Dup") (codes "dUP") ≡ true)
    ↔ (map to_lower (codes "Dup") ≡ map to_lower (codes "dUP"))
str_eq_ci_iff_example = str_eq_ci_iff (codes "Dup") (codes "dUP")

append_bytes-total_example :
    (b' : Buf) × (append_bytes test_platform (1 ∷ 2 ∷ []) no_buf ≡ ok b')
    × Extends no_buf (1 ∷ 2 ∷ []) b'
append_bytes-total_example =
    append_bytes-total test_platform (1 ∷ 2 ∷ []) no_buf test_platform-NeverRefuses (omega arith)
      (omega arith)

skip_whitespace_and_comments-Skips_example :
    (skip_whitespace_and_comments (codes " ( note ) DUP") ≡ ok (codes "DUP"))
    ↔ Skips (codes " ( note ) DUP") (codes "DUP")
skip_whitespace_and_comments-Skips_example =
    skip_whitespace_and_comments-Skips (codes " ( note ) DUP") (codes "DUP")

-- The test platform without memory.
abbrev no_memory : Platform
no_memory = record test_platform { alloc = λ n. false }
