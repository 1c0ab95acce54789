-- ===== src/Tests/Reporting.antt =====
-- The theorems on errors, their reports and the sessions of a context, at inputs that meet their
-- hypotheses.
use v4_front.Base.{
  ℤ, pos, negsuc, ℕ, suc, ◌+◌, ◌≤◌, ◌<◌, ◌≡◌, ap, refl, true, false, none, some, [], ◌∷◌, ◌++◌, ◌∙◌,
  inl, inr, Bytes, Option, arith, length, take, List,
}
use v4_front.Result.{ok}
use v4_front.Platform.{Platform}
use v4_front.Text.{codes, is_space}
use v4_front.Context.{
  V4FrontContext, context_create, context_register_word, register_entry, update_entry, add_entry,
  grow,
}
use v4_front.Context.Sessions.{
  Event, Session, names_in, apply_all, Session-find, reachable-IsValid, registered, refused,
  register, fail, start, call,
}
use v4_front.Context.Laws.{IsValid}
use v4_front.Errors.{message, front_err_to_int}
use v4_front.Report.{
  extract_error_token, extract_context, fill_error_info, V4FrontError, calculate_line_column,
  around,
}
use v4_front.Report.Lines.{newlines, place_of, calculate_line_column-place}
use v4_front.Report.Around.{Inside, EndsStopped, StartsStopped, around-IsRun}
use v4_front.Report.Format.{format_error, headline}
use v4_front.Report.Format.Layout.{full_text, format_error-full_text}
use v4_front.Report.Format.Room.{format_error-lt}
use v4_front.Api.{Called, v4front_compile_with_context_ex, respond, offset_of}
use v4_front.Api.Outputs.{compile_internal-Left}
use v4_front.Api.Reports.{Answered, compile_ex-Answered}
use v4_front.Compiler.Driver.{cleared, left_behind}
use v4_front.Tests.{test_platform}
use v4_front.Tests.Runs.{run-unknown}

abbrev two_lines : Bytes
two_lines = codes "1 2" ++ (b'\n' ∷ codes "  foo bar")

calculate_line_column-place_example :
    (line : ℕ) × (column : ℕ) × (calculate_line_column two_lines 7 ≡ (suc line, suc column))
    × (newlines (take 7 two_lines) ≡ line)
    × (place_of line column two_lines ≡ 7)
calculate_line_column-place_example = calculate_line_column-place two_lines 7 (omega arith)

around-IsRun_example :
    (pre : Bytes) × (post : Bytes) × (two_lines ≡ pre ++ (around is_space two_lines 7 ++ post))
    × Inside is_space (around is_space two_lines 7)
    × EndsStopped is_space pre
    × StartsStopped is_space post
    × (length pre ≤ 7)
    × (7 ≤ length pre + length (around is_space two_lines 7))
around-IsRun_example = around-IsRun is_space two_lines 7 (omega arith)

line_column : calculate_line_column two_lines 7 ≡ (2, 4)
unfolding calculate_line_column
line_column = refl

token_there : around is_space two_lines 7 ≡ codes "foo"
unfolding around is_space
token_there = refl

abbrev foo_error : V4FrontError
foo_error = record {
  code = negsuc 0;
  message = codes "unknown token";
  position = pos 6;
  line = pos 2;
  column = pos 3;
  token = codes "foo";
  context = codes "  foo bar";
}

abbrev foo_report : Bytes
foo_report =
    codes "Error: unknown token at line 2, column 3"
    ++ (b'\n' ∷ (codes "    foo bar" ++ (b'\n' ∷ (codes "    ^~~" ++ (b'\n' ∷ [])))))

format_foo : format_error foo_error (some two_lines) 100 ≡ some foo_report
unfolding format_error v4_front.Base.decimal
format_foo = refl

format_error-lt_example : length foo_report < 100
format_error-lt_example = format_error-lt foo_error (some two_lines) 100 format_foo

format_error-full_text_example :
    format_error foo_error (some two_lines) 100 ≡ some (full_text foo_error (some two_lines))
unfolding headline v4_front.Base.decimal
format_error-full_text_example = format_error-full_text foo_error (some two_lines) 100 (omega arith)

abbrev foo_called : Called V4FrontError
foo_called = record {
  ret = negsuc 0;
  output = some cleared;
  report = some (record {
    code = negsuc 0;
    message = codes "unknown token";
    position = pos 2;
    line = pos 1;
    column = pos 3;
    token = codes "foo";
    context = codes "1 foo 2";
  });
}

foo_left : left_behind test_platform none (some (codes "1 foo 2")) ≡ cleared
foo_left = elim (compile_internal-Left test_platform none (some (codes "1 foo 2")) run-unknown) [
  | inl is ↦ is
  | inr (memory, _) ↦ cc
]

call_foo :
    v4front_compile_with_context_ex test_platform none (some (codes "1 foo 2")) true true
    ≡ ok foo_called
unfolding v4front_compile_with_context_ex fill_error_info around calculate_line_column is_space
    message front_err_to_int extract_error_token extract_context
call_foo =
    let source = some (codes "1 foo 2") in
    ap
      (respond (λ e at. some (fill_error_info source (offset_of source at) e))
        (left_behind test_platform none source))
      run-unknown
    ∙ ap (λ left. ok (record foo_called { output = some left })) foo_left

compile_ex-Answered_example : Answered (some (codes "1 foo 2")) foo_called
compile_ex-Answered_example =
    compile_ex-Answered test_platform none (some (codes "1 foo 2")) call_foo

-- DUP2 is registered, an allocator without memory refuses CUBE, and `dup2` is registered again.
abbrev no_memory : Platform
no_memory = record test_platform { alloc = λ n. false }

abbrev one_word : ℕ → V4FrontContext
one_word idx = record {
  words = record { name = codes "DUP2"; vm_word_idx = idx } ∷ [];
  word_capacity = 16;
}

first_call :
    context_register_word test_platform (some context_create) (some (codes "DUP2")) 1
    ≡ (some (one_word 1), pos 0)
unfolding context_register_word register_entry update_entry add_entry grow context_create
first_call = refl

second_call :
    context_register_word no_memory (some (one_word 1)) (some (codes "CUBE")) 2
    ≡ (some (one_word 1), negsuc 2)
unfolding context_register_word register_entry update_entry add_entry grow front_err_to_int
second_call = refl

third_call :
    context_register_word test_platform (some (one_word 1)) (some (codes "dup2")) 7
    ≡ (some (one_word 7), pos 0)
unfolding context_register_word register_entry update_entry
third_call = refl

abbrev three_events : List Event
three_events = registered (codes "DUP2") 1 ∷ refused ∷ registered (codes "dup2") 7 ∷ []

three_calls : Session context_create three_events (one_word 7)
three_calls = call (register test_platform (codes "DUP2") 1 first_call) (
    call (fail no_memory (some (codes "CUBE")) 2 (negsuc 2) second_call (λ e. cc))
      (call (register test_platform (codes "dup2") 7 third_call) start))

Session-find_example :
    names_in (one_word 7) (codes "Dup2")
    ≡ apply_all three_events (names_in context_create) (codes "Dup2")
Session-find_example = Session-find (codes "Dup2") three_calls

reachable-IsValid_example : IsValid (one_word 7)
reachable-IsValid_example = reachable-IsValid three_calls
