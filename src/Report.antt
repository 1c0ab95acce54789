-- ===== src/Report.antt =====
-- `V4FrontError` of include/v4front/compile.h and the helpers of src/compile.cpp that fill it. A
-- pointer into `source` is its distance from the start; `none` is a null pointer.
pub mod Lines
pub mod Around
pub mod Format
use v4_front.Base.{
  ℤ, pos, negsuc, ℕ, zero, suc, ◌+◌, ◌-◌, Bool, true, false, not, List, [], ◌∷◌, Option, none, some,
  Bytes, length, take, drop, get_elem?, ltb, leb, ◌==◌, if◌then◌else◌,
}
use v4_front.Result.{FrontErr}
use v4_front.Text.{is_space}
use v4_front.Errors.{front_err_to_int, message, clip}

pub record V4FrontError : Type 0 where
  pub code : ℤ
  pub message : Bytes
  pub position : ℤ
  pub line : ℤ
  pub column : ℤ
  pub token : Bytes
  pub context : Bytes

abbrev pub minus_one : ℤ
minus_one = negsuc 0

-- The body of the `for` loop over the bytes before the position.
abbrev pub advance_line_column : ℕ → ℕ × ℕ → ℕ × ℕ
advance_line_column c (line, column) = if c == b'\n' then (line + 1, 1) else (line, column + 1)

unfoldable pub count_line_column : Bytes → ℕ × ℕ → ℕ × ℕ
count_line_column [] at = at
count_line_column (c ∷ cs) at = count_line_column cs (advance_line_column c at)

-- `(line, column)` for a source and a position that are not null.
unfoldable pub calculate_line_column : Bytes → ℕ → ℕ × ℕ
unfolding count_line_column
calculate_line_column source error_pos = count_line_column (take error_pos source) (1, 1)

-- `while (start > source && !stop(*(start - 1))) start--`
unfoldable pub scan_back : (ℕ → Bool) → Bytes → ℕ → ℕ
scan_back stop source zero = zero
scan_back stop source (suc i) =
    let before = scan_back stop source i in
    elim (get_elem? source i) [ none ↦ suc i | some c ↦ if stop c then suc i else before ]

-- `while (*end && !stop(*end)) end++`: the bytes passed over.
unfoldable pub run_of : (ℕ → Bool) → Bytes → Bytes
run_of stop [] = []
run_of stop (c ∷ cs) = let rest = run_of stop cs in if stop c then [] else c ∷ rest

-- The bytes from the one position to the other.
unfoldable pub around : (ℕ → Bool) → Bytes → ℕ → Bytes
unfolding scan_back run_of
around stop source error_pos =
    let start = scan_back stop source error_pos in
    let end = error_pos + length (run_of stop (drop error_pos source)) in
    take (end - start) (drop start source)

unfoldable pub extract_error_token : Bytes → ℕ → ℕ → Bytes
unfolding around is_space
extract_error_token source error_pos token_cap = clip token_cap (around is_space source error_pos)

abbrev pub is_newline : ℕ → Bool
is_newline c = c == b'\n'

unfoldable pub extract_context : Bytes → ℕ → ℕ → Bytes
unfolding around
extract_context source error_pos context_cap = clip context_cap (around is_newline source error_pos)

-- The fields without a position.
abbrev pub no_position : ℤ → Bytes → V4FrontError
no_position code msg = record {
  code = code;
  message = msg;
  position = minus_one;
  line = minus_one;
  column = minus_one;
  token = [];
  context = [];
}

unfoldable pub fill_error_info : Option Bytes → Option ℕ → FrontErr → V4FrontError
unfolding front_err_to_int message calculate_line_column extract_error_token extract_context
fill_error_info (some source) (some error_pos) code =
    let (line, column) = calculate_line_column source error_pos in
    record {
      code = front_err_to_int code;
      message = clip 256 (v4_front.Errors.message code);
      position = pos error_pos;
      line = pos line;
      column = pos column;
      token = extract_error_token source error_pos 64;
      context = extract_context source error_pos 128;
    }
fill_error_info _ _ code =
    no_position (front_err_to_int code) (clip 256 (v4_front.Errors.message code))
