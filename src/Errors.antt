-- ===== src/Errors.antt =====
-- `FrontErr` as an `int` and as a message: src/include/v4front/errors.def through errors.hpp, and
-- `v4front_err_str` and `write_error_msg` of src/compile.cpp.
pub mod Codes
use v4_front.Base.{
  ℤ, pos, negsuc, ℕ, zero, suc, ◌-◌, ◌≤◌, ◌<◌, ◌≡◌, refl, arith, Bool, ◌&&◌, List, [], ◌∷◌, Option,
  none, some, Bytes, length, take, get_elem?, ltb, leb, if◌then◌else◌,
}
use v4_front.Result.{
  FrontErr, unknown_token, invalid_integer, out_of_memory, buffer_too_small, empty_input,
  control_depth_exceeded, else_without_if, duplicate_else, then_without_if, unclosed_if,
  until_without_begin, unclosed_begin, while_without_begin, duplicate_while, repeat_without_begin,
  repeat_without_while, until_after_while, again_without_begin, again_after_while, loop_without_do,
  ploop_without_do, unclosed_do, leave_without_do, leave_depth_exceeded, colon_without_name,
  semicolon_without_colon, unclosed_colon, duplicate_word, dictionary_full, nested_colon,
  missing_sys_id, invalid_sys_id, missing_local_idx, invalid_local_idx, recurse_outside_word,
  unterminated_comment, constant_without_value, constant_without_name, variable_without_name,
  data_space_exhausted,
}
use v4_front.Text.{codes}

-- The value column of errors.def.
unfoldable pub front_err_to_int : FrontErr → ℤ
front_err_to_int unknown_token = negsuc 0
front_err_to_int invalid_integer = negsuc 1
front_err_to_int out_of_memory = negsuc 2
front_err_to_int buffer_too_small = negsuc 3
front_err_to_int empty_input = negsuc 4
front_err_to_int control_depth_exceeded = negsuc 5
front_err_to_int else_without_if = negsuc 6
front_err_to_int duplicate_else = negsuc 7
front_err_to_int then_without_if = negsuc 8
front_err_to_int unclosed_if = negsuc 9
front_err_to_int until_without_begin = negsuc 10
front_err_to_int unclosed_begin = negsuc 11
front_err_to_int while_without_begin = negsuc 12
front_err_to_int duplicate_while = negsuc 13
front_err_to_int repeat_without_begin = negsuc 14
front_err_to_int repeat_without_while = negsuc 15
front_err_to_int until_after_while = negsuc 16
front_err_to_int again_without_begin = negsuc 17
front_err_to_int again_after_while = negsuc 18
front_err_to_int loop_without_do = negsuc 19
front_err_to_int ploop_without_do = negsuc 20
front_err_to_int unclosed_do = negsuc 21
front_err_to_int leave_without_do = negsuc 22
front_err_to_int leave_depth_exceeded = negsuc 23
front_err_to_int colon_without_name = negsuc 24
front_err_to_int semicolon_without_colon = negsuc 25
front_err_to_int unclosed_colon = negsuc 26
front_err_to_int duplicate_word = negsuc 27
front_err_to_int dictionary_full = negsuc 28
front_err_to_int nested_colon = negsuc 29
front_err_to_int missing_sys_id = negsuc 30
front_err_to_int invalid_sys_id = negsuc 31
front_err_to_int missing_local_idx = negsuc 32
front_err_to_int invalid_local_idx = negsuc 33
front_err_to_int recurse_outside_word = negsuc 34
front_err_to_int unterminated_comment = negsuc 35
front_err_to_int constant_without_value = negsuc 36
front_err_to_int constant_without_name = negsuc 37
front_err_to_int variable_without_name = negsuc 38
front_err_to_int data_space_exhausted = negsuc 39

-- The message column.
unfoldable pub message : FrontErr → Bytes
message unknown_token = codes "unknown token"
message invalid_integer = codes "invalid integer format"
message out_of_memory = codes "out of memory"
message buffer_too_small = codes "buffer too small"
message empty_input = codes "empty input"
message control_depth_exceeded = codes "control structure nesting too deep"
message else_without_if = codes "ELSE without matching IF"
message duplicate_else = codes "duplicate ELSE in IF structure"
message then_without_if = codes "THEN without matching IF"
message unclosed_if = codes "unclosed IF structure"
message until_without_begin = codes "UNTIL without matching BEGIN"
message unclosed_begin = codes "unclosed BEGIN structure"
message while_without_begin = codes "WHILE without matching BEGIN"
message duplicate_while = codes "duplicate WHILE in BEGIN structure"
message repeat_without_begin = codes "REPEAT without matching BEGIN"
message repeat_without_while = codes "REPEAT without matching WHILE"
message until_after_while = codes "UNTIL cannot be used after WHILE"
message again_without_begin = codes "AGAIN without matching BEGIN"
message again_after_while = codes "AGAIN cannot be used after WHILE"
message loop_without_do = codes "LOOP without matching DO"
message ploop_without_do = codes "+LOOP without matching DO"
message unclosed_do = codes "unclosed DO structure"
message leave_without_do = codes "LEAVE without matching DO"
message leave_depth_exceeded = codes "too many LEAVE statements in DO loop"
message colon_without_name = codes ": without word name"
message semicolon_without_colon = codes "; without matching :"
message unclosed_colon = codes "unclosed : structure"
message duplicate_word = codes "duplicate word name"
message dictionary_full = codes "dictionary full"
message nested_colon = codes "nested : not allowed"
message missing_sys_id = codes "SYS without ID"
message invalid_sys_id = codes "SYS ID out of range (0-255)"
message missing_local_idx = codes "L++, L--, L@, L!, or L>! without local variable index"
message invalid_local_idx = codes "local variable index out of range (0-255)"
message recurse_outside_word = codes "RECURSE outside word definition"
message unterminated_comment = codes "unterminated comment"
message constant_without_value = codes "CONSTANT without value"
message constant_without_name = codes "CONSTANT without name"
message variable_without_name = codes "VARIABLE without name"
message data_space_exhausted = codes "data space exhausted"

-- The rows behind `OK`, in the order of the file.
abbrev pub rows : List FrontErr
rows =
    unknown_token ∷ invalid_integer ∷ out_of_memory ∷ buffer_too_small ∷ empty_input
    ∷ control_depth_exceeded ∷ else_without_if ∷ duplicate_else ∷ then_without_if ∷ unclosed_if
    ∷ until_without_begin ∷ unclosed_begin ∷ while_without_begin ∷ duplicate_while
    ∷ repeat_without_begin ∷ repeat_without_while ∷ until_after_while ∷ again_without_begin
    ∷ again_after_while ∷ loop_without_do ∷ ploop_without_do ∷ unclosed_do ∷ leave_without_do
    ∷ leave_depth_exceeded ∷ colon_without_name ∷ semicolon_without_colon ∷ unclosed_colon
    ∷ duplicate_word ∷ dictionary_full ∷ nested_colon ∷ missing_sys_id ∷ invalid_sys_id
    ∷ missing_local_idx ∷ invalid_local_idx ∷ recurse_outside_word ∷ unterminated_comment
    ∷ constant_without_value ∷ constant_without_name ∷ variable_without_name ∷ data_space_exhausted
    ∷ []

-- The case of the switch that a value leads to, other than `OK`; `none` is its default.
unfoldable pub err_case : ℤ → Option FrontErr
err_case (pos n) = none
err_case (negsuc n) = get_elem? rows n

-- `front_err_str` on the `int`, which the cast does not change.
unfoldable pub v4front_err_str : ℤ → Bytes
unfolding message err_case
v4front_err_str (pos zero) = codes "ok"
v4front_err_str code = elim (err_case code) [ none ↦ codes "unknown error" | some e ↦ message e ]

-- `len >= cap` cuts a text to the room before the NUL of an array of `cap` bytes.
abbrev pub clip : ℕ → Bytes → Bytes
clip cap s = if leb cap (length s) then take (cap - 1) s else s

-- The text in the caller's buffer: nothing is written without one, or without room in it.
unfoldable pub write_error_msg : Option ℕ → Bytes → Option Bytes
write_error_msg none msg = none
write_error_msg (some zero) msg = none
write_error_msg (some (suc cap)) msg = some (clip (suc cap) msg)

unfoldable pub write_error : Option ℕ → FrontErr → Option Bytes
unfolding write_error_msg message
write_error err_cap code = write_error_msg err_cap (message code)
