-- ===== src/Errors/Codes.antt =====
-- The codes of the errors, and the cases of the switch that they lead to.
use v4_front.Base.{ℤ, pos, negsuc, ℕ, ap, ◌≡◌, refl, some}
use v4_front.Result.{
  FrontErr, unknown_token, invalid_integer, out_of_memory, buffer_too_small, empty_input,
  control_depth_exceeded, else_without_if, duplicate_else, then_without_if, unclosed_if,
  until_without_begin, unclosed_begin, while_without_begin, duplicate_while, repeat_without_begin,
  repeat_without_while, until_after_while, again_without_begin, again_after_while, loop_without_do,
  ploop_without_do, unclosed_do, leave_without_do, leave_depth_exceeded, colon_without_name,
  semicolon_without_colon, unclosed_colon, duplicate_word, dictionary_full, nested_colon,
  missing_sys_id, invalid_sys_id, missing_local_idx, invalid_local_idx, recurse_outside_word,
  unterminated_comment, constant_without_value, constant_without_name, variable_without_name,
  data_space_exhausted,
}
use v4_front.Errors.{front_err_to_int, err_case}

-- Every error has its own case.
err_case-front_err_to_int : (e : FrontErr) → err_case (front_err_to_int e) ≡ some e
unfolding err_case front_err_to_int
err_case-front_err_to_int unknown_token = refl
err_case-front_err_to_int invalid_integer = refl
err_case-front_err_to_int out_of_memory = refl
err_case-front_err_to_int buffer_too_small = refl
err_case-front_err_to_int empty_input = refl
err_case-front_err_to_int control_depth_exceeded = refl
err_case-front_err_to_int else_without_if = refl
err_case-front_err_to_int duplicate_else = refl
err_case-front_err_to_int then_without_if = refl
err_case-front_err_to_int unclosed_if = refl
err_case-front_err_to_int until_without_begin = refl
err_case-front_err_to_int unclosed_begin = refl
err_case-front_err_to_int while_without_begin = refl
err_case-front_err_to_int duplicate_while = refl
err_case-front_err_to_int repeat_without_begin = refl
err_case-front_err_to_int repeat_without_while = refl
err_case-front_err_to_int until_after_while = refl
err_case-front_err_to_int again_without_begin = refl
err_case-front_err_to_int again_after_while = refl
err_case-front_err_to_int loop_without_do = refl
err_case-front_err_to_int ploop_without_do = refl
err_case-front_err_to_int unclosed_do = refl
err_case-front_err_to_int leave_without_do = refl
err_case-front_err_to_int leave_depth_exceeded = refl
err_case-front_err_to_int colon_without_name = refl
err_case-front_err_to_int semicolon_without_colon = refl
err_case-front_err_to_int unclosed_colon = refl
err_case-front_err_to_int duplicate_word = refl
err_case-front_err_to_int dictionary_full = refl
err_case-front_err_to_int nested_colon = refl
err_case-front_err_to_int missing_sys_id = refl
err_case-front_err_to_int invalid_sys_id = refl
err_case-front_err_to_int missing_local_idx = refl
err_case-front_err_to_int invalid_local_idx = refl
err_case-front_err_to_int recurse_outside_word = refl
err_case-front_err_to_int unterminated_comment = refl
err_case-front_err_to_int constant_without_value = refl
err_case-front_err_to_int constant_without_name = refl
err_case-front_err_to_int variable_without_name = refl
err_case-front_err_to_int data_space_exhausted = refl

-- The code of an error is negative.
pub front_err_to_int-negative : (e : FrontErr) → (k : ℕ) × (front_err_to_int e ≡ negsuc k)
unfolding err_case
front_err_to_int-negative e = go (front_err_to_int e) refl (err_case-front_err_to_int e)
  where
    go :
        (z : ℤ)
        → front_err_to_int e ≡ z
        → err_case (front_err_to_int e) ≡ some e
        → (k : ℕ) × (front_err_to_int e ≡ negsuc k)
    go (pos n) is back = cc (ap err_case is)
    go (negsuc k) is back = (k, is)
