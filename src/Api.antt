-- ===== src/Api.antt =====
-- The functions of the C API in src/compile.cpp that compile a text. A `V4FrontBuf*` or
-- `V4FrontError*` that is given, or null, is a Boolean; a message buffer is its size, `none` for a
-- null pointer.
pub mod Outputs
pub mod Reports
use v4_front.Base.{
  ℤ, pos, negsuc, ℕ, ◌-◌, Bool, true, false, List, [], ◌∷◌, Option, none, some, Bytes, length,
  if◌then◌else◌,
}
use v4_front.Result.{Result, ok, err, undefined, no_fuel, FrontErr, buffer_too_small}
use v4_front.Platform.{Platform}
use v4_front.Text.{codes}
use v4_front.Context.{V4FrontContext}
use v4_front.Errors.{front_err_to_int, write_error_msg, write_error}
use v4_front.Report.{V4FrontError, no_position, fill_error_info}
use v4_front.Compiler.Driver.{V4FrontBuf, OutBuf, filled, compile_internal, left_behind}

-- What the caller has after the call: the value returned; `*out_buf`, `none` if there is no buffer; and
-- the error buffer, `none` if it is as before.
pub record Called (E : Type 0) : Type 0 where
  pub ret : ℤ
  pub output : Option OutBuf
  pub report : Option E

-- `if (result != FrontErr::OK)` the report, and the result as an `int`. The output buffer is as an
-- error leaves it, or filled.
abbrev pub respond :
    {E : Type 0} → (FrontErr → Option ℕ → Option E) → OutBuf → Result V4FrontBuf → Result (Called E)
respond report left (ok out) =
    ok (record { ret = pos 0; output = some (filled out); report = none })
respond report left (err e at) =
    ok (record { ret = front_err_to_int e; output = some left; report = report e at })
respond report left undefined = undefined
respond report left no_fuel = no_fuel

abbrev pub no_output : Bytes
no_output = codes "output buffer is NULL"

abbrev pub refuse : {E : Type 0} → Option E → Result (Called E)
refuse report =
    ok (record { ret = front_err_to_int buffer_too_small; output = none; report = report })

unfoldable pub v4front_compile : Platform → Option Bytes → Bool → Option ℕ → Result (Called Bytes)
unfolding compile_internal left_behind write_error write_error_msg front_err_to_int
v4front_compile pl source false err_cap = refuse (write_error_msg err_cap no_output)
v4front_compile pl source true err_cap =
    respond (λ e at. write_error err_cap e) (left_behind pl none source)
      (compile_internal pl none source)

-- `name` is ignored.
unfoldable pub v4front_compile_word :
    Platform → Option Bytes → Option Bytes → Bool → Option ℕ → Result (Called Bytes)
unfolding v4front_compile
v4front_compile_word pl name source has_out err_cap = v4front_compile pl source has_out err_cap

unfoldable pub v4front_compile_with_context :
    Platform → Option V4FrontContext → Option Bytes → Bool → Option ℕ → Result (Called Bytes)
unfolding compile_internal left_behind write_error write_error_msg front_err_to_int
v4front_compile_with_context pl ctx source false err_cap =
    refuse (write_error_msg err_cap no_output)
v4front_compile_with_context pl ctx source true err_cap =
    respond (λ e at. write_error err_cap e) (left_behind pl ctx source)
      (compile_internal pl ctx source)

-- `error_pos - source`, from the bytes that are left behind the position.
abbrev pub offset_of : Option Bytes → Option ℕ → Option ℕ
offset_of (some source) (some left) = some (length source - left)
offset_of _ _ = none

abbrev pub when : {E : Type 0} → Bool → E → Option E
when wanted e = if wanted then some e else none

unfoldable pub v4front_compile_ex :
    Platform → Option Bytes → Bool → Bool → Result (Called V4FrontError)
unfolding compile_internal left_behind fill_error_info front_err_to_int
v4front_compile_ex pl source false wanted =
    refuse (when wanted (no_position (front_err_to_int buffer_too_small) no_output))
v4front_compile_ex pl source true wanted =
    respond (λ e at. when wanted (fill_error_info source (offset_of source at) e))
      (left_behind pl none source) (compile_internal pl none source)

unfoldable pub v4front_compile_with_context_ex :
    Platform → Option V4FrontContext → Option Bytes → Bool → Bool → Result (Called V4FrontError)
unfolding compile_internal left_behind fill_error_info front_err_to_int
v4front_compile_with_context_ex pl ctx source false wanted =
    refuse (when wanted (no_position (front_err_to_int buffer_too_small) no_output))
v4front_compile_with_context_ex pl ctx source true wanted =
    respond (λ e at. when wanted (fill_error_info source (offset_of source at) e))
      (left_behind pl ctx source) (compile_internal pl ctx source)
