-- ===== src/Api/Reports.antt =====
-- What a caller of the C API is told.
use mathlib.Core.Path.{subst}
use v4_front.Base.{
  pos, negsuc, ℕ, suc, ◌-◌, ◌≤◌, ◌<◌, ◌≡◌, refl, ◌⊎◌, inl, inr, true, [], Option, none, some, Bytes,
  length, arith, Bool-cases, leb, length-take-le,
}
use v4_front.Result.{Result, ok, err, undefined, no_fuel, FrontErr}
use v4_front.Platform.{Platform}
use v4_front.Context.{V4FrontContext}
use v4_front.Errors.{front_err_to_int, clip, message}
use v4_front.Report.{
  V4FrontError, fill_error_info, calculate_line_column, minus_one, extract_error_token,
  extract_context, around, is_newline,
}
use v4_front.Text.{is_space}
use v4_front.Errors.Codes.{front_err_to_int-negative}
use v4_front.Compiler.Driver.{V4FrontBuf, OutBuf, filled, compile_internal, left_behind}
use v4_front.Api.{Called, respond, offset_of, v4front_compile_with_context_ex}
use v4_front.Api.Outputs.{Left, compile_internal-Left}

clip-lt : (cap : ℕ) (s : Bytes) → length (clip (suc cap) s) < suc cap
clip-lt cap s = elim (Bool-cases (leb (suc cap) (length s))) [
  | inl long ↦ rw long (omega (arith, length-take-le (suc cap - 1) s))
  | inr short ↦ rw short (ground (arith, short))
]

-- The place of an error: none, or a position in the text or at its end, with its line and column.
abbrev pub Located : Option Bytes → V4FrontError → Type 0
Located source e =
    ((e.position ≡ minus_one)
      × (e.line ≡ minus_one)
      × (e.column ≡ minus_one)
      × (e.token ≡ [])
      × (e.context ≡ []))
    ⊎ ((s : Bytes) × (p : ℕ) × (source ≡ some s)
        × (p ≤ length s)
        × (e.position ≡ pos p)
        × (e.line ≡ pos (calculate_line_column s p).0)
        × (e.column ≡ pos (calculate_line_column s p).1))

-- The texts fit their arrays with the NUL, and the place is one in the source.
pub record Told (source : Option Bytes) (e : V4FrontError) : Type 0 where
  pub message_fits : length e.message < 256
  pub token_fits : length e.token < 64
  pub context_fits : length e.context < 128
  pub located : Located source e

fill_error_info-Told :
    (source : Option Bytes) (at : Option ℕ) (code : FrontErr)
    → Told source (fill_error_info source (offset_of source at) code)
unfolding fill_error_info extract_error_token extract_context
fill_error_info-Told none at code = record {
  message_fits = clip-lt 255 (message code);
  token_fits = omega arith;
  context_fits = omega arith;
  located = inl (refl, refl, refl, refl, refl);
}
fill_error_info-Told (some s) none code = record {
  message_fits = clip-lt 255 (message code);
  token_fits = omega arith;
  context_fits = omega arith;
  located = inl (refl, refl, refl, refl, refl);
}
fill_error_info-Told (some s) (some left) code = record {
  message_fits = clip-lt 255 (message code);
  token_fits = clip-lt 63 (around is_space s (length s - left));
  context_fits = clip-lt 127 (around is_newline s (length s - left));
  located = inr (s, length s - left, refl, omega arith, refl, refl, refl);
}

-- The call has succeeded with code and words in the buffer, or failed with an error, its negative
-- code, a buffer that is left without code, and a report of the error.
abbrev pub Answered : Option Bytes → Called V4FrontError → Type 0
Answered source c =
    ((c.ret ≡ pos 0) × ((out : V4FrontBuf) × (c.output ≡ some (filled out))) × (c.report ≡ none))
    ⊎ ((e : FrontErr) × (k : ℕ) × (left : OutBuf) × (r : V4FrontError) × (c.ret
          ≡ front_err_to_int e)
        × (c.ret ≡ negsuc k)
        × (c.output ≡ some left)
        × Left e left
        × (c.report ≡ some r)
        × (r.code ≡ c.ret)
        × Told source r)

fill_error_info-code :
    (source : Option Bytes) (at : Option ℕ) (code : FrontErr)
    → (fill_error_info source at code).code ≡ front_err_to_int code
unfolding fill_error_info
fill_error_info-code none at code = refl
fill_error_info-code (some s) none code = refl
fill_error_info-code (some s) (some p) code = refl

abbrev told : Option Bytes → FrontErr → Option ℕ → Option V4FrontError
told source e at = some (fill_error_info source (offset_of source at) e)

respond-Answered :
    (source : Option Bytes) (left : OutBuf) (r : Result V4FrontBuf) {c : Called V4FrontError}
    → ((e : FrontErr) (at : Option ℕ) → r ≡ err e at → Left e left)
    → respond (told source) left r ≡ ok c
    → Answered source c
respond-Answered source left (ok out) {c} leaves h =
    let is : record { ret = pos 0; output = some (filled out); report = none } ≡ c = cc in
    subst (Answered source) is (inl (refl, (out, refl), refl))
respond-Answered source left (err e at) {c} leaves h =
    let report = fill_error_info source (offset_of source at) e in
    let is : record { ret = front_err_to_int e; output = some left; report = some report } ≡ c =
      cc in
    let (k, below) = front_err_to_int-negative e in
    subst (Answered source) is (
      inr (
        e,
        k,
        left,
        report,
        refl,
        below,
        refl,
        leaves e at refl,
        refl,
        fill_error_info-code source (offset_of source at) e,
        fill_error_info-Told source at e,
      ))
respond-Answered source left undefined leaves h = cc
respond-Answered source left no_fuel leaves h = cc

-- A call with an output buffer and an error structure that returns has succeeded, with code and words
-- in the buffer and no report. Or it has failed with a negative code, and the report has that code,
-- texts that fit their arrays, and a place in the source or none; the buffer has no code, and is
-- cleared but where the error is for want of memory: then it can have the words, or the address of
-- their array behind its `free`.
pub compile_ex-Answered :
    (pl : Platform) (ctx : Option V4FrontContext) (source : Option Bytes) {c : Called V4FrontError}
    → v4front_compile_with_context_ex pl ctx source true true ≡ ok c
    → Answered source c
unfolding v4front_compile_with_context_ex
compile_ex-Answered pl ctx source h =
    respond-Answered source (left_behind pl ctx source) (compile_internal pl ctx source)
      (λ e at. compile_internal-Left pl ctx source) h
