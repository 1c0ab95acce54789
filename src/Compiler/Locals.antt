-- ===== src/Compiler/Locals.antt =====
-- L++, L--, L@, L! and L>! of `compile_internal` in src/compile.cpp: an opcode and the index that
-- the next token gives.
use v4_front.Base.{
  ℕ, ◌-◌, ◌%◌, ◌^◌, ◌||◌, [], ◌∷◌, Option, none, some, Bytes, length, ltb, if◌then◌else◌,
}
use v4_front.Result.{Result, ok, err, ◌>>=◌, missing_local_idx, invalid_local_idx}
use v4_front.Platform.{Platform, Op}
use v4_front.Text.{take_token, clip_token}
use v4_front.Text.Blanks.{skip_whitespace_and_comments}
use v4_front.Text.Integer.{try_parse_int}
use v4_front.Compiler.{Gen, emit}

-- `!try_parse_int(...) || local_idx < 0 || local_idx > 255`, the error at the index token
unfoldable pub check_local_idx : ℕ → Option ℕ → Result ℕ
check_local_idx idx_start none = err invalid_local_idx (some idx_start)
check_local_idx idx_start (some idx) =
    if ltb (2 ^ 31 - 1) idx || ltb 255 idx then err invalid_local_idx (some idx_start) else ok idx

-- The index and the rest of the text; `at` is the position of the L word.
unfoldable pub local_idx : ℕ → Bytes → Result (ℕ × Bytes)
unfolding check_local_idx take_token try_parse_int
local_idx at [] = err missing_local_idx (some at)
local_idx at (c ∷ cs) =
    let (idx_token, rest) = take_token (c ∷ cs) in
    do
      idx ← check_local_idx (length (c ∷ cs)) (try_parse_int (clip_token idx_token))
      ok (idx, rest)

unfoldable pub handle_local : Platform → Op → ℕ → Bytes → Gen → Result (Gen × Bytes)
unfolding skip_whitespace_and_comments local_idx emit
handle_local pl o at p g = do
  p₁ ← skip_whitespace_and_comments p
  (idx, rest) ← local_idx at p₁
  g' ← emit pl (pl.op_byte o ∷ idx % 256 ∷ []) g
  ok (g', rest)
