-- ===== src/Compiler/Driver.antt =====
-- `compile_internal` of src/compile.cpp: the token loop, and what is done at the end of the text.
use v4_front.Base.{
  ℕ, zero, suc, ◌+◌, ◌-◌, ◌*◌, Bool, true, false, not, List, [], ◌∷◌, Option, none, some, Bytes,
  length, get_elem?, ltb, leb, ◌==◌, if◌then◌else◌,
}
use v4_front.Result.{
  Result, ok, err, no_fuel, ◌>>=◌, FrontErr, out_of_memory, unclosed_if, unclosed_do,
  unclosed_begin, unclosed_colon,
}
use v4_front.Platform.{Platform, Op}
use v4_front.Buffer.{Buf, append_bytes}
use v4_front.Text.Blanks.{skip_whitespace_and_comments}
use v4_front.Context.{V4FrontContext}
use v4_front.Compiler.{
  ControlFrame, if_control, begin_control, do_control, WordDefEntry, Compilation, initial,
}
use v4_front.Compiler.Dispatch.{round}

-- `V4FrontBuf` where the compilation succeeds; `size`, `word_count` and `code_len` are lengths.
pub record V4FrontBuf : Type 0 where
  pub words : List WordDefEntry
  pub code : Bytes

-- A round where a token is left, else the end.
unfoldable pub next_round :
    Platform
    → Option V4FrontContext
    → (Bytes → Compilation → Result Compilation)
    → Compilation
    → Bytes
    → Result Compilation
next_round pl ctx again c [] = ok c
next_round pl ctx again c (x ∷ p) = do (c', p') ← round pl ctx (x ∷ p) c; again p' c'

-- `while (*p)`. The text gets shorter in each round: its length is fuel enough.
unfoldable pub compile_loop :
    Platform → Option V4FrontContext → ℕ → Bytes → Compilation → Result Compilation
unfolding next_round skip_whitespace_and_comments
compile_loop pl ctx fuel [] c = ok c
compile_loop pl ctx zero (x ∷ p) c = no_fuel
compile_loop pl ctx (suc fuel) (x ∷ p) c = do
  p₁ ← skip_whitespace_and_comments (x ∷ p)
  next_round pl ctx (compile_loop pl ctx fuel) c p₁

-- The error of an open frame, by the type of the innermost one.
abbrev pub unclosed : ControlFrame → FrontErr
unclosed (if_control _ _) = unclosed_if
unclosed (do_control _ _) = unclosed_do
unclosed (begin_control _ _) = unclosed_begin

unfoldable pub check_control : List ControlFrame → Result (Unit {0})
check_control [] = ok tt
check_control (frame ∷ _) = err (unclosed frame) (some 0)

unfoldable pub check_definition : Bool → Result (Unit {0})
check_definition true = err unclosed_colon (some 0)
check_definition false = ok tt

-- `sizeof(V4FrontWord)` with 8-byte pointers
abbrev pub word_size : ℕ
word_size = 24

-- `portable_strdup` of each name, in order.
unfoldable pub copy_names : Platform → List WordDefEntry → Result (Unit {0})
copy_names pl [] = ok tt
copy_names pl (w ∷ words) =
    let rest = copy_names pl words in
    if pl.alloc (length w.name + 1) then rest else err out_of_memory none

unfoldable pub transfer_words : Platform → List WordDefEntry → Result (Unit {0})
unfolding copy_names
transfer_words pl words =
    if ltb 0 (length words)
    then (if pl.alloc (word_size * length words)
        then copy_names pl words
        else err out_of_memory none)
    else ok tt

abbrev is_byte : ℕ → Option ℕ → Bool
is_byte x none = false
is_byte x (some y) = y == x

-- No RET where the third byte from the end is that of JMP.
unfoldable pub needs_ret : Platform → Bytes → Bool
needs_ret pl code =
    if leb 3 (length code)
    then not (is_byte (pl.op_byte Op.jmp) (get_elem? code (length code - 3)))
    else true

unfoldable pub append_ret : Platform → Buf → Result Buf
unfolding needs_ret
append_ret pl b = if needs_ret pl b.bytes then append_bytes pl (pl.op_byte Op.ret ∷ []) b else ok b

-- Behind the loop, and with no definition open: `current_bc` is `bc`.
unfoldable pub finish : Platform → Compilation → Result V4FrontBuf
unfolding check_control check_definition transfer_words append_ret
finish pl c = do
  _ ← check_control c.control
  _ ← check_definition c.in_definition
  _ ← transfer_words pl c.dict
  b ← append_ret pl c.main
  ok (record { words = c.dict; code = b.bytes })

-- `none` is a null pointer, compiled like the empty text.
unfoldable pub compile_internal :
    Platform → Option V4FrontContext → Option Bytes → Result V4FrontBuf
unfolding compile_loop finish
compile_internal pl ctx none = finish pl initial
compile_internal pl ctx (some source) =
    compile_loop pl ctx (length source) source initial >>= finish pl

-- `*out_buf` behind a call, by its four fields.
pub data OutBuf : Type 0 where
  -- `data` and `words` are null, and the counts 0.
  cleared : OutBuf
  -- All four are set.
  filled : V4FrontBuf → OutBuf
  -- `words` and `word_count` are set, `data` is null.
  words_only : List WordDefEntry → OutBuf
  -- `words` is the address of an array that has been freed; `word_count` is 0, and `data` null.
  words_freed : OutBuf

-- Behind the loop that copies the names.
abbrev pub copied_out : List WordDefEntry → Result (Unit {0}) → OutBuf
copied_out words (ok _) = words_only words
copied_out words _ = words_freed

-- Behind the transfer of `word_dict`.
unfoldable pub transferred : Platform → List WordDefEntry → OutBuf
unfolding copy_names
transferred pl [] = cleared
transferred pl (w ∷ words) =
    if pl.alloc (word_size * length (w ∷ words))
    then copied_out (w ∷ words) (copy_names pl (w ∷ words))
    else cleared

-- What a step that precedes the transfer leaves, and what the transfer leaves.
abbrev pub behind {ℓ} : {A : Type ℓ} → Result A → (A → OutBuf) → OutBuf
behind (ok a) left = left a
behind _ left = cleared

-- Where the end of the text leads to an error: the transfer is behind the checks of what is open, and
-- before the byte of RET.
unfoldable pub left_by_finish : Platform → Compilation → OutBuf
unfolding check_control check_definition transferred
left_by_finish pl c =
    behind (check_control c.control)
      λ _. behind (check_definition c.in_definition) λ _. transferred pl c.dict

-- `*out_buf` where `compile_internal` returns an error. It clears the buffer first.
unfoldable pub left_behind : Platform → Option V4FrontContext → Option Bytes → OutBuf
unfolding compile_loop left_by_finish
left_behind pl ctx none = left_by_finish pl initial
left_behind pl ctx (some source) =
    behind (compile_loop pl ctx (length source) source initial) (left_by_finish pl)
