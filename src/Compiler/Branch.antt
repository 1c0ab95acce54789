-- ===== src/Compiler/Branch.antt =====
-- IF, ELSE, THEN, BEGIN, UNTIL, WHILE, REPEAT and AGAIN of `compile_internal` in src/compile.cpp.
-- `at` is the position of the token.
use v4_front.Base.{ℕ, Bool, List, ◌∷◌, none, some, length, ltb}
use v4_front.Result.{
  Result, ok, err, ◌>>=◌, require, control_depth_exceeded, else_without_if, duplicate_else,
  then_without_if, until_without_begin, until_after_while, while_without_begin, duplicate_while,
  repeat_without_begin, repeat_without_while, again_without_begin, again_after_while,
}
use v4_front.Platform.{Platform, Op}
use v4_front.Compiler.{
  ControlFrame, if_control, begin_control, Gen, max_control_depth, emit_forward, emit_backward,
  resolve, here,
}

-- `if (control_depth >= MAX_CONTROL_DEPTH)`, then the handler's own work.
abbrev pub has_room : Gen → Bool
has_room g = ltb (length g.control) max_control_depth

unfoldable pub handle_if : Platform → ℕ → Gen → Result Gen
unfolding emit_forward
handle_if pl at g = require (has_room g) control_depth_exceeded at (do
  (patch_pos, g') ← emit_forward pl Op.jz g
  ok (record g' { control = if_control patch_pos none ∷ g'.control }))

-- The JMP over the ELSE part, then the JZ of the IF to behind it.
unfoldable pub else_at : Platform → ℕ → List ControlFrame → Gen → Result Gen
unfolding emit_forward resolve
else_at pl at (if_control jz_patch_addr none ∷ rest) g = do
  (jmp_patch_pos, g₁) ← emit_forward pl Op.jmp g
  g₂ ← resolve jz_patch_addr g₁
  ok (record g₂ { control = if_control jz_patch_addr (some jmp_patch_pos) ∷ rest })
else_at pl at (if_control _ (some _) ∷ rest) g = err duplicate_else (some at)
else_at pl at _ g = err else_without_if (some at)

unfoldable pub handle_else : Platform → ℕ → Gen → Result Gen
unfolding else_at
handle_else pl at g = else_at pl at g.control g

unfoldable pub then_at : ℕ → List ControlFrame → Gen → Result Gen
unfolding resolve
then_at at (if_control _ (some jmp_patch_addr) ∷ rest) g =
    resolve jmp_patch_addr (record g { control = rest })
then_at at (if_control jz_patch_addr none ∷ rest) g =
    resolve jz_patch_addr (record g { control = rest })
then_at at _ g = err then_without_if (some at)

unfoldable pub handle_then : ℕ → Gen → Result Gen
unfolding then_at
handle_then at g = then_at at g.control g

unfoldable pub handle_begin : ℕ → Gen → Result Gen
handle_begin at g =
    require (has_room g) control_depth_exceeded at
      (ok (record g { control = begin_control (here g) none ∷ g.control }))

-- A jump back to BEGIN that closes its frame.
unfoldable pub close_begin : Platform → Op → ℕ → List ControlFrame → Gen → Result Gen
unfolding emit_backward
close_begin pl o begin_addr rest g = do
  g' ← emit_backward pl o begin_addr g
  ok (record g' { control = rest })

unfoldable pub until_at : Platform → ℕ → List ControlFrame → Gen → Result Gen
unfolding close_begin
until_at pl at (begin_control begin_addr none ∷ rest) g = close_begin pl Op.jz begin_addr rest g
until_at pl at (begin_control _ (some _) ∷ rest) g = err until_after_while (some at)
until_at pl at _ g = err until_without_begin (some at)

unfoldable pub handle_until : Platform → ℕ → Gen → Result Gen
unfolding until_at
handle_until pl at g = until_at pl at g.control g

unfoldable pub again_at : Platform → ℕ → List ControlFrame → Gen → Result Gen
unfolding close_begin
again_at pl at (begin_control begin_addr none ∷ rest) g = close_begin pl Op.jmp begin_addr rest g
again_at pl at (begin_control _ (some _) ∷ rest) g = err again_after_while (some at)
again_at pl at _ g = err again_without_begin (some at)

unfoldable pub handle_again : Platform → ℕ → Gen → Result Gen
unfolding again_at
handle_again pl at g = again_at pl at g.control g

unfoldable pub while_at : Platform → ℕ → List ControlFrame → Gen → Result Gen
unfolding emit_forward
while_at pl at (begin_control begin_addr none ∷ rest) g = do
  (patch_pos, g') ← emit_forward pl Op.jz g
  ok (record g' { control = begin_control begin_addr (some patch_pos) ∷ rest })
while_at pl at (begin_control _ (some _) ∷ rest) g = err duplicate_while (some at)
while_at pl at _ g = err while_without_begin (some at)

unfoldable pub handle_while : Platform → ℕ → Gen → Result Gen
unfolding while_at
handle_while pl at g = while_at pl at g.control g

unfoldable pub repeat_at : Platform → ℕ → List ControlFrame → Gen → Result Gen
unfolding emit_backward resolve
repeat_at pl at (begin_control begin_addr (some while_patch_addr) ∷ rest) g = do
  g₁ ← emit_backward pl Op.jmp begin_addr g
  g₂ ← resolve while_patch_addr g₁
  ok (record g₂ { control = rest })
repeat_at pl at (begin_control _ none ∷ rest) g = err repeat_without_while (some at)
repeat_at pl at _ g = err repeat_without_begin (some at)

unfoldable pub handle_repeat : Platform → ℕ → Gen → Result Gen
unfolding repeat_at
handle_repeat pl at g = repeat_at pl at g.control g
