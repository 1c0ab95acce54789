-- ===== src/Compiler/Counted.antt =====
-- DO, LEAVE, LOOP and +LOOP of `compile_internal` in src/compile.cpp.
use v4_front.Base.{ℕ, List, [], ◌∷◌, ◌++◌, Option, none, some, Bytes, map, length, ltb}
use v4_front.Result.{
  Result, ok, err, ◌>>=◌, require, control_depth_exceeded, leave_without_do, leave_depth_exceeded,
  loop_without_do, ploop_without_do, FrontErr,
}
use v4_front.Platform.{Platform, Op}
use v4_front.Buffer.{i32_le}
use v4_front.Compiler.{
  ControlFrame, if_control, begin_control, do_control, Gen, max_leave_depth, emit, emit_forward,
  emit_backward, resolve, here,
}
use v4_front.Compiler.Branch.{has_room}

abbrev pub ops : Platform → List Op → Bytes
ops pl = map pl.op_byte

-- SWAP >R >R; the loop starts behind them.
unfoldable pub handle_do : Platform → ℕ → Gen → Result Gen
unfolding emit
handle_do pl at g = require (has_room g) control_depth_exceeded at (do
  g' ← emit pl (ops pl (Op.swap ∷ Op.tor ∷ Op.tor ∷ [])) g
  ok (record g' { control = do_control (here g') [] ∷ g'.control }))

-- The `leave_patch_addrs` of the innermost DO frame, wherever it stands on the stack.
unfoldable pub innermost_do : List ControlFrame → Option (List ℕ)
innermost_do [] = none
innermost_do (do_control _ leaves ∷ rest) = some leaves
innermost_do (if_control _ _ ∷ rest) = innermost_do rest
innermost_do (begin_control _ _ ∷ rest) = innermost_do rest

-- `frame->leave_patch_addrs[frame->leave_count++] = patch_pos` on that frame.
unfoldable pub record_leave : ℕ → List ControlFrame → List ControlFrame
record_leave patch_pos [] = []
record_leave patch_pos (do_control do_addr leaves ∷ rest) =
    do_control do_addr (leaves ++ patch_pos ∷ []) ∷ rest
record_leave patch_pos (if_control a b ∷ rest) = if_control a b ∷ record_leave patch_pos rest
record_leave patch_pos (begin_control a b ∷ rest) = begin_control a b ∷ record_leave patch_pos rest

-- R> R> DROP DROP and a JMP to be patched by LOOP.
unfoldable pub leave_in : Platform → ℕ → Option (List ℕ) → Gen → Result Gen
unfolding emit emit_forward record_leave
leave_in pl at none g = err leave_without_do (some at)
leave_in pl at (some leaves) g =
    require (ltb (length leaves) max_leave_depth) leave_depth_exceeded at (do
      g₁ ← emit pl (ops pl (Op.fromr ∷ Op.fromr ∷ Op.drop ∷ Op.drop ∷ [])) g
      (patch_pos, g₂) ← emit_forward pl Op.jmp g₁
      ok (record g₂ { control = record_leave patch_pos g₂.control }))

unfoldable pub handle_leave : Platform → ℕ → Gen → Result Gen
unfolding innermost_do leave_in
handle_leave pl at g = leave_in pl at (innermost_do g.control) g

-- Every LEAVE of the loop jumps to the current position.
unfoldable pub patch_leaves : List ℕ → Gen → Result Gen
unfolding resolve
patch_leaves [] g = ok g
patch_leaves (addr ∷ leaves) g = resolve addr g >>= patch_leaves leaves

-- From `R>: pop limit` to the end, the same text in LOOP and +LOOP:
-- R> OVER OVER < JZ [exit] SWAP >R >R JMP [do_addr] exit: DROP DROP.
unfoldable pub close_loop : Platform → ℕ → List ℕ → List ControlFrame → Gen → Result Gen
unfolding emit emit_forward emit_backward resolve patch_leaves
close_loop pl do_addr leaves rest g = do
  g₁ ← emit pl (ops pl (Op.fromr ∷ Op.over ∷ Op.over ∷ Op.lt ∷ [])) g
  (jz_patch_pos, g₂) ← emit_forward pl Op.jz g₁
  g₃ ← emit pl (ops pl (Op.swap ∷ Op.tor ∷ Op.tor ∷ [])) g₂
  g₄ ← emit_backward pl Op.jmp do_addr g₃
  g₅ ← resolve jz_patch_pos g₄
  g₆ ← emit pl (ops pl (Op.drop ∷ Op.drop ∷ [])) g₅
  g₇ ← patch_leaves leaves g₆
  ok (record g₇ { control = rest })

-- What stands before that: R> LIT 1 ADD in LOOP, R> ADD in +LOOP.
abbrev pub loop_step : Platform → Bytes
loop_step pl = pl.op_byte Op.fromr ∷ pl.op_byte Op.lit ∷ i32_le 1 ++ (pl.op_byte Op.add ∷ [])

abbrev pub ploop_step : Platform → Bytes
ploop_step pl = ops pl (Op.fromr ∷ Op.add ∷ [])

unfoldable pub loop_at : Platform → Bytes → FrontErr → ℕ → List ControlFrame → Gen → Result Gen
unfolding emit close_loop
loop_at pl step e at (do_control do_addr leaves ∷ rest) g =
    emit pl step g >>= close_loop pl do_addr leaves rest
loop_at pl step e at _ g = err e (some at)

unfoldable pub handle_loop : Platform → ℕ → Gen → Result Gen
unfolding loop_at
handle_loop pl at g = loop_at pl (loop_step pl) loop_without_do at g.control g

unfoldable pub handle_ploop : Platform → ℕ → Gen → Result Gen
unfolding loop_at
handle_ploop pl at g = loop_at pl (ploop_step pl) ploop_without_do at g.control g
