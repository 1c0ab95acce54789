-- ===== src/Compiler.antt =====
-- The state of `compile_internal` in src/compile.cpp, and how its handlers emit code.
pub mod Emission
pub mod Branch
pub mod Counted
pub mod Composite
pub mod Opcodes
pub mod Locals
pub mod Words
pub mod Dispatch
pub mod Driver
pub mod Literals
pub mod Effects
use v4_front.Base.{ℕ, ◌+◌, Bool, true, false, Option, List, [], ◌∷◌, Bytes, length, if◌then◌else◌}
use v4_front.Result.{Result, ok, ◌>>=◌}
use v4_front.Platform.{Platform, Op}
use v4_front.Buffer.{
  Buf, no_buf, size, append_bytes, i16_le, append_i16_le, backpatch_i16_le, offset_i16,
}
use v4_front.DataSpace.{DataSpace, init, data_space_base, data_space_size}

abbrev pub max_control_depth : ℕ
max_control_depth = 32

abbrev pub max_leave_depth : ℕ
max_leave_depth = 8

abbrev pub max_words : ℕ
max_words = 256

-- `ControlFrame` holds the fields of each `ControlType` that are read. `has_else` and `has_while`
-- say that `jmp_patch_addr` and `while_patch_addr` are set, `leave_count` how many of
-- `leave_patch_addrs` are.
pub data ControlFrame : Type 0 where
  if_control : ℕ → Option ℕ → ControlFrame
  begin_control : ℕ → Option ℕ → ControlFrame
  do_control : ℕ → List ℕ → ControlFrame

pub record WordDefEntry : Type 0 where
  pub name : Bytes
  pub code : Bytes

-- The locals of `compile_internal`. `control` is `control_stack` below `control_depth`, the top
-- first; `dict` is `word_dict` below `word_count`.
pub record Compilation : Type 0 where
  pub main : Buf
  pub word : Buf
  pub in_definition : Bool
  pub current_word_name : Bytes
  pub control : List ControlFrame
  pub dict : List WordDefEntry
  pub data_space : DataSpace

abbrev pub initial : Compilation
initial = record {
  main = no_buf;
  word = no_buf;
  in_definition = false;
  current_word_name = [];
  control = [];
  dict = [];
  data_space = init data_space_base data_space_size;
}

-- What the control-flow handlers read and write: the buffer behind `current_bc`, and the stack.
pub record Gen : Type 0 where
  pub current : Buf
  pub control : List ControlFrame

-- `current_bc` is `&word_bc` from `:` to `;`, and `&bc` elsewhere.
unfoldable pub view : Compilation → Gen
view c = record { current = if c.in_definition then c.word else c.main; control = c.control }

unfoldable pub put : Compilation → Gen → Compilation
put c g =
    if c.in_definition
    then record c { word = g.current; control = g.control }
    else record c { main = g.current; control = g.control }

unfoldable pub on_current : (Gen → Result Gen) → Compilation → Result Compilation
unfolding view put
on_current f c = do g ← f (view c); ok (put c g)

-- Consecutive calls of `append_byte`, `append_i16_le` and `append_i32_le` on the current buffer.
unfoldable pub emit : Platform → Bytes → Gen → Result Gen
emit pl xs g = do b ← append_bytes pl xs g.current; ok (record g { current = b })

abbrev pub here : Gen → ℕ
here g = size g.current

unfoldable pub backpatch : ℕ → ℕ → Gen → Result Gen
backpatch pos val g = do b ← backpatch_i16_le pos val g.current; ok (record g { current = b })

-- A jump with a placeholder. The position of the placeholder and the state behind it.
unfoldable pub emit_forward : Platform → Op → Gen → Result (ℕ × Gen)
unfolding emit
emit_forward pl o g = do
  g₁ ← emit pl (pl.op_byte o ∷ []) g
  g₂ ← emit pl (i16_le 0) g₁
  ok (here g₁, g₂)

-- A jump back: `next_ip = *current_bc_size + 2; offset = (int16_t)(target - next_ip)`.
unfoldable pub emit_backward : Platform → Op → ℕ → Gen → Result Gen
unfolding emit
emit_backward pl o target g = do
  g₁ ← emit pl (pl.op_byte o ∷ []) g
  emit pl (i16_le (offset_i16 target (here g₁ + 2))) g₁

-- `(int16_t)(*current_bc_size - (patch_addr + 2))`, written to the placeholder.
unfoldable pub resolve : ℕ → Gen → Result Gen
unfolding backpatch
resolve patch_addr g = backpatch patch_addr (offset_i16 (here g) (patch_addr + 2)) g
