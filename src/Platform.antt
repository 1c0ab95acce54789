-- ===== src/Platform.antt =====
-- What src/compile.cpp takes from outside the repository: the opcodes of v4/opcodes.hpp (a header
-- of the V4 engine) and the outcome of the allocator's calls.
use v4_front.Base.{ℕ, ◌≡◌, ◌<◌, Bool, true}

-- The enumerators of `v4::Op` that the compiler names.
pub data Op : Type 0 where
  dup drop swap over tor fromr rfetch add sub mul div mod_op inc dec divu modu : Op
  eq ne lt le gt ge ltu leu and or xor invert shl shr sar : Op
  load store load8u store8 load16u store16 lget0 lget1 lset0 lset1 : Op
  task_spawn task_exit task_sleep task_yield critical_enter critical_exit task_send : Op
  task_receive task_receive_blocking task_self task_count sys : Op
  ret lit lit0 litn1 jz jmp call linc ldec lget lset ltee : Op

-- `op_byte o` is `static_cast<uint8_t>(o)`. `alloc n` says whether a request of `n` bytes by
-- `malloc`, `realloc` or `strdup` succeeds.
pub record Platform : Type 0 where
  pub op_byte : Op → ℕ
  pub alloc : ℕ → Bool

-- An opcode fits a byte, as the cast to `uint8_t` has it.
abbrev pub OpcodesFit : Platform → Type 0
OpcodesFit pl = (o : Op) → pl.op_byte o < 256

-- No request for memory is refused.
abbrev pub NeverRefuses : Platform → Type 0
NeverRefuses pl = (n : ℕ) → pl.alloc n ≡ true
