-- ===== src/Buffer.antt =====
-- The dynamic bytecode buffer of src/compile.cpp: `append_byte`, `append_i16_le`, `append_i32_le`
-- and `backpatch_i16_le`. `bytes` is the part below `*size`; `cap` is `*cap`.
pub mod Append
pub mod Patch
use v4_front.Base.{
  ℕ, suc, ◌+◌, ◌-◌, ◌*◌, ◌/◌, ◌%◌, ◌^◌, List, [], ◌∷◌, ◌++◌, none, Bytes, length, set, ltb, ◌==◌,
  if◌then◌else◌,
}
use v4_front.Result.{Result, ok, err, undefined, ◌>>=◌, out_of_memory}
use v4_front.Platform.{Platform}

pub record Buf : Type 0 where
  pub bytes : Bytes
  pub cap : ℕ

-- `nullptr`, 0, 0
abbrev pub no_buf : Buf
no_buf = record { bytes = []; cap = 0 }

abbrev pub size : Buf → ℕ
size b = length b.bytes

-- `(*cap == 0) ? 64 : (*cap * 2)` on `uint32_t`
abbrev pub new_cap : ℕ → ℕ
new_cap cap = if cap == 0 then 64 else cap * 2 % 2 ^ 32

-- `(*buf)[(*size)++] = byte`
abbrev pub store : Buf → ℕ → Result Buf
store b byte =
    if ltb (size b) b.cap then ok (record b { bytes = b.bytes ++ byte ∷ [] }) else undefined

unfoldable pub append_byte : Platform → ℕ → Buf → Result Buf
append_byte pl byte b =
    if ltb (size b) b.cap
    then store b byte
    else if pl.alloc (new_cap b.cap)
    then store (record b { cap = new_cap b.cap }) byte
    else err out_of_memory none

-- A row of `append_byte` calls, each followed by `!= FrontErr::OK` and a return.
unfoldable pub append_bytes : Platform → Bytes → Buf → Result Buf
append_bytes pl [] b = ok b
append_bytes pl (x ∷ xs) b = append_byte pl x b >>= append_bytes pl xs

-- An `int16_t` or `int32_t` is its bit pattern, below 2 ^ 16 or 2 ^ 32. `(val >> 8) & 0xFF` is the
-- same byte of the pattern whether the shift is arithmetic or not.
unfoldable pub i16_le : ℕ → Bytes
i16_le val = val % 256 ∷ val / 256 % 256 ∷ []

unfoldable pub i32_le : ℕ → Bytes
i32_le val = val % 256 ∷ val / 2 ^ 8 % 256 ∷ val / 2 ^ 16 % 256 ∷ val / 2 ^ 24 % 256 ∷ []

unfoldable pub append_i16_le : Platform → ℕ → Buf → Result Buf
append_i16_le pl val = append_bytes pl (i16_le val)

unfoldable pub append_i32_le : Platform → ℕ → Buf → Result Buf
append_i32_le pl val = append_bytes pl (i32_le val)

-- The write is within the allocation or it is undefined. A byte at or past `*size` is not part of
-- the buffer: the next `append_byte` writes over it before anything reads it.
unfoldable pub backpatch_i16_le : ℕ → ℕ → Buf → Result Buf
backpatch_i16_le pos val b =
    if ltb (pos + 1) b.cap
    then ok (record b { bytes = set (set b.bytes pos (val % 256)) (pos + 1) (val / 256 % 256) })
    else undefined

-- `(int16_t)(target - next)` on `uint32_t` operands
unfoldable pub offset_i16 : ℕ → ℕ → ℕ
offset_i16 target next = (target + 2 ^ 32 - next % 2 ^ 32) % 2 ^ 32 % 2 ^ 16
