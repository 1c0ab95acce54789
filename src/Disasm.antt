-- ===== src/Disasm.antt =====
-- The disassembler, src/disasm.cpp. The table of instructions (v4/opcodes.def, a file of the V4
-- engine) is a parameter.
pub mod Output
pub mod Lines
pub mod Steps
pub mod Head
pub mod Jumps
use v4_front.Base.{
  ℤ, pos, negsuc, ℕ, zero, suc, ◌+◌, ◌-◌, ◌*◌, ◌%◌, ◌^◌, Bool, true, false, List, [], ◌∷◌, ◌++◌,
  Option, none, some, Bytes, length, get_elem?, ltb, leb, if◌then◌else◌,
}
use v4_front.Text.{codes}
use v4_front.Disasm.Output.{
  Stream, new_stream, put_text, put_padded, put_hex, put_int, append_hex_addr,
}

-- What stands behind an opcode.
pub data ImmKind : Type 0 where
  no_imm imm8 imm16 imm32 rel16 idx16 : ImmKind

pub record OpInfo : Type 0 where
  pub name : Bytes
  pub opcode : ℕ
  pub imm : ImmKind

-- The switch that v4/opcodes.def fills; `none` is its default.
pub record OpTable : Type 0 where
  pub find : ℕ → Option OpInfo

unfoldable pub get_info : OpTable → ℕ → OpInfo
get_info ops opcode = elim (ops.find opcode) [
  | some info ↦ info
  | none ↦ record { name = codes "???"; opcode = opcode; imm = ImmKind.no_imm }
]

-- A byte of the buffer, where it is within `len`.
unfoldable pub read_u8 : Bytes → ℕ → Option ℕ
read_u8 p off = if ltb (length p) (off + 1) then none else get_elem? p off

-- Two's complement on `w` bits: a bit pattern as the number that it stands for.
abbrev pub signed : ℕ → ℕ → ℤ
signed half v = if ltb v half then pos v else negsuc (2 * half - 1 - v)

unfoldable pub read_i8 : Bytes → ℕ → Option ℤ
unfolding read_u8
read_i8 p off = elim (read_u8 p off) [ none ↦ none | some t ↦ some (signed (2 ^ 7) t) ]

-- The bytes from `off` on, least first, as one number.
unfoldable pub read_le : ℕ → Bytes → ℕ → Option ℕ
read_le zero p off = some 0
read_le (suc n) p off = elim (get_elem? p off) [
  | none ↦ none
  | some b ↦ elim (read_le n p (off + 1)) [ none ↦ none | some v ↦ some (b + 256 * v) ]
]

unfoldable pub read_i16 : Bytes → ℕ → Option ℤ
unfolding read_le
read_i16 p off =
    if ltb (length p) (off + 2)
    then none
    else elim (read_le 2 p off) [ none ↦ none | some v ↦ some (signed (2 ^ 15) v) ]

unfoldable pub read_i32 : Bytes → ℕ → Option ℤ
unfolding read_le
read_i32 p off =
    if ltb (length p) (off + 4)
    then none
    else elim (read_le 4 p off) [ none ↦ none | some v ↦ some (signed (2 ^ 31) v) ]

-- `static_cast<size_t>(pc + consumed + 2 + off)`, where the `int16_t` is converted to 64 bits.
unfoldable pub target_of : ℕ → ℤ → ℕ
target_of next (pos n) = (next + n) % 2 ^ 64
target_of next (negsuc n) = (next + (2 ^ 64 - suc n)) % 2 ^ 64

-- `(off >= 0 ? "+" : "")`
abbrev pub sign_of : ℤ → Bytes
sign_of (pos n) = codes "+"
sign_of (negsuc n) = []

-- The operand's text and the bytes that it takes; `left` is `len - pc`, taken where it is cut off.
abbrev pub operand : ℕ → Bytes → ℕ → Stream → Option ℤ → (ℤ → Stream → Stream) → Stream × ℕ
operand left trunc size oss none write = (put_text trunc oss, left)
operand left trunc size oss (some v) write = (write v oss, 1 + size)

unfoldable pub put_operand : Bytes → ℕ → ImmKind → Stream → Stream × ℕ
unfolding read_i8 read_i16 read_i32 target_of put_text put_int append_hex_addr
put_operand code pc ImmKind.no_imm oss = (oss, 1)
put_operand code pc ImmKind.imm8 oss =
    operand (length code - pc) (codes " <trunc-i8>") 1 oss (read_i8 code (pc + 1))
      λ v oss. put_int v (put_text (codes " ") oss)
put_operand code pc ImmKind.imm16 oss =
    operand (length code - pc) (codes " <trunc-i16>") 2 oss (read_i16 code (pc + 1))
      λ v oss. put_int v (put_text (codes " ") oss)
put_operand code pc ImmKind.imm32 oss =
    operand (length code - pc) (codes " <trunc-i32>") 4 oss (read_i32 code (pc + 1))
      λ v oss. put_int v (put_text (codes " ") oss)
put_operand code pc ImmKind.rel16 oss =
    operand (length code - pc) (codes " <trunc-rel16>") 2 oss (read_i16 code (pc + 1)) λ off oss.
      append_hex_addr (target_of (pc + 1 + 2) off) (
        put_text (codes " ; -> ") (put_int off (put_text (sign_of off) (put_text (codes " ") oss))))
put_operand code pc ImmKind.idx16 oss =
    operand (length code - pc) (codes " <trunc-idx16>") 2 oss (read_i16 code (pc + 1))
      λ idx oss. put_int idx (put_text (codes " @") oss)

-- Address, `: `, and the mnemonic, left-justified in eight columns.
unfoldable pub put_head : ℕ → Bytes → Stream
unfolding append_hex_addr put_text put_padded
put_head pc name =
    let oss = put_text (codes ": ") (append_hex_addr pc new_stream) in
    put_padded 8 name (record oss { left = true })

unfoldable pub disasm_at : OpTable → Bytes → ℕ → Option ℕ → Bytes × ℕ
unfolding get_info put_head put_operand
disasm_at ops code pc none = ([], 0)
disasm_at ops code pc (some opcode) =
    let info = get_info ops opcode in
    let (oss, consumed) = put_operand code pc info.imm (put_head pc info.name) in
    (oss.out, consumed)

-- The line of the instruction at `pc`, and the bytes that it takes; no line and 0 at the end.
unfoldable pub disasm_one : OpTable → Bytes → ℕ → Bytes × ℕ
unfolding disasm_at
disasm_one ops code pc =
    disasm_at ops code pc (if leb (length code) pc then none else get_elem? code pc)

-- One line more, unless the instruction took nothing.
abbrev pub next_line : ℕ → Bytes → List Bytes → List Bytes
next_line zero line rest = []
next_line (suc c) line rest = line ∷ rest

-- `while (pc < len)`. An instruction takes a byte at least: `len` rounds are enough, and the rest is
-- `none` where they are not.
unfoldable pub disasm_from : OpTable → ℕ → Bytes → ℕ → Option (List Bytes)
unfolding disasm_one
disasm_from ops zero code pc = if ltb pc (length code) then none else some []
disasm_from ops (suc fuel) code pc =
    let (line, c) = disasm_one ops code pc in
    let rest = disasm_from ops fuel code (pc + c) in
    if ltb pc (length code)
    then elim rest [ none ↦ none | some lines ↦ some (next_line c line lines) ]
    else some []

unfoldable pub disasm_all : OpTable → Bytes → Option (List Bytes)
unfolding disasm_from
disasm_all ops code = disasm_from ops (length code) code 0

-- What `disasm_print` writes to its stream: each line and a newline.
unfoldable pub printed : List Bytes → Bytes
printed [] = []
printed (line ∷ lines) = line ++ (b'\n' ∷ printed lines)

unfoldable pub disasm_print : OpTable → Bytes → Option Bytes
unfolding disasm_all printed
disasm_print ops code = elim (disasm_all ops code) [
  | none ↦ none
  | some lines ↦ some (printed lines)
]
