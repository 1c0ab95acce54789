-- ===== src/Disasm/Steps.antt =====
-- The steps of the disassembler through the code.
use v4_front.Base.{
  ℤ, ℕ, zero, suc, ◌+◌, ◌-◌, ◌≤◌, ◌<◌, ◌≡◌, ◌≢◌, refl, inl, inr, Bool-cases, false, Option, none,
  some, Bytes, length, get_elem-lt, ltb, leb, arith,
}
use v4_front.Disasm.{
  ImmKind, OpTable, get_info, read_u8, read_i8, read_i16, read_i32, operand, put_operand, put_head,
  disasm_at, disasm_one, disasm_from, disasm_all,
}
use v4_front.Disasm.Output.{Stream}

abbrev Takes : ℕ → ℕ → Type 0
Takes n c = (1 ≤ c) × (c ≤ n)

operand-Takes :
    (n size : ℕ) (trunc : Bytes) (oss : Stream) (v : Option ℤ) (write : ℤ → Stream → Stream)
    → 1 ≤ n
    → (v ≢ none → 1 + size ≤ n)
    → Takes n (operand n trunc size oss v write).1
operand-Takes n size trunc oss none write one fits = (one, omega arith)
operand-Takes n size trunc oss (some v) write one fits = (omega arith, fits (λ e. cc))

read_i8-fits : (code : Bytes) (off : ℕ) → read_i8 code off ≢ none → off + 1 ≤ length code
unfolding read_i8 read_u8
read_i8-fits code off h = elim (Bool-cases (ltb (length code) (off + 1))) [
  | inl over ↦ absurd (h (rw (read_i8, read_u8, over) refl))
  | inr fits ↦ ground (arith, fits)
]

read_i16-fits : (code : Bytes) (off : ℕ) → read_i16 code off ≢ none → off + 2 ≤ length code
unfolding read_i16
read_i16-fits code off h = elim (Bool-cases (ltb (length code) (off + 2))) [
  | inl over ↦ absurd (h (rw over refl))
  | inr fits ↦ ground (arith, fits)
]

read_i32-fits : (code : Bytes) (off : ℕ) → read_i32 code off ≢ none → off + 4 ≤ length code
unfolding read_i32
read_i32-fits code off h = elim (Bool-cases (ltb (length code) (off + 4))) [
  | inl over ↦ absurd (h (rw over refl))
  | inr fits ↦ ground (arith, fits)
]

put_operand-Takes :
    (code : Bytes) (pc : ℕ) (imm : ImmKind) (oss : Stream)
    → pc < length code
    → Takes (length code - pc) (put_operand code pc imm oss).1
unfolding put_operand
put_operand-Takes code pc ImmKind.no_imm oss h = (omega arith, omega arith)
put_operand-Takes code pc ImmKind.imm8 oss h =
    operand-Takes _ 1 _ oss (read_i8 code (pc + 1)) _ (omega arith)
      λ e. omega (arith, read_i8-fits code (pc + 1) e)
put_operand-Takes code pc ImmKind.imm16 oss h =
    operand-Takes _ 2 _ oss (read_i16 code (pc + 1)) _ (omega arith)
      λ e. omega (arith, read_i16-fits code (pc + 1) e)
put_operand-Takes code pc ImmKind.imm32 oss h =
    operand-Takes _ 4 _ oss (read_i32 code (pc + 1)) _ (omega arith)
      λ e. omega (arith, read_i32-fits code (pc + 1) e)
put_operand-Takes code pc ImmKind.rel16 oss h =
    operand-Takes _ 2 _ oss (read_i16 code (pc + 1)) _ (omega arith)
      λ e. omega (arith, read_i16-fits code (pc + 1) e)
put_operand-Takes code pc ImmKind.idx16 oss h =
    operand-Takes _ 2 _ oss (read_i16 code (pc + 1)) _ (omega arith)
      λ e. omega (arith, read_i16-fits code (pc + 1) e)

-- An instruction takes at least its opcode, and no byte behind the end of the code, wherever it is
-- read and whatever the table says.
pub disasm_one-within :
    (ops : OpTable) (code : Bytes) (pc : ℕ)
    → pc < length code
    → (1 ≤ (disasm_one ops code pc).1) × (pc + (disasm_one ops code pc).1 ≤ length code)
unfolding disasm_one disasm_at
disasm_one-within ops code pc h =
    let (opcode, at) = get_elem-lt code pc h in
    let inside : leb (length code) pc ≡ false = ground arith in
    let info = get_info ops opcode in
    let (some_byte, fits) = put_operand-Takes code pc info.imm (put_head pc info.name) h in
    rw (inside, at) (some_byte, omega (arith, fits))

disasm_from-ne-none :
    (ops : OpTable) (fuel : ℕ) (code : Bytes) (pc : ℕ)
    → length code ≤ pc + fuel
    → disasm_from ops fuel code pc ≢ none
unfolding disasm_from
disasm_from-ne-none ops zero code pc h e = ground arith
disasm_from-ne-none ops (suc fuel) code pc h e = elim (Bool-cases (ltb pc (length code))) [
  | inl more ↦
      let below : pc < length code = ground (arith, more) in
      let (one, within) = disasm_one-within ops code pc below in
      disasm_from-ne-none ops fuel code (pc + (disasm_one ops code pc).1) (omega (arith, one))
        (ground (arith, more))
  | inr done ↦ ground (arith, done)
]

-- The disassembly of any code comes to an end within the rounds allowed, one for each byte.
pub disasm_all-ne-none : (ops : OpTable) (code : Bytes) → disasm_all ops code ≢ none
unfolding disasm_all
disasm_all-ne-none ops code = disasm_from-ne-none ops (length code) code 0 (omega arith)
