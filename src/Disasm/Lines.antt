-- ===== src/Disasm/Lines.antt =====
-- The lines of the disassembler of src/disasm.cpp, for code that is a row of whole instructions.
use v4_front.Base.{
  ℤ, ℕ, zero, suc, ◌+◌, ◌*◌, ◌^◌, ◌≤◌, ◌≡◌, refl, ap, false, List, [], ◌∷◌, some, Bytes, map,
  length, get_elem?, get_elem-lt, leb, lt→ltb, le→ltb-false, arith,
}
use v4_front.Disasm.{
  ImmKind, OpTable, get_info, read_u8, read_i8, read_le, read_i16, read_i32, put_operand, put_head,
  disasm_at, disasm_one, disasm_from, disasm_all, next_line, signed,
}
use v4_front.Disasm.Output.{Stream}

-- The bytes of an operand.
abbrev pub operand_size : ImmKind → ℕ
operand_size ImmKind.no_imm = 0
operand_size ImmKind.imm8 = 1
operand_size ImmKind.imm16 = 2
operand_size ImmKind.imm32 = 4
operand_size ImmKind.rel16 = 2
operand_size ImmKind.idx16 = 2

-- From `pc` to its end the code is a row of whole instructions, which start at the addresses.
pub data Whole (ops : OpTable) (code : Bytes) : ℕ → List ℕ → Type 0 where
  ended : Whole ops code (length code) []
  instruction :
      {addresses : List ℕ} (pc opcode : ℕ)
      → get_elem? code pc ≡ some opcode
      → pc + suc (operand_size (get_info ops opcode).imm) ≤ length code
      → Whole ops code (pc + suc (operand_size (get_info ops opcode).imm)) addresses
      → Whole ops code pc (pc ∷ addresses)

read_le-some :
    (n : ℕ) (p : Bytes) (off : ℕ) → off + n ≤ length p → (v : ℕ) × (read_le n p off ≡ some v)
unfolding read_le
read_le-some zero p off h = (0, refl)
read_le-some (suc n) p off h =
    let (b, is) = get_elem-lt p off (omega arith) in
    let (v, rest) = read_le-some n p (off + 1) (omega arith) in
    (b + 256 * v, rw (read_le, is, rest) refl)

module _ (code : Bytes) (off : ℕ) where
  read_i8-some : off + 1 ≤ length code → (v : ℤ) × (read_i8 code off ≡ some v)
  unfolding read_i8 read_u8
  read_i8-some h =
      let (b, is) = get_elem-lt code off (omega arith) in
      (signed (2 ^ 7) b, rw (read_i8, read_u8, le→ltb-false (length code) (off + 1) h, is) refl)

  read_i16-some : off + 2 ≤ length code → (v : ℤ) × (read_i16 code off ≡ some v)
  unfolding read_i16
  read_i16-some h =
      let (v, is) = read_le-some 2 code off h in
      (signed (2 ^ 15) v, rw (read_i16, le→ltb-false (length code) (off + 2) h, is) refl)

  read_i32-some : off + 4 ≤ length code → (v : ℤ) × (read_i32 code off ≡ some v)
  unfolding read_i32
  read_i32-some h =
      let (v, is) = read_le-some 4 code off h in
      (signed (2 ^ 31) v, rw (read_i32, le→ltb-false (length code) (off + 4) h, is) refl)

put_operand-size :
    (code : Bytes) (pc : ℕ) (imm : ImmKind) (oss : Stream)
    → pc + suc (operand_size imm) ≤ length code
    → (put_operand code pc imm oss).1 ≡ suc (operand_size imm)
unfolding put_operand
put_operand-size code pc ImmKind.no_imm oss h = refl
put_operand-size code pc ImmKind.imm8 oss h =
    let (v, is) = read_i8-some code (pc + 1) (omega arith) in rw is refl
put_operand-size code pc ImmKind.imm16 oss h =
    let (v, is) = read_i16-some code (pc + 1) (omega arith) in rw is refl
put_operand-size code pc ImmKind.imm32 oss h =
    let (v, is) = read_i32-some code (pc + 1) (omega arith) in rw is refl
put_operand-size code pc ImmKind.rel16 oss h =
    let (v, is) = read_i16-some code (pc + 1) (omega arith) in rw is refl
put_operand-size code pc ImmKind.idx16 oss h =
    let (v, is) = read_i16-some code (pc + 1) (omega arith) in rw is refl

disasm_one-size :
    (ops : OpTable) (code : Bytes) (pc opcode : ℕ)
    → get_elem? code pc ≡ some opcode
    → pc + suc (operand_size (get_info ops opcode).imm) ≤ length code
    → (disasm_one ops code pc).1 ≡ suc (operand_size (get_info ops opcode).imm)
unfolding disasm_one disasm_at
disasm_one-size ops code pc opcode is h =
    let inside : leb (length code) pc ≡ false = ground arith in
    let info = get_info ops opcode in
    rw (inside, is) (put_operand-size code pc info.imm (put_head pc info.name) h)

-- The line of the instruction at an address.
abbrev pub line_at : OpTable → Bytes → ℕ → Bytes
line_at ops code pc = (disasm_one ops code pc).0

disasm_from-lines :
    (ops : OpTable) (fuel : ℕ) (code : Bytes) (pc : ℕ) (addresses : List ℕ)
    → length code ≤ pc + fuel
    → Whole ops code pc addresses
    → disasm_from ops fuel code pc ≡ some (map (line_at ops code) addresses)
unfolding disasm_from
disasm_from-lines ops zero code _ _ h ended =
    rw (le→ltb-false (length code) (length code) (omega arith)) refl
disasm_from-lines ops (suc fuel) code _ _ h ended =
    rw (le→ltb-false (length code) (length code) (omega arith)) refl
disasm_from-lines ops zero code _ _ h (instruction pc opcode is fits later) = absurd (omega arith)
disasm_from-lines ops (suc fuel) code _ _ h (instruction {addresses} pc opcode is fits later) =
    let size = disasm_one-size ops code pc opcode is fits in
    let rest =
      disasm_from-lines ops fuel code (pc + suc (operand_size (get_info ops opcode).imm)) addresses
        (omega arith) later in
    rw (lt→ltb pc (length code) (omega arith), size, rest)
      (ap (λ c. some (next_line c (line_at ops code pc) (map (line_at ops code) addresses))) size)

-- Code that is a row of whole instructions is disassembled to one line for each of them, in order,
-- the line that the disassembler gives for the instruction at its address.
pub disasm_all-lines :
    (ops : OpTable) (code : Bytes) (addresses : List ℕ)
    → Whole ops code 0 addresses
    → disasm_all ops code ≡ some (map (line_at ops code) addresses)
unfolding disasm_all
disasm_all-lines ops code addresses whole =
    disasm_from-lines ops (length code) code 0 addresses (omega arith) whole
