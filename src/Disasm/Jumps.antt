-- ===== src/Disasm/Jumps.antt =====
-- The compiler's jumps, as the disassembler writes them out.
use v4_front.Base.{
  ℤ, pos, negsuc, ℕ, suc, ◌+◌, ◌-◌, ◌*◌, ◌/◌, ◌%◌, ◌^◌, ◌≤◌, ◌<◌, ◌≡◌, refl, sym, ap, ◌∙◌, [], ◌∷◌,
  ◌++◌, some, Bytes, length, length-append, append_assoc, ap₂, true, false, get_elem?, arith, ltb,
  leb, decimal, hexadecimal,
}
use v4_front.Platform.{Platform, Op}
use v4_front.Buffer.{i16_le}
use v4_front.Compiler.Emission.{jump, backward}
use v4_front.Text.{codes}
use v4_front.Disasm.{
  read_i16, read_le, signed, target_of, OpTable, OpInfo, ImmKind, get_info, put_operand, put_head,
  disasm_at, disasm_one,
}
use v4_front.Disasm.Output.{Stream, repeat, put_int, append_hex_addr}

get_elem-behind :
    (pre post : Bytes) (i : ℕ) → get_elem? (pre ++ post) (length pre + i) ≡ get_elem? post i
get_elem-behind [] post i = ap (get_elem? post) (omega arith)
get_elem-behind (x ∷ pre) post i =
    let e : suc (length pre) + i ≡ suc (length pre + i) = omega arith in
    ap (get_elem? (x ∷ (pre ++ post))) e ∙ get_elem-behind pre post i

read_two :
    (code : Bytes) (off a b : ℕ)
    → off + 2 ≤ length code
    → get_elem? code off ≡ some a
    → get_elem? code (off + 1) ≡ some b
    → read_i16 code off ≡ some (signed (2 ^ 15) (a + 256 * b))
unfolding read_i16 read_le
read_two code off a b fits low high =
    let inside : ltb (length code) (off + 2) ≡ false = ground arith in
    rw (read_i16, inside, low, high) (ap (λ v. some (signed (2 ^ 15) v)) (omega arith))

-- The two bytes of a 16-bit pattern, behind any code.
read_i16-i16_le :
    (pre post : Bytes) (v : ℕ)
    → v < 2 ^ 16
    → read_i16 (pre ++ (i16_le v ++ post)) (length pre) ≡ some (signed (2 ^ 15) v)
unfolding i16_le
read_i16-i16_le pre post v h =
    let code = pre ++ (i16_le v ++ post) in
    let start : length pre ≡ length pre + 0 = omega arith in
    let low : get_elem? code (length pre) ≡ some (v % 256) =
      ap (get_elem? code) start ∙ get_elem-behind pre (i16_le v ++ post) 0 in
    read_two code (length pre) (v % 256) (v / 256 % 256)
      (omega (arith, length-append pre (i16_le v ++ post))) low
      (get_elem-behind pre (i16_le v ++ post) 1)
    ∙ ap (λ n. some (signed (2 ^ 15) n)) (omega arith)

read_jump :
    (pl : Platform) (o : Op) (pre post : Bytes) (v : ℕ)
    → v < 2 ^ 16
    → read_i16 (pre ++ (jump pl o v ++ post)) (length pre + 1) ≡ some (signed (2 ^ 15) v)
read_jump pl o pre post v h =
    let front = pre ++ (pl.op_byte o ∷ []) in
    ap₂ read_i16 (sym (append_assoc pre (pl.op_byte o ∷ []) (i16_le v ++ post)))
      (sym (length-append pre (pl.op_byte o ∷ [])))
    ∙ read_i16-i16_le front post v h

-- What is written for an offset: a sign, and its decimal digits.
abbrev pub offset_text : ℤ → Bytes
offset_text (pos n) = codes "+" ++ decimal n
offset_text (negsuc n) = [] ++ (b'-' ∷ decimal (suc n))

-- The line of a jump: its head, the offset, and the target in hexadecimal, which is filled with zeros
-- on the right to four columns.
abbrev pub jump_line : ℕ → Bytes → ℤ → ℕ → Bytes
jump_line pc name off target =
    (put_head pc name).out
    ++ (codes " "
        ++ (offset_text off
            ++ (codes " ; -> "
                ++ (hexadecimal target ++ repeat (4 - length (hexadecimal target)) b'0'))))

append_to_right :
    (h a b c d e : Bytes) → ((((h ++ a) ++ b) ++ c) ++ d) ++ e ≡ h ++ (a ++ ((b ++ c) ++ (d ++ e)))
append_to_right h a b c d e =
    append_assoc (((h ++ a) ++ b) ++ c) d e
    ∙ append_assoc ((h ++ a) ++ b) c (d ++ e)
    ∙ append_assoc (h ++ a) b (c ++ (d ++ e))
    ∙ append_assoc h a (b ++ (c ++ (d ++ e)))
    ∙ ap (λ l. h ++ (a ++ l)) (sym (append_assoc b c (d ++ e)))

put_operand-rel16 :
    (code : Bytes) (pc : ℕ) (name : Bytes) (off : ℤ)
    → read_i16 code (pc + 1) ≡ some off
    → (put_operand code pc ImmKind.rel16 (put_head pc name)).0.out
      ≡ jump_line pc name off (target_of (pc + 1 + 2) off)
unfolding put_operand put_head put_int append_hex_addr
put_operand-rel16 code pc name (pos n) read =
    rw read (
      append_to_right (put_head pc name).out (codes " ") (codes "+") (decimal n) (codes " ; -> ") _)
put_operand-rel16 code pc name (negsuc n) read = rw read (
    append_to_right (put_head pc name).out (codes " ") [] (b'-' ∷ decimal (suc n)) (codes " ; -> ")
      _)

put_operand-consumed :
    (code : Bytes) (pc : ℕ) (oss : Stream) (off : ℤ)
    → read_i16 code (pc + 1) ≡ some off
    → (put_operand code pc ImmKind.rel16 oss).1 ≡ 3
unfolding put_operand
put_operand-consumed code pc oss off read = rw read refl

get_info-found :
    (ops : OpTable) (opcode : ℕ) {info : OpInfo}
    → ops.find opcode ≡ some info
    → get_info ops opcode ≡ info
unfolding get_info
get_info-found ops opcode found = rw (get_info, found) refl

-- The line of an instruction with a 16-bit relative operand that is there.
disasm_one-rel16 :
    (ops : OpTable) (info : OpInfo) (code : Bytes) (pc opcode : ℕ) (off : ℤ)
    → pc < length code
    → get_elem? code pc ≡ some opcode
    → ops.find opcode ≡ some info
    → info.imm ≡ ImmKind.rel16
    → read_i16 code (pc + 1) ≡ some off
    → disasm_one ops code pc ≡ (jump_line pc info.name off (target_of (pc + 1 + 2) off), 3)
unfolding disasm_one disasm_at
disasm_one-rel16 ops info code pc opcode off inside there found kind read =
    let more : leb (length code) pc ≡ false = ground arith in
    let line : ImmKind → OpInfo → Stream × ℕ = λ k i. put_operand code pc k (put_head pc i.name) in
    let whole : disasm_one ops code pc ≡ disasm_at ops code pc (some opcode) =
      rw (disasm_one, more, there) refl in
    whole
    ∙ ap (λ i. ((line (i.imm) i).0.out, (line (i.imm) i).1)) (get_info-found ops opcode found)
    ∙ ap (λ k. ((line k info).0.out, (line k info).1)) kind
    ∙ ap₂ (λ l n. (l, n)) (put_operand-rel16 code pc info.name off read)
        (put_operand-consumed code pc (put_head pc info.name) off read)

disasm_one-jump :
    (pl : Platform) (ops : OpTable) (info : OpInfo) (o : Op) (pre post : Bytes) (v target : ℕ)
    → ops.find (pl.op_byte o) ≡ some info
    → info.imm ≡ ImmKind.rel16
    → v < 2 ^ 16
    → target_of (length pre + 1 + 2) (signed (2 ^ 15) v) ≡ target
    → disasm_one ops (pre ++ (jump pl o v ++ post)) (length pre)
      ≡ (jump_line (length pre) info.name (signed (2 ^ 15) v) target, 3)
disasm_one-jump pl ops info o pre post v target found kind small goes =
    let code = pre ++ (jump pl o v ++ post) in
    let start : length pre ≡ length pre + 0 = omega arith in
    disasm_one-rel16 ops info code (length pre) (pl.op_byte o) (signed (2 ^ 15) v)
      (omega (arith, length-append pre (jump pl o v ++ post)))
      (ap (get_elem? code) start ∙ get_elem-behind pre (jump pl o v ++ post) 0) found kind
      (read_jump pl o pre post v small)
    ∙ ap (λ t. (jump_line (length pre) info.name (signed (2 ^ 15) v) t, 3)) goes

-- Where the opcode of a jump is in the table with a 16-bit relative operand, a jump forward over fewer
-- than 2 ^ 15 bytes takes three bytes, and its line has the offset with a plus sign and the address of
-- the byte behind those bytes, if that is below 2 ^ 64; an address of fewer than four hexadecimal
-- digits is filled with zeros on the right.
pub disasm_one-forward :
    (pl : Platform) (ops : OpTable) (info : OpInfo) (o : Op) (pre post : Bytes) (distance : ℕ)
    → ops.find (pl.op_byte o) ≡ some info
    → info.imm ≡ ImmKind.rel16
    → distance < 2 ^ 15
    → length pre + 3 + distance < 2 ^ 64
    → disasm_one ops (pre ++ (jump pl o distance ++ post)) (length pre)
      ≡ (jump_line (length pre) info.name (pos distance) (length pre + 3 + distance), 3)
unfolding target_of
disasm_one-forward pl ops info o pre post distance found kind near small =
    let positive : ltb distance (2 ^ 15) ≡ true = ground arith in
    let is : signed (2 ^ 15) distance ≡ pos distance = rw positive refl in
    disasm_one-jump pl ops info o pre post distance (length pre + 3 + distance) found kind
      (omega arith) (ap (target_of (length pre + 1 + 2)) is ∙ omega arith)
    ∙ ap (λ z. (jump_line (length pre) info.name z (length pre + 3 + distance), 3)) is

-- Where the opcode of a jump is in the table with a 16-bit relative operand, a jump back over at least
-- three and at most 2 ^ 15 bytes, its own three among them, takes three bytes, and its line has the
-- offset with a minus sign and the address of the first of those bytes; an address of fewer than four
-- hexadecimal digits is filled with zeros on the right.
pub disasm_one-backward :
    (pl : Platform) (ops : OpTable) (info : OpInfo) (o : Op) (pre post : Bytes) (distance : ℕ)
    → ops.find (pl.op_byte o) ≡ some info
    → info.imm ≡ ImmKind.rel16
    → 3 ≤ distance
    → distance ≤ 2 ^ 15
    → distance ≤ length pre + 3
    → length pre + 3 < 2 ^ 64
    → disasm_one ops (pre ++ (jump pl o (backward distance) ++ post)) (length pre)
      ≡ (jump_line (length pre) info.name (negsuc (distance - 1)) (length pre + 3 - distance), 3)
unfolding target_of backward
disasm_one-backward pl ops info o pre post distance found kind some_bytes near inside small =
    let v = (2 ^ 16 - distance % 2 ^ 16) % 2 ^ 16 in
    let negative : ltb v (2 ^ 15) ≡ false = ground arith in
    let is : signed (2 ^ 15) v ≡ negsuc (distance - 1) = rw negative (ap negsuc (omega arith)) in
    disasm_one-jump pl ops info o pre post v (length pre + 3 - distance) found kind (omega arith)
      (ap (target_of (length pre + 1 + 2)) is ∙ omega arith)
    ∙ ap (λ z. (jump_line (length pre) info.name z (length pre + 3 - distance), 3)) is
