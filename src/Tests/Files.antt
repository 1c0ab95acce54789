-- ===== src/Tests/Files.antt =====
-- The theorems on the disassembler and on files of bytecode, at inputs that meet their hypotheses.
use v4_front.Base.{
  pos, negsuc, ℕ, ◌+◌, ◌-◌, ◌≤◌, ◌<◌, ◌⊎◌, ◌≡◌, ◌≢◌, refl, true, none, some, [], ◌∷◌, ◌++◌, Bytes,
  arith, length, ◌==◌, if◌then◌else◌, hexadecimal, decimal, map,
}
use v4_front.Platform.{Op}
use v4_front.Text.{codes}
use v4_front.Compiler.Emission.{jump, backward}
use v4_front.Compiler.Driver.{V4FrontBuf}
use v4_front.Disasm.{get_info, OpTable, OpInfo, ImmKind, disasm_one, disasm_all, put_head}
use v4_front.Disasm.Output.{repeat}
use v4_front.Disasm.Lines.{line_at, instruction, ended, disasm_all-lines}
use v4_front.Disasm.Steps.{disasm_one-within, disasm_all-ne-none}
use v4_front.Disasm.Jumps.{jump_line, disasm_one-forward, disasm_one-backward}
use v4_front.Disasm.Head.{put_head-zeros}
use v4_front.BytecodeFile.{Device, header_size, save_bytecode, load_bytecode}
use v4_front.BytecodeFile.RoundTrip.{load-save, load-save_failed}
use v4_front.Tests.{test_platform}

abbrev info : Bytes → ℕ → ImmKind → OpInfo
info name opcode imm = record { name = name; opcode = opcode; imm = imm }

abbrev test_ops : OpTable
test_ops = record {
  find = λ opcode.
      if opcode == 2
      then some (info (codes "DUP") 2 ImmKind.no_imm)
      else if opcode == 82
      then some (info (codes "JMP") 82 ImmKind.rel16)
      else if opcode == 0
      then some (info (codes "LIT") 0 ImmKind.imm32)
      else none;
}

-- LIT 300, DUP, JMP over DUP to the end, DUP; the filling is by zeros, and the target is 000a.
abbrev some_code : Bytes
some_code = 0 ∷ 44 ∷ 1 ∷ 0 ∷ 0 ∷ 2 ∷ 82 ∷ 1 ∷ 0 ∷ 2 ∷ []

disassembled :
    disasm_all test_ops some_code
    ≡ some (
        codes "0000: LIT00000 300"
        ∷ codes "0005: DUP00000"
        ∷ codes "0006: JMP00000 +1 ; -> a000"
        ∷ codes "0009: DUP00000"
        ∷ [])
unfolding disasm_all hexadecimal decimal
disassembled = refl

disasm_one-within_example :
    (1 ≤ (disasm_one test_ops some_code 6).1)
    × (6 + (disasm_one test_ops some_code 6).1 ≤ length some_code)
disasm_one-within_example = disasm_one-within test_ops some_code 6 (omega arith)

disasm_all-lines_example :
    disasm_all test_ops some_code ≡ some (map (line_at test_ops some_code) (0 ∷ 5 ∷ 6 ∷ 9 ∷ []))
unfolding get_info
disasm_all-lines_example = disasm_all-lines test_ops some_code (0 ∷ 5 ∷ 6 ∷ 9 ∷ []) (
    instruction 0 0 refl (omega arith) (
      instruction 5 2 refl (omega arith)
        (instruction 6 82 refl (omega arith) (instruction 9 2 refl (omega arith) ended))))

disasm_all-ne-none_example : disasm_all test_ops some_code ≢ none
disasm_all-ne-none_example = disasm_all-ne-none test_ops some_code

abbrev dup_code : Bytes
dup_code = 2 ∷ []

abbrev jmp_info : OpInfo
jmp_info = info (codes "JMP") 82 ImmKind.rel16

disasm_one-forward_example :
    disasm_one test_ops (dup_code ++ (jump test_platform Op.jmp 1 ++ (2 ∷ []))) (length dup_code)
    ≡ (jump_line (length dup_code) (codes "JMP") (pos 1) (length dup_code + 3 + 1), 3)
disasm_one-forward_example =
    disasm_one-forward test_platform test_ops jmp_info Op.jmp dup_code (2 ∷ []) 1 refl refl
      (omega arith) (omega arith)

disasm_one-backward_example :
    disasm_one test_ops
      (dup_code ++ (jump test_platform Op.jmp (backward 4) ++ []))
      (length dup_code)
    ≡ (jump_line (length dup_code) (codes "JMP") (negsuc (4 - 1)) (length dup_code + 3 - 4), 3)
disasm_one-backward_example =
    disasm_one-backward test_platform test_ops jmp_info Op.jmp dup_code [] 4 refl refl (omega arith)
      (omega arith) (omega arith) (omega arith)

back_to_dup : jump_line 1 (codes "JMP") (negsuc 3) 0 ≡ codes "0001: JMP00000 -4 ; -> 0000"
unfolding hexadecimal decimal put_head
back_to_dup = refl

put_head-zeros_example :
    (put_head 5 (codes "DUP")).out
    ≡ repeat (4 - length (hexadecimal 5)) b'0'
      ++ (hexadecimal 5 ++ (codes ": " ++ (codes "DUP" ++ repeat (8 - length (codes "DUP")) b'0')))
put_head-zeros_example = put_head-zeros 5 (codes "DUP")

abbrev ret_only : V4FrontBuf
ret_only = record { words = []; code = 81 ∷ [] }

abbrev ret_file : Bytes
ret_file = 0x56 ∷ 0x34 ∷ 0x42 ∷ 0x43 ∷ 0 ∷ 1 ∷ 0 ∷ 0 ∷ 1 ∷ 0 ∷ 0 ∷ 0 ∷ 0 ∷ 0 ∷ 0 ∷ 0 ∷ 81 ∷ []

-- A file system with room for so many bytes, that keeps so many of those that it has taken.
abbrev disk : ℕ → ℕ → Device
disk room stored = record { opens = true; room = room; stored = stored }

save_ret : save_bytecode (disk 100 100) (some ret_only) true ≡ (pos 0, some ret_file)
unfolding save_bytecode
save_ret = refl

load-save_example :
    (load_bytecode (λ n. true) true true (some ret_file)
      ≡ (pos 0, some (record { words = []; code = 81 ∷ [] })))
    ⊎ ((100 < header_size + 1) × ((load_bytecode (λ n. true) true true (some ret_file)).1 ≡ none))
load-save_example =
    load-save (disk 100 100) ret_only (λ n. true) ret_file (omega arith) refl save_ret

abbrev cut_file : Bytes
cut_file = 0x56 ∷ 0x34 ∷ 0x42 ∷ 0x43 ∷ 0 ∷ []

-- What is still buffered does not get into the file: success is reported all the same.
save_unstored : save_bytecode (disk 100 5) (some ret_only) true ≡ (pos 0, some cut_file)
unfolding save_bytecode
save_unstored = refl

save_full : save_bytecode (disk 5 100) (some ret_only) true ≡ (negsuc 2, some cut_file)
unfolding save_bytecode
save_full = refl

load-save_failed_example : (load_bytecode (λ n. true) true true (some cut_file)).1 ≡ none
load-save_failed_example =
    load-save_failed (disk 5 100) ret_only (λ n. true) (negsuc 2) cut_file (omega arith) (λ e. cc)
      save_full
