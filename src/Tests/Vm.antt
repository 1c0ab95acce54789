-- ===== src/Tests/Vm.antt =====
-- A machine with a few opcodes, and one word.
use v4_front.Base.{
  ◌≡◌, refl, ℕ, zero, suc, ◌+◌, ◌*◌, ◌-◌, ◌^◌, ◌<◌, ◌%◌, ◌/◌, List, ◌∷◌, [], Bytes, Option, some,
  none, arith, drop, ◌==◌, if◌then◌else◌,
}
use v4_front.Buffer.{i16_le, i32_le}
use v4_front.Machine.{Vm, Stacks, Config, goto, Jumps, here, next, Does}
use v4_front.Machine.Opcodes.{Opcodes, plus, minus, less, flag}
use v4_front.Tests.{test_platform}

unfoldable jz_step : ℕ → ℕ → List ℕ → List ℕ → Option Config
jz_step after offset [] r = none
jz_step after offset (zero ∷ d) r = some (goto after offset, (d, r))
jz_step after offset (suc x ∷ d) r = some (after, (d, r))

-- One cell from the data stack, two of them, or one from the return stack.
unfoldable with_one : List ℕ → (ℕ → List ℕ → Option Config) → Option Config
with_one [] f = none
with_one (x ∷ d) f = f x d

unfoldable with_two : List ℕ → (ℕ → ℕ → List ℕ → Option Config) → Option Config
unfolding with_one
with_two [] f = none
with_two (y ∷ d) f = with_one d (λ x d. f x y d)

unfoldable pub byte_at : ℕ → Bytes → ℕ
byte_at i [] = 0
byte_at zero (x ∷ xs) = x
byte_at (suc i) (x ∷ xs) = byte_at i xs

abbrev wide : Bytes → ℕ
wide xs = byte_at 0 xs + 256 * byte_at 1 xs

-- The opcodes that work on the stacks alone: they go on at `after`.
unfoldable stack_step : ℕ → ℕ → List ℕ → List ℕ → Option Config
unfolding with_one with_two
stack_step o after d r =
    if o == 2
    then with_one d (λ x d. some (after, (x ∷ x ∷ d, r)))
    else if o == 3
    then with_one d (λ x d. some (after, (d, r)))
    else if o == 4
    then with_two d (λ x y d. some (after, (x ∷ y ∷ d, r)))
    else if o == 5
    then with_two d (λ x y d. some (after, (x ∷ y ∷ x ∷ d, r)))
    else if o == 6
    then with_one d (λ x d. some (after, (d, x ∷ r)))
    else if o == 7
    then with_one r (λ x r. some (after, (x ∷ d, r)))
    else if o == 16
    then with_two d (λ x y d. some (after, (plus x y ∷ d, r)))
    else if o == 17
    then with_two d (λ x y d. some (after, (minus x y ∷ d, r)))
    else if o == 34
    then with_two d (λ x y d. some (after, (flag 0 (less x y) ∷ d, r)))
    else if o == 35
    then with_two d (λ x y d. some (after, (flag 0 (less y x) ∷ d, r)))
    else if o == 157
    then some (after, (0 ∷ d, r))
    else if o == 32
    then with_two d (λ x y d. some (after, (flag 0 (x == y) ∷ d, r)))
    else if o == 158
    then some (after, ((2 ^ 32 - 1) ∷ d, r))
    else if o == 129
    then with_one d (λ x d. some (after, (minus x 1 ∷ d, r)))
    else none

-- An opcode with the bytes behind it, which are zeros behind the end of the code. The machine has
-- one word, which pushes 5: CALL of it does that in one step.
unfoldable pub exec : ℕ → Bytes → ℕ → Stacks → Option Config
unfolding jz_step stack_step goto byte_at
exec o operand pc (d, r) =
    if o == 80
    then jz_step (pc + 3) (wide operand) d r
    else if o == 82
    then some (goto (pc + 3) (wide operand), (d, r))
    else if o == 0
    then some (pc + 5, ((wide operand + 2 ^ 16 * wide (drop 2 operand)) ∷ d, r))
    else if o == 83
    then some (pc + 3, (5 ∷ d, r))
    else stack_step o (pc + 1) d r

unfoldable pub exec_at : Bytes → ℕ → Stacks → Option Config
unfolding exec
exec_at [] pc s = none
exec_at (o ∷ operand) pc s = exec o operand pc s

abbrev pub test_vm : Vm
test_vm = record { step = λ bytes c. exec_at (drop c.0 bytes) c.0 c.1 }

whole_offset : (offset : ℕ) → offset < 2 ^ 16 → offset % 256 + 256 * (offset / 256 % 256) ≡ offset
whole_offset offset small = omega arith

pub test_vm-Jumps : Jumps test_platform test_vm
unfolding i16_le exec_at exec jz_step byte_at
test_vm-Jumps = record {
  jz_taken = λ bytes pc offset d r small a. rw (a.holds, whole_offset offset small) refl;
  jz_passed = λ bytes pc offset x d r small a. rw a.holds refl;
  jmp = λ bytes pc offset s small a. rw (a.holds, whole_offset offset small) refl;
}

test_vm-Opcodes_lit :
    (value : ℕ) (d r : List ℕ)
    → value < 2 ^ 32
    → Does test_vm (0 ∷ i32_le value) (d, r) (value ∷ d, r)
unfolding i32_le exec_at exec byte_at
test_vm-Opcodes_lit value d r small bytes pc a =
    let whole : value % 256
          + 256 * (value / 2 ^ 8 % 256)
          + 2 ^ 16 * (value / 2 ^ 16 % 256 + 256 * (value / 2 ^ 24 % 256))
        ≡ value =
      omega (arith, small) in
    next (rw (a.holds, whole) refl) here

pub test_vm-Opcodes : Opcodes test_platform test_vm
unfolding exec_at exec stack_step with_one with_two
test_vm-Opcodes = record {
  truth = 0;
  dup = λ x d r bytes pc a. next (rw a.holds refl) here;
  drop = λ x d r bytes pc a. next (rw a.holds refl) here;
  swap = λ x y d r bytes pc a. next (rw a.holds refl) here;
  over = λ x y d r bytes pc a. next (rw a.holds refl) here;
  tor = λ x d r bytes pc a. next (rw a.holds refl) here;
  fromr = λ x d r bytes pc a. next (rw a.holds refl) here;
  add = λ x y d r bytes pc a. next (rw a.holds refl) here;
  sub = λ x y d r bytes pc a. next (rw a.holds refl) here;
  lt = λ x y d r bytes pc a. next (rw a.holds refl) here;
  gt = λ x y d r bytes pc a. next (rw a.holds refl) here;
  eq = λ x y d r bytes pc a. next (rw a.holds refl) here;
  litn1 = λ d r bytes pc a. next (rw a.holds refl) here;
  lit0 = λ d r bytes pc a. next (rw a.holds refl) here;
  lit = test_vm-Opcodes_lit;
}

pub dec-Does :
    (x : ℕ) (d r : List ℕ) → x < 2 ^ 31 → Does test_vm (129 ∷ []) (suc x ∷ d, r) (x ∷ d, r)
unfolding exec_at exec stack_step with_one
dec-Does x d r small bytes pc a =
    let less : (suc x + 2 ^ 32 - 1) % 2 ^ 32 ≡ x = omega (arith, small) in
    next (rw (a.holds, less) refl) here
