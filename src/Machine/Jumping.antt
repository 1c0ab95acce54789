-- ===== src/Machine/Jumping.antt =====
-- Jumps over a number of bytes, as the handlers of src/compile.cpp compute them, on the machine.
use v4_front.Base.{ℕ, suc, ◌+◌, ◌-◌, ◌^◌, ◌≤◌, ◌<◌, ◌≡◌, arith, List, ◌∷◌, Bytes}
use v4_front.Platform.{Platform, Op}
use v4_front.Compiler.Emission.{jump, backward}
use v4_front.Machine.{Vm, Stacks, At, goto, Jumps, Reaches, here, next}

-- A jump forward over `n` bytes, and a jump back over `n` bytes, its own three among them.
pub goto-forward : (k n : ℕ) → n < 2 ^ 15 → goto k n ≡ k + n
unfolding goto
goto-forward k n small = ground arith

pub goto-backward : (k n : ℕ) → 0 < n → n < 2 ^ 15 → n ≤ k → goto k (backward n) ≡ k - n
unfolding goto backward
goto-backward k n some_way small room = ground arith

pub backward-lt : (n : ℕ) → backward n < 2 ^ 16
unfolding backward
backward-lt n = omega arith

module _ (pl : Platform) (vm : Vm) (laws : Jumps pl vm) where
  module _ {code : Bytes} {pc offset : ℕ} (small : offset < 2 ^ 16) where
    pub taken :
        {d r : List ℕ}
        → At code pc (jump pl Op.jz offset)
        → Reaches vm code (pc, (0 ∷ d, r)) (goto (pc + 3) offset, (d, r))
    taken {d} {r} a = next (laws.jz_taken code pc offset d r small a) here

    pub passed :
        {x : ℕ} {d r : List ℕ}
        → At code pc (jump pl Op.jz offset)
        → Reaches vm code (pc, (suc x ∷ d, r)) (pc + 3, (d, r))
    passed {x} {d} {r} a = next (laws.jz_passed code pc offset x d r small a) here

    pub jumped :
        {s : Stacks}
        → At code pc (jump pl Op.jmp offset)
        → Reaches vm code (pc, s) (goto (pc + 3) offset, s)
    jumped {s} a = next (laws.jmp code pc offset s small a) here
