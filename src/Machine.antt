-- ===== src/Machine.antt =====
-- The machine that src/compile.cpp compiles for. It belongs to the V4 engine and is a parameter: what
-- is said of it here is what docs/compiler-spec.md says of JZ and JMP, and `Machine/Opcodes` says the
-- same of the opcodes of counted loops and composite words.
pub mod Opcodes
pub mod Meaning
pub mod Jumping
pub mod Branches
pub mod Counted
pub mod Leaving
pub mod Execution
pub mod Composites
pub mod Rounds
pub mod Texts
pub mod Calls
use mathlib.Core.Path.{subst}
use v4_front.Base.{
  ℕ, zero, suc, ◌+◌, ◌-◌, ◌^◌, ◌<◌, ◌≡◌, refl, ◌∙◌, ap, sym, arith, List, [], ◌∷◌, ◌++◌,
  append_assoc, Option, some, Bytes, length, drop, drop-append, ltb, if◌then◌else◌,
}
use v4_front.Platform.{Platform, Op}
use v4_front.Compiler.Emission.{jump}

-- The data stack and the return stack, the top first.
abbrev pub Stacks : Type 0
Stacks = List ℕ × List ℕ

-- Where the machine is in the code, and its stacks.
abbrev pub Config : Type 0
Config = ℕ × Stacks

-- One instruction; `none` where the machine stops.
pub record Vm : Type 0 where
  pub step : Bytes → Config → Option Config

-- At `pc` the code has the bytes `xs`.
pub record At (code : Bytes) (pc : ℕ) (xs : Bytes) : Type 0 where
  pub behind : Bytes
  pub holds : drop pc code ≡ xs ++ behind

-- An `int16_t` offset from the place behind the jump.
unfoldable pub goto : ℕ → ℕ → ℕ
goto next offset = if ltb offset (2 ^ 15) then next + offset else next + offset - 2 ^ 16

-- JZ takes a cell and jumps if it is 0; JMP jumps. The offset is a pattern of 16 bits.
pub record Jumps (pl : Platform) (vm : Vm) : Type 0 where
  pub jz_taken :
      (code : Bytes) (pc offset : ℕ) (d r : List ℕ)
      → offset < 2 ^ 16
      → At code pc (jump pl Op.jz offset)
      → vm.step code (pc, (0 ∷ d, r)) ≡ some (goto (pc + 3) offset, (d, r))
  pub jz_passed :
      (code : Bytes) (pc offset x : ℕ) (d r : List ℕ)
      → offset < 2 ^ 16
      → At code pc (jump pl Op.jz offset)
      → vm.step code (pc, (suc x ∷ d, r)) ≡ some (pc + 3, (d, r))
  pub jmp :
      (code : Bytes) (pc offset : ℕ) (s : Stacks)
      → offset < 2 ^ 16
      → At code pc (jump pl Op.jmp offset)
      → vm.step code (pc, s) ≡ some (goto (pc + 3) offset, s)

-- The machine gets from one place and stacks to others.
pub data Reaches (vm : Vm) (code : Bytes) : Config → Config → Type 0 where
  here : {c : Config} → Reaches vm code c c
  next : {c d e : Config} → vm.step code c ≡ some d → Reaches vm code d e → Reaches vm code c e

pub Reaches-trans :
    {vm : Vm} {code : Bytes} {c d e : Config}
    → Reaches vm code c d
    → Reaches vm code d e
    → Reaches vm code c e
Reaches-trans here m = m
Reaches-trans (next s l) m = next s (Reaches-trans l m)

-- To the same place, written in another way.
pub arrive :
    {vm : Vm} {code : Bytes} {c : Config} {k k' : ℕ} {s : Stacks}
    → Reaches vm code c (k, s)
    → k ≡ k'
    → Reaches vm code c (k', s)
arrive {vm} {code} {c} {s = s} m e = subst (λ k. Reaches vm code c (k, s)) e m

-- Wherever they stand, the bytes take the machine from `s` to `s'` and behind them.
abbrev pub Does : Vm → Bytes → Stacks → Stacks → Type 0
Does vm xs s s' =
    (code : Bytes) (pc : ℕ) → At code pc xs → Reaches vm code (pc, s) (pc + length xs, s')

-- From the bytes to `n` bytes behind them.
abbrev pub Exits : Vm → Bytes → ℕ → Stacks → Stacks → Type 0
Exits vm xs n s s' =
    (code : Bytes) (pc : ℕ) → At code pc xs → Reaches vm code (pc, s) (pc + length xs + n, s')

-- From the bytes back to their start.
abbrev pub Returns : Vm → Bytes → Stacks → Stacks → Type 0
Returns vm xs s s' = (code : Bytes) (pc : ℕ) → At code pc xs → Reaches vm code (pc, s) (pc, s')

drop-nil {ℓ} : {A : Type ℓ} (n : ℕ) → drop {A = A} n [] ≡ []
drop-nil zero = refl
drop-nil (suc n) = refl

drop-drop {ℓ} : {A : Type ℓ} (n m : ℕ) (xs : List A) → drop (n + m) xs ≡ drop m (drop n xs)
drop-drop zero m xs = ap (λ k. drop k xs) (omega arith)
drop-drop (suc n) m [] = drop-nil (suc n + m) ∙ sym (drop-nil m)
drop-drop (suc n) m (x ∷ xs) =
    let e : suc n + m ≡ suc (n + m) = omega arith in ap (λ k. drop k (x ∷ xs)) e ∙ drop-drop n m xs

module _ {code : Bytes} {pc : ℕ} where
  pub At-left : (xs ys : Bytes) → At code pc (xs ++ ys) → At code pc xs
  At-left xs ys a = record {
    behind = ys ++ a.behind;
    holds = a.holds ∙ append_assoc xs ys a.behind;
  }

  pub At-right : (xs ys : Bytes) → At code pc (xs ++ ys) → At code (pc + length xs) ys
  At-right xs ys a = record {
    behind = a.behind;
    holds =
        drop-drop pc (length xs) code
        ∙ ap (drop (length xs)) (a.holds ∙ append_assoc xs ys a.behind)
        ∙ drop-append xs (ys ++ a.behind);
  }
