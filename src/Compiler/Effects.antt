-- ===== src/Compiler/Effects.antt =====
-- What the composite words of src/compile.cpp that only move cells do on a stack machine. The
-- machine of the V4 engine is a parameter, with the documented effects of the opcodes as laws.
use v4_front.Base.{ℕ, ◌≡◌, List, [], ◌∷◌, Option, none, some}
use v4_front.Platform.{Op}
use v4_front.Compiler.Composite.{
  Composite, j, rot, nip, tuck, two_dup, two_drop, two_swap, two_over, Piece, op, byte, pieces,
}

-- The data stack and the return stack, the top first.
abbrev pub Stacks : Type 0
Stacks = List ℕ × List ℕ

-- The machine's step of an opcode without operand.
pub record Machine : Type 0 where
  pub step : Op → Stacks → Option Stacks

pub record MovesCells (m : Machine) : Type 0 where
  pub dup : (x : ℕ) (d r : List ℕ) → m.step Op.dup (x ∷ d, r) ≡ some (x ∷ x ∷ d, r)
  pub drop : (x : ℕ) (d r : List ℕ) → m.step Op.drop (x ∷ d, r) ≡ some (d, r)
  pub swap : (x y : ℕ) (d r : List ℕ) → m.step Op.swap (y ∷ x ∷ d, r) ≡ some (x ∷ y ∷ d, r)
  pub over : (x y : ℕ) (d r : List ℕ) → m.step Op.over (y ∷ x ∷ d, r) ≡ some (x ∷ y ∷ x ∷ d, r)
  pub tor : (x : ℕ) (d r : List ℕ) → m.step Op.tor (x ∷ d, r) ≡ some (d, x ∷ r)
  pub fromr : (x : ℕ) (d r : List ℕ) → m.step Op.fromr (d, x ∷ r) ≡ some (x ∷ d, r)

abbrev pub after : Option Stacks → (Stacks → Option Stacks) → Option Stacks
after none f = none
after (some s) f = f s

-- A run of opcodes; an operand byte is none.
unfoldable pub run_pieces : Machine → List Piece → Stacks → Option Stacks
run_pieces m [] s = some s
run_pieces m (op o ∷ ps) s = after (m.step o s) (run_pieces m ps)
run_pieces m (byte n ∷ ps) s = none

-- The stack comments of the words, `( before -- after )`, with the top first here.
pub data Effect : Composite → List ℕ → List ℕ → Type 0 where
  rot_effect : {a b c : ℕ} {d : List ℕ} → Effect rot (c ∷ b ∷ a ∷ d) (a ∷ c ∷ b ∷ d)
  nip_effect : {a b : ℕ} {d : List ℕ} → Effect nip (b ∷ a ∷ d) (b ∷ d)
  tuck_effect : {a b : ℕ} {d : List ℕ} → Effect tuck (b ∷ a ∷ d) (b ∷ a ∷ b ∷ d)
  two_dup_effect : {a b : ℕ} {d : List ℕ} → Effect two_dup (b ∷ a ∷ d) (b ∷ a ∷ b ∷ a ∷ d)
  two_drop_effect : {a b : ℕ} {d : List ℕ} → Effect two_drop (b ∷ a ∷ d) d
  two_swap_effect :
      {a b c e : ℕ} {d : List ℕ} → Effect two_swap (e ∷ c ∷ b ∷ a ∷ d) (b ∷ a ∷ e ∷ c ∷ d)
  two_over_effect :
      {a b c e : ℕ} {d : List ℕ} → Effect two_over (e ∷ c ∷ b ∷ a ∷ d) (b ∷ a ∷ e ∷ c ∷ b ∷ a ∷ d)

module _ (m : Machine) (l : MovesCells m) where
  -- On a machine whose DUP, DROP, SWAP, OVER, >R and R> have their documented effects, the code of
  -- ROT, NIP, TUCK, 2DUP, 2DROP, 2SWAP and 2OVER does what the stack comment of the word says, and
  -- leaves the return stack alone.
  pub run_pieces-Effect :
      (w : Composite) (d d' r : List ℕ)
      → Effect w d d'
      → run_pieces m (pieces w) (d, r) ≡ some (d', r)
  unfolding run_pieces pieces
  run_pieces-Effect _ _ _ r rot_effect = simp (l.swap, l.tor, l.fromr)
  run_pieces-Effect _ _ _ r nip_effect = simp (l.drop, l.swap)
  run_pieces-Effect _ _ _ r tuck_effect = simp (l.swap, l.over)
  run_pieces-Effect _ _ _ r two_dup_effect = simp l.over
  run_pieces-Effect _ _ _ r two_drop_effect = simp l.drop
  run_pieces-Effect _ _ _ r two_swap_effect = simp (l.swap, l.tor, l.fromr)
  run_pieces-Effect _ _ _ r two_over_effect = simp (l.swap, l.over, l.tor, l.fromr)

  -- On such a machine J, with the loop's own index and limit above the outer index `o` on the return
  -- stack, leaves its own index on the data stack, and one more copy of `o` on the return stack.
  pub run_pieces-j :
      (index limit o : ℕ) (d r : List ℕ)
      → run_pieces m (pieces j) (d, index ∷ limit ∷ o ∷ r) ≡ some (index ∷ d, limit ∷ o ∷ o ∷ r)
  unfolding run_pieces pieces
  run_pieces-j index limit o d r = simp (l.dup, l.tor, l.fromr)
