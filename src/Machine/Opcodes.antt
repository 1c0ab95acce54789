-- ===== src/Machine/Opcodes.antt =====
-- The opcodes that DO, LOOP and the composite words put into the code, as docs/compiler-spec.md and the
-- comments of src/compile.cpp have them.
use v4_front.Base.{
  ℕ, suc, ◌+◌, ◌-◌, ◌%◌, ◌^◌, ◌<◌, Bool, true, false, List, [], ◌∷◌, ◌++◌, Bytes, length,
  length-append, ltb, ◌==◌, arith,
}
use v4_front.Platform.{Platform, Op}
use v4_front.Buffer.{i32_le}
use v4_front.Structured.{do_prefix}
use v4_front.Compiler.Counted.{ops, loop_step, ploop_step}
use v4_front.Machine.{Vm, Stacks, Does, Reaches-trans, arrive, At-left, At-right}

-- Cells are patterns of 32 bits.
abbrev pub plus : ℕ → ℕ → ℕ
plus x y = (x + y) % 2 ^ 32

abbrev pub minus : ℕ → ℕ → ℕ
minus x y = (x + 2 ^ 32 - y) % 2 ^ 32

-- `<` on signed cells.
abbrev pub less : ℕ → ℕ → Bool
less x y = ltb ((x + 2 ^ 31) % 2 ^ 32) ((y + 2 ^ 31) % 2 ^ 32)

-- A flag; what a true one is, other than no 0, is left open.
abbrev pub flag : ℕ → Bool → ℕ
flag truth true = suc truth
flag truth false = 0

pub record Opcodes (pl : Platform) (vm : Vm) : Type 0 where
  pub truth : ℕ
  pub dup : (x : ℕ) (d r : List ℕ) → Does vm (pl.op_byte Op.dup ∷ []) (x ∷ d, r) (x ∷ x ∷ d, r)
  pub drop : (x : ℕ) (d r : List ℕ) → Does vm (pl.op_byte Op.drop ∷ []) (x ∷ d, r) (d, r)
  pub swap :
      (x y : ℕ) (d r : List ℕ) → Does vm (pl.op_byte Op.swap ∷ []) (y ∷ x ∷ d, r) (x ∷ y ∷ d, r)
  pub over :
      (x y : ℕ) (d r : List ℕ) → Does vm (pl.op_byte Op.over ∷ []) (y ∷ x ∷ d, r) (x ∷ y ∷ x ∷ d, r)
  pub tor : (x : ℕ) (d r : List ℕ) → Does vm (pl.op_byte Op.tor ∷ []) (x ∷ d, r) (d, x ∷ r)
  pub fromr : (x : ℕ) (d r : List ℕ) → Does vm (pl.op_byte Op.fromr ∷ []) (d, x ∷ r) (x ∷ d, r)
  pub add :
      (x y : ℕ) (d r : List ℕ) → Does vm (pl.op_byte Op.add ∷ []) (y ∷ x ∷ d, r) (plus x y ∷ d, r)
  pub sub :
      (x y : ℕ) (d r : List ℕ) → Does vm (pl.op_byte Op.sub ∷ []) (y ∷ x ∷ d, r) (minus x y ∷ d, r)
  pub lt :
      (x y : ℕ) (d r : List ℕ)
      → Does vm (pl.op_byte Op.lt ∷ []) (y ∷ x ∷ d, r) (flag truth (less x y) ∷ d, r)
  pub gt :
      (x y : ℕ) (d r : List ℕ)
      → Does vm (pl.op_byte Op.gt ∷ []) (y ∷ x ∷ d, r) (flag truth (less y x) ∷ d, r)
  pub eq :
      (x y : ℕ) (d r : List ℕ)
      → Does vm (pl.op_byte Op.eq ∷ []) (y ∷ x ∷ d, r) (flag truth (x == y) ∷ d, r)
  pub litn1 : (d r : List ℕ) → Does vm (pl.op_byte Op.litn1 ∷ []) (d, r) ((2 ^ 32 - 1) ∷ d, r)
  pub lit0 : (d r : List ℕ) → Does vm (pl.op_byte Op.lit0 ∷ []) (d, r) (0 ∷ d, r)
  pub lit :
      (value : ℕ) (d r : List ℕ)
      → value < 2 ^ 32
      → Does vm (pl.op_byte Op.lit ∷ i32_le value) (d, r) (value ∷ d, r)

pub Does-append :
    {vm : Vm} {s t u : Stacks} (xs ys : Bytes)
    → Does vm xs s t
    → Does vm ys t u
    → Does vm (xs ++ ys) s u
Does-append xs ys first later code pc a =
    arrive
      (Reaches-trans (first code pc (At-left xs ys a))
        (later code (pc + length xs) (At-right xs ys a)))
      (omega (arith, length-append xs ys))

-- One byte, and what follows it.
pub Does-cons :
    {vm : Vm} {s t u : Stacks} (o : ℕ) (ys : Bytes)
    → Does vm (o ∷ []) s t
    → Does vm ys t u
    → Does vm (o ∷ ys) s u
Does-cons o ys = Does-append (o ∷ []) ys

module _ (pl : Platform) (vm : Vm) (laws : Opcodes pl vm) where
  -- SWAP >R >R: index and limit, the index on top, go to the return stack in that order.
  pub do_prefix-Does :
      (i l : ℕ) (d r : List ℕ) → Does vm (do_prefix pl) (i ∷ l ∷ d, r) (d, i ∷ l ∷ r)
  do_prefix-Does i l d r =
      Does-cons _ _ (laws.swap l i d r)
        (Does-cons _ _ (laws.tor l (i ∷ d) r) (laws.tor i d (l ∷ r)))

  pub loop_step-Does :
      (i l : ℕ) (d r : List ℕ) → Does vm (loop_step pl) (d, i ∷ l ∷ r) (plus i 1 ∷ d, l ∷ r)
  loop_step-Does i l d r = Does-cons _ _ (laws.fromr i d (l ∷ r)) (
      Does-append (pl.op_byte Op.lit ∷ i32_le 1) (pl.op_byte Op.add ∷ [])
        (laws.lit 1 (i ∷ d) (l ∷ r) (omega arith)) (laws.add i 1 d (l ∷ r)))

  pub ploop_step-Does :
      (i l n : ℕ) (d r : List ℕ) → Does vm (ploop_step pl) (n ∷ d, i ∷ l ∷ r) (plus n i ∷ d, l ∷ r)
  ploop_step-Does i l n d r = Does-cons _ _ (laws.fromr i (n ∷ d) (l ∷ r)) (laws.add n i d (l ∷ r))

  -- R> OVER OVER <: the counter against the limit, both below the flag.
  pub test-Does :
      (x l : ℕ) (d r : List ℕ)
      → Does vm
          (ops pl (Op.fromr ∷ Op.over ∷ Op.over ∷ Op.lt ∷ []))
          (x ∷ d, l ∷ r)
          (flag laws.truth (less x l) ∷ l ∷ x ∷ d, r)
  test-Does x l d r = Does-cons _ _ (laws.fromr l (x ∷ d) r) (
      Does-cons _ _ (laws.over x l d r)
        (Does-cons _ _ (laws.over l x (x ∷ d) r) (laws.lt x l (l ∷ x ∷ d) r)))

  pub drops-Does :
      (x y : ℕ) (d r : List ℕ) → Does vm (ops pl (Op.drop ∷ Op.drop ∷ [])) (y ∷ x ∷ d, r) (d, r)
  drops-Does x y d r = Does-cons _ _ (laws.drop y (x ∷ d) r) (laws.drop x d r)
