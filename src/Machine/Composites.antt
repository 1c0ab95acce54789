-- ===== src/Machine/Composites.antt =====
-- NEGATE, the words that test for 0, TRUE and FALSE, and ?DUP, ABS, MIN and MAX of `compile_internal`
-- in src/compile.cpp on the machine. The code of the last four holds jumps, and is the layout of IF ... THEN and of IF ... ELSE ... THEN.
use v4_front.Base.{
  ℕ, suc, ◌≡◌, ◌==◌, ◌-◌, ◌^◌, refl, arith, Bool, true, false, List, [], ◌∷◌, if◌then◌else◌,
}
use mathlib.Core.Path.{subst}
use v4_front.Platform.{Platform, Op}
use v4_front.Buffer.{i16_le}
use v4_front.Compiler.Composite.{
  Composite, negate, qdup, abs, min, max, zero_eq, zero_lt, zero_gt, true_flag, false_flag,
  composite_bytes, pieces,
}
use v4_front.Compiler.Counted.{ops}
use v4_front.Structured.{Prog, plain, seq, if_then, if_else, layout_with, layout}
use v4_front.Machine.{Vm, Jumps, Does}
use v4_front.Machine.Meaning.{Means, plainly, in_turn, then_true, then_false, else_true, else_false}
use v4_front.Machine.Opcodes.{Opcodes, minus, less, flag, Does-cons}
use v4_front.Machine.Execution.{layout-Does}

-- The stack comments of the words, the top first here; MIN and MAX compare signed cells. ?DUP has
-- the effect that its code has.
pub data Branching (truth : ℕ) : Composite → List ℕ → List ℕ → Type 0 where
  negate_effect : {n : ℕ} {d : List ℕ} → Branching truth negate (n ∷ d) (minus 0 n ∷ d)
  abs_effect :
      {n : ℕ} {d : List ℕ} → Branching truth abs (n ∷ d) ((if less n 0 then minus 0 n else n) ∷ d)
  min_effect :
      {a b : ℕ} {d : List ℕ} → Branching truth min (b ∷ a ∷ d) ((if less a b then a else b) ∷ d)
  max_effect :
      {a b : ℕ} {d : List ℕ} → Branching truth max (b ∷ a ∷ d) ((if less b a then a else b) ∷ d)
  zero_eq_effect : {n : ℕ} {d : List ℕ} → Branching truth zero_eq (n ∷ d) (flag truth (n == 0) ∷ d)
  zero_lt_effect :
      {n : ℕ} {d : List ℕ} → Branching truth zero_lt (n ∷ d) (flag truth (less n 0) ∷ d)
  zero_gt_effect :
      {n : ℕ} {d : List ℕ} → Branching truth zero_gt (n ∷ d) (flag truth (less 0 n) ∷ d)
  true_effect : {d : List ℕ} → Branching truth true_flag d ((2 ^ 32 - 1) ∷ d)
  false_effect : {d : List ℕ} → Branching truth false_flag d (0 ∷ d)
  qdup_zero : {d : List ℕ} → Branching truth qdup (0 ∷ d) (0 ∷ 0 ∷ d)
  qdup_other : {x : ℕ} {d : List ℕ} → Branching truth qdup (suc x ∷ d) (suc x ∷ suc x ∷ suc x ∷ d)

module _ (pl : Platform) (vm : Vm) (jumps : Jumps pl vm) (laws : Opcodes pl vm) where
  abbrev run : List Op → Prog
  run os = plain (ops pl os)

  abbrev negate_below : Prog
  negate_below = if_then (run (Op.lit0 ∷ Op.swap ∷ Op.sub ∷ []))

  abbrev abs_prog : Prog
  abs_prog = seq (run (Op.dup ∷ Op.lit0 ∷ Op.lt ∷ [])) negate_below

  abbrev take_one : Prog
  take_one = if_else (run (Op.drop ∷ [])) (run (Op.swap ∷ Op.drop ∷ []))

  abbrev select_prog : Op → Prog
  select_prog test = seq (run (Op.over ∷ Op.over ∷ test ∷ [])) take_one

  abbrev qdup_prog : Prog
  qdup_prog = seq (run (Op.dup ∷ Op.dup ∷ [])) (if_then (run (Op.dup ∷ [])))

  negate-Does :
      (n : ℕ) (d r : List ℕ)
      → Does vm (ops pl (Op.lit0 ∷ Op.swap ∷ Op.sub ∷ [])) (n ∷ d, r) (minus 0 n ∷ d, r)
  negate-Does n d r =
      Does-cons _ _ (laws.lit0 (n ∷ d) r) (Does-cons _ _ (laws.swap n 0 d r) (laws.sub 0 n d r))

  -- The flag of a test, and one of two ways on.
  abs-Means :
      (n : ℕ) (d r : List ℕ) (b : Bool)
      → less n 0 ≡ b
      → Means vm abs_prog (n ∷ d, r) ((if b then minus 0 n else n) ∷ d, r)
  abs-Means n d r b is =
      in_turn {t = (flag laws.truth b ∷ n ∷ d, r)}
        (plainly _ (
          Does-cons _ _ (laws.dup n d r) (
            Does-cons _ _ (laws.lit0 (n ∷ n ∷ d) r) (
              subst
                (λ c.
                  Does vm (pl.op_byte Op.lt ∷ []) (0 ∷ n ∷ n ∷ d, r) (flag laws.truth c ∷ n ∷ d, r))
                is (laws.lt n 0 (n ∷ d) r)))))
        (elim b
          as (λ b.
            Means vm negate_below (flag laws.truth b ∷ n ∷ d, r)
              ((if b then minus 0 n else n) ∷ d, r)) [
                | true ↦ then_true laws.truth (plainly _ (negate-Does n d r))
                | false ↦ then_false
              ])

  select-Means :
      (test : Op) (x y : ℕ) (d r : List ℕ) (b : Bool)
      → Does vm (pl.op_byte test ∷ []) (y ∷ x ∷ y ∷ x ∷ d, r) (flag laws.truth b ∷ y ∷ x ∷ d, r)
      → Means vm (select_prog test) (y ∷ x ∷ d, r) ((if b then x else y) ∷ d, r)
  select-Means test x y d r b tested =
      in_turn {t = (flag laws.truth b ∷ y ∷ x ∷ d, r)}
        (plainly _
          (Does-cons _ _ (laws.over x y d r) (Does-cons _ _ (laws.over y x (x ∷ d) r) tested)))
        (elim b
          as (λ b.
            Means vm take_one (flag laws.truth b ∷ y ∷ x ∷ d, r) ((if b then x else y) ∷ d, r)) [
              | true ↦ else_true laws.truth (plainly _ (laws.drop y (x ∷ d) r))
              | false ↦
                  else_false (plainly _ (Does-cons _ _ (laws.swap x y d r) (laws.drop x (y ∷ d) r)))
            ])

  qdup_zero-Means : (d r : List ℕ) → Means vm qdup_prog (0 ∷ d, r) (0 ∷ 0 ∷ d, r)
  qdup_zero-Means d r =
      in_turn (plainly _ (Does-cons _ _ (laws.dup 0 d r) (laws.dup 0 (0 ∷ d) r))) then_false

  qdup_other-Means :
      (x : ℕ) (d r : List ℕ) → Means vm qdup_prog (suc x ∷ d, r) (suc x ∷ suc x ∷ suc x ∷ d, r)
  qdup_other-Means x d r =
      in_turn (plainly _ (Does-cons _ _ (laws.dup (suc x) d r) (laws.dup (suc x) (suc x ∷ d) r)))
        (then_true x (plainly _ (laws.dup (suc x) (suc x ∷ d) r)))

  -- On the machine, the code of NEGATE, ABS, MIN, MAX, 0=, 0<, 0>, TRUE and FALSE does what the
  -- stack comment of the word says, on signed cells, and leaves the return stack alone. That of ?DUP leaves two zeros for 0, and
  -- three copies of any other cell.
  pub composite_bytes-Does :
      (w : Composite) (d d' r : List ℕ)
      → Branching laws.truth w d d'
      → Does vm (composite_bytes pl w) (d, r) (d', r)
  unfolding composite_bytes pieces layout layout_with i16_le
  composite_bytes-Does _ _ _ r (negate_effect {n} {d}) = negate-Does n d r
  composite_bytes-Does _ _ _ r (abs_effect {n} {d}) =
      layout-Does pl vm jumps laws abs_prog _ _ (abs-Means n d r (less n 0) refl) (omega arith)
  composite_bytes-Does _ _ _ r (min_effect {a} {b} {d}) =
      layout-Does pl vm jumps laws (select_prog Op.lt) _ _
        (select-Means Op.lt a b d r (less a b) (laws.lt a b (b ∷ a ∷ d) r)) (omega arith)
  composite_bytes-Does _ _ _ r (max_effect {a} {b} {d}) =
      layout-Does pl vm jumps laws (select_prog Op.gt) _ _
        (select-Means Op.gt a b d r (less b a) (laws.gt a b (b ∷ a ∷ d) r)) (omega arith)
  composite_bytes-Does _ _ _ r (zero_eq_effect {n} {d}) =
      Does-cons _ _ (laws.lit0 (n ∷ d) r) (laws.eq n 0 d r)
  composite_bytes-Does _ _ _ r (zero_lt_effect {n} {d}) =
      Does-cons _ _ (laws.lit0 (n ∷ d) r) (laws.lt n 0 d r)
  composite_bytes-Does _ _ _ r (zero_gt_effect {n} {d}) =
      Does-cons _ _ (laws.lit0 (n ∷ d) r) (laws.gt n 0 d r)
  composite_bytes-Does _ d _ r true_effect = laws.litn1 d r
  composite_bytes-Does _ d _ r false_effect = laws.lit0 d r
  composite_bytes-Does _ _ _ r (qdup_zero {d}) =
      layout-Does pl vm jumps laws qdup_prog _ _ (qdup_zero-Means d r) (omega arith)
  composite_bytes-Does _ _ _ r (qdup_other {x} {d}) =
      layout-Does pl vm jumps laws qdup_prog _ _ (qdup_other-Means x d r) (omega arith)
