-- ===== src/Machine/Counted.antt =====
-- What the end of a counted loop does: the step, and the test on both ways through it.
use v4_front.Base.{
  ℕ, ◌+◌, ◌-◌, ◌^◌, ◌≤◌, ◌<◌, ◌≡◌, refl, ◌∙◌, arith, Bool, true, false, List, [], ◌∷◌, ◌++◌, Bytes,
  length,
}
use mathlib.Core.Path.{subst}
use v4_front.Platform.{Platform, Op}
use v4_front.Buffer.{i16_le, i32_le}
use v4_front.Compiler.Emission.{jump, backward, sizes}
use v4_front.Compiler.Counted.{ops, loop_step, ploop_step}
use v4_front.Structured.{do_prefix, loop_test}
use v4_front.Machine.{
  Vm, Stacks, Jumps, At, Reaches, Reaches-trans, arrive, Does, At-left, At-right,
}
use v4_front.Machine.Jumping.{goto-forward, goto-backward, backward-lt, taken, passed, jumped}
use v4_front.Machine.Opcodes.{
  Opcodes, less, flag, do_prefix-Does, test-Does, drops-Does, loop_step-Does, ploop_step-Does,
}
use v4_front.Machine.Meaning.{Counts, by_one, by_top}

module _ (pl : Platform) (vm : Vm) (jumps : Jumps pl vm) (laws : Opcodes pl vm) where
  module _ (n : ℕ) (small : n + 13 < 2 ^ 15) (i l : ℕ) (d r : List ℕ) where
    -- The test in two steps: the comparison, and JZ with the flag on top.
    compared :
        {code : Bytes} {pc : ℕ}
        → At code pc (loop_test pl n)
        → Reaches vm code (pc, (i ∷ d, l ∷ r)) (pc + 4, (flag laws.truth (less i l) ∷ l ∷ i ∷ d, r))
    compared {code} {pc} a =
        test-Does pl vm laws i l d r code pc
          (At-left (ops pl (Op.fromr ∷ Op.over ∷ Op.over ∷ Op.lt ∷ [])) _ a)

    -- The index has reached the limit.
    pub loop_test-last : less i l ≡ false → Does vm (loop_test pl n) (i ∷ d, l ∷ r) (d, r)
    unfolding i16_le
    loop_test-last over code pc a =
        let j = jump pl Op.jz 6 in
        let k = jump pl Op.jmp (backward (n + 13)) in
        let a₁ = At-right (ops pl (Op.fromr ∷ Op.over ∷ Op.over ∷ Op.lt ∷ [])) _ a in
        let a₂ = At-right k _ (At-right (do_prefix pl) _ (At-right j _ a₁)) in
        let false_flag =
          subst
            (λ b. Reaches vm code (pc, (i ∷ d, l ∷ r)) (pc + 4, (flag laws.truth b ∷ l ∷ i ∷ d, r)))
            over (compared a) in
        arrive
          (Reaches-trans false_flag (
            Reaches-trans
              (arrive (taken pl vm jumps (omega arith) (At-left j _ a₁))
                (goto-forward (pc + 4 + 3) 6 (omega arith) ∙ omega arith))
              (drops-Does pl vm laws i l d r code (pc + 4 + 3 + 3 + 3) a₂)))
          (omega arith)

    -- It has not: back over the loop, with the two of them on the return stack again.
    pub loop_test-again :
        {code : Bytes} {pc : ℕ}
        → less i l ≡ true
        → n ≤ pc
        → At code pc (loop_test pl n)
        → Reaches vm code (pc, (i ∷ d, l ∷ r)) (pc - n, (d, l ∷ i ∷ r))
    unfolding i16_le
    loop_test-again {code} {pc} under room a =
        let j = jump pl Op.jz 6 in
        let k = jump pl Op.jmp (backward (n + 13)) in
        let a₁ = At-right (ops pl (Op.fromr ∷ Op.over ∷ Op.over ∷ Op.lt ∷ [])) _ a in
        let a₂ = At-right j _ a₁ in
        let true_flag =
          subst
            (λ b. Reaches vm code (pc, (i ∷ d, l ∷ r)) (pc + 4, (flag laws.truth b ∷ l ∷ i ∷ d, r)))
            under (compared a) in
        Reaches-trans true_flag (
          Reaches-trans (passed pl vm jumps {offset = 6} (omega arith) (At-left j _ a₁)) (
            Reaches-trans
              (do_prefix-Does pl vm laws l i d r code (pc + 4 + 3) (At-left (do_prefix pl) _ a₂))
              (arrive
                (jumped pl vm jumps (backward-lt (n + 13))
                  (At-left k _ (At-right (do_prefix pl) _ a₂)))
                (goto-backward (pc + 4 + 3 + 3 + 3) (n + 13) (omega arith) small (omega arith)
                  ∙ omega arith))))

  -- The step of LOOP or of +LOOP, and its bytes.
  abbrev pub step_of : Bool → Bytes
  step_of false = loop_step pl
  step_of true = ploop_step pl

  abbrev pub step_size : Bool → ℕ
  step_size false = 7
  step_size true = 2

  pub length-step_of : (plus_loop : Bool) → length (step_of plus_loop) ≡ step_size plus_loop
  unfolding i32_le
  length-step_of false = refl
  length-step_of true = refl

  step_of-Does :
      (plus_loop : Bool) (s : Stacks) (i l : ℕ) (d r : List ℕ)
      → Counts plus_loop s i l d r
      → Does vm (step_of plus_loop) s (i ∷ d, l ∷ r)
  step_of-Does _ _ _ l d r (by_one {i = i}) = loop_step-Does pl vm laws i l d r
  step_of-Does _ _ _ l d r (by_top {n = n} {i = i}) = ploop_step-Does pl vm laws i l n d r

  -- The code of a counted loop behind its first three opcodes.
  abbrev pub loop_rest : Bool → Bytes → Bytes
  loop_rest plus_loop xs =
      xs ++ (step_of plus_loop ++ loop_test pl (length xs + step_size plus_loop))

  pub length-loop_rest :
      (plus_loop : Bool) (xs : Bytes)
      → length (loop_rest plus_loop xs) ≡ length xs + step_size plus_loop + 15
  length-loop_rest plus_loop xs = simp sizes (omega (arith, length-step_of plus_loop))

  module _ (plus_loop : Bool) (xs : Bytes) (small : length xs + 20 < 2 ^ 15) where
    -- The body and the step, up to the test.
    turned :
        {code : Bytes} {pc : ℕ} {s t : Stacks} {i l : ℕ} {d r : List ℕ}
        → At code pc (loop_rest plus_loop xs)
        → Does vm xs s t
        → Counts plus_loop t i l d r
        → Reaches vm code (pc, s) (pc + (length xs + step_size plus_loop), (i ∷ d, l ∷ r))
    turned {code} {pc} {t = t} {i} {l} {d} {r} a body counts =
        let a₁ = At-right xs _ a in
        arrive
          (Reaches-trans (body code pc (At-left xs _ a)) (
            step_of-Does plus_loop t i l d r counts code (pc + length xs)
              (At-left (step_of plus_loop) _ a₁)))
          (omega (arith, length-step_of plus_loop))

    At-test :
        {code : Bytes} {pc : ℕ}
        → At code pc (loop_rest plus_loop xs)
        → At code
            (pc + (length xs + step_size plus_loop))
            (loop_test pl (length xs + step_size plus_loop))
    At-test {code} {pc} a =
        let e : pc + length xs + length (step_of plus_loop)
            ≡ pc + (length xs + step_size plus_loop) =
          omega (arith, length-step_of plus_loop) in
        subst (λ k. At code k (loop_test pl (length xs + step_size plus_loop))) e
          (At-right (step_of plus_loop) _ (At-right xs _ a))

    step_size-le : step_size plus_loop ≤ 7
    step_size-le = elim plus_loop as (λ b. step_size b ≤ 7) [
      | true ↦ omega arith
      | false ↦ omega arith
    ]

    pub rest_last-Does :
        (s t : Stacks) (i l : ℕ) (d r : List ℕ)
        → Does vm xs s t
        → Counts plus_loop t i l d r
        → less i l ≡ false
        → Does vm (loop_rest plus_loop xs) s (d, r)
    unfolding i16_le
    rest_last-Does s t i l d r body counts over code pc a =
        let n = length xs + step_size plus_loop in
        let short : n + 13 < 2 ^ 15 = omega (arith, step_size-le) in
        arrive
          (Reaches-trans (turned a body counts)
            (loop_test-last n short i l d r over code (pc + n) (At-test a)))
          (omega (arith, length-loop_rest plus_loop xs))

    pub rest_again-Does :
        (s t s' : Stacks) (i l : ℕ) (d r : List ℕ)
        → Does vm xs s t
        → Counts plus_loop t i l d r
        → less i l ≡ true
        → Does vm (loop_rest plus_loop xs) (d, l ∷ i ∷ r) s'
        → Does vm (loop_rest plus_loop xs) s s'
    rest_again-Does s t s' i l d r body counts under later code pc a =
        let n = length xs + step_size plus_loop in
        let short : n + 13 < 2 ^ 15 = omega (arith, step_size-le) in
        Reaches-trans (turned a body counts) (
          Reaches-trans
            (arrive (loop_test-again n short i l d r under (omega arith) (At-test a)) (omega arith))
            (later code pc a))
