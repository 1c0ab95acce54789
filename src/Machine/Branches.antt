-- ===== src/Machine/Branches.antt =====
-- What the code of IF, UNTIL and WHILE does, on every way through it.
use v4_front.Base.{
  ℕ, suc, ◌+◌, ◌^◌, ◌<◌, ◌≡◌, ◌∙◌, arith, List, ◌∷◌, ◌++◌, Bytes, length, length-append,
}
use v4_front.Platform.{Platform, Op}
use v4_front.Compiler.Emission.{jump, backward, sizes}
use v4_front.Buffer.{i16_le}
use mathlib.Core.Path.{subst}
use v4_front.Machine.{
  Vm, Stacks, At, Jumps, Reaches, Reaches-trans, arrive, Does, Returns, At-left, At-right,
}
use v4_front.Machine.Jumping.{goto-forward, goto-backward, backward-lt, taken, passed, jumped}

module _ (pl : Platform) (vm : Vm) (laws : Jumps pl vm) where
  pub then_true-Does :
      (xs : Bytes) (x : ℕ) (d r : List ℕ) (s' : Stacks)
      → length xs < 2 ^ 15
      → Does vm xs (d, r) s'
      → Does vm (jump pl Op.jz (length xs) ++ xs) (suc x ∷ d, r) s'
  unfolding i16_le
  then_true-Does xs x d r s' small body code pc a =
      let j = jump pl Op.jz (length xs) in
      arrive
        (Reaches-trans (passed pl vm laws (omega arith) (At-left j xs a))
          (body code (pc + 3) (At-right j xs a)))
        (omega arith)

  pub then_false-Does :
      (xs : Bytes) (d r : List ℕ)
      → length xs < 2 ^ 15
      → Does vm (jump pl Op.jz (length xs) ++ xs) (0 ∷ d, r) (d, r)
  unfolding i16_le
  then_false-Does xs d r small code pc a =
      arrive (taken pl vm laws (omega arith) (At-left (jump pl Op.jz (length xs)) xs a))
        (goto-forward (pc + 3) (length xs) small ∙ omega arith)

  -- The code of IF, ELSE and THEN around two parts.
  abbrev pub else_code : Bytes → Bytes → Bytes
  else_code xs ys = jump pl Op.jz (length xs + 3) ++ (xs ++ (jump pl Op.jmp (length ys) ++ ys))

  pub length-else_code : (xs ys : Bytes) → length (else_code xs ys) ≡ length xs + length ys + 6
  length-else_code xs ys = simp sizes (omega arith)

  pub else_true-Does :
      (xs ys : Bytes) (x : ℕ) (d r : List ℕ) (s' : Stacks)
      → length xs + length ys + 6 < 2 ^ 15
      → Does vm xs (d, r) s'
      → Does vm (else_code xs ys) (suc x ∷ d, r) s'
  unfolding i16_le
  else_true-Does xs ys x d r s' small body code pc a =
      let j = jump pl Op.jz (length xs + 3) in
      let k = jump pl Op.jmp (length ys) in
      let a₁ = At-right j (xs ++ (k ++ ys)) a in
      let a₂ = At-right xs (k ++ ys) a₁ in
      arrive
        (Reaches-trans (passed pl vm laws (omega arith) (At-left j _ a)) (
          Reaches-trans (body code (pc + 3) (At-left xs _ a₁))
            (jumped pl vm laws (omega arith) (At-left k ys a₂))))
        (goto-forward (pc + 3 + length xs + 3) (length ys) (omega arith)
          ∙ omega (arith, length-else_code xs ys))

  -- To the second part.
  pub else_false-Reaches :
      {code : Bytes} {pc : ℕ} (xs ys : Bytes) (d r : List ℕ)
      → length xs + length ys + 6 < 2 ^ 15
      → At code pc (else_code xs ys)
      → Reaches vm code (pc, (0 ∷ d, r)) (pc + (length xs + 6), (d, r))
  unfolding i16_le
  else_false-Reaches {code} {pc} xs ys d r small a =
      let j = jump pl Op.jz (length xs + 3) in
      arrive (taken pl vm laws (omega arith) (At-left j _ a))
        (goto-forward (pc + 3) (length xs + 3) (omega arith) ∙ omega arith)

  pub At-else :
      {code : Bytes} {pc : ℕ} (xs ys : Bytes)
      → At code pc (else_code xs ys)
      → At code (pc + (length xs + 6)) ys
  unfolding i16_le
  At-else {code} {pc} xs ys a =
      let j = jump pl Op.jz (length xs + 3) in
      let k = jump pl Op.jmp (length ys) in
      let place : pc + 3 + length xs + 3 ≡ pc + (length xs + 6) = omega arith in
      subst (λ n. At code n ys) place (At-right k ys (At-right xs (k ++ ys) (At-right j _ a)))

  pub else_false-Does :
      (xs ys : Bytes) (d r : List ℕ) (s' : Stacks)
      → length xs + length ys + 6 < 2 ^ 15
      → Does vm ys (d, r) s'
      → Does vm (else_code xs ys) (0 ∷ d, r) s'
  else_false-Does xs ys d r s' small body code pc a =
      arrive
        (Reaches-trans (else_false-Reaches xs ys d r small a)
          (body code (pc + (length xs + 6)) (At-else xs ys a)))
        (omega (arith, length-else_code xs ys))

  -- The code of BEGIN and UNTIL around a part: the test, passed or taken.
  module _ (xs : Bytes) (small : length xs + 3 < 2 ^ 15) where
    abbrev pub until_code : Bytes
    until_code = xs ++ jump pl Op.jz (backward (length xs + 3))

    pub until_true-Does :
        (x : ℕ) (s : Stacks) (d r : List ℕ)
        → Does vm xs s (suc x ∷ d, r)
        → Does vm until_code s (d, r)
    unfolding i16_le
    until_true-Does x s d r body code pc a =
        let j = jump pl Op.jz (backward (length xs + 3)) in
        arrive
          (Reaches-trans (body code pc (At-left xs j a))
            (passed pl vm laws (backward-lt (length xs + 3)) (At-right xs j a)))
          (omega (arith, length-append xs j))

    -- Back to the start.
    pub until_false-Returns :
        (s : Stacks) (d r : List ℕ) → Does vm xs s (0 ∷ d, r) → Returns vm until_code s (d, r)
    unfolding i16_le
    until_false-Returns s d r body code pc a =
        let j = jump pl Op.jz (backward (length xs + 3)) in
        Reaches-trans (body code pc (At-left xs j a)) (
          arrive (taken pl vm laws (backward-lt (length xs + 3)) (At-right xs j a)) (
            goto-backward (pc + length xs + 3) (length xs + 3) (omega arith) small (omega arith)
            ∙ omega arith))

  -- The code of BEGIN, WHILE and REPEAT around two parts.
  module _ (xs ys : Bytes) (small : length xs + length ys + 6 < 2 ^ 15) where
    abbrev pub while_code : Bytes
    while_code =
        xs
        ++ (jump pl Op.jz (length ys + 3)
            ++ (ys ++ jump pl Op.jmp (backward (length xs + length ys + 6))))

    length-while_code : length while_code ≡ length xs + length ys + 6
    length-while_code = simp sizes (omega arith)

    pub while_false-Does :
        (s : Stacks) (d r : List ℕ) → Does vm xs s (0 ∷ d, r) → Does vm while_code s (d, r)
    unfolding i16_le
    while_false-Does s d r test code pc a =
        let j = jump pl Op.jz (length ys + 3) in
        arrive
          (Reaches-trans (test code pc (At-left xs _ a))
            (taken pl vm laws (omega arith) (At-left j _ (At-right xs _ a))))
          (goto-forward (pc + length xs + 3) (length ys + 3) (omega arith)
            ∙ omega (arith, length-while_code))

    pub while_true-Returns :
        (x : ℕ) (s t : Stacks) (d r : List ℕ)
        → Does vm xs s (suc x ∷ d, r)
        → Does vm ys (d, r) t
        → Returns vm while_code s t
    unfolding i16_le
    while_true-Returns x s t d r test body code pc a =
        let j = jump pl Op.jz (length ys + 3) in
        let n = length xs + length ys + 6 in
        let k = jump pl Op.jmp (backward n) in
        let a₁ = At-right xs (j ++ (ys ++ k)) a in
        let a₂ = At-right j (ys ++ k) a₁ in
        Reaches-trans (test code pc (At-left xs _ a)) (
          Reaches-trans (passed pl vm laws (omega arith) (At-left j _ a₁)) (
            Reaches-trans (body code (pc + length xs + 3) (At-left ys k a₂)) (
              arrive (jumped pl vm laws (backward-lt n) (At-right ys k a₂)) (
                goto-backward (pc + length xs + 3 + length ys + 3) n (omega arith) small
                  (omega arith)
                ∙ omega arith))))
