-- ===== src/Machine/Leaving.antt =====
-- What the code of LEAVE does, and that of the programs around it when they come to it.
use v4_front.Base.{
  ℕ, suc, ◌+◌, ◌^◌, ◌<◌, ◌≡◌, ◌∙◌, arith, List, [], ◌∷◌, ◌++◌, Bytes, length, length-append,
}
use v4_front.Platform.{Platform, Op}
use v4_front.Buffer.{i16_le}
use v4_front.Compiler.Emission.{jump, backward}
use v4_front.Compiler.Counted.{ops}
use v4_front.Machine.{
  Vm, Stacks, Jumps, Reaches-trans, arrive, Does, Exits, Returns, At-left, At-right,
}
use v4_front.Machine.Jumping.{goto-forward, goto-backward, backward-lt, passed, jumped}
use v4_front.Machine.Branches.{else_code, length-else_code, else_false-Reaches, At-else}
use v4_front.Machine.Opcodes.{Opcodes, Does-cons}

module _ {vm : Vm} {s t : Stacks} where
  -- More code behind the bytes.
  pub Exits-left :
      (m n : ℕ) (xs ys : Bytes) → Exits vm xs m s t → m ≡ length ys + n → Exits vm (xs ++ ys) n s t
  Exits-left m n xs ys first far code pc a =
      arrive (first code pc (At-left xs ys a)) (omega (arith, length-append xs ys))

  pub Exits-Does : (xs : Bytes) → Exits vm xs 0 s t → Does vm xs s t
  Exits-Does xs e code pc a = arrive (e code pc a) (omega arith)

module _ {vm : Vm} {s t u : Stacks} where
  -- More code before them.
  pub Exits-behind :
      (n : ℕ) (xs ys : Bytes) → Does vm xs s t → Exits vm ys n t u → Exits vm (xs ++ ys) n s u
  Exits-behind n xs ys first later code pc a =
      arrive
        (Reaches-trans (first code pc (At-left xs ys a))
          (later code (pc + length xs) (At-right xs ys a)))
        (omega (arith, length-append xs ys))

  -- The bytes once more.
  pub Returns-Exits :
      (n : ℕ) (xs : Bytes) → Returns vm xs s t → Exits vm xs n t u → Exits vm xs n s u
  Returns-Exits n xs turn later code pc a = Reaches-trans (turn code pc a) (later code pc a)

  pub Returns-Does : (xs : Bytes) → Returns vm xs s t → Does vm xs t u → Does vm xs s u
  Returns-Does xs turn later code pc a = Reaches-trans (turn code pc a) (later code pc a)

module _ (pl : Platform) (vm : Vm) (jumps : Jumps pl vm) where
  pub passed-Does :
      (offset x : ℕ) (d r : List ℕ)
      → offset < 2 ^ 16
      → Does vm (jump pl Op.jz offset) (suc x ∷ d, r) (d, r)
  unfolding i16_le
  passed-Does offset x d r small code pc a = passed pl vm jumps {offset = offset} small a

  pub else_false-Exits :
      (xs ys : Bytes) (n : ℕ) (d r : List ℕ) (s' : Stacks)
      → length xs + length ys + 6 < 2 ^ 15
      → Exits vm ys n (d, r) s'
      → Exits vm (else_code pl vm jumps xs ys) n (0 ∷ d, r) s'
  else_false-Exits xs ys n d r s' small body code pc a =
      arrive
        (Reaches-trans (else_false-Reaches pl vm jumps xs ys d r small a)
          (body code (pc + (length xs + 6)) (At-else pl vm jumps xs ys a)))
        (omega (arith, length-else_code pl vm jumps xs ys))

  -- The code of BEGIN and AGAIN, back to its start.
  pub again-Returns :
      (xs : Bytes) (s t : Stacks)
      → length xs + 3 < 2 ^ 15
      → Does vm xs s t
      → Returns vm (xs ++ jump pl Op.jmp (backward (length xs + 3))) s t
  again-Returns xs s t small body code pc a =
      let j = jump pl Op.jmp (backward (length xs + 3)) in
      Reaches-trans (body code pc (At-left xs j a)) (
        arrive (jumped pl vm jumps (backward-lt (length xs + 3)) (At-right xs j a)) (
          goto-backward (pc + length xs + 3) (length xs + 3) (omega arith) small (omega arith)
          ∙ omega arith))

  -- R> R> DROP DROP and the jump to the end of the loop, `n` bytes behind it.
  pub leave-Exits :
      (laws : Opcodes pl vm) (n x y : ℕ) (d r : List ℕ)
      → n < 2 ^ 15
      → Exits vm
          (ops pl (Op.fromr ∷ Op.fromr ∷ Op.drop ∷ Op.drop ∷ []) ++ jump pl Op.jmp n)
          n
          (d, x ∷ y ∷ r)
          (d, r)
  unfolding i16_le
  leave-Exits laws n x y d r small =
      Exits-behind n (ops pl (Op.fromr ∷ Op.fromr ∷ Op.drop ∷ Op.drop ∷ [])) (jump pl Op.jmp n)
        (Does-cons _ _ (laws.fromr x d (y ∷ r)) (
          Does-cons _ _ (laws.fromr y (x ∷ d) r)
            (Does-cons _ _ (laws.drop y (x ∷ d) r) (laws.drop x d r))))
        (λ code pc a.
          arrive (jumped pl vm jumps {offset = n} (omega arith) a) (goto-forward (pc + 3) n small))
