-- ===== src/Machine/Execution.antt =====
-- The layout of a structured program, run on the machine, does what the program means.
use v4_front.Base.{
  ℕ, suc, ◌+◌, ◌^◌, ◌≤◌, ◌<◌, ◌≡◌, arith, Bool, true, false, ◌∷◌, ◌++◌, Bytes, length,
  length-append,
}
use v4_front.Platform.{Platform, Op}
use v4_front.Buffer.{i16_le}
use v4_front.Compiler.Emission.{jump, backward, sizes}
use v4_front.Structured.{
  Prog, begin_until, begin_again, begin_while, size_of, layout_with, layout, do_prefix, loop_test,
}
use v4_front.Structured.Filling.{length-layout_with}
use v4_front.Machine.{Vm, Stacks, Jumps, Does, Exits}
use v4_front.Machine.Meaning.{
  Means, plainly, in_turn, then_true, then_false, else_true, else_false, until_true, until_false,
  while_false, while_true, counted, counted_by, Turns, last, once_more, left, Leaves, leave_here,
  leave_first, leave_second, leave_then, leave_true, leave_false, leave_until, leave_until_later,
  leave_again, leave_again_later, leave_test, leave_body, leave_while_later,
}
use v4_front.Machine.Branches.{
  then_true-Does, then_false-Does, else_true-Does, else_false-Does, until_true-Does,
  until_false-Returns, while_false-Does, while_true-Returns,
}
use v4_front.Machine.Opcodes.{Opcodes, Does-append, do_prefix-Does}
use v4_front.Machine.Counted.{
  step_of, step_size, length-step_of, loop_rest, rest_last-Does, rest_again-Does,
}
use v4_front.Machine.Leaving.{
  Exits-left, Exits-behind, Exits-Does, Returns-Exits, Returns-Does, passed-Does, else_false-Exits,
  again-Returns, leave-Exits,
}

module _ (pl : Platform) (vm : Vm) (jumps : Jumps pl vm) (laws : Opcodes pl vm) where
  -- The code of a part that ends `n` bytes before the end of the loop around it.
  abbrev laid : Prog → ℕ → Bytes
  laid = layout_with pl (λ k. k)

  length-laid : (a : Prog) (n : ℕ) → length (laid a n) ≡ size_of a
  length-laid = length-layout_with pl (λ k. k)

  -- The step and the test of a counted loop.
  abbrev tail_size : Bool → ℕ
  tail_size plus_loop = step_size pl vm jumps laws plus_loop + 15

  abbrev tail_of : Bool → ℕ → Bytes
  tail_of plus_loop n =
      step_of pl vm jumps laws plus_loop ++ loop_test pl (n + step_size pl vm jumps laws plus_loop)

  length-tail_of : (plus_loop : Bool) (n : ℕ) → length (tail_of plus_loop n) ≡ tail_size plus_loop
  length-tail_of plus_loop n = simp sizes (omega (arith, length-step_of pl vm jumps laws plus_loop))

  le-tail_size : (plus_loop : Bool) → 17 ≤ tail_size plus_loop
  le-tail_size true = omega arith
  le-tail_size false = omega arith

  -- What stands behind the test of WHILE.
  abbrev while_tail : Bytes → ℕ → Bytes
  while_tail ys m = jump pl Op.jz (length ys + 3) ++ (ys ++ jump pl Op.jmp (backward m))

  length-while_tail : (ys : Bytes) (m : ℕ) → length (while_tail ys m) ≡ length ys + 6
  length-while_tail ys m = simp sizes (omega arith)

  mutual
    unfolding layout_with i16_le

    -- A part that is shorter than 2 ^ 15 bytes takes the machine from its start to its end with the
    -- stacks that it means, wherever it stands in the code.
    laid-Does :
        (a : Prog) (n : ℕ) (s s' : Stacks)
        → Means vm a s s'
        → size_of a < 2 ^ 15
        → Does vm (laid a n) s s'
    laid-Does _ n s s' (plainly xs does) small = does
    laid-Does _ n s s' (in_turn {a = a} {b} {t = t} m m') small =
        Does-append (laid a (size_of b + n)) (laid b n)
          (laid-Does a (size_of b + n) s t m (omega arith)) (laid-Does b n t s' m' (omega arith))
    laid-Does _ n _ s' (then_true {a = a} x {d} {r} m) small =
        then_true-Does pl vm jumps (laid a n) x d r s' (omega (arith, length-laid a n))
          (laid-Does a n (d, r) s' m (omega arith))
    laid-Does _ n _ _ (then_false {a = a} {d} {r}) small =
        then_false-Does pl vm jumps (laid a n) d r (omega (arith, length-laid a n))
    laid-Does _ n _ s' (else_true {a = a} {b} x {d} {r} m) small =
        let k = 3 + size_of b + n in
        else_true-Does pl vm jumps (laid a k) (laid b n) x d r s'
          (omega (arith, length-laid a k, length-laid b n))
          (laid-Does a k (d, r) s' m (omega arith))
    laid-Does _ n _ s' (else_false {a = a} {b} {d} {r} m) small =
        let k = 3 + size_of b + n in
        else_false-Does pl vm jumps (laid a k) (laid b n) d r s'
          (omega (arith, length-laid a k, length-laid b n))
          (laid-Does b n (d, r) s' m (omega arith))
    laid-Does _ n s _ (until_true {a = a} x {d = d} {r} m) small =
        until_true-Does pl vm jumps (laid a (3 + n)) (omega (arith, length-laid a (3 + n))) x s d r
          (laid-Does a (3 + n) s (suc x ∷ d, r) m (omega arith))
    laid-Does _ n s s' (until_false {a = a} {d = d} {r} m later) small =
        Returns-Does (laid (begin_until a) n)
          (until_false-Returns pl vm jumps (laid a (3 + n)) (omega (arith, length-laid a (3 + n))) s
            d r (laid-Does a (3 + n) s (0 ∷ d, r) m (omega arith)))
          (laid-Does (begin_until a) n (d, r) s' later small)
    laid-Does _ n s _ (while_false {a = a} {b} {d = d} {r} m) small =
        let k = 3 + size_of b + 3 + n in
        while_false-Does pl vm jumps (laid a k) (laid b (3 + n))
          (omega (arith, length-laid a k, length-laid b (3 + n))) s d r
          (laid-Does a k s (0 ∷ d, r) m (omega arith))
    laid-Does _ n s s' (while_true {a = a} {b} x {t = t} {d = d} {r} m m' later) small =
        let k = 3 + size_of b + 3 + n in
        Returns-Does (laid (begin_while a b) n)
          (while_true-Returns pl vm jumps (laid a k) (laid b (3 + n))
            (omega (arith, length-laid a k, length-laid b (3 + n))) x s t d r
            (laid-Does a k s (suc x ∷ d, r) m (omega arith))
            (laid-Does b (3 + n) (d, r) t m' (omega arith)))
          (laid-Does (begin_while a b) n t s' later small)
    laid-Does _ n _ s' (counted {a = a} {i} {l} {d} {r} m) small =
        Does-append (do_prefix pl) _ (do_prefix-Does pl vm laws i l d r)
          (rest-Does false a (d, i ∷ l ∷ r) s' m (omega arith))
    laid-Does _ n _ s' (counted_by {a = a} {i} {l} {d} {r} m) small =
        Does-append (do_prefix pl) _ (do_prefix-Does pl vm laws i l d r)
          (rest-Does true a (d, i ∷ l ∷ r) s' m (omega arith))

    -- What is left of a counted loop, from the start of a turn.
    rest-Does :
        (plus_loop : Bool) (a : Prog) (s s' : Stacks)
        → Turns vm plus_loop a s s'
        → size_of a + tail_size plus_loop + 3 < 2 ^ 15
        → Does vm (loop_rest pl vm jumps laws plus_loop (laid a (tail_size plus_loop))) s s'
    rest-Does plus_loop a s _ (last {t = t} {i} {l} {d} {r} m c over) small =
        let xs = laid a (tail_size plus_loop) in
        rest_last-Does pl vm jumps laws plus_loop xs
          (omega (arith, length-laid a (tail_size plus_loop), le-tail_size plus_loop)) s t i l d r
          (laid-Does a (tail_size plus_loop) s t m (omega arith)) c over
    rest-Does plus_loop a s s' (once_more {t = t} {i = i} {l} {d} {r} m c under later) small =
        let xs = laid a (tail_size plus_loop) in
        rest_again-Does pl vm jumps laws plus_loop xs
          (omega (arith, length-laid a (tail_size plus_loop), le-tail_size plus_loop)) s t s' i l d
          r (laid-Does a (tail_size plus_loop) s t m (omega arith)) c under
          (rest-Does plus_loop a (d, l ∷ i ∷ r) s' later small)
    rest-Does plus_loop a s s' (left m) small =
        let k = tail_size plus_loop in
        Exits-Does (loop_rest pl vm jumps laws plus_loop (laid a k)) (
          Exits-left k 0 (laid a k) (tail_of plus_loop (length (laid a k)))
            (laid-Exits a k s s' m (omega arith))
            (omega (arith, length-tail_of plus_loop (length (laid a k)))))

    -- A part that comes to a LEAVE takes the machine to the end of the loop, `n` bytes behind it.
    laid-Exits :
        (a : Prog) (n : ℕ) (s s' : Stacks)
        → Leaves vm a s s'
        → size_of a + n < 2 ^ 15
        → Exits vm (laid a n) n s s'
    laid-Exits _ n _ _ (leave_here {x} {y} {d} {r}) small =
        leave-Exits pl vm jumps laws n x y d r (omega arith)
    laid-Exits _ n s s' (leave_first {a = a} {b} m) small =
        Exits-left (size_of b + n) n (laid a (size_of b + n)) (laid b n)
          (laid-Exits a (size_of b + n) s s' m (omega arith)) (omega (arith, length-laid b n))
    laid-Exits _ n s s' (leave_second {a = a} {b} {t = t} m m') small =
        Exits-behind n (laid a (size_of b + n)) (laid b n)
          (laid-Does a (size_of b + n) s t m (omega arith)) (laid-Exits b n t s' m' (omega arith))
    laid-Exits _ n _ s' (leave_then {a = a} x {d} {r} m) small =
        Exits-behind n (jump pl Op.jz (length (laid a n))) (laid a n)
          (passed-Does pl vm jumps (length (laid a n)) x d r (omega (arith, length-laid a n)))
          (laid-Exits a n (d, r) s' m (omega arith))
    laid-Exits _ n _ s' (leave_true {a = a} {b} x {d} {r} m) small =
        let k = 3 + size_of b + n in
        Exits-behind n (jump pl Op.jz (length (laid a k) + 3)) _
          (passed-Does pl vm jumps (length (laid a k) + 3) x d r (omega (arith, length-laid a k)))
          (Exits-left k n (laid a k) (jump pl Op.jmp (length (laid b n)) ++ laid b n)
            (laid-Exits a k (d, r) s' m (omega arith))
            (omega (
              arith,
              length-append (jump pl Op.jmp (length (laid b n))) (laid b n),
              length-laid b n,
            )))
    laid-Exits _ n _ s' (leave_false {a = a} {b} {d} {r} m) small =
        let k = 3 + size_of b + n in
        else_false-Exits pl vm jumps (laid a k) (laid b n) n d r s'
          (omega (arith, length-laid a k, length-laid b n))
          (laid-Exits b n (d, r) s' m (omega arith))
    laid-Exits _ n s s' (leave_until {a = a} m) small =
        Exits-left (3 + n) n (laid a (3 + n))
          (jump pl Op.jz (backward (length (laid a (3 + n)) + 3)))
          (laid-Exits a (3 + n) s s' m (omega arith)) (omega arith)
    laid-Exits _ n s s' (leave_until_later {a = a} {d = d} {r} m later) small =
        Returns-Exits n (laid (begin_until a) n)
          (until_false-Returns pl vm jumps (laid a (3 + n)) (omega (arith, length-laid a (3 + n))) s
            d r (laid-Does a (3 + n) s (0 ∷ d, r) m (omega arith)))
          (laid-Exits (begin_until a) n (d, r) s' later small)
    laid-Exits _ n s s' (leave_again {a = a} m) small =
        Exits-left (3 + n) n (laid a (3 + n))
          (jump pl Op.jmp (backward (length (laid a (3 + n)) + 3)))
          (laid-Exits a (3 + n) s s' m (omega arith)) (omega arith)
    laid-Exits _ n s s' (leave_again_later {a = a} {t = t} m later) small =
        Returns-Exits n (laid (begin_again a) n)
          (again-Returns pl vm jumps (laid a (3 + n)) s t (omega (arith, length-laid a (3 + n)))
            (laid-Does a (3 + n) s t m (omega arith)))
          (laid-Exits (begin_again a) n t s' later small)
    laid-Exits _ n s s' (leave_test {a = a} {b} m) small =
        let k = 3 + size_of b + 3 + n in
        let ys = laid b (3 + n) in
        let m' = length (laid a k) + length ys + 6 in
        Exits-left k n (laid a k) (while_tail ys m') (laid-Exits a k s s' m (omega arith))
          (omega (arith, length-while_tail ys m', length-laid b (3 + n)))
    laid-Exits _ n s s' (leave_body {a = a} {b} x {d = d} {r} m m') small =
        let k = 3 + size_of b + 3 + n in
        let ys = laid b (3 + n) in
        let back = jump pl Op.jmp (backward (length (laid a k) + length ys + 6)) in
        Exits-behind n (laid a k) _ (laid-Does a k s (suc x ∷ d, r) m (omega arith)) (
          Exits-behind n (jump pl Op.jz (length ys + 3)) _
            (passed-Does pl vm jumps (length ys + 3) x d r (omega (arith, length-laid b (3 + n))))
            (Exits-left (3 + n) n ys back (laid-Exits b (3 + n) (d, r) s' m' (omega arith))
              (omega arith)))
    laid-Exits _ n s s' (leave_while_later {a = a} {b} x {t = t} {d = d} {r} m m' later) small =
        let k = 3 + size_of b + 3 + n in
        Returns-Exits n (laid (begin_while a b) n)
          (while_true-Returns pl vm jumps (laid a k) (laid b (3 + n))
            (omega (arith, length-laid a k, length-laid b (3 + n))) x s t d r
            (laid-Does a k s (suc x ∷ d, r) m (omega arith))
            (laid-Does b (3 + n) (d, r) t m' (omega arith)))
          (laid-Exits (begin_while a b) n t s' later small)

  -- A structured program's layout, shorter than 2 ^ 15 bytes, takes the machine from its start to
  -- its end with the stacks that the program means, wherever it stands in the code.
  pub layout-Does :
      (a : Prog) (s s' : Stacks) → Means vm a s s' → size_of a < 2 ^ 15 → Does vm (layout pl a) s s'
  unfolding layout
  layout-Does a s s' m small = laid-Does a 0 s s' m small
