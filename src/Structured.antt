-- ===== src/Structured.antt =====
-- Structured programs: nested IF, BEGIN and DO over runs of plain code. `compile` feeds their words
-- to the one-pass handlers of `Compiler`; `layout` gives their code by the nesting alone, with each
-- jump's distance computed from the lengths of the parts, and no placeholder. LEAVE jumps to the end of
-- the loop around it, so the layout of a part knows how far behind the part that is.
pub mod Correct
pub mod Counted
pub mod Leaves
pub mod Filling
pub mod Filled
pub mod Parts
pub mod Branches
pub mod Nested
use v4_front.Base.{ℕ, ◌+◌, ◌≤◌, ◌≡◌, suc, List, [], ◌∷◌, ◌++◌, Bytes, length}
use Prim.Native.Nat.{max}
use v4_front.Result.{Result, ok, ◌>>=◌}
use v4_front.Platform.{Platform, Op}
use v4_front.Compiler.{Gen, emit}
use v4_front.Compiler.Emission.{jump, backward}
use v4_front.Compiler.Branch.{
  handle_if, handle_else, handle_then, handle_begin, handle_until, handle_again, handle_while,
  handle_repeat,
}
use v4_front.Compiler.Counted.{
  handle_do, handle_leave, handle_loop, handle_ploop, ops, loop_step, ploop_step,
}

pub data Prog : Type 0 where
  plain : Bytes → Prog
  leave_loop : Prog
  seq : Prog → Prog → Prog
  if_then : Prog → Prog
  if_else : Prog → Prog → Prog
  begin_until begin_again : Prog → Prog
  begin_while : Prog → Prog → Prog
  do_loop do_ploop : Prog → Prog

-- The nesting of open frames.
abbrev pub depth : Prog → ℕ
depth (plain xs) = 0
depth leave_loop = 0
depth (seq p q) = max (depth p) (depth q)
depth (if_then p) = suc (depth p)
depth (if_else p q) = suc (max (depth p) (depth q))
depth (begin_until p) = suc (depth p)
depth (begin_again p) = suc (depth p)
depth (begin_while p q) = suc (max (depth p) (depth q))
depth (do_loop p) = suc (depth p)
depth (do_ploop p) = suc (depth p)

-- The number of bytes of code.
abbrev pub size_of : Prog → ℕ
size_of (plain xs) = length xs
size_of leave_loop = 7
size_of (seq p q) = size_of p + size_of q
size_of (if_then p) = size_of p + 3
size_of (if_else p q) = size_of p + size_of q + 6
size_of (begin_until p) = size_of p + 3
size_of (begin_again p) = size_of p + 3
size_of (begin_while p q) = size_of p + size_of q + 6
size_of (do_loop p) = size_of p + 25
size_of (do_ploop p) = size_of p + 20

-- The LEAVEs that leave a loop around the program.
abbrev pub leaves : Prog → ℕ
leaves (plain xs) = 0
leaves leave_loop = 1
leaves (seq p q) = leaves p + leaves q
leaves (if_then p) = leaves p
leaves (if_else p q) = leaves p + leaves q
leaves (begin_until p) = leaves p
leaves (begin_again p) = leaves p
leaves (begin_while p q) = leaves p + leaves q
leaves (do_loop p) = 0
leaves (do_ploop p) = 0

-- A frame has room for eight of them.
abbrev pub FewLeaves : Prog → Type 0
FewLeaves (plain xs) = Unit
FewLeaves leave_loop = Unit
FewLeaves (seq p q) = FewLeaves p × FewLeaves q
FewLeaves (if_then p) = FewLeaves p
FewLeaves (if_else p q) = FewLeaves p × FewLeaves q
FewLeaves (begin_until p) = FewLeaves p
FewLeaves (begin_again p) = FewLeaves p
FewLeaves (begin_while p q) = FewLeaves p × FewLeaves q
FewLeaves (do_loop p) = (leaves p ≤ 8) × FewLeaves p
FewLeaves (do_ploop p) = (leaves p ≤ 8) × FewLeaves p

-- Each LEAVE stands in a loop of the program, eight at most in one.
abbrev pub IsClosed : Prog → Type 0
IsClosed p = (leaves p ≡ 0) × FewLeaves p

module _ (pl : Platform) where
  -- The words of the program, one handler after the other.
  unfoldable pub compile : ℕ → Prog → Gen → Result Gen
  compile at (plain xs) g = emit pl xs g
  compile at leave_loop g = handle_leave pl at g
  compile at (seq p q) g = compile at p g >>= compile at q
  compile at (if_then p) g = handle_if pl at g >>= compile at p >>= handle_then at
  compile at (if_else p q) g =
      handle_if pl at g >>= compile at p >>= handle_else pl at >>= compile at q >>= handle_then at
  compile at (begin_until p) g = handle_begin at g >>= compile at p >>= handle_until pl at
  compile at (begin_again p) g = handle_begin at g >>= compile at p >>= handle_again pl at
  compile at (begin_while p q) g =
      handle_begin at g
      >>= compile at p
      >>= handle_while pl at
      >>= compile at q
      >>= handle_repeat pl at
  compile at (do_loop p) g = handle_do pl at g >>= compile at p >>= handle_loop pl at
  compile at (do_ploop p) g = handle_do pl at g >>= compile at p >>= handle_ploop pl at

  abbrev pub do_prefix : Bytes
  do_prefix = ops pl (Op.swap ∷ Op.tor ∷ Op.tor ∷ [])

  -- The test of a loop with `n` bytes between its start and here: the exit is six bytes behind JZ.
  abbrev pub loop_test : ℕ → Bytes
  loop_test n =
      ops pl (Op.fromr ∷ Op.over ∷ Op.over ∷ Op.lt ∷ [])
      ++ (jump pl Op.jz 6
          ++ (do_prefix ++ (jump pl Op.jmp (backward (n + 13)) ++ ops pl (Op.drop ∷ Op.drop ∷ []))))

  -- The code of a part that ends `n` bytes before the end of the loop around it. The offset of a LEAVE
  -- is `far n`, where `n` is the distance.
  unfoldable pub layout_with : (ℕ → ℕ) → Prog → ℕ → Bytes
  layout_with far (plain xs) n = xs
  layout_with far leave_loop n =
      ops pl (Op.fromr ∷ Op.fromr ∷ Op.drop ∷ Op.drop ∷ []) ++ jump pl Op.jmp (far n)
  layout_with far (seq p q) n = layout_with far p (size_of q + n) ++ layout_with far q n
  layout_with far (if_then p) n =
      jump pl Op.jz (length (layout_with far p n)) ++ layout_with far p n
  layout_with far (if_else p q) n =
      jump pl Op.jz (length (layout_with far p (3 + size_of q + n)) + 3)
      ++ (layout_with far p (3 + size_of q + n)
          ++ (jump pl Op.jmp (length (layout_with far q n)) ++ layout_with far q n))
  layout_with far (begin_until p) n =
      layout_with far p (3 + n) ++ jump pl Op.jz (backward (length (layout_with far p (3 + n)) + 3))
  layout_with far (begin_again p) n =
      layout_with far p (3 + n)
      ++ jump pl Op.jmp (backward (length (layout_with far p (3 + n)) + 3))
  layout_with far (begin_while p q) n =
      layout_with far p (3 + size_of q + 3 + n)
      ++ (jump pl Op.jz (length (layout_with far q (3 + n)) + 3)
          ++ (layout_with far q (3 + n)
              ++ jump pl Op.jmp (
                  backward (
                    length (layout_with far p (3 + size_of q + 3 + n))
                    + length (layout_with far q (3 + n))
                    + 6))))
  layout_with far (do_loop p) n =
      do_prefix
      ++ (layout_with (λ k. k) p 22
          ++ (loop_step pl ++ loop_test (length (layout_with (λ k. k) p 22) + 7)))
  layout_with far (do_ploop p) n =
      do_prefix
      ++ (layout_with (λ k. k) p 17
          ++ (ploop_step pl ++ loop_test (length (layout_with (λ k. k) p 17) + 2)))

  -- The code of a whole program, with no loop around it.
  unfoldable pub layout : Prog → Bytes
  unfolding layout_with
  layout p = layout_with (λ n. n) p 0
