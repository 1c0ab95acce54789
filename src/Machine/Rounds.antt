-- ===== src/Machine/Rounds.antt =====
-- How often LOOP of src/compile.cpp goes round: its SWAP >R >R stands behind a comparison that has
-- the limit on top, so index and limit go back in the other order.
use v4_front.Base.{
  ℕ, suc, ◌+◌, ◌^◌, ◌≤◌, ◌<◌, ◌≡◌, arith, true, false, List, ◌∷◌, ◌++◌, Bytes, length, lt→ltb,
  le→ltb-false,
}
use v4_front.Result.{ok}
use v4_front.Platform.{Platform, NeverRefuses}
use v4_front.Buffer.{Buf, size}
use v4_front.Buffer.Append.{IsSized}
use v4_front.Compiler.{ControlFrame}
use v4_front.Structured.{Prog, do_loop, depth, size_of, IsClosed, compile, layout}
use v4_front.Structured.Nested.{compile-layout}
use v4_front.Machine.{Vm, Jumps, Does}
use v4_front.Machine.Meaning.{Means, counted, last, once_more, by_one}
use v4_front.Machine.Opcodes.{Opcodes, plus, less}
use v4_front.Machine.Execution.{layout-Does}

less-true : (i l : ℕ) → i + 1 < l → l < 2 ^ 31 → less (plus i 1) l ≡ true
less-true i l under small = lt→ltb _ _ (omega arith)

less-false : (i l : ℕ) → i < l → l + 1 < 2 ^ 31 → less (plus l 1) (plus i 1) ≡ false
less-false i l under small = le→ltb-false _ _ (omega arith)

-- What the handlers make of DO, a body and LOOP, with the index `i` below the limit `l` by more than
-- one, goes round twice whatever the limit is: once with the index `i` and the limit `l`, and once
-- with the index `l` and the limit `i + 1`. The body leaves the return stack as it found it, both are
-- small and no negative cells, the loop is within the reach of a jump, and the bounds of the compiler
-- hold.
pub compile-do_loop-Does :
    (pl : Platform) (vm : Vm) (at : ℕ) (a : Prog) (fs : List ControlFrame) (b : Buf) (i l : ℕ)
    (d d₁ d₂ r : List ℕ)
    → NeverRefuses pl
    → IsSized b
    → length fs + suc (depth a) ≤ 32
    → size b + (size_of a + 25) < 2 ^ 31
    → IsClosed (do_loop a)
    → Jumps pl vm
    → Opcodes pl vm
    → i + 1 < l
    → l + 1 < 2 ^ 31
    → size_of a + 25 < 2 ^ 15
    → Means vm a (d, i ∷ l ∷ r) (d₁, i ∷ l ∷ r)
    → Means vm a (d₁, l ∷ plus i 1 ∷ r) (d₂, l ∷ plus i 1 ∷ r)
    → (b' : Buf) × (xs : Bytes) × (compile pl at (do_loop a) (record { current = b; control = fs })
        ≡ ok (record { current = b'; control = fs }))
      × (b'.bytes ≡ b.bytes ++ xs)
      × Does vm xs (i ∷ l ∷ d, r) (d₂, r)
compile-do_loop-Does pl vm at a fs b i l d d₁ d₂ r never sized deep room closed jumps laws under
      small short first second =
    let (b', done, bytes_are) =
      compile-layout pl at (do_loop a) fs b never sized deep room closed in
    let twice = counted (
      once_more first by_one (less-true i l under (omega arith))
        (last second by_one (less-false i l (omega arith) small))) in
    (
      b',
      layout pl (do_loop a),
      done,
      bytes_are,
      layout-Does pl vm jumps laws (do_loop a) (i ∷ l ∷ d, r) (d₂, r) twice short,
    )
