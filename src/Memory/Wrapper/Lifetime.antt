-- ===== src/Memory/Wrapper/Lifetime.antt =====
-- Two objects of `BytecodeBuffer`, include/v4front/compile.hpp, from any state to their destruction.
use v4_front.Base.{ℕ, ◌≡◌, refl, Bool, true, false, List, [], ◌∷◌, ◌++◌, Option, some, arith}
use v4_front.Memory.{Heap, ◌>>=◌, Handle, no_handle, v4front_free}
use v4_front.Memory.Owned.{Owns, Owns-cong, counts, hits-null}
use v4_front.Memory.Release.{IsHandle, blocks, v4front_free-Owns}
use v4_front.Memory.Wrapper.{destruct, move_assign, clear}

-- Two objects and the heap.
abbrev pub Pair : Type 0
Pair = (Handle × Handle) × Heap

-- What a client calls, on the first object where the flag is set, else on the second: `clear`, and the
-- move assignment of the other object, or of the object itself.
pub data Call : Type 0 where
  clears assigns assigns_itself : Bool → Call

unfoldable pub perform : Call → Pair → Option Pair
unfolding clear move_assign
perform (clears true) ((a, b), h) = do (a', h') ← clear a h; some ((a', b), h')
perform (clears false) ((a, b), h) = do (b', h') ← clear b h; some ((a, b'), h')
perform (assigns true) ((a, b), h) = move_assign false a b h
perform (assigns false) ((a, b), h) = do
  ((b', a'), h') ← move_assign false b a h
  some ((a', b'), h')
perform (assigns_itself true) ((a, b), h) = do
  ((a', _), h') ← move_assign true a a h
  some ((a', b), h')
perform (assigns_itself false) ((a, b), h) = do
  ((b', _), h') ← move_assign true b b h
  some ((a, b'), h')

unfoldable pub perform_all : List Call → Pair → Option Pair
unfolding perform
perform_all [] s = some s
perform_all (call ∷ calls) s = perform call s >>= perform_all calls

-- The calls, and then both objects go out of scope, the second first.
unfoldable pub lifetime : List Call → Pair → Option Heap
unfolding perform_all destruct
lifetime calls s = do ((a, b), h) ← perform_all calls s; h₁ ← destruct b h; destruct a h₁

-- Each object leads to blocks of its own, and the heap holds them and those of `rest`.
pub record PairInv (rest : List ℕ) (s : Pair) : Type 0 where
  pub first : IsHandle s.0.0
  pub second : IsHandle s.0.1
  pub owns : Owns s.1 (blocks s.0.0 ++ blocks s.0.1) rest

no_handle-IsHandle : IsHandle no_handle
no_handle-IsHandle = record { no_words = λ _. refl; no_data = λ _. refl }

module _ (rest : List ℕ) where
  -- One object's blocks are freed, and those of the other stay.
  freed-Owns :
      (a b : Handle) (h : Heap)
      → IsHandle a
      → Owns h (blocks a ++ blocks b) rest
      → (h' : Heap) × (v4front_free a h ≡ some (no_handle, h')) × Owns h' (blocks b) rest
  freed-Owns a b h v o =
      let (h', done, o') =
        v4front_free-Owns a h (blocks b ++ rest) v (Owns-cong o λ q. simp counts (omega arith)) in
      (h', done, Owns-cong o' λ q. simp counts (omega arith))

  -- The second object's blocks, in the same way.
  freed_second-Owns :
      (a b : Handle) (h : Heap)
      → IsHandle b
      → Owns h (blocks a ++ blocks b) rest
      → (h' : Heap) × (v4front_free b h ≡ some (no_handle, h')) × Owns h' (blocks a) rest
  freed_second-Owns a b h v o = freed-Owns b a h v (Owns-cong o λ q. simp counts (omega arith))

  perform-PairInv :
      (call : Call) (s : Pair)
      → PairInv rest s
      → (s' : Pair) × (perform call s ≡ some s') × PairInv rest s'
  unfolding perform clear move_assign
  perform-PairInv (clears true) ((a, b), h) v =
      let (h', done, o) = freed-Owns a b h v.first v.owns in
      (
        ((no_handle, b), h'),
        rw done refl,
        record {
          first = no_handle-IsHandle;
          second = v.second;
          owns = Owns-cong o λ q. simp counts (omega (arith, hits-null q 0 refl));
        },
      )
  perform-PairInv (clears false) ((a, b), h) v =
      let (h', done, o) = freed_second-Owns a b h v.second v.owns in
      (
        ((a, no_handle), h'),
        rw done refl,
        record {
          first = v.first;
          second = no_handle-IsHandle;
          owns = Owns-cong o λ q. simp counts (omega (arith, hits-null q 0 refl));
        },
      )
  perform-PairInv (assigns true) ((a, b), h) v =
      let (h', done, o) = freed-Owns a b h v.first v.owns in
      (
        ((b, no_handle), h'),
        rw done refl,
        record {
          first = v.second;
          second = no_handle-IsHandle;
          owns = Owns-cong o λ q. simp counts (omega (arith, hits-null q 0 refl));
        },
      )
  perform-PairInv (assigns false) ((a, b), h) v =
      let (h', done, o) = freed_second-Owns a b h v.second v.owns in
      (
        ((no_handle, a), h'),
        rw done refl,
        record {
          first = no_handle-IsHandle;
          second = v.first;
          owns = Owns-cong o λ q. simp counts (omega (arith, hits-null q 0 refl));
        },
      )
  perform-PairInv (assigns_itself true) ((a, b), h) v = (((a, b), h), refl, v)
  perform-PairInv (assigns_itself false) ((a, b), h) v = (((a, b), h), refl, v)

  perform_all-PairInv :
      (calls : List Call) (s : Pair)
      → PairInv rest s
      → (s' : Pair) × (perform_all calls s ≡ some s') × PairInv rest s'
  unfolding perform_all
  perform_all-PairInv [] s v = (s, refl, v)
  perform_all-PairInv (call ∷ calls) s v =
      let (s₁, done, v₁) = perform-PairInv call s v in
      let (s', later, v') = perform_all-PairInv calls s₁ v₁ in (s', rw done later, v')

-- Two objects whose blocks are allocated, through any calls of `clear` and of the move assignment,
-- also of an object to itself, and their destruction: no block is freed that is not allocated, and in the end both objects' blocks
-- are free and all others are as they were.
pub lifetime-Owns :
    (calls : List Call) (a b : Handle) (h : Heap) (rest : List ℕ)
    → IsHandle a
    → IsHandle b
    → Owns h (blocks a ++ blocks b) rest
    → (h' : Heap) × (lifetime calls ((a, b), h) ≡ some h') × Owns h' [] rest
unfolding lifetime destruct
lifetime-Owns calls a b h rest v w o =
    let (s, done, i) =
      perform_all-PairInv rest calls ((a, b), h) (record { first = v; second = w; owns = o }) in
    let (h₁, freed, o₁) = freed_second-Owns rest s.0.0 s.0.1 s.1 i.second i.owns in
    let (h₂, freed', o₂) = v4front_free-Owns s.0.0 h₁ rest i.first o₁ in
    (h₂, rw (done, freed, freed') refl, o₂)
