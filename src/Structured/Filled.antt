-- ===== src/Structured/Filled.antt =====
-- The patching of the LEAVEs of src/compile.cpp over a whole program, by its nesting.
use v4_front.Base.{ℕ, ◌+◌, ◌≡◌, refl, ◌∙◌, sym, arith, List, ◌++◌, Bytes, length, length-append}
use mathlib.Core.Path.{subst}
use v4_front.Platform.{Platform, Op}
use v4_front.Buffer.{i16_le}
use v4_front.Compiler.Emission.{jump, backward}
use v4_front.Structured.{
  Prog, plain, leave_loop, seq, if_then, if_else, begin_until, begin_again, begin_while, do_loop,
  do_ploop, size_of, layout_with,
}
use v4_front.Structured.Leaves.{marks}
use v4_front.Structured.Filling.{
  length-layout_with, Fills, Fills-none, Fills-both, Fills-behind, Fills-before, Fills-leave,
}

-- The code with placeholders, and the layout.
module _ (pl : Platform) where
  abbrev raw : Prog → ℕ → Bytes
  raw = layout_with pl (λ k. 0)

  abbrev laid : Prog → ℕ → Bytes
  laid = layout_with pl (λ k. k)

  same_length : (p : Prog) (n : ℕ) → length (raw p n) ≡ length (laid p n)
  same_length p n = length-layout_with pl (λ k. 0) p n ∙ sym (length-layout_with pl (λ k. k) p n)

  abbrev PartFills : Prog → ℕ → Type 0
  PartFills p n = Fills (marks p) n (raw p n) (laid p n)

  -- Two parts with fixed code between them.
  Fills-parts :
      {ms ns : ℕ → List ℕ} {xs xs' ys ys' : Bytes} {k m n : ℕ} (between : Bytes)
      → Fills ms k xs xs'
      → Fills ns n ys ys'
      → k ≡ length between + length ys + n
      → length xs ≡ m
      → length xs' ≡ m
      → Fills
          (λ at. ms at ++ ns (at + m + length between))
          n
          (xs ++ (between ++ ys))
          (xs' ++ (between ++ ys'))
  Fills-parts {ys = ys} between first later far old new =
      Fills-both first (Fills-behind between later) (omega (arith, length-append between ys)) old
        new

  pub layout_with-Fills : (p : Prog) (n : ℕ) → PartFills p n
  unfolding layout_with i16_le
  layout_with-Fills (plain xs) n = Fills-none n xs
  layout_with-Fills leave_loop n = Fills-leave pl n
  layout_with-Fills (seq p q) n =
      Fills-both (layout_with-Fills p (size_of q + n)) (layout_with-Fills q n)
        (omega (arith, length-layout_with pl (λ k. 0) q n))
        (length-layout_with pl (λ k. 0) p (size_of q + n))
        (length-layout_with pl (λ k. k) p (size_of q + n))
  layout_with-Fills (if_then p) n =
      subst (λ k. Fills (marks (if_then p)) n (raw (if_then p) n) (jump pl Op.jz k ++ laid p n))
        (same_length p n) (Fills-behind (jump pl Op.jz (length (raw p n))) (layout_with-Fills p n))
  layout_with-Fills (if_else p q) n =
      let m = 3 + size_of q + n in
      let code =
        λ (k l : ℕ). jump pl Op.jz (k + 3) ++ (laid p m ++ (jump pl Op.jmp l ++ laid q n)) in
      let k = length (raw p m) in
      let l = length (raw q n) in
      let target = λ (k l : ℕ). Fills (marks (if_else p q)) n (raw (if_else p q) n) (code k l) in
      subst (λ k'. target k' (length (laid q n))) (same_length p m)
        (subst (λ l'. target k l') (same_length q n)
          (Fills-behind (jump pl Op.jz (k + 3)) (
            Fills-parts (jump pl Op.jmp l) (layout_with-Fills p m) (layout_with-Fills q n)
              (omega (arith, length-layout_with pl (λ k. 0) q n))
              (length-layout_with pl (λ k. 0) p m) (length-layout_with pl (λ k. k) p m))))
  layout_with-Fills (begin_until p) n =
      subst
        (λ k.
          Fills (marks p) n (raw (begin_until p) n)
            (laid p (3 + n) ++ jump pl Op.jz (backward (k + 3))))
        (same_length p (3 + n))
        (Fills-before (jump pl Op.jz (backward (length (raw p (3 + n)) + 3)))
          (layout_with-Fills p (3 + n)) refl (same_length p (3 + n)))
  layout_with-Fills (begin_again p) n =
      subst
        (λ k.
          Fills (marks p) n (raw (begin_again p) n)
            (laid p (3 + n) ++ jump pl Op.jmp (backward (k + 3))))
        (same_length p (3 + n))
        (Fills-before (jump pl Op.jmp (backward (length (raw p (3 + n)) + 3)))
          (layout_with-Fills p (3 + n)) refl (same_length p (3 + n)))
  layout_with-Fills (begin_while p q) n =
      let m = 3 + size_of q + 3 + n in
      let code = λ (k l : ℕ).
        laid p m
        ++ (jump pl Op.jz (l + 3) ++ (laid q (3 + n) ++ jump pl Op.jmp (backward (k + l + 6)))) in
      let k = length (raw p m) in
      let l = length (raw q (3 + n)) in
      let back = jump pl Op.jmp (backward (k + l + 6)) in
      let target =
        λ (k l : ℕ). Fills (marks (begin_while p q)) n (raw (begin_while p q) n) (code k l) in
      subst (λ k'. target k' (length (laid q (3 + n)))) (same_length p m)
        (subst (λ l'. target k l') (same_length q (3 + n))
          (Fills-parts (jump pl Op.jz (l + 3)) (layout_with-Fills p m)
            (Fills-before back (layout_with-Fills q (3 + n)) refl (same_length q (3 + n)))
            (omega
              (arith, length-append (raw q (3 + n)) back, length-layout_with pl (λ k. 0) q (3 + n)))
            (length-layout_with pl (λ k. 0) p m) (length-layout_with pl (λ k. k) p m)))
  layout_with-Fills (do_loop p) n = Fills-none n (raw (do_loop p) n)
  layout_with-Fills (do_ploop p) n = Fills-none n (raw (do_ploop p) n)
