-- ===== src/Structured/Filling.antt =====
-- The loop at the end of LOOP and +LOOP in src/compile.cpp that patches the LEAVEs: it turns the
-- code with their placeholders into the layout.
use v4_front.Base.{
  ℕ, ◌+◌, ◌^◌, ◌<◌, ◌≡◌, refl, ◌∙◌, ap, sym, arith, List, [], ◌∷◌, ◌++◌, append_assoc, append-nil,
  Bytes, length, length-append,
}
use mathlib.Core.Path.{subst}
use v4_front.Result.{ok, bind-ok, >>=-eq-ok}
use v4_front.Platform.{Platform, Op}
use v4_front.Buffer.{Buf, size, i16_le, i32_le}
use v4_front.Buffer.Append.{Extends, Extends-cong, Extends-size}
use v4_front.Compiler.{ControlFrame, Gen, resolve}
use v4_front.Compiler.Emission.{jump, resolve_lem, sizes}
use v4_front.Compiler.Counted.{patch_leaves, ops}
use v4_front.Structured.{
  Prog, plain, leave_loop, seq, if_then, if_else, begin_until, begin_again, begin_while, do_loop,
  do_ploop, size_of, layout_with,
}
use v4_front.Structured.Correct.{gen}

-- Whatever is laid down for a LEAVE, the code has the size that the program says.
pub length-layout_with :
    (pl : Platform) (far : ℕ → ℕ) (p : Prog) (n : ℕ) → length (layout_with pl far p n) ≡ size_of p
unfolding layout_with i32_le i16_le
length-layout_with pl far (plain xs) n = refl
length-layout_with pl far leave_loop n = refl
length-layout_with pl far (seq p q) n =
    length-append (layout_with pl far p (size_of q + n)) (layout_with pl far q n)
    ∙ omega (arith, length-layout_with pl far p (size_of q + n), length-layout_with pl far q n)
length-layout_with pl far (if_then p) n = simp sizes (omega (arith, length-layout_with pl far p n))
length-layout_with pl far (if_else p q) n =
    simp sizes (
      omega (arith, length-layout_with pl far p (3 + size_of q + n), length-layout_with pl far q n))
length-layout_with pl far (begin_until p) n =
    simp sizes (omega (arith, length-layout_with pl far p (3 + n)))
length-layout_with pl far (begin_again p) n =
    simp sizes (omega (arith, length-layout_with pl far p (3 + n)))
length-layout_with pl far (begin_while p q) n = simp sizes (
    omega (
      arith,
      length-layout_with pl far p (3 + size_of q + 3 + n),
      length-layout_with pl far q (3 + n),
    ))
length-layout_with pl far (do_loop p) n =
    simp sizes (omega (arith, length-layout_with pl (λ k. k) p 22))
length-layout_with pl far (do_ploop p) n =
    simp sizes (omega (arith, length-layout_with pl (λ k. k) p 17))

-- Patching at `ms`, which depends on where `xs` starts, makes `ys` of it wherever it stands, if `n`
-- bytes follow.
pub record Fills (ms : ℕ → List ℕ) (n : ℕ) (xs ys : Bytes) : Type 0 where
  pub fill :
      (front back : Bytes) (b c : Buf) (gs : List ControlFrame)
      → n ≡ length back
      → Extends b (front ++ (xs ++ back)) c
      → size c < 2 ^ 31
      → (c' : Buf) × (patch_leaves (ms (size b + length front)) (gen c gs) ≡ ok (gen c' gs))
        × Extends b (front ++ (ys ++ back)) c'

patch_leaves-append :
    (ms ns : List ℕ) (g g' g'' : Gen)
    → patch_leaves ms g ≡ ok g'
    → patch_leaves ns g' ≡ ok g''
    → patch_leaves (ms ++ ns) g ≡ ok g''
unfolding patch_leaves
patch_leaves-append [] ns g g' g'' first later =
    let same : g ≡ g' = cc in ap (patch_leaves ns) same ∙ later
patch_leaves-append (m ∷ ms) ns g g' g'' first later =
    let (g₁, one, rest) = >>=-eq-ok (resolve m g) (patch_leaves ms) first in
    bind-ok _ one (patch_leaves-append ms ns g₁ g' g'' rest later)

pub Fills-none : (n : ℕ) (xs : Bytes) → Fills (λ at. []) n xs xs
unfolding patch_leaves
Fills-none n xs = record { fill = λ front back b c gs behind e small. (c, refl, e) }

pub Fills-both :
    {ms ns : ℕ → List ℕ} {n k m : ℕ} {xs xs' ys ys' : Bytes}
    → Fills ms k xs xs'
    → Fills ns n ys ys'
    → k ≡ length ys + n
    → length xs ≡ m
    → length xs' ≡ m
    → Fills (λ at. ms at ++ ns (at + m)) n (xs ++ ys) (xs' ++ ys')
Fills-both {ms} {ns} {n} {k} {m} {xs} {xs'} {ys} {ys'} first later far old new = record {
  fill = λ front back b c gs behind e small.
      let e₀ = Extends-cong (ap (λ l. front ++ l) (append_assoc xs ys back)) e in
      let (c₁, done₁, e₁) =
        first.fill front (ys ++ back) b c gs (far ∙ omega (arith, length-append ys back, behind)) e₀
          small in
      let e₂ = Extends-cong (sym (append_assoc front xs' (ys ++ back))) e₁ in
      let n₀ = Extends-size e₀ in
      let n₁ = Extends-size e₁ in
      let a₀ =
        length-append front (xs ++ (ys ++ back))
        ∙ ap (λ k. length front + k) (length-append xs _) in
      let a₁ =
        length-append front (xs' ++ (ys ++ back))
        ∙ ap (λ k. length front + k) (length-append xs' _) in
      let (c₂, done₂, e₃) =
        later.fill (front ++ xs') back b c₁ gs behind e₂
          (omega (arith, n₀, n₁, a₀, a₁, old, new)) in
      let place : size b + length (front ++ xs') ≡ size b + length front + m =
        omega (arith, length-append front xs', new) in
      (
        c₂,
        patch_leaves-append (ms (size b + length front)) (ns (size b + length front + m)) _ _ _
            done₁ (ap (λ k. patch_leaves (ns k) (gen c₁ gs)) (sym place) ∙ done₂),
        Extends-cong
            (append_assoc front xs' (ys' ++ back)
              ∙ ap (λ l. front ++ l) (sym (append_assoc xs' ys' back)))
            e₃,
      );
}

-- One half alone, with fixed bytes before or behind it.
pub Fills-behind :
    {ns : ℕ → List ℕ} {n : ℕ} {ys ys' : Bytes} (xs : Bytes)
    → Fills ns n ys ys'
    → Fills (λ at. ns (at + length xs)) n (xs ++ ys) (xs ++ ys')
Fills-behind {n = n} {ys} xs later = Fills-both (Fills-none (length ys + n) xs) later refl refl refl

pub Fills-before :
    {ms : ℕ → List ℕ} {n k : ℕ} {xs xs' : Bytes} (ys : Bytes)
    → Fills ms k xs xs'
    → k ≡ length ys + n
    → length xs ≡ length xs'
    → Fills ms n (xs ++ ys) (xs' ++ ys)
Fills-before {ms} {n} {xs = xs} {xs'} ys first far same =
    subst (λ f. Fills f n (xs ++ ys) (xs' ++ ys)) (λ i x. append-nil (ms x) i)
      (Fills-both first (Fills-none n ys) far same refl)

-- The offset of the jump is the number of bytes behind it.
pub Fills-leave :
    (pl : Platform) (n : ℕ)
    → Fills
        (λ at. (at + 5) ∷ [])
        n
        (layout_with pl (λ k. 0) leave_loop n)
        (layout_with pl (λ k. k) leave_loop n)
unfolding layout_with patch_leaves i16_le
Fills-leave pl n = record {
  fill = λ front back b c gs behind e small.
      let drops = ops pl (Op.fromr ∷ Op.fromr ∷ Op.drop ∷ Op.drop ∷ []) in
      let b₀ : Buf = record { bytes = b.bytes ++ (front ++ drops); cap = 0 } in
      let e₀ : Extends b₀ (jump pl Op.jmp 0 ++ back) c = record {
        bytes_are = e.bytes_are ∙ simp append_assoc;
        is_sized = e.is_sized;
      } in
      let (c', done, e') = resolve_lem pl Op.jmp back (gen c gs) e₀ small in
      let place : size b₀ + 1 ≡ size b + length front + 5 =
        omega (arith, length-append b.bytes (front ++ drops), length-append front drops) in
      let one : resolve (size b + length front + 5) (gen c gs) ≡ ok (gen c' gs) =
        ap (λ k. resolve k (gen c gs)) (sym place) ∙ done in
      (
        c',
        bind-ok _ one refl,
        record { bytes_are = e'.bytes_are ∙ rw behind (simp append_assoc); is_sized = e'.is_sized },
      );
}
