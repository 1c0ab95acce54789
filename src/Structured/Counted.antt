-- ===== src/Structured/Counted.antt =====
-- What DO, LEAVE, LOOP and +LOOP make of the code: LEAVE puts a jump with a placeholder behind it, and
-- the end of the loop fills in what its LEAVEs left open.
use v4_front.Base.{
  ℕ, ◌+◌, ◌^◌, ◌<◌, ◌≡◌, refl, ◌∙◌, ap, sym, arith, List, [], ◌∷◌, ◌++◌, Bytes, length,
  length-append, append_assoc, lt→ltb,
}
use v4_front.Result.{ok, bind-ok, ◌>>=◌, Result, FrontErr}
use v4_front.Platform.{Platform, Op, NeverRefuses}
use v4_front.Buffer.{Buf, size, i16_le}
use v4_front.Buffer.Append.{
  IsSized, Extends, Extends-size, Extends-size_is, Extends-trans, Extends-cong,
}
use v4_front.Compiler.{ControlFrame, Gen, do_control}
use v4_front.Compiler.Emission.{
  jump, length-jump, backward, emit-Emits, emit_forward_lem, resolve_lem,
}
use v4_front.Compiler.Counted.{
  handle_do, handle_leave, leave_in, record_leave, loop_at, close_loop, patch_leaves, ops,
}
use v4_front.Structured.{do_prefix, loop_test}
use v4_front.Structured.Leaves.{free, free-innermost}
use v4_front.Structured.Filling.{Fills}
use v4_front.Structured.Correct.{gen, back_lem}

module _ (pl : Platform) (never : NeverRefuses pl) (at : ℕ) (fs : List ControlFrame) where
  pub do_lem :
      (b : Buf)
      → IsSized b
      → size b + 3 < 2 ^ 31
      → length fs < 32
      → (b₁ : Buf) × (handle_do pl at (gen b fs) ≡ ok (gen b₁ (do_control (size b₁) [] ∷ fs)))
        × Extends b (do_prefix pl) b₁
  unfolding handle_do
  do_lem b s small room =
      let (b₁, done, e) = emit-Emits pl never (do_prefix pl) (gen b fs) s small in
      (b₁, rw (lt→ltb (length fs) 32 room) (rw done), e)

  pub leave_lem :
      (b : Buf)
      → IsSized b
      → size b + 7 < 2 ^ 31
      → 0 < free fs
      → (b' : Buf) × (handle_leave pl at (gen b fs) ≡ ok (gen b' (record_leave (size b + 5) fs)))
        × Extends b (ops pl (Op.fromr ∷ Op.fromr ∷ Op.drop ∷ Op.drop ∷ []) ++ jump pl Op.jmp 0) b'
  unfolding handle_leave leave_in
  leave_lem b s small room =
      let drops = ops pl (Op.fromr ∷ Op.fromr ∷ Op.drop ∷ Op.drop ∷ []) in
      let (ls, loop, few) = free-innermost fs room in
      let (b₁, done₁, e₁) = emit-Emits pl never drops (gen b fs) s (omega arith) in
      let n₁ = Extends-size e₁ in
      let (b₂, done₂, e₂) =
        emit_forward_lem pl never Op.jmp (gen b₁ fs) e₁.is_sized (omega (arith, n₁)) in
      let place : size b₁ + 1 ≡ size b + 5 = omega (arith, n₁) in
      (
        b₂,
        rw (loop, lt→ltb (length ls) 8 few)
            (bind-ok _ done₁ (bind-ok _ done₂ (ap (λ k. ok (gen b₂ (record_leave k fs))) place))),
        Extends-trans e₁ e₂,
      )

  -- The test and the jump back, `length xs` bytes behind the start of the loop. The patching of the
  -- LEAVEs is what is left.
  test_lem :
      {b b₂ : Buf} (xs : Bytes) (marked : List ℕ) (gs : List ControlFrame)
      → Extends b xs b₂
      → size b₂ + 15 < 2 ^ 31
      → (b₃ : Buf) × ((r : Result Gen)
          → (patch_leaves marked (gen b₃ gs) >>= λ g. ok (record g { control = fs })) ≡ r
          → close_loop pl (size b) marked fs (gen b₂ gs) ≡ r)
        × Extends b₂ (loop_test pl (length xs)) b₃
  unfolding close_loop
  test_lem {b} {b₂} xs marked gs e small =
      let test = ops pl (Op.fromr ∷ Op.over ∷ Op.over ∷ Op.lt ∷ []) in
      let drops = ops pl (Op.drop ∷ Op.drop ∷ []) in
      let (b₃, done₃, e₃) = emit-Emits pl never test (gen b₂ gs) e.is_sized (omega arith) in
      let n₃ = Extends-size e₃ in
      let (b₄, done₄, e₄) =
        emit_forward_lem pl never Op.jz (gen b₃ gs) e₃.is_sized (omega (arith, n₃)) in
      let n₄ = Extends-size e₄ ∙ ap (λ k. size b₃ + k) (length-jump pl Op.jz 0) in
      let (b₅, done₅, e₅) =
        emit-Emits pl never (do_prefix pl) (gen b₄ gs) e₄.is_sized (omega (arith, n₃, n₄)) in
      let n₅ = Extends-size e₅ in
      let body = xs ++ (test ++ (jump pl Op.jz 0 ++ do_prefix pl)) in
      let whole : Extends b body b₅ = Extends-trans e (Extends-trans e₃ (Extends-trans e₄ e₅)) in
      let (b₆, done₆, e₆) =
        back_lem pl never at fs Op.jmp body gs whole (omega (arith, n₃, n₄, n₅)) in
      let far : length body + 3 ≡ length xs + 13 = omega (
        arith,
        length-append xs (test ++ (jump pl Op.jz 0 ++ do_prefix pl)),
        length-append test (jump pl Op.jz 0 ++ do_prefix pl),
        length-append (jump pl Op.jz 0) (do_prefix pl),
        length-jump pl Op.jz 0,
      ) in
      let back = jump pl Op.jmp (backward (length xs + 13)) in
      let k₆ = Extends-cong (ap (λ n. jump pl Op.jmp (backward n)) far) e₆ in
      let n₆ = Extends-size k₆ ∙ ap (λ k. size b₅ + k) (length-jump pl Op.jmp _) in
      let (b₇, done₇, e₇) =
        resolve_lem pl Op.jz (do_prefix pl ++ back) (gen b₆ gs)
          (Extends-trans e₄ (Extends-trans e₅ k₆)) (omega (arith, n₃, n₄, n₅, n₆)) in
      let six : length (do_prefix pl ++ back) ≡ 6 =
        length-append (do_prefix pl) back ∙ ap (λ n. 3 + n) (length-jump pl Op.jmp _) in
      let k₇ = Extends-cong (ap (λ n. jump pl Op.jz n ++ (do_prefix pl ++ back)) six) e₇ in
      let n₇ =
        Extends-size k₇
        ∙ ap (λ k. size b₃ + k) (length-append (jump pl Op.jz 6) (do_prefix pl ++ back)) in
      let (b₈, done₈, e₈) =
        emit-Emits pl never drops (gen b₇ gs) k₇.is_sized
          (omega (arith, n₃, n₇, six, length-jump pl Op.jz 6)) in
      (
        b₈,
        λ r later. bind-ok _ done₃ (
            bind-ok _ done₄
              (bind-ok _ done₅ (bind-ok _ done₆ (bind-ok _ done₇ (bind-ok _ done₈ later))))),
        Extends-cong (simp append_assoc) (Extends-trans e₃ (Extends-trans k₇ e₈)),
      )

  -- The same with the patching, which makes `ys` of `xs`.
  close_lem :
      {b b₂ : Buf} (xs ys : Bytes) (marked : List ℕ) (gs : List ControlFrame)
      → Extends b xs b₂
      → size b₂ + 15 < 2 ^ 31
      → ((c : Buf)
          → Extends b (xs ++ loop_test pl (length xs)) c
          → size c < 2 ^ 31
          → (c' : Buf) × (patch_leaves marked (gen c gs) ≡ ok (gen c' gs))
            × Extends b (ys ++ loop_test pl (length xs)) c')
      → (b₃ : Buf) × (close_loop pl (size b) marked fs (gen b₂ gs) ≡ ok (gen b₃ fs))
        × Extends b (ys ++ loop_test pl (length xs)) b₃
  unfolding i16_le
  close_lem {b} {b₂} xs ys marked gs e small patch =
      let (b₃, then, f) = test_lem xs marked gs e small in
      let (b₄, done, h) = patch b₃ (Extends-trans e f) (omega (arith, Extends-size_is f refl)) in
      (b₄, then (ok (gen b₄ fs)) (bind-ok _ done refl), h)

  Fills-step :
      {b : Buf} {ms : ℕ → List ℕ} {n : ℕ} (xs ys step : Bytes) (gs : List ControlFrame)
      → Fills ms n xs ys
      → n ≡ length step + 15
      → (c : Buf) → Extends b ((xs ++ step) ++ loop_test pl (length (xs ++ step))) c
      → size c < 2 ^ 31
      → (c' : Buf) × (patch_leaves (ms (size b)) (gen c gs) ≡ ok (gen c' gs))
        × Extends b ((ys ++ step) ++ loop_test pl (length (xs ++ step))) c'
  unfolding i16_le
  Fills-step {b} {ms} xs ys step gs fills far c whole small =
      let test = loop_test pl (length (xs ++ step)) in
      let (c', patched, e) =
        fills.fill [] (step ++ test) b c gs (far ∙ omega (arith, length-append step test))
          (Extends-cong (append_assoc xs step test) whole) small in
      let start : size b + 0 ≡ size b = omega arith in
      (
        c',
        ap (λ k. patch_leaves (ms k) (gen c gs)) (sym start) ∙ patched,
        Extends-cong (sym (append_assoc ys step test)) e,
      )

  -- The body `xs` behind DO, then the step of LOOP or of +LOOP; the layout of the body is `ys`.
  pub loop_lem :
      {b b₂ : Buf} {ms : ℕ → List ℕ} {n : ℕ} (xs ys step : Bytes) (error : FrontErr)
      → Extends b xs b₂
      → Fills ms n xs ys
      → n ≡ length step + 15
      → size b₂ + length step + 15 < 2 ^ 31
      → (b₃ : Buf) × (loop_at pl step error at
            (do_control (size b) (ms (size b)) ∷ fs)
            (gen b₂ (do_control (size b) (ms (size b)) ∷ fs))
          ≡ ok (gen b₃ fs))
        × Extends b (ys ++ (step ++ loop_test pl (length xs + length step))) b₃
  unfolding loop_at i16_le
  loop_lem {b} {b₂} {ms} {n} xs ys step error e fills far small =
      let gs = do_control (size b) (ms (size b)) ∷ fs in
      let test = loop_test pl (length xs + length step) in
      let (c, done, f) = emit-Emits pl never step (gen b₂ gs) e.is_sized (omega arith) in
      let long = length-append xs step in
      let (b₃, closed, h) =
        close_lem (xs ++ step) (ys ++ step) (ms (size b)) gs (Extends-trans e f)
          (omega (arith, Extends-size f)) (Fills-step xs ys step gs fills far) in
      (
        b₃,
        rw (done, closed),
        Extends-cong (ap (λ k. (ys ++ step) ++ loop_test pl k) long ∙ append_assoc ys step test) h,
      )
