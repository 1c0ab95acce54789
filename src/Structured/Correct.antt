-- ===== src/Structured/Correct.antt =====
-- One construct of a structured program at a time: what its handlers make of the code.
use v4_front.Base.{
  ℕ, ◌+◌, ◌^◌, ◌<◌, ◌≡◌, ◌∙◌, ap, arith, List, ◌∷◌, ◌++◌, Bytes, length, length-append,
  append_assoc, lt→ltb, none, some,
}
use v4_front.Result.{Result, ok}
use v4_front.Platform.{Platform, Op, NeverRefuses}
use v4_front.Buffer.{Buf, size, offset_i16}
use v4_front.Buffer.Append.{IsSized, Extends, Extends-size, Extends-trans, Extends-cong}
use v4_front.Buffer.Patch.{offset_i16-backward}
use v4_front.Compiler.{ControlFrame, if_control, begin_control, Gen, emit_backward}
use v4_front.Compiler.Emission.{
  jump, length-jump, backward, emit_forward_lem, emit_backward_lem, resolve_lem,
}
use v4_front.Compiler.Branch.{
  handle_if, handle_else, handle_then, handle_begin, handle_until, handle_again, handle_while,
  handle_repeat,
}

-- The handlers of a body leave its code behind the current one, and the stack as it was.
abbrev pub Adds : Platform → Bytes → List ControlFrame → Buf → Buf → (Gen → Result Gen) → Type 0
Adds pl xs control b b' m =
    (m (record { current = b; control = control })
      ≡ ok (record { current = b'; control = control }))
    × Extends b xs b'

abbrev pub gen : Buf → List ControlFrame → Gen
gen b control = record { current = b; control = control }

module _ (pl : Platform) (never : NeverRefuses pl) (at : ℕ) (fs : List ControlFrame) where
  pub if_lem :
      (b : Buf)
      → IsSized b
      → size b + 3 < 2 ^ 31
      → length fs < 32
      → (b₁ : Buf) × (handle_if pl at (gen b fs) ≡ ok (gen b₁ (if_control (size b + 1) none ∷ fs)))
        × Extends b (jump pl Op.jz 0) b₁
  unfolding handle_if
  if_lem b s small room =
      let (b₁, done, e) = emit_forward_lem pl never Op.jz (gen b fs) s small in
      (b₁, rw (lt→ltb (length fs) 32 room) (rw done), e)

  -- THEN behind an IF with no ELSE.
  pub then_lem :
      {b b₂ : Buf} (xs : Bytes)
      → Extends b (jump pl Op.jz 0 ++ xs) b₂
      → size b₂ < 2 ^ 31
      → (b₃ : Buf) × (handle_then at (gen b₂ (if_control (size b + 1) none ∷ fs)) ≡ ok (gen b₃ fs))
        × Extends b (jump pl Op.jz (length xs) ++ xs) b₃
  unfolding handle_then
  then_lem xs e small = resolve_lem pl Op.jz xs (gen _ fs) e small

  pub else_lem :
      {b b₂ : Buf} (xs : Bytes)
      → Extends b (jump pl Op.jz 0 ++ xs) b₂
      → size b₂ + 3 < 2 ^ 31
      → (b₃ : Buf) × (handle_else pl at (gen b₂ (if_control (size b + 1) none ∷ fs))
          ≡ ok (gen b₃ (if_control (size b + 1) (some (size b₂ + 1)) ∷ fs)))
        × Extends b (jump pl Op.jz (length xs + 3) ++ (xs ++ jump pl Op.jmp 0)) b₃
  unfolding handle_else
  else_lem {b} {b₂} xs e small =
      let g = gen b₂ (if_control (size b + 1) none ∷ fs) in
      let (c, done, f) = emit_forward_lem pl never Op.jmp g e.is_sized small in
      let joined =
        Extends-cong (append_assoc (jump pl Op.jz 0) xs (jump pl Op.jmp 0)) (Extends-trans e f) in
      let over =
        length-append xs (jump pl Op.jmp 0) ∙ ap (λ k. length xs + k) (length-jump pl Op.jmp 0) in
      let (b₃, patched, r) =
        resolve_lem pl Op.jz (xs ++ jump pl Op.jmp 0) (record g { current = c }) joined
          (omega (arith, Extends-size f, length-jump pl Op.jmp 0)) in
      (b₃, rw (done, patched), Extends-cong (rw over) r)

  -- THEN behind an ELSE.
  pub else_then_lem :
      {b b₃ b₄ : Buf} (xs ys : Bytes) (jmp_patch_addr : ℕ)
      → Extends b (jump pl Op.jz (length xs + 3) ++ (xs ++ jump pl Op.jmp 0)) b₃
      → Extends b₃ ys b₄
      → jmp_patch_addr ≡ size b + 3 + length xs + 1
      → size b₄ < 2 ^ 31
      → (b₅ : Buf) × (handle_then at (gen b₄ (if_control (size b + 1) (some jmp_patch_addr) ∷ fs))
          ≡ ok (gen b₅ fs))
        × Extends b (jump pl Op.jz (length xs + 3) ++ (xs ++ (jump pl Op.jmp (length ys) ++ ys))) b₅
  unfolding handle_then
  else_then_lem {b} {b₃} {b₄} xs ys addr e f at_jmp small =
      let first = jump pl Op.jz (length xs + 3) in
      let base : Buf = record { bytes = b.bytes ++ (first ++ xs); cap = 0 } in
      let joined : Extends base (jump pl Op.jmp 0 ++ ys) b₄ = record {
        bytes_are = f.bytes_are ∙ ap (λ l. l ++ ys) e.bytes_are ∙ simp append_assoc;
        is_sized = f.is_sized;
      } in
      let n : size base ≡ size b + length (first ++ xs) = length-append b.bytes (first ++ xs) in
      let m = length-append first xs in
      let (b₅, patched, r) = resolve_lem pl Op.jmp ys (gen b₄ fs) joined small in
      let here_is : addr ≡ size base + 1 =
        omega (arith, n, m, length-jump pl Op.jz (length xs + 3)) in
      (
        b₅,
        rw here_is patched,
        record { bytes_are = r.bytes_are ∙ simp append_assoc; is_sized = r.is_sized },
      )

  pub begin_lem :
      (b : Buf)
      → length fs < 32
      → handle_begin at (gen b fs) ≡ ok (gen b (begin_control (size b) none ∷ fs))
  unfolding handle_begin
  begin_lem b room = rw (lt→ltb (length fs) 32 room)

  -- A jump back over `xs` to the end of `b`.
  pub back_lem :
      {b b₂ : Buf} (o : Op) (xs : Bytes) (gs : List ControlFrame)
      → Extends b xs b₂
      → size b₂ + 3 < 2 ^ 31
      → (b₃ : Buf) × (emit_backward pl o (size b) (gen b₂ gs) ≡ ok (gen b₃ gs))
        × Extends b₂ (jump pl o (backward (length xs + 3))) b₃
  unfolding backward
  back_lem {b} {b₂} o xs gs e small =
      let (b₃, done, f) = emit_backward_lem pl never o (size b) (gen b₂ gs) e.is_sized small in
      let far : size b₂ + 3 ≡ size b + (length xs + 3) = omega (arith, Extends-size e) in
      let offset =
        ap (offset_i16 (size b)) far
        ∙ offset_i16-backward (size b) (length xs + 3) (omega (arith, far)) in
      (b₃, done, Extends-cong (ap (jump pl o) offset) f)

  pub until_lem :
      {b b₂ : Buf} (xs : Bytes)
      → Extends b xs b₂
      → size b₂ + 3 < 2 ^ 31
      → (b₃ : Buf) × (handle_until pl at (gen b₂ (begin_control (size b) none ∷ fs))
          ≡ ok (gen b₃ fs))
        × Extends b (xs ++ jump pl Op.jz (backward (length xs + 3))) b₃
  unfolding handle_until
  until_lem {b} xs e small =
      let (b₃, done, f) = back_lem Op.jz xs (begin_control (size b) none ∷ fs) e small in
      (b₃, rw done, Extends-trans e f)

  pub again_lem :
      {b b₂ : Buf} (xs : Bytes)
      → Extends b xs b₂
      → size b₂ + 3 < 2 ^ 31
      → (b₃ : Buf) × (handle_again pl at (gen b₂ (begin_control (size b) none ∷ fs))
          ≡ ok (gen b₃ fs))
        × Extends b (xs ++ jump pl Op.jmp (backward (length xs + 3))) b₃
  unfolding handle_again
  again_lem {b} xs e small =
      let (b₃, done, f) = back_lem Op.jmp xs (begin_control (size b) none ∷ fs) e small in
      (b₃, rw done, Extends-trans e f)

  pub while_lem :
      (b₂ : Buf) (begin_addr : ℕ)
      → IsSized b₂
      → size b₂ + 3 < 2 ^ 31
      → (b₃ : Buf) × (handle_while pl at (gen b₂ (begin_control begin_addr none ∷ fs))
          ≡ ok (gen b₃ (begin_control begin_addr (some (size b₂ + 1)) ∷ fs)))
        × Extends b₂ (jump pl Op.jz 0) b₃
  unfolding handle_while
  while_lem b₂ begin_addr s small =
      let g = gen b₂ (begin_control begin_addr none ∷ fs) in
      let (b₃, done, e) = emit_forward_lem pl never Op.jz g s small in (b₃, rw done, e)

  pub repeat_lem :
      {b b₂ b₃ b₄ : Buf} (xs ys : Bytes)
      → Extends b xs b₂
      → Extends b₂ (jump pl Op.jz 0) b₃
      → Extends b₃ ys b₄
      → size b₄ + 3 < 2 ^ 31
      → (b₅ : Buf) × (handle_repeat pl at
            (gen b₄ (begin_control (size b) (some (size b₂ + 1)) ∷ fs))
          ≡ ok (gen b₅ fs))
        × Extends b
            (xs
              ++ (jump pl Op.jz (length ys + 3)
                  ++ (ys ++ jump pl Op.jmp (backward (length xs + length ys + 6)))))
            b₅
  unfolding handle_repeat
  repeat_lem {b} {b₂} {b₃} {b₄} xs ys e f h small =
      let fs' = begin_control (size b) (some (size b₂ + 1)) ∷ fs in
      let body = xs ++ (jump pl Op.jz 0 ++ ys) in
      let whole : Extends b body b₄ = Extends-trans e (Extends-trans f h) in
      let (c, done, k) = back_lem Op.jmp body fs' whole small in
      let far : length body + 3 ≡ length xs + length ys + 6 = omega (
        arith,
        length-append xs (jump pl Op.jz 0 ++ ys),
        length-append (jump pl Op.jz 0) ys,
        length-jump pl Op.jz 0,
      ) in
      let back = jump pl Op.jmp (backward (length xs + length ys + 6)) in
      let k' = Extends-cong (ap (λ n. jump pl Op.jmp (backward n)) far) k in
      let inner = Extends-trans f (Extends-trans h k') in
      let (b₅, patched, r) = resolve_lem pl Op.jz (ys ++ back) (gen c fs') inner (
        omega
          (arith, Extends-size k', length-jump pl Op.jmp (backward (length xs + length ys + 6)))) in
      let over : length (ys ++ back) ≡ length ys + 3 =
        length-append ys back ∙ ap (λ n. length ys + n) (length-jump pl Op.jmp _) in
      (b₅, rw (done, patched), Extends-trans e (Extends-cong (rw over) r))
