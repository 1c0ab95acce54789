-- ===== src/Compiler/Emission.antt =====
-- What the emitting helpers of `Compiler` leave in the current buffer.
use mathlib.Core.Path.{subst}
use v4_front.Base.{
  ℕ, ◌+◌, ◌-◌, ◌%◌, ◌^◌, ◌<◌, ◌≡◌, refl, ◌∙◌, ap, sym, arith, [], ◌∷◌, ◌++◌, Bytes, length,
  length-append, append_assoc,
}
use v4_front.Result.{ok, ◌>>=◌, >>=-eq-ok}
use v4_front.Platform.{Platform, Op, NeverRefuses}
use v4_front.Buffer.{Buf, size, append_bytes, i16_le, offset_i16, backpatch_i16_le}
use v4_front.Buffer.Append.{
  IsSized, Extends, Extends-size, Extends-trans, append_bytes-total, append_bytes-Extends,
}
use v4_front.Buffer.Patch.{backpatch-placeholder, offset_i16-forward}
use v4_front.Compiler.{Gen, here, emit, emit_forward, emit_backward, backpatch, resolve}

-- A jump and its offset, as the machine reads them.
abbrev pub jump : Platform → Op → ℕ → Bytes
jump pl o offset = pl.op_byte o ∷ i16_le offset

-- The offset of a jump back over `distance` bytes, its own three among them.
unfoldable pub backward : ℕ → ℕ
backward distance = (2 ^ 16 - distance % 2 ^ 16) % 2 ^ 16

pub length-jump : (pl : Platform) (o : Op) (offset : ℕ) → length (jump pl o offset) ≡ 3
unfolding i16_le
length-jump pl o offset = refl

pub length-i16_le : (n : ℕ) → length (i16_le n) ≡ 2
unfolding i16_le
length-i16_le n = refl

pub length-bytes : (xs ys : Bytes) → length (xs ++ ys) ≡ length xs + length ys
length-bytes = length-append

-- The lengths of code in pieces, for `simp`.
pub ruleset sizes = (length-bytes, length-i16_le)

pub i16_le-mod : (n : ℕ) → i16_le (n % 2 ^ 16) ≡ i16_le n
unfolding i16_le
i16_le-mod n = ground arith

-- `m` succeeds, and all it does to `g` is to put `xs` behind the code.
abbrev pub Emits : Platform → Bytes → Gen → (Gen → v4_front.Result.Result Gen) → Type 0
Emits pl xs g m = (b : Buf) × (m g ≡ ok (record g { current = b })) × Extends g.current xs b

-- What a successful `emit` leaves.
pub emit-bytes :
    (pl : Platform) (xs : Bytes) (g : Gen) {g' : Gen}
    → IsSized g.current
    → emit pl xs g ≡ ok g'
    → g'.current.bytes ≡ g.current.bytes ++ xs
unfolding emit
emit-bytes pl xs g {g'} s e =
    let (b, done, same) = >>=-eq-ok (append_bytes pl xs g.current) _ e in
    let current : b ≡ g'.current = cc in
    subst (λ b'. b'.bytes ≡ g.current.bytes ++ xs) current
      (append_bytes-Extends pl xs g.current s done).bytes_are

module _ (pl : Platform) (never : NeverRefuses pl) where
  pub emit-Emits :
      (xs : Bytes) (g : Gen)
      → IsSized g.current
      → here g + length xs < 2 ^ 31
      → Emits pl xs g (emit pl xs)
  unfolding emit
  emit-Emits xs g s small =
      let (b, done, e) = append_bytes-total pl xs g.current never s small in (b, rw done, e)

  pub emit_forward_lem :
      (o : Op) (g : Gen)
      → IsSized g.current
      → here g + 3 < 2 ^ 31
      → (b : Buf) × (emit_forward pl o g ≡ ok (here g + 1, record g { current = b }))
        × Extends g.current (jump pl o 0) b
  unfolding emit_forward
  emit_forward_lem o g s small =
      let (b₁, done₁, e₁) = emit-Emits (pl.op_byte o ∷ []) g s (omega arith) in
      let n = Extends-size e₁ in
      let (b₂, done₂, e₂) =
        emit-Emits (i16_le 0) (record g { current = b₁ }) e₁.is_sized
          (omega (arith, n, length-i16_le 0)) in
      (b₂, rw (done₁, done₂) (ap (λ k. ok (k, record g { current = b₂ })) n), Extends-trans e₁ e₂)

  pub emit_backward_lem :
      (o : Op) (target : ℕ) (g : Gen)
      → IsSized g.current
      → here g + 3 < 2 ^ 31
      → Emits pl (jump pl o (offset_i16 target (here g + 3))) g (emit_backward pl o target)
  unfolding emit_backward
  emit_backward_lem o target g s small =
      let (b₁, done₁, e₁) = emit-Emits (pl.op_byte o ∷ []) g s (omega arith) in
      let n = Extends-size e₁ in
      let next : size b₁ + 2 ≡ here g + 3 = omega (arith, n) in
      let xs = i16_le (offset_i16 target (here g + 3)) in
      let (b₂, done₂, e₂) =
        emit-Emits xs (record g { current = b₁ }) e₁.is_sized (omega (arith, n, length-i16_le _)) in
      (b₂, rw (done₁, next) done₂, Extends-trans e₁ e₂)

-- The placeholder of a jump that `body` follows gets the distance over `body`.
pub resolve_lem :
    (pl : Platform) (o : Op) (body : Bytes) {b : Buf} (g : Gen)
    → Extends b (jump pl o 0 ++ body) g.current
    → here g < 2 ^ 31
    → (b' : Buf) × (resolve (size b + 1) g ≡ ok (record g { current = b' }))
      × Extends b (jump pl o (length body) ++ body) b'
unfolding resolve backpatch i16_le
resolve_lem pl o body {b} g e small =
    let pre = b.bytes ++ pl.op_byte o ∷ [] in
    let at : length pre ≡ size b + 1 = length-append b.bytes (pl.op_byte o ∷ []) in
    let n = Extends-size e in
    let split : g.current.bytes ≡ pre ++ (0 ∷ 0 ∷ body) =
      e.bytes_are ∙ sym (append_assoc b.bytes (pl.op_byte o ∷ []) (0 ∷ 0 ∷ body)) in
    let offset = offset_i16 (here g) (size b + 1 + 2) in
    let patched = backpatch-placeholder pre body 0 0 offset g.current split e.is_sized in
    let far : offset ≡ length body % 2 ^ 16 =
      ap (λ k. offset_i16 k (size b + 1 + 2)) (omega (arith, n))
      ∙ offset_i16-forward (size b + 1 + 2) (length body) (omega (arith, n)) in
    let code = b.bytes ++ (jump pl o (length body) ++ body) in
    let b' : Buf = record { bytes = code; cap = g.current.cap } in
    let same : pre ++ (i16_le offset ++ body) ≡ code =
      ap (λ l. pre ++ (l ++ body)) (ap i16_le far ∙ i16_le-mod (length body))
      ∙ append_assoc b.bytes (pl.op_byte o ∷ []) (i16_le (length body) ++ body) in
    let written : backpatch_i16_le (size b + 1) offset g.current ≡ ok b' =
      ap (λ k. backpatch_i16_le k offset g.current) (sym at)
      ∙ patched
      ∙ ap {B = v4_front.Result.Result Buf} (λ l. ok (record { bytes = l; cap = g.current.cap }))
          same in
    (
      b',
      rw written,
      record {
        bytes_are = refl;
        is_sized =
            omega (arith, n, e.is_sized, length-append b.bytes (jump pl o (length body) ++ body));
      },
    )
