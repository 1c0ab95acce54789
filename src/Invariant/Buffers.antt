-- ===== src/Invariant/Buffers.antt =====
-- The emitting helpers keep the buffer and the stack in order.
use v4_front.Base.{
  ℕ, ◌+◌, ◌/◌, ◌%◌, ◌≡◌, refl, ◌∙◌, Bool-cases, inl, inr, List, [], ◌∷◌, Bytes, map, All,
  All-append, All-set, arith, ltb, ltb→lt, set, length-set, length-append,
}
use v4_front.Platform.{Platform, Op, OpcodesFit}
use v4_front.Buffer.{
  Buf, size, store, new_cap, append_byte, append_bytes, i16_le, i32_le, backpatch_i16_le,
  offset_i16,
}
use v4_front.Compiler.{
  Gen, ControlFrame, emit, emit_forward, emit_backward, backpatch, resolve, here,
}
use v4_front.Invariant.{Post, returns, raises, faults, Post-bind, Post-map, IsByte, BufInv}

pub All-i16_le : (v : ℕ) → All IsByte (i16_le v)
unfolding i16_le
All-i16_le v = omega arith

pub All-i32_le : (v : ℕ) → All IsByte (i32_le v)
unfolding i32_le
All-i32_le v = omega arith

module _ (n : ℕ) (pl : Platform) where
  store-Post : (b : Buf) (x : ℕ) → All IsByte b.bytes → IsByte x → Post n BufInv (store b x)
  store-Post b x h byte = elim (Bool-cases (ltb (size b) b.cap)) [
    | inl room ↦ rw room (
        returns (
          omega (arith, length-append b.bytes (x ∷ []), ltb→lt (size b) b.cap room),
          All-append IsByte b.bytes (x ∷ []) h (byte, tt),
        ))
    | inr full ↦ rw full faults
  ]

  append_byte-Post : (b : Buf) (x : ℕ) → BufInv b → IsByte x → Post n BufInv (append_byte pl x b)
  unfolding append_byte
  append_byte-Post b x (s, h) byte = elim (Bool-cases (ltb (size b) b.cap)) [
    | inl room ↦ rw room (rw room at (store-Post b x h byte))
    | inr full ↦ rw full (elim (Bool-cases (pl.alloc (new_cap b.cap))) [
      | inl granted ↦ rw granted (store-Post (record b { cap = new_cap b.cap }) x h byte)
      | inr refused ↦ rw refused (raises tt tt)
    ])
  ]

  pub append_bytes-Post :
      (xs : Bytes) (b : Buf) → BufInv b → All IsByte xs → Post n BufInv (append_bytes pl xs b)
  unfolding append_bytes
  append_bytes-Post [] b h bytes = returns h
  append_bytes-Post (x ∷ xs) b h (byte, bytes) =
      Post-bind (append_byte-Post b x h byte) λ b' h'. append_bytes-Post xs b' h' bytes

  -- The stack is left alone.
  abbrev pub Kept : List ControlFrame → Gen → Type 0
  Kept control g = BufInv g.current × (g.control ≡ control)

  pub emit-Post :
      (xs : Bytes) (g : Gen)
      → BufInv g.current
      → All IsByte xs
      → Post n (Kept g.control) (emit pl xs g)
  unfolding emit
  emit-Post xs g h bytes =
      Post-bind (append_bytes-Post xs g.current h bytes) λ b h'. returns (h', refl)

  pub resolve-Post :
      (addr : ℕ) (g : Gen) → BufInv g.current → Post n (Kept g.control) (resolve addr g)
  unfolding resolve backpatch backpatch_i16_le
  resolve-Post addr g (s, h) =
      let v = offset_i16 (here g) (addr + 2) in
      let low = set g.current.bytes addr (v % 256) in
      let kept : BufInv (record g.current { bytes = set low (addr + 1) (v / 256 % 256) }) = (
        omega (
          arith,
          length-set low (addr + 1) (v / 256 % 256),
          length-set g.current.bytes addr (v % 256),
        ),
        All-set IsByte low (addr + 1) (v / 256 % 256)
            (All-set IsByte g.current.bytes addr (v % 256) h (omega arith)) (omega arith),
      ) in
      elim (Bool-cases (ltb (addr + 1) g.current.cap)) [
        | inl room ↦ rw room (returns (kept, refl))
        | inr out ↦ rw out faults
      ]

  module _ (fit : OpcodesFit pl) where
    pub emit_forward-Post :
        (o : Op) (g : Gen)
        → BufInv g.current
        → Post n (λ r. Kept g.control r.1) (emit_forward pl o g)
    unfolding emit_forward
    emit_forward-Post o g h =
        Post-bind (emit-Post (pl.op_byte o ∷ []) g h (fit o, tt)) λ g₁ (h₁, e₁).
          Post-bind (emit-Post (i16_le 0) g₁ h₁ (All-i16_le 0)) λ g₂ (h₂, e₂). returns (h₂, e₂ ∙ e₁)

    pub emit_backward-Post :
        (o : Op) (target : ℕ) (g : Gen)
        → BufInv g.current
        → Post n (Kept g.control) (emit_backward pl o target g)
    unfolding emit_backward
    emit_backward-Post o target g h =
        Post-bind (emit-Post (pl.op_byte o ∷ []) g h (fit o, tt)) λ g₁ (h₁, e₁).
          Post-map (emit-Post (i16_le (offset_i16 target (here g₁ + 2))) g₁ h₁ (All-i16_le _))
            λ g₂ (h₂, e₂). (h₂, e₂ ∙ e₁)

    pub All-ops : (os : List Op) → All IsByte (map pl.op_byte os)
    All-ops [] = tt
    All-ops (o ∷ os) = (fit o, All-ops os)
