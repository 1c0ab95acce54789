-- ===== src/Buffer/Append.antt =====
-- Appending to a buffer: what is written, and when it is refused.
use mathlib.Core.Path.{subst}
use v4_front.Base.{
  ℕ, ◌+◌, ◌^◌, ◌≤◌, ◌<◌, ◌≡◌, refl, ◌∙◌, ap, sym, arith, [], ◌∷◌, ◌++◌, Bytes, length,
  length-append, append_assoc, append-nil, ltb, Bool-cases, inl, inr,
}
use v4_front.Result.{ok, >>=-eq-ok}
use v4_front.Platform.{Platform, NeverRefuses}
use v4_front.Buffer.{Buf, size, new_cap, append_byte, append_bytes}

-- The size never exceeds the capacity.
abbrev pub IsSized : Buf → Type 0
IsSized b = size b ≤ b.cap

-- `b'` is `b` with `xs` behind its bytes.
pub record Extends (b : Buf) (xs : Bytes) (b' : Buf) : Type 0 where
  pub bytes_are : b'.bytes ≡ b.bytes ++ xs
  pub is_sized : IsSized b'

pub Extends-size : {b b' : Buf} {xs : Bytes} → Extends b xs b' → size b' ≡ size b + length xs
Extends-size {b} {b'} {xs} e = ap length e.bytes_are ∙ length-append b.bytes xs

-- The same, where the length is known.
pub Extends-size_is :
    {b b' : Buf} {xs : Bytes} {n : ℕ} → Extends b xs b' → length xs ≡ n → size b' ≡ size b + n
Extends-size_is {b} e known = Extends-size e ∙ ap (λ k. size b + k) known

pub Extends-nil : {b : Buf} → IsSized b → Extends b [] b
Extends-nil {b} h = record { bytes_are = sym (append-nil b.bytes); is_sized = h }

pub Extends-trans :
    {b b' b'' : Buf} {xs ys : Bytes}
    → Extends b xs b'
    → Extends b' ys b''
    → Extends b (xs ++ ys) b''
Extends-trans {b} {xs = xs} {ys} e f = record {
  bytes_are = f.bytes_are ∙ ap (λ l. l ++ ys) e.bytes_are ∙ append_assoc b.bytes xs ys;
  is_sized = f.is_sized;
}

pub append_byte-Extends :
    (pl : Platform) (x : ℕ) (b : Buf) {b' : Buf}
    → append_byte pl x b ≡ ok b'
    → Extends b (x ∷ []) b'
unfolding append_byte
append_byte-Extends pl x b h =
    let n = length-append b.bytes (x ∷ []) in
    record { bytes_are = ground arith; is_sized = ground (arith, n) }

-- Whatever the calls append stands behind what was there, in order and once.
pub append_bytes-Extends :
    (pl : Platform) (xs : Bytes) (b : Buf) {b' : Buf}
    → IsSized b
    → append_bytes pl xs b ≡ ok b'
    → Extends b xs b'
unfolding append_bytes
append_bytes-Extends pl [] b s h = subst (λ c. Extends b [] c) (cc) (Extends-nil s)
append_bytes-Extends pl (x ∷ xs) b s h =
    let (c, first, later) = >>=-eq-ok (append_byte pl x b) (append_bytes pl xs) h in
    let e = append_byte-Extends pl x b first in
    Extends-trans e (append_bytes-Extends pl xs c e.is_sized later)

append_byte-total :
    (pl : Platform) (x : ℕ) (b : Buf)
    → NeverRefuses pl
    → IsSized b
    → size b + 1 < 2 ^ 31
    → (b' : Buf) × (append_byte pl x b ≡ ok b')
unfolding append_byte
append_byte-total pl x b never s small = elim (Bool-cases (ltb (size b) b.cap)) [
  | inl room ↦ (record b { bytes = b.bytes ++ x ∷ [] }, ground arith)
  | inr full ↦ (
    record { bytes = b.bytes ++ x ∷ []; cap = new_cap b.cap },
    ground (arith, never (new_cap b.cap)),
  )
]

-- Short of 2 ^ 31 bytes, with no request refused and the size within the capacity, appending
-- succeeds: the bytes stand behind those that were there, and the size is within the capacity.
pub append_bytes-total :
    (pl : Platform) (xs : Bytes) (b : Buf)
    → NeverRefuses pl
    → IsSized b
    → size b + length xs < 2 ^ 31
    → (b' : Buf) × (append_bytes pl xs b ≡ ok b') × Extends b xs b'
unfolding append_bytes
append_bytes-total pl [] b never s small = (b, refl, Extends-nil s)
append_bytes-total pl (x ∷ xs) b never s small =
    let (c, first) = append_byte-total pl x b never s (omega arith) in
    let e = append_byte-Extends pl x b first in
    let (b', later, f) =
      append_bytes-total pl xs c never e.is_sized (omega (arith, Extends-size e)) in
    (b', rw first later, Extends-trans e f)

-- The same bytes, bracketed in another way.
pub Extends-cong : {b b' : Buf} {xs ys : Bytes} → xs ≡ ys → Extends b xs b' → Extends b ys b'
Extends-cong {b} {b'} e = subst (λ l. Extends b l b') e
