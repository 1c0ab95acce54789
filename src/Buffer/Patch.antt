-- ===== src/Buffer/Patch.antt =====
-- Backpatching: the two bytes of a placeholder, and what an offset decodes to.
use v4_front.Base.{
  ℕ, suc, ◌+◌, ◌-◌, ◌%◌, ◌^◌, ◌<◌, ◌≡◌, ◌∙◌, ap, arith, ◌∷◌, ◌++◌, Bytes, length, length-append,
  set, set-append, lt→ltb,
}
use v4_front.Result.{ok}
use v4_front.Buffer.{Buf, size, i16_le, backpatch_i16_le, offset_i16}
use v4_front.Buffer.Append.{IsSized}

set_two :
    (pre body : Bytes) (x y u v : ℕ)
    → set (set (pre ++ (x ∷ y ∷ body)) (length pre) u) (length pre + 1) v ≡ pre ++ (u ∷ v ∷ body)
set_two pre body x y u v =
    let at : length pre ≡ length pre + 0 = omega arith in
    ap (λ k. set (set (pre ++ (x ∷ y ∷ body)) k u) (length pre + 1) v) at
    ∙ ap (λ l. set l (length pre + 1) v) (set-append pre (x ∷ y ∷ body) 0 u)
    ∙ set-append pre (u ∷ y ∷ body) 1 v

-- A placeholder behind `pre` is replaced, and nothing else.
pub backpatch-placeholder :
    (pre body : Bytes) (x y val : ℕ) (b : Buf)
    → b.bytes ≡ pre ++ (x ∷ y ∷ body)
    → IsSized b
    → backpatch_i16_le (length pre) val b ≡ ok (record b { bytes = pre ++ (i16_le val ++ body) })
unfolding backpatch_i16_le i16_le
backpatch-placeholder pre body x y val b e s =
    let n : size b ≡ length pre + suc (suc (length body)) =
      ap length e ∙ length-append pre (x ∷ y ∷ body) in
    rw (lt→ltb (length pre + 1) b.cap (omega arith), e) (rw set_two)

-- A forward distance, and a backward one in two's complement.
pub offset_i16-forward :
    (next distance : ℕ)
    → next + distance < 2 ^ 32
    → offset_i16 (next + distance) next ≡ distance % 2 ^ 16
unfolding offset_i16
offset_i16-forward next distance h = omega arith

pub offset_i16-backward :
    (target distance : ℕ)
    → target + distance < 2 ^ 32
    → offset_i16 target (target + distance) ≡ (2 ^ 16 - distance % 2 ^ 16) % 2 ^ 16
unfolding offset_i16
offset_i16-backward target distance h = omega arith
