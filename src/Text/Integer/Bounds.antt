-- ===== src/Text/Integer/Bounds.antt =====
-- The value that `try_parse_int` of src/compile.cpp gives is a pattern of 32 bits.
use v4_front.Base.{
  ℕ, ◌^◌, ◌<◌, ◌≡◌, Bool, Option, none, some, [], ◌∷◌, Bytes, arith, ◌==◌, Bool-cases, inl, inr,
  true, false,
}
use v4_front.Text.Integer.{to_i32, as_i32, read_magnitude, try_parse_int}

to_i32-lt : (negative : Bool) (m : ℕ) → to_i32 negative m < 2 ^ 32
unfolding to_i32
to_i32-lt true m = ground arith
to_i32-lt false m = ground arith

as_i32-lt : (negative : Bool) (m : Option ℕ) {v : ℕ} → as_i32 negative m ≡ some v → v < 2 ^ 32
as_i32-lt negative none e = cc
as_i32-lt negative (some m) {v} e =
    let same : to_i32 negative m ≡ v = cc in omega (arith, same, to_i32-lt negative m)

pub try_parse_int-lt : (t : Bytes) {v : ℕ} → try_parse_int t ≡ some v → v < 2 ^ 32
unfolding try_parse_int
try_parse_int-lt [] e = cc
try_parse_int-lt (c ∷ cs) e = elim (Bool-cases (c == b'-')) [
  | inl minus ↦ as_i32-lt true (read_magnitude cs) (ground (arith, minus))
  | inr other ↦ elim (Bool-cases (c == b'+')) [
    | inl plus ↦ as_i32-lt false (read_magnitude cs) (ground (arith, other, plus))
    | inr neither ↦ as_i32-lt false (read_magnitude (c ∷ cs)) (ground (arith, other, neither))
  ]
]
