-- ===== src/Text/Equality.antt =====
-- `str_eq_ci` is equality of the lower-case texts.
use v4_front.Base.{
  true, false, Bool-cases, inl, inr, ◌≡◌, refl, sym, ◌∙◌, ◌↔◌, arith, [], ◌∷◌, map, Bytes,
}
use v4_front.Text.{to_lower, str_eq_ci}

-- Two texts are equal but for case exactly when their lower-case forms are equal.
pub str_eq_ci_iff : (a b : Bytes) → (str_eq_ci a b ≡ true) ↔ (map to_lower a ≡ map to_lower b)
unfolding str_eq_ci
str_eq_ci_iff [] [] = ground arith
str_eq_ci_iff [] (y ∷ b) = ground arith
str_eq_ci_iff (x ∷ a) [] = ground arith
str_eq_ci_iff (x ∷ a) (y ∷ b) = ground (arith, str_eq_ci_iff a b)

pub str_eq_ci_refl : (a : Bytes) → str_eq_ci a a ≡ true
str_eq_ci_refl a = (str_eq_ci_iff a a).1 refl

pub str_eq_ci_symm : (a b : Bytes) → str_eq_ci a b ≡ true → str_eq_ci b a ≡ true
str_eq_ci_symm a b h = (str_eq_ci_iff b a).1 (sym ((str_eq_ci_iff a b).0 h))

pub str_eq_ci_trans :
    (a b c : Bytes) → str_eq_ci a b ≡ true → str_eq_ci b c ≡ true → str_eq_ci a c ≡ true
str_eq_ci_trans a b c h k =
    (str_eq_ci_iff a c).1 ((str_eq_ci_iff a b).0 h ∙ (str_eq_ci_iff b c).0 k)

-- Equal texts are equal to the same texts.
pub str_eq_ci_congr : (a b c : Bytes) → str_eq_ci a b ≡ true → str_eq_ci a c ≡ str_eq_ci b c
str_eq_ci_congr a b c h = elim (Bool-cases (str_eq_ci b c)) [
  | inl same ↦ str_eq_ci_trans a b c h same ∙ sym same
  | inr other ↦ elim (Bool-cases (str_eq_ci a c)) [
    | inl same ↦ cc (str_eq_ci_trans b a c (str_eq_ci_symm a b h) same)
    | inr other' ↦ other' ∙ sym other
  ]
]

-- A text equal to one of two that differ is not equal to the other.
pub str_eq_ci_apart :
    (a b c : Bytes) → str_eq_ci a b ≡ false → str_eq_ci a c ≡ true → str_eq_ci b c ≡ false
str_eq_ci_apart a b c h k = elim (Bool-cases (str_eq_ci b c)) [
  | inl same ↦ cc (str_eq_ci_trans a c b k (str_eq_ci_symm b c same))
  | inr other ↦ other
]

pub str_eq_ci_comm : (a b : Bytes) → str_eq_ci a b ≡ str_eq_ci b a
str_eq_ci_comm a b = elim (Bool-cases (str_eq_ci a b)) [
  | inl same ↦ same ∙ sym (str_eq_ci_symm a b same)
  | inr other ↦ elim (Bool-cases (str_eq_ci b a)) [
    | inl same ↦ cc (str_eq_ci_symm b a same)
    | inr other' ↦ other ∙ sym other'
  ]
]
