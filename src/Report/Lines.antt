-- ===== src/Report/Lines.antt =====
-- The line and column of a position.
use v4_front.Base.{
  ℕ, zero, suc, ◌+◌, ◌≤◌, ◌≡◌, refl, ap, sym, ◌∙◌, inl, inr, Bool-cases, true, false, [], ◌∷◌, ◌++◌,
  Bytes, take-drop, length-take, length, take, drop, ◌==◌, if◌then◌else◌, arith,
}
use v4_front.Report.{count_line_column, calculate_line_column, advance_line_column}

-- The newlines of a text.
unfoldable pub newlines : Bytes → ℕ
newlines [] = 0
newlines (c ∷ s) = let n = newlines s in if c == b'\n' then suc n else n

-- The distance from the start of the text to the place behind so many newlines and so many bytes
-- more.
unfoldable pub place_of : ℕ → ℕ → Bytes → ℕ
place_of zero column s = column
place_of (suc line) column [] = column
place_of (suc line) column (c ∷ s) =
    let next = place_of line column s in
    let same = place_of (suc line) column s in suc (if c == b'\n' then next else same)

abbrev start_column : ℕ → ℕ → ℕ
start_column zero k = k
start_column (suc d) k = 0

-- From line `l` and `k` bytes into it, behind `front`: `d` lines and `e` bytes.
abbrev Counts : Bytes → Bytes → ℕ → ℕ → Type 0
Counts front back l k =
    (d : ℕ) × (e : ℕ) × (count_line_column front (l, suc k) ≡ (l + d, suc e))
    × (newlines front ≡ d)
    × (place_of d e (front ++ back) ≡ length front + start_column d k)

advance-other : (c l k : ℕ) → (c == b'\n') ≡ false → advance_line_column c (l, k) ≡ (l, suc k)
advance-other c l k other = rw other (ap (λ n. (l, n)) (omega arith))

advance-newline : (c l k : ℕ) → (c == b'\n') ≡ true → advance_line_column c (l, k) ≡ (suc l, 1)
advance-newline c l k newline = rw newline (ap (λ n. (n, 1)) (omega arith))

start_column_zero : (d : ℕ) → start_column d 0 ≡ 0
start_column_zero zero = refl
start_column_zero (suc d) = refl

same_line :
    (c : ℕ) (cs back : Bytes) (l k : ℕ)
    → (c == b'\n') ≡ false
    → Counts cs back l (suc k)
    → Counts (c ∷ cs) back l k
unfolding count_line_column place_of newlines
same_line c cs back l k other (zero, e, done, n, place) = (
  zero,
  e,
  ap (count_line_column cs) (advance-other c l (suc k) other) ∙ done,
  ground (arith, other, n),
  omega (arith, place),
)
same_line c cs back l k other (suc d, e, done, n, place) = (
  suc d,
  e,
  ap (count_line_column cs) (advance-other c l (suc k) other) ∙ done,
  ground (arith, other, n),
  ground (arith, other, place),
)

next_line :
    (c : ℕ) (cs back : Bytes) (l k : ℕ)
    → (c == b'\n') ≡ true
    → Counts cs back (suc l) 0
    → Counts (c ∷ cs) back l k
unfolding count_line_column place_of newlines
next_line c cs back l k newline (d, e, done, n, place) = (
  suc d,
  e,
  ap (count_line_column cs) (advance-newline c l (suc k) newline)
      ∙ done
      ∙ ap (λ n. (n, suc e)) (omega arith),
  ground (arith, newline, n),
  ground (arith, newline, place, start_column_zero d),
)

count_line_column-Counts : (front back : Bytes) (l k : ℕ) → Counts front back l k
unfolding count_line_column place_of newlines
count_line_column-Counts [] back l k =
    (zero, k, ap (λ x. (x, suc k)) (omega arith), refl, omega arith)
count_line_column-Counts (c ∷ cs) back l k = elim (Bool-cases (c == b'\n')) [
  | inl newline ↦ next_line c cs back l k newline (count_line_column-Counts cs back (suc l) 0)
  | inr other ↦ same_line c cs back l k other (count_line_column-Counts cs back l (suc k))
]

-- The line is one more than the newlines in front of a position in the text, and the position is the
-- one that the line and the column, both counted from 1, lead back to.
pub calculate_line_column-place :
    (source : Bytes) (error_pos : ℕ)
    → error_pos ≤ length source
    → (line : ℕ) × (column : ℕ) × (calculate_line_column source error_pos ≡ (suc line, suc column))
      × (newlines (take error_pos source) ≡ line)
      × (place_of line column source ≡ error_pos)
unfolding calculate_line_column
calculate_line_column-place source error_pos h =
    let (d, e, done, n, place) =
      count_line_column-Counts (take error_pos source) (drop error_pos source) 1 0 in
    (
      d,
      e,
      done ∙ ap (λ m. (m, suc e)) (omega arith),
      n,
      ap (place_of d e) (sym (take-drop error_pos source))
          ∙ omega (arith, place, length-take error_pos source h, start_column_zero d),
    )
