-- ===== src/Text/Skipping.antt =====
-- What `skip_whitespace_and_comments` of src/compile.cpp passes over, as a grammar.
use mathlib.Core.Path.{subst}
use v4_front.Base.{
  ◌↔◌, ℕ, ◌≡◌, refl, sym, ap, ◌∙◌, Bool-cases, true, false, ◌&&◌, ◌⊎◌, inl, inr, [], ◌∷◌, ◌++◌,
  Bytes, All, arith, ◌==◌,
}
use v4_front.Result.{ok}
use v4_front.Text.{is_space}
use v4_front.Text.Blanks.{
  Mode, blanks, line_comment, paren_comment, space_follows, move, at_end, skip_in,
  skip_whitespace_and_comments,
}

-- A token starts here, or the text ends: no blank, no `\`, and no `(` before a blank.
abbrev pub IsToken : Bytes → Type 0
IsToken [] = Unit
IsToken (c ∷ cs) =
    (is_space c ≡ false) × ((c == b'\\') ≡ false) × ((c == b'(' && space_follows cs) ≡ false)

-- From `p` to `q` there are only blanks, comments from `\` to the end of the line, and comments from
-- `(` and a blank to the next `)`.
pub data Skips : Bytes → Bytes → Type 0 where
  at_token : {q : Bytes} → IsToken q → Skips q q
  space : {c : ℕ} {p q : Bytes} → is_space c ≡ true → Skips p q → Skips (c ∷ p) q
  line :
      (body : Bytes) {p q : Bytes}
      → All (λ c. (c == b'\n') ≡ false) body
      → Skips p q
      → Skips (b'\\' ∷ (body ++ (b'\n' ∷ p))) q
  last_line : (body : Bytes) → All (λ c. (c == b'\n') ≡ false) body → Skips (b'\\' ∷ body) []
  parens :
      (body : Bytes) {p q : Bytes}
      → space_follows (body ++ (b')' ∷ p)) ≡ true
      → All (λ c. (c == b')') ≡ false) body
      → Skips p q
      → Skips (b'(' ∷ (body ++ (b')' ∷ p))) q

-- What a pass that starts in the mode has passed over.
abbrev Passes : Mode → Bytes → Bytes → Type 0
Passes blanks p q = Skips p q
Passes line_comment p q =
    (All (λ c. (c == b'\n') ≡ false) p × (q ≡ []))
    ⊎ ((body : Bytes) × (p' : Bytes) × (p ≡ body ++ (b'\n' ∷ p'))
        × All (λ c. (c == b'\n') ≡ false) body
        × Skips p' q)
Passes paren_comment p q =
    (body : Bytes) × (p' : Bytes) × (p ≡ body ++ (b')' ∷ p'))
    × All (λ c. (c == b')') ≡ false) body
    × Skips p' q

is_char : (c k : ℕ) → (c == k) ≡ true → c ≡ k
is_char c k h = ground arith

-- One more byte of a comment.
longer_line :
    (c : ℕ) (p q : Bytes)
    → (c == b'\n') ≡ false
    → Passes line_comment p q
    → Passes line_comment (c ∷ p) q
longer_line c p q other (inl (all, e)) = inl ((other, all), e)
longer_line c p q other (inr (body, p', is, all, s)) =
    inr (c ∷ body, p', ap (λ l. c ∷ l) is, (other, all), s)

longer_paren :
    (c : ℕ) (p q : Bytes)
    → (c == b')') ≡ false
    → Passes paren_comment p q
    → Passes paren_comment (c ∷ p) q
longer_paren c p q other (body, p', is, all, s) =
    (c ∷ body, p', ap (λ l. c ∷ l) is, (other, all), s)

-- A comment behind its first byte.
after_backslash : (p q : Bytes) → Passes line_comment p q → Skips (b'\\' ∷ p) q
after_backslash p q (inl (all, e)) = rw e (last_line p all)
after_backslash p q (inr (body, p', is, all, s)) = rw is (line body all s)

after_paren : (p q : Bytes) → space_follows p ≡ true → Passes paren_comment p q → Skips (b'(' ∷ p) q
after_paren p q follows (body, p', is, all, s) =
    rw is (parens body (sym (ap space_follows is) ∙ follows) all s)

skip_in-Passes : (m : Mode) (p q : Bytes) → skip_in m p ≡ ok q → Passes m p q
unfolding skip_in at_end move
skip_in-Passes blanks [] q e = let is : [] ≡ q = cc in subst (λ q. Skips [] q) is (at_token tt)
skip_in-Passes line_comment [] q e = inl (tt, cc)
skip_in-Passes paren_comment [] q e = cc
skip_in-Passes line_comment (c ∷ cs) q e = elim (Bool-cases (c == b'\n')) [
  | inl newline ↦ inr (
    [],
    cs,
    ap (λ x. x ∷ cs) (is_char c b'\n' newline),
    tt,
    skip_in-Passes blanks cs q (ground (arith, newline)),
  )
  | inr other ↦ longer_line c cs q other (skip_in-Passes line_comment cs q (ground (arith, other)))
]
skip_in-Passes paren_comment (c ∷ cs) q e = elim (Bool-cases (c == b')')) [
  | inl close ↦ (
    [],
    cs,
    ap (λ x. x ∷ cs) (is_char c b')' close),
    tt,
    skip_in-Passes blanks cs q (ground (arith, close)),
  )
  | inr other ↦
      longer_paren c cs q other (skip_in-Passes paren_comment cs q (ground (arith, other)))
]
skip_in-Passes blanks (c ∷ cs) q e = elim (Bool-cases (is_space c)) [
  | inl blank ↦ space blank (skip_in-Passes blanks cs q (ground (arith, blank)))
  | inr word ↦ elim (Bool-cases (c == b'\\')) [
    | inl slash ↦
        rw (is_char c b'\\' slash)
          (after_backslash cs q (skip_in-Passes line_comment cs q (ground (arith, word, slash))))
    | inr other ↦ elim (Bool-cases (c == b'(' && space_follows cs)) [
      | inl paren ↦ rw (is_char c b'(' (ground (arith, paren))) (
          after_paren cs q (ground (arith, paren))
            (skip_in-Passes paren_comment cs q (ground (arith, word, other, paren))))
      | inr neither ↦
          let is : c ∷ cs ≡ q = ground (arith, word, other, neither) in
          subst (λ q. Skips (c ∷ cs) q) is (at_token (word, other, neither))
    ]
  ]
]

skip_line :
    (body p : Bytes)
    → All (λ c. (c == b'\n') ≡ false) body
    → skip_in line_comment (body ++ (b'\n' ∷ p)) ≡ skip_in blanks p
unfolding skip_in move
skip_line [] p all = refl
skip_line (c ∷ body) p (other, all) = ground (arith, other, skip_line body p all)

skip_last_line :
    (body : Bytes) → All (λ c. (c == b'\n') ≡ false) body → skip_in line_comment body ≡ ok []
unfolding skip_in move at_end
skip_last_line [] all = refl
skip_last_line (c ∷ body) (other, all) = ground (arith, other, skip_last_line body all)

skip_parens :
    (body p : Bytes)
    → All (λ c. (c == b')') ≡ false) body
    → skip_in paren_comment (body ++ (b')' ∷ p)) ≡ skip_in blanks p
unfolding skip_in move
skip_parens [] p all = refl
skip_parens (c ∷ body) p (other, all) = ground (arith, other, skip_parens body p all)

skip_token : (q : Bytes) → IsToken q → skip_in blanks q ≡ ok q
unfolding skip_in move at_end
skip_token [] h = refl
skip_token (c ∷ cs) (word, other, neither) = ground (arith, word, other, neither)

Skips-skip_in : (p q : Bytes) → Skips p q → skip_in blanks p ≡ ok q
unfolding skip_in move is_space
Skips-skip_in p q (at_token h) = skip_token p h
Skips-skip_in (c ∷ p) q (space blank s) = ground (arith, blank, Skips-skip_in p q s)
Skips-skip_in _ q (line body {p} all s) = skip_line body p all ∙ Skips-skip_in p q s
Skips-skip_in _ q (last_line body all) = skip_last_line body all
Skips-skip_in _ q (parens body {p} follows all s) =
    rw (skip_in, follows) (skip_parens body p all ∙ Skips-skip_in p q s)

-- `skip_whitespace_and_comments` succeeds at `q` exactly when from its start to `q` there are only
-- blanks and whole comments, and `q` is the end of the text or the first byte of a token.
pub skip_whitespace_and_comments-Skips :
    (p q : Bytes) → (skip_whitespace_and_comments p ≡ ok q) ↔ Skips p q
unfolding skip_whitespace_and_comments
skip_whitespace_and_comments-Skips p q = (skip_in-Passes blanks p q, Skips-skip_in p q)
