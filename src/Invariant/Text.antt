-- ===== src/Invariant/Text.antt =====
-- How far the readers of the text move the pointer.
use v4_front.Base.{
  ℕ, ◌+◌, ◌≤◌, ◌<◌, ◌≡◌, refl, false, Bool-cases, inl, inr, ◌&&◌, ◌||◌, List, [], ◌∷◌, Bytes,
  length, arith, ltb, leb, Option, none, some,
}
use v4_front.Result.{ok, FrontErr}
use v4_front.Text.{is_space, take_token, max_word_name_len, clip_token}
use v4_front.Text.Integer.{try_parse_int}
use v4_front.Text.Blanks.{
  Mode, blanks, line_comment, paren_comment, advance, halt, move, skip_in,
  skip_whitespace_and_comments,
}
use v4_front.Compiler.{WordDefEntry}
use v4_front.Compiler.Locals.{check_local_idx, local_idx}
use v4_front.Compiler.Words.{is_defined, name_at, new_name}
use v4_front.Invariant.{Post, returns, raises, Post-bind, Post-map, Post-require, Post-if, IsRaised}

-- At the end of the text, or at a character that is no blank.
abbrev pub StartsToken : Bytes → Type 0
StartsToken [] = Unit
StartsToken (c ∷ cs) = is_space c ≡ false

move-halt : (m : Mode) (c : ℕ) (cs : Bytes) → move m c cs ≡ halt → is_space c ≡ false
unfolding move
move-halt blanks c cs h = ground arith
move-halt line_comment c cs h = cc
move-halt paren_comment c cs h = cc

-- Forward, and up to the start of a token.
abbrev pub Skipped : Bytes → Bytes → Type 0
Skipped p p' = (length p' ≤ length p) × StartsToken p'

skip_in-Post :
    (n : ℕ) (m : Mode) (p : Bytes) → 1 ≤ n → length p ≤ n → Post n (Skipped p) (skip_in m p)
unfolding skip_in
skip_in-Post n blanks [] one fits = returns (omega arith, tt)
skip_in-Post n line_comment [] one fits = returns (omega arith, tt)
skip_in-Post n paren_comment [] one fits = raises tt one
skip_in-Post n m (c ∷ cs) one fits =
    let rest = λ (m' : Mode). skip_in-Post n m' cs one (omega arith) in
    (elim (move m c cs)
        as (λ mv.
          move m c cs ≡ mv
          → Post n (Skipped (c ∷ cs))
              (elim mv [ advance m' ↦ skip_in m' cs | halt ↦ ok (c ∷ cs) ])) [
                | advance m' ↦ λ e. Post-map (rest m') λ p' (h, s). (omega arith, s)
                | halt ↦ λ e. returns (omega arith, move-halt m c cs e)
              ])
      refl

pub skip-Post :
    (n : ℕ) (p : Bytes) → length p ≤ n → Post n (Skipped p) (skip_whitespace_and_comments p)
unfolding skip_whitespace_and_comments skip_in
skip-Post n [] fits = returns (omega arith, tt)
skip-Post n (c ∷ cs) fits = skip_in-Post n blanks (c ∷ cs) (omega arith) fits

pub take_token-length : (p : Bytes) → length (take_token p).0 + length (take_token p).1 ≡ length p
unfolding take_token
take_token-length [] = refl
take_token-length (c ∷ cs) = ground (arith, take_token-length cs)

-- A token has a character.
pub take_token-lt :
    (c : ℕ) (cs : Bytes) → is_space c ≡ false → length (take_token (c ∷ cs)).1 ≤ length cs
unfolding take_token
take_token-lt c cs solid = ground (arith, take_token-length cs)

module _ (n : ℕ) where
  check_local_idx-Post :
      (start : ℕ) (idx : Option ℕ) → start ≤ n → Post n (λ i. Unit {0}) (check_local_idx start idx)
  unfolding check_local_idx
  check_local_idx-Post start none h = raises tt h
  check_local_idx-Post start (some i) h = elim (Bool-cases (ltb 0x7fff_ffff i || ltb 255 i)) [
    | inl bad ↦ rw bad (raises tt h)
    | inr good ↦ rw good (returns tt)
  ]

  pub local_idx-Post :
      (at : ℕ) (p : Bytes)
      → at ≤ n
      → length p ≤ n
      → Post n (λ r. length r.1 ≤ length p) (local_idx at p)
  unfolding local_idx
  local_idx-Post at [] h fits = raises tt h
  local_idx-Post at (c ∷ cs) h fits =
      Post-bind
        (check_local_idx-Post (length (c ∷ cs)) (try_parse_int (clip_token (take_token (c ∷ cs)).0))
          fits)
        λ i _. returns (omega (arith, take_token-length (c ∷ cs)))

  name_at-Post :
      (missing : FrontErr) (missing_at : ℕ) (p : Bytes)
      → IsRaised missing
      → missing_at ≤ n
      → length p ≤ n
      → Post n (λ r. (length r.0 < 64) × (length r.1 ≤ length p)) (name_at missing missing_at p)
  unfolding name_at
  name_at-Post missing missing_at [] raised h fits = raises raised h
  name_at-Post missing missing_at (c ∷ cs) raised h fits =
      let name = (take_token (c ∷ cs)).0 in
      Post-require (ltb 0 (length name) && ltb (length name) max_word_name_len) missing raised fits
        λ good. returns (ground (arith, good), omega (arith, take_token-length (c ∷ cs)))

  pub new_name-Post :
      (missing : FrontErr) (missing_at : ℕ) (dict : List WordDefEntry) (p : Bytes)
      → IsRaised missing
      → missing_at ≤ n
      → length p ≤ n
      → Post n
          (λ r. (length r.0 < 64) × (length dict < 256) × (r.1 ≤ n) × (length r.2 ≤ length p))
          (new_name missing missing_at dict p)
  unfolding new_name
  new_name-Post missing missing_at dict p raised h fits =
      Post-bind (name_at-Post missing missing_at p raised h fits) λ (name, rest) (short, less).
        Post-if (is_defined name dict) (λ _. raises tt fits)
          λ _.
            Post-if (leb 256 (length dict)) (λ _. raises tt fits)
              λ room. returns (short, ground (arith, room), fits, less)
