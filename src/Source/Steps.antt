-- ===== src/Source/Steps.antt =====
-- Rounds of the token loop of `compile_internal` in src/compile.cpp, one after the other.
use mathlib.Core.Path.{subst}
use v4_front.Base.{
  ℕ, zero, suc, ◌≤◌, ◌≡◌, refl, ap, Bool-cases, inl, inr, [], ◌∷◌, Bytes, length, arith, Option,
}
use v4_front.Result.{Result, ok}
use v4_front.Platform.{Platform}
use v4_front.Text.{clip_token}
use v4_front.Text.Skipping.{Skips, skip_whitespace_and_comments-Skips}
use v4_front.Context.{V4FrontContext}
use v4_front.Compiler.{Compilation, Gen, view, put, on_current}
use v4_front.Compiler.Dispatch.{Keyword, keyword_table, match_token, run_keyword, run_token, round}
use v4_front.Compiler.Driver.{next_round, compile_loop}
use v4_front.Invariant.{Post-ok}
use v4_front.Invariant.Text.{Skipped, skip-Post, take_token-lt}
use v4_front.Source.{Token, Word}

-- What the skipping leaves is no longer, and starts with a token.
pub Skips-Skipped : {p q : Bytes} → Skips p q → Skipped p q
Skips-Skipped {p} {q} s =
    let e = (skip_whitespace_and_comments-Skips p q).1 s in
    Post-ok (
      subst (v4_front.Invariant.Post (length p) (Skipped p)) e
        (skip-Post (length p) p (omega arith)))

module _ (pl : Platform) (ctx : Option V4FrontContext) where
  -- The loop gets from one place and state to another.
  pub data Leads : Bytes → Compilation → Bytes → Compilation → Type 0 where
    stays : {p : Bytes} {c : Compilation} → Leads p c p c
    goes :
        {p p₁ p' : Bytes} {c c₁ c' : Compilation} (x : ℕ) (q : Bytes)
        → Skips p (x ∷ q)
        → round pl ctx (x ∷ q) c ≡ ok (c₁, p₁)
        → length p₁ ≤ length q
        → Leads p₁ c₁ p' c'
        → Leads p c p' c'

  pub Leads-trans :
      {p q r : Bytes} {c d e : Compilation} → Leads p c q d → Leads q d r e → Leads p c r e
  Leads-trans stays m = m
  Leads-trans (goes x q s done less l) m = goes x q s done less (Leads-trans l m)

  -- At the end of the text the loop ends, if a round was allowed for each byte.
  pub Leads-compile_loop :
      {p q : Bytes} {c d : Compilation} (fuel : ℕ)
      → length p ≤ fuel
      → Leads p c q d
      → Skips q []
      → compile_loop pl ctx fuel p c ≡ ok d
  unfolding compile_loop next_round
  Leads-compile_loop {p = []} fuel enough stays end = refl
  Leads-compile_loop {p = x ∷ p} zero enough stays end = absurd (omega arith)
  Leads-compile_loop {p = x ∷ p} (suc fuel) enough stays end =
      rw ((skip_whitespace_and_comments-Skips (x ∷ p) []).1 end) refl
  Leads-compile_loop {p = []} fuel enough (goes x q s done less l) end =
      absurd (omega (arith, (Skips-Skipped s).0))
  Leads-compile_loop {p = y ∷ p} zero enough (goes x q s done less l) end = absurd (omega arith)
  Leads-compile_loop {p = y ∷ p} (suc fuel) enough (goes x q s done less l) end =
      rw ((skip_whitespace_and_comments-Skips (y ∷ p) (x ∷ q)).1 s, done)
        (Leads-compile_loop fuel (omega (arith, (Skips-Skipped s).0)) l end)

  -- One token.
  pub Token-Leads :
      {p p' p'' t : Bytes} {c c' : Compilation}
      → Token p t p'
      → ((at : ℕ)
          → run_token pl ctx at (clip_token t) (match_token (clip_token t) keyword_table) p' c
            ≡ ok (c', p''))
      → length p'' ≤ length p'
      → Leads p c p'' c'
  unfolding round
  Token-Leads {p} {p'} {t = t} (x, q, s, is) runs less =
      goes x q s (rw is (runs (length (x ∷ q))))
        (omega (arith, take_token-lt x q (Skips-Skipped s).1, ap (λ r. length r.1) is)) stays

  pub keyword-Leads :
      (kw : Keyword) {p p' p'' : Bytes} {c c' : Compilation}
      → Word kw p p'
      → ((at : ℕ) → run_keyword pl kw at p' c ≡ ok (c', p''))
      → length p'' ≤ length p'
      → Leads p c p'' c'
  unfolding run_token
  keyword-Leads kw (t, token, is) runs less = Token-Leads token (λ at. rw is (runs at)) less

-- A handler of the current buffer, on a state with that buffer and stack in it.
pub on_current-put :
    (f : Gen → Result Gen) (c : Compilation) {g g' : Gen}
    → f g ≡ ok g'
    → on_current f (put c g) ≡ ok (put c g')
unfolding on_current view put
on_current-put f c {g} done = elim (Bool-cases c.in_definition) [
  | inl inside ↦ rw (inside, done) refl
  | inr outside ↦ rw (outside, done) refl
]
