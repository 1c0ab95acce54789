-- ===== src/Source/Reading.antt =====
-- The token loop of src/compile.cpp over a text that spells a program: it does what `compile` of
-- `Structured` does, which feeds the handlers by the nesting.
use mathlib.Core.Path.{subst}
use v4_front.Compiler.{view, Compilation, Gen, put, on_current, emit}
use v4_front.Source.{
  Token, read_local, read_leave, call_code, Word, Plain, keyword, recursion, call, integer,
  compound, opcode, Reads, nothing, token, both, read_if_then, read_if_else, read_begin_until,
  read_begin_again, read_begin_while, read_do_loop, read_do_ploop,
}
use v4_front.Text.{clip_token}
use v4_front.Base.{
  ℕ, ◌-◌, ◌%◌, ◌^◌, ◌≤◌, ◌<◌, ◌≡◌, refl, ◌∙◌, ap, true, false, ◌||◌, Bool-cases, inl, inr, [], ◌∷◌,
  Option, some, Bytes, length, ltb, arith,
}
use v4_front.Result.{Result, ok, require, recurse_outside_word, ◌>>=◌, >>=-eq-ok}
use v4_front.Platform.{Platform, Op}
use v4_front.Context.{V4FrontContext}
use v4_front.Compiler.Branch.{
  handle_if, handle_else, handle_then, handle_begin, handle_until, handle_again, handle_while,
  handle_repeat,
}
use v4_front.Buffer.{append_bytes}
use v4_front.Compiler.Locals.{handle_local, local_idx, check_local_idx}
use v4_front.Text.Integer.{try_parse_int}
use v4_front.Text.Skipping.{skip_whitespace_and_comments-Skips}
use v4_front.Invariant.Text.{take_token-lt}
use v4_front.Compiler.Counted.{handle_do, handle_leave, handle_loop, handle_ploop}
use v4_front.Compiler.Words.{handle_recurse, handle_call, handle_literal}
use v4_front.Compiler.Dispatch.{
  Keyword, begin, do_word, until, while_word, repeat, again, leave, loop, ploop, if_word, else_word,
  then_word, local, keyword_table, match_token, run_keyword, run_token, run_word, run_integer,
  run_composite, run_opcode,
}
use v4_front.Structured.{Prog, compile}
use v4_front.Source.Anywhere.{
  Anywhere, if-Anywhere, else-Anywhere, then-Anywhere, begin-Anywhere, until-Anywhere,
  again-Anywhere, while-Anywhere, repeat-Anywhere, do-Anywhere, leave-Anywhere, loop-Anywhere,
  ploop-Anywhere,
}
use v4_front.Source.Steps.{
  Skips-Skipped, Leads, stays, Leads-trans, Token-Leads, keyword-Leads, on_current-put,
}

put-in_definition : (c : Compilation) (g : Gen) → (put c g).in_definition ≡ c.in_definition
unfolding put
put-in_definition c g = ground arith

put-dict : (c : Compilation) (g : Gen) → (put c g).dict ≡ c.dict
unfolding put
put-dict c g = ground arith

view-put : (c : Compilation) (g : Gen) → view (put c g) ≡ g
unfolding view put
view-put c g = elim (Bool-cases c.in_definition) [
  | inl inside ↦ rw inside refl
  | inr outside ↦ rw outside refl
]

put-put : (c : Compilation) (g g' : Gen) → put (put c g) g' ≡ put c g'
unfolding put
put-put c g g' = elim (Bool-cases c.in_definition) [
  | inl inside ↦ rw inside refl
  | inr outside ↦ rw outside refl
]

-- An L word and its index.
handle_local-total :
    (pl : Platform) (o : Op) (at : ℕ) {q r t : Bytes} (idx : ℕ) (g g' : Gen)
    → Token q t r
    → try_parse_int (clip_token t) ≡ some idx
    → idx < 256
    → emit pl (pl.op_byte o ∷ idx ∷ []) g ≡ ok g'
    → handle_local pl o at q g ≡ ok (g', r)
unfolding handle_local local_idx check_local_idx
handle_local-total pl o at {q} idx g g' (x, q', s, is) number small done =
    let cut : idx % 256 ≡ idx = omega (arith, small) in
    let fits : (ltb (2 ^ 31 - 1) idx || ltb 255 idx) ≡ false = ground (arith, small) in
    rw ((skip_whitespace_and_comments-Skips q (x ∷ q')).1 s, is, number, fits, cut, done) refl

-- The pointer stands behind a token.
Token-le : {p t p' : Bytes} → Token p t p' → length p' ≤ length p
Token-le {p} (x, q, s, is) =
    let n = ap (λ r. length r.1) is in
    omega (arith, n, take_token-lt x q (Skips-Skipped s).1, (Skips-Skipped s).0)

module _ (pl : Platform) (ctx : Option V4FrontContext) (c : Compilation) where
  -- From a place, with a current buffer and a stack, to another.
  abbrev pub Turns : Bytes → Gen → Bytes → Gen → Type 0
  Turns p g p' g' = Leads pl ctx p (put c g) p' (put c g')

  -- A keyword whose handler works on the current buffer, and succeeds somewhere.
  Word-Turns :
      (kw : Keyword) (f : ℕ → Gen → Result Gen) {p p' : Bytes}
      → Word kw p p'
      → ((at : ℕ) (d : Compilation)
          → run_keyword pl kw at p' d ≡ (on_current (f at) d >>= λ d'. ok (d', p')))
      → Anywhere f
      → (at : ℕ) (g g' : Gen) → f at g ≡ ok g'
      → Turns p g p' g'
  Word-Turns kw f word is any at g g' done =
      keyword-Leads pl ctx kw word
        (λ at'. rw (is at' (put c g), on_current-put (f at') c (any at at' g g' done)) refl)
        (omega arith)

  recurse-put :
      (at : ℕ) (g g' : Gen)
      → c.in_definition ≡ true
      → emit pl (call_code pl (length c.dict)) g ≡ ok g'
      → handle_recurse pl at (put c g) ≡ ok (put c g')
  unfolding handle_recurse
  recurse-put at g g' inside done =
      ap
        (λ b.
          require b recurse_outside_word at
            (on_current (emit pl (call_code pl (length (put c g).dict))) (put c g)))
        (put-in_definition c g ∙ inside)
      ∙ ap (λ dict. on_current (emit pl (call_code pl (length dict))) (put c g)) (put-dict c g)
      ∙ on_current-put (emit pl (call_code pl (length c.dict))) c done

  run-Plain :
      (at : ℕ) {t xs : Bytes} (p : Bytes) (g g' : Gen)
      → Plain pl ctx c.in_definition c.dict t xs
      → emit pl xs g ≡ ok g'
      → run_token pl ctx at t (match_token t keyword_table) p (put c g) ≡ ok (put c g', p)
  unfolding run_token run_keyword run_word handle_call run_integer handle_literal run_composite
      run_opcode
  run-Plain at p g g' (keyword w is) done = rw (is, on_current-put _ c done) refl
  run-Plain at p g g' (recursion inside is) done = rw (is, recurse-put at g g' inside done) refl
  run-Plain at p g g' (call idx no_key is) done =
      rw (no_key, put-dict c g, is, on_current-put _ c done) refl
  run-Plain at p g g' (integer value no_key no_word is) done =
      rw (no_key, put-dict c g, no_word, is, on_current-put _ c done) refl
  run-Plain at p g g' (compound w no_key no_word no_int is) done =
      rw (no_key, put-dict c g, no_word, no_int, is, on_current-put _ c done) refl
  run-Plain at p g g' (opcode o no_key no_word no_int no_compound is) done =
      rw (no_key, put-dict c g, no_word, no_int, no_compound, is, on_current-put _ c done) refl

  -- The text leads where the step leads, if it succeeds.
  abbrev pub Follows : (Gen → Result Gen) → Bytes → Bytes → Type 0
  Follows m p q = (g g' : Gen) → m g ≡ ok g' → Turns p g q g'

  Follows-bind :
      {p q r : Bytes} {m n : Gen → Result Gen}
      → Follows m p q
      → Follows n q r
      → Follows (λ g. m g >>= n) p r
  Follows-bind {m = m} {n} first later g g' e =
      let (g₁, done, done') = >>=-eq-ok (m g) n e in
      Leads-trans pl ctx (first g g₁ done) (later g₁ g' done')

  module _ (at : ℕ) where
    if-Follows : {p q : Bytes} → Word if_word p q → Follows (handle_if pl at) p q
    unfolding run_keyword
    if-Follows w = Word-Turns if_word (handle_if pl) w (λ at' d. refl) (if-Anywhere pl) at

    else-Follows : {p q : Bytes} → Word else_word p q → Follows (handle_else pl at) p q
    unfolding run_keyword
    else-Follows w = Word-Turns else_word (handle_else pl) w (λ at' d. refl) (else-Anywhere pl) at

    then-Follows : {p q : Bytes} → Word then_word p q → Follows (handle_then at) p q
    unfolding run_keyword
    then-Follows w = Word-Turns then_word handle_then w (λ at' d. refl) then-Anywhere at

    begin-Follows : {p q : Bytes} → Word begin p q → Follows (handle_begin at) p q
    unfolding run_keyword
    begin-Follows w = Word-Turns begin handle_begin w (λ at' d. refl) begin-Anywhere at

    until-Follows : {p q : Bytes} → Word until p q → Follows (handle_until pl at) p q
    unfolding run_keyword
    until-Follows w = Word-Turns until (handle_until pl) w (λ at' d. refl) (until-Anywhere pl) at

    again-Follows : {p q : Bytes} → Word again p q → Follows (handle_again pl at) p q
    unfolding run_keyword
    again-Follows w = Word-Turns again (handle_again pl) w (λ at' d. refl) (again-Anywhere pl) at

    while-Follows : {p q : Bytes} → Word while_word p q → Follows (handle_while pl at) p q
    unfolding run_keyword
    while-Follows w =
        Word-Turns while_word (handle_while pl) w (λ at' d. refl) (while-Anywhere pl) at

    repeat-Follows : {p q : Bytes} → Word repeat p q → Follows (handle_repeat pl at) p q
    unfolding run_keyword
    repeat-Follows w =
        Word-Turns repeat (handle_repeat pl) w (λ at' d. refl) (repeat-Anywhere pl) at

    do-Follows : {p q : Bytes} → Word do_word p q → Follows (handle_do pl at) p q
    unfolding run_keyword
    do-Follows w = Word-Turns do_word (handle_do pl) w (λ at' d. refl) (do-Anywhere pl) at

    leave-Follows : {p q : Bytes} → Word leave p q → Follows (handle_leave pl at) p q
    unfolding run_keyword
    leave-Follows w = Word-Turns leave (handle_leave pl) w (λ at' d. refl) (leave-Anywhere pl) at

    loop-Follows : {p q : Bytes} → Word loop p q → Follows (handle_loop pl at) p q
    unfolding run_keyword
    loop-Follows w = Word-Turns loop (handle_loop pl) w (λ at' d. refl) (loop-Anywhere pl) at

    ploop-Follows : {p q : Bytes} → Word ploop p q → Follows (handle_ploop pl at) p q
    unfolding run_keyword
    ploop-Follows w = Word-Turns ploop (handle_ploop pl) w (λ at' d. refl) (ploop-Anywhere pl) at

    emit-same : (b : Gen) (b' : Gen) → emit pl [] b ≡ ok b' → b ≡ b'
    unfolding emit append_bytes
    emit-same b b' e = cc

    -- Wherever `compile` succeeds, the loop over a text that spells the program does the same.
    pub Reads-Follows :
        {a : Prog} {p q : Bytes}
        → Reads pl ctx c.in_definition c.dict a p q
        → Follows (compile pl at a) p q
    unfolding compile run_keyword
    Reads-Follows {p = p} nothing g g' e = subst (λ h. Turns p g p h) (emit-same g g' e) stays
    Reads-Follows (token t tok code) g g' e =
        Token-Leads pl ctx tok (λ at'. run-Plain at' _ g g' code e) (omega arith)
    Reads-Follows (read_local {o = o} {q = q} t idx w tok number small) g g' e =
        keyword-Leads pl ctx (local o) w
          (λ at'.
            rw
              (
                view-put c g,
                handle_local-total pl o at' idx g g' tok number small e,
                put-put c g g',
              )
              refl)
          (Token-le tok)
    Reads-Follows (read_leave w) g g' e = leave-Follows w g g' e
    Reads-Follows (both a b) g g' e = Follows-bind (Reads-Follows a) (Reads-Follows b) g g' e
    Reads-Follows (read_if_then w a w') g g' e =
        Follows-bind (Follows-bind (if-Follows w) (Reads-Follows a)) (then-Follows w') g g' e
    Reads-Follows (read_if_else w a w' b w'') g g' e =
        Follows-bind
          (Follows-bind
            (Follows-bind (Follows-bind (if-Follows w) (Reads-Follows a)) (else-Follows w'))
            (Reads-Follows b))
          (then-Follows w'') g g' e
    Reads-Follows (read_begin_until w a w') g g' e =
        Follows-bind (Follows-bind (begin-Follows w) (Reads-Follows a)) (until-Follows w') g g' e
    Reads-Follows (read_begin_again w a w') g g' e =
        Follows-bind (Follows-bind (begin-Follows w) (Reads-Follows a)) (again-Follows w') g g' e
    Reads-Follows (read_begin_while w a w' b w'') g g' e =
        Follows-bind
          (Follows-bind
            (Follows-bind (Follows-bind (begin-Follows w) (Reads-Follows a)) (while-Follows w'))
            (Reads-Follows b))
          (repeat-Follows w'') g g' e
    Reads-Follows (read_do_loop w a w') g g' e =
        Follows-bind (Follows-bind (do-Follows w) (Reads-Follows a)) (loop-Follows w') g g' e
    Reads-Follows (read_do_ploop w a w') g g' e =
        Follows-bind (Follows-bind (do-Follows w) (Reads-Follows a)) (ploop-Follows w') g g' e
