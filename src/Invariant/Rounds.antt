-- ===== src/Invariant/Rounds.antt =====
-- One round of the token loop.
use v4_front.Base.{
  ℕ, ◌%◌, ◌≤◌, ◌≡◌, List, [], ◌∷◌, Bytes, length, map, All, arith, Option, none, some, false,
}
use v4_front.Result.{Result, ok, ◌>>=◌}
use v4_front.Platform.{Platform, Op, OpcodesFit}
use v4_front.Text.{is_space, take_token, clip_token}
use v4_front.Text.Integer.{try_parse_int}
use v4_front.Context.{V4FrontContext}
use v4_front.Compiler.{Compilation, Gen, view, on_current}
use v4_front.Compiler.Composite.{
  Composite, exit, Piece, op, byte, piece_byte, pieces, composite_bytes,
}
use v4_front.Compiler.Opcodes.{lookup_simple_opcode}
use v4_front.Compiler.Locals.{handle_local}
use v4_front.Compiler.Dispatch.{
  Keyword, colon, semicolon, begin, do_word, until, while_word, repeat, again, leave, loop, ploop,
  if_word, else_word, then_word, recurse, constant, variable, composite, local, composite_table,
  keyword_table, match_token, find_word, run_keyword, run_opcode, run_composite, run_integer,
  run_word, run_token, round,
}
use v4_front.Invariant.{Post, returns, raises, Post-bind, Post-map, IsByte, GenInv, Inv}
use v4_front.Invariant.Buffers.{emit-Post}
use v4_front.Invariant.Branch.{
  with_stack, handle_if-Post, handle_else-Post, handle_then-Post, handle_begin-Post,
  handle_until-Post, handle_again-Post, handle_while-Post, handle_repeat-Post,
}
use v4_front.Invariant.Counted.{
  handle_do-Post, handle_leave-Post, handle_loop-Post, handle_ploop-Post,
}
use v4_front.Invariant.Text.{skip-Post, local_idx-Post, take_token-lt}
use v4_front.Invariant.Words.{
  view-GenInv, put-Inv, on_current-Post, emit_bytes-Post, handle_colon-Post, handle_semicolon-Post,
  handle_recurse-Post, handle_call-Post, handle_literal-Post,
}
use v4_front.Invariant.Constants.{handle_constant-Post, handle_variable-Post}

abbrev PieceFits : Piece → Type 0
PieceFits (op o) = Unit
PieceFits (byte n) = IsByte n

pieces-fit : (w : Composite) → All PieceFits (pieces w)
unfolding pieces
pieces-fit exit = omega arith
pieces-fit _ = omega arith

module _ (pl : Platform) (fit : OpcodesFit pl) where
  All-piece_byte : (ps : List Piece) → All PieceFits ps → All IsByte (map (piece_byte pl) ps)
  All-piece_byte [] h = tt
  All-piece_byte (op o ∷ ps) (_, h) = (fit o, All-piece_byte ps h)
  All-piece_byte (byte n ∷ ps) (small, h) = (small, All-piece_byte ps h)

  All-composite_bytes : (w : Composite) → All IsByte (composite_bytes pl w)
  unfolding composite_bytes
  All-composite_bytes w = All-piece_byte (pieces w) (pieces-fit w)

  module _ (n at : ℕ) (within : at ≤ n) where
    -- The state is in order, and the pointer has not moved back.
    abbrev pub Next : Bytes → Compilation × Bytes → Type 0
    Next p r = Inv pl r.0 × (length r.1 ≤ length p)

    keep-Post :
        (p : Bytes) {m : Result Compilation}
        → Post n (Inv pl) m
        → Post n (Next p) (m >>= λ c. ok (c, p))
    keep-Post p h = Post-bind h λ c v. returns (v, omega arith)

    gen-Post :
        (f : Gen → Result Gen) (c : Compilation) (p : Bytes)
        → Inv pl c
        → ((g : Gen) → GenInv g → Post n GenInv (f g))
        → Post n (Next p) (on_current f c >>= λ c'. ok (c', p))
    gen-Post f c p v keeps = keep-Post p (on_current-Post pl n f c v keeps)

    handle_local-Post :
        (o : Op) (p : Bytes) (g : Gen)
        → length p ≤ n
        → GenInv g
        → Post n (λ r. GenInv r.0 × (length r.1 ≤ length p)) (handle_local pl o at p g)
    unfolding handle_local
    handle_local-Post o p g fits v = Post-bind (skip-Post n p fits) λ p₁ (less, _).
        Post-bind (local_idx-Post n at p₁ within (omega arith)) λ r less'.
          Post-bind
            (emit-Post n pl (pl.op_byte o ∷ r.0 % 256 ∷ []) g v.buffer (fit o, (omega arith, tt)))
            λ g' h. returns (with_stack v.control h, omega arith)

    run_keyword-Post :
        (kw : Keyword) (p : Bytes) (c : Compilation)
        → length p ≤ n
        → Inv pl c
        → Post n (Next p) (run_keyword pl kw at p c)
    unfolding run_keyword
    run_keyword-Post colon p c fits v = handle_colon-Post pl n p c fits v
    run_keyword-Post semicolon p c fits v =
        keep-Post p (handle_semicolon-Post pl n at c fit within v)
    run_keyword-Post begin p c fits v = gen-Post _ c p v (handle_begin-Post pl fit n at within)
    run_keyword-Post do_word p c fits v = gen-Post _ c p v (handle_do-Post pl fit n at within)
    run_keyword-Post until p c fits v = gen-Post _ c p v (handle_until-Post pl fit n at within)
    run_keyword-Post while_word p c fits v = gen-Post _ c p v (handle_while-Post pl fit n at within)
    run_keyword-Post repeat p c fits v = gen-Post _ c p v (handle_repeat-Post pl fit n at within)
    run_keyword-Post again p c fits v = gen-Post _ c p v (handle_again-Post pl fit n at within)
    run_keyword-Post leave p c fits v = gen-Post _ c p v (handle_leave-Post pl fit n at within)
    run_keyword-Post loop p c fits v = gen-Post _ c p v (handle_loop-Post pl fit n at within)
    run_keyword-Post ploop p c fits v = gen-Post _ c p v (handle_ploop-Post pl fit n at within)
    run_keyword-Post if_word p c fits v = gen-Post _ c p v (handle_if-Post pl fit n at within)
    run_keyword-Post else_word p c fits v = gen-Post _ c p v (handle_else-Post pl fit n at within)
    run_keyword-Post then_word p c fits v = gen-Post _ c p v (handle_then-Post pl fit n at within)
    run_keyword-Post recurse p c fits v = keep-Post p (handle_recurse-Post pl n at c fit within v)
    run_keyword-Post constant p c fits v = handle_constant-Post pl n at p c fit within fits v
    run_keyword-Post variable p c fits v = handle_variable-Post pl n at p c fit within fits v
    run_keyword-Post (composite w) p c fits v =
        gen-Post _ c p v
          (λ g. emit_bytes-Post pl n (composite_bytes pl w) g (All-composite_bytes w))
    run_keyword-Post (local o) p c fits v =
        Post-bind (handle_local-Post o p (view c) fits (view-GenInv pl c v))
          λ r (h, less). returns (put-Inv pl c r.0 v h, less)

    run_opcode-Post :
        (o : Option Op) (c : Compilation) → Inv pl c → Post n (Inv pl) (run_opcode pl at o c)
    unfolding run_opcode
    run_opcode-Post none c v = raises tt within
    run_opcode-Post (some o) c v =
        on_current-Post pl n _ c v (λ g. emit_bytes-Post pl n (pl.op_byte o ∷ []) g (fit o, tt))

    run_composite-Post :
        (token : Bytes) (w : Option Composite) (c : Compilation)
        → Inv pl c
        → Post n (Inv pl) (run_composite pl at token w c)
    unfolding run_composite
    run_composite-Post token none c v = run_opcode-Post (lookup_simple_opcode token) c v
    run_composite-Post token (some w) c v =
        on_current-Post pl n _ c v
          (λ g. emit_bytes-Post pl n (composite_bytes pl w) g (All-composite_bytes w))

    run_integer-Post :
        (token : Bytes) (value : Option ℕ) (c : Compilation)
        → Inv pl c
        → Post n (Inv pl) (run_integer pl at token value c)
    unfolding run_integer
    run_integer-Post token none c v =
        run_composite-Post token (match_token token composite_table) c v
    run_integer-Post token (some value) c v = handle_literal-Post pl n value c fit v

    run_word-Post :
        (token : Bytes) (idx : Option ℕ) (c : Compilation)
        → Inv pl c
        → Post n (Inv pl) (run_word pl at token idx c)
    unfolding run_word
    run_word-Post token none c v = run_integer-Post token (try_parse_int token) c v
    run_word-Post token (some idx) c v = handle_call-Post pl n idx c fit v

    pub run_token-Post :
        (ctx : Option V4FrontContext) (token : Bytes) (kw : Option Keyword) (p : Bytes)
        (c : Compilation)
        → length p ≤ n
        → Inv pl c
        → Post n (Next p) (run_token pl ctx at token kw p c)
    unfolding run_token
    run_token-Post ctx token (some kw) p c fits v = run_keyword-Post kw p c fits v
    run_token-Post ctx token none p c fits v =
        keep-Post p (run_word-Post token (find_word token c.dict ctx) c v)

  -- At a token, the round takes at least one character of the text.
  pub round-Post :
      (n : ℕ) (ctx : Option V4FrontContext) (x : ℕ) (p : Bytes) (c : Compilation)
      → is_space x ≡ false
      → length (x ∷ p) ≤ n
      → Inv pl c
      → Post n (λ r. Inv pl r.0 × (length r.1 ≤ length p)) (round pl ctx (x ∷ p) c)
  unfolding round
  round-Post n ctx x p c solid fits v =
      let rest = (take_token (x ∷ p)).1 in
      let token = clip_token (take_token (x ∷ p)).0 in
      let less = take_token-lt x p solid in
      Post-map
        (run_token-Post n (length (x ∷ p)) fits ctx token (match_token token keyword_table) rest c
          (omega (arith, less)) v)
        λ r (v', less'). (v', omega (arith, less))
