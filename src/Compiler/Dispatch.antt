-- ===== src/Compiler/Dispatch.antt =====
-- One round of the token loop of `compile_internal` in src/compile.cpp: the chain of comparisons,
-- and the handler of the token.
use v4_front.Base.{
  ℕ, ◌^◌, List, [], ◌∷◌, Option, none, some, Bytes, length, ltb, if◌then◌else◌, suc,
}
use v4_front.Result.{Result, ok, err, ◌>>=◌, unknown_token}
use v4_front.Platform.{Platform, Op}
use v4_front.Text.{codes, str_eq_ci, take_token, clip_token}
use v4_front.Text.Integer.{try_parse_int}
use v4_front.Context.{V4FrontContext, context_find_word}
use v4_front.Compiler.{WordDefEntry, Compilation, Gen, on_current, emit, view, put}
use v4_front.Compiler.Branch.{
  handle_if, handle_else, handle_then, handle_begin, handle_until, handle_again, handle_while,
  handle_repeat,
}
use v4_front.Compiler.Counted.{handle_do, handle_leave, handle_loop, handle_ploop}
use v4_front.Compiler.Composite.{
  Composite, exit, emit_char, key, j, k, rot, nip, tuck, negate, qdup, abs, min, max, zero_eq,
  zero_lt, zero_gt, two_dup, two_drop, two_swap, two_over, plus_store, true_flag, false_flag,
  composite_bytes,
}
use v4_front.Compiler.Opcodes.{lookup_simple_opcode}
use v4_front.Compiler.Locals.{handle_local}
use v4_front.Compiler.Words.{
  handle_colon_start, handle_semicolon_end, handle_recurse, handle_constant, handle_variable,
  handle_call, handle_literal,
}

-- The words that the loop compares a token with before it looks in the dictionary.
pub data Keyword : Type 0 where
  colon semicolon begin do_word until while_word repeat again leave loop ploop : Keyword
  if_word else_word then_word recurse constant variable : Keyword
  composite : Composite → Keyword
  local : Op → Keyword

unfoldable pub keyword_table : List (Bytes × Keyword)
keyword_table =
    (codes ":", colon)
    ∷ (codes ";", semicolon)
    ∷ (codes "BEGIN", begin)
    ∷ (codes "DO", do_word)
    ∷ (codes "UNTIL", until)
    ∷ (codes "WHILE", while_word)
    ∷ (codes "REPEAT", repeat)
    ∷ (codes "AGAIN", again)
    ∷ (codes "LEAVE", leave)
    ∷ (codes "LOOP", loop)
    ∷ (codes "+LOOP", ploop)
    ∷ (codes "IF", if_word)
    ∷ (codes "ELSE", else_word)
    ∷ (codes "THEN", then_word)
    ∷ (codes "EXIT", composite exit)
    ∷ (codes "EMIT", composite emit_char)
    ∷ (codes "KEY", composite key)
    ∷ (codes "L++", local Op.linc)
    ∷ (codes "L--", local Op.ldec)
    ∷ (codes "L@", local Op.lget)
    ∷ (codes "L!", local Op.lset)
    ∷ (codes "L>!", local Op.ltee)
    ∷ (codes "RECURSE", recurse)
    ∷ (codes "CONSTANT", constant)
    ∷ (codes "VARIABLE", variable)
    ∷ []

-- Those that it compares a token with behind the dictionary and the integers.
unfoldable pub composite_table : List (Bytes × Composite)
composite_table =
    (codes "J", j)
    ∷ (codes "K", k)
    ∷ (codes "ROT", rot)
    ∷ (codes "NIP", nip)
    ∷ (codes "TUCK", tuck)
    ∷ (codes "NEGATE", negate)
    ∷ (codes "?DUP", qdup)
    ∷ (codes "ABS", abs)
    ∷ (codes "MIN", min)
    ∷ (codes "MAX", max)
    ∷ (codes "0=", zero_eq)
    ∷ (codes "0<", zero_lt)
    ∷ (codes "0>", zero_gt)
    ∷ (codes "2DUP", two_dup)
    ∷ (codes "2DROP", two_drop)
    ∷ (codes "2SWAP", two_swap)
    ∷ (codes "2OVER", two_over)
    ∷ (codes "+!", plus_store)
    ∷ (codes "TRUE", true_flag)
    ∷ (codes "FALSE", false_flag)
    ∷ []

-- A chain of `if (str_eq_ci(token, ...)) ... else if ...`: the first that holds.
unfoldable pub match_token {ℓ} : {A : Type ℓ} → Bytes → List (Bytes × A) → Option A
unfolding str_eq_ci
match_token token [] = none
match_token token ((name, a) ∷ table) =
    if str_eq_ci token name then some a else match_token token table

-- The index of the first word of that name in `word_dict`.
unfoldable pub find_local : Bytes → List WordDefEntry → Option ℕ
unfolding str_eq_ci
find_local token [] = none
find_local token (w ∷ dict) =
    if str_eq_ci token w.name
    then some 0
    else elim (find_local token dict) [ none ↦ none | some i ↦ some (suc i) ]

unfoldable pub find_in_context : Bytes → Option V4FrontContext → Option ℕ
unfolding context_find_word
find_in_context token none = none
find_in_context token (some ctx) =
    if ltb (context_find_word (some ctx) (some token)) (2 ^ 31)
    then some (context_find_word (some ctx) (some token))
    else none

-- `word_idx`: of this compilation, else of the context.
unfoldable pub find_word : Bytes → List WordDefEntry → Option V4FrontContext → Option ℕ
unfolding find_local find_in_context
find_word token dict ctx = elim (find_local token dict) [
  | some i ↦ some i
  | none ↦ find_in_context token ctx
]

-- The handlers leave the pointer behind the token, but for those that read another one.
abbrev keep : Bytes → Result Compilation → Result (Compilation × Bytes)
keep p m = do c ← m; ok (c, p)

abbrev gen : (Gen → Result Gen) → Compilation → Bytes → Result (Compilation × Bytes)
gen f c p = keep p (on_current f c)

unfoldable pub run_keyword :
    Platform → Keyword → ℕ → Bytes → Compilation → Result (Compilation × Bytes)
unfolding on_current
run_keyword pl colon at p c = handle_colon_start p c
run_keyword pl semicolon at p c = keep p (handle_semicolon_end pl at c)
run_keyword pl begin at p c = gen (handle_begin at) c p
run_keyword pl do_word at p c = gen (handle_do pl at) c p
run_keyword pl until at p c = gen (handle_until pl at) c p
run_keyword pl while_word at p c = gen (handle_while pl at) c p
run_keyword pl repeat at p c = gen (handle_repeat pl at) c p
run_keyword pl again at p c = gen (handle_again pl at) c p
run_keyword pl leave at p c = gen (handle_leave pl at) c p
run_keyword pl loop at p c = gen (handle_loop pl at) c p
run_keyword pl ploop at p c = gen (handle_ploop pl at) c p
run_keyword pl if_word at p c = gen (handle_if pl at) c p
run_keyword pl else_word at p c = gen (handle_else pl at) c p
run_keyword pl then_word at p c = gen (handle_then at) c p
run_keyword pl recurse at p c = keep p (handle_recurse pl at c)
run_keyword pl constant at p c = handle_constant pl at p c
run_keyword pl variable at p c = handle_variable pl at p c
run_keyword pl (composite w) at p c = gen (emit pl (composite_bytes pl w)) c p
run_keyword pl (local o) at p c = do (g, rest) ← handle_local pl o at p (view c); ok (put c g, rest)

-- `lookup_simple_opcode`, and `UnknownToken` at the token.
unfoldable pub run_opcode : Platform → ℕ → Option Op → Compilation → Result Compilation
unfolding on_current
run_opcode pl at (some o) c = on_current (emit pl (pl.op_byte o ∷ [])) c
run_opcode pl at none c = err unknown_token (some at)

unfoldable pub run_composite :
    Platform → ℕ → Bytes → Option Composite → Compilation → Result Compilation
unfolding on_current run_opcode
run_composite pl at token (some w) c = on_current (emit pl (composite_bytes pl w)) c
run_composite pl at token none c = run_opcode pl at (lookup_simple_opcode token) c

unfoldable pub run_integer : Platform → ℕ → Bytes → Option ℕ → Compilation → Result Compilation
unfolding run_composite
run_integer pl at token (some value) c = handle_literal pl value c
run_integer pl at token none c = run_composite pl at token (match_token token composite_table) c

-- A token that is no keyword: a word, an integer, a composite word, an opcode.
unfoldable pub run_word : Platform → ℕ → Bytes → Option ℕ → Compilation → Result Compilation
unfolding run_integer
run_word pl at token (some word_idx) c = handle_call pl word_idx c
run_word pl at token none c = run_integer pl at token (try_parse_int token) c

unfoldable pub run_token :
    Platform
    → Option V4FrontContext
    → ℕ
    → Bytes
    → Option Keyword
    → Bytes
    → Compilation
    → Result (Compilation × Bytes)
unfolding run_keyword run_word
run_token pl ctx at token (some kw) p c = run_keyword pl kw at p c
run_token pl ctx at token none p c = keep p (run_word pl at token (find_word token c.dict ctx) c)

-- The token at `p`, which is not blank, and what it does.
unfoldable pub round :
    Platform → Option V4FrontContext → Bytes → Compilation → Result (Compilation × Bytes)
unfolding run_token
round pl ctx p c =
    let token = clip_token (take_token p).0 in
    run_token pl ctx (length p) token (match_token token keyword_table) (take_token p).1 c
