-- ===== src/Invariant/Whole.antt =====
-- Whole compilations.
use mathlib.Core.Path.{subst}
use v4_front.Base.{
  ℕ, zero, suc, ◌+◌, ◌*◌, ltb, ◌≤◌, ◌<◌, ◌≡◌, ◌≢◌, refl, ◌⊎◌, inl, inr, Bool, true, false, List, [],
  ◌∷◌, ◌++◌, Bytes, length, All, arith, Option, none, some,
}
use v4_front.Result.{Result, ok, err, no_fuel, FrontErr}
use v4_front.Platform.{Platform, Op, OpcodesFit}
use v4_front.Buffer.{Buf}
use v4_front.Buffer.Append.{append_bytes-Extends}
use v4_front.Context.{V4FrontContext}
use v4_front.DataSpace.{init}
use v4_front.Compiler.{
  ControlFrame, if_control, begin_control, do_control, WordDefEntry, Compilation, initial,
}
use v4_front.Compiler.Driver.{
  V4FrontBuf, word_size, next_round, compile_loop, check_control, check_definition, copy_names,
  transfer_words, needs_ret, append_ret, finish, compile_internal,
}
use v4_front.Invariant.{
  Post, returns, raises, Post-bind, Post-map, Post-if, Post-eq, Post-ok, Post-err, Post-no_fuel,
  IsRaised, IsWithin, IsByte, BufInv, Inv, WordInv,
}
use v4_front.Invariant.Buffers.{append_bytes-Post}
use v4_front.Invariant.Text.{StartsToken, skip-Post}
use v4_front.Invariant.Rounds.{round-Post}

module _ (pl : Platform) (fit : OpcodesFit pl) (ctx : Option V4FrontContext) (n : ℕ) where
  next_round-Post :
      (again : Bytes → Compilation → Result Compilation) (c : Compilation) (p : Bytes)
      → StartsToken p
      → length p ≤ n
      → Inv pl c
      → ((p' : Bytes) (c' : Compilation)
          → length p' < length p
          → Inv pl c'
          → Post n (Inv pl) (again p' c'))
      → Post n (Inv pl) (next_round pl ctx again c p)
  unfolding next_round
  next_round-Post again c [] starts fits v later = returns v
  next_round-Post again c (x ∷ p) starts fits v later =
      Post-bind (round-Post pl fit n ctx x p c starts fits v)
        λ r (v', less). later r.1 r.0 (omega arith) v'

  compile_loop-Post :
      (fuel : ℕ) (p : Bytes) (c : Compilation)
      → length p ≤ fuel
      → length p ≤ n
      → Inv pl c
      → Post n (Inv pl) (compile_loop pl ctx fuel p c)
  unfolding compile_loop
  compile_loop-Post zero [] c enough fits v = returns v
  compile_loop-Post zero (x ∷ p) c enough fits v = absurd (omega arith)
  compile_loop-Post (suc fuel) [] c enough fits v = returns v
  compile_loop-Post (suc fuel) (x ∷ p) c enough fits v =
      Post-bind (skip-Post n (x ∷ p) fits) λ p₁ (less, starts).
        next_round-Post (compile_loop pl ctx fuel) c p₁ starts (omega arith) v
          λ p' c' shorter v'. compile_loop-Post fuel p' c' (omega arith) (omega arith) v'

-- What a successful compilation hands out.
pub record OutputInv (pl : Platform) (out : V4FrontBuf) : Type 0 where
  pub words_fit : length out.words ≤ 256
  pub words : All (WordInv pl) out.words
  pub code_bytes : All IsByte out.code
  pub code_ends :
      ((xs : Bytes) × (out.code ≡ xs ++ pl.op_byte Op.ret ∷ [])) ⊎ (needs_ret pl out.code ≡ false)

module _ (pl : Platform) (fit : OpcodesFit pl) (n : ℕ) where
  check_control-Post :
      (control : List ControlFrame) → Post n (λ _. Unit {0}) (check_control control)
  unfolding check_control
  check_control-Post [] = returns tt
  check_control-Post (if_control _ _ ∷ _) = raises tt (omega arith)
  check_control-Post (begin_control _ _ ∷ _) = raises tt (omega arith)
  check_control-Post (do_control _ _ ∷ _) = raises tt (omega arith)

  check_definition-Post : (b : Bool) → Post n (λ _. Unit {0}) (check_definition b)
  unfolding check_definition
  check_definition-Post true = raises tt (omega arith)
  check_definition-Post false = returns tt

  copy_names-Post : (words : List WordDefEntry) → Post n (λ _. Unit {0}) (copy_names pl words)
  unfolding copy_names
  copy_names-Post [] = returns tt
  copy_names-Post (w ∷ words) =
      let rest = copy_names-Post words in
      Post-if (pl.alloc (length w.name + 1)) (λ _. rest) (λ _. raises tt tt)

  transfer_words-Post :
      (words : List WordDefEntry) → Post n (λ _. Unit {0}) (transfer_words pl words)
  unfolding transfer_words
  transfer_words-Post words =
      Post-if (ltb 0 (length words))
        (λ _.
          Post-if (pl.alloc (word_size * length words)) (λ _. copy_names-Post words)
            (λ _. raises tt tt))
        (λ _. returns tt)

  append_ret-Post :
      (b : Buf)
      → BufInv b
      → Post n
          (λ b'.
            All IsByte b'.bytes
            × (((xs : Bytes) × (b'.bytes ≡ xs ++ pl.op_byte Op.ret ∷ []))
                ⊎ (needs_ret pl b'.bytes ≡ false)))
          (append_ret pl b)
  unfolding append_ret
  append_ret-Post b (s, h) =
      let ret : Bytes = pl.op_byte Op.ret ∷ [] in
      Post-if (needs_ret pl b.bytes)
        (λ _.
          Post-map (Post-eq (append_bytes-Post n pl ret b (s, h) (fit Op.ret, tt)))
            λ b' ((_, all), e). (all, inl (b.bytes, (append_bytes-Extends pl ret b s e).bytes_are)))
        (λ done. returns (h, inr done))

  finish-Post : (c : Compilation) → Inv pl c → Post n (OutputInv pl) (finish pl c)
  unfolding finish
  finish-Post c v = Post-bind (check_control-Post c.control) λ _ _.
      Post-bind (check_definition-Post c.in_definition) λ _ _.
        Post-bind (transfer_words-Post c.dict) λ _ _.
          Post-bind (append_ret-Post c.main v.main) λ b (all, ends).
            returns (record {
              words_fit = v.dict_fits;
              words = v.dict;
              code_bytes = all;
              code_ends = ends;
            })

initial-Inv : (pl : Platform) → Inv pl initial
unfolding init
initial-Inv pl = record {
  main = (omega arith, tt);
  word = (omega arith, tt);
  control = (omega arith, tt);
  name = omega arith;
  dict_fits = omega arith;
  dict = tt;
  space = record { base_is = refl; limit_is = refl; here_fits = omega arith };
}

abbrev pub text_length : Option Bytes → ℕ
text_length none = 0
text_length (some source) = length source

compile_internal-Post :
    (pl : Platform) (fit : OpcodesFit pl) (ctx : Option V4FrontContext) (source : Option Bytes)
    → Post (text_length source) (OutputInv pl) (compile_internal pl ctx source)
unfolding compile_internal
compile_internal-Post pl fit ctx none = finish-Post pl fit 0 initial (initial-Inv pl)
compile_internal-Post pl fit ctx (some source) =
    let n = length source in
    Post-bind
      (compile_loop-Post pl fit ctx n n source initial (omega arith) (omega arith) (initial-Inv pl))
      λ c v. finish-Post pl fit n c v

module _ (pl : Platform) (fit : OpcodesFit pl) (ctx : Option V4FrontContext)
    (source : Option Bytes) where
  -- Where every opcode fits a byte, a compilation comes to an end: the rounds allowed, one for each
  -- byte of the text, are never used up.
  pub compile_internal-ne-no_fuel : compile_internal pl ctx source ≢ no_fuel
  compile_internal-ne-no_fuel = Post-no_fuel (compile_internal-Post pl fit ctx source)

  -- What a successful compilation hands out, where every opcode fits a byte: at most 256 words, each
  -- with a name of fewer than 64 characters and with code that ends in RET; all code consists of
  -- bytes; and the main code ends in RET, or the byte of JMP stands third from its end.
  pub compile_internal-OutputInv :
      {out : V4FrontBuf} → compile_internal pl ctx source ≡ ok out → OutputInv pl out
  compile_internal-OutputInv e =
      Post-ok (subst (Post _ _) e (compile_internal-Post pl fit ctx source))

  -- Where every opcode fits a byte, a failed compilation names a place in the text or at its end, or
  -- none, and its error is none of InvalidInteger, BufferTooSmall, EmptyInput, MissingSysId,
  -- InvalidSysId and DataSpaceExhausted.
  pub compile_internal-error :
      {e : FrontErr} {at : Option ℕ}
      → compile_internal pl ctx source ≡ err e at
      → IsRaised e × IsWithin (text_length source) at
  compile_internal-error e = Post-err (subst (Post _ _) e (compile_internal-Post pl fit ctx source))
