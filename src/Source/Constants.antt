-- ===== src/Source/Constants.antt =====
-- CONSTANT behind an integer in the token loop of src/compile.cpp.
use v4_front.Base.{
  ℕ, ◌+◌, ◌^◌, ◌<◌, ◌≡◌, refl, ◌∙◌, ap, false, List, [], ◌∷◌, ◌++◌, append-nil, sym, Option, none,
  some, Bytes, length, length-append, arith,
}
use v4_front.Result.{constant_without_name}
use v4_front.Platform.{Platform, Op, NeverRefuses}
use v4_front.Buffer.{Buf, size, i32_le}
use v4_front.Buffer.Append.{IsSized, Extends}
use v4_front.Text.{clip_token}
use v4_front.Text.Integer.{try_parse_int}
use v4_front.Text.Integer.Bounds.{try_parse_int-lt}
use v4_front.Context.{V4FrontContext}
use v4_front.Compiler.{WordDefEntry, view, put}
use v4_front.Compiler.Emission.{emit-Emits}
use v4_front.Compiler.Literals.{last_literal-literal}
use v4_front.Compiler.Words.{is_defined, last_literal, handle_constant, constant_of}
use v4_front.Compiler.Dispatch.{constant, keyword_table, match_token, find_word, run_keyword}
use v4_front.Structured.{plain, compile}
use v4_front.Structured.Correct.{gen}
use v4_front.Source.{Token, Word, integer, Reads, token, cell_word}
use v4_front.Source.Steps.{Leads, Leads-trans, keyword-Leads}
use v4_front.Source.Reading.{Reads-Follows}
use v4_front.Source.Words.{outside, new_name-total, literal_word-total, cell_added}

module _ (pl : Platform) (ctx : Option V4FrontContext) (never : NeverRefuses pl) where
  constant_end-Leads :
      {q r s name : Bytes} (b b₁ : Buf) (dict : List WordDefEntry) (addr value : ℕ)
      → value < 2 ^ 32
      → Extends b (pl.op_byte Op.lit ∷ i32_le value) b₁
      → Word constant q r
      → Token r name s
      → length name < 64
      → is_defined name dict ≡ false
      → length dict < 256
      → Leads pl ctx q
          (outside b₁ dict addr)
          s
          (outside (record b₁ { bytes = b.bytes }) (dict ++ cell_word pl name value ∷ []) addr)
  unfolding run_keyword handle_constant constant_of view put
  constant_end-Leads {name = name} b b₁ dict addr value fits e w t short new room =
      let code = (cell_word pl name value).code in
      let found = ap (last_literal pl) e.bytes_are ∙ last_literal-literal pl b.bytes value fits in
      keyword-Leads pl ctx constant w
        (λ at.
          let (q', skipped, named, _) =
            new_name-total pl ctx never constant_without_name at dict t short new room in
          rw
            (
              found,
              skipped,
              named,
              literal_word-total pl ctx never value,
              cell_added pl ctx never name code dict room,
            )
            refl)
        (new_name-total pl ctx never constant_without_name 0 dict t short new room).3

  -- The integer is compiled to a literal, and CONSTANT takes that off again.
  pub constant-Leads :
      {p q r s t name : Bytes} (b : Buf) (dict : List WordDefEntry) (addr value : ℕ)
      → Token p t q
      → match_token (clip_token t) keyword_table ≡ none
      → find_word (clip_token t) dict ctx ≡ none
      → try_parse_int (clip_token t) ≡ some value
      → Word constant q r
      → Token r name s
      → length name < 64
      → is_defined name dict ≡ false
      → length dict < 256
      → IsSized b
      → size b + 5 < 2 ^ 31
      → (b' : Buf) × Leads pl ctx p
          (outside b dict addr)
          s
          (outside b' (dict ++ cell_word pl name value ∷ []) addr)
        × Extends b [] b'
  unfolding compile put i32_le
  constant-Leads {t = t} b dict addr value tok no_key no_word number w name_tok short new room sized
        small =
      let xs = pl.op_byte Op.lit ∷ i32_le value in
      let (b₁, done, e) = emit-Emits pl never xs (gen b []) sized small in
      let reads : Reads pl ctx false dict (plain xs) _ _ =
        token t tok (integer value no_key no_word number) in
      let first = Reads-Follows pl ctx (outside b dict addr) 0 reads (gen b []) (gen b₁ []) done in
      let n = ap length e.bytes_are ∙ length-append b.bytes xs in
      (
        record b₁ { bytes = b.bytes },
        Leads-trans pl ctx first (
            constant_end-Leads b b₁ dict addr value (try_parse_int-lt _ number) e w name_tok short
              new room),
        record { bytes_are = sym (append-nil b.bytes); is_sized = omega (arith, n, e.is_sized) },
      )
