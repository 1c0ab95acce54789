-- ===== src/Source/Whole.antt =====
-- Whole texts: `compile_internal` of src/compile.cpp against the words and the code that the items
-- of the text stand for.
use v4_front.DataSpace.{init, data_space_base}
use v4_front.Base.{
  ℕ, ◌*◌, ◌+◌, ◌^◌, ◌<◌, ◌≡◌, refl, ◌∙◌, ap, Bool-cases, inl, inr, List, [], ◌∷◌, ◌++◌, Bytes,
  length, All, arith, Option, some, if◌then◌else◌,
}
use v4_front.Result.{Result, ok, bind-ok}
use v4_front.Platform.{Platform, Op, NeverRefuses}
use v4_front.Buffer.{Buf, no_buf, size}
use v4_front.Buffer.Append.{IsSized, Extends-size, append_bytes-total}
use v4_front.Context.{V4FrontContext}
use v4_front.Compiler.{WordDefEntry}
use v4_front.Compiler.Driver.{
  V4FrontBuf, word_size, copy_names, transfer_words, needs_ret, append_ret, check_control,
  check_definition, finish, compile_internal,
}
use v4_front.Source.{Item, words_of, main_of, Texts}
use v4_front.Source.Steps.{Leads-compile_loop}
use v4_front.Source.Words.{outside, Fits}
use v4_front.Source.Items.{items-Leads}

module _ (pl : Platform) (never : NeverRefuses pl) where
  copy_names-total : (words : List WordDefEntry) → copy_names pl words ≡ ok tt
  unfolding copy_names
  copy_names-total [] = refl
  copy_names-total (w ∷ words) = rw (never (length w.name + 1)) (copy_names-total words)

  transfer_words-total : (words : List WordDefEntry) → transfer_words pl words ≡ ok tt
  unfolding transfer_words
  transfer_words-total words =
      ground (arith, never (word_size * length words), copy_names-total words)

-- RET behind the code, unless the byte of JMP stands third from its end.
abbrev pub ended : Platform → Bytes → Bytes
ended pl xs = if needs_ret pl xs then xs ++ pl.op_byte Op.ret ∷ [] else xs

module _ (pl : Platform) (never : NeverRefuses pl) where
  append_ret-total :
      (b : Buf)
      → IsSized b
      → size b + 1 < 2 ^ 31
      → (b' : Buf) × (append_ret pl b ≡ ok b') × (b'.bytes ≡ ended pl b.bytes)
  unfolding append_ret
  append_ret-total b sized small = elim (Bool-cases (needs_ret pl b.bytes)) [
    | inl needed ↦
        let (b', done, e) = append_bytes-total pl (pl.op_byte Op.ret ∷ []) b never sized small in
        (b', rw needed done, rw needed e.bytes_are)
    | inr other ↦ (b, rw other refl, rw other refl)
  ]

  finish-total :
      (b : Buf) (words : List WordDefEntry) (addr : ℕ) (xs : Bytes)
      → IsSized b
      → size b + 1 < 2 ^ 31
      → b.bytes ≡ xs
      → finish pl (outside b words addr) ≡ ok (record { words = words; code = ended pl xs })
  unfolding finish check_control check_definition
  finish-total b words addr xs sized small same =
      let (b', done, is) = append_ret-total b sized small in
      let code : b'.bytes ≡ ended pl xs = is ∙ ap (ended pl) same in
      rw (transfer_words-total pl never words, done)
        (ap {B = Result V4FrontBuf} (λ l. ok (record { words = words; code = l })) code)

-- A text that spells a row of definitions, variables, constants and main code, with blanks and
-- comments wherever they may stand, compiles to one word for each definition, variable and constant
-- and to the main code, each program with the code that its nesting gives, RET behind every word and,
-- unless the byte of JMP stands third from its end, behind the main code. The word of a variable gives
-- the address of its cell, that of a constant its value; the cells lie one behind the other from the
-- start of the data space. The nesting has to fit 32 frames, each LEAVE stands in a loop and eight at
-- most in one, the code of each definition fits 31 bits, as does the main code with room for a
-- literal, and no request for memory is refused.
pub compile_internal-text :
    (pl : Platform) (ctx : Option V4FrontContext) (text : Bytes) (items : List Item)
    → NeverRefuses pl
    → Texts pl ctx [] data_space_base items text
    → All Fits items
    → length (main_of pl items) + 5 < 2 ^ 31
    → compile_internal pl ctx (some text)
      ≡ ok
          (record { words = words_of pl data_space_base items; code = ended pl (main_of pl items) })
unfolding compile_internal init
compile_internal-text pl ctx text items never reads fits small =
    let (q, b, addr, s, l, e) =
      items-Leads pl ctx never no_buf [] data_space_base reads fits (omega arith) (omega arith)
        (omega arith) in
    bind-ok _ (Leads-compile_loop pl ctx (length text) (omega arith) l s) (
      finish-total pl never b (words_of pl data_space_base items) addr (main_of pl items) e.is_sized
        (omega (arith, Extends-size e)) e.bytes_are)
