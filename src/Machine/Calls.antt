-- ===== src/Machine/Calls.antt =====
-- The words that `compile_internal` of src/compile.cpp hands out, called on a machine that has them.
use v4_front.Base.{
  ℕ, suc, ◌+◌, ◌^◌, ◌<◌, ◌≡◌, refl, ◌∙◌, ap, sym, List, [], ◌∷◌, ◌++◌, All, Bytes, length,
  get_elem?, Option, some,
}
use v4_front.Result.{ok}
use v4_front.Platform.{Platform, Op, NeverRefuses}
use v4_front.Buffer.{i32_le}
use v4_front.Context.{V4FrontContext}
use v4_front.Compiler.{WordDefEntry}
use v4_front.Compiler.Driver.{V4FrontBuf, compile_internal}
use v4_front.DataSpace.{data_space_base}
use v4_front.Structured.{Prog, layout}
use v4_front.Source.{
  Item, code, definition, variable_cell, constant_value, words_of, word_of, cell_word, main_of,
  Texts, call_code,
}
use v4_front.Source.Words.{Fits}
use v4_front.Source.Whole.{compile_internal-text}
use v4_front.Machine.{Vm, Stacks, Jumps, Does}
use v4_front.Machine.Meaning.{Means}
use v4_front.Machine.Opcodes.{Opcodes}
use v4_front.Machine.Execution.{layout-Does}
use v4_front.Machine.Texts.{IsShort}

-- CALL of a word does what its code does up to the RET at its end.
pub record Calls (pl : Platform) (vm : Vm) (words : List WordDefEntry) : Type 0 where
  pub call :
      (i : ℕ) (w : WordDefEntry) (xs : Bytes) (s s' : Stacks)
      → get_elem? words i ≡ some w
      → w.code ≡ xs ++ pl.op_byte Op.ret ∷ []
      → Does vm xs s s'
      → Does vm (call_code pl i) s s'

-- What the word with the index means, where the next cell is at the address: a definition its
-- program, a variable the address of its cell, a constant its value.
pub data WordMeans (vm : Vm) : ℕ → List Item → ℕ → Stacks → Stacks → Type 0 where
  behind_code :
      {addr i : ℕ} {a : Prog} {items : List Item} {s s' : Stacks}
      → WordMeans vm addr items i s s'
      → WordMeans vm addr (code a ∷ items) i s s'
  this_definition :
      {addr : ℕ} {name : Bytes} {a : Prog} {items : List Item} {s s' : Stacks}
      → Means vm a s s'
      → WordMeans vm addr (definition name a ∷ items) 0 s s'
  behind_definition :
      {addr i : ℕ} {name : Bytes} {a : Prog} {items : List Item} {s s' : Stacks}
      → WordMeans vm addr items i s s'
      → WordMeans vm addr (definition name a ∷ items) (suc i) s s'
  this_variable :
      {addr : ℕ} {name : Bytes} {items : List Item} {d r : List ℕ}
      → addr < 2 ^ 32
      → WordMeans vm addr (variable_cell name ∷ items) 0 (d, r) (addr ∷ d, r)
  behind_variable :
      {addr i : ℕ} {name : Bytes} {items : List Item} {s s' : Stacks}
      → WordMeans vm (addr + 4) items i s s'
      → WordMeans vm addr (variable_cell name ∷ items) (suc i) s s'
  this_constant :
      {addr value : ℕ} {name : Bytes} {items : List Item} {d r : List ℕ}
      → value < 2 ^ 32
      → WordMeans vm addr (constant_value name value ∷ items) 0 (d, r) (value ∷ d, r)
  behind_constant :
      {addr i value : ℕ} {name : Bytes} {items : List Item} {s s' : Stacks}
      → WordMeans vm addr items i s s'
      → WordMeans vm addr (constant_value name value ∷ items) (suc i) s s'

module _ (pl : Platform) (vm : Vm) (jumps : Jumps pl vm) (laws : Opcodes pl vm) where
  -- The word is there, and its code up to RET does what it means.
  abbrev Carries : List WordDefEntry → ℕ → Stacks → Stacks → Type 0
  Carries words i s s' =
      (w : WordDefEntry) × (xs : Bytes) × (get_elem? words i ≡ some w)
      × (w.code ≡ xs ++ pl.op_byte Op.ret ∷ [])
      × Does vm xs s s'

  words_of-Carries :
      (addr : ℕ) (items : List Item) (i : ℕ) (s s' : Stacks)
      → All IsShort items
      → WordMeans vm addr items i s s'
      → Carries (words_of pl addr items) i s s'
  words_of-Carries addr [] i s s' _ m = elim m [ ]
  words_of-Carries addr (code a ∷ items) i s s' (_, short) (behind_code m) =
      words_of-Carries addr items i s s' short m
  words_of-Carries addr (definition name a ∷ items) _ s s' (short, _) (this_definition m) =
      (word_of pl name a, layout pl a, refl, refl, layout-Does pl vm jumps laws a s s' m short)
  words_of-Carries addr (definition name a ∷ items) _ s s' (_, short)
        (behind_definition {i = i} m) =
      words_of-Carries addr items i s s' short m
  words_of-Carries addr (variable_cell name ∷ items) _ _ _ _ (this_variable {d = d} {r} small) =
      (cell_word pl name addr, pl.op_byte Op.lit ∷ i32_le addr, refl, refl, laws.lit addr d r small)
  words_of-Carries addr (variable_cell name ∷ items) _ s s' (_, short) (behind_variable {i = i} m) =
      words_of-Carries (addr + 4) items i s s' short m
  words_of-Carries addr (constant_value name value ∷ items) _ _ _ _
        (this_constant {d = d} {r} small) =
      (
        cell_word pl name value,
        pl.op_byte Op.lit ∷ i32_le value,
        refl,
        refl,
        laws.lit value d r small,
      )
  words_of-Carries addr (constant_value name value ∷ items) _ s s' (_, short)
        (behind_constant {i = i} m) =
      words_of-Carries addr items i s s' short m

-- On a machine that has the words of the output, CALL with the index of a word does what the item of
-- the text means: a definition what its program means, where that comes to an end; a variable pushes
-- the address of its cell, a constant its value. The machine runs JZ, JMP, CALL, LIT and the
-- opcodes of counted loops as documented; no program reaches over 2 ^ 15 bytes, and the bounds of the compiler hold.
pub compile_internal-calls :
    (pl : Platform) (vm : Vm) (ctx : Option V4FrontContext) (text : Bytes) (items : List Item)
    (out : V4FrontBuf) (i : ℕ) (s s' : Stacks)
    → NeverRefuses pl
    → Jumps pl vm
    → Opcodes pl vm
    → Texts pl ctx [] data_space_base items text
    → All Fits items
    → All IsShort items
    → length (main_of pl items) + 5 < 2 ^ 31
    → compile_internal pl ctx (some text) ≡ ok out
    → Calls pl vm out.words
    → WordMeans vm data_space_base items i s s'
    → Does vm (call_code pl i) s s'
compile_internal-calls pl vm ctx text items out i s s' never jumps laws reads fits short small done
      calls means =
    let compiled = compile_internal-text pl ctx text items never reads fits small in
    let same : words_of pl data_space_base items ≡ out.words = cc in
    let (w, xs, is, code_is, does) =
      words_of-Carries pl vm jumps laws data_space_base items i s s' short means in
    calls.call i w xs s s' (ap (λ l. get_elem? l i) (sym same) ∙ is) code_is does
