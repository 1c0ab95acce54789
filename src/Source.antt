-- ===== src/Source.antt =====
-- Texts of structured programs with definitions, as src/compile.cpp reads them: which tokens, behind
-- any blanks and comments, spell a program of `Structured`, and what code each token stands for.
mod Anywhere
mod Steps
mod Reading
pub mod Words
mod Constants
mod Items
pub mod Whole
use v4_front.Base.{
  ℕ, ◌+◌, ◌%◌, ◌^◌, ◌<◌, ◌≡◌, Bool, true, false, List, [], ◌∷◌, ◌++◌, Option, none, some, Bytes,
  length,
}
use v4_front.Platform.{Platform, Op}
use v4_front.Text.{take_token, clip_token}
use v4_front.Text.Integer.{try_parse_int}
use v4_front.Text.Skipping.{Skips}
use v4_front.Buffer.{i16_le, i32_le}
use v4_front.Context.{V4FrontContext}
use v4_front.Compiler.{WordDefEntry}
use v4_front.Compiler.Composite.{Composite, composite_bytes}
use v4_front.Compiler.Opcodes.{lookup_simple_opcode}
use v4_front.Compiler.Words.{is_defined}
use v4_front.Compiler.Dispatch.{
  Keyword, colon, semicolon, begin, do_word, until, while_word, repeat, again, leave, loop, ploop,
  if_word, else_word, then_word, recurse, composite, local, variable, constant, keyword_table,
  composite_table, match_token, find_word,
}
use v4_front.Structured.{
  Prog, plain, leave_loop, seq, if_then, if_else, begin_until, begin_again, begin_while, do_loop,
  do_ploop, layout,
}

-- The next token of `p` is `t`, and `p'` stands behind it.
abbrev pub Token : Bytes → Bytes → Bytes → Type 0
Token p t p' = (x : ℕ) × (q : Bytes) × Skips p (x ∷ q) × (take_token (x ∷ q) ≡ (t, p'))

-- The next token is a keyword, in whatever case.
abbrev pub Word : Keyword → Bytes → Bytes → Type 0
Word kw p p' = (t : Bytes) × Token p t p' × (match_token (clip_token t) keyword_table ≡ some kw)

-- CALL with the index of a word.
abbrev pub call_code : Platform → ℕ → Bytes
call_code pl idx = pl.op_byte Op.call ∷ i16_le (idx % 2 ^ 16)

module _ (pl : Platform) (ctx : Option V4FrontContext) where
  -- The code of a token on its own, inside a definition or not, where the dictionary is `dict`: a
  -- word comes before an integer, that before a composite word, and that before an opcode.
  pub data Plain (inside : Bool) (dict : List WordDefEntry) (t : Bytes) : Bytes → Type 0 where
    keyword :
        (w : Composite)
        → match_token t keyword_table ≡ some (composite w)
        → Plain inside dict t (composite_bytes pl w)
    recursion :
        inside ≡ true
        → match_token t keyword_table ≡ some recurse
        → Plain inside dict t (call_code pl (length dict))
    call :
        (idx : ℕ)
        → match_token t keyword_table ≡ none
        → find_word t dict ctx ≡ some idx
        → Plain inside dict t (call_code pl idx)
    integer :
        (value : ℕ)
        → match_token t keyword_table ≡ none
        → find_word t dict ctx ≡ none
        → try_parse_int t ≡ some value
        → Plain inside dict t (pl.op_byte Op.lit ∷ i32_le value)
    compound :
        (w : Composite)
        → match_token t keyword_table ≡ none
        → find_word t dict ctx ≡ none
        → try_parse_int t ≡ none
        → match_token t composite_table ≡ some w
        → Plain inside dict t (composite_bytes pl w)
    opcode :
        (o : Op)
        → match_token t keyword_table ≡ none
        → find_word t dict ctx ≡ none
        → try_parse_int t ≡ none
        → match_token t composite_table ≡ none
        → lookup_simple_opcode t ≡ some o
        → Plain inside dict t (pl.op_byte o ∷ [])

  -- From `p` to `p'` the text spells the program.
  pub data Reads (inside : Bool) (dict : List WordDefEntry) : Prog → Bytes → Bytes → Type 0 where
    nothing : {p : Bytes} → Reads inside dict (plain []) p p
    token :
        {xs p p' : Bytes} (t : Bytes)
        → Token p t p'
        → Plain inside dict (clip_token t) xs
        → Reads inside dict (plain xs) p p'
    read_local :
        {o : Op} {p q r : Bytes} (t : Bytes) (idx : ℕ)
        → Word (local o) p q
        → Token q t r
        → try_parse_int (clip_token t) ≡ some idx
        → idx < 256
        → Reads inside dict (plain (pl.op_byte o ∷ idx ∷ [])) p r
    read_leave : {p q : Bytes} → Word leave p q → Reads inside dict leave_loop p q
    both :
        {a b : Prog} {p q r : Bytes}
        → Reads inside dict a p q
        → Reads inside dict b q r
        → Reads inside dict (seq a b) p r
    read_if_then :
        {a : Prog} {p q r s : Bytes}
        → Word if_word p q
        → Reads inside dict a q r
        → Word then_word r s
        → Reads inside dict (if_then a) p s
    read_if_else :
        {a b : Prog} {p q r s t u : Bytes}
        → Word if_word p q
        → Reads inside dict a q r
        → Word else_word r s
        → Reads inside dict b s t
        → Word then_word t u
        → Reads inside dict (if_else a b) p u
    read_begin_until :
        {a : Prog} {p q r s : Bytes}
        → Word begin p q
        → Reads inside dict a q r
        → Word until r s
        → Reads inside dict (begin_until a) p s
    read_begin_again :
        {a : Prog} {p q r s : Bytes}
        → Word begin p q
        → Reads inside dict a q r
        → Word again r s
        → Reads inside dict (begin_again a) p s
    read_begin_while :
        {a b : Prog} {p q r s t u : Bytes}
        → Word begin p q
        → Reads inside dict a q r
        → Word while_word r s
        → Reads inside dict b s t
        → Word repeat t u
        → Reads inside dict (begin_while a b) p u
    read_do_loop :
        {a : Prog} {p q r s : Bytes}
        → Word do_word p q
        → Reads inside dict a q r
        → Word loop r s
        → Reads inside dict (do_loop a) p s
    read_do_ploop :
        {a : Prog} {p q r s : Bytes}
        → Word do_word p q
        → Reads inside dict a q r
        → Word ploop r s
        → Reads inside dict (do_ploop a) p s

-- A text is a row of main code, of definitions, of variables and of constants.
pub data Item : Type 0 where
  code : Prog → Item
  definition : Bytes → Prog → Item
  variable_cell : Bytes → Item
  constant_value : Bytes → ℕ → Item

-- The word of a definition, its code by the nesting alone.
abbrev pub word_of : Platform → Bytes → Prog → WordDefEntry
word_of pl name a = record { name = name; code = layout pl a ++ pl.op_byte Op.ret ∷ [] }

-- The word of a variable or a constant: LIT, the address of the cell or the value, and RET.
abbrev pub cell_word : Platform → Bytes → ℕ → WordDefEntry
cell_word pl name value = record {
  name = name;
  code = pl.op_byte Op.lit ∷ (i32_le value ++ (pl.op_byte Op.ret ∷ []));
}

-- The words, where the next cell is at `addr`: four bytes for each variable, one behind the other.
abbrev pub words_of : Platform → ℕ → List Item → List WordDefEntry
words_of pl addr [] = []
words_of pl addr (code a ∷ items) = words_of pl addr items
words_of pl addr (definition name a ∷ items) = word_of pl name a ∷ words_of pl addr items
words_of pl addr (variable_cell name ∷ items) =
    cell_word pl name addr ∷ words_of pl (addr + 4) items
words_of pl addr (constant_value name value ∷ items) =
    cell_word pl name value ∷ words_of pl addr items

abbrev pub main_of : Platform → List Item → Bytes
main_of pl [] = []
main_of pl (code a ∷ items) = layout pl a ++ main_of pl items
main_of pl (definition name a ∷ items) = main_of pl items
main_of pl (variable_cell name ∷ items) = main_of pl items
main_of pl (constant_value name value ∷ items) = main_of pl items

-- The whole text spells the items, where the dictionary holds the words so far and the next
-- cell is at the address that is given. A name is new, of fewer than
-- 64 characters, and finds room in the dictionary.
pub data Texts (pl : Platform) (ctx : Option V4FrontContext)
    : List WordDefEntry → ℕ → List Item → Bytes → Type 0 where
  finished :
      {dict : List WordDefEntry} {addr : ℕ} {p : Bytes} → Skips p [] → Texts pl ctx dict addr [] p
  main_code :
      {dict : List WordDefEntry} {addr : ℕ} {a : Prog} {items : List Item} {p q : Bytes}
      → Reads pl ctx false dict a p q
      → Texts pl ctx dict addr items q
      → Texts pl ctx dict addr (code a ∷ items) p
  defined :
      {dict : List WordDefEntry} {addr : ℕ} {a : Prog} {items : List Item} {p q r s t : Bytes}
      (name : Bytes)
      → Word colon p q
      → Token q name r
      → length name < 64
      → is_defined name dict ≡ false
      → length dict < 256
      → Reads pl ctx true dict a r s
      → Word semicolon s t
      → Texts pl ctx (dict ++ word_of pl name a ∷ []) addr items t
      → Texts pl ctx dict addr (definition name a ∷ items) p
  cell :
      {dict : List WordDefEntry} {addr : ℕ} {items : List Item} {p q r : Bytes} (name : Bytes)
      → Word variable p q
      → Token q name r
      → length name < 64
      → is_defined name dict ≡ false
      → length dict < 256
      → Texts pl ctx (dict ++ cell_word pl name addr ∷ []) (addr + 4) items r
      → Texts pl ctx dict addr (variable_cell name ∷ items) p
  value :
      {dict : List WordDefEntry} {addr : ℕ} {items : List Item} {p q r s t : Bytes} (name : Bytes)
      (value : ℕ)
      → Token p t q
      → match_token (clip_token t) keyword_table ≡ none
      → find_word (clip_token t) dict ctx ≡ none
      → try_parse_int (clip_token t) ≡ some value
      → Word constant q r
      → Token r name s
      → length name < 64
      → is_defined name dict ≡ false
      → length dict < 256
      → Texts pl ctx (dict ++ cell_word pl name value ∷ []) addr items s
      → Texts pl ctx dict addr (constant_value name value ∷ items) p
