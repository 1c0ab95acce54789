-- ===== src/Compiler/Words.antt =====
-- `:`, `;`, RECURSE, CONSTANT, VARIABLE and calls of words, in src/compile.cpp.
use v4_front.Base.{
  ℕ, ◌+◌, ◌-◌, ◌*◌, ◌%◌, ◌^◌, Bool, true, false, not, ◌&&◌, ◌||◌, List, [], ◌∷◌, ◌++◌, Option, none,
  some, Bytes, length, take, drop, ltb, leb, ◌==◌, if◌then◌else◌,
}
use v4_front.Result.{
  Result, ok, err, undefined, no_fuel, ◌>>=◌, require, FrontErr, nested_colon, colon_without_name,
  duplicate_word, dictionary_full, semicolon_without_colon, recurse_outside_word,
  constant_without_value, constant_without_name, variable_without_name,
}
use v4_front.Platform.{Platform, Op}
use v4_front.Text.{take_token, max_word_name_len, str_eq_ci}
use v4_front.Text.Blanks.{skip_whitespace_and_comments}
use v4_front.Buffer.{no_buf, append_bytes, i16_le, i32_le}
use v4_front.DataSpace.{DataSpace, allot}
use v4_front.Compiler.{WordDefEntry, Compilation, max_words, view, put, on_current, emit}

-- `str_eq_ci(word_dict[i].name, name)` for some `i < word_count`
unfoldable pub is_defined : Bytes → List WordDefEntry → Bool
unfolding str_eq_ci
is_defined name [] = false
is_defined name (w ∷ dict) = str_eq_ci w.name name || is_defined name dict

-- The name at the pointer, and the rest. `missing` is the error without a name, at `missing_at` at
-- the end of the text and at the name where it is too long.
unfoldable pub name_at : FrontErr → ℕ → Bytes → Result (Bytes × Bytes)
unfolding take_token
name_at missing missing_at [] = err missing (some missing_at)
name_at missing missing_at (c ∷ cs) =
    let (name, rest) = take_token (c ∷ cs) in
    require (ltb 0 (length name) && ltb (length name) max_word_name_len) missing (length (c ∷ cs))
      (ok (name, rest))

-- The name, then the checks that it is new and that the dictionary has room. The text, with the
-- same checks in the same order, stands in the handlers of `:`, CONSTANT and VARIABLE.
unfoldable pub new_name : FrontErr → ℕ → List WordDefEntry → Bytes → Result (Bytes × ℕ × Bytes)
unfolding name_at is_defined
new_name missing missing_at dict p = do
  (name, rest) ← name_at missing missing_at p
  if is_defined name dict
      then err duplicate_word (some (length p))
      else if leb max_words (length dict)
      then err dictionary_full (some (length p))
      else ok (name, length p, rest)

-- `p` is the text behind the colon. Without a name the error stands at the end of the text.
unfoldable pub handle_colon_start : Bytes → Compilation → Result (Compilation × Bytes)
unfolding skip_whitespace_and_comments new_name
handle_colon_start p c = require (not c.in_definition) nested_colon (length p) (do
  p₁ ← skip_whitespace_and_comments p
  (name, _, rest) ← new_name colon_without_name 0 c.dict p₁
  ok (record c { in_definition = true; current_word_name = name; word = no_buf }, rest))

-- `name_len >= MAX_WORD_NAME_LEN` cuts the name; `:` has refused such names.
abbrev pub clip_name : Bytes → Bytes
clip_name name =
    if leb max_word_name_len (length name) then take (max_word_name_len - 1) name else name

-- `word_dict[*word_count]` is written without a test that the array has room.
unfoldable pub add_word : Bytes → Bytes → List WordDefEntry → Result (List WordDefEntry)
add_word name code dict =
    if ltb (length dict) max_words
    then ok (dict ++ (record { name = name; code = code } ∷ []))
    else undefined

unfoldable pub handle_semicolon_end : Platform → ℕ → Compilation → Result Compilation
unfolding emit view add_word
handle_semicolon_end pl at c = require c.in_definition semicolon_without_colon at (do
  g ← emit pl (pl.op_byte Op.ret ∷ []) (view c)
  dict ← add_word (clip_name c.current_word_name) g.current.bytes c.dict
  ok (record c { in_definition = false; current_word_name = []; word = no_buf; dict = dict }))

-- CALL with the index that the word gets if `;` comes next.
unfoldable pub handle_recurse : Platform → ℕ → Compilation → Result Compilation
unfolding on_current emit
handle_recurse pl at c =
    require c.in_definition recurse_outside_word at
      (on_current (emit pl (pl.op_byte Op.call ∷ i16_le (length c.dict % 2 ^ 16))) c)

-- LIT, the value and RET, in a buffer of their own.
unfoldable pub literal_word : Platform → ℕ → Result Bytes
literal_word pl value = do
  b ← append_bytes pl (pl.op_byte Op.lit ∷ (i32_le value ++ (pl.op_byte Op.ret ∷ []))) no_buf
  ok b.bytes

-- The value of four bytes, least first.
unfoldable pub from_i32_le : Bytes → ℕ
from_i32_le [] = 0
from_i32_le (x ∷ xs) = x + 256 * from_i32_le xs

abbrev pub literal_in : Platform → Bytes → Bytes → Option (Bytes × ℕ)
literal_in pl front (o ∷ a ∷ b ∷ c ∷ d ∷ []) =
    if o == pl.op_byte Op.lit then some (front, from_i32_le (a ∷ b ∷ c ∷ d ∷ [])) else none
literal_in pl front _ = none

-- The last five bytes, if the first of them is the byte of LIT: the rest of the code, and the value
-- of the other four. Where an instruction starts is not known here.
unfoldable pub last_literal : Platform → Bytes → Option (Bytes × ℕ)
unfolding from_i32_le
last_literal pl code = literal_in pl (take (length code - 5) code) (drop (length code - 5) code)

unfoldable pub constant_of :
    Platform → ℕ → Bytes → Option (Bytes × ℕ) → Compilation → Result (Compilation × Bytes)
unfolding view put skip_whitespace_and_comments new_name literal_word add_word
constant_of pl at p none c = err constant_without_value (some at)
constant_of pl at p (some (front, value)) c = do
  let c₁ = put c (record (view c) { current = record (view c).current { bytes = front } })
  p₁ ← skip_whitespace_and_comments p
  (name, _, rest) ← new_name constant_without_name at c₁.dict p₁
  code ← literal_word pl value
  dict ← add_word name code c₁.dict
  ok (record c₁ { dict = dict }, rest)

unfoldable pub handle_constant : Platform → ℕ → Bytes → Compilation → Result (Compilation × Bytes)
unfolding view last_literal constant_of
handle_constant pl at p c = constant_of pl at p (last_literal pl (view c).current.bytes) c

-- `*error_pos = at; CLEANUP_AND_RETURN(err)` on an error.
abbrev pub relocate : {A : Type 0} → ℕ → Result A → Result A
relocate at (ok a) = ok a
relocate at (err e _) = err e (some at)
relocate at undefined = undefined
relocate at no_fuel = no_fuel

-- `data_space.allot(4, &var_addr)`, its error at the name
abbrev pub allot_cell : ℕ → DataSpace → Result (ℕ × DataSpace)
allot_cell at s = relocate at (allot 4 s)

unfoldable pub handle_variable : Platform → ℕ → Bytes → Compilation → Result (Compilation × Bytes)
unfolding skip_whitespace_and_comments new_name allot literal_word add_word
handle_variable pl at p c = do
  p₁ ← skip_whitespace_and_comments p
  (name, name_start, rest) ← new_name variable_without_name at c.dict p₁
  (addr, space) ← allot_cell name_start c.data_space
  code ← literal_word pl addr
  dict ← add_word name code c.dict
  ok (record c { dict = dict; data_space = space }, rest)

-- CALL with `static_cast<int16_t>(word_idx)`
unfoldable pub handle_call : Platform → ℕ → Compilation → Result Compilation
unfolding on_current emit
handle_call pl word_idx = on_current (emit pl (pl.op_byte Op.call ∷ i16_le (word_idx % 2 ^ 16)))

-- LIT with the value of an integer token.
unfoldable pub handle_literal : Platform → ℕ → Compilation → Result Compilation
unfolding on_current emit
handle_literal pl value = on_current (emit pl (pl.op_byte Op.lit ∷ i32_le value))
