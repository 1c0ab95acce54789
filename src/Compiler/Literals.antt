-- ===== src/Compiler/Literals.antt =====
-- Literals, CONSTANT and VARIABLE of src/compile.cpp: what they make of the code and the dictionary.
use mathlib.Core.Path.{subst}
use v4_front.Base.{
  take-append, drop-append, ◌+◌, ◌≤◌, sym, Bool-cases, inl, inr, ℕ, ◌-◌, ◌^◌, ◌<◌, ◌≡◌, refl, ap,
  ◌∙◌, arith, List, [], ◌∷◌, ◌++◌, Bytes, some, length, length-append,
}
use v4_front.Platform.{Platform, Op}
use v4_front.Result.{
  constant_without_name, variable_without_name, FrontErr, ok, >>=-eq-ok, Result, bind-ok, ◌>>=◌,
}
use v4_front.Buffer.Append.{IsSized, append_bytes-Extends}
use v4_front.Compiler.{Gen, Compilation, view, put, on_current, emit, WordDefEntry}
use v4_front.Buffer.{no_buf, append_bytes, i32_le}
use v4_front.Text.{take_token}
use v4_front.Text.Blanks.{skip_whitespace_and_comments}
use v4_front.Compiler.Emission.{emit-bytes}
use v4_front.Compiler.Words.{
  relocate, allot_cell, handle_variable, constant_of, new_name, name_at, literal_word, add_word,
  handle_literal, handle_constant, from_i32_le, last_literal,
}
use v4_front.DataSpace.{DataSpace}
use v4_front.DataSpace.Bounds.{allot-cell}

pub from_i32_le-i32_le : (value : ℕ) → value < 2 ^ 32 → from_i32_le (i32_le value) ≡ value
unfolding from_i32_le i32_le
from_i32_le-i32_le value small = omega arith

-- Behind any code, the literal of a value below 2 ^ 32 is found again: the code without it, and
-- that value.
pub last_literal-literal :
    (pl : Platform) (front : Bytes) (value : ℕ)
    → value < 2 ^ 32
    → last_literal pl (front ++ (pl.op_byte Op.lit ∷ i32_le value)) ≡ some (front, value)
unfolding last_literal i32_le
last_literal-literal pl front value small =
    let code = pl.op_byte Op.lit ∷ i32_le value in
    let n : length (front ++ code) - 5 ≡ length front = omega (arith, length-append front code) in
    rw (n, take-append, drop-append) (ground (arith, from_i32_le-i32_le value small))

-- The handlers read back what they wrote.
view-put :
    (c : Compilation) (g : Gen) → ((view (put c g)).current ≡ g.current) × ((put c g).dict ≡ c.dict)
unfolding view put
view-put c g = elim (Bool-cases c.in_definition) [
  | inl inside ↦ rw inside (refl, refl)
  | inr outside ↦ rw outside (refl, refl)
]

-- The buffer that the code goes to holds the literal behind what it held.
literal-bytes :
    (pl : Platform) (value : ℕ) (c : Compilation) {c₁ : Compilation}
    → IsSized (view c).current
    → handle_literal pl value c ≡ ok c₁
    → ((view c₁).current.bytes ≡ (view c).current.bytes ++ (pl.op_byte Op.lit ∷ i32_le value))
      × (c₁.dict ≡ c.dict)
unfolding handle_literal on_current
literal-bytes pl value c {c₁} s e =
    let code = pl.op_byte Op.lit ∷ i32_le value in
    let (g, made, same) = >>=-eq-ok (emit pl code (view c)) _ e in
    let is : put c g ≡ c₁ = cc in
    let (seen, kept) = view-put c g in
    subst (λ d. ((view d).current.bytes ≡ (view c).current.bytes ++ code) × (d.dict ≡ c.dict)) is
      (ap (λ b. b.bytes) seen ∙ emit-bytes pl code (view c) s made, kept)

-- A new name is the token that stands there.
new_name-token :
    (e : FrontErr) (at : ℕ) (dict : List WordDefEntry) (p : Bytes) {name rest : Bytes} {start : ℕ}
    → new_name e at dict p ≡ ok (name, start, rest)
    → take_token p ≡ (name, rest)
unfolding new_name name_at
new_name-token e at dict [] h = cc
new_name-token e at dict (c ∷ cs) h = ground arith

literal_word-code :
    (pl : Platform) (value : ℕ) {code : Bytes}
    → literal_word pl value ≡ ok code
    → code ≡ pl.op_byte Op.lit ∷ (i32_le value ++ (pl.op_byte Op.ret ∷ []))
unfolding literal_word
literal_word-code pl value {code} e =
    let xs = pl.op_byte Op.lit ∷ (i32_le value ++ (pl.op_byte Op.ret ∷ [])) in
    let (b, made, same) = >>=-eq-ok (append_bytes pl xs no_buf) _ e in
    let is : code ≡ b.bytes = cc in
    is ∙ (append_bytes-Extends pl xs no_buf (omega arith) made).bytes_are

add_word-entry :
    (name code : Bytes) (dict : List WordDefEntry) {dict' : List WordDefEntry}
    → add_word name code dict ≡ ok dict'
    → dict' ≡ dict ++ (record { name = name; code = code } ∷ [])
unfolding add_word
add_word-entry name code dict e = ground arith

-- A constant's word: its name is the token at `q`, its code is LIT, the value and RET.
abbrev constant_word : Platform → ℕ → Bytes → WordDefEntry
constant_word pl value q = record {
  name = (take_token q).0;
  code = pl.op_byte Op.lit ∷ (i32_le value ++ (pl.op_byte Op.ret ∷ []));
}

-- The steps that CONSTANT and VARIABLE end in.
abbrev entry_steps :
    Platform
    → ℕ
    → Bytes
    → Bytes
    → List WordDefEntry
    → (List WordDefEntry → Compilation)
    → Result (Compilation × Bytes)
entry_steps pl value name rest dict k = do
  code ← literal_word pl value
  d ← add_word name code dict
  ok (k d, rest)

-- They put the word behind the dictionary, in the state that `k` makes of it.
new_entry :
    (pl : Platform) (value : ℕ) (q name rest : Bytes) (dict : List WordDefEntry)
    (k : List WordDefEntry → Compilation) {c₂ : Compilation} {rest₂ : Bytes}
    → take_token q ≡ (name, rest)
    → entry_steps pl value name rest dict k ≡ ok (c₂, rest₂)
    → (c₂ ≡ k (dict ++ (constant_word pl value q ∷ []))) × (rest₂ ≡ (take_token q).1)
new_entry pl value q name rest dict k {c₂} {rest₂} token e =
    let (code, coded, e₁) = >>=-eq-ok (literal_word pl value) _ e in
    let (d, added, e₂) = >>=-eq-ok (add_word name code dict) _ e₁ in
    let same : c₂ ≡ k d = cc in
    let ends : rest₂ ≡ rest = cc in
    let word : Bytes → Bytes → WordDefEntry = λ n b. record { name = n; code = b } in
    (
      same
          ∙ ap k (
              add_word-entry name code dict added
              ∙ ap (λ n. dict ++ (word n code ∷ [])) (sym (ap (λ t. t.0) token))
              ∙ ap (λ b. dict ++ (word (take_token q).0 b ∷ []))
                  (literal_word-code pl value coded)),
      ends ∙ sym (ap (λ t. t.1) token),
    )

-- From `c` to `c₂` the code is the same and the constant's word is new.
abbrev pub DefinesConstant : Platform → ℕ → Bytes → Compilation → Compilation → Type 0
DefinesConstant pl value q c c₂ =
    ((view c₂).current.bytes ≡ (view c).current.bytes)
    × (c₂.dict ≡ c.dict ++ (constant_word pl value q ∷ []))

constant_of-lem :
    (pl : Platform) (at value : ℕ) (p front : Bytes) (c : Compilation) {c₂ : Compilation}
    {rest : Bytes}
    → constant_of pl at p (some (front, value)) c ≡ ok (c₂, rest)
    → (q : Bytes) × (skip_whitespace_and_comments p ≡ ok q)
      × (rest ≡ (take_token q).1)
      × ((view c₂).current.bytes ≡ front)
      × (c₂.dict ≡ c.dict ++ (constant_word pl value q ∷ []))
unfolding constant_of view
constant_of-lem pl at value p front c e =
    let g : Gen = record (view c) { current = record (view c).current { bytes = front } } in
    let c₁ = put c g in
    let (seen, kept) = view-put c g in
    let (q, skipped, e₁) = >>=-eq-ok (skip_whitespace_and_comments p) _ e in
    let (r, named, e₂) = >>=-eq-ok (new_name constant_without_name at c₁.dict q) _ e₁ in
    let token = new_name-token constant_without_name at c₁.dict q named in
    let (is, ends) = new_entry pl value q r.0 r.2 c₁.dict (λ d. record c₁ { dict = d }) token e₂ in
    (
      q,
      skipped,
      ends,
      ap (λ d. (view d).current.bytes) is ∙ ap (λ b. b.bytes) seen,
      ap (λ d. d.dict) is ∙ ap (λ d. d ++ (constant_word pl value q ∷ [])) kept,
    )

-- CONSTANT behind the literal of a value below 2 ^ 32, where both succeed and the buffer is within
-- its capacity: the code is what it was before the literal, and one word stands behind the
-- dictionary. Its name is the token behind the blanks and comments, its code LIT, that value and
-- RET; the text goes on behind the name.
pub handle_constant-handle_literal :
    (pl : Platform) (at value : ℕ) (p : Bytes) (c c₁ c₂ : Compilation) (rest : Bytes)
    → value < 2 ^ 32
    → IsSized (view c).current
    → handle_literal pl value c ≡ ok c₁
    → handle_constant pl at p c₁ ≡ ok (c₂, rest)
    → (q : Bytes) × (skip_whitespace_and_comments p ≡ ok q)
      × (rest ≡ (take_token q).1)
      × DefinesConstant pl value q c c₂
unfolding handle_constant
handle_constant-handle_literal pl at value p c c₁ c₂ rest small s lit const =
    let (bytes, kept) = literal-bytes pl value c s lit in
    let front = (view c).current.bytes in
    let found : last_literal pl (view c₁).current.bytes ≡ some (front, value) =
      ap (last_literal pl) bytes ∙ last_literal-literal pl front value small in
    let step : constant_of pl at p (some (front, value)) c₁ ≡ ok (c₂, rest) =
      ap (λ l. constant_of pl at p l c₁) (sym found) ∙ const in
    let (q, skipped, ends, code, dict) = constant_of-lem pl at value p front c₁ step in
    (q, skipped, ends, (code, dict ∙ ap (λ d. d ++ (constant_word pl value q ∷ [])) kept))

-- VARIABLE, where it succeeds and four bytes are left in a data space below 2 ^ 32: the cell at
-- `here` is taken, and one word stands behind the dictionary. Its name is the token behind the
-- blanks and comments, its code LIT, the cell's address and RET; the other code is as before.
pub handle_variable-cell :
    (pl : Platform) (at : ℕ) (p : Bytes) (c c₂ : Compilation) (rest : Bytes)
    → c.data_space.here + 4 ≤ c.data_space.limit
    → c.data_space.limit < 2 ^ 32
    → handle_variable pl at p c ≡ ok (c₂, rest)
    → (q : Bytes) × (skip_whitespace_and_comments p ≡ ok q)
      × (rest ≡ (take_token q).1)
      × DefinesConstant pl c.data_space.here q c c₂
      × (c₂.data_space ≡ record c.data_space { here = c.data_space.here + 4 })
unfolding handle_variable view
handle_variable-cell pl at p c c₂ rest room small e =
    let here = c.data_space.here in
    let space : DataSpace = record c.data_space { here = here + 4 } in
    let (q, skipped, e₁) = >>=-eq-ok (skip_whitespace_and_comments p) _ e in
    let (r, named, e₂) = >>=-eq-ok (new_name variable_without_name at c.dict q) _ e₁ in
    let token = new_name-token variable_without_name at c.dict q named in
    let taken : allot_cell r.1 c.data_space ≡ ok (here, space) =
      ap (relocate r.1) (allot-cell c.data_space room small) in
    let e₃ = sym (bind-ok _ taken refl) ∙ e₂ in
    let (is, ends) =
      new_entry pl here q r.0 r.2 c.dict (λ d. record c { dict = d; data_space = space }) token
        e₃ in
    (
      q,
      skipped,
      ends,
      (ap (λ d. (view d).current.bytes) is, ap (λ d. d.dict) is),
      ap (λ d. d.data_space) is,
    )
