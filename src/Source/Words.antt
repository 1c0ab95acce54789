-- ===== src/Source/Words.antt =====
-- Definitions and VARIABLE in the token loop of src/compile.cpp.
use v4_front.Compiler.Words.{
  allot_cell, relocate, literal_word, handle_variable, is_defined, name_at, new_name, clip_name,
  add_word, handle_colon_start, handle_semicolon_end,
}
use v4_front.Compiler.Dispatch.{variable, colon, semicolon, run_keyword}
use v4_front.Result.{variable_without_name, FrontErr, ok, colon_without_name}
use v4_front.DataSpace.{data_space_base}
use v4_front.DataSpace.Bounds.{allot-cell}
use v4_front.Buffer.{i32_le, Buf, no_buf}
use v4_front.Source.{
  constant_value, cell_word, variable_cell, Token, Word, Reads, Item, code, definition, word_of,
}
use v4_front.Base.{
  ℕ, ◌+◌, ◌^◌, ◌≤◌, ◌<◌, ◌≡◌, refl, ◌∙◌, ap, true, false, List, [], ◌∷◌, ◌++◌, Bytes, length, arith,
  Option,
}
use v4_front.Platform.{Platform, Op, NeverRefuses}
use v4_front.Buffer.Append.{Extends, Extends-size, append_bytes-total}
use v4_front.Text.Blanks.{skip_whitespace_and_comments}
use v4_front.Text.Skipping.{skip_whitespace_and_comments-Skips}
use v4_front.Context.{V4FrontContext}
use v4_front.Compiler.{WordDefEntry, Compilation, initial, emit, view, put}
use v4_front.Invariant.Text.{take_token-length, take_token-lt}
use v4_front.Structured.{Prog, depth, size_of, IsClosed, layout}
use v4_front.Structured.Correct.{gen}
use v4_front.Structured.Parts.{length-layout}
use v4_front.Structured.Nested.{closed-Compiles}
use v4_front.Source.Steps.{Leads, Leads-trans, Skips-Skipped, keyword-Leads}
use v4_front.Source.Reading.{Reads-Follows}

-- Between two items: main code and words so far, and the address of the next cell.
abbrev pub outside : Buf → List WordDefEntry → ℕ → Compilation
outside b dict addr = record initial {
  main = b;
  dict = dict;
  data_space = record { base = data_space_base; here = addr; limit = 0x20000 };
}

-- Inside a definition.
abbrev inside : Buf → List WordDefEntry → ℕ → Bytes → Buf → Compilation
inside b dict addr name w = record (outside b dict addr) {
  word = w;
  in_definition = true;
  current_word_name = name;
}

-- The nesting fits the stack, each LEAVE stands in a loop, eight at most in one, and the code of a
-- definition fits 31 bits.
abbrev pub Fits : Item → Type 0
Fits (code a) = (depth a ≤ 32) × IsClosed a
Fits (variable_cell name) = Unit
Fits (constant_value name value) = Unit
Fits (definition name a) = (depth a ≤ 32) × (size_of a + 1 < 2 ^ 31) × IsClosed a

module _ (pl : Platform) (ctx : Option V4FrontContext) (never : NeverRefuses pl) where
  pub new_name-total :
      (missing : FrontErr) (at : ℕ) {q r name : Bytes} (dict : List WordDefEntry)
      → Token q name r
      → length name < 64
      → is_defined name dict ≡ false
      → length dict < 256
      → (q' : Bytes) × (skip_whitespace_and_comments q ≡ ok q')
        × (new_name missing at dict q' ≡ ok (name, length q', r))
        × (length r ≤ length q)
  unfolding new_name name_at
  new_name-total missing at {q} {r} {name} dict (x, q', s, is) short new room =
      let n = ap (λ t. length t.0) is in
      let m = ap (λ t. length t.1) is in
      let total = take_token-length (x ∷ q') in
      let less = take_token-lt x q' (Skips-Skipped s).1 in
      (
        x ∷ q',
        (skip_whitespace_and_comments-Skips q (x ∷ q')).1 s,
        (rw is (ground (arith, total, less, n, m))),
        omega (arith, m, less, (Skips-Skipped s).0),
      )

  colon-Leads :
      {p q r name : Bytes} (b : Buf) (dict : List WordDefEntry) (addr : ℕ)
      → Word colon p q
      → Token q name r
      → length name < 64
      → is_defined name dict ≡ false
      → length dict < 256
      → Leads pl ctx p (outside b dict addr) r (inside b dict addr name no_buf)
  unfolding run_keyword handle_colon_start
  colon-Leads {q = q} b dict addr w t short new room =
      let (q', skipped, named, less) = new_name-total colon_without_name 0 dict t short new room in
      keyword-Leads pl ctx colon w (λ at. rw (skipped, named) refl) less

  -- `;` writes the name and the code of the word as they are.
  added :
      (name xs ys : Bytes) (dict : List WordDefEntry)
      → length name < 64
      → length dict < 256
      → xs ≡ ys
      → add_word (clip_name name) xs dict ≡ ok (dict ++ record { name = name; code = ys } ∷ [])
  unfolding add_word
  added name xs ys dict short room same = ground (arith, same)

  semicolon-Leads :
      {p q name : Bytes} (a : Prog) (b w : Buf) (dict : List WordDefEntry) (addr : ℕ)
      → Word semicolon p q
      → length name < 64
      → length dict < 256
      → Extends no_buf (layout pl a) w
      → size_of a + 1 < 2 ^ 31
      → Leads pl ctx p
          (inside b dict addr name w)
          q
          (outside b (dict ++ word_of pl name a ∷ []) addr)
  unfolding run_keyword handle_semicolon_end add_word emit view
  semicolon-Leads {name = name} a b w dict addr word short room e small =
      let n = Extends-size e in
      let (w', done, f) =
        append_bytes-total pl (pl.op_byte Op.ret ∷ []) w never e.is_sized
          (omega (arith, n, length-layout pl a)) in
      let code = f.bytes_are ∙ ap (λ l. l ++ pl.op_byte Op.ret ∷ []) e.bytes_are in
      keyword-Leads pl ctx semicolon word
        (λ at. rw (done, added name w'.bytes _ dict short room code) refl) (omega arith)

  -- A whole definition.
  pub definition-Leads :
      {p q r s t name : Bytes} {a : Prog} (b : Buf) (dict : List WordDefEntry) (addr : ℕ)
      → Word colon p q
      → Token q name r
      → length name < 64
      → is_defined name dict ≡ false
      → length dict < 256
      → Reads pl ctx true dict a r s
      → Word semicolon s t
      → Fits (definition name a)
      → Leads pl ctx p (outside b dict addr) t (outside b (dict ++ word_of pl name a ∷ []) addr)
  unfolding put
  definition-Leads {name = name} {a} b dict addr w t short new room body w' (deep, small, closed) =
      let c = inside b dict addr name no_buf in
      let (word, done, e) =
        closed-Compiles pl 0 a [] no_buf never (omega arith) (omega (arith, deep)) (omega arith)
          closed in
      Leads-trans pl ctx (colon-Leads b dict addr w t short new room) (
        Leads-trans pl ctx (Reads-Follows pl ctx c 0 body (gen no_buf []) (gen word []) done)
          (semicolon-Leads a b word dict addr w' short room e small))

  cell_space :
      (at addr : ℕ)
      → addr + 4 ≤ 0x20000
      → allot_cell at (record { base = data_space_base; here = addr; limit = 0x20000 })
        ≡ ok (addr, record { base = data_space_base; here = addr + 4; limit = 0x20000 })
  cell_space at addr room = ap (relocate at) (
      allot-cell (record { base = data_space_base; here = addr; limit = 0x20000 }) room
        (omega arith))

  pub literal_word-total :
      (value : ℕ)
      → literal_word pl value ≡ ok (pl.op_byte Op.lit ∷ (i32_le value ++ (pl.op_byte Op.ret ∷ [])))
  unfolding literal_word i32_le
  literal_word-total value =
      let xs = pl.op_byte Op.lit ∷ (i32_le value ++ (pl.op_byte Op.ret ∷ [])) in
      let (b, done, e) = append_bytes-total pl xs no_buf never (omega arith) (omega arith) in
      rw done (ap ok e.bytes_are)

  pub cell_added :
      (name xs : Bytes) (dict : List WordDefEntry)
      → length dict < 256
      → add_word name xs dict ≡ ok (dict ++ record { name = name; code = xs } ∷ [])
  unfolding add_word
  cell_added name xs dict room = ground arith

  pub variable-Leads :
      {p q r name : Bytes} (b : Buf) (dict : List WordDefEntry) (addr : ℕ)
      → Word variable p q
      → Token q name r
      → length name < 64
      → is_defined name dict ≡ false
      → length dict < 256
      → addr + 4 ≤ 0x20000
      → Leads pl ctx p
          (outside b dict addr)
          r
          (outside b (dict ++ cell_word pl name addr ∷ []) (addr + 4))
  unfolding run_keyword handle_variable
  variable-Leads {name = name} b dict addr w t short new room space =
      let code = (cell_word pl name addr).code in
      keyword-Leads pl ctx variable w
        (λ at.
          let (q', skipped, named, _) =
            new_name-total variable_without_name at dict t short new room in
          rw
            (
              skipped,
              named,
              cell_space (length q') addr space,
              literal_word-total addr,
              cell_added name code dict room,
            )
            refl)
        (new_name-total variable_without_name 0 dict t short new room).3
