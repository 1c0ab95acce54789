-- ===== src/Invariant/Words.antt =====
-- The handlers that define and call words.
use v4_front.Base.{
  ℕ, ◌+◌, ◌%◌, ◌^◌, ◌≤◌, ◌<◌, ◌≡◌, Bool-cases, inl, inr, not, List, [], ◌∷◌, ◌++◌, Bytes, length,
  length-take-le, length-append, take, All, All-append, arith, ltb, ltb→lt, leb, if◌then◌else◌,
}
use v4_front.Result.{
  Result, nested_colon, semicolon_without_colon, recurse_outside_word, colon_without_name,
}
use v4_front.Compiler.Emission.{emit-bytes}
use v4_front.Platform.{Platform, Op, OpcodesFit}
use v4_front.Buffer.{no_buf, i16_le, i32_le}
use v4_front.Buffer.Append.{append_bytes-Extends}
use v4_front.DataSpace.{DataSpace}
use v4_front.Compiler.{WordDefEntry, Compilation, Gen, view, put, on_current, emit}
use v4_front.Compiler.Words.{
  clip_name, add_word, handle_colon_start, handle_semicolon_end, handle_recurse, literal_word,
  handle_call, handle_literal,
}
use v4_front.Invariant.{
  Post, returns, faults, Post-bind, Post-map, Post-require, Post-if, Post-eq, IsByte, BufInv,
  GenInv, Inv, WordInv, SpaceInv,
}
use v4_front.Invariant.Buffers.{append_bytes-Post, emit-Post, All-i16_le, All-i32_le}
use v4_front.Invariant.Branch.{with_stack}
use v4_front.Invariant.Text.{skip-Post, new_name-Post}

clip-lt :
    (k : ℕ) (name : Bytes)
    → k < 64
    → length (if leb 64 (length name) then take k name else name) < 64
clip-lt k name small = elim (Bool-cases (leb 64 (length name))) [
  | inl long ↦ rw long (omega (arith, length-take-le k name))
  | inr short ↦ rw short (ground (arith, short))
]

-- More words leave the space in order.
pub more_words :
    {s : DataSpace} {words more : ℕ}
    → more ≤ 256
    → more ≡ words + 1
    → SpaceInv s words
    → SpaceInv s more
more_words few longer v = record {
  base_is = v.base_is;
  limit_is = v.limit_is;
  here_fits = omega arith;
}

no_buf-BufInv : BufInv no_buf
no_buf-BufInv = (omega arith, tt)

module _ (pl : Platform) where
  pub view-GenInv : (c : Compilation) → Inv pl c → GenInv (view c)
  unfolding view
  view-GenInv c v = elim (Bool-cases c.in_definition) [
    | inl inside ↦ rw inside (record { buffer = v.word; control = v.control })
    | inr outside ↦ rw outside (record { buffer = v.main; control = v.control })
  ]

  pub put-Inv : (c : Compilation) (g : Gen) → Inv pl c → GenInv g → Inv pl (put c g)
  unfolding put
  put-Inv c g v h = elim (Bool-cases c.in_definition) [
    | inl inside ↦ rw inside (record {
      main = v.main;
      word = h.buffer;
      control = h.control;
      name = v.name;
      dict_fits = v.dict_fits;
      dict = v.dict;
      space = v.space;
    })
    | inr outside ↦ rw outside (record {
      main = h.buffer;
      word = v.word;
      control = h.control;
      name = v.name;
      dict_fits = v.dict_fits;
      dict = v.dict;
      space = v.space;
    })
  ]

  pub on_current-Post :
      (n : ℕ) (f : Gen → Result Gen) (c : Compilation)
      → Inv pl c
      → ((g : Gen) → GenInv g → Post n GenInv (f g))
      → Post n (Inv pl) (on_current f c)
  unfolding on_current
  on_current-Post n f c v keeps =
      Post-bind (keeps (view c) (view-GenInv c v)) λ g h. returns (put-Inv c g v h)

  pub emit_bytes-Post :
      (n : ℕ) (xs : Bytes) (g : Gen) → All IsByte xs → GenInv g → Post n GenInv (emit pl xs g)
  emit_bytes-Post n xs g bytes v =
      Post-map (emit-Post n pl xs g v.buffer bytes) λ g'. with_stack v.control

  -- One more word, at the cost of at most four bytes of data space.
  pub add_word-Post :
      (n : ℕ) (name code : Bytes) (dict : List WordDefEntry)
      → WordInv pl (record { name = name; code = code })
      → All (WordInv pl) dict
      → Post n
          (λ d. (length d ≤ 256) × All (WordInv pl) d × (length d ≡ length dict + 1))
          (add_word name code dict)
  unfolding add_word
  add_word-Post n name code dict w h =
      let entry : List WordDefEntry = record { name = name; code = code } ∷ [] in
      let longer = length-append dict entry in
      Post-if (ltb (length dict) 256)
        (λ room. returns (
          omega (arith, longer, ltb→lt (length dict) 256 room),
          All-append (WordInv pl) dict entry h (w, tt),
          longer,
        ))
        λ full. faults

  pub literal_word-Post :
      (n : ℕ) (value : ℕ) (fit : OpcodesFit pl) (name : Bytes)
      → length name < 64
      → Post n (λ code. WordInv pl (record { name = name; code = code })) (literal_word pl value)
  unfolding literal_word
  literal_word-Post n value fit name short =
      let tail : Bytes = pl.op_byte Op.ret ∷ [] in
      let xs : Bytes = pl.op_byte Op.lit ∷ (i32_le value ++ tail) in
      let bytes : All IsByte xs =
        (fit Op.lit, All-append IsByte (i32_le value) tail (All-i32_le value) (fit Op.ret, tt)) in
      Post-bind (Post-eq (append_bytes-Post n pl xs no_buf no_buf-BufInv bytes)) λ b ((s, all), e).
        returns (record {
          name_fits = short;
          code_bytes = all;
          code_ends = (
            pl.op_byte Op.lit ∷ i32_le value,
            (append_bytes-Extends pl xs no_buf (omega arith) e).bytes_are,
          );
        })

  pub handle_colon-Post :
      (n : ℕ) (p : Bytes) (c : Compilation)
      → length p ≤ n
      → Inv pl c
      → Post n (λ r. Inv pl r.0 × (length r.1 ≤ length p)) (handle_colon_start p c)
  unfolding handle_colon_start
  handle_colon-Post n p c fits v = Post-require (not c.in_definition) nested_colon tt fits λ _.
      Post-bind (skip-Post n p fits) λ p₁ (less, _).
        Post-bind (new_name-Post n colon_without_name 0 c.dict p₁ tt (omega arith) (omega arith))
          λ r (short, _, _, less'). returns (
            record {
              main = v.main;
              word = no_buf-BufInv;
              control = v.control;
              name = short;
              dict_fits = v.dict_fits;
              dict = v.dict;
              space = v.space;
            },
            omega arith,
          )

  pub handle_semicolon-Post :
      (n at : ℕ) (c : Compilation) (fit : OpcodesFit pl)
      → at ≤ n
      → Inv pl c
      → Post n (Inv pl) (handle_semicolon_end pl at c)
  unfolding handle_semicolon_end
  handle_semicolon-Post n at c fit within v =
      let h = view-GenInv c v in
      let name = clip_name c.current_word_name in
      let ret : Bytes = pl.op_byte Op.ret ∷ [] in
      Post-require c.in_definition semicolon_without_colon tt within λ _.
        Post-bind (Post-eq (emit-Post n pl ret (view c) h.buffer (fit Op.ret, tt)))
          λ g (((_, all), _), e).
            let ends = emit-bytes pl ret (view c) h.buffer.0 e in
            let w : WordInv pl (record { name = name; code = g.current.bytes }) = record {
              name_fits = clip-lt 63 c.current_word_name (omega arith);
              code_bytes = all;
              code_ends = ((view c).current.bytes, ends);
            } in
            Post-bind (add_word-Post n name g.current.bytes c.dict w v.dict)
              λ d (few, words, longer). returns (record {
                main = v.main;
                word = no_buf-BufInv;
                control = v.control;
                name = omega arith;
                dict_fits = few;
                dict = words;
                space = more_words few longer v.space;
              })

  pub handle_recurse-Post :
      (n at : ℕ) (c : Compilation) (fit : OpcodesFit pl)
      → at ≤ n
      → Inv pl c
      → Post n (Inv pl) (handle_recurse pl at c)
  unfolding handle_recurse
  handle_recurse-Post n at c fit within v =
      Post-require c.in_definition recurse_outside_word tt within λ _. on_current-Post n _ c v (λ g.
        emit_bytes-Post n (pl.op_byte Op.call ∷ i16_le (length c.dict % 2 ^ 16)) g
          (fit Op.call, All-i16_le (length c.dict % 2 ^ 16)))

  pub handle_call-Post :
      (n idx : ℕ) (c : Compilation)
      → OpcodesFit pl
      → Inv pl c
      → Post n (Inv pl) (handle_call pl idx c)
  unfolding handle_call
  handle_call-Post n idx c fit v = on_current-Post n _ c v (λ g.
      emit_bytes-Post n (pl.op_byte Op.call ∷ i16_le (idx % 2 ^ 16)) g
        (fit Op.call, All-i16_le (idx % 2 ^ 16)))

  pub handle_literal-Post :
      (n value : ℕ) (c : Compilation)
      → OpcodesFit pl
      → Inv pl c
      → Post n (Inv pl) (handle_literal pl value c)
  unfolding handle_literal
  handle_literal-Post n value c fit v =
      on_current-Post n _ c v
        (λ g. emit_bytes-Post n (pl.op_byte Op.lit ∷ i32_le value) g (fit Op.lit, All-i32_le value))
