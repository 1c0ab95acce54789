-- ===== src/Invariant/Constants.antt =====
-- The handlers of CONSTANT and VARIABLE in src/compile.cpp.
use v4_front.Base.{
  ℕ, ◌+◌, ◌-◌, ◌≤◌, ◌<◌, sym, Bool-cases, inl, inr, [], ◌∷◌, Bytes, length, length-take-le, take,
  drop, All, All-take, arith, ◌==◌, Option, none, some,
}
use mathlib.Core.Path.{subst}
use v4_front.Result.{constant_without_name, variable_without_name}
use v4_front.Platform.{Platform, Op, OpcodesFit}
use v4_front.Buffer.{Buf}
use v4_front.DataSpace.{DataSpace}
use v4_front.DataSpace.Bounds.{allot-cell}
use v4_front.Compiler.{Compilation, Gen, view, put}
use v4_front.Compiler.Words.{
  literal_in, last_literal, constant_of, handle_constant, allot_cell, handle_variable,
}
use v4_front.Invariant.{Post, returns, raises, Post-bind, IsByte, BufInv, Inv, SpaceInv}
use v4_front.Invariant.Text.{skip-Post, new_name-Post}
use v4_front.Invariant.Words.{more_words, view-GenInv, put-Inv, add_word-Post, literal_word-Post}

module _ (pl : Platform) where
  -- What is left of the code when a literal is taken off its end.
  abbrev LiteralInv : ℕ → Option (Bytes × ℕ) → Type 0
  LiteralInv cap none = Unit
  LiteralInv cap (some (front, value)) = (length front ≤ cap) × All IsByte front

  literal_in-Inv :
      (cap : ℕ) (front xs : Bytes)
      → length front ≤ cap
      → All IsByte front
      → LiteralInv cap (literal_in pl front xs)
  literal_in-Inv cap front (o ∷ a ∷ b ∷ c ∷ d ∷ []) s h =
      elim (Bool-cases (o == pl.op_byte Op.lit)) [
        | inl lit ↦ rw lit (s, h)
        | inr other ↦ rw other tt
      ]
  literal_in-Inv cap front _ s h = tt

  last_literal-Inv : (b : Buf) → BufInv b → LiteralInv b.cap (last_literal pl b.bytes)
  unfolding last_literal
  last_literal-Inv b (s, h) =
      let k = length b.bytes - 5 in
      literal_in-Inv b.cap (take k b.bytes) (drop k b.bytes)
        (omega (arith, length-take-le k b.bytes)) (All-take IsByte k b.bytes h)

  constant_of-Post :
      (n at : ℕ) (p : Bytes) (lit : Option (Bytes × ℕ)) (c : Compilation) (fit : OpcodesFit pl)
      → at ≤ n
      → length p ≤ n
      → Inv pl c
      → LiteralInv (view c).current.cap lit
      → Post n (λ r. Inv pl r.0 × (length r.1 ≤ length p)) (constant_of pl at p lit c)
  unfolding constant_of
  constant_of-Post n at p none c fit within fits v l = raises tt within
  constant_of-Post n at p (some (front, value)) c fit within fits v l =
      let g : Gen = record (view c) { current = record (view c).current { bytes = front } } in
      let c₁ = put c g in
      let v₁ = put-Inv pl c g v (record { buffer = l; control = (view-GenInv pl c v).control }) in
      Post-bind (skip-Post n p fits) λ p₁ (less, _).
        Post-bind (new_name-Post n constant_without_name at c₁.dict p₁ tt within (omega arith))
          λ r (short, _, _, less'). Post-bind (literal_word-Post pl n value fit r.0 short) λ code w.
            Post-bind (add_word-Post pl n r.0 code c₁.dict w v₁.dict) λ d (few, words, longer).
              returns (
                record {
                  main = v₁.main;
                  word = v₁.word;
                  control = v₁.control;
                  name = v₁.name;
                  dict_fits = few;
                  dict = words;
                  space = more_words few longer v₁.space;
                },
                omega arith,
              )

  pub handle_constant-Post :
      (n at : ℕ) (p : Bytes) (c : Compilation)
      → OpcodesFit pl
      → at ≤ n
      → length p ≤ n
      → Inv pl c
      → Post n (λ r. Inv pl r.0 × (length r.1 ≤ length p)) (handle_constant pl at p c)
  unfolding handle_constant
  handle_constant-Post n at p c fit within fits v =
      constant_of-Post n at p _ c fit within fits v
        (last_literal-Inv (view c).current (view-GenInv pl c v).buffer)

  -- The data space never runs out before the dictionary does.
  allot_cell-Post :
      (n at words : ℕ) (s : DataSpace)
      → words < 256
      → SpaceInv s words
      → Post n (λ r. SpaceInv r.1 (words + 1)) (allot_cell at s)
  allot_cell-Post n at words s room v =
      rw (allot-cell s (omega arith) (omega arith))
        (returns (record { base_is = v.base_is; limit_is = v.limit_is; here_fits = omega arith }))

  pub handle_variable-Post :
      (n at : ℕ) (p : Bytes) (c : Compilation)
      → OpcodesFit pl
      → at ≤ n
      → length p ≤ n
      → Inv pl c
      → Post n (λ r. Inv pl r.0 × (length r.1 ≤ length p)) (handle_variable pl at p c)
  unfolding handle_variable
  handle_variable-Post n at p c fit within fits v = Post-bind (skip-Post n p fits) λ p₁ (less, _).
      Post-bind (new_name-Post n variable_without_name at c.dict p₁ tt within (omega arith))
        λ r (short, room, _, less').
          Post-bind (allot_cell-Post n r.1 (length c.dict) c.data_space room v.space) λ cell space.
            Post-bind (literal_word-Post pl n cell.0 fit r.0 short) λ code w.
              Post-bind (add_word-Post pl n r.0 code c.dict w v.dict) λ d (few, words, longer).
                returns (
                  record {
                    main = v.main;
                    word = v.word;
                    control = v.control;
                    name = v.name;
                    dict_fits = few;
                    dict = words;
                    space = subst (SpaceInv cell.1) (sym longer) space;
                  },
                  omega arith,
                )
