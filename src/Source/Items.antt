-- ===== src/Source/Items.antt =====
-- The items of a text in the token loop of src/compile.cpp, to the end of the text.
use mathlib.Core.Path.{subst}
use v4_front.DataSpace.{data_space_base}
use v4_front.Source.{
  cell_word, cell, value, Item, word_of, words_of, main_of, Texts, finished, main_code, defined,
}
use v4_front.Source.Constants.{constant-Leads}
use v4_front.Base.{
  ℕ, ◌*◌, ◌+◌, ◌^◌, ◌≤◌, ◌<◌, sym, List, [], ◌∷◌, ◌++◌, append_assoc, append-nil, Bytes, length,
  length-append, All, arith, Option,
}
use v4_front.Platform.{Platform, NeverRefuses}
use v4_front.Buffer.{Buf, size}
use v4_front.Buffer.Append.{IsSized, Extends, Extends-nil, Extends-size, Extends-trans}
use v4_front.Text.Skipping.{Skips}
use v4_front.Context.{V4FrontContext}
use v4_front.Compiler.{WordDefEntry, put}
use v4_front.Structured.{layout}
use v4_front.Structured.Correct.{gen}
use v4_front.Structured.Parts.{length-layout}
use v4_front.Structured.Nested.{closed-Compiles}
use v4_front.Source.Steps.{Leads, stays, Leads-trans}
use v4_front.Source.Reading.{Reads-Follows}
use v4_front.Source.Words.{outside, Fits, definition-Leads, variable-Leads}

module _ (pl : Platform) (ctx : Option V4FrontContext) (never : NeverRefuses pl) where
  -- All items, one after the other, to the end of the text. Each cell so far belongs to a word.
  pub items-Leads :
      {p : Bytes} {items : List Item} (b : Buf) (dict : List WordDefEntry) (addr : ℕ)
      → Texts pl ctx dict addr items p
      → All Fits items
      → IsSized b
      → addr ≤ data_space_base + 4 * length dict
      → size b + length (main_of pl items) + 5 < 2 ^ 31
      → (q : Bytes) × (b' : Buf) × (addr' : ℕ) × Skips q []
        × Leads pl ctx p (outside b dict addr) q (outside b' (dict ++ words_of pl addr items) addr')
        × Extends b (main_of pl items) b'
  unfolding put
  items-Leads {p} b dict addr (finished s) fits sized cells small = (
    p,
    b,
    addr,
    s,
    subst (λ d. Leads pl ctx p (outside b dict addr) p (outside b d addr)) (sym (append-nil dict))
        stays,
    Extends-nil sized,
  )
  items-Leads b dict addr (main_code {a = a} {items} body later) ((deep, closed), fits) sized cells
        small =
      let n = length-layout pl a in
      let m = length-append (layout pl a) (main_of pl items) in
      let (b₁, done, e) =
        closed-Compiles pl 0 a [] b never sized (omega (arith, deep)) (omega (arith, n, m))
          closed in
      let first = Reads-Follows pl ctx (outside b dict addr) 0 body (gen b []) (gen b₁ []) done in
      let (q, b', addr', s, l, f) =
        items-Leads b₁ dict addr later fits e.is_sized cells (omega (arith, Extends-size e, m)) in
      (q, b', addr', s, Leads-trans pl ctx first l, Extends-trans e f)
  items-Leads b dict addr (defined {a = a} {items} {t = u} name w t short new room body w' later)
        (fit, fits) sized cells small =
      let word = word_of pl name a in
      let n = length-append dict (word ∷ []) in
      let (q, b', addr', s, l, f) =
        items-Leads b (dict ++ word ∷ []) addr later fits sized (omega (arith, n, cells)) small in
      let joined = append_assoc dict (word ∷ []) (words_of pl addr items) in
      (
        q,
        b',
        addr',
        s,
        Leads-trans pl ctx
            (definition-Leads pl ctx never b dict addr w t short new room body w' fit)
            (subst (λ d. Leads pl ctx u (outside b (dict ++ word ∷ []) addr) q (outside b' d addr'))
              joined l),
        f,
      )
  items-Leads b dict addr (cell {items = items} {r = r} name w t short new room later) (_, fits)
        sized cells small =
      let word = cell_word pl name addr in
      let n = length-append dict (word ∷ []) in
      let (q, b', addr', s, l, f) =
        items-Leads b (dict ++ word ∷ []) (addr + 4) later fits sized (omega (arith, n, cells))
          small in
      let joined = append_assoc dict (word ∷ []) (words_of pl (addr + 4) items) in
      (
        q,
        b',
        addr',
        s,
        Leads-trans pl ctx
            (variable-Leads pl ctx never b dict addr w t short new room
              (omega (arith, cells, room)))
            (subst
              (λ d.
                Leads pl ctx r (outside b (dict ++ word ∷ []) (addr + 4)) q (outside b' d addr'))
              joined l),
        f,
      )
  items-Leads b dict addr
        (value {items = items} {s = u} name number tok no_key no_word is w t short new room later)
        (_, fits) sized cells small =
      let word = cell_word pl name number in
      let n = length-append dict (word ∷ []) in
      let (b₁, first, e) =
        constant-Leads pl ctx never b dict addr number tok no_key no_word is w t short new room
          sized (omega (arith, small)) in
      let (q, b', addr', s, l, f) =
        items-Leads b₁ (dict ++ word ∷ []) addr later fits e.is_sized (omega (arith, n, cells))
          (omega (arith, Extends-size e, small)) in
      let joined = append_assoc dict (word ∷ []) (words_of pl addr items) in
      (
        q,
        b',
        addr',
        s,
        Leads-trans pl ctx first (
            subst (λ d. Leads pl ctx u (outside b₁ (dict ++ word ∷ []) addr) q (outside b' d addr'))
              joined l),
        Extends-trans e f,
      )
