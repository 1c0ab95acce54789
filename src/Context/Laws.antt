-- ===== src/Context/Laws.antt =====
-- The context as a map from names, equal but for case, to indices.
use v4_front.Base.{
  ℤ, pos, negsuc, sym, ◌≢◌, ℕ, ◌≤◌, ◌≡◌, refl, ap, ◌∙◌, ◌⊎◌, inl, inr, [], ◌∷◌, ◌++◌, Bytes, Option,
  none, some, length-append, arith, if◌then◌else◌,
}
use v4_front.Context.{
  grow, V4FrontContext, word_count, context_reset, update_entry, add_entry, context_register_word,
  register_entry, code_of, find_entry, context_find_word, minus_one,
}
use mathlib.Core.Path.{subst}
use v4_front.Errors.{front_err_to_int}
use v4_front.Errors.Codes.{front_err_to_int-negative}
use v4_front.Result.{FrontErr, out_of_memory}
use v4_front.Platform.{Platform}
use v4_front.Text.{str_eq_ci}
use v4_front.Context.Entries.{
  entry, Option-cases, Distinct, find-update, update-none, find-append, update-Distinct,
  append-Distinct,
}

-- The new entry stands behind the others, or there is an error and the words are as they were. The
-- count stays within the capacity.
add_entry-outcome :
    (pl : Platform) (ctx : V4FrontContext) (n : Bytes) (i : ℕ) {ctx' : V4FrontContext}
    {e : Option FrontErr}
    → add_entry pl ctx n i ≡ (ctx', e)
    → (((e ≡ none) × (ctx'.words ≡ ctx.words ++ entry n i ∷ []))
        ⊎ ((e ≡ some out_of_memory) × (ctx'.words ≡ ctx.words)))
      × (word_count ctx ≤ ctx.word_capacity → word_count ctx' ≤ ctx'.word_capacity)
unfolding add_entry grow
add_entry-outcome pl ctx n i e =
    let longer = length-append ctx.words (entry n i ∷ []) in
    (ground arith, λ fits. ground (arith, longer))

find-register_entry :
    (pl : Platform) (ctx : V4FrontContext) (n m : Bytes) (i : ℕ) {ctx' : V4FrontContext}
    → register_entry pl ctx n i ≡ (ctx', none)
    → find_entry m ctx'.words ≡ (if str_eq_ci n m then i else find_entry m ctx.words)
unfolding register_entry
find-register_entry pl ctx n m i {ctx'} e = elim (Option-cases (update_entry n i ctx.words)) [
  | inl missing ↦
      let step : add_entry pl ctx n i ≡ (ctx', none) = ground (arith, missing) in
      elim (add_entry-outcome pl ctx n i step).0 [
        | inl (done, added) ↦
            rw added (find-append n m i ctx.words (update-none n i ctx.words missing))
        | inr (failed, same) ↦ cc
      ]
  | inr (vs, found) ↦
      let kept : ctx'.words ≡ vs = ground (arith, found) in
      rw kept (find-update n m i ctx.words found)
]

register_entry-error :
    (pl : Platform) (ctx : V4FrontContext) (n : Bytes) (i : ℕ) {ctx' : V4FrontContext}
    {e : FrontErr}
    → register_entry pl ctx n i ≡ (ctx', some e)
    → (e ≡ out_of_memory) × (ctx'.words ≡ ctx.words)
unfolding register_entry
register_entry-error pl ctx n i {ctx'} {e} h = elim (Option-cases (update_entry n i ctx.words)) [
  | inl missing ↦
      let step : add_entry pl ctx n i ≡ (ctx', some e) = ground (arith, missing) in
      elim (add_entry-outcome pl ctx n i step).0 [
        | inl (done, added) ↦ cc
        | inr (failed, same) ↦ (cc, same)
      ]
  | inr (vs, found) ↦ ground (arith, found)
]

pub record IsValid (ctx : V4FrontContext) : Type 0 where
  pub fits : word_count ctx ≤ ctx.word_capacity
  pub distinct : Distinct ctx.words

register_entry-IsValid :
    (pl : Platform) (ctx : V4FrontContext) (n : Bytes) (i : ℕ) {ctx' : V4FrontContext}
    {e : Option FrontErr}
    → IsValid ctx
    → register_entry pl ctx n i ≡ (ctx', e)
    → IsValid ctx'
unfolding register_entry
register_entry-IsValid pl ctx n i {ctx'} {e} v h =
    elim (Option-cases (update_entry n i ctx.words)) [
      | inl missing ↦
          let step : add_entry pl ctx n i ≡ (ctx', e) = ground (arith, missing) in
          let (outcome, grows) = add_entry-outcome pl ctx n i step in
          let fresh = update-none n i ctx.words missing in
          record {
            fits = grows v.fits;
            distinct = elim outcome [
              | inl (done, added) ↦
                  rw added (append-Distinct (entry n i) ctx.words fresh v.distinct)
              | inr (failed, same) ↦ rw same v.distinct
            ];
          }
      | inr (vs, found) ↦
          let kept : ctx' ≡ record ctx { words = vs } = ground (arith, found) in
          let (distinct, same) = update-Distinct n i ctx.words found v.distinct in
          rw kept (record { fits = omega (arith, same, v.fits); distinct = distinct })
    ]

-- A call with a context and a name that are there.
register-entry :
    (pl : Platform) (ctx : V4FrontContext) (n : Bytes) (i : ℕ) {ctx' : V4FrontContext} {code : ℤ}
    → context_register_word pl (some ctx) (some n) i ≡ (some ctx', code)
    → (e : Option FrontErr) × (register_entry pl ctx n i ≡ (ctx', e)) × (code_of e ≡ code)
unfolding context_register_word
register-entry pl ctx n i {ctx'} {code} h =
    let (c, e) = register_entry pl ctx n i in
    let same : c ≡ ctx' = cc in
    let code_is : code_of e ≡ code = cc in (e, ap (λ c. (c, e)) same, code_is)

code_of-zero : (e : Option FrontErr) → code_of e ≡ pos 0 → e ≡ none
code_of-zero none h = refl
code_of-zero (some e) h = let (k, is) = front_err_to_int-negative e in cc

-- What is found after a successful registration: the index under every name equal to the registered
-- one but for case, and what was found before under every other name.
pub find-register :
    (pl : Platform) (ctx : V4FrontContext) (n m : Bytes) (i : ℕ) {ctx' : V4FrontContext}
    → context_register_word pl (some ctx) (some n) i ≡ (some ctx', pos 0)
    → context_find_word (some ctx') (some m)
      ≡ (if str_eq_ci n m then i else context_find_word (some ctx) (some m))
unfolding context_find_word
find-register pl ctx n m i {ctx'} h =
    let (e, is, code) = register-entry pl ctx n i h in
    find-register_entry pl ctx n m i (is ∙ ap (λ e. (ctx', e)) (code_of-zero e code))

pub register-error :
    (pl : Platform) (ctx : Option V4FrontContext) (n : Option Bytes) (i : ℕ)
    {ctx' : Option V4FrontContext} {code : ℤ}
    → context_register_word pl ctx n i ≡ (ctx', code)
    → code ≢ pos 0
    → (((ctx ≡ none) ⊎ (n ≡ none)) × (code ≡ negsuc 0) × (ctx' ≡ ctx))
      ⊎ ((c : V4FrontContext) × (c' : V4FrontContext) × (ctx ≡ some c)
          × (ctx' ≡ some c')
          × (code ≡ front_err_to_int out_of_memory)
          × (c'.words ≡ c.words))
unfolding context_register_word
register-error pl none n i h failed = inl (inl refl, cc, cc)
register-error pl (some ctx) none i h failed = inl (inr refl, cc, cc)
register-error pl (some ctx) (some n) i {ctx'} {code} h failed =
    let (c, e) = register_entry pl ctx n i in
    let is : some c ≡ ctx' = cc in
    let code_is : code_of e ≡ code = cc in
    elim (Option-cases e) [
      | inl done ↦ absurd (failed (sym code_is ∙ ap code_of done))
      | inr (front, is_err) ↦
          let (memory, kept) = register_entry-error pl ctx n i (ap (λ e. (c, e)) is_err) in
          inr (
            ctx,
            c,
            refl,
            sym is,
            sym code_is ∙ ap code_of is_err ∙ ap front_err_to_int memory,
            kept,
          )
    ]

-- A registration, also one that fails, keeps the names distinct, but for case, and the count within
-- the capacity.
pub register-IsValid :
    (pl : Platform) (ctx : V4FrontContext) (n : Option Bytes) (i : ℕ) {ctx' : V4FrontContext}
    {code : ℤ}
    → IsValid ctx
    → context_register_word pl (some ctx) n i ≡ (some ctx', code)
    → IsValid ctx'
unfolding context_register_word
register-IsValid pl ctx none i {ctx'} v h = let same : ctx ≡ ctx' = cc in subst IsValid same v
register-IsValid pl ctx (some n) i v h =
    let (e, is, code) = register-entry pl ctx n i h in register_entry-IsValid pl ctx n i v is

-- A name that is not in the context is not found, and a reset leaves no name.
pub find-reset :
    (ctx : V4FrontContext) (m : Option Bytes)
    → context_find_word (context_reset (some ctx)) m ≡ minus_one
unfolding context_find_word context_reset
find-reset ctx none = refl
find-reset ctx (some m) = refl
