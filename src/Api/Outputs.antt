-- ===== src/Api/Outputs.antt =====
-- What `compile_internal` leaves in `*out_buf` where it returns an error.
use v4_front.Base.{
  ℕ, ◌+◌, ◌*◌, ◌≡◌, refl, ◌∙◌, ◌⊎◌, inl, inr, List, [], ◌∷◌, Option, none, some, Bytes, length,
  arith, Bool-cases,
}
use v4_front.Result.{Result, ok, err, undefined, no_fuel, ◌>>=◌, FrontErr, out_of_memory}
use v4_front.Platform.{Platform, Op}
use v4_front.Buffer.{Buf, append_byte, append_bytes}
use v4_front.Context.{V4FrontContext}
use v4_front.Compiler.{WordDefEntry, Compilation, initial}
use v4_front.Compiler.Driver.{
  V4FrontBuf, OutBuf, cleared, words_only, words_freed, word_size, check_control, check_definition,
  copy_names, transfer_words, needs_ret, append_ret, finish, compile_loop, compile_internal, behind,
  copied_out, transferred, left_by_finish, left_behind,
}

-- All fields are cleared; or memory ran out, and the words are there without code, or their array is
-- freed.
abbrev pub Left : FrontErr → OutBuf → Type 0
Left e left =
    (left ≡ cleared)
    ⊎ ((e ≡ out_of_memory)
        × ((left ≡ words_freed) ⊎ ((words : List WordDefEntry) × (left ≡ words_only words))))

append_byte-error :
    (pl : Platform) (x : ℕ) (b : Buf) {e : FrontErr} {at : Option ℕ}
    → append_byte pl x b ≡ err e at
    → e ≡ out_of_memory
unfolding append_byte
append_byte-error pl x b h = ground arith

append_ret-error :
    (pl : Platform) (b : Buf) {e : FrontErr} {at : Option ℕ}
    → append_ret pl b ≡ err e at
    → e ≡ out_of_memory
unfolding append_ret append_bytes
append_ret-error pl b {e} {at} h = elim (Bool-cases (needs_ret pl b.bytes)) [
  | inl due ↦ go (append_byte pl (pl.op_byte Op.ret) b) refl (ground (arith, due))
  | inr not_due ↦ ground (arith, not_due)
]
  where
    go :
        (r : Result Buf)
        → append_byte pl (pl.op_byte Op.ret) b ≡ r
        → (r >>= append_bytes pl []) ≡ err e at
        → e ≡ out_of_memory
    go (ok b') is h = cc
    go (err _ _) is h = append_byte-error pl (pl.op_byte Op.ret) b (is ∙ h)
    go undefined is h = cc
    go no_fuel is h = cc

behind-Left :
    {A B : Type 0} (m : Result A) (f : A → Result B) (left : A → OutBuf) {e : FrontErr}
    {at : Option ℕ}
    → ((a : A) → f a ≡ err e at → Left e (left a))
    → (m >>= f) ≡ err e at
    → Left e (behind m left)
behind-Left (ok a) f left later h = later a h
behind-Left (err _ _) f left later h = inl refl
behind-Left undefined f left later h = cc
behind-Left no_fuel f left later h = cc

-- The byte of RET, and the buffer that is handed out.
abbrev handed : Compilation → Buf → Result V4FrontBuf
handed c b = ok (record { words = c.dict; code = b.bytes })

abbrev ended : Platform → Compilation → Result V4FrontBuf
ended pl c = append_ret pl c.main >>= λ b. handed c b

handed-error :
    (c : Compilation) (r : Result Buf) {e : FrontErr} {at : Option ℕ}
    → (r ≡ err e at → e ≡ out_of_memory)
    → (r >>= handed c) ≡ err e at
    → e ≡ out_of_memory
handed-error c (ok b) now h = cc
handed-error c (err _ _) now h = now cc
handed-error c undefined now h = cc
handed-error c no_fuel now h = cc

ended-error :
    (pl : Platform) (c : Compilation) {e : FrontErr} {at : Option ℕ}
    → ended pl c ≡ err e at
    → e ≡ out_of_memory
ended-error pl c h = handed-error c (append_ret pl c.main) (append_ret-error pl c.main) h

copy_names-error :
    (pl : Platform) (words : List WordDefEntry) {e : FrontErr} {at : Option ℕ}
    → copy_names pl words ≡ err e at
    → e ≡ out_of_memory
unfolding copy_names
copy_names-error pl [] h = cc
copy_names-error pl (w ∷ words) {e} {at} h = elim (Bool-cases (pl.alloc (length w.name + 1))) [
  | inl given ↦
      let rest : copy_names pl words ≡ err e at = ground (arith, given) in
      copy_names-error pl words rest
  | inr refused ↦ ground (arith, refused)
]

copied_out-Left :
    (words : List WordDefEntry) (r : Result (Unit {0})) (rest : Unit {0} → Result V4FrontBuf)
    {e : FrontErr} {at : Option ℕ}
    → (rest tt ≡ err e at → e ≡ out_of_memory)
    → (r ≡ err e at → e ≡ out_of_memory)
    → (r >>= rest) ≡ err e at
    → Left e (copied_out words r)
copied_out-Left words (ok tt) rest later now h = inr (later h, inr (words, refl))
copied_out-Left words (err _ _) rest later now h = inr (now cc, inl refl)
copied_out-Left words undefined rest later now h = cc
copied_out-Left words no_fuel rest later now h = cc

transferred-Left :
    (pl : Platform) (words : List WordDefEntry) (rest : Unit {0} → Result V4FrontBuf) {e : FrontErr}
    {at : Option ℕ}
    → (rest tt ≡ err e at → e ≡ out_of_memory)
    → (transfer_words pl words >>= rest) ≡ err e at
    → Left e (transferred pl words)
unfolding transfer_words transferred
transferred-Left pl [] rest later h = inl refl
transferred-Left pl (w ∷ words) rest {e} {at} later h =
    elim (Bool-cases (pl.alloc (word_size * length (w ∷ words)))) [
      | inl given ↦
          let started : (copy_names pl (w ∷ words) >>= rest) ≡ err e at = ground (arith, given) in
          rw (given) (
            copied_out-Left (w ∷ words) (copy_names pl (w ∷ words)) rest later
              (copy_names-error pl (w ∷ words)) started)
      | inr refused ↦ inl (rw refused refl)
    ]

finish-Left :
    (pl : Platform) (c : Compilation) {e : FrontErr} {at : Option ℕ}
    → finish pl c ≡ err e at
    → Left e (left_by_finish pl c)
unfolding finish left_by_finish
finish-Left pl c h =
    behind-Left (check_control c.control) _ _
      (λ _.
        behind-Left (check_definition c.in_definition) _ _
          (λ _. transferred-Left pl c.dict (λ _. ended pl c) (ended-error pl c)))
      h

pub compile_internal-Left :
    (pl : Platform) (ctx : Option V4FrontContext) (source : Option Bytes) {e : FrontErr}
    {at : Option ℕ}
    → compile_internal pl ctx source ≡ err e at
    → Left e (left_behind pl ctx source)
unfolding compile_internal left_behind
compile_internal-Left pl ctx none h = finish-Left pl initial h
compile_internal-Left pl ctx (some source) h =
    behind-Left (compile_loop pl ctx (length source) source initial) _ _ (λ c. finish-Left pl c) h
