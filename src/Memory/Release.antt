-- ===== src/Memory/Release.antt =====
-- `v4front_free` of src/compile.cpp frees what a buffer owns, and nothing else.
use v4_front.Base.{
  ℕ, zero, suc, ◌+◌, ◌≡◌, refl, ◌∙◌, ap, sym, List, [], ◌∷◌, ◌++◌, append_assoc, some,
}
use v4_front.Memory.{
  Heap, free, WordPointers, Handle, no_handle, pointers, free_words, free_data, v4front_free,
}
use v4_front.Memory.Owned.{Owns, Owns-cong, count, count-null, free-Owns, free_all-Owns}

-- A null pointer has nothing behind it.
pub record IsHandle (b : Handle) : Type 0 where
  pub no_words : b.words ≡ 0 → b.entries ≡ []
  pub no_data : b.data_at ≡ 0 → b.size ≡ 0

-- The blocks that a buffer leads to.
abbrev pub blocks : Handle → List ℕ
blocks b = pointers b.entries ++ b.words ∷ b.data_at ∷ []

abbrev handle : ℕ → ℕ → ℕ → List WordPointers → Handle
handle data_at size words entries = record {
  data_at = data_at;
  size = size;
  words = words;
  entries = entries;
}

free_words-Owns :
    (words data_at size : ℕ) (entries : List WordPointers) {h : Heap} {rest : List ℕ}
    → (words ≡ 0 → entries ≡ [])
    → Owns h (blocks (handle data_at size words entries)) rest
    → (h' : Heap) × (free_words words (handle data_at size words entries) h
        ≡ some (handle data_at size 0 [], h'))
      × Owns h' (data_at ∷ []) rest
unfolding free_words count
free_words-Owns zero data_at size entries {h} {rest} no_words o =
    let empty = no_words refl in
    (
      h,
      ap (λ es. some (handle data_at size 0 es, h)) empty,
      Owns-cong o λ q.
          ap (λ es. count (suc q) (pointers es ++ 0 ∷ data_at ∷ []) + count (suc q) rest) empty
          ∙ ap (λ n. n + count (suc q) rest) (count-null q (data_at ∷ [])),
    )
free_words-Owns (suc p) data_at size entries {h} {rest} no_words o =
    let split = append_assoc (pointers entries) (suc p ∷ []) (data_at ∷ []) in
    let (h', done, o') =
      free_all-Owns (pointers entries ++ suc p ∷ [])
        (Owns-cong o λ q. ap (λ ps. count (suc q) ps + count (suc q) rest) (sym split)) in
    (h', rw done refl, o')

free_data-Owns :
    (data_at size : ℕ) {h : Heap} {rest : List ℕ}
    → (data_at ≡ 0 → size ≡ 0)
    → Owns h (data_at ∷ []) rest
    → (h' : Heap) × (free_data data_at (handle data_at size 0 []) h ≡ some (no_handle, h'))
      × Owns h' [] rest
unfolding free_data free count
free_data-Owns zero size {h} {rest} no_data o = (
  h,
  ap (λ n. some (handle 0 n 0 [], h)) (no_data refl),
  Owns-cong o λ q. ap (λ n. n + count (suc q) rest) (count-null q []),
)
free_data-Owns (suc p) size no_data o =
    let (h', done, o') = free-Owns (suc p) o in (h', rw done refl, o')

-- `v4front_free` is defined on a buffer whose blocks are allocated; it frees each of them once and
-- no other block, and leaves the empty buffer.
pub v4front_free-Owns :
    (b : Handle) (h : Heap) (rest : List ℕ)
    → IsHandle b
    → Owns h (blocks b) rest
    → (h' : Heap) × (v4front_free b h ≡ some (no_handle, h')) × Owns h' [] rest
unfolding v4front_free
v4front_free-Owns b h rest v o =
    let (h₁, done₁, o₁) = free_words-Owns b.words b.data_at b.size b.entries v.no_words o in
    let (h', done', o') = free_data-Owns b.data_at b.size v.no_data o₁ in
    (h', rw (done₁, done') refl, o')
