-- ===== src/Memory.antt =====
-- Who owns which block of memory at the end of `compile_internal` in src/compile.cpp, in
-- `v4front_free`, and in `BytecodeBuffer` of include/v4front/compile.hpp.
pub mod Owned
pub mod Release
pub mod Transfer
pub mod EndParts
pub mod Agreement
pub mod Wrapper
use v4_front.Base.{
  ℕ, zero, suc, ◌+◌, ◌*◌, Bool, List, [], ◌∷◌, ◌++◌, Option, none, some, Bytes, map, length, ltb,
  ◌==◌, if◌then◌else◌,
}
use v4_front.Result.{FrontErr, out_of_memory}
use v4_front.Platform.{Platform}
use v4_front.Buffer.{Buf, size, new_cap}
use v4_front.Compiler.Driver.{needs_ret, word_size}

-- The blocks that are allocated, and the address of the next one. A null pointer is 0. No address
-- is given out twice.
pub record Heap : Type 0 where
  pub live : List ℕ
  pub next : ℕ

-- What a step leaves; `none` where it frees a block that is not allocated, which C++ gives no
-- meaning.
infixl 5 ◌>>=◌
abbrev pub ◌>>=◌ {ℓ} : {A B : Type ℓ} → Option A → (A → Option B) → Option B
none >>= f = none
some a >>= f = f a

unfoldable pub remove : ℕ → List ℕ → Option (List ℕ)
remove p [] = none
remove p (q ∷ live) =
    let rest = remove p live in
    if p == q then some live else elim rest [ none ↦ none | some l ↦ some (q ∷ l) ]

abbrev with_live : Heap → Option (List ℕ) → Option Heap
with_live h none = none
with_live h (some live) = some (record h { live = live })

-- `free`; of a null pointer it does nothing.
unfoldable pub free : ℕ → Heap → Option Heap
unfolding remove
free zero h = some h
free (suc p) h = with_live h (remove (suc p) h.live)

-- `free` of each, in order.
unfoldable pub free_all : List ℕ → Heap → Option Heap
unfolding free
free_all [] h = some h
free_all (p ∷ ps) h = free p h >>= free_all ps

-- `malloc`, or `portable_strdup` of so many bytes with the NUL.
unfoldable pub malloc : Platform → ℕ → Heap → ℕ × Heap
malloc pl n h =
    if pl.alloc n
    then (suc h.next, record { live = suc h.next ∷ h.live; next = suc h.next })
    else (0, h)

-- The pointers of a `V4FrontWord`.
pub record WordPointers : Type 0 where
  pub name : ℕ
  pub code : ℕ

-- The pointers of a `V4FrontBuf`, and its size; `entries` is what `words` leads to below
-- `word_count`.
pub record Handle : Type 0 where
  pub data_at : ℕ
  pub size : ℕ
  pub words : ℕ
  pub entries : List WordPointers

-- `{nullptr, 0, nullptr, 0}`
abbrev pub no_handle : Handle
no_handle = record { data_at = 0; size = 0; words = 0; entries = [] }

abbrev pub pointers : List WordPointers → List ℕ
pointers [] = []
pointers (w ∷ entries) = w.name ∷ w.code ∷ pointers entries

-- `if (buf->words)`, `if (buf->data)`: what is set to null behind the `free`.
unfoldable pub free_words : ℕ → Handle → Heap → Option (Handle × Heap)
unfolding free_all
free_words zero b h = some (b, h)
free_words (suc p) b h = do
  h₁ ← free_all (pointers b.entries ++ suc p ∷ []) h
  some (record b { words = 0; entries = [] }, h₁)

unfoldable pub free_data : ℕ → Handle → Heap → Option (Handle × Heap)
unfolding free
free_data zero b h = some (b, h)
free_data (suc p) b h = do h₁ ← free (suc p) h; some (record b { data_at = 0; size = 0 }, h₁)

-- For a buffer that is not null.
unfoldable pub v4front_free : Handle → Heap → Option (Handle × Heap)
unfolding free_words free_data
v4front_free b h = do (b₁, h₁) ← free_words b.words b h; free_data b₁.data_at b₁ h₁

-- The pointers of a `V4FrontContext` that `self` leads to.
pub record ContextHandle : Type 0 where
  pub self : ℕ
  pub words : ℕ
  pub names : List ℕ

-- For a context that is not null.
unfoldable pub v4front_context_destroy : ContextHandle → Heap → Option Heap
unfolding free_all
v4front_context_destroy ctx = free_all (ctx.names ++ ctx.words ∷ ctx.self ∷ [])

-- A word of `word_dict`: its name, and where its code is.
pub record HeldWord : Type 0 where
  pub name : Bytes
  pub code : ℕ

abbrev pub codes_of : List HeldWord → List ℕ
codes_of [] = []
codes_of (w ∷ dict) = w.code ∷ codes_of dict

-- With no definition open `word_bc` is null.
unfoldable pub cleanup_compile_state : ℕ → List ℕ → Heap → Option Heap
unfolding free_all
cleanup_compile_state bc codes = free_all (bc ∷ codes)

abbrev pub names_of : List WordPointers → List ℕ
names_of [] = []
names_of (w ∷ entries) = w.name ∷ names_of entries

pub data Copied : Type 0 where
  copied : List WordPointers → Heap → Copied
  refused : Heap → Copied

-- The loop over `word_dict`. Where a name is refused, the names so far and the array are freed, and
-- then the codes that have not been moved.
unfoldable pub copy_words :
    Platform → ℕ → ℕ → List WordPointers → List HeldWord → Heap → Option Copied
unfolding malloc free_all cleanup_compile_state
copy_words pl bc table done [] h = some (copied done h)
copy_words pl bc table done (w ∷ dict) h =
    let (name, h₁) = malloc pl (length w.name + 1) h in
    let rest =
      copy_words pl bc table (done ++ record { name = name; code = w.code } ∷ []) dict h₁ in
    if name == 0
    then (do
      h₂ ← free_all (names_of done ++ table ∷ []) h₁
      h₃ ← cleanup_compile_state bc (codes_of (w ∷ dict)) h₂
      some (refused h₃))
    else rest

-- What the caller has: the error if there is one, `*out_buf`, and the heap.
pub record HandedOut : Type 0 where
  pub error : Option FrontErr
  pub out : Handle
  pub heap : Heap

-- `realloc` of the code for the byte of RET, if it is due and has no room.
unfoldable pub room_for_ret : Platform → Buf → ℕ → Heap → Option (Option ℕ × Heap)
unfolding malloc free needs_ret
room_for_ret pl b bc h =
    if needs_ret pl b.bytes
    then (if ltb (size b) b.cap
        then some (some bc, h)
        else if pl.alloc (new_cap b.cap)
        then (do h₁ ← free bc h; let (p, h₂) = malloc pl (new_cap b.cap) h₁; some (some p, h₂))
        else some (none, h))
    else some (some bc, h)

-- The end of `compile_internal`, once the words are in `*out_buf`.
unfoldable pub close_out : Platform → Buf → ℕ → Handle → Heap → Option HandedOut
unfolding room_for_ret cleanup_compile_state
close_out pl b bc out h = do
  (room, h₁) ← room_for_ret pl b bc h
  elim room [
    | some p ↦ some (record {
      error = none;
      out = record out { data_at = p; size = if needs_ret pl b.bytes then size b + 1 else size b };
      heap = h₁;
    })
    | none ↦ do
      h₂ ← cleanup_compile_state bc [] h₁
      some (record { error = some out_of_memory; out = out; heap = h₂ })
  ]

abbrev pub after_copy : Platform → Buf → ℕ → ℕ → Option Copied → Option HandedOut
after_copy pl b bc table none = none
after_copy pl b bc table (some (copied entries h)) =
    close_out pl b bc (record no_handle { words = table; entries = entries }) h
after_copy pl b bc table (some (refused h)) =
    some (record { error = some out_of_memory; out = record no_handle { words = table }; heap = h })

-- From the transfer of `word_dict` on. `bc` is where the main code is, with the contents `b`.
unfoldable pub hand_out : Platform → Buf → ℕ → List HeldWord → Heap → Option HandedOut
unfolding malloc copy_words close_out cleanup_compile_state
hand_out pl b bc [] h = close_out pl b bc no_handle h
hand_out pl b bc (w ∷ dict) h =
    let (table, h₁) = malloc pl (word_size * length (w ∷ dict)) h in
    let words = after_copy pl b bc table (copy_words pl bc table [] (w ∷ dict) h₁) in
    if table == 0
    then (do
      h₂ ← cleanup_compile_state bc (codes_of (w ∷ dict)) h₁
      some (record { error = some out_of_memory; out = no_handle; heap = h₂ }))
    else words
