-- ===== src/Memory/Transfer.antt =====
-- The end of `compile_internal` of src/compile.cpp: whatever request is refused, no block is freed
-- that is not allocated, and where it succeeds every block belongs to `*out_buf`.
use v4_front.Base.{
  ℕ, zero, suc, ◌+◌, ◌*◌, ◌≤◌, ◌<◌, ◌≡◌, refl, Bool-cases, inl, inr, false, List, [], ◌∷◌, ◌++◌,
  Option, none, some, length, ltb, arith, ◌==◌, if◌then◌else◌,
}
use v4_front.Result.{out_of_memory}
use v4_front.Platform.{Platform}
use v4_front.Buffer.{Buf, size, new_cap}
use v4_front.Compiler.Driver.{needs_ret, word_size}
use v4_front.Memory.{
  Heap, malloc, WordPointers, no_handle, pointers, names_of, HeldWord, codes_of,
  cleanup_compile_state, Copied, copied, refused, copy_words, HandedOut, room_for_ret, close_out,
  after_copy, hand_out,
}
use v4_front.Memory.Owned.{
  Owns, Owns-cong, count, counts, hits, hits-null, free-Owns, free_all-Owns, malloc-Owns,
  malloc-pos,
}
use v4_front.Memory.Release.{IsHandle, blocks}

-- A successful end gives a buffer that owns all blocks but those of `rest`.
abbrev pub Delivers : List ℕ → HandedOut → Type 0
Delivers rest r = r.error ≡ none → IsHandle r.out × Owns r.heap (blocks r.out) rest

-- The codes of the words that have been moved.
abbrev moved : List WordPointers → List ℕ
moved [] = []
moved (w ∷ entries) = w.code ∷ moved entries

count-pointers :
    (q : ℕ) (entries : List WordPointers)
    → count q (pointers entries) ≡ count q (names_of entries) + count q (moved entries)
count-pointers q [] = simp counts (omega arith)
count-pointers q (w ∷ entries) = simp counts (omega (arith, count-pointers q entries))

count-one_more :
    (q : ℕ) (entries : List WordPointers) (w : WordPointers)
    → count q (pointers (entries ++ w ∷ []))
      ≡ count q (pointers entries) + (hits q w.name + hits q w.code)
count-one_more q [] w = simp counts (omega arith)
count-one_more q (x ∷ entries) w = simp counts (omega (arith, count-one_more q entries w))

module _ (pl : Platform) (rest : List ℕ) where
  -- The loop: it is defined; where it comes to the end of the words,
  -- the array and the names are new, and the codes have changed their owner.
  abbrev Copies : ℕ → ℕ → Copied → Type 0
  Copies bc table (copied entries h) = Owns h (bc ∷ table ∷ pointers entries) rest
  Copies bc table (refused h) = (entries : List WordPointers) × Owns h [] (moved entries ++ rest)

  copy_words-Copies :
      (bc table : ℕ) (done : List WordPointers) (dict : List HeldWord) (h : Heap)
      → Owns h (bc ∷ table ∷ pointers done ++ codes_of dict) rest
      → (r : Copied) × (copy_words pl bc table done dict h ≡ some r) × Copies bc table r
  unfolding copy_words cleanup_compile_state
  copy_words-Copies bc table done [] h o =
      (copied done h, refl, Owns-cong o λ q. simp counts (omega arith))
  copy_words-Copies bc table done (w ∷ dict) h o =
      let o₁ = malloc-Owns pl (length w.name + 1) o in
      elim (Bool-cases ((malloc pl (length w.name + 1) h).0 == 0)) [
        | inl null ↦
            let (h₂, freed, o₂) =
              free_all-Owns (names_of done ++ table ∷ []) {qs = bc ∷ codes_of (w ∷ dict)}
                {rest = moved done ++ rest}
                (Owns-cong o₁ λ q.
                  simp counts (omega (arith, hits-null q _ null, count-pointers (suc q) done))) in
            let (h₃, cleaned, o₃) =
              free_all-Owns (bc ∷ codes_of (w ∷ dict)) {qs = []} {rest = moved done ++ rest}
                (Owns-cong o₂ λ q. simp counts (omega arith)) in
            (refused h₃, rw (null, freed, cleaned) refl, (done, o₃))
        | inr given ↦
            let word : WordPointers = record {
              name = (malloc pl (length w.name + 1) h).0;
              code = w.code;
            } in
            let (r, copies, c) =
              copy_words-Copies bc table (done ++ word ∷ []) dict _
                (Owns-cong o₁ λ q. simp counts (omega (arith, count-one_more (suc q) done word))) in
            (r, rw given copies, c)
      ]

  -- The buffer behind the code is null only where it has no room.
  abbrev Holds : ℕ → Buf → Type 0
  Holds bc b = (bc ≡ 0 → b.cap ≡ 0) × (size b ≤ b.cap)

  whole_length : (b : Buf) → needs_ret pl b.bytes ≡ false → 3 ≤ size b
  unfolding needs_ret
  whole_length b whole = ground (arith, whole)

  bc-pos : (bc : ℕ) (b : Buf) → (bc ≡ 0 → b.cap ≡ 0) → 0 < b.cap → 0 < bc
  bc-pos zero b null some_room = absurd (omega (arith, null refl))
  bc-pos (suc bc) b null some_room = omega arith

  abbrev HasRoom : ℕ → List ℕ → Option ℕ × Heap → Type 0
  HasRoom bc ps (some p, h) = (0 < p) × Owns h (p ∷ ps) rest
  HasRoom bc ps (none, h) = Owns h (bc ∷ ps) rest

  room_for_ret-HasRoom :
      (b : Buf) (bc : ℕ) (ps : List ℕ) (h : Heap)
      → Holds bc b
      → Owns h (bc ∷ ps) rest
      → (r : Option ℕ × Heap) × (room_for_ret pl b bc h ≡ some r) × HasRoom bc ps r
  unfolding room_for_ret needs_ret
  room_for_ret-HasRoom b bc ps h (null, sized) o = elim (Bool-cases (needs_ret pl b.bytes)) [
    | inr whole ↦ (
      (some bc, h),
      rw whole refl,
      (bc-pos bc b null (omega (arith, whole_length b whole, sized)), o),
    )
    | inl needed ↦ elim (Bool-cases (ltb (size b) b.cap)) [
      | inl room ↦
          ((some bc, h), rw (needed, room) refl, (bc-pos bc b null (ground (arith, room)), o))
      | inr full ↦ elim (Bool-cases (pl.alloc (new_cap b.cap))) [
        | inl given ↦
            let (h₁, freed, o₁) = free-Owns bc o in
            (
              (some (malloc pl (new_cap b.cap) h₁).0, (malloc pl (new_cap b.cap) h₁).1),
              rw (needed, full, given, freed) refl,
              (malloc-pos pl (new_cap b.cap) h₁ given, malloc-Owns pl (new_cap b.cap) o₁),
            )
        | inr denied ↦ ((none, h), rw (needed, full, denied) refl, o)
      ]
    ]
  ]

  close_out-Delivers :
      (b : Buf) (bc table : ℕ) (entries : List WordPointers) (h : Heap)
      → Holds bc b
      → (table ≡ 0 → entries ≡ [])
      → Owns h (bc ∷ table ∷ pointers entries) rest
      → (r : HandedOut) × (close_out pl b bc
            (record no_handle { words = table; entries = entries })
            h
          ≡ some r)
        × Delivers rest r
  unfolding close_out cleanup_compile_state
  close_out-Delivers b bc table entries h holds none_left o =
      go (room_for_ret-HasRoom b bc (table ∷ pointers entries) h holds o)
    where
      Goal : Type 0
      Goal =
          (r : HandedOut) × (close_out pl b bc
              (record no_handle { words = table; entries = entries }) h
            ≡ some r)
          × Delivers rest r

      go :
          ((r : Option ℕ × Heap) × (room_for_ret pl b bc h ≡ some r)
            × HasRoom bc (table ∷ pointers entries) r)
          → Goal
      go ((some p, h₁), done, (positive, o₁)) = (
        record {
          error = none;
          out = record {
            data_at = p;
            size = if needs_ret pl b.bytes then size b + 1 else size b;
            words = table;
            entries = entries;
          };
          heap = h₁;
        },
        rw done refl,
        λ _. (
          record { no_words = none_left; no_data = λ e. absurd (omega (arith, positive, e)) },
          Owns-cong o₁ λ q. simp counts (omega arith),
        ),
      )
      go ((none, h₁), done, o₁) =
          let (h₂, cleaned, _) = free_all-Owns (bc ∷ []) o₁ in
          (
            record {
              error = some out_of_memory;
              out = record no_handle { words = table; entries = entries };
              heap = h₂;
            },
            rw (done, cleaned) refl,
            λ e. cc,
          )

  after_copy-Delivers :
      (b : Buf) (bc table : ℕ) (r : Copied)
      → Holds bc b
      → 0 < table
      → Copies bc table r
      → (r' : HandedOut) × (after_copy pl b bc table (some r) ≡ some r') × Delivers rest r'
  after_copy-Delivers b bc table (copied entries h) holds given o =
      close_out-Delivers b bc table entries h holds (λ e. absurd (omega (arith, e))) o
  after_copy-Delivers b bc table (refused h) holds given o = (_, refl, λ e. cc)

-- From the transfer of the words on, where the heap holds the main code, the codes of the words and
-- the blocks of `rest`, and the main code's block is null only where it has no room: whatever
-- requests are refused, no block is freed that is not allocated, and where `compile_internal`
-- succeeds all blocks but those of `rest` belong to `*out_buf`.
pub hand_out-Delivers :
    (pl : Platform) (b : Buf) (bc : ℕ) (dict : List HeldWord) (h : Heap) (rest : List ℕ)
    → (bc ≡ 0 → b.cap ≡ 0)
    → size b ≤ b.cap
    → Owns h (bc ∷ codes_of dict) rest
    → (r : HandedOut) × (hand_out pl b bc dict h ≡ some r) × Delivers rest r
unfolding hand_out cleanup_compile_state
hand_out-Delivers pl b bc [] h rest null sized o =
    close_out-Delivers pl rest b bc 0 [] h (null, sized) (λ _. refl)
      (Owns-cong o λ q. simp counts (omega (arith, hits-null q 0 refl)))
hand_out-Delivers pl b bc (w ∷ dict) h rest null sized o =
    let n = word_size * length (w ∷ dict) in
    let o₁ = malloc-Owns pl n o in
    elim (Bool-cases ((malloc pl n h).0 == 0)) [
      | inl none_given ↦
          let (h₂, cleaned, _) =
            free_all-Owns (bc ∷ codes_of (w ∷ dict)) {qs = []} {rest = rest}
              (Owns-cong o₁ λ q. simp counts (omega (arith, hits-null q _ none_given))) in
          (
            record { error = some out_of_memory; out = no_handle; heap = h₂ },
            rw (none_given, cleaned) refl,
            λ e. cc,
          )
      | inr given ↦
          let (r, copies, c) =
            copy_words-Copies pl rest bc (malloc pl n h).0 [] (w ∷ dict) (malloc pl n h).1
              (Owns-cong o₁ λ q. simp counts (omega arith)) in
          let (r', done, delivers) =
            after_copy-Delivers pl rest b bc (malloc pl n h).0 r (null, sized)
              (ground (arith, given)) c in
          (r', rw (given, copies) done, delivers)
    ]
