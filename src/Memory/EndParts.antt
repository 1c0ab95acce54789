-- ===== src/Memory/EndParts.antt =====
-- The parts of the end of `compile_internal` of src/compile.cpp, on a heap of blocks, each against its
-- like on values in Compiler/Driver.
use mathlib.Core.Path.{subst}
use v4_front.Base.{
  ℕ, zero, suc, ◌+◌, ◌≤◌, ◌<◌, ◌≡◌, refl, sym, ap, ◌∙◌, Bool-cases, ◌⊎◌, inl, inr, Bool, true,
  false, List, [], ◌∷◌, ◌++◌, Option, none, some, length, length-append, ltb, arith, ◌==◌, ◌^◌,
  if◌then◌else◌,
}
use v4_front.Result.{Result, ok, err, out_of_memory}
use v4_front.Platform.{Platform, Op}
use v4_front.Buffer.{Buf, size, new_cap, append_bytes, append_byte}
use v4_front.Compiler.{WordDefEntry}
use v4_front.Compiler.Driver.{needs_ret, copy_names, append_ret}
use v4_front.Memory.{
  Heap, malloc, ◌>>=◌, WordPointers, names_of, HeldWord, codes_of, free, free_all, Handle,
  cleanup_compile_state, Copied, copied, refused, copy_words, HandedOut, room_for_ret, close_out,
}

-- The same names, in order.
abbrev pub Named : List HeldWord → List WordDefEntry → Type 0
Named [] [] = Unit {0}
Named (v ∷ dict) (w ∷ words) = (v.name ≡ w.name) × Named dict words
Named [] (w ∷ words) = suc zero ≡ zero
Named (v ∷ dict) [] = suc zero ≡ zero

pub malloc-null :
    (pl : Platform) (n : ℕ) (h : Heap) (b : Bool)
    → ((malloc pl n h).0 == 0) ≡ b
    → pl.alloc n ≡ (if b then false else true)
unfolding malloc
malloc-null pl n h true e = ground (arith, e)
malloc-null pl n h false e = ground (arith, e)

-- What the loop over the names gives, against `copy_names`.
abbrev pub CopyAgrees : ℕ → Result (Unit {0}) → Copied → Type 0
CopyAgrees n names (copied entries h) = (names ≡ ok tt) × (length entries ≡ n)
CopyAgrees n names (refused h) = names ≡ err out_of_memory none

pub bind-some :
    {B C : Type 0} (m : Option B) (g : B → C) {r : C}
    → (m >>= λ b. some (g b)) ≡ some r
    → (b : B) × (g b ≡ r)
bind-some (some b) g h = (b, cc)
bind-some none g h = cc

bind-last :
    {A B C : Type 0} (m : Option A) (f : A → Option B) (g : B → C) {r : C}
    → (m >>= λ a. f a >>= λ b. some (g b)) ≡ some r
    → (b : B) × (g b ≡ r)
bind-last (some a) f g h = bind-some (f a) g h
bind-last none f g h = cc

pub copy_words-copy_names :
    (pl : Platform) (bc table : ℕ) (done : List WordPointers) (dict : List HeldWord)
    (words : List WordDefEntry) (h : Heap) {r : Copied}
    → Named dict words
    → copy_words pl bc table done dict h ≡ some r
    → CopyAgrees (length done + length words) (copy_names pl words) r
unfolding copy_words copy_names
copy_words-copy_names pl bc table done [] [] h {r} same e =
    let is : copied done h ≡ r = cc in subst (CopyAgrees _ _) is (refl, omega arith)
copy_words-copy_names pl bc table done [] (w ∷ words) h same e = absurd (omega (arith, same))
copy_words-copy_names pl bc table done (v ∷ dict) [] h same e = absurd (omega (arith, same))
copy_words-copy_names pl bc table done (v ∷ dict) (w ∷ words) h {r} (name, same) e =
    let memory = malloc-null pl (length v.name + 1) h in
    let long : length v.name ≡ length w.name = ap length name in
    let (name_at, h₁) = malloc pl (length v.name + 1) h in
    let word : WordPointers = record {
      name = (malloc pl (length v.name + 1) h).0;
      code = v.code;
    } in
    elim (Bool-cases ((malloc pl (length v.name + 1) h).0 == 0)) [
      | inl null ↦
          let denied : pl.alloc (length w.name + 1) ≡ false =
            ap pl.alloc (omega (arith, long)) ∙ memory true null in
          let step : copy_words pl bc table done (v ∷ dict) h ≡ (
              free_all (names_of done ++ table ∷ []) h₁ >>= λ h₂.
              cleanup_compile_state bc (codes_of (v ∷ dict)) h₂ >>= λ h₃. some (refused h₃)) =
            rw null refl in
          let (h₃, is) =
            bind-last (free_all (names_of done ++ table ∷ []) h₁)
              (λ h₂. cleanup_compile_state bc (codes_of (v ∷ dict)) h₂) refused (sym step ∙ e) in
          subst (CopyAgrees _ _) is (rw denied refl)
      | inr given ↦
          let granted : pl.alloc (length w.name + 1) ≡ true =
            ap pl.alloc (omega (arith, long)) ∙ memory false given in
          let step : copy_words pl bc table done (v ∷ dict) h
              ≡ copy_words pl bc table (done ++ word ∷ []) dict h₁ =
            rw given refl in
          let names : copy_names pl words ≡ copy_names pl (w ∷ words) = rw granted refl in
          let count : length (done ++ word ∷ []) + length words ≡ length done + length (w ∷ words) =
            omega (arith, length-append done (word ∷ [])) in
          subst (λ n. CopyAgrees n (copy_names pl (w ∷ words)) r) count
            (subst (λ m. CopyAgrees (length (done ++ word ∷ []) + length words) m r) names
              (copy_words-copy_names pl bc table (done ++ word ∷ []) dict words h₁ same
                (sym step ∙ e)))
    ]

-- `realloc` for the byte of RET, against `append_ret`.
abbrev RoomAgrees : Platform → Buf → Option ℕ × Heap → Type 0
RoomAgrees pl b (some p, h) =
    (b' : Buf) × (append_ret pl b ≡ ok b')
    × (length b'.bytes ≡ (if needs_ret pl b.bytes then size b + 1 else size b))
RoomAgrees pl b (none, h) = append_ret pl b ≡ err out_of_memory none

room_for_ret-grown :
    (pl : Platform) (b : Buf) (bc : ℕ) (h : Heap)
    → needs_ret pl b.bytes ≡ true
    → ltb (size b) b.cap ≡ false
    → pl.alloc (new_cap b.cap) ≡ true
    → room_for_ret pl b bc h ≡ (
        free bc h >>= λ h₁.
        some (some (malloc pl (new_cap b.cap) h₁).0, (malloc pl (new_cap b.cap) h₁).1))
unfolding room_for_ret needs_ret
room_for_ret-grown pl b bc h needed full given = rw (needed, full, given) refl

room_for_ret-append_ret :
    (pl : Platform) (b : Buf) (bc : ℕ) (h : Heap) {r : Option ℕ × Heap}
    → size b ≤ b.cap
    → b.cap < 2 ^ 31
    → room_for_ret pl b bc h ≡ some r
    → RoomAgrees pl b r
unfolding room_for_ret append_ret append_bytes append_byte needs_ret
room_for_ret-append_ret pl b bc h {r} sized small e = elim (Bool-cases (needs_ret pl b.bytes)) [
  | inr whole ↦
      let step : room_for_ret pl b bc h ≡ some (some bc, h) = rw whole refl in
      let is : (some bc, h) ≡ r = cc in subst (RoomAgrees pl b) is (b, rw whole refl, rw whole refl)
  | inl needed ↦ elim (Bool-cases (ltb (size b) b.cap)) [
    | inl room ↦
        let step : room_for_ret pl b bc h ≡ some (some bc, h) = rw (needed, room) refl in
        let is : (some bc, h) ≡ r = cc in
        subst (RoomAgrees pl b) is (
          record b { bytes = b.bytes ++ pl.op_byte Op.ret ∷ [] },
          rw (needed, room) refl,
          rw needed (length-append b.bytes (pl.op_byte Op.ret ∷ [])),
        )
    | inr full ↦ elim (Bool-cases (pl.alloc (new_cap b.cap))) [
      | inl given ↦
          let (h₁, is) =
            bind-some (free bc h)
              (λ h₁. (some (malloc pl (new_cap b.cap) h₁).0, (malloc pl (new_cap b.cap) h₁).1))
              (sym (room_for_ret-grown pl b bc h needed full given) ∙ e) in
          let larger : ltb (size b) (new_cap b.cap) ≡ true = ground (arith, sized, small, full) in
          subst (RoomAgrees pl b) is (
            record b { bytes = b.bytes ++ pl.op_byte Op.ret ∷ []; cap = new_cap b.cap },
            rw (needed, full, given, larger) refl,
            rw needed (length-append b.bytes (pl.op_byte Op.ret ∷ [])),
          )
      | inr denied ↦
          let step : room_for_ret pl b bc h ≡ some (none, h) = rw (needed, full, denied) refl in
          let is : (none, h) ≡ r = cc in subst (RoomAgrees pl b) is (rw (needed, full, denied) refl)
    ]
  ]
]

-- The end of the code, against `append_ret`.
abbrev pub CloseAgrees : Platform → Buf → Handle → HandedOut → Type 0
CloseAgrees pl b out r =
    ((b' : Buf) × (append_ret pl b ≡ ok b')
      × (r.error ≡ none)
      × (r.out.size ≡ length b'.bytes)
      × (r.out.entries ≡ out.entries))
    ⊎ ((append_ret pl b ≡ err out_of_memory none) × (r.error ≡ some out_of_memory) × (r.out ≡ out))

abbrev pub no_code : Handle → Heap → HandedOut
no_code out h = record { error = some out_of_memory; out = out; heap = h }

pub close_out-append_ret :
    (pl : Platform) (b : Buf) (bc : ℕ) (out : Handle) (h : Heap) {r : HandedOut}
    → size b ≤ b.cap
    → b.cap < 2 ^ 31
    → close_out pl b bc out h ≡ some r
    → CloseAgrees pl b out r
unfolding close_out
close_out-append_ret pl b bc out h {r} sized small e = go (room_for_ret pl b bc h) refl
  where
    go : (m : Option (Option ℕ × Heap)) → room_for_ret pl b bc h ≡ m → CloseAgrees pl b out r
    go none is = let step : close_out pl b bc out h ≡ none = rw is refl in cc
    go (some (some p, h₁)) is =
        let (b', appended, long) = room_for_ret-append_ret pl b bc h sized small is in
        let step : close_out pl b bc out h
            ≡ some (record {
              error = none;
              out = record out {
                data_at = p;
                size = if needs_ret pl b.bytes then size b + 1 else size b;
              };
              heap = h₁;
            }) =
          rw is refl in
        let last : record {
          error = none;
          out = record out {
            data_at = p;
            size = if needs_ret pl b.bytes then size b + 1 else size b;
          };
          heap = h₁;
        }
            ≡ r =
          cc in
        subst (CloseAgrees pl b out) last (inl (b', appended, refl, sym long, refl))
    go (some (none, h₁)) is =
        let refusal = room_for_ret-append_ret pl b bc h sized small is in
        let step : close_out pl b bc out h
            ≡ (cleanup_compile_state bc [] h₁ >>= λ h₂. some (no_code out h₂)) =
          rw is refl in
        let (h₂, last) = bind-some (cleanup_compile_state bc [] h₁) (no_code out) (sym step ∙ e) in
        subst (CloseAgrees pl b out) last (inr (refusal, refl, refl))
