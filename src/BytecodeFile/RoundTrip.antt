-- ===== src/BytecodeFile/RoundTrip.antt =====
-- What is saved can be loaded, and a file that is cut off cannot.
use v4_front.Base.{
  zero, suc, ◌∷◌, ◌+◌, ◌≤◌, ltb→lt, ℤ, pos, negsuc, ℕ, ◌-◌, ◌%◌, ◌^◌, ◌<◌, ◌≡◌, ◌≢◌, refl, sym, ap,
  ◌∙◌, ◌⊎◌, inl, inr, Bool, Bool-cases, true, false, [], ◌++◌, Option, none, some, Bytes, length,
  length-append, take, take-append, take-append-le, take-append-ge, length-take, append-nil, ltb,
  ◌==◌, arith,
}
use v4_front.Buffer.{i32_le, i16_le}
use v4_front.Text.{str_eq}
use v4_front.Compiler.Words.{from_i32_le}
use v4_front.Compiler.Driver.{V4FrontBuf}
use v4_front.BytecodeFile.{
  Device, header_bytes, header_of, header_size, write_file, save_bytecode, header_code_size,
  read_code, read_file, load_bytecode,
}

-- The header in its bytes, and what is read from it behind which anything stands.
header-size :
    (n : ℕ) (rest : Bytes) → header_code_size (header_bytes (header_of n) ++ rest) ≡ n % 2 ^ 32
unfolding header_code_size header_bytes i16_le i32_le from_i32_le
header-size n rest = omega arith

read_file-header :
    (alloc : ℕ → Bool) (n : ℕ) (rest : Bytes)
    → read_file alloc (header_bytes (header_of n) ++ rest) ≡ read_code alloc (n % 2 ^ 32) rest
unfolding read_file header_bytes i16_le i32_le str_eq
read_file-header alloc n rest =
    let long : ltb (length (header_bytes (header_of n) ++ rest)) header_size ≡ false =
      ground arith in
    rw (read_file, long) (ap (λ k. read_code alloc k rest) (header-size n rest))

header-length : (n : ℕ) → length (header_bytes (header_of n)) ≡ 16
unfolding header_bytes i16_le i32_le
header-length n = refl

read_code-whole :
    (alloc : ℕ → Bool) (code : Bytes)
    → alloc (length code) ≡ true
    → read_code alloc (length code) code ≡ (pos 0, some (record { words = []; code = code }))
unfolding read_code
read_code-whole alloc code given =
    let fits : ltb (length code) (length code) ≡ false = ground arith in
    rw (given, fits) (ap (λ l. (pos 0, some (record { words = []; code = l }))) (take_all code))
  where
    take_all : (xs : Bytes) → take (length xs) xs ≡ xs
    take_all xs = ap (take (length xs)) (sym (append-nil xs)) ∙ take-append xs []

read_code_short :
    (alloc : ℕ → Bool) (n : ℕ) (rest : Bytes)
    → length rest < n
    → (read_code alloc n rest ≡ (negsuc 4, none)) ⊎ (read_code alloc n rest ≡ (negsuc 5, none))
unfolding read_code
read_code_short alloc n rest short =
    let over : ltb (length rest) n ≡ true = ground arith in
    elim (Bool-cases (alloc n)) [
      | inl given ↦ inr (rw (given, over) refl)
      | inr refused ↦ inl (rw refused refl)
    ]

-- What `write_file` writes, where the code is shorter than 2 ^ 32 bytes.
abbrev Whole : Bytes → Bytes
Whole code = header_bytes (header_of (length code)) ++ code

-- A front part of a front part, and the whole of it.
take-take : (m n : ℕ) (xs : Bytes) → (k : ℕ) × (k ≤ n) × (take m (take n xs) ≡ take k xs)
take-take zero n xs = (0, omega arith, refl)
take-take (suc m) zero xs = (0, omega arith, refl)
take-take (suc m) (suc n) [] = (0, omega arith, refl)
take-take (suc m) (suc n) (x ∷ xs) =
    let (k, le, is) = take-take m n xs in (suc k, omega (arith, le), ap (λ l. x ∷ l) is)

take_whole : (n : ℕ) (xs : Bytes) → length xs ≤ n → take n xs ≡ xs
take_whole zero [] h = refl
take_whole (suc n) [] h = refl
take_whole zero (x ∷ xs) h = absurd (omega arith)
take_whole (suc n) (x ∷ xs) h = ap (λ l. x ∷ l) (take_whole n xs (omega arith))

-- The outcomes of a call of `save_bytecode` that opens a file: `fwrite` takes all, or a proper front
-- part.
save-cases :
    (dev : Device) (buf : V4FrontBuf) {ret : ℤ} {file : Bytes}
    → save_bytecode dev (some buf) true ≡ (ret, some file)
    → ((ret ≡ pos 0) × (file ≡ take dev.stored (Whole buf.code)))
      ⊎ ((ret ≢ pos 0)
          × (dev.room < length (Whole buf.code))
          × (file ≡ take dev.stored (take dev.room (Whole buf.code))))
unfolding save_bytecode write_file
save-cases dev buf {ret} {file} e =
    let code = buf.code in
    let header = header_bytes (header_of (length code)) in
    let n = header-length (length code) in
    let m = length-append header code in
    elim (Bool-cases (length code == 0)) [
      | inl empty ↦ absurd (ground (arith, empty))
      | inr filled ↦ elim (Bool-cases dev.opens) [
        | inr shut ↦ absurd (ground (arith, filled, shut))
        | inl open_file ↦ elim (Bool-cases (ltb dev.room (length header))) [
          | inl early ↦ inr (
            ground (arith, filled, open_file, early),
            ground (arith, early, n, m),
            (let is : file ≡ take dev.stored (take dev.room header) =
                  ground (arith, filled, open_file, early) in
                is
                ∙ ap (take dev.stored)
                    (sym (take-append-le dev.room header code (ground (arith, early))))),
          )
          | inr later ↦ elim (Bool-cases (ltb (dev.room - length header) (length code))) [
            | inl late ↦ inr (
              ground (arith, filled, open_file, later, late),
              ground (arith, later, late, n, m),
              (let is : file ≡ take dev.stored (header ++ take (dev.room - length header) code) =
                    ground (arith, filled, open_file, later, late) in
                  is
                  ∙ ap (take dev.stored)
                      (sym (take-append-ge dev.room header code (ground (arith, later))))),
            )
            | inr whole ↦ inl (
              ground (arith, filled, open_file, later, whole),
              ground (arith, filled, open_file, later, whole),
            )
          ]
        ]
      ]
    ]

front-refused :
    (alloc : ℕ → Bool) (k : ℕ) (code : Bytes)
    → length code < 2 ^ 32
    → k < length (Whole code)
    → (read_file alloc (take k (Whole code))).1 ≡ none
front-refused alloc k code small cut = elim (Bool-cases (ltb k 16)) [
  | inl early ↦
      let n = length-take k (Whole code) (omega arith) in
      let below : ltb (length (take k (Whole code))) header_size ≡ true =
        ground (arith, early, n) in
      unfold read_file in rw below refl
  | inr late ↦
      let header = header_bytes (header_of (length code)) in
      let n = header-length (length code) in
      let m = length-append header code in
      let part = take-append-ge k header code (ground (arith, late, n)) in
      let rest = take (k - length header) code in
      let r = length-take (k - length header) code (ground (arith, late, n, m, cut)) in
      let short : length rest < length code % 2 ^ 32 = ground (arith, late, n, m, r, cut) in
      ap (λ l. (read_file alloc l).1) part
      ∙ ap (λ a. a.1) (read_file-header alloc (length code) rest)
      ∙ refused (read_code_short alloc (length code % 2 ^ 32) rest short)
]
  where
    refused :
        {r : ℤ × Option V4FrontBuf} → (r ≡ (negsuc 4, none)) ⊎ (r ≡ (negsuc 5, none)) → r.1 ≡ none
    refused (inl e) = ap (λ a. a.1) e
    refused (inr e) = ap (λ a. a.1) e

-- Where saving reports success and memory is given, for code shorter than 2 ^ 32 bytes: loading the
-- file gives the code back, and no words; or `fclose` has not got all bytes into the file, which saving
-- does not notice, and loading puts nothing out.
pub load-save :
    (dev : Device) (buf : V4FrontBuf) (alloc : ℕ → Bool) (file : Bytes)
    → length buf.code < 2 ^ 32
    → alloc (length buf.code) ≡ true
    → save_bytecode dev (some buf) true ≡ (pos 0, some file)
    → (load_bytecode alloc true true (some file)
        ≡ (pos 0, some (record { words = []; code = buf.code })))
      ⊎ ((dev.stored < header_size + length buf.code)
          × ((load_bytecode alloc true true (some file)).1 ≡ none))
unfolding load_bytecode
load-save dev buf alloc file small given e = elim (save-cases dev buf e) [
  | inr (failed, _, _) ↦ absurd (failed refl)
  | inl (done, stored) ↦
      let n = header-length (length buf.code) in
      let m = length-append (header_bytes (header_of (length buf.code))) buf.code in
      elim (Bool-cases (ltb dev.stored (length (Whole buf.code)))) [
        | inl cut ↦ inr (
          ground (arith, cut, n, m),
          ap (λ l. (read_file alloc l).1) stored
              ∙ front-refused alloc dev.stored buf.code small (ltb→lt _ _ cut),
        )
        | inr kept ↦ inl (
            ap (read_file alloc)
              (stored ∙ take_whole dev.stored (Whole buf.code) (ground (arith, kept)))
            ∙ read_file-header alloc (length buf.code) buf.code
            ∙ ap (λ k. read_code alloc k buf.code) (omega arith)
            ∙ read_code-whole alloc buf.code given)
      ]
]

-- Where saving opens the file and reports failure, for code shorter than 2 ^ 32 bytes, the file that
-- it leaves cannot be loaded: nothing is put out.
pub load-save_failed :
    (dev : Device) (buf : V4FrontBuf) (alloc : ℕ → Bool) (ret : ℤ) (file : Bytes)
    → length buf.code < 2 ^ 32
    → ret ≢ pos 0
    → save_bytecode dev (some buf) true ≡ (ret, some file)
    → (load_bytecode alloc true true (some file)).1 ≡ none
unfolding load_bytecode
load-save_failed dev buf alloc ret file small failed e = elim (save-cases dev buf e) [
  | inl (done, _) ↦ absurd (failed done)
  | inr (_, cut, part) ↦
      let (k, le, is) = take-take dev.stored dev.room (Whole buf.code) in
      ap (λ l. (read_file alloc l).1) (part ∙ is)
      ∙ front-refused alloc k buf.code small (omega (arith, le, cut))
]
