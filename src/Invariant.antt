-- ===== src/Invariant.antt =====
-- What every outcome of the compiler satisfies: the predicates, and the rules for `do`.
pub mod Buffers
pub mod Text
pub mod Branch
pub mod Counted
pub mod Words
pub mod Constants
pub mod Rounds
pub mod Whole
use v4_front.Base.{
  ℕ, ◌+◌, ◌*◌, ◌≤◌, ◌<◌, ◌≡◌, refl, Bool, true, false, Option, none, some, List, [], ◌∷◌, ◌++◌,
  Bytes, length, All, if◌then◌else◌, arith, ◌⊎◌, inl, inr,
}
use v4_front.Result.{
  FrontErr, Result, ok, err, undefined, no_fuel, ◌>>=◌, require, invalid_integer, buffer_too_small,
  empty_input, missing_sys_id, invalid_sys_id, data_space_exhausted,
}
use v4_front.Platform.{Platform, Op}
use v4_front.Buffer.{Buf, size}
use v4_front.Buffer.Append.{IsSized}
use v4_front.DataSpace.{DataSpace, data_space_base, data_space_size}
use v4_front.Compiler.{
  ControlFrame, if_control, begin_control, do_control, WordDefEntry, Compilation, Gen,
}

-- The errors that the compiler raises; the other six codes of the table are never returned.
abbrev pub IsRaised : FrontErr → Type 0
IsRaised invalid_integer = ⊥
IsRaised buffer_too_small = ⊥
IsRaised empty_input = ⊥
IsRaised missing_sys_id = ⊥
IsRaised invalid_sys_id = ⊥
IsRaised data_space_exhausted = ⊥
IsRaised _ = Unit

-- A position, counted from the end of a text of `n` bytes, lies in the text or at its end.
abbrev pub IsWithin : ℕ → Option ℕ → Type 0
IsWithin n none = Unit
IsWithin n (some r) = r ≤ n

-- The outcome has used no more than its fuel; a value satisfies `P`, and an error is one that is
-- raised, at a position in the text.
pub data Post (n : ℕ) {A : Type 0} (P : A → Type 0) : Result A → Type 0 where
  returns : {a : A} → P a → Post n P (ok a)
  raises : {e : FrontErr} {at : Option ℕ} → IsRaised e → IsWithin n at → Post n P (err e at)
  faults : Post n P undefined

pub Post-bind :
    {n : ℕ} {A B : Type 0} {P : A → Type 0} {Q : B → Type 0} {m : Result A} {f : A → Result B}
    → Post n P m
    → ((a : A) → P a → Post n Q (f a))
    → Post n Q (m >>= f)
Post-bind (returns h) k = k _ h
Post-bind (raises r w) k = raises r w
Post-bind faults k = faults

pub Post-map :
    {n : ℕ} {A : Type 0} {P Q : A → Type 0} {m : Result A}
    → Post n P m
    → ((a : A) → P a → Q a)
    → Post n Q m
Post-map (returns h) k = returns (k _ h)
Post-map (raises r w) k = raises r w
Post-map faults k = faults

pub Post-require :
    {n : ℕ} {A : Type 0} {P : A → Type 0} (b : Bool) (e : FrontErr) {at : ℕ} {r : Result A}
    → IsRaised e
    → at ≤ n
    → (b ≡ true → Post n P r)
    → Post n P (require b e at r)
Post-require true e raised within k = k refl
Post-require false e raised within k = raises raised within

pub Post-if :
    {n : ℕ} {A : Type 0} {P : A → Type 0} (b : Bool) {x y : Result A}
    → (b ≡ true → Post n P x)
    → (b ≡ false → Post n P y)
    → Post n P (if b then x else y)
Post-if true h k = h refl
Post-if false h k = k refl

-- The value, with the equation that it comes from.
pub Post-eq :
    {n : ℕ} {A : Type 0} {P : A → Type 0} {m : Result A}
    → Post n P m
    → Post n (λ a. P a × (m ≡ ok a)) m
Post-eq (returns h) = returns (h, refl)
Post-eq (raises r w) = raises r w
Post-eq faults = faults

pub Post-ok : {n : ℕ} {A : Type 0} {P : A → Type 0} {a : A} → Post n P (ok a) → P a
Post-ok (returns h) = h

pub Post-err :
    {n : ℕ} {A : Type 0} {P : A → Type 0} {e : FrontErr} {at : Option ℕ}
    → Post n P (err e at)
    → IsRaised e × IsWithin n at
Post-err (raises r w) = (r, w)

pub Post-no_fuel :
    {n : ℕ} {A : Type 0} {P : A → Type 0} {r : Result A} → Post n P r → r ≡ no_fuel → ⊥
Post-no_fuel (returns h) e = cc
Post-no_fuel (raises r w) e = cc
Post-no_fuel faults e = cc

abbrev pub IsByte : ℕ → Type 0
IsByte x = x < 256

abbrev pub BufInv : Buf → Type 0
BufInv b = IsSized b × All IsByte b.bytes

-- `leave_count <= MAX_LEAVE_DEPTH`
abbrev pub FrameInv : ControlFrame → Type 0
FrameInv (if_control _ _) = Unit
FrameInv (begin_control _ _) = Unit
FrameInv (do_control _ leaves) = length leaves ≤ 8

abbrev pub ControlInv : List ControlFrame → Type 0
ControlInv control = (length control ≤ 32) × All FrameInv control

pub record GenInv (g : Gen) : Type 0 where
  pub buffer : BufInv g.current
  pub control : ControlInv g.control

-- A word's name fits its array with the NUL, and its code is bytes, the last of them RET.
pub record WordInv (pl : Platform) (w : WordDefEntry) : Type 0 where
  pub name_fits : length w.name < 64
  pub code_bytes : All IsByte w.code
  pub code_ends : (xs : Bytes) × (w.code ≡ xs ++ pl.op_byte Op.ret ∷ [])

-- Four bytes of the data space for each word at most.
pub record SpaceInv (s : DataSpace) (words : ℕ) : Type 0 where
  pub base_is : s.base ≡ data_space_base
  pub limit_is : s.limit ≡ data_space_base + data_space_size
  pub here_fits : s.here ≤ data_space_base + 4 * words

pub record Inv (pl : Platform) (c : Compilation) : Type 0 where
  pub main : BufInv c.main
  pub word : BufInv c.word
  pub control : ControlInv c.control
  pub name : length c.current_word_name < 64
  pub dict_fits : length c.dict ≤ 256
  pub dict : All (WordInv pl) c.dict
  pub space : SpaceInv c.data_space (length c.dict)
