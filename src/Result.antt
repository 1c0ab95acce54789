-- ===== src/Result.antt =====
-- The outcome of the compiler's steps: `FrontErr` of include/v4front/errors.def, the position that
-- goes with an error, and the monad in which the handlers of src/compile.cpp are written.
use v4_front.Base.{ℕ, ◌≡◌, ap, ◌∙◌, refl, Bool, true, false, Option, some}

-- The codes of errors.def. `ok` of that table is the result without an error.
pub data FrontErr : Type 0 where
  unknown_token invalid_integer out_of_memory buffer_too_small empty_input : FrontErr
  control_depth_exceeded else_without_if duplicate_else then_without_if unclosed_if : FrontErr
  until_without_begin unclosed_begin while_without_begin duplicate_while : FrontErr
  repeat_without_begin repeat_without_while until_after_while again_without_begin : FrontErr
  again_after_while loop_without_do ploop_without_do unclosed_do leave_without_do : FrontErr
  leave_depth_exceeded colon_without_name semicolon_without_colon unclosed_colon : FrontErr
  duplicate_word dictionary_full nested_colon missing_sys_id invalid_sys_id : FrontErr
  missing_local_idx invalid_local_idx recurse_outside_word unterminated_comment : FrontErr
  constant_without_value constant_without_name variable_without_name : FrontErr
  data_space_exhausted : FrontErr

-- `err e (some r)` is an error with `*error_pos` at the place that has `r` bytes of the source
-- behind it, `err e none` one that leaves `*error_pos` alone. `undefined` is a memory access
-- outside an allocated buffer, for which C++ gives no meaning. `no_fuel` is the model's own: the
-- bound on the rounds of a loop is used up.
pub data Result {ℓ} (A : Type ℓ) : Type ℓ where
  ok : A → Result A
  err : FrontErr → Option ℕ → Result A
  undefined : Result A
  no_fuel : Result A

infixl 5 ◌>>=◌
abbrev pub ◌>>=◌ {ℓ κ} : {A : Type ℓ} {B : Type κ} → Result A → (A → Result B) → Result B
ok a >>= f = f a
err e at >>= f = err e at
undefined >>= f = undefined
no_fuel >>= f = no_fuel

-- `*error_pos = at; return e` unless the test holds.
abbrev pub require {ℓ} : {A : Type ℓ} → Bool → FrontErr → ℕ → Result A → Result A
require true e at r = r
require false e at r = err e (some at)

module _ {ℓ κ} {A : Type ℓ} {B : Type κ} (first : Result A) (next : A → Result B) where
  -- The inversion of a successful bind.
  pub >>=-eq-ok : {y : B} → (first >>= next) ≡ ok y → (x : A) × (first ≡ ok x) × (next x ≡ ok y)
  >>=-eq-ok e = go first refl e
    where
      go :
          (r : Result A)
          → first ≡ r
          → {y : B} → (r >>= next) ≡ ok y
          → (x : A) × (first ≡ ok x) × (next x ≡ ok y)
      go (ok x) is e = (x, is, e)
      go (err _ _) is e = cc
      go undefined is e = cc
      go no_fuel is e = cc

-- A step that succeeds hands its value on.
pub bind-ok {ℓ κ} :
    {A : Type ℓ} {B : Type κ} {m : Result A} {a : A} (f : A → Result B) {r : Result B}
    → m ≡ ok a
    → f a ≡ r
    → (m >>= f) ≡ r
bind-ok f done later = ap (λ m. m >>= f) done ∙ later
