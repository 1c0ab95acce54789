-- ===== src/Base/Digits.antt =====
-- Numbers written in digits, as `%d` and the streams print them.
use Prim.Native.Nat.{ℕ, zero, suc, ◌+◌, ◌-◌, ◌/◌, ◌%◌}
use mathlib.Core.List.{List, [], ◌∷◌}
use v4_front.Base.Tests.{ltb, if◌then◌else◌}

-- `0` to `9`, then `a` to `f`
abbrev pub digit : ℕ → ℕ
digit d = if ltb d 10 then b'0' + d else b'a' + d - 10

-- The digits in front of `acc`, the least one last. Each round divides by the base, so `suc n` rounds
-- are enough for `n`.
unfoldable pub digits_in : ℕ → ℕ → ℕ → List ℕ → List ℕ
digits_in base zero n acc = acc
digits_in base (suc fuel) n acc =
    let more = digits_in base fuel (n / base) (digit (n % base) ∷ acc) in
    if ltb n base then digit n ∷ acc else more

unfoldable pub decimal : ℕ → List ℕ
unfolding digits_in
decimal n = digits_in 10 (suc n) n []

unfoldable pub hexadecimal : ℕ → List ℕ
unfolding digits_in
hexadecimal n = digits_in 16 (suc n) n []
