-- ===== src/Text/Integer.antt =====
-- `strtol` with base 0, as `try_parse_int` of src/compile.cpp calls it, on a 64-bit `long`.
pub mod Bounds
use v4_front.Base.{
  ℕ, ◌+◌, ◌-◌, ◌*◌, ◌%◌, ◌^◌, Bool, true, false, ◌&&◌, [], ◌∷◌, Option, none, some, Bytes, ltb, leb,
  ◌==◌, if◌then◌else◌,
}
use v4_front.Text.{to_lower}

-- The value of a digit in bases up to 16; 16 for what is no digit.
unfoldable pub digit_value : ℕ → ℕ
unfolding to_lower
digit_value c =
    if leb b'0' c && leb c b'9'
    then c - b'0'
    else if leb b'a' (to_lower c) && leb (to_lower c) b'f'
    then to_lower c - b'a' + 10
    else 16

-- The digits of the whole text in the base, on top of `acc`; `none` where another byte stands, so
-- where `*endptr != '\0'`.
unfoldable pub read_digits : ℕ → ℕ → Bytes → Option ℕ
unfolding digit_value
read_digits base acc [] = some acc
read_digits base acc (c ∷ cs) =
    let rest = read_digits base (acc * base + digit_value c) cs in
    if ltb (digit_value c) base then rest else none

-- At least one digit: with none `endptr == token`.
unfoldable pub read_number : ℕ → Bytes → Option ℕ
unfolding read_digits
read_number base [] = none
read_number base (c ∷ cs) = read_digits base 0 (c ∷ cs)

-- Base 0: `0x` before a digit is base 16, any other leading `0` base 8. In `0x` with no hexadecimal
-- digit behind it `strtol` stops at the `x`, which is no end of the text.
unfoldable pub read_magnitude : Bytes → Option ℕ
unfolding read_number
read_magnitude [] = none
read_magnitude (c ∷ []) = read_number 10 (c ∷ [])
read_magnitude (c ∷ d ∷ cs) =
    if c == b'0'
    then (if to_lower d == b'x' then read_number 16 cs else read_number 8 (d ∷ cs))
    else read_number 10 (c ∷ d ∷ cs)

abbrev long_max : ℕ
long_max = 2 ^ 63 - 1

-- `(int32_t)val` as a bit pattern, where `val` is the magnitude or its negation, held at
-- `LONG_MAX` or `LONG_MIN` where it does not fit a `long`.
unfoldable pub to_i32 : Bool → ℕ → ℕ
to_i32 negative m =
    if negative
    then (if ltb (long_max + 1) m then 0 else (2 ^ 32 - m % 2 ^ 32) % 2 ^ 32)
    else (if ltb long_max m then long_max % 2 ^ 32 else m % 2 ^ 32)

abbrev pub as_i32 : Bool → Option ℕ → Option ℕ
as_i32 negative none = none
as_i32 negative (some m) = some (to_i32 negative m)

-- `strtol` would pass over blanks first; a token holds none.
unfoldable pub try_parse_int : Bytes → Option ℕ
unfolding read_magnitude to_i32
try_parse_int [] = none
try_parse_int (c ∷ cs) =
    if c == b'-'
    then as_i32 true (read_magnitude cs)
    else if c == b'+'
    then as_i32 false (read_magnitude cs)
    else as_i32 false (read_magnitude (c ∷ cs))
