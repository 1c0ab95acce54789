-- ===== src/Disasm/Output.antt =====
-- `std::ostringstream` as src/disasm.cpp uses it: the text so far, and the settings that stay until
-- they are set again. The width holds for the next output alone, so it is an argument here.
use v4_front.Base.{
  ℤ, pos, negsuc, ℕ, zero, suc, ◌-◌, Bool, true, false, [], ◌∷◌, ◌++◌, Bytes, length, decimal,
  hexadecimal, if◌then◌else◌,
}

pub record Stream : Type 0 where
  pub out : Bytes
  pub fill : ℕ
  pub left : Bool
  pub hex : Bool

-- The settings of a new stream.
abbrev pub new_stream : Stream
new_stream = record { out = []; fill = b' '; left = false; hex = false }

unfoldable pub repeat : ℕ → ℕ → Bytes
repeat zero c = []
repeat (suc n) c = c ∷ repeat n c

-- `oss << text` with no width
unfoldable pub put_text : Bytes → Stream → Stream
put_text text oss = record oss { out = oss.out ++ text }

-- `oss << std::setw(width) << text`: on the right of the fill characters, or on their left after
-- `std::left`.
unfoldable pub put_padded : ℕ → Bytes → Stream → Stream
unfolding repeat
put_padded width text oss =
    let padding = repeat (width - length text) oss.fill in
    record oss { out = oss.out ++ (if oss.left then text ++ padding else padding ++ text) }

-- A number in the base that is set.
abbrev pub digits_of : Bool → ℕ → Bytes
digits_of hex n = if hex then hexadecimal n else decimal n

unfoldable pub put_hex : ℕ → ℕ → Stream → Stream
unfolding put_padded
put_hex width n oss = put_padded width (digits_of oss.hex n) oss

-- A signed number, in decimal: `std::dec` is set where one is written.
unfoldable pub put_int : ℤ → Stream → Stream
unfolding put_text
put_int (pos n) oss = put_text (decimal n) oss
put_int (negsuc n) oss = put_text (b'-' ∷ decimal (suc n)) oss

-- `oss << std::hex << std::setw(4) << std::setfill('0') << addr << std::dec`
unfoldable pub append_hex_addr : ℕ → Stream → Stream
unfolding put_hex
append_hex_addr addr oss =
    let oss' = put_hex 4 addr (record oss { hex = true; fill = b'0' }) in
    record oss' { hex = false }
