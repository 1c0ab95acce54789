-- ===== src/Text.antt =====
-- Characters and tokens of src/compile.cpp: `isspace` and `tolower` of the C locale, `str_eq_ci`,
-- `strcmp`, the token loop and `try_parse_int`. A `const char*` is the list of the bytes from there
-- to the terminating NUL, so moving a pointer forward is taking a tail.
pub mod Equality
pub mod Integer
pub mod Blanks
pub mod Skipping
use Prim.Native.Char.{code}
use Prim.Native.String.{String}
use v4_front.Base.{
  ℕ, zero, suc, ◌+◌, ◌-◌, ◌*◌, ◌%◌, ◌^◌, Bool, true, false, ◌&&◌, ◌||◌, List, [], ◌∷◌, Option, none,
  some, Bytes, length, take, ltb, leb, ◌==◌, if◌then◌else◌,
}
use v4_front.Result.{Result, ok, err, unterminated_comment}

-- The bytes of an ASCII literal of the source.
abbrev pub codes : String → Bytes
codes String.[] = []
codes (String.◌∷◌ c s) = code c ∷ codes s

-- `isspace((unsigned char)c)`: blank, tab, newline, vertical tab, form feed, carriage return
unfoldable pub is_space : ℕ → Bool
is_space c = c == 32 || (leb 9 c && leb c 13)

unfoldable pub to_lower : ℕ → ℕ
to_lower c = if leb b'A' c && leb c b'Z' then c + 32 else c

-- `while (*a && *b)` and the comparison of the characters that it stops at
unfoldable pub str_eq_ci : Bytes → Bytes → Bool
unfolding to_lower
str_eq_ci [] [] = true
str_eq_ci [] (y ∷ b) = false
str_eq_ci (x ∷ a) [] = false
str_eq_ci (x ∷ a) (y ∷ b) = to_lower x == to_lower y && str_eq_ci a b

-- `strcmp(a, b) == 0`
unfoldable pub str_eq : Bytes → Bytes → Bool
str_eq [] [] = true
str_eq [] (y ∷ b) = false
str_eq (x ∷ a) [] = false
str_eq (x ∷ a) (y ∷ b) = x == y && str_eq a b

-- `while (*p && !isspace((unsigned char)*p)) p++;` gives the bytes passed over and the rest.
unfoldable pub take_token : Bytes → Bytes × Bytes
unfolding is_space
take_token [] = ([], [])
take_token (c ∷ cs) =
    if is_space c then ([], c ∷ cs) else (c ∷ (take_token cs).0, (take_token cs).1)

abbrev pub max_token_len : ℕ
max_token_len = 256

abbrev pub max_word_name_len : ℕ
max_word_name_len = 64

-- `if (token_len >= sizeof(token)) token_len = sizeof(token) - 1; memcpy(...)`
abbrev pub clip_token : Bytes → Bytes
clip_token t = if leb max_token_len (length t) then take (max_token_len - 1) t else t
