-- ===== src/Report/Format.antt =====
-- `v4front_format_error` of src/compile.cpp.
pub mod Room
pub mod Layout
use v4_front.Base.{
  ℤ, pos, negsuc, ℕ, zero, suc, ◌+◌, ◌-◌, List, [], ◌∷◌, ◌++◌, Option, none, some, Bytes, length,
  take, ltb, leb, if◌then◌else◌, decimal,
}
use v4_front.Text.{codes}
use v4_front.Report.{V4FrontError}

-- What stands in the buffer from its start to `p`, and `remaining`.
pub record Cursor : Type 0 where
  pub out : Bytes
  pub remaining : ℕ

-- The function returns where a text does not fit; the text is cut to the room and ends in a NUL.
pub data Written : Type 0 where
  goes : Cursor → Written
  stops : Bytes → Written

-- `snprintf(p, remaining, ...)`, the test of `written`, and the step of `p` and `remaining`.
unfoldable pub print : Bytes → Cursor → Written
print text at =
    if leb at.remaining (length text)
    then stops (at.out ++ take (at.remaining - 1) text)
    else goes (record { out = at.out ++ text; remaining = at.remaining - length text })

-- `*p++ = c; remaining--` so many times, while `remaining > 1`
unfoldable pub put_many : ℕ → ℕ → Cursor → Cursor
put_many zero c at = at
put_many (suc n) c at =
    let rest = put_many n c (record { out = at.out ++ (c ∷ []); remaining = at.remaining - 1 }) in
    if ltb 1 at.remaining then rest else at

-- What `%d` prints; the positions of an error are `int`s that are positive where they are printed.
abbrev pub int_text : ℤ → Bytes
int_text (pos n) = decimal n
int_text (negsuc n) = b'-' ∷ decimal (suc n)

-- A count that is positive.
abbrev pub positive : ℤ → Option ℕ
positive (pos zero) = none
positive (pos (suc n)) = some (suc n)
positive (negsuc n) = none

unfoldable pub headline : V4FrontError → Bytes
unfolding decimal
headline error = elim (positive error.line) [
  | none ↦ codes "Error: " ++ (error.message ++ (b'\n' ∷ []))
  | some line ↦ elim (positive error.column) [
    | none ↦ codes "Error: " ++ (error.message ++ (b'\n' ∷ []))
    | some column ↦
        codes "Error: "
        ++ (error.message
            ++ (codes " at line "
                ++ (decimal line ++ (codes ", column " ++ (decimal column ++ (b'\n' ∷ []))))))
  ]
]

-- The blanks up to the column, the caret, a tilde for each further byte of the token, a newline.
unfoldable pub put_marks : ℕ → Bytes → Cursor → Cursor
unfolding put_many
put_marks column token at =
    put_many 1 b'\n'
      (put_many (length token - 1) b'~' (put_many 1 b'^' (put_many (column - 1) b' ' at)))

abbrev pub marked : Bytes → ℕ → Written → Bytes
marked token column (stops out) = out
marked token column (goes at) = (put_marks column token at).out

unfoldable pub put_indicator : Bytes → Option ℕ → Cursor → Bytes
unfolding print put_marks
put_indicator token none at = at.out
put_indicator token (some column) at = marked token column (print (codes "  ") at)

abbrev pub indicated : V4FrontError → Written → Bytes
indicated error (stops out) = out
indicated error (goes at) = put_indicator error.token (positive error.column) at

-- The context line, if there is one and the source is not null, and the marks below it.
unfoldable pub put_context : V4FrontError → Bytes → Option Bytes → Cursor → Bytes
unfolding print put_indicator
put_context error (c ∷ cs) (some source) at =
    indicated error (print (codes "  " ++ ((c ∷ cs) ++ (b'\n' ∷ []))) at)
put_context error _ _ at = at.out

abbrev pub contextual : V4FrontError → Option Bytes → Written → Bytes
contextual error source (stops out) = out
contextual error source (goes at) = put_context error error.context source at

-- The string in a buffer of `out_cap` bytes, for an error that is not null; `none` where nothing is
-- written.
unfoldable pub format_error : V4FrontError → Option Bytes → ℕ → Option Bytes
unfolding print headline put_context
format_error error source zero = none
format_error error source (suc cap) =
    some
      (contextual error source (print (headline error) (record { out = []; remaining = suc cap })))
