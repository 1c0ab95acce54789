-- ===== src/Report/Format/Layout.antt =====
-- `v4front_format_error` where the caller's buffer is large enough: the whole text.
use mathlib.Core.Path.{subst}
use v4_front.Base.{
  ℕ, zero, suc, ◌+◌, ◌-◌, ◌<◌, ◌≡◌, refl, ◌∙◌, ap, ap₂, sym, [], ◌∷◌, ◌++◌, append_assoc, decimal,
  append-nil, Option, none, some, Bytes, length, lt→ltb, lt→leb-false, length-append, arith,
}
use v4_front.Text.{codes}
use v4_front.Report.{V4FrontError}
use v4_front.Report.Format.{
  Cursor, goes, print, put_many, put_marks, put_indicator, put_context, format_error, headline,
  positive,
}

-- A byte so many times.
abbrev pub row : ℕ → ℕ → Bytes
row zero c = []
row (suc n) c = c ∷ row n c

-- The caret stands in the column, behind the two blanks that the context line has too, and with the
-- tildes behind it under the token.
abbrev pub marks : ℕ → Bytes → Bytes
marks column token =
    row (column - 1) b' ' ++ (row 1 b'^' ++ (row (length token - 1) b'~' ++ row 1 b'\n'))

abbrev pub mark_line : Option ℕ → Bytes → Bytes
mark_line none token = []
mark_line (some column) token = codes "  " ++ marks column token

abbrev pub context_lines : V4FrontError → Bytes → Option Bytes → Bytes
context_lines error (c ∷ cs) (some source) =
    (codes "  " ++ ((c ∷ cs) ++ (b'\n' ∷ []))) ++ mark_line (positive error.column) error.token
context_lines error _ _ = []

-- The line and, behind it, the column, where both are positive.
abbrev pub place_text : Option ℕ → Option ℕ → Bytes
place_text (some line) (some column) =
    codes " at line " ++ (decimal line ++ (codes ", column " ++ decimal column))
place_text _ _ = []

-- The message with its place, the context line, and the line of marks.
abbrev pub full_text : V4FrontError → Option Bytes → Bytes
full_text error source =
    (codes "Error: "
      ++ (error.message
          ++ (place_text (positive error.line) (positive error.column) ++ (b'\n' ∷ []))))
    ++ context_lines error error.context source

place-newline :
    (l c : Bytes)
    → (codes " at line " ++ (l ++ (codes ", column " ++ c))) ++ (b'\n' ∷ [])
      ≡ codes " at line " ++ (l ++ (codes ", column " ++ (c ++ (b'\n' ∷ []))))
place-newline l c =
    append_assoc (codes " at line ") (l ++ (codes ", column " ++ c)) (b'\n' ∷ [])
    ∙ ap (λ t. codes " at line " ++ t)
        (append_assoc l (codes ", column " ++ c) (b'\n' ∷ [])
          ∙ ap (λ t. l ++ t) (append_assoc (codes ", column ") c (b'\n' ∷ [])))

headline-text :
    (error : V4FrontError)
    → headline error
      ≡ codes "Error: "
        ++ (error.message
            ++ (place_text (positive error.line) (positive error.column) ++ (b'\n' ∷ [])))
unfolding headline
headline-text error = go (positive error.line) refl (positive error.column) refl
  where
    go :
        (line : Option ℕ)
        → positive error.line ≡ line
        → (column : Option ℕ) → positive error.column ≡ column
        → headline error
          ≡ codes "Error: " ++ (error.message ++ (place_text line column ++ (b'\n' ∷ [])))
    go none is column at = rw (headline, is) refl
    go (some line) is none at = rw (headline, is, at) refl
    go (some line) is (some column) at =
        rw (headline, is, at)
          (ap (λ t. codes "Error: " ++ (error.message ++ t))
            (sym (place-newline (decimal line) (decimal column))))

length-row : (n c : ℕ) → length (row n c) ≡ n
length-row zero c = refl
length-row (suc n) c = omega (arith, length-row n c)

abbrev cursor : Bytes → ℕ → Cursor
cursor out remaining = record { out = out; remaining = remaining }

print-all :
    (text out : Bytes) (n : ℕ)
    → length text < n
    → print text (cursor out n) ≡ goes (cursor (out ++ text) (n - length text))
unfolding print
print-all text out n room = rw (lt→leb-false n (length text) room) refl

put_many-all :
    (n c : ℕ) (out : Bytes) (left : ℕ)
    → n < left
    → put_many n c (cursor out left) ≡ cursor (out ++ row n c) (left - n)
unfolding put_many
put_many-all zero c out left room = ap₂ cursor (sym (append-nil out)) (omega arith)
put_many-all (suc n) c out left room = rw (lt→ltb 1 left (omega arith)) (
    put_many-all n c (out ++ c ∷ []) (left - 1) (omega arith)
    ∙ ap₂ cursor (append_assoc out (c ∷ []) (row n c)) (omega arith))

length-bytes : (xs ys : Bytes) → length (xs ++ ys) ≡ length xs + length ys
length-bytes = length-append

length-marks :
    (column : ℕ) (token : Bytes)
    → length (marks column token) ≡ (column - 1) + (length token - 1) + 2
length-marks column token = simp (length-bytes, length-row) (omega arith)

put_marks-all :
    (column : ℕ) (token out : Bytes) (n : ℕ)
    → length (marks column token) < n
    → (put_marks column token (cursor out n)).out ≡ out ++ marks column token
unfolding put_marks
put_marks-all column token out n room =
    let fits : (column - 1) + (length token - 1) + 2 < n =
      omega (arith, length-marks column token) in
    let a = row (column - 1) b' ' in
    let b = row (length token - 1) b'~' in
    rw
      (
        put_many-all (column - 1) b' ' out n (omega (arith, fits)),
        put_many-all 1 b'^' (out ++ a) (n - (column - 1)) (omega (arith, fits)),
        put_many-all (length token - 1) b'~' ((out ++ a) ++ row 1 b'^') (n - (column - 1) - 1)
            (omega (arith, fits)),
        put_many-all 1 b'\n' (((out ++ a) ++ row 1 b'^') ++ b)
            (n - (column - 1) - 1 - (length token - 1)) (omega (arith, fits)),
      )
      (simp append_assoc)

put_indicator-all :
    (token : Bytes) (column : Option ℕ) (out : Bytes) (n : ℕ)
    → length (mark_line column token) < n
    → put_indicator token column (cursor out n) ≡ out ++ mark_line column token
unfolding put_indicator
put_indicator-all token none out n room = sym (append-nil out)
put_indicator-all token (some column) out n room =
    rw (print-all (codes "  ") out n (omega (arith, room))) (
      put_marks-all column token (out ++ codes "  ") (n - 2) (omega (arith, room))
      ∙ append_assoc out (codes "  ") (marks column token))

put_context-all :
    (error : V4FrontError) (context : Bytes) (source : Option Bytes) (out : Bytes) (n : ℕ)
    → length (context_lines error context source) < n
    → put_context error context source (cursor out n) ≡ out ++ context_lines error context source
unfolding put_context
put_context-all error [] source out n room = sym (append-nil out)
put_context-all error (c ∷ cs) none out n room = sym (append-nil out)
put_context-all error (c ∷ cs) (some source) out n room =
    let line = codes "  " ++ ((c ∷ cs) ++ (b'\n' ∷ [])) in
    let below = mark_line (positive error.column) error.token in
    let whole = length-append line below in
    rw (print-all line out n (omega (arith, room, whole))) (
      put_indicator-all error.token (positive error.column) (out ++ line) (n - length line)
        (omega (arith, room, whole))
      ∙ append_assoc out line below)

format_error-headline :
    (error : V4FrontError) (source : Option Bytes) (cap : ℕ)
    → length (headline error ++ context_lines error error.context source) < cap
    → format_error error source cap
      ≡ some (headline error ++ context_lines error error.context source)
unfolding format_error
format_error-headline error source zero room = absurd (omega (arith, room))
format_error-headline error source (suc cap) room =
    let whole = length-append (headline error) (context_lines error error.context source) in
    rw (print-all (headline error) [] (suc cap) (omega (arith, room, whole))) (
      ap some (
        put_context-all error error.context source (headline error)
          (suc cap - length (headline error)) (omega (arith, room, whole))))

-- In a buffer that holds it and its NUL, `v4front_format_error` writes the whole text: the message,
-- with the line and the column if both are positive; the context line, if there is one and the source
-- is given; and below it, where there is a column, a caret in that column and a tilde under each
-- further byte of the token.
pub format_error-full_text :
    (error : V4FrontError) (source : Option Bytes) (cap : ℕ)
    → length (full_text error source) < cap
    → format_error error source cap ≡ some (full_text error source)
format_error-full_text error source cap =
    subst
      (λ line.
        length (line ++ context_lines error error.context source) < cap
        → format_error error source cap ≡ some (line ++ context_lines error error.context source))
      (headline-text error) (format_error-headline error source cap)
