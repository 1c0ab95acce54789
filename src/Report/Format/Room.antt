-- ===== src/Report/Format/Room.antt =====
-- `v4front_format_error` and the size of the caller's buffer.
use v4_front.Base.{
  ℕ, zero, suc, ◌+◌, ◌-◌, ◌<◌, ◌≡◌, [], ◌∷◌, ◌++◌, Option, none, some, Bytes, length, take, ltb,
  leb, length-append, length-take-le, arith, Bool-cases, inl, inr,
}
use mathlib.Core.Path.{subst}
use v4_front.Text.{codes}
use v4_front.Report.{V4FrontError}
use v4_front.Report.Format.{
  Cursor, Written, goes, stops, print, put_many, put_marks, marked, put_indicator, indicated,
  contextual, put_context, format_error, headline, positive,
}

-- The bytes written and the bytes left fill the buffer, and one is left for the NUL.
pub record Fits (cap : ℕ) (at : Cursor) : Type 0 where
  pub fills : length at.out + at.remaining ≡ cap
  pub room : 0 < at.remaining

abbrev WrittenFits : ℕ → Written → Type 0
WrittenFits cap (goes at) = Fits cap at
WrittenFits cap (stops out) = length out < cap

print-Fits : (cap : ℕ) (text : Bytes) (at : Cursor) → Fits cap at → WrittenFits cap (print text at)
unfolding print
print-Fits cap text at f = elim (Bool-cases (leb at.remaining (length text))) [
  | inl over ↦ rw over (
      omega (
        arith,
        f.fills,
        f.room,
        length-append at.out (take (at.remaining - 1) text),
        length-take-le (at.remaining - 1) text,
      ))
  | inr fits ↦
      let short : length text < at.remaining = ground (arith, fits) in
      rw fits (record {
        fills = omega (arith, f.fills, short, length-append at.out text);
        room = omega (arith, short);
      })
]

put_many-Fits : (cap n c : ℕ) (at : Cursor) → Fits cap at → Fits cap (put_many n c at)
unfolding put_many
put_many-Fits cap zero c at f = f
put_many-Fits cap (suc n) c at f = elim (Bool-cases (ltb 1 at.remaining)) [
  | inl more ↦
      let left : 1 < at.remaining = ground (arith, more) in
      rw more (
        put_many-Fits cap n c _ (record {
          fills = omega (arith, f.fills, left, length-append at.out (c ∷ []));
          room = omega (arith, left);
        }))
  | inr full ↦ rw full f
]

short : {cap : ℕ} {at : Cursor} → Fits cap at → length at.out < cap
short f = omega (arith, f.fills, f.room)

marked-lt :
    (cap : ℕ) (token : Bytes) (column : ℕ) (w : Written)
    → WrittenFits cap w
    → length (marked token column w) < cap
unfolding put_marks
marked-lt cap token column (stops out) f = f
marked-lt cap token column (goes at) f =
    let blanks = put_many-Fits cap (column - 1) b' ' at f in
    let caret = put_many-Fits cap 1 b'^' _ blanks in
    let tildes = put_many-Fits cap (length token - 1) b'~' _ caret in
    short (put_many-Fits cap 1 b'\n' _ tildes)

put_indicator-lt :
    (cap : ℕ) (token : Bytes) (column : Option ℕ) (at : Cursor)
    → Fits cap at
    → length (put_indicator token column at) < cap
unfolding put_indicator
put_indicator-lt cap token none at f = short f
put_indicator-lt cap token (some column) at f =
    marked-lt cap token column (print (codes "  ") at) (print-Fits cap (codes "  ") at f)

indicated-lt :
    (cap : ℕ) (error : V4FrontError) (w : Written)
    → WrittenFits cap w
    → length (indicated error w) < cap
indicated-lt cap error (stops out) f = f
indicated-lt cap error (goes at) f = put_indicator-lt cap error.token (positive error.column) at f

put_context-lt :
    (cap : ℕ) (error : V4FrontError) (context : Bytes) (source : Option Bytes) (at : Cursor)
    → Fits cap at
    → length (put_context error context source at) < cap
unfolding put_context
put_context-lt cap error [] source at f = short f
put_context-lt cap error (c ∷ cs) none at f = short f
put_context-lt cap error (c ∷ cs) (some source) at f =
    indicated-lt cap error (print (codes "  " ++ ((c ∷ cs) ++ (b'\n' ∷ []))) at)
      (print-Fits cap (codes "  " ++ ((c ∷ cs) ++ (b'\n' ∷ []))) at f)

contextual-lt :
    (cap : ℕ) (error : V4FrontError) (source : Option Bytes) (w : Written)
    → WrittenFits cap w
    → length (contextual error source w) < cap
contextual-lt cap error source (stops out) f = f
contextual-lt cap error source (goes at) f = put_context-lt cap error error.context source at f

-- Whatever the error, the source and the size of the buffer, the text that is written and its NUL
-- fit the buffer.
pub format_error-lt :
    (error : V4FrontError) (source : Option Bytes) (out_cap : ℕ) {text : Bytes}
    → format_error error source out_cap ≡ some text
    → length text < out_cap
unfolding format_error
format_error-lt error source zero e = cc
format_error-lt error source (suc cap) {text} e =
    let empty : Cursor = record { out = []; remaining = suc cap } in
    let start : Fits (suc cap) empty = record { fills = omega arith; room = omega arith } in
    let w = print (headline error) empty in
    let is : contextual error source w ≡ text = cc in
    subst (λ t. length t < suc cap) is
      (contextual-lt (suc cap) error source w (print-Fits (suc cap) (headline error) empty start))
