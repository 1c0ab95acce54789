-- ===== src/Text/Blanks.antt =====
-- `skip_whitespace_and_comments` of src/compile.cpp. Its three loops, over blanks, over a line
-- comment and over a parenthesised one, are the three modes of one pass over the text.
use v4_front.Base.{ℕ, Bool, ◌&&◌, false, [], ◌∷◌, some, Bytes, ◌==◌, if◌then◌else◌}
use v4_front.Result.{Result, ok, err, unterminated_comment}
use v4_front.Text.{is_space}

pub data Mode : Type 0 where
  blanks line_comment paren_comment : Mode

-- What the character at the pointer makes of the mode; `none` is `break`.
pub data Move : Type 0 where
  advance : Mode → Move
  halt : Move

-- `*(*p + 1) && isspace((unsigned char)*(*p + 1))`
unfoldable pub space_follows : Bytes → Bool
unfolding is_space
space_follows [] = false
space_follows (d ∷ ds) = is_space d

-- A newline that ends a line comment is the next blank to skip; the closing `)` is passed over.
unfoldable pub move : Mode → ℕ → Bytes → Move
unfolding is_space space_follows
move blanks c cs =
    if is_space c
    then advance blanks
    else if c == b'\\'
    then advance line_comment
    else if c == b'(' && space_follows cs
    then advance paren_comment
    else halt
move line_comment c cs = advance (if c == b'\n' then blanks else line_comment)
move paren_comment c cs = advance (if c == b')' then blanks else paren_comment)

-- At the end of the text an open `(` is an error, with `*error_pos = *p - 1`: the last byte.
unfoldable pub at_end : Mode → Result Bytes
at_end blanks = ok []
at_end line_comment = ok []
at_end paren_comment = err unterminated_comment (some 1)

unfoldable pub skip_in : Mode → Bytes → Result Bytes
unfolding move at_end
skip_in m [] = at_end m
skip_in m (c ∷ cs) = elim (move m c cs) [ advance m' ↦ skip_in m' cs | halt ↦ ok (c ∷ cs) ]

unfoldable pub skip_whitespace_and_comments : Bytes → Result Bytes
unfolding skip_in
skip_whitespace_and_comments = skip_in blanks
