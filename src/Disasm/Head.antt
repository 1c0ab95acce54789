-- ===== src/Disasm/Head.antt =====
-- What the head of a line looks like.
use v4_front.Base.{ℕ, ◌-◌, ◌≡◌, ◌∙◌, ◌++◌, append_assoc, Bytes, length, hexadecimal}
use v4_front.Text.{codes}
use v4_front.Disasm.{put_head}
use v4_front.Disasm.Output.{repeat}

-- The address in four digits at least, filled with zeros on the left; a colon; and the mnemonic,
-- filled on the right to eight columns with zeros too.
pub put_head-zeros :
    (pc : ℕ) (name : Bytes)
    → (put_head pc name).out
      ≡ repeat (4 - length (hexadecimal pc)) b'0'
        ++ (hexadecimal pc ++ (codes ": " ++ (name ++ repeat (8 - length name) b'0')))
unfolding put_head
put_head-zeros pc name =
    let zeros = repeat (4 - length (hexadecimal pc)) b'0' in
    append_assoc (zeros ++ hexadecimal pc) (codes ": ") (name ++ repeat (8 - length name) b'0')
    ∙ append_assoc zeros (hexadecimal pc) (codes ": " ++ (name ++ repeat (8 - length name) b'0'))
