-- ===== src/Invariant/Branch.antt =====
-- The handlers of IF and BEGIN.
use v4_front.Base.{
  ℕ, ◌≤◌, ◌≡◌, refl, sym, List, [], ◌∷◌, length, some, none, true, arith, ltb, ltb→lt,
}
use mathlib.Core.Path.{subst}
use v4_front.Result.{control_depth_exceeded}
use v4_front.Platform.{Platform, Op, OpcodesFit}
use v4_front.Compiler.{ControlFrame, if_control, begin_control, do_control, Gen, here}
use v4_front.Compiler.Branch.{
  handle_if, handle_else, else_at, handle_then, then_at, handle_begin, handle_until, until_at,
  handle_again, again_at, handle_while, while_at, handle_repeat, repeat_at, close_begin, has_room,
}
use v4_front.Invariant.{
  Post, returns, raises, Post-bind, Post-map, Post-require, ControlInv, FrameInv, BufInv, GenInv,
}
use v4_front.Invariant.Buffers.{emit_forward-Post, emit_backward-Post, resolve-Post}

pub push :
    {control control' : List ControlFrame} (f : ControlFrame)
    → ltb (length control) 32 ≡ true
    → ControlInv control
    → FrameInv f
    → control' ≡ control
    → ControlInv (f ∷ control')
push {control} f room (deep, frames) h e =
    subst (λ l. ControlInv (f ∷ l)) (sym e) (ltb→lt (length control) 32 room, (h, frames))

pub pop : (f : ControlFrame) (rest : List ControlFrame) → ControlInv (f ∷ rest) → ControlInv rest
pop f rest (deep, (h, frames)) = (omega arith, frames)

pub swap_top :
    (f f' : ControlFrame) (rest : List ControlFrame)
    → ControlInv (f ∷ rest)
    → FrameInv f'
    → ControlInv (f' ∷ rest)
swap_top f f' rest (deep, (h, frames)) h' = (deep, (h', frames))

-- The stack that came out is the one that went in.
pub with_stack :
    {g : Gen} {control : List ControlFrame}
    → ControlInv control
    → BufInv g.current × (g.control ≡ control)
    → GenInv g
with_stack c (b, e) = record { buffer = b; control = subst ControlInv (sym e) c }

module _ (pl : Platform) (fit : OpcodesFit pl) (n at : ℕ) (within : at ≤ n) where
  pub handle_if-Post : (g : Gen) → GenInv g → Post n GenInv (handle_if pl at g)
  unfolding handle_if
  handle_if-Post g v = Post-require (has_room g) control_depth_exceeded tt within λ room.
      Post-bind (emit_forward-Post n pl fit Op.jz g v.buffer) λ r (h, e).
        returns (record { buffer = h; control = push (if_control r.0 none) room v.control tt e })

  pub handle_begin-Post : (g : Gen) → GenInv g → Post n GenInv (handle_begin at g)
  unfolding handle_begin
  handle_begin-Post g v = Post-require (has_room g) control_depth_exceeded tt within λ room.
      returns (record {
        buffer = v.buffer;
        control = push (begin_control (here g) none) room v.control tt refl;
      })

  else_at-Post :
      (control : List ControlFrame) (g : Gen)
      → BufInv g.current
      → ControlInv control
      → Post n GenInv (else_at pl at control g)
  unfolding else_at
  else_at-Post [] g b c = raises tt within
  else_at-Post (if_control jz none ∷ rest) g b c =
      Post-bind (emit_forward-Post n pl fit Op.jmp g b) λ r (h, _).
        Post-bind (resolve-Post n pl jz r.1 h) λ g₂ (h₂, _). returns (record {
          buffer = h₂;
          control = swap_top (if_control jz none) (if_control jz (some r.0)) rest c tt;
        })
  else_at-Post (if_control jz (some _) ∷ rest) g b c = raises tt within
  else_at-Post (begin_control _ _ ∷ rest) g b c = raises tt within
  else_at-Post (do_control _ _ ∷ rest) g b c = raises tt within

  pub handle_else-Post : (g : Gen) → GenInv g → Post n GenInv (handle_else pl at g)
  unfolding handle_else
  handle_else-Post g v = else_at-Post g.control g v.buffer v.control

  then_at-Post :
      (control : List ControlFrame) (g : Gen)
      → BufInv g.current
      → ControlInv control
      → Post n GenInv (then_at at control g)
  unfolding then_at
  then_at-Post [] g b c = raises tt within
  then_at-Post (if_control jz none ∷ rest) g b c =
      Post-map (resolve-Post n pl jz (record g { control = rest }) b)
        λ g'. with_stack (pop (if_control jz none) rest c)
  then_at-Post (if_control jz (some jmp) ∷ rest) g b c =
      Post-map (resolve-Post n pl jmp (record g { control = rest }) b)
        λ g'. with_stack (pop (if_control jz (some jmp)) rest c)
  then_at-Post (begin_control _ _ ∷ rest) g b c = raises tt within
  then_at-Post (do_control _ _ ∷ rest) g b c = raises tt within

  pub handle_then-Post : (g : Gen) → GenInv g → Post n GenInv (handle_then at g)
  unfolding handle_then
  handle_then-Post g v = then_at-Post g.control g v.buffer v.control

  close_begin-Post :
      (o : Op) (addr : ℕ) (f : ControlFrame) (rest : List ControlFrame) (g : Gen)
      → BufInv g.current
      → ControlInv (f ∷ rest)
      → Post n GenInv (close_begin pl o addr rest g)
  unfolding close_begin
  close_begin-Post o addr f rest g b c =
      Post-bind (emit_backward-Post n pl fit o addr g b)
        λ g' (h, _). returns (record { buffer = h; control = pop f rest c })

  until_at-Post :
      (control : List ControlFrame) (g : Gen)
      → BufInv g.current
      → ControlInv control
      → Post n GenInv (until_at pl at control g)
  unfolding until_at
  until_at-Post [] g b c = raises tt within
  until_at-Post (begin_control addr none ∷ rest) g b c =
      close_begin-Post Op.jz addr (begin_control addr none) rest g b c
  until_at-Post (begin_control addr (some _) ∷ rest) g b c = raises tt within
  until_at-Post (if_control _ _ ∷ rest) g b c = raises tt within
  until_at-Post (do_control _ _ ∷ rest) g b c = raises tt within

  pub handle_until-Post : (g : Gen) → GenInv g → Post n GenInv (handle_until pl at g)
  unfolding handle_until
  handle_until-Post g v = until_at-Post g.control g v.buffer v.control

  again_at-Post :
      (control : List ControlFrame) (g : Gen)
      → BufInv g.current
      → ControlInv control
      → Post n GenInv (again_at pl at control g)
  unfolding again_at
  again_at-Post [] g b c = raises tt within
  again_at-Post (begin_control addr none ∷ rest) g b c =
      close_begin-Post Op.jmp addr (begin_control addr none) rest g b c
  again_at-Post (begin_control addr (some _) ∷ rest) g b c = raises tt within
  again_at-Post (if_control _ _ ∷ rest) g b c = raises tt within
  again_at-Post (do_control _ _ ∷ rest) g b c = raises tt within

  pub handle_again-Post : (g : Gen) → GenInv g → Post n GenInv (handle_again pl at g)
  unfolding handle_again
  handle_again-Post g v = again_at-Post g.control g v.buffer v.control

  while_at-Post :
      (control : List ControlFrame) (g : Gen)
      → BufInv g.current
      → ControlInv control
      → Post n GenInv (while_at pl at control g)
  unfolding while_at
  while_at-Post [] g b c = raises tt within
  while_at-Post (begin_control addr none ∷ rest) g b c =
      Post-bind (emit_forward-Post n pl fit Op.jz g b) λ r (h, _). returns (record {
        buffer = h;
        control = swap_top (begin_control addr none) (begin_control addr (some r.0)) rest c tt;
      })
  while_at-Post (begin_control addr (some _) ∷ rest) g b c = raises tt within
  while_at-Post (if_control _ _ ∷ rest) g b c = raises tt within
  while_at-Post (do_control _ _ ∷ rest) g b c = raises tt within

  pub handle_while-Post : (g : Gen) → GenInv g → Post n GenInv (handle_while pl at g)
  unfolding handle_while
  handle_while-Post g v = while_at-Post g.control g v.buffer v.control

  repeat_at-Post :
      (control : List ControlFrame) (g : Gen)
      → BufInv g.current
      → ControlInv control
      → Post n GenInv (repeat_at pl at control g)
  unfolding repeat_at
  repeat_at-Post [] g b c = raises tt within
  repeat_at-Post (begin_control addr none ∷ rest) g b c = raises tt within
  repeat_at-Post (begin_control addr (some patch) ∷ rest) g b c =
      Post-bind (emit_backward-Post n pl fit Op.jmp addr g b) λ g₁ (h₁, _).
        Post-bind (resolve-Post n pl patch g₁ h₁) λ g₂ (h₂, _).
          returns (record { buffer = h₂; control = pop (begin_control addr (some patch)) rest c })
  repeat_at-Post (if_control _ _ ∷ rest) g b c = raises tt within
  repeat_at-Post (do_control _ _ ∷ rest) g b c = raises tt within

  pub handle_repeat-Post : (g : Gen) → GenInv g → Post n GenInv (handle_repeat pl at g)
  unfolding handle_repeat
  handle_repeat-Post g v = repeat_at-Post g.control g v.buffer v.control
