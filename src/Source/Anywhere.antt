-- ===== src/Source/Anywhere.antt =====
-- Where a token stands shows in errors only: a handler of src/compile.cpp that succeeds at one
-- position does the same at every other.
use v4_front.Base.{ℕ, ◌≡◌, List, [], ◌∷◌, Option, none, some, Bytes, arith}
use v4_front.Result.{Result, ok, FrontErr}
use v4_front.Platform.{Platform}
use v4_front.Compiler.{ControlFrame, if_control, begin_control, do_control, Gen}
use v4_front.Compiler.Branch.{
  else_at, then_at, until_at, again_at, while_at, repeat_at, handle_if, handle_else, handle_then,
  handle_begin, handle_until, handle_again, handle_while, handle_repeat,
}
use v4_front.Compiler.Counted.{
  innermost_do, leave_in, loop_at, handle_do, handle_leave, handle_loop, handle_ploop,
}

-- Success and its outcome do not depend on the position.
abbrev pub Anywhere : (ℕ → Gen → Result Gen) → Type 0
Anywhere f = (at at' : ℕ) (g g' : Gen) → f at g ≡ ok g' → f at' g ≡ ok g'

pub if-Anywhere : (pl : Platform) → Anywhere (handle_if pl)
unfolding handle_if
if-Anywhere pl at at' g g' h = ground arith

pub begin-Anywhere : Anywhere handle_begin
unfolding handle_begin
begin-Anywhere at at' g g' h = ground arith

pub do-Anywhere : (pl : Platform) → Anywhere (handle_do pl)
unfolding handle_do
do-Anywhere pl at at' g g' h = ground arith

leave_in-anywhere :
    (pl : Platform) (at at' : ℕ) (o : Option (List ℕ)) (g g' : Gen)
    → leave_in pl at o g ≡ ok g'
    → leave_in pl at' o g ≡ ok g'
unfolding leave_in
leave_in-anywhere pl at at' none g g' h = cc
leave_in-anywhere pl at at' (some ls) g g' h = ground arith

pub leave-Anywhere : (pl : Platform) → Anywhere (handle_leave pl)
unfolding handle_leave
leave-Anywhere pl at at' g g' h = leave_in-anywhere pl at at' (innermost_do g.control) g g' h

-- The same for a handler that looks at the innermost frame.
abbrev AnyStack : (ℕ → List ControlFrame → Gen → Result Gen) → Type 0
AnyStack f =
    (at at' : ℕ) (fs : List ControlFrame) (g g' : Gen) → f at fs g ≡ ok g' → f at' fs g ≡ ok g'

else-AnyStack : (pl : Platform) → AnyStack (else_at pl)
unfolding else_at
else-AnyStack pl at at' (if_control _ none ∷ rest) g g' h = h
else-AnyStack pl at at' (if_control _ (some _) ∷ rest) g g' h = cc
else-AnyStack pl at at' (begin_control _ _ ∷ rest) g g' h = cc
else-AnyStack pl at at' (do_control _ _ ∷ rest) g g' h = cc
else-AnyStack pl at at' [] g g' h = cc

then-AnyStack : AnyStack then_at
unfolding then_at
then-AnyStack at at' (if_control _ none ∷ rest) g g' h = h
then-AnyStack at at' (if_control _ (some _) ∷ rest) g g' h = h
then-AnyStack at at' (begin_control _ _ ∷ rest) g g' h = cc
then-AnyStack at at' (do_control _ _ ∷ rest) g g' h = cc
then-AnyStack at at' [] g g' h = cc

until-AnyStack : (pl : Platform) → AnyStack (until_at pl)
unfolding until_at
until-AnyStack pl at at' (begin_control _ none ∷ rest) g g' h = h
until-AnyStack pl at at' (begin_control _ (some _) ∷ rest) g g' h = cc
until-AnyStack pl at at' (if_control _ _ ∷ rest) g g' h = cc
until-AnyStack pl at at' (do_control _ _ ∷ rest) g g' h = cc
until-AnyStack pl at at' [] g g' h = cc

again-AnyStack : (pl : Platform) → AnyStack (again_at pl)
unfolding again_at
again-AnyStack pl at at' (begin_control _ none ∷ rest) g g' h = h
again-AnyStack pl at at' (begin_control _ (some _) ∷ rest) g g' h = cc
again-AnyStack pl at at' (if_control _ _ ∷ rest) g g' h = cc
again-AnyStack pl at at' (do_control _ _ ∷ rest) g g' h = cc
again-AnyStack pl at at' [] g g' h = cc

while-AnyStack : (pl : Platform) → AnyStack (while_at pl)
unfolding while_at
while-AnyStack pl at at' (begin_control _ none ∷ rest) g g' h = h
while-AnyStack pl at at' (begin_control _ (some _) ∷ rest) g g' h = cc
while-AnyStack pl at at' (if_control _ _ ∷ rest) g g' h = cc
while-AnyStack pl at at' (do_control _ _ ∷ rest) g g' h = cc
while-AnyStack pl at at' [] g g' h = cc

repeat-AnyStack : (pl : Platform) → AnyStack (repeat_at pl)
unfolding repeat_at
repeat-AnyStack pl at at' (begin_control _ none ∷ rest) g g' h = cc
repeat-AnyStack pl at at' (begin_control _ (some _) ∷ rest) g g' h = h
repeat-AnyStack pl at at' (if_control _ _ ∷ rest) g g' h = cc
repeat-AnyStack pl at at' (do_control _ _ ∷ rest) g g' h = cc
repeat-AnyStack pl at at' [] g g' h = cc

loop-AnyStack : (pl : Platform) (step : Bytes) (e : FrontErr) → AnyStack (loop_at pl step e)
unfolding loop_at
loop-AnyStack pl step e at at' (do_control _ _ ∷ rest) g g' h = h
loop-AnyStack pl step e at at' (if_control _ _ ∷ rest) g g' h = cc
loop-AnyStack pl step e at at' (begin_control _ _ ∷ rest) g g' h = cc
loop-AnyStack pl step e at at' [] g g' h = cc

pub then-Anywhere : Anywhere handle_then
unfolding handle_then
then-Anywhere at at' g g' h = then-AnyStack at at' g.control g g' h

module _ (pl : Platform) where
  pub else-Anywhere : Anywhere (handle_else pl)
  unfolding handle_else
  else-Anywhere at at' g g' h = else-AnyStack pl at at' g.control g g' h

  pub until-Anywhere : Anywhere (handle_until pl)
  unfolding handle_until
  until-Anywhere at at' g g' h = until-AnyStack pl at at' g.control g g' h

  pub again-Anywhere : Anywhere (handle_again pl)
  unfolding handle_again
  again-Anywhere at at' g g' h = again-AnyStack pl at at' g.control g g' h

  pub while-Anywhere : Anywhere (handle_while pl)
  unfolding handle_while
  while-Anywhere at at' g g' h = while-AnyStack pl at at' g.control g g' h

  pub repeat-Anywhere : Anywhere (handle_repeat pl)
  unfolding handle_repeat
  repeat-Anywhere at at' g g' h = repeat-AnyStack pl at at' g.control g g' h

  pub loop-Anywhere : Anywhere (handle_loop pl)
  unfolding handle_loop
  loop-Anywhere at at' g g' h = loop-AnyStack pl _ _ at at' g.control g g' h

  pub ploop-Anywhere : Anywhere (handle_ploop pl)
  unfolding handle_ploop
  ploop-Anywhere at at' g g' h = loop-AnyStack pl _ _ at at' g.control g g' h
