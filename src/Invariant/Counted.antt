-- ===== src/Invariant/Counted.antt =====
-- The handlers of DO.
use v4_front.Base.{
  ℕ, ◌≤◌, ◌≡◌, refl, ◌∙◌, sym, ap, List, [], ◌∷◌, Bytes, length, length-append, some, none, true,
  Option, arith, All, All-append, ltb, ltb→lt, suc,
}
use mathlib.Core.Path.{subst}
use v4_front.Result.{
  FrontErr, control_depth_exceeded, leave_depth_exceeded, loop_without_do, ploop_without_do,
}
use v4_front.Platform.{Platform, Op, OpcodesFit}
use v4_front.Buffer.{i32_le}
use v4_front.Compiler.{ControlFrame, if_control, begin_control, do_control, Gen, here}
use v4_front.Compiler.Branch.{has_room}
use v4_front.Compiler.Counted.{
  handle_do, innermost_do, record_leave, leave_in, handle_leave, patch_leaves, close_loop, loop_at,
  handle_loop, handle_ploop, loop_step, ploop_step,
}
use v4_front.Invariant.{
  Post, returns, raises, Post-bind, Post-require, IsByte, IsRaised, ControlInv, FrameInv, BufInv,
  GenInv,
}
use v4_front.Invariant.Buffers.{
  emit-Post, emit_forward-Post, emit_backward-Post, resolve-Post, All-ops, All-i32_le,
}
use v4_front.Invariant.Branch.{push, pop}

-- A LEAVE recorded in a loop that has fewer than eight keeps every frame in order.
record_leave-All :
    (pos : ℕ) (control : List ControlFrame) {leaves : List ℕ}
    → innermost_do control ≡ some leaves
    → ltb (length leaves) 8 ≡ true
    → All FrameInv control
    → All FrameInv (record_leave pos control)
unfolding innermost_do record_leave
record_leave-All pos [] e room h = tt
record_leave-All pos (do_control addr own ∷ rest) {leaves} e room (h, hs) =
    let same : length own ≡ length leaves = ground arith in
    (omega (arith, same, ltb→lt (length leaves) 8 room, length-append own (pos ∷ [])), hs)
record_leave-All pos (if_control a b ∷ rest) e room (h, hs) =
    (tt, record_leave-All pos rest e room hs)
record_leave-All pos (begin_control a b ∷ rest) e room (h, hs) =
    (tt, record_leave-All pos rest e room hs)

length-record_leave :
    (pos : ℕ) (control : List ControlFrame) → length (record_leave pos control) ≡ length control
unfolding record_leave
length-record_leave pos [] = refl
length-record_leave pos (do_control addr own ∷ rest) = refl
length-record_leave pos (if_control a b ∷ rest) = ap suc (length-record_leave pos rest)
length-record_leave pos (begin_control a b ∷ rest) = ap suc (length-record_leave pos rest)

module _ (pl : Platform) (fit : OpcodesFit pl) (n at : ℕ) (within : at ≤ n) where
  pub handle_do-Post : (g : Gen) → GenInv g → Post n GenInv (handle_do pl at g)
  unfolding handle_do
  handle_do-Post g v = Post-require (has_room g) control_depth_exceeded tt within λ room.
      Post-bind (emit-Post n pl _ g v.buffer (All-ops n pl fit (Op.swap ∷ Op.tor ∷ Op.tor ∷ [])))
        λ g' (h, e). returns (record {
          buffer = h;
          control = push (do_control (here g') []) room v.control (omega arith) e;
        })

  leave_in-Post :
      (found : Option (List ℕ)) (g : Gen)
      → innermost_do g.control ≡ found
      → GenInv g
      → Post n GenInv (leave_in pl at found g)
  unfolding leave_in
  leave_in-Post none g e v = raises tt within
  leave_in-Post (some leaves) g e v =
      Post-require (ltb (length leaves) 8) leave_depth_exceeded tt within λ room.
        Post-bind
          (emit-Post n pl _ g v.buffer
            (All-ops n pl fit (Op.fromr ∷ Op.fromr ∷ Op.drop ∷ Op.drop ∷ [])))
          λ g₁ (h₁, e₁). Post-bind (emit_forward-Post n pl fit Op.jmp g₁ h₁) λ r (h₂, e₂).
            returns (record {
              buffer = h₂;
              control =
                  subst (λ l. ControlInv (record_leave r.0 l)) (sym (e₂ ∙ e₁))
                    (
                      omega (arith, v.control.0, length-record_leave r.0 g.control),
                      record_leave-All r.0 g.control e room v.control.1,
                    );
            })

  pub handle_leave-Post : (g : Gen) → GenInv g → Post n GenInv (handle_leave pl at g)
  unfolding handle_leave
  handle_leave-Post g v = leave_in-Post (innermost_do g.control) g refl v

  patch_leaves-Post :
      (leaves : List ℕ) (g : Gen)
      → BufInv g.current
      → Post n (λ g'. BufInv g'.current) (patch_leaves leaves g)
  unfolding patch_leaves
  patch_leaves-Post [] g h = returns h
  patch_leaves-Post (addr ∷ leaves) g h =
      Post-bind (resolve-Post n pl addr g h) λ g' (h', _). patch_leaves-Post leaves g' h'

  close_loop-Post :
      (addr : ℕ) (leaves : List ℕ) (rest : List ControlFrame) (g : Gen)
      → BufInv g.current
      → ControlInv rest
      → Post n GenInv (close_loop pl addr leaves rest g)
  unfolding close_loop
  close_loop-Post addr leaves rest g b c =
      Post-bind
        (emit-Post n pl _ g b (All-ops n pl fit (Op.fromr ∷ Op.over ∷ Op.over ∷ Op.lt ∷ [])))
        λ g₁ (h₁, _). Post-bind (emit_forward-Post n pl fit Op.jz g₁ h₁) λ r (h₂, _).
          Post-bind (emit-Post n pl _ r.1 h₂ (All-ops n pl fit (Op.swap ∷ Op.tor ∷ Op.tor ∷ [])))
            λ g₃ (h₃, _). Post-bind (emit_backward-Post n pl fit Op.jmp addr g₃ h₃) λ g₄ (h₄, _).
              Post-bind (resolve-Post n pl r.0 g₄ h₄) λ g₅ (h₅, _).
                Post-bind (emit-Post n pl _ g₅ h₅ (All-ops n pl fit (Op.drop ∷ Op.drop ∷ [])))
                  λ g₆ (h₆, _).
                    Post-bind (patch_leaves-Post leaves g₆ h₆)
                      λ g₇ h₇. returns (record { buffer = h₇; control = c })

  loop_at-Post :
      (step : Bytes) (error : FrontErr) (control : List ControlFrame) (g : Gen)
      → All IsByte step
      → IsRaised error
      → BufInv g.current
      → ControlInv control
      → Post n GenInv (loop_at pl step error at control g)
  unfolding loop_at
  loop_at-Post step error [] g bytes raised b c = raises raised within
  loop_at-Post step error (do_control addr leaves ∷ rest) g bytes raised b c =
      Post-bind (emit-Post n pl step g b bytes)
        λ g' (h, _). close_loop-Post addr leaves rest g' h (pop (do_control addr leaves) rest c)
  loop_at-Post step error (if_control _ _ ∷ rest) g bytes raised b c = raises raised within
  loop_at-Post step error (begin_control _ _ ∷ rest) g bytes raised b c = raises raised within

  pub handle_loop-Post : (g : Gen) → GenInv g → Post n GenInv (handle_loop pl at g)
  unfolding handle_loop
  handle_loop-Post g v =
      let step : All IsByte (loop_step pl) = (
        fit Op.fromr,
        (
          fit Op.lit,
          All-append IsByte (i32_le 1) (pl.op_byte Op.add ∷ []) (All-i32_le 1) (fit Op.add, tt),
        ),
      ) in
      loop_at-Post (loop_step pl) loop_without_do g.control g step tt v.buffer v.control

  pub handle_ploop-Post : (g : Gen) → GenInv g → Post n GenInv (handle_ploop pl at g)
  unfolding handle_ploop
  handle_ploop-Post g v =
      loop_at-Post (ploop_step pl) ploop_without_do g.control g
        (All-ops n pl fit (Op.fromr ∷ Op.add ∷ [])) tt v.buffer v.control
