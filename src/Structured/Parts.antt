-- ===== src/Structured/Parts.antt =====
-- A part of a structured program on its own: its code with placeholders, the room that it takes, and
-- the frame of the control word around it.
use v4_front.Base.{
  ℕ, suc, ◌+◌, ◌^◌, ◌≤◌, ◌<◌, ◌≡◌, refl, ◌∙◌, ap, arith, List, ◌∷◌, [], ◌++◌, Bytes, length, Option,
  ◌-◌,
}
use v4_front.Result.{ok}
use v4_front.Platform.{Platform}
use v4_front.Buffer.{Buf, size, i32_le}
use v4_front.Buffer.Append.{IsSized, Extends}
use v4_front.Compiler.{ControlFrame, begin_control, if_control, do_control}
use v4_front.Compiler.Counted.{loop_step}
use v4_front.Structured.{Prog, depth, size_of, leaves, FewLeaves, compile, layout_with, layout}
use v4_front.Structured.Leaves.{
  marks, length-marks, record_all, record_all-append, record_all-if, record_all-begin,
  record_all-do, length-record_all, free, free-record_all, free-if, free-begin, free-do,
}
use v4_front.Structured.Filling.{length-layout_with}
use mathlib.Core.Path.{subst}
use v4_front.Structured.Correct.{gen}

-- The code of the program with placeholders for the LEAVEs of a loop around it, whose end is `n`
-- bytes behind the program, goes behind `b`; the stack `fs` becomes `fs'`.
abbrev pub Compiles : Platform → ℕ → Prog → ℕ → List ControlFrame → List ControlFrame → Buf → Type 0
Compiles pl at p n fs fs' b =
    (b' : Buf) × (compile pl at p (gen b fs) ≡ ok (gen b' fs'))
    × Extends b (layout_with pl (λ k. 0) p n) b'

pub length-loop_step : (pl : Platform) → length (loop_step pl) ≡ 7
unfolding i32_le
length-loop_step pl = refl

-- The layout has the size that the program says.
pub length-layout : (pl : Platform) (p : Prog) → length (layout pl p) ≡ size_of p
unfolding layout
length-layout pl p = length-layout_with pl (λ n. n) p 0

-- The code with placeholders.
abbrev pub raw : Platform → Prog → ℕ → Bytes
raw pl = layout_with pl (λ k. 0)

pub length-raw : (pl : Platform) (p : Prog) (n : ℕ) → length (raw pl p n) ≡ size_of p
length-raw pl = length-layout_with pl (λ k. 0)

-- Room for the program on the stack, in 31 bits and in the loop around it.
abbrev pub Room : Prog → List ControlFrame → Buf → Type 0
Room p fs b =
    (length fs + depth p ≤ 32) × (size b + size_of p < 2 ^ 31) × (leaves p ≤ free fs) × FewLeaves p

-- What the induction hypothesis gives for a part, on any stack and behind any code.
abbrev pub Part : Platform → ℕ → Prog → Type 0
Part pl at p =
    (n : ℕ) (gs : List ControlFrame) (c : Buf)
    → IsSized c
    → Room p gs c
    → Compiles pl at p n gs (record_all (marks p (size c)) gs) c

-- The stack after the LEAVEs of the program, whose code starts at `start`.
abbrev pub marked : Prog → ℕ → List ControlFrame → List ControlFrame
marked p start = record_all (marks p start)

-- The room that the LEAVEs of a part use up.
pub length-marked : (p : Prog) (k : ℕ) (fs : List ControlFrame) → length (marked p k fs) ≡ length fs
length-marked p k fs = length-record_all (marks p k) fs

pub free-marked :
    (p : Prog) (k : ℕ) (fs : List ControlFrame) → free (marked p k fs) ≡ free fs - leaves p
free-marked p k fs = free-record_all (marks p k) fs ∙ omega (arith, length-marks p k)

-- Two parts, one after the other, on the stack.
pub marked-append :
    (p q : Prog) (k m : ℕ) (fs : List ControlFrame)
    → record_all (marks p k ++ marks q m) fs ≡ marked q m (marked p k fs)
marked-append p q k m fs = record_all-append (marks p k) (marks q m) fs

module _ (pl : Platform) (at : ℕ) where
  -- A part in a frame of IF or of BEGIN, and in one of DO.
  pub under_if :
      (p : Prog) (n k a : ℕ) (o : Option ℕ) (fs : List ControlFrame) (c : Buf)
      → Part pl at p
      → IsSized c
      → suc (length fs) + depth p ≤ 32
      → size c + size_of p < 2 ^ 31
      → leaves p ≤ free fs
      → FewLeaves p
      → size c ≡ k
      → Compiles pl at p n (if_control a o ∷ fs) (if_control a o ∷ marked p k fs) c
  under_if p n k a o fs c part sized deep small out few start =
      subst (λ fs'. Compiles pl at p n (if_control a o ∷ fs) fs' c)
        (ap (λ k. marked p k (if_control a o ∷ fs)) start ∙ record_all-if (marks p k) a o fs)
        (part n (if_control a o ∷ fs) c sized (deep, small, omega (arith, free-if a o fs), few))

  pub under_begin :
      (p : Prog) (n k a : ℕ) (o : Option ℕ) (fs : List ControlFrame) (c : Buf)
      → Part pl at p
      → IsSized c
      → suc (length fs) + depth p ≤ 32
      → size c + size_of p < 2 ^ 31
      → leaves p ≤ free fs
      → FewLeaves p
      → size c ≡ k
      → Compiles pl at p n (begin_control a o ∷ fs) (begin_control a o ∷ marked p k fs) c
  under_begin p n k a o fs c part sized deep small out few start =
      subst (λ fs'. Compiles pl at p n (begin_control a o ∷ fs) fs' c)
        (ap (λ k. marked p k (begin_control a o ∷ fs)) start ∙ record_all-begin (marks p k) a o fs)
        (part n (begin_control a o ∷ fs) c sized
          (deep, small, omega (arith, free-begin a o fs), few))

  pub under_do :
      (p : Prog) (n a : ℕ) (fs : List ControlFrame) (c : Buf)
      → Part pl at p
      → IsSized c
      → suc (length fs) + depth p ≤ 32
      → size c + size_of p < 2 ^ 31
      → leaves p ≤ 8
      → FewLeaves p
      → Compiles pl at p n (do_control a [] ∷ fs) (do_control a (marks p (size c)) ∷ fs) c
  under_do p n a fs c part sized deep small out few =
      subst (λ fs'. Compiles pl at p n (do_control a [] ∷ fs) fs' c)
        (record_all-do (marks p (size c)) [] a fs)
        (part n (do_control a [] ∷ fs) c sized (deep, small, omega (arith, free-do a fs), few))
