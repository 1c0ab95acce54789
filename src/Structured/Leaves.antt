-- ===== src/Structured/Leaves.antt =====
-- The LEAVEs of a structured program: the placeholders that `compile_internal` of src/compile.cpp
-- records in the frame of the loop around it, and the patching of them at the end of the loop.
use v4_front.Base.{
  ℕ, suc, ◌+◌, ◌-◌, ◌<◌, ◌≡◌, refl, ◌∙◌, ap, sym, arith, List, [], ◌∷◌, ◌++◌, append_assoc,
  append-nil, length, length-append, Option, none, some,
}
use v4_front.Compiler.{ControlFrame, if_control, begin_control, do_control}
use v4_front.Compiler.Counted.{innermost_do, record_leave}
use v4_front.Structured.{
  Prog, plain, leave_loop, seq, if_then, if_else, begin_until, begin_again, begin_while, do_loop,
  do_ploop, size_of, leaves,
}

-- The places of the placeholders, where the code of the program starts at `at`.
abbrev pub marks : Prog → ℕ → List ℕ
marks (plain xs) at = []
marks leave_loop at = (at + 5) ∷ []
marks (seq p q) at = marks p at ++ marks q (at + size_of p)
marks (if_then p) at = marks p (at + 3)
marks (if_else p q) at = marks p (at + 3) ++ marks q (at + 3 + size_of p + 3)
marks (begin_until p) at = marks p at
marks (begin_again p) at = marks p at
marks (begin_while p q) at = marks p at ++ marks q (at + size_of p + 3)
marks (do_loop p) at = []
marks (do_ploop p) at = []

pub length-marks : (p : Prog) (at : ℕ) → length (marks p at) ≡ leaves p
length-marks (plain xs) at = refl
length-marks leave_loop at = refl
length-marks (seq p q) at =
    length-append (marks p at) (marks q _)
    ∙ omega (arith, length-marks p at, length-marks q (at + size_of p))
length-marks (if_then p) at = length-marks p (at + 3)
length-marks (if_else p q) at =
    length-append (marks p (at + 3)) (marks q _)
    ∙ omega (arith, length-marks p (at + 3), length-marks q (at + 3 + size_of p + 3))
length-marks (begin_until p) at = length-marks p at
length-marks (begin_again p) at = length-marks p at
length-marks (begin_while p q) at =
    length-append (marks p at) (marks q _)
    ∙ omega (arith, length-marks p at, length-marks q (at + size_of p + 3))
length-marks (do_loop p) at = refl
length-marks (do_ploop p) at = refl

-- Several LEAVEs, one after the other.
unfoldable pub record_all : List ℕ → List ControlFrame → List ControlFrame
unfolding record_leave
record_all [] fs = fs
record_all (m ∷ ms) fs = record_all ms (record_leave m fs)

pub record_all-append :
    (ms ns : List ℕ) (fs : List ControlFrame)
    → record_all (ms ++ ns) fs ≡ record_all ns (record_all ms fs)
unfolding record_all
record_all-append [] ns fs = refl
record_all-append (m ∷ ms) ns fs = record_all-append ms ns (record_leave m fs)

pub record_all-if :
    (ms : List ℕ) (a : ℕ) (o : Option ℕ) (fs : List ControlFrame)
    → record_all ms (if_control a o ∷ fs) ≡ if_control a o ∷ record_all ms fs
unfolding record_all record_leave
record_all-if [] a o fs = refl
record_all-if (m ∷ ms) a o fs = record_all-if ms a o (record_leave m fs)

pub record_all-begin :
    (ms : List ℕ) (a : ℕ) (o : Option ℕ) (fs : List ControlFrame)
    → record_all ms (begin_control a o ∷ fs) ≡ begin_control a o ∷ record_all ms fs
unfolding record_all record_leave
record_all-begin [] a o fs = refl
record_all-begin (m ∷ ms) a o fs = record_all-begin ms a o (record_leave m fs)

pub record_all-do :
    (ms ls : List ℕ) (a : ℕ) (fs : List ControlFrame)
    → record_all ms (do_control a ls ∷ fs) ≡ do_control a (ls ++ ms) ∷ fs
unfolding record_all record_leave
record_all-do [] ls a fs = ap (λ l. do_control a l ∷ fs) (sym (append-nil ls))
record_all-do (m ∷ ms) ls a fs =
    record_all-do ms (ls ++ m ∷ []) a fs
    ∙ ap (λ l. do_control a l ∷ fs) (append_assoc ls (m ∷ []) ms)

length-record_leave : (m : ℕ) (fs : List ControlFrame) → length (record_leave m fs) ≡ length fs
unfolding record_leave
length-record_leave m [] = refl
length-record_leave m (do_control a ls ∷ fs) = refl
length-record_leave m (if_control a o ∷ fs) = ap suc (length-record_leave m fs)
length-record_leave m (begin_control a o ∷ fs) = ap suc (length-record_leave m fs)

pub length-record_all :
    (ms : List ℕ) (fs : List ControlFrame) → length (record_all ms fs) ≡ length fs
unfolding record_all
length-record_all [] fs = refl
length-record_all (m ∷ ms) fs = length-record_all ms (record_leave m fs) ∙ length-record_leave m fs

-- The LEAVEs that the innermost loop on the stack still takes; outside a loop it is none.
abbrev free_in : Option (List ℕ) → ℕ
free_in none = 0
free_in (some ls) = 8 - length ls

unfoldable pub free : List ControlFrame → ℕ
unfolding innermost_do
free fs = free_in (innermost_do fs)

free-record_leave : (m : ℕ) (fs : List ControlFrame) → free (record_leave m fs) ≡ free fs - 1
unfolding record_leave free innermost_do
free-record_leave m [] = refl
free-record_leave m (do_control a ls ∷ fs) = omega (arith, length-append ls (m ∷ []))
free-record_leave m (if_control a o ∷ fs) = free-record_leave m fs
free-record_leave m (begin_control a o ∷ fs) = free-record_leave m fs

pub free-record_all :
    (ms : List ℕ) (fs : List ControlFrame) → free (record_all ms fs) ≡ free fs - length ms
unfolding record_all
free-record_all [] fs = omega arith
free-record_all (m ∷ ms) fs =
    free-record_all ms (record_leave m fs) ∙ omega (arith, free-record_leave m fs)

-- A loop with room on the stack.
pub free-innermost :
    (fs : List ControlFrame)
    → 0 < free fs
    → (ls : List ℕ) × (innermost_do fs ≡ some ls) × (length ls < 8)
unfolding free innermost_do
free-innermost [] room = absurd (omega arith)
free-innermost (do_control a ls ∷ fs) room = (ls, refl, omega arith)
free-innermost (if_control a o ∷ fs) room = free-innermost fs room
free-innermost (begin_control a o ∷ fs) room = free-innermost fs room

pub free-if : (a : ℕ) (o : Option ℕ) (fs : List ControlFrame) → free (if_control a o ∷ fs) ≡ free fs
unfolding free innermost_do
free-if a o fs = refl

pub free-begin :
    (a : ℕ) (o : Option ℕ) (fs : List ControlFrame) → free (begin_control a o ∷ fs) ≡ free fs
unfolding free innermost_do
free-begin a o fs = refl

pub free-do : (a : ℕ) (fs : List ControlFrame) → free (do_control a [] ∷ fs) ≡ 8
unfolding free innermost_do
free-do a fs = refl
