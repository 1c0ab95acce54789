-- ===== src/Machine/Meaning.antt =====
-- What structured programs mean, by their nesting and without code: the tests of IF, UNTIL and WHILE
-- look at the cell on top, and a counted loop keeps index and limit on the return stack. AGAIN has no
-- end, so it has no meaning, but a LEAVE in it may end the loop around it.
use v4_front.Base.{ℕ, suc, ◌≡◌, Bool, true, false, List, ◌∷◌, Bytes}
use v4_front.Structured.{
  Prog, plain, leave_loop, seq, if_then, if_else, begin_until, begin_again, begin_while, do_loop,
  do_ploop,
}
use v4_front.Machine.{Vm, Stacks, Does}
use v4_front.Machine.Opcodes.{plus, less}

-- The step at the end of a turn takes the index from the return stack, and for +LOOP what to add to
-- it from the data stack. It gives the new index and the limit, and what is below them.
pub data Counts : Bool → Stacks → ℕ → ℕ → List ℕ → List ℕ → Type 0 where
  by_one : {i l : ℕ} {d r : List ℕ} → Counts false (d, i ∷ l ∷ r) (plus i 1) l d r
  by_top : {n i l : ℕ} {d r : List ℕ} → Counts true (n ∷ d, i ∷ l ∷ r) (plus n i) l d r

module _ (vm : Vm) where
  mutual
    -- The program, from its start to its end, takes the first stacks to the second.
    pub data Means : Prog → Stacks → Stacks → Type 0 where
      plainly : (xs : Bytes) {s s' : Stacks} → Does vm xs s s' → Means (plain xs) s s'
      in_turn : {a b : Prog} {s t u : Stacks} → Means a s t → Means b t u → Means (seq a b) s u
      then_true :
          {a : Prog} (x : ℕ) {d r : List ℕ} {s' : Stacks}
          → Means a (d, r) s'
          → Means (if_then a) (suc x ∷ d, r) s'
      then_false : {a : Prog} {d r : List ℕ} → Means (if_then a) (0 ∷ d, r) (d, r)
      else_true :
          {a b : Prog} (x : ℕ) {d r : List ℕ} {s' : Stacks}
          → Means a (d, r) s'
          → Means (if_else a b) (suc x ∷ d, r) s'
      else_false :
          {a b : Prog} {d r : List ℕ} {s' : Stacks}
          → Means b (d, r) s'
          → Means (if_else a b) (0 ∷ d, r) s'
      until_true :
          {a : Prog} (x : ℕ) {s : Stacks} {d r : List ℕ}
          → Means a s (suc x ∷ d, r)
          → Means (begin_until a) s (d, r)
      until_false :
          {a : Prog} {s s' : Stacks} {d r : List ℕ}
          → Means a s (0 ∷ d, r)
          → Means (begin_until a) (d, r) s'
          → Means (begin_until a) s s'
      while_false :
          {a b : Prog} {s : Stacks} {d r : List ℕ}
          → Means a s (0 ∷ d, r)
          → Means (begin_while a b) s (d, r)
      while_true :
          {a b : Prog} (x : ℕ) {s t s' : Stacks} {d r : List ℕ}
          → Means a s (suc x ∷ d, r)
          → Means b (d, r) t
          → Means (begin_while a b) t s'
          → Means (begin_while a b) s s'
      counted :
          {a : Prog} {i l : ℕ} {d r : List ℕ} {s' : Stacks}
          → Turns false a (d, i ∷ l ∷ r) s'
          → Means (do_loop a) (i ∷ l ∷ d, r) s'
      counted_by :
          {a : Prog} {i l : ℕ} {d r : List ℕ} {s' : Stacks}
          → Turns true a (d, i ∷ l ∷ r) s'
          → Means (do_ploop a) (i ∷ l ∷ d, r) s'

    -- The turns of a counted loop that are left, of +LOOP if the test says so. The limit of a turn is
    -- the index of the next one, and the new index is its limit.
    pub data Turns : Bool → Prog → Stacks → Stacks → Type 0 where
      last :
          {plus_loop : Bool} {a : Prog} {s t : Stacks} {i l : ℕ} {d r : List ℕ}
          → Means a s t
          → Counts plus_loop t i l d r
          → less i l ≡ false
          → Turns plus_loop a s (d, r)
      once_more :
          {plus_loop : Bool} {a : Prog} {s t s' : Stacks} {i l : ℕ} {d r : List ℕ}
          → Means a s t
          → Counts plus_loop t i l d r
          → less i l ≡ true
          → Turns plus_loop a (d, l ∷ i ∷ r) s'
          → Turns plus_loop a s s'
      left : {plus_loop : Bool} {a : Prog} {s s' : Stacks} → Leaves a s s' → Turns plus_loop a s s'

    -- The program comes to a LEAVE for a loop around it; the second stacks are those at the end of
    -- that loop, with index and limit dropped.
    pub data Leaves : Prog → Stacks → Stacks → Type 0 where
      leave_here : {x y : ℕ} {d r : List ℕ} → Leaves leave_loop (d, x ∷ y ∷ r) (d, r)
      leave_first : {a b : Prog} {s s' : Stacks} → Leaves a s s' → Leaves (seq a b) s s'
      leave_second :
          {a b : Prog} {s t s' : Stacks} → Means a s t → Leaves b t s' → Leaves (seq a b) s s'
      leave_then :
          {a : Prog} (x : ℕ) {d r : List ℕ} {s' : Stacks}
          → Leaves a (d, r) s'
          → Leaves (if_then a) (suc x ∷ d, r) s'
      leave_true :
          {a b : Prog} (x : ℕ) {d r : List ℕ} {s' : Stacks}
          → Leaves a (d, r) s'
          → Leaves (if_else a b) (suc x ∷ d, r) s'
      leave_false :
          {a b : Prog} {d r : List ℕ} {s' : Stacks}
          → Leaves b (d, r) s'
          → Leaves (if_else a b) (0 ∷ d, r) s'
      leave_until : {a : Prog} {s s' : Stacks} → Leaves a s s' → Leaves (begin_until a) s s'
      leave_until_later :
          {a : Prog} {s s' : Stacks} {d r : List ℕ}
          → Means a s (0 ∷ d, r)
          → Leaves (begin_until a) (d, r) s'
          → Leaves (begin_until a) s s'
      leave_again : {a : Prog} {s s' : Stacks} → Leaves a s s' → Leaves (begin_again a) s s'
      leave_again_later :
          {a : Prog} {s t s' : Stacks}
          → Means a s t
          → Leaves (begin_again a) t s'
          → Leaves (begin_again a) s s'
      leave_test : {a b : Prog} {s s' : Stacks} → Leaves a s s' → Leaves (begin_while a b) s s'
      leave_body :
          {a b : Prog} (x : ℕ) {s s' : Stacks} {d r : List ℕ}
          → Means a s (suc x ∷ d, r)
          → Leaves b (d, r) s'
          → Leaves (begin_while a b) s s'
      leave_while_later :
          {a b : Prog} (x : ℕ) {s t s' : Stacks} {d r : List ℕ}
          → Means a s (suc x ∷ d, r)
          → Means b (d, r) t
          → Leaves (begin_while a b) t s'
          → Leaves (begin_while a b) s s'
