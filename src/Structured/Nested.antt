-- ===== src/Structured/Nested.antt =====
-- The one-pass handlers against the layout by nesting, for whole structured programs.
use v4_front.Base.{
  ℕ, suc, ◌+◌, ◌^◌, ◌≤◌, ◌<◌, ◌≡◌, refl, ◌∙◌, ap, arith, List, ◌∷◌, [], ◌++◌, append-nil, Bytes,
  length, sym,
}
use v4_front.Result.{ok, ◌>>=◌, bind-ok, FrontErr, loop_without_do, ploop_without_do}
use v4_front.Platform.{Platform, NeverRefuses}
use v4_front.Buffer.{Buf, size}
use v4_front.Buffer.Append.{
  IsSized, Extends, Extends-size, Extends-size_is, Extends-trans, Extends-cong,
}
use v4_front.Compiler.{ControlFrame}
use v4_front.Compiler.Emission.{emit-Emits}
use v4_front.Compiler.Counted.{
  handle_do, handle_loop, handle_ploop, loop_at, loop_step, ploop_step, patch_leaves,
}
use v4_front.Structured.{
  Prog, plain, leave_loop, seq, if_then, if_else, begin_until, begin_again, begin_while, do_loop,
  do_ploop, depth, size_of, leaves, FewLeaves, IsClosed, compile, layout_with, layout, do_prefix,
  loop_test,
}
use v4_front.Structured.Leaves.{marks, length-marks, record_all}
use v4_front.Structured.Filling.{length-layout_with}
use v4_front.Structured.Filled.{layout_with-Fills}
use mathlib.Core.Path.{subst}
use v4_front.Structured.Correct.{gen}
use v4_front.Structured.Counted.{do_lem, leave_lem, loop_lem}
use v4_front.Structured.Parts.{
  length-loop_step, raw, length-raw, Part, marked, length-marked, free-marked, marked-append,
  under_do,
}
use v4_front.Structured.Branches.{
  if_then-Compiles, if_else-Compiles, begin_until-Compiles, begin_again-Compiles,
  begin_while-Compiles,
}

module _ (pl : Platform) (never : NeverRefuses pl) (at : ℕ) where
  -- DO, a body, and LOOP or +LOOP with its own step; the body ends `m` bytes before the end.
  counted-Compiles :
      (p : Prog) (step : Bytes) (m : ℕ) (error : FrontErr) (fs : List ControlFrame) (b : Buf)
      → IsSized b
      → m ≡ length step + 15
      → length fs + suc (depth p) ≤ 32
      → size b + size_of p + length step + 18 < 2 ^ 31
      → leaves p ≤ 8
      → FewLeaves p
      → Part pl at p
      → (b' : Buf) × ((handle_do pl at (gen b fs) >>= compile pl at p >>= λ g.
            loop_at pl step error at g.control g)
          ≡ ok (gen b' fs))
        × Extends b
            (do_prefix pl
              ++ (layout_with pl (λ k. k) p m
                  ++ (step ++ loop_test pl (length (layout_with pl (λ k. k) p m) + length step))))
            b'
  counted-Compiles p step m error fs b s far deep small out few body =
      let (b₁, done₁, e₁) = do_lem pl never at fs b s (omega arith) (omega arith) in
      let n₁ = Extends-size e₁ in
      let (b₂, done₂, e₂) =
        under_do pl at p m (size b₁) fs b₁ body e₁.is_sized (omega arith) (omega (arith, n₁)) out
          few in
      let ys = layout_with pl (λ k. k) p m in
      let (b₃, done₃, e₃) =
        loop_lem pl never at fs (raw pl p m) ys step error e₂ (layout_with-Fills pl p m) far
          (omega (arith, n₁, Extends-size_is e₂ (length-raw pl p m))) in
      let same : length (raw pl p m) ≡ length ys =
        length-raw pl p m ∙ sym (length-layout_with pl (λ k. k) p m) in
      (
        b₃,
        bind-ok _ (bind-ok _ done₁ done₂) done₃,
        Extends-trans e₁
            (Extends-cong (ap (λ k. ys ++ (step ++ loop_test pl (k + length step))) same) e₃),
      )

  seq-Compiles : (p q : Prog) → Part pl at p → Part pl at q → Part pl at (seq p q)
  unfolding compile layout_with
  seq-Compiles p q left right n fs b s (deep, small, out, (few, few')) =
      let m = size_of q + n in
      let k = size b in
      let l = size b + size_of p in
      let (b₁, done₁, e₁) = left m fs b s (omega arith, omega arith, omega arith, few) in
      let n₁ = Extends-size_is e₁ (length-raw pl p m) in
      let (b₂, done₂, e₂) = right n (marked p k fs) b₁ e₁.is_sized (
        omega (arith, length-marked p k fs),
        omega (arith, n₁),
        omega (arith, free-marked p k fs),
        few',
      ) in
      (
        b₂,
        bind-ok _ done₁ done₂
            ∙ ap (λ fs'. ok (gen b₂ fs'))
                (ap (λ l. marked q l (marked p k fs)) n₁ ∙ sym (marked-append p q k l fs)),
        Extends-trans e₁ e₂,
      )

  pub compile-Compiles : (p : Prog) → Part pl at p
  unfolding compile layout_with handle_loop handle_ploop record_all
  compile-Compiles (plain xs) = λ n fs b s room.
      let (deep, small, out, few) = room in emit-Emits pl never xs (gen b fs) s small
  compile-Compiles leave_loop = λ n fs b s room.
      let (deep, small, out, few) = room in leave_lem pl never at fs b s small (omega arith)
  compile-Compiles (seq p q) = seq-Compiles p q (compile-Compiles p) (compile-Compiles q)
  compile-Compiles (if_then p) = if_then-Compiles pl never at p (compile-Compiles p)
  compile-Compiles (if_else p q) =
      if_else-Compiles pl never at p q (compile-Compiles p) (compile-Compiles q)
  compile-Compiles (begin_until p) = begin_until-Compiles pl never at p (compile-Compiles p)
  compile-Compiles (begin_again p) = begin_again-Compiles pl never at p (compile-Compiles p)
  compile-Compiles (begin_while p q) =
      begin_while-Compiles pl never at p q (compile-Compiles p) (compile-Compiles q)
  compile-Compiles (do_loop p) = λ n fs b s room.
      let k = length-loop_step pl in
      let (deep, small, out, (few, few')) = room in
      let (b', done, e) =
        counted-Compiles p (loop_step pl) 22 loop_without_do fs b s (omega (arith, k)) deep
          (omega (arith, k)) few few' (compile-Compiles p) in
      let ys = layout_with pl (λ k. k) p 22 in
      let code =
        λ (k : ℕ). do_prefix pl ++ (ys ++ (loop_step pl ++ loop_test pl (length ys + k))) in
      (b', done, Extends-cong (ap code k) e)
  compile-Compiles (do_ploop p) = λ n fs b s room.
      let (deep, small, out, (few, few')) = room in
      counted-Compiles p (ploop_step pl) 17 ploop_without_do fs b s (omega arith) deep (omega arith)
        few few' (compile-Compiles p)

length-zero : {A : Type 0} (xs : List A) → length xs ≡ 0 → xs ≡ []
length-zero [] none_there = refl
length-zero (x ∷ xs) none_there = absurd (omega arith)

-- A program without a LEAVE outside its loops, from the start.
pub closed-Compiles :
    (pl : Platform) (at : ℕ) (p : Prog) (fs : List ControlFrame) (b : Buf)
    → NeverRefuses pl
    → IsSized b
    → length fs + depth p ≤ 32
    → size b + size_of p < 2 ^ 31
    → IsClosed p
    → (b' : Buf) × (compile pl at p (gen b fs) ≡ ok (gen b' fs)) × Extends b (layout pl p) b'
unfolding layout record_all patch_leaves
closed-Compiles pl at p fs b never s deep small (none_out, few) =
    let (b', done, e) = compile-Compiles pl never at p 0 fs b s (deep, small, omega arith, few) in
    let none_marked : marks p (size b + 0) ≡ [] =
      length-zero (marks p (size b + 0)) (length-marks p (size b + 0) ∙ none_out) in
    let unmarked : marks p (size b) ≡ [] =
      length-zero (marks p (size b)) (length-marks p (size b) ∙ none_out) in
    let compiled : compile pl at p (gen b fs) ≡ ok (gen b' fs) =
      done ∙ ap (λ ms. ok (gen b' (record_all ms fs))) unmarked in
    let (b'', patched, e') =
      (layout_with-Fills pl p 0).fill [] [] b b' fs refl (Extends-cong (sym (append-nil _)) e)
        (omega (arith, Extends-size_is e (length-layout_with pl (λ k. 0) p 0))) in
    let same_gen : ok (gen b' fs) ≡ ok (gen b'' fs) =
      ap (λ ms. patch_leaves ms (gen b' fs)) (sym none_marked) ∙ patched in
    let same : b' ≡ b'' = cc in
    (
      b',
      compiled,
      subst (λ c. Extends b (layout pl p) c) (sym same) (Extends-cong (append-nil _) e'),
    )

-- Compiling a structured program in one pass, with placeholders and backpatching, puts exactly its
-- layout behind the code that is there, on whatever stack, and leaves the stack as it was; a LEAVE
-- jumps to the end of the loop around it. It succeeds where the nesting fits 32 frames, each LEAVE
-- stands in a loop and eight at most in one, the code ends short of 2 ^ 31 bytes and no request for
-- memory is refused.
pub compile-layout :
    (pl : Platform) (at : ℕ) (p : Prog) (fs : List ControlFrame) (b : Buf)
    → NeverRefuses pl
    → IsSized b
    → length fs + depth p ≤ 32
    → size b + size_of p < 2 ^ 31
    → IsClosed p
    → (b' : Buf) × (compile pl at p (record { current = b; control = fs })
        ≡ ok (record { current = b'; control = fs }))
      × (b'.bytes ≡ b.bytes ++ layout pl p)
compile-layout pl at p fs b never s deep small closed =
    let (b', done, e) = closed-Compiles pl at p fs b never s deep small closed in
    (b', done, e.bytes_are)
