-- ===== src/Structured/Branches.antt =====
-- The handlers of IF and BEGIN in src/compile.cpp, around parts that compile to their layout.
use v4_front.Base.{
  ℕ, suc, ◌+◌, ◌^◌, ◌≤◌, ◌<◌, ◌≡◌, refl, ◌∙◌, ap, arith, List, ◌∷◌, ◌++◌, Bytes, length, none, some,
  sym,
}
use v4_front.Result.{ok, ◌>>=◌, bind-ok}
use v4_front.Platform.{Platform, Op, NeverRefuses}
use v4_front.Buffer.{Buf, size}
use v4_front.Buffer.Append.{IsSized, Extends, Extends-size_is, Extends-trans}
use v4_front.Compiler.{ControlFrame, if_control}
use v4_front.Compiler.Emission.{jump, length-jump, sizes}
use v4_front.Compiler.Branch.{handle_if, handle_else, handle_then}
use v4_front.Structured.{
  Prog, if_then, if_else, begin_until, begin_again, begin_while, depth, size_of, leaves, FewLeaves,
  compile, layout_with,
}
use v4_front.Structured.Leaves.{free}
use v4_front.Structured.Correct.{
  gen, if_lem, then_lem, else_lem, else_then_lem, begin_lem, until_lem, again_lem, while_lem,
  repeat_lem,
}
use v4_front.Structured.Parts.{
  raw, length-raw, Part, marked, length-marked, free-marked, marked-append, under_if, under_begin,
}

module _ (pl : Platform) (never : NeverRefuses pl) (at : ℕ) where
  pub if_then-Compiles : (p : Prog) → Part pl at p → Part pl at (if_then p)
  unfolding compile layout_with
  if_then-Compiles p body n fs b s (deep, small, out, few) =
      let (b₁, done₁, e₁) = if_lem pl never at fs b s (omega arith) (omega arith) in
      let n₁ = Extends-size_is e₁ (length-jump pl Op.jz 0) in
      let (b₂, done₂, e₂) =
        under_if pl at p n (size b + 3) (size b + 1) none fs b₁ body e₁.is_sized (omega arith)
          (omega (arith, n₁)) out few n₁ in
      let n₂ = Extends-size_is e₂ (length-raw pl p n) in
      let (b₃, done₃, e₃) =
        then_lem pl never at (marked p (size b + 3) fs) (raw pl p n) (Extends-trans e₁ e₂)
          (omega (arith, n₁, n₂)) in
      (b₃, bind-ok _ (bind-ok _ done₁ done₂) done₃, e₃)

  else_length :
      (p : Prog) (n : ℕ)
      → length (jump pl Op.jz (length (raw pl p n) + 3) ++ (raw pl p n ++ jump pl Op.jmp 0))
        ≡ size_of p + 6
  else_length p n = simp sizes (omega (arith, length-raw pl p n))

  -- IF, the first part and ELSE; the frame has the place of the placeholder of the JMP.
  if_else_first :
      (p : Prog) (m : ℕ) (fs : List ControlFrame) (b : Buf)
      → Part pl at p
      → IsSized b
      → length fs + suc (depth p) ≤ 32
      → size b + size_of p + 6 < 2 ^ 31
      → leaves p ≤ free fs
      → FewLeaves p
      → (b₃ : Buf) × (addr : ℕ) × ((handle_if pl at (gen b fs)
            >>= compile pl at p
            >>= handle_else pl at)
          ≡ ok (gen b₃ (if_control (size b + 1) (some addr) ∷ marked p (size b + 3) fs)))
        × Extends b (jump pl Op.jz (length (raw pl p m) + 3) ++ (raw pl p m ++ jump pl Op.jmp 0)) b₃
        × (addr ≡ size b + 3 + length (raw pl p m) + 1)
  if_else_first p m fs b left s deep small out few =
      let k = size b + 3 in
      let (b₁, done₁, e₁) = if_lem pl never at fs b s (omega arith) (omega arith) in
      let n₁ = Extends-size_is e₁ (length-jump pl Op.jz 0) in
      let (b₂, done₂, e₂) =
        under_if pl at p m k (size b + 1) none fs b₁ left e₁.is_sized (omega arith)
          (omega (arith, n₁)) out few n₁ in
      let n₂ = Extends-size_is e₂ (length-raw pl p m) in
      let (b₃, done₃, e₃) =
        else_lem pl never at (marked p k fs) (raw pl p m) (Extends-trans e₁ e₂)
          (omega (arith, n₁, n₂)) in
      (
        b₃,
        size b₂ + 1,
        bind-ok _ (bind-ok _ done₁ done₂) done₃,
        e₃,
        omega (arith, n₁, n₂, length-raw pl p m),
      )

  -- The second part and THEN.
  if_else_second :
      (q : Prog) (n addr : ℕ) (xs : Bytes) (fs : List ControlFrame) (b b₃ : Buf)
      → Part pl at q
      → Extends b (jump pl Op.jz (length xs + 3) ++ (xs ++ jump pl Op.jmp 0)) b₃
      → addr ≡ size b + 3 + length xs + 1
      → suc (length fs) + depth q ≤ 32
      → size b₃ + size_of q < 2 ^ 31
      → leaves q ≤ free fs
      → FewLeaves q
      → (b₅ : Buf) × ((compile pl at q (gen b₃ (if_control (size b + 1) (some addr) ∷ fs))
            >>= handle_then at)
          ≡ ok (gen b₅ (marked q (size b₃) fs)))
        × Extends b
            (jump pl Op.jz (length xs + 3)
              ++ (xs ++ (jump pl Op.jmp (length (raw pl q n)) ++ raw pl q n)))
            b₅
  if_else_second q n addr xs fs b b₃ right e₃ at_jmp deep small out few =
      let (b₄, done₄, e₄) =
        under_if pl at q n (size b₃) (size b + 1) (some addr) fs b₃ right e₃.is_sized deep small out
          few refl in
      let (b₅, done₅, e₅) =
        else_then_lem pl never at (marked q (size b₃) fs) xs (raw pl q n) addr e₃ e₄ at_jmp
          (omega (arith, Extends-size_is e₄ (length-raw pl q n))) in
      (b₅, bind-ok _ done₄ done₅, e₅)

  pub if_else-Compiles : (p q : Prog) → Part pl at p → Part pl at q → Part pl at (if_else p q)
  unfolding compile layout_with
  if_else-Compiles p q left right n fs b s (deep, small, out, (few, few')) =
      let m = 3 + size_of q + n in
      let k = size b + 3 in
      let l = size b + 3 + size_of p + 3 in
      let fs₂ = marked p k fs in
      let (b₃, addr, done₃, e₃, at_jmp) =
        if_else_first p m fs b left s (omega arith) (omega arith) (omega arith) few in
      let n₃ = Extends-size_is e₃ (else_length p m) in
      let (b₅, done₅, e₅) =
        if_else_second q n addr (raw pl p m) fs₂ b b₃ right e₃ at_jmp
          (omega (arith, length-marked p k fs)) (omega (arith, n₃))
          (omega (arith, free-marked p k fs)) few' in
      let start : size b₃ ≡ l = omega (arith, n₃) in
      (
        b₅,
        ap (λ r. r >>= compile pl at q >>= handle_then at) done₃
            ∙ done₅
            ∙ ap (λ fs'. ok (gen b₅ fs'))
                (ap (λ l. marked q l fs₂) start ∙ sym (marked-append p q k l fs)),
        e₅,
      )

  pub begin_until-Compiles : (p : Prog) → Part pl at p → Part pl at (begin_until p)
  unfolding compile layout_with
  begin_until-Compiles p body n fs b s (deep, small, out, few) =
      let done₁ = begin_lem pl never at fs b (omega arith) in
      let (b₂, done₂, e₂) =
        under_begin pl at p (3 + n) (size b) (size b) none fs b body s (omega arith) (omega arith)
          out few refl in
      let (b₃, done₃, e₃) =
        until_lem pl never at (marked p (size b) fs) (raw pl p (3 + n)) e₂
          (omega (arith, Extends-size_is e₂ (length-raw pl p (3 + n)))) in
      (b₃, bind-ok _ (bind-ok _ done₁ done₂) done₃, e₃)

  pub begin_again-Compiles : (p : Prog) → Part pl at p → Part pl at (begin_again p)
  unfolding compile layout_with
  begin_again-Compiles p body n fs b s (deep, small, out, few) =
      let done₁ = begin_lem pl never at fs b (omega arith) in
      let (b₂, done₂, e₂) =
        under_begin pl at p (3 + n) (size b) (size b) none fs b body s (omega arith) (omega arith)
          out few refl in
      let (b₃, done₃, e₃) =
        again_lem pl never at (marked p (size b) fs) (raw pl p (3 + n)) e₂
          (omega (arith, Extends-size_is e₂ (length-raw pl p (3 + n)))) in
      (b₃, bind-ok _ (bind-ok _ done₁ done₂) done₃, e₃)

  pub begin_while-Compiles :
      (p q : Prog) → Part pl at p → Part pl at q → Part pl at (begin_while p q)
  unfolding compile layout_with
  begin_while-Compiles p q left right n fs b s (deep, small, out, (few, few')) =
      let m = 3 + size_of q + 3 + n in
      let k = size b in
      let l = size b + size_of p + 3 in
      let done₁ = begin_lem pl never at fs b (omega arith) in
      let (b₂, done₂, e₂) =
        under_begin pl at p m k (size b) none fs b left s (omega arith) (omega arith) (omega arith)
          few refl in
      let fs₂ = marked p k fs in
      let n₂ = Extends-size_is e₂ (length-raw pl p m) in
      let (b₃, done₃, e₃) = while_lem pl never at fs₂ b₂ (size b) e₂.is_sized (omega (arith, n₂)) in
      let n₃ = Extends-size_is e₃ (length-jump pl Op.jz 0) in
      let (b₄, done₄, e₄) =
        under_begin pl at q (3 + n) l (size b) (some (size b₂ + 1)) fs₂ b₃ right e₃.is_sized
          (omega (arith, length-marked p k fs)) (omega (arith, n₂, n₃))
          (omega (arith, free-marked p k fs)) few' (omega (arith, n₂, n₃)) in
      let (b₅, done₅, e₅) =
        repeat_lem pl never at (marked q l fs₂) (raw pl p m) (raw pl q (3 + n)) e₂ e₃ e₄
          (omega (arith, n₂, n₃, Extends-size_is e₄ (length-raw pl q (3 + n)))) in
      (
        b₅,
        bind-ok _ (bind-ok _ (bind-ok _ (bind-ok _ done₁ done₂) done₃) done₄) done₅
            ∙ ap (λ fs'. ok (gen b₅ fs')) (sym (marked-append p q k l fs)),
        e₅,
      )
