-- ===== src/Report/Around.antt =====
-- The run of bytes around a position.
use mathlib.Core.Path.{subst}
use v4_front.Base.{
  ℕ, zero, suc, ◌+◌, ◌-◌, ◌≤◌, ◌≡◌, refl, ap, sym, ◌∙◌, ◌⊎◌, inl, inr, Bool, Bool-cases, true,
  false, [], ◌∷◌, ◌++◌, Bytes, length, take, drop, take-drop, take-append, length-take, length-drop,
  drop-append-le, get_elem-lt, take-suc, length-append, append_assoc, All, All-append, arith,
}
use v4_front.Report.{scan_back, run_of, around}

module _ (stop : ℕ → Bool) where
  abbrev pub Inside : Bytes → Type 0
  Inside = All (λ c. stop c ≡ false)

  -- Nothing is in front, or a byte that stops the run.
  abbrev pub EndsStopped : Bytes → Type 0
  EndsStopped pre = (pre ≡ []) ⊎ ((xs : Bytes) × (c : ℕ) × (pre ≡ xs ++ (c ∷ [])) × (stop c ≡ true))

  abbrev pub StartsStopped : Bytes → Type 0
  StartsStopped [] = Unit
  StartsStopped (c ∷ s) = stop c ≡ true

  abbrev Back : Bytes → ℕ → ℕ → Type 0
  Back source p s = (s ≤ p) × Inside (drop s (take p source)) × EndsStopped (take s source)

  drop_all : (n : ℕ) (xs : Bytes) → length xs ≤ n → drop n xs ≡ []
  drop_all zero [] h = refl
  drop_all zero (x ∷ xs) h = absurd (omega arith)
  drop_all (suc n) [] h = refl
  drop_all (suc n) (x ∷ xs) h = drop_all n xs (omega arith)

  scan_back-Back :
      (source : Bytes) (p : ℕ) → p ≤ length source → Back source p (scan_back stop source p)
  unfolding scan_back
  scan_back-Back source zero h = (omega arith, tt, inl refl)
  scan_back-Back source (suc i) h =
      let (c, at) = get_elem-lt source i (omega arith) in
      let (low, inside, ends) = scan_back-Back source i (omega arith) in
      let longer = take-suc source i at in
      let n = length-take i source (omega arith) in
      elim (Bool-cases (stop c)) [
        | inl stops ↦
            let is : scan_back stop source (suc i) ≡ suc i = rw (scan_back, at, stops) refl in
            subst (Back source (suc i)) (sym is) (
              omega arith,
              subst Inside
                  (sym (
                    drop_all (suc i) (take (suc i) source)
                      (omega (arith, length-take (suc i) source h))))
                  tt,
              inr (take i source, c, longer, stops),
            )
        | inr goes ↦
            let s = scan_back stop source i in
            let is : scan_back stop source (suc i) ≡ s = rw (scan_back, at, goes) refl in
            subst (Back source (suc i)) (sym is) (
              omega (arith, low),
              subst Inside
                  (sym (
                    ap (drop s) longer
                    ∙ drop-append-le s (take i source) (c ∷ []) (omega (arith, n, low))))
                  (All-append (λ c. stop c ≡ false) (drop s (take i source)) (c ∷ []) inside
                    (goes, tt)),
              ends,
            )
      ]

  run_of-lem :
      (s : Bytes)
      → (post : Bytes) × (s ≡ run_of stop s ++ post) × Inside (run_of stop s) × StartsStopped post
  unfolding run_of
  run_of-lem [] = ([], refl, tt, tt)
  run_of-lem (c ∷ s) = elim (Bool-cases (stop c)) [
    | inl stops ↦ rw stops (c ∷ s, refl, tt, stops)
    | inr goes ↦
        let (post, is, inside, starts) = run_of-lem s in
        rw goes (post, ap (λ r. c ∷ r) is, (goes, inside), starts)
  ]

-- The run around a position in the text is the whole stretch between two stops: what is in front of
-- it ends with a stop or is empty, what is behind it starts with one or is empty, it holds none, and
-- the position lies in it or at its end.
pub around-IsRun :
    (stop : ℕ → Bool) (source : Bytes) (error_pos : ℕ)
    → error_pos ≤ length source
    → (pre : Bytes) × (post : Bytes) × (source ≡ pre ++ (around stop source error_pos ++ post))
      × Inside stop (around stop source error_pos)
      × EndsStopped stop pre
      × StartsStopped stop post
      × (length pre ≤ error_pos)
      × (error_pos ≤ length pre + length (around stop source error_pos))
unfolding around
around-IsRun stop source p h =
    let start = scan_back stop source p in
    let run = run_of stop (drop p source) in
    let (low, inside, ends) = scan_back-Back stop source p h in
    let (post, is, inside', starts) = run_of-lem stop (drop p source) in
    let front = drop start (take p source) in
    let n : length front ≡ p - start =
      length-drop start (take p source) ∙ omega (arith, length-take p source h) in
    let tail : drop start source ≡ front ++ (run ++ post) =
      ap (drop start) (sym (take-drop p source))
      ∙ drop-append-le start (take p source) (drop p source)
          (omega (arith, low, length-take p source h))
      ∙ ap (λ l. front ++ l) is in
    let whole : around stop source p ≡ front ++ run =
      ap (λ l. take (p + length run - start) l) (tail ∙ sym (append_assoc front run post))
      ∙ ap (λ k. take k ((front ++ run) ++ post)) (omega (arith, low, n, length-append front run))
      ∙ take-append (front ++ run) post in
    (
      take start source,
      post,
      sym (take-drop start source)
          ∙ ap (λ l. take start source ++ l)
              (tail ∙ sym (append_assoc front run post) ∙ ap (λ l. l ++ post) (sym whole)),
      subst (Inside stop) (sym whole) (All-append (λ c. stop c ≡ false) front run inside inside'),
      ends,
      starts,
      omega (arith, low, length-take start source (omega (arith, low, h))),
      omega (
        arith,
        low,
        n,
        ap length whole,
        length-append front run,
        length-take start source (omega (arith, low, h)),
      ),
    )
