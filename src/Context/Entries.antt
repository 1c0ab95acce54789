-- ===== src/Context/Entries.antt =====
-- The list of the words of a context: what is found and what is updated in it.
use v4_front.Base.{
  ℕ, suc, ◌≡◌, refl, ap, ◌∙◌, ◌⊎◌, inl, inr, Bool, true, false, Bool-cases, List, [], ◌∷◌, ◌++◌,
  Bytes, Option, none, some, length, arith, All, All-append, if◌then◌else◌,
}
use v4_front.Context.{ContextWordEntry, update_entry, find_entry}
use v4_front.Text.{str_eq_ci}
use v4_front.Text.Equality.{str_eq_ci_congr, str_eq_ci_apart, str_eq_ci_comm}

abbrev pub entry : Bytes → ℕ → ContextWordEntry
entry name idx = record { name = name; vm_word_idx = idx }

pub Option-cases : {A : Type 0} (o : Option A) → (o ≡ none) ⊎ ((a : A) × (o ≡ some a))
Option-cases none = inl refl
Option-cases (some a) = inr (a, refl)

-- The first word: found there, or looked for in the rest.
find-cons :
    (m : Bytes) (w : ContextWordEntry) (ws : List ContextWordEntry)
    → find_entry m (w ∷ ws) ≡ (if str_eq_ci w.name m then w.vm_word_idx else find_entry m ws)
unfolding find_entry
find-cons m w ws = refl

update-cons :
    (n : Bytes) (i : ℕ) (w : ContextWordEntry) (ws : List ContextWordEntry)
    {ws' : List ContextWordEntry}
    → update_entry n i (w ∷ ws) ≡ some ws'
    → ((str_eq_ci w.name n ≡ true) × (ws' ≡ entry w.name i ∷ ws))
      ⊎ ((str_eq_ci w.name n ≡ false)
          × ((vs : List ContextWordEntry) × (update_entry n i ws ≡ some vs) × (ws' ≡ w ∷ vs)))
unfolding update_entry
update-cons n i w ws e = elim (Bool-cases (str_eq_ci w.name n)) [
  | inl same ↦ inl (same, ground (arith, same))
  | inr other ↦ elim (Option-cases (update_entry n i ws)) [
    | inl missing ↦ ground (arith, other, missing)
    | inr (vs, found) ↦ inr (other, (vs, found, ground (arith, other, found)))
  ]
]

-- The choice at the first word, where it has the name and where it has not.
if_same :
    (b b' : Bool) (x y z : ℕ)
    → b' ≡ b
    → (if b' then x else z) ≡ (if b then x else if b' then y else z)
if_same true b' x y z e = rw e
if_same false b' x y z e = rw e

if_other :
    (b b' : Bool) (x y z : ℕ)
    → (b' ≡ true → b ≡ false)
    → (if b' then y else if b then x else z) ≡ (if b then x else if b' then y else z)
if_other b true x y z apart = rw (apart refl)
if_other b false x y z apart = refl

pub find-update :
    (n m : Bytes) (i : ℕ) (ws : List ContextWordEntry) {ws' : List ContextWordEntry}
    → update_entry n i ws ≡ some ws'
    → find_entry m ws' ≡ (if str_eq_ci n m then i else find_entry m ws)
unfolding update_entry
find-update n m i [] e = cc
find-update n m i (w ∷ ws) {ws'} e =
    let ih =
      λ (vs : List ContextWordEntry) (f : update_entry n i ws ≡ some vs). find-update n m i ws f in
    elim (update-cons n i w ws e) [
      | inl (same, is) ↦
          rw (is, find-cons, find-cons)
            (if_same (str_eq_ci n m) (str_eq_ci w.name m) i w.vm_word_idx (find_entry m ws)
              (str_eq_ci_congr w.name n m same))
      | inr (other, (vs, found, is)) ↦
          rw (is, find-cons, find-cons, ih vs found)
            (if_other (str_eq_ci n m) (str_eq_ci w.name m) i w.vm_word_idx (find_entry m ws)
              (str_eq_ci_apart w.name n m other))
    ]

-- No word has the name.
abbrev pub Fresh : Bytes → List ContextWordEntry → Type 0
Fresh name = All (λ w. str_eq_ci w.name name ≡ false)

pub update-none :
    (n : Bytes) (i : ℕ) (ws : List ContextWordEntry) → update_entry n i ws ≡ none → Fresh n ws
unfolding update_entry
update-none n i [] e = tt
update-none n i (w ∷ ws) e = elim (Bool-cases (str_eq_ci w.name n)) [
  | inl same ↦ ground (arith, same)
  | inr other ↦ elim (Option-cases (update_entry n i ws)) [
    | inl missing ↦ (other, update-none n i ws missing)
    | inr (vs, found) ↦ ground (arith, other, found)
  ]
]

pub find-append :
    (n m : Bytes) (i : ℕ) (ws : List ContextWordEntry)
    → Fresh n ws
    → find_entry m (ws ++ entry n i ∷ []) ≡ (if str_eq_ci n m then i else find_entry m ws)
find-append n m i [] h = find-cons m (entry n i) []
find-append n m i (w ∷ ws) (other, h) =
    rw (find-cons, find-cons, find-append n m i ws h)
      (if_other (str_eq_ci n m) (str_eq_ci w.name m) i w.vm_word_idx (find_entry m ws)
        (str_eq_ci_apart w.name n m other))

-- No two words have names that are equal but for case.
abbrev pub Distinct : List ContextWordEntry → Type 0
Distinct [] = Unit
Distinct (w ∷ ws) = Fresh w.name ws × Distinct ws

update-Fresh :
    (n m : Bytes) (i : ℕ) (ws : List ContextWordEntry) {ws' : List ContextWordEntry}
    → update_entry n i ws ≡ some ws'
    → Fresh m ws
    → Fresh m ws'
unfolding update_entry
update-Fresh n m i [] e h = cc
update-Fresh n m i (w ∷ ws) e (p, h) =
    let ih = λ (vs : List ContextWordEntry) (f : update_entry n i ws ≡ some vs).
      update-Fresh n m i ws f h in
    elim (update-cons n i w ws e) [
      | inl (same, is) ↦ rw is (p, h)
      | inr (other, (vs, found, is)) ↦ rw is (p, ih vs found)
    ]

pub update-Distinct :
    (n : Bytes) (i : ℕ) (ws : List ContextWordEntry) {ws' : List ContextWordEntry}
    → update_entry n i ws ≡ some ws'
    → Distinct ws
    → (Distinct ws') × (length ws' ≡ length ws)
unfolding update_entry
update-Distinct n i [] e h = cc
update-Distinct n i (w ∷ ws) e (p, h) =
    let ih = λ (vs : List ContextWordEntry) (f : update_entry n i ws ≡ some vs).
      update-Distinct n i ws f h in
    elim (update-cons n i w ws e) [
      | inl (same, is) ↦ rw is ((p, h), refl)
      | inr (other, (vs, found, is)) ↦
          rw is ((update-Fresh n w.name i ws found p, (ih vs found).0), ap suc (ih vs found).1)
    ]

pub append-Distinct :
    (w : ContextWordEntry) (ws : List ContextWordEntry)
    → Fresh w.name ws
    → Distinct ws
    → Distinct (ws ++ w ∷ [])
append-Distinct w [] f h = (tt, tt)
append-Distinct w (v ∷ ws) (other, f) (p, h) = (
  All-append (λ u. str_eq_ci u.name v.name ≡ false) ws (w ∷ []) p
      (str_eq_ci_comm w.name v.name ∙ other, tt),
  append-Distinct w ws f h,
)
