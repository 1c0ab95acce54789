-- ===== src/Memory/Owned.antt =====
-- Which blocks are accounted for, and that freeing them is defined.
use v4_front.Base.{
  ℕ, zero, suc, ◌+◌, ◌<◌, ◌≡◌, refl, ◌∙◌, true, Bool-cases, inl, inr, List, [], ◌∷◌, ◌++◌, some,
  arith, ◌==◌, ==_iff, if◌then◌else◌,
}
use v4_front.Platform.{Platform}
use v4_front.Memory.{Heap, remove, free, free_all, malloc}

-- How often an address stands in a list.
unfoldable pub count : ℕ → List ℕ → ℕ
count p [] = 0
count p (q ∷ ps) = if p == q then suc (count p ps) else count p ps

-- The allocated blocks are those of `ps` and those of `rest`, each as often as it stands there. Null
-- pointers do not count.
pub record Owns (h : Heap) (ps rest : List ℕ) : Type 0 where
  pub exactly : (q : ℕ) → count (suc q) h.live ≡ count (suc q) ps + count (suc q) rest

pub count-append : (q : ℕ) (ps qs : List ℕ) → count q (ps ++ qs) ≡ count q ps + count q qs
unfolding count
count-append q [] qs = omega arith
count-append q (p ∷ ps) qs = ground (arith, count-append q ps qs)

-- Once, if it is the address.
unfoldable pub hits : ℕ → ℕ → ℕ
hits p q = if p == q then 1 else 0

pub count-nil : (q : ℕ) → count q [] ≡ 0
unfolding count
count-nil q = refl

pub count-cons : (q p : ℕ) (ps : List ℕ) → count q (p ∷ ps) ≡ hits q p + count q ps
unfolding count hits
count-cons q p ps = ground arith

pub hits-null : (q p : ℕ) → (p == 0) ≡ true → hits (suc q) p ≡ 0
unfolding hits
hits-null q p null = ground (arith, null)

-- The sums that a count is, for `simp`.
pub ruleset counts = (count-nil, count-cons, count-append)

pub count-null : (q : ℕ) (ps : List ℕ) → count (suc q) (0 ∷ ps) ≡ count (suc q) ps
unfolding count
count-null q ps = ground arith

remove-count :
    (p : ℕ) (live : List ℕ) (n : ℕ)
    → count p live ≡ suc n
    → (live' : List ℕ) × (remove p live ≡ some live')
      × ((q : ℕ) → count q live ≡ (if q == p then suc (count q live') else count q live'))
unfolding count remove
remove-count p [] n e = absurd (omega arith)
remove-count p (x ∷ live) n e = elim (Bool-cases (p == x)) [
  | inl here ↦ (live, rw here refl, λ q. ground (arith, (==_iff p x).0 here))
  | inr other ↦
      let (live', done, counts) = remove-count p live n (ground (arith, other, e)) in
      (x ∷ live', rw (other, done) refl, λ q. ground (arith, counts q, other))
]

pub free-Owns :
    (p : ℕ) {h : Heap} {ps rest : List ℕ}
    → Owns h (p ∷ ps) rest
    → (h' : Heap) × (free p h ≡ some h') × Owns h' ps rest
unfolding free count
free-Owns zero {h} o = (h, refl, record { exactly = λ q. ground (arith, o.exactly q) })
free-Owns (suc p) {h} {ps} {rest} o =
    let (live', done, counts) =
      remove-count (suc p) h.live (count (suc p) ps + count (suc p) rest)
        (ground (arith, o.exactly p)) in
    (
      record h { live = live' },
      rw done refl,
      record { exactly = λ q. ground (arith, o.exactly q, counts (suc q)) },
    )

pub free_all-Owns :
    (ps : List ℕ) {h : Heap} {qs rest : List ℕ}
    → Owns h (ps ++ qs) rest
    → (h' : Heap) × (free_all ps h ≡ some h') × Owns h' qs rest
unfolding free_all
free_all-Owns [] {h} o = (h, refl, o)
free_all-Owns (p ∷ ps) o =
    let (h₁, done, o₁) = free-Owns p o in
    let (h', done', o') = free_all-Owns ps o₁ in (h', rw done done', o')

-- Other lists with the same addresses in them.
pub Owns-cong :
    {h : Heap} {ps qs rest rest' : List ℕ}
    → Owns h ps rest
    → ((q : ℕ) → count (suc q) ps + count (suc q) rest ≡ count (suc q) qs + count (suc q) rest')
    → Owns h qs rest'
Owns-cong o same = record { exactly = λ q. o.exactly q ∙ same q }

-- What is not null is above it.
pub malloc-pos : (pl : Platform) (n : ℕ) (h : Heap) → pl.alloc n ≡ true → 0 < (malloc pl n h).0
unfolding malloc
malloc-pos pl n h given = rw given (omega arith)

pub malloc-Owns :
    (pl : Platform) (n : ℕ) {h : Heap} {ps rest : List ℕ}
    → Owns h ps rest
    → Owns (malloc pl n h).1 ((malloc pl n h).0 ∷ ps) rest
unfolding malloc count
malloc-Owns pl n {h} o = elim (Bool-cases (pl.alloc n)) [
  | inl given ↦ rw given (record { exactly = λ q. ground (arith, o.exactly q) })
  | inr refused ↦ rw refused (record { exactly = λ q. ground (arith, o.exactly q) })
]
