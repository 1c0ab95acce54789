-- ===== src/Context/Sessions.antt =====
-- Sequences of calls on one context, against a map from names to indices.
use mathlib.Core.Path.{subst}
use v4_front.Base.{
  ℤ, pos, ◌≢◌, Option, inl, inr, sym, ℕ, ◌≡◌, refl, ap, ◌∙◌, List, [], ◌∷◌, some, Bytes,
  if◌then◌else◌, arith,
}
use v4_front.Platform.{Platform}
use v4_front.Text.{str_eq_ci}
use v4_front.Context.{
  V4FrontContext, context_create, context_reset, context_register_word, context_find_word,
  find_entry, minus_one,
}
use v4_front.Context.Laws.{find-register, register-error, register-IsValid, find-reset, IsValid}

-- What a call does to the map.
pub data Event : Type 0 where
  registered : Bytes → ℕ → Event
  refused : Event
  cleared : Event

-- One call; the allocator may answer differently each time.
pub data Step : V4FrontContext → Event → V4FrontContext → Type 0 where
  register :
      (pl : Platform) (name : Bytes) (idx : ℕ) {ctx ctx' : V4FrontContext}
      → context_register_word pl (some ctx) (some name) idx ≡ (some ctx', pos 0)
      → Step ctx (registered name idx) ctx'
  fail :
      (pl : Platform) (name : Option Bytes) (idx : ℕ) (code : ℤ) {ctx ctx' : V4FrontContext}
      → context_register_word pl (some ctx) name idx ≡ (some ctx', code)
      → code ≢ pos 0
      → Step ctx refused ctx'
  clear : {ctx ctx' : V4FrontContext} → context_reset (some ctx) ≡ some ctx' → Step ctx cleared ctx'

pub data Session : V4FrontContext → List Event → V4FrontContext → Type 0 where
  start : {ctx : V4FrontContext} → Session ctx [] ctx
  call :
      {ctx ctx₁ ctx₂ : V4FrontContext} {event : Event} {events : List Event}
      → Step ctx event ctx₁
      → Session ctx₁ events ctx₂
      → Session ctx (event ∷ events) ctx₂

-- A map from names to indices, -1 for a name that is not in it.
abbrev pub NameMap : Type 0
NameMap = Bytes → ℕ

-- The specification: a later registration of a name, in any case, wins; a refused one does nothing.
abbrev pub apply : Event → NameMap → NameMap
apply (registered name idx) map m = if str_eq_ci name m then idx else map m
apply refused map m = map m
apply cleared map m = minus_one

abbrev pub apply_all : List Event → NameMap → NameMap
apply_all [] map = map
apply_all (event ∷ events) map = apply_all events (apply event map)

-- The map of a context.
abbrev pub names_in : V4FrontContext → NameMap
names_in ctx m = context_find_word (some ctx) (some m)

Step-find :
    {ctx ctx' : V4FrontContext} {event : Event} (m : Bytes)
    → Step ctx event ctx'
    → names_in ctx' m ≡ apply event (names_in ctx) m
unfolding context_find_word
Step-find m (register pl name idx e) = find-register pl _ name m idx e
Step-find m (fail pl name idx code e failed) = elim (register-error pl (some _) name idx e failed) [
  | inl (_, _, same) ↦ ap (λ ctx. context_find_word ctx (some m)) same
  | inr (c, c', is, is', _, same) ↦
      ap (λ ctx. context_find_word ctx (some m)) is'
      ∙ ap (find_entry m) same
      ∙ ap (λ ctx. context_find_word ctx (some m)) (sym is)
]
Step-find m (clear {ctx} e) =
    ap (λ ctx. context_find_word ctx (some m)) (sym e) ∙ find-reset ctx (some m)

apply_all-cong :
    (events : List Event) (f g : NameMap)
    → ((m : Bytes) → f m ≡ g m)
    → (m : Bytes) → apply_all events f m ≡ apply_all events g m
apply_all-cong [] f g h m = h m
apply_all-cong (event ∷ events) f g h m =
    apply_all-cong events (apply event f) (apply event g) (apply-cong event h) m
  where
    apply-cong :
        (event : Event)
        → ((m : Bytes) → f m ≡ g m)
        → (m : Bytes) → apply event f m ≡ apply event g m
    apply-cong (registered name idx) h m = ap (λ i. if str_eq_ci name m then idx else i) (h m)
    apply-cong refused h m = h m
    apply-cong cleared h m = refl

-- After any sequence of registrations, refused or not, and resets, a context finds what the map
-- does that the same events make of what it found before.
pub Session-find :
    {ctx ctx' : V4FrontContext} {events : List Event} (m : Bytes)
    → Session ctx events ctx'
    → names_in ctx' m ≡ apply_all events (names_in ctx) m
Session-find m start = refl
Session-find m (call {event = event} {events = events} step rest) =
    Session-find m rest ∙ apply_all-cong events _ _ (λ n. Step-find n step) m

Step-IsValid :
    {ctx ctx' : V4FrontContext} {event : Event} → Step ctx event ctx' → IsValid ctx → IsValid ctx'
unfolding context_reset
Step-IsValid (register pl name idx e) v = register-IsValid pl _ (some name) idx v e
Step-IsValid (fail pl name idx code e failed) v = register-IsValid pl _ name idx v e
Step-IsValid (clear {ctx} {ctx'} e) v =
    let is : record ctx { words = [] } ≡ ctx' = cc in
    subst IsValid is (record { fits = omega arith; distinct = tt })

Session-IsValid :
    {ctx ctx' : V4FrontContext} {events : List Event}
    → Session ctx events ctx'
    → IsValid ctx
    → IsValid ctx'
Session-IsValid start v = v
Session-IsValid (call step rest) v = Session-IsValid rest (Step-IsValid step v)

-- Whatever calls are made on a new context, no two of its words have names equal but for case, and
-- the count is within the capacity.
pub reachable-IsValid :
    {ctx : V4FrontContext} {events : List Event} → Session context_create events ctx → IsValid ctx
unfolding context_create
reachable-IsValid s = Session-IsValid s (record { fits = omega arith; distinct = tt })
