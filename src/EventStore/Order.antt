-- ===== src/EventStore/Order.antt =====
-- The order in which app/shared/events/event_store.py gives out events: a stable sort.
use korea_public_data_be.Base.{
  ℕ, ◌≤◌, List, [], ◌∷◌, leb, eqb, ◌≡◌, refl, ◌∙◌, keep, All, arith, Bool-cases, inl, inr, leb→le,
}
use korea_public_data_be.EventStore.Defs.{EventData, insert, sort}

-- Each event is not later than those after it.
abbrev pub IsInOrder : List EventData → Type 0
IsInOrder [] = Unit
IsInOrder (e ∷ es) = All (λ f. e.timestamp ≤ f.timestamp) es × IsInOrder es

-- The events of one instant, in order
abbrev pub at_instant : ℕ → List EventData → List EventData
at_instant n es = keep (λ e. eqb e.timestamp n) es

insert-All :
    (n : ℕ) (e : EventData) (es : List EventData)
    → n ≤ e.timestamp
    → All (λ f. n ≤ f.timestamp) es
    → All (λ f. n ≤ f.timestamp) (insert e es)
unfolding insert
insert-All n e [] h a = (h, tt)
insert-All n e (f ∷ es) h a = elim (Bool-cases (leb e.timestamp f.timestamp)) [
  | inl c ↦ rw c (h, (a.0, a.1))
  | inr c ↦ rw c (a.0, insert-All n e es h a.1)
]

weaken :
    (m n : ℕ) (es : List EventData)
    → m ≤ n
    → All (λ f. n ≤ f.timestamp) es
    → All (λ f. m ≤ f.timestamp) es
weaken m n [] h a = tt
weaken m n (e ∷ es) h a = (omega (arith, h, a.0), weaken m n es h a.1)

insert-IsInOrder : (e : EventData) (es : List EventData) → IsInOrder es → IsInOrder (insert e es)
unfolding insert
insert-IsInOrder e [] h = (tt, tt)
insert-IsInOrder e (f ∷ es) h = elim (Bool-cases (leb e.timestamp f.timestamp)) [
  | inl c ↦
      let le = leb→le e.timestamp f.timestamp c in
      rw c ((le, weaken e.timestamp f.timestamp es le h.0), (h.0, h.1))
  | inr c ↦ rw c (insert-All f.timestamp e es (ground (arith, c)) h.0, insert-IsInOrder e es h.1)
]

pub sort-IsInOrder : (es : List EventData) → IsInOrder (sort es)
unfolding sort
sort-IsInOrder [] = tt
sort-IsInOrder (e ∷ es) = insert-IsInOrder e (sort es) (sort-IsInOrder es)

insert-at_instant :
    (n : ℕ) (e : EventData) (es : List EventData)
    → at_instant n (insert e es) ≡ at_instant n (e ∷ es)
unfolding insert
insert-at_instant n e [] = refl
insert-at_instant n e (f ∷ es) = elim (Bool-cases (leb e.timestamp f.timestamp)) [
  | inl c ↦ rw c
  | inr c ↦ rw c (ground (arith, insert-at_instant n e es, c))
]

pub sort-at_instant : (n : ℕ) (es : List EventData) → at_instant n (sort es) ≡ at_instant n es
unfolding sort
sort-at_instant n [] = refl
sort-at_instant n (e ∷ es) =
    insert-at_instant n e (sort es) ∙ (ground (arith, sort-at_instant n es))
