-- ===== src/Alerts/Reminders.antt =====
-- The schedule of reminders in app/domains/alerts/frequency_manager.py.
use korea_public_data_be.Base.{
  ℕ, ◌+◌, ◌*◌, ◌≤◌, Option, inl, inr, List, [], ◌∷◌, ltb, leb, eqb, nat_eq, ◌≡◌, refl, ◌∙◌, arith,
  Bool-cases, if◌then◌else◌, All, count,
}
use korea_public_data_be.Alerts.Defs.{
  Preferences, or_default, upcoming, insert, sort, get_deadline_reminder_schedule,
}

abbrev pub IsAscending : List ℕ → Type 0
IsAscending [] = Unit
IsAscending (x ∷ xs) = All (λ y. x ≤ y) xs × IsAscending xs

insert-All : (n x : ℕ) (xs : List ℕ) → n ≤ x → All (λ y. n ≤ y) xs → All (λ y. n ≤ y) (insert x xs)
unfolding insert
insert-All n x [] h a = (h, tt)
insert-All n x (y ∷ ys) h a = elim (Bool-cases (leb x y)) [
  | inl c ↦ rw c (h, a)
  | inr c ↦ rw c (a.0, insert-All n x ys h a.1)
]

weaken : (m n : ℕ) (xs : List ℕ) → m ≤ n → All (λ y. n ≤ y) xs → All (λ y. m ≤ y) xs
weaken m n [] h a = tt
weaken m n (x ∷ xs) h a = (omega (arith, h, a.0), weaken m n xs h a.1)

insert-IsAscending : (x : ℕ) (xs : List ℕ) → IsAscending xs → IsAscending (insert x xs)
unfolding insert
insert-IsAscending x [] h = (tt, tt)
insert-IsAscending x (y ∷ ys) h = elim (Bool-cases (leb x y)) [
  | inl c ↦ rw c ((ground (arith, c), weaken x y ys (ground (arith, c)) h.0), h)
  | inr c ↦ rw c (insert-All y x ys (ground (arith, c)) h.0, insert-IsAscending x ys h.1)
]

sort-IsAscending : (xs : List ℕ) → IsAscending (sort xs)
unfolding sort
sort-IsAscending [] = tt
sort-IsAscending (x ∷ xs) = insert-IsAscending x (sort xs) (sort-IsAscending xs)

count-insert : (a x : ℕ) (xs : List ℕ) → count a (insert x xs) ≡ count a (x ∷ xs)
unfolding insert
count-insert a x [] = refl
count-insert a x (y ∷ ys) = ground (arith, count-insert a x ys)

count-sort : (a : ℕ) (xs : List ℕ) → count a (sort xs) ≡ count a xs
unfolding sort
count-sort a [] = refl
count-sort a (x ∷ xs) = ground (arith, count-insert a x (sort xs), count-sort a xs)

-- How many of the days before the deadline fall on an instant
abbrev pub falls_on : ℕ → ℕ → List ℕ → ℕ
falls_on t deadline [] = 0
falls_on t deadline (d ∷ ds) =
    let rest = falls_on t deadline ds in
    if eqb (t + d * 86400000000) deadline then 1 + rest else rest

count-upcoming :
    (t now deadline : ℕ) (ds : List ℕ)
    → count t (upcoming now deadline ds) ≡ (if ltb now t then falls_on t deadline ds else 0)
unfolding upcoming
count-upcoming t now deadline [] = ground arith
count-upcoming t now deadline (d ∷ ds) = ground (arith, count-upcoming t now deadline ds)

-- The reminders are in the order of time, and at each instant after now there are as many as the
-- preferences have days that fall on it, counted back from the deadline; before there is none.
pub get_deadline_reminder_schedule-IsAscending :
    (preferences : Option Preferences) (now deadline : ℕ)
    → let schedule = get_deadline_reminder_schedule preferences now deadline in
      IsAscending schedule
      × ((t : ℕ)
          → count t schedule ≡ (
              if ltb now t
              then falls_on t deadline (or_default preferences).deadline_reminder_days
              else 0))
unfolding get_deadline_reminder_schedule
get_deadline_reminder_schedule-IsAscending preferences now deadline =
    let days = (or_default preferences).deadline_reminder_days in
    (
      sort-IsAscending (upcoming now deadline days),
      λ t. count-sort t (upcoming now deadline days) ∙ count-upcoming t now deadline days,
    )
