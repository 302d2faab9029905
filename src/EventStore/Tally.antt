-- ===== src/EventStore/Tally.antt =====
-- get_statistics of InMemoryEventStore in app/shared/events/event_store.py.
use korea_public_data_be.Base.{
  ℕ, ◌+◌, Bool, true, false, Option, none, some, String, List, [], ◌∷◌, ◌==◌, HasEquality,
  string_eq, ◌≡◌, ◌↔◌, refl, ap, equals_refl, equals-eq, if◌then◌else◌, length, arith, Bool-cases,
  inl, inr,
}
use korea_public_data_be.Dict
use korea_public_data_be.Dict.{Dict, get_or-put}
use korea_public_data_be.EventStore.Defs.{EventData, Store}

abbrev same_option : Option String → Option String → Bool
same_option none none = true
same_option (some a) (some b) = a == b
same_option _ _ = false

pub same_option_iff : (a b : Option String) → (same_option a b ≡ true) ↔ (a ≡ b)
same_option_iff none none = (λ h. refl, λ h. refl)
same_option_iff none (some b) = (λ h. cc, λ h. cc)
same_option_iff (some a) none = (λ h. cc, λ h. cc)
same_option_iff (some a) (some b) = (
  λ h. ap (λ x. some x) (equals-eq h),
  λ h. rw (ap {B = String} (λ o. elim o [ none ↦ a | some x ↦ x ]) h) (equals_refl b),
)

instance abbrev pub option_eq : HasEquality (Option String)
option_eq = record { equals = same_option; equals_iff = same_option_iff }

-- A count of the events by a key, from the counts of those before
unfoldable pub tally :
    {K : Type 0} ⦃e : HasEquality K⦄ → (EventData → K) → Dict K ℕ → List EventData → Dict K ℕ
tally key d [] = d
tally key d (e ∷ es) = tally key (Dict.put d (key e) (Dict.get_or d (key e) 0 + 1)) es

pub record Statistics : Type 0 where
  pub total_events : ℕ
  pub event_types : Dict String ℕ
  pub aggregate_types : Dict (Option String) ℕ
  pub indexed_aggregates : ℕ

unfoldable pub get_statistics : Store → Statistics
unfolding tally
get_statistics s = record {
  total_events = length s.events;
  event_types = tally (λ e. e.event_type) [] s.events;
  aggregate_types = tally (λ e. e.aggregate_type) [] s.events;
  indexed_aggregates = length s.event_index;
}

-- How many events have the key
abbrev pub occurrences : {K : Type 0} ⦃e : HasEquality K⦄ → (EventData → K) → K → List EventData → ℕ
occurrences key k [] = 0
occurrences key k (e ∷ es) =
    let rest = occurrences key k es in if key e == k then 1 + rest else rest

module _ {K : Type 0} ⦃eq : HasEquality K⦄ (key : EventData → K) where
  get_or-tally :
      (d : Dict K ℕ) (es : List EventData) (k : K)
      → Dict.get_or (tally key d es) k 0 ≡ Dict.get_or d k 0 + occurrences key k es
  unfolding tally
  get_or-tally d [] k = omega arith
  get_or-tally d (e ∷ es) k =
      let now = Dict.get_or d (key e) 0 + 1 in
      let step = get_or-tally (Dict.put d (key e) now) es k in
      elim (Bool-cases (key e == k)) [
        | inl h ↦ rw h (
            omega (
              arith,
              step,
              (rw h at (get_or-put d (key e) k now 0)),
              ap (λ j. Dict.get_or d j 0) (equals-eq h),
            ))
        | inr h ↦ rw h (omega (arith, step, (rw h at (get_or-put d (key e) k now 0))))
      ]

-- The statistics give, for every class of events and every aggregate type, its number of events in
-- the store.
pub get_statistics-counts :
    (s : Store) (c : String) (t : Option String)
    → let st = get_statistics s in
      (Dict.get_or st.event_types c 0 ≡ occurrences (λ e. e.event_type) c s.events)
      × (Dict.get_or st.aggregate_types t 0 ≡ occurrences (λ e. e.aggregate_type) t s.events)
unfolding get_statistics Dict.get_or Dict.get
get_statistics-counts s c t = (
  omega (arith, get_or-tally (λ e. e.event_type) [] s.events c),
  omega (arith, get_or-tally (λ e. e.aggregate_type) [] s.events t),
)
