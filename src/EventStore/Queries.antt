-- ===== src/EventStore/Queries.antt =====
-- What InMemoryEventStore of app/shared/events/event_store.py gives back of the events it was given.
use mathlib.Core.List.{append_assoc, append-nil}
use korea_public_data_be.Base.{
  ℕ, zero, suc, ◌≤◌, Bool, Option, none, some, String, List, [], ◌∷◌, ◌++◌, map, leb, ◌≡◌, refl, ap,
  sym, ◌∙◌, subst, length, keep, take, All, arith, Bool-cases, Option-cases, inl, inr,
}
use korea_public_data_be.Dict
use korea_public_data_be.EventStore.Defs.{
  DomainEvent, EventData, event_data_of, Store, empty_store, append_event, matches_criteria, insert,
  sort, limited, deserialize_event, restored, get_events, get_event_count,
}
use korea_public_data_be.EventStore.Index.{IsIndexed, append_event-IsIndexed, filtered_events-found}
use korea_public_data_be.EventStore.Order.{IsInOrder, at_instant, sort-IsInOrder, sort-at_instant}

-- The store after events have been appended one by one
abbrev pub recorded : Store → List DomainEvent → Store
recorded s [] = s
recorded s (e ∷ es) = recorded (append_event s e) es

pub recorded-IsIndexed :
    (s : Store) (es : List DomainEvent) → IsIndexed s → IsIndexed (recorded s es)
recorded-IsIndexed s [] v = v
recorded-IsIndexed s (e ∷ es) v =
    recorded-IsIndexed (append_event s e) es (append_event-IsIndexed s e v)

pub empty_store-IsIndexed : IsIndexed empty_store
unfolding Dict.get_or Dict.get
empty_store-IsIndexed a h = refl

recorded-events :
    (s : Store) (es : List DomainEvent) → (recorded s es).events ≡ s.events ++ map event_data_of es
unfolding append_event
recorded-events s [] = sym (append-nil s.events)
recorded-events s (e ∷ es) =
    recorded-events (append_event s e) es
    ∙ append_assoc s.events (event_data_of e ∷ []) (map event_data_of es)

module _ (P : EventData → Type 0) where
  keep-All : (p : EventData → Bool) (es : List EventData) → All P es → All P (keep p es)
  keep-All p [] h = tt
  keep-All p (e ∷ es) h = elim (Bool-cases (p e)) [
    | inl y ↦ rw y (h.0, keep-All p es h.1)
    | inr n ↦ rw n (keep-All p es h.1)
  ]

  insert-All : (e : EventData) (es : List EventData) → P e → All P es → All P (insert e es)
  unfolding insert
  insert-All e [] p h = (p, tt)
  insert-All e (f ∷ es) p h = elim (Bool-cases (leb e.timestamp f.timestamp)) [
    | inl y ↦ rw y (p, h)
    | inr n ↦ rw n (h.0, insert-All e es p h.1)
  ]

  sort-All : (es : List EventData) → All P es → All P (sort es)
  unfolding sort
  sort-All [] h = tt
  sort-All (e ∷ es) h = insert-All e (sort es) h.0 (sort-All es h.1)

length-insert : (e : EventData) (es : List EventData) → length (insert e es) ≡ suc (length es)
unfolding insert
length-insert e [] = refl
length-insert e (f ∷ es) = ground (arith, length-insert e es)

length-map : (es : List DomainEvent) → length (map event_data_of es) ≡ length es
length-map [] = refl
length-map (e ∷ es) = ap suc (length-map es)

length-sort : (es : List EventData) → length (sort es) ≡ length es
unfolding sort
length-sort [] = refl
length-sort (e ∷ es) = omega (arith, length-insert e (sort es), length-sort es)

length-take_le : (n : ℕ) (es : List EventData) → length (take n es) ≤ n
unfolding take
length-take_le zero es = omega arith
length-take_le (suc n) [] = omega arith
length-take_le (suc n) (e ∷ es) = omega (arith, length-take_le n es)

module _ (build : String → String → Option DomainEvent) where
  -- What is kept of the event can be turned back into it.
  abbrev pub IsReadable : DomainEvent → Type 0
  IsReadable e = deserialize_event build (event_data_of e) ≡ some e

  abbrev Readable : EventData → Type 0
  Readable d = (e : DomainEvent) × (deserialize_event build d ≡ some e) × (event_data_of e ≡ d)

  map-Readable : (es : List DomainEvent) → All IsReadable es → All Readable (map event_data_of es)
  map-Readable [] h = tt
  map-Readable (e ∷ es) h = ((e, h.0, refl), map-Readable es h.1)

  restored-Readable :
      (ds : List EventData) → All Readable ds → map event_data_of (restored build ds) ≡ ds
  unfolding restored
  restored-Readable [] h = refl
  restored-Readable (d ∷ ds) ((e, r, same), h) =
      rw (r, restored) (λ i. same i ∷ restored-Readable ds h i)

  length-restored_le : (ds : List EventData) → length (restored build ds) ≤ length ds
  unfolding restored
  length-restored_le [] = omega arith
  length-restored_le (d ∷ ds) = elim (Option-cases (deserialize_event build d)) [
    | inl n ↦ rw (n, restored) (omega (arith, length-restored_le ds))
    | inr (e, r) ↦ rw (r, restored) (omega (arith, length-restored_le ds))
  ]

  -- What has been appended is read back, chosen and sorted.
  restored-recorded :
      (log : List DomainEvent) (a t : Option String) (v : ℕ)
      → All IsReadable log
      → let chosen = sort (keep (matches_criteria t v a) (recorded empty_store log).events) in
        map event_data_of (restored build chosen) ≡ chosen
  restored-recorded log a t v h =
      let events = (recorded empty_store log).events in
      let readable : All Readable events =
        subst (All Readable) (sym (recorded-events empty_store log)) (map-Readable log h) in
      restored-Readable (sort (keep (matches_criteria t v a) events)) (
        sort-All Readable (keep (matches_criteria t v a) events)
          (keep-All Readable (matches_criteria t v a) events readable))

  -- The answer of an indexed store, in one expression.
  get_events-found :
      (s : Store) (a t : Option String) (v : ℕ) (limit : Option ℕ)
      → IsIndexed s
      → get_events build s a t v limit
        ≡ some (restored build (limited limit (sort (keep (matches_criteria t v a) s.events))))
  unfolding get_events
  get_events-found s a t v limit x = rw (filtered_events-found s a t v x, get_events)

  -- Where each event that has been appended to an empty store can be turned back, get_events
  -- without a limit gives, in the order of the instants, for every instant exactly those of its
  -- events that the filters let through, in the order in which they were appended.
  pub get_events-recorded :
      (log : List DomainEvent) (a t : Option String) (v : ℕ)
      → All IsReadable log
      → let given = map event_data_of log in
        (answer : List DomainEvent) × (get_events build (recorded empty_store log) a t v none
          ≡ some answer)
        × IsInOrder (map event_data_of answer)
        × ((n : ℕ)
            → at_instant n (map event_data_of answer)
              ≡ at_instant n (keep (matches_criteria t v a) given))
  unfolding limited
  get_events-recorded log a t v h =
      let events = (recorded empty_store log).events in
      let chosen = keep (matches_criteria t v a) events in
      let back = restored-recorded log a t v h in
      let stored = ap (λ es. keep (matches_criteria t v a) es) (recorded-events empty_store log) in
      (
        restored build (sort chosen),
        get_events-found (recorded empty_store log) a t v none
            (recorded-IsIndexed empty_store log empty_store-IsIndexed),
        subst IsInOrder (sym back) (sort-IsInOrder chosen),
        λ n. ap (at_instant n) back ∙ sort-at_instant n chosen ∙ ap (at_instant n) stored,
      )

  -- get_event_count tells how many events get_events gives for the same filters, from the first
  -- version on and without a limit, where each event that was appended can be turned back.
  pub get_event_count-get_events :
      (log : List DomainEvent) (a t : Option String) (answer : List DomainEvent)
      → All IsReadable log
      → get_events build (recorded empty_store log) a t 0 none ≡ some answer
      → get_event_count (recorded empty_store log) a t ≡ some (length answer)
  unfolding limited get_event_count
  get_event_count-get_events log a t answer h got =
      let s = recorded empty_store log in
      let valid = recorded-IsIndexed empty_store log empty_store-IsIndexed in
      let chosen = keep (matches_criteria t 0 a) s.events in
      let same : restored build (sort chosen) ≡ answer =
        ap (λ o. elim o [ none ↦ answer | some x ↦ x ])
          (sym (get_events-found s a t 0 none valid) ∙ got) in
      let size : length chosen ≡ length (restored build (sort chosen)) =
        sym (length-sort chosen)
        ∙ ap length (sym (restored-recorded log a t 0 h))
        ∙ length-map (restored build (sort chosen)) in
      rw (filtered_events-found s a t 0 valid, get_event_count)
        (ap (λ n. some n) (size ∙ ap length same))

  -- A positive limit bounds the number of events that are given out, while a limit of zero is none.
  pub get_events_limit :
      (s : Store) (a t : Option String) (v n : ℕ)
      → IsIndexed s
      → (get_events build s a t v (some 0) ≡ get_events build s a t v none)
        × ((answer : List DomainEvent) × (get_events build s a t v (some (suc n)) ≡ some answer)
            × (length answer ≤ suc n))
  unfolding limited
  get_events_limit s a t v n x =
      let chosen = keep (matches_criteria t v a) s.events in
      (
        get_events-found s a t v (some 0) x ∙ sym (get_events-found s a t v none x),
        (
          restored build (take (suc n) (sort chosen)),
          get_events-found s a t v (some (suc n)) x,
          omega (
            arith,
            length-restored_le (take (suc n) (sort chosen)),
            length-take_le (suc n) (sort chosen),
          ),
        ),
      )
