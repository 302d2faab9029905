-- ===== src/EventStore/Index.antt =====
-- The index of InMemoryEventStore in app/shared/events/event_store.py against the list of events.
use mathlib.Core.List.{append_assoc, append-nil}
use native.Mathlib.Nat.{add-zero, zero-add}
use korea_public_data_be.Base.{
  ℕ, suc, ◌+◌, Bool, false, not, Option, none, some, String, List, [], ◌∷◌, ◌++◌, ◌==◌, ◌≡◌, refl,
  ap, sym, ◌∙◌, subst, string_eq, if◌then◌else◌, length, keep, arith, Bool-cases, inl, inr,
  equals-eq, length-append,
}
use korea_public_data_be.Dict
use korea_public_data_be.Dict.{Dict, get_or-put}
use korea_public_data_be.EventStore.Defs.{
  DomainEvent, EventData, event_data_of, Store, indexed, append_event, differs, matches_criteria,
  event_at, events_at, by_index, filtered_events,
}

-- The event belongs to the aggregate.
abbrev pub belongs : String → EventData → Bool
belongs a e = not (differs e.aggregate_id (some a))

-- The positions of the events of an aggregate, counted from the first argument on
abbrev pub positions : ℕ → String → List EventData → List ℕ
positions n a [] = []
positions n a (e ∷ es) = let rest = positions (n + 1) a es in if belongs a e then n ∷ rest else rest

-- For every aggregate, the index has the positions of its events, in order.
abbrev pub IsIndexed : Store → Type 0
IsIndexed s =
    (a : String) → (a == "") ≡ false → Dict.get_or s.event_index a [] ≡ positions 0 a s.events

positions-append :
    (n : ℕ) (a : String) (es : List EventData) (e : EventData)
    → positions n a (es ++ (e ∷ []))
      ≡ positions n a es ++ (if belongs a e then (n + length es) ∷ [] else [])
positions-append n a [] e =
    rw (add-zero) (elim (Bool-cases (belongs a e)) [ inl h ↦ rw h | inr h ↦ rw h ])
positions-append n a (f ∷ es) e =
    let later = positions-append (n + 1) a es e in
    let place : (n + 1) + length es ≡ n + suc (length es) = omega arith in
    let step =
      subst
        (λ m.
          positions (n + 1) a (es ++ (e ∷ []))
          ≡ positions (n + 1) a es ++ (if belongs a e then m ∷ [] else []))
        place later in
    elim (Bool-cases (belongs a f)) [ inl h ↦ rw h (ap (λ ns. n ∷ ns) step) | inr h ↦ rw h step ]

event_at-append :
    (front : List EventData) (e : EventData) (back : List EventData)
    → event_at (front ++ (e ∷ back)) (length front) ≡ some e
unfolding event_at
event_at-append [] e back = refl
event_at-append (f ∷ front) e back = event_at-append front e back

-- Reading at the positions of an aggregate gives its events.
events_at-positions :
    (front : List EventData) (a : String) (es : List EventData)
    → events_at (front ++ es) (positions (length front) a es) ≡ some (keep (belongs a) es)
unfolding events_at
events_at-positions front a [] = refl
events_at-positions front a (e ∷ es) =
    let whole : (front ++ (e ∷ [])) ++ es ≡ front ++ (e ∷ es) = append_assoc front (e ∷ []) es in
    let size : length (front ++ (e ∷ [])) ≡ length front + 1 = length-append front (e ∷ []) in
    let step =
      subst (λ l. events_at l (positions (length front + 1) a es) ≡ some (keep (belongs a) es))
        whole
        (subst
          (λ n.
            events_at ((front ++ (e ∷ [])) ++ es) (positions n a es) ≡ some (keep (belongs a) es))
          size (events_at-positions (front ++ (e ∷ [])) a es)) in
    elim (Bool-cases (belongs a e)) [
      | inl h ↦ rw h (rw (event_at-append front e es, events_at) (rw (step, events_at)))
      | inr h ↦ rw h step
    ]

-- The index after an event is that before it, with the position for the event's aggregate.
get_or-indexed :
    (d : Dict String (List ℕ)) (owner : Option String) (n : ℕ) (a : String)
    → (a == "") ≡ false
    → Dict.get_or (indexed d owner n) a []
      ≡ Dict.get_or d a [] ++ (if not (differs owner (some a)) then n ∷ [] else [])
unfolding indexed differs
get_or-indexed d none n a h = rw h (sym (append-nil (Dict.get_or d a [])))
get_or-indexed d (some o) n a h =
    let write = get_or-put d o a (Dict.get_or d o [] ++ (n ∷ [])) [] in
    elim (Bool-cases (o == a)) [
      | inl e ↦
          let given : (o == "") ≡ false =
            subst {A = String} (λ b. (b == "") ≡ false) (sym (equals-eq e)) h in
          rw given
            (rw h (rw e ((rw e at write) ∙ ap (λ b. Dict.get_or d b [] ++ (n ∷ [])) (equals-eq e))))
      | inr e ↦ elim (Bool-cases (o == "")) [
        | inl g ↦ rw g (rw h (rw e (sym (append-nil (Dict.get_or d a [])))))
        | inr g ↦ rw g (rw h (rw e ((rw e at write) ∙ sym (append-nil (Dict.get_or d a [])))))
      ]
    ]

-- Appending an event keeps the index right: after it, too, the index has for every aggregate that
-- is named by a text that is not empty the positions of its events, in order.
pub append_event-IsIndexed :
    (s : Store) (e : DomainEvent) → IsIndexed s → IsIndexed (append_event s e)
unfolding append_event event_data_of
append_event-IsIndexed s e v a h =
    get_or-indexed s.event_index e.aggregate_id (length s.events) a h
    ∙ ap (λ ns. ns ++ (if not (differs e.aggregate_id (some a)) then length s.events ∷ [] else []))
        (v a h)
    ∙ sym (rw zero-add at (positions-append 0 a s.events (event_data_of e)))

keep-belongs :
    (t : Option String) (v : ℕ) (a : String) (es : List EventData)
    → keep (matches_criteria t v none) (keep (belongs a) es)
      ≡ keep (matches_criteria t v (some a)) es
unfolding matches_criteria differs
keep-belongs t v a [] = refl
keep-belongs t v a (e ∷ es) =
    let rest = keep-belongs t v a es in
    elim (Bool-cases (differs e.aggregate_id (some a))) [
      | inl h ↦ rw h rest
      | inr h ↦ rw h (ground (arith, rest))
    ]

abbrev pub found : Store → Option String → Option String → ℕ → Option (List EventData)
found s a t v = some (keep (matches_criteria t v a) s.events)

by_index-found :
    (s : Store) (t : Option String) (v : ℕ) (a : String) (o : Option (List ℕ))
    → IsIndexed s
    → (a == "") ≡ false
    → Dict.get s.event_index a ≡ o
    → by_index s t v a o ≡ found s (some a) t v
unfolding by_index Dict.get_or
by_index-found s t v a none x h e = refl
by_index-found s t v a (some ns) x h e =
    let same : ns ≡ positions 0 a s.events = rw (e, Dict.get_or) at (x a h) in
    rw same (
      rw (events_at-positions [] a s.events, by_index)
        (ap (λ es. some es) (keep-belongs t v a s.events)))

-- In an indexed store the index changes nothing: the events that a filter finds are those of a scan
-- of all the events, in their order.
pub filtered_events-found :
    (s : Store) (a t : Option String) (v : ℕ)
    → IsIndexed s
    → filtered_events s a t v ≡ found s a t v
unfolding filtered_events
filtered_events-found s none t v x = refl
filtered_events-found s (some a) t v x = elim (Bool-cases (a == "")) [
  | inl e ↦ rw e
  | inr e ↦ rw e (by_index-found s t v a (Dict.get s.event_index a) x e refl)
]
