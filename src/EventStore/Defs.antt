-- ===== src/EventStore/Defs.antt =====
-- InMemoryEventStore of app/shared/events/event_store.py. A timestamp is a number: the texts that
-- isoformat gives for one time zone are in the order of the instants. Versions are not negative.
use korea_public_data_be.Base.{
  ℕ, zero, suc, Bool, true, false, not, ◌&&◌, Option, none, some, String, List, [], ◌∷◌, ◌++◌, leb,
  ◌==◌, string_eq, if◌then◌else◌, length, keep, take,
}
use korea_public_data_be.Dict
use korea_public_data_be.Dict.{Dict}

-- A DomainEvent: the name of its class, its JSON text, and the fields that the base class declares.
pub record DomainEvent : Type 0 where
  pub class_name : String
  pub json : String
  pub event_id : String
  pub timestamp : ℕ
  pub version : ℕ
  pub aggregate_id : Option String
  pub aggregate_type : Option String
  pub user_id : Option String
  pub correlation_id : Option String

-- What the store keeps of an event
pub record EventData : Type 0 where
  pub event_id : String
  pub event_type : String
  pub event_data : String
  pub timestamp : ℕ
  pub version : ℕ
  pub aggregate_id : Option String
  pub aggregate_type : Option String
  pub user_id : Option String
  pub correlation_id : Option String

unfoldable pub event_data_of : DomainEvent → EventData
event_data_of e = record {
  event_id = e.event_id;
  event_type = e.class_name;
  event_data = e.json;
  timestamp = e.timestamp;
  version = e.version;
  aggregate_id = e.aggregate_id;
  aggregate_type = e.aggregate_type;
  user_id = e.user_id;
  correlation_id = e.correlation_id;
}

pub record Store : Type 0 where
  pub events : List EventData
  pub event_index : Dict String (List ℕ)

abbrev pub empty_store : Store
empty_store = record { events = []; event_index = [] }

unfoldable pub indexed : Dict String (List ℕ) → Option String → ℕ → Dict String (List ℕ)
indexed index none n = index
indexed index (some a) n =
    if a == "" then index else Dict.put index a (Dict.get_or index a [] ++ (n ∷ []))

unfoldable pub append_event : Store → DomainEvent → Store
unfolding indexed event_data_of
append_event s e = record {
  events = s.events ++ (event_data_of e ∷ []);
  event_index = indexed s.event_index e.aggregate_id (length s.events);
}

-- A filter that is given, and that the field of the event does not equal
unfoldable pub differs : Option String → Option String → Bool
differs field none = false
differs none (some a) = not (a == "")
differs (some f) (some a) = not (a == "") && not (f == a)

unfoldable pub matches_criteria : Option String → ℕ → Option String → EventData → Bool
unfolding differs
matches_criteria aggregate_type from_version aggregate_id e =
    not (differs e.aggregate_id aggregate_id)
    && (not (differs e.aggregate_type aggregate_type) && leb from_version e.version)

-- self._events[index], with an IndexError on the left out of range
unfoldable pub event_at : List EventData → ℕ → Option EventData
event_at [] n = none
event_at (e ∷ es) zero = some e
event_at (e ∷ es) (suc n) = event_at es n

unfoldable pub events_at : List EventData → List ℕ → Option (List EventData)
unfolding event_at
events_at es [] = some []
events_at es (n ∷ ns) = elim (event_at es n) [
  | none ↦ none
  | some e ↦ elim (events_at es ns) [ none ↦ none | some rest ↦ some (e ∷ rest) ]
]

-- The events that get_events and get_event_count look through: those that the index has for the
-- aggregate, without its test, or else all.
unfoldable pub by_index :
    Store → Option String → ℕ → String → Option (List ℕ) → Option (List EventData)
unfolding matches_criteria events_at
by_index s t v a none = some (keep (matches_criteria t v (some a)) s.events)
by_index s t v a (some ns) = elim (events_at s.events ns) [
  | none ↦ none
  | some es ↦ some (keep (matches_criteria t v none) es)
]

unfoldable pub filtered_events : Store → Option String → Option String → ℕ → Option (List EventData)
unfolding by_index matches_criteria
filtered_events s none t v = some (keep (matches_criteria t v none) s.events)
filtered_events s (some a) t v =
    if a == ""
    then some (keep (matches_criteria t v (some a)) s.events)
    else by_index s t v a (Dict.get s.event_index a)

-- list.sort by the timestamp, which keeps the order of equal ones
unfoldable pub insert : EventData → List EventData → List EventData
insert e [] = e ∷ []
insert e (f ∷ fs) = if leb e.timestamp f.timestamp then e ∷ f ∷ fs else f ∷ insert e fs

unfoldable pub sort : List EventData → List EventData
unfolding insert
sort [] = []
sort (e ∷ es) = insert e (sort es)

-- `if limit: events[:limit]`
unfoldable pub limited : Option ℕ → List EventData → List EventData
limited none es = es
limited (some zero) es = es
limited (some (suc n)) es = take (suc n) es

abbrev is_known : String → Bool
is_known c =
    if c == "AnnouncementCreatedEvent"
    then true
    else if c == "AnnouncementUpdatedEvent"
    then true
    else if c == "AnnouncementDeletedEvent"
    then true
    else if c == "BusinessCreatedEvent"
    then true
    else if c == "BusinessUpdatedEvent"
    then true
    else if c == "ContentCreatedEvent"
    then true
    else if c == "ContentLikedEvent"
    then true
    else if c == "DataFetchedEvent"
    then true
    else c == "SystemHealthCheckEvent"

-- `build` is the constructor of a class of events, applied to JSON; none if it raises.
module _ (build : String → String → Option DomainEvent) where
  unfoldable pub deserialize_event : EventData → Option DomainEvent
  deserialize_event d = if is_known d.event_type then build d.event_type d.event_data else none

  unfoldable pub restored : List EventData → List DomainEvent
  unfolding deserialize_event
  restored [] = []
  restored (d ∷ ds) = elim (deserialize_event d) [ none ↦ restored ds | some e ↦ e ∷ restored ds ]

  unfoldable pub get_events :
      Store → Option String → Option String → ℕ → Option ℕ → Option (List DomainEvent)
  unfolding filtered_events sort limited restored
  get_events s a t v limit = elim (filtered_events s a t v) [
    | none ↦ none
    | some es ↦ some (restored (limited limit (sort es)))
  ]

  unfoldable pub get_events_stream :
      Store → Option String → Option String → ℕ → Option (List DomainEvent)
  unfolding get_events
  get_events_stream s a t v = get_events s a t v none

unfoldable pub get_event_count : Store → Option String → Option String → Option ℕ
unfolding filtered_events
get_event_count s a t = elim (filtered_events s a t 0) [ none ↦ none | some es ↦ some (length es) ]

unfoldable pub clear : Store → Store
clear s = empty_store
