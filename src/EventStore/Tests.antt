-- ===== src/EventStore/Tests.antt =====
-- Three events in the store of app/shared/events/event_store.py; the theorems applied.
use korea_public_data_be.Base.{
  ℕ, Option, none, some, String, List, [], ◌∷◌, ◌≡◌, refl, map, keep, All, ◌==◌, string_eq,
  if◌then◌else◌,
}
use korea_public_data_be.Dict
use korea_public_data_be.EventStore.Defs.{
  DomainEvent, event_data_of, deserialize_event, empty_store, append_event, indexed,
  matches_criteria, differs, get_events, filtered_events, by_index, event_at, events_at, insert,
  sort, limited, restored,
}
use korea_public_data_be.EventStore.Index.{IsIndexed, append_event-IsIndexed}
use korea_public_data_be.EventStore.Order.{IsInOrder, at_instant}
use korea_public_data_be.EventStore.Queries.{
  recorded, IsReadable, empty_store-IsIndexed, recorded-IsIndexed, get_events-recorded,
}

abbrev created : DomainEvent
created = record {
  class_name = "ContentCreatedEvent";
  json = "created";
  event_id = "1";
  timestamp = 20;
  version = 1;
  aggregate_id = some "a";
  aggregate_type = some "content";
  user_id = none;
  correlation_id = none;
}

abbrev liked : DomainEvent
liked = record created {
  class_name = "ContentLikedEvent";
  json = "liked";
  event_id = "2";
  timestamp = 10;
  version = 2;
}

abbrev fetched : DomainEvent
fetched = record created {
  class_name = "DataFetchedEvent";
  json = "fetched";
  event_id = "3";
  aggregate_id = none;
}

-- The constructors, as far as the three events need them
abbrev build : String → String → Option DomainEvent
build c j =
    if j == "created" then some created else if j == "liked" then some liked else some fetched

abbrev log : List DomainEvent
log = created ∷ liked ∷ fetched ∷ []

log-IsReadable : All (IsReadable build) log
unfolding deserialize_event event_data_of
log-IsReadable = (refl, (refl, (refl, tt)))

-- The liking has the earlier timestamp, and the limit of zero is none.
ordered :
    get_events build (recorded empty_store log) (some "a") none 0 (some 0)
    ≡ some (liked ∷ created ∷ [])
unfolding append_event indexed event_data_of get_events filtered_events by_index events_at event_at
    matches_criteria differs sort insert limited restored deserialize_event Dict.get Dict.put
    Dict.get_or
ordered = refl

append_event-IsIndexed_example :
    IsIndexed (append_event (recorded empty_store (created ∷ [])) liked)
append_event-IsIndexed_example =
    append_event-IsIndexed (recorded empty_store (created ∷ [])) liked
      (recorded-IsIndexed empty_store (created ∷ []) empty_store-IsIndexed)

get_events-recorded_example :
    (answer : List DomainEvent) × (get_events build
        (recorded empty_store log)
        (some "a")
        none
        0
        none
      ≡ some answer)
    × IsInOrder (map event_data_of answer)
    × ((n : ℕ)
        → at_instant n (map event_data_of answer)
          ≡ at_instant n (keep (matches_criteria none 0 (some "a")) (map event_data_of log)))
get_events-recorded_example = get_events-recorded build log (some "a") none 0 log-IsReadable
