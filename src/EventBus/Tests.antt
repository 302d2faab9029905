-- ===== src/EventBus/Tests.antt =====
-- A bus with two handlers of one class of events; the theorems on app/shared/events/domain_events.py applied.
use korea_public_data_be.Base.{ℕ, true, false, none, some, String, List, [], ◌∷◌, ◌≡◌, refl}
use korea_public_data_be.Dict
use korea_public_data_be.EventBus.Defs.{
  EventHandler, EventBus, first_error, remove_handler, subscribe, unsubscribe, handle_event_sync,
  publish, start_processing, get_handler_count,
}
use korea_public_data_be.EventBus.Delivery.{start_processing-faults, handle_event_sync_blames}

-- An event is a number, of one class.
abbrev class_of : ℕ → String
class_of e = "Created"

abbrev mail : EventHandler ℕ
mail = record { name = "mail"; can_handle = λ e. true; raises = λ e. some "no server" }

abbrev index : EventHandler ℕ
index = record { name = "index"; can_handle = λ e. true; raises = λ e. none }

-- It handles no event.
abbrev audit : EventHandler ℕ
audit = record { name = "audit"; can_handle = λ e. false; raises = λ e. none }

abbrev bus_of : List (EventHandler ℕ) → List ℕ → EventBus ℕ
bus_of hs es = record {
  handlers = ("Created", hs) ∷ [];
  middleware = [];
  running = false;
  event_queue = es;
  failed_events = [];
}

abbrev busy : EventBus ℕ
busy = bus_of (index ∷ mail ∷ []) (1 ∷ 2 ∷ [])

count :
    get_handler_count class_of
      (unsubscribe class_of (subscribe class_of busy "Created" audit) "Created" "index")
      "Created"
    ≡ 2
unfolding get_handler_count unsubscribe subscribe remove_handler Dict.put Dict.get_or Dict.get
    Dict.has
count = refl

queued : (publish class_of busy 3 false).0.event_queue ≡ 1 ∷ 2 ∷ 3 ∷ []
unfolding publish
queued = refl

start_processing-faults_example : start_processing class_of busy ≡ record busy {
  running = true;
  event_queue = [];
  failed_events = (1, "mail", "no server") ∷ (2, "mail", "no server") ∷ [];
}
unfolding Dict.get_or Dict.get first_error
start_processing-faults_example =
    start_processing-faults class_of busy refl ((refl, (refl, tt)), ((refl, (refl, tt)), tt))

handle_event_sync_blames_example : handle_event_sync class_of (bus_of (audit ∷ mail ∷ []) []) 1 ≡ (
  record (bus_of (audit ∷ mail ∷ []) []) { failed_events = (1, "audit", "no server") ∷ [] },
  none,
)
unfolding Dict.get_or Dict.get
handle_event_sync_blames_example =
    handle_event_sync_blames class_of (bus_of (audit ∷ mail ∷ []) []) 1 audit mail "no server" refl
      refl refl refl refl
