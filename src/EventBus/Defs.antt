-- ===== src/EventBus/Defs.antt =====
-- EventBus of app/shared/events/domain_events.py. Handlers and middleware are outside: each may raise,
-- with an exception that is a text. A handler is known by its name, a class of events too.
use mathlib.Core.List.{reverse}
use korea_public_data_be.Base.{
  ℕ, Bool, true, false, Option, none, some, String, List, [], ◌∷◌, ◌++◌, map, ◌==◌, string_eq,
  if◌then◌else◌, length, keep,
}
use korea_public_data_be.Dict
use korea_public_data_be.Dict.{Dict}
use korea_public_data_be.Cqrs.Defs.{Hook, asked}

pub record EventHandler (E : Type 0) : Type 0 where
  pub name : String
  pub can_handle : E → Bool
  pub raises : E → Option String

pub record EventMiddleware (E : Type 0) : Type 0 where
  pub before_handle : Hook E
  pub after_handle : Hook E

pub record EventBus (E : Type 0) : Type 0 where
  pub handlers : Dict String (List (EventHandler E))
  pub middleware : List (EventMiddleware E)
  pub running : Bool
  pub event_queue : List E
  pub failed_events : List (E × String × String)

-- The first exception of the hooks in a list of middleware
unfoldable pub first_error : {X : Type 0} → (X → Option (Option String)) → List X → Option String
first_error hook [] = none
first_error hook (m ∷ ms) =
    let rest = first_error hook ms in
    elim (hook m) [ none ↦ rest | some o ↦ elim o [ none ↦ rest | some e ↦ some e ] ]

-- list.remove, by name
unfoldable pub remove_handler :
    {E : Type 0} → String → List (EventHandler E) → List (EventHandler E)
remove_handler n [] = []
remove_handler n (h ∷ hs) = if h.name == n then hs else h ∷ remove_handler n hs

module _ {E : Type 0} (class_of : E → String) where
  unfoldable pub subscribe : EventBus E → String → EventHandler E → EventBus E
  subscribe b t h = record b {
    handlers = Dict.put b.handlers t (Dict.get_or b.handlers t [] ++ (h ∷ []));
  }

  unfoldable pub unsubscribe : EventBus E → String → String → EventBus E
  unfolding remove_handler
  unsubscribe b t n =
      if Dict.has b.handlers t
      then record b {
        handlers = Dict.put b.handlers t (remove_handler n (Dict.get_or b.handlers t []));
      }
      else b

  -- The outcomes of the handlers that can handle the event, as asyncio.gather returns them
  unfoldable pub results : E → List (EventHandler E) → List (Option String)
  results e hs = map (λ h. h.raises e) (keep (λ h. h.can_handle e) hs)

  -- For the i-th outcome, the i-th handler: `handlers[i]`
  unfoldable pub failures :
      E → List (EventHandler E) → List (Option String) → List (E × String × String)
  failures e [] rs = []
  failures e (h ∷ hs) [] = []
  failures e (h ∷ hs) (r ∷ rs) =
      let rest = failures e hs rs in elim r [ none ↦ rest | some x ↦ (e, h.name, x) ∷ rest ]

  -- What the handlers of an event add to the failed events
  unfoldable pub executed : EventBus E → E → List (EventHandler E) → EventBus E
  unfolding results failures
  executed b e hs = record b { failed_events = b.failed_events ++ failures e hs (results e hs) }

  -- With handlers: the bus afterwards, and an exception of the middleware
  unfoldable pub handle_by : EventBus E → E → List (EventHandler E) → EventBus E × Option String
  unfolding executed first_error
  handle_by b e [] = (b, none)
  handle_by b e (h ∷ hs) = elim (first_error (λ m. asked m.before_handle e) b.middleware) [
    | some x ↦ (b, some x)
    | none ↦
        (executed b e (h ∷ hs), first_error (λ m. asked m.after_handle e) (reverse b.middleware))
  ]

  unfoldable pub handle_event_sync : EventBus E → E → EventBus E × Option String
  unfolding handle_by
  handle_event_sync b e = handle_by b e (Dict.get_or b.handlers (class_of e) [])

  unfoldable pub publish : EventBus E → E → Bool → EventBus E × Option String
  unfolding handle_event_sync
  publish b e wait =
      if wait
      then handle_event_sync b e
      else (record b { event_queue = b.event_queue ++ (e ∷ []) }, none)

  -- The loop of start_processing, over events taken from the queue: an exception is only logged.
  unfoldable pub process : List E → EventBus E → EventBus E
  unfolding handle_event_sync
  process [] b = b
  process (e ∷ es) b = process es (handle_event_sync b e).0

  -- Until the queue is empty: then the loop waits for the next event.
  unfoldable pub start_processing : EventBus E → EventBus E
  unfolding process
  start_processing b =
      if b.running then b else process b.event_queue (record b { running = true; event_queue = [] })

  unfoldable pub stop_processing : EventBus E → EventBus E
  stop_processing b = record b { running = false }

  unfoldable pub add_middleware : EventBus E → EventMiddleware E → EventBus E
  add_middleware b m = record b { middleware = b.middleware ++ (m ∷ []) }

  unfoldable pub clear_failed_events : EventBus E → EventBus E
  clear_failed_events b = record b { failed_events = [] }

  unfoldable pub get_handler_count : EventBus E → String → ℕ
  get_handler_count b t = length (Dict.get_or b.handlers t [])
