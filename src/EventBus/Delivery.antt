-- ===== src/EventBus/Delivery.antt =====
-- What the event bus of app/shared/events/domain_events.py records of failing handlers.
use mathlib.Core.List.{reverse, append_assoc, append-nil}
use korea_public_data_be.Base.{
  true, false, none, some, inl, inr, String, List, [], ◌∷◌, ◌++◌, ◌≡◌, refl, sym, ap, ◌∙◌,
  Option-cases, All, if◌then◌else◌, string_eq,
}
use korea_public_data_be.Dict
use korea_public_data_be.Cqrs.Defs.{asked}
use korea_public_data_be.EventBus.Defs.{
  EventHandler, EventMiddleware, EventBus, first_error, results, failures, executed, handle_by,
  handle_event_sync, process, start_processing,
}

module _ {E : Type 0} (class_of : E → String) where
  abbrev pub handlers_for : EventBus E → E → List (EventHandler E)
  handlers_for b e = Dict.get_or b.handlers (class_of e) []

  -- The handlers that can handle an event and raise, each with its own exception
  abbrev pub failing : E → List (EventHandler E) → List (E × String × String)
  failing e [] = []
  failing e (h ∷ hs) =
      let rest = failing e hs in
      if h.can_handle e
      then elim (h.raises e) [ none ↦ rest | some x ↦ (e, h.name, x) ∷ rest ]
      else rest

  -- Each handler of its class can handle the event.
  abbrev pub Accepts : E → List (EventHandler E) → Type 0
  Accepts e hs = All (λ h. h.can_handle e ≡ true) hs

  failures-failing :
      (e : E) (hs : List (EventHandler E))
      → Accepts e hs
      → failures class_of e hs (results class_of e hs) ≡ failing e hs
  unfolding failures results
  failures-failing e [] a = refl
  failures-failing e (h ∷ hs) a =
      let rest = failures-failing e hs a.1 in
      elim (Option-cases (h.raises e)) [
        | inl o ↦ rw a.0 (rw (o, failures) rest)
        | inr (x, o) ↦ rw a.0 (rw (o, failures) (ap (λ l. (e, h.name, x) ∷ l) rest))
      ]

  -- What an event adds to the failed events: nothing where no handler is subscribed or a hook before the
  -- handling raises.
  abbrev pub faults : EventBus E → E → List (E × String × String)
  faults b e = elim (first_error (λ m. asked m.before_handle e) b.middleware) [
    | some x ↦ []
    | none ↦ failing e (handlers_for b e)
  ]

  unfaulted : (b : EventBus E) → b ≡ record b { failed_events = b.failed_events ++ [] }
  unfaulted b = ap (λ l. record b { failed_events = l }) (sym (append-nil b.failed_events))

  handle_by-faults :
      (b : EventBus E) (e : E) (hs : List (EventHandler E))
      → Accepts e hs
      → (handle_by class_of b e hs).0 ≡ record b {
        failed_events =
            b.failed_events ++ (elim (first_error (λ m. asked m.before_handle e) b.middleware) [
              | some x ↦ []
              | none ↦ failing e hs
            ]);
      }
  unfolding handle_by executed
  handle_by-faults b e [] a =
      elim (Option-cases (first_error (λ m. asked m.before_handle e) b.middleware)) [
        | inl o ↦ rw o (unfaulted b)
        | inr (x, o) ↦ rw o (unfaulted b)
      ]
  handle_by-faults b e (h ∷ hs) a =
      elim (Option-cases (first_error (λ m. asked m.before_handle e) b.middleware)) [
        | inl o ↦
            rw (o, handle_by)
              (ap (λ l. record b { failed_events = b.failed_events ++ l })
                (failures-failing e (h ∷ hs) a))
        | inr (x, o) ↦ rw (o, handle_by) (unfaulted b)
      ]

  -- What a list of events adds, one after the other
  abbrev pub all_faults : EventBus E → List E → List (E × String × String)
  all_faults b [] = []
  all_faults b (e ∷ es) = faults b e ++ all_faults b es

  process-faults :
      (es : List E) (b : EventBus E)
      → All (λ e. Accepts e (handlers_for b e)) es
      → process class_of es b ≡ record b { failed_events = b.failed_events ++ all_faults b es }
  unfolding process handle_event_sync
  process-faults [] b a = unfaulted b
  process-faults (e ∷ es) b a =
      let next = record b { failed_events = b.failed_events ++ faults b e } in
      ap (process class_of es) (handle_by-faults b e (handlers_for b e) a.0)
      ∙ process-faults es next a.1
      ∙ ap (λ l. record b { failed_events = l })
          (append_assoc b.failed_events (faults b e) (all_faults b es))

  abbrev taken : EventBus E → EventBus E
  taken b = record b { running = true; event_queue = [] }

  -- Where each handler that is subscribed for the class of a queued event can handle that event, the
  -- processing of the queue, started on an idle bus, empties it. Of the events before whose handling no hook
  -- of the middleware raises, it records, in their order, exactly the handlers that raise, each with its own
  -- exception; an event before whose handling a hook raises reaches no handler and adds nothing.
  pub start_processing-faults :
      (b : EventBus E)
      → b.running ≡ false
      → All (λ e. Accepts e (handlers_for b e)) b.event_queue
      → start_processing class_of b ≡ record b {
        running = true;
        event_queue = [];
        failed_events = b.failed_events ++ all_faults b b.event_queue;
      }
  unfolding start_processing
  start_processing-faults b idle a =
      ap (λ running. if running then b else process class_of b.event_queue (taken b)) idle
      ∙ process-faults b.event_queue (taken b) a

  blamed :
      (e : E) (first second : EventHandler E) (x : String)
      → first.can_handle e ≡ false
      → second.can_handle e ≡ true
      → second.raises e ≡ some x
      → failures class_of e (first ∷ second ∷ []) (results class_of e (first ∷ second ∷ []))
        ≡ (e, first.name, x) ∷ []
  unfolding failures results
  blamed e first second x skips takes raises = rw skips (rw takes (rw raises refl))

  -- Without middleware, handlers of an event are only executed.
  handle_by-executed :
      (b : EventBus E) (e : E) (h : EventHandler E) (hs : List (EventHandler E))
      → b.middleware ≡ []
      → handle_by class_of b e (h ∷ hs) ≡ (executed class_of b e (h ∷ hs), none)
  unfolding handle_by first_error
  handle_by-executed b e h hs no_middleware =
      ap
        (λ (ms : List (EventMiddleware E)).
          elim (first_error (λ (m : EventMiddleware E). asked m.before_handle e) ms) [
            | some x ↦ (b, some x)
            | none ↦ (
              executed class_of b e (h ∷ hs),
              first_error (λ (m : EventMiddleware E). asked m.after_handle e) (reverse ms),
            )
          ])
        no_middleware

  -- Where the first of two handlers cannot handle an event and the second raises, the first is recorded as
  -- the one that failed.
  pub handle_event_sync_blames :
      (b : EventBus E) (e : E) (first second : EventHandler E) (x : String)
      → handlers_for b e ≡ first ∷ second ∷ []
      → b.middleware ≡ []
      → first.can_handle e ≡ false
      → second.can_handle e ≡ true
      → second.raises e ≡ some x
      → handle_event_sync class_of b e
        ≡ (record b { failed_events = b.failed_events ++ ((e, first.name, x) ∷ []) }, none)
  unfolding handle_event_sync executed
  handle_event_sync_blames b e first second x subscribed no_middleware skips takes raises =
      ap (handle_by class_of b e) subscribed
      ∙ handle_by-executed b e first (second ∷ []) no_middleware
      ∙ ap (λ l. (record b { failed_events = b.failed_events ++ l }, none))
          (blamed e first second x skips takes raises)
