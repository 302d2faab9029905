-- ===== src/Lifecycle/Shutdown.antt =====
-- shutdown of app/core/lifecycle.py: what it calls and in which order, and how it leaves the services.
use korea_public_data_be.Base.{
  Bool, true, false, ◌&&◌, Option, none, some, String, List, [], ◌∷◌, ◌++◌, ◌≡◌, refl, sym, ap, ◌∙◌,
  map, All,
}
use mathlib.Core.List.{reverse, reverse-cons, append_assoc}
use korea_public_data_be.Dict
use korea_public_data_be.Dict.{Dict}
use korea_public_data_be.Lifecycle.Defs.{
  ServiceState, stopped, stopping, error, ServiceInfo, Event, stop_called, task_called, Stop, stops,
  raises, times_out, LifecycleManager, stopped_by, shutdown_service, stop_all, run_shutdown_tasks,
  shutdown,
}

-- The call that stops a service, if it has a function for that.
abbrev pub stop_event : ServiceInfo → List Event
stop_event s = elim s.shutdown_func [ none ↦ [] | some f ↦ stop_called f ∷ [] ]

abbrev pub concat_map {ℓ κ} : {A : Type ℓ} {B : Type κ} → (A → List B) → List A → List B
concat_map f [] = []
concat_map f (x ∷ xs) = f x ++ concat_map f xs

-- What shutdown should call: each service and each task once, from the last to the first.
abbrev pub shutdown_calls : LifecycleManager → List Event
shutdown_calls m =
    concat_map stop_event (reverse (Dict.values m.services))
    ++ map task_called (reverse m.shutdown_tasks)

pub concat_map-append :
    {A B : Type 0} (f : A → List B) (xs ys : List A)
    → concat_map f (xs ++ ys) ≡ concat_map f xs ++ concat_map f ys
concat_map-append f [] ys = refl
concat_map-append f (x ∷ xs) ys =
    ap (λ l. f x ++ l) (concat_map-append f xs ys) ∙ sym (append_assoc (f x) _ _)

append_nil : {A : Type 0} (xs : List A) → xs ++ [] ≡ xs
append_nil [] = refl
append_nil (x ∷ xs) = ap (λ l. x ∷ l) (append_nil xs)

shutdown_service-log :
    (stop : String → Stop) (s : ServiceInfo) (f : Option String)
    → (shutdown_service stop s f).1 ≡ elim f [ none ↦ [] | some f ↦ stop_called f ∷ [] ]
unfolding shutdown_service
shutdown_service-log stop s none = refl
shutdown_service-log stop s (some f) = refl

stop_all-log :
    (stop : String → Stop) (d : Dict String ServiceInfo)
    → (stop_all stop d).log ≡ concat_map stop_event (reverse (Dict.values d))
unfolding stop_all Dict.values
stop_all-log stop [] = refl
stop_all-log stop ((k, s) ∷ d) =
    ap (λ l. l ++ (shutdown_service stop s s.shutdown_func).1) (stop_all-log stop d)
    ∙ ap (λ l. concat_map stop_event (reverse (Dict.values d)) ++ l)
        (shutdown_service-log stop s s.shutdown_func ∙ sym (append_nil (stop_event s)))
    ∙ sym (concat_map-append stop_event (reverse (Dict.values d)) (s ∷ []))
    ∙ ap (concat_map stop_event) (sym (reverse-cons s (Dict.values d)))

map-append :
    (xs ys : List String) → map task_called (xs ++ ys) ≡ map task_called xs ++ map task_called ys
map-append [] ys = refl
map-append (x ∷ xs) ys = ap (λ l. task_called x ∷ l) (map-append xs ys)

run_shutdown_tasks-log : (ts : List String) → run_shutdown_tasks ts ≡ map task_called (reverse ts)
unfolding run_shutdown_tasks
run_shutdown_tasks-log [] = refl
run_shutdown_tasks-log (t ∷ ts) =
    ap (λ l. l ++ task_called t ∷ []) (run_shutdown_tasks-log ts)
    ∙ sym (map-append (reverse ts) (t ∷ []))
    ∙ ap (map task_called) (sym (reverse-cons t ts))

-- Whatever the shutdown functions and tasks do, shutdown calls each of them once: the functions
-- of the services in the reverse order of their registration, then the tasks in reverse.
pub shutdown_order :
    (stop : String → Stop) (m : LifecycleManager)
    → (shutdown stop m).1.log ≡ m.log ++ shutdown_calls m
unfolding shutdown
shutdown_order stop m =
    ap (λ l. m.log ++ l)
      (ap (λ l. l ++ run_shutdown_tasks m.shutdown_tasks) (stop_all-log stop m.services)
        ∙ ap (λ l. concat_map stop_event (reverse (Dict.values m.services)) ++ l)
            (run_shutdown_tasks-log m.shutdown_tasks))

-- How shutdown leaves a service, by what its function does.
abbrev pub final_state : (stop : String → Stop) → Option String → ServiceState
final_state stop none = stopped
final_state stop (some f) = elim (stop f) [
  | stops ↦ stopped
  | raises _ ↦ error
  | times_out ↦ stopping
]

abbrev pub is_stopped : ServiceState → Bool
is_stopped stopped = true
is_stopped _ = false

abbrev pub all_stopped : Dict String ServiceInfo → Bool
all_stopped [] = true
all_stopped ((k, s) ∷ d) = all_stopped d && is_stopped s.state

stopped_by-state :
    (s : ServiceInfo) (r : Stop)
    → ((stopped_by s r).0.state
        ≡ elim r [ stops ↦ stopped | raises _ ↦ error | times_out ↦ stopping ])
      × ((stopped_by s r).1 ≡ is_stopped (stopped_by s r).0.state)
      × ((stopped_by s r).0.shutdown_func ≡ s.shutdown_func)
stopped_by-state s stops = (refl, refl, refl)
stopped_by-state s (raises e) = (refl, refl, refl)
stopped_by-state s times_out = (refl, refl, refl)

shutdown_service-state :
    (stop : String → Stop) (s : ServiceInfo) (f : Option String)
    → ((shutdown_service stop s f).0.0.state ≡ final_state stop f)
      × ((shutdown_service stop s f).0.1 ≡ is_stopped (shutdown_service stop s f).0.0.state)
      × ((shutdown_service stop s f).0.0.shutdown_func ≡ s.shutdown_func)
unfolding shutdown_service
shutdown_service-state stop s none = (refl, refl, refl)
shutdown_service-state stop s (some f) = stopped_by-state s (stop f)

-- A service is in the state that its shutdown function leaves it in.
abbrev pub Settled : (stop : String → Stop) → String × ServiceInfo → Type 0
Settled stop e = e.1.state ≡ final_state stop e.1.shutdown_func

stop_all-Settled :
    (stop : String → Stop) (d : Dict String ServiceInfo)
    → ((stop_all stop d).clean ≡ all_stopped (stop_all stop d).services)
      × All (Settled stop) (stop_all stop d).services
unfolding stop_all
stop_all-Settled stop [] = (refl, tt)
stop_all-Settled stop ((k, s) ∷ d) =
    let rest = stop_all-Settled stop d in
    let one = shutdown_service-state stop s s.shutdown_func in
    (
      ap (λ b. b && (shutdown_service stop s s.shutdown_func).0.1) rest.0
          ∙ ap (λ b. all_stopped (stop_all stop d).services && b) one.1,
      (one.0 ∙ ap (final_state stop) (sym one.2), rest.1),
    )

-- shutdown leaves each service in the state that its function brings it to: stopped, error where
-- it raises, and still stopping where it exceeds the timeout; it returns True exactly where every
-- service is stopped.
pub shutdown_settles :
    (stop : String → Stop) (m : LifecycleManager)
    → ((shutdown stop m).0 ≡ all_stopped (shutdown stop m).1.services)
      × All (Settled stop) (shutdown stop m).1.services
unfolding shutdown
shutdown_settles stop m = stop_all-Settled stop m.services
