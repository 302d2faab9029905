-- ===== src/Lifecycle/Causes.antt =====
-- The loops of startup in app/core/lifecycle.py over the tasks and the services: what they come to, and why.
use mathlib.Core.List.{Memᴰ, reverse, reverse-cons}
use korea_public_data_be.Base.{
  true, false, ◌&&◌, Option, none, some, String, List, [], ◌∷◌, ◌++◌, ◌≡◌, ◌⊎◌, inl, inr, refl, sym,
  ap, ◌∙◌, map, All, Option-cases,
}
use korea_public_data_be.Dict
use korea_public_data_be.Dict.{Dict}
use korea_public_data_be.Lifecycle.Defs.{
  ServiceInfo, Event, start_called, stop_called, task_called, Stop, started, startup_service,
  start_all, stop_all, run_startup_tasks,
}
use korea_public_data_be.Lifecycle.Shutdown.{stop_event, concat_map, concat_map-append}

module _ (run : String → Option String) where
  -- Each of the tasks returns.
  abbrev pub Return : List String → Type 0
  Return ts = All (λ t. run t ≡ none) ts

  -- The first task that raises
  abbrev pub FirstRaises : List String → List String → String → Type 0
  FirstRaises ts before t =
      (after : List String) × (x : String) × (ts ≡ before ++ (t ∷ after))
      × Return before
      × (run t ≡ some x)

  pub run_startup_tasks-cases :
      (ts : List String)
      → (Return ts × (run_startup_tasks run ts ≡ (true, map task_called ts)))
        ⊎ ((before : List String) × (t : String) × FirstRaises ts before t
            × (run_startup_tasks run ts ≡ (false, map task_called (before ++ (t ∷ [])))))
  unfolding run_startup_tasks
  run_startup_tasks-cases [] = inl (tt, refl)
  run_startup_tasks-cases (t ∷ ts) = elim (Option-cases (run t)) [
    | inr (x, raised) ↦ inr ([], t, (ts, x, refl, tt, raised), rw (raised, run_startup_tasks) refl)
    | inl returned ↦
        let rest = run_startup_tasks run ts in
        let step : run_startup_tasks run (t ∷ ts) ≡ (rest.0, task_called t ∷ rest.1) =
          rw (returned, run_startup_tasks) refl in
        elim (run_startup_tasks-cases ts) [
          | inl (all, e) ↦ inl ((returned, all), step ∙ ap (λ r. (r.0, task_called t ∷ r.1)) e)
          | inr (before, s, (after, x, parts, all, raised), e) ↦ inr (
            (t ∷ before),
            s,
            (after, x, ap (λ l. t ∷ l) parts, (returned, all), raised),
            step ∙ ap (λ r. (r.0, task_called t ∷ r.1)) e,
          )
        ]
  ]

-- The call that starts a service, if it has a function for that
abbrev pub start_event : ServiceInfo → List Event
start_event s = elim s.startup_func [ none ↦ [] | some f ↦ start_called f ∷ [] ]

module _ (start : String → Option String) where
  -- The service has no startup function that raises.
  abbrev pub Starts : String × ServiceInfo → Type 0
  Starts e =
      (e.1.startup_func ≡ none) ⊎ ((f : String) × (e.1.startup_func ≡ some f) × (start f ≡ none))

  abbrev pub Fails : String × ServiceInfo → Type 0
  Fails e = (f : String) × (x : String) × (e.1.startup_func ≡ some f) × (start f ≡ some x)

  startup_service-cases :
      (k : String) (s : ServiceInfo)
      → (Starts (k, s) × ((startup_service start s s.startup_func).0.1 ≡ true))
        ⊎ (Fails (k, s) × ((startup_service start s s.startup_func).0.1 ≡ false))
  unfolding startup_service
  startup_service-cases k s = elim (Option-cases s.startup_func) [
    | inl e ↦ inl (inl e, ap (λ f. (startup_service start s f).0.1) e)
    | inr (f, e) ↦ elim (Option-cases (start f)) [
      | inl o ↦
          inl (
            inr (f, e, o),
            ap (λ f. (startup_service start s f).0.1) e ∙ ap (λ r. (started s r).1) o,
          )
      | inr (x, o) ↦
          inr (
            (f, x, e, o),
            ap (λ f. (startup_service start s f).0.1) e ∙ ap (λ r. (started s r).1) o,
          )
    ]
  ]

  pub start_all-cases :
      (d : Dict String ServiceInfo)
      → (All Starts d × ((start_all start d).clean ≡ true))
        ⊎ ((e : String × ServiceInfo) × Memᴰ e d × Fails e × ((start_all start d).clean ≡ false))
  unfolding start_all
  start_all-cases [] = inl (tt, refl)
  start_all-cases ((k, s) ∷ d) = elim (startup_service-cases k s) [
    | inr (fails, e) ↦
        inr ((k, s), Memᴰ.head refl, fails, ap (λ b. b && (start_all start d).clean) e)
    | inl (starts, e) ↦ elim (start_all-cases d) [
      | inl (all, c) ↦ inl ((starts, all), ap (λ b. b && (start_all start d).clean) e ∙ c)
      | inr (x, m, fails, c) ↦
          inr (x, Memᴰ.tail m, fails, ap (λ b. b && (start_all start d).clean) e ∙ c)
    ]
  ]

  startup_service-log :
      (s : ServiceInfo) (f : Option String)
      → ((startup_service start s f).1 ≡ elim f [ none ↦ [] | some f ↦ start_called f ∷ [] ])
        × ((startup_service start s f).0.0.shutdown_func ≡ s.shutdown_func)
  unfolding startup_service
  startup_service-log s none = (refl, refl)
  startup_service-log s (some f) = elim (Option-cases (start f)) [
    | inl o ↦ (refl, ap (λ r. (started s r).0.shutdown_func) o)
    | inr (x, o) ↦ (refl, ap (λ r. (started s r).0.shutdown_func) o)
  ]

  -- Every startup function is called, in order, also after one that raises.
  pub start_all-log :
      (d : Dict String ServiceInfo)
      → (start_all start d).log ≡ concat_map start_event (Dict.values d)
  unfolding start_all Dict.values
  start_all-log [] = refl
  start_all-log ((k, s) ∷ d) =
      ap (λ l. l ++ (start_all start d).log) (startup_service-log s s.startup_func).0
      ∙ ap (λ l. start_event s ++ l) (start_all-log d)

  pub start_all-keys :
      (d : Dict String ServiceInfo) → Dict.keys (start_all start d).services ≡ Dict.keys d
  unfolding start_all Dict.keys
  start_all-keys [] = refl
  start_all-keys ((k, s) ∷ d) = ap (λ l. k ∷ l) (start_all-keys d)

  -- The services that have been started have the shutdown functions that they had.
  pub start_all-stop_event :
      (d : Dict String ServiceInfo)
      → concat_map stop_event (reverse (Dict.values (start_all start d).services))
        ≡ concat_map stop_event (reverse (Dict.values d))
  unfolding start_all Dict.values
  start_all-stop_event [] = refl
  start_all-stop_event ((k, s) ∷ d) =
      let s' = (startup_service start s s.startup_func).0.0 in
      let others = Dict.values (start_all start d).services in
      ap (concat_map stop_event) (reverse-cons s' others)
      ∙ concat_map-append stop_event (reverse others) (s' ∷ [])
      ∙ ap (λ l. l ++ concat_map stop_event (s' ∷ [])) (start_all-stop_event d)
      ∙ ap
          (λ f.
            concat_map stop_event (reverse (Dict.values d))
            ++ ((elim f [ none ↦ [] | some f ↦ stop_called f ∷ [] ]) ++ []))
          (startup_service-log s s.startup_func).1
      ∙ sym (concat_map-append stop_event (reverse (Dict.values d)) (s ∷ []))
      ∙ ap (concat_map stop_event) (sym (reverse-cons s (Dict.values d)))

pub stop_all-keys :
    (stop : String → Stop) (d : Dict String ServiceInfo)
    → Dict.keys (stop_all stop d).services ≡ Dict.keys d
unfolding stop_all Dict.keys
stop_all-keys stop [] = refl
stop_all-keys stop ((k, s) ∷ d) = ap (λ l. k ∷ l) (stop_all-keys stop d)
