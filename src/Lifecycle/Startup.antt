-- ===== src/Lifecycle/Startup.antt =====
-- startup of app/core/lifecycle.py: how it comes out, and how it leaves the services.
use mathlib.Core.List.{Memᴰ, reverse, append_assoc}
use korea_public_data_be.Base.{
  map, subst, ℕ, Bool, true, false, ◌&&◌, Option, none, some, String, List, [], ◌∷◌, ◌++◌, ◌≡◌, ◌⊎◌,
  inl, inr, refl, sym, ap, ◌∙◌, All,
}
use korea_public_data_be.Dict
use korea_public_data_be.Dict.{Dict}
use korea_public_data_be.Lifecycle.Defs.{
  ServiceInfo, Event, task_called, Stop, LifecycleManager, started, startup_service, start_all,
  shutdown, run_startup_tasks, start_services, after_tasks, startup, is_running, all_running,
  is_healthy,
}
use korea_public_data_be.Lifecycle.Shutdown.{
  concat_map, shutdown_calls, shutdown_order, Settled, shutdown_settles,
}
use korea_public_data_be.Lifecycle.Causes.{
  Return, FirstRaises, run_startup_tasks-cases, start_event, Starts, Fails, start_all-cases,
  start_all-log, start_all-keys, start_all-stop_event, stop_all-keys,
}

module _ (start : String → Option String) where
  started-running :
      (s : ServiceInfo) (r : Option String) → (started s r).1 ≡ is_running (started s r).0.state
  unfolding is_running
  started-running s none = refl
  started-running s (some message) = refl

  startup_service-running :
      (s : ServiceInfo) (f : Option String)
      → (startup_service start s f).0.1 ≡ is_running (startup_service start s f).0.0.state
  unfolding startup_service is_running
  startup_service-running s none = refl
  startup_service-running s (some f) = started-running s (start f)

  start_all-running :
      (d : Dict String ServiceInfo)
      → (start_all start d).clean ≡ all_running (start_all start d).services
  unfolding start_all all_running
  start_all-running [] = refl
  start_all-running ((k, s) ∷ d) =
      ap (λ b. b && (start_all start d).clean) (startup_service-running s s.startup_func)
      ∙ ap (λ b. is_running (startup_service start s s.startup_func).0.0.state && b)
          (start_all-running d)

module _ (start : String → Option String) (stop : String → Stop)
    (run : String → Option String) where
  -- The calls of all the startup tasks, then of all the startup functions
  abbrev pub startup_calls : LifecycleManager → List Event
  startup_calls m =
      map task_called m.startup_tasks ++ concat_map start_event (Dict.values m.services)

  -- startup returned True: every service runs and so does the monitor.
  abbrev pub Up : LifecycleManager → Bool × LifecycleManager → Type 0
  Up m r =
      (r.0 ≡ true)
      × (is_healthy r.1 ≡ true)
      × (r.1.health_monitor ≡ true)
      × (Dict.keys r.1.services ≡ Dict.keys m.services)
      × (r.1.log ≡ m.log ++ startup_calls m)

  -- startup returned False, and everything was shut down after all had been called.
  abbrev pub Down : LifecycleManager → Bool × LifecycleManager → Type 0
  Down m r =
      (r.0 ≡ false)
      × (r.1.shutdown_event ≡ true)
      × (r.1.health_monitor ≡ false)
      × All (Settled stop) r.1.services
      × (Dict.keys r.1.services ≡ Dict.keys m.services)
      × (r.1.log ≡ m.log ++ (startup_calls m ++ shutdown_calls m))

  -- startup returned False after these tasks, and no service was called.
  abbrev pub Untouched : LifecycleManager → List String → Bool × LifecycleManager → Type 0
  Untouched m called r =
      (r.0 ≡ false) × (r.1.services ≡ m.services) × (r.1.log ≡ m.log ++ map task_called called)

  -- The three ways in which a startup may come out, each with its cause.
  abbrev pub Ways : LifecycleManager → Bool × LifecycleManager → Type 0
  Ways m r =
      (Return run m.startup_tasks × All (Starts start) m.services × Up m r)
      ⊎ ((Return run m.startup_tasks
            × ((e : String × ServiceInfo) × Memᴰ e m.services × Fails start e)
            × Down m r)
          ⊎ ((before : List String) × (t : String) × FirstRaises run m.startup_tasks before t
              × Untouched m (before ++ (t ∷ [])) r))

  -- What comes after the tasks have returned
  up :
      (m : LifecycleManager) (events : List Event)
      → events ≡ map task_called m.startup_tasks
      → (start_all start m.services).clean ≡ true
      → Up m (start_services start stop run (record m { log = m.log ++ events }))
  unfolding start_services is_healthy
  up m events e h =
      let log = start_all-log start m.services in
      rw h (
        refl,
        sym (start_all-running start m.services) ∙ h,
        refl,
        start_all-keys start m.services,
        append_assoc m.log events (start_all start m.services).log
            ∙ ap (λ l. m.log ++ l)
                (ap (λ l. l ++ (start_all start m.services).log) e
                  ∙ ap (λ l. map task_called m.startup_tasks ++ l) log),
      )

  down :
      (m : LifecycleManager) (events : List Event)
      → events ≡ map task_called m.startup_tasks
      → (start_all start m.services).clean ≡ false
      → Down m (start_services start stop run (record m { log = m.log ++ events }))
  unfolding start_services shutdown
  down m events e h =
      let sweep = start_all start m.services in
      let after = record m { services = sweep.services; log = (m.log ++ events) ++ sweep.log } in
      let called : events ++ sweep.log ≡ startup_calls m =
        ap (λ l. l ++ sweep.log) e
        ∙ ap (λ l. map task_called m.startup_tasks ++ l) (start_all-log start m.services) in
      let stopped_so : shutdown_calls after ≡ shutdown_calls m =
        ap (λ l. l ++ map task_called (reverse m.shutdown_tasks))
          (start_all-stop_event start m.services) in
      rw h (
        refl,
        refl,
        refl,
        (shutdown_settles stop after).1,
        stop_all-keys stop sweep.services ∙ start_all-keys start m.services,
        shutdown_order stop after
            ∙ ap (λ l. l ++ shutdown_calls after)
                (append_assoc m.log events sweep.log ∙ ap (λ l. m.log ++ l) called)
            ∙ append_assoc m.log (startup_calls m) (shutdown_calls after)
            ∙ ap (λ l. m.log ++ (startup_calls m ++ l)) stopped_so,
      )

  after_tasks-Ways :
      (m : LifecycleManager)
      → Ways m (after_tasks start stop run m (run_startup_tasks run m.startup_tasks))
  unfolding after_tasks
  after_tasks-Ways m = elim (run_startup_tasks-cases run m.startup_tasks) [
    | inr (before, t, first, e) ↦ inr (
        inr (
          before,
          t,
          first,
          subst (Untouched m (before ++ (t ∷ []))) (sym (ap (after_tasks start stop run m) e))
              (refl, refl, refl),
        ))
    | inl (all, e) ↦
        let events = map task_called m.startup_tasks in
        let go = sym (ap (after_tasks start stop run m) e) in
        elim (start_all-cases start m.services) [
          | inl (starts, c) ↦ inl (all, starts, subst (Up m) go (up m events refl c))
          | inr (x, there, fails, c) ↦
              inr (inl (all, (x, there, fails), subst (Down m) go (down m events refl c)))
        ]
  ]

  -- startup comes out in one of three ways, each with its cause. Every startup task returns and no startup
  -- function raises: it returns True, every service runs and the monitor is started. Every startup task
  -- returns and the startup function of a service raises: it returns False, and shutdown has been called and
  -- has left every service as its shutdown function leaves it. In both ways all the startup tasks, and then
  -- all the startup functions, have been called in order, before anything is shut down. Or a startup task
  -- raises: it returns False, calls nothing after the first such task and touches no service.
  pub startup_outcome : (now : ℕ) (m : LifecycleManager) → Ways m (startup start stop run now m)
  unfolding startup
  startup_outcome now m =
      after_tasks-Ways (record m { startup_time = some now; signal_handlers_installed = true })
