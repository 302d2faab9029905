-- ===== src/Lifecycle/Tests.antt =====
-- Runs of app/core/lifecycle.py with its own two services; the theorems applied to them.
use korea_public_data_be.Base.{
  true, false, Option, none, some, String, [], ◌∷◌, ◌++◌, ◌≡◌, refl, ◌==◌, string_eq, if◌then◌else◌,
}
use korea_public_data_be.Dict
use korea_public_data_be.Lifecycle.Defs.{
  ServiceInfo, running, start_called, stop_called, task_called, Stop, stops, times_out,
  LifecycleManager, init, register_service, add_startup_task, add_shutdown_task, start_all,
  stop_all, shutdown, startup, is_healthy,
}
use korea_public_data_be.Lifecycle.Shutdown.{shutdown_calls, shutdown_order}
use korea_public_data_be.Lifecycle.Lifespan.{startup_failed, lifespan_context}
use korea_public_data_be.Lifecycle.Startup.{Ways, startup_outcome}

-- The registrations at the end of the source's file
unfoldable lifecycle_manager : LifecycleManager
unfolding init register_service add_startup_task add_shutdown_task
lifecycle_manager =
    let database =
      register_service init "database" (some "startup_database") (some "shutdown_database")
        (some "check_database_health") in
    let cache =
      register_service database "cache" (some "startup_cache") (some "shutdown_cache")
        (some "check_cache_health") in
    add_shutdown_task (add_startup_task cache "log_startup_info") "log_shutdown_info"

abbrev fine : String → Option String
fine f = none

-- The cache cannot be reached.
abbrev no_cache : String → Option String
no_cache f = if f == "startup_cache" then some "refused" else none

-- The database takes too long to close.
abbrev slow_database : String → Stop
slow_database f = if f == "shutdown_database" then times_out else stops

starts :
    ((startup fine (λ f. stops) fine 5 lifecycle_manager).0 ≡ true)
    × (is_healthy (startup fine (λ f. stops) fine 5 lifecycle_manager).1 ≡ true)
    × ((startup no_cache slow_database fine 5 lifecycle_manager).0 ≡ false)
    × ((startup no_cache slow_database fine 5 lifecycle_manager).1.log
        ≡ task_called "log_startup_info"
          ∷ start_called "startup_database"
          ∷ start_called "startup_cache"
          ∷ stop_called "shutdown_cache"
          ∷ stop_called "shutdown_database"
          ∷ task_called "log_shutdown_info"
          ∷ [])
unfolding lifecycle_manager startup shutdown start_all stop_all Dict.put is_healthy
starts = (refl, refl, refl, refl)

shutdown_order_example :
    (shutdown slow_database lifecycle_manager).1.log
    ≡ lifecycle_manager.log ++ shutdown_calls lifecycle_manager
shutdown_order_example = shutdown_order slow_database lifecycle_manager

startup_outcome_example :
    Ways no_cache slow_database fine lifecycle_manager
      (startup no_cache slow_database fine 5 lifecycle_manager)
startup_outcome_example = startup_outcome no_cache slow_database fine 5 lifecycle_manager

-- A startup that fails in a service shuts down, and the lifespan does so again.
failed_lifespan :
    let r = lifespan_context no_cache (λ f. stops) fine 5 false lifecycle_manager in
    (r.0 ≡ startup_failed)
    × (r.1.log
        ≡ task_called "log_startup_info"
          ∷ start_called "startup_database"
          ∷ start_called "startup_cache"
          ∷ stop_called "shutdown_cache"
          ∷ stop_called "shutdown_database"
          ∷ task_called "log_shutdown_info"
          ∷ stop_called "shutdown_cache"
          ∷ stop_called "shutdown_database"
          ∷ task_called "log_shutdown_info"
          ∷ [])
unfolding lifecycle_manager lifespan_context startup shutdown start_all stop_all Dict.put
failed_lifespan = (refl, refl)

abbrev database : ServiceInfo
database = record {
  name = "database";
  startup_func = none;
  shutdown_func = none;
  health_check = some "check_database_health";
  state = running;
  last_health_check = none;
  error_message = none;
}
