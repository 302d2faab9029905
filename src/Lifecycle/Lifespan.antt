-- ===== src/Lifecycle/Lifespan.antt =====
-- lifespan_context and the health checks of app/core/lifecycle.py. `body_raises` says whether the
-- application raises while it is served; `check f` is what a health check gives, `none` where it
-- raises.
use korea_public_data_be.Base.{
  ℕ, Bool, true, false, Option, none, some, String, ◌++◌, if◌then◌else◌, ◌≡◌, ◌⊎◌, inl, inr, refl,
  All, Bool-cases,
}
use korea_public_data_be.Lifecycle.Defs.{
  ServiceInfo, Stop, LifecycleManager, startup, shutdown, is_running,
}
use korea_public_data_be.Lifecycle.Shutdown.{
  Settled, shutdown_settles, shutdown_order, shutdown_calls,
}

pub data Lifespan : Type 0 where
  served body_failed startup_failed : Lifespan

abbrev lifespan_outcome : Bool → Bool → Lifespan
lifespan_outcome false body_raises = startup_failed
lifespan_outcome true true = body_failed
lifespan_outcome true false = served

module _ (start : String → Option String) (stop : String → Stop)
    (run : String → Option String) where
  -- The `finally` shuts down on every way out.
  unfoldable pub lifespan_context :
      (now : ℕ) → Bool → LifecycleManager → Lifespan × LifecycleManager
  lifespan_context now body_raises m =
      let up = startup start stop run now m in
      (lifespan_outcome up.0 body_raises, (shutdown stop up.1).1)

  -- After the lifespan of the application, however it ended, shutdown has been requested, every
  -- service is as its shutdown function leaves it, and after the calls of startup come those of one
  -- whole shutdown, also where startup has shut down itself.
  pub lifespan_settles :
      (now : ℕ) (body_raises : Bool) (m : LifecycleManager)
      → let after = (lifespan_context now body_raises m).1 in
        let up = (startup start stop run now m).1 in
        (after.shutdown_event ≡ true)
        × All (Settled stop) after.services
        × (after.log ≡ up.log ++ shutdown_calls up)
  unfolding lifespan_context shutdown
  lifespan_settles now body_raises m =
      let up = (startup start stop run now m).1 in
      (refl, (shutdown_settles stop up).1, shutdown_order stop up)

-- What a check that was called comes to
abbrev checked : (now : ℕ) → ServiceInfo → Option Bool → Bool × ServiceInfo
checked now s none = (false, s)
checked now s (some healthy) = (healthy, record s { last_health_check = some now })

abbrev check_by :
    (check : String → Option Bool) (now : ℕ) → ServiceInfo → Option String → Bool × ServiceInfo
check_by check now s none = (true, s)
check_by check now s (some f) = if is_running s.state then checked now s (check f) else (true, s)

-- _check_service_health
unfoldable pub check_service_health :
    (check : String → Option Bool) → (now : ℕ) → ServiceInfo → Bool × ServiceInfo
check_service_health check now s = check_by check now s s.health_check

-- A health check never changes the state of a service, nor its error message, and a service that
-- does not run is not found ill.
pub check_service_health_state :
    (check : String → Option Bool) (now : ℕ) (s : ServiceInfo)
    → let r = check_service_health check now s in
      (r.1.state ≡ s.state)
      × (r.1.error_message ≡ s.error_message)
      × ((is_running s.state ≡ true) ⊎ (r.0 ≡ true))
unfolding check_service_health
check_service_health_state check now s = by_function s.health_check
  where
    by_result :
        (o : Option Bool)
        → ((checked now s o).1.state ≡ s.state)
          × ((checked now s o).1.error_message ≡ s.error_message)
    by_result none = (refl, refl)
    by_result (some b) = (refl, refl)

    by_function :
        (f : Option String)
        → ((check_by check now s f).1.state ≡ s.state)
          × ((check_by check now s f).1.error_message ≡ s.error_message)
          × ((is_running s.state ≡ true) ⊎ ((check_by check now s f).0 ≡ true))
    by_function none = (refl, refl, inr refl)
    by_function (some f) = elim (Bool-cases (is_running s.state)) [
      | inl e ↦ rw e ((by_result (check f)).0, (by_result (check f)).1, inl refl)
      | inr e ↦ rw e (refl, refl, inr refl)
    ]
