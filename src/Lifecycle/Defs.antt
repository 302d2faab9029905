-- ===== src/Lifecycle/Defs.antt =====
-- LifecycleManager of app/core/lifecycle.py. The functions and tasks it is given are named by
-- texts, and what they do is outside: `start f` and `run t` are `none` where the call returns and
-- the exception's text where it raises one.
use korea_public_data_be.Base.{
  string_eq, ℕ, Bool, true, false, ◌&&◌, Option, none, some, String, List, [], ◌∷◌, ◌++◌,
  if◌then◌else◌,
}
use korea_public_data_be.Dict
use korea_public_data_be.Dict.{Dict}

pub data ServiceState : Type 0 where
  stopped starting running stopping error : ServiceState

pub record ServiceInfo : Type 0 where
  pub name : String
  pub startup_func : Option String
  pub shutdown_func : Option String
  pub health_check : Option String
  pub state : ServiceState
  pub last_health_check : Option ℕ
  pub error_message : Option String

-- The calls that the manager makes, as they are logged here.
pub data Event : Type 0 where
  start_called stop_called task_called : String → Event

-- What a shutdown function does within the timeout.
pub data Stop : Type 0 where
  stops : Stop
  raises : String → Stop
  times_out : Stop

pub record LifecycleManager : Type 0 where
  pub services : Dict String ServiceInfo
  pub startup_tasks : List String
  pub shutdown_tasks : List String
  pub shutdown_event : Bool
  pub health_monitor : Bool  -- a monitor task runs
  pub startup_time : Option ℕ
  pub signal_handlers_installed : Bool
  pub log : List Event

unfoldable pub init : LifecycleManager
init = record {
  services = [];
  startup_tasks = [];
  shutdown_tasks = [];
  shutdown_event = false;
  health_monitor = false;
  startup_time = none;
  signal_handlers_installed = false;
  log = [];
}

unfoldable pub register_service :
    LifecycleManager → String → Option String → Option String → Option String → LifecycleManager
register_service m n start stop check = record m {
  services = Dict.put m.services n (record {
    name = n;
    startup_func = start;
    shutdown_func = stop;
    health_check = check;
    state = stopped;
    last_health_check = none;
    error_message = none;
  });
}

unfoldable pub add_startup_task : LifecycleManager → String → LifecycleManager
add_startup_task m t = record m { startup_tasks = m.startup_tasks ++ t ∷ [] }

unfoldable pub add_shutdown_task : LifecycleManager → String → LifecycleManager
add_shutdown_task m t = record m { shutdown_tasks = m.shutdown_tasks ++ t ∷ [] }

-- What became of the call of a startup function
abbrev pub started : ServiceInfo → Option String → ServiceInfo × Bool
started s none = (record s { state = running; error_message = none }, true)
started s (some message) = (record s { state = error; error_message = some message }, false)

-- _startup_service, with the call that it logs
unfoldable pub startup_service :
    (start : String → Option String)
    → ServiceInfo
    → Option String
    → (ServiceInfo × Bool) × List Event
startup_service start s none = ((record s { state = running }, true), [])
startup_service start s (some f) = (started s (start f), start_called f ∷ [])

-- A timeout cancels the call of the shutdown function and the assignments that follow it.
abbrev pub stopped_by : ServiceInfo → Stop → ServiceInfo × Bool
stopped_by s stops = (record s { state = stopped; error_message = none }, true)
stopped_by s (raises message) = (record s { state = error; error_message = some message }, false)
stopped_by s times_out = (record s { state = stopping }, false)

-- _shutdown_service under asyncio.wait_for
unfoldable pub shutdown_service :
    (stop : String → Stop) → ServiceInfo → Option String → (ServiceInfo × Bool) × List Event
shutdown_service stop s none = ((record s { state = stopped }, true), [])
shutdown_service stop s (some f) = (stopped_by s (stop f), stop_called f ∷ [])

-- The services after a loop over them, whether none of them failed, and the calls.
pub record Sweep : Type 0 where
  pub services : Dict String ServiceInfo
  pub clean : Bool
  pub log : List Event

-- The loop of startup over the services
unfoldable pub start_all : (start : String → Option String) → Dict String ServiceInfo → Sweep
unfolding startup_service
start_all start [] = record { services = []; clean = true; log = [] }
start_all start ((k, s) ∷ rest) =
    let first = startup_service start s s.startup_func in
    let others = start_all start rest in
    record {
      services = (k, first.0.0) ∷ others.services;
      clean = first.0.1 && others.clean;
      log = first.1 ++ others.log;
    }

-- The loop of shutdown over the services, the last one first
unfoldable pub stop_all : (stop : String → Stop) → Dict String ServiceInfo → Sweep
unfolding shutdown_service
stop_all stop [] = record { services = []; clean = true; log = [] }
stop_all stop ((k, s) ∷ rest) =
    let others = stop_all stop rest in
    let last = shutdown_service stop s s.shutdown_func in
    record {
      services = (k, last.0.0) ∷ others.services;
      clean = others.clean && last.0.1;
      log = others.log ++ last.1;
    }

-- The loop over the shutdown tasks, the last one first; a task that raises is only logged.
unfoldable pub run_shutdown_tasks : List String → List Event
run_shutdown_tasks [] = []
run_shutdown_tasks (t ∷ ts) = run_shutdown_tasks ts ++ task_called t ∷ []

unfoldable pub shutdown : (stop : String → Stop) → LifecycleManager → Bool × LifecycleManager
unfolding stop_all run_shutdown_tasks
shutdown stop m =
    let sweep = stop_all stop m.services in
    (
      sweep.clean,
      record m {
        services = sweep.services;
        shutdown_event = true;
        health_monitor = false;
        log = m.log ++ (sweep.log ++ run_shutdown_tasks m.shutdown_tasks);
      },
    )

-- The loop over the startup tasks: it stops at the first one that raises.
unfoldable pub run_startup_tasks : (run : String → Option String) → List String → Bool × List Event
run_startup_tasks run [] = (true, [])
run_startup_tasks run (t ∷ ts) =
    let rest = run_startup_tasks run ts in
    elim (run t) [ none ↦ (rest.0, task_called t ∷ rest.1) | some _ ↦ (false, task_called t ∷ []) ]

module _ (start : String → Option String) (stop : String → Stop)
    (run : String → Option String) where
  -- After the startup tasks
  unfoldable pub start_services : LifecycleManager → Bool × LifecycleManager
  unfolding start_all shutdown
  start_services m =
      let sweep = start_all start m.services in
      let after = record m { services = sweep.services; log = m.log ++ sweep.log } in
      if sweep.clean
      then (true, record after { health_monitor = true })
      else (false, (shutdown stop after).1)

  unfoldable pub after_tasks : LifecycleManager → Bool × List Event → Bool × LifecycleManager
  unfolding start_services
  after_tasks m (true, events) = start_services (record m { log = m.log ++ events })
  after_tasks m (false, events) = (false, record m { log = m.log ++ events })

  unfoldable pub startup : (now : ℕ) → LifecycleManager → Bool × LifecycleManager
  unfolding after_tasks run_startup_tasks
  startup now m =
      after_tasks (record m { startup_time = some now; signal_handlers_installed = true })
        (run_startup_tasks run m.startup_tasks)

unfoldable pub is_running : ServiceState → Bool
is_running running = true
is_running _ = false

unfoldable pub all_running : Dict String ServiceInfo → Bool
unfolding is_running
all_running [] = true
all_running ((k, s) ∷ rest) = is_running s.state && all_running rest

unfoldable pub is_healthy : LifecycleManager → Bool
unfolding all_running
is_healthy m = all_running m.services
