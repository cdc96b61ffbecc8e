-- ===== src/Lifecycle.antt =====
-- src/server-lifecycle.ts. `closeApplication`, `closeDatabase` and the timer are the environment: the
-- events say when they settle or fire. What the lifecycle calls is recorded. The functions of the options
-- are taken not to call `shutdown` before they return, as those of src/server.ts do not.
pub mod Orderly
pub mod Once
mod Tests
use log_stream.Base.{
  ℕ, Bool, true, false, ◌||◌, List, [], ◌∷◌, ◌++◌, Option, none, some, if◌then◌else◌,
}

pub data ShutdownSignal : Type 0 where
  sigint sigterm : ShutdownSignal

pub data ShutdownState : Type 0 where
  running closing closed failed : ShutdownState

pub data Call : Type 0 where
  mark_not_ready : Call
  on_shutdown_started on_shutdown_failed : ShutdownSignal → Call
  close_application close_database schedule_deadline cancel_deadline force_exit : Call

-- Where `closeResources` stands; in the second await it knows whether the first one failed.
pub data Closure : Type 0 where
  idle application done : Closure
  database : (closure_failed : Bool) → Closure

-- The closure variables, `closeResources`, whether the race with the deadline is open, and the calls.
pub record Lifecycle : Type 0 where
  pub state : ShutdownState
  pub shutdown_promise : Option ShutdownSignal
  pub disposed : Bool
  pub closure : Closure
  pub race_open : Bool
  pub calls : List Call

abbrev pub installed : Lifecycle
installed = record {
  state = running;
  shutdown_promise = none;
  disposed = false;
  closure = idle;
  race_open = false;
  calls = [];
}

abbrev pub log_calls : List Call → Lifecycle → Lifecycle
log_calls calls s = record s { calls = s.calls ++ calls }

unfoldable pub execute_shutdown : ShutdownSignal → Lifecycle → Lifecycle
execute_shutdown signal s = record s {
  state = closing;
  closure = application;
  race_open = true;
  calls =
      s.calls
      ++ (mark_not_ready ∷ on_shutdown_started signal ∷ close_application ∷ schedule_deadline ∷ []);
}

abbrev pub assign : ShutdownSignal → Lifecycle → Lifecycle
assign signal s = record s { shutdown_promise = some signal }

-- `shutdownPromise ??= executeShutdown(signal)`: the promise is there after the calls that
-- `executeShutdown` makes before its first await.
unfoldable pub shutdown : ShutdownSignal → Lifecycle → Lifecycle
shutdown signal s = elim s.shutdown_promise [
  | some p ↦ s
  | none ↦ assign signal (execute_shutdown signal s)
]

abbrev pub signal_of : Lifecycle → ShutdownSignal
signal_of s = elim s.shutdown_promise [ some signal ↦ signal | none ↦ sigint ]

-- The race is decided by the resources.
unfoldable pub conclude : Bool → Lifecycle → Lifecycle
conclude closure_failed s =
    if closure_failed
    then record s {
      state = failed;
      race_open = false;
      calls = s.calls ++ (cancel_deadline ∷ on_shutdown_failed (signal_of s) ∷ []);
    }
    else record s { state = closed; race_open = false; calls = s.calls ++ (cancel_deadline ∷ []) }

unfoldable pub resources_done : Bool → Lifecycle → Lifecycle
resources_done closure_failed s =
    if s.race_open
    then conclude closure_failed (record s { closure = done })
    else record s { closure = done }

-- `closeApplication` settles; `has_database` tells whether `closeDatabase` is given.
unfoldable pub application_settled : Bool → Bool → Lifecycle → Lifecycle
application_settled has_database fails s = elim s.closure [
  | application ↦
      if has_database
      then record s { closure = database fails; calls = s.calls ++ (close_database ∷ []) }
      else resources_done fails s
  | _ ↦ s
]

unfoldable pub database_settled : Bool → Lifecycle → Lifecycle
database_settled fails s = elim s.closure [
  | database closure_failed ↦ resources_done (closure_failed || fails) s
  | _ ↦ s
]

-- The race is decided by the deadline.
unfoldable pub deadline_fired : Lifecycle → Lifecycle
deadline_fired s =
    if s.race_open
    then record s {
      state = failed;
      race_open = false;
      calls = s.calls ++ (cancel_deadline ∷ on_shutdown_failed (signal_of s) ∷ force_exit ∷ []);
    }
    else s

-- A signal of the process reaches the handler until `dispose`.
unfoldable pub signal_received : ShutdownSignal → Lifecycle → Lifecycle
signal_received signal s = if s.disposed then s else shutdown signal s

pub data Event : Type 0 where
  signal_arrives shutdown_call : ShutdownSignal → Event
  application_settles database_settles : (fails : Bool) → Event
  deadline_fires dispose_call : Event

unfoldable pub step : Bool → Lifecycle → Event → Lifecycle
step has_database s (signal_arrives signal) = signal_received signal s
step has_database s (shutdown_call signal) = shutdown signal s
step has_database s (application_settles fails) = application_settled has_database fails s
step has_database s (database_settles fails) = database_settled fails s
step has_database s deadline_fires = deadline_fired s
step has_database s dispose_call = record s { disposed = true }

unfoldable pub run : Bool → Lifecycle → List Event → Lifecycle
run has_database s [] = s
run has_database s (e ∷ es) = run has_database (step has_database s e) es
