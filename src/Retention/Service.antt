-- ===== src/Retention/Service.antt =====
-- src/modules/retention/retention-service.ts: `createRetentionService` behind its validated options. The
-- events are the calls of the service and what its promises and its timer do; whether `schedule`,
-- `cancel` and the building of the request throw is said by the event.
pub mod Timers
pub mod Consistent
pub mod Stopping
pub mod Request
mod Tests
use log_stream.Base.{
  ℕ, suc, ◌+◌, Bool, true, false, not, ◌||◌, List, [], ◌∷◌, Option, none, some, ◌==◌, if◌then◌else◌,
}

-- `activeRun`: there is none, its microtask waits, or the repository runs.
pub data ActiveRun : Type 0 where
  idle queued running : ActiveRun

-- `stopPromise`: it waits for the active run, then settles; `failed` says that `cancel` has thrown.
pub data StopPromise : Type 0 where
  not_called : StopPromise
  waiting settled : (failed : Bool) → StopPromise

-- The closure variables, with `timerScheduled` and `scheduledHandle` in one and whether the active
-- run's signal is aborted. Of the environment: the timers that have not fired nor been cancelled, the
-- next handle, whether a `schedule` has thrown, and the number of calls of the repository.
pub record Service : Type 0 where
  pub started : Bool
  pub stopping : Bool
  pub scheduled : Option ℕ
  pub active : ActiveRun
  pub aborted : Bool
  pub stop_promise : StopPromise
  pub timers : List ℕ
  pub next_handle : ℕ
  pub lost : Bool
  pub calls : ℕ

abbrev pub created : Service
created = record {
  started = false;
  stopping = false;
  scheduled = none;
  active = idle;
  aborted = false;
  stop_promise = not_called;
  timers = [];
  next_handle = 0;
  lost = false;
  calls = 0;
}

abbrev pub is_scheduled : Option ℕ → Bool
is_scheduled none = false
is_scheduled (some h) = true

abbrev pub is_active : ActiveRun → Bool
is_active idle = false
is_active queued = true
is_active running = true

-- `options.timer.schedule` returns a new handle.
abbrev pub arm_timer : Service → Service
arm_timer s = record s {
  scheduled = some s.next_handle;
  timers = s.next_handle ∷ s.timers;
  next_handle = suc s.next_handle;
}

unfoldable pub schedule_next : Bool → Service → Service
schedule_next schedules s =
    if s.stopping || is_scheduled s.scheduled
    then s
    else if schedules
    then arm_timer s
    else record s { lost = true }

-- The `finally` of `executeRun`.
unfoldable pub finish_run : Bool → Service → Service
finish_run schedules s = schedule_next schedules (record s { active = idle; aborted = false })

abbrev pub queue_run : ActiveRun → Service → Service
queue_run idle s = record s { active = queued; aborted = false }
queue_run queued s = s
queue_run running s = s

unfoldable pub begin_run : Service → Service
begin_run s = if s.stopping then s else queue_run s.active s

unfoldable pub start : Service → Service
start s = if s.started || s.stopping then s else begin_run (record s { started = true })

abbrev pub execute_queued : ActiveRun → Bool → Bool → Service → Service
execute_queued queued request schedules s =
    if request then record s { active = running; calls = suc s.calls } else finish_run schedules s
execute_queued idle request schedules s = s
execute_queued running request schedules s = s

-- The microtask of `executeRun` up to the call of the repository, or to its end if the request cannot
-- be built.
unfoldable pub execute_run : Bool → Bool → Service → Service
execute_run request schedules s = execute_queued s.active request schedules s

abbrev pub settle_running : ActiveRun → Bool → Service → Service
settle_running running schedules s = finish_run schedules s
settle_running idle schedules s = s
settle_running queued schedules s = s

-- The rest of `executeRun`: a result and a failure differ in what is logged.
unfoldable pub settle_run : Bool → Service → Service
settle_run schedules s = settle_running s.active schedules s

unfoldable pub remove_timer : ℕ → List ℕ → List ℕ
remove_timer h [] = []
remove_timer h (x ∷ xs) = if x == h then xs else x ∷ remove_timer h xs

unfoldable pub has_timer : ℕ → List ℕ → Bool
has_timer h [] = false
has_timer h (x ∷ xs) = x == h || has_timer h xs

-- The callback of the timer.
unfoldable pub fire_timer : ℕ → Service → Service
fire_timer h s =
    if has_timer h s.timers
    then begin_run (record s { scheduled = none; timers = remove_timer h s.timers })
    else s

-- The timers behind `cancel`, which may throw, and whether it has.
abbrev pub cancel_timer : Option ℕ → Bool → List ℕ → List ℕ × Bool
cancel_timer none cancels timers = (timers, false)
cancel_timer (some h) true timers = (remove_timer h timers, false)
cancel_timer (some h) false timers = (timers, true)

abbrev pub stop_first : StopPromise → Bool → Service → Service
stop_first not_called cancels s = record s {
  stopping = true;
  scheduled = none;
  timers = (cancel_timer s.scheduled cancels s.timers).0;
  aborted = is_active s.active;
  stop_promise = waiting (cancel_timer s.scheduled cancels s.timers).1;
}
stop_first (waiting failed) cancels s = s
stop_first (settled failed) cancels s = s

-- `stop` up to its await; a later call gets the same promise.
unfoldable pub stop : Bool → Service → Service
stop cancels s = stop_first s.stop_promise cancels s

abbrev pub resume_waiting : StopPromise → ActiveRun → StopPromise
resume_waiting (waiting failed) idle = settled failed
resume_waiting (waiting failed) queued = waiting failed
resume_waiting (waiting failed) running = waiting failed
resume_waiting not_called a = not_called
resume_waiting (settled failed) a = settled failed

-- The rest of `stop`, once the active run has settled.
unfoldable pub resume_stop : Service → Service
resume_stop s = record s { stop_promise = resume_waiting s.stop_promise s.active }

pub data Event : Type 0 where
  start_called stop_resumed : Event
  stop_called : (cancels : Bool) → Event
  timer_fired : (handle : ℕ) → Event
  run_executed : (request schedules : Bool) → Event
  run_settled : (schedules : Bool) → Event

unfoldable pub step : Event → Service → Service
step start_called s = start s
step stop_resumed s = resume_stop s
step (stop_called cancels) s = stop cancels s
step (timer_fired h) s = fire_timer h s
step (run_executed request schedules) s = execute_run request schedules s
step (run_settled schedules) s = settle_run schedules s

unfoldable pub run : List Event → Service → Service
run [] s = s
run (e ∷ events) s = run events (step e s)

-- What a promise was rejected with: an Error, or something else.
pub data Thrown : Type 0 where
  an_error : ℕ → Thrown
  something_else : Thrown

pub data Shutdown : Type 0 where
  done : Shutdown
  rejected : ℕ → Shutdown
  shutdown_failed : Shutdown

unfoldable pub conclude_shutdown : Option Thrown → Shutdown
conclude_shutdown none = done
conclude_shutdown (some (an_error e)) = rejected e
conclude_shutdown (some something_else) = shutdown_failed

-- `primaryError ??= error`.
unfoldable pub first_error : Option Thrown → Option Thrown → Option Thrown
first_error none later = later
first_error (some e) later = some e

pub data ShutdownCall : Type 0 where
  stop_retention close_database : ShutdownCall

-- `stopRetentionBeforeDatabase`, with what the calls answer after those before them.
unfoldable pub stop_retention_before_database :
    (List ShutdownCall → ShutdownCall → Option Thrown) → List ShutdownCall × Shutdown
stop_retention_before_database call =
    let stopped = call [] stop_retention in
    let closed = call (stop_retention ∷ []) close_database in
    (stop_retention ∷ close_database ∷ [], conclude_shutdown (first_error stopped closed))
