-- ===== src/Retention/Service/Tests.antt =====
-- A service that is stopped during its second run, and the theorems at it.
use log_stream.Base.{◌≡◌, refl, true, false, List, [], ◌∷◌}
use log_stream.Retention.Service.{
  settled, created, schedule_next, finish_run, begin_run, start, execute_run, settle_run, stop,
  resume_stop, Event, start_called, stop_resumed, stop_called, timer_fired, run_executed,
  run_settled, step, run,
}
use log_stream.Retention.Service.Consistent.{IsConsistent, run-created-IsConsistent}
use log_stream.Retention.Service.Stopping.{
  IsFrozen, closing, is_settled, run-IsFrozen, run-stop_settles,
}

abbrev two_runs : List Event
two_runs =
    start_called
    ∷ run_executed true true
    ∷ run_settled true
    ∷ timer_fired 0
    ∷ run_executed true true
    ∷ []

abbrev stopped : List Event
stopped =
    start_called ∷ run_executed true true ∷ stop_called true ∷ run_settled true ∷ stop_resumed ∷ []

run-created-IsConsistent_example : IsConsistent (run two_runs created)
run-created-IsConsistent_example = run-created-IsConsistent two_runs

stopped-settled : (run stopped created).stop_promise ≡ settled false
unfolding run step start begin_run execute_run settle_run finish_run schedule_next stop resume_stop
stopped-settled = refl

run-IsFrozen_example :
    IsFrozen
      (run stopped created).calls
      false
      (run (start_called ∷ timer_fired 0 ∷ []) (run stopped created))
run-IsFrozen_example =
    run-IsFrozen stopped (start_called ∷ timer_fired 0 ∷ []) false stopped-settled

run-stop_settles_example :
    is_settled
      (run
        (stop_called false ∷ closing (run two_runs created).active true true false)
        (run two_runs created)).stop_promise
    ≡ true
run-stop_settles_example = run-stop_settles two_runs false true true false
