-- ===== src/Lifecycle/Tests.antt =====
-- Two signals, then the deadline before the resources, and the theorem at that run.
use log_stream.Base.{◌≡◌, refl, true, false, List, [], ◌∷◌}
use log_stream.Lifecycle.{
  sigint, sigterm, mark_not_ready, close_application, close_database, schedule_deadline,
  cancel_deadline, force_exit, on_shutdown_started, on_shutdown_failed, installed, execute_shutdown,
  shutdown, conclude, resources_done, application_settled, database_settled, deadline_fired,
  signal_received, Event, signal_arrives, application_settles, database_settles, deadline_fires,
  step, run,
}
use log_stream.Lifecycle.Orderly.{IsOrderly}
use log_stream.Lifecycle.Once.{run-installed-IsOrderly}

abbrev events : List Event
events =
    signal_arrives sigterm
    ∷ signal_arrives sigint
    ∷ deadline_fires
    ∷ application_settles true
    ∷ database_settles false
    ∷ []

calls_made :
    (run true installed events).calls
    ≡ mark_not_ready
      ∷ on_shutdown_started sigterm
      ∷ close_application
      ∷ schedule_deadline
      ∷ cancel_deadline
      ∷ on_shutdown_failed sigterm
      ∷ force_exit
      ∷ close_database
      ∷ []
unfolding execute_shutdown shutdown conclude resources_done application_settled database_settled
    deadline_fired signal_received step run
calls_made = refl

run-installed-IsOrderly_example : IsOrderly (run true installed events)
run-installed-IsOrderly_example = run-installed-IsOrderly true events
