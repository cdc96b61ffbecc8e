-- ===== src/Database/Migrations/Owner/Attempts.antt =====
-- src/database/migrations/migration-runner.ts: each attempt of the owner ends with its connection
-- closed, and the attempts end.
use log_stream.Base.{
  ℕ, suc, ◌+◌, ◌-◌, ◌≤◌, ◌<◌, min, ◌≡◌, refl, false, List, [], ◌∷◌, ◌++◌, some, leb, if_intro,
  Bool-cases, inl, inr, arith,
}
use log_stream.Database.Session.{
  Event, read_clock, slept, World, Action, Ended, returned, threw, unfinished, sleep, chain_intro,
  handle_intro,
}
use log_stream.Database.Lock.Ends.{Advances}
use log_stream.Database.Migrations.{MigrationFile, MigrationFailure, connection, Result}
use log_stream.Database.Migrations.Runner.{LockOptions, run_migrations}
use log_stream.Database.Works.{DoneAt}
use log_stream.Database.Migrations.Locked.{run_migrations-DoneAt}
use log_stream.Database.Migrations.Owner.{
  Connection, ConnectError, timed_out, refused, close, close_abandoned_connection, initialize_owner,
  wait_or_stop, after_refusal, after_connect, is_retryable_connection_error,
}
use log_stream.Database.Migrations.Owner.Closed.{
  closed_off, At, At-one, waits-At, works-At, unlock-At, close-At, settle-At,
}

module _ (world : World) (start : ℕ) (advances : Advances world) (owner : Connection)
    (load_migrations : List Event → Result (List MigrationFile))
    (after_migrations : LockOptions → Action MigrationFailure Unit) (retry_delay : ℕ)
    (waits : 0 < retry_delay) (lock_fuel : ℕ)
    (after_keeps : (n time : ℕ) (options : LockOptions) (log : List Event)
      → options.deadline ≤ time + lock_fuel
      → 0 < options.retry_delay
      → At world start n time log
      → DoneAt (At world start n time) (after_migrations options log)) where
  initialize_owner-At :
      (n time deadline : ℕ) (log : List Event)
      → deadline ≤ time + lock_fuel
      → At world start n time log
      → DoneAt (At world start n time) (
          initialize_owner world owner load_migrations after_migrations retry_delay
            (suc lock_fuel)
            deadline
            log)
  initialize_owner-At n time deadline log enough h =
      let options : LockOptions = record { deadline = deadline; retry_delay = retry_delay } in
      chain_intro (DoneAt (At world start n time)) (DoneAt (At world start n time))
        (run_migrations world load_migrations (some options) (suc lock_fuel) log) _
        (run_migrations-DoneAt world load_migrations (At world start n time)
          (waits-At world start advances n time) (works-At world start advances n time)
          (unlock-At world start advances n time) advances options lock_fuel log waits
          (omega (arith, enough, h.since)) h)
        (λ versions log h.
          chain_intro (DoneAt (At world start n time)) (DoneAt (At world start n time))
            (after_migrations options log) _ (after_keeps n time options log enough waits h)
            (λ _ log h. h) (λ _ log h. h) λ log h. h)
        (λ _ log h. h) λ log h. h

  -- The end of an attempt, or the start of a later one.
  abbrev pub Goes : (n time deadline : ℕ) → Action MigrationFailure (List ℕ) → Type 0
  Goes n time deadline again =
      (log : List Event) → At world start n (suc time) log → DoneAt (At world start n 0) (again log)

  earlier :
      {A : Type 0} (n time : ℕ) (x : Ended MigrationFailure A × List Event)
      → DoneAt (At world start n time) x
      → DoneAt (At world start n 0) x
  earlier n time (returned a, log) h = record { count = h.count; since = omega arith }
  earlier n time (threw e, log) h = record { count = h.count; since = omega arith }
  earlier n time (unfinished, log) h = h

  pause_pos : (deadline t : ℕ) → leb deadline t ≡ false → 0 < min retry_delay (deadline - t)
  pause_pos deadline t late = ground (arith, waits)

  sleep-At :
      (n time delay : ℕ) (log : List Event)
      → 0 < delay
      → At world start n time log
      → DoneAt (At world start n (suc time)) (sleep world connection delay log)
  sleep-At n time delay log pos h =
      let k = At-one world start advances n n time log (slept delay) refl h in
      let later : At world start n (suc time) (log ++ (slept delay ∷ [])) = record {
        count = k.count;
        since = omega (arith, h.since, advances.sleeps log delay pos);
      } in
      if_intro
        (λ (end : Ended MigrationFailure Unit).
          DoneAt (At world start n (suc time)) (end, log ++ (slept delay ∷ [])))
        (world.sleeps log delay) (λ _. later) (λ _. later)

  wait_or_stop-At :
      (n time deadline : ℕ) (again : Action MigrationFailure (List ℕ)) (t : ℕ) (log : List Event)
      → Goes n time deadline again
      → At world start n time log
      → DoneAt (At world start n 0) (
          wait_or_stop world owner load_migrations after_migrations retry_delay
            (suc lock_fuel)
            deadline
            again
            t
            log)
  wait_or_stop-At n time deadline again t log next h = elim (Bool-cases (leb deadline t)) [
    | inl b ↦ rw b (closed_off world start advances n time log h)
    | inr b ↦ rw b (
        chain_intro (DoneAt (At world start n (suc time))) (DoneAt (At world start n 0))
          (sleep world connection (min retry_delay (deadline - t)) log) _
          (sleep-At n time _ log (pause_pos deadline t b) h) (λ _ log h. next log h)
          (λ e log h. closed_off world start advances n (suc time) log h) λ log h. h)
  ]

  abandoned-At :
      (n time : ℕ) (log : List Event)
      → At world start (suc n) time log
      → DoneAt (At world start n time) (close_abandoned_connection world owner load_migrations log)
  abandoned-At n time log h =
      handle_intro (DoneAt (At world start n time)) (DoneAt (At world start n time))
        (close world owner load_migrations log) _
        (close-At world start advances owner load_migrations n time log h) (λ _ log h. h)
        (λ _ log h. h) λ log h. h

  after_refusal-At :
      (n time deadline : ℕ) (again : Action MigrationFailure (List ℕ)) (e : ConnectError)
      (log : List Event)
      → Goes n time deadline again
      → At world start (suc n) time log
      → DoneAt (At world start n 0) (
          after_refusal world owner load_migrations after_migrations retry_delay
            (suc lock_fuel)
            deadline
            again
            e
            log)
  after_refusal-At n time deadline again timed_out log next h =
      chain_intro (DoneAt (At world start n time)) (DoneAt (At world start n 0))
        (close_abandoned_connection world owner load_migrations log) _ (abandoned-At n time log h)
        (λ _ log h. closed_off world start advances n time log h)
        (λ e log h. closed_off world start advances n time log h) λ log h. h
  after_refusal-At n time deadline again (refused e) log next h =
      chain_intro (DoneAt (At world start n time)) (DoneAt (At world start n 0))
        (close_abandoned_connection world owner load_migrations log) _ (abandoned-At n time log h)
        (λ _ log h.
          if_intro
            (λ (act : Action MigrationFailure (List ℕ)). DoneAt (At world start n 0) (act log))
            (is_retryable_connection_error e)
            (λ _.
              wait_or_stop-At n time deadline again (world.now log) (log ++ (read_clock ∷ [])) next
                (At-one world start advances n n time log read_clock refl h))
            λ _. closed_off world start advances n time log h)
        (λ e log h. closed_off world start advances n time log h) λ log h. h

  pub after_connect-At :
      (n time deadline : ℕ) (again : Action MigrationFailure (List ℕ))
      (x : Ended ConnectError Unit × List Event)
      → deadline ≤ time + lock_fuel
      → Goes n time deadline again
      → DoneAt (At world start (suc n) time) x
      → DoneAt (At world start n 0) (
          after_connect world owner load_migrations after_migrations retry_delay
            (suc lock_fuel)
            deadline
            again
            x)
  after_connect-At n time deadline again (returned u, log) enough next h = earlier n time _ (
      settle-At world start advances owner load_migrations n time _ (
        handle_intro (DoneAt (At world start (suc n) time)) (DoneAt (At world start (suc n) time))
          (initialize_owner world owner load_migrations after_migrations retry_delay (suc lock_fuel)
            deadline log)
          _ (initialize_owner-At (suc n) time deadline log enough h) (λ _ log h. h) (λ _ log h. h)
          λ log h. h))
  after_connect-At n time deadline again (threw e, log) enough next h =
      after_refusal-At n time deadline again e log next h
  after_connect-At n time deadline again (unfinished, log) enough next h = h
