-- ===== src/Database/Migrations/Owner/Retry.antt =====
-- src/database/migrations/migration-runner.ts: the attempts of the owner end.
use log_stream.Base.{
  ℕ, zero, suc, ◌+◌, ◌≤◌, ◌<◌, ◌≡◌, refl, Bool, true, false, List, [], ◌∷◌, ◌++◌, Option, none,
  some, leb, Bool-cases, inl, inr, arith,
}
use log_stream.Database.Session.{
  Event, read_clock, created, connected, World, Action, Ended, returned, threw, unfinished,
}
use log_stream.Database.Lock.Ends.{Advances}
use log_stream.Database.Migrations.{MigrationFile, MigrationFailure, Result}
use log_stream.Database.Migrations.Runner.{LockOptions}
use log_stream.Database.Works.{DoneAt}
use log_stream.Database.Migrations.Owner.{
  Connection, ConnectionFailure, connect_in_time, attempt_or_stop, attempts,
  run_migrations_with_owner_retry,
}
use log_stream.Database.Migrations.Owner.Closed.{closed_off, open_connections, At, At-one}
use log_stream.Database.Migrations.Owner.Attempts.{Goes, after_connect-At}

module _ (world : World) (start : ℕ) (advances : Advances world) (owner : Connection)
    (load_migrations : List Event → Result (List MigrationFile))
    (after_migrations : LockOptions → Action MigrationFailure Unit) (retry_delay : ℕ)
    (waits : 0 < retry_delay) (lock_fuel : ℕ)
    (after_keeps : (n time : ℕ) (options : LockOptions) (log : List Event)
      → options.deadline ≤ time + lock_fuel
      → 0 < options.retry_delay
      → At world start n time log
      → DoneAt (At world start n time) (after_migrations options log)) where
  connect-At :
      (n time : ℕ) (late : Bool) (refusal : Option ConnectionFailure) (log : List Event)
      → At world start n time log
      → DoneAt (At world start n time) (connect_in_time late refusal log)
  connect-At n time true refusal log h =
      At-one world start advances n n time log (connected false) refl h
  connect-At n time false none log h =
      At-one world start advances n n time log (connected true) refl h
  connect-At n time false (some e) log h =
      At-one world start advances n n time log (connected false) refl h

  attempt_or_stop-At :
      (n time deadline : ℕ) (again : Action MigrationFailure (List ℕ)) (t : ℕ) (log : List Event)
      → deadline ≤ time + lock_fuel
      → (leb deadline t ≡ false
          → Goes world start advances owner load_migrations after_migrations retry_delay waits
              lock_fuel after_keeps n time deadline again)
      → At world start n time log
      → DoneAt (At world start n 0) (
          attempt_or_stop world owner load_migrations after_migrations retry_delay
            (suc lock_fuel)
            deadline
            again
            t
            log)
  attempt_or_stop-At n time deadline again t log enough next h =
      elim (Bool-cases (leb deadline t)) [
        | inl b ↦ rw b (closed_off world start advances n time log h)
        | inr b ↦ rw b (elim (Bool-cases (owner.creates log)) [
          | inl c ↦ rw c (
              after_connect-At world start advances owner load_migrations after_migrations
                retry_delay waits lock_fuel after_keeps n time deadline again _ enough (next b)
                (connect-At (suc n) time _ _ (log ++ (created true ∷ []))
                  (At-one world start advances n (suc n) time log (created true) refl h)))
          | inr c ↦ rw c (
              closed_off world start advances n time (log ++ (created false ∷ []))
                (At-one world start advances n n time log (created false) refl h))
        ])
      ]

  attempts-At :
      (n deadline fuel : ℕ) (log : List Event)
      → deadline ≤ world.now log + fuel
      → deadline ≤ world.now log + lock_fuel
      → open_connections start log ≡ n
      → DoneAt (At world start n 0) (
          attempts world owner load_migrations after_migrations retry_delay
            (suc lock_fuel)
            deadline
            (suc fuel)
            log)
  unfolding attempts
  attempts-At n deadline zero log enough locks count =
      attempt_or_stop-At n (world.now log) deadline _ (world.now log) (log ++ (read_clock ∷ []))
        locks (λ late log h. absurd (ground arith))
        (At-one world start advances n n (world.now log) log read_clock refl
          (record { count = count; since = omega arith }))
  attempts-At n deadline (suc fuel) log enough locks count =
      attempt_or_stop-At n (world.now log) deadline _ (world.now log) (log ++ (read_clock ∷ []))
        locks
        (λ late log h.
          attempts-At n deadline fuel log (omega (arith, enough, h.since))
            (omega (arith, locks, h.since)) h.count)
        (At-one world start advances n n (world.now log) log read_clock refl
          (record { count = count; since = omega arith }))

-- Where the clock never runs back and a sleep takes time, the delay is not 0, and what follows the migrations ends and closes what it opens: the attempts of the owner end with a result or an error, for fuels above the time allowed, and as many connections are open then as before, so that each connection made is given to `end`.
pub run_migrations_with_owner_retry-DoneAt :
    (world : World) (start : ℕ) (owner : Connection)
    (load_migrations : List Event → Result (List MigrationFile))
    (after_migrations : LockOptions → Action MigrationFailure Unit) (retry_delay timeout fuel : ℕ)
    (n : ℕ) (log : List Event)
    → Advances world
    → ((n time : ℕ) (options : LockOptions) (log : List Event)
        → options.deadline ≤ time + fuel
        → 0 < options.retry_delay
        → At world start n time log
        → DoneAt (At world start n time) (after_migrations options log))
    → 0 < retry_delay
    → timeout ≤ fuel
    → open_connections start log ≡ n
    → DoneAt
        (λ log. open_connections start log ≡ n)
        (run_migrations_with_owner_retry world owner load_migrations after_migrations retry_delay
          (suc fuel)
          timeout
          (suc fuel)
          log)
unfolding run_migrations_with_owner_retry
run_migrations_with_owner_retry-DoneAt world start owner load_migrations after_migrations
      retry_delay timeout fuel n log advances after_keeps waits enough count =
    let k = advances.forward log read_clock in
    counted _ (
      attempts-At world start advances owner load_migrations after_migrations retry_delay waits fuel
        after_keeps n (world.now log + timeout) fuel (log ++ (read_clock ∷ [])) (omega arith)
        (omega arith)
        ((At-one world start advances n n 0 log read_clock refl
          (record { count = count; since = omega arith })).count))
  where
    counted :
        (x : Ended MigrationFailure (List ℕ) × List Event)
        → DoneAt (At world start n 0) x
        → DoneAt (λ log. open_connections start log ≡ n) x
    counted (returned a, log) h = h.count
    counted (threw e, log) h = h.count
    counted (unfinished, log) h = h
