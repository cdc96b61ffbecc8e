-- ===== src/Database/Migrations/Owner.antt =====
-- src/database/migrations/migration-runner.ts: the connection of the owner, and its retries.
pub mod Closed
pub mod Attempts
pub mod Retry
use log_stream.Base.{
  ℕ, zero, suc, ◌+◌, ◌-◌, min, Bool, true, false, not, ◌||◌, List, [], ◌∷◌, ◌++◌, Option, none,
  some, leb, map, if◌then◌else◌,
}
use log_stream.Base.Text.{Text, text_eq, units}
use log_stream.Database.Session.{
  Event, created, connected, closed, World, Action, Ended, returned, threw, unfinished, now, sleep,
  give, fail, chain, rescue, finally, ◌>>=◌, ◌>>◌,
}
use log_stream.Database.Migrations.{
  MigrationFile, MigrationFailure, connection, owner_startup_timeout, other, is_migration_error,
  Result,
}
use log_stream.Database.Migrations.Runner.{LockOptions, run_migrations}

-- What a connection rejects with: an AggregateError, an object with a text as its code, or another
-- value.
mutual
  pub data ConnectionFailure : Type 0 where
    aggregate_error : ConnectionFailures → ConnectionFailure
    coded : Text → ConnectionFailure
    uncoded : ConnectionFailure

  pub data ConnectionFailures : Type 0 where
    no_errors : ConnectionFailures
    nested : ConnectionFailure → ConnectionFailures → ConnectionFailures

abbrev retryable_connection_codes : List Text
retryable_connection_codes =
    units "EAI_AGAIN"
    ∷ units "ECONNREFUSED"
    ∷ units "ECONNRESET"
    ∷ units "EHOSTUNREACH"
    ∷ units "ENETUNREACH"
    ∷ units "ENOTFOUND"
    ∷ units "ETIMEDOUT"
    ∷ units "53300"
    ∷ units "57P03"
    ∷ []

abbrev contains : List Text → Text → Bool
contains [] code = false
contains (c ∷ codes) code = text_eq c code || contains codes code

unfoldable mutual
  pub is_retryable_connection_error : ConnectionFailure → Bool
  is_retryable_connection_error (aggregate_error errors) = some_retryable errors
  is_retryable_connection_error (coded code) = contains retryable_connection_codes code
  is_retryable_connection_error uncoded = false

  pub some_retryable : ConnectionFailures → Bool
  some_retryable no_errors = false
  some_retryable (nested e errors) = is_retryable_connection_error e || some_retryable errors

-- The connection: whether `createConnection` returns, what `connect` rejects with, whether the clock
-- gives up on it after a time, and whether `end` is fulfilled.
pub record Connection : Type 0 where
  pub creates : List Event → Bool
  pub connect_error : List Event → Option ConnectionFailure
  pub times_out : List Event → ℕ → Bool
  pub closes : List Event → Bool

pub data ConnectError : Type 0 where
  timed_out : ConnectError
  refused : ConnectionFailure → ConnectError

abbrev pub connect_by : Option ConnectionFailure → Action ConnectError Unit
connect_by none log = (returned tt, log ++ (connected true ∷ []))
connect_by (some e) log = (threw (refused e), log ++ (connected false ∷ []))

abbrev pub connect_in_time : Bool → Option ConnectionFailure → Action ConnectError Unit
connect_in_time true refusal log = (threw timed_out, log ++ (connected false ∷ []))
connect_in_time false refusal log = connect_by refusal log

abbrev pub create_by : Bool → Action MigrationFailure Unit
create_by true log = (returned tt, log ++ (created true ∷ []))
create_by false log = (threw connection, log ++ (created false ∷ []))

abbrev pub close_by : Bool → Action MigrationFailure Unit
close_by true log = (returned tt, log ++ (closed true ∷ []))
close_by false log = (threw connection, log ++ (closed false ∷ []))

abbrev pub as_connection_error : {A : Type 0} → MigrationFailure → Action MigrationFailure A
as_connection_error e = fail (if is_migration_error e then e else connection)

module _ (world : World) (owner : Connection)
    (load_migrations : List Event → Result (List MigrationFile)) where
  abbrev pub close : Action MigrationFailure Unit
  close log = close_by (owner.closes log) log

  abbrev pub close_abandoned_connection : Action MigrationFailure Unit
  close_abandoned_connection = rescue close λ _. give tt

  abbrev pub connect_owner : Action MigrationFailure Unit
  connect_owner = rescue (λ log. connect_by (owner.connect_error log) log) λ _. fail other

  unfoldable pub run_migrations_with_owner :
      Option LockOptions → (fuel : ℕ) → Action MigrationFailure (List ℕ)
  run_migrations_with_owner options fuel =
      finally
        (rescue (connect_owner >> run_migrations world load_migrations options fuel)
          as_connection_error)
        close

  module _ (after_migrations : LockOptions → Action MigrationFailure Unit)
      (retry_delay lock_fuel : ℕ) where
    -- The run and what follows it, on a connection that is open.
    abbrev pub initialize_owner : (deadline : ℕ) → Action MigrationFailure (List ℕ)
    initialize_owner deadline = do
      let options : LockOptions = record { deadline = deadline; retry_delay = retry_delay }
      versions ← run_migrations world load_migrations (some options) lock_fuel
      after_migrations options
      give versions

    abbrev pub wait_or_stop :
        (deadline : ℕ) → Action MigrationFailure (List ℕ) → ℕ → Action MigrationFailure (List ℕ)
    wait_or_stop deadline again time =
        if leb deadline time
        then fail owner_startup_timeout
        else (sleep world connection (min retry_delay (deadline - time)) >> again)

    -- After a connection that failed: it is closed, and one waits and tries again, or stops.
    abbrev pub after_refusal :
        (deadline : ℕ)
        → Action MigrationFailure (List ℕ)
        → ConnectError
        → Action MigrationFailure (List ℕ)
    after_refusal deadline again timed_out =
        close_abandoned_connection >> fail owner_startup_timeout
    after_refusal deadline again (refused e) =
        close_abandoned_connection
        >> (if is_retryable_connection_error e
            then (now world >>= wait_or_stop deadline again)
            else fail connection)

    -- How an attempt goes on after `connect`.
    abbrev pub after_connect :
        (deadline : ℕ)
        → Action MigrationFailure (List ℕ)
        → Ended ConnectError Unit × List Event
        → Ended MigrationFailure (List ℕ) × List Event
    after_connect deadline again (returned u, log) =
        finally (rescue (initialize_owner deadline) as_connection_error) close log
    after_connect deadline again (threw e, log) = after_refusal deadline again e log
    after_connect deadline again (unfinished, log) = (unfinished, log)

    abbrev pub attempt_or_stop :
        (deadline : ℕ) → Action MigrationFailure (List ℕ) → ℕ → Action MigrationFailure (List ℕ)
    attempt_or_stop deadline again time =
        if leb deadline time
        then fail owner_startup_timeout
        else ((λ log. create_by (owner.creates log) log) >> λ log.
            after_connect deadline again (
              connect_in_time (owner.times_out log (deadline - time)) (owner.connect_error log)
                log))

    -- The loop, with the number of its attempts as fuel.
    unfoldable pub attempts : (deadline fuel : ℕ) → Action MigrationFailure (List ℕ)
    attempts deadline zero log = (unfinished, log)
    attempts deadline (suc fuel) log =
        chain (now world log) (attempt_or_stop deadline (attempts deadline fuel))

    unfoldable pub run_migrations_with_owner_retry :
        (timeout fuel : ℕ) → Action MigrationFailure (List ℕ)
    run_migrations_with_owner_retry timeout fuel = do
      time ← now world
      attempts (time + timeout) fuel

unfoldable pub migrate_before_runtime : {E A B : Type 0} → Action E A → Action E B → Action E B
migrate_before_runtime migrate start_runtime = migrate >> start_runtime
