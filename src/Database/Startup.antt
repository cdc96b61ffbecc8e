-- ===== src/Database/Startup.antt =====
-- src/server.ts: `main` up to the start of the runtime. `startRuntime` is a parameter.
mod Tests
use log_stream.Base.{
  Bool, ℕ, suc, ◌+◌, ◌≤◌, ◌<◌, ◌≡◌, refl, List, [], ◌∷◌, ◌++◌, Option, none, some, arith,
}
use log_stream.Base.Number.{Number}
use log_stream.Base.Text.{Text}
use log_stream.Database.Session.{
  Event, read_clock, World, Action, Ended, returned, threw, unfinished, now, give_or, fail, chain,
  rescue, handle_intro, ◌>>=◌, ◌>>◌,
}
use log_stream.Database.Lock.Ends.{Advances}
use log_stream.Database.Works.{DoneAt}
use log_stream.Database.Migrations.{MigrationFile, MigrationFailure, other, Result}
use log_stream.Database.Migrations.Runner.{LockOptions}
use log_stream.Database.Migrations.Owner.{
  Connection, run_migrations_with_owner_retry, migrate_before_runtime,
}
use log_stream.Database.Migrations.Owner.Closed.{
  open_connections, At, At-one, waits-At, works-At, unlock-At,
}
use log_stream.Database.Migrations.Owner.Retry.{run_migrations_with_owner_retry-DoneAt}
use log_stream.Database.Partitions.{DailyPartition, build_partition_plan}
use log_stream.Database.Partitions.Preparer.{PreparationFailure, invalid_plan, prepare_partitions}
use log_stream.Database.Partitions.Locked.{prepare_partitions-DoneAt}

module _ (world : World) (before : Text → Text → Bool) (retention_days : Number) (fuel : ℕ) where
  abbrev pub prepare_plan :
      LockOptions → Option (List DailyPartition) → Action PreparationFailure Unit
  prepare_plan options plan log = chain (give_or invalid_plan plan log) λ partitions.
      prepare_partitions world before partitions (some options.deadline) (some options.retry_delay)
        fuel

  -- `afterMigrations`: its errors are no MigrationError.
  unfoldable pub after_migrations : LockOptions → Action MigrationFailure Unit
  after_migrations options =
      rescue
        (now world >>= λ time.
          prepare_plan options (build_partition_plan (some time) retention_days))
        λ _. fail other

  module _ (owner : Connection) (load_migrations : List Event → Result (List MigrationFile)) where
    -- `main`, with the configuration's timeout and delay.
    unfoldable pub main :
        {A : Type 0} (retry_delay timeout : ℕ)
        → Action MigrationFailure A
        → Action MigrationFailure A
    main retry_delay timeout start_runtime =
        migrate_before_runtime
          (run_migrations_with_owner_retry world owner load_migrations after_migrations retry_delay
            fuel timeout fuel)
          start_runtime

module _ (world : World) (before : Text → Text → Bool) (retention_days : Number) (fuel start : ℕ)
    (advances : Advances world) where
  prepare_plan-At :
      (n time : ℕ) (options : LockOptions) (plan : Option (List DailyPartition)) (log : List Event)
      → options.deadline ≤ time + fuel
      → 0 < options.retry_delay
      → At world start n time log
      → DoneAt
          (At world start n time)
          (prepare_plan world before retention_days (suc fuel) options plan log)
  prepare_plan-At n time options none log enough waits h = h
  prepare_plan-At n time options (some partitions) log enough waits h =
      prepare_partitions-DoneAt world (At world start n time) before partitions options.deadline
        options.retry_delay fuel log (waits-At world start advances n time)
        (works-At world start advances n time) (unlock-At world start advances n time) advances
        waits (omega (arith, h.since)) h

  after_migrations-At :
      (n time : ℕ) (options : LockOptions) (log : List Event)
      → options.deadline ≤ time + fuel
      → 0 < options.retry_delay
      → At world start n time log
      → DoneAt
          (At world start n time)
          (after_migrations world before retention_days (suc fuel) options log)
  unfolding after_migrations
  after_migrations-At n time options log enough waits h =
      handle_intro (DoneAt (At world start n time)) (DoneAt (At world start n time))
        (prepare_plan world before retention_days (suc fuel) options
          (build_partition_plan (some (world.now log)) retention_days) (log ++ (read_clock ∷ [])))
        _
        (prepare_plan-At n time options (build_partition_plan (some (world.now log)) retention_days)
          _ enough waits (At-one world start advances n n time log read_clock refl h))
        (λ _ log h. h) (λ _ log h. h) λ log h. h

-- How `main` goes on from the end of the migrations and the partitions: their error is its own, or they have
-- succeeded and it is the runtime from then on, in both cases with a count of open connections.
pub data Starts {A : Type 0} (migrated : Ended MigrationFailure (List ℕ) × List Event)
    (start_runtime : Action MigrationFailure A) (counts : List Event → Type 0)
    : Ended MigrationFailure A × List Event → Type 0 where
  refused :
      {e : MigrationFailure} {log : List Event}
      → migrated ≡ (threw e, log)
      → counts log
      → Starts migrated start_runtime counts (threw e, log)
  handed_over :
      {versions : List ℕ} {log : List Event} {x : Ended MigrationFailure A × List Event}
      → migrated ≡ (returned versions, log)
      → counts log
      → x ≡ start_runtime log
      → Starts migrated start_runtime counts x

-- Where the clock never runs back and a sleep takes time, the delay is not 0, and the fuel is above the time allowed: whatever the database and the connections answer, the migrations and the partitions end, and `main` ends with their error or, where they have succeeded, hands over to the runtime; and then each connection that it made for the migrations and the partitions has been given to `end`, whether or not its `end` was fulfilled. Nothing is said of what the runtime does.
pub main-Starts :
    (world : World) (before : Text → Text → Bool) (retention_days : Number) (owner : Connection)
    (load_migrations : List Event → Result (List MigrationFile)) (A : Type 0)
    (start_runtime : Action MigrationFailure A) (retry_delay timeout fuel start n : ℕ)
    (log : List Event)
    → Advances world
    → 0 < retry_delay
    → timeout ≤ fuel
    → open_connections start log ≡ n
    → Starts
        (run_migrations_with_owner_retry world owner load_migrations
          (after_migrations world before retention_days (suc fuel))
          retry_delay
          (suc fuel)
          timeout
          (suc fuel)
          log)
        start_runtime
        (λ log. open_connections start log ≡ n)
        (main world before retention_days
          (suc fuel)
          owner
          load_migrations
          retry_delay
          timeout
          start_runtime
          log)
unfolding main migrate_before_runtime
main-Starts world before retention_days owner load_migrations A start_runtime retry_delay timeout
      fuel start n log advances waits enough count =
    chained
      (run_migrations_with_owner_retry world owner load_migrations
        (after_migrations world before retention_days (suc fuel)) retry_delay (suc fuel) timeout
        (suc fuel) log)
      (run_migrations_with_owner_retry-DoneAt world start owner load_migrations
        (after_migrations world before retention_days (suc fuel)) retry_delay timeout fuel n log
        advances (after_migrations-At world before retention_days fuel start advances) waits enough
        count)
  where
    chained :
        (x : Ended MigrationFailure (List ℕ) × List Event)
        → DoneAt (λ log. open_connections start log ≡ n) x
        → Starts x start_runtime
            (λ log. open_connections start log ≡ n)
            (chain x λ _. start_runtime)
    chained (returned a, log) h = handed_over refl h refl
    chained (threw e, log) h = refused refl h
    chained (unfinished, log) h = absurd h
