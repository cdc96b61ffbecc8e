-- ===== src/Database/Migrations/Runner.antt =====
-- src/database/migrations/migration-runner.ts: `runMigrations`.
use log_stream.Base.{ℕ, ◌+◌, List, [], ◌∷◌, ◌++◌, Option, none, some, if◌then◌else◌}
use log_stream.Domain.Json.{Json}
use log_stream.Database.Session.{
  Event, World, Action, ask, now, give, fail, give_or, rescue, finally, ◌>>=◌, ◌>>◌, begin, commit,
  roll_back, script, insert_history_sql, initialize_history_sql, read_history_sql, loaded,
}
use log_stream.Database.Lock.{LockErrors, acquire_lock, release_lock}
use log_stream.Database.Migrations.{
  MigrationFile, AppliedMigration, MigrationFailure, infrastructure, history_read, execution, lock,
  lock_timeout, other, is_migration_error, Result, ok, error, all_applied, find_pending_migrations,
}

pub record LockOptions : Type 0 where
  pub deadline : ℕ
  pub retry_delay : ℕ

abbrev pub lock_errors : LockErrors MigrationFailure
lock_errors = record { timed_out = lock_timeout; failed = lock; sleep_failed = lock }

abbrev pub default_lock_timeout : ℕ
default_lock_timeout = 30000

abbrev pub default_lock_retry_delay : ℕ
default_lock_retry_delay = 100

abbrev pub lift : {A : Type 0} → Result A → Action MigrationFailure A
lift (ok a) = give a
lift (error e) = fail e

-- The error is thrown on where it is a MigrationError.
abbrev pub as_migration_error : MigrationFailure → Action MigrationFailure (List ℕ)
as_migration_error e = fail (if is_migration_error e then e else history_read)

module _ (world : World) where
  abbrev pub initialize_in_transaction : Action MigrationFailure (List Json)
  initialize_in_transaction = do
    ask world other begin
    ask world other initialize_history_sql
    ask world other commit

  unfoldable pub initialize_history : Action MigrationFailure (List Json)
  initialize_history = rescue initialize_in_transaction λ _. roll_back world other infrastructure

  unfoldable pub read_history : Action MigrationFailure (List AppliedMigration)
  read_history = do
    rows ← ask world history_read read_history_sql
    give_or history_read (all_applied rows)

  abbrev pub apply_in_transaction : MigrationFile → Action MigrationFailure (List Json)
  apply_in_transaction m = do
    ask world other begin
    ask world other (script m.sql)
    ask world other (insert_history_sql m.version m.filename m.checksum)
    ask world other commit

  unfoldable pub apply_migration : MigrationFile → Action MigrationFailure (List Json)
  apply_migration m =
      rescue (apply_in_transaction m) λ _. roll_back world other (execution m.version)

  -- The loop over the pending migrations, with `appliedVersions` so far.
  unfoldable pub apply_all : List MigrationFile → List ℕ → Action MigrationFailure (List ℕ)
  apply_all [] versions = give versions
  apply_all (m ∷ pending) versions =
      apply_migration m >> apply_all pending (versions ++ (m.version ∷ []))

  -- `loadMigrations`, by the events before.
  abbrev pub load :
      (List Event → Result (List MigrationFile)) → Action MigrationFailure (List MigrationFile)
  load load_migrations log = lift (load_migrations log) (log ++ (loaded ∷ []))

  -- What is done under the lock.
  unfoldable pub migrate :
      (List Event → Result (List MigrationFile)) → Action MigrationFailure (List ℕ)
  migrate load_migrations = do
    migrations ← load load_migrations
    initialize_history
    applied ← read_history
    pending ← lift (find_pending_migrations migrations applied)
    apply_all pending []

  abbrev pub lock_options : Option LockOptions → Action MigrationFailure LockOptions
  lock_options (some options) = give options
  lock_options none = do
    time ← now world
    give (record { deadline = time + default_lock_timeout; retry_delay = default_lock_retry_delay })

  -- `fuel` bounds the rounds of the loop that acquires the lock.
  unfoldable pub run_migrations :
      (List Event → Result (List MigrationFile))
      → Option LockOptions
      → (fuel : ℕ) → Action MigrationFailure (List ℕ)
  run_migrations load_migrations options fuel = do
    options ← lock_options options
    acquire_lock world lock_errors 1 options.deadline options.retry_delay fuel
    rescue (finally (migrate load_migrations) (release_lock world lock_errors 1)) as_migration_error
