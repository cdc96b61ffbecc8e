-- ===== src/Database/Migrations/Runs/Whole.antt =====
-- src/database/migrations/migration-runner.ts: a run from the wait for the lock to its release.
use log_stream.Base.{
  ℕ, ◌≡◌, refl, sym, ap, subst, ◌∙◌, true, List, [], ◌∷◌, ◌++◌, Option, none, some, if◌then◌else◌,
}
use log_stream.Database.Session.{
  SqlQuery, Event, World, Ended, returned, threw, unfinished, chain, chain_intro, handle_intro,
  rescue, finally, settle, keep_error, read_clock,
}
use log_stream.Database.Lock.{acquire_lock, release_lock}
use log_stream.Database.Lock.Kept.{acquire_lock-Holds, release_lock_intro}
use log_stream.Database.Migrations.{
  MigrationFile, MigrationFailure, lock, history_read, is_migration_error, Result,
}
use log_stream.Database.Migrations.Runner.{
  LockOptions, lock_errors, migrate, as_migration_error, run_migrations,
}
use log_stream.Database.Ledger.Stays.{Stays-one, committed-unlock}
use log_stream.Database.Ledger.{Ledger, ledger, idle, seen, seen-append}
use log_stream.Database.Migrations.Refined.{Applies, finished, applied, stopped}
use log_stream.Database.Migrations.Runs.{
  Runs, untouched, initialized, waiting, ran, not_released, Migrates, untouched_at,
  migrate-Migrates,
}

module _ (world : World) (start : Ledger) where
  module _ (load_migrations : List Event → Result (List MigrationFile)) where
    -- The committed statements, read elsewhere.
    moved :
        {before after last : List SqlQuery} {end : Ended MigrationFailure (List ℕ)}
        → last ≡ after
        → Runs world load_migrations before after end
        → Runs world load_migrations before last end
    moved {before} {end = end} e h =
        subst (λ rows. Runs world load_migrations before rows end) (sym e) h

    -- A success that is followed by the failure of the release.
    spoiled :
        {before after : List SqlQuery} {versions : List ℕ}
        → Runs world load_migrations before after (returned versions)
        → Runs world load_migrations before after (threw lock)
    spoiled (ran found h) = not_released found h

    -- The abstract runner ends with a MigrationError, if with any error.
    IsSafe : Ended MigrationFailure (List ℕ) → Type 0
    IsSafe (threw e) = is_migration_error e ≡ true
    IsSafe _ = Unit

    Applies-IsSafe :
        {pending : List MigrationFile} {versions : List ℕ} {rows after : List SqlQuery}
        {end : Ended MigrationFailure (List ℕ)}
        → Applies rows pending versions after end
        → IsSafe end
    unfolding IsSafe is_migration_error
    Applies-IsSafe finished = tt
    Applies-IsSafe (applied h) = Applies-IsSafe h
    Applies-IsSafe stopped = refl

    replaced :
        {before after : List SqlQuery} {e : MigrationFailure}
        → Runs world load_migrations before after (threw e)
        → Runs world load_migrations before after
            (threw (if is_migration_error e then e else history_read))
    unfolding is_migration_error IsSafe
    replaced untouched = untouched
    replaced {before} {after} {e} (ran found h) =
        subst (λ b. Runs world load_migrations before after (threw (if b then e else history_read)))
          (sym (Applies-IsSafe h)) (ran found h)
    replaced initialized = initialized
    replaced (not_released found h) = not_released found h

    -- After the lock's release.
    settle-Migrates :
        (before : List SqlQuery) (x : Ended MigrationFailure (List ℕ) × List Event)
        → Migrates world start load_migrations before x
        → Migrates world start load_migrations before (settle x (release_lock world lock_errors 1))
    unfolding Migrates
    settle-Migrates before (returned versions, log) h =
        release_lock_intro world lock_errors 1
          (λ x.
            Migrates world start load_migrations before (chain x λ _ log. (returned versions, log)))
          log (λ e k. moved (committed-unlock world start log e k) h)
          λ e k. moved (committed-unlock world start log e k) (spoiled h)
    settle-Migrates before (threw e, log) h =
        release_lock_intro world lock_errors 1
          (λ x. Migrates world start load_migrations before (keep_error e x)) log
          (λ e k. moved (committed-unlock world start log e k) h)
          λ e k. moved (committed-unlock world start log e k) h
    settle-Migrates before (unfinished, log) h = h

    -- What holds from the moment at which the lock is held.
    locked-Migrates :
        (before : List SqlQuery) (log : List Event)
        → seen start log ≡ ledger before idle
        → Migrates world start load_migrations before (
            rescue
              (finally (migrate world load_migrations) (release_lock world lock_errors 1))
              as_migration_error
              log)
    unfolding Migrates
    locked-Migrates before log at =
        handle_intro (Migrates world start load_migrations before)
          (Migrates world start load_migrations before)
          (settle (migrate world load_migrations log) (release_lock world lock_errors 1)) _
          (settle-Migrates before (migrate world load_migrations log)
            (migrate-Migrates world start load_migrations before log at))
          (λ _ log h. h) (λ e log h. replaced h) λ log h. h

    run_from :
        (before : List SqlQuery) (options : LockOptions) (fuel : ℕ) (log : List Event)
        → seen start log ≡ ledger before idle
        → Migrates world start load_migrations before (
            chain
              (acquire_lock world lock_errors 1 options.deadline options.retry_delay fuel log)
              λ _.
                rescue
                  (finally (migrate world load_migrations) (release_lock world lock_errors 1))
                  as_migration_error)
    unfolding Migrates
    run_from before options fuel log at =
        chain_intro (λ x. seen start (x.1) ≡ ledger before idle)
          (Migrates world start load_migrations before)
          (acquire_lock world lock_errors 1 options.deadline options.retry_delay fuel log) _
          (acquire_lock-Holds world lock_errors 1 (λ log. seen start log ≡ ledger before idle)
            (Stays-one world start before) options.deadline options.retry_delay fuel log at)
          (λ _ log at. locked-Migrates before log at)
          (λ e log at.
            untouched_at world start load_migrations before e log (ap (λ l. l.committed) at))
          λ log at. moved (ap (λ l. l.committed) at) waiting

module _ (world : World) where
  -- Read by what the statements sent commit, a run that starts outside a transaction is one of the abstract runner, which starts from the history's schema and table, committed on their own, takes the pending migrations one by one, and commits the statements and the row of each together or stops with its error; or it fails before its first migration with nothing committed but, at most, the setting up of the history; or it still waits for the lock with nothing committed. Committed is what the database acknowledges. The pending migrations are those of the loaded files and of the history that was read; the only other thing that a run can add is the error of a lock that could not be released after every migration was applied.
  pub run_migrations-Runs :
      (load_migrations : List Event → Result (List MigrationFile)) (options : Option LockOptions)
      (fuel : ℕ) (start : Ledger) (before : List SqlQuery) (log : List Event)
      → seen start log ≡ ledger before idle
      → Runs world load_migrations before
          (seen start (run_migrations world load_migrations options fuel log).1).committed
          (run_migrations world load_migrations options fuel log).0
  unfolding run_migrations Migrates
  run_migrations-Runs load_migrations (some options) fuel start before log at =
      run_from world start load_migrations before options fuel log at
  run_migrations-Runs load_migrations none fuel start before log at =
      run_from world start load_migrations before _ fuel (log ++ (read_clock ∷ []))
        (seen-append start log read_clock ∙ at)
