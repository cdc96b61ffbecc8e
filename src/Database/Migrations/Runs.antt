-- ===== src/Database/Migrations/Runs.antt =====
-- src/database/migrations/migration-runner.ts: a whole run, with its lock.
pub mod Whole
use log_stream.Base.{
  ℕ, zero, suc, ◌-◌, min, ◌≡◌, refl, sym, ap, subst, ◌∙◌, Bool, true, false, List, [], ◌∷◌, ◌++◌,
  Option, none, some, if◌then◌else◌, if_intro, leb, map, append_assoc, append-nil, Option-cases,
  inl, inr,
}
use log_stream.Base.Text.{units}
use log_stream.Domain.Json.{Json}
use log_stream.Database.Session.{
  SqlQuery, Event, answered, rejected, World, Action, Ended, returned, threw, unfinished, ask, now,
  sleep, give, give_or, fail, chain, chain_intro, handle_intro, rescue, finally, settle, keep_error,
  read_clock, loaded, try_lock, unlock, read_history_sql, ◌>>=◌, ◌>>◌,
}
use log_stream.Database.Lock.{acquire_lock, release_lock}
use log_stream.Database.Lock.Kept.{
  Waits, reads_clock, sleeps, tries, fails, IsUnlock, unlocks, unlock_refused, acquire_lock-Holds,
  release_lock_intro,
}
use log_stream.Database.Migrations.{
  MigrationFile, AppliedMigration, MigrationFailure, infrastructure, lock, other, history_read,
  execution, is_migration_error, Result, ok, error, all_applied, find_pending_migrations,
}
use log_stream.Database.Migrations.Runner.{
  LockOptions, lock_errors, lock_options, lift, load, migrate, initialize_history, read_history,
  apply_all, as_migration_error, run_migrations,
}
use log_stream.Database.Ledger.Stays.{Stays-one, committed-unlock}
use log_stream.Database.Ledger.{Ledger, ledger, idle, note, seen, seen-append, ask_intro}
use log_stream.Database.Ledger.Transactions.{Transacts}
use log_stream.Database.Migrations.Refined.{
  Applies, finished, applied, stopped, AppliesTo, with_history, initialize_history-Transacts,
  apply_all-Applies,
}

-- The pending migrations of the files that were loaded and the history that was read.
pub record Found (world : World) (load_migrations : List Event → Result (List MigrationFile))
    (pending : List MigrationFile) : Type 0 where
  pub load_log : List Event
  pub migrations : List MigrationFile
  pub loads : load_migrations load_log ≡ ok migrations
  pub read_log : List Event
  pub rows : List Json
  pub reads : world.reply read_log read_history_sql ≡ some rows
  pub history : List AppliedMigration
  pub decodes : all_applied rows ≡ some history
  pub finds : find_pending_migrations migrations history ≡ ok pending

-- What a run makes of the statements that are committed: nothing, since it failed before the history was set up
-- or still waits for the lock; the history only, where reading it or finding what is pending failed; or what the
-- abstract runner does after it, whose success the lock's release may spoil.
pub data Runs (world : World) (load_migrations : List Event → Result (List MigrationFile))
    : List SqlQuery → List SqlQuery → Ended MigrationFailure (List ℕ) → Type 0 where
  untouched :
      {rows : List SqlQuery} {e : MigrationFailure} → Runs world load_migrations rows rows (threw e)
  initialized :
      {rows : List SqlQuery} {e : MigrationFailure}
      → Runs world load_migrations rows (with_history rows) (threw e)
  waiting : {rows : List SqlQuery} → Runs world load_migrations rows rows unfinished
  ran :
      {pending : List MigrationFile} {before after : List SqlQuery}
      {end : Ended MigrationFailure (List ℕ)}
      → Found world load_migrations pending
      → Applies (with_history before) pending [] after end
      → Runs world load_migrations before after end
  not_released :
      {pending : List MigrationFile} {before after : List SqlQuery} {versions : List ℕ}
      → Found world load_migrations pending
      → Applies (with_history before) pending [] after (returned versions)
      → Runs world load_migrations before after (threw lock)

module _ (world : World) (start : Ledger) where
  module _ (load_migrations : List Event → Result (List MigrationFile)) where
    -- How the part under the lock ends.
    unfoldable pub Migrates : List SqlQuery → Ended MigrationFailure (List ℕ) × List Event → Type 0
    Migrates before (end, log) = Runs world load_migrations before (seen start log).committed end

    pub untouched_at :
        (before : List SqlQuery) (e : MigrationFailure) (log : List Event)
        → (seen start log).committed ≡ before
        → Migrates before (threw e, log)
    unfolding Migrates
    untouched_at before e log at =
        subst (λ after. Runs world load_migrations before after (threw e)) (sym at) untouched

    initialized_at :
        (before : List SqlQuery) (e : MigrationFailure) (log : List Event)
        → (seen start log).committed ≡ with_history before
        → Migrates before (threw e, log)
    unfolding Migrates
    initialized_at before e log at =
        subst (λ after. Runs world load_migrations before after (threw e)) (sym at) initialized

    lift-Migrates :
        (before : List SqlQuery) (pending : Result (List MigrationFile)) (log : List Event)
        → ((found : List MigrationFile) → pending ≡ ok found → Found world load_migrations found)
        → seen start log ≡ ledger (with_history before) idle
        → Migrates before (chain (lift pending log) (λ found. apply_all world found []))
    unfolding Migrates
    lift-Migrates before (error e) log found at =
        initialized_at before e log (ap (λ l. l.committed) at)
    lift-Migrates before (ok pending) log found at =
        ran (found pending refl)
          (apply_all-Applies world start pending [] (with_history before) log at)

    decoded-Migrates :
        (before : List SqlQuery) (migrations : List MigrationFile)
        (decoded : Option (List AppliedMigration)) (log : List Event)
        → ((history : List AppliedMigration) (pending : List MigrationFile)
            → decoded ≡ some history
            → find_pending_migrations migrations history ≡ ok pending
            → Found world load_migrations pending)
        → seen start log ≡ ledger (with_history before) idle
        → Migrates before (
            chain (give_or history_read decoded log) (λ history log.
              chain
                (lift (find_pending_migrations migrations history) log)
                (λ found. apply_all world found [])))
    unfolding Migrates
    decoded-Migrates before migrations none log found at =
        initialized_at before history_read log (ap (λ l. l.committed) at)
    decoded-Migrates before migrations (some history) log found at =
        lift-Migrates before (find_pending_migrations migrations history) log
          (λ pending finds. found history pending refl finds) at

    loaded-Migrates :
        (before : List SqlQuery) (migrations : Result (List MigrationFile))
        (load_log log : List Event)
        → load_migrations load_log ≡ migrations
        → seen start log ≡ ledger before idle
        → Migrates before (
            chain (lift migrations log) (λ migrations.
              initialize_history world
              >> (read_history world >>= λ history.
                  lift (find_pending_migrations migrations history) >>= λ found.
                  apply_all world found [])))
    unfolding Migrates read_history
    loaded-Migrates before (error e) load_log log loads at =
        untouched_at before e log (ap (λ l. l.committed) at)
    loaded-Migrates before (ok migrations) load_log log loads at =
        chain_intro (Transacts world start before (with_history before) infrastructure)
          (Migrates before) (initialize_history world log) _
          (initialize_history-Transacts world start before log at)
          (λ _ log at.
            ask_intro world start
              (λ x. Migrates before (
                chain (chain x (λ rows. give_or history_read (all_applied rows))) (λ history log.
                  chain (lift (find_pending_migrations migrations history) log)
                    (λ found. apply_all world found []))))
              history_read read_history_sql _ log at
              (λ rows after reads at.
                decoded-Migrates before migrations (all_applied rows) after
                  (λ history pending decodes finds. record {
                    load_log = load_log;
                    migrations = migrations;
                    loads = loads;
                    read_log = log;
                    rows = rows;
                    reads = reads;
                    history = history;
                    decodes = decodes;
                    finds = finds;
                  })
                  at)
              λ after at. initialized_at before history_read after (ap (λ l. l.committed) at))
          (λ e log h. untouched_at before e log (h.1)) λ log h. absurd h

    pub migrate-Migrates :
        (before : List SqlQuery) (log : List Event)
        → seen start log ≡ ledger before idle
        → Migrates before (migrate world load_migrations log)
    unfolding migrate
    migrate-Migrates before log at =
        loaded-Migrates before (load_migrations log) log (log ++ (loaded ∷ [])) refl
          (seen-append start log loaded ∙ at)
