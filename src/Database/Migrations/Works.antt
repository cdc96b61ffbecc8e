-- ===== src/Database/Migrations/Works.antt =====
-- src/database/migrations/migration-runner.ts: the events of the part under the lock, which ends.
use log_stream.Base.{ℕ, List, [], ◌∷◌, ◌++◌}
use log_stream.Database.Session.{read_history_sql, Event, loaded, World, Ended, ask}
use log_stream.Database.Migrations.{
  MigrationFile, Result, ok, error, all_applied, find_pending_migrations,
}
use log_stream.Database.Migrations.Runner.{
  lift, load, migrate, initialize_history, initialize_in_transaction, read_history,
  apply_in_transaction, apply_migration, apply_all,
}
use log_stream.Database.Works.{
  Works, loads, begins, commits, runs, inserts, initializes, reads, DoneAt, ask-Done, chain-Done,
  ask_then, transaction-Done, give_or-Done,
}

module _ (world : World) (I : List Event → Type 0)
    (keeps : (log : List Event) (e : Event) → Works e → I log → I (log ++ (e ∷ []))) where
  abbrev Done : {E A : Type 0} → Ended E A × List Event → Type 0
  Done = DoneAt I

  initialize_history-Done : (log : List Event) → I log → Done (initialize_history world log)
  unfolding initialize_history
  initialize_history-Done log h =
      transaction-Done world I keeps _ _ (initialize_in_transaction world log) (
        ask_then world I keeps _ _ _ log begins h λ log h.
          ask_then world I keeps _ _ _ log initializes h
            λ log h. ask-Done world I keeps _ _ log commits h)

  apply_migration-Done :
      (m : MigrationFile) (log : List Event) → I log → Done (apply_migration world m log)
  unfolding apply_migration
  apply_migration-Done m log h =
      transaction-Done world I keeps _ _ (apply_in_transaction world m log) (
        ask_then world I keeps _ _ _ log begins h λ log h.
          ask_then world I keeps _ _ _ log runs h λ log h.
            ask_then world I keeps _ _ _ log inserts h
              λ log h. ask-Done world I keeps _ _ log commits h)

  apply_all-Done :
      (pending : List MigrationFile) (versions : List ℕ) (log : List Event)
      → I log
      → Done (apply_all world pending versions log)
  unfolding apply_all
  apply_all-Done [] versions log h = h
  apply_all-Done (m ∷ pending) versions log h =
      chain-Done world I keeps (apply_migration world m log) _ (apply_migration-Done m log h)
        λ _. apply_all-Done pending _

  lift-Done : {A : Type 0} (r : Result A) (log : List Event) → I log → Done (lift r log)
  lift-Done (ok a) log h = h
  lift-Done (error e) log h = h

  read_history-Done : (log : List Event) → I log → Done (read_history world log)
  unfolding read_history
  read_history-Done log h =
      chain-Done world I keeps (ask world _ read_history_sql log) _
        (ask-Done world I keeps _ _ log reads h)
        λ rows log h. give_or-Done world I keeps _ (all_applied rows) log h

  -- The part under the lock ends, and keeps what each of its events keeps.
  pub migrate-Done :
      (load_migrations : List Event → Result (List MigrationFile)) (log : List Event)
      → I log
      → DoneAt I (migrate world load_migrations log)
  unfolding migrate
  migrate-Done load_migrations log h =
      chain-Done world I keeps (load world load_migrations log) _
        (lift-Done (load_migrations log) _ (keeps log loaded loads h))
        λ migrations log h.
          chain-Done world I keeps (initialize_history world log) _ (initialize_history-Done log h)
            λ _ log h.
              chain-Done world I keeps (read_history world log) _ (read_history-Done log h)
                λ history log h.
                  chain-Done world I keeps (lift (find_pending_migrations migrations history) log) _
                    (lift-Done (find_pending_migrations migrations history) log h)
                    λ pending log h. apply_all-Done pending [] log h
