-- ===== src/Database/Migrations/Refined.antt =====
-- src/database/migrations/migration-runner.ts: the runner as a machine that applies one migration at
-- a time, each wholly or not at all.
use log_stream.Base.{ℕ, ◌≡◌, refl, sym, ap, subst, List, [], ◌∷◌, ◌++◌}
use log_stream.Database.Session.{
  SqlQuery, Event, World, Ended, returned, threw, chain_intro, script, insert_history_sql,
  initialize_history_sql,
}
use log_stream.Database.Migrations.{
  MigrationFile, MigrationFailure, execution, infrastructure, other,
}
use log_stream.Database.Migrations.Runner.{
  apply_in_transaction, apply_migration, apply_all, initialize_in_transaction, initialize_history,
}
use log_stream.Database.Ledger.{Ledger, ledger, idle, seen}
use log_stream.Database.Ledger.Transactions.{
  Transacts, begin_intro, statement_intro, commit_intro, transaction_intro,
}

-- What the migration changes: its own statements and its row, together.
abbrev pub changes : MigrationFile → List SqlQuery
changes m = script m.sql ∷ insert_history_sql m.version m.filename m.checksum ∷ []

-- With the history's schema and table, which every run sets up first in a transaction of their own.
abbrev pub with_history : List SqlQuery → List SqlQuery
with_history rows = rows ++ (initialize_history_sql ∷ [])

-- The abstract runner: from the statements committed so far, the migrations that are left and the versions
-- applied so far to those at the end and how it ends.
pub data Applies
    : List SqlQuery
      → List MigrationFile
      → List ℕ
      → List SqlQuery
      → Ended MigrationFailure (List ℕ)
      → Type 0 where
  finished :
      {rows : List SqlQuery} {versions : List ℕ} → Applies rows [] versions rows (returned versions)
  applied :
      {m : MigrationFile} {pending : List MigrationFile} {versions : List ℕ}
      {rows after : List SqlQuery} {end : Ended MigrationFailure (List ℕ)}
      → Applies (rows ++ changes m) pending (versions ++ (m.version ∷ [])) after end
      → Applies rows (m ∷ pending) versions after end
  stopped :
      {m : MigrationFile} {pending : List MigrationFile} {versions : List ℕ} {rows : List SqlQuery}
      → Applies rows (m ∷ pending) versions rows (threw (execution m.version))

module _ (world : World) (start : Ledger) where
  apply_migration-Transacts :
      (m : MigrationFile) (rows : List SqlQuery) (log : List Event)
      → seen start log ≡ ledger rows idle
      → Transacts world start rows
          (rows ++ changes m)
          (execution m.version)
          (apply_migration world m log)
  unfolding apply_migration
  apply_migration-Transacts m rows log at =
      transaction_intro world start other rows _ (execution m.version)
        (apply_in_transaction world m log)
        (begin_intro world start other rows _ log _ at λ log at.
          statement_intro world start other rows _ [] (script m.sql ∷ []) log (script m.sql) _ at
            (λ _. refl)
            λ _ log at.
              statement_intro world start other rows _ _ (changes m) log _ _ at (λ _. refl)
                λ _ log at. commit_intro world start other rows (changes m) log at)

  -- A run of the abstract machine from these rows to those in the ledger.
  abbrev pub AppliesTo :
      List SqlQuery
      → List MigrationFile
      → List ℕ
      → Ended MigrationFailure (List ℕ) × List Event
      → Type 0
  AppliesTo rows pending versions (end, log) =
      Applies rows pending versions (seen start log).committed end

  pub apply_all-Applies :
      (pending : List MigrationFile) (versions : List ℕ) (rows : List SqlQuery) (log : List Event)
      → seen start log ≡ ledger rows idle
      → AppliesTo rows pending versions (apply_all world pending versions log)
  unfolding apply_all
  apply_all-Applies [] versions rows log at =
      subst (λ after. Applies rows [] versions after (returned versions))
        (sym (ap (λ l. l.committed) at)) finished
  apply_all-Applies (m ∷ pending) versions rows log at =
      chain_intro (Transacts world start rows (rows ++ changes m) (execution m.version))
        (AppliesTo rows (m ∷ pending) versions) (apply_migration world m log) _
        (apply_migration-Transacts m rows log at)
        (λ _ log h. applied (apply_all-Applies pending _ _ log h))
        (λ e log h.
          subst (λ end. Applies rows (m ∷ pending) versions (seen start log).committed (threw end))
            (sym (h.0))
            (subst
              (λ after. Applies rows (m ∷ pending) versions after (threw (execution m.version)))
              (sym (h.1)) stopped))
        λ log h. absurd h

  pub initialize_history-Transacts :
      (rows : List SqlQuery) (log : List Event)
      → seen start log ≡ ledger rows idle
      → Transacts world start rows (with_history rows) infrastructure (initialize_history world log)
  unfolding initialize_history
  initialize_history-Transacts rows log at =
      transaction_intro world start other rows _ infrastructure
        (initialize_in_transaction world log)
        (begin_intro world start other rows _ log _ at λ log at.
          statement_intro world start other rows _ [] (initialize_history_sql ∷ []) log
            initialize_history_sql _ at (λ _. refl)
            λ _ log at. commit_intro world start other rows (initialize_history_sql ∷ []) log at)
