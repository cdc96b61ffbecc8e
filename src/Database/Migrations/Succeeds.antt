-- ===== src/Database/Migrations/Succeeds.antt =====
-- src/database/migrations/migration-runner.ts: what a run that succeeds has done.
use log_stream.Base.{
  ℕ, ◌≡◌, sym, subst, ◌∙◌, List, [], ◌∷◌, ◌++◌, Option, map, append-nil, append_assoc,
}
use log_stream.Database.Session.{SqlQuery, Event, World, returned}
use log_stream.Database.Migrations.{MigrationFile, Result}
use log_stream.Database.Migrations.Runner.{LockOptions, run_migrations}
use log_stream.Database.Ledger.{Ledger, ledger, idle, seen}
use log_stream.Database.Migrations.Refined.{changes, with_history, Applies, finished, applied}
use log_stream.Database.Migrations.Runs.{Runs, ran, Found}
use log_stream.Database.Migrations.Runs.Whole.{run_migrations-Runs}

-- What the migrations change, one after the other.
abbrev pub all_changes : List MigrationFile → List SqlQuery
all_changes [] = []
all_changes (m ∷ pending) = changes m ++ all_changes pending

-- What the abstract runner has done where it succeeds.
Applies-returned :
    {pending : List MigrationFile} {versions : List ℕ} {rows after : List SqlQuery} {all : List ℕ}
    → Applies rows pending versions after (returned all)
    → (after ≡ rows ++ all_changes pending) × (all ≡ versions ++ map (λ m. m.version) pending)
Applies-returned {versions = versions} {rows = rows} finished =
    (sym (append-nil rows), sym (append-nil versions))
Applies-returned {rows = rows} (applied {m} {pending} {versions} h) =
    let (a, b) = Applies-returned h in
    (
      a ∙ append_assoc rows (changes m) (all_changes pending),
      b ∙ append_assoc versions (m.version ∷ []) (map (λ m. m.version) pending),
    )

-- A run that succeeds found these pending migrations, answers their versions, and committed
-- the history's schema and table and then what they change.
pub record Succeeds (world : World) (load_migrations : List Event → Result (List MigrationFile))
    (before after : List SqlQuery) (versions : List ℕ) : Type 0 where
  pub pending : List MigrationFile
  pub found : Found world load_migrations pending
  pub committed : after ≡ with_history before ++ all_changes pending
  pub answers : versions ≡ map (λ m. m.version) pending

Runs-Succeeds :
    (world : World) (load_migrations : List Event → Result (List MigrationFile))
    {before after : List SqlQuery} {versions : List ℕ}
    → Runs world load_migrations before after (returned versions)
    → Succeeds world load_migrations before after versions
Runs-Succeeds world load_migrations (ran {pending} found h) = record {
  pending = pending;
  found = found;
  committed = (Applies-returned h).0;
  answers = (Applies-returned h).1;
}

-- A run that starts outside a transaction and succeeds answers the versions of all pending migrations in their order, those that the loaded files have and the history that was read lacks, and has committed, each time as far as the database has acknowledged it, the statement that sets up the history's schema and table, then of each pending migration its statements together with its row, in that order, and no other change.
pub run_migrations-Succeeds :
    (world : World) (load_migrations : List Event → Result (List MigrationFile))
    (options : Option LockOptions) (fuel : ℕ) (start : Ledger) (before : List SqlQuery)
    (log : List Event) (versions : List ℕ)
    → seen start log ≡ ledger before idle
    → (run_migrations world load_migrations options fuel log).0 ≡ returned versions
    → Succeeds world load_migrations before
        (seen start (run_migrations world load_migrations options fuel log).1).committed
        versions
run_migrations-Succeeds world load_migrations options fuel start before log versions at h =
    Runs-Succeeds world load_migrations (
      subst
        (Runs world load_migrations before
          (seen start (run_migrations world load_migrations options fuel log).1).committed)
        h (run_migrations-Runs world load_migrations options fuel start before log at))
