-- ===== src/Database/Migrations/Tests.antt =====
-- src/database/migrations/migration-runner.ts: runs at concrete inputs.
use Prim.Native.String.{String}
use log_stream.Base.{
  ◌≡◌, refl, true, false, List, [], ◌∷◌, ◌++◌, none, some, ltb, map, length, if◌then◌else◌,
}
use log_stream.Base.Int.{pos}
use log_stream.Base.Text.{units}
use log_stream.Domain.Json.{Json, no_members, member, get_own}
use log_stream.Database.Session.{SqlQuery, try_lock, unlock, Event, World, returned, threw, give}
use log_stream.Database.Lock.{acquire_lock, is_lock_result, release_lock}
use log_stream.Database.Lock.Guard.{free, guard}
use log_stream.Database.Migrations.{
  MigrationFile, AppliedMigration, all_applied, applied_versions, local_by_version, has,
  is_migration_error, MigrationFailure, Result, ok, find_pending_migrations, connection,
  missing_local,
}
use log_stream.Database.Migrations.Runner.{
  LockOptions, run_migrations, migrate, initialize_history, read_history, apply_all,
  apply_migration,
}
use log_stream.Database.Ledger.{ledger, idle, seen}
use log_stream.Database.Migrations.Runs.{Runs}
use log_stream.Database.Migrations.Runs.Whole.{run_migrations-Runs}
use log_stream.Database.Migrations.Locked.{guard-run_migrations}
use log_stream.Database.Migrations.Again.{row_of, find_pending_migrations-map}
use log_stream.Database.Migrations.Succeeds.{Succeeds, run_migrations-Succeeds}
use log_stream.Database.Migrations.Owner.{
  Connection, coded, is_retryable_connection_error, run_migrations_with_owner, attempts,
  run_migrations_with_owner_retry,
}

abbrev one_row : String → Json → List Json
one_row key value = Json.object (member (units key) value no_members) ∷ []

-- The lock is another's at first.
abbrev postgres_rows : List Event → SqlQuery → List Json
postgres_rows log (try_lock id) = one_row "acquired" (Json.boolean (ltb 3 (length log)))
postgres_rows log (unlock id) = one_row "released" (Json.boolean true)
postgres_rows log _ = []

abbrev world : World
world = record { now = length; sleeps = λ _ _. true; reply = λ log q. some (postgres_rows log q) }

abbrev first : MigrationFile
first = record {
  version = 1;
  filename = units "0001_logs.sql";
  checksum = units "ab";
  sql = units "CREATE TABLE a ();";
}

abbrev second : MigrationFile
second = record {
  version = 2;
  filename = units "0002_rows.sql";
  checksum = units "cd";
  sql = units "CREATE TABLE b ();";
}

abbrev files : List Event → Result (List MigrationFile)
files _ = ok (first ∷ second ∷ [])

abbrev options : LockOptions
options = record { deadline = 100; retry_delay = 5 }

run_two : (run_migrations world files (some options) 3 []).0 ≡ returned (1 ∷ 2 ∷ [])
unfolding run_migrations acquire_lock is_lock_result get_own release_lock migrate initialize_history
    read_history all_applied apply_all apply_migration find_pending_migrations applied_versions
    local_by_version has is_migration_error
run_two = refl

run_late :
    (run_migrations world files (some (record options { deadline = 3 })) 3 []).0
    ≡ threw MigrationFailure.lock_timeout
unfolding run_migrations acquire_lock is_lock_result get_own release_lock migrate initialize_history
    read_history all_applied apply_all apply_migration find_pending_migrations applied_versions
    local_by_version has is_migration_error
run_late = refl

run_migrations-Runs_example :
    Runs world files []
      (seen (ledger [] idle) (run_migrations world files (some options) 3 []).1).committed
      (run_migrations world files (some options) 3 []).0
unfolding seen
run_migrations-Runs_example =
    run_migrations-Runs world files (some options) 3 (ledger [] idle) [] [] refl

run_migrations-Succeeds_example :
    Succeeds world files []
      (seen (ledger [] idle) (run_migrations world files (some options) 3 []).1).committed
      (1 ∷ 2 ∷ [])
unfolding seen
run_migrations-Succeeds_example =
    run_migrations-Succeeds world files (some options) 3 (ledger [] idle) [] [] (1 ∷ 2 ∷ []) refl
      run_two

guard-run_migrations_example : guard free (run_migrations world files (some options) 3 []).1 ≡ free
unfolding guard
guard-run_migrations_example = guard-run_migrations world files (some options) 3 free [] refl

abbrev histories : List AppliedMigration
histories = row_of first ∷ []

find_pending_migrations-map_example :
    find_pending_migrations (first ∷ second ∷ []) (histories ++ map row_of (second ∷ [])) ≡ ok []
unfolding find_pending_migrations applied_versions local_by_version has
find_pending_migrations-map_example =
    find_pending_migrations-map (first ∷ second ∷ []) histories (second ∷ []) ((refl, tt), (tt, tt))
      refl

unknown_version :
    find_pending_migrations (first ∷ []) (row_of second ∷ []) ≡ Result.error (missing_local (pos 2))
unfolding find_pending_migrations applied_versions local_by_version has
unknown_version = refl

-- The database starts late.
abbrev owner : Connection
owner = record {
  creates = λ _. true;
  connect_error = λ log. if ltb (length log) 9 then some (coded (units "ECONNREFUSED")) else none;
  times_out = λ _ _. false;
  closes = λ _. true;
}

run_owner_late :
    (run_migrations_with_owner_retry world owner files (λ _. give tt) 5 200 200 3 []).0
    ≡ returned (1 ∷ 2 ∷ [])
unfolding run_migrations_with_owner_retry attempts is_retryable_connection_error run_migrations
    acquire_lock is_lock_result get_own release_lock migrate initialize_history read_history
    all_applied apply_all apply_migration find_pending_migrations applied_versions local_by_version
    has is_migration_error
run_owner_late = refl

run_owner_once :
    (run_migrations_with_owner world owner files (some options) 3 []).0 ≡ threw connection
unfolding run_migrations_with_owner run_migrations acquire_lock is_lock_result get_own release_lock
    migrate initialize_history read_history all_applied apply_all apply_migration
    find_pending_migrations applied_versions local_by_version has is_migration_error
run_owner_once = refl
