-- ===== src/Database/Migrations.antt =====
-- src/database/migrations/migration-types.ts, migration-errors.ts, and the history of migrations in
-- migration-runner.ts.
pub mod Runner
pub mod Refined
pub mod Runs
pub mod Works
pub mod Locked
pub mod Again
pub mod Succeeds
pub mod Owner
mod Tests
use log_stream.Base.{
  ℕ, ◌≡◌, Bool, true, false, not, ◌&&◌, List, [], ◌∷◌, Option, none, some, keep_if, ◌==◌,
  if◌then◌else◌,
}
use log_stream.Base.Int.{ℤ, pos, negsuc}
use log_stream.Base.Maybe.{◌>>=◌}
use log_stream.Base.Number.{Number, int, is_safe_integer, negative_zero}
use log_stream.Base.Text.{Text, text_eq, units}
use log_stream.Domain.Json.{Json, Members, get_own}

pub record MigrationFile : Type 0 where
  pub version : ℕ
  pub filename : Text
  pub checksum : Text
  pub sql : Text

-- A row of the history; its version is any safe integer.
pub record AppliedMigration : Type 0 where
  pub version : ℤ
  pub filename : Text
  pub checksum : Text

-- The classes of MigrationError, and any other error.
pub data MigrationFailure : Type 0 where
  invalid_filename file_read connection owner_startup_timeout lock lock_timeout : MigrationFailure
  infrastructure history_read other : MigrationFailure
  duplicate_version invalid_contents execution : ℕ → MigrationFailure
  missing_local filename_mismatch checksum_mismatch : ℤ → MigrationFailure

unfoldable pub is_migration_error : MigrationFailure → Bool
is_migration_error other = false
is_migration_error _ = true

-- A result of code that awaits nothing.
pub data Result (A : Type 0) : Type 0 where
  ok : A → Result A
  error : MigrationFailure → Result A

abbrev pub string_of : Json → Option Text
string_of (Json.string t) = some t
string_of _ = none

abbrev integer_of : Number → Option ℤ
integer_of (int z) = if is_safe_integer (int z) then some z else none
integer_of negative_zero = some (pos 0)
integer_of _ = none

abbrev version_of : Json → Option ℤ
version_of (Json.number n) = integer_of n
version_of _ = none

abbrev applied_of : Members → Option AppliedMigration
applied_of members = do
  version ← get_own (units "version") members
  version ← version_of version
  filename ← get_own (units "filename") members
  filename ← string_of filename
  checksum ← get_own (units "checksum") members
  checksum ← string_of checksum
  some (record { version = version; filename = filename; checksum = checksum })

-- The row, where it is an applied migration.
unfoldable pub is_applied_migration : Json → Option AppliedMigration
is_applied_migration (Json.object members) = applied_of members
is_applied_migration _ = none

unfoldable pub all_applied : List Json → Option (List AppliedMigration)
all_applied [] = some []
all_applied (row ∷ rows) = do
  applied ← is_applied_migration row
  later ← all_applied rows
  some (applied ∷ later)

abbrev pub has_version : ℕ → ℤ → Bool
has_version v (pos n) = n == v
has_version v (negsuc n) = false

-- `localByVersion.get`: of two files with one version the later one.
unfoldable pub local_by_version : List MigrationFile → ℤ → Option MigrationFile
local_by_version [] version = none
local_by_version (m ∷ migrations) version = elim (local_by_version migrations version) [
  | some later ↦ some later
  | none ↦ if has_version m.version version then some m else none
]

abbrev pub check_local : AppliedMigration → Option MigrationFile → Result ℤ
check_local applied none = error (missing_local applied.version)
check_local applied (some found) =
    if not (text_eq found.filename applied.filename)
    then error (filename_mismatch applied.version)
    else if not (text_eq found.checksum applied.checksum)
    then error (checksum_mismatch applied.version)
    else ok applied.version

abbrev pub and_version : Result ℤ → Result (List ℤ) → Result (List ℤ)
and_version (error e) later = error e
and_version (ok v) (error e) = error e
and_version (ok v) (ok vs) = ok (v ∷ vs)

-- The loop over the applied migrations: `appliedVersions`.
unfoldable pub applied_versions : List MigrationFile → List AppliedMigration → Result (List ℤ)
applied_versions migrations [] = ok []
applied_versions migrations (applied ∷ rest) =
    and_version (check_local applied (local_by_version migrations applied.version))
      (applied_versions migrations rest)

unfoldable pub has : List ℤ → ℕ → Bool
has [] version = false
has (v ∷ vs) version = let later = has vs version in if has_version version v then true else later

abbrev pub without : List MigrationFile → Result (List ℤ) → Result (List MigrationFile)
without migrations (error e) = error e
without migrations (ok versions) = ok (keep_if (λ m. not (has versions m.version)) migrations)

unfoldable pub find_pending_migrations :
    List MigrationFile → List AppliedMigration → Result (List MigrationFile)
find_pending_migrations migrations applied =
    without migrations (applied_versions migrations applied)
