-- ===== src/Database/Runtime.antt =====
-- src/database/database-pool.ts: `verifyRuntimeDatabase`.
use log_stream.Base.{ℕ, ◌≡◌, refl, Bool, false, not, ◌&&◌, List, [], ◌∷◌, Option, none, some, ◌==◌}
use log_stream.Base.Maybe.{◌>>=◌}
use log_stream.Base.Text.{Text, text_eq, units}
use log_stream.Domain.Json.{Json, Members, get_own}

pub record RuntimeVerificationRow : Type 0 where
  pub role_name : Text
  pub is_superuser : Bool
  pub can_use_application_schema : Bool
  pub can_create_in_application_schema : Bool
  pub can_use_migration_schema : Bool

abbrev text_of : Json → Option Text
text_of (Json.string t) = some t
text_of _ = none

abbrev boolean_of : Json → Option Bool
boolean_of (Json.boolean b) = some b
boolean_of _ = none

abbrev text_member : Text → Members → Option Text
text_member key members = do value ← get_own key members; text_of value

abbrev boolean_member : Text → Members → Option Bool
boolean_member key members = do value ← get_own key members; boolean_of value

abbrev row_of_members : Members → Option RuntimeVerificationRow
row_of_members members = do
  role_name ← text_member (units "role_name") members
  is_superuser ← boolean_member (units "is_superuser") members
  use_application ← boolean_member (units "can_use_application_schema") members
  create_in_application ← boolean_member (units "can_create_in_application_schema") members
  use_migration ← boolean_member (units "can_use_migration_schema") members
  some (record {
    role_name = role_name;
    is_superuser = is_superuser;
    can_use_application_schema = use_application;
    can_create_in_application_schema = create_in_application;
    can_use_migration_schema = use_migration;
  })

unfoldable pub is_runtime_verification_row : Json → Option RuntimeVerificationRow
is_runtime_verification_row (Json.object members) = row_of_members members
is_runtime_verification_row _ = none

abbrev candidate : List Json → Option RuntimeVerificationRow
candidate [] = none
candidate (row ∷ rows) = is_runtime_verification_row row

unfoldable pub is_runtime_role : Option RuntimeVerificationRow → Bool
is_runtime_role none = false
is_runtime_role (some row) =
    text_eq row.role_name (units "logstream_runtime")
    && not row.is_superuser
    && row.can_use_application_schema
    && not row.can_create_in_application_schema
    && not row.can_use_migration_schema

-- `rowCount` may be null.
abbrev is_one : Option ℕ → Bool
is_one none = false
is_one (some n) = n == 1

-- Whether the promise is fulfilled, from the reply with its `rowCount` and `rows`, or `none` for a
-- query that is rejected. Every failure is a RuntimeDatabaseVerificationError.
unfoldable pub verify_runtime_database : Option (Option ℕ × List Json) → Bool
verify_runtime_database none = false
verify_runtime_database (some (row_count, rows)) =
    is_one row_count && is_runtime_role (candidate rows)

no_row : verify_runtime_database (some (some 0, [])) ≡ false
unfolding verify_runtime_database is_runtime_role
no_row = refl
