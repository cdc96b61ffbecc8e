-- ===== src/Retention/Repository/Tests.antt =====
-- A run on a database that gives the same row to every query, and the theorems at it.
use log_stream.Base.{◌≡◌, refl, Bool, true, false, List, [], ◌∷◌, Option, some}
use log_stream.Base.Int.{pos}
use log_stream.Base.Number.{int}
use log_stream.Base.Text.{Text, units}
use log_stream.Domain.Json.{Json, no_items, item, no_members, member, get_own}
use log_stream.Retention.Repository.{
  Query, try_lock, unlock, ensure_partition, drop_partition, delete_default, read_single,
  read_single_boolean, read_single_count, ensure_partitions, drop_partitions, delete_rows,
  execute_maintenance, attempt, release_lock, release_client, run_maintenance,
}
use log_stream.Retention.Repository.Budgets.{Leaves, IsWithin, execute_maintenance-IsWithin}
use log_stream.Retention.Repository.Locking.{IsBalanced, run_maintenance-IsBalanced}

abbrev row : Json
row = Json.object (
    member (units "acquired") (Json.boolean true) (
      member (units "created") (Json.boolean true) (
        member (units "dropped") (Json.boolean false) (
          member (units "deleted") (Json.number (int (pos 3)))
            (member (units "released") (Json.boolean true) no_members)))))

abbrev database : List Query → Query → Option Json
database sent q =
    some (Json.object (member (units "rows") (Json.array (item row no_items)) no_members))

abbrev signal : List Query → Bool
signal sent = false

abbrev starts : List Text
starts = units "2024-03-01" ∷ units "2024-03-02" ∷ []

abbrev cutoff : Text
cutoff = units "2024-01-31"

sent_queries :
    (run_maintenance database signal true false starts cutoff).queries
    ≡ try_lock
      ∷ ensure_partition (units "2024-03-01")
      ∷ ensure_partition (units "2024-03-02")
      ∷ drop_partition cutoff
      ∷ delete_default cutoff 1000
      ∷ unlock
      ∷ []
unfolding get_own read_single read_single_boolean read_single_count ensure_partitions
    drop_partitions delete_rows execute_maintenance attempt release_lock release_client
    run_maintenance
sent_queries = refl

execute_maintenance-IsWithin_example :
    Leaves
      (IsWithin 2)
      (IsWithin 2)
      (execute_maintenance database signal starts cutoff (try_lock ∷ []))
execute_maintenance-IsWithin_example =
    execute_maintenance-IsWithin database signal starts cutoff (try_lock ∷ [])

run_maintenance-IsBalanced_example :
    IsBalanced database signal (run_maintenance database signal true false starts cutoff)
run_maintenance-IsBalanced_example =
    run_maintenance-IsBalanced database signal true false starts cutoff
