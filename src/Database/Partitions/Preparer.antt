-- ===== src/Database/Partitions/Preparer.antt =====
-- src/database/partitions/partition-preparer.ts.
use log_stream.Base.{
  ℕ, ◌+◌, Bool, true, false, ◌||◌, List, [], ◌∷◌, Option, none, some, if◌then◌else◌,
}
use log_stream.Base.Text.{Text, text_eq, units}
use log_stream.Domain.Json.{Json, get_own}
use log_stream.Query.Sorting.{sort}
use log_stream.Database.Session.{
  World, Action, ask, now, give, fail, give_or, rescue, finally, roll_back, begin, commit,
  read_partitions, lock_default, create_partition, attach_partition, has_overlap, move_overlap,
  ◌>>=◌, ◌>>◌,
}
use log_stream.Database.Lock.{LockErrors, acquire_lock, release_lock, lock_row}
use log_stream.Database.Partitions.{DailyPartition, assert_daily_partition}

-- A PartitionPreparationError or its subclass for the lock, an InvalidPartitionPlanError, or another
-- error.
pub data PreparationFailure : Type 0 where
  preparation partition_lock_timeout invalid_plan unexpected : PreparationFailure

abbrev pub partition_lock_errors : LockErrors PreparationFailure
partition_lock_errors = record {
  timed_out = partition_lock_timeout;
  failed = preparation;
  sleep_failed = unexpected;
}

abbrev name_of : Option Json → Option Text
name_of (some (Json.string name)) = some name
name_of _ = none

unfoldable pub read_partition_name : Json → Option Text
read_partition_name (Json.object members) = name_of (get_own (units "name") members)
read_partition_name _ = none

abbrev and_name : Option Text → Option (List Text) → Option (List Text)
and_name (some name) (some names) = some (name ∷ names)
and_name _ _ = none

-- The loop over the rows: `existing`.
unfoldable pub existing_partitions : List Json → Option (List Text)
existing_partitions [] = some []
existing_partitions (row ∷ rows) = and_name (read_partition_name row) (existing_partitions rows)

abbrev pub has_name : List Text → Text → Bool
has_name [] name = false
has_name (n ∷ names) name = text_eq n name || has_name names name

abbrev checked_name :
    List Text → Option DailyPartition → (List Text → Option (List Text)) → Option (List Text)
checked_name names none next = none
checked_name names (some p) next = if has_name names p.name then none else next (p.name ∷ names)

-- The loop over the partitions that are asked for: `names`.
unfoldable pub check_partitions : List DailyPartition → List Text → Option (List Text)
check_partitions [] names = some names
check_partitions (p ∷ partitions) names =
    checked_name names (assert_daily_partition p) (check_partitions partitions)

unfoldable pub is_preparation_failure : PreparationFailure → Bool
is_preparation_failure unexpected = false
is_preparation_failure _ = true

abbrev pub as_preparation_failure : PreparationFailure → Action PreparationFailure Unit
as_preparation_failure e = fail (if is_preparation_failure e then e else preparation)

abbrev pub delay_or : Option ℕ → ℕ
delay_or (some delay) = delay
delay_or none = 100

module _ (world : World) where
  abbrev pub move_if : DailyPartition → Bool → Action PreparationFailure (List Json)
  move_if p true = ask world unexpected (move_overlap p.name p.start p.end)
  move_if p false = give []

  abbrev pub attach_and_commit : DailyPartition → Action PreparationFailure (List Json)
  attach_and_commit p =
      ask world unexpected (attach_partition p.name p.start p.end) >> ask world unexpected commit

  abbrev pub prepare_in_transaction : DailyPartition → Action PreparationFailure (List Json)
  prepare_in_transaction p = do
    ask world unexpected begin
    ask world unexpected lock_default
    ask world unexpected (create_partition p.name p.start p.end)
    rows ← ask world unexpected (has_overlap p.name p.start p.end)
    overlap ← give_or preparation (lock_row (units "has_overlap") rows)
    move_if p overlap
    attach_and_commit p

  unfoldable pub prepare_partition : DailyPartition → Action PreparationFailure (List Json)
  prepare_partition p = do
    p ← give_or invalid_plan (assert_daily_partition p)
    rescue (prepare_in_transaction p) λ _. roll_back world unexpected preparation

  abbrev pub prepare_unless : Bool → DailyPartition → Action PreparationFailure (List Json)
  prepare_unless true p = give []
  prepare_unless false p = prepare_partition p

  unfoldable pub prepare_each : List Text → List DailyPartition → Action PreparationFailure Unit
  prepare_each existing [] = give tt
  prepare_each existing (p ∷ partitions) =
      prepare_unless (has_name existing p.name) p >> prepare_each existing partitions

  -- What is done under the lock.
  unfoldable pub prepare_missing : List DailyPartition → Action PreparationFailure Unit
  prepare_missing partitions = do
    rows ← ask world unexpected read_partitions
    existing ← give_or preparation (existing_partitions rows)
    prepare_each existing partitions

  abbrev pub deadline_or : Option ℕ → Action PreparationFailure ℕ
  deadline_or (some deadline) = give deadline
  deadline_or none = do time ← now world; give (time + 30000)

  abbrev pub acquire_partition_lock :
      (deadline retry_delay fuel : ℕ) → Action PreparationFailure Unit
  acquire_partition_lock = acquire_lock world partition_lock_errors 2

  abbrev pub release_partition_lock : Action PreparationFailure Unit
  release_partition_lock = release_lock world partition_lock_errors 2

  -- `before` is the order of `localeCompare`, and `fuel` bounds the rounds of the loop for the lock.
  unfoldable pub prepare_partitions :
      (before : Text → Text → Bool)
      → List DailyPartition
      → Option ℕ
      → Option ℕ
      → (fuel : ℕ) → Action PreparationFailure Unit
  prepare_partitions before unsorted deadline delay fuel = do
    deadline ← deadline_or deadline
    let partitions : List DailyPartition = sort (λ p q. before p.start q.start) unsorted
    names ← give_or invalid_plan (check_partitions partitions [])
    acquire_partition_lock deadline (delay_or delay) fuel
    finally (rescue (prepare_missing partitions) as_preparation_failure) release_partition_lock
