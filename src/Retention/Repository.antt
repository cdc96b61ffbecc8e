-- ===== src/Retention/Repository.antt =====
-- src/modules/retention/retention-repository.ts: `run` for a validated request. The database answers
-- a query by the queries before it, `none` is a rejected promise; so does the abort signal.
pub mod Budgets
pub mod Locking
mod Tests
use log_stream.Base.{
  ℕ, zero, suc, ◌+◌, Bool, true, false, not, ◌&&◌, ◌||◌, List, [], ◌∷◌, ◌++◌, Option, none, some,
  ltb, ◌==◌, if◌then◌else◌,
}
use log_stream.Base.Maybe.{◌>>=◌}
use log_stream.Base.Number.{Number, is_safe_integer, is_negative, natural}
use log_stream.Base.Text.{Text, units}
use log_stream.Domain.Json.{Json, no_items, item, get_own}

pub data Status : Type 0 where
  completed skipped aborted : Status

pub record RunResult : Type 0 where
  pub status : Status
  pub partition_ensure_calls : ℕ
  pub partitions_created : ℕ
  pub partition_drop_calls : ℕ
  pub partitions_dropped : ℕ
  pub default_cleanup_calls : ℕ
  pub default_rows_deleted : ℕ
  pub partition_drop_budget_reached : Bool
  pub default_delete_budget_reached : Bool

abbrev pub empty_result : Status → RunResult
empty_result status = record {
  status = status;
  partition_ensure_calls = 0;
  partitions_created = 0;
  partition_drop_calls = 0;
  partitions_dropped = 0;
  default_cleanup_calls = 0;
  default_rows_deleted = 0;
  partition_drop_budget_reached = false;
  default_delete_budget_reached = false;
}

pub data Query : Type 0 where
  try_lock unlock : Query
  ensure_partition drop_partition : Text → Query
  delete_default : Text → ℕ → Query

-- An InternalDatabaseError of this file, or what `translateDatabaseError` makes of another error.
pub data Failure : Type 0 where
  internal translated : Failure

abbrev pub partition_drop_call_limit : ℕ
partition_drop_call_limit = 32

abbrev pub default_delete_batch_size : ℕ
default_delete_batch_size = 1000

abbrev pub default_delete_call_limit : ℕ
default_delete_call_limit = 10

abbrev boolean_of : Json → Option Bool
boolean_of (Json.boolean b) = some b
boolean_of _ = none

abbrev count_of : Json → Option ℕ
count_of (Json.number n) =
    if is_safe_integer n && not (is_negative n) then some (natural n) else none
count_of _ = none

abbrev only_row : Json → Option Json
only_row (Json.array (item row no_items)) = some row
only_row _ = none

abbrev property : Text → Json → Option Json
property key (Json.object members) = get_own key members
property key _ = none

-- The only row's member; `none` is an InternalDatabaseError.
unfoldable pub read_single : Text → Json → Option Json
read_single key result = do
  rows ← property (units "rows") result
  row ← only_row rows
  property key row

unfoldable pub read_single_boolean : Text → Json → Option Bool
read_single_boolean key result = do value ← read_single key result; boolean_of value

unfoldable pub read_single_count : Text → Json → Option ℕ
read_single_count key result = do value ← read_single key result; count_of value

-- A query's rejection, a reply that cannot be read, or what it says.
pub data Answer (A : Type 0) : Type 0 where
  failed : Failure → Answer A
  said : A → Answer A

abbrev pub answer_of : {A : Type 0} → (Json → Option A) → Option Json → Answer A
answer_of read none = failed translated
answer_of read (some reply) = elim (read reply) [ none ↦ failed internal | some a ↦ said a ]

-- A loop that runs on, or ends the maintenance.
pub data Flow : Type 0 where
  continues returns : RunResult → Flow
  throws : Failure → Flow

abbrev pub ensured : Bool → RunResult → RunResult
ensured created r = record r {
  partition_ensure_calls = r.partition_ensure_calls + 1;
  partitions_created = if created then r.partitions_created + 1 else r.partitions_created;
}

abbrev pub drop_called : RunResult → RunResult
drop_called r = record r { partition_drop_calls = r.partition_drop_calls + 1 }

-- After a partition was dropped, with the calls left after this one.
abbrev pub partition_gone : ℕ → RunResult → RunResult
partition_gone left r = record r {
  partitions_dropped = r.partitions_dropped + 1;
  partition_drop_budget_reached = if left == 0 then true else r.partition_drop_budget_reached;
}

abbrev pub cleaned : ℕ → RunResult → RunResult
cleaned deleted r = record r {
  default_cleanup_calls = r.default_cleanup_calls + 1;
  default_rows_deleted = r.default_rows_deleted + deleted;
}

abbrev pub budget_spent : ℕ → RunResult → RunResult
budget_spent left r = record r {
  default_delete_budget_reached = if left == 0 then true else r.default_delete_budget_reached;
}

abbrev pub abort : RunResult → RunResult
abort r = record r { status = aborted }

abbrev pub and_then :
    Flow × List Query → (RunResult → List Query → Flow × List Query) → Flow × List Query
and_then (continues r, sent) next = next r sent
and_then (returns r, sent) next = (returns r, sent)
and_then (throws e, sent) next = (throws e, sent)

module _ (database : List Query → Query → Option Json) (signal : List Query → Bool) where
  -- The loop over the partitions' starts. `sent` are the queries so far.
  unfoldable pub ensure_partitions : List Text → RunResult → List Query → Flow × List Query
  ensure_partitions [] r sent = (continues r, sent)
  ensure_partitions (start ∷ starts) r sent =
      let q = ensure_partition start in
      let sent' = sent ++ (q ∷ []) in
      elim (signal sent) [
        | true ↦ (returns (abort r), sent)
        | false ↦ elim (answer_of (read_single_boolean (units "created")) (database sent q)) [
          | failed e ↦ (throws e, sent')
          | said created ↦ ensure_partitions starts (ensured created r) sent'
        ]
      ]

  -- The loop of drops, with the number of calls left.
  unfoldable pub drop_partitions : Text → ℕ → RunResult → List Query → Flow × List Query
  drop_partitions cutoff zero r sent = (continues r, sent)
  drop_partitions cutoff (suc left) r sent =
      let q = drop_partition cutoff in
      let sent' = sent ++ (q ∷ []) in
      elim (signal sent) [
        | true ↦ (returns (abort r), sent)
        | false ↦ elim (answer_of (read_single_boolean (units "dropped")) (database sent q)) [
          | failed e ↦ (throws e, sent')
          | said false ↦ (continues (drop_called r), sent')
          | said true ↦ drop_partitions cutoff left (partition_gone left (drop_called r)) sent'
        ]
      ]

  -- The loop of deletes, with the number of calls left.
  unfoldable pub delete_rows : Text → ℕ → RunResult → List Query → Flow × List Query
  delete_rows cutoff zero r sent = (returns r, sent)
  delete_rows cutoff (suc left) r sent =
      let q = delete_default cutoff default_delete_batch_size in
      let sent' = sent ++ (q ∷ []) in
      elim (signal sent) [
        | true ↦ (returns (abort r), sent)
        | false ↦ elim (answer_of (read_single_count (units "deleted")) (database sent q)) [
          | failed e ↦ (throws e, sent')
          | said deleted ↦ elim (ltb default_delete_batch_size deleted) [
            | true ↦ (throws internal, sent')
            | false ↦ elim (ltb deleted default_delete_batch_size) [
              | true ↦ (returns (cleaned deleted r), sent')
              | false ↦ delete_rows cutoff left (budget_spent left (cleaned deleted r)) sent'
            ]
          ]
        ]
      ]

  unfoldable pub execute_maintenance : List Text → Text → List Query → Flow × List Query
  execute_maintenance starts cutoff sent =
      and_then (ensure_partitions starts (empty_result completed) sent) λ r sent.
        and_then (drop_partitions cutoff partition_drop_call_limit r sent)
          λ r sent. delete_rows cutoff default_delete_call_limit r sent

pub data Ended : Type 0 where
  returned : RunResult → Ended
  threw : Failure → Ended

abbrev pub ended_by : Flow → Ended
ended_by (continues r) = returned r
ended_by (returns r) = returned r
ended_by (throws e) = threw e

-- `primaryError ??= error`.
abbrev pub blame : Failure → Ended → Ended
blame e (returned r) = threw e
blame e (threw d) = threw d

-- `lockAcquired`, `destroyClient`, and `primaryError` or `result`, with the queries sent.
pub record Attempt : Type 0 where
  pub lock_acquired : Bool
  pub destroy_client : Bool
  pub ended : Ended
  pub sent : List Query

-- The queries of a run, the arguments of the calls of `client.release`, and how it ends.
pub record Run : Type 0 where
  pub queries : List Query
  pub releases : List Bool
  pub result : Ended

-- `release_throws` tells whether `client.release` throws.
unfoldable pub release_client : Bool → Attempt → Run
release_client release_throws a = record {
  queries = a.sent;
  releases = a.destroy_client ∷ [];
  result = if release_throws then blame translated a.ended else a.ended;
}

module _ (database : List Query → Query → Option Json) (signal : List Query → Bool) where
  unfoldable pub attempt : List Text → Text → Attempt
  attempt starts cutoff =
      elim (answer_of (read_single_boolean (units "acquired")) (database [] try_lock)) [
        | failed e ↦ record {
          lock_acquired = false;
          destroy_client = true;
          ended = threw e;
          sent = try_lock ∷ [];
        }
        | said false ↦ record {
          lock_acquired = false;
          destroy_client = false;
          ended = returned (empty_result skipped);
          sent = try_lock ∷ [];
        }
        | said true ↦
            let done = execute_maintenance database signal starts cutoff (try_lock ∷ []) in
            record {
              lock_acquired = true;
              destroy_client = false;
              ended = ended_by (done.0);
              sent = done.1;
            }
      ]

  unfoldable pub release_lock : Attempt → Attempt
  release_lock a =
      elim (answer_of (read_single_boolean (units "released")) (database a.sent unlock)) [
        | failed e ↦ record a {
          destroy_client = true;
          ended = blame e a.ended;
          sent = a.sent ++ (unlock ∷ []);
        }
        | said false ↦ record a {
          destroy_client = true;
          ended = blame internal a.ended;
          sent = a.sent ++ (unlock ∷ []);
        }
        | said true ↦ record a { sent = a.sent ++ (unlock ∷ []) }
      ]

  abbrev pub unlock_if_acquired : Attempt → Attempt
  unlock_if_acquired a = if a.lock_acquired then release_lock a else a

  -- `run`; `connects` tells whether `pool.connect()` is fulfilled.
  unfoldable pub run_maintenance : Bool → Bool → List Text → Text → Run
  run_maintenance connects release_throws starts cutoff =
      if signal []
      then record { queries = []; releases = []; result = returned (empty_result aborted) }
      else if not connects
      then record { queries = []; releases = []; result = threw translated }
      else release_client release_throws (unlock_if_acquired (attempt starts cutoff))
