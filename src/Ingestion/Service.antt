-- ===== src/Ingestion/Service.antt =====
-- src/modules/ingestion/ingestion-service.ts. `clock()` is the time of the call, `generateId()` gives
-- the identifiers of a sequence one by one, and `repository.insert` is a parameter.
pub mod Body
pub mod Collect
pub mod Laws
mod Tests
use log_stream.Base.{
  ℕ, zero, suc, ◌+◌, Bool, true, false, List, [], ◌∷◌, Option, none, some, if◌then◌else◌, is_empty,
  length,
}
use log_stream.Base.Maybe.{◌>>=◌}
use log_stream.Base.Number.{Number}
use log_stream.Base.Text.{Text, units}
use log_stream.Domain.Json.{Json, Items, Members, get_own, items}
use log_stream.Domain.Checked.{Checked, valid, invalid, Reason}
use log_stream.Domain.LogEntry.{ValidatedLogEntry, LogInsertionRecord}
use log_stream.Domain.Validator.{validate_log_entry}
use log_stream.Domain.Normalizer.{normalize_attributes}

pub record RejectionItem : Type 0 where
  pub index : ℕ
  pub reason : Reason

-- How `ingest` ends: a BadRequestError, the TypeError of `normalizeAttributes`, the rejection of
-- `repository.insert`, or the response.
pub data Outcome : Type 0 where
  bad_request type_error insert_failed : Outcome
  response : (accepted : ℕ) (rejected : List RejectionItem) → Outcome

-- The arguments of the calls of `repository.insert`, and how the call ends.
pub record Ingested : Type 0 where
  pub inserted : List (List LogInsertionRecord)
  pub outcome : Outcome

unfoldable pub logs_of : Option Json → Option (List Json)
logs_of (some (Json.array values)) = some (items values)
logs_of _ = none

unfoldable pub read_logs : Json → Option (List Json)
read_logs (Json.object body) = logs_of (get_own (units "logs") body)
read_logs _ = none

-- `records` and `rejected` of the loop.
pub record Collected : Type 0 where
  pub records : List LogInsertionRecord
  pub rejected : List RejectionItem

abbrev pub to_record : Text → List (Text × Text) → ValidatedLogEntry → LogInsertionRecord
to_record id search e = record { entry = e; id = id; attributes_search = search }

unfoldable pub add_rejected : ℕ → Reason → Collected → Collected
add_rejected index reason c = record c {
  rejected = record { index = index; reason = reason } ∷ c.rejected;
}

unfoldable pub add_record : LogInsertionRecord → Collected → Collected
add_record r c = record c { records = r ∷ c.records }

module _ (stringify : Number → Text) (ids : ℕ → Text) (reference_time_ms : ℕ) where
  -- The loop over `logs.entries()` from an index on, `made` identifiers after the first; `none` is a
  -- TypeError. The lists are those that the rest of the loop pushes.
  unfoldable pub collect : ℕ → ℕ → List Json → Option Collected
  collect index made [] = some (record { records = []; rejected = [] })
  collect index made (input ∷ logs) = elim (validate_log_entry input reference_time_ms) [
    | invalid reason ↦ do c ← collect (suc index) made logs; some (add_rejected index reason c)
    | valid e ↦ elim (normalize_attributes stringify e.attributes) [
      | none ↦ none
      | some search ↦ do
        c ← collect (suc index) (suc made) logs
        some (add_record (to_record (ids made) search e) c)
    ]
  ]

unfoldable pub answer : (List LogInsertionRecord → Bool) → Collected → Ingested
answer insert c =
    let done = response (length c.records) c.rejected in
    if is_empty c.records then record { inserted = []; outcome = done } else record {
      inserted = c.records ∷ [];
      outcome = if insert c.records then done else insert_failed;
    }

-- `insert` tells whether the call of the repository is fulfilled.
unfoldable pub ingest :
    (Number → Text) → (ℕ → Text) → (List LogInsertionRecord → Bool) → ℕ → Json → Ingested
ingest stringify ids insert reference_time_ms body = elim (read_logs body) [
  | none ↦ record { inserted = []; outcome = bad_request }
  | some logs ↦ elim (collect stringify ids reference_time_ms 0 0 logs) [
    | none ↦ record { inserted = []; outcome = type_error }
    | some c ↦ answer insert c
  ]
]
