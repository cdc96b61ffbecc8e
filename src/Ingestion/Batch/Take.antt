-- ===== src/Ingestion/Batch/Take.antt =====
-- src/modules/ingestion/batched-ingestion-repository.ts: `takeBatch`.
pub mod Laws
use log_stream.Base.{ℕ, ◌+◌, ◌-◌, not, ◌&&◌, List, [], ◌∷◌, ◌++◌, ltb, leb, if◌then◌else◌, is_empty}
use log_stream.Ingestion.Batch.State.{PendingWrite, size}

-- What `takeBatch` returns, with the `pending` and `queuedRows` that it leaves.
pub record Taken (R : Type 0) : Type 0 where
  pub writes : List (PendingWrite R)
  pub row_count : ℕ
  pub rest : List (PendingWrite R)
  pub queued : ℕ

module _ {R : Type 0} where
  unfoldable pub take_batch : ℕ → List (PendingWrite R) → List (PendingWrite R) → ℕ → ℕ → Taken R
  take_batch most [] writes row_count queued = record {
    writes = writes;
    row_count = row_count;
    rest = [];
    queued = queued;
  }
  take_batch most (w ∷ ws) writes row_count queued =
      let later = take_batch most ws (writes ++ w ∷ []) (row_count + size w) (queued - size w) in
      if not (is_empty writes) && ltb most (row_count + size w)
      then record { writes = writes; row_count = row_count; rest = w ∷ ws; queued = queued }
      else if leb most (row_count + size w)
      then record {
        writes = writes ++ w ∷ [];
        row_count = row_count + size w;
        rest = ws;
        queued = queued - size w;
      }
      else later
