-- ===== src/Ingestion/Batch/Combine.antt =====
-- src/modules/ingestion/batched-ingestion-repository.ts: `combineRecords`.
pub mod Laws
use log_stream.Base.{ℕ, zero, suc, ◌+◌, List, [], ◌∷◌, Option, none, some, replicate}
use log_stream.Ingestion.Batch.State.{PendingWrite}

module _ {R : Type 0} where
  -- The two loops of `combineRecords`: `fill` writes `record` after `record` from `index` on.
  abbrev pub assign : List (Option R) → ℕ → R → List (Option R)
  assign [] zero r = some r ∷ []
  assign [] (suc i) r = none ∷ assign [] i r
  assign (x ∷ xs) zero r = some r ∷ xs
  assign (x ∷ xs) (suc i) r = x ∷ assign xs i r

  unfoldable pub fill : List R → List (Option R) → ℕ → List (Option R) × ℕ
  fill [] combined index = (combined, index)
  fill (r ∷ rs) combined index = fill rs (assign combined index r) (index + 1)

  unfoldable pub combine_from : List (PendingWrite R) → List (Option R) → ℕ → List (Option R)
  combine_from [] combined index = combined
  combine_from (w ∷ ws) combined index =
      let (combined', index') = fill w.records combined index in combine_from ws combined' index'

  unfoldable pub combine_records : List (PendingWrite R) → ℕ → List (Option R)
  combine_records writes row_count = combine_from writes (replicate row_count none) 0
