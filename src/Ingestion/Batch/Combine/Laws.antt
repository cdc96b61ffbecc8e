-- ===== src/Ingestion/Batch/Combine/Laws.antt =====
-- `combineRecords` joins the records of the writes: no slot of the new array stays empty.
use mathlib.Core.List.{map-append}
use native.Mathlib.Nat.{zero-add, suc-add}
use log_stream.Base.{
  ℕ, zero, suc, ◌+◌, ◌≡◌, refl, ap, ◌∙◌, List, [], ◌∷◌, ◌++◌, map, append_assoc, Option, none, some,
  arith, length, length-append, length-map, replicate,
}
use log_stream.Ingestion.Batch.State.{PendingWrite, size, total_rows, all_records}
use log_stream.Ingestion.Batch.Combine.{assign, fill, combine_from, combine_records}

module _ {R : Type 0} where
  assign_next :
      (before : List (Option R)) (x : Option R) (after : List (Option R)) (r : R) (i : ℕ)
      → i ≡ length before
      → assign (before ++ x ∷ after) i r ≡ before ++ some r ∷ after
  assign_next [] x after r i h = rw h
  assign_next (y ∷ before) x after r i h =
      rw h (ap (◌∷◌ y) (assign_next before x after r (length before) refl))

  fill_rows :
      (rs : List R) (before after : List (Option R)) (i : ℕ)
      → i ≡ length before
      → (fill rs (before ++ (replicate (length rs) none ++ after)) i).0
        ≡ before ++ (map some rs ++ after)
  unfolding fill
  fill_rows [] before after i h = refl
  fill_rows (r ∷ rs) before after i h =
      let next =
        ap (λ rows. (fill rs rows (i + 1)).0)
          (assign_next before none (replicate (length rs) none ++ after) r i h) in
      next
      ∙ (simp append_assoc at (
          fill_rows rs (before ++ some r ∷ []) after (i + 1)
            (omega (arith, h, length-append before (some r ∷ [])))))

  fill_index : (rs : List R) (rows : List (Option R)) (i : ℕ) → (fill rs rows i).1 ≡ i + length rs
  unfolding fill
  fill_index [] rows i = omega arith
  fill_index (r ∷ rs) rows i = omega (arith, fill_index rs (assign rows i r) (i + 1))

  replicate-append : (m n : ℕ) (x : Option R) → replicate (m + n) x ≡ replicate m x ++ replicate n x
  replicate-append zero n x = rw zero-add
  replicate-append (suc m) n x = rw (suc-add m n) (ap (◌∷◌ x) (replicate-append m n x))

  combine_from_lem :
      (ws : List (PendingWrite R)) (before : List (Option R)) (i : ℕ)
      → i ≡ length before
      → combine_from ws (before ++ replicate (total_rows ws) none) i
        ≡ before ++ map some (all_records ws)
  unfolding combine_from
  combine_from_lem [] before i h = refl
  combine_from_lem (w ∷ ws) before i h = rw (replicate-append (size w) (total_rows ws) none) (
      rw (fill_rows w.records before (replicate (total_rows ws) none) i h) (
        rw (fill_index w.records) (
          rw (← append_assoc)
            (combine_from_lem ws (before ++ map some w.records) (i + size w) next ∙ joined))))
    where
      next : i + size w ≡ length (before ++ map some w.records)
      next = omega (
        arith,
        h,
        length-append before (map some w.records),
        length-map {B = Option R} w.records some,
      )

      joined :
          (before ++ map some w.records) ++ map some (all_records ws)
          ≡ before ++ map some (w.records ++ all_records ws)
      joined = simp (append_assoc, map-append)

  -- The array handed to the repository is the records of the writes, in their order.
  pub combine_records_lem :
      (ws : List (PendingWrite R)) → combine_records ws (total_rows ws) ≡ map some (all_records ws)
  unfolding combine_records
  combine_records_lem ws = combine_from_lem ws [] 0 refl
