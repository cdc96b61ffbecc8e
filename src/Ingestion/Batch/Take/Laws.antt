-- ===== src/Ingestion/Batch/Take/Laws.antt =====
-- What `takeBatch` takes: a first part of the queue, in order and never empty, within the limit of
-- rows unless it is a single write, and as long as the limit allows.
use log_stream.Base.{
  ℕ, ◌+◌, ◌-◌, ◌≤◌, ◌<◌, ◌≡◌, refl, ap, false, is_empty, ◌⊎◌, false, List, [], ◌∷◌, ◌++◌,
  append_assoc, arith, length, length-append, is_empty,
}
use log_stream.Ingestion.Batch.State.{PendingWrite, size, total_rows, total_rows-append}
use log_stream.Ingestion.Batch.Take.{take_batch}

module _ {R : Type 0} where
  pub writes-rest :
      (most : ℕ) (ws acc : List (PendingWrite R)) (rows queued : ℕ)
      → let taken = take_batch most ws acc rows queued in taken.writes ++ taken.rest ≡ acc ++ ws
  unfolding take_batch
  writes-rest most [] acc rows queued = refl
  writes-rest most (w ∷ ws) acc rows queued = ground (
    arith,
    writes-rest most ws (acc ++ w ∷ []) (rows + size w) (queued - size w),
    append_assoc acc (w ∷ []) ws,
  )

  pub row_count-total :
      (most : ℕ) (ws acc : List (PendingWrite R)) (rows queued : ℕ)
      → rows ≡ total_rows acc
      → let taken = take_batch most ws acc rows queued in taken.row_count ≡ total_rows taken.writes
  unfolding take_batch
  row_count-total most [] acc rows queued h = h
  row_count-total most (w ∷ ws) acc rows queued h = ground (
    arith,
    row_count-total most ws (acc ++ w ∷ []) (rows + size w) (queued - size w),
    total_rows-append acc (w ∷ []),
  )

  pub queued-total :
      (most : ℕ) (ws acc : List (PendingWrite R)) (rows queued : ℕ)
      → queued ≡ total_rows ws
      → let taken = take_batch most ws acc rows queued in taken.queued ≡ total_rows taken.rest
  unfolding take_batch
  queued-total most [] acc rows queued h = h
  queued-total most (w ∷ ws) acc rows queued h =
      ground (arith, queued-total most ws (acc ++ w ∷ []) (rows + size w) (queued - size w))

  -- One write may be larger than the limit.
  abbrev pub Fits : ℕ → List (PendingWrite R) → Type 0
  Fits most ws = (total_rows ws ≤ most) ⊎ (length ws ≡ 1)

  pub take_batch-Fits :
      (most : ℕ) (ws acc : List (PendingWrite R)) (rows queued : ℕ)
      → rows ≡ total_rows acc
      → Fits most acc
      → Fits most (take_batch most ws acc rows queued).writes
  unfolding take_batch
  take_batch-Fits most [] acc rows queued h f = f
  take_batch-Fits most (w ∷ ws) [] rows queued h f =
      ground (arith, take_batch-Fits most ws (w ∷ []) (rows + size w) (queued - size w))
  take_batch-Fits most (w ∷ ws) (v ∷ acc) rows queued h f = ground (
    arith,
    take_batch-Fits most ws (v ∷ (acc ++ w ∷ [])) (rows + size w) (queued - size w),
    total_rows-append acc (w ∷ []),
  )

  pub take_batch-length :
      (most : ℕ) (ws acc : List (PendingWrite R)) (rows queued : ℕ)
      → length (take_batch most ws acc rows queued).rest ≤ length ws
  unfolding take_batch
  take_batch-length most [] acc rows queued = omega arith
  take_batch-length most (w ∷ ws) acc rows queued =
      ground (arith, take_batch-length most ws (acc ++ w ∷ []) (rows + size w) (queued - size w))

  -- It stops early only where the next write would pass the limit, or the limit is reached.
  pub take_batch_greedy :
      (most : ℕ) (ws acc : List (PendingWrite R)) (rows queued : ℕ) (v : PendingWrite R)
      (left : List (PendingWrite R))
      → let taken = take_batch most ws acc rows queued in
        taken.rest ≡ v ∷ left → most < taken.row_count + size v ⊎ most ≤ taken.row_count
  unfolding take_batch
  take_batch_greedy most [] acc rows queued v left h = cc
  take_batch_greedy most (w ∷ ws) acc rows queued v left h =
      ground
        (arith, take_batch_greedy most ws (acc ++ w ∷ []) (rows + size w) (queued - size w) v left)

  pub take_batch_nonempty :
      (most : ℕ) (w : PendingWrite R) (ws acc : List (PendingWrite R)) (rows queued : ℕ)
      → 0 < length (take_batch most (w ∷ ws) acc rows queued).writes
  unfolding take_batch
  take_batch_nonempty most w [] acc rows queued = ground (arith, length-append acc (w ∷ []))
  take_batch_nonempty most w (u ∷ ws) acc rows queued = ground (
    arith,
    length-append acc (w ∷ []),
    take_batch_nonempty most u ws (acc ++ w ∷ []) (rows + size w) (queued - size w),
  )

  pub take_batch_moves :
      (most : ℕ) (ws : List (PendingWrite R)) (queued : ℕ)
      → is_empty ws ≡ false
      → let taken = take_batch most ws [] 0 queued in
        (0 < length taken.writes) × (length taken.writes + length taken.rest ≡ length ws)
  take_batch_moves most [] queued h = cc
  take_batch_moves most (w ∷ ws) queued h =
      let taken = take_batch most (w ∷ ws) [] 0 queued in
      (
        take_batch_nonempty most w ws [] 0 queued,
        omega (
          arith,
          ap length (writes-rest most (w ∷ ws) [] 0 queued),
          length-append taken.writes taken.rest,
        ),
      )
