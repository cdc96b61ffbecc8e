-- ===== src/Ingestion/Batch/Flush.antt =====
-- src/modules/ingestion/batched-ingestion-repository.ts: timers and `startAvailableWrites`.
pub mod Laws
use log_stream.Base.{
  ℕ, zero, suc, ◌+◌, Bool, false, not, ◌&&◌, ◌||◌, List, [], ◌∷◌, ◌++◌, none, some, ltb, leb, ◌==◌,
  if◌then◌else◌, length, is_empty,
}
use log_stream.Ingestion.Batch.State.{Config, PendingWrite, State}
use log_stream.Ingestion.Batch.Combine.{combine_records}
use log_stream.Ingestion.Batch.Take.{take_batch}

unfoldable pub drop_timer : ℕ → List (ℕ × ℕ) → List (ℕ × ℕ)
drop_timer h [] = []
drop_timer h ((i, d) ∷ ts) = if i == h then ts else (i, d) ∷ drop_timer h ts

unfoldable pub has_timer : ℕ → List (ℕ × ℕ) → Bool
has_timer h [] = false
has_timer h ((i, d) ∷ ts) = i == h || has_timer h ts

module _ {R : Type 0} where
  -- `timer.schedule` and `timer.cancel`.
  unfoldable pub set_timer : ℕ → State R → State R
  set_timer delay s = record s {
    scheduled_flush = some s.next_handle;
    timers = (s.next_handle, delay) ∷ s.timers;
    next_handle = s.next_handle + 1;
  }

  unfoldable pub cancel_flush : State R → State R
  cancel_flush s = elim s.scheduled_flush [
    | none ↦ s
    | some h ↦ record s { timers = drop_timer h s.timers }
  ]

  unfoldable pub schedule_flush : Config → ℕ → State R → State R
  schedule_flush c delay s =
      if is_empty s.pending || leb c.max_concurrent_writes s.active_writes
      then s
      else elim s.scheduled_flush [
        | none ↦ set_timer delay s
        | some h ↦ if not (delay == 0) then s else set_timer delay (cancel_flush s)
      ]

  -- The synchronous part of `startWrite`; `deliver` and `finish` are its continuations.
  unfoldable pub start_write : List (PendingWrite R) → ℕ → State R → State R
  start_write writes row_count s = record s {
    active_writes = s.active_writes + 1;
    running = s.running ++ record { writes = writes; rows = combine_records writes row_count } ∷ [];
  }

  -- One round of the loop of `startAvailableWrites`.
  unfoldable pub start_batch : Config → State R → State R
  start_batch c s =
      let batch = take_batch c.max_batch_rows s.pending [] 0 s.queued_rows in
      start_write batch.writes batch.row_count
        (record s { pending = batch.rest; queued_rows = batch.queued })

  unfoldable pub can_start : Config → State R → Bool
  can_start c s = ltb s.active_writes c.max_concurrent_writes && not (is_empty s.pending)

  -- The loop, with fuel for one round for each pending write.
  unfoldable pub start_loop : ℕ → Config → State R → State R
  start_loop zero c s = s
  start_loop (suc rounds) c s =
      let t = start_batch c s in
      let later = start_loop rounds c t in
      if can_start c s
      then (if not t.closed && ltb t.queued_rows c.max_batch_rows then t else later)
      else s

  unfoldable pub flush_delay : Config → State R → ℕ
  flush_delay c s = if s.closed || leb c.max_batch_rows s.queued_rows then 0 else c.flush_delay_ms

  unfoldable pub reschedule : Config → State R → State R
  reschedule c s = if can_start c s then schedule_flush c (flush_delay c s) s else s

  unfoldable pub start_available_writes : Config → State R → State R
  start_available_writes c s = reschedule c (start_loop (length s.pending) c s)

  -- The callback of the timer.
  unfoldable pub flush : Config → State R → State R
  flush c s = start_available_writes c (record s { scheduled_flush = none })
