-- ===== src/Ingestion/Batch/Events.antt =====
-- src/modules/ingestion/batched-ingestion-repository.ts: the calls, and what the event loop runs.
use log_stream.Base.{
  ℕ, ◌+◌, ◌-◌, Bool, true, not, ◌&&◌, ◌||◌, List, [], ◌∷◌, ◌++◌, map, none, some, ltb, leb, ◌==◌,
  if◌then◌else◌, length, is_empty, get_elem?, remove_at,
}
use log_stream.Ingestion.Batch.State.{
  Config, Outcome, PendingWrite, resolved, overloaded, State, settle_all,
}
use log_stream.Ingestion.Batch.Flush.{
  drop_timer, has_timer, cancel_flush, schedule_flush, start_available_writes, flush_delay, flush,
}

module _ {R : Type 0} where
  abbrev pub keeps_waiting : State R → Bool
  keeps_waiting s = not s.closed || not (is_empty s.pending) || ltb 0 s.active_writes

  unfoldable pub settle_close : State R → State R
  settle_close s =
      if keeps_waiting s
      then s
      else record s { close_waiters = []; settled_closes = s.settled_closes ++ s.close_waiters }

  unfoldable pub settle : ℕ → Outcome → State R → State R
  settle p o s = record s { settled = s.settled ++ (p, o) ∷ [] }

  abbrev pub write_of : List R → State R → PendingWrite R
  write_of records s = record { records = records; promise = s.next_promise }

  unfoldable pub enqueue : List R → State R → State R
  enqueue records s = record s {
    pending = s.pending ++ write_of records s ∷ [];
    queued_rows = s.queued_rows + length records;
    next_promise = s.next_promise + 1;
  }

  -- The test of the last `if` of `insert`, and the delay of its `else`.
  abbrev pub starts_at_once : Config → State R → Bool
  starts_at_once c t = ltb t.active_writes c.max_concurrent_writes && length t.pending == 1

  abbrev pub insert_delay : Config → State R → ℕ
  insert_delay c t = if leb c.max_batch_rows t.queued_rows then 0 else c.flush_delay_ms

  unfoldable pub accept : Config → List R → State R → State R
  accept c records s =
      let t = enqueue records s in
      if starts_at_once c t
      then start_available_writes c t
      else schedule_flush c (insert_delay c t) t

  unfoldable pub refuses : Config → List R → State R → Bool
  refuses c records s =
      s.closed || (ltb 0 s.queued_rows && ltb c.max_queued_rows (s.queued_rows + length records))

  -- `insert`: the promise that it returns has the number `s.next_promise`.
  unfoldable pub insert : Config → List R → State R → State R
  insert c records s =
      if is_empty records
      then settle s.next_promise resolved (record s { next_promise = s.next_promise + 1 })
      else if refuses c records s
      then settle s.next_promise overloaded (record s { next_promise = s.next_promise + 1 })
      else accept c records s

  unfoldable pub is_drained : State R → Bool
  is_drained s = is_empty s.pending && s.active_writes == 0

  unfoldable pub clear_flush : State R → State R
  clear_flush s = record (cancel_flush s) { scheduled_flush = none }

  unfoldable pub close_now : State R → State R
  close_now s = record s {
    settled_closes = s.settled_closes ++ s.next_close ∷ [];
    next_close = s.next_close + 1;
  }

  unfoldable pub await_close : State R → State R
  await_close s = record s {
    close_waiters = s.close_waiters ++ s.next_close ∷ [];
    next_close = s.next_close + 1;
  }

  -- `close`: the promise that it returns has the number `s.next_close`.
  unfoldable pub close : Config → State R → State R
  close c s =
      let t = start_available_writes c (clear_flush (record s { closed = true })) in
      if s.closed && is_drained s
      then close_now s
      else if is_drained t
      then close_now t
      else await_close t

  -- `repository.insert` of the i-th running call settles, and so do the promises of its writes.
  unfoldable pub deliver : ℕ → Outcome → State R → State R
  deliver i o s = elim (get_elem? s.running i) [
    | none ↦ s
    | some flight ↦ record s {
      running = remove_at s.running i;
      delivered = s.delivered + 1;
      settled = s.settled ++ settle_all o (map (λ w. w.promise) flight.writes);
    }
  ]

  unfoldable pub write_done : State R → State R
  write_done s = record s { active_writes = s.active_writes - 1; delivered = s.delivered - 1 }

  -- The callback of `finally`.
  unfoldable pub finish : Config → State R → State R
  finish c s =
      let t = write_done s in
      if s.delivered == 0
      then s
      else settle_close (if is_empty t.pending then t else schedule_flush c (flush_delay c t) t)

  unfoldable pub fire : Config → ℕ → State R → State R
  fire c h s =
      if has_timer h s.timers then flush c (record s { timers = drop_timer h s.timers }) else s

pub data Event (R : Type 0) : Type 0 where
  insert_call : List R → Event R
  close_call : Event R
  timer_fires : ℕ → Event R
  write_settles : ℕ → Outcome → Event R
  write_finishes : Event R

module _ {R : Type 0} where
  unfoldable pub step : Config → State R → Event R → State R
  step c s (insert_call records) = insert c records s
  step c s close_call = close c s
  step c s (timer_fires h) = fire c h s
  step c s (write_settles i o) = deliver i o s
  step c s write_finishes = finish c s

  unfoldable pub run : Config → State R → List (Event R) → State R
  run c s [] = s
  run c s (e ∷ es) = run c (step c s e) es
