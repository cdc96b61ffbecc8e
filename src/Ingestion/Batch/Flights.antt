-- ===== src/Ingestion/Batch/Flights.antt =====
-- What the running calls of `repository.insert` were given.
use log_stream.Base.{
  ℕ, ◌≡◌, ap, ◌∙◌, inl, inr, true, ◌&&◌, List, [], ◌∷◌, map, some, arith, ◌==◌, if◌then◌else◌,
  if_intro, All, All-append, All-remove_at, length, is_empty, get_elem?, Option-cases,
}
use log_stream.Ingestion.Batch.State.{Config, State, Flight, Outcome, initial, all_records}
use log_stream.Ingestion.Batch.Combine.Laws.{combine_records_lem}
use log_stream.Ingestion.Batch.Combine.{combine_records}
use log_stream.Ingestion.Batch.Take.{take_batch}
use log_stream.Ingestion.Batch.Take.Laws.{row_count-total, Fits, take_batch-Fits}
use log_stream.Ingestion.Batch.Flush.Laws.{start_loop_keeps}
use log_stream.Ingestion.Batch.Flush.{
  start_batch, can_start, start_loop, schedule_flush, reschedule, start_available_writes, flush,
  flush_delay, cancel_flush, set_timer, start_write, has_timer,
}
use log_stream.Ingestion.Batch.Events.{
  is_drained, insert, starts_at_once, insert_delay, accept, refuses, settle, enqueue, settle_close,
  keeps_waiting, write_done, close_now, await_close, clear_flush, close, deliver, finish, fire,
  step, run, Event, insert_call, close_call, timer_fires, write_settles, write_finishes,
}

module _ {R : Type 0} where
  -- The rows are the records of the writes, in order, and the writes fit into one batch.
  pub record IsWhole (c : Config) (f : Flight R) : Type 0 where
    pub whole : f.rows ≡ map some (all_records f.writes)
    pub fits : Fits c.max_batch_rows f.writes

  abbrev pub AreWhole : Config → State R → Type 0
  AreWhole c s = All (IsWhole c) s.running

  start_batch-AreWhole : (c : Config) (s : State R) → AreWhole c s → AreWhole c (start_batch c s)
  unfolding start_batch start_write
  start_batch-AreWhole c s h =
      let most = c.max_batch_rows in
      let taken = take_batch most s.pending [] 0 s.queued_rows in
      All-append (IsWhole c) s.running _ h (
        record {
          whole =
              ap (combine_records taken.writes)
                (row_count-total most s.pending [] 0 s.queued_rows (omega arith))
              ∙ combine_records_lem taken.writes;
          fits =
              take_batch-Fits most s.pending [] 0 s.queued_rows (omega arith) (inl (omega arith));
        },
        tt,
      )

  start_loop-AreWhole :
      (n : ℕ) (c : Config) (s : State R) → AreWhole c s → AreWhole c (start_loop n c s)
  start_loop-AreWhole n c = start_loop_keeps (AreWhole c) c (λ t _ h. start_batch-AreWhole c t h) n

  schedule_flush-running :
      (c : Config) (d : ℕ) (s : State R) → (schedule_flush c d s).running ≡ s.running
  unfolding schedule_flush set_timer cancel_flush
  schedule_flush-running c d s = ground arith

  schedule_flush-AreWhole :
      (c : Config) (d : ℕ) (s : State R) → AreWhole c s → AreWhole c (schedule_flush c d s)
  schedule_flush-AreWhole c d s h = rw (schedule_flush-running c d s) h

  start_available-AreWhole :
      (c : Config) (s : State R) → AreWhole c s → AreWhole c (start_available_writes c s)
  unfolding start_available_writes reschedule
  start_available-AreWhole c s h =
      let t = start_loop (length s.pending) c s in
      let k = start_loop-AreWhole (length s.pending) c s h in
      if_intro (AreWhole c) (can_start c t) (λ _. schedule_flush-AreWhole c (flush_delay c t) t k)
        (λ _. k)

  insert-AreWhole :
      (c : Config) (rs : List R) (s : State R) → AreWhole c s → AreWhole c (insert c rs s)
  unfolding insert accept enqueue settle
  insert-AreWhole c rs s h =
      let t = enqueue rs s in
      if_intro (AreWhole c) (is_empty rs) (λ _. h)
        (λ _.
          if_intro (AreWhole c) (refuses c rs s) (λ _. h)
            (λ _.
              if_intro (AreWhole c) (starts_at_once c t) (λ _. start_available-AreWhole c t h)
                (λ _. schedule_flush-AreWhole c (insert_delay c t) t h)))

  fire-AreWhole : (c : Config) (i : ℕ) (s : State R) → AreWhole c s → AreWhole c (fire c i s)
  unfolding fire flush
  fire-AreWhole c i s h =
      if_intro (AreWhole c) (has_timer i s.timers) (λ _. start_available-AreWhole c _ h) (λ _. h)

  deliver-AreWhole :
      (c : Config) (i : ℕ) (o : Outcome) (s : State R) → AreWhole c s → AreWhole c (deliver i o s)
  unfolding deliver
  deliver-AreWhole c i o s h = elim (Option-cases (get_elem? s.running i)) [
    | inl e ↦ rw (e, deliver) h
    | inr (flight, e) ↦ rw (e, deliver) (All-remove_at (IsWhole c) s.running i h)
  ]

  finish-AreWhole : (c : Config) (s : State R) → AreWhole c s → AreWhole c (finish c s)
  unfolding finish write_done settle_close
  finish-AreWhole c s h =
      let t = write_done s in
      let u = if is_empty t.pending then t else schedule_flush c (flush_delay c t) t in
      let k =
        if_intro (AreWhole c) (is_empty t.pending) {x = t}
          {y = schedule_flush c (flush_delay c t) t} (λ _. h)
          (λ _. schedule_flush-AreWhole c (flush_delay c t) t h) in
      if_intro (AreWhole c) (s.delivered == 0) (λ _. h)
        (λ _. if_intro (AreWhole c) (keeps_waiting u) (λ _. k) (λ _. k))

  close-AreWhole : (c : Config) (s : State R) → AreWhole c s → AreWhole c (close c s)
  unfolding close close_now await_close
  close-AreWhole c s h =
      let t = clear_flush (record s { closed = true }) in
      let u = start_available_writes c t in
      let k = start_available-AreWhole c t (unfold clear_flush cancel_flush in ground arith) in
      if_intro (AreWhole c) (s.closed && is_drained s) (λ _. h)
        (λ _. if_intro (AreWhole c) (is_drained u) (λ _. k) (λ _. k))

  step-AreWhole : (c : Config) (s : State R) (e : Event R) → AreWhole c s → AreWhole c (step c s e)
  unfolding step
  step-AreWhole c s (insert_call records) h = insert-AreWhole c records s h
  step-AreWhole c s close_call h = close-AreWhole c s h
  step-AreWhole c s (timer_fires i) h = fire-AreWhole c i s h
  step-AreWhole c s (write_settles i o) h = deliver-AreWhole c i o s h
  step-AreWhole c s write_finishes h = finish-AreWhole c s h

  run-AreWhole :
      (c : Config) (es : List (Event R)) (s : State R) → AreWhole c s → AreWhole c (run c s es)
  unfolding run
  run-AreWhole c [] s h = h
  run-AreWhole c (e ∷ es) s h = run-AreWhole c es (step c s e) (step-AreWhole c s e h)

  -- After every history of events, each running call of `repository.insert` was given exactly the
  -- records of the writes that wait for it, in their order and with no empty slot, and these
  -- writes are within the limit of rows unless there is only one.
  pub run-initial-AreWhole : (c : Config) (es : List (Event R)) → AreWhole c (run c initial es)
  unfolding initial
  run-initial-AreWhole c es = run-AreWhole c es initial tt
