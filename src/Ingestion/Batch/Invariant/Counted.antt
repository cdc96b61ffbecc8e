-- ===== src/Ingestion/Batch/Invariant/Counted.antt =====
-- The counters, over each event.
use log_stream.Base.{
  ℕ, ◌≡◌, inl, inr, true, false, List, [], ◌∷◌, arith, length, length-append, length-remove_at,
  if_intro, is_empty, get_elem?, Option-cases, ◌==◌, ◌&&◌,
}
use log_stream.Ingestion.Batch.State.{Config, State, total_rows-append, Outcome}
use log_stream.Ingestion.Batch.Take.Laws.{queued-total}
use log_stream.Ingestion.Batch.Flush.Laws.{start_loop_keeps}
use log_stream.Ingestion.Batch.Flush.{
  start_batch, can_start, start_loop, schedule_flush, reschedule, start_available_writes, flush,
  has_timer, flush_delay, cancel_flush, set_timer, start_write,
}
use log_stream.Ingestion.Batch.Events.{
  is_drained, insert, starts_at_once, insert_delay, accept, refuses, settle, enqueue, write_of,
  settle_close, write_done, close_now, await_close, clear_flush, close, deliver, finish, fire, step,
  Event, insert_call, close_call, timer_fires, write_settles, write_finishes,
}
use log_stream.Ingestion.Batch.Invariant.{IsCounted}

module _ {R : Type 0} where
  start_batch-IsCounted :
      (c : Config) (s : State R)
      → can_start c s ≡ true
      → IsCounted c s
      → IsCounted c (start_batch c s)
  unfolding start_batch can_start start_write
  start_batch-IsCounted c s h v = record {
    rows = queued-total c.max_batch_rows s.pending [] 0 s.queued_rows v.rows;
    active = omega (arith, length-append {0});
    bound = ground arith;
  }

  start_loop-IsCounted :
      (n : ℕ) (c : Config) (s : State R) → IsCounted c s → IsCounted c (start_loop n c s)
  start_loop-IsCounted n c = start_loop_keeps (IsCounted c) c (start_batch-IsCounted c) n

  schedule_flush-IsCounted :
      (c : Config) (d : ℕ) (s : State R) → IsCounted c s → IsCounted c (schedule_flush c d s)
  unfolding schedule_flush set_timer cancel_flush
  schedule_flush-IsCounted c d s v = ground arith

  reschedule-IsCounted : (c : Config) (s : State R) → IsCounted c s → IsCounted c (reschedule c s)
  unfolding reschedule
  reschedule-IsCounted c s v = ground (arith, schedule_flush-IsCounted c (flush_delay c s) s v)

  start_available-IsCounted :
      (c : Config) (s : State R) → IsCounted c s → IsCounted c (start_available_writes c s)
  unfolding start_available_writes
  start_available-IsCounted c s v =
      reschedule-IsCounted c _ (start_loop-IsCounted (length s.pending) c s v)

  -- The new state of `accept` before the queue is looked at.
  queued-IsCounted :
      (c : Config) (rs : List R) (s : State R) → IsCounted c s → IsCounted c (enqueue rs s)
  unfolding enqueue
  queued-IsCounted c rs s v = record {
    rows = omega (arith, total_rows-append {R = R} s.pending (write_of rs s ∷ []));
    active = v.active;
    bound = v.bound;
  }

  insert-IsCounted :
      (c : Config) (rs : List R) (s : State R) → IsCounted c s → IsCounted c (insert c rs s)
  unfolding insert accept settle
  insert-IsCounted c rs s v =
      if_intro (IsCounted c) (is_empty rs) (λ _. ground arith)
        (λ _.
          if_intro (IsCounted c) (refuses c rs s) (λ _. ground arith)
            (λ _.
              let t = enqueue rs s in
              let w = queued-IsCounted c rs s v in
              if_intro (IsCounted c) (starts_at_once c t) (λ _. start_available-IsCounted c t w)
                (λ _. schedule_flush-IsCounted c (insert_delay c t) t w)))

  fire-IsCounted : (c : Config) (h : ℕ) (s : State R) → IsCounted c s → IsCounted c (fire c h s)
  unfolding fire flush
  fire-IsCounted c h s v =
      if_intro (IsCounted c) (has_timer h s.timers)
        (λ _. start_available-IsCounted c _ (ground arith)) (λ _. v)

  deliver-IsCounted :
      (c : Config) (i : ℕ) (o : Outcome) (s : State R) → IsCounted c s → IsCounted c (deliver i o s)
  unfolding deliver
  deliver-IsCounted c i o s v = elim (Option-cases (get_elem? s.running i)) [
    | inl e ↦ rw (e, deliver) v
    | inr (flight, e) ↦ rw (e, deliver) (ground (arith, length-remove_at s.running i e))
  ]

  settle_close-IsCounted : (c : Config) (s : State R) → IsCounted c s → IsCounted c (settle_close s)
  unfolding settle_close
  settle_close-IsCounted c s v = ground arith

  write_done-IsCounted :
      (c : Config) (s : State R)
      → s.delivered == 0 ≡ false
      → IsCounted c s
      → IsCounted c (write_done s)
  unfolding write_done
  write_done-IsCounted c s e v = ground arith

  finish-IsCounted : (c : Config) (s : State R) → IsCounted c s → IsCounted c (finish c s)
  unfolding finish
  finish-IsCounted c s v =
      if_intro (IsCounted c) (s.delivered == 0) (λ _. v)
        (λ e.
          let t = write_done s in
          let w = write_done-IsCounted c s e v in
          settle_close-IsCounted c _ (
            if_intro (IsCounted c) (is_empty t.pending) (λ _. w)
              (λ _. schedule_flush-IsCounted c (flush_delay c t) t w)))

  clear_flush-IsCounted : (c : Config) (s : State R) → IsCounted c s → IsCounted c (clear_flush s)
  unfolding clear_flush cancel_flush
  clear_flush-IsCounted c s v = ground arith

  close-IsCounted : (c : Config) (s : State R) → IsCounted c s → IsCounted c (close c s)
  unfolding close close_now await_close
  close-IsCounted c s v =
      let t = clear_flush (record s { closed = true }) in
      let w =
        start_available-IsCounted c t
          (clear_flush-IsCounted c (record s { closed = true }) (ground arith)) in
      if_intro (IsCounted c) (s.closed && is_drained s) (λ _. ground arith)
        (λ _.
          if_intro (IsCounted c) (is_drained (start_available_writes c t)) (λ _. ground (arith, w))
            (λ _. ground (arith, w)))

  pub step-IsCounted :
      (c : Config) (s : State R) (e : Event R) → IsCounted c s → IsCounted c (step c s e)
  unfolding step
  step-IsCounted c s (insert_call records) v = insert-IsCounted c records s v
  step-IsCounted c s close_call v = close-IsCounted c s v
  step-IsCounted c s (timer_fires h) v = fire-IsCounted c h s v
  step-IsCounted c s (write_settles i o) v = deliver-IsCounted c i o s v
  step-IsCounted c s write_finishes v = finish-IsCounted c s v
