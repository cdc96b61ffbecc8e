-- ===== src/Ingestion/Batch/Invariant/Closing.antt =====
-- The promises of `close`, over each event.
use log_stream.Base.{
  ℕ, ◌≡◌, ◌∙◌, ◌⊎◌, inl, inr, true, false, List, [], arith, length, is_empty-append, if_intro,
  is_empty, get_elem?, Option-cases, ◌==◌, ◌&&◌,
}
use log_stream.Ingestion.Batch.State.{Config, State, Outcome}
use log_stream.Ingestion.Batch.Flush.Laws.{start_loop_keeps, start_loop-Frame}
use log_stream.Ingestion.Batch.Flush.{
  start_batch, can_start, start_loop, schedule_flush, reschedule, start_available_writes, flush,
  has_timer, flush_delay, cancel_flush, set_timer, start_write,
}
use log_stream.Ingestion.Batch.Events.{
  is_drained, insert, starts_at_once, insert_delay, accept, refuses, settle, enqueue, write_of,
  settle_close, write_done, close_now, await_close, clear_flush, close, deliver, finish, fire, step,
  Event, insert_call, close_call, timer_fires, write_settles, write_finishes,
}
use log_stream.Ingestion.Batch.Invariant.{CloseWaits}

module _ {R : Type 0} where
  -- What a change keeps that leaves the waiters alone and ends no wait.
  CloseWaits-frame :
      (s t : State R)
      → t.close_waiters ≡ s.close_waiters
      → (s.closed ≡ true → t.closed ≡ true)
      → (is_drained s ≡ false → is_drained t ≡ false)
      → CloseWaits s
      → CloseWaits t
  CloseWaits-frame s t e f g w = ground (arith, f, g)

  -- Counting what waits or runs: a started batch moves writes from one to the other.
  start_batch-busy : (c : Config) (s : State R) → is_drained (start_batch c s) ≡ false
  unfolding start_batch start_write is_drained
  start_batch-busy c s = ground arith

  start_loop-busy :
      (n : ℕ) (c : Config) (s : State R)
      → is_drained s ≡ false
      → is_drained (start_loop n c s) ≡ false
  start_loop-busy n c =
      start_loop_keeps (λ t. is_drained t ≡ false) c (λ t _ _. start_batch-busy c t) n

  schedule_flush_parts :
      (c : Config) (d : ℕ) (s : State R)
      → ((schedule_flush c d s).close_waiters ≡ s.close_waiters)
        × ((schedule_flush c d s).closed ≡ s.closed)
        × ((schedule_flush c d s).pending ≡ s.pending)
        × ((schedule_flush c d s).active_writes ≡ s.active_writes)
  unfolding schedule_flush set_timer cancel_flush
  schedule_flush_parts c d s = ground arith

  schedule_flush-CloseWaits :
      (c : Config) (d : ℕ) (s : State R) → CloseWaits s → CloseWaits (schedule_flush c d s)
  unfolding is_drained
  schedule_flush-CloseWaits c d s w = ground (arith, schedule_flush_parts c d s)

  reschedule-CloseWaits : (c : Config) (s : State R) → CloseWaits s → CloseWaits (reschedule c s)
  unfolding reschedule
  reschedule-CloseWaits c s w =
      if_intro CloseWaits (can_start c s) (λ _. schedule_flush-CloseWaits c (flush_delay c s) s w)
        (λ _. w)

  start_available-CloseWaits :
      (c : Config) (s : State R) → CloseWaits s → CloseWaits (start_available_writes c s)
  unfolding start_available_writes
  start_available-CloseWaits c s w =
      let n = length s.pending in
      let f = start_loop-Frame n c s in
      reschedule-CloseWaits c _ (
        CloseWaits-frame s (start_loop n c s) f.waiters (λ e. f.closed ∙ e) (start_loop-busy n c s)
          w)

  enqueue-CloseWaits : (rs : List R) (s : State R) → CloseWaits s → CloseWaits (enqueue rs s)
  unfolding enqueue is_drained
  enqueue-CloseWaits rs s w = ground (arith, is_empty-append s.pending (write_of rs s) [])

  accept-CloseWaits :
      (c : Config) (rs : List R) (s : State R) → CloseWaits s → CloseWaits (accept c rs s)
  unfolding accept
  accept-CloseWaits c rs s w =
      let t = enqueue rs s in
      let v = enqueue-CloseWaits rs s w in
      if_intro CloseWaits (starts_at_once c t) (λ _. start_available-CloseWaits c t v)
        (λ _. schedule_flush-CloseWaits c (insert_delay c t) t v)

  insert-CloseWaits :
      (c : Config) (rs : List R) (s : State R) → CloseWaits s → CloseWaits (insert c rs s)
  unfolding insert settle is_drained
  insert-CloseWaits c rs s w =
      if_intro CloseWaits (is_empty rs) (λ _. w)
        (λ _. if_intro CloseWaits (refuses c rs s) (λ _. w) (λ _. accept-CloseWaits c rs s w))

  fire-CloseWaits : (c : Config) (h : ℕ) (s : State R) → CloseWaits s → CloseWaits (fire c h s)
  unfolding fire flush is_drained
  fire-CloseWaits c h s w =
      if_intro CloseWaits (has_timer h s.timers) (λ _. start_available-CloseWaits c _ w) (λ _. w)

  deliver-CloseWaits :
      (i : ℕ) (o : Outcome) (s : State R) → CloseWaits s → CloseWaits (deliver i o s)
  unfolding deliver is_drained
  deliver-CloseWaits i o s w = elim (Option-cases (get_elem? s.running i)) [
    | inl e ↦ rw (e, deliver) w
    | inr (flight, e) ↦ rw (e, deliver) w
  ]

  -- `settle_close` needs to know only that nobody waits before `close`.
  settle_close-CloseWaits :
      (s : State R)
      → (is_empty s.close_waiters ≡ true) ⊎ (s.closed ≡ true)
      → CloseWaits (settle_close s)
  unfolding settle_close is_drained
  settle_close-CloseWaits s w = ground arith

  finish-CloseWaits : (c : Config) (s : State R) → CloseWaits s → CloseWaits (finish c s)
  unfolding finish write_done
  finish-CloseWaits c s w =
      if_intro CloseWaits (s.delivered == 0) (λ _. w)
        (λ _. settle_close-CloseWaits _ (
          if_intro (λ (t : State R). (is_empty t.close_waiters ≡ true) ⊎ (t.closed ≡ true))
            (is_empty s.pending) (λ _. ground (arith))
            (λ _.
              ground
                (arith, schedule_flush_parts c (flush_delay c (write_done s)) (write_done s)))))

  start_available-closed :
      (c : Config) (s : State R) → (start_available_writes c s).closed ≡ s.closed
  unfolding start_available_writes reschedule
  start_available-closed c s =
      let t = start_loop (length s.pending) c s in
      let f = start_loop-Frame (length s.pending) c s in
      if_intro (λ (u : State R). u.closed ≡ s.closed) (can_start c t)
        (λ _. (schedule_flush_parts c (flush_delay c t) t).1 ∙ f.closed) (λ _. f.closed)

  clear_flush-CloseWaits : (s : State R) → CloseWaits s → CloseWaits (clear_flush s)
  unfolding clear_flush cancel_flush is_drained
  clear_flush-CloseWaits s w = ground arith

  clear_flush-closed : (s : State R) → (clear_flush s).closed ≡ s.closed
  unfolding clear_flush cancel_flush
  clear_flush-closed s = ground arith

  close-CloseWaits : (c : Config) (s : State R) → CloseWaits s → CloseWaits (close c s)
  unfolding close close_now await_close is_drained
  close-CloseWaits c s w =
      let s' = record s { closed = true } in
      let t = clear_flush s' in
      let u = start_available_writes c t in
      let v = start_available-CloseWaits c t (clear_flush-CloseWaits s' (ground arith)) in
      if_intro CloseWaits (s.closed && is_drained s) (λ _. w)
        (λ _.
          if_intro CloseWaits (is_drained u) (λ _. v)
            (λ busy. inr (start_available-closed c t ∙ clear_flush-closed s', busy)))

  pub step-CloseWaits :
      (c : Config) (s : State R) (e : Event R) → CloseWaits s → CloseWaits (step c s e)
  unfolding step
  step-CloseWaits c s (insert_call records) w = insert-CloseWaits c records s w
  step-CloseWaits c s close_call w = close-CloseWaits c s w
  step-CloseWaits c s (timer_fires h) w = fire-CloseWaits c h s w
  step-CloseWaits c s (write_settles i o) w = deliver-CloseWaits i o s w
  step-CloseWaits c s write_finishes w = finish-CloseWaits c s w
