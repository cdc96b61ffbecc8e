-- ===== src/Ingestion/Batch/Backlog.antt =====
-- How much the queue holds.
use log_stream.Base.{
  ℕ, ◌+◌, ◌-◌, ◌≤◌, ◌<◌, ◌≡◌, refl, ◌∙◌, ◌⊎◌, inl, inr, Bool, true, false, not, ◌&&◌, ◌||◌, List,
  [], ◌∷◌, ◌++◌, arith, ltb, leb, ◌==◌, if_intro, All, All-append, length, is_empty, get_elem?,
  Option-cases,
}
use log_stream.Ingestion.Batch.State.{
  Config, State, PendingWrite, Outcome, initial, total_rows, total_rows-append, size,
}
use log_stream.Ingestion.Batch.Take.{Taken, take_batch}
use log_stream.Ingestion.Batch.Flush.Laws.{start_loop_keeps}
use log_stream.Ingestion.Batch.Flush.{
  start_batch, can_start, start_loop, schedule_flush, reschedule, start_available_writes, flush,
  flush_delay, cancel_flush, set_timer, start_write, has_timer,
}
use log_stream.Ingestion.Batch.Events.{
  is_drained, insert, starts_at_once, insert_delay, accept, refuses, settle, enqueue, settle_close,
  write_done, close_now, await_close, clear_flush, close, deliver, finish, fire, step, run, Event,
  insert_call, close_call, timer_fires, write_settles, write_finishes,
}
use log_stream.Ingestion.Batch.Invariant.{Inv}
use log_stream.Ingestion.Batch.Safety.{step-Inv, initial-Inv}

module _ {R : Type 0} where
  -- The queue is within its limit of rows unless it is a single write, and no write is empty.
  abbrev pub IsBounded : Config → List (PendingWrite R) → Type 0
  IsBounded c ws =
      ((total_rows ws ≤ c.max_queued_rows) ⊎ (length ws ≤ 1)) × All (λ w. 0 < length w.records) ws

  IsBounded-tail :
      (c : Config) (w : PendingWrite R) (ws : List (PendingWrite R))
      → IsBounded c (w ∷ ws)
      → IsBounded c ws
  IsBounded-tail c w ws (b, h) = (ground arith, h.1)

  IsBounded-rest :
      (c : Config) (most : ℕ) (ws acc : List (PendingWrite R)) (rows queued : ℕ)
      → IsBounded c ws
      → IsBounded c (take_batch most ws acc rows queued).rest
  unfolding take_batch
  IsBounded-rest c most [] acc rows queued b = b
  IsBounded-rest c most (w ∷ ws) acc rows queued b =
      let b' = IsBounded-tail c w ws b in
      if_intro (λ (t : Taken R). IsBounded c t.rest)
        (not (is_empty acc) && ltb most (rows + size w)) (λ _. b)
        (λ _.
          if_intro (λ (t : Taken R). IsBounded c t.rest) (leb most (rows + size w)) (λ _. b')
            (λ _. IsBounded-rest c most ws (acc ++ w ∷ []) (rows + size w) (queued - size w) b'))

  start_loop-IsBounded :
      (n : ℕ) (c : Config) (s : State R)
      → IsBounded c s.pending
      → IsBounded c (start_loop n c s).pending
  unfolding start_batch start_write
  start_loop-IsBounded n c =
      start_loop_keeps (λ t. IsBounded c t.pending) c
        (λ t _ b. IsBounded-rest c c.max_batch_rows t.pending [] 0 t.queued_rows b) n

  schedule_flush-pending :
      (c : Config) (d : ℕ) (s : State R) → (schedule_flush c d s).pending ≡ s.pending
  unfolding schedule_flush set_timer cancel_flush
  schedule_flush-pending c d s = ground arith

  schedule_flush-IsBounded :
      (c : Config) (d : ℕ) (s : State R)
      → IsBounded c s.pending
      → IsBounded c (schedule_flush c d s).pending
  schedule_flush-IsBounded c d s b = rw (schedule_flush-pending c d s) b

  start_available-IsBounded :
      (c : Config) (s : State R)
      → IsBounded c s.pending
      → IsBounded c (start_available_writes c s).pending
  unfolding start_available_writes reschedule
  start_available-IsBounded c s b =
      let t = start_loop (length s.pending) c s in
      let k = start_loop-IsBounded (length s.pending) c s b in
      if_intro (λ (u : State R). IsBounded c u.pending) (can_start c t)
        (λ _. schedule_flush-IsBounded c (flush_delay c t) t k) (λ _. k)

  -- With rows in the queue the refusal keeps the limit; with none there is no write in it.
  grown :
      (c : Config) (rs : List R) (ws : List (PendingWrite R)) (closed : Bool) (queued p : ℕ)
      → queued ≡ total_rows ws
      → (closed || (ltb 0 queued && ltb c.max_queued_rows (queued + length rs))) ≡ false
      → IsBounded c ws
      → (total_rows (ws ++ record { records = rs; promise = p } ∷ []) ≤ c.max_queued_rows)
        ⊎ (length (ws ++ record { records = rs; promise = p } ∷ []) ≤ 1)
  grown c rs [] closed queued p e g b = inr (omega arith)
  grown c rs (w ∷ ws) closed queued p e g b =
      inl (ground (arith, total_rows-append ws (record { records = rs; promise = p } ∷ [])))

  accept-IsBounded :
      (c : Config) (rs : List R) (s : State R)
      → s.queued_rows ≡ total_rows s.pending
      → is_empty rs ≡ false
      → refuses c rs s ≡ false
      → IsBounded c s.pending
      → IsBounded c (accept c rs s).pending
  unfolding accept enqueue refuses
  accept-IsBounded c rs s e f g b =
      let t = enqueue rs s in
      let k : IsBounded c t.pending = (
        grown c rs s.pending s.closed s.queued_rows s.next_promise e g b,
        All-append (λ w. 0 < length w.records) s.pending _ b.1 (nonempty rs f, tt),
      ) in
      if_intro (λ (u : State R). IsBounded c u.pending) (starts_at_once c t)
        (λ _. start_available-IsBounded c t k)
        (λ _. schedule_flush-IsBounded c (insert_delay c t) t k)
    where
      nonempty : (xs : List R) → is_empty xs ≡ false → 0 < length xs
      nonempty [] h = cc
      nonempty (x ∷ xs) h = omega arith

  insert-IsBounded :
      (c : Config) (rs : List R) (s : State R)
      → s.queued_rows ≡ total_rows s.pending
      → IsBounded c s.pending
      → IsBounded c (insert c rs s).pending
  unfolding insert settle
  insert-IsBounded c rs s e b =
      if_intro (λ (u : State R). IsBounded c u.pending) (is_empty rs) (λ _. b)
        (λ f.
          if_intro (λ (u : State R). IsBounded c u.pending) (refuses c rs s) (λ _. b)
            (λ g. accept-IsBounded c rs s e f g b))

  fire-IsBounded :
      (c : Config) (h : ℕ) (s : State R) → IsBounded c s.pending → IsBounded c (fire c h s).pending
  unfolding fire flush
  fire-IsBounded c h s b =
      if_intro (λ (u : State R). IsBounded c u.pending) (has_timer h s.timers)
        (λ _. start_available-IsBounded c _ b) (λ _. b)

  deliver-IsBounded :
      (c : Config) (i : ℕ) (o : Outcome) (s : State R)
      → IsBounded c s.pending
      → IsBounded c (deliver i o s).pending
  unfolding deliver
  deliver-IsBounded c i o s b = elim (Option-cases (get_elem? s.running i)) [
    | inl e ↦ rw (e, deliver) b
    | inr (flight, e) ↦ rw (e, deliver) b
  ]

  settle_close-pending : (s : State R) → (settle_close s).pending ≡ s.pending
  unfolding settle_close
  settle_close-pending s = ground arith

  finish-pending : (c : Config) (s : State R) → (finish c s).pending ≡ s.pending
  unfolding finish write_done
  finish-pending c s =
      let t = write_done s in
      if_intro (λ (u : State R). u.pending ≡ s.pending) (s.delivered == 0) (λ _. refl)
        (λ _.
          settle_close-pending _
          ∙ if_intro (λ (u : State R). u.pending ≡ s.pending) (is_empty t.pending) (λ _. refl)
              (λ _. schedule_flush-pending c (flush_delay c t) t))

  close-IsBounded :
      (c : Config) (s : State R) → IsBounded c s.pending → IsBounded c (close c s).pending
  unfolding close close_now await_close
  close-IsBounded c s b =
      let t = clear_flush (record s { closed = true }) in
      let u = start_available_writes c t in
      let e : t.pending ≡ s.pending = unfold clear_flush cancel_flush in ground arith in
      let k = start_available-IsBounded c t (rw e b) in
      if_intro (λ (u : State R). IsBounded c u.pending) (s.closed && is_drained s) (λ _. b)
        (λ _. if_intro (λ (u : State R). IsBounded c u.pending) (is_drained u) (λ _. k) (λ _. k))

  step-IsBounded :
      (c : Config) (s : State R) (e : Event R)
      → Inv c s
      → IsBounded c s.pending
      → IsBounded c (step c s e).pending
  unfolding step
  step-IsBounded c s (insert_call records) v b = insert-IsBounded c records s v.counted.rows b
  step-IsBounded c s close_call v b = close-IsBounded c s b
  step-IsBounded c s (timer_fires i) v b = fire-IsBounded c i s b
  step-IsBounded c s (write_settles i o) v b = deliver-IsBounded c i o s b
  step-IsBounded c s write_finishes v b = rw (finish-pending c s) b

  run-IsBounded :
      (c : Config) (es : List (Event R)) (s : State R)
      → Inv c s
      → IsBounded c s.pending
      → IsBounded c (run c s es).pending
  unfolding run
  run-IsBounded c [] s v b = b
  run-IsBounded c (e ∷ es) s v b =
      run-IsBounded c es (step c s e) (step-Inv c s e v) (step-IsBounded c s e v b)

  -- After every history of events the queue holds at most `maxQueuedRows` rows, or a single write,
  -- and no write in it is empty.
  pub run-initial-IsBounded :
      (c : Config) (es : List (Event R)) → IsBounded c (run c initial es).pending
  unfolding initial
  run-initial-IsBounded c es = run-IsBounded c es initial (initial-Inv c) (inl (omega arith), tt)
