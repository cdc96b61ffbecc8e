-- ===== src/Ingestion/Batch/Flush/Laws.antt =====
-- The loop of `startAvailableWrites`: an induction rule, and what it leaves alone.
use log_stream.Base.{
  ℕ, zero, suc, ◌≡◌, refl, inl, inr, true, false, not, ◌&&◌, arith, ltb, Bool-cases, length,
  is_empty, ◌≤◌, ◌<◌, sym, ap, ◌∙◌, if◌then◌else◌,
}
use log_stream.Ingestion.Batch.Take.Laws.{take_batch_moves}
use log_stream.Ingestion.Batch.State.{Config, State}
use log_stream.Ingestion.Batch.Flush.{start_batch, start_write, can_start, start_loop}

module _ {R : Type 0} where
  -- What each started batch keeps, the loop keeps.
  pub start_loop_keeps {ℓ} :
      (P : State R → Type ℓ) (c : Config)
      → ((s : State R) → can_start c s ≡ true → P s → P (start_batch c s))
      → (n : ℕ) (s : State R) → P s
      → P (start_loop n c s)
  unfolding start_loop
  start_loop_keeps P c keep zero s p = p
  start_loop_keeps P c keep (suc n) s p = elim (Bool-cases (can_start c s)) [
    | inr e ↦ rw e p
    | inl e ↦
        elim (Bool-cases
          (not (start_batch c s).closed && ltb (start_batch c s).queued_rows c.max_batch_rows)) [
            | inl d ↦ rw (e, d) (keep s e p)
            | inr d ↦ rw (e, d) (start_loop_keeps P c keep n (start_batch c s) (keep s e p))
          ]
  ]

  -- The variables that the loop does not write.
  pub record Frame (s t : State R) : Type 0 where
    pub scheduled : t.scheduled_flush ≡ s.scheduled_flush
    pub timers : t.timers ≡ s.timers
    pub closed : t.closed ≡ s.closed
    pub waiters : t.close_waiters ≡ s.close_waiters
    pub settled : t.settled ≡ s.settled
    pub promise : t.next_promise ≡ s.next_promise
    pub delivered : t.delivered ≡ s.delivered

  start_batch-Frame : (c : Config) (s t : State R) → Frame s t → Frame s (start_batch c t)
  unfolding start_batch start_write
  start_batch-Frame c s t f = record {
    scheduled = f.scheduled;
    timers = f.timers;
    closed = f.closed;
    waiters = f.waiters;
    settled = f.settled;
    promise = f.promise;
    delivered = f.delivered;
  }

  pub start_loop-Frame : (n : ℕ) (c : Config) (s : State R) → Frame s (start_loop n c s)
  start_loop-Frame n c s =
      start_loop_keeps (Frame s) c (λ t e f. start_batch-Frame c s t f) n s
        (record {
          scheduled = refl;
          timers = refl;
          closed = refl;
          waiters = refl;
          settled = refl;
          promise = refl;
          delivered = refl;
        })

  start_batch-shorter :
      (c : Config) (s : State R)
      → can_start c s ≡ true
      → length (start_batch c s).pending < length s.pending
  unfolding start_batch start_write can_start
  start_batch-shorter c s h =
      let busy : is_empty s.pending ≡ false = ground arith in
      omega (arith, take_batch_moves c.max_batch_rows s.pending s.queued_rows busy)

  no_pending : (c : Config) (s : State R) → length s.pending ≤ 0 → can_start c s ≡ false
  unfolding can_start
  no_pending c s h = grind arith

  start_loop_stops :
      (n : ℕ) (c : Config) (s : State R) → can_start c s ≡ false → start_loop n c s ≡ s
  unfolding start_loop
  start_loop_stops zero c s h = refl
  start_loop_stops (suc n) c s h = rw h

  -- One round for each queued write is enough for the loop of `startAvailableWrites`: with more
  -- rounds it ends in the same state.
  pub start_loop_enough :
      (n m : ℕ) (c : Config) (s : State R)
      → length s.pending ≤ n
      → length s.pending ≤ m
      → start_loop n c s ≡ start_loop m c s
  unfolding start_loop
  start_loop_enough zero m c s h k =
      let e = no_pending c s h in start_loop_stops 0 c s e ∙ sym (start_loop_stops m c s e)
  start_loop_enough n zero c s h k =
      let e = no_pending c s k in start_loop_stops n c s e ∙ sym (start_loop_stops 0 c s e)
  start_loop_enough (suc n) (suc m) c s h k = elim (Bool-cases (can_start c s)) [
    | inr e ↦ start_loop_stops (suc n) c s e ∙ sym (start_loop_stops (suc m) c s e)
    | inl e ↦
        let t = start_batch c s in
        let less = start_batch-shorter c s e in
        rw (e, start_loop)
          (ap (λ later. if not t.closed && ltb t.queued_rows c.max_batch_rows then t else later)
            (start_loop_enough n m c t (omega arith) (omega arith)))
  ]
