-- ===== src/Ingestion/Batch/Progress.antt =====
-- The queue gets empty: what the event loop may run brings it closer, and until it is drained
-- there is always something to run.
use log_stream.Base.{
  ℕ, zero, suc, ◌+◌, ◌*◌, ◌≤◌, ◌<◌, ◌≡◌, refl, sym, ap, subst, ◌∙◌, inl, inr, true, false, not,
  ◌&&◌, List, [], ◌∷◌, some, arith, ltb, ◌==◌, if◌then◌else◌, if_intro, length, length-append,
  length-remove_at, is_empty, get_elem?, Option-cases, is_empty→eq,
}
use log_stream.Ingestion.Batch.State.{Config, State, Flight, Outcome, resolved}
use log_stream.Ingestion.Batch.Take.Laws.{take_batch_moves}
use log_stream.Ingestion.Batch.Flush.Laws.{start_loop_keeps}
use log_stream.Ingestion.Batch.Flush.{
  start_batch, can_start, start_loop, schedule_flush, reschedule, start_available_writes, flush,
  flush_delay, cancel_flush, set_timer, start_write, has_timer,
}
use log_stream.Ingestion.Batch.Events.{
  is_drained, settle_close, write_done, deliver, finish, fire, step, run, Event, insert_call,
  close_call, timer_fires, write_settles, write_finishes,
}
use log_stream.Ingestion.Batch.Invariant.{IsArmed, Timers, is_some, Inv}
use log_stream.Ingestion.Batch.Safety.{step-Inv}

module _ {R : Type 0} where
  -- What is left to do: three turns for a queued write at most, two for a running call, one for a
  -- settled call whose `finally` waits.
  abbrev pub work : State R → ℕ
  work s = 3 * length s.pending + 2 * length s.running + s.delivered

  -- The events that the event loop may run in `s`, calls of a client apart.
  pub data Enabled (s : State R) : Event R → Type 0 where
    timer : (h : ℕ) → has_timer h s.timers ≡ true → Enabled s (timer_fires h)
    reply :
        (i : ℕ) (o : Outcome) (f : Flight R)
        → get_elem? s.running i ≡ some f
        → Enabled s (write_settles i o)
    finally : 0 < s.delivered → Enabled s write_finishes

  start_batch-work :
      (c : Config) (s : State R) → can_start c s ≡ true → work (start_batch c s) < work s
  unfolding start_batch start_write can_start
  start_batch-work c s h =
      let moved : is_empty s.pending ≡ false = ground arith in
      omega (
        arith,
        take_batch_moves c.max_batch_rows s.pending s.queued_rows moved,
        length-append {0} s.running,
      )

  start_loop-work : (n : ℕ) (c : Config) (s : State R) → work (start_loop n c s) ≤ work s
  start_loop-work n c s =
      start_loop_keeps (λ t. work t ≤ work s) c (λ t e h. omega (arith, start_batch-work c t e)) n s
        (omega arith)

  start_loop_moves :
      (n : ℕ) (c : Config) (s : State R)
      → 0 < n
      → can_start c s ≡ true
      → work (start_loop n c s) < work s
  unfolding start_loop
  start_loop_moves zero c s h e = elim h [ ]
  start_loop_moves (suc n) c s h e = rw e (
      if_intro (λ (t : State R). work t < work s)
        (not (start_batch c s).closed && ltb (start_batch c s).queued_rows c.max_batch_rows)
        (λ _. start_batch-work c s e)
        (λ _. omega (arith, start_batch-work c s e, start_loop-work n c (start_batch c s))))

  length_pending : (c : Config) (s : State R) → can_start c s ≡ true → 0 < length s.pending
  unfolding can_start
  length_pending c s e = grind arith

  start_loop_progress :
      (c : Config) (s : State R)
      → can_start c s ≡ true
      → work (start_loop (length s.pending) c s) < work s
  start_loop_progress c s e = start_loop_moves (length s.pending) c s (length_pending c s e) e

  schedule_flush-work : (c : Config) (d : ℕ) (s : State R) → work (schedule_flush c d s) ≡ work s
  unfolding schedule_flush set_timer cancel_flush
  schedule_flush-work c d s = ground arith

  start_available-work :
      (c : Config) (s : State R) → can_start c s ≡ true → work (start_available_writes c s) < work s
  unfolding start_available_writes reschedule
  start_available-work c s e =
      let t = start_loop (length s.pending) c s in
      if_intro (λ (u : State R). work u < work s) (can_start c t)
        (λ _. rw (schedule_flush-work c (flush_delay c t) t) (start_loop_progress c s e))
        (λ _. start_loop_progress c s e)

  -- A live timer means that a write can start.
  live_timer :
      (c : Config) (h : ℕ) (s : State R)
      → IsArmed c s
      → has_timer h s.timers ≡ true
      → can_start c s ≡ true
  unfolding has_timer
  live_timer c h s a e = elim (Option-cases s.scheduled_flush) [
    | inl d ↦ absurd (ground (arith, subst (λ x. Timers x s.timers) d a.timer))
    | inr (i, d) ↦ sym a.armed ∙ ap is_some d
  ]

  fire-work :
      (c : Config) (h : ℕ) (s : State R)
      → IsArmed c s
      → has_timer h s.timers ≡ true
      → work (fire c h s) < work s
  unfolding fire flush
  fire-work c h s a e = rw e (start_available-work c _ (unfold can_start in live_timer c h s a e))

  settle_close-work : (s : State R) → work (settle_close s) ≡ work s
  unfolding settle_close
  settle_close-work s = ground arith

  finish-work : (c : Config) (s : State R) → 0 < s.delivered → work (finish c s) < work s
  unfolding finish write_done
  finish-work c s h =
      let t = write_done s in
      if_intro (λ (u : State R). work u < work s) (s.delivered == 0) (λ e. absurd (ground arith))
        (λ _.
          rw
            (settle_close-work
              (if is_empty t.pending then t else schedule_flush c (flush_delay c t) t))
            (if_intro (λ (u : State R). work u < work s) (is_empty t.pending) (λ _. omega arith)
              (λ _. rw (schedule_flush-work c (flush_delay c t) t) (omega arith))))

  -- Each event that the event loop runs leaves less work.
  pub Enabled-work :
      (c : Config) (s : State R) (e : Event R) → Inv c s → Enabled s e → work (step c s e) < work s
  unfolding step deliver
  Enabled-work c s (insert_call rs) v x = elim x [ ]
  Enabled-work c s close_call v x = elim x [ ]
  Enabled-work c s (timer_fires i) v (timer h e) = fire-work c h s v.armed e
  Enabled-work c s (write_settles i' o') v (reply i o f e) =
      rw (e, deliver) (omega (arith, length-remove_at s.running i e))
  Enabled-work c s write_finishes v (finally h) = finish-work c s h

  -- Nothing may run in `s` until a client calls.
  abbrev pub IsQuiet : State R → Type 0
  IsQuiet s = (e : Event R) → ¬ Enabled s e

  quiet_timer : (c : Config) (s : State R) → IsArmed c s → IsQuiet s → can_start c s ≡ false
  unfolding has_timer
  quiet_timer c s a q = elim (Option-cases s.scheduled_flush) [
    | inl d ↦ sym a.armed ∙ ap is_some d
    | inr (h, d) ↦
        let (t, f) = subst (λ x. Timers x s.timers) d a.timer in
        absurd (q (timer_fires h) (timer h (rw f (ground arith))))
  ]

  quiet_running : (s : State R) → IsQuiet s → s.running ≡ []
  quiet_running s q = go s.running refl
    where
      go : (fs : List (Flight R)) → s.running ≡ fs → fs ≡ []
      go [] e = refl
      go (f ∷ fs) e = absurd (q (write_settles 0 resolved) (reply 0 resolved f (rw e)))

  quiet_delivered : (s : State R) → IsQuiet s → s.delivered ≡ 0
  quiet_delivered s q = go s.delivered refl
    where
      go : (n : ℕ) → s.delivered ≡ n → n ≡ 0
      go zero e = refl
      go (suc n) e = absurd (q write_finishes (finally (omega (arith, e))))

  -- Where the event loop has nothing left to run, the queue is drained.
  pub quiet-is_drained :
      (c : Config) (s : State R)
      → 0 < c.max_concurrent_writes
      → Inv c s
      → IsQuiet s
      → (s.pending ≡ []) × (s.running ≡ []) × (is_drained s ≡ true)
  unfolding is_drained can_start
  quiet-is_drained c s pos v q =
      let r = quiet_running s q in
      let d = quiet_delivered s q in
      let z : s.active_writes ≡ 0 = omega (arith, v.counted.active, ap length r, d) in
      let e : is_empty s.pending ≡ true = ground (arith, quiet_timer c s v.armed q) in
      (is_empty→eq s.pending e, r, ground arith)

  -- A run of the event loop with no call of a client in it.
  abbrev pub AllEnabled : Config → State R → List (Event R) → Type 0
  AllEnabled c s [] = Unit
  AllEnabled c s (e ∷ es) = Enabled s e × AllEnabled c (step c s e) es

  -- Between two calls of clients the event loop runs at most `work s` events.
  pub AllEnabled-length :
      (c : Config) (es : List (Event R)) (s : State R)
      → Inv c s
      → AllEnabled c s es
      → length es + work (run c s es) ≤ work s
  unfolding run
  AllEnabled-length c [] s v h = omega arith
  AllEnabled-length c (e ∷ es) s v h =
      let t = step c s e in
      omega (arith, Enabled-work c s e v h.0, AllEnabled-length c es t (step-Inv c s e v) h.1)
