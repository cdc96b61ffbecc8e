-- ===== src/Ingestion/Batch/Promises.antt =====
-- Every promise of `insert` is in one place: queued, in a running write, or settled.
use log_stream.Base.{
  ℕ, ◌+◌, ◌≡◌, refl, ap, ◌∙◌, true, ◌&&◌, List, [], ◌∷◌, inl, inr, arith, ◌==◌, if◌then◌else◌,
  if_intro, count, count-append, length, is_empty, get_elem?, Option-cases,
}
use log_stream.Ingestion.Batch.State.{
  Config, State, Outcome, resolved, overloaded, settle_all, initial,
}
use log_stream.Ingestion.Batch.Places.{
  settled_ids, settled_ids-append, settled_ids-settle_all, ids, places, HasPromises,
  count-ids-append, count-flights-append, count-flights-remove_at,
}
use log_stream.Ingestion.Batch.Take.{take_batch}
use log_stream.Ingestion.Batch.Take.Laws.{writes-rest}
use log_stream.Ingestion.Batch.Flush.Laws.{start_loop_keeps, start_loop-Frame}
use log_stream.Ingestion.Batch.Flush.{
  start_batch, can_start, start_loop, schedule_flush, reschedule, start_available_writes, flush,
  flush_delay, cancel_flush, set_timer, start_write, has_timer,
}
use log_stream.Ingestion.Batch.Events.{
  is_drained, insert, starts_at_once, insert_delay, accept, refuses, settle, enqueue, write_of,
  settle_close, keeps_waiting, write_done, close_now, await_close, clear_flush, close, deliver,
  finish, fire, step, run, Event, insert_call, close_call, timer_fires, write_settles,
  write_finishes,
}

pub initial-HasPromises : (R : Type 0) → HasPromises (initial {R = R})
unfolding initial
initial-HasPromises R p = ground arith

module _ {R : Type 0} where
  places-start_batch : (c : Config) (p : ℕ) (s : State R) → places p (start_batch c s) ≡ places p s
  unfolding start_batch start_write
  places-start_batch c p s =
      let taken = take_batch c.max_batch_rows s.pending [] 0 s.queued_rows in
      omega (
        arith,
        count-flights-append p s.running,
        count-append p (ids taken.writes) [],
        count-ids-append p taken.writes taken.rest,
        ap (λ ws. count p (ids ws)) (writes-rest c.max_batch_rows s.pending [] 0 s.queued_rows),
      )

  -- An event that issues no promise keeps their places.
  SamePromises : State R → State R → Type 0
  SamePromises s t = (t.next_promise ≡ s.next_promise) × ((p : ℕ) → places p t ≡ places p s)

  start_loop_same : (n : ℕ) (c : Config) (s : State R) → SamePromises s (start_loop n c s)
  unfolding SamePromises
  start_loop_same n c s =
      let f = start_loop-Frame n c s in
      (
        f.promise,
        start_loop_keeps (λ t. (p : ℕ) → places p t ≡ places p s) c
            (λ t _ h p. places-start_batch c p t ∙ h p) n s (λ p. refl),
      )

  schedule_flush_same : (c : Config) (d : ℕ) (s : State R) → SamePromises s (schedule_flush c d s)
  unfolding SamePromises schedule_flush set_timer cancel_flush
  schedule_flush_same c d s = (ground arith, λ p. ground arith)

  same_trans : (s t u : State R) → SamePromises s t → SamePromises t u → SamePromises s u
  unfolding SamePromises
  same_trans s t u (e, f) (g, h) = (g ∙ e, λ p. h p ∙ f p)

  reschedule_same : (c : Config) (s : State R) → SamePromises s (reschedule c s)
  unfolding reschedule SamePromises
  reschedule_same c s =
      if_intro (SamePromises s) (can_start c s) (λ _. schedule_flush_same c (flush_delay c s) s)
        (λ _. (refl, λ p. refl))

  start_available_same : (c : Config) (s : State R) → SamePromises s (start_available_writes c s)
  unfolding start_available_writes
  start_available_same c s =
      same_trans s _ _ (start_loop_same (length s.pending) c s) (reschedule_same c _)

  same-HasPromises : (s t : State R) → SamePromises s t → HasPromises s → HasPromises t
  unfolding SamePromises
  same-HasPromises s t (e, f) h p = rw e (f p ∙ h p)

  deliver_same : (i : ℕ) (o : Outcome) (s : State R) → SamePromises s (deliver i o s)
  unfolding deliver SamePromises
  deliver_same i o s = elim (Option-cases (get_elem? s.running i)) [
    | inl e ↦ rw (e, deliver) (refl, λ p. refl)
    | inr (flight, e) ↦
        rw (e, deliver)
          (
            refl,
            λ p. omega (
              arith,
              count-flights-remove_at p s.running i e,
              ap (count p) (settled_ids-append s.settled (settle_all o (ids flight.writes))),
              ap (count p) (settled_ids-settle_all o (ids flight.writes)),
              count-append p (settled_ids s.settled),
            ),
          )
  ]

  enqueue-HasPromises : (rs : List R) (s : State R) → HasPromises s → HasPromises (enqueue rs s)
  unfolding enqueue
  enqueue-HasPromises rs s h p =
      ground (arith, h p, count-ids-append p s.pending (write_of rs s ∷ []))

  settle-HasPromises :
      (o : Outcome) (s : State R)
      → HasPromises s
      → HasPromises (settle s.next_promise o (record s { next_promise = s.next_promise + 1 }))
  unfolding settle
  settle-HasPromises o s h p = ground (
    arith,
    h p,
    ap (count p) (settled_ids-append s.settled ((s.next_promise, o) ∷ [])),
    count-append p (settled_ids s.settled) (s.next_promise ∷ []),
  )

  insert-HasPromises :
      (c : Config) (rs : List R) (s : State R) → HasPromises s → HasPromises (insert c rs s)
  unfolding insert accept
  insert-HasPromises c rs s h =
      let t = enqueue rs s in
      let k = enqueue-HasPromises rs s h in
      if_intro HasPromises (is_empty rs) (λ _. settle-HasPromises resolved s h)
        (λ _.
          if_intro HasPromises (refuses c rs s) (λ _. settle-HasPromises overloaded s h)
            (λ _.
              if_intro HasPromises (starts_at_once c t)
                (λ _. same-HasPromises t _ (start_available_same c t) k)
                (λ _. same-HasPromises t _ (schedule_flush_same c (insert_delay c t) t) k)))

  fire_same : (c : Config) (h : ℕ) (s : State R) → SamePromises s (fire c h s)
  unfolding fire flush SamePromises
  fire_same c h s =
      if_intro (SamePromises s) (has_timer h s.timers) (λ _. start_available_same c _)
        (λ _. (refl, λ p. refl))

  settle_close_same : (s : State R) → SamePromises s (settle_close s)
  unfolding settle_close SamePromises
  settle_close_same s =
      if_intro (SamePromises s) (keeps_waiting s) (λ _. (refl, λ p. refl)) (λ _. (refl, λ p. refl))

  finish_same : (c : Config) (s : State R) → SamePromises s (finish c s)
  unfolding finish write_done SamePromises
  finish_same c s =
      let t = write_done s in
      if_intro (SamePromises s) (s.delivered == 0) (λ _. (refl, λ p. refl))
        (λ _.
          let u = if is_empty t.pending then t else schedule_flush c (flush_delay c t) t in
          same_trans s u (settle_close u)
            (if_intro (SamePromises s) (is_empty t.pending) (λ _. (refl, λ p. refl))
              (λ _. schedule_flush_same c (flush_delay c t) t))
            (settle_close_same u))

  clear_flush_same : (s : State R) → SamePromises s (clear_flush s)
  unfolding clear_flush cancel_flush SamePromises
  clear_flush_same s = (ground arith, λ p. ground arith)

  close_same : (c : Config) (s : State R) → SamePromises s (close c s)
  unfolding close close_now await_close SamePromises
  close_same c s =
      let s' = record s { closed = true } in
      let t = clear_flush s' in
      let u = start_available_writes c t in
      let r = same_trans s' t u (clear_flush_same s') (start_available_same c t) in
      if_intro (SamePromises s) (s.closed && is_drained s) (λ _. (refl, λ p. refl))
        (λ _. if_intro (SamePromises s) (is_drained u) (λ _. r) (λ _. r))

  step-HasPromises :
      (c : Config) (s : State R) (e : Event R) → HasPromises s → HasPromises (step c s e)
  unfolding step
  step-HasPromises c s (insert_call records) h = insert-HasPromises c records s h
  step-HasPromises c s close_call h = same-HasPromises s _ (close_same c s) h
  step-HasPromises c s (timer_fires i) h = same-HasPromises s _ (fire_same c i s) h
  step-HasPromises c s (write_settles i o) h = same-HasPromises s _ (deliver_same i o s) h
  step-HasPromises c s write_finishes h = same-HasPromises s _ (finish_same c s) h

  pub run-HasPromises :
      (c : Config) (es : List (Event R)) (s : State R) → HasPromises s → HasPromises (run c s es)
  unfolding run
  run-HasPromises c [] s h = h
  run-HasPromises c (e ∷ es) s h = run-HasPromises c es (step c s e) (step-HasPromises c s e h)

  -- After every history of events, each promise that `insert` returned stands in exactly one of
  -- three places, the queue, a running write or the settled promises, and no other promise does:
  -- none is lost, and none is settled twice.
  pub run-initial-HasPromises : (c : Config) (es : List (Event R)) → HasPromises (run c initial es)
  run-initial-HasPromises c es = run-HasPromises c es initial (initial-HasPromises R)
