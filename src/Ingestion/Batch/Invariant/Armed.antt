-- ===== src/Ingestion/Batch/Invariant/Armed.antt =====
-- The scheduled flush and its timer, over each event.
use log_stream.Base.{
  ℕ, ◌≡◌, refl, subst, ap, sym, ◌∙◌, inl, inr, true, false, List, [], ◌∷◌, ◌++◌, Option, none, some,
  arith, length, is_empty-append, if_intro, is_empty, get_elem?, Option-cases, Bool-cases, ◌==◌,
  ◌&&◌,
}
use log_stream.Ingestion.Batch.State.{Config, State, Outcome}
use log_stream.Ingestion.Batch.Flush.Laws.{start_loop-Frame}
use log_stream.Ingestion.Batch.Flush.{
  can_start, schedule_flush, reschedule, start_available_writes, flush, drop_timer, has_timer,
  flush_delay, cancel_flush, set_timer,
}
use log_stream.Ingestion.Batch.Events.{
  is_drained, insert, starts_at_once, insert_delay, accept, refuses, settle, enqueue, write_of,
  settle_close, keeps_waiting, write_done, close_now, await_close, clear_flush, close, deliver,
  finish, fire, step, Event, insert_call, close_call, timer_fires, write_settles, write_finishes,
}
use log_stream.Ingestion.Batch.Invariant.{IsArmed, Timers, is_some}

drop_timer_self : (h d : ℕ) → drop_timer h ((h, d) ∷ []) ≡ []
unfolding drop_timer
drop_timer_self h d = ground arith

-- The only live timer is the scheduled one, so firing it leaves none.
drop_timer-fired :
    (h : ℕ) (o : Option ℕ) (ts : List (ℕ × ℕ))
    → Timers o ts
    → has_timer h ts ≡ true
    → drop_timer h ts ≡ []
unfolding drop_timer has_timer
drop_timer-fired h none ts t e = rw t
drop_timer-fired h (some i) ts (d, f) e =
    rw f (ground (arith, subst (λ x. has_timer h x ≡ true) f e))

single_write {ℓ} :
    {A : Type ℓ} (xs : List A) (x : A) → (length (xs ++ x ∷ []) == 1) ≡ true → is_empty xs ≡ true
single_write [] x h = refl
single_write (y ∷ []) x h = cc
single_write (y ∷ z ∷ ys) x h = absurd (ground arith)

module _ {R : Type 0} where
  schedule_flush-IsArmed :
      (c : Config) (d : ℕ) (s : State R)
      → Timers s.scheduled_flush s.timers
      → (is_some s.scheduled_flush ≡ true → can_start c s ≡ true)
      → IsArmed c (schedule_flush c d s)
  unfolding schedule_flush can_start set_timer cancel_flush
  schedule_flush-IsArmed c d s t h = elim (Option-cases s.scheduled_flush) [
    | inl e ↦ record { armed = ground arith; timer = ground arith }
    | inr (i, e) ↦
        let live : Timers (some i) s.timers = subst (λ x. Timers x s.timers) e t in
        record {
          armed = ground (arith, h);
          timer = ground (arith, drop_timer_self i live.0, live.1);
        }
  ]

  reschedule-IsArmed :
      (c : Config) (s : State R)
      → s.scheduled_flush ≡ none
      → s.timers ≡ []
      → IsArmed c (reschedule c s)
  unfolding reschedule
  reschedule-IsArmed c s e t = elim (Bool-cases (can_start c s)) [
    | inr h ↦ rw h (record { armed = ap is_some e ∙ sym h; timer = rw e t })
    | inl h ↦ rw h (schedule_flush-IsArmed c (flush_delay c s) s (rw e t) (λ _. h))
  ]

  start_available-IsArmed :
      (c : Config) (s : State R)
      → s.scheduled_flush ≡ none
      → s.timers ≡ []
      → IsArmed c (start_available_writes c s)
  unfolding start_available_writes
  start_available-IsArmed c s e t =
      let f = start_loop-Frame (length s.pending) c s in
      reschedule-IsArmed c _ (f.scheduled ∙ e) (f.timers ∙ t)

  IsArmed-idle :
      (c : Config) (s : State R)
      → can_start c s ≡ false
      → IsArmed c s
      → (s.scheduled_flush ≡ none) × (s.timers ≡ [])
  IsArmed-idle c s h a = elim (Option-cases s.scheduled_flush) [
    | inl e ↦ (e, subst (λ x. Timers x s.timers) e a.timer)
    | inr (i, e) ↦ absurd (cc (a.armed, ap is_some e))
  ]

  -- A change that leaves the flush and its timer alone.
  IsArmed-frame :
      (c : Config) (s t : State R)
      → t.scheduled_flush ≡ s.scheduled_flush
      → t.timers ≡ s.timers
      → can_start c t ≡ can_start c s
      → IsArmed c s
      → IsArmed c t
  IsArmed-frame c s t e f g a = record {
    armed = ap is_some e ∙ a.armed ∙ sym g;
    timer = rw (e, f) a.timer;
  }

  enqueue_starts :
      (c : Config) (rs : List R) (s : State R)
      → starts_at_once c (enqueue rs s) ≡ true
      → can_start c s ≡ false
  unfolding enqueue can_start
  enqueue_starts c rs s h = ground (arith, single_write s.pending (write_of rs s))

  enqueue-can_start :
      (c : Config) (rs : List R) (s : State R)
      → can_start c s ≡ true
      → can_start c (enqueue rs s) ≡ true
  unfolding enqueue can_start
  enqueue-can_start c rs s h = ground (arith, is_empty-append s.pending (write_of rs s) [])

  accept-IsArmed :
      (c : Config) (rs : List R) (s : State R) → IsArmed c s → IsArmed c (accept c rs s)
  unfolding accept
  accept-IsArmed c rs s a =
      let t = enqueue rs s in
      if_intro (IsArmed c) (starts_at_once c t)
        (λ h.
          let (e, f) = IsArmed-idle c s (enqueue_starts c rs s h) a in
          start_available-IsArmed c t (unfold enqueue in e) (unfold enqueue in f))
        (λ _.
          schedule_flush-IsArmed c (insert_delay c t) t (unfold enqueue in a.timer)
            (λ e. enqueue-can_start c rs s (sym a.armed ∙ (unfold enqueue in e))))

  insert-IsArmed :
      (c : Config) (rs : List R) (s : State R) → IsArmed c s → IsArmed c (insert c rs s)
  unfolding insert settle can_start
  insert-IsArmed c rs s a =
      if_intro (IsArmed c) (is_empty rs) (λ _. IsArmed-frame c s _ refl refl refl a)
        (λ _.
          if_intro (IsArmed c) (refuses c rs s) (λ _. IsArmed-frame c s _ refl refl refl a)
            (λ _. accept-IsArmed c rs s a))

  fire-IsArmed : (c : Config) (h : ℕ) (s : State R) → IsArmed c s → IsArmed c (fire c h s)
  unfolding fire flush
  fire-IsArmed c h s a =
      if_intro (IsArmed c) (has_timer h s.timers)
        (λ e.
          start_available-IsArmed c _ refl
            (drop_timer-fired h s.scheduled_flush s.timers a.timer e))
        (λ _. a)

  deliver-IsArmed :
      (c : Config) (i : ℕ) (o : Outcome) (s : State R) → IsArmed c s → IsArmed c (deliver i o s)
  unfolding deliver can_start
  deliver-IsArmed c i o s a = elim (Option-cases (get_elem? s.running i)) [
    | inl e ↦ rw (e, deliver) a
    | inr (flight, e) ↦ rw (e, deliver) (IsArmed-frame c s _ refl refl refl a)
  ]

  clear_flush_idle :
      (c : Config) (s : State R)
      → IsArmed c s
      → ((clear_flush s).scheduled_flush ≡ none) × ((clear_flush s).timers ≡ [])
  unfolding clear_flush cancel_flush
  clear_flush_idle c s a = (
    refl,
    elim (Option-cases s.scheduled_flush) [
      | inl e ↦ rw e (subst (λ x. Timers x s.timers) e a.timer)
      | inr (h, e) ↦
          let (d, f) = subst (λ x. Timers x s.timers) e a.timer in rw e (rw f (drop_timer_self h d))
    ],
  )

  settle_close-IsArmed : (c : Config) (s : State R) → IsArmed c s → IsArmed c (settle_close s)
  unfolding settle_close can_start
  settle_close-IsArmed c s a =
      if_intro (IsArmed c) (keeps_waiting s) (λ _. a) (λ _. IsArmed-frame c s _ refl refl refl a)

  write_done-IsArmed :
      (c : Config) (s : State R)
      → is_empty s.pending ≡ true
      → IsArmed c s
      → IsArmed c (write_done s)
  unfolding write_done can_start
  write_done-IsArmed c s h a = IsArmed-frame c s _ refl refl (ground arith) a

  write_done-can_start :
      (c : Config) (s : State R) → can_start c s ≡ true → can_start c (write_done s) ≡ true
  unfolding write_done can_start
  write_done-can_start c s h = ground arith

  finish-IsArmed : (c : Config) (s : State R) → IsArmed c s → IsArmed c (finish c s)
  unfolding finish
  finish-IsArmed c s a =
      let t = write_done s in
      if_intro (IsArmed c) (s.delivered == 0) (λ _. a)
        (λ _. settle_close-IsArmed c _ (
          if_intro (IsArmed c) (is_empty t.pending)
            (λ h. write_done-IsArmed c s (unfold write_done in h) a)
            (λ _.
              schedule_flush-IsArmed c (flush_delay c t) t (unfold write_done in a.timer)
                (λ e. write_done-can_start c s (sym a.armed ∙ (unfold write_done in e))))))

  close-IsArmed : (c : Config) (s : State R) → IsArmed c s → IsArmed c (close c s)
  unfolding close close_now await_close can_start
  close-IsArmed c s a =
      let s' = record s { closed = true } in
      let t = clear_flush s' in
      let (e, f) = clear_flush_idle c s' (IsArmed-frame c s s' refl refl refl a) in
      let b = start_available-IsArmed c t e f in
      if_intro (IsArmed c) (s.closed && is_drained s) (λ _. IsArmed-frame c s _ refl refl refl a)
        (λ _.
          if_intro (IsArmed c) (is_drained (start_available_writes c t))
            (λ _. IsArmed-frame c (start_available_writes c t) _ refl refl refl b)
            (λ _. IsArmed-frame c (start_available_writes c t) _ refl refl refl b))

  pub step-IsArmed : (c : Config) (s : State R) (e : Event R) → IsArmed c s → IsArmed c (step c s e)
  unfolding step
  step-IsArmed c s (insert_call records) a = insert-IsArmed c records s a
  step-IsArmed c s close_call a = close-IsArmed c s a
  step-IsArmed c s (timer_fires h) a = fire-IsArmed c h s a
  step-IsArmed c s (write_settles i o) a = deliver-IsArmed c i o s a
  step-IsArmed c s write_finishes a = finish-IsArmed c s a
