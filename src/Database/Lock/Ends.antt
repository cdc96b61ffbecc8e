-- ===== src/Database/Lock/Ends.antt =====
-- `acquireLock`: the loop ends, since each round that goes on sleeps before the deadline.
use log_stream.Base.{
  ℕ, zero, suc, ◌+◌, ◌-◌, ◌≤◌, ◌<◌, min, ◌≡◌, Bool, true, false, List, [], ◌∷◌, ◌++◌, Option, none,
  some, leb, if_intro, Option-cases, Bool-cases, inl, inr, arith,
}
use log_stream.Base.Text.{units}
use log_stream.Database.Session.{
  Event, read_clock, slept, answered, World, Action, Ended, unfinished, sleep, give_or, chain,
  chain_intro, try_lock,
}
use log_stream.Database.Lock.{LockErrors, acquire_lock, after_answer, try_or_stop, lock_row}

-- The clock never runs back, and a sleep of some time takes some time.
pub record Advances (world : World) : Type 0 where
  pub forward : (log : List Event) (e : Event) → world.now log ≤ world.now (log ++ (e ∷ []))
  pub sleeps :
      (log : List Event) (delay : ℕ)
      → 0 < delay
      → world.now log < world.now (log ++ (slept delay ∷ []))

abbrev pub Ends : {E A : Type 0} → Ended E A × List Event → Type 0
Ends (unfinished, log) = ⊥
Ends _ = Unit

module _ (world : World) {E : Type 0} (errors : LockErrors E) (id : ℕ) (advances : Advances world)
    (deadline retry_delay : ℕ) (waits : 0 < retry_delay) where
  abbrev After : {A : Type 0} → ℕ → Ended E A × List Event → Type 0
  After time (unfinished, log) = ⊥
  After time (end, log) = time ≤ world.now log

  pause_pos : (t : ℕ) → leb deadline t ≡ false → 0 < min retry_delay (deadline - t)
  pause_pos t late = ground (arith, waits)

  sleep-After :
      (time delay : ℕ) (log : List Event)
      → 0 < delay
      → time ≤ world.now log
      → After (suc time) (sleep world errors.sleep_failed delay log)
  sleep-After time delay log pos h =
      let k = advances.sleeps log delay pos in
      if_intro (λ (end : Ended E Unit). After (suc time) (end, log ++ (slept delay ∷ [])))
        (world.sleeps log delay) (λ _. omega arith) (λ _. omega arith)

  after_answer-Ends :
      (again : Action E Unit) (time : ℕ) (acquired : Bool) (log : List Event)
      → ((log : List Event) → suc time ≤ world.now log → Ends (again log))
      → time ≤ world.now log
      → Ends (after_answer world errors id deadline retry_delay again acquired log)
  after_answer-Ends again time true log next h = tt
  after_answer-Ends again time false log next h =
      let k = advances.forward log read_clock in
      let now = world.now log in
      let read = log ++ (read_clock ∷ []) in
      elim (Bool-cases (leb deadline now)) [
        | inl b ↦ rw b tt
        | inr b ↦ rw b (
            chain_intro (After (suc time)) Ends
              (sleep world errors.sleep_failed (min retry_delay (deadline - now)) read) _
              (sleep-After time _ read (pause_pos now b) (omega arith)) (λ _ log h. next log h)
              (λ _ log h. tt) λ log h. h)
      ]

  answered-Ends :
      (again : Action E Unit) (time : ℕ) (o : Option Bool) (log : List Event)
      → ((log : List Event) → suc time ≤ world.now log → Ends (again log))
      → time ≤ world.now log
      → Ends (
          chain
            (give_or errors.failed o log)
            (after_answer world errors id deadline retry_delay again))
  answered-Ends again time none log next h = tt
  answered-Ends again time (some acquired) log next h =
      after_answer-Ends again time acquired log next h

  try_or_stop-Ends :
      (again : Action E Unit) (time : ℕ) (log : List Event)
      → (leb deadline time ≡ false
          → (log : List Event) → suc time ≤ world.now log
          → Ends (again log))
      → time ≤ world.now log
      → Ends (try_or_stop world errors id deadline retry_delay again time log)
  try_or_stop-Ends again time log next h = elim (Bool-cases (leb deadline time)) [
    | inl b ↦ rw b tt
    | inr b ↦ rw b (elim (Option-cases (world.reply log (try_lock id))) [
      | inl e ↦ rw e tt
      | inr (rows, e) ↦ rw e (
          let k = advances.forward log (answered (try_lock id) rows) in
          answered-Ends again time (lock_row (units "acquired") rows) _ (next b) (omega arith))
    ])
  ]

  -- With as many rounds as there are milliseconds to the deadline, and one more, the loop ends.
  pub acquire_lock-Ends :
      (fuel : ℕ) (log : List Event)
      → deadline ≤ world.now log + fuel
      → Ends (acquire_lock world errors id deadline retry_delay (suc fuel) log)
  unfolding acquire_lock
  acquire_lock-Ends zero log enough =
      let k = advances.forward log read_clock in
      try_or_stop-Ends _ (world.now log) (log ++ (read_clock ∷ []))
        (λ late log h. absurd (ground arith)) k
  acquire_lock-Ends (suc fuel) log enough =
      let k = advances.forward log read_clock in
      try_or_stop-Ends _ (world.now log) (log ++ (read_clock ∷ []))
        (λ late log h. acquire_lock-Ends fuel log (omega arith)) k
