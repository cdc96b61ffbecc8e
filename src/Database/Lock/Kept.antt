-- ===== src/Database/Lock/Kept.antt =====
-- `acquireLock` and `releaseLock`: the events that they cause.
use log_stream.Base.{
  ℕ, zero, suc, Bool, true, false, List, [], ◌∷◌, ◌++◌, Option, none, some, leb, if_intro,
  Option-cases, inl, inr,
}
use log_stream.Base.Text.{units}
use log_stream.Domain.Json.{Json}
use log_stream.Database.Session.{
  Event, read_clock, slept, answered, rejected, World, Action, Ended, returned, threw, ask, sleep,
  give_or, chain, chain_intro, try_lock, unlock,
}
use log_stream.Database.Lock.{
  LockErrors, acquire_lock, after_answer, try_or_stop, sleep_or_stop, lock_row, release_lock,
  released_or_fail,
}

-- The events of the wait for a lock.
pub data Waits (id : ℕ) : Event → Type 0 where
  reads_clock : Waits id read_clock
  sleeps : {delay : ℕ} → Waits id (slept delay)
  tries : {rows : List Json} → Waits id (answered (try_lock id) rows)
  fails : Waits id (rejected (try_lock id))

pub data IsUnlock (id : ℕ) : Event → Type 0 where
  unlocks : {rows : List Json} → IsUnlock id (answered (unlock id) rows)
  unlock_refused : IsUnlock id (rejected (unlock id))

module _ (world : World) {E : Type 0} (errors : LockErrors E) (id : ℕ) where
  -- What the events of the wait keep holds at its end.
  module _ (I : List Event → Type 0)
      (keeps : (log : List Event) (e : Event) → Waits id e → I log → I (log ++ (e ∷ []))) where
    abbrev Holds : {A : Type 0} → Ended E A × List Event → Type 0
    Holds (end, log) = I log

    sleep_or_stop-Holds :
        (deadline retry_delay : ℕ) (again : Action E Unit) (time : ℕ) (log : List Event)
        → ((log : List Event) → I log → Holds (again log))
        → I log
        → Holds (sleep_or_stop world errors id deadline retry_delay again time log)
    sleep_or_stop-Holds deadline retry_delay again time log next h =
        if_intro (λ (act : Action E Unit). Holds (act log)) (leb deadline time) (λ _. h)
          λ _.
            chain_intro Holds Holds (sleep world errors.sleep_failed _ log) _ (keeps log _ sleeps h)
              (λ _ log h. next log h) (λ _ log h. h) λ log h. h

    after_answer-Holds :
        (deadline retry_delay : ℕ) (again : Action E Unit) (acquired : Bool) (log : List Event)
        → ((log : List Event) → I log → Holds (again log))
        → I log
        → Holds (after_answer world errors id deadline retry_delay again acquired log)
    after_answer-Holds deadline retry_delay again true log next h = h
    after_answer-Holds deadline retry_delay again false log next h =
        sleep_or_stop-Holds deadline retry_delay again (world.now log) (log ++ (read_clock ∷ []))
          next (keeps log _ reads_clock h)

    ask-Holds : (log : List Event) → I log → Holds (ask world errors.failed (try_lock id) log)
    ask-Holds log h = elim (Option-cases (world.reply log (try_lock id))) [
      | inl e ↦ rw e (keeps log _ fails h)
      | inr (rows, e) ↦ rw e (keeps log _ tries h)
    ]

    give_or-Holds :
        {A : Type 0} (e : E) (o : Option A) (log : List Event) → I log → Holds (give_or e o log)
    give_or-Holds e none log h = h
    give_or-Holds e (some a) log h = h

    try_or_stop-Holds :
        (deadline retry_delay : ℕ) (again : Action E Unit) (time : ℕ) (log : List Event)
        → ((log : List Event) → I log → Holds (again log))
        → I log
        → Holds (try_or_stop world errors id deadline retry_delay again time log)
    try_or_stop-Holds deadline retry_delay again time log next h =
        if_intro (λ (act : Action E Unit). Holds (act log)) (leb deadline time) (λ _. h)
          λ _.
            chain_intro Holds Holds (ask world errors.failed (try_lock id) log) _ (ask-Holds log h)
              (λ rows log h.
                chain_intro Holds Holds
                  (give_or errors.failed (lock_row (units "acquired") rows) log) _
                  (give_or-Holds errors.failed (lock_row (units "acquired") rows) log h)
                  (λ acquired log h.
                    after_answer-Holds deadline retry_delay again acquired log next h)
                  (λ _ log h. h) λ log h. h)
              (λ _ log h. h) λ log h. h

    pub acquire_lock-Holds :
        (deadline retry_delay fuel : ℕ) (log : List Event)
        → I log
        → Holds (acquire_lock world errors id deadline retry_delay fuel log)
    unfolding acquire_lock
    acquire_lock-Holds deadline retry_delay zero log h = h
    acquire_lock-Holds deadline retry_delay (suc fuel) log h =
        try_or_stop-Holds deadline retry_delay _ (world.now log) (log ++ (read_clock ∷ []))
          (acquire_lock-Holds deadline retry_delay fuel) (keeps log _ reads_clock h)

  -- The release asks once, and fails where the answer is not that the lock was released.
  pub release_lock_intro {κ} :
      (P : Ended E Unit × List Event → Type κ) (log : List Event)
      → ((e : Event) → IsUnlock id e → P (returned tt, log ++ (e ∷ [])))
      → ((e : Event) → IsUnlock id e → P (threw errors.failed, log ++ (e ∷ [])))
      → P (release_lock world errors id log)
  unfolding release_lock
  release_lock_intro P log on_value on_error = elim (Option-cases (world.reply log (unlock id))) [
    | inl e ↦ rw e (on_error _ unlock_refused)
    | inr (rows, e) ↦ rw e (
        released_intro P (lock_row (units "released") rows) _ (on_value _ unlocks)
          (on_error _ unlocks))
  ]
    where
      released_intro :
          (P : Ended E Unit × List Event → Type κ) (o : Option Bool) (log : List Event)
          → P (returned tt, log)
          → P (threw errors.failed, log)
          → P (chain (give_or errors.failed o log) (released_or_fail world errors id))
      released_intro P none log on_value on_error = on_error
      released_intro P (some true) log on_value on_error = on_value
      released_intro P (some false) log on_value on_error = on_error
