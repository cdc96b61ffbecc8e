-- ===== src/Database/Lock/Guard.antt =====
-- `acquireLock` and `releaseLock`: what the statements sent mean for the lock.
use log_stream.Base.{
  ℕ, zero, suc, ◌≡◌, refl, ap, ◌∙◌, Bool, true, false, List, [], ◌∷◌, ◌++◌, Option, none, some, leb,
  if_intro, Option-cases, inl, inr,
}
use log_stream.Base.Text.{units}
use log_stream.Domain.Json.{Json}
use log_stream.Database.Session.{
  SqlQuery, Event, read_clock, answered, rejected, World, Action, Ended, returned, threw,
  unfinished, sleep, give_or, chain, chain_intro, try_lock, unlock,
}
use log_stream.Database.Lock.{
  LockErrors, acquire_lock, after_answer, try_or_stop, sleep_or_stop, lock_row,
}
use log_stream.Database.Lock.Kept.{IsUnlock, unlocks, unlock_refused}

-- `violated`: a statement was sent without the lock, or the lock was taken or released twice.
pub data Guard : Type 0 where
  free held violated : Guard

abbrev took : Option Bool → Guard → Guard
took (some true) free = held
took (some true) _ = violated
took _ g = g

abbrev let_go : Guard → Guard
let_go held = free
let_go _ = violated

abbrev worked : Guard → Guard
worked held = held
worked _ = violated

abbrev sent : SqlQuery → Guard → Guard
sent (try_lock id) g = g
sent (unlock id) g = let_go g
sent _ g = worked g

abbrev replied : SqlQuery → List Json → Guard → Guard
replied (try_lock id) rows g = took (lock_row (units "acquired") rows) g
replied q rows g = sent q g

abbrev pub watch : Event → Guard → Guard
watch (answered q rows) g = replied q rows g
watch (rejected q) g = sent q g
watch _ g = g

unfoldable pub guard : Guard → List Event → Guard
guard g [] = g
guard g (e ∷ log) = guard (watch e g) log

pub guard-append :
    (g : Guard) (log : List Event) (e : Event) → guard g (log ++ (e ∷ [])) ≡ watch e (guard g log)
unfolding guard
guard-append g [] e = refl
guard-append g (d ∷ log) e = guard-append (watch d g) log e

module _ (world : World) {E : Type 0} (errors : LockErrors E) (id : ℕ) (start : Guard) where
  -- The lock is held after a success, and only then.
  abbrev pub HeldAfter : Ended E Unit × List Event → Type 0
  HeldAfter (returned a, log) = guard start log ≡ held
  HeldAfter (threw e, log) = guard start log ≡ free
  HeldAfter (unfinished, log) = guard start log ≡ free

  -- A step that leaves the lock as it is.
  abbrev StillFree : {A : Type 0} → Ended E A × List Event → Type 0
  StillFree (end, log) = guard start log ≡ free

  same :
      (log : List Event) (e : Event)
      → watch e free ≡ free
      → guard start log ≡ free
      → guard start (log ++ (e ∷ [])) ≡ free
  same log e step at = guard-append start log e ∙ ap (watch e) at ∙ step

  sleep_or_stop-HeldAfter :
      (deadline retry_delay : ℕ) (again : Action E Unit) (time : ℕ) (log : List Event)
      → ((log : List Event) → guard start log ≡ free → HeldAfter (again log))
      → guard start log ≡ free
      → HeldAfter (sleep_or_stop world errors id deadline retry_delay again time log)
  sleep_or_stop-HeldAfter deadline retry_delay again time log next h =
      if_intro (λ (act : Action E Unit). HeldAfter (act log)) (leb deadline time) (λ _. h)
        λ _.
          chain_intro StillFree HeldAfter (sleep world errors.sleep_failed _ log) _
            (same log _ refl h) (λ _ log h. next log h) (λ _ log h. h) λ log h. h

  answered-HeldAfter :
      (deadline retry_delay : ℕ) (again : Action E Unit) (rows : List Json) (o : Option Bool)
      (log : List Event)
      → ((log : List Event) → guard start log ≡ free → HeldAfter (again log))
      → guard start log ≡ took o free
      → HeldAfter (
          chain
            (give_or errors.failed o log)
            (after_answer world errors id deadline retry_delay again))
  answered-HeldAfter deadline retry_delay again rows none log next h = h
  answered-HeldAfter deadline retry_delay again rows (some true) log next h = h
  answered-HeldAfter deadline retry_delay again rows (some false) log next h =
      sleep_or_stop-HeldAfter deadline retry_delay again (world.now log) (log ++ (read_clock ∷ []))
        next (same log read_clock refl h)

  try_or_stop-HeldAfter :
      (deadline retry_delay : ℕ) (again : Action E Unit) (time : ℕ) (log : List Event)
      → ((log : List Event) → guard start log ≡ free → HeldAfter (again log))
      → guard start log ≡ free
      → HeldAfter (try_or_stop world errors id deadline retry_delay again time log)
  try_or_stop-HeldAfter deadline retry_delay again time log next h =
      if_intro (λ (act : Action E Unit). HeldAfter (act log)) (leb deadline time) (λ _. h)
        λ _. elim (Option-cases (world.reply log (try_lock id))) [
          | inl e ↦ rw e (same log _ refl h)
          | inr (rows, e) ↦ rw e (
              answered-HeldAfter deadline retry_delay again rows (lock_row (units "acquired") rows)
                _ next (guard-append start log _ ∙ ap (watch (answered (try_lock id) rows)) h))
        ]

  -- From a free lock, the loop ends with the lock held exactly where it succeeds.
  pub acquire_lock-HeldAfter :
      (deadline retry_delay fuel : ℕ) (log : List Event)
      → guard start log ≡ free
      → HeldAfter (acquire_lock world errors id deadline retry_delay fuel log)
  unfolding acquire_lock
  acquire_lock-HeldAfter deadline retry_delay zero log h = h
  acquire_lock-HeldAfter deadline retry_delay (suc fuel) log h =
      try_or_stop-HeldAfter deadline retry_delay _ (world.now log) (log ++ (read_clock ∷ []))
        (acquire_lock-HeldAfter deadline retry_delay fuel) (same log read_clock refl h)

pub free-unlock :
    {id : ℕ} (start : Guard) (log : List Event) (e : Event)
    → IsUnlock id e
    → guard start log ≡ held
    → guard start (log ++ (e ∷ [])) ≡ free
free-unlock start log e unlocks h = guard-append start log e ∙ ap (watch e) h
free-unlock start log e unlock_refused h = guard-append start log e ∙ ap (watch e) h
