-- ===== src/Database/Lock.antt =====
-- src/database/migrations/migration-runner.ts and src/database/partitions/partition-preparer.ts:
-- `acquireLock` and `releaseLock`, which the two files have alike but for the lock and the errors.
pub mod Kept
pub mod Guard
pub mod Ends
use log_stream.Base.{
  ℕ, zero, suc, ◌-◌, min, Bool, true, false, List, [], ◌∷◌, Option, none, some, leb, if◌then◌else◌,
}
use log_stream.Base.Text.{Text, units}
use log_stream.Domain.Json.{Json, get_own}
use log_stream.Database.Session.{
  Event, World, Action, unfinished, ask, now, sleep, give, fail, give_or, try_lock, unlock, ◌>>=◌,
  ◌>>◌, chain,
}

-- The lock was not free before the deadline, its statement failed, or the sleep did.
pub record LockErrors (E : Type 0) : Type 0 where
  pub timed_out : E
  pub failed : E
  pub sleep_failed : E

abbrev boolean_of : Option Json → Option Bool
boolean_of (some (Json.boolean b)) = some b
boolean_of _ = none

-- The property of the row, where it is a Boolean.
unfoldable pub is_lock_result : Text → Json → Option Bool
is_lock_result property (Json.object members) = boolean_of (get_own property members)
is_lock_result property _ = none

abbrev pub lock_row : Text → List Json → Option Bool
lock_row property (row ∷ []) = is_lock_result property row
lock_row property _ = none

module _ (world : World) {E : Type 0} (errors : LockErrors E) (id : ℕ) where
  abbrev pub sleep_or_stop : (deadline retry_delay : ℕ) → Action E Unit → ℕ → Action E Unit
  sleep_or_stop deadline retry_delay again time =
      if leb deadline time
      then fail errors.timed_out
      else (sleep world errors.sleep_failed (min retry_delay (deadline - time)) >> again)

  -- After the answer: the lock is held, or one sleeps and goes on.
  abbrev pub after_answer : (deadline retry_delay : ℕ) → Action E Unit → Bool → Action E Unit
  after_answer deadline retry_delay again true = give tt
  after_answer deadline retry_delay again false =
      now world >>= sleep_or_stop deadline retry_delay again

  abbrev pub try_or_stop : (deadline retry_delay : ℕ) → Action E Unit → ℕ → Action E Unit
  try_or_stop deadline retry_delay again time =
      if leb deadline time then fail errors.timed_out else do
        rows ← ask world errors.failed (try_lock id)
        acquired ← give_or errors.failed (lock_row (units "acquired") rows)
        after_answer deadline retry_delay again acquired

  -- The loop, with the number of its rounds as fuel.
  unfoldable pub acquire_lock : (deadline retry_delay fuel : ℕ) → Action E Unit
  acquire_lock deadline retry_delay zero log = (unfinished, log)
  acquire_lock deadline retry_delay (suc fuel) log =
      chain (now world log)
        (try_or_stop deadline retry_delay (acquire_lock deadline retry_delay fuel))

  abbrev pub released_or_fail : Bool → Action E Unit
  released_or_fail true = give tt
  released_or_fail false = fail errors.failed

  unfoldable pub release_lock : Action E Unit
  release_lock = do
    rows ← ask world errors.failed (unlock id)
    released ← give_or errors.failed (lock_row (units "released") rows)
    released_or_fail released
