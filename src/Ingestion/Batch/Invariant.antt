-- ===== src/Ingestion/Batch/Invariant.antt =====
-- What holds between two events: the counters, the timer, the promises of `close`.
pub mod Counted
pub mod Armed
pub mod Closing
use log_stream.Base.{
  ℕ, ◌+◌, ◌≤◌, ◌≡◌, ◌⊎◌, Bool, true, false, List, [], ◌∷◌, Option, none, some, length, is_empty,
}
use log_stream.Ingestion.Batch.State.{Config, State, total_rows}
use log_stream.Ingestion.Batch.Flush.{can_start}
use log_stream.Ingestion.Batch.Events.{is_drained}

abbrev pub Timers : Option ℕ → List (ℕ × ℕ) → Type 0
Timers none ts = ts ≡ []
Timers (some h) ts = (d : ℕ) × (ts ≡ (h, d) ∷ [])

abbrev pub is_some : Option ℕ → Bool
is_some none = false
is_some (some h) = true

module _ {R : Type 0} where
  -- The counters agree with what they count, and the writes with their limit.
  pub record IsCounted (c : Config) (s : State R) : Type 0 where
    pub rows : s.queued_rows ≡ total_rows s.pending
    pub active : s.active_writes ≡ length s.running + s.delivered
    pub bound : s.active_writes ≤ c.max_concurrent_writes

  -- A flush is scheduled exactly while a write waits and another could start; its timer is the
  -- only live one.
  pub record IsArmed (c : Config) (s : State R) : Type 0 where
    pub armed : is_some s.scheduled_flush ≡ can_start c s
    pub timer : Timers s.scheduled_flush s.timers

  -- A promise of `close` waits only while there is something to wait for.
  abbrev pub CloseWaits : State R → Type 0
  CloseWaits s = (is_empty s.close_waiters ≡ true) ⊎ ((s.closed ≡ true) × (is_drained s ≡ false))

  pub record Inv (c : Config) (s : State R) : Type 0 where
    pub counted : IsCounted c s
    pub armed : IsArmed c s
    pub waits : CloseWaits s
