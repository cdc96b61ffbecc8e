-- ===== src/Ingestion/Batch/State.antt =====
-- src/modules/ingestion/batched-ingestion-repository.ts: the variables of the closure.
-- Below them `State` holds what the event loop holds for it: the live timers, the calls of
-- `repository.insert` that run, and the promises that are settled. A promise is its number.
use log_stream.Base.{ℕ, Bool, false, List, [], ◌∷◌, Option, none, length, ◌+◌, ◌≡◌, ◌++◌, arith}

-- The four limits of `BatchedIngestionRepositoryOptions`.
pub record Config : Type 0 where
  pub flush_delay_ms : ℕ
  pub max_batch_rows : ℕ
  pub max_queued_rows : ℕ
  pub max_concurrent_writes : ℕ

-- `promise` stands for the pair of `resolve` and `reject`.
pub record PendingWrite (R : Type 0) : Type 0 where
  pub records : List R
  pub promise : ℕ

-- What `repository.insert` did with a batch, and what a promise settles to.
pub data Outcome : Type 0 where
  resolved failed overloaded : Outcome

-- A call of `repository.insert` with the writes that wait for it.
pub record Flight (R : Type 0) : Type 0 where
  pub writes : List (PendingWrite R)
  pub rows : List (Option R)

pub record State (R : Type 0) : Type 0 where
  pub pending : List (PendingWrite R)
  pub close_waiters : List ℕ
  pub queued_rows : ℕ
  pub active_writes : ℕ
  pub scheduled_flush : Option ℕ
  pub closed : Bool
  -- The event loop: live timers as handle and delay, running calls, and calls whose promises are
  -- settled and whose `finally` has not run.
  pub timers : List (ℕ × ℕ)
  pub next_handle : ℕ
  pub running : List (Flight R)
  pub delivered : ℕ
  pub next_promise : ℕ
  pub settled : List (ℕ × Outcome)
  pub next_close : ℕ
  pub settled_closes : List ℕ

-- Each of the promises takes one outcome.
abbrev pub settle_all : Outcome → List ℕ → List (ℕ × Outcome)
settle_all o [] = []
settle_all o (p ∷ ps) = (p, o) ∷ settle_all o ps

module _ {R : Type 0} where
  abbrev pub size : PendingWrite R → ℕ
  size w = length w.records

  abbrev pub total_rows : List (PendingWrite R) → ℕ
  total_rows [] = 0
  total_rows (w ∷ ws) = size w + total_rows ws

  -- The records of the writes, in order.
  abbrev pub all_records : List (PendingWrite R) → List R
  all_records [] = []
  all_records (w ∷ ws) = w.records ++ all_records ws

  pub total_rows-append :
      (xs ys : List (PendingWrite R)) → total_rows (xs ++ ys) ≡ total_rows xs + total_rows ys
  total_rows-append [] ys = omega arith
  total_rows-append (w ∷ xs) ys = omega (arith, total_rows-append xs ys)

  unfoldable pub initial : State R
  initial = record {
    pending = [];
    close_waiters = [];
    queued_rows = 0;
    active_writes = 0;
    scheduled_flush = none;
    closed = false;
    timers = [];
    next_handle = 0;
    running = [];
    delivered = 0;
    next_promise = 0;
    settled = [];
    next_close = 0;
    settled_closes = [];
  }
