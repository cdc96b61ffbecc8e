-- ===== src/Ingestion/Batch/Safety.antt =====
-- The invariant after any history of calls, timers and settled writes.
use log_stream.Base.{refl, inl, List, [], ◌∷◌, arith}
use log_stream.Ingestion.Batch.State.{Config, State, initial}
use log_stream.Ingestion.Batch.Flush.{can_start}
use log_stream.Ingestion.Batch.Events.{Event, step, run}
use log_stream.Ingestion.Batch.Invariant.{Inv}
use log_stream.Ingestion.Batch.Invariant.Counted.{step-IsCounted}
use log_stream.Ingestion.Batch.Invariant.Armed.{step-IsArmed}
use log_stream.Ingestion.Batch.Invariant.Closing.{step-CloseWaits}

module _ {R : Type 0} where
  pub step-Inv : (c : Config) (s : State R) (e : Event R) → Inv c s → Inv c (step c s e)
  step-Inv c s e v = record {
    counted = step-IsCounted c s e v.counted;
    armed = step-IsArmed c s e v.armed;
    waits = step-CloseWaits c s e v.waits;
  }

  pub run-Inv : (c : Config) (es : List (Event R)) (s : State R) → Inv c s → Inv c (run c s es)
  unfolding run
  run-Inv c [] s v = v
  run-Inv c (e ∷ es) s v = run-Inv c es (step c s e) (step-Inv c s e v)

  pub initial-Inv : (c : Config) → Inv c (initial {R = R})
  unfolding initial can_start
  initial-Inv c = record {
    counted = record { rows = refl; active = omega arith; bound = omega arith };
    armed = record { armed = ground arith; timer = refl };
    waits = inl refl;
  }

  -- After every history of events from the start: the row counter is the number of queued rows, the
  -- write counter is the number of unfinished writes and stays within its limit, a flush is
  -- scheduled exactly while a write waits and another could start, with the one live timer, and a
  -- promise of `close` is open only when the queue is closed and not drained.
  pub run-initial-Inv : (c : Config) (es : List (Event R)) → Inv c (run c initial es)
  run-initial-Inv c es = run-Inv c es initial (initial-Inv c)
