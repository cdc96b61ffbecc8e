-- ===== src/Ingestion/Batch/Tests.antt =====
-- Runs of the write queue, and the theorems at such runs.
use log_stream.Base.{ℕ, ◌+◌, ◌≤◌, ◌≡◌, refl, List, [], ◌∷◌, some, none, arith}
use log_stream.Base.Int.{pos}
use log_stream.Base.Number.{int}
use log_stream.Ingestion.Batch.Options.{Options, read_config}
use log_stream.Ingestion.Batch.State.{Config, PendingWrite, resolved, failed, overloaded, initial}
use log_stream.Ingestion.Batch.Combine.{combine_records, combine_from, fill}
use log_stream.Ingestion.Batch.Combine.Laws.{combine_records_lem}
use log_stream.Ingestion.Batch.Take.{take_batch}
use log_stream.Ingestion.Batch.Flush.{
  drop_timer, has_timer, set_timer, cancel_flush, schedule_flush, start_write, start_batch,
  can_start, start_loop, flush_delay, reschedule, start_available_writes, flush,
}
use log_stream.Ingestion.Batch.Flush.Laws.{start_loop_enough}
use log_stream.Ingestion.Batch.Events.{
  settle_close, settle, enqueue, accept, refuses, insert, is_drained, clear_flush, close_now,
  await_close, close, deliver, write_done, finish, fire, step, run, Event, insert_call, close_call,
  timer_fires, write_settles, write_finishes,
}
use log_stream.Ingestion.Batch.Invariant.{Inv}
use log_stream.Ingestion.Batch.Safety.{run-initial-Inv}
use log_stream.Ingestion.Batch.Places.{HasPromises}
use log_stream.Ingestion.Batch.Promises.{run-initial-HasPromises}
use log_stream.Ingestion.Batch.Flights.{AreWhole, run-initial-AreWhole}
use log_stream.Ingestion.Batch.Progress.{work, AllEnabled, AllEnabled-length, timer, reply}
use log_stream.Ingestion.Batch.Liveness.{IsAnswered, run-IsAnswered}
use log_stream.Ingestion.Batch.Backlog.{IsBounded, run-initial-IsBounded}

abbrev small : Config
small = record {
  flush_delay_ms = 2;
  max_batch_rows = 2;
  max_queued_rows = 3;
  max_concurrent_writes = 1;
}

-- The first write starts at once; the second and the third wait, the fourth finds no room. Then the
-- first is written, and a flush is scheduled for the rest.
abbrev history : List (Event ℕ)
history =
    insert_call (10 ∷ [])
    ∷ insert_call (11 ∷ [])
    ∷ insert_call (12 ∷ 13 ∷ [])
    ∷ insert_call (14 ∷ [])
    ∷ write_settles 0 resolved
    ∷ write_finishes
    ∷ []

abbrev closing : List (Event ℕ)
closing =
    timer_fires 0
    ∷ close_call
    ∷ write_settles 0 failed
    ∷ write_finishes
    ∷ timer_fires 1
    ∷ write_settles 0 resolved
    ∷ write_finishes
    ∷ []

abbrev small_options : Options
small_options = record {
  flush_delay_ms = none;
  max_batch_rows = some (int (pos 2));
  max_queued_rows = some (int (pos 3));
  max_concurrent_writes = some (int (pos 1));
}

small_accepted : read_config small_options ≡ some small
unfolding read_config
small_accepted = refl

queue : Unit {0}
unfolding run step insert accept enqueue refuses settle settle_close is_drained clear_flush
    close_now await_close close deliver write_done finish fire flush start_available_writes
    reschedule flush_delay start_loop can_start start_batch start_write schedule_flush cancel_flush
    set_timer has_timer drop_timer take_batch combine_records combine_from fill initial
queue = tt

history_test :
    ((run small initial history).queued_rows ≡ 3)
    × ((run small initial history).timers ≡ (0, 0) ∷ [])
    × ((run small initial history).settled ≡ (3, overloaded) ∷ (0, resolved) ∷ [])
unfolding queue
history_test = (refl, refl, refl)

closing_test :
    ((run small (run small initial history) closing).settled
      ≡ (3, overloaded) ∷ (0, resolved) ∷ (1, failed) ∷ (2, resolved) ∷ [])
    × ((run small (run small initial history) closing).settled_closes ≡ 0 ∷ [])
unfolding queue
closing_test = (refl, refl)

run-initial-Inv_example : Inv small (run small initial history)
run-initial-Inv_example = run-initial-Inv small history

run-initial-HasPromises_example : HasPromises (run small initial history)
run-initial-HasPromises_example = run-initial-HasPromises small history

run-initial-AreWhole_example : AreWhole small (run small initial history)
run-initial-AreWhole_example = run-initial-AreWhole small history

run-initial-IsBounded_example : IsBounded small (run small initial history).pending
run-initial-IsBounded_example = run-initial-IsBounded small history

run-IsAnswered_example :
    (fs : List (Event ℕ)) × AllEnabled small (run small initial history) fs
    × IsAnswered (run small (run small initial history) fs)
run-IsAnswered_example = run-IsAnswered small_options small history small_accepted

history_enabled :
    AllEnabled small (run small initial history) (timer_fires 0 ∷ write_settles 0 failed ∷ [])
unfolding queue
history_enabled = (timer 0 refl, (reply 0 failed _ refl, tt))

AllEnabled-length_example :
    2 + work (run small (run small initial history) (timer_fires 0 ∷ write_settles 0 failed ∷ []))
    ≤ work (run small initial history)
AllEnabled-length_example =
    AllEnabled-length small (timer_fires 0 ∷ write_settles 0 failed ∷ [])
      (run small initial history) (run-initial-Inv small history) history_enabled

abbrev two_writes : List (PendingWrite ℕ)
two_writes =
    record { records = 5 ∷ 6 ∷ []; promise = 0 } ∷ record { records = 7 ∷ []; promise = 1 } ∷ []

combine_records_lem_example : combine_records two_writes 3 ≡ some 5 ∷ some 6 ∷ some 7 ∷ []
combine_records_lem_example = combine_records_lem two_writes

start_loop_enough_example :
    start_loop 9 small (run small initial history) ≡ start_loop 2 small (run small initial history)
unfolding queue
start_loop_enough_example =
    start_loop_enough 9 2 small (run small initial history) (omega arith) (omega arith)
