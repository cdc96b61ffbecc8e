-- ===== src/Database/Partitions/Works.antt =====
-- src/database/partitions/partition-preparer.ts: the events of the part under the lock, which ends.
use log_stream.Base.{Bool, true, false, List, [], ◌∷◌, ◌++◌}
use log_stream.Base.Text.{Text, units}
use log_stream.Database.Session.{
  Event, World, Ended, returned, threw, unfinished, ask, give_or, chain, settle, keep_error, rescue,
  finally, handle_intro, has_overlap,
}
use log_stream.Database.Lock.{release_lock, lock_row}
use log_stream.Database.Lock.Kept.{IsUnlock, release_lock_intro}
use log_stream.Database.Works.{
  Works, begins, commits, reads_partitions, locks_default, creates, attaches, asks_overlap,
  moves_overlap, DoneAt, ask-Done, chain-Done, ask_then, transaction-Done, give_or-Done,
}
use log_stream.Database.Partitions.{DailyPartition, assert_daily_partition}
use log_stream.Database.Partitions.Preparer.{
  PreparationFailure, preparation, unexpected, invalid_plan, partition_lock_errors, has_name,
  existing_partitions, move_if, attach_and_commit, prepare_in_transaction, prepare_partition,
  prepare_unless, prepare_each, prepare_missing, as_preparation_failure,
}

module _ (world : World) where
  module _ (I : List Event → Type 0)
      (keeps : (log : List Event) (e : Event) → Works e → I log → I (log ++ (e ∷ []))) where
    attach_and_commit-Done :
        (p : DailyPartition) (log : List Event) → I log → DoneAt I (attach_and_commit world p log)
    attach_and_commit-Done p log h =
        ask_then world I keeps _ _ _ log attaches h
          λ log h. ask-Done world I keeps _ _ log commits h

    move_if-Done :
        (p : DailyPartition) (overlap : Bool) (log : List Event)
        → I log
        → DoneAt I (move_if world p overlap log)
    move_if-Done p true log h = ask-Done world I keeps _ _ log moves_overlap h
    move_if-Done p false log h = h

    prepare_in_transaction-Done :
        (p : DailyPartition) (log : List Event)
        → I log
        → DoneAt I (prepare_in_transaction world p log)
    prepare_in_transaction-Done p log h = ask_then world I keeps _ _ _ log begins h λ log h.
        ask_then world I keeps _ _ _ log locks_default h λ log h.
          ask_then world I keeps _ _ _ log creates h λ log h.
            chain-Done world I keeps (ask world unexpected (has_overlap p.name p.start p.end) log) _
              (ask-Done world I keeps _ _ log asks_overlap h)
              λ rows log h.
                chain-Done world I keeps
                  (give_or preparation (lock_row (units "has_overlap") rows) log) _
                  (give_or-Done world I keeps preparation (lock_row (units "has_overlap") rows) log
                    h)
                  λ overlap log h.
                    chain-Done world I keeps (move_if world p overlap log) _
                      (move_if-Done p overlap log h) λ _ log h. attach_and_commit-Done p log h

    prepare_partition-Done :
        (p : DailyPartition) (log : List Event) → I log → DoneAt I (prepare_partition world p log)
    unfolding prepare_partition
    prepare_partition-Done p log h =
        chain-Done world I keeps (give_or invalid_plan (assert_daily_partition p) log) _
          (give_or-Done world I keeps invalid_plan (assert_daily_partition p) log h)
          λ q log h.
            transaction-Done world I keeps unexpected preparation
              (prepare_in_transaction world q log) (prepare_in_transaction-Done q log h)

    prepare_unless-Done :
        (known : Bool) (p : DailyPartition) (log : List Event)
        → I log
        → DoneAt I (prepare_unless world known p log)
    prepare_unless-Done true p log h = h
    prepare_unless-Done false p log h = prepare_partition-Done p log h

    prepare_each-Done :
        (existing : List Text) (partitions : List DailyPartition) (log : List Event)
        → I log
        → DoneAt I (prepare_each world existing partitions log)
    unfolding prepare_each
    prepare_each-Done existing [] log h = h
    prepare_each-Done existing (p ∷ partitions) log h =
        chain-Done world I keeps (prepare_unless world (has_name existing p.name) p log) _
          (prepare_unless-Done (has_name existing p.name) p log h)
          λ _. prepare_each-Done existing partitions

    prepare_missing-Done :
        (partitions : List DailyPartition) (log : List Event)
        → I log
        → DoneAt I (rescue (prepare_missing world partitions) as_preparation_failure log)
    unfolding prepare_missing
    prepare_missing-Done partitions log h =
        handle_intro (DoneAt I) (DoneAt I) (prepare_missing world partitions log) _
          (chain-Done world I keeps (ask world unexpected _ log) _
            (ask-Done world I keeps _ _ log reads_partitions h)
            λ rows log h.
              chain-Done world I keeps (give_or preparation (existing_partitions rows) log) _
                (give_or-Done world I keeps preparation (existing_partitions rows) log h)
                λ existing log h. prepare_each-Done existing partitions log h)
          (λ _ log h. h) (λ _ log h. h) λ log h. h

    -- With the release, which turns what held into what holds after.
    module _ (J : List Event → Type 0)
        (releases : (log : List Event) (e : Event)
          → IsUnlock 2 e
          → I log
          → J (log ++ (e ∷ []))) where
      settle-DoneAt :
          (x : Ended PreparationFailure Unit × List Event)
          → DoneAt I x
          → DoneAt J (settle x (release_lock world partition_lock_errors 2))
      settle-DoneAt (returned a, log) h =
          release_lock_intro world partition_lock_errors 2
            (λ x. DoneAt J (chain x λ _ log. (returned a, log))) log (λ e u. releases log e u h)
            λ e u. releases log e u h
      settle-DoneAt (threw e, log) h =
          release_lock_intro world partition_lock_errors 2
            (λ x. DoneAt {A = Unit} J (keep_error e x)) log (λ e u. releases log e u h)
            λ e u. releases log e u h
      settle-DoneAt (unfinished, log) h = h

      pub prepare_locked-DoneAt :
          (partitions : List DailyPartition) (log : List Event)
          → I log
          → DoneAt J (
              finally
                (rescue (prepare_missing world partitions) as_preparation_failure)
                (release_lock world partition_lock_errors 2)
                log)
      prepare_locked-DoneAt partitions log h =
          settle-DoneAt (rescue (prepare_missing world partitions) as_preparation_failure log)
            (prepare_missing-Done partitions log h)
