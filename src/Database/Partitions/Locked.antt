-- ===== src/Database/Partitions/Locked.antt =====
-- src/database/partitions/partition-preparer.ts: the lock of a preparation, and its end.
use log_stream.Base.{ℕ, suc, ◌+◌, ◌≤◌, ◌<◌, ◌≡◌, ◌∙◌, Bool, List, [], ◌∷◌, ◌++◌, Option, none, some}
use log_stream.Base.Text.{Text}
use log_stream.Query.Sorting.{sort}
use log_stream.Database.Session.{
  Event, read_clock, World, Ended, returned, threw, unfinished, Action, give_or, chain, rescue,
  finally, chain_intro,
}
use log_stream.Database.Lock.{acquire_lock, release_lock}
use log_stream.Database.Lock.Kept.{Waits, IsUnlock, acquire_lock-Holds}
use log_stream.Database.Lock.Guard.{
  Guard, free, held, guard, guard-append, HeldAfter, acquire_lock-HeldAfter, free-unlock,
}
use log_stream.Database.Lock.Ends.{Advances, Ends, acquire_lock-Ends}
use log_stream.Database.Works.{Works, DoneAt}
use log_stream.Database.Works.Guarded.{watch-Works}
use log_stream.Database.Partitions.{DailyPartition}
use log_stream.Database.Partitions.Preparer.{
  PreparationFailure, invalid_plan, partition_lock_errors, check_partitions, delay_or,
  prepare_missing, as_preparation_failure, prepare_partitions,
}
use log_stream.Database.Partitions.Works.{prepare_locked-DoneAt}

module _ (world : World) where
  -- What a preparation does once it has its deadline and its sorted partitions.
  abbrev pub prepare_sorted :
      List DailyPartition → (deadline delay fuel : ℕ) → Action PreparationFailure Unit
  prepare_sorted partitions deadline delay fuel log =
      chain (give_or invalid_plan (check_partitions partitions []) log) λ names log.
        chain (acquire_lock world partition_lock_errors 2 deadline delay fuel log) λ _.
          finally (rescue (prepare_missing world partitions) as_preparation_failure)
            (release_lock world partition_lock_errors 2)

  guard_of :
      (start : Guard) (x : Ended PreparationFailure Unit × List Event)
      → DoneAt (λ log. guard start log ≡ free) x
      → guard start (x.1) ≡ free
  guard_of start (returned a, log) h = h
  guard_of start (threw e, log) h = h
  guard_of start (unfinished, log) h = absurd h

  guard-prepare_sorted :
      (partitions : List DailyPartition) (deadline delay fuel : ℕ) (start : Guard)
      (log : List Event)
      → guard start log ≡ free
      → guard start (prepare_sorted partitions deadline delay fuel log).1 ≡ free
  guard-prepare_sorted partitions deadline delay fuel start log h =
      checked (check_partitions partitions [])
    where
      checked :
          (o : Option (List Text))
          → guard start
              (chain (give_or invalid_plan o log) (λ names log.
                chain (acquire_lock world partition_lock_errors 2 deadline delay fuel log) λ _.
                  finally
                    (rescue (prepare_missing world partitions) as_preparation_failure)
                    (release_lock world partition_lock_errors 2))).1
            ≡ free
      checked none = h
      checked (some names) =
          chain_intro (HeldAfter world partition_lock_errors 2 start)
            (λ x. guard start (x.1) ≡ free)
            (acquire_lock world partition_lock_errors 2 deadline delay fuel log) _
            (acquire_lock-HeldAfter world partition_lock_errors 2 start deadline delay fuel log h)
            (λ _ log h. guard_of start _ (
              prepare_locked-DoneAt world (λ log. guard start log ≡ held) (watch-Works start)
                (λ log. guard start log ≡ free) (free-unlock start) partitions log h))
            (λ e log h. h) λ log h. h

  -- A preparation that starts with the lock free ends with the lock free, whatever the database answers and however it ends: every statement but those on the lock is sent while the lock is held, and the lock is released exactly as often as it is taken.
  pub guard-prepare_partitions :
      (before : Text → Text → Bool) (partitions : List DailyPartition) (deadline delay : Option ℕ)
      (fuel : ℕ) (start : Guard) (log : List Event)
      → guard start log ≡ free
      → guard start (prepare_partitions world before partitions deadline delay fuel log).1 ≡ free
  unfolding prepare_partitions
  guard-prepare_partitions before partitions (some deadline) delay fuel start log h =
      guard-prepare_sorted (sort (λ p q. before p.start q.start) partitions) deadline
        (delay_or delay) fuel start log h
  guard-prepare_partitions before partitions none delay fuel start log h =
      guard-prepare_sorted (sort (λ p q. before p.start q.start) partitions) (world.now log + 30000)
        (delay_or delay) fuel start (log ++ (read_clock ∷ []))
        (guard-append start log read_clock ∙ h)

  -- A preparation that is given a deadline and a delay ends, and keeps what each of its events keeps.
  pub prepare_partitions-DoneAt :
      (I : List Event → Type 0) (before : Text → Text → Bool) (partitions : List DailyPartition)
      (deadline delay fuel : ℕ) (log : List Event)
      → ((log : List Event) (e : Event) → Waits 2 e → I log → I (log ++ (e ∷ [])))
      → ((log : List Event) (e : Event) → Works e → I log → I (log ++ (e ∷ [])))
      → ((log : List Event) (e : Event) → IsUnlock 2 e → I log → I (log ++ (e ∷ [])))
      → Advances world
      → 0 < delay
      → deadline ≤ world.now log + fuel
      → I log
      → DoneAt I
          (prepare_partitions world before partitions (some deadline) (some delay) (suc fuel) log)
  unfolding prepare_partitions
  prepare_partitions-DoneAt I before unsorted deadline delay fuel log waits_keep keeps unlock_keeps
        advances waits enough h =
      checked (check_partitions (sort (λ p q. before p.start q.start) unsorted) [])
    where
      acquired :
          (x : Ended PreparationFailure Unit × List Event)
          → Ends x
          → I (x.1)
          → DoneAt I (
              chain x λ _.
                finally
                  (rescue
                    (prepare_missing world (sort (λ p q. before p.start q.start) unsorted))
                    as_preparation_failure)
                  (release_lock world partition_lock_errors 2))
      acquired (returned u, log) ends h = prepare_locked-DoneAt world I keeps I unlock_keeps _ log h
      acquired (threw e, log) ends h = h
      acquired (unfinished, log) ends h = ends

      checked :
          (o : Option (List Text))
          → DoneAt I (
              chain (give_or invalid_plan o log) λ names log.
                chain
                  (acquire_lock world partition_lock_errors 2 deadline delay (suc fuel) log)
                  λ _.
                    finally
                      (rescue
                        (prepare_missing world (sort (λ p q. before p.start q.start) unsorted))
                        as_preparation_failure)
                      (release_lock world partition_lock_errors 2))
      checked none = h
      checked (some names) =
          acquired (acquire_lock world partition_lock_errors 2 deadline delay (suc fuel) log)
            (acquire_lock-Ends world partition_lock_errors 2 advances deadline delay waits fuel log
              enough)
            (acquire_lock-Holds world partition_lock_errors 2 I waits_keep deadline delay (suc fuel)
              log h)
