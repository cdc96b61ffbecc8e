-- ===== src/Database/Partitions/Refined.antt =====
-- src/database/partitions/partition-preparer.ts: a whole preparation, read by what it commits.
use log_stream.Base.{
  if◌then◌else◌, ℕ, ◌+◌, ◌≡◌, refl, sym, ap, subst, ◌∙◌, Bool, List, [], ◌∷◌, ◌++◌, Option, none,
  some,
}
use log_stream.Base.Text.{Text}
use log_stream.Domain.Json.{Json}
use log_stream.Query.Sorting.{sort}
use log_stream.Database.Session.{
  SqlQuery, read_partitions, Event, read_clock, World, Ended, returned, threw, unfinished, give_or,
  chain, settle, keep_error, rescue, finally, chain_intro, handle_intro,
}
use log_stream.Database.Lock.{acquire_lock, release_lock}
use log_stream.Database.Lock.Kept.{acquire_lock-Holds, release_lock_intro}
use log_stream.Database.Ledger.{Ledger, ledger, idle, seen, seen-append, ask_intro}
use log_stream.Database.Ledger.Stays.{Stays-one, committed-unlock}
use log_stream.Database.Partitions.{DailyPartition}
use log_stream.Database.Partitions.Preparer.{
  is_preparation_failure, PreparationFailure, preparation, unexpected, invalid_plan,
  partition_lock_errors, existing_partitions, check_partitions, prepare_each, prepare_missing,
  as_preparation_failure, delay_or, prepare_partitions,
}
use log_stream.Database.Partitions.Prepared.{Prepares, prepare_each-Prepares}

-- The partitions that the database has, as they were read.
pub record Exists (world : World) (existing : List Text) : Type 0 where
  pub log : List Event
  pub rows : List Json
  pub reads : world.reply log read_partitions ≡ some rows
  pub decodes : existing_partitions rows ≡ some existing

-- What a preparation makes of the statements that are committed: nothing, since it failed before its
-- partitions or still waits for the lock; or what the abstract preparer does, whose error is replaced
-- where it is no error of this file, and whose success the lock's release may spoil.
pub data Prepared (world : World) (partitions : List DailyPartition)
    : List SqlQuery → List SqlQuery → Ended PreparationFailure Unit → Type 0 where
  untouched :
      {before : List SqlQuery} {e : PreparationFailure}
      → Prepared world partitions before before (threw e)
  waiting : {before : List SqlQuery} → Prepared world partitions before before unfinished
  ran :
      {existing : List Text} {before after : List SqlQuery} {end : Ended PreparationFailure Unit}
      → Exists world existing
      → Prepares world existing before partitions after end
      → Prepared world partitions before after end
  replaced :
      {existing : List Text} {before after : List SqlQuery} {e : PreparationFailure}
      → Exists world existing
      → Prepares world existing before partitions after (threw e)
      → Prepared world partitions before after
          (threw (if is_preparation_failure e then e else preparation))
  not_released :
      {existing : List Text} {before after : List SqlQuery}
      → Exists world existing
      → Prepares world existing before partitions after (returned tt)
      → Prepared world partitions before after (threw preparation)

module _ (world : World) (start : Ledger) (partitions : List DailyPartition) where
  abbrev PreparedTo : List SqlQuery → Ended PreparationFailure Unit × List Event → Type 0
  PreparedTo before (end, log) = Prepared world partitions before (seen start log).committed end

  read_elsewhere :
      {before after last : List SqlQuery} {end : Ended PreparationFailure Unit}
      → last ≡ after
      → Prepared world partitions before after end
      → Prepared world partitions before last end
  read_elsewhere {before} {end = end} e h =
      subst (λ rows. Prepared world partitions before rows end) (sym e) h

  untouched_at :
      (before : List SqlQuery) (e : PreparationFailure) (log : List Event)
      → (seen start log).committed ≡ before
      → PreparedTo before (threw e, log)
  untouched_at before e log at = read_elsewhere at untouched

  spoiled :
      {before after : List SqlQuery}
      → Prepared world partitions before after (returned tt)
      → Prepared world partitions before after (threw preparation)
  spoiled (ran x h) = not_released x h

  -- The part under the lock, before its error is replaced.
  data Missing : List SqlQuery → List SqlQuery → Ended PreparationFailure Unit → Type 0 where
    no_partitions :
        {before : List SqlQuery} {e : PreparationFailure} → Missing before before (threw e)
    some_partitions :
        {existing : List Text} {before after : List SqlQuery} {end : Ended PreparationFailure Unit}
        → Exists world existing
        → Prepares world existing before partitions after end
        → Missing before after end

  abbrev MissingTo : List SqlQuery → Ended PreparationFailure Unit × List Event → Type 0
  MissingTo before (end, log) = Missing before (seen start log).committed end

  missing_at :
      (before : List SqlQuery) (e : PreparationFailure) (log : List Event)
      → (seen start log).committed ≡ before
      → MissingTo before (threw e, log)
  missing_at before e log at = subst (λ rows. Missing before rows (threw e)) (sym at) no_partitions

  returned-Prepared :
      {before after : List SqlQuery} {end : Ended PreparationFailure Unit}
      → Missing before after end
      → Prepared world partitions before after end
  returned-Prepared no_partitions = untouched
  returned-Prepared (some_partitions x h) = ran x h

  threw-Prepared :
      {before after : List SqlQuery} {e : PreparationFailure}
      → Missing before after (threw e)
      → Prepared world partitions before after
          (threw (if is_preparation_failure e then e else preparation))
  threw-Prepared no_partitions = untouched
  threw-Prepared (some_partitions x h) = replaced x h

  decoded-MissingTo :
      (before : List SqlQuery) (rows : List Json) (o : Option (List Text))
      (read_log log : List Event)
      → world.reply read_log read_partitions ≡ some rows
      → existing_partitions rows ≡ o
      → seen start log ≡ ledger before idle
      → MissingTo before
          (chain (give_or preparation o log) λ existing. prepare_each world existing partitions)
  decoded-MissingTo before rows none read_log log reads decodes at =
      missing_at before preparation log (ap (λ l. l.committed) at)
  decoded-MissingTo before rows (some existing) read_log log reads decodes at =
      some_partitions (record { log = read_log; rows = rows; reads = reads; decodes = decodes })
        (prepare_each-Prepares world start existing partitions before log at)

  prepare_missing-PreparedTo :
      (before : List SqlQuery) (log : List Event)
      → seen start log ≡ ledger before idle
      → PreparedTo before (rescue (prepare_missing world partitions) as_preparation_failure log)
  unfolding prepare_missing
  prepare_missing-PreparedTo before log at =
      handle_intro (MissingTo before) (PreparedTo before) (prepare_missing world partitions log) _
        (ask_intro world start
          (λ x. MissingTo before (
            chain x (λ rows log.
              chain (give_or preparation (existing_partitions rows) log)
                (λ existing. prepare_each world existing partitions))))
          unexpected read_partitions _ log at
          (λ rows after reads at.
            decoded-MissingTo before rows (existing_partitions rows) log after reads refl at)
          λ after at. missing_at before unexpected after (ap (λ l. l.committed) at))
        (λ _ log h. returned-Prepared h) (λ e log h. threw-Prepared h) λ log h. returned-Prepared h

  settle-PreparedTo :
      (before : List SqlQuery) (x : Ended PreparationFailure Unit × List Event)
      → PreparedTo before x
      → PreparedTo before (settle x (release_lock world partition_lock_errors 2))
  settle-PreparedTo before (returned a, log) h =
      release_lock_intro world partition_lock_errors 2
        (λ x. PreparedTo before (chain x λ _ log. (returned a, log))) log
        (λ e k. read_elsewhere (committed-unlock world start log e k) h)
        λ e k. read_elsewhere (committed-unlock world start log e k) (spoiled h)
  settle-PreparedTo before (threw e, log) h =
      release_lock_intro world partition_lock_errors 2 (λ x. PreparedTo before (keep_error e x)) log
        (λ e k. read_elsewhere (committed-unlock world start log e k) h)
        λ e k. read_elsewhere (committed-unlock world start log e k) h
  settle-PreparedTo before (unfinished, log) h = h

  checked-PreparedTo :
      (before : List SqlQuery) (o : Option (List Text)) (deadline delay fuel : ℕ) (log : List Event)
      → seen start log ≡ ledger before idle
      → PreparedTo before (
          chain (give_or invalid_plan o log) λ names log.
            chain (acquire_lock world partition_lock_errors 2 deadline delay fuel log) λ _.
              finally
                (rescue (prepare_missing world partitions) as_preparation_failure)
                (release_lock world partition_lock_errors 2))
  checked-PreparedTo before none deadline delay fuel log at =
      untouched_at before invalid_plan log (ap (λ l. l.committed) at)
  checked-PreparedTo before (some names) deadline delay fuel log at =
      chain_intro (λ x. seen start (x.1) ≡ ledger before idle) (PreparedTo before)
        (acquire_lock world partition_lock_errors 2 deadline delay fuel log) _
        (acquire_lock-Holds world partition_lock_errors 2
          (λ log. seen start log ≡ ledger before idle) (Stays-one world start before) deadline delay
          fuel log at)
        (λ _ log at. settle-PreparedTo before _ (prepare_missing-PreparedTo before log at))
        (λ e log at. untouched_at before e log (ap (λ l. l.committed) at))
        λ log at. read_elsewhere (ap (λ l. l.committed) at) waiting

-- Read by what the statements sent commit, a preparation that starts outside a transaction is one of the abstract preparer, which takes the partitions in the order of their starts, passes over those that the database has, and of each other one that is that of a whole day commits together that it is created, that the rows of the default partition that belong to it are moved, where the database says that there are such, and that it is attached; or stops with nothing of it committed. Else the preparation fails before its first partition with nothing committed, or still waits for the lock. An error of the abstract preparer that is none of this file is replaced by a PartitionPreparationError, which is also the error where all went well but the lock could not be released.
pub prepare_partitions-Prepared :
    (world : World) (before : Text → Text → Bool) (partitions : List DailyPartition)
    (deadline delay : Option ℕ) (fuel : ℕ) (start : Ledger) (committed : List SqlQuery)
    (log : List Event)
    → seen start log ≡ ledger committed idle
    → Prepared world
        (sort (λ p q. before p.start q.start) partitions)
        committed
        (seen start
          (prepare_partitions world before partitions deadline delay fuel log).1).committed
        (prepare_partitions world before partitions deadline delay fuel log).0
unfolding prepare_partitions
prepare_partitions-Prepared world before partitions (some deadline) delay fuel start committed log
      at =
    let sorted = sort (λ p q. before p.start q.start) partitions in
    checked-PreparedTo world start sorted committed (check_partitions sorted []) deadline
      (delay_or delay) fuel log at
prepare_partitions-Prepared world before partitions none delay fuel start committed log at =
    let sorted = sort (λ p q. before p.start q.start) partitions in
    checked-PreparedTo world start sorted committed (check_partitions sorted [])
      (world.now log + 30000) (delay_or delay) fuel (log ++ (read_clock ∷ []))
      (seen-append start log read_clock ∙ at)
