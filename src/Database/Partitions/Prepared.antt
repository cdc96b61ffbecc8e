-- ===== src/Database/Partitions/Prepared.antt =====
-- src/database/partitions/partition-preparer.ts: each partition is created, filled and attached wholly
-- or not at all.
use log_stream.Base.{
  ◌≡◌, refl, sym, ap, subst, ◌∙◌, Bool, true, false, List, [], ◌∷◌, ◌++◌, Option, none, some,
  Bool-cases, inl, inr,
}
use log_stream.Base.Text.{Text, units}
use log_stream.Domain.Json.{Json}
use log_stream.Database.Session.{
  SqlQuery, commit, lock_default, create_partition, attach_partition, has_overlap, move_overlap,
  Event, World, Ended, returned, threw, unfinished, give_or, chain, chain_intro, handle_intro,
  handle, rescue, roll_back, ◌>>◌,
}
use log_stream.Database.Lock.{lock_row}
use log_stream.Database.Ledger.{Ledger, ledger, idle, running, seen, ask_intro}
use log_stream.Database.Ledger.Transactions.{Fails, step_intro, begin_step_intro, roll_back-Fails}
use log_stream.Database.Partitions.{DailyPartition, assert_daily_partition}
use log_stream.Database.Partitions.Planned.{IsDaily, accepted}
use log_stream.Database.Partitions.Preparer.{
  PreparationFailure, preparation, unexpected, invalid_plan, has_name, move_if, attach_and_commit,
  prepare_in_transaction, prepare_partition, prepare_each,
}

-- What preparing the partition changes: the rows of the default partition that belong to it are moved
-- in between.
abbrev pub partition_changes : DailyPartition → Bool → List SqlQuery
partition_changes p true =
    create_partition p.name p.start p.end
    ∷ move_overlap p.name p.start p.end
    ∷ attach_partition p.name p.start p.end
    ∷ []
partition_changes p false =
    create_partition p.name p.start p.end ∷ attach_partition p.name p.start p.end ∷ []

-- The database answered whether the default partition has such rows.
pub record Overlaps (world : World) (p : DailyPartition) (overlap : Bool) : Type 0 where
  pub log : List Event
  pub rows : List Json
  pub reads : world.reply log (has_overlap p.name p.start p.end) ≡ some rows
  pub says : lock_row (units "has_overlap") rows ≡ some overlap

-- The abstract preparer: from the statements committed so far and the partitions that are left to the
-- statements committed at the end and how it ends.
pub data Prepares (world : World) (existing : List Text)
    : List SqlQuery
      → List DailyPartition
      → List SqlQuery
      → Ended PreparationFailure Unit
      → Type 0 where
  all_prepared : {before : List SqlQuery} → Prepares world existing before [] before (returned tt)
  skipped :
      {p : DailyPartition} {partitions : List DailyPartition} {before after : List SqlQuery}
      {end : Ended PreparationFailure Unit}
      → has_name existing p.name ≡ true
      → Prepares world existing before partitions after end
      → Prepares world existing before (p ∷ partitions) after end
  prepared :
      {p : DailyPartition} {partitions : List DailyPartition} {before after : List SqlQuery}
      {end : Ended PreparationFailure Unit} {overlap : Bool}
      → has_name existing p.name ≡ false
      → IsDaily p
      → Overlaps world p overlap
      → Prepares world existing (before ++ partition_changes p overlap) partitions after end
      → Prepares world existing before (p ∷ partitions) after end
  failed :
      {p : DailyPartition} {partitions : List DailyPartition} {before : List SqlQuery}
      {e : PreparationFailure}
      → has_name existing p.name ≡ false
      → Prepares world existing before (p ∷ partitions) before (threw e)

module _ (world : World) (start : Ledger) where
  -- The partition is prepared and committed, or nothing is.
  abbrev PreparedAt :
      {A : Type 0}
      → List SqlQuery
      → DailyPartition
      → Ended PreparationFailure A × List Event
      → Type 0
  PreparedAt before p (returned a, log) =
      (overlap : Bool) × Overlaps world p overlap
      × (seen start log ≡ ledger (before ++ partition_changes p overlap) idle)
  PreparedAt before p (threw e, log) = (seen start log).committed ≡ before
  PreparedAt before p (unfinished, log) = ⊥

  attach_and_commit-PreparedAt :
      (before : List SqlQuery) (p : DailyPartition) (overlap : Bool) (rows : List SqlQuery)
      (log : List Event)
      → Overlaps world p overlap
      → seen start log ≡ ledger before (running rows)
      → rows ++ (attach_partition p.name p.start p.end ∷ []) ≡ partition_changes p overlap
      → PreparedAt before p (attach_and_commit world p log)
  attach_and_commit-PreparedAt before p overlap rows log o at all =
      step_intro world start unexpected (PreparedAt before p) before rows _ log _ _ (λ _ h. h) at
        (λ _. refl)
        λ _ log _ at.
          ask_intro world start (PreparedAt before p) unexpected commit _ log at
            (λ _ log _ at. (overlap, o, at ∙ ap (λ rows. ledger (before ++ rows) idle) all))
            λ log at. ap (λ l. l.committed) at

  move_if-PreparedAt :
      (before : List SqlQuery) (p : DailyPartition) (o : Option Bool) (reply : List Json)
      (ask_log log : List Event)
      → world.reply ask_log (has_overlap p.name p.start p.end) ≡ some reply
      → lock_row (units "has_overlap") reply ≡ o
      → seen start log ≡ ledger before (running (create_partition p.name p.start p.end ∷ []))
      → PreparedAt before p (
          chain
            (give_or preparation o log)
            λ overlap. move_if world p overlap >> attach_and_commit world p)
  move_if-PreparedAt before p none reply ask_log log r e at = ap (λ l. l.committed) at
  move_if-PreparedAt before p (some true) reply ask_log log r e at =
      step_intro world start unexpected (PreparedAt before p) before _ _ log _ _ (λ _ h. h) at
        (λ _. refl)
        λ _ log _ at.
          attach_and_commit-PreparedAt before p true _ log
            (record { log = ask_log; rows = reply; reads = r; says = e }) at refl
  move_if-PreparedAt before p (some false) reply ask_log log r e at =
      attach_and_commit-PreparedAt before p false _ log
        (record { log = ask_log; rows = reply; reads = r; says = e }) at refl

  prepare_in_transaction-PreparedAt :
      (before : List SqlQuery) (p : DailyPartition) (log : List Event)
      → seen start log ≡ ledger before idle
      → PreparedAt before p (prepare_in_transaction world p log)
  prepare_in_transaction-PreparedAt before p log at =
      let created = create_partition p.name p.start p.end in
      begin_step_intro world start unexpected (PreparedAt before p) before log _ (λ _ h. h) at
        λ log at.
          step_intro world start unexpected (PreparedAt before p) before [] [] log lock_default _
            (λ _ h. h) at (λ _. refl)
            λ _ log _ at.
              step_intro world start unexpected (PreparedAt before p) before [] (created ∷ []) log
                created _ (λ _ h. h) at (λ _. refl)
                λ _ log _ at.
                  step_intro world start unexpected (PreparedAt before p) before (created ∷ [])
                    (created ∷ []) log (has_overlap p.name p.start p.end) _ (λ _ h. h) at
                    (λ _. refl)
                    λ reply after r at. move_if-PreparedAt before p _ reply log after r refl at

  -- The same for a partition that is checked first.
  abbrev CheckedAt :
      {A : Type 0}
      → List SqlQuery
      → DailyPartition
      → Ended PreparationFailure A × List Event
      → Type 0
  CheckedAt {A = A} before p (returned a, log) =
      IsDaily p × PreparedAt {A = A} before p (returned a, log)
  CheckedAt {A = A} before p (threw e, log) = (seen start log).committed ≡ before
  CheckedAt {A = A} before p (unfinished, log) = ⊥

  checked-CheckedAt :
      (before : List SqlQuery) (p : DailyPartition) (o : Option DailyPartition) (log : List Event)
      → assert_daily_partition p ≡ o
      → seen start log ≡ ledger before idle
      → CheckedAt before p (
          chain (give_or invalid_plan o log) λ p.
            rescue (prepare_in_transaction world p) λ _. roll_back world unexpected preparation)
  checked-CheckedAt before p none log e at = ap (λ l. l.committed) at
  checked-CheckedAt before p (some q) log e at =
      let (daily, same) = accepted p q e in
      subst
        (λ q. CheckedAt before p (
          handle (prepare_in_transaction world q log)
            (λ _. roll_back world unexpected preparation)))
        same
        (handle_intro (PreparedAt before p) (CheckedAt before p)
          (prepare_in_transaction world p log) _ (prepare_in_transaction-PreparedAt before p log at)
          (λ _ log h. (daily, h))
          (λ e log h.
            rolled_back (roll_back world unexpected preparation log)
              (roll_back-Fails world start unexpected (List Json) before preparation log h))
          λ log h. h)
    where
      rolled_back :
          (x : Ended PreparationFailure (List Json) × List Event)
          → Fails world start unexpected before preparation x
          → CheckedAt before p x
      rolled_back (returned a, log) h = absurd h
      rolled_back (threw e, log) h = h.1
      rolled_back (unfinished, log) h = h

  prepare_partition-CheckedAt :
      (before : List SqlQuery) (p : DailyPartition) (log : List Event)
      → seen start log ≡ ledger before idle
      → CheckedAt before p (prepare_partition world p log)
  unfolding prepare_partition
  prepare_partition-CheckedAt before p log at =
      checked-CheckedAt before p (assert_daily_partition p) log refl at

  -- A run of the abstract preparer.
  abbrev pub PreparesTo :
      List Text
      → List SqlQuery
      → List DailyPartition
      → Ended PreparationFailure Unit × List Event
      → Type 0
  PreparesTo existing before partitions (end, log) =
      Prepares world existing before partitions (seen start log).committed end

  moved :
      {existing : List Text} {before after last : List SqlQuery} {partitions : List DailyPartition}
      {end : Ended PreparationFailure Unit}
      → last ≡ after
      → Prepares world existing before partitions after end
      → Prepares world existing before partitions last end
  moved {existing} {before} {partitions = partitions} {end = end} e h =
      subst (λ rows. Prepares world existing before partitions rows end) (sym e) h

  pub prepare_each-Prepares :
      (existing : List Text) (partitions : List DailyPartition) (before : List SqlQuery)
      (log : List Event)
      → seen start log ≡ ledger before idle
      → PreparesTo existing before partitions (prepare_each world existing partitions log)
  unfolding prepare_each
  prepare_each-Prepares existing [] before log at = moved (ap (λ l. l.committed) at) all_prepared
  prepare_each-Prepares existing (p ∷ partitions) before log at =
      elim (Bool-cases (has_name existing p.name)) [
        | inl b ↦ rw b (skipped b (prepare_each-Prepares existing partitions before log at))
        | inr b ↦ rw b (
            chain_intro (CheckedAt before p) (PreparesTo existing before (p ∷ partitions))
              (prepare_partition world p log) _ (prepare_partition-CheckedAt before p log at)
              (λ _ log h.
                prepared b (h.0) (h.1.1) (prepare_each-Prepares existing partitions _ log (h.1.2)))
              (λ e log h. moved h (failed b)) λ log h. absurd h)
      ]
