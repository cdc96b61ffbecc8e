-- ===== src/Database/Ledger.antt =====
-- src/database: what the statements sent mean for the database.
pub mod Transactions
pub mod Stays
use log_stream.Base.{
  ℕ, ◌≡◌, refl, ap, ◌∙◌, List, [], ◌∷◌, ◌++◌, some, inl, inr, Option-cases, if◌then◌else◌,
}
use log_stream.Domain.Json.{Json}
use log_stream.Database.Session.{
  SqlQuery, begin, commit, rollback, script, insert_history_sql, initialize_history_sql,
  create_partition, move_overlap, attach_partition, Event, slept, answered, rejected, World, Ended,
  returned, threw, ask, sleep,
}

-- A transaction with the statements that have changed something in it, or one with a failed statement.
pub data Transaction : Type 0 where
  idle aborted : Transaction
  running : List SqlQuery → Transaction

-- The statements that are acknowledged as committed.
pub record Ledger : Type 0 where
  pub committed : List SqlQuery
  pub transaction : Transaction

abbrev pub ledger : List SqlQuery → Transaction → Ledger
ledger rows transaction = record { committed = rows; transaction = transaction }

abbrev begun : Transaction → Transaction
begun idle = running []
begun aborted = aborted
begun (running rows) = running rows

-- A statement outside a transaction is committed at once.
abbrev inserted : SqlQuery → List SqlQuery → Transaction → Ledger
inserted q rows idle = ledger (rows ++ (q ∷ [])) idle
inserted q rows aborted = ledger rows aborted
inserted q rows (running more) = ledger rows (running (more ++ (q ∷ [])))

abbrev ended : List SqlQuery → Transaction → Ledger
ended rows idle = ledger rows idle
ended rows aborted = ledger rows idle
ended rows (running more) = ledger (rows ++ more) idle

abbrev failed : Transaction → Transaction
failed idle = idle
failed aborted = aborted
failed (running rows) = aborted

abbrev changed : SqlQuery → Ledger → Ledger
changed q l = inserted q l.committed l.transaction

abbrev fulfilled : SqlQuery → Ledger → Ledger
fulfilled begin l = ledger l.committed (begun l.transaction)
fulfilled commit l = ended l.committed l.transaction
fulfilled rollback l = ledger l.committed idle
fulfilled (script sql) l = changed (script sql) l
fulfilled initialize_history_sql l = changed initialize_history_sql l
fulfilled (insert_history_sql version filename checksum) l =
    changed (insert_history_sql version filename checksum) l
fulfilled (create_partition name start end) l = changed (create_partition name start end) l
fulfilled (move_overlap name start end) l = changed (move_overlap name start end) l
fulfilled (attach_partition name start end) l = changed (attach_partition name start end) l
fulfilled _ l = l

abbrev pub note : Event → Ledger → Ledger
note (answered q rows) l = fulfilled q l
note (rejected q) l = ledger l.committed (failed l.transaction)
note _ l = l

unfoldable pub seen : Ledger → List Event → Ledger
seen l [] = l
seen l (e ∷ log) = seen (note e l) log

pub seen-append :
    (l : Ledger) (log : List Event) (e : Event) → seen l (log ++ (e ∷ [])) ≡ note e (seen l log)
unfolding seen
seen-append l [] e = refl
seen-append l (d ∷ log) e = seen-append (note d l) log e

module _ (world : World) (start : Ledger) {E : Type 0} where
  -- What a statement does to the ledger.
  pub ask_intro {κ} :
      (P : Ended E (List Json) × List Event → Type κ) (e : E) (q : SqlQuery) (l : Ledger)
      (log : List Event)
      → seen start log ≡ l
      → ((rows : List Json) (after : List Event)
          → world.reply log q ≡ some rows
          → seen start after ≡ note (answered q rows) l
          → P (returned rows, after))
      → ((after : List Event) → seen start after ≡ note (rejected q) l → P (threw e, after))
      → P (ask world e q log)
  ask_intro P e q l log at on_rows on_error = elim (Option-cases (world.reply log q)) [
    | inl h ↦ rw h (
        on_error (log ++ (rejected q ∷ []))
          (seen-append start log (rejected q) ∙ ap (note (rejected q)) at))
    | inr (rows, h) ↦ rw h (
        on_rows rows (log ++ (answered q rows ∷ [])) h
          (seen-append start log (answered q rows) ∙ ap (note (answered q rows)) at))
  ]

  pub sleep_intro {κ} :
      (P : Ended E Unit × List Event → Type κ) (e : E) (delay : ℕ) (l : Ledger) (log : List Event)
      → seen start log ≡ l
      → ((end : Ended E Unit) (after : List Event) → seen start after ≡ l → P (end, after))
      → P (sleep world e delay log)
  sleep_intro P e delay l log at on_end =
      on_end (if world.sleeps log delay then returned tt else threw e) (log ++ (slept delay ∷ []))
        (seen-append start log (slept delay) ∙ at)
