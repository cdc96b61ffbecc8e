-- ===== src/Database/Works.antt =====
-- src/database: the events of the work under a lock, and what they keep.
pub mod Guarded
use log_stream.Base.{List, [], ◌∷◌, ◌++◌, Option, none, some, Option-cases, inl, inr, ℕ, ◌≡◌}
use log_stream.Base.Text.{Text}
use log_stream.Domain.Json.{Json}
use log_stream.Database.Session.{
  SqlQuery, begin, commit, rollback, script, insert_history_sql, initialize_history_sql,
  read_history_sql, read_partitions, lock_default, create_partition, attach_partition, has_overlap,
  move_overlap, Event, loaded, answered, rejected, World, Action, Ended, returned, threw,
  unfinished, ask, give, give_or, chain, handle, chain_intro, handle_intro, roll_back, ◌>>◌,
}

-- The statements that need the lock.
pub data IsWork : SqlQuery → Type 0 where
  reads_partitions : IsWork read_partitions
  locks_default : IsWork lock_default
  creates : {name start end : Text} → IsWork (create_partition name start end)
  attaches : {name start end : Text} → IsWork (attach_partition name start end)
  asks_overlap : {name start end : Text} → IsWork (has_overlap name start end)
  moves_overlap : {name start end : Text} → IsWork (move_overlap name start end)
  begins : IsWork begin
  commits : IsWork commit
  rolls_back : IsWork rollback
  initializes : IsWork initialize_history_sql
  reads : IsWork read_history_sql
  runs : {sql : Text} → IsWork (script sql)
  inserts :
      {version : ℕ} {filename checksum : Text}
      → IsWork (insert_history_sql version filename checksum)

pub data Works : Event → Type 0 where
  loads : Works loaded
  is_answered : {q : SqlQuery} {rows : List Json} → IsWork q → Works (answered q rows)
  is_rejected : {q : SqlQuery} → IsWork q → Works (rejected q)

-- The part is done, and this holds at its end.
abbrev pub DoneAt : {E A : Type 0} → (List Event → Type 0) → Ended E A × List Event → Type 0
DoneAt I (returned a, log) = I log
DoneAt I (threw e, log) = I log
DoneAt I (unfinished, log) = ⊥

module _ (world : World) (I : List Event → Type 0)
    (keeps : (log : List Event) (e : Event) → Works e → I log → I (log ++ (e ∷ []))) where
  abbrev Done : {E A : Type 0} → Ended E A × List Event → Type 0
  Done = DoneAt I

  pub ask-Done :
      {E : Type 0} (e : E) (q : SqlQuery) (log : List Event)
      → IsWork q
      → I log
      → Done (ask world e q log)
  ask-Done e q log w h = elim (Option-cases (world.reply log q)) [
    | inl r ↦ rw r (keeps log _ (is_rejected w) h)
    | inr (rows, r) ↦ rw r (keeps log _ (is_answered w) h)
  ]

  pub chain-Done :
      {E A B : Type 0} (x : Ended E A × List Event) (next : A → Action E B)
      → Done x
      → ((a : A) (log : List Event) → I log → Done (next a log))
      → Done (chain x next)
  chain-Done x next h on_value = chain_intro Done Done x next h on_value (λ _ log h. h) λ log h. h

  pub ask_then :
      {E B : Type 0} (e : E) (q : SqlQuery) (next : Action E B) (log : List Event)
      → IsWork q
      → I log
      → ((log : List Event) → I log → Done (next log))
      → Done ((ask world e q >> next) log)
  ask_then e q next log w h on_value =
      chain-Done (ask world e q log) (λ _. next) (ask-Done e q log w h) λ _. on_value

  pub transaction-Done :
      {E A : Type 0} (raw e : E) (x : Ended E A × List Event)
      → Done x
      → Done (handle x λ _. roll_back world raw e)
  transaction-Done {E} raw e x h =
      handle_intro Done Done x _ h (λ _ log h. h)
        (λ _ log h.
          chain-Done (handle (ask world raw rollback log) (λ _. give [])) _
            (handle_intro {E = E} {F = E} Done Done (ask world raw rollback log) _
              (ask-Done raw rollback log rolls_back h) (λ _ log h. h) (λ _ log h. h) λ log h. h)
            λ _ log h. h)
        λ log h. h

  pub give_or-Done :
      {E A : Type 0} (e : E) (o : Option A) (log : List Event) → I log → Done (give_or e o log)
  give_or-Done e none log h = h
  give_or-Done e (some a) log h = h
