-- ===== src/Database/Session.antt =====
-- src/database/migrations/migration-types.ts: connections and clocks, and code that awaits them. What
-- such code does is recorded as events; the world answers by the events before.
use log_stream.Base.{ℕ, Bool, List, [], ◌∷◌, ◌++◌, Option, none, some, if◌then◌else◌}
use log_stream.Base.Text.{Text}
use log_stream.Domain.Json.{Json}

-- The statements that are sent, by their texts and parameters.
pub data SqlQuery : Type 0 where
  try_lock unlock : (id : ℕ) → SqlQuery
  begin commit rollback : SqlQuery
  initialize_history_sql read_history_sql : SqlQuery
  script : (sql : Text) → SqlQuery
  insert_history_sql : (version : ℕ) (filename checksum : Text) → SqlQuery
  read_partitions lock_default : SqlQuery
  create_partition attach_partition has_overlap move_overlap : (name start end : Text) → SqlQuery

-- `connected`, `closed`, `created` and `probed` tell whether the call succeeded.
pub data Event : Type 0 where
  read_clock : Event
  slept : ℕ → Event
  answered : SqlQuery → List Json → Event
  rejected : SqlQuery → Event
  loaded : Event
  created connected closed probed : Bool → Event

pub data Ended (E A : Type 0) : Type 0 where
  returned : A → Ended E A
  threw : E → Ended E A
  unfinished : Ended E A

-- Code that ends with a value or an error, or is not done yet, after more events.
abbrev pub Action : Type 0 → Type 0 → Type 0
Action E A = List Event → Ended E A × List Event

pub record World : Type 0 where
  pub now : List Event → ℕ
  pub sleeps : List Event → ℕ → Bool
  pub reply : List Event → SqlQuery → Option (List Json)

module _ {E A B : Type 0} where
  abbrev pub chain : Ended E A × List Event → (A → Action E B) → Ended E B × List Event
  chain (returned a, log) next = next a log
  chain (threw e, log) next = (threw e, log)
  chain (unfinished, log) next = (unfinished, log)

  infixl 5 ◌>>=◌ ◌>>◌
  abbrev pub ◌>>=◌ : Action E A → (A → Action E B) → Action E B
  (first >>= next) log = chain (first log) next

  abbrev pub ◌>>◌ : Action E A → Action E B → Action E B
  (first >> next) log = chain (first log) λ _. next

  -- What holds of the first part's end, and of the second part's from there, holds of the chain.
  pub chain_intro {κ ι} :
      (Q : Ended E A × List Event → Type κ) (P : Ended E B × List Event → Type ι)
      (x : Ended E A × List Event) (next : A → Action E B)
      → Q x
      → ((a : A) (log : List Event) → Q (returned a, log) → P (next a log))
      → ((e : E) (log : List Event) → Q (threw e, log) → P (threw e, log))
      → ((log : List Event) → Q (unfinished, log) → P (unfinished, log))
      → P (chain x next)
  chain_intro Q P (returned a, log) next h on_value on_error on_rest = on_value a log h
  chain_intro Q P (threw e, log) next h on_value on_error on_rest = on_error e log h
  chain_intro Q P (unfinished, log) next h on_value on_error on_rest = on_rest log h

module _ {E F A : Type 0} where
  abbrev pub handle : Ended E A × List Event → (E → Action F A) → Ended F A × List Event
  handle (returned a, log) handler = (returned a, log)
  handle (threw e, log) handler = handler e log
  handle (unfinished, log) handler = (unfinished, log)

  -- `try { body } catch (error) { handler }`.
  abbrev pub rescue : Action E A → (E → Action F A) → Action F A
  rescue body handler log = handle (body log) handler

  pub handle_intro {κ ι} :
      (Q : Ended E A × List Event → Type κ) (P : Ended F A × List Event → Type ι)
      (x : Ended E A × List Event) (handler : E → Action F A)
      → Q x
      → ((a : A) (log : List Event) → Q (returned a, log) → P (returned a, log))
      → ((e : E) (log : List Event) → Q (threw e, log) → P (handler e log))
      → ((log : List Event) → Q (unfinished, log) → P (unfinished, log))
      → P (handle x handler)
  handle_intro Q P (returned a, log) handler h on_value on_error on_rest = on_value a log h
  handle_intro Q P (threw e, log) handler h on_value on_error on_rest = on_error e log h
  handle_intro Q P (unfinished, log) handler h on_value on_error on_rest = on_rest log h

module _ {E A : Type 0} where
  abbrev pub keep_error : {B : Type 0} → E → Ended E B × List Event → Ended E A × List Event
  keep_error e (returned b, log) = (threw e, log)
  keep_error e (threw d, log) = (threw e, log)
  keep_error e (unfinished, log) = (unfinished, log)

  abbrev pub settle : Ended E A × List Event → Action E Unit → Ended E A × List Event
  settle (returned a, log) last = chain (last log) λ _ log. (returned a, log)
  settle (threw e, log) last = keep_error e (last log)
  settle (unfinished, log) last = (unfinished, log)

  -- `last` after `body`, with the first error of the two: `primaryError ??= error`.
  abbrev pub finally : Action E A → Action E Unit → Action E A
  finally body last log = settle (body log) last

abbrev pub give : {E A : Type 0} → A → Action E A
give a log = (returned a, log)

abbrev pub fail : {E A : Type 0} → E → Action E A
fail e log = (threw e, log)

-- The value of a reading that may fail.
abbrev pub give_or : {E A : Type 0} → E → Option A → Action E A
give_or e none = fail e
give_or e (some a) = give a

module _ (world : World) {E : Type 0} where
  abbrev pub ask_by : E → SqlQuery → Option (List Json) → Action E (List Json)
  ask_by e q none log = (threw e, log ++ (rejected q ∷ []))
  ask_by e q (some rows) log = (returned rows, log ++ (answered q rows ∷ []))

  -- `database.query`, where `e` stands for the error of a rejection.
  abbrev pub ask : E → SqlQuery → Action E (List Json)
  ask e q log = ask_by e q (world.reply log q) log

  abbrev pub now : Action E ℕ
  now log = (returned (world.now log), log ++ (read_clock ∷ []))

  -- `clock.sleep`, where `e` stands for the error of a rejection.
  abbrev pub sleep : E → ℕ → Action E Unit
  sleep e delay log =
      (if world.sleeps log delay then returned tt else threw e, log ++ (slept delay ∷ []))

-- The handler of a transaction: `ROLLBACK`, whose own error is dropped, and the error. `raw` stands for
-- the error of a rejected statement.
abbrev pub roll_back : {E A : Type 0} → World → E → E → Action E A
roll_back world raw e = rescue (ask world raw rollback) (λ _. give []) >> fail e
