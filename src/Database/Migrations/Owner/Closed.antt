-- ===== src/Database/Migrations/Owner/Closed.antt =====
-- src/database/migrations/migration-runner.ts: the attempts of the owner end, and close each connection
-- that they make.
use log_stream.Base.{
  ℕ, suc, ◌-◌, ◌≤◌, ◌≡◌, refl, ap, ◌∙◌, true, false, List, [], ◌∷◌, ◌++◌, Bool-cases, inl, inr,
  arith,
}
use log_stream.Database.Session.{
  Event, created, closed, World, Ended, returned, threw, unfinished, settle, keep_error,
  chain_intro,
}
use log_stream.Database.Lock.Kept.{
  Waits, reads_clock, sleeps, tries, fails, IsUnlock, unlocks, unlock_refused,
}
use log_stream.Database.Lock.Ends.{Advances}
use log_stream.Database.Migrations.{MigrationFile, MigrationFailure, Result}
use log_stream.Database.Works.{Works, loads, is_answered, is_rejected, DoneAt}
use log_stream.Database.Migrations.Owner.{Connection, close}

-- How many connections were created and not yet given to `end`.
abbrev step : Event → ℕ → ℕ
step (created true) n = suc n
step (closed b) n = n - 1
step _ n = n

unfoldable pub open_connections : ℕ → List Event → ℕ
open_connections n [] = n
open_connections n (e ∷ log) = open_connections (step e n) log

open_connections-append :
    (n : ℕ) (log : List Event) (e : Event)
    → open_connections n (log ++ (e ∷ [])) ≡ step e (open_connections n log)
unfolding open_connections
open_connections-append n [] e = refl
open_connections-append n (d ∷ log) e = open_connections-append (step d n) log e

-- At a time, with this many open connections.
pub record At (world : World) (start n time : ℕ) (log : List Event) : Type 0 where
  pub count : open_connections start log ≡ n
  pub since : time ≤ world.now log

module _ (world : World) (start : ℕ) (advances : Advances world) where
  pub At-one :
      (n m time : ℕ) (log : List Event) (e : Event)
      → step e n ≡ m
      → At world start n time log
      → At world start m time (log ++ (e ∷ []))
  At-one n m time log e s h = record {
    count = open_connections-append start log e ∙ ap (step e) h.count ∙ s;
    since = omega (arith, h.since, advances.forward log e);
  }

  pub waits-At :
      {id : ℕ} (n time : ℕ) (log : List Event) (e : Event)
      → Waits id e
      → At world start n time log
      → At world start n time (log ++ (e ∷ []))
  waits-At n time log e reads_clock h = At-one n n time log e refl h
  waits-At n time log e sleeps h = At-one n n time log e refl h
  waits-At n time log e tries h = At-one n n time log e refl h
  waits-At n time log e fails h = At-one n n time log e refl h

  pub works-At :
      (n time : ℕ) (log : List Event) (e : Event)
      → Works e
      → At world start n time log
      → At world start n time (log ++ (e ∷ []))
  works-At n time log e loads h = At-one n n time log e refl h
  works-At n time log e (is_answered w) h = At-one n n time log e refl h
  works-At n time log e (is_rejected w) h = At-one n n time log e refl h

  pub unlock-At :
      {id : ℕ} (n time : ℕ) (log : List Event) (e : Event)
      → IsUnlock id e
      → At world start n time log
      → At world start n time (log ++ (e ∷ []))
  unlock-At n time log e unlocks h = At-one n n time log e refl h
  unlock-At n time log e unlock_refused h = At-one n n time log e refl h

  pub closed_off :
      (n time : ℕ) (log : List Event) → At world start n time log → At world start n 0 log
  closed_off n time log h = record { count = h.count; since = omega arith }

  module _ (owner : Connection) (load_migrations : List Event → Result (List MigrationFile)) where
    pub close-At :
        (n time : ℕ) (log : List Event)
        → At world start (suc n) time log
        → DoneAt (At world start n time) (close world owner load_migrations log)
    close-At n time log h = elim (Bool-cases (owner.closes log)) [
      | inl b ↦ rw b (At-one (suc n) n time log (closed true) (omega arith) h)
      | inr b ↦ rw b (At-one (suc n) n time log (closed false) (omega arith) h)
    ]

    -- `finally` with the connection's end.
    pub settle-At :
        (n time : ℕ) (x : Ended MigrationFailure (List ℕ) × List Event)
        → DoneAt (At world start (suc n) time) x
        → DoneAt (At world start n time) (settle x (close world owner load_migrations))
    settle-At n time (returned versions, log) h =
        chain_intro (DoneAt (At world start n time)) (DoneAt (At world start n time))
          (close world owner load_migrations log) _ (close-At n time log h) (λ _ log h. h)
          (λ _ log h. h) λ log h. h
    settle-At n time (threw e, log) h =
        kept (close world owner load_migrations log) (close-At n time log h)
      where
        kept :
            (x : Ended MigrationFailure Unit × List Event)
            → DoneAt (At world start n time) x
            → DoneAt {A = List ℕ} (At world start n time) (keep_error e x)
        kept (returned u, log) h = h
        kept (threw d, log) h = h
        kept (unfinished, log) h = h
    settle-At n time (unfinished, log) h = h
