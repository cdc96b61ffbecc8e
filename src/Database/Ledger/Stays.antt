-- ===== src/Database/Ledger/Stays.antt =====
-- src/database: the waits for a lock and its release change nothing.
use log_stream.Base.{ℕ, ◌≡◌, ap, ◌∙◌, List, [], ◌∷◌, ◌++◌}
use log_stream.Database.Session.{SqlQuery, Event, World}
use log_stream.Database.Lock.Kept.{
  Waits, reads_clock, sleeps, tries, fails, IsUnlock, unlocks, unlock_refused,
}
use log_stream.Database.Ledger.{Ledger, ledger, idle, note, seen, seen-append}

module _ (world : World) (start : Ledger) where
  pub Stays-one :
      {id : ℕ} (rows : List SqlQuery) (log : List Event) (e : Event)
      → Waits id e
      → seen start log ≡ ledger rows idle
      → seen start (log ++ (e ∷ [])) ≡ ledger rows idle
  Stays-one rows log e reads_clock at = seen-append start log e ∙ at
  Stays-one rows log e sleeps at = seen-append start log e ∙ at
  Stays-one rows log e tries at = seen-append start log e ∙ at
  Stays-one rows log e fails at = seen-append start log e ∙ ap (note e) at

  pub committed-unlock :
      {id : ℕ} (log : List Event) (e : Event)
      → IsUnlock id e
      → (seen start (log ++ (e ∷ []))).committed ≡ (seen start log).committed
  committed-unlock log e unlocks = ap (λ l. l.committed) (seen-append start log e)
  committed-unlock log e unlock_refused = ap (λ l. l.committed) (seen-append start log e)
