-- ===== src/Database/Ledger/Transactions.antt =====
-- src/database: code in a transaction, which commits what it changes or leaves it alone.
use log_stream.Base.{some, ◌≡◌, refl, ap, ◌∙◌, List, [], ◌++◌}
use log_stream.Domain.Json.{Json}
use log_stream.Database.Session.{
  SqlQuery, begin, commit, rollback, Event, answered, World, Action, Ended, returned, threw,
  unfinished, ask, give, fail, chain, handle, handle_intro, roll_back, ◌>>◌,
}
use log_stream.Database.Ledger.{Ledger, ledger, idle, running, note, seen, ask_intro}

module _ (world : World) (start : Ledger) {E : Type 0} where
  -- Code that ends has committed these statements; one that fails leaves the database alone.
  abbrev pub Commits : {A : Type 0} (before after : List SqlQuery) → Ended E A × List Event → Type 0
  Commits before after (returned a, log) = seen start log ≡ ledger after idle
  Commits before after (threw e, log) = (seen start log).committed ≡ before
  Commits before after (unfinished, log) = ⊥

  -- The same, where the failure is this one.
  abbrev pub Transacts :
      {A : Type 0} (before after : List SqlQuery) (failure : E) → Ended E A × List Event → Type 0
  Transacts before after failure (returned a, log) = seen start log ≡ ledger after idle
  Transacts before after failure (threw e, log) =
      (e ≡ failure) × ((seen start log).committed ≡ before)
  Transacts before after failure (unfinished, log) = ⊥

  module _ (raw : E) where
    pub begin_step_intro {κ} :
        {A : Type 0} (P : Ended E A × List Event → Type κ) (before : List SqlQuery)
        (log : List Event) (body : Action E A)
        → ((log : List Event) → (seen start log).committed ≡ before → P (threw raw, log))
        → seen start log ≡ ledger before idle
        → ((log : List Event) → seen start log ≡ ledger before (running []) → P (body log))
        → P ((ask world raw begin >> body) log)
    begin_step_intro P before log body fails at next =
        ask_intro world start (λ x. P (chain x λ _. body)) raw begin _ log at
          (λ _ log _ at. next log at) λ log at. fails log (ap (λ l. l.committed) at)

    pub begin_intro :
        {A : Type 0} (before after : List SqlQuery) (log : List Event) (body : Action E A)
        → seen start log ≡ ledger before idle
        → ((log : List Event)
            → seen start log ≡ ledger before (running [])
            → Commits before after (body log))
        → Commits before after ((ask world raw begin >> body) log)
    begin_intro before after log body at next =
        begin_step_intro (Commits before after) before log body (λ _ h. h) at next

    -- A statement in a transaction, what follows its answer, and what holds where it is rejected.
    pub step_intro {κ} :
        {A : Type 0} (P : Ended E A × List Event → Type κ) (before rows more : List SqlQuery)
        (log : List Event) (q : SqlQuery) (body : List Json → Action E A)
        → ((log : List Event) → (seen start log).committed ≡ before → P (threw raw, log))
        → seen start log ≡ ledger before (running rows)
        → ((reply : List Json)
            → note (answered q reply) (ledger before (running rows)) ≡ ledger before (running more))
        → ((reply : List Json) (after : List Event)
            → world.reply log q ≡ some reply
            → seen start after ≡ ledger before (running more)
            → P (body reply after))
        → P (chain (ask world raw q log) body)
    step_intro P before rows more log q body fails at step next =
        ask_intro world start (λ x. P (chain x body)) raw q _ log at
          (λ reply after r at. next reply after r (at ∙ step reply))
          λ after at. fails after (ap (λ l. l.committed) at)

    -- The same, where what follows commits the given statements.
    pub statement_intro :
        {A : Type 0} (before after rows more : List SqlQuery) (log : List Event) (q : SqlQuery)
        (body : List Json → Action E A)
        → seen start log ≡ ledger before (running rows)
        → ((reply : List Json)
            → note (answered q reply) (ledger before (running rows)) ≡ ledger before (running more))
        → ((reply : List Json) (log : List Event)
            → seen start log ≡ ledger before (running more)
            → Commits before after (body reply log))
        → Commits before after (chain (ask world raw q log) body)
    statement_intro before after rows more log q body at step next =
        step_intro (Commits before after) before rows more log q body (λ _ h. h) at step
          λ reply log _ at. next reply log at

    pub commit_intro :
        (before rows : List SqlQuery) (log : List Event)
        → seen start log ≡ ledger before (running rows)
        → Commits before (before ++ rows) (ask world raw commit log)
    commit_intro before rows log at =
        ask_intro world start (Commits before (before ++ rows)) raw commit _ log at
          (λ reply log _ at. at) λ log at. ap (λ l. l.committed) at

    -- Code that fails with this error, and leaves the database alone.
    abbrev pub Fails : {A : Type 0} → List SqlQuery → E → Ended E A × List Event → Type 0
    Fails before failure (returned a, log) = ⊥
    Fails before failure (threw e, log) = (e ≡ failure) × ((seen start log).committed ≡ before)
    Fails before failure (unfinished, log) = ⊥

    pub roll_back-Fails :
        (A : Type 0) (before : List SqlQuery) (failure : E) (log : List Event)
        → (seen start log).committed ≡ before
        → Fails {A = A} before failure (roll_back world raw failure log)
    roll_back-Fails A before failure log at =
        ask_intro world start
          (λ x. Fails {A = A} before failure (chain (handle x (λ _. give [])) (λ _. fail failure)))
          raw rollback _ log refl (λ reply log _ h. (refl, ap (λ l. l.committed) h ∙ at))
          λ log h. (refl, ap (λ l. l.committed) h ∙ at)

    Fails-Transacts :
        {A : Type 0} (before after : List SqlQuery) (failure : E) (x : Ended E A × List Event)
        → Fails before failure x
        → Transacts before after failure x
    Fails-Transacts before after failure (returned a, log) h = absurd h
    Fails-Transacts before after failure (threw e, log) h = h
    Fails-Transacts before after failure (unfinished, log) h = h

    -- A failure between `BEGIN` and `COMMIT` is followed by `ROLLBACK`.
    pub transaction_intro :
        {A : Type 0} (before after : List SqlQuery) (failure : E) (x : Ended E A × List Event)
        → Commits before after x
        → Transacts before after failure (handle x λ _. roll_back world raw failure)
    transaction_intro {A} before after failure x h =
        handle_intro (Commits before after) (Transacts before after failure) x _ h (λ _ log h. h)
          (λ e log h.
            Fails-Transacts before after failure (roll_back world raw failure log)
              (roll_back-Fails A before failure log h))
          λ log h. absurd h
