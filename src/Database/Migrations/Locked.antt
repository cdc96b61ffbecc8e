-- ===== src/Database/Migrations/Locked.antt =====
-- src/database/migrations/migration-runner.ts: the lock of a run, and its end.
use log_stream.Base.{ℕ, suc, ◌+◌, ◌≤◌, ◌<◌, ◌≡◌, ◌∙◌, List, [], ◌∷◌, ◌++◌, Option, none, some}
use log_stream.Database.Session.{
  Event, read_clock, World, Ended, returned, threw, unfinished, chain, settle, keep_error, rescue,
  finally, chain_intro, handle_intro,
}
use log_stream.Database.Lock.{acquire_lock, release_lock}
use log_stream.Database.Lock.Kept.{Waits, IsUnlock, acquire_lock-Holds, release_lock_intro}
use log_stream.Database.Lock.Guard.{
  Guard, free, held, guard, guard-append, HeldAfter, acquire_lock-HeldAfter, free-unlock,
}
use log_stream.Database.Lock.Ends.{Advances, Ends, acquire_lock-Ends}
use log_stream.Database.Migrations.{MigrationFile, MigrationFailure, Result}
use log_stream.Database.Migrations.Runner.{
  LockOptions, lock_errors, migrate, run_migrations, as_migration_error,
}
use log_stream.Database.Works.Guarded.{watch-Works}
use log_stream.Database.Works.{Works, DoneAt}
use log_stream.Database.Migrations.Works.{migrate-Done}

module _ (world : World) (load_migrations : List Event → Result (List MigrationFile)) where
  -- A run that finishes, with what held under the lock turned by the release into what holds after.
  module _ (I J : List Event → Type 0)
      (keeps : (log : List Event) (e : Event) → Works e → I log → I (log ++ (e ∷ [])))
      (releases : (log : List Event) (e : Event) → IsUnlock 1 e → I log → J (log ++ (e ∷ []))) where
    settle-DoneAt :
        (x : Ended MigrationFailure (List ℕ) × List Event)
        → DoneAt I x
        → DoneAt J (settle x (release_lock world lock_errors 1))
    settle-DoneAt (returned versions, log) h =
        release_lock_intro world lock_errors 1
          (λ x. DoneAt J (chain x λ _ log. (returned versions, log))) log
          (λ e u. releases log e u h) λ e u. releases log e u h
    settle-DoneAt (threw e, log) h =
        release_lock_intro world lock_errors 1 (λ x. DoneAt {A = List ℕ} J (keep_error e x)) log
          (λ e u. releases log e u h) λ e u. releases log e u h
    settle-DoneAt (unfinished, log) h = h

    locked-DoneAt :
        (log : List Event)
        → I log
        → DoneAt J (
            rescue
              (finally (migrate world load_migrations) (release_lock world lock_errors 1))
              as_migration_error
              log)
    locked-DoneAt log h =
        handle_intro (DoneAt J) (DoneAt J)
          (settle (migrate world load_migrations log) (release_lock world lock_errors 1)) _
          (settle-DoneAt (migrate world load_migrations log)
            (migrate-Done world I keeps load_migrations log h))
          (λ _ log h. h) (λ e log h. h) λ log h. h

  of_done :
      (start : Guard) (x : Ended MigrationFailure (List ℕ) × List Event)
      → DoneAt (λ log. guard start log ≡ free) x
      → guard start (x.1) ≡ free
  of_done start (returned versions, log) h = h
  of_done start (threw e, log) h = h
  of_done start (unfinished, log) h = absurd h

  guard_from :
      (options : LockOptions) (fuel : ℕ) (start : Guard) (log : List Event)
      → guard start log ≡ free
      → guard start
          (chain
            (acquire_lock world lock_errors 1 options.deadline options.retry_delay fuel log)
            λ _.
              rescue
                (finally (migrate world load_migrations) (release_lock world lock_errors 1))
                as_migration_error).1
        ≡ free
  guard_from options fuel start log h =
      chain_intro (HeldAfter world lock_errors 1 start) (λ x. guard start (x.1) ≡ free)
        (acquire_lock world lock_errors 1 options.deadline options.retry_delay fuel log) _
        (acquire_lock-HeldAfter world lock_errors 1 start options.deadline options.retry_delay fuel
          log h)
        (λ _ log h. of_done start _ (
          locked-DoneAt (λ log. guard start log ≡ held) (λ log. guard start log ≡ free)
            (watch-Works start) (free-unlock start) log h))
        (λ e log h. h) λ log h. h

  -- A run that starts with the lock free ends with the lock free, whatever the database answers and however it ends: every statement but those on the lock is sent while the lock is held, and the lock is released exactly as often as it is taken, also where the release is unlock_refused.
  pub guard-run_migrations :
      (options : Option LockOptions) (fuel : ℕ) (start : Guard) (log : List Event)
      → guard start log ≡ free
      → guard start (run_migrations world load_migrations options fuel log).1 ≡ free
  unfolding run_migrations
  guard-run_migrations (some options) fuel start log h = guard_from options fuel start log h
  guard-run_migrations none fuel start log h =
      guard_from _ fuel start (log ++ (read_clock ∷ [])) (guard-append start log read_clock ∙ h)

  -- A run keeps what each of its events keeps.
  module _ (I : List Event → Type 0)
      (waits_keep : (log : List Event) (e : Event) → Waits 1 e → I log → I (log ++ (e ∷ [])))
      (keeps : (log : List Event) (e : Event) → Works e → I log → I (log ++ (e ∷ [])))
      (unlock_keeps : (log : List Event) (e : Event) → IsUnlock 1 e → I log → I (log ++ (e ∷ [])))
      (advances : Advances world) where
    pub run_migrations-DoneAt :
        (options : LockOptions) (fuel : ℕ) (log : List Event)
        → 0 < options.retry_delay
        → options.deadline ≤ world.now log + fuel
        → I log
        → DoneAt I (run_migrations world load_migrations (some options) (suc fuel) log)
    unfolding run_migrations
    run_migrations-DoneAt options fuel log waits enough h =
        acquired
          (acquire_lock world lock_errors 1 options.deadline options.retry_delay (suc fuel) log)
          (acquire_lock-Ends world lock_errors 1 advances options.deadline options.retry_delay waits
            fuel log enough)
          (acquire_lock-Holds world lock_errors 1 I waits_keep options.deadline options.retry_delay
            (suc fuel) log h)
      where
        acquired :
            (x : Ended MigrationFailure Unit × List Event)
            → Ends x
            → I (x.1)
            → DoneAt I (
                chain x λ _.
                  rescue
                    (finally (migrate world load_migrations) (release_lock world lock_errors 1))
                    as_migration_error)
        acquired (returned u, log) ends h = locked-DoneAt I I keeps unlock_keeps log h
        acquired (threw e, log) ends h = h
        acquired (unfinished, log) ends h = ends
