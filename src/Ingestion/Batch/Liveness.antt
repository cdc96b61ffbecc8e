-- ===== src/Ingestion/Batch/Liveness.antt =====
-- The event loop ends, and then every promise is settled.
use log_stream.Base.{
  ℕ, zero, suc, ◌≤◌, ◌<◌, ◌≡◌, refl, ap, ◌⊎◌, inl, inr, List, [], ◌∷◌, some, arith, count,
  is_empty→eq,
}
use log_stream.Ingestion.Batch.State.{Config, State, Flight, resolved, initial}
use log_stream.Ingestion.Batch.Options.{Options, read_config, read_config_pos}
use log_stream.Ingestion.Batch.Flush.{has_timer}
use log_stream.Ingestion.Batch.Events.{step, run, Event, timer_fires, write_settles, write_finishes}
use log_stream.Ingestion.Batch.Invariant.{Inv}
use log_stream.Ingestion.Batch.Safety.{step-Inv, run-Inv, initial-Inv}
use log_stream.Ingestion.Batch.Places.{settled_ids, HasPromises, ids, flight_ids}
use log_stream.Ingestion.Batch.Promises.{run-HasPromises, initial-HasPromises}
use log_stream.Ingestion.Batch.Progress.{
  work, Enabled, timer, reply, finally, Enabled-work, IsQuiet, quiet-is_drained, AllEnabled,
}

module _ {R : Type 0} where
  idle-IsQuiet : (s : State R) → s.running ≡ [] → s.delivered ≡ 0 → s.timers ≡ [] → IsQuiet s
  unfolding has_timer
  idle-IsQuiet s r d t e (timer h x) = absurd (ground arith)
  idle-IsQuiet s r d t e (reply i o f x) = absurd (ground arith)
  idle-IsQuiet s r d t e (finally x) = absurd (omega (arith, d))

  -- The event loop has something to run, or nothing may run.
  next_or_IsQuiet :
      (s : State R) (fs : List (Flight R)) (n : ℕ) (ts : List (ℕ × ℕ))
      → s.running ≡ fs
      → s.delivered ≡ n
      → s.timers ≡ ts
      → IsQuiet s ⊎ ((e : Event R) × Enabled s e)
  unfolding has_timer
  next_or_IsQuiet s (f ∷ fs) n ts r d t = inr (write_settles 0 resolved, reply 0 resolved f (rw r))
  next_or_IsQuiet s [] (suc n) ts r d t = inr (write_finishes, finally (omega (arith, d)))
  next_or_IsQuiet s [] zero ((h, delay) ∷ ts) r d t =
      inr (timer_fires h, timer h (rw t (ground arith)))
  next_or_IsQuiet s [] zero [] r d t = inl (idle-IsQuiet s r d t)

  settles_down :
      (n : ℕ) (c : Config) (s : State R)
      → Inv c s
      → work s ≤ n
      → (es : List (Event R)) × AllEnabled c s es × IsQuiet (run c s es)
  unfolding run
  settles_down zero c s v h =
      elim (next_or_IsQuiet s s.running s.delivered s.timers refl refl refl) [
        | inl q ↦ ([], tt, q)
        | inr (e, x) ↦ absurd (omega (arith, Enabled-work c s e v x))
      ]
  settles_down (suc n) c s v h =
      elim (next_or_IsQuiet s s.running s.delivered s.timers refl refl refl) [
        | inl q ↦ ([], tt, q)
        | inr (e, x) ↦
            let (es, enabled, q) =
              settles_down n c (step c s e) (step-Inv c s e v)
                (omega (arith, Enabled-work c s e v x)) in
            (e ∷ es, (x, enabled), q)
      ]

  -- All that was asked for is answered: no write is queued or running, no promise of `close` waits,
  -- and every promise that `insert` returned is settled exactly once.
  pub record IsAnswered (s : State R) : Type 0 where
    pub drained : (s.pending ≡ []) × (s.running ≡ [])
    pub closes : s.close_waiters ≡ []
    pub settled_once : (p : ℕ) → p < s.next_promise → count p (settled_ids s.settled) ≡ 1

  quiet-IsAnswered :
      (c : Config) (s : State R)
      → 0 < c.max_concurrent_writes
      → Inv c s
      → HasPromises s
      → IsQuiet s
      → IsAnswered s
  quiet-IsAnswered c s pos v h q =
      let (e, f, d) = quiet-is_drained c s pos v q in
      record {
        drained = (e, f);
        closes = elim v.waits [
          | inl w ↦ is_empty→eq s.close_waiters w
          | inr (w, busy) ↦ absurd (cc (d, busy))
        ];
        settled_once = λ p lt.
            ground
              (arith, h p, ap (λ ws. count p (ids ws)) e, ap (λ fs. count p (flight_ids fs)) f);
      }

  -- With limits that `createBatchedIngestionRepository` accepts, and from every state that a history
  -- of calls and events leads to, the event loop settles all of it with no further call: after some
  -- events that may run no write is queued or running, no promise of `close` waits, and every
  -- promise that `insert` returned is settled exactly once.
  pub run-IsAnswered :
      (o : Options) (c : Config) (es : List (Event R))
      → read_config o ≡ some c
      → let s = run c initial es in
        (fs : List (Event R)) × AllEnabled c s fs × IsAnswered (run c s fs)
  run-IsAnswered o c es accepted =
      let s = run c initial es in
      let v = run-Inv c es initial (initial-Inv c) in
      let h = run-HasPromises c es initial (initial-HasPromises R) in
      let (fs, enabled, q) = settles_down (work s) c s v (omega arith) in
      let pos = (read_config_pos o c accepted).2 in
      (
        fs,
        enabled,
        quiet-IsAnswered c (run c s fs) pos (run-Inv c fs s v) (run-HasPromises c fs s h) q,
      )
