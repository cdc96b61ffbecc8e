-- ===== src/Database/Wait.antt =====
-- src/database/wait-for-database.ts.
mod Tests
use log_stream.Base.{
  ℕ, zero, suc, ◌+◌, ◌-◌, ◌≤◌, ◌<◌, min, ◌≡◌, refl, ap, ◌∙◌, Bool, true, false, List, [], ◌∷◌, ◌++◌,
  leb, if◌then◌else◌, if_intro, Bool-cases, inl, inr, arith,
}
use log_stream.Database.Session.{
  Event, read_clock, slept, probed, World, Action, Ended, returned, threw, unfinished, now, sleep,
  give, fail, chain, chain_intro, ◌>>=◌, ◌>>◌,
}
use log_stream.Database.Lock.Ends.{Advances}
use log_stream.Database.Works.{DoneAt}

-- The probe: whether the clock gives up on it after a time, and whether it is fulfilled.
pub record Probe : Type 0 where
  pub times_out : List Event → ℕ → Bool
  pub succeeds : List Event → Bool

-- A DatabaseStartupTimeoutError, or the error of the sleep.
pub data WaitFailure : Type 0 where
  startup_timeout sleep_error : WaitFailure

pub data Probed : Type 0 where
  ready late down : Probed

abbrev pub probe_in_time : (is_late succeeds : Bool) → List Event → Probed × List Event
probe_in_time true b log = (late, log ++ (probed false ∷ []))
probe_in_time false true log = (ready, log ++ (probed true ∷ []))
probe_in_time false false log = (down, log ++ (probed false ∷ []))

module _ (world : World) (probe : Probe) (deadline retry_delay : ℕ) where
  abbrev pub wait_again : Action WaitFailure ℕ → ℕ → Action WaitFailure ℕ
  wait_again again time =
      if leb deadline time
      then fail startup_timeout
      else (sleep world sleep_error (min retry_delay (deadline - time)) >> again)

  -- After a probe, with the attempts so far.
  abbrev pub after_probe :
      Action WaitFailure ℕ → ℕ → Probed × List Event → Ended WaitFailure ℕ × List Event
  after_probe again attempts (ready, log) = (returned attempts, log)
  after_probe again attempts (late, log) = (threw startup_timeout, log)
  after_probe again attempts (down, log) = chain (now world log) (wait_again again)

  abbrev pub probe_or_stop : (ℕ → Action WaitFailure ℕ) → ℕ → ℕ → Action WaitFailure ℕ
  probe_or_stop again attempts time log =
      if leb deadline time
      then (threw startup_timeout, log)
      else after_probe (again (attempts + 1)) (attempts + 1)
          (probe_in_time (probe.times_out log (deadline - time)) (probe.succeeds log) log)

  -- The loop, with the number of its rounds as fuel.
  unfoldable pub wait_rounds : (fuel attempts : ℕ) → Action WaitFailure ℕ
  wait_rounds zero attempts log = (unfinished, log)
  wait_rounds (suc fuel) attempts log =
      chain (now world log) (probe_or_stop (wait_rounds fuel) attempts)

-- The number of attempts.
unfoldable pub wait_for_database :
    World → Probe → (timeout retry_delay fuel : ℕ) → Action WaitFailure ℕ
wait_for_database world probe timeout retry_delay fuel = do
  time ← now world
  wait_rounds world probe (time + timeout) retry_delay fuel 0

abbrev probes_more : Event → ℕ → ℕ
probes_more (probed b) n = suc n
probes_more _ n = n

-- How often the database was probed.
unfoldable pub probes : ℕ → List Event → ℕ
probes n [] = n
probes n (e ∷ log) = probes (probes_more e n) log

probes-append :
    (n : ℕ) (log : List Event) (e : Event)
    → probes n (log ++ (e ∷ [])) ≡ probes_more e (probes n log)
unfolding probes
probes-append n [] e = refl
probes-append n (d ∷ log) e = probes-append (probes_more d n) log e

-- The result is the number of probes since the start.
abbrev pub CountsProbes : ℕ → Ended WaitFailure ℕ × List Event → Type 0
CountsProbes before (returned attempts, log) = probes 0 log ≡ before + attempts
CountsProbes before (threw e, log) = Unit
CountsProbes before (unfinished, log) = ⊥

module _ (world : World) (probe : Probe) (advances : Advances world) (deadline retry_delay : ℕ)
    (waits : 0 < retry_delay) (before : ℕ) where
  -- At a time, after so many attempts.
  abbrev Tried : ℕ → ℕ → List Event → Type 0
  Tried attempts time log = (probes 0 log ≡ before + attempts) × (time ≤ world.now log)

  Tried-one :
      (attempts later time : ℕ) (log : List Event) (e : Event)
      → probes_more e (before + attempts) ≡ before + later
      → Tried attempts time log
      → Tried later time (log ++ (e ∷ []))
  Tried-one attempts later time log e s (h, k) =
      (probes-append 0 log e ∙ ap (probes_more e) h ∙ s, omega (arith, k, advances.forward log e))

  pause_pos : (t : ℕ) → leb deadline t ≡ false → 0 < min retry_delay (deadline - t)
  pause_pos t early = ground (arith, waits)

  sleep-Tried :
      (attempts time delay : ℕ) (log : List Event)
      → 0 < delay
      → Tried attempts time log
      → Tried attempts (suc time) (log ++ (slept delay ∷ []))
  sleep-Tried attempts time delay log pos (h, k) = (
    (Tried-one attempts attempts time log (slept delay) refl (h, k)).0,
    omega (arith, k, advances.sleeps log delay pos),
  )

  wait_again-CountsProbes :
      (again : Action WaitFailure ℕ) (attempts time t : ℕ) (log : List Event)
      → ((log : List Event) → Tried attempts (suc time) log → CountsProbes before (again log))
      → Tried attempts time log
      → CountsProbes before (wait_again world probe deadline retry_delay again t log)
  wait_again-CountsProbes again attempts time t log next h = elim (Bool-cases (leb deadline t)) [
    | inl b ↦ rw b tt
    | inr b ↦
        let delay = min retry_delay (deadline - t) in
        rw b (
          if_intro
            (λ (end : Ended WaitFailure Unit).
              CountsProbes before (chain (end, log ++ (slept delay ∷ [])) (λ _. again)))
            (world.sleeps log delay)
            (λ _.
              next (log ++ (slept delay ∷ []))
                (sleep-Tried attempts time delay log (pause_pos t b) h))
            (λ _. tt))
  ]

  after_probe-CountsProbes :
      (again : Action WaitFailure ℕ) (attempts time : ℕ) (is_late succeeds : Bool)
      (log : List Event)
      → ((log : List Event) → Tried (attempts + 1) (suc time) log → CountsProbes before (again log))
      → Tried attempts time log
      → CountsProbes before (
          after_probe world probe deadline retry_delay again
            (attempts + 1)
            (probe_in_time is_late succeeds log))
  after_probe-CountsProbes again attempts time true succeeds log next h = tt
  after_probe-CountsProbes again attempts time false true log next h =
      (Tried-one attempts (attempts + 1) time log (probed true) (omega arith) h).0
  after_probe-CountsProbes again attempts time false false log next h =
      let tried = log ++ (probed false ∷ []) in
      let h' = Tried-one attempts (attempts + 1) time log (probed false) (omega arith) h in
      wait_again-CountsProbes again (attempts + 1) time (world.now tried)
        (tried ++ (read_clock ∷ [])) next
        (Tried-one (attempts + 1) (attempts + 1) time tried read_clock refl h')

  probe_or_stop-CountsProbes :
      (again : ℕ → Action WaitFailure ℕ) (attempts time : ℕ) (log : List Event)
      → (leb deadline time ≡ false
          → (log : List Event) → Tried (attempts + 1) (suc time) log
          → CountsProbes before (again (attempts + 1) log))
      → Tried attempts time log
      → CountsProbes before (probe_or_stop world probe deadline retry_delay again attempts time log)
  probe_or_stop-CountsProbes again attempts time log next h =
      elim (Bool-cases (leb deadline time)) [
        | inl b ↦ rw b tt
        | inr b ↦
            rw b (after_probe-CountsProbes (again (attempts + 1)) attempts time _ _ log (next b) h)
      ]

  wait_rounds-CountsProbes :
      (fuel attempts : ℕ) (log : List Event)
      → deadline ≤ world.now log + fuel
      → probes 0 log ≡ before + attempts
      → CountsProbes before (wait_rounds world probe deadline retry_delay (suc fuel) attempts log)
  unfolding wait_rounds
  wait_rounds-CountsProbes zero attempts log enough h =
      probe_or_stop-CountsProbes (wait_rounds world probe deadline retry_delay zero) attempts
        (world.now log) (log ++ (read_clock ∷ [])) (λ early log h. absurd (ground arith))
        (Tried-one attempts attempts (world.now log) log read_clock refl (h, omega arith))
  wait_rounds-CountsProbes (suc fuel) attempts log enough h =
      probe_or_stop-CountsProbes (wait_rounds world probe deadline retry_delay (suc fuel)) attempts
        (world.now log) (log ++ (read_clock ∷ []))
        (λ early log k.
          wait_rounds-CountsProbes fuel (attempts + 1) log (omega (arith, enough, k.1)) (k.0))
        (Tried-one attempts attempts (world.now log) log read_clock refl (h, omega arith))

-- Where the clock never runs back and a sleep takes time, and the delay is not 0: the wait ends, for a fuel above the time allowed, and where it succeeds its result is how often it has probed the database.
pub wait_for_database-CountsProbes :
    (world : World) (probe : Probe) (timeout retry_delay fuel : ℕ) (log : List Event)
    → Advances world
    → 0 < retry_delay
    → timeout ≤ fuel
    → CountsProbes (probes 0 log) (wait_for_database world probe timeout retry_delay (suc fuel) log)
unfolding wait_for_database
wait_for_database-CountsProbes world probe timeout retry_delay fuel log advances waits enough =
    let k = advances.forward log read_clock in
    wait_rounds-CountsProbes world probe advances (world.now log + timeout) retry_delay waits
      (probes 0 log) fuel 0 (log ++ (read_clock ∷ [])) (omega arith)
      (probes-append 0 log read_clock ∙ omega arith)
