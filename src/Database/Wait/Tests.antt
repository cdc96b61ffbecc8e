-- ===== src/Database/Wait/Tests.antt =====
-- src/database/wait-for-database.ts: waits at concrete inputs.
use log_stream.Base.{◌≡◌, refl, true, false, not, [], ◌∷◌, none, ltb, length, length-append, arith}
use log_stream.Database.Session.{Event, slept, World, returned, threw}
use log_stream.Database.Lock.Ends.{Advances}
use log_stream.Database.Wait.{
  Probe, startup_timeout, wait_rounds, wait_for_database, probes, CountsProbes,
  wait_for_database-CountsProbes,
}

abbrev world : World
world = record { now = length; sleeps = λ _ _. true; reply = λ _ _. none }

world-Advances : Advances world
world-Advances = record {
  forward = λ log e. omega (arith, length-append {0} {A = Event} log (e ∷ []));
  sleeps = λ log delay _. omega (arith, length-append {0} {A = Event} log (slept delay ∷ []));
}

-- The database is there from the tenth event on.
abbrev probe : Probe
probe = record { times_out = λ _ _. false; succeeds = λ log. not (ltb (length log) 10) }

wait_thrice : (wait_for_database world probe 50 5 9 []).0 ≡ returned 3
unfolding wait_for_database wait_rounds
wait_thrice = refl

wait_in_vain : (wait_for_database world probe 9 5 9 []).0 ≡ threw startup_timeout
unfolding wait_for_database wait_rounds
wait_in_vain = refl

wait_for_database-CountsProbes_example : CountsProbes 0 (wait_for_database world probe 50 5 51 [])
unfolding probes
wait_for_database-CountsProbes_example =
    wait_for_database-CountsProbes world probe 50 5 50 [] world-Advances (omega arith) (omega arith)
