-- ===== src/Database/Startup/Tests.antt =====
-- src/server.ts: a start at concrete inputs.
use log_stream.Base.{
  ◌≡◌, refl, true, false, List, [], ◌∷◌, none, some, ltb, length, length-append, arith,
  if◌then◌else◌,
}
use log_stream.Base.Int.{pos}
use log_stream.Base.Number.{int}
use log_stream.Base.Text.{units, text_lt}
use log_stream.Domain.Json.{Json, no_members, member}
use log_stream.Database.Session.{SqlQuery, try_lock, unlock, Event, World, give}
use log_stream.Database.Lock.Ends.{Advances}
use log_stream.Database.Migrations.{MigrationFile, Result, ok}
use log_stream.Database.Migrations.Owner.{Connection, coded, run_migrations_with_owner_retry}
use log_stream.Database.Migrations.Owner.Closed.{open_connections}
use log_stream.Database.Startup.{after_migrations, Starts, main, main-Starts}

abbrev database : SqlQuery → List Json
database (try_lock id) = Json.object (member (units "acquired") (Json.boolean true) no_members) ∷ []
database (unlock id) = Json.object (member (units "released") (Json.boolean true) no_members) ∷ []
database _ = []

abbrev world : World
world = record { now = length; sleeps = λ _ _. true; reply = λ log q. some (database q) }

world-Advances : Advances world
world-Advances = record {
  forward = λ log e. omega (arith, length-append {0} {A = Event} log (e ∷ []));
  sleeps = λ log delay _. omega (arith, length-append {0} {A = Event} log (Event.slept delay ∷ []));
}

abbrev files : List Event → Result (List MigrationFile)
files _ = ok (
    record {
      version = 1;
      filename = units "0001_logs.sql";
      checksum = units "ab";
      sql = units "SELECT 1;";
    }
    ∷ [])

-- The database refuses connections at first.
abbrev owner : Connection
owner = record {
  creates = λ _. true;
  connect_error = λ log. if ltb (length log) 9 then some (coded (units "ECONNREFUSED")) else none;
  times_out = λ _ _. false;
  closes = λ _. true;
}

main-Starts_example :
    Starts
      (run_migrations_with_owner_retry world owner files
        (after_migrations world text_lt (int (pos 30)) 201)
        5
        201
        200
        201
        [])
      (give tt)
      (λ log. open_connections 0 log ≡ 0)
      (main world text_lt (int (pos 30)) 201 owner files 5 200 (give tt) [])
unfolding open_connections
main-Starts_example =
    main-Starts world text_lt (int (pos 30)) owner files Unit (give tt) 5 200 200 0 0 []
      world-Advances (omega arith) (omega arith) refl
