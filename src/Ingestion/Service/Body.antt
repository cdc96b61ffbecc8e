-- ===== src/Ingestion/Service/Body.antt =====
-- src/modules/ingestion/ingestion-service.ts: the bodies that have an array of logs.
use log_stream.Base.{◌≡◌, refl, ap, ◌∙◌, List, Option, none, some}
use log_stream.Base.Text.{units}
use log_stream.Domain.Json.{Json, Items, Members, get_own, items}
use log_stream.Ingestion.Service.{logs_of, read_logs}

-- The body is an object whose own member `logs` is an array.
abbrev pub HasLogs : Json → Type 0
HasLogs body =
    (members : Members) × (logs : Items) × (body ≡ Json.object members)
    × (get_own (units "logs") members ≡ some (Json.array logs))

logs_of-eq :
    (o : Option Json) {logs : List Json}
    → logs_of o ≡ some logs
    → (values : Items) × (o ≡ some (Json.array values))
unfolding logs_of
logs_of-eq none h = absurd (cc)
logs_of-eq (some (Json.array values)) h = (values, refl)
logs_of-eq (some Json.null) h = absurd (cc)
logs_of-eq (some (Json.boolean b)) h = absurd (cc)
logs_of-eq (some (Json.number n)) h = absurd (cc)
logs_of-eq (some (Json.string t)) h = absurd (cc)
logs_of-eq (some (Json.object m)) h = absurd (cc)

pub read_logs-HasLogs : (body : Json) {logs : List Json} → read_logs body ≡ some logs → HasLogs body
unfolding read_logs
read_logs-HasLogs (Json.object members) h =
    let (values, e) = logs_of-eq (get_own (units "logs") members) h in (members, values, refl, e)
read_logs-HasLogs Json.null h = absurd (cc)
read_logs-HasLogs (Json.boolean b) h = absurd (cc)
read_logs-HasLogs (Json.number n) h = absurd (cc)
read_logs-HasLogs (Json.string t) h = absurd (cc)
read_logs-HasLogs (Json.array xs) h = absurd (cc)

-- Such an array is read.
pub HasLogs-read_logs :
    {body : Json} → HasLogs body → (logs : List Json) × (read_logs body ≡ some logs)
unfolding read_logs logs_of
HasLogs-read_logs (_, values, e, there) = (items values, ap read_logs e ∙ ap logs_of there)
