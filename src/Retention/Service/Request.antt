-- ===== src/Retention/Service/Request.antt =====
-- src/modules/retention/retention-service.ts: `buildRunInput`. Times are counted as in Domain/Timestamp.
use log_stream.Base.{
  ℕ, ◌+◌, ◌-◌, ◌*◌, ◌/◌, ◌≡◌, refl, ap, subst, List, Option, none, some, ltb, ◌==◌, if◌then◌else◌,
  length, drop, Bool-cases, inl, inr,
}
use log_stream.Base.Int.{pos}
use log_stream.Base.Maybe.{◌>>=◌, >>=_elim}
use log_stream.Base.Number.{int}
use log_stream.Base.Text.{Text}
use log_stream.Domain.Timestamp.Print.{to_iso_string}
use log_stream.Database.Partitions.{DailyPartition, milliseconds_per_day, build_partition_plan}
use log_stream.Database.Partitions.Planned.{each_day, build_partition_plan-each_day}

pub record RunRequest : Type 0 where
  pub reference_time : Text
  pub cutoff : Text
  pub partitions : List DailyPartition

-- The last time of a `Date`: 8.64e15 milliseconds after 1970, which is 865625 days after our zero.
abbrev last_time : ℕ
last_time = 8640000000000000 + 865625 * milliseconds_per_day

abbrev request_of : (now retention_days : ℕ) → List DailyPartition → Option RunRequest
request_of now retention_days complete_plan =
    if length (drop 1 complete_plan) == 3
    then some (record {
      reference_time = to_iso_string now;
      cutoff = to_iso_string (now - retention_days * milliseconds_per_day);
      partitions = drop 1 complete_plan;
    })
    else none

abbrev plan_request : (now retention_days : ℕ) → Option RunRequest
plan_request now retention_days = do
  complete_plan ← build_partition_plan (some now) (int (pos 1))
  request_of now retention_days complete_plan

-- `none` is an error. `now` is `none` where the clock's reading is no safe integer.
unfoldable pub build_run_input : Option ℕ → (retention_days : ℕ) → Option RunRequest
build_run_input none retention_days = none
build_run_input (some now) retention_days =
    if ltb last_time now then none else plan_request now retention_days

some-eq : {a b : RunRequest} → some a ≡ some b → a ≡ b
some-eq h = cc

-- A request asks for the partitions of the day of the reading and the two days after it, and for what is older than the days that are retained to be deleted.
pub build_run_input-each_day :
    (now retention_days : ℕ) (r : RunRequest)
    → build_run_input (some now) retention_days ≡ some r
    → (r.partitions ≡ drop 1 (each_day (now / milliseconds_per_day - 1) 4))
      × (r.cutoff ≡ to_iso_string (now - retention_days * milliseconds_per_day))
unfolding build_run_input
build_run_input-each_day now retention_days r h = elim (Bool-cases (ltb last_time now)) [
  | inl b ↦ absurd (cc (rw b at h))
  | inr b ↦
      >>=_elim
        {P = (r.partitions ≡ drop 1 (each_day (now / milliseconds_per_day - 1) 4))
          × (r.cutoff ≡ to_iso_string (now - retention_days * milliseconds_per_day))}
        (build_partition_plan (some now) (int (pos 1))) _
        (λ plan e k. elim (Bool-cases (length (drop 1 plan) == 3)) [
          | inr c ↦ absurd (cc (rw c at k))
          | inl c ↦
              let same = some-eq (rw c at k) in
              let planned = (build_partition_plan-each_day now (int (pos 1)) plan e).0 in
              subst
                (λ (r : RunRequest).
                  (r.partitions ≡ drop 1 (each_day (now / milliseconds_per_day - 1) 4))
                  × (r.cutoff ≡ to_iso_string (now - retention_days * milliseconds_per_day)))
                same (ap (drop 1) planned, refl)
        ])
        (rw b at h)
]
