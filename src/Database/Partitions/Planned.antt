-- ===== src/Database/Partitions/Planned.antt =====
-- src/database/partitions/partition-plan.ts: which partitions are accepted, and which a plan has.
use mathlib.Core.Option.{some-injective}
use log_stream.Base.{
  ℕ, zero, suc, ◌+◌, ◌-◌, ◌*◌, ◌/◌, ◌≤◌, ◌≡◌, sym, ap, subst, ◌∙◌, ◌&&◌, List, [], ◌∷◌, some, ◌==◌,
  ==→eq, Bool-cases, inl, inr, arith,
}
use log_stream.Base.Maybe.{>>=_elim}
use log_stream.Base.Number.{Number, natural}
use log_stream.Base.Text.{Text, text_eq, text_eq→eq, units}
use log_stream.Domain.Timestamp.{date_parse}
use log_stream.Domain.Timestamp.Print.{local_time, to_iso_string}
use log_stream.Domain.Timestamp.Scan.{DateTime, match_canonical}
use log_stream.Domain.Calendar.{make_day}
use log_stream.Database.Partitions.{
  DailyPartition, milliseconds_per_day, is_partition_name, midnight, printed_back,
  assert_utc_boundary, expected_name, is_day, assert_daily_partition, partition_at,
  partition_for_timestamp, partitions_from, is_retention_days, build_partition_plan,
}

-- The text is the midnight that begins a day.
pub record IsMidnight (value : Text) (timestamp : ℕ) : Type 0 where
  pub day : ℕ
  pub starts : timestamp ≡ day * milliseconds_per_day
  pub prints : to_iso_string timestamp ≡ value

midnight-eq :
    (g : DateTime) (fraction : Text) (f : DateTime)
    → midnight (g, fraction) ≡ some f
    → (f.hour ≡ 0) × (f.minute ≡ 0) × (f.second ≡ 0)
midnight-eq g fraction f h =
    elim (Bool-cases
      (g.hour == 0 && g.minute == 0 && g.second == 0 && text_eq fraction (units "000"))) [
        | inl b ↦
            let same = some-injective g f (rw b at h) in
            subst (λ (f : DateTime). (f.hour ≡ 0) × (f.minute ≡ 0) × (f.second ≡ 0)) same
              (ground arith)
        | inr b ↦ absurd (cc (rw b at h))
      ]

-- A time of day of nothing.
midnight-time :
    (f : DateTime) (t : ℕ)
    → f.hour ≡ 0
    → f.minute ≡ 0
    → f.second ≡ 0
    → date_parse f 0 ≡ some t
    → t ≡ make_day (f.year + 400) f.month f.day * milliseconds_per_day
unfolding date_parse local_time
midnight-time f t h m s d = ground arith

printed_back-eq :
    (value : Text) (t s : ℕ) → printed_back value t ≡ some s → (t ≡ s) × (to_iso_string t ≡ value)
printed_back-eq value t s h = elim (Bool-cases (text_eq (to_iso_string t) value)) [
  | inl b ↦ (some-injective t s (rw b at h), text_eq→eq (to_iso_string t) value b)
  | inr b ↦ absurd (cc (rw b at h))
]

assert_utc_boundary-IsMidnight :
    (value : Text) (t : ℕ) → assert_utc_boundary value ≡ some t → IsMidnight value t
unfolding assert_utc_boundary
assert_utc_boundary-IsMidnight value t = >>=_elim (match_canonical value) _ λ match e.
    >>=_elim (midnight match) _ λ f ef. >>=_elim (date_parse f 0) _ λ s es h.
      let (hour, minute, second) = midnight-eq (match.0) (match.1) f ef in
      let (same, prints) = printed_back-eq value s t h in
      record {
        day = make_day (f.year + 400) f.month f.day;
        starts = sym same ∙ midnight-time f s hour minute second es;
        prints = ap to_iso_string (sym same) ∙ prints;
      }

-- The partition of the day.
pub record IsDaily (partition : DailyPartition) : Type 0 where
  pub day : ℕ
  pub made : partition ≡ partition_at (day * milliseconds_per_day)

is_day-eq :
    (partition : DailyPartition) (start end : ℕ) (p : DailyPartition)
    → is_day partition start end ≡ some p
    → (partition ≡ p)
      × (partition.name ≡ expected_name partition.start)
      × (end ≡ start + milliseconds_per_day)
is_day-eq partition start end p h =
    elim (Bool-cases (text_eq partition.name (expected_name partition.start))) [
      | inr b ↦ absurd (cc (rw b at h))
      | inl b ↦ elim (Bool-cases (end == start + milliseconds_per_day)) [
        | inr c ↦ absurd (cc (rw (b, c) at h))
        | inl c ↦ (
          some-injective partition p (rw (b, c) at h),
          text_eq→eq partition.name (expected_name partition.start) b,
          ==→eq end (start + milliseconds_per_day) c,
        )
      ]
    ]

daily_of :
    (partition : DailyPartition) (start end : ℕ)
    → IsMidnight partition.start start
    → IsMidnight partition.end end
    → partition.name ≡ expected_name partition.start
    → end ≡ start + milliseconds_per_day
    → IsDaily partition
daily_of partition start end s e name later =
    let t = s.day * milliseconds_per_day in
    let start_eq : partition.start ≡ to_iso_string t = sym s.prints ∙ ap to_iso_string s.starts in
    let end_eq : partition.end ≡ to_iso_string (t + milliseconds_per_day) =
      sym e.prints ∙ ap to_iso_string (later ∙ ap (λ x. x + milliseconds_per_day) s.starts) in
    let name_eq : partition.name ≡ expected_name (to_iso_string t) =
      name ∙ ap expected_name start_eq in
    record { day = s.day; made = cc (start_eq, end_eq, name_eq) }

pub accepted :
    (partition p : DailyPartition)
    → assert_daily_partition partition ≡ some p
    → IsDaily partition × (partition ≡ p)
unfolding assert_daily_partition
accepted partition p h = elim (Bool-cases (is_partition_name partition.name)) [
  | inr b ↦ absurd (cc (rw b at h))
  | inl b ↦
      >>=_elim {P = IsDaily partition × (partition ≡ p)} (assert_utc_boundary partition.start) _
        (λ start es. >>=_elim (assert_utc_boundary partition.end) _ λ end ee d.
          let (same, name, later) = is_day-eq partition start end p d in
          (
            daily_of partition start end (assert_utc_boundary-IsMidnight partition.start start es)
                (assert_utc_boundary-IsMidnight partition.end end ee) name later,
            same,
          ))
        (rw b at h)
]

-- A partition that is accepted is that of a whole day in UTC: its name is that of its date, its start the midnight that begins the day and its end the next one, as they are printed.
pub assert_daily_partition-IsDaily :
    (partition p : DailyPartition) → assert_daily_partition partition ≡ some p → IsDaily partition
unfolding assert_daily_partition
assert_daily_partition-IsDaily partition p h = (accepted partition p h).0

-- The partitions of so many days from a first one.
abbrev pub each_day : (day left : ℕ) → List DailyPartition
each_day day zero = []
each_day day (suc left) = partition_at (day * milliseconds_per_day) ∷ each_day (day + 1) left

partitions_from-eq :
    (first_day offset left : ℕ) (plan : List DailyPartition)
    → partitions_from (first_day * milliseconds_per_day) offset left ≡ some plan
    → plan ≡ each_day (first_day + offset) left
unfolding partitions_from partition_for_timestamp
partitions_from-eq first_day offset zero plan h = sym (some-injective [] plan h)
partitions_from-eq first_day offset (suc left) plan h =
    let t = first_day * milliseconds_per_day + offset * milliseconds_per_day in
    let same : t ≡ (first_day + offset) * milliseconds_per_day = omega arith in
    let next : first_day + (offset + 1) ≡ first_day + offset + 1 = omega arith in
    >>=_elim {P = plan ≡ each_day (first_day + offset) (suc left)} (partition_for_timestamp t) _
      (λ p ep.
        >>=_elim (partitions_from (first_day * milliseconds_per_day) (offset + 1) left) _
          λ later el h.
            let tail = partitions_from-eq first_day (offset + 1) left later el in
            let head : p ≡ partition_at ((first_day + offset) * milliseconds_per_day) =
              sym (accepted (partition_at t) p ep).1 ∙ ap partition_at same in
            subst (λ (plan : List DailyPartition). plan ≡ each_day (first_day + offset) (suc left))
              (some-injective (p ∷ later) plan h)
              (cc (head, tail ∙ ap (λ d. each_day d left) next)))
      h

-- A plan that is made for a time has one partition for each day from so many days before the time's as are retained to the second day after it, in order and without a gap, and the number of days is from 1 to 3650.
pub build_partition_plan-each_day :
    (timestamp : ℕ) (retention_days : Number) (plan : List DailyPartition)
    → build_partition_plan (some timestamp) retention_days ≡ some plan
    → (plan
        ≡ each_day
            (timestamp / milliseconds_per_day - natural retention_days)
            (natural retention_days + 3))
      × (1 ≤ natural retention_days)
      × (natural retention_days ≤ 3650)
unfolding build_partition_plan is_retention_days
build_partition_plan-each_day timestamp retention_days plan h =
    elim (Bool-cases (is_retention_days retention_days)) [
      | inr b ↦ absurd (cc (rw b at h))
      | inl b ↦
          let days = natural retention_days in
          let today = timestamp / milliseconds_per_day in
          let first : today * milliseconds_per_day - days * milliseconds_per_day
              ≡ (today - days) * milliseconds_per_day =
            omega arith in
          let none_left : today - days + 0 ≡ today - days = omega arith in
          (
            partitions_from-eq (today - days) 0 (days + 3) plan
                  (ap (λ t. partitions_from t 0 (days + 3)) (sym first) ∙ rw b at h)
                ∙ ap (λ d. each_day d (days + 3)) none_left,
            ground arith,
            ground arith,
          )
    ]
