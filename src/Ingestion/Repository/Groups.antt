-- ===== src/Ingestion/Repository/Groups.antt =====
-- src/modules/ingestion/ingestion-repository.ts: what the aggregated groups count.
use mathlib.Core.Option.{some-injective}
use log_stream.Base.{
  ℕ, ◌+◌, ◌-◌, ◌%◌, ◌≡◌, refl, ap, ◌∙◌, Bool, true, false, ◌&&◌, List, [], ◌∷◌, none, some, All,
  if◌then◌else◌, arith, if_intro,
}
use log_stream.Base.Maybe.{>>=_elim}
use log_stream.Base.Number.{Number}
use log_stream.Base.Text.{Text, text_eq, text_eq→eq}
use log_stream.Domain.LogEntry.{LogInsertionRecord}
use log_stream.Domain.Timestamp.{Order}
use log_stream.Domain.Timestamp.Print.{to_iso_string}
use log_stream.Domain.Validator.Fields.{level_name}
use log_stream.Query.Sorting.{place, sort}
use log_stream.Ingestion.Repository.{
  parse_date, AggregateGroup, group_key, group_for, add_group, collect_groups, group_before,
  group_records_for_aggregation,
}
use log_stream.Ingestion.Repository.Keys.{IsClean, key_of-injective, IsOwn, group_for-IsOwn}

-- The sameness of a minute, a service and a level.
abbrev same_parts : (minute service level minute' service' level' : Text) → Bool
same_parts minute service level minute' service' level' =
    text_eq minute minute' && text_eq service service' && text_eq level level'

abbrev group_is : Text → Text → Text → AggregateGroup → Bool
group_is minute service level g = same_parts g.bucket_start g.service g.level minute service level

-- What the groups count for a minute, a service and a level.
abbrev pub counted : Text → Text → Text → List AggregateGroup → ℕ
counted minute service level [] = 0
counted minute service level (g ∷ groups) =
    (if group_is minute service level g then g.count else 0) + counted minute service level groups

abbrev one_if : Bool → ℕ
one_if true = 1
one_if false = 0

-- The record's service and level are these, and its time less what is past the full minute prints so.
abbrev pub belongs : Text → Text → Text → LogInsertionRecord → Bool
belongs minute service level r = elim (parse_date r.entry.timestamp) [
  | none ↦ false
  | some time ↦
      same_parts (to_iso_string (time - time % 60000)) r.entry.service (level_name r.entry.level)
        minute service level
]

-- How many of the records belong there.
abbrev pub occurrences : Text → Text → Text → List LogInsertionRecord → ℕ
occurrences minute service level [] = 0
occurrences minute service level (r ∷ records) =
    one_if (belongs minute service level r) + occurrences minute service level records

bump : (b : Bool) (n m : ℕ) → (if b then n + 1 else 0) + m ≡ one_if b + ((if b then n else 0) + m)
bump true n m = omega arith
bump false n m = omega arith

own_share : (b : Bool) (n : ℕ) → n ≡ 1 → (if b then n else 0) ≡ one_if b
own_share true n h = h
own_share false n h = refl

abbrev AllClean : List AggregateGroup → Type 0
AllClean groups = All IsClean groups

add_group-AllClean :
    (g : AggregateGroup) (groups : List AggregateGroup)
    → IsClean g
    → AllClean groups
    → AllClean (add_group g groups)
unfolding add_group
add_group-AllClean g [] c h = (c, tt)
add_group-AllClean g (x ∷ groups) c (d, h) =
    if_intro (All IsClean) (text_eq (group_key x) (group_key g)) (λ _. (d, h))
      (λ _. (d, add_group-AllClean g groups c h))

module _ (minute service level : Text) where
  counted-add :
      (g : AggregateGroup) (groups : List AggregateGroup)
      → g.count ≡ 1
      → IsClean g
      → AllClean groups
      → counted minute service level (add_group g groups)
        ≡ one_if (group_is minute service level g) + counted minute service level groups
  unfolding add_group
  counted-add g [] one c h =
      ap (λ n. n + 0) (own_share (group_is minute service level g) g.count one)
  counted-add g (x ∷ groups) one c (d, h) =
      let own = one_if (group_is minute service level g) in
      if_intro
        (λ gs. counted minute service level gs ≡ own + counted minute service level (x ∷ groups))
        (text_eq (group_key x) (group_key g))
        (λ e.
          let (m, s, l) =
            key_of-injective x.bucket_start x.service x.level g.bucket_start g.service g.level (d.0)
              (c.0) (d.1) (c.1) (text_eq→eq (group_key x) (group_key g) e) in
          let same : group_is minute service level x ≡ group_is minute service level g =
            cc (m, s, l) in
          bump (group_is minute service level x) x.count (counted minute service level groups)
          ∙ ap (λ b. one_if b + counted minute service level (x ∷ groups)) same)
        (λ _. omega (arith, counted-add g groups one c h))

  IsOwn-belongs :
      (r : LogInsertionRecord) (g : AggregateGroup)
      → IsOwn r g
      → one_if (belongs minute service level r) ≡ one_if (group_is minute service level g)
  IsOwn-belongs r g own = rw (own.parsed, belongs, own.minute, own.service, own.level) refl

  counted-collect :
      (records : List LogInsertionRecord) (groups : List AggregateGroup)
      {found : List AggregateGroup}
      → AllClean groups
      → collect_groups records groups ≡ some found
      → counted minute service level found
        ≡ occurrences minute service level records + counted minute service level groups
  unfolding collect_groups
  counted-collect [] groups c h =
      omega (arith, ap (counted minute service level) (some-injective _ _ h))
  counted-collect (r ∷ records) groups {found} c h =
      >>=_elim
        {P = counted minute service level found
          ≡ occurrences minute service level (r ∷ records) + counted minute service level groups}
        (group_for r) _
        (λ g e k.
          let own = group_for-IsOwn r e in
          let later =
            counted-collect records (add_group g groups) (add_group-AllClean g groups own.clean c)
              k in
          let added = counted-add g groups own.once own.clean c in
          let belonging = IsOwn-belongs r g own in omega (arith, later, added, belonging))
        h

module _ (locale_compare : Text → Text → Order) (stringify_number : Number → Text)
    (minute service level : Text) where
  counted-place :
      (g : AggregateGroup) (groups : List AggregateGroup)
      → counted minute service level (place (group_before locale_compare stringify_number) g groups)
        ≡ counted minute service level (g ∷ groups)
  unfolding place
  counted-place g [] = refl
  counted-place g (x ∷ groups) =
      if_intro
        (λ gs. counted minute service level gs ≡ counted minute service level (g ∷ x ∷ groups))
        (group_before locale_compare stringify_number x g)
        (λ _. omega (arith, counted-place g groups)) (λ _. refl)

  counted-sort :
      (groups : List AggregateGroup)
      → counted minute service level (sort (group_before locale_compare stringify_number) groups)
        ≡ counted minute service level groups
  unfolding sort
  counted-sort [] = refl
  counted-sort (g ∷ groups) = omega (
    arith,
    counted-place g (sort (group_before locale_compare stringify_number) groups),
    counted-sort groups,
  )

  -- The groups that are added to the aggregates count, for every text of a minute, service and level, exactly the records with this service and level whose time, less what is past its full minute, prints as that text, however the groups are compared.
  pub counted-group_records :
      (records : List LogInsertionRecord) (groups : List AggregateGroup)
      → group_records_for_aggregation locale_compare stringify_number records ≡ some groups
      → counted minute service level groups ≡ occurrences minute service level records
  unfolding group_records_for_aggregation
  counted-group_records records groups = >>=_elim (collect_groups records []) _ λ found e h.
      let collected = counted-collect minute service level records [] tt e in
      let sorted = counted-sort found in
      let same = ap (counted minute service level) (some-injective _ _ h) in
      omega (arith, collected, sorted, same)
