-- ===== src/Ingestion/Service/Collect.antt =====
-- src/modules/ingestion/ingestion-service.ts: the runs of the loop of `ingest`, as a relation.
use mathlib.Core.Option.{some-injective}
use log_stream.Base.{
  ℕ, zero, suc, ◌+◌, ◌<◌, ◌≡◌, refl, sym, ap, subst, ◌∙◌, List, [], ◌∷◌, Option, none, some,
  if◌then◌else◌, All, if_intro, ◌==◌, ==→eq, length, get_elem?, arith, inl, inr, Option-cases, ◌⊎◌,
}
use log_stream.Base.Maybe.{◌>>=◌, >>=_elim}
use log_stream.Base.Number.{Number}
use log_stream.Base.Text.{Text, units}
use log_stream.Domain.Json.{Json, Members}
use log_stream.Domain.Checked.{Checked, valid, invalid, Reason}
use log_stream.Domain.LogEntry.{Attributes, ValidatedLogEntry, LogInsertionRecord}
use log_stream.Domain.Validator.{validate_log_entry}
use log_stream.Domain.Validator.Kept.{IsParsed, AreParsed}
use log_stream.Domain.Validator.Fields.{HasAttributes, omitted, given}
use log_stream.Domain.Validator.Laws.{validate_log_entry-IsEntry_iff, get_own-IsParsed}
use log_stream.Domain.Normalizer.{normalize_from, normalize_attributes}
use log_stream.Domain.Normalizer.Laws.{normalize_attributes-Keeps}
use log_stream.Ingestion.Service.{
  RejectionItem, Collected, to_record, add_rejected, add_record, collect,
}

pub data Collects (stringify : Number → Text) (ids : ℕ → Text) (now : ℕ)
    : ℕ → ℕ → List Json → Collected → Type 0 where
  finished :
      {index made : ℕ}
      → Collects stringify ids now index made [] (record { records = []; rejected = [] })
  rejects :
      {index made : ℕ} {input : Json} {logs : List Json} {c : Collected} (reason : Reason)
      → validate_log_entry input now ≡ invalid reason
      → Collects stringify ids now (suc index) made logs c
      → Collects stringify ids now index made (input ∷ logs) (add_rejected index reason c)
  accepts :
      {index made : ℕ} {input : Json} {logs : List Json} {c : Collected} (e : ValidatedLogEntry)
      (search : List (Text × Text))
      → validate_log_entry input now ≡ valid e
      → normalize_attributes stringify e.attributes ≡ some search
      → Collects stringify ids now (suc index) (suc made) logs c
      → Collects stringify ids now index made
          (input ∷ logs)
          (add_record (to_record (ids made) search e) c)

abbrev pub failure_of : {A : Type 0} → Checked A → Option Reason
failure_of (valid e) = none
failure_of (invalid r) = some r

-- The reason that the response gives for an index, if it gives one.
abbrev pub reason_at : ℕ → List RejectionItem → Option Reason
reason_at i [] = none
reason_at i (item ∷ rest) = if item.index == i then some item.reason else reason_at i rest

pub Checked-cases :
    {A : Type 0} (c : Checked A) → ((a : A) × (c ≡ valid a)) ⊎ ((r : Reason) × (c ≡ invalid r))
Checked-cases (valid a) = inl (a, refl)
Checked-cases (invalid r) = inr (r, refl)

attributes_normalize :
    (stringify : Number → Text) (m : Members) (kept : Attributes)
    → AreParsed m
    → HasAttributes m kept
    → (s : List (Text × Text)) × (normalize_attributes stringify kept ≡ some s)
unfolding normalize_attributes normalize_from IsParsed
attributes_normalize stringify m kept p (omitted n) = ([], refl)
attributes_normalize stringify m kept p (given {members = members} e k) =
    let (s, h, _) =
      normalize_attributes-Keeps stringify members kept
        (get_own-IsParsed (units "attributes") m p e) k in
    (s, h)

-- The attributes of an accepted entry never make `normalizeAttributes` throw.
entry_normalizes :
    (stringify : Number → Text) (input : Json) (now : ℕ) (v : ValidatedLogEntry)
    → IsParsed input
    → validate_log_entry input now ≡ valid v
    → (s : List (Text × Text)) × (normalize_attributes stringify v.attributes ≡ some s)
unfolding IsParsed
entry_normalizes stringify input now v p h =
    let i = (validate_log_entry-IsEntry_iff input now v p).0 h in
    let pm : AreParsed i.members = subst IsParsed i.is_object p in
    attributes_normalize stringify i.members v.attributes pm i.has_attributes

suc_add : (a b : ℕ) → suc a + b ≡ a + suc b
suc_add a b = omega arith

module _ (stringify : Number → Text) (ids : ℕ → Text) (now : ℕ) where
  collect-invalid :
      (index made : ℕ) (input : Json) (logs : List Json) {reason : Reason}
      → validate_log_entry input now ≡ invalid reason
      → collect stringify ids now index made (input ∷ logs) ≡ (
          collect stringify ids now (suc index) made logs >>= λ c.
          some (add_rejected index reason c))
  unfolding collect
  collect-invalid index made input logs h = rw (h, collect)

  collect-valid :
      (index made : ℕ) (input : Json) (logs : List Json) {e : ValidatedLogEntry}
      {search : List (Text × Text)}
      → validate_log_entry input now ≡ valid e
      → normalize_attributes stringify e.attributes ≡ some search
      → collect stringify ids now index made (input ∷ logs) ≡ (
          collect stringify ids now (suc index) (suc made) logs >>= λ c.
          some (add_record (to_record (ids made) search e) c))
  unfolding collect
  collect-valid index made input logs h n = rw (h, collect, n, collect)

  collect-none :
      (index made : ℕ) (input : Json) (logs : List Json) {e : ValidatedLogEntry}
      → validate_log_entry input now ≡ valid e
      → normalize_attributes stringify e.attributes ≡ none
      → collect stringify ids now index made (input ∷ logs) ≡ none
  unfolding collect
  collect-none index made input logs h n = rw (h, collect, n, collect)

  pub collect-Collects :
      (index made : ℕ) (logs : List Json) (c : Collected)
      → collect stringify ids now index made logs ≡ some c
      → Collects stringify ids now index made logs c
  unfolding collect
  collect-Collects index made [] c h =
      subst (Collects stringify ids now index made []) (some-injective _ _ h) finished
  collect-Collects index made (input ∷ logs) c h =
      elim (Checked-cases (validate_log_entry input now)) [
        | inr (reason, e) ↦
            >>=_elim (collect stringify ids now (suc index) made logs) _
              (λ d f g.
                subst (Collects stringify ids now index made (input ∷ logs)) (some-injective _ _ g)
                  (rejects reason e (collect-Collects (suc index) made logs d f)))
              (sym (collect-invalid index made input logs e) ∙ h)
        | inl (v, e) ↦ elim (Option-cases (normalize_attributes stringify v.attributes)) [
          | inl n ↦ absurd (cc (collect-none index made input logs e n))
          | inr (search, n) ↦
              >>=_elim (collect stringify ids now (suc index) (suc made) logs) _
                (λ d f g.
                  subst (Collects stringify ids now index made (input ∷ logs))
                    (some-injective _ _ g)
                    (accepts v search e n (collect-Collects (suc index) (suc made) logs d f)))
                (sym (collect-valid index made input logs e n) ∙ h)
        ]
      ]

  pub Collects-length :
      {index made : ℕ} {logs : List Json} {c : Collected}
      → Collects stringify ids now index made logs c
      → length c.records + length c.rejected ≡ length logs
  unfolding add_rejected add_record
  Collects-length finished = refl
  Collects-length (rejects reason e r) = omega (arith, Collects-length r)
  Collects-length (accepts v s e n r) = omega (arith, Collects-length r)

  reason_at-early :
      {index made : ℕ} {logs : List Json} {c : Collected} (i : ℕ)
      → i < index
      → Collects stringify ids now index made logs c
      → reason_at i c.rejected ≡ none
  unfolding add_rejected add_record
  reason_at-early i h finished = refl
  reason_at-early i h (rejects {index = index} reason e r) =
      let later = reason_at-early i (omega arith) r in ground (arith, later)
  reason_at-early i h (accepts v s e n r) = reason_at-early i (omega arith) r

  pub reason_at-Collects :
      {index made : ℕ} {logs : List Json} {c : Collected} (k : ℕ)
      → Collects stringify ids now index made logs c
      → reason_at (index + k) c.rejected
        ≡ (get_elem? logs k >>= λ input. failure_of (validate_log_entry input now))
  unfolding add_rejected add_record
  reason_at-Collects k finished = refl
  reason_at-Collects zero (rejects reason e r) = rw e (ground arith)
  reason_at-Collects (suc k) (rejects {index = index} {logs = logs} {c = c} reason e r) =
      let later =
        subst
          (λ i.
            reason_at i c.rejected
            ≡ (get_elem? logs k >>= λ input. failure_of (validate_log_entry input now)))
          (suc_add index k) (reason_at-Collects k r) in
      if_intro (λ o. o ≡ (get_elem? logs k >>= λ input. failure_of (validate_log_entry input now)))
        (index == index + suc k) (λ same. absurd (omega (arith, ==→eq index (index + suc k) same)))
        (λ _. later)
  reason_at-Collects zero (accepts v s e n r) = rw e (reason_at-early _ (omega arith) r)
  reason_at-Collects (suc k) (accepts {index = index} {logs = logs} {c = c} v s e n r) =
      subst
        (λ i.
          reason_at i c.rejected
          ≡ (get_elem? logs k >>= λ input. failure_of (validate_log_entry input now)))
        (suc_add index k) (reason_at-Collects k r)

  -- The k-th record: the k-th identifier, a valid entry of the body and its search attributes.
  abbrev pub IsRecord : ℕ → List Json → ℕ → LogInsertionRecord → Type 0
  IsRecord made logs k r =
      (r.id ≡ ids (made + k))
      × (normalize_attributes stringify r.entry.attributes ≡ some r.attributes_search)
      × (i : ℕ) × (input : Json) × (get_elem? logs i ≡ some input)
      × (validate_log_entry input now ≡ valid r.entry)

  pub records-Collects :
      {index made : ℕ} {logs : List Json} {c : Collected} (k : ℕ) {r : LogInsertionRecord}
      → Collects stringify ids now index made logs c
      → get_elem? c.records k ≡ some r
      → IsRecord made logs k r
  unfolding add_rejected add_record
  records-Collects k finished h = absurd (cc)
  records-Collects k (rejects reason e r) h =
      let (same, m, i, input, g, v) = records-Collects k r h in (same, m, suc i, input, g, v)
  records-Collects zero {r = x}
        (accepts {index = index} {made = made} {input = input} {logs = logs} v s e n rest) h =
      subst (λ x. IsRecord made (input ∷ logs) 0 x) (some-injective _ _ h)
        (ap ids (omega arith), n, 0, input, refl, e)
  records-Collects (suc k) (accepts v s e n r) h =
      let (same, m, i, x, g, f) = records-Collects k r h in
      (same ∙ ap ids (suc_add _ k), m, suc i, x, g, f)

  pub collect-total :
      (index made : ℕ) (logs : List Json)
      → All IsParsed logs
      → (c : Collected) × (collect stringify ids now index made logs ≡ some c)
  unfolding collect
  collect-total index made [] p = (_, refl)
  collect-total index made (input ∷ logs) (pi, p) =
      elim (Checked-cases (validate_log_entry input now)) [
        | inr (reason, e) ↦
            let (c, h) = collect-total (suc index) made logs p in
            (add_rejected index reason c, collect-invalid index made input logs e ∙ rw h)
        | inl (v, e) ↦
            let (s, n) = entry_normalizes stringify input now v pi e in
            let (c, h) = collect-total (suc index) (suc made) logs p in
            (
              add_record (to_record (ids made) s v) c,
              collect-valid index made input logs e n ∙ rw h,
            )
      ]
