-- ===== src/Ingestion/Service/Laws.antt =====
-- src/modules/ingestion/ingestion-service.ts: the response, the records, and the error of `ingest`.
use mathlib.Core.Option.{some-injective}
use log_stream.Base.{
  ℕ, ◌+◌, ◌≡◌, ◌≢◌, ◌↔◌, refl, sym, ap, subst, ◌∙◌, Bool, false, List, [], ◌∷◌, Option, none, some,
  if_intro, is_empty, is_empty→eq, length, get_elem?, arith, inl, inr, Option-cases, All,
}
use log_stream.Base.Maybe.{◌>>=◌}
use log_stream.Base.Number.{Number}
use log_stream.Base.Text.{Text, units}
use log_stream.Domain.Json.{Json, Items, no_items, item, get_own, items}
use log_stream.Domain.LogEntry.{LogInsertionRecord}
use log_stream.Domain.Validator.{validate_log_entry}
use log_stream.Domain.Validator.Kept.{IsParsed, AllParsed}
use log_stream.Domain.Validator.Laws.{get_own-IsParsed}
use log_stream.Ingestion.Service.{
  RejectionItem, Outcome, bad_request, type_error, response, Ingested, logs_of, read_logs,
  Collected, collect, answer, ingest,
}
use log_stream.Ingestion.Service.Body.{HasLogs, read_logs-HasLogs, HasLogs-read_logs}
use log_stream.Ingestion.Service.Collect.{
  Collects, collect-Collects, collect-total, Collects-length, reason_at, failure_of,
  reason_at-Collects, IsRecord, records-Collects,
}

abbrev pub rows : {A : Type 0} → List (List A) → ℕ
rows [] = 0
rows (x ∷ xs) = length x + rows xs

-- What the response to a body with these logs says: every log is stored or rejected, the reason at an index is the validator's, and the stored rows are those counted.
pub record IsResponse (now : ℕ) (logs : List Json) (inserted : List (List LogInsertionRecord))
    (accepted : ℕ) (rejected : List RejectionItem) : Type 0 where
  pub covers : accepted + length rejected ≡ length logs
  pub reasons :
      (i : ℕ)
      → reason_at i rejected
        ≡ (get_elem? logs i >>= λ input. failure_of (validate_log_entry input now))
  pub stored : rows inserted ≡ accepted

abbrev as_response : Outcome → Option (ℕ × List RejectionItem)
as_response (response a r) = some (a, r)
as_response _ = none

same_response :
    {a b : ℕ} {r s : List RejectionItem}
    → response a r ≡ response b s
    → ◌≡◌ {A = ℕ × List RejectionItem} (a, r) (b, s)
same_response h = some-injective _ _ (ap as_response h)

items-All : (values : Items) → AllParsed values → All IsParsed (items values)
unfolding items AllParsed
items-All no_items p = tt
items-All (item value rest) (pv, pr) = (pv, items-All rest pr)

logs_of-All :
    (o : Option Json) {logs : List Json}
    → ((v : Json) → o ≡ some v → IsParsed v)
    → logs_of o ≡ some logs
    → All IsParsed logs
unfolding logs_of IsParsed
logs_of-All (some (Json.array values)) p h =
    subst (All IsParsed) (some-injective _ _ h) (items-All values (p (Json.array values) refl))
logs_of-All none p h = absurd (cc)
logs_of-All (some Json.null) p h = absurd (cc)
logs_of-All (some (Json.boolean b)) p h = absurd (cc)
logs_of-All (some (Json.number n)) p h = absurd (cc)
logs_of-All (some (Json.string t)) p h = absurd (cc)
logs_of-All (some (Json.object m)) p h = absurd (cc)

read_logs-All :
    (body : Json) {logs : List Json}
    → IsParsed body
    → read_logs body ≡ some logs
    → All IsParsed logs
unfolding read_logs IsParsed
read_logs-All (Json.object m) p h =
    logs_of-All (get_own (units "logs") m) (λ v e. get_own-IsParsed (units "logs") m p e) h
read_logs-All Json.null p h = absurd (cc)
read_logs-All (Json.boolean b) p h = absurd (cc)
read_logs-All (Json.number n) p h = absurd (cc)
read_logs-All (Json.string t) p h = absurd (cc)
read_logs-All (Json.array xs) p h = absurd (cc)

answer-outcome :
    (insert : List LogInsertionRecord → Bool) (c : Collected)
    → ((answer insert c).outcome ≢ type_error) × ((answer insert c).outcome ≢ bad_request)
unfolding answer
answer-outcome insert c =
    if_intro (λ (x : Ingested). (x.outcome ≢ type_error) × (x.outcome ≢ bad_request))
      (is_empty c.records) (λ _. (λ h. cc, λ h. cc))
      (λ _.
        if_intro (λ (o : Outcome). (o ≢ type_error) × (o ≢ bad_request)) (insert c.records)
          (λ _. (λ h. cc, λ h. cc)) (λ _. (λ h. cc, λ h. cc)))

module _ (stringify : Number → Text) (ids : ℕ → Text) (insert : List LogInsertionRecord → Bool)
    (now : ℕ) where
  ingest-none :
      (body : Json)
      → read_logs body ≡ none
      → ingest stringify ids insert now body ≡ record { inserted = []; outcome = bad_request }
  unfolding ingest
  ingest-none body h = rw (h, ingest)

  ingest-thrown :
      (body : Json) {logs : List Json}
      → read_logs body ≡ some logs
      → collect stringify ids now 0 0 logs ≡ none
      → ingest stringify ids insert now body ≡ record { inserted = []; outcome = type_error }
  unfolding ingest
  ingest-thrown body h k = rw (h, ingest, k, ingest)

  ingest-some :
      (body : Json) {logs : List Json} {c : Collected}
      → read_logs body ≡ some logs
      → collect stringify ids now 0 0 logs ≡ some c
      → ingest stringify ids insert now body ≡ answer insert c
  unfolding ingest
  ingest-some body h k = rw (h, ingest, k, ingest)

  collected-IsResponse :
      (logs : List Json) (c : Collected) (inserted : List (List LogInsertionRecord))
      → Collects stringify ids now 0 0 logs c
      → rows inserted ≡ length c.records
      → IsResponse now logs inserted (length c.records) c.rejected
  collected-IsResponse logs c inserted t e = record {
    covers = Collects-length stringify ids now t;
    reasons = λ i.
        ap (λ j. reason_at j c.rejected) (omega arith) ∙ reason_at-Collects stringify ids now i t;
    stored = e;
  }

  answer-IsResponse :
      (logs : List Json) (c : Collected) {a : ℕ} {r : List RejectionItem}
      → Collects stringify ids now 0 0 logs c
      → (answer insert c).outcome ≡ response a r
      → IsResponse now logs (answer insert c).inserted a r
  unfolding answer
  answer-IsResponse logs c {a} {r} t =
      if_intro (λ (x : Ingested). x.outcome ≡ response a r → IsResponse now logs x.inserted a r)
        (is_empty c.records)
        (λ e h.
          subst (λ (p : ℕ × List RejectionItem). IsResponse now logs [] p.0 p.1) (same_response h)
            (collected-IsResponse logs c [] t (sym (ap length (is_empty→eq c.records e)))))
        (λ _.
          if_intro (λ o. o ≡ response a r → IsResponse now logs (c.records ∷ []) a r)
            (insert c.records)
            (λ _ h.
              subst (λ (p : ℕ × List RejectionItem). IsResponse now logs (c.records ∷ []) p.0 p.1)
                (same_response h) (collected-IsResponse logs c (c.records ∷ []) t (omega arith)))
            (λ _ h. absurd (cc)))

  answer-inserted :
      (c : Collected) (rs : List LogInsertionRecord)
      → (answer insert c).inserted ≡ rs ∷ []
      → (is_empty c.records ≡ false) × (c.records ≡ rs)
  unfolding answer
  answer-inserted c rs =
      if_intro
        (λ (x : Ingested). x.inserted ≡ rs ∷ [] → (is_empty c.records ≡ false) × (c.records ≡ rs))
        (is_empty c.records) (λ _ h. absurd (cc)) (λ e h. (e, cc))

  -- If `ingest` answers, the body holds an array of logs, and the response and the inserted records account for every one of them: accepted and rejected add up to their number, the reason listed for an index is the validator's for the log at that index, none is listed where the validator accepts, and the inserted rows number `accepted`.
  pub ingest-IsResponse :
      (body : Json) (a : ℕ) (r : List RejectionItem)
      → (ingest stringify ids insert now body).outcome ≡ response a r
      → (logs : List Json) × (read_logs body ≡ some logs)
        × IsResponse now logs (ingest stringify ids insert now body).inserted a r
  ingest-IsResponse body a r h = elim (Option-cases (read_logs body)) [
    | inl n ↦ absurd (cc (ap Ingested.outcome (ingest-none body n)))
    | inr (logs, e) ↦ elim (Option-cases (collect stringify ids now 0 0 logs)) [
      | inl n ↦ absurd (cc (ap Ingested.outcome (ingest-thrown body e n)))
      | inr (c, k) ↦
          let same = ingest-some body e k in
          let h' = sym (ap Ingested.outcome same) ∙ h in
          (
            logs,
            e,
            subst (λ (x : Ingested). IsResponse now logs x.inserted a r) (sym same)
                (answer-IsResponse logs c (collect-Collects stringify ids now 0 0 logs c k) h'),
          )
    ]
  ]

  -- Each record that `ingest` inserts is a log that the validator accepts with its search attributes, the identifiers are taken from the generator in order, and no empty insert is made.
  pub ingest-IsRecord :
      (body : Json) (rs : List LogInsertionRecord)
      → (ingest stringify ids insert now body).inserted ≡ rs ∷ []
      → (is_empty rs ≡ false)
        × (logs : List Json) × (read_logs body ≡ some logs)
        × ((k : ℕ) (r : LogInsertionRecord)
            → get_elem? rs k ≡ some r
            → IsRecord stringify ids now 0 logs k r)
  unfolding answer
  ingest-IsRecord body rs h = elim (Option-cases (read_logs body)) [
    | inl n ↦ absurd (cc (ap Ingested.inserted (ingest-none body n)))
    | inr (logs, e) ↦ elim (Option-cases (collect stringify ids now 0 0 logs)) [
      | inl n ↦ absurd (cc (ap Ingested.inserted (ingest-thrown body e n)))
      | inr (c, k) ↦
          let t = collect-Collects stringify ids now 0 0 logs c k in
          let (full, same) =
            answer-inserted c rs (sym (ap Ingested.inserted (ingest-some body e k)) ∙ h) in
          (
            subst (λ x. is_empty x ≡ false) same full,
            logs,
            e,
            subst
                (λ x.
                  (k : ℕ) (r : LogInsertionRecord)
                  → get_elem? x k ≡ some r
                  → IsRecord stringify ids now 0 logs k r)
                same (λ k r. records-Collects stringify ids now k t),
          )
    ]
  ]

  -- The body is one that `JSON.parse` gives; then `ingest` never ends in the TypeError of `normalizeAttributes`, and it ends in a BadRequestError exactly when the body is no object with an own member `logs` that is an array.
  pub ingest-IsSafe :
      (body : Json)
      → IsParsed body
      → ((ingest stringify ids insert now body).outcome ≢ type_error)
        × (((ingest stringify ids insert now body).outcome ≡ bad_request) ↔ (¬ HasLogs body))
  ingest-IsSafe body p = elim (Option-cases (read_logs body)) [
    | inl n ↦
        let same = ap Ingested.outcome (ingest-none body n) in
        (λ h. cc, (λ _ has. let (logs, e) = HasLogs-read_logs has in absurd (cc), λ _. same))
    | inr (logs, e) ↦
        let (c, k) = collect-total stringify ids now 0 0 logs (read_logs-All body p e) in
        let same = ap Ingested.outcome (ingest-some body e k) in
        let (t, b) = answer-outcome insert c in
        (
          λ h. t (sym same ∙ h),
          (λ h. absurd (b (sym same ∙ h)), λ n. absurd (n (read_logs-HasLogs body e))),
        )
  ]
