-- ===== src/Database/Config/Bounds.antt =====
-- src/database/database-config.ts: the bounds of a configuration that is loaded.
use log_stream.Base.{
  ℕ, ◌*◌, ◌≤◌, ◌≡◌, refl, sym, subst, not, ◌||◌, Option, none, some, ltb, leb, is_empty, Bool-cases,
  inl, inr, arith,
}
use log_stream.Base.Number.{max_safe_integer}
use log_stream.Base.Result.{ok, ok_elim, ok-injective}
use log_stream.Base.Text.{Text, units}
use log_stream.Domain.Json.{Json, Members, get_own}
use log_stream.Domain.Timestamp.{number_from}
use log_stream.Query.Parameters.{all_digits}
use log_stream.Database.Config.{
  LoadedDatabaseConfig, Url, parse_database_url, parse_bounded_integer, integer_within, bounded,
  retry_within, load_database_config,
}

abbrev IsWithin : ℕ → ℕ → Type 0
IsWithin maximum n = (1 ≤ n) × (n ≤ maximum)

integer_within-IsWithin :
    (value name : Text) (maximum n : ℕ)
    → integer_within value name maximum ≡ ok n
    → IsWithin maximum n
integer_within-IsWithin value name maximum n h =
    elim (Bool-cases (is_empty value || not (all_digits value))) [
      | inl b ↦ absurd (cc (rw b at h))
      | inr b ↦
          let parsed = number_from 0 value in
          elim (Bool-cases
            (not (leb parsed max_safe_integer) || ltb parsed 1 || ltb maximum parsed)) [
              | inl c ↦ absurd (cc (rw (b, c) at h))
              | inr c ↦
                  subst (IsWithin maximum) (ok-injective (rw (b, c) at h))
                    (ground arith, ground arith)
            ]
    ]

bounded-IsWithin :
    (o : Option Json) (name : Text) (default maximum n : ℕ)
    → IsWithin maximum default
    → parse_bounded_integer o name default maximum ≡ ok n
    → IsWithin maximum n
unfolding parse_bounded_integer
bounded-IsWithin none name default maximum n d h = subst (IsWithin maximum) (ok-injective h) d
bounded-IsWithin (some (Json.string value)) name default maximum n d h =
    integer_within-IsWithin value name maximum n h
bounded-IsWithin (some (Json.null)) name default maximum n d h = absurd (cc)
bounded-IsWithin (some (Json.boolean b)) name default maximum n d h = absurd (cc)
bounded-IsWithin (some (Json.number b)) name default maximum n d h = absurd (cc)
bounded-IsWithin (some (Json.array b)) name default maximum n d h = absurd (cc)
bounded-IsWithin (some (Json.object b)) name default maximum n d h = absurd (cc)

retry_within-le :
    (delay timeout n : ℕ) → retry_within delay timeout ≡ ok n → (n ≡ delay) × (n ≤ timeout)
retry_within-le delay timeout n h = elim (Bool-cases (ltb timeout delay)) [
  | inl b ↦ absurd (cc (rw b at h))
  | inr b ↦ let e = ok-injective (rw b at h) in (sym e, subst (λ x. x ≤ timeout) e (ground arith))
]

-- The numbers of a configuration are within their bounds.
pub record IsBoundedConfig (c : LoadedDatabaseConfig) : Type 0 where
  pub connections : IsWithin 32 c.max_connections
  pub connection_timeout : IsWithin 60000 c.connection_timeout_ms
  pub query_timeout : IsWithin 120000 c.query_timeout_ms
  pub startup_timeout : IsWithin 300000 c.startup_timeout_ms
  pub retry_delay : IsWithin 30000 c.retry_delay_ms
  pub retry_in_time : c.retry_delay_ms ≤ c.startup_timeout_ms
  pub days : IsWithin 3650 c.retention_days
  pub minutes : ℕ
  pub minutes_within : IsWithin 1440 minutes
  pub interval : c.retention_interval_ms ≡ minutes * 60000

-- Of an environment that loads, each number of the configuration is a default or at least 1 and at most its maximum, the delay between attempts is at most the time allowed for the start, and the interval of the retention is a whole number of minutes from 1 to 1440.
pub load_database_config-IsBoundedConfig :
    (parse_url : Text → Option Url) (environment : Members) (c : LoadedDatabaseConfig)
    → load_database_config parse_url (Json.object environment) ≡ ok c
    → IsBoundedConfig c
unfolding load_database_config
load_database_config-IsBoundedConfig parse_url environment c =
    ok_elim (bounded environment (units "DB_STARTUP_TIMEOUT_MS") 30000 300000) _ λ startup e₁.
      ok_elim (bounded environment (units "DB_RETRY_DELAY_MS") 500 30000) _ λ parsed e₂.
        ok_elim (retry_within parsed startup) _ λ retry e₃.
          ok_elim (bounded environment (units "RETENTION_INTERVAL_MINUTES") 60 1440) _ λ minutes e₄.
            ok_elim
              (parse_database_url parse_url (get_own (units "DATABASE_URL") environment)
                (units "DATABASE_URL") _)
              _
              λ url e₅.
                ok_elim
                  (parse_database_url parse_url
                    (get_own (units "MIGRATION_DATABASE_URL") environment)
                    (units "MIGRATION_DATABASE_URL") _)
                  _
                  λ owner_url e₆.
                    ok_elim (bounded environment (units "DB_POOL_MAX") 4 32) _ λ connections e₇.
                      ok_elim (bounded environment (units "DB_CONNECTION_TIMEOUT_MS") 2000 60000) _
                        λ connection e₈.
                          ok_elim (bounded environment (units "DB_QUERY_TIMEOUT_MS") 10000 120000) _
                            λ query e₉.
                              ok_elim (bounded environment (units "RETENTION_DAYS") 30 3650) _
                                λ days e h.
                                  let (same, in_time) = retry_within-le parsed startup retry e₃ in
                                  subst IsBoundedConfig (ok-injective h) (record {
                                    connections =
                                        bounded-IsWithin _ _ 4 32 connections (omega arith) e₇;
                                    connection_timeout =
                                        bounded-IsWithin _ _ 2000 60000 connection (omega arith) e₈;
                                    query_timeout =
                                        bounded-IsWithin _ _ 10000 120000 query (omega arith) e₉;
                                    startup_timeout =
                                        bounded-IsWithin _ _ 30000 300000 startup (omega arith) e₁;
                                    retry_delay =
                                        subst (IsWithin 30000) (sym same)
                                          (bounded-IsWithin _ _ 500 30000 parsed (omega arith) e₂);
                                    retry_in_time = in_time;
                                    days = bounded-IsWithin _ _ 30 3650 days (omega arith) e;
                                    minutes = minutes;
                                    minutes_within =
                                        bounded-IsWithin _ _ 60 1440 minutes (omega arith) e₄;
                                    interval = refl;
                                  })
