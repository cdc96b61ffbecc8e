-- ===== src/Query/Predicate.antt =====
-- src/modules/query/log-predicate-builder.ts.
pub mod Like
pub mod Shape
use log_stream.Base.{
  ℕ, zero, suc, ◌+◌, Bool, true, false, ◌||◌, List, [], ◌∷◌, ◌++◌, Option, none, some, ltb, ◌==◌,
  if◌then◌else◌, is_empty, length,
}
use log_stream.Base.Text.{Text, units}
use log_stream.Domain.Json.Stringify.{decimal, quote}
use log_stream.Domain.LogEntry.{LogLevel}
use log_stream.Domain.Validator.Fields.{level_name}
use log_stream.Query.Parameters.{AttributeFilter, LogFilters}

-- A parameter of a statement.
pub data SqlValue : Type 0 where
  text : Text → SqlValue
  integer : ℕ → SqlValue

-- `clauses` and `values`.
pub record Builder : Type 0 where
  pub clauses : List Text
  pub values : List SqlValue

pub record SqlPredicate : Type 0 where
  pub text : Text
  pub values : List SqlValue

unfoldable pub placeholder : ℕ → Text
placeholder n = b'$' ∷ decimal n

-- `bind`, with the clause's text before and behind the placeholder.
unfoldable pub bind : Text → Text → SqlValue → Builder → Builder
bind before after value b =
    let values = b.values ++ (value ∷ []) in
    record {
      clauses = b.clauses ++ ((before ++ (placeholder (length values) ++ after)) ∷ []);
      values = values;
    }

-- `if (filter !== undefined) bind(...)`.
unfoldable pub bind_present :
    {A : Type 0} → Text → Text → (A → SqlValue) → Option A → Builder → Builder
bind_present before after value none b = b
bind_present before after value (some a) b = bind before after (value a) b

-- `JSON.stringify` of an object with one member.
unfoldable pub serialize_attribute_filter : AttributeFilter → Text
serialize_attribute_filter a = b'{' ∷ (quote a.key ++ (b':' ∷ (quote a.value ++ (b'}' ∷ []))))

unfoldable pub bind_attributes : List AttributeFilter → Builder → Builder
bind_attributes [] b = b
bind_attributes (a ∷ attributes) b =
    bind_attributes attributes (
      bind (units "attributes_search @> ") (units "::jsonb") (text (serialize_attribute_filter a))
        b)

abbrev pub is_special : ℕ → Bool
is_special c = c == 92 || c == b'%' || c == b'_'

unfoldable pub escape_like_literal : Text → Text
escape_like_literal [] = []
escape_like_literal (c ∷ t) =
    let rest = escape_like_literal t in if is_special c then 92 ∷ c ∷ rest else c ∷ rest

unfoldable pub like_pattern : Text → Text
like_pattern q = b'%' ∷ (escape_like_literal q ++ (b'%' ∷ []))

-- `clauses.join(separator)`.
unfoldable pub join : Text → List Text → Text
join separator [] = []
join separator (t ∷ []) = t
join separator (t ∷ u ∷ rest) = t ++ (separator ++ join separator (u ∷ rest))

unfoldable pub bind_filters : LogFilters → Builder
bind_filters f =
    let b₁ =
      bind_present (units "service = ") (units "::text") text f.service
        (record { clauses = []; values = [] }) in
    let b₂ =
      bind_present (units "level = ") (units "::text") (λ (l : LogLevel). text (level_name l))
        f.level b₁ in
    let b₃ = bind_present (units "\"timestamp\" >= ") (units "::timestamptz") text f.since b₂ in
    let b₄ = bind_present (units "\"timestamp\" < ") (units "::timestamptz") text f.until b₃ in
    let b₅ = bind_attributes f.attributes b₄ in
    bind_present (units "message ILIKE ") (units "::text ESCAPE E'\\\\'")
      (λ (q : Text). text (like_pattern q)) f.q b₅

unfoldable pub build_log_predicate : LogFilters → SqlPredicate
build_log_predicate f =
    let b = bind_filters f in
    record {
      text = if is_empty b.clauses then units "TRUE" else join (units " AND ") b.clauses;
      values = b.values;
    }
