-- ===== src/Domain/Normalizer.antt =====
-- src/domain/attribute-normalizer.ts. A thrown TypeError is `none`; `JSON.stringify` of a number is
-- a parameter.
pub mod Laws
use log_stream.Base.{ℕ, Bool, true, false, List, [], ◌∷◌, Option, none, some, if◌then◌else◌}
use log_stream.Base.Maybe.{◌>>=◌}
use log_stream.Base.Number.{Number, int, negative_zero, fraction, infinite, nan, is_finite}
use log_stream.Base.Text.{Text, units}
use log_stream.Domain.LogEntry.{AttributeValue, Attributes, set_own}

module _ (stringify : Number → Text) where
  unfoldable pub normalize_number : Number → Option Text
  normalize_number negative_zero = some (units "0")
  normalize_number n = if is_finite n then some (stringify n) else none

  unfoldable pub normalize_value : AttributeValue → Option Text
  normalize_value (AttributeValue.text t) = some t
  normalize_value (AttributeValue.boolean true) = some (units "true")
  normalize_value (AttributeValue.boolean false) = some (units "false")
  normalize_value (AttributeValue.number n) = normalize_number n

  -- The loop over the keys, with `normalized` so far.
  unfoldable pub normalize_from : Attributes → List (Text × Text) → Option (List (Text × Text))
  normalize_from [] normalized = some normalized
  normalize_from ((key, value) ∷ rest) normalized = do
    t ← normalize_value value
    normalize_from rest (set_own key t normalized)

  unfoldable pub normalize_attributes : Attributes → Option (List (Text × Text))
  normalize_attributes attributes = normalize_from attributes []
