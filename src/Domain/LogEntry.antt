-- ===== src/Domain/LogEntry.antt =====
-- src/domain/log-entry.ts, src/domain/attributes.ts.
use log_stream.Base.{Bool, List, [], ◌∷◌, if◌then◌else◌}
use log_stream.Base.Number.{Number}
use log_stream.Base.Text.{Text, text_eq}

pub data LogLevel : Type 0 where
  debug info warn error : LogLevel

pub data AttributeValue : Type 0 where
  text : Text → AttributeValue
  number : Number → AttributeValue
  boolean : Bool → AttributeValue

-- The own properties of a null-prototype object, in order.
abbrev pub Attributes : Type 0
Attributes = List (Text × AttributeValue)

-- `attributes[key] = value`.
unfoldable pub set_own {ℓ} : {A : Type ℓ} → Text → A → List (Text × A) → List (Text × A)
set_own key value [] = (key, value) ∷ []
set_own key value ((k, v) ∷ rest) =
    if text_eq k key then (k, value) ∷ rest else (k, v) ∷ set_own key value rest

pub record ValidatedLogEntry : Type 0 where
  pub timestamp : Text
  pub level : LogLevel
  pub service : Text
  pub message : Text
  pub attributes : Attributes

pub record LogInsertionRecord : Type 0 where
  pub entry : ValidatedLogEntry
  pub id : Text
  pub attributes_search : List (Text × Text)
