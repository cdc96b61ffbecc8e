-- ===== src/Database/Errors.antt =====
-- src/database/database-errors.ts.
use log_stream.Base.{
  Bool, true, false, ◌||◌, List, [], ◌∷◌, Option, none, some, if◌then◌else◌, ◌≡◌, refl,
}
use log_stream.Base.Text.{Text, text_eq, units}
use log_stream.Domain.Json.{Json}

-- A property as `getOwnPropertyDescriptor` finds it: none, an accessor or a value; or it throws.
pub data Descriptor : Type 0 where
  no_property accessor throwing : Descriptor
  holds : Json → Descriptor

-- What was thrown: an object with its properties `code` and `message`, and whether `instanceof Error`
-- holds of it (`none` where that throws); or another value.
pub data ThrownValue : Type 0 where
  primitive : ThrownValue
  object : (code message : Descriptor) → Option Bool → ThrownValue

pub data OwnStringProperty : Type 0 where
  absent unsafe : OwnStringProperty
  value : Text → OwnStringProperty

abbrev text_of : Json → OwnStringProperty
text_of (Json.string t) = value t
text_of _ = unsafe

unfoldable pub read_own_string_property : Descriptor → OwnStringProperty
read_own_string_property no_property = absent
read_own_string_property accessor = unsafe
read_own_string_property throwing = unsafe
read_own_string_property (holds json) = text_of json

unfoldable pub is_error_instance : Option Bool → Bool
is_error_instance none = false
is_error_instance (some b) = b

abbrev transient_database_codes : List Text
transient_database_codes =
    units "08000"
    ∷ units "08001"
    ∷ units "08003"
    ∷ units "08006"
    ∷ units "08007"
    ∷ units "57P01"
    ∷ units "57P02"
    ∷ units "57P03"
    ∷ units "EAI_AGAIN"
    ∷ units "ECONNABORTED"
    ∷ units "ECONNREFUSED"
    ∷ units "ECONNRESET"
    ∷ units "EHOSTDOWN"
    ∷ units "EHOSTUNREACH"
    ∷ units "ENETDOWN"
    ∷ units "ENETRESET"
    ∷ units "ENETUNREACH"
    ∷ units "ENOTFOUND"
    ∷ units "EPIPE"
    ∷ units "ETIMEDOUT"
    ∷ []

abbrev transient_codeless_database_messages : List Text
transient_codeless_database_messages =
    units "Client has encountered a connection error and is not queryable"
    ∷ units "Client was closed and is not queryable"
    ∷ units "Connection terminated"
    ∷ units "Connection terminated unexpectedly"
    ∷ units "Connection terminated due to connection timeout"
    ∷ units "Query read timeout"
    ∷ units "timeout exceeded when trying to connect"
    ∷ units "timeout expired"
    ∷ []

abbrev is_among : List Text → Text → Bool
is_among [] t = false
is_among (x ∷ xs) t = text_eq x t || is_among xs t

-- The error that is answered instead: an InternalDatabaseError or a TransientServiceError.
pub data DatabaseError : Type 0 where
  internal_database transient_service : DatabaseError

abbrev transient_if : Bool → DatabaseError
transient_if true = transient_service
transient_if false = internal_database

abbrev by_message : OwnStringProperty → DatabaseError
by_message (value t) = transient_if (is_among transient_codeless_database_messages t)
by_message _ = internal_database

abbrev by_code : OwnStringProperty → Bool → OwnStringProperty → DatabaseError
by_code (value t) is_error message = transient_if (is_among transient_database_codes t)
by_code unsafe is_error message = internal_database
by_code absent is_error message = if is_error then by_message message else internal_database

unfoldable pub translate_database_error : ThrownValue → DatabaseError
translate_database_error primitive = internal_database
translate_database_error (object code message is_error) =
    by_code (read_own_string_property code) (is_error_instance is_error)
      (read_own_string_property message)

-- A connection that was refused is transient; a message alone counts only for an error without code.
refused_is_transient :
    translate_database_error
      (object (holds (Json.string (units "ECONNREFUSED"))) no_property (some true))
    ≡ transient_service
unfolding translate_database_error read_own_string_property is_error_instance
refused_is_transient = refl

code_first :
    translate_database_error (
      object
        (holds (Json.string (units "42P01")))
        (holds (Json.string (units "timeout expired")))
        (some true))
    ≡ internal_database
unfolding translate_database_error read_own_string_property is_error_instance
code_first = refl
