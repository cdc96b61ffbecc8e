-- ===== src/Aggregation/Count.antt =====
-- src/modules/aggregation/log-aggregation-repository.ts: `mapCount`.
pub mod Decimal
use log_stream.Base.{
  ℕ, Bool, true, false, not, ◌&&◌, ◌||◌, List, [], ◌∷◌, Option, none, some, ltb, leb, if◌then◌else◌,
  length,
}
use log_stream.Base.Number.{max_safe_integer}
use log_stream.Base.Text.{Text}
use log_stream.Domain.Json.{Json}
use log_stream.Domain.Timestamp.{number_from}
use log_stream.Query.Parameters.{all_digits}

-- POSITIVE_INTEGER_PATTERN.
unfoldable pub is_positive_integer : Text → Bool
is_positive_integer [] = false
is_positive_integer (c ∷ t) = leb b'1' c && leb c b'9' && all_digits t

-- The text of 2^53 - 1 has 16 digits.
abbrev max_safe_count_digits : ℕ
max_safe_count_digits = 16

unfoldable pub read_count : Text → Option ℕ
read_count t =
    if ltb max_safe_count_digits (length t) || not (is_positive_integer t)
    then none
    else if ltb max_safe_integer (number_from 0 t)
    then none
    else some (number_from 0 t)

unfoldable pub map_count : Json → Option ℕ
map_count (Json.string t) = read_count t
map_count _ = none
