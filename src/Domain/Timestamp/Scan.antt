-- ===== src/Domain/Timestamp/Scan.antt =====
-- src/domain/timestamp.ts: the two patterns, with `Number` applied to the captured digits.
use log_stream.Base.{
  ℕ, ◌+◌, ◌-◌, ◌*◌, Bool, ◌&&◌, ◌||◌, [], ◌∷◌, Option, none, some, leb, ◌==◌, if◌then◌else◌,
  is_empty,
}
use log_stream.Base.Maybe.{◌>>=◌}
use log_stream.Base.Text.{Text}

abbrev pub is_digit : ℕ → Bool
is_digit c = leb b'0' c && leb c b'9'

-- One code unit of a pattern.
unfoldable pub expect : ℕ → Text → Option Text
expect c [] = none
expect c (x ∷ t) = if x == c then some t else none

-- `(\d{2})`, with its value and what follows.
unfoldable pub two_digits : Text → Option (ℕ × Text)
two_digits (a ∷ b ∷ t) =
    if is_digit a && is_digit b then some ((a - 48) * 10 + (b - 48), t) else none
two_digits _ = none

unfoldable pub four_digits : Text → Option (ℕ × Text)
four_digits t = do
  (high, rest) ← two_digits t
  (low, rest') ← two_digits rest
  some (high * 100 + low, rest')

pub record DateTime : Type 0 where
  pub year : ℕ
  pub month : ℕ
  pub day : ℕ
  pub hour : ℕ
  pub minute : ℕ
  pub second : ℕ

-- Digits, then a code unit.
unfoldable pub two_then : ℕ → Text → Option (ℕ × Text)
two_then c t = do (n, rest) ← two_digits t; rest' ← expect c rest; some (n, rest')

unfoldable pub four_then : ℕ → Text → Option (ℕ × Text)
four_then c t = do (n, rest) ← four_digits t; rest' ← expect c rest; some (n, rest')

-- The part up to the seconds, which both patterns share.
unfoldable pub scan_date_time : Text → Option (DateTime × Text)
scan_date_time t = do
  (year, t₁) ← four_then b'-' t
  (month, t₂) ← two_then b'-' t₁
  (day, t₃) ← two_then b'T' t₂
  (hour, t₄) ← two_then b':' t₃
  (minute, t₅) ← two_then b':' t₄
  (second, t₆) ← two_digits t₅
  some (
    record { year = year; month = month; day = day; hour = hour; minute = minute; second = second },
    t₆,
  )

-- `\d*`, as far as it goes.
unfoldable pub span_digits : Text → Text × Text
span_digits [] = ([], [])
span_digits (c ∷ t) =
    let (digits, rest) = span_digits t in if is_digit c then (c ∷ digits, rest) else ([], c ∷ t)

-- `(?:\.(\d+))?`; an absent fraction is the empty text, as in `match[7] ?? ""`.
unfoldable pub scan_fraction : Text → Option (Text × Text)
scan_fraction [] = some ([], [])
scan_fraction (c ∷ t) =
    let (digits, rest) = span_digits t in
    if c == b'.' then (if is_empty digits then none else some (digits, rest)) else some ([], c ∷ t)

pub data Zone : Type 0 where
  utc : Zone
  offset : (east : Bool) (hour minute : ℕ) → Zone

-- The part behind the sign of an offset.
unfoldable pub scan_offset : ℕ → Text → Option Zone
scan_offset sign t = do
  (hour, t₁) ← two_then b':' t
  (minute, t₂) ← two_digits t₁
  if is_empty t₂ then some (offset (sign == b'+') hour minute) else none

-- `(Z|([+-])(\d{2}):(\d{2}))$`.
unfoldable pub scan_zone : Text → Option Zone
scan_zone [] = none
scan_zone (c ∷ t) =
    if c == b'Z'
    then (if is_empty t then some utc else none)
    else if c == b'+' || c == b'-'
    then scan_offset c t
    else none

pub record Match : Type 0 where
  pub fields : DateTime
  pub fraction : Text
  pub zone : Zone

-- `TIMESTAMP_PATTERN.exec`.
unfoldable pub match_timestamp : Text → Option Match
match_timestamp t = do
  (fields, t₁) ← scan_date_time t
  (fraction, t₂) ← scan_fraction t₁
  zone ← scan_zone t₂
  some (record { fields = fields; fraction = fraction; zone = zone })

-- `\.(\d{3})Z$`.
unfoldable pub scan_milliseconds : Text → Option Text
scan_milliseconds (p ∷ a ∷ b ∷ c ∷ z ∷ []) =
    if p == b'.' && is_digit a && is_digit b && is_digit c && z == b'Z'
    then some (a ∷ b ∷ c ∷ [])
    else none
scan_milliseconds _ = none

-- `CANONICAL_MILLISECOND_PATTERN.exec`.
unfoldable pub match_canonical : Text → Option (DateTime × Text)
match_canonical t = do
  (fields, t₁) ← scan_date_time t
  fraction ← scan_milliseconds t₁
  some (fields, fraction)
