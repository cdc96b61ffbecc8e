-- ===== src/Domain/Json/Parse.antt =====
-- `JSON.parse` of the language, on fuel; `none` is a SyntaxError. The value of a numeral that is not a
-- run of digits below 2^53 is a parameter.
use log_stream.Base.{
  ℕ, zero, suc, ◌+◌, ◌-◌, ◌*◌, Bool, true, false, ◌&&◌, ◌||◌, [], ◌∷◌, ◌++◌, Option, none, some,
  ltb, leb, ◌==◌, if◌then◌else◌, is_empty, length,
}
use log_stream.Base.Maybe.{◌>>=◌}
use log_stream.Base.Int.{pos}
use log_stream.Base.Number.{Number, int, max_safe_integer}
use log_stream.Base.Text.{Text, text_eq, units}
use log_stream.Domain.Json.{Json, Items, no_items, item, Members, no_members, member}

abbrev is_digit : ℕ → Bool
is_digit c = leb b'0' c && leb c b'9'

unfoldable pub skip_spaces : Text → Text
skip_spaces [] = []
skip_spaces (c ∷ t) =
    let rest = skip_spaces t in if c == 32 || c == 9 || c == 10 || c == 13 then rest else c ∷ t

unfoldable pub expect_unit : ℕ → Text → Option Text
expect_unit c [] = none
expect_unit c (x ∷ t) = if x == c then some t else none

unfoldable pub expect_text : Text → Text → Option Text
expect_text [] t = some t
expect_text (p ∷ ps) [] = none
expect_text (p ∷ ps) (x ∷ t) = if x == p then expect_text ps t else none

unfoldable pub hex_value : ℕ → Option ℕ
hex_value c =
    if is_digit c
    then some (c - 48)
    else if leb b'a' c && leb c b'f'
    then some (c - 87)
    else if leb b'A' c && leb c b'F'
    then some (c - 55)
    else none

unfoldable pub unicode_unit : Text → Option (ℕ × Text)
unicode_unit (a ∷ b ∷ c ∷ d ∷ t) = do
  a ← hex_value a
  b ← hex_value b
  c ← hex_value c
  d ← hex_value d
  some (((a * 16 + b) * 16 + c) * 16 + d, t)
unicode_unit _ = none

-- What follows a reverse solidus, with the unit that it stands for.
unfoldable pub escaped_unit : Text → Option (ℕ × Text)
escaped_unit [] = none
escaped_unit (c ∷ t) =
    if c == 34 || c == 92 || c == b'/'
    then some (c, t)
    else if c == b'b'
    then some (8, t)
    else if c == b't'
    then some (9, t)
    else if c == b'n'
    then some (10, t)
    else if c == b'f'
    then some (12, t)
    else if c == b'r'
    then some (13, t)
    else if c == b'u'
    then unicode_unit t
    else none

-- The rest of a string behind its first quotation mark.
unfoldable pub parse_string : ℕ → Text → Option (Text × Text)
parse_string zero t = none
parse_string (suc fuel) [] = none
parse_string (suc fuel) (c ∷ t) = elim (c == 34) [
  | true ↦ some ([], t)
  | false ↦ elim (c == 92) [
    | true ↦ do (u, rest) ← escaped_unit t; (s, rest) ← parse_string fuel rest; some (u ∷ s, rest)
    | false ↦ elim (ltb c 32) [
      | true ↦ none
      | false ↦ do (s, rest) ← parse_string fuel t; some (c ∷ s, rest)
    ]
  ]
]

unfoldable pub span_digits : Text → Text × Text
span_digits [] = ([], [])
span_digits (c ∷ t) =
    let (digits, rest) = span_digits t in if is_digit c then (c ∷ digits, rest) else ([], c ∷ t)

-- `-?(0|[1-9][0-9]*)(\.[0-9]+)?([eE][+-]?[0-9]+)?`: sign, integer, fraction and exponent.
unfoldable pub scan_integer : Text → Option (Text × Text)
scan_integer [] = none
scan_integer (c ∷ t) =
    let (digits, rest) = span_digits t in
    if c == b'0' then some (b'0' ∷ [], t) else if is_digit c then some (c ∷ digits, rest) else none

unfoldable pub scan_digits : Text → Option (Text × Text)
scan_digits t =
    let (digits, rest) = span_digits t in if is_empty digits then none else some (digits, rest)

unfoldable pub scan_fraction_part : Text → Option (Text × Text)
scan_fraction_part [] = some ([], [])
scan_fraction_part (c ∷ t) =
    if c == b'.'
    then (do (digits, rest) ← scan_digits t; some (b'.' ∷ digits, rest))
    else some ([], c ∷ t)

abbrev scan_sign : Text → Text × Text
scan_sign [] = ([], [])
scan_sign (c ∷ t) = if c == b'+' || c == b'-' then (c ∷ [], t) else ([], c ∷ t)

unfoldable pub scan_exponent : Text → Option (Text × Text)
scan_exponent [] = some ([], [])
scan_exponent (c ∷ t) =
    if c == b'e' || c == b'E'
    then (do
      (digits, rest) ← scan_digits (scan_sign t).1
      some (b'e' ∷ ((scan_sign t).0 ++ digits), rest))
    else some ([], c ∷ t)

abbrev scan_minus : Text → Text × Text
scan_minus [] = ([], [])
scan_minus (c ∷ t) = if c == b'-' then (c ∷ [], t) else ([], c ∷ t)

-- The value of a run of digits.
abbrev pub natural_from : ℕ → Text → ℕ
natural_from n [] = n
natural_from n (c ∷ t) = natural_from (n * 10 + (c - 48)) t

module _ (read_number : Text → Number) where
  abbrev number_of : Text → Text → Text → Text → Number
  number_of sign digits fraction exponent =
      if is_empty sign
        && is_empty fraction
        && is_empty exponent
        && leb (natural_from 0 digits) max_safe_integer
      then int (pos (natural_from 0 digits))
      else read_number (sign ++ (digits ++ (fraction ++ exponent)))

  unfoldable pub parse_number : Text → Option (Json × Text)
  parse_number t = do
    (digits, t₁) ← scan_integer (scan_minus t).1
    (fraction, t₂) ← scan_fraction_part t₁
    (exponent, t₃) ← scan_exponent t₂
    some (Json.number (number_of (scan_minus t).0 digits fraction exponent), t₃)

  -- An object as `JSON.parse` makes it: a key that comes again keeps its place and takes the new value.
  -- (JavaScript lists keys that are array indices first; nothing here depends on that order.)
  unfoldable pub set_member : Text → Json → Members → Members
  set_member key value no_members = member key value no_members
  set_member key value (member k v rest) =
      if text_eq k key then member k value rest else member k v (set_member key value rest)

  unfoldable mutual
    pub parse_value : ℕ → Text → Option (Json × Text)
    parse_value zero t = none
    parse_value (suc fuel) [] = none
    parse_value (suc fuel) (c ∷ t) = elim (c == 34) [
      | true ↦ do (s, rest) ← parse_string (suc (length t)) t; some (Json.string s, rest)
      | false ↦ elim (c == b'{') [
        | true ↦ parse_members fuel true no_members (skip_spaces t)
        | false ↦ elim (c == b'[') [
          | true ↦ do
            (values, rest) ← parse_items fuel true (skip_spaces t)
            some (Json.array values, rest)
          | false ↦ elim (c == b't') [
            | true ↦ do rest ← expect_text (units "rue") t; some (Json.boolean true, rest)
            | false ↦ elim (c == b'f') [
              | true ↦ do rest ← expect_text (units "alse") t; some (Json.boolean false, rest)
              | false ↦ elim (c == b'n') [
                | true ↦ do rest ← expect_text (units "ull") t; some (Json.null, rest)
                | false ↦ parse_number (c ∷ t)
              ]
            ]
          ]
        ]
      ]
    ]

    -- Behind the bracket, or behind an element, with the spaces skipped.
    pub parse_items : ℕ → Bool → Text → Option (Items × Text)
    parse_items zero first t = none
    parse_items (suc fuel) first [] = none
    parse_items (suc fuel) first (c ∷ t) = elim (c == b']') [
      | true ↦ some (no_items, t)
      | false ↦ elim (first || c == b',') [
        | false ↦ none
        | true ↦ do
          (value, rest) ← parse_value fuel (if first then c ∷ t else skip_spaces t)
          (values, rest) ← parse_items fuel false (skip_spaces rest)
          some (item value values, rest)
      ]
    ]

    pub parse_members : ℕ → Bool → Members → Text → Option (Json × Text)
    parse_members zero first done t = none
    parse_members (suc fuel) first done [] = none
    parse_members (suc fuel) first done (c ∷ t) = elim (c == b'}') [
      | true ↦ some (Json.object done, t)
      | false ↦ elim (first || c == b',') [
        | false ↦ none
        | true ↦ do
          rest ← expect_unit 34 (if first then c ∷ t else skip_spaces t)
          (key, rest) ← parse_string (suc (length rest)) rest
          rest ← expect_unit b':' (skip_spaces rest)
          (value, rest) ← parse_value fuel (skip_spaces rest)
          parse_members fuel false (set_member key value done) (skip_spaces rest)
      ]
    ]

  -- The whole text is one value, with spaces round it.
  unfoldable pub parse_json : Text → Option Json
  parse_json t = do
    (value, rest) ← parse_value (suc (length t)) (skip_spaces t)
    if is_empty (skip_spaces rest) then some value else none
