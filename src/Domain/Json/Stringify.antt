-- ===== src/Domain/Json/Stringify.antt =====
-- `JSON.stringify` of the language, on values of JSON; the text of a number is a parameter, but for
-- natural numbers.
use log_stream.Base.{
  ℕ, zero, suc, ◌+◌, ◌/◌, ◌%◌, Bool, true, false, not, ◌&&◌, ◌||◌, [], ◌∷◌, ◌++◌, ltb, leb, ◌==◌,
  if◌then◌else◌,
}
use log_stream.Base.Int.{pos}
use log_stream.Base.Number.{Number, int, max_safe_integer}
use log_stream.Base.Text.{Text, units}
use log_stream.Domain.Json.{Json, Items, no_items, item, Members, no_members, member}

-- `String(n)` in base ten; `fuel` is at least the number of digits.
unfoldable pub decimal_from : ℕ → ℕ → Text → Text
decimal_from zero n later = later
decimal_from (suc fuel) n later = elim (ltb n 10) [
  | true ↦ (b'0' + n) ∷ later
  | false ↦ decimal_from fuel (n / 10) ((b'0' + n % 10) ∷ later)
]

unfoldable pub decimal : ℕ → Text
decimal n = decimal_from (suc n) n []

unfoldable pub hex_digit : ℕ → ℕ
hex_digit n = if ltb n 10 then b'0' + n else 87 + n

abbrev pub is_lead : ℕ → Bool
is_lead c = leb 0xd800 c && ltb c 0xdc00

abbrev pub is_trail : ℕ → Bool
is_trail c = leb 0xdc00 c && ltb c 0xe000

abbrev starts_with_trail : Text → Bool
starts_with_trail [] = false
starts_with_trail (c ∷ t) = is_trail c

unfoldable pub unicode_escape : ℕ → Text
unicode_escape c =
    b'\\'
    ∷ b'u'
    ∷ hex_digit (c / 4096 % 16)
    ∷ hex_digit (c / 256 % 16)
    ∷ hex_digit (c / 16 % 16)
    ∷ hex_digit (c % 16)
    ∷ []

-- A unit below U+0020, a quotation mark or a reverse solidus.
unfoldable pub quote_unit : ℕ → Text
quote_unit c =
    if c == 34 || c == 92
    then 92 ∷ c ∷ []
    else if c == 8
    then units "\\b"
    else if c == 9
    then units "\\t"
    else if c == 10
    then units "\\n"
    else if c == 12
    then units "\\f"
    else if c == 13
    then units "\\r"
    else if ltb c 32
    then unicode_escape c
    else c ∷ []

-- The text between the quotation marks; `paired` says that a lead surrogate stands before it.
unfoldable pub quote_units : Bool → Text → Text
quote_units paired [] = []
quote_units paired (c ∷ t) =
    let pairs = is_lead c && starts_with_trail t in
    let alone = (is_lead c && not pairs) || (is_trail c && not paired) in
    (if alone then unicode_escape c else quote_unit c) ++ quote_units pairs t

unfoldable pub quote : Text → Text
quote t = 34 ∷ (quote_units false t ++ (34 ∷ []))

module _ (stringify_number : Number → Text) where
  unfoldable pub number_text : Number → Text
  number_text (int (pos n)) =
      if leb n max_safe_integer then decimal n else stringify_number (int (pos n))
  number_text n = stringify_number n

  unfoldable mutual
    pub stringify : Json → Text
    stringify Json.null = units "null"
    stringify (Json.boolean true) = units "true"
    stringify (Json.boolean false) = units "false"
    stringify (Json.number n) = number_text n
    stringify (Json.string t) = quote t
    stringify (Json.array values) = b'[' ∷ stringify_items true values
    stringify (Json.object members) = b'{' ∷ stringify_members true members

    -- The rest of an array; `first` says that no comma comes before the next element.
    pub stringify_items : Bool → Items → Text
    stringify_items first no_items = b']' ∷ []
    stringify_items true (item value rest) = stringify value ++ stringify_items false rest
    stringify_items false (item value rest) = b',' ∷ (stringify value ++ stringify_items false rest)

    pub stringify_members : Bool → Members → Text
    stringify_members first no_members = b'}' ∷ []
    stringify_members true (member key value rest) =
        quote key ++ (b':' ∷ (stringify value ++ stringify_members false rest))
    stringify_members false (member key value rest) =
        b',' ∷ (quote key ++ (b':' ∷ (stringify value ++ stringify_members false rest)))
