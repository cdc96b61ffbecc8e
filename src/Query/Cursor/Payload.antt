-- ===== src/Query/Cursor/Payload.antt =====
-- src/modules/query/cursor-codec.ts: the text of a payload, and how it is read.
use log_stream.Base.{ℕ, suc, ◌≡◌, refl, ◌∙◌, true, false, [], ◌∷◌, ◌++◌, some, length, All}
use log_stream.Base.Bytes.{Bytes}
use log_stream.Base.Int.{pos}
use log_stream.Base.Number.{Number, int}
use log_stream.Base.Text.{Text, units}
use log_stream.Domain.Json.{Json, Members, no_members, member}
use log_stream.Domain.Json.Stringify.{
  stringify, stringify_members, number_text, decimal, decimal_from,
}
use log_stream.Domain.Json.Parse.{
  parse_json, parse_value, parse_members, parse_string, parse_number, span_digits, scan_integer,
  scan_fraction_part, scan_exponent, skip_spaces, expect_unit, set_member,
}
use log_stream.Domain.Json.Plain.{IsPlain, are_plain-All, quote-append, parse_string_whole}
use log_stream.Query.Cursor.{LogCursorPosition, payload_of, payload_members, payload_json}

abbrev members_text : Text → Text → Text → Text
members_text t i g =
    units "\"version\":1,\"timestamp\":\""
    ++ (t
        ++ (units "\",\"id\":\""
            ++ (i ++ (units "\",\"filterFingerprint\":\"" ++ (g ++ units "\"}")))))

abbrev pub payload_text : Text → Text → Text → Text
payload_text t i g = b'{' ∷ members_text t i g

module _ (read_number : Text → Number) where
  parse_members-string :
      (fuel : ℕ) (done : Members) (key value rest : Text)
      → All IsPlain key
      → All IsPlain value
      → parse_members read_number
          (suc (suc fuel))
          false
          done
          (b',' ∷ 34 ∷ (key ++ (34 ∷ b':' ∷ 34 ∷ (value ++ (34 ∷ rest)))))
        ≡ parse_members read_number
            (suc fuel)
            false
            (set_member read_number key (Json.string value) done)
            (skip_spaces rest)
  unfolding parse_members expect_unit skip_spaces parse_value
  parse_members-string fuel done key value rest h k =
      rw
        (
          parse_string_whole key (b':' ∷ 34 ∷ (value ++ (34 ∷ rest))) h,
          parse_string_whole value rest k,
        )
        refl

  -- The first member, whose value is the number 1.
  parse_members-version :
      (fuel : ℕ) (rest : Text)
      → parse_members read_number (suc (suc fuel)) true no_members (units "\"version\":1," ++ rest)
        ≡ parse_members read_number
            (suc fuel)
            false
            (member (units "version") (Json.number (int (pos 1))) no_members)
            (b',' ∷ rest)
  unfolding parse_members expect_unit skip_spaces parse_value parse_string parse_number span_digits
      scan_integer scan_fraction_part scan_exponent set_member
  parse_members-version fuel rest = refl

  parse_members-text :
      (fuel : ℕ) (t i g : Text)
      → All IsPlain t
      → All IsPlain i
      → All IsPlain g
      → parse_members read_number
          (suc (suc (suc (suc (suc (suc fuel))))))
          true
          no_members
          (members_text t i g)
        ≡ some (Json.object (payload_members (payload_of (record { timestamp = t; id = i }) g)), [])
  unfolding payload_members skip_spaces set_member parse_members
  parse_members-text fuel t i g h k l =
      let versioned : Members = member (units "version") (Json.number (int (pos 1))) no_members in
      let timed : Members = set_member read_number (units "timestamp") (Json.string t) versioned in
      let named : Members = set_member read_number (units "id") (Json.string i) timed in
      parse_members-version (suc (suc (suc (suc fuel)))) _
      ∙ parse_members-string (suc (suc (suc fuel))) versioned (units "timestamp") t _
          (are_plain-All (units "timestamp") refl) h
      ∙ parse_members-string (suc (suc fuel)) timed (units "id") i _
          (are_plain-All (units "id") refl) k
      ∙ parse_members-string (suc fuel) named (units "filterFingerprint") g (b'}' ∷ [])
          (are_plain-All (units "filterFingerprint") refl) l

  parse_json-object :
      (t : Text) {value : Json}
      → parse_members read_number (suc (length t)) true no_members (skip_spaces t)
        ≡ some (value, [])
      → parse_json read_number (b'{' ∷ t) ≡ some value
  unfolding parse_json skip_spaces parse_value
  parse_json-object t h = rw (h, parse_value) refl

  pub parse_json-text :
      (t i g : Text)
      → All IsPlain t
      → All IsPlain i
      → All IsPlain g
      → parse_json read_number (payload_text t i g)
        ≡ some (Json.object (payload_members (payload_of (record { timestamp = t; id = i }) g)))
  unfolding skip_spaces
  parse_json-text t i g h k l =
      parse_json-object (members_text t i g) (parse_members-text _ t i g h k l)

module _ (digest : Bytes → Text) (stringify_number : Number → Text)
    (read_number : Text → Number) where
  pub payload_json-text :
      (position : LogCursorPosition) (g : Text)
      → All IsPlain position.timestamp
      → All IsPlain position.id
      → All IsPlain g
      → payload_json digest stringify_number read_number (payload_of position g)
        ≡ payload_text position.timestamp position.id g
  unfolding payload_json payload_members stringify stringify_members number_text decimal
      decimal_from
  payload_json-text position g h k l =
      rw
        (
          quote-append (units "version") _ (are_plain-All (units "version") refl),
          quote-append (units "timestamp") _ (are_plain-All (units "timestamp") refl),
          quote-append position.timestamp _ h,
          quote-append (units "id") _ (are_plain-All (units "id") refl),
          quote-append position.id _ k,
          quote-append (units "filterFingerprint") _
              (are_plain-All (units "filterFingerprint") refl),
          quote-append g _ l,
        )
        refl
