-- ===== src/Query/Cursor/RoundTrip.antt =====
-- src/modules/query/cursor-codec.ts: a cursor leads back to its position.
use log_stream.Base.{
  ℕ, ◌<◌, ◌≡◌, ◌≢◌, refl, true, [], ◌∷◌, none, some, All, All-append, Option-cases, inl, inr,
}
use log_stream.Base.Bytes.{Bytes, utf8, to_base64url}
use log_stream.Base.Bytes.Ascii.{
  append-IsAscii, IsAscii-bytes, IsAscii, utf8-IsAscii, decode_utf8-IsAscii,
}
use log_stream.Base.Bytes.Base64.{from_base64url-to}
use log_stream.Base.Number.{Number}
use log_stream.Base.Text.{Text, text_eq_refl, units}
use log_stream.Domain.Json.{get_own}
use log_stream.Domain.Json.Plain.{IsPlain, plain-IsAscii}
use log_stream.Domain.Timestamp.{parse_general}
use log_stream.Domain.Timestamp.FastPath.{parse_canonical_timestamp-parse_general}
use log_stream.Domain.Timestamp.Plain.{match_timestamp-All}
use log_stream.Domain.Timestamp.Scan.{match_timestamp}
use log_stream.Query.Parameters.{LogFilters, keys_of}
use log_stream.Query.Patterns.{is_uuid_v4, is_sha_256_hex}
use log_stream.Query.Patterns.Laws.{is_uuid_v4-All, is_sha_256_hex-All, is_base64url-to}
use log_stream.Query.Cursor.{
  LogCursorPosition, CursorPayload, as_object, as_string, is_version, is_canonical,
  has_exact_payload_keys, read_payload, bytes_eq, payload_members, filter_fingerprint, payload_of,
  encode_log_cursor, check_payload, decode_text, decode_payload, decode_log_cursor,
}
use log_stream.Query.Cursor.Payload.{payload_text, payload_json-text, parse_json-text}

is_canonical-match : (t : Text) → match_timestamp t ≡ none → is_canonical t ≢ true
unfolding is_canonical parse_general
is_canonical-match t e =
    rw (parse_canonical_timestamp-parse_general t, e, is_canonical, parse_general) λ h. absurd (cc)

is_canonical-All : (t : Text) → is_canonical t ≡ true → All IsPlain t
unfolding is_canonical parse_general
is_canonical-All t h = elim (Option-cases (match_timestamp t)) [
  | inl e ↦ absurd (is_canonical-match t e h)
  | inr (m, e) ↦ match_timestamp-All t e
]

-- What the codec writes for a position with an identifier and a timestamp of the database.
pub record IsPosition (p : LogCursorPosition) : Type 0 where
  pub id_ok : is_uuid_v4 p.id ≡ true
  pub timestamp_ok : is_canonical p.timestamp ≡ true

payload_text-IsAscii :
    (t i g : Text) → All IsPlain t → All IsPlain i → All IsPlain g → IsAscii (payload_text t i g)
payload_text-IsAscii t i g h k l = append-IsAscii (units "{\"version\":1,\"timestamp\":\"") _ refl (
    All-append (λ c. c < 128) t _ (plain-IsAscii t h)
      (append-IsAscii (units "\",\"id\":\"") _ refl (
        All-append (λ c. c < 128) i _ (plain-IsAscii i k)
          (append-IsAscii (units "\",\"filterFingerprint\":\"") _ refl (
            All-append (λ c. c < 128) g _ (plain-IsAscii g l)
              (append-IsAscii (units "\"}") [] refl tt))))))

decode_text-to :
    (b : ℕ) (json : Text)
    → IsAscii (b ∷ json)
    → decode_text (to_base64url (utf8 (b ∷ json))) ≡ some (b ∷ json)
unfolding decode_text bytes_eq
decode_text-to b json h =
    rw
      (
        utf8-IsAscii (b ∷ json) h,
        is_base64url-to b json,
        from_base64url-to (b ∷ json) (IsAscii-bytes (b ∷ json) h),
        text_eq_refl (to_base64url (b ∷ json)),
        decode_utf8-IsAscii (b ∷ json) h,
        utf8-IsAscii (b ∷ json) h,
        text_eq_refl (b ∷ json),
      )
      refl

has_exact_payload_keys-payload_members :
    (p : CursorPayload) → has_exact_payload_keys (payload_members p) ≡ true
unfolding has_exact_payload_keys payload_members get_own keys_of
has_exact_payload_keys-payload_members p = refl

module _ (digest : Bytes → Text) (stringify_number : Number → Text)
    (read_number : Text → Number) where
  decode_payload-text :
      (position : LogCursorPosition) (g : Text)
      → IsPosition position
      → is_sha_256_hex g ≡ true
      → decode_payload digest stringify_number read_number
          (payload_text position.timestamp position.id g)
        ≡ some (payload_of position g)
  unfolding decode_payload as_object has_exact_payload_keys read_payload payload_members get_own
  decode_payload-text position g p e =
      rw
        (
          parse_json-text read_number position.timestamp position.id g
              (is_canonical-All _ p.timestamp_ok) (is_uuid_v4-All _ p.id_ok)
              (is_sha_256_hex-All g e),
          payload_json-text digest stringify_number read_number position g
              (is_canonical-All _ p.timestamp_ok) (is_uuid_v4-All _ p.id_ok)
              (is_sha_256_hex-All g e),
          has_exact_payload_keys-payload_members (payload_of position g),
          text_eq_refl (payload_text position.timestamp position.id g),
        )
        refl

  check_payload-of :
      (position : LogCursorPosition) (filters : LogFilters)
      → IsPosition position
      → is_sha_256_hex (filter_fingerprint digest stringify_number read_number filters) ≡ true
      → check_payload digest stringify_number read_number
          (payload_of position (filter_fingerprint digest stringify_number read_number filters))
          filters
        ≡ some position
  unfolding check_payload is_version as_string
  check_payload-of position filters p e =
      rw
        (
          p.id_ok,
          e,
          p.timestamp_ok,
          text_eq_refl (filter_fingerprint digest stringify_number read_number filters),
        )
        refl

  -- For a digest that is 64 hexadecimal digits, the cursor that `encodeLogCursor` makes for a UUID and a canonical timestamp is decoded, with the same filters, to exactly this position.
  pub decode_log_cursor-encode :
      (position : LogCursorPosition) (filters : LogFilters)
      → ((bytes : Bytes) → is_sha_256_hex (digest bytes) ≡ true)
      → IsPosition position
      → decode_log_cursor digest stringify_number read_number
          (encode_log_cursor digest stringify_number read_number position filters)
          filters
        ≡ some position
  unfolding decode_log_cursor encode_log_cursor filter_fingerprint
  decode_log_cursor-encode position filters hex p =
      let g = filter_fingerprint digest stringify_number read_number filters in
      let e : is_sha_256_hex g ≡ true = hex _ in
      let written =
        payload_json-text digest stringify_number read_number position g
          (is_canonical-All _ p.timestamp_ok) (is_uuid_v4-All _ p.id_ok) (is_sha_256_hex-All g e) in
      let ascii =
        payload_text-IsAscii position.timestamp position.id g (is_canonical-All _ p.timestamp_ok)
          (is_uuid_v4-All _ p.id_ok) (is_sha_256_hex-All g e) in
      rw (written, decode_text-to b'{' _ ascii, decode_payload-text position g p e)
        (check_payload-of position filters p e)
