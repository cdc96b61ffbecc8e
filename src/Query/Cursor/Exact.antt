-- ===== src/Query/Cursor/Exact.antt =====
-- src/modules/query/cursor-codec.ts: the only text that stands for a position.
use mathlib.Core.Option.{some-injective}
use log_stream.Base.{
  ◌≡◌, refl, sym, ap, subst, ◌∙◌, Bool, true, false, some, ==→eq, arith, is_empty, [], ◌∷◌,
}
use log_stream.Base.Bytes.{Bytes, utf8, decode_utf8, to_base64url, from_base64url}
use log_stream.Base.Int.{pos, negsuc}
use log_stream.Base.Maybe.{>>=_elim}
use log_stream.Base.Number.{Number, int, negative_zero, fraction, infinite, nan}
use log_stream.Base.Text.{Text, text_eq, text_eq→eq}
use log_stream.Domain.Json.{Json}
use log_stream.Domain.Json.Parse.{parse_json}
use log_stream.Query.Parameters.{LogFilters}
use log_stream.Query.Patterns.{is_uuid_v4, is_sha_256_hex, is_base64url}
use log_stream.Query.Cursor.{
  LogCursorPosition, CursorPayload, require, as_object, as_string, is_version, is_canonical,
  has_exact_payload_keys, read_payload, bytes_eq, filter_fingerprint, payload_json, payload_of,
  encode_log_cursor, check_payload, decode_text, decode_payload, decode_log_cursor,
}

require-true : (b : Bool) {u : Unit {0}} → require b ≡ some u → b ≡ true
require-true true h = refl
require-true false h = absurd (cc)

as_string-eq : (j : Json) {t : Text} → as_string j ≡ some t → j ≡ Json.string t
unfolding as_string
as_string-eq (Json.string t) h = ap Json.string (some-injective _ _ h)
as_string-eq Json.null h = absurd (cc)
as_string-eq (Json.boolean b) h = absurd (cc)
as_string-eq (Json.number n) h = absurd (cc)
as_string-eq (Json.array xs) h = absurd (cc)
as_string-eq (Json.object m) h = absurd (cc)

is_version-eq : (j : Json) → is_version j ≡ true → j ≡ Json.number (int (pos 1))
unfolding is_version
is_version-eq (Json.number (int (pos n))) h =
    ap (λ k. Json.number (int (pos k))) (omega (arith, ==→eq n 1 h))
is_version-eq (Json.number (int (negsuc n))) h = absurd (cc)
is_version-eq (Json.number negative_zero) h = absurd (cc)
is_version-eq (Json.number (fraction n)) h = absurd (cc)
is_version-eq (Json.number (infinite b)) h = absurd (cc)
is_version-eq (Json.number nan) h = absurd (cc)
is_version-eq Json.null h = absurd (cc)
is_version-eq (Json.boolean b) h = absurd (cc)
is_version-eq (Json.string t) h = absurd (cc)
is_version-eq (Json.array xs) h = absurd (cc)
is_version-eq (Json.object m) h = absurd (cc)

decode_text-eq :
    (cursor : Text) {json : Text}
    → decode_text cursor ≡ some json
    → cursor ≡ to_base64url (utf8 json)
unfolding decode_text bytes_eq
decode_text-eq cursor = >>=_elim (require (is_base64url cursor)) _ λ _ _.
    >>=_elim (require (text_eq (to_base64url (from_base64url cursor)) cursor)) _ λ _ same.
      >>=_elim (decode_utf8 (from_base64url cursor)) _ λ json _.
        >>=_elim (require (text_eq (utf8 json) (from_base64url cursor))) _ λ _ bytes h.
          let e = text_eq→eq _ _ (require-true _ same) in
          let f = text_eq→eq _ _ (require-true _ bytes) in
          subst (λ j. cursor ≡ to_base64url (utf8 j)) (some-injective _ _ h)
            (sym e ∙ ap to_base64url (sym f))

module _ (digest : Bytes → Text) (stringify_number : Number → Text)
    (read_number : Text → Number) where
  decode_payload-eq :
      (json : Text) {payload : CursorPayload}
      → decode_payload digest stringify_number read_number json ≡ some payload
      → json ≡ payload_json digest stringify_number read_number payload
  unfolding decode_payload
  decode_payload-eq json = >>=_elim (parse_json read_number json) _ λ value _.
      >>=_elim (as_object value) _ λ candidate _.
        >>=_elim (require (has_exact_payload_keys candidate)) _ λ _ _.
          >>=_elim (read_payload candidate) _ λ payload _.
            >>=_elim
              (require (text_eq (payload_json digest stringify_number read_number payload) json)) _
              λ _ same h.
                subst (λ p. json ≡ payload_json digest stringify_number read_number p)
                  (some-injective _ _ h) (sym (text_eq→eq _ _ (require-true _ same)))

  check_payload-eq :
      (payload : CursorPayload) (filters : LogFilters) {p : LogCursorPosition}
      → check_payload digest stringify_number read_number payload filters ≡ some p
      → payload ≡ payload_of p (filter_fingerprint digest stringify_number read_number filters)
  unfolding check_payload
  check_payload-eq payload filters {p} = >>=_elim (require (is_version payload.version)) _ λ _ v.
      >>=_elim (as_string payload.timestamp) _ λ t et. >>=_elim (as_string payload.id) _ λ i ei.
        >>=_elim (as_string payload.filter_fingerprint) _ λ g eg.
          >>=_elim (require (is_uuid_v4 i)) _ λ _ _. >>=_elim (require (is_sha_256_hex g)) _ λ _ _.
            >>=_elim (require (is_canonical t)) _ λ _ _.
              >>=_elim
                (require
                  (text_eq g (filter_fingerprint digest stringify_number read_number filters)))
                _
                λ _ same h.
                  let ev = is_version-eq payload.version (require-true _ v) in
                  let et' = as_string-eq payload.timestamp et in
                  let ei' = as_string-eq payload.id ei in
                  let eg' = as_string-eq payload.filter_fingerprint eg in
                  let e =
                    text_eq→eq g (filter_fingerprint digest stringify_number read_number filters)
                      (require-true _ same) in
                  subst
                    (λ q.
                      payload
                      ≡ payload_of q
                          (filter_fingerprint digest stringify_number read_number filters))
                    (some-injective _ _ h) (cc (ev, et', ei', eg', e))

  -- A cursor that is accepted with some filters is the text that encodes its position with these filters: no other text stands for the position, and a cursor made for filters with another fingerprint is refused.
  pub decode_log_cursor-eq :
      (cursor : Text) (filters : LogFilters) (p : LogCursorPosition)
      → decode_log_cursor digest stringify_number read_number cursor filters ≡ some p
      → cursor ≡ encode_log_cursor digest stringify_number read_number p filters
  unfolding decode_log_cursor encode_log_cursor
  decode_log_cursor-eq cursor filters p = >>=_elim (decode_text cursor) _ λ json ej.
      >>=_elim (decode_payload digest stringify_number read_number json) _ λ payload ep h.
        decode_text-eq cursor ej
        ∙ ap (λ j. to_base64url (utf8 j))
            (decode_payload-eq json ep
              ∙ ap (payload_json digest stringify_number read_number)
                  (check_payload-eq payload filters h))

  pub decode_log_cursor-nonempty :
      (cursor : Text) (filters : LogFilters) (p : LogCursorPosition)
      → decode_log_cursor digest stringify_number read_number cursor filters ≡ some p
      → is_empty cursor ≡ false
  unfolding decode_log_cursor decode_text is_base64url
  decode_log_cursor-nonempty [] filters p h = absurd (cc)
  decode_log_cursor-nonempty (c ∷ cursor) filters p h = refl
