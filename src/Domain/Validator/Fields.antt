-- ===== src/Domain/Validator/Fields.antt =====
-- src/domain/log-entry-validator.ts: what a valid log entry has, and the reads of its members.
use mathlib.Core.Option.{some-injective}
use log_stream.Base.{
  if_intro, ℕ, ◌+◌, ◌≡◌, refl, ap, subst, ◌∙◌, false, [], Option, none, some, arith, if◌then◌else◌,
  is_empty,
}
use log_stream.Base.Text.{Text, text_eq, text_eq→eq, units}
use log_stream.Domain.Json.{Json, Members, get_own}
use log_stream.Domain.Checked.{
  valid, invalid, ◌>>=◌, valid_elim, valid-injective, Reason, timestamp_required, timestamp_string,
  timestamp_grammar, timestamp_components, level_required, level_string, level_value,
}
use log_stream.Domain.LogEntry.{LogLevel, debug, info, warn, error, Attributes, ValidatedLogEntry}
use log_stream.Domain.Timestamp.{
  ParsedTimestamp, ParseResult, ok, grammar, components, parse_canonical_timestamp,
  is_parsed_timestamp_after_epoch_milliseconds,
}
use log_stream.Domain.Validator.{
  contains_unicode_nul, to_log_level, parse_timestamp, read_object, read_string, check_future,
  check_level, read_timestamp, read_level, check_text,
}
use log_stream.Domain.Validator.Kept.{Keeps}

abbrev pub level_name : LogLevel → Text
level_name debug = units "debug"
level_name info = units "info"
level_name warn = units "warn"
level_name error = units "error"

pub record IsText (entry : Members) (key value : Text) : Type 0 where
  pub present : get_own key entry ≡ some (Json.string value)
  pub not_empty : is_empty value ≡ false
  pub no_nul : contains_unicode_nul value ≡ false

-- A timestamp that the parser reads and that is at most five minutes ahead.
pub record IsTime (entry : Members) (now : ℕ) (t : ParsedTimestamp) : Type 0 where
  pub written : Text
  pub present : get_own (units "timestamp") entry ≡ some (Json.string written)
  pub parsed : parse_canonical_timestamp written ≡ ok t
  pub not_future : is_parsed_timestamp_after_epoch_milliseconds t (now + 300000) ≡ false

-- No attributes, or an object of attributes.
pub data HasAttributes : Members → Attributes → Type 0 where
  omitted : {entry : Members} → get_own (units "attributes") entry ≡ none → HasAttributes entry []
  given :
      {entry members : Members} {kept : Attributes}
      → get_own (units "attributes") entry ≡ some (Json.object members)
      → Keeps members kept
      → HasAttributes entry kept

-- An object of the five members that the API documents, and the entry it stands for.
pub record IsEntry (input : Json) (now : ℕ) (e : ValidatedLogEntry) : Type 0 where
  pub members : Members
  pub is_object : input ≡ Json.object members
  pub time : ParsedTimestamp
  pub is_time : IsTime members now time
  pub canonical : e.timestamp ≡ time.canonical
  pub has_level : get_own (units "level") members ≡ some (Json.string (level_name e.level))
  pub has_service : IsText members (units "service") e.service
  pub has_message : IsText members (units "message") e.message
  pub has_attributes : HasAttributes members e.attributes

pub read_object-eq :
    (input : Json) {m : Members} → read_object input ≡ valid m → input ≡ Json.object m
unfolding read_object
read_object-eq (Json.object m) h = ap Json.object (valid-injective h)
read_object-eq Json.null h = absurd (cc)
read_object-eq (Json.boolean b) h = absurd (cc)
read_object-eq (Json.number n) h = absurd (cc)
read_object-eq (Json.string t) h = absurd (cc)
read_object-eq (Json.array xs) h = absurd (cc)

string_result :
    (missing other : Reason) (o : Option Json) {t : Text}
    → elim o [ none ↦ invalid missing | some (Json.string s) ↦ valid s | some _ ↦ invalid other ]
      ≡ valid t
    → o ≡ some (Json.string t)
string_result missing other none h = absurd (cc)
string_result missing other (some (Json.string t)) h =
    ap (λ t. some (Json.string t)) (valid-injective h)
string_result missing other (some (Json.object m)) h = absurd (cc)
string_result missing other (some Json.null) h = absurd (cc)
string_result missing other (some (Json.boolean b)) h = absurd (cc)
string_result missing other (some (Json.number n)) h = absurd (cc)
string_result missing other (some (Json.array xs)) h = absurd (cc)

pub read_string-eq :
    (key : Text) (missing other : Reason) (m : Members) {t : Text}
    → read_string key missing other m ≡ valid t
    → get_own key m ≡ some (Json.string t)
unfolding read_string
read_string-eq key missing other m h = string_result missing other (get_own key m) h

pub read_string-valid :
    (key : Text) (missing other : Reason) (m : Members) {t : Text}
    → get_own key m ≡ some (Json.string t)
    → read_string key missing other m ≡ valid t
unfolding read_string
read_string-valid key missing other m h = rw (h, read_string)

check_text-eq :
    (empty nul : Reason) (t : Text) {s : Text}
    → check_text empty nul t ≡ valid s
    → (t ≡ s) × (is_empty t ≡ false) × (contains_unicode_nul t ≡ false)
unfolding check_text
check_text-eq empty nul t h = ground arith

check_text-valid :
    (empty nul : Reason) (t : Text)
    → is_empty t ≡ false
    → contains_unicode_nul t ≡ false
    → check_text empty nul t ≡ valid t
unfolding check_text
check_text-valid empty nul t h k = rw (h, k)

time_result :
    (r : ParseResult) {t : ParsedTimestamp}
    → elim r [
      | ok timestamp ↦ valid timestamp
      | grammar ↦ invalid timestamp_grammar
      | components ↦ invalid timestamp_components
    ]
      ≡ valid t
    → r ≡ ok t
time_result (ok t) h = ap ok (valid-injective h)
time_result grammar h = absurd (cc)
time_result components h = absurd (cc)

parse_timestamp-eq :
    (s : Text) {t : ParsedTimestamp}
    → parse_timestamp s ≡ valid t
    → parse_canonical_timestamp s ≡ ok t
unfolding parse_timestamp
parse_timestamp-eq s h = time_result (parse_canonical_timestamp s) h

check_future-eq :
    (now : ℕ) (s : ParsedTimestamp) {t : ParsedTimestamp}
    → check_future now s ≡ valid t
    → (s ≡ t) × (is_parsed_timestamp_after_epoch_milliseconds s (now + 300000) ≡ false)
unfolding check_future
check_future-eq now s h = ground arith

pub read_timestamp-eq :
    (now : ℕ) (m : Members) {t : ParsedTimestamp} → read_timestamp now m ≡ valid t → IsTime m now t
unfolding read_timestamp
read_timestamp-eq now m = valid_elim (read_string (units "timestamp") _ _ m) _ λ s e.
    valid_elim (parse_timestamp s) _ λ p f h.
      let (same, k) = check_future-eq now p h in
      subst (IsTime m now) same (record {
        written = s;
        present = read_string-eq (units "timestamp") _ _ m e;
        parsed = parse_timestamp-eq s f;
        not_future = k;
      })

pub read_timestamp-valid :
    (now : ℕ) (m : Members) {t : ParsedTimestamp} → IsTime m now t → read_timestamp now m ≡ valid t
unfolding read_timestamp check_future parse_timestamp
read_timestamp-valid now m i =
    rw (read_string-valid (units "timestamp") timestamp_required timestamp_string m i.present)
      (rw (i.parsed, parse_timestamp) (rw (i.not_future)))

level_result :
    (o : Option LogLevel) {l : LogLevel}
    → elim o [ none ↦ invalid level_value | some level ↦ valid level ] ≡ valid l
    → o ≡ some l
level_result none h = absurd (cc)
level_result (some l) h = ap some (valid-injective h)

level_test :
    (t : Text) (x l : LogLevel) {rest : Option LogLevel}
    → (rest ≡ some l → t ≡ level_name l)
    → (if text_eq t (level_name x) then some x else rest) ≡ some l
    → t ≡ level_name l
level_test t x l {rest} other =
    if_intro (λ o. o ≡ some l → t ≡ level_name l) (text_eq t (level_name x))
      (λ e h. text_eq→eq t (level_name x) e ∙ ap level_name (some-injective _ _ h)) (λ _ h. other h)

pub to_log_level-eq : (t : Text) (l : LogLevel) → to_log_level t ≡ some l → t ≡ level_name l
unfolding to_log_level
to_log_level-eq t l =
    level_test t debug l
      (level_test t info l (level_test t warn l (level_test t error l λ h. absurd (cc h))))

pub to_log_level-name : (l : LogLevel) → to_log_level (level_name l) ≡ some l
unfolding to_log_level
to_log_level-name debug = refl
to_log_level-name info = refl
to_log_level-name warn = refl
to_log_level-name error = refl

pub read_level-eq :
    (m : Members) {l : LogLevel}
    → read_level m ≡ valid l
    → get_own (units "level") m ≡ some (Json.string (level_name l))
unfolding read_level check_level
read_level-eq m {l} = valid_elim (read_string (units "level") _ _ m) _ λ s e h.
    read_string-eq (units "level") _ _ m e
    ∙ ap (λ t. some (Json.string t)) (to_log_level-eq s l (level_result (to_log_level s) h))

pub read_level-valid :
    (m : Members) (l : LogLevel)
    → get_own (units "level") m ≡ some (Json.string (level_name l))
    → read_level m ≡ valid l
unfolding read_level check_level
read_level-valid m l h =
    rw (read_string-valid (units "level") level_required level_string m h)
      (rw (to_log_level-name l, check_level))

-- What `service` and `message` share.
pub text_of :
    (m : Members) (key : Text) (missing other empty nul : Reason) {t : Text}
    → (read_string key missing other m >>= check_text empty nul) ≡ valid t
    → IsText m key t
text_of m key missing other empty nul =
    valid_elim (read_string key missing other m) (check_text empty nul) λ s e h.
      let (same, k, n) = check_text-eq empty nul s h in
      subst (IsText m key) same
        (record { present = read_string-eq key missing other m e; not_empty = k; no_nul = n })

pub text_of-valid :
    (m : Members) (key : Text) (missing other empty nul : Reason) {t : Text}
    → IsText m key t
    → (read_string key missing other m >>= check_text empty nul) ≡ valid t
text_of-valid m key missing other empty nul {t} i =
    rw (read_string-valid key missing other m i.present)
      (check_text-valid empty nul t i.not_empty i.no_nul)
