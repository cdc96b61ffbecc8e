-- ===== src/Domain/Validator/Laws.antt =====
-- src/domain/log-entry-validator.ts: which values are log entries.
use mathlib.Core.Option.{some-injective}
use log_stream.Base.{
  if_intro, ℕ, ◌≡◌, refl, sym, ap, subst, ◌∙◌, ◌↔◌, inl, inr, none, some, Option-cases,
}
use log_stream.Base.Text.{Text, units, text_eq}
use log_stream.Domain.Json.{Json, Members, no_members, member, get_own}
use log_stream.Domain.Checked.{
  valid, valid_elim, valid-injective, service_required, service_string, service_empty, service_nul,
  message_required, message_string, message_empty, message_nul,
}
use log_stream.Domain.LogEntry.{Attributes, ValidatedLogEntry}
use log_stream.Domain.Validator.{
  validate_members, validate_attributes, read_object, read_timestamp, read_level, read_service,
  read_message, attributes_of, validate_log_entry,
}
use log_stream.Domain.Validator.Kept.{IsParsed, AreParsed, Keeps, validate_members-Keeps_iff}
use log_stream.Domain.Validator.Fields.{
  IsText, HasAttributes, omitted, given, IsEntry, read_object-eq, read_timestamp-eq,
  read_timestamp-valid, read_level-eq, read_level-valid, text_of, text_of-valid,
}

-- A member of a parsed object is parsed.
pub get_own-IsParsed :
    (key : Text) (m : Members) {v : Json} → AreParsed m → get_own key m ≡ some v → IsParsed v
unfolding get_own AreParsed
get_own-IsParsed key no_members p h = absurd (cc)
get_own-IsParsed key (member k value rest) {v} (_, pv, pr) g =
    if_intro (λ o. o ≡ some v → IsParsed v) (text_eq k key)
      (λ _ h. subst IsParsed (some-injective _ _ h) pv) (λ _ h. get_own-IsParsed key rest pr h) g

attributes_of-none :
    (m : Members) → get_own (units "attributes") m ≡ none → attributes_of m ≡ Json.object no_members
unfolding attributes_of
attributes_of-none m n = rw (n, attributes_of)

attributes_of-some :
    (m : Members) {v : Json} → get_own (units "attributes") m ≡ some v → attributes_of m ≡ v
unfolding attributes_of
attributes_of-some m e = rw (e, attributes_of)

attributes_result :
    (v : Json) {out : Attributes}
    → IsParsed v
    → validate_attributes v ≡ valid out
    → (members : Members) × (v ≡ Json.object members) × Keeps members out
unfolding validate_attributes IsParsed
attributes_result (Json.object m) p h = (m, refl, (validate_members-Keeps_iff m _ p).0 h)
attributes_result Json.null p h = absurd (cc)
attributes_result (Json.boolean b) p h = absurd (cc)
attributes_result (Json.number n) p h = absurd (cc)
attributes_result (Json.string t) p h = absurd (cc)
attributes_result (Json.array xs) p h = absurd (cc)

attributes-HasAttributes :
    (m : Members) {out : Attributes}
    → AreParsed m
    → validate_attributes (attributes_of m) ≡ valid out
    → HasAttributes m out
unfolding validate_attributes validate_members
attributes-HasAttributes m {out} p h = elim (Option-cases (get_own (units "attributes") m)) [
  | inl n ↦
      let h' = subst (λ v. validate_attributes v ≡ valid out) (attributes_of-none m n) h in
      subst (HasAttributes m) (valid-injective h') (omitted n)
  | inr (v, e) ↦
      let h' = subst (λ v. validate_attributes v ≡ valid out) (attributes_of-some m e) h in
      let (members, ev, k) = attributes_result v (get_own-IsParsed (units "attributes") m p e) h' in
      given (e ∙ ap some ev) k
]

HasAttributes-validate :
    (m : Members) {out : Attributes}
    → AreParsed m
    → HasAttributes m out
    → validate_attributes (attributes_of m) ≡ valid out
unfolding validate_attributes validate_members IsParsed
HasAttributes-validate m p (omitted n) = ap validate_attributes (attributes_of-none m n)
HasAttributes-validate m {out} p (given {members = members} e k) =
    ap validate_attributes (attributes_of-some m e)
    ∙ (validate_members-Keeps_iff members out (get_own-IsParsed (units "attributes") m p e)).1 k

-- A value as `JSON.parse` gives it that the validator accepts is an entry, and the result is the entry it stands for.
validate_log_entry-IsEntry :
    (input : Json) (now : ℕ) (e : ValidatedLogEntry)
    → IsParsed input
    → validate_log_entry input now ≡ valid e
    → IsEntry input now e
unfolding validate_log_entry read_service read_message IsParsed
validate_log_entry-IsEntry input now e p = valid_elim (read_object input) _ λ m em.
    let is_object = read_object-eq input em in
    let pm : AreParsed m = subst IsParsed is_object p in
    valid_elim (read_timestamp now m) _ λ t et. valid_elim (read_level m) _ λ l el.
      valid_elim (read_service m) _ λ s es. valid_elim (read_message m) _ λ g eg.
        valid_elim (validate_attributes (attributes_of m)) _ λ a ea h.
          subst (IsEntry input now) (valid-injective h) (record {
            members = m;
            is_object = is_object;
            time = t;
            is_time = read_timestamp-eq now m et;
            canonical = refl;
            has_level = read_level-eq m el;
            has_service = text_of m (units "service") _ _ _ _ es;
            has_message = text_of m (units "message") _ _ _ _ eg;
            has_attributes = attributes-HasAttributes m pm ea;
          })

service_valid : (m : Members) {t : Text} → IsText m (units "service") t → read_service m ≡ valid t
unfolding read_service
service_valid m i =
    text_of-valid m (units "service") service_required service_string service_empty service_nul i

message_valid : (m : Members) {t : Text} → IsText m (units "message") t → read_message m ≡ valid t
unfolding read_message
message_valid m i =
    text_of-valid m (units "message") message_required message_string message_empty message_nul i

IsEntry-validate_log_entry :
    (input : Json) (now : ℕ) (e : ValidatedLogEntry)
    → IsParsed input
    → IsEntry input now e
    → validate_log_entry input now ≡ valid e
unfolding validate_log_entry read_object IsParsed
IsEntry-validate_log_entry input now e p i =
    let pm : AreParsed i.members = subst IsParsed i.is_object p in
    rw (i.is_object) (
      rw (read_timestamp-valid now i.members i.is_time) (
        rw (read_level-valid i.members e.level i.has_level) (
          rw (service_valid i.members i.has_service) (
            rw (message_valid i.members i.has_message)
              (rw (HasAttributes-validate i.members pm i.has_attributes, sym i.canonical))))))

pub validate_log_entry-IsEntry_iff :
    (input : Json) (now : ℕ) (e : ValidatedLogEntry)
    → IsParsed input
    → (validate_log_entry input now ≡ valid e) ↔ IsEntry input now e
validate_log_entry-IsEntry_iff input now e p =
    (validate_log_entry-IsEntry input now e p, IsEntry-validate_log_entry input now e p)
