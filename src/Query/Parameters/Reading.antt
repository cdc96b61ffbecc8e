-- ===== src/Query/Parameters/Reading.antt =====
-- src/modules/query/query-parameter-parser.ts: the reading of one parameter.
use log_stream.Base.{
  ◌≡◌, ◌≢◌, refl, sym, ap, subst, ◌∙◌, false, [], ◌∷◌, Option, none, some, All, arith, if_intro,
}
use log_stream.Base.Text.{Text, units}
use log_stream.Domain.Json.{Json, Members, get_own}
use log_stream.Domain.LogEntry.{LogLevel}
use log_stream.Domain.Timestamp.{
  ParsedTimestamp, ParseResult, ok, grammar, components, parse_canonical_timestamp,
}
use log_stream.Domain.Validator.{contains_unicode_nul, to_log_level}
use log_stream.Domain.Validator.Fields.{to_log_level-eq, to_log_level-name}
use log_stream.Query.Result.{
  QueryError, level_duplicate, level_string, parsed, parsed_elim, parsed-injective,
}
use log_stream.Query.Parameters.{
  scalar_of, read_scalar, refuse_nul, known_level, parse_level, time_of, to_timestamp,
  parse_optional_timestamp, is_reversed, check_range,
}
use log_stream.Query.Parameters.Described.{
  text_member, HasNoNul, IsRead, level_text, IsTime, IsReadTime,
}

pub scalar_of-eq :
    (twice other : QueryError) (o : Option Json) {t : Option Text}
    → scalar_of twice other o ≡ parsed t
    → o ≡ text_member t
scalar_of-eq twice other none h = ap text_member (parsed-injective h)
scalar_of-eq twice other (some (Json.string t)) h = ap text_member (parsed-injective h)
scalar_of-eq twice other (some Json.null) h = absurd (cc)
scalar_of-eq twice other (some (Json.boolean b)) h = absurd (cc)
scalar_of-eq twice other (some (Json.number n)) h = absurd (cc)
scalar_of-eq twice other (some (Json.array xs)) h = absurd (cc)
scalar_of-eq twice other (some (Json.object m)) h = absurd (cc)

scalar_of-text :
    (twice other : QueryError) (t : Option Text) → scalar_of twice other (text_member t) ≡ parsed t
scalar_of-text twice other none = refl
scalar_of-text twice other (some t) = refl

pub no_nul : (t : Text) → contains_unicode_nul t ≡ false → All (λ c. c ≢ 0) t
unfolding contains_unicode_nul
no_nul [] h = tt
no_nul (c ∷ t) h = (λ e. absurd (ground (arith, h, e)), no_nul t (ground (arith, h)))

pub contains_unicode_nul-of : (t : Text) → All (λ c. c ≢ 0) t → contains_unicode_nul t ≡ false
unfolding contains_unicode_nul
contains_unicode_nul-of [] h = refl
contains_unicode_nul-of (c ∷ t) (p, h) = ground (arith, p, contains_unicode_nul-of t h)

pub refuse_nul-eq :
    (e : QueryError) (o : Option Text) {t : Option Text}
    → refuse_nul e o ≡ parsed t
    → (o ≡ t) × HasNoNul t
unfolding refuse_nul
refuse_nul-eq e none {t} = λ h. let same = parsed-injective h in (same, subst HasNoNul same tt)
refuse_nul-eq e (some x) {t} =
    if_intro (λ r. r ≡ parsed t → (some x ≡ t) × HasNoNul t) (contains_unicode_nul x)
      (λ _ h. absurd (cc))
      (λ k h. let same = parsed-injective h in (same, subst HasNoNul same (no_nul x k)))

pub refuse_nul-HasNoNul :
    (e : QueryError) (o : Option Text) → HasNoNul o → refuse_nul e o ≡ parsed o
unfolding refuse_nul
refuse_nul-HasNoNul e none h = refl
refuse_nul-HasNoNul e (some x) h = rw (contains_unicode_nul-of x h) refl

known_level-eq :
    (o : Option LogLevel) {r : Option LogLevel}
    → known_level o ≡ parsed r
    → (l : LogLevel) × (o ≡ some l) × (r ≡ some l)
known_level-eq none h = absurd (cc)
known_level-eq (some l) h = (l, refl, sym (parsed-injective h))

parse_level-eq :
    (o : Option Text) {l : Option LogLevel} → parse_level o ≡ parsed l → o ≡ level_text l
unfolding parse_level
parse_level-eq none h = ap level_text (parsed-injective h)
parse_level-eq (some t) h =
    let (l, e, e') = known_level-eq (to_log_level t) h in
    ap some (to_log_level-eq t l e) ∙ ap level_text (sym e')

pub parse_level-name : (l : Option LogLevel) → parse_level (level_text l) ≡ parsed l
unfolding parse_level
parse_level-name none = refl
parse_level-name (some l) = ap known_level (to_log_level-name l)

time_of-eq :
    (e : QueryError) (r : ParseResult) {t : Option ParsedTimestamp}
    → time_of e r ≡ parsed t
    → (p : ParsedTimestamp) × (r ≡ ok p) × (t ≡ some p)
time_of-eq e (ok p) h = (p, refl, sym (parsed-injective h))
time_of-eq e grammar h = absurd (cc)
time_of-eq e components h = absurd (cc)

to_timestamp-eq :
    (e : QueryError) (o : Option Text) {t : Option ParsedTimestamp}
    → to_timestamp e o ≡ parsed t
    → IsTime o t
unfolding to_timestamp
to_timestamp-eq e none h = subst (IsTime none) (parsed-injective h) tt
to_timestamp-eq e (some x) h =
    let (p, ep, et) = time_of-eq e (parse_canonical_timestamp x) h in
    subst (IsTime (some x)) (sym et) ep

to_timestamp-IsTime :
    (e : QueryError) (o : Option Text) (t : Option ParsedTimestamp)
    → IsTime o t
    → to_timestamp e o ≡ parsed t
unfolding to_timestamp
to_timestamp-IsTime e none none h = refl
to_timestamp-IsTime e (some x) (some t) h = rw h refl
to_timestamp-IsTime e none (some t) h = absurd (cc)
to_timestamp-IsTime e (some x) none h = absurd (cc)

pub check_range-eq :
    (since until : Option ParsedTimestamp) {u : Unit {0}}
    → check_range since until ≡ parsed u
    → is_reversed since until ≡ false
unfolding check_range
check_range-eq since until {u} =
    if_intro (λ r. r ≡ parsed u → is_reversed since until ≡ false) (is_reversed since until)
      (λ _ h. absurd (cc)) (λ k _. k)

pub level-member :
    (query : Members) {o : Option Text} {l : Option LogLevel}
    → read_scalar (units "level") level_duplicate level_string query ≡ parsed o
    → parse_level o ≡ parsed l
    → get_own (units "level") query ≡ text_member (level_text l)
unfolding read_scalar
level-member query eo el = scalar_of-eq _ _ _ eo ∙ ap text_member (parse_level-eq _ el)

pub refuse_nul-IsRead :
    (query : Members) (key : Text) (twice other nul : QueryError) {o v : Option Text}
    → read_scalar key twice other query ≡ parsed o
    → refuse_nul nul o ≡ parsed v
    → IsRead query key v
unfolding read_scalar
refuse_nul-IsRead query key twice other nul eo ev =
    let (same, clean) = refuse_nul-eq nul _ ev in
    (scalar_of-eq twice other _ eo ∙ ap text_member same, clean)

pub read_scalar-text :
    (query : Members) (key : Text) (twice other : QueryError) (o : Option Text)
    → get_own key query ≡ text_member o
    → read_scalar key twice other query ≡ parsed o
unfolding read_scalar
read_scalar-text query key twice other o h =
    ap (scalar_of twice other) h ∙ scalar_of-text twice other o

pub parse_optional_timestamp-IsReadTime :
    (key : Text) (twice other : QueryError) (query : Members) {t : Option ParsedTimestamp}
    → parse_optional_timestamp key twice other query ≡ parsed t
    → IsReadTime query key t
unfolding parse_optional_timestamp read_scalar
parse_optional_timestamp-IsReadTime key twice other query =
    parsed_elim (scalar_of twice other (get_own key query)) _
      λ o eo h. (o, scalar_of-eq twice other _ eo, to_timestamp-eq other o h)

pub IsReadTime-parse :
    (key : Text) (twice other : QueryError) (query : Members) (t : Option ParsedTimestamp)
    → IsReadTime query key t
    → parse_optional_timestamp key twice other query ≡ parsed t
unfolding parse_optional_timestamp
IsReadTime-parse key twice other query t (o, there, time) =
    rw (read_scalar-text query key twice other o there) (to_timestamp-IsTime other o t time)
