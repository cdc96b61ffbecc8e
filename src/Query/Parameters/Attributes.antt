-- ===== src/Query/Parameters/Attributes.antt =====
-- src/modules/query/query-parameter-parser.ts: the parameters of attributes.
use log_stream.Base.{
  ◌≡◌, ◌≢◌, refl, ap, subst, ◌∙◌, Bool, true, false, List, [], ◌∷◌, ◌++◌, Option, none, some, All,
  map, is_empty, drop, length, keep_if, if_intro, arith,
}
use log_stream.Base.Text.{Text, text_eq, text_eq_refl, text_lt}
use log_stream.Domain.Json.{Json, Members, no_members, member, get_own}
use log_stream.Domain.Validator.{contains_unicode_nul}
use log_stream.Query.Sorting.{place, sort}
use log_stream.Query.Result.{
  attribute_duplicate, attribute_string, attribute_value_nul, parsed, parsed_elim, parsed-injective,
}
use log_stream.Query.Parameters.{
  AttributeFilter, scalar_of, read_scalar, refuse_nul, starts_with, attribute_prefix, keys_of,
  attribute_names, check_key, push_attribute, parse_attributes,
}
use log_stream.Query.Parameters.Described.{text_member, HasNoNul, IsAttribute, name_of}
use log_stream.Query.Parameters.Reading.{
  scalar_of-eq, refuse_nul-eq, refuse_nul-HasNoNul, no_nul, contains_unicode_nul-of,
}

check_key-eq :
    (key : Text) {k : Text}
    → check_key key ≡ parsed k
    → (key ≡ k) × (is_empty key ≡ false) × (contains_unicode_nul key ≡ false)
unfolding check_key
check_key-eq key {k} =
    if_intro
      (λ r. r ≡ parsed k → (key ≡ k) × (is_empty key ≡ false) × (contains_unicode_nul key ≡ false))
      (is_empty key) (λ _ h. absurd (cc))
      (λ full.
        if_intro
          (λ r.
            r ≡ parsed k → (key ≡ k) × (is_empty key ≡ false) × (contains_unicode_nul key ≡ false))
          (contains_unicode_nul key) (λ _ h. absurd (cc))
          (λ clean h. (parsed-injective h, full, clean)))

check_key-of :
    (key : Text)
    → is_empty key ≡ false
    → contains_unicode_nul key ≡ false
    → check_key key ≡ parsed key
unfolding check_key
check_key-of key full clean = rw (full, clean) refl

-- A name of an attribute that the query has.
abbrev IsName : Members → Text → Type 0
IsName query name = (attribute_prefix ++ drop 5 name ≡ name) × (get_own name query ≢ none)

abbrev AreFound : Members → List Text → List AttributeFilter → Type 0
AreFound query names found = (map name_of found ≡ names) × All (IsAttribute query) found

push_attribute-AreFound :
    (query : Members) (name : Text) (names : List Text) (v : Option Text)
    (later : List AttributeFilter)
    → IsName query name
    → is_empty (drop 5 name) ≡ false
    → contains_unicode_nul (drop 5 name) ≡ false
    → get_own name query ≡ text_member v
    → HasNoNul v
    → AreFound query names later
    → AreFound query (name ∷ names) (push_attribute (drop 5 name) v later)
push_attribute-AreFound query name names none later (whole, has) full clean there value found =
    absurd (has there)
push_attribute-AreFound query name names (some t) later (whole, has) full clean there value
      (same, all) =
    (
      cc (whole, same),
      ((full, no_nul _ clean, (ap (λ n. get_own n query) whole ∙ there, value)), all),
    )

pub parse_attributes-AreFound :
    (names : List Text) (query : Members) {found : List AttributeFilter}
    → All (IsName query) names
    → parse_attributes names query ≡ parsed found
    → AreFound query names found
unfolding parse_attributes read_scalar
parse_attributes-AreFound [] query h e = subst (AreFound query []) (parsed-injective e) (refl, tt)
parse_attributes-AreFound (name ∷ names) query {found} (named, h) e =
    parsed_elim {P = AreFound query (name ∷ names) found} (check_key (drop 5 name)) _
      (λ key ek.
        parsed_elim (scalar_of attribute_duplicate attribute_string (get_own name query)) _ λ o eo.
          parsed_elim (refuse_nul attribute_value_nul o) _ λ v ev.
            parsed_elim (parse_attributes names query) _ λ later el last.
              let (same, full, clean) = check_key-eq (drop 5 name) ek in
              let (equal, value) = refuse_nul-eq attribute_value_nul o ev in
              let there : get_own name query ≡ text_member v =
                scalar_of-eq _ _ _ eo ∙ ap text_member equal in
              let pushed =
                push_attribute-AreFound query name names v later named full clean there value
                  (parse_attributes-AreFound names query h el) in
              subst (AreFound query (name ∷ names))
                (ap (λ k. push_attribute k v later) same ∙ parsed-injective last) pushed)
      e

pub parse_attributes-of :
    (found : List AttributeFilter) (query : Members)
    → All (IsAttribute query) found
    → parse_attributes (map name_of found) query ≡ parsed found
unfolding parse_attributes read_scalar
parse_attributes-of [] query h = refl
parse_attributes-of (a ∷ found) query ((full, clean, (there, value)), h) =
    rw
      (
        check_key-of a.key full (contains_unicode_nul-of a.key clean),
        there,
        refuse_nul-HasNoNul attribute_value_nul (some a.value) value,
        parse_attributes-of found query h,
      )
      refl

All-place :
    (P : Text → Type 0) (x : Text) (xs : List Text) → P x → All P xs → All P (place text_lt x xs)
unfolding place
All-place P x [] p h = (p, tt)
All-place P x (y ∷ ys) p (q, h) =
    if_intro (All P) (text_lt y x) (λ _. (q, All-place P x ys p h)) (λ _. (p, (q, h)))

All-sort : (P : Text → Type 0) (xs : List Text) → All P xs → All P (sort text_lt xs)
unfolding sort
All-sort P [] h = tt
All-sort P (x ∷ xs) (p, h) = All-place P x (sort text_lt xs) p (All-sort P xs h)

All-keep_if :
    (P Q : Text → Type 0) (test : Text → Bool) (xs : List Text)
    → ((x : Text) → test x ≡ true → P x → Q x)
    → All P xs
    → All Q (keep_if test xs)
All-keep_if P Q test [] f h = tt
All-keep_if P Q test (x ∷ xs) f (p, h) =
    if_intro (All Q) (test x) (λ e. (f x e p, All-keep_if P Q test xs f h))
      (λ _. All-keep_if P Q test xs f h)

All-weaken : (P Q : Text → Type 0) (xs : List Text) → ((x : Text) → P x → Q x) → All P xs → All Q xs
All-weaken P Q [] f h = tt
All-weaken P Q (x ∷ xs) f (p, h) = (f x p, All-weaken P Q xs f h)

starts_with-drop :
    (prefix t : Text) → starts_with prefix t ≡ true → prefix ++ drop (length prefix) t ≡ t
unfolding starts_with
starts_with-drop [] t h = refl
starts_with-drop (p ∷ prefix) [] h = absurd (cc)
starts_with-drop (p ∷ prefix) (x ∷ t) h =
    let same : x ≡ p = ground (arith, h) in
    let rest : starts_with prefix t ≡ true = ground (arith, h) in
    cc (same, starts_with-drop prefix t rest)

get_own-member :
    (key k : Text) (value : Json) (query : Members)
    → get_own key query ≢ none
    → get_own key (member k value query) ≢ none
unfolding get_own
get_own-member key k value query h =
    if_intro (λ o. o ≢ none) (text_eq k key) (λ _ e. absurd (cc)) (λ _. h)

keys_of-have : (query : Members) → All (λ key. get_own key query ≢ none) (keys_of query)
unfolding keys_of get_own
keys_of-have no_members = tt
keys_of-have (member k value query) = (
  rw (text_eq_refl k) λ e. absurd (cc),
  All-weaken (λ key. get_own key query ≢ none) (λ key. get_own key (member k value query) ≢ none)
      (keys_of query) (λ key h. get_own-member key k value query h) (keys_of-have query),
)

pub attribute_names-All : (query : Members) → All (IsName query) (attribute_names query)
unfolding attribute_names
attribute_names-All query = All-sort (IsName query) _ (
    All-keep_if (λ key. get_own key query ≢ none) (IsName query) (starts_with attribute_prefix)
      (keys_of query) (λ x e has. (starts_with-drop attribute_prefix x e, has))
      (keys_of-have query))
