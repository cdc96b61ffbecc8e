-- ===== src/Query/Parameters/Named.antt =====
-- src/modules/query/query-parameter-parser.ts: the names of attributes in order, the times in order, and
-- the search.
use log_stream.Base.{
  ◌≡◌, inl, inr, refl, ap, ◌∙◌, true, false, ◌&&◌, List, [], ◌∷◌, Option, none, some, is_empty,
  keep_if, length, take, if_intro, if◌then◌else◌, arith, ◌==◌,
}
use log_stream.Base.Text.{Text, text_eq, text_lt, units}
use log_stream.Domain.Json.{Json, Members, no_members, member}
use log_stream.Domain.Timestamp.{ParsedTimestamp, compare_fractions, compare_parsed_timestamps}
use log_stream.Query.Sorting.{place, sort}
use log_stream.Query.Parameters.{
  starts_with, attribute_prefix, keys_of, attribute_names, is_reversed, if_present, canonical_of,
}
use log_stream.Query.Parameters.Described.{
  IsNotLess, IsSorted, canonical_text, names_behind, IsInOrder, IsSearch, IsRead,
}

text_lt_asymmetric : (x y : Text) → text_lt x y ≡ true → text_lt y x ≡ false
text_lt_asymmetric x [] h = absurd (cc)
text_lt_asymmetric [] (b ∷ y) h = refl
text_lt_asymmetric (a ∷ x) (b ∷ y) h = ground (arith, text_lt_asymmetric x y)

-- The insertion keeps the order, behind a text that comes first.
place-behind :
    (first x : Text) (xs : List Text)
    → IsNotLess first x
    → IsSorted (first ∷ xs)
    → IsSorted (first ∷ place text_lt x xs)
unfolding place
place-behind first x [] h s = (h, tt)
place-behind first x (y ∷ ys) h (g, s) =
    if_intro (λ zs. IsSorted (first ∷ zs)) (text_lt y x)
      (λ e. (g, place-behind y x ys (text_lt_asymmetric y x e) s)) (λ e. (h, (e, s)))

place-IsSorted : (x : Text) (xs : List Text) → IsSorted xs → IsSorted (place text_lt x xs)
unfolding place
place-IsSorted x [] s = tt
place-IsSorted x (y ∷ ys) s =
    if_intro IsSorted (text_lt y x) (λ e. place-behind y x ys (text_lt_asymmetric y x e) s)
      (λ e. (e, s))

pub sort-IsSorted : (xs : List Text) → IsSorted (sort text_lt xs)
unfolding sort
sort-IsSorted [] = tt
sort-IsSorted (x ∷ xs) = place-IsSorted x (sort text_lt xs) (sort-IsSorted xs)

starts_with-take :
    (prefix t : Text) → starts_with prefix t ≡ text_eq (take (length prefix) t) prefix
unfolding starts_with
starts_with-take [] t = refl
starts_with-take (p ∷ prefix) [] = refl
starts_with-take (p ∷ prefix) (x ∷ t) = ap (λ b. x == p && b) (starts_with-take prefix t)

keep_if-keys :
    (query : Members) → keep_if (starts_with attribute_prefix) (keys_of query) ≡ names_behind query
unfolding keys_of
keep_if-keys no_members = refl
keep_if-keys (member name value query) =
    ap
      (λ b.
        if b
        then name ∷ keep_if (starts_with attribute_prefix) (keys_of query)
        else keep_if (starts_with attribute_prefix) (keys_of query))
      (starts_with-take attribute_prefix name)
    ∙ ap (λ l. if text_eq (take 5 name) (units "attr.") then name ∷ l else l) (keep_if-keys query)

pub attribute_names-eq :
    (query : Members) → attribute_names query ≡ sort text_lt (names_behind query)
unfolding attribute_names
attribute_names-eq query = ap (sort text_lt) (keep_if-keys query)

pub canonical_of-eq : (t : Option ParsedTimestamp) → canonical_of t ≡ canonical_text t
canonical_of-eq none = refl
canonical_of-eq (some t) = refl

pub is_reversed-IsInOrder :
    (since until : Option ParsedTimestamp) → is_reversed since until ≡ false → IsInOrder since until
unfolding is_reversed compare_parsed_timestamps compare_fractions
is_reversed-IsInOrder none none h = tt
is_reversed-IsInOrder none (some until) h = tt
is_reversed-IsInOrder (some since) none h = tt
is_reversed-IsInOrder (some since) (some until) h = ground (arith, h)

pub IsInOrder-is_reversed :
    (since until : Option ParsedTimestamp) → IsInOrder since until → is_reversed since until ≡ false
unfolding is_reversed compare_parsed_timestamps compare_fractions
IsInOrder-is_reversed none none h = refl
IsInOrder-is_reversed none (some until) h = refl
IsInOrder-is_reversed (some since) none h = refl
IsInOrder-is_reversed (some since) (some until) h = ground (arith, h)

is_empty-eq : (t : Text) → is_empty t ≡ true → t ≡ []
is_empty-eq [] h = refl
is_empty-eq (x ∷ t) h = absurd (cc)

pub IsRead-IsSearch :
    (query : Members) (o : Option Text) → IsRead query (units "q") o → IsSearch query (if_present o)
IsRead-IsSearch query none (h, _) = inl h
IsRead-IsSearch query (some t) (h, clean) =
    if_intro (IsSearch query) (is_empty t)
      (λ e. inr (h ∙ ap (λ x. some (Json.string x)) (is_empty-eq t e))) (λ e. (e, (h, clean)))

-- The text of the parameter behind a search, or behind none.
pub IsSearch-IsRead :
    (query : Members) (q : Option Text)
    → IsSearch query q
    → (o : Option Text) × IsRead query (units "q") o × (q ≡ if_present o)
IsSearch-IsRead query none (inl h) = (none, (h, tt), refl)
IsSearch-IsRead query none (inr h) = (some [], (h, tt), refl)
IsSearch-IsRead query (some t) (full, read) = (some t, read, rw full refl)
