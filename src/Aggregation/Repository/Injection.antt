-- ===== src/Aggregation/Repository/Injection.antt =====
-- src/modules/aggregation/log-aggregation-repository.ts: what the text of a statement depends on.
use log_stream.Base.{
  ◌≡◌, refl, ap, Bool, false, List, [], ◌∷◌, Option, none, some, length, is_empty, arith,
  Bool-cases, inl, inr,
}
use log_stream.Query.Parameters.{AttributeFilter}
use log_stream.Query.Predicate.Shape.{
  SameShape, is_some, Alike, bind_present-Alike, build_log_predicate-SameShape,
}
use log_stream.Query.Predicate.{join}
use log_stream.Base.Text.{Text, units}
use log_stream.Aggregation.Parameters.{RequiredAggregationFilters, ParsedLogAggregationQuery}
use log_stream.Aggregation.Repository.{
  as_filters, can_use_rollup, aggregation_text, bind_rollup, build_rollup_aggregation_query,
  build_raw_aggregation_query, build_aggregation_query,
}

is_empty-length : (xs ys : List AttributeFilter) → length xs ≡ length ys → is_empty xs ≡ is_empty ys
is_empty-length [] [] h = refl
is_empty-length (x ∷ xs) (y ∷ ys) h = refl
is_empty-length [] (y ∷ ys) h = absurd (omega (arith, h))
is_empty-length (x ∷ xs) [] h = absurd (omega (arith, h))

option_test :
    {A : Type 0} (x y : Bool) (p q : Option A)
    → is_some p ≡ is_some q
    → x ≡ y
    → ◌≡◌ {A = Bool} (elim p [ none ↦ x | some a ↦ false ]) (elim q [ none ↦ y | some a ↦ false ])
option_test x y none none h e = e
option_test x y (some a) (some b) h e = refl
option_test x y none (some b) h e = absurd (cc)
option_test x y (some a) none h e = absurd (cc)

can_use_rollup-SameShape :
    (f g : RequiredAggregationFilters)
    → SameShape (as_filters f) (as_filters g)
    → can_use_rollup f ≡ can_use_rollup g
unfolding can_use_rollup
can_use_rollup-SameShape f g s =
    option_test (is_empty f.attributes) (is_empty g.attributes) f.q g.q s.q
      (is_empty-length _ _ s.attributes)

bind_rollup-Alike :
    (f g : RequiredAggregationFilters)
    → SameShape (as_filters f) (as_filters g)
    → Alike (bind_rollup f) (bind_rollup g)
unfolding bind_rollup
bind_rollup-Alike f g s =
    bind_present-Alike _ _ _ f.level g.level _ _ s.level
      (bind_present-Alike _ _ _ f.service g.service _ _ s.service (refl, refl))

aggregation_text-eq :
    (r s : ParsedLogAggregationQuery) (column count table : Text) {condition other : Text}
    → r.bucket ≡ s.bucket
    → r.group_by ≡ s.group_by
    → condition ≡ other
    → aggregation_text r column count table condition ≡ aggregation_text s column count table other
unfolding aggregation_text
aggregation_text-eq r s column count table bucket group e = rw (bucket, group, e) refl

-- Two aggregations by the same bucket and group that give the same filters and as many attributes are sent as the same SQL text, from the roll-up or from the logs, with as many parameters.
pub build_aggregation_query-SameShape :
    (r s : ParsedLogAggregationQuery)
    → r.bucket ≡ s.bucket
    → r.group_by ≡ s.group_by
    → SameShape (as_filters r.filters) (as_filters s.filters)
    → ((build_aggregation_query r).text ≡ (build_aggregation_query s).text)
      × (length (build_aggregation_query r).values ≡ length (build_aggregation_query s).values)
unfolding build_aggregation_query build_raw_aggregation_query build_rollup_aggregation_query
build_aggregation_query-SameShape r s bucket group shape =
    let rollup = can_use_rollup-SameShape r.filters s.filters shape in
    elim (Bool-cases (can_use_rollup s.filters)) [
      | inl e ↦
          let (clauses, count) = bind_rollup-Alike r.filters s.filters shape in
          rw (rollup, e)
            (aggregation_text-eq r s _ _ _ bucket group (ap (join (units " AND ")) clauses), count)
      | inr e ↦
          let (text, count) =
            build_log_predicate-SameShape (as_filters r.filters) (as_filters s.filters) shape in
          rw (rollup, e) (aggregation_text-eq r s _ _ _ bucket group text, count)
    ]
