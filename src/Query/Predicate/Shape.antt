-- ===== src/Query/Predicate/Shape.antt =====
-- src/modules/query/log-predicate-builder.ts: what the text of a predicate depends on.
use log_stream.Base.{
  ◌≡◌, refl, ap, Bool, true, false, List, [], ◌∷◌, ◌++◌, Option, none, some, length, length-append,
  arith, is_empty, if◌then◌else◌,
}
use log_stream.Base.Text.{Text, units}
use log_stream.Query.Parameters.{AttributeFilter, LogFilters}
use log_stream.Query.Predicate.{
  SqlValue, Builder, bind, bind_present, bind_attributes, join, bind_filters, build_log_predicate,
}

abbrev pub is_some {ℓ} : {A : Type ℓ} → Option A → Bool
is_some none = false
is_some (some a) = true

-- The same filters are given, with whatever values.
pub record SameShape (f g : LogFilters) : Type 0 where
  pub service : is_some f.service ≡ is_some g.service
  pub level : is_some f.level ≡ is_some g.level
  pub since : is_some f.since ≡ is_some g.since
  pub until : is_some f.until ≡ is_some g.until
  pub attributes : length f.attributes ≡ length g.attributes
  pub q : is_some f.q ≡ is_some g.q

-- Builders with the same clauses, and as many values.
abbrev pub Alike : Builder → Builder → Type 0
Alike b c = (b.clauses ≡ c.clauses) × (length b.values ≡ length c.values)

bind-Alike :
    (before after : Text) (v w : SqlValue) (b c : Builder)
    → Alike b c
    → Alike (bind before after v b) (bind before after w c)
unfolding bind
bind-Alike before after v w b c (same, count) =
    let grown : length (b.values ++ (v ∷ [])) ≡ length (c.values ++ (w ∷ [])) =
      omega (arith, count, length-append b.values (v ∷ []), length-append c.values (w ∷ [])) in
    (cc (same, grown), grown)

pub bind_present-Alike :
    {A : Type 0} (before after : Text) (value : A → SqlValue) (o p : Option A) (b c : Builder)
    → is_some o ≡ is_some p
    → Alike b c
    → Alike (bind_present before after value o b) (bind_present before after value p c)
unfolding bind_present
bind_present-Alike before after value none none b c h k = k
bind_present-Alike before after value (some x) (some y) b c h k =
    bind-Alike before after (value x) (value y) b c k
bind_present-Alike before after value none (some y) b c h k = absurd (cc)
bind_present-Alike before after value (some x) none b c h k = absurd (cc)

bind_attributes-Alike :
    (xs ys : List AttributeFilter) (b c : Builder)
    → length xs ≡ length ys
    → Alike b c
    → Alike (bind_attributes xs b) (bind_attributes ys c)
unfolding bind_attributes
bind_attributes-Alike [] [] b c h k = k
bind_attributes-Alike [] (y ∷ ys) b c h k = absurd (omega (arith, h))
bind_attributes-Alike (x ∷ xs) [] b c h k = absurd (omega (arith, h))
bind_attributes-Alike (x ∷ xs) (y ∷ ys) b c h k =
    bind_attributes-Alike xs ys _ _ (omega (arith, h)) (bind-Alike _ _ _ _ b c k)

bind_filters-Alike : (f g : LogFilters) → SameShape f g → Alike (bind_filters f) (bind_filters g)
unfolding bind_filters
bind_filters-Alike f g s = bind_present-Alike _ _ _ f.q g.q _ _ s.q (
    bind_attributes-Alike f.attributes g.attributes _ _ s.attributes (
      bind_present-Alike _ _ _ f.until g.until _ _ s.until (
        bind_present-Alike _ _ _ f.since g.since _ _ s.since (
          bind_present-Alike _ _ _ f.level g.level _ _ s.level
            (bind_present-Alike _ _ _ f.service g.service _ _ s.service (refl, refl))))))

pub build_log_predicate-SameShape :
    (f g : LogFilters)
    → SameShape f g
    → ((build_log_predicate f).text ≡ (build_log_predicate g).text)
      × (length (build_log_predicate f).values ≡ length (build_log_predicate g).values)
unfolding build_log_predicate
build_log_predicate-SameShape f g s =
    let (same, count) = bind_filters-Alike f g s in
    (ap (λ cs. if is_empty cs then units "TRUE" else join (units " AND ") cs) same, count)
