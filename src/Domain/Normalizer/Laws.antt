-- ===== src/Domain/Normalizer/Laws.antt =====
-- src/domain/attribute-normalizer.ts: validated attributes.
use log_stream.Base.{
  ◌≡◌, refl, sym, ap, ◌∙◌, true, false, List, [], ◌∷◌, ◌++◌, map, append-nil, some,
}
use log_stream.Base.Number.{Number, int, negative_zero, fraction, infinite, nan, is_finite}
use log_stream.Base.Text.{Text, units}
use log_stream.Domain.Json.{Json, Members, no_members, member}
use log_stream.Domain.LogEntry.{AttributeValue, Attributes}
use log_stream.Domain.Validator.Kept.{
  AreParsed, Carries, Keeps, nothing, one_more, AreNew, AreNew-snoc, set_own-new, append_one,
  new_empty,
}
use log_stream.Domain.Normalizer.{
  normalize_number, normalize_value, normalize_from, normalize_attributes,
}

abbrev pub keys : {A : Type 0} → List (Text × A) → List Text
keys = map (λ a. a.0)

normalize_number-finite :
    (stringify : Number → Text) (n : Number)
    → is_finite n ≡ true
    → (t : Text) × (normalize_number stringify n ≡ some t)
unfolding normalize_number
normalize_number-finite stringify negative_zero h = (units "0", refl)
normalize_number-finite stringify (int z) h = (stringify (int z), refl)
normalize_number-finite stringify (fraction b) h = (stringify (fraction b), refl)
normalize_number-finite stringify (infinite s) h = absurd (cc)
normalize_number-finite stringify nan h = absurd (cc)

normalize_value-Carries :
    (stringify : Number → Text) {value : Json} {v : AttributeValue}
    → Carries value v
    → (t : Text) × (normalize_value stringify v ≡ some t)
unfolding normalize_value
normalize_value-Carries stringify (Carries.text {t} h) = (t, refl)
normalize_value-Carries stringify (Carries.number {n} h) = normalize_number-finite stringify n h
normalize_value-Carries stringify (Carries.boolean {b = true}) = (units "true", refl)
normalize_value-Carries stringify (Carries.boolean {b = false}) = (units "false", refl)

normalize_from-Keeps :
    (stringify : Number → Text) (members : Members) (done : List (Text × Text)) {kept : Attributes}
    → AreParsed members
    → AreNew members done
    → Keeps members kept
    → (out : List (Text × Text)) × (normalize_from stringify kept done ≡ some (done ++ out))
      × (keys out ≡ keys kept)
unfolding normalize_from AreParsed
normalize_from-Keeps stringify no_members done p n nothing =
    ([], ap some (sym (append-nil done)), refl)
normalize_from-Keeps stringify (member _ _ _) done (g, _, p) (l, n)
      (one_more {key} {value} {v} {rest} {kept} k c ks) =
    let (t, e) = normalize_value-Carries stringify c in
    let (out, h, same) =
      normalize_from-Keeps stringify rest (done ++ ((key, t) ∷ [])) p
        (AreNew-snoc rest done key t n g) ks in
    (
      (key, t) ∷ out,
      rw (e, set_own-new key t done l) (h ∙ ap some (append_one done out (key, t))),
      ap (◌∷◌ key) same,
    )

-- Attributes that the validator keeps are normalised without a TypeError, to search attributes with the same keys in the same order.
pub normalize_attributes-Keeps :
    (stringify : Number → Text) (members : Members) (kept : Attributes)
    → AreParsed members
    → Keeps members kept
    → (out : List (Text × Text)) × (normalize_attributes stringify kept ≡ some out)
      × (keys out ≡ keys kept)
unfolding normalize_attributes
normalize_attributes-Keeps stringify members kept p k =
    normalize_from-Keeps stringify members [] p (new_empty _ members) k
