-- ===== src/Domain/Validator/Kept.antt =====
-- src/domain/log-entry-validator.ts: what `validateAttributes` keeps of an object.
use log_stream.Base.{
  ◌≡◌, refl, sym, ap, subst, ◌∙◌, Bool, true, false, ◌↔◌, List, [], ◌∷◌, ◌++◌, append_assoc,
  append-nil, none, All, arith,
}
use log_stream.Base.Number.{Number, is_finite}
use log_stream.Base.Text.{Text, text_eq}
use log_stream.Domain.Json.{Json, Items, no_items, item, Members, no_members, member, get_own}
use log_stream.Domain.Checked.{valid, valid_elim, valid-injective}
use log_stream.Domain.LogEntry.{AttributeValue, Attributes, set_own}
use log_stream.Domain.Validator.{
  contains_unicode_nul, is_attribute_value, text_nul, validate_member, validate_members,
}

-- What `JSON.parse` gives: no object has a key twice.
unfoldable mutual
  pub IsParsed : Json → Type 0
  IsParsed (Json.object members) = AreParsed members
  IsParsed (Json.array values) = AllParsed values
  IsParsed _ = Unit {0}

  pub AllParsed : Items → Type 0
  AllParsed no_items = Unit {0}
  AllParsed (item value rest) = IsParsed value × AllParsed rest

  pub AreParsed : Members → Type 0
  AreParsed no_members = Unit {0}
  AreParsed (member key value rest) = (get_own key rest ≡ none) × IsParsed value × AreParsed rest

-- A JSON value that an attribute may have, and the attribute's value.
pub data Carries : Json → AttributeValue → Type 0 where
  text :
      {t : Text} → contains_unicode_nul t ≡ false → Carries (Json.string t) (AttributeValue.text t)
  number : {n : Number} → is_finite n ≡ true → Carries (Json.number n) (AttributeValue.number n)
  boolean : {b : Bool} → Carries (Json.boolean b) (AttributeValue.boolean b)

-- The same keys with the same values in the same order, none with U+0000.
pub data Keeps : Members → Attributes → Type 0 where
  nothing : Keeps no_members []
  one_more :
      {key : Text} {value : Json} {v : AttributeValue} {rest : Members} {kept : Attributes}
      → contains_unicode_nul key ≡ false
      → Carries value v
      → Keeps rest kept
      → Keeps (member key value rest) ((key, v) ∷ kept)

text_eq_comm : (s t : Text) → text_eq s t ≡ text_eq t s
text_eq_comm [] [] = refl
text_eq_comm [] (y ∷ t) = refl
text_eq_comm (x ∷ s) [] = refl
text_eq_comm (x ∷ s) (y ∷ t) = ground (arith, text_eq_comm s t)

abbrev pub Lacks : {A : Type 0} → Text → List (Text × A) → Type 0
Lacks {A} key = All (λ (a : Text × A). text_eq a.0 key ≡ false)

abbrev pub AreNew : {A : Type 0} → Members → List (Text × A) → Type 0
AreNew no_members safe = Unit {0}
AreNew (member key value rest) safe = Lacks key safe × AreNew rest safe

pub set_own-new :
    {A : Type 0} (key : Text) (v : A) (safe : List (Text × A))
    → Lacks key safe
    → set_own key v safe ≡ safe ++ ((key, v) ∷ [])
unfolding set_own
set_own-new key v [] n = refl
set_own-new key v (a ∷ safe) (h, n) = rw h (ap (◌∷◌ a) (set_own-new key v safe n))

Lacks-snoc :
    {A : Type 0} (key : Text) (safe : List (Text × A)) (a : Text × A)
    → Lacks key safe
    → text_eq a.0 key ≡ false
    → Lacks key (safe ++ (a ∷ []))
Lacks-snoc key [] a n h = (h, tt)
Lacks-snoc key (b ∷ safe) a (g, n) h = (g, Lacks-snoc key safe a n h)

get_own-none-head :
    (key k : Text) (value : Json) (rest : Members)
    → get_own key (member k value rest) ≡ none
    → (text_eq k key ≡ false) × (get_own key rest ≡ none)
unfolding get_own
get_own-none-head key k value rest h = ground arith

pub AreNew-snoc :
    {A : Type 0} (rest : Members) (safe : List (Text × A)) (key : Text) (v : A)
    → AreNew rest safe
    → get_own key rest ≡ none
    → AreNew rest (safe ++ ((key, v) ∷ []))
AreNew-snoc no_members safe key v n h = tt
AreNew-snoc (member k value rest) safe key v (l, n) h =
    let (e, g) = get_own-none-head key k value rest h in
    (Lacks-snoc k safe (key, v) l (text_eq_comm key k ∙ e), AreNew-snoc rest safe key v n g)

validate_member-eq :
    (key : Text) (value : Json) {v : AttributeValue}
    → validate_member key value ≡ valid v
    → (contains_unicode_nul key ≡ false) × Carries value v
unfolding validate_member is_attribute_value text_nul
validate_member-eq key (Json.string t) {v} h =
    let (k, e, p) : (contains_unicode_nul key ≡ false)
        × (contains_unicode_nul t ≡ false)
        × (AttributeValue.text t ≡ v) =
      ground arith in
    (k, subst (Carries (Json.string t)) p (Carries.text e))
validate_member-eq key (Json.number n) {v} h =
    let (k, e, p) : (contains_unicode_nul key ≡ false)
        × (is_finite n ≡ true)
        × (AttributeValue.number n ≡ v) =
      ground arith in
    (k, subst (Carries (Json.number n)) p (Carries.number e))
validate_member-eq key (Json.boolean b) {v} h =
    let (k, p) : (contains_unicode_nul key ≡ false) × (AttributeValue.boolean b ≡ v) =
      ground arith in
    (k, subst (Carries (Json.boolean b)) p Carries.boolean)
validate_member-eq key Json.null h = ground arith
validate_member-eq key (Json.array xs) h = ground arith
validate_member-eq key (Json.object m) h = ground arith

validate_member-Carries :
    (key : Text) {value : Json} {v : AttributeValue}
    → contains_unicode_nul key ≡ false
    → Carries value v
    → validate_member key value ≡ valid v
unfolding validate_member is_attribute_value text_nul
validate_member-Carries key k (Carries.text h) = rw (k, h)
validate_member-Carries key k (Carries.number h) = rw (k, h)
validate_member-Carries key k Carries.boolean = rw k

pub append_one :
    {A : Type 0} (safe kept : List A) (a : A) → (safe ++ (a ∷ [])) ++ kept ≡ safe ++ (a ∷ kept)
append_one safe kept a = append_assoc safe (a ∷ []) kept

-- The loop keeps each property: nothing is lost, added, reordered or overwritten.
validate_members-Keeps :
    (members : Members) (safe out : Attributes)
    → AreParsed members
    → AreNew members safe
    → validate_members members safe ≡ valid out
    → (kept : Attributes) × Keeps members kept × (out ≡ safe ++ kept)
unfolding validate_members AreParsed
validate_members-Keeps no_members safe out p n h =
    ([], nothing, sym (valid-injective h) ∙ sym (append-nil safe))
validate_members-Keeps (member key value rest) safe out (g, _, p) (l, n) h =
    valid_elim (validate_member key value) (λ v. validate_members rest (set_own key v safe))
      (λ v e f.
        let (k, c) = validate_member-eq key value e in
        let f' = subst (λ s. validate_members rest s ≡ valid out) (set_own-new key v safe l) f in
        let (kept, ks, eq) =
          validate_members-Keeps rest (safe ++ ((key, v) ∷ [])) out p
            (AreNew-snoc rest safe key v n g) f' in
        ((key, v) ∷ kept, one_more k c ks, eq ∙ append_one safe kept (key, v)))
      h

Keeps-validate_members :
    (members : Members) (safe : Attributes) {kept : Attributes}
    → AreParsed members
    → AreNew members safe
    → Keeps members kept
    → validate_members members safe ≡ valid (safe ++ kept)
unfolding validate_members AreParsed
Keeps-validate_members no_members safe p n nothing = ap valid (sym (append-nil safe))
Keeps-validate_members (member _ _ _) safe (g, _, p) (l, n)
      (one_more {key} {value} {v} {rest} {kept} k c ks) =
    rw (validate_member-Carries key k c) (
      rw (set_own-new key v safe l) (
        Keeps-validate_members rest (safe ++ ((key, v) ∷ [])) p (AreNew-snoc rest safe key v n g) ks
        ∙ ap valid (append_one safe kept (key, v))))

pub new_empty : (A : Type 0) (members : Members) → AreNew {A = A} members []
new_empty A no_members = tt
new_empty A (member key value rest) = (tt, new_empty A rest)

-- For members as `JSON.parse` gives them, the loop accepts the attributes exactly when these are the members themselves, each with a key without U+0000 and a string without U+0000, a finite number or a Boolean for its value.
pub validate_members-Keeps_iff :
    (members : Members) (out : Attributes)
    → AreParsed members
    → (validate_members members [] ≡ valid out) ↔ Keeps members out
validate_members-Keeps_iff members out p =
    let forth : validate_members members [] ≡ valid out → Keeps members out = λ h.
      let (kept, ks, e) = validate_members-Keeps members [] out p (new_empty _ members) h in
      subst (Keeps members) (sym e) ks in
    (forth, λ ks. Keeps-validate_members members [] p (new_empty _ members) ks)
