-- ===== src/Domain/Timestamp/Plain.antt =====
-- src/domain/timestamp.ts: the units of a text that the pattern of a timestamp matches.
use mathlib.Core.Option.{some-injective}
use mathlib.Core.Logic.{inl, inr}
use log_stream.Base.{
  Bool-cases, ==→eq, ℕ, ◌<◌, ◌≤◌, ◌≡◌, sym, subst, true, [], ◌∷◌, some, ◌==◌, All, is_empty, arith,
}
use log_stream.Base.Maybe.{>>=_elim}
use log_stream.Base.Text.{Text}
use log_stream.Domain.Json.Plain.{IsPlain}
use log_stream.Domain.Timestamp.Scan.{
  is_digit, expect, two_digits, four_digits, two_then, four_then, DateTime, scan_date_time,
  span_digits, scan_fraction, Zone, scan_offset, scan_zone, Match, match_timestamp,
}

abbrev ArePlain : Text → Type 0
ArePlain = All IsPlain

is_digit-IsPlain : (c : ℕ) → is_digit c ≡ true → IsPlain c
is_digit-IsPlain c h = (ground arith, ground arith, λ e. ground arith, λ e. ground arith)

expect-All :
    (c : ℕ) (t : Text) {rest : Text}
    → IsPlain c
    → expect c t ≡ some rest
    → ArePlain rest
    → ArePlain t
unfolding expect
expect-All c [] p h k = tt
expect-All c (x ∷ t) {rest} p h k =
    let e : c ≡ x = ground arith in
    let same : t ≡ rest = ground arith in (subst IsPlain e p, subst ArePlain (sym same) k)

two_digits-All : (t : Text) {x : ℕ × Text} → two_digits t ≡ some x → ArePlain x.1 → ArePlain t
unfolding two_digits
two_digits-All [] h k = tt
two_digits-All (a ∷ []) h k = absurd (cc)
two_digits-All (a ∷ b ∷ t) {x} h k =
    let first : is_digit a ≡ true = ground arith in
    let second : is_digit b ≡ true = ground arith in
    let same : t ≡ x.1 = ground arith in
    (is_digit-IsPlain a first, (is_digit-IsPlain b second, subst ArePlain (sym same) k))

four_digits-All : (t : Text) {x : ℕ × Text} → four_digits t ≡ some x → ArePlain x.1 → ArePlain t
unfolding four_digits
four_digits-All t = >>=_elim (two_digits t) _ λ p e. >>=_elim (two_digits p.1) _ λ q f h k.
    two_digits-All t e
      (two_digits-All p.1 f (subst (λ (y : ℕ × Text). ArePlain y.1) (sym (some-injective _ _ h)) k))

two_then-All :
    (c : ℕ) (t : Text) {x : ℕ × Text}
    → IsPlain c
    → two_then c t ≡ some x
    → ArePlain x.1
    → ArePlain t
unfolding two_then
two_then-All c t p = >>=_elim (two_digits t) _ λ q e. >>=_elim (expect c q.1) _ λ r f h k.
    two_digits-All t e
      (expect-All c q.1 p f (subst (λ (y : ℕ × Text). ArePlain y.1) (sym (some-injective _ _ h)) k))

four_then-All :
    (c : ℕ) (t : Text) {x : ℕ × Text}
    → IsPlain c
    → four_then c t ≡ some x
    → ArePlain x.1
    → ArePlain t
unfolding four_then
four_then-All c t p = >>=_elim (four_digits t) _ λ q e. >>=_elim (expect c q.1) _ λ r f h k.
    four_digits-All t e
      (expect-All c q.1 p f (subst (λ (y : ℕ × Text). ArePlain y.1) (sym (some-injective _ _ h)) k))

mark : (c : ℕ) → 43 ≤ c → c < 91 → IsPlain c
mark c h k =
    (omega (arith, h), omega (arith, k), λ e. omega (arith, h, e), λ e. omega (arith, k, e))

scan_date_time-All :
    (t : Text) {x : DateTime × Text} → scan_date_time t ≡ some x → ArePlain x.1 → ArePlain t
unfolding scan_date_time
scan_date_time-All t = >>=_elim (four_then b'-' t) _ λ y ey. >>=_elim (two_then b'-' y.1) _ λ m em.
    >>=_elim (two_then b'T' m.1) _ λ d ed. >>=_elim (two_then b':' d.1) _ λ h eh.
      >>=_elim (two_then b':' h.1) _ λ i ei. >>=_elim (two_digits i.1) _ λ s es e k.
        let last =
          two_digits-All i.1 es
            (subst (λ (z : DateTime × Text). ArePlain z.1) (sym (some-injective _ _ e)) k) in
        let time =
          two_then-All b':' d.1 (mark b':' (omega arith) (omega arith)) eh
            (two_then-All b':' h.1 (mark b':' (omega arith) (omega arith)) ei last) in
        four_then-All b'-' t (mark b'-' (omega arith) (omega arith)) ey (
          two_then-All b'-' y.1 (mark b'-' (omega arith) (omega arith)) em
            (two_then-All b'T' m.1 (mark b'T' (omega arith) (omega arith)) ed time))

span_digits-All : (t : Text) → ArePlain (span_digits t).1 → ArePlain t
unfolding span_digits
span_digits-All [] k = tt
span_digits-All (c ∷ t) k = elim (Bool-cases (is_digit c)) [
  | inl e ↦
      let same : (span_digits (c ∷ t)).1 ≡ (span_digits t).1 = ground (arith, e) in
      (is_digit-IsPlain c e, span_digits-All t (subst ArePlain same k))
  | inr e ↦ let same : (span_digits (c ∷ t)).1 ≡ c ∷ t = ground (arith, e) in subst ArePlain same k
]

scan_fraction-All :
    (t : Text) {x : Text × Text} → scan_fraction t ≡ some x → ArePlain x.1 → ArePlain t
unfolding scan_fraction
scan_fraction-All [] h k = tt
scan_fraction-All (c ∷ t) {x} h k = elim (Bool-cases (c == b'.')) [
  | inl e ↦
      let same : (span_digits t).1 ≡ x.1 = ground (arith, e) in
      let point : IsPlain c =
        subst IsPlain (sym (==→eq c b'.' e)) (mark b'.' (omega arith) (omega arith)) in
      (point, span_digits-All t (subst ArePlain (sym same) k))
  | inr e ↦ let same : c ∷ t ≡ x.1 = ground (arith, e) in subst ArePlain (sym same) k
]

is_empty-All : (t : Text) → is_empty t ≡ true → ArePlain t
is_empty-All [] h = tt
is_empty-All (c ∷ t) h = absurd (cc)

scan_offset-All : (c : ℕ) (t : Text) {z : Zone} → scan_offset c t ≡ some z → ArePlain t
unfolding scan_offset
scan_offset-All c t = >>=_elim (two_then b':' t) _ λ h e. >>=_elim (two_digits h.1) _ λ m f g.
    let empty : is_empty m.1 ≡ true = ground (arith, g) in
    two_then-All b':' t (mark b':' (omega arith) (omega arith)) e
      (two_digits-All h.1 f (is_empty-All m.1 empty))

scan_zone-All : (t : Text) {z : Zone} → scan_zone t ≡ some z → ArePlain t
unfolding scan_zone
scan_zone-All [] h = tt
scan_zone-All (c ∷ t) {z} h = elim (Bool-cases (c == b'Z')) [
  | inl e ↦
      let empty : is_empty t ≡ true = ground (arith, e) in
      (
        subst IsPlain (sym (==→eq c b'Z' e)) (mark b'Z' (omega arith) (omega arith)),
        is_empty-All t empty,
      )
  | inr e ↦
      let low : 43 ≤ c = ground (arith, e) in
      let high : c < 91 = ground (arith, e) in
      let rest : scan_offset c t ≡ some z = ground (arith, e, h) in
      (mark c low high, scan_offset-All c t rest)
]

pub match_timestamp-All : (t : Text) {m : Match} → match_timestamp t ≡ some m → ArePlain t
unfolding match_timestamp
match_timestamp-All t = >>=_elim (scan_date_time t) _ λ p e. >>=_elim (scan_fraction p.1) _ λ q f.
    >>=_elim (scan_zone q.1) _
      λ z g h. scan_date_time-All t e (scan_fraction-All p.1 f (scan_zone-All q.1 g))
