-- ===== src/Domain/Timestamp/FastPath.antt =====
-- src/domain/timestamp.ts: the branch of `parseCanonicalTimestamp` for three fraction digits and Z.
use mathlib.Core.Option.{some-injective}
use log_stream.Base.{
  ℕ, ◌+◌, ◌*◌, ◌/◌, ◌<◌, ◌≡◌, refl, ap, subst, sym, ◌∙◌, true, false, [], ◌∷◌, ◌++◌, some, arith,
  Bool-cases, Option-cases, inl, inr,
}
use log_stream.Base.Maybe.{>>=_elim}
use log_stream.Base.Text.{Text, text_eq, text_eq→eq, text_eq_refl}
use log_stream.Domain.Timestamp.Scan.{
  DateTime, scan_date_time, span_digits, scan_fraction, utc, scan_zone, match_timestamp,
  scan_milliseconds, match_canonical,
}
use log_stream.Domain.Timestamp.Print.{
  pad3, local_time, to_iso_string, strip_zero_ms, print_date_time,
}
use log_stream.Domain.Timestamp.ScanLaws.{IsPrintable, scan_date_time-eq, scan_date_time-print}
use log_stream.Domain.Timestamp.IsoLaws.{
  to_iso_string-local_time, strip_zero_ms-print, to_iso_string_hour,
}
use log_stream.Domain.Timestamp.{
  ParsedTimestamp, ok, components, number_from, format_canonical_fraction, strip_zeros, date_parse,
  parse_fast, is_date_time, is_offset, shift_zone, parse_match, parse_general,
  parse_canonical_timestamp,
}

abbrev tail_of : ℕ → Text
tail_of ms = b'.' ∷ (pad3 ms ++ (b'Z' ∷ []))

-- The fraction of the fast path's pattern is the print of a number of milliseconds.
scan_milliseconds-eq :
    (t : Text) {r : Text}
    → scan_milliseconds t ≡ some r
    → (number_from 0 r < 1000) × (t ≡ tail_of (number_from 0 r)) × (r ≡ pad3 (number_from 0 r))
unfolding scan_milliseconds
scan_milliseconds-eq (p ∷ a ∷ b ∷ c ∷ z ∷ []) h = ground arith
scan_milliseconds-eq [] h = absurd (cc)
scan_milliseconds-eq (p ∷ []) h = absurd (cc)
scan_milliseconds-eq (p ∷ a ∷ []) h = absurd (cc)
scan_milliseconds-eq (p ∷ a ∷ b ∷ []) h = absurd (cc)
scan_milliseconds-eq (p ∷ a ∷ b ∷ c ∷ []) h = absurd (cc)
scan_milliseconds-eq (p ∷ a ∷ b ∷ c ∷ z ∷ y ∷ t) h = absurd (cc)

scan_fraction-tail : (ms : ℕ) → scan_fraction (tail_of ms) ≡ some (pad3 ms, b'Z' ∷ [])
unfolding scan_fraction span_digits
scan_fraction-tail ms = ground arith

scan_zone-utc : scan_zone (b'Z' ∷ []) ≡ some utc
unfolding scan_zone
scan_zone-utc = refl

-- The general pattern reads the same fields.
match_timestamp-print :
    (f : DateTime) (ms : ℕ)
    → IsPrintable f
    → match_timestamp (print_date_time f (tail_of ms))
      ≡ some (record { fields = f; fraction = pad3 ms; zone = utc })
unfolding match_timestamp
match_timestamp-print f ms v =
    rw (scan_date_time-print f (tail_of ms) v) (rw (scan_fraction-tail ms) (rw scan_zone-utc))

format_canonical_fraction-pad3 : (ms : ℕ) → format_canonical_fraction (pad3 ms) ≡ pad3 ms
unfolding format_canonical_fraction strip_zeros
format_canonical_fraction-pad3 ms = refl

abbrev result_of : DateTime → ℕ → ParsedTimestamp
result_of f ms = record {
  canonical = print_date_time f (tail_of ms);
  whole_second_ms = local_time f;
  fraction = pad3 ms;
}

base_of :
    (f : DateTime)
    → f.year < 10000
    → is_date_time f ≡ true
    → strip_zero_ms (to_iso_string (local_time f)) ≡ print_date_time f []
base_of f y d =
    let zero_ms : local_time f ≡ local_time f + 0 = omega arith in
    ap strip_zero_ms (ap to_iso_string zero_ms ∙ to_iso_string-local_time f 0 y d (omega arith))
    ∙ strip_zero_ms-print f

parse_match-valid :
    (f : DateTime) (ms : ℕ)
    → f.year < 10000
    → is_date_time f ≡ true
    → parse_match (record { fields = f; fraction = pad3 ms; zone = utc }) ≡ ok (result_of f ms)
unfolding parse_match shift_zone is_offset
parse_match-valid f ms y d = rw (d, base_of f y d, format_canonical_fraction-pad3 ms)

number_from-pad3 : (ms : ℕ) → ms < 1000 → number_from 0 (pad3 ms) ≡ ms
number_from-pad3 ms k = omega arith

date_parse-valid :
    (f : DateTime) (ms : ℕ) → is_date_time f ≡ true → date_parse f ms ≡ some (local_time f + ms)
unfolding date_parse is_date_time
date_parse-valid f ms d = ground arith

-- The start of a day is a whole number of seconds, and so is each time in it.
whole_second :
    (f : DateTime) (ms : ℕ) → ms < 1000 → (local_time f + ms) / 1000 * 1000 ≡ local_time f
unfolding local_time
whole_second f ms k = omega arith

parse_fast-valid :
    (f : DateTime) (ms : ℕ)
    → f.year < 10000
    → ms < 1000
    → is_date_time f ≡ true
    → parse_fast (print_date_time f (tail_of ms)) f (pad3 ms) ≡ ok (result_of f ms)
unfolding parse_fast
parse_fast-valid f ms y k d =
    rw (number_from-pad3 ms k, parse_fast)
      (rw (date_parse-valid f ms d, parse_fast)
        (rw (to_iso_string-local_time f ms y d k)
          (rw (text_eq_refl (print_date_time f (tail_of ms)), whole_second f ms k))))

parse_match-invalid :
    (f : DateTime) (r : Text)
    → is_date_time f ≡ false
    → parse_match (record { fields = f; fraction = r; zone = utc }) ≡ components
unfolding parse_match
parse_match-invalid f r d = rw d

-- What `Date.parse` accepts is a date and a time of day, or the end of a day.
date_parse-hour :
    (f : DateTime) (ms : ℕ) {t : ℕ} → date_parse f ms ≡ some t → f.hour < 24 → is_date_time f ≡ true
unfolding date_parse is_date_time
date_parse-hour f ms h k = ground arith

parse_fast-invalid :
    (v : Text) (f : DateTime) (r s : Text)
    → IsPrintable f
    → v ≡ print_date_time f s
    → is_date_time f ≡ false
    → parse_fast v f r ≡ components
unfolding parse_fast
parse_fast-invalid v f r s p e d = elim (Option-cases (date_parse f (number_from 0 r))) [
  | inl n ↦ rw (n, parse_fast)
  | inr (t, h) ↦ elim (Bool-cases (text_eq (to_iso_string t) v)) [
    | inr n ↦ rw (h, parse_fast, n)
    | inl y ↦
        let hour = to_iso_string_hour t f s p (text_eq→eq (to_iso_string t) v y ∙ e) in
        absurd (cc (date_parse-hour f (number_from 0 r) h hour))
  ]
]

fast_path_print :
    (f : DateTime) (ms : ℕ)
    → IsPrintable f
    → ms < 1000
    → parse_fast (print_date_time f (tail_of ms)) f (pad3 ms)
      ≡ parse_general (print_date_time f (tail_of ms))
unfolding parse_general
fast_path_print f ms p k =
    rw (match_timestamp-print f ms p, parse_general)
      (elim (Bool-cases (is_date_time f)) [
        | inl d ↦ parse_fast-valid f ms p.year_in k d ∙ sym (parse_match-valid f ms p.year_in d)
        | inr d ↦
            parse_fast-invalid (print_date_time f (tail_of ms)) f (pad3 ms) (tail_of ms) p refl d
            ∙ sym (parse_match-invalid f (pad3 ms) d)
      ])

match_canonical-eq :
    (v : Text) {x : DateTime × Text}
    → match_canonical v ≡ some x
    → parse_fast v x.0 x.1 ≡ parse_general v
unfolding match_canonical
match_canonical-eq v = >>=_elim (scan_date_time v) _ λ x e.
    >>=_elim (scan_milliseconds x.1) _ λ r er h.
      let (p, ev) = scan_date_time-eq v e in
      let (k, et, ef) = scan_milliseconds-eq x.1 er in
      let ms = number_from 0 r in
      subst (λ (x : DateTime × Text). parse_fast v x.0 x.1 ≡ parse_general v) (some-injective _ _ h)
        (subst (λ w. parse_fast w x.0 r ≡ parse_general w) (sym (ev ∙ ap (print_date_time x.0) et))
          (subst
            (λ q.
              parse_fast (print_date_time x.0 (tail_of ms)) x.0 q
              ≡ parse_general (print_date_time x.0 (tail_of ms)))
            (sym ef) (fast_path_print x.0 ms p k)))

-- For every text, `parseCanonicalTimestamp`, which tries the pattern of three fraction digits and Z first and then leaves the checks to `Date`, gives what its general part alone gives: the same value, or the same kind of failure.
pub parse_canonical_timestamp-parse_general :
    (v : Text) → parse_canonical_timestamp v ≡ parse_general v
unfolding parse_canonical_timestamp
parse_canonical_timestamp-parse_general v = elim (Option-cases (match_canonical v)) [
  | inl n ↦ rw (n, parse_canonical_timestamp)
  | inr (x, e) ↦ rw (e, parse_canonical_timestamp) (match_canonical-eq v e)
]
