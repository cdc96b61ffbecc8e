-- ===== src/Domain/Timestamp/IsoLaws.antt =====
-- `toISOString` writes the fields that a time was made from.
use log_stream.Base.{
  ℕ, ◌+◌, ◌*◌, ◌/◌, ◌%◌, ◌<◌, ◌≤◌, ◌≡◌, refl, ap, true, false, [], ◌∷◌, ◌++◌, arith, length,
  length-append, Bool-cases, inl, inr,
}
use log_stream.Base.Text.{Text, text_eq, text_eq→eq, units}
use log_stream.Domain.Calendar.{civil_from_day, make_day}
use log_stream.Domain.Calendar.Months.{IsDate, civil_from_day-make_day}
use log_stream.Domain.Timestamp.Scan.{DateTime}
use log_stream.Domain.Timestamp.Print.{
  pad2, pad3, pad4, to_civil, local_time, iso_year, iso_time, to_iso_string, strip_zero_ms,
  print_date_time,
}
use log_stream.Domain.Timestamp.ScanLaws.{IsPrintable}
use log_stream.Domain.Timestamp.{is_date, is_date_time}

pub is_date-IsDate : (f : DateTime) → is_date f ≡ true → IsDate (to_civil f)
unfolding is_date
is_date-IsDate f h = record {
  month_in = (ground arith, ground arith);
  day_in = (ground arith, ground arith);
}

iso_year-pad4 : (y : ℕ) → y < 10000 → iso_year (y + 400) ≡ pad4 y
unfolding iso_year
iso_year-pad4 y h = ground arith

abbrev time_of : DateTime → ℕ → ℕ
time_of f ms = f.hour * 3600000 + f.minute * 60000 + f.second * 1000 + ms

iso_time-eq :
    (f : DateTime) (ms : ℕ)
    → f.hour < 24
    → f.minute < 60
    → f.second < 60
    → ms < 1000
    → iso_time (time_of f ms)
      ≡ pad2 f.hour
        ++ (b':' ∷ (pad2 f.minute ++ (b':' ∷ (pad2 f.second ++ (b'.' ∷ (pad3 ms ++ (b'Z' ∷ [])))))))
iso_time-eq f ms h m s k =
    let t = time_of f ms in
    let eh : t / 3600000 ≡ f.hour = omega arith in
    let em : t / 60000 % 60 ≡ f.minute = omega arith in
    let es : t / 1000 % 60 ≡ f.second = omega arith in
    let ek : t % 1000 ≡ ms = omega arith in rw (eh, em, es, ek)

-- A date and a time of day within the day, and milliseconds.
pub to_iso_string-local_time :
    (f : DateTime) (ms : ℕ)
    → f.year < 10000
    → is_date_time f ≡ true
    → ms < 1000
    → to_iso_string (local_time f + ms) ≡ print_date_time f (b'.' ∷ (pad3 ms ++ (b'Z' ∷ [])))
unfolding to_iso_string local_time is_date_time
to_iso_string-local_time f ms y v k =
    let d = make_day (f.year + 400) f.month f.day in
    let t = time_of f ms in
    let below : t < 86400000 = ground arith in
    let date : is_date f ≡ true = ground arith in
    let ed : (local_time f + ms) / 86400000 ≡ d = omega arith in
    let et : (local_time f + ms) % 86400000 ≡ t = omega arith in
    let c = civil_from_day-make_day (to_civil f) (is_date-IsDate f date) in
    rw (ed, et)
      (rw c (
        rw (iso_year-pad4 f.year y)
          (rw (iso_time-eq f ms (ground arith) (ground arith) (ground arith) k))))

text_eq_longer : (x : ℕ) (s t : Text) → length t ≤ length s → text_eq (x ∷ s) t ≡ false
text_eq_longer x s t h = elim (Bool-cases (text_eq (x ∷ s) t)) [
  | inr e ↦ e
  | inl e ↦ absurd (omega (arith, ap length (text_eq→eq (x ∷ s) t e)))
]

strip_zero_ms-append : (t : Text) → strip_zero_ms (t ++ units ".000Z") ≡ t
unfolding strip_zero_ms
strip_zero_ms-append [] = refl
strip_zero_ms-append (x ∷ t) =
    rw
      (text_eq_longer x (t ++ units ".000Z") (units ".000Z")
        (omega (arith, length-append t (units ".000Z"))))
      (ap (◌∷◌ x) (strip_zero_ms-append t))

pub strip_zero_ms-print :
    (f : DateTime) → strip_zero_ms (print_date_time f (units ".000Z")) ≡ print_date_time f []
strip_zero_ms-print f = strip_zero_ms-append (print_date_time f [])

-- Four digits are the year of a printed time only if its year is written with four.
iso_year_tail : (y n : ℕ) (l r : Text) → iso_year y ++ l ≡ pad4 n ++ r → l ≡ r
unfolding iso_year
iso_year_tail y n l r h = ground arith

hour_of_tail :
    (a b c d x p : ℕ) (l r : Text)
    → p < 24
    → x < 100
    → (b'-' ∷ (pad2 a ++ (b'-' ∷ (pad2 b ++ (b'T' ∷ (pad2 p ++ l))))))
      ≡ (b'-' ∷ (pad2 c ++ (b'-' ∷ (pad2 d ++ (b'T' ∷ (pad2 x ++ r))))))
    → x < 24
hour_of_tail a b c d x p l r h k e = ground arith

-- A printed time has an hour below 24.
pub to_iso_string_hour :
    (t : ℕ) (f : DateTime) (r : Text)
    → IsPrintable f
    → to_iso_string t ≡ print_date_time f r
    → f.hour < 24
unfolding to_iso_string
to_iso_string_hour t f r v e =
    let c = civil_from_day (t / 86400000) in
    hour_of_tail c.month c.day f.month f.day f.hour (t % 86400000 / 3600000) _ _ (omega arith)
      v.hour_in (iso_year_tail c.year f.year _ _ e)
