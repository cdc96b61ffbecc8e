-- ===== src/Domain/Timestamp/ScanLaws.antt =====
-- What the scanners accept is what the printers write.
use mathlib.Core.Option.{some-injective}
use log_stream.Base.{
  ℕ, ◌+◌, ◌*◌, ◌/◌, ◌%◌, ◌<◌, ◌≡◌, ap, subst, sym, ◌∙◌, [], ◌∷◌, ◌++◌, some, arith,
}
use log_stream.Base.Maybe.{>>=_elim}
use log_stream.Base.Text.{Text}
use log_stream.Domain.Timestamp.Scan.{
  expect, two_digits, four_digits, two_then, four_then, DateTime, scan_date_time,
}
use log_stream.Domain.Timestamp.Print.{pad2, pad4, print_date_time}

expect-eq : (c : ℕ) (t : Text) {r : Text} → expect c t ≡ some r → t ≡ c ∷ r
unfolding expect
expect-eq c [] h = cc
expect-eq c (x ∷ t) h = ground arith

expect-cons : (c : ℕ) (t : Text) → expect c (c ∷ t) ≡ some t
unfolding expect
expect-cons c t = ground arith

two_digits-eq :
    (t : Text) {x : ℕ × Text} → two_digits t ≡ some x → (x.0 < 100) × (t ≡ pad2 x.0 ++ x.1)
unfolding two_digits
two_digits-eq [] h = absurd (cc)
two_digits-eq (a ∷ []) h = absurd (cc)
two_digits-eq (a ∷ b ∷ t) h = ground arith

two_digits-pad2 : (n : ℕ) (r : Text) → two_digits (pad2 n ++ r) ≡ some (n % 100, r)
unfolding two_digits
two_digits-pad2 n r = ground arith

pad4_join : (a b : ℕ) → a < 100 → b < 100 → pad4 (a * 100 + b) ≡ pad2 a ++ pad2 b
pad4_join a b h k = ground arith

four_digits-eq :
    (t : Text) {x : ℕ × Text} → four_digits t ≡ some x → (x.0 < 10000) × (t ≡ pad4 x.0 ++ x.1)
unfolding four_digits
four_digits-eq t = >>=_elim (two_digits t) _ λ p e. >>=_elim (two_digits p.1) _ λ q f h.
    let (la, ea) = two_digits-eq t e in
    let (lb, eb) = two_digits-eq p.1 f in
    subst (λ (x : ℕ × Text). (x.0 < 10000) × (t ≡ pad4 x.0 ++ x.1)) (some-injective _ _ h)
      (
        omega arith,
        ea ∙ ap (λ r. pad2 p.0 ++ r) eb ∙ sym (ap (λ l. l ++ q.1) (pad4_join p.0 q.0 la lb)),
      )

four_digits-pad4 : (n : ℕ) (r : Text) → n < 10000 → four_digits (pad4 n ++ r) ≡ some (n, r)
unfolding four_digits
four_digits-pad4 n r h =
    rw (two_digits-pad2 (n / 100) (pad2 n ++ r)) (rw (two_digits-pad2 n r) (ground arith))

two_then-eq :
    (c : ℕ) (t : Text) {x : ℕ × Text}
    → two_then c t ≡ some x
    → (x.0 < 100) × (t ≡ pad2 x.0 ++ c ∷ x.1)
unfolding two_then
two_then-eq c t = >>=_elim (two_digits t) _ λ p e. >>=_elim (expect c p.1) _ λ q f h.
    let (l, d) = two_digits-eq t e in
    subst (λ (x : ℕ × Text). (x.0 < 100) × (t ≡ pad2 x.0 ++ c ∷ x.1)) (some-injective _ _ h)
      (l, d ∙ ap (λ r. pad2 p.0 ++ r) (expect-eq c p.1 f))

four_then-eq :
    (c : ℕ) (t : Text) {x : ℕ × Text}
    → four_then c t ≡ some x
    → (x.0 < 10000) × (t ≡ pad4 x.0 ++ c ∷ x.1)
unfolding four_then
four_then-eq c t = >>=_elim (four_digits t) _ λ p e. >>=_elim (expect c p.1) _ λ q f h.
    let (l, d) = four_digits-eq t e in
    subst (λ (x : ℕ × Text). (x.0 < 10000) × (t ≡ pad4 x.0 ++ c ∷ x.1)) (some-injective _ _ h)
      (l, d ∙ ap (λ r. pad4 p.0 ++ r) (expect-eq c p.1 f))

two_then-pad2 : (c n : ℕ) (r : Text) → n < 100 → two_then c (pad2 n ++ c ∷ r) ≡ some (n, r)
unfolding two_then
two_then-pad2 c n r h = rw (two_digits-pad2 n (c ∷ r)) (rw (expect-cons c r) (ground arith))

four_then-pad4 : (c n : ℕ) (r : Text) → n < 10000 → four_then c (pad4 n ++ c ∷ r) ≡ some (n, r)
unfolding four_then
four_then-pad4 c n r h = rw (four_digits-pad4 n (c ∷ r) h) (rw (expect-cons c r))

-- What two or four digits can say.
pub record IsPrintable (f : DateTime) : Type 0 where
  pub year_in : f.year < 10000
  pub month_in : f.month < 100
  pub day_in : f.day < 100
  pub hour_in : f.hour < 100
  pub minute_in : f.minute < 100
  pub second_in : f.second < 100

-- The scanner reads back what is printed, whatever follows.
pub scan_date_time-print :
    (f : DateTime) (r : Text) → IsPrintable f → scan_date_time (print_date_time f r) ≡ some (f, r)
unfolding scan_date_time
scan_date_time-print f r v = rw (four_then-pad4 b'-' f.year _ v.year_in) (
    rw (two_then-pad2 b'-' f.month _ v.month_in) (
      rw (two_then-pad2 b'T' f.day _ v.day_in) (
        rw (two_then-pad2 b':' f.hour _ v.hour_in) (
          rw (two_then-pad2 b':' f.minute _ v.minute_in)
            (rw (two_digits-pad2 f.second r) (ground (arith, v.second_in)))))))

-- What the scanner accepts is the print of its fields, and a rest.
pub scan_date_time-eq :
    (t : Text) {x : DateTime × Text}
    → scan_date_time t ≡ some x
    → IsPrintable x.0 × (t ≡ print_date_time x.0 x.1)
unfolding scan_date_time
scan_date_time-eq t = >>=_elim (four_then b'-' t) _ λ y ey. >>=_elim (two_then b'-' y.1) _ λ mo emo.
    >>=_elim (two_then b'T' mo.1) _ λ d ed. >>=_elim (two_then b':' d.1) _ λ h eh.
      >>=_elim (two_then b':' h.1) _ λ mi emi. >>=_elim (two_digits mi.1) _ λ s es e.
        let (ly, py) = four_then-eq b'-' t ey in
        let (lmo, pmo) = two_then-eq b'-' y.1 emo in
        let (ld, pd) = two_then-eq b'T' mo.1 ed in
        let (lh, ph) = two_then-eq b':' d.1 eh in
        let (lmi, pmi) = two_then-eq b':' h.1 emi in
        let (ls, ps) = two_digits-eq mi.1 es in
        subst (λ (x : DateTime × Text). IsPrintable x.0 × (t ≡ print_date_time x.0 x.1))
          (some-injective _ _ e)
          (
            record {
              year_in = ly;
              month_in = lmo;
              day_in = ld;
              hour_in = lh;
              minute_in = lmi;
              second_in = ls;
            },
            py
                ∙ ap (λ r. pad4 y.0 ++ (b'-' ∷ r))
                    (pmo
                      ∙ ap (λ r. pad2 mo.0 ++ (b'-' ∷ r))
                          (pd
                            ∙ ap (λ r. pad2 d.0 ++ (b'T' ∷ r))
                                (ph
                                  ∙ ap (λ r. pad2 h.0 ++ (b':' ∷ r))
                                      (pmi ∙ ap (λ r. pad2 mi.0 ++ (b':' ∷ r)) ps)))),
          )
