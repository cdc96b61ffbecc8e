-- ===== src/Aggregation/Count/Decimal.antt =====
-- src/modules/aggregation/log-aggregation-repository.ts: a count as the database writes it.
use log_stream.Base.{
  ℕ, zero, suc, ◌+◌, ◌*◌, ◌/◌, ◌%◌, ◌<◌, ◌≤◌, ◌≡◌, refl, ap, ◌∙◌, true, false, [], ◌∷◌, some, ltb,
  length, arith, Bool-cases, ltb→lt, inl, inr,
}
use log_stream.Base.Number.{max_safe_integer}
use log_stream.Base.Text.{Text}
use log_stream.Domain.Json.{Json}
use log_stream.Domain.Json.Stringify.{decimal, decimal_from}
use log_stream.Domain.Timestamp.{number_from}
use log_stream.Query.Parameters.{all_digits}
use log_stream.Aggregation.Count.{is_positive_integer, read_count, map_count}

decimal_from-short :
    (fuel n : ℕ) (later : Text) → n < 10 → decimal_from (suc fuel) n later ≡ (b'0' + n) ∷ later
unfolding decimal_from
decimal_from-short fuel n later h = ground arith

decimal_from-long :
    (fuel n : ℕ) (later : Text)
    → 10 ≤ n
    → decimal_from (suc fuel) n later ≡ decimal_from fuel (n / 10) ((b'0' + n % 10) ∷ later)
unfolding decimal_from
decimal_from-long fuel n later h = ground arith

number_from-decimal :
    (fuel n : ℕ) (later : Text)
    → n < fuel
    → number_from 0 (decimal_from fuel n later) ≡ number_from n later
number_from-decimal zero n later h = absurd (omega (arith, h))
number_from-decimal (suc fuel) n later h = elim (Bool-cases (ltb n 10)) [
  | inl e ↦
      rw (decimal_from-short fuel n later (ltb→lt n 10 e))
        (ap (λ m. number_from m later) (omega arith))
  | inr e ↦
      let big : 10 ≤ n = ground (arith, e) in
      rw (decimal_from-long fuel n later big) (
        number_from-decimal fuel (n / 10) ((b'0' + n % 10) ∷ later) (omega (arith, h, big))
        ∙ ap (λ m. number_from m later) (omega arith))
]

is_positive_integer-decimal :
    (fuel n : ℕ) (later : Text)
    → 1 ≤ n
    → n < fuel
    → all_digits later ≡ true
    → is_positive_integer (decimal_from fuel n later) ≡ true
unfolding is_positive_integer all_digits
is_positive_integer-decimal zero n later one h k = absurd (omega (arith, h))
is_positive_integer-decimal (suc fuel) n later one h k = elim (Bool-cases (ltb n 10)) [
  | inl e ↦ rw (decimal_from-short fuel n later (ltb→lt n 10 e)) (ground (arith, e, k, one))
  | inr e ↦
      let big : 10 ≤ n = ground (arith, e) in
      let digits : all_digits ((b'0' + n % 10) ∷ later) ≡ true = ground (arith, k) in
      rw (decimal_from-long fuel n later big) (
        is_positive_integer-decimal fuel (n / 10) ((b'0' + n % 10) ∷ later) (omega (arith, big))
          (omega (arith, h, big)) digits)
]

abbrev pow10 : ℕ → ℕ
pow10 zero = 1
pow10 (suc k) = 10 * pow10 k

length-decimal :
    (fuel n k : ℕ) (later : Text)
    → n < fuel
    → n < pow10 (suc k)
    → length (decimal_from fuel n later) ≤ suc k + length later
length-decimal zero n k later h small = absurd (omega (arith, h))
length-decimal (suc fuel) n zero later h small =
    rw (decimal_from-short fuel n later (omega (arith, small))) (omega arith)
length-decimal (suc fuel) n (suc k) later h small = elim (Bool-cases (ltb n 10)) [
  | inl e ↦ rw (decimal_from-short fuel n later (ltb→lt n 10 e)) (omega arith)
  | inr e ↦
      let big : 10 ≤ n = ground (arith, e) in
      let rest =
        length-decimal fuel (n / 10) k ((b'0' + n % 10) ∷ later) (omega (arith, h, big))
          (omega (arith, small)) in
      rw (decimal_from-long fuel n later big) (omega (arith, rest))
]

-- A count that is a positive safe integer, written in decimal, is read back.
pub map_count-decimal :
    (n : ℕ) → 1 ≤ n → n ≤ max_safe_integer → map_count (Json.string (decimal n)) ≡ some n
unfolding map_count read_count decimal all_digits
map_count-decimal n one safe =
    let value : number_from 0 (decimal_from (suc n) n []) ≡ n =
      number_from-decimal (suc n) n [] (omega arith) in
    let positive = is_positive_integer-decimal (suc n) n [] one (omega arith) refl in
    let short = length-decimal (suc n) n 15 [] (omega arith) (omega (arith, safe)) in
    let fits : ltb 16 (length (decimal_from (suc n) n [])) ≡ false = ground (arith, short) in
    let bound : ltb max_safe_integer n ≡ false = ground (arith, safe) in
    rw (fits, positive, value, bound) refl
