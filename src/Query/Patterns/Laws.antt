-- ===== src/Query/Patterns/Laws.antt =====
-- Which units the patterns admit.
use log_stream.Base.{
  ℕ, zero, suc, ◌+◌, ◌*◌, ◌/◌, ◌%◌, ◌≡◌, refl, Bool, true, List, [], ◌∷◌, ◌++◌, ◌==◌, All, arith,
}
use log_stream.Base.Bytes.{Bytes, base64_digit, to_base64url}
use log_stream.Base.Text.{Text}
use log_stream.Domain.Json.Plain.{IsPlain}
use log_stream.Query.Patterns.{
  is_hex, is_base64, is_variant, hex_digits, unit, fits, is_uuid_v4, is_sha_256_hex, all_base64,
  is_base64url,
}

abbrev ArePlain : List (ℕ → Bool) → Type 0
ArePlain = All (λ class. (c : ℕ) → class c ≡ true → IsPlain c)

fits-All :
    (classes : List (ℕ → Bool)) (t : Text)
    → ArePlain classes
    → fits classes t ≡ true
    → All IsPlain t
unfolding fits
fits-All [] [] p h = tt
fits-All [] (c ∷ t) p h = absurd (cc)
fits-All (class ∷ classes) [] p h = tt
fits-All (class ∷ classes) (c ∷ t) (p, ps) h =
    let (x, y) : (class c ≡ true) × (fits classes t ≡ true) = ground arith in
    (p c x, fits-All classes t ps y)

is_hex-IsPlain : (c : ℕ) → is_hex c ≡ true → IsPlain c
is_hex-IsPlain c h = (ground arith, ground arith, λ e. ground arith, λ e. ground arith)

dash-IsPlain : (c : ℕ) → (c == b'-') ≡ true → IsPlain c
dash-IsPlain c h = (ground arith, ground arith, λ e. ground arith, λ e. ground arith)

four-IsPlain : (c : ℕ) → (c == b'4') ≡ true → IsPlain c
four-IsPlain c h = (ground arith, ground arith, λ e. ground arith, λ e. ground arith)

is_variant-IsPlain : (c : ℕ) → is_variant c ≡ true → IsPlain c
is_variant-IsPlain c h = (ground arith, ground arith, λ e. ground arith, λ e. ground arith)

hex_digits-ArePlain :
    (n : ℕ) (later : List (ℕ → Bool)) → ArePlain later → ArePlain (hex_digits n ++ later)
hex_digits-ArePlain zero later p = p
hex_digits-ArePlain (suc n) later p = (is_hex-IsPlain, hex_digits-ArePlain n later p)

hex_digits_only-ArePlain : (n : ℕ) → ArePlain (hex_digits n)
hex_digits_only-ArePlain zero = tt
hex_digits_only-ArePlain (suc n) = (is_hex-IsPlain, hex_digits_only-ArePlain n)

pub is_sha_256_hex-All : (t : Text) → is_sha_256_hex t ≡ true → All IsPlain t
unfolding is_sha_256_hex
is_sha_256_hex-All t h = fits-All (hex_digits 64) t (hex_digits_only-ArePlain 64) h

abbrev tail_classes : List (ℕ → Bool)
tail_classes = hex_digits 3 ++ (unit b'-' ++ hex_digits 12)

pub is_uuid_v4-All : (t : Text) → is_uuid_v4 t ≡ true → All IsPlain t
unfolding is_uuid_v4
is_uuid_v4-All t h =
    let node : ArePlain tail_classes =
      hex_digits-ArePlain 3 (unit b'-' ++ hex_digits 12)
        (dash-IsPlain, hex_digits_only-ArePlain 12) in
    let group : ArePlain (hex_digits 3 ++ (unit b'-' ++ (is_variant ∷ tail_classes))) =
      hex_digits-ArePlain 3 (unit b'-' ++ (is_variant ∷ tail_classes))
        (dash-IsPlain, (is_variant-IsPlain, node)) in
    let version : ArePlain (
        hex_digits 4
        ++ (unit b'-'
            ++ (unit b'4' ++ (hex_digits 3 ++ (unit b'-' ++ (is_variant ∷ tail_classes)))))) =
      hex_digits-ArePlain 4
        (unit b'-' ++ (unit b'4' ++ (hex_digits 3 ++ (unit b'-' ++ (is_variant ∷ tail_classes)))))
        (dash-IsPlain, (four-IsPlain, group)) in
    fits-All _ t
      (hex_digits-ArePlain 8
        (unit b'-'
          ++ (hex_digits 4
              ++ (unit b'-'
                  ++ (unit b'4' ++ (hex_digits 3 ++ (unit b'-' ++ (is_variant ∷ tail_classes)))))))
        (dash-IsPlain, version))
      h

base64_digit-is_base64 : (n : ℕ) → is_base64 (base64_digit n) ≡ true
unfolding base64_digit
base64_digit-is_base64 n = ground arith

all_base64-to_base64url : (bs : Bytes) → all_base64 (to_base64url bs) ≡ true
unfolding all_base64 to_base64url
all_base64-to_base64url [] = refl
all_base64-to_base64url (a ∷ []) =
    rw (base64_digit-is_base64 (a / 4), base64_digit-is_base64 (a % 4 * 16))
all_base64-to_base64url (a ∷ b ∷ []) = rw (
  base64_digit-is_base64 (a / 4),
  base64_digit-is_base64 (a % 4 * 16 + b / 16),
  base64_digit-is_base64 (b % 16 * 4),
)
all_base64-to_base64url (a ∷ b ∷ c ∷ bs) =
    rw
      (
        base64_digit-is_base64 (a / 4),
        base64_digit-is_base64 (a % 4 * 16 + b / 16),
        base64_digit-is_base64 (b % 16 * 4 + c / 64),
        base64_digit-is_base64 (c % 64),
      )
      (all_base64-to_base64url bs)

pub is_base64url-to : (b : ℕ) (bs : Bytes) → is_base64url (to_base64url (b ∷ bs)) ≡ true
unfolding is_base64url to_base64url
is_base64url-to a [] = all_base64-to_base64url (a ∷ [])
is_base64url-to a (b ∷ []) = all_base64-to_base64url (a ∷ b ∷ [])
is_base64url-to a (b ∷ c ∷ bs) = all_base64-to_base64url (a ∷ b ∷ c ∷ bs)
