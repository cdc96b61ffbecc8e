-- ===== src/Domain/Json/Plain.antt =====
-- Texts that JSON writes as they stand: how `stringify` writes them and `parse_json` reads them.
use log_stream.Base.{
  ℕ, zero, suc, ◌<◌, ◌≤◌, ◌≡◌, ◌≢◌, refl, ap, Bool, true, false, not, ◌&&◌, [], ◌∷◌, ◌++◌, some,
  ltb, leb, ◌==◌, All, arith, length, length-append,
}
use log_stream.Base.Bytes.Ascii.{IsAscii}
use log_stream.Base.Text.{Text}
use log_stream.Domain.Json.Stringify.{is_lead, is_trail, quote_unit, quote_units, quote}
use log_stream.Domain.Json.Parse.{parse_string}

-- A unit that JSON writes as it stands, and ASCII.
abbrev pub IsPlain : ℕ → Type 0
IsPlain c = (32 ≤ c) × (c < 128) × (c ≢ 34) × (c ≢ 92)

quote_unit-IsPlain : (c : ℕ) → IsPlain c → quote_unit c ≡ c ∷ []
unfolding quote_unit
quote_unit-IsPlain c (x, y, z, w) = ground arith

quote_units-All : (t : Text) → All IsPlain t → quote_units false t ≡ t
unfolding quote_units
quote_units-All [] h = refl
quote_units-All (c ∷ t) ((x, y, z, w), k) =
    let lead : is_lead c ≡ false = ground arith in
    let trail : is_trail c ≡ false = ground arith in
    rw (lead, trail, quote_unit-IsPlain c (x, y, z, w), quote_units-All t k) refl

quote-All : (t : Text) → All IsPlain t → quote t ≡ 34 ∷ (t ++ (34 ∷ []))
unfolding quote
quote-All t h = ap (λ u. 34 ∷ (u ++ (34 ∷ []))) (quote_units-All t h)

parse_string-All :
    (fuel : ℕ) (t rest : Text)
    → All IsPlain t
    → length t < fuel
    → parse_string fuel (t ++ (34 ∷ rest)) ≡ some (t, rest)
unfolding parse_string
parse_string-All zero t rest h k = absurd (omega (arith, k))
parse_string-All (suc fuel) [] rest h k = refl
parse_string-All (suc fuel) (c ∷ t) rest ((x, y, z, w), h) k =
    let later = parse_string-All fuel t rest h (omega (arith, k)) in ground (arith, later)

pub parse_string_whole :
    (t rest : Text)
    → All IsPlain t
    → parse_string (suc (length (t ++ (34 ∷ rest)))) (t ++ (34 ∷ rest)) ≡ some (t, rest)
parse_string_whole t rest h =
    parse_string-All (suc (length (t ++ (34 ∷ rest)))) t rest h
      (omega (arith, length-append {A = ℕ} t (34 ∷ rest)))

append_assoc : (s t u : Text) → (s ++ t) ++ u ≡ s ++ (t ++ u)
append_assoc [] t u = refl
append_assoc (c ∷ s) t u = ap (λ x. c ∷ x) (append_assoc s t u)

-- The quoted text before more text.
pub quote-append : (t later : Text) → All IsPlain t → quote t ++ later ≡ 34 ∷ (t ++ (34 ∷ later))
quote-append t later h = rw (quote-All t h) (ap (λ u. 34 ∷ u) (append_assoc t (34 ∷ []) later))

abbrev is_plain : ℕ → Bool
is_plain c = leb 32 c && ltb c 128 && not (c == 34) && not (c == 92)

abbrev are_plain : Text → Bool
are_plain [] = true
are_plain (c ∷ t) = is_plain c && are_plain t

pub are_plain-All : (t : Text) → are_plain t ≡ true → All IsPlain t
are_plain-All [] h = tt
are_plain-All (c ∷ t) h =
    let (x, y) : (is_plain c ≡ true) × (are_plain t ≡ true) = ground arith in
    ((ground arith, ground arith, λ e. ground arith, λ e. ground arith), are_plain-All t y)

pub plain-IsAscii : (t : Text) → All IsPlain t → IsAscii t
plain-IsAscii [] h = tt
plain-IsAscii (c ∷ t) ((x, y, z, w), h) = (y, plain-IsAscii t h)
