-- ===== src/Base/Bytes/Base64.antt =====
-- base64url writes every list of bytes, and reads it back.
use Prim.Native.Nat.{ℕ, ◌+◌, ◌*◌, ◌/◌, ◌%◌, ◌<◌}
use mathlib.Core.Path.{◌≡◌, refl, ap}
use mathlib.Core.List.{[], ◌∷◌}
use native.Mathlib.Omega.{arith}
use log_stream.Base.Lists.{All}
use log_stream.Base.Bytes.{Bytes, base64_digit, base64_value, to_base64url, from_base64url}

base64_value-digit : (n : ℕ) → n < 64 → base64_value (base64_digit n) ≡ n
unfolding base64_value base64_digit
base64_value-digit n h = ground arith

abbrev pub AreBytes : Bytes → Type 0
AreBytes = All (λ b. b < 256)

pair_eq : {a b c d : ℕ} → a ≡ c → b ≡ d → ◌≡◌ {A = Bytes} (a ∷ b ∷ []) (c ∷ d ∷ [])
pair_eq p q = cc (p, q)

triple_eq :
    {a b c d e f : ℕ} {xs ys : Bytes}
    → a ≡ d
    → b ≡ e
    → c ≡ f
    → xs ≡ ys
    → ◌≡◌ {A = Bytes} (a ∷ b ∷ c ∷ xs) (d ∷ e ∷ f ∷ ys)
triple_eq p q r s = cc (p, q, r, s)

pub from_base64url-to : (bs : Bytes) → AreBytes bs → from_base64url (to_base64url bs) ≡ bs
unfolding from_base64url to_base64url
from_base64url-to [] h = refl
from_base64url-to (a ∷ []) (h, _) =
    let p = base64_value-digit (a / 4) (omega (arith, h)) in
    let q = base64_value-digit (a % 4 * 16) (omega (arith, h)) in
    rw (p, q) (ap (λ x. x ∷ []) (omega arith))
from_base64url-to (a ∷ b ∷ []) (h, (k, _)) =
    let p = base64_value-digit (a / 4) (omega (arith, h)) in
    let q = base64_value-digit (a % 4 * 16 + b / 16) (omega (arith, h, k)) in
    let r = base64_value-digit (b % 16 * 4) (omega (arith, k)) in
    rw (p, q, r) (pair_eq (omega (arith, h, k)) (omega (arith, h, k)))
from_base64url-to (a ∷ b ∷ c ∷ bs) (h, (k, (l, m))) =
    let p = base64_value-digit (a / 4) (omega (arith, h)) in
    let q = base64_value-digit (a % 4 * 16 + b / 16) (omega (arith, h, k)) in
    let r = base64_value-digit (b % 16 * 4 + c / 64) (omega (arith, k, l)) in
    let s = base64_value-digit (c % 64) (omega (arith, l)) in
    rw (p, q, r, s)
      (triple_eq (omega (arith, h, k)) (omega (arith, h, k, l)) (omega (arith, k, l))
        (from_base64url-to bs m))
