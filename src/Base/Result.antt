-- ===== src/Base/Result.antt =====
-- Values and errors, and chains of steps that may fail with an error.
use mathlib.Core.Path.{◌≡◌, refl}

pub data Result {ℓ κ} (E : Type ℓ) (A : Type κ) : Type (ℓ ⊔ κ) where
  ok : A → Result E A
  error : E → Result E A

infixl 5 ◌>>=◌
abbrev pub ◌>>=◌ {ℓ κ ι} :
    {E : Type ℓ} {A : Type κ} {B : Type ι} → Result E A → (A → Result E B) → Result E B
ok a >>= f = f a
error e >>= f = error e

-- A chain that succeeds has a first step that does.
pub ok_elim {ℓ κ ι υ} :
    {E : Type ℓ} {A : Type κ} {B : Type ι} {P : Type υ} (first : Result E A) (next : A → Result E B)
    {b : B}
    → ((a : A) → first ≡ ok a → next a ≡ ok b → P)
    → (first >>= next) ≡ ok b
    → P
ok_elim (ok a) next use_it h = use_it a refl h
ok_elim (error e) next use_it h = absurd (cc)

pub ok-injective {ℓ κ} :
    {E : Type ℓ} {A : Type κ} {a b : A} → ◌≡◌ {A = Result E A} (ok a) (ok b) → a ≡ b
ok-injective h = cc
