-- ===== src/Base/Maybe.antt =====
-- Chains of steps that may fail, over `Option`.
use mathlib.Core.Path.{◌≡◌, refl}
use mathlib.Core.Option.{Option, none, some}

infixl 5 ◌>>=◌
abbrev pub ◌>>=◌ {ℓ κ} : {A : Type ℓ} {B : Type κ} → Option A → (A → Option B) → Option B
none >>= f = none
some a >>= f = f a

-- A chain that succeeds has a first step that does.
pub >>=-eq-some {ℓ κ} :
    {A : Type ℓ} {B : Type κ} (first : Option A) (next : A → Option B) {b : B}
    → (first >>= next) ≡ some b
    → (a : A) × (first ≡ some a) × (next a ≡ some b)
>>=-eq-some none next h = cc
>>=-eq-some (some a) next h = (a, refl, h)

-- The same, handed on: what holds for every first value holds for the chain.
pub >>=_elim {ℓ κ ι} :
    {A : Type ℓ} {B : Type κ} {P : Type ι} (first : Option A) (next : A → Option B) {b : B}
    → ((a : A) → first ≡ some a → next a ≡ some b → P)
    → (first >>= next) ≡ some b
    → P
>>=_elim none next use_it h = absurd (cc)
>>=_elim (some a) next use_it h = use_it a refl h
