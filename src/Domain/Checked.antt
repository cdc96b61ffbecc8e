-- ===== src/Domain/Checked.antt =====
-- The two outcomes of a check: src/domain/ingestion.ts and src/domain/log-entry-validator.ts.
use log_stream.Base.{◌≡◌, refl}

-- The constant REASONS of the validator.
pub data Reason : Type 0 where
  entry_object : Reason
  timestamp_required timestamp_string timestamp_grammar timestamp_components timestamp_future :
      Reason
  level_required level_string level_value : Reason
  service_required service_string service_empty service_nul : Reason
  message_required message_string message_empty message_nul : Reason
  attributes_object attribute_key_nul attribute_value attribute_string_nul : Reason

pub data Checked {ℓ} (A : Type ℓ) : Type ℓ where
  valid : A → Checked A
  invalid : Reason → Checked A

infixl 5 ◌>>=◌
abbrev pub ◌>>=◌ {ℓ κ} : {A : Type ℓ} {B : Type κ} → Checked A → (A → Checked B) → Checked B
valid a >>= f = f a
invalid r >>= f = invalid r

-- A chain of checks that ends valid passed its first check.
pub valid_elim {ℓ κ ι} :
    {A : Type ℓ} {B : Type κ} {P : Type ι} (first : Checked A) (next : A → Checked B) {b : B}
    → ((a : A) → first ≡ valid a → next a ≡ valid b → P)
    → (first >>= next) ≡ valid b
    → P
valid_elim (valid a) next use_it h = use_it a refl h
valid_elim (invalid r) next use_it h = absurd (cc)

pub valid-injective {ℓ} : {A : Type ℓ} {a b : A} → valid a ≡ valid b → a ≡ b
valid-injective h = cc
