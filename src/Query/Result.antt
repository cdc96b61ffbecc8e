-- ===== src/Query/Result.antt =====
-- src/modules/query/query-parameter-parser.ts: `QueryParseResult` and the constant ERRORS.
use log_stream.Base.{◌≡◌, refl}

pub data QueryError : Type 0 where
  query_object : QueryError
  service_duplicate service_string service_nul : QueryError
  level_duplicate level_string level_value : QueryError
  since_duplicate since_timestamp until_duplicate until_timestamp range : QueryError
  attribute_key attribute_duplicate attribute_string attribute_key_nul attribute_value_nul :
      QueryError
  q_duplicate q_string q_nul : QueryError
  limit_duplicate limit_value cursor_duplicate cursor_value : QueryError

pub data QueryParse {ℓ} (A : Type ℓ) : Type ℓ where
  parsed : A → QueryParse A
  failure : QueryError → QueryParse A

infixl 5 ◌>>=◌
abbrev pub ◌>>=◌ {ℓ κ} :
    {A : Type ℓ} {B : Type κ} → QueryParse A → (A → QueryParse B) → QueryParse B
parsed a >>= f = f a
failure e >>= f = failure e

-- A chain of reads that succeeds has a first read that does.
pub parsed_elim {ℓ κ ι} :
    {A : Type ℓ} {B : Type κ} {P : Type ι} (first : QueryParse A) (next : A → QueryParse B) {b : B}
    → ((a : A) → first ≡ parsed a → next a ≡ parsed b → P)
    → (first >>= next) ≡ parsed b
    → P
parsed_elim (parsed a) next use_it h = use_it a refl h
parsed_elim (failure e) next use_it h = absurd (cc)

pub parsed-injective {ℓ} : {A : Type ℓ} {a b : A} → parsed a ≡ parsed b → a ≡ b
parsed-injective h = cc
