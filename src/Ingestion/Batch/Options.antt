-- ===== src/Ingestion/Batch/Options.antt =====
-- src/modules/ingestion/batched-ingestion-repository.ts: how the limits are read from the options.
use log_stream.Base.{ℕ, ◌<◌, ◌≡◌, ◌||◌, not, Option, none, some, arith, ltb, if◌then◌else◌}
use log_stream.Base.Maybe.{◌>>=◌, >>=-eq-some}
use log_stream.Base.Int.{pos}
use log_stream.Base.Number.{Number, int, is_safe_integer, is_negative, natural}
use log_stream.Ingestion.Batch.State.{Config}

-- `undefined` is `none`.
pub record Options : Type 0 where
  pub flush_delay_ms : Option Number
  pub max_batch_rows : Option Number
  pub max_queued_rows : Option Number
  pub max_concurrent_writes : Option Number

abbrev or_default : Option Number → ℕ → Number
or_default none fallback = int (pos fallback)
or_default (some x) fallback = x

-- `none` is the thrown error.
read_positive_integer : Option Number → ℕ → Option ℕ
read_positive_integer value fallback =
    let candidate = or_default value fallback in
    if not (is_safe_integer candidate) || ltb (natural candidate) 1
    then none
    else some (natural candidate)

read_delay : Option Number → Option ℕ
read_delay value =
    let candidate = or_default value 2 in
    if not (is_safe_integer candidate) || is_negative candidate
    then none
    else some (natural candidate)

-- The first lines of `createBatchedIngestionRepository`.
unfoldable pub read_config : Options → Option Config
unfolding read_delay read_positive_integer
read_config o = do
  delay ← read_delay o.flush_delay_ms
  batch ← read_positive_integer o.max_batch_rows 4000
  queued ← read_positive_integer o.max_queued_rows 200000
  writes ← read_positive_integer o.max_concurrent_writes 5
  some (record {
    flush_delay_ms = delay;
    max_batch_rows = batch;
    max_queued_rows = queued;
    max_concurrent_writes = writes;
  })

positive_integer_pos :
    (value : Option Number) (fallback : ℕ) (n : ℕ)
    → read_positive_integer value fallback ≡ some n
    → 0 < n
unfolding read_positive_integer
positive_integer_pos value fallback n h = ground arith

-- The limits that the queue works with are positive.
pub read_config_pos :
    (o : Options) (c : Config)
    → read_config o ≡ some c
    → (0 < c.max_batch_rows) × (0 < c.max_queued_rows) × (0 < c.max_concurrent_writes)
unfolding read_config
read_config_pos o c h =
    let (d, hd, h1) = >>=-eq-some (read_delay o.flush_delay_ms) _ h in
    let (b, hb, h2) = >>=-eq-some (read_positive_integer o.max_batch_rows 4000) _ h1 in
    let (q, hq, h3) = >>=-eq-some (read_positive_integer o.max_queued_rows 200000) _ h2 in
    let (w, hw, h4) = >>=-eq-some (read_positive_integer o.max_concurrent_writes 5) _ h3 in
    let pb = positive_integer_pos o.max_batch_rows 4000 b hb in
    let pq = positive_integer_pos o.max_queued_rows 200000 q hq in
    let pw = positive_integer_pos o.max_concurrent_writes 5 w hw in
    (ground (arith, pb), ground (arith, pq), ground (arith, pw))
