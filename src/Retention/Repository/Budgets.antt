-- ===== src/Retention/Repository/Budgets.antt =====
-- src/modules/retention/retention-repository.ts: the budgets of a maintenance run.
use log_stream.Base.{
  ℕ, zero, suc, ◌+◌, ◌*◌, ◌≤◌, ◌≡◌, refl, sym, ap, ◌∙◌, Bool, true, false, ◌⊎◌, inl, inr, List, [],
  ◌∷◌, ◌++◌, Option, ltb, ◌==◌, if◌then◌else◌, length, arith, Bool-cases,
}
use log_stream.Base.Text.{Text, units}
use log_stream.Domain.Json.{Json}
use log_stream.Retention.Repository.{
  RunResult, completed, empty_result, Query, ensure_partition, drop_partition, delete_default,
  Failure, Answer, failed, said, answer_of, read_single_boolean, read_single_count, Flow, continues,
  returns, throws, ensured, drop_called, partition_gone, cleaned, budget_spent, abort,
  ensure_partitions, drop_partitions, delete_rows, and_then, execute_maintenance,
}

pub Answer-cases :
    {A : Type 0} (a : Answer A) → ((e : Failure) × (a ≡ failed e)) ⊎ ((x : A) × (a ≡ said x))
Answer-cases (failed e) = inl (e, refl)
Answer-cases (said x) = inr (x, refl)

-- What holds of the result that a loop goes on with, and of the one it returns.
abbrev pub Leaves : (RunResult → Type 0) → (RunResult → Type 0) → Flow × List Query → Type 0
Leaves P Q (continues r, sent) = P r
Leaves P Q (returns r, sent) = Q r
Leaves P Q (throws e, sent) = Unit {0}

abbrev pub AreCreated : ℕ → ℕ → ℕ → Type 0
AreCreated most calls created = (calls ≤ most) × (created ≤ calls)

abbrev pub AreDropped : ℕ → ℕ → Bool → Type 0
AreDropped calls dropped reached =
    (calls ≤ 32) × (dropped ≤ calls) × (reached ≡ true → dropped ≡ 32)

abbrev pub AreDeleted : ℕ → ℕ → Bool → Type 0
AreDeleted calls rows reached =
    (calls ≤ 10) × (rows ≤ calls * 1000) × (reached ≡ true → rows ≡ 10000)

-- The budgets of a run over a number of partitions.
pub record IsWithin (most : ℕ) (r : RunResult) : Type 0 where
  pub created : AreCreated most r.partition_ensure_calls r.partitions_created
  pub dropped :
      AreDropped r.partition_drop_calls r.partitions_dropped r.partition_drop_budget_reached
  pub deleted :
      AreDeleted r.default_cleanup_calls r.default_rows_deleted r.default_delete_budget_reached

-- No drop and no delete so far.
record IsFresh (n : ℕ) (r : RunResult) : Type 0 where
  created : AreCreated n r.partition_ensure_calls r.partitions_created
  drops :
      (r.partition_drop_calls ≡ 0)
      × (r.partitions_dropped ≡ 0)
      × (r.partition_drop_budget_reached ≡ false)
  deletes :
      (r.default_cleanup_calls ≡ 0)
      × (r.default_rows_deleted ≡ 0)
      × (r.default_delete_budget_reached ≡ false)

-- Each drop so far dropped a partition.
record IsDropping (n left : ℕ) (r : RunResult) : Type 0 where
  created : AreCreated n r.partition_ensure_calls r.partitions_created
  calls : r.partition_drop_calls + left ≡ 32
  dropped : r.partitions_dropped ≡ r.partition_drop_calls
  flag : r.partition_drop_budget_reached ≡ true → left ≡ 0
  deletes :
      (r.default_cleanup_calls ≡ 0)
      × (r.default_rows_deleted ≡ 0)
      × (r.default_delete_budget_reached ≡ false)

-- Each delete so far deleted a whole batch.
record IsDeleting (n left : ℕ) (r : RunResult) : Type 0 where
  created : AreCreated n r.partition_ensure_calls r.partitions_created
  dropped : AreDropped r.partition_drop_calls r.partitions_dropped r.partition_drop_budget_reached
  calls : r.default_cleanup_calls + left ≡ 10
  rows : r.default_rows_deleted ≡ r.default_cleanup_calls * 1000
  flag : r.default_delete_budget_reached ≡ true → left ≡ 0

none_deleted :
    (calls rows : ℕ) (flag : Bool)
    → (calls ≡ 0) × (rows ≡ 0) × (flag ≡ false)
    → AreDeleted calls rows flag
none_deleted calls rows flag (c, r, f) = (omega arith, omega arith, λ h. absurd (cc))

none_dropped :
    (calls rows : ℕ) (flag : Bool)
    → (calls ≡ 0) × (rows ≡ 0) × (flag ≡ false)
    → AreDropped calls rows flag
none_dropped calls rows flag (c, r, f) = (omega arith, omega arith, λ h. absurd (cc))

IsFresh-IsWithin : {n : ℕ} {r : RunResult} → IsFresh n r → IsWithin n r
IsFresh-IsWithin w = record {
  created = w.created;
  dropped = none_dropped _ _ _ w.drops;
  deleted = none_deleted _ _ _ w.deletes;
}

IsDropping-IsWithin : {n left : ℕ} {r : RunResult} → IsDropping n left r → IsWithin n r
IsDropping-IsWithin {n} {left} {r} w =
    let (c, d) : (r.partition_drop_calls + left ≡ 32)
        × (r.partitions_dropped ≡ r.partition_drop_calls) =
      (w.calls, w.dropped) in
    record {
      created = w.created;
      dropped =
          (omega (arith, c), omega (arith, d), λ h. let l = w.flag h in omega (arith, c, d, l));
      deleted = none_deleted _ _ _ w.deletes;
    }

IsDeleting-IsWithin : {n left : ℕ} {r : RunResult} → IsDeleting n left r → IsWithin n r
IsDeleting-IsWithin {n} {left} {r} w =
    let (c, d) : (r.default_cleanup_calls + left ≡ 10)
        × (r.default_rows_deleted ≡ r.default_cleanup_calls * 1000) =
      (w.calls, w.rows) in
    record {
      created = w.created;
      dropped = w.dropped;
      deleted =
          (omega (arith, c), omega (arith, d), λ h. let l = w.flag h in omega (arith, c, d, l));
    }

one_more_created :
    (b : Bool) (calls created : ℕ)
    → created ≤ calls
    → (if b then created + 1 else created) ≤ calls + 1
one_more_created true calls created h = omega arith
one_more_created false calls created h = omega arith

-- After the drops.
record IsDropped (n : ℕ) (r : RunResult) : Type 0 where
  created : AreCreated n r.partition_ensure_calls r.partitions_created
  dropped : AreDropped r.partition_drop_calls r.partitions_dropped r.partition_drop_budget_reached
  deletes :
      (r.default_cleanup_calls ≡ 0)
      × (r.default_rows_deleted ≡ 0)
      × (r.default_delete_budget_reached ≡ false)

IsDropped-all : {n left : ℕ} {r : RunResult} → IsDropping n left r → IsDropped n r
IsDropped-all {n} {left} {r} w =
    let i : IsWithin n r = IsDropping-IsWithin w in
    record { created = w.created; dropped = i.dropped; deletes = w.deletes }

-- A flag that is set in the last round.
flag_step :
    (left : ℕ) (flag : Bool)
    → (flag ≡ true → suc left ≡ 0)
    → (if left == 0 then true else flag) ≡ true
    → left ≡ 0
flag_step zero flag h k = refl
flag_step (suc left) flag h k =
    let set : flag ≡ true = ground arith in let never = h set in absurd (omega (arith, never))

drop_stops : {n left : ℕ} {r : RunResult} → IsDropping n (suc left) r → IsDropped n (drop_called r)
drop_stops {n} {left} {r} w =
    let c : r.partition_drop_calls + suc left ≡ 32 = w.calls in
    let d : r.partitions_dropped ≡ r.partition_drop_calls = w.dropped in
    record {
      created = w.created;
      dropped = (
        omega (arith, c),
        omega (arith, d),
        λ h. let never = w.flag h in absurd (omega (arith, never)),
      );
      deletes = w.deletes;
    }

drop_goes_on :
    {n left : ℕ} {r : RunResult}
    → IsDropping n (suc left) r
    → IsDropping n left (partition_gone left (drop_called r))
drop_goes_on {n} {left} {r} w =
    let c : r.partition_drop_calls + suc left ≡ 32 = w.calls in
    record {
      created = w.created;
      calls = omega (arith, c);
      dropped = ap (λ k. k + 1) w.dropped;
      flag = flag_step left r.partition_drop_budget_reached w.flag;
      deletes = w.deletes;
    }

delete_stops :
    {n left : ℕ} {r : RunResult} (deleted : ℕ)
    → deleted ≤ 1000
    → IsDeleting n (suc left) r
    → IsWithin n (cleaned deleted r)
delete_stops {n} {left} {r} deleted k w =
    let c : r.default_cleanup_calls + suc left ≡ 10 = w.calls in
    let d : r.default_rows_deleted ≡ r.default_cleanup_calls * 1000 = w.rows in
    record {
      created = w.created;
      dropped = w.dropped;
      deleted = (
        omega (arith, c),
        omega (arith, d, k),
        λ h. let never = w.flag h in absurd (omega (arith, never)),
      );
    }

delete_goes_on :
    {n left : ℕ} {r : RunResult} (deleted : ℕ)
    → deleted ≡ 1000
    → IsDeleting n (suc left) r
    → IsDeleting n left (budget_spent left (cleaned deleted r))
delete_goes_on {n} {left} {r} deleted k w =
    let c : r.default_cleanup_calls + suc left ≡ 10 = w.calls in
    let d : r.default_rows_deleted ≡ r.default_cleanup_calls * 1000 = w.rows in
    record {
      created = w.created;
      dropped = w.dropped;
      calls = omega (arith, c);
      rows = omega (arith, d, k);
      flag = flag_step left r.default_delete_budget_reached w.flag;
    }

starts-IsDropping : {n : ℕ} {r : RunResult} → IsFresh n r → IsDropping n 32 r
starts-IsDropping {n} {r} w =
    let (c, d, f) : (r.partition_drop_calls ≡ 0)
        × (r.partitions_dropped ≡ 0)
        × (r.partition_drop_budget_reached ≡ false) =
      w.drops in
    record {
      created = w.created;
      calls = omega (arith, c);
      dropped = d ∙ sym c;
      flag = λ h. absurd (cc);
      deletes = w.deletes;
    }

starts-IsDeleting : {n : ℕ} {r : RunResult} → IsDropped n r → IsDeleting n 10 r
starts-IsDeleting {n} {r} w =
    let (c, d, f) : (r.default_cleanup_calls ≡ 0)
        × (r.default_rows_deleted ≡ 0)
        × (r.default_delete_budget_reached ≡ false) =
      w.deletes in
    record {
      created = w.created;
      dropped = w.dropped;
      calls = omega (arith, c);
      rows = omega (arith, c, d);
      flag = λ h. absurd (cc);
    }

and_then-Leaves :
    (P Q R : RunResult → Type 0) (x : Flow × List Query)
    (next : RunResult → List Query → Flow × List Query)
    → Leaves P R x
    → ((r : RunResult) (sent : List Query) → P r → Leaves Q R (next r sent))
    → Leaves Q R (and_then x next)
and_then-Leaves P Q R (continues r, sent) next h k = k r sent h
and_then-Leaves P Q R (returns r, sent) next h k = h
and_then-Leaves P Q R (throws e, sent) next h k = tt

module _ (database : List Query → Query → Option Json) (signal : List Query → Bool) where
  ensure_partitions-IsFresh :
      (n : ℕ) (starts : List Text) (r : RunResult) (sent : List Query)
      → r.partition_ensure_calls + length starts ≤ n
      → IsFresh n r
      → Leaves (IsFresh n) (IsWithin n) (ensure_partitions database signal starts r sent)
  unfolding ensure_partitions
  ensure_partitions-IsFresh n [] r sent h w = w
  ensure_partitions-IsFresh n (start ∷ starts) r sent h w = elim (Bool-cases (signal sent)) [
    | inl s ↦
        rw (s, ensure_partitions)
          (IsFresh-IsWithin {r = abort r}
            (record { created = w.created; drops = w.drops; deletes = w.deletes }))
    | inr s ↦
        elim (Answer-cases (
          answer_of (read_single_boolean (units "created"))
            (database sent (ensure_partition start)))) [
              | inl (e, f) ↦ rw (s, ensure_partitions, f, ensure_partitions) tt
              | inr (created, f) ↦
                  rw (s, ensure_partitions, f, ensure_partitions)
                    (ensure_partitions-IsFresh n starts (ensured created r)
                      (sent ++ (ensure_partition start ∷ [])) (omega (arith, h))
                      (record {
                        created = (
                          omega (arith, h),
                          one_more_created created r.partition_ensure_calls r.partitions_created
                              w.created.1,
                        );
                        drops = w.drops;
                        deletes = w.deletes;
                      }))
            ]
  ]

  drop_partitions-IsDropping :
      (n : ℕ) (cutoff : Text) (left : ℕ) (r : RunResult) (sent : List Query)
      → IsDropping n left r
      → Leaves (IsDropped n) (IsWithin n) (drop_partitions database signal cutoff left r sent)
  unfolding drop_partitions
  drop_partitions-IsDropping n cutoff zero r sent w = IsDropped-all w
  drop_partitions-IsDropping n cutoff (suc left) r sent w = elim (Bool-cases (signal sent)) [
    | inl s ↦
        rw (s, drop_partitions)
          (IsDropping-IsWithin {left = suc left} {r = abort r} (record {
            created = w.created;
            calls = w.calls;
            dropped = w.dropped;
            flag = w.flag;
            deletes = w.deletes;
          }))
    | inr s ↦
        elim (Answer-cases (
          answer_of (read_single_boolean (units "dropped"))
            (database sent (drop_partition cutoff)))) [
              | inl (e, h) ↦ rw (s, drop_partitions, h, drop_partitions) tt
              | inr (false, h) ↦ rw (s, drop_partitions, h, drop_partitions) (drop_stops w)
              | inr (true, h) ↦
                  rw (s, drop_partitions, h, drop_partitions)
                    (drop_partitions-IsDropping n cutoff left _ _ (drop_goes_on w))
            ]
  ]

  delete_rows-IsDeleting :
      (n : ℕ) (cutoff : Text) (left : ℕ) (r : RunResult) (sent : List Query)
      → IsDeleting n left r
      → Leaves (IsWithin n) (IsWithin n) (delete_rows database signal cutoff left r sent)
  unfolding delete_rows
  delete_rows-IsDeleting n cutoff zero r sent w = IsDeleting-IsWithin w
  delete_rows-IsDeleting n cutoff (suc left) r sent w = elim (Bool-cases (signal sent)) [
    | inl s ↦
        rw (s, delete_rows)
          (IsDeleting-IsWithin {left = suc left} {r = abort r} (record {
            created = w.created;
            dropped = w.dropped;
            calls = w.calls;
            rows = w.rows;
            flag = w.flag;
          }))
    | inr s ↦
        elim (Answer-cases (
          answer_of (read_single_count (units "deleted"))
            (database sent (delete_default cutoff 1000)))) [
              | inl (e, h) ↦ rw (s, delete_rows, h, delete_rows) tt
              | inr (deleted, h) ↦ elim (Bool-cases (ltb 1000 deleted)) [
                | inl b ↦ rw (s, delete_rows, h, delete_rows, b) tt
                | inr b ↦ elim (Bool-cases (ltb deleted 1000)) [
                  | inl l ↦
                      rw (s, delete_rows, h, delete_rows, b, l)
                        (delete_stops deleted (ground arith) w)
                  | inr l ↦
                      rw (s, delete_rows, h, delete_rows, b, l)
                        (delete_rows-IsDeleting n cutoff left _ _
                          (delete_goes_on deleted (ground arith) w))
                ]
              ]
            ]
  ]

  -- A maintenance that returns a result made at most one ensure per partition, 32 drops and 10 deletes of 1000 rows, whether it completed or was aborted; a budget is reported as reached only when 32 partitions were dropped, or 10000 rows deleted.
  pub execute_maintenance-IsWithin :
      (starts : List Text) (cutoff : Text) (sent : List Query)
      → Leaves
          (IsWithin (length starts))
          (IsWithin (length starts))
          (execute_maintenance database signal starts cutoff sent)
  unfolding execute_maintenance
  execute_maintenance-IsWithin starts cutoff sent =
      let n = length starts in
      and_then-Leaves (IsFresh n) (IsWithin n) (IsWithin n) _ _
        (ensure_partitions-IsFresh n starts (empty_result completed) sent (omega arith) (record {
          created = (omega arith, omega arith);
          drops = (refl, refl, refl);
          deletes = (refl, refl, refl);
        }))
        λ r sent w.
          and_then-Leaves (IsDropped n) (IsWithin n) (IsWithin n) _ _
            (drop_partitions-IsDropping n cutoff 32 r sent (starts-IsDropping w))
            λ r sent w. delete_rows-IsDeleting n cutoff 10 r sent (starts-IsDeleting w)
