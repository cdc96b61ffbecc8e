-- ===== src/Retention/Repository/Locking.antt =====
-- src/modules/retention/retention-repository.ts: the advisory lock and the client of a run.
use log_stream.Base.{
  ℕ, zero, suc, ◌≡◌, refl, sym, ap, subst, ◌∙◌, Bool, true, false, not, inl, inr, List, [], ◌∷◌,
  ◌++◌, append_assoc, append-nil, Option, ltb, if_intro, All, All-append, Bool-cases,
}
use log_stream.Base.Text.{Text, units}
use log_stream.Domain.Json.{Json}
use log_stream.Retention.Repository.{
  RunResult, completed, empty_result, Query, try_lock, unlock, ensure_partition, drop_partition,
  delete_default, Answer, said, answer_of, read_single_boolean, read_single_count, Flow, continues,
  returns, throws, ensure_partitions, drop_partitions, delete_rows, and_then, execute_maintenance,
  Ended, ended_by, Run, attempt, release_lock, unlock_if_acquired, release_client, run_maintenance,
}
use log_stream.Retention.Repository.Budgets.{Answer-cases}

-- A query that needs the lock.
pub data IsMaintenance : Query → Type 0 where
  ensures : {start : Text} → IsMaintenance (ensure_partition start)
  drops : {cutoff : Text} → IsMaintenance (drop_partition cutoff)
  deletes : {cutoff : Text} {rows : ℕ} → IsMaintenance (delete_default cutoff rows)

-- The queries sent are some before, and then maintenance.
pub record Sends (before after : List Query) : Type 0 where
  pub more : List Query
  pub are_maintenance : All IsMaintenance more
  pub after_eq : after ≡ before ++ more

Sends-none : (sent : List Query) → Sends sent sent
Sends-none sent = record { more = []; are_maintenance = tt; after_eq = sym (append-nil sent) }

Sends-one : (sent : List Query) (q : Query) → IsMaintenance q → Sends sent (sent ++ (q ∷ []))
Sends-one sent q m = record { more = q ∷ []; are_maintenance = (m, tt); after_eq = refl }

Sends-trans : {a b c : List Query} → Sends a b → Sends b c → Sends a c
Sends-trans {a} x y = record {
  more = x.more ++ y.more;
  are_maintenance = All-append IsMaintenance x.more y.more x.are_maintenance y.are_maintenance;
  after_eq = y.after_eq ∙ ap (λ l. l ++ y.more) x.after_eq ∙ append_assoc a x.more y.more;
}

and_then-Sends :
    (sent : List Query) (x : Flow × List Query) (next : RunResult → List Query → Flow × List Query)
    → Sends sent x.1
    → ((r : RunResult) (s : List Query) → Sends s (next r s).1)
    → Sends sent (and_then x next).1
and_then-Sends sent (continues r, s) next h k = Sends-trans h (k r s)
and_then-Sends sent (returns r, s) next h k = h
and_then-Sends sent (throws e, s) next h k = h

module _ (database : List Query → Query → Option Json) (signal : List Query → Bool) where
  ensure_partitions-Sends :
      (starts : List Text) (r : RunResult) (sent : List Query)
      → Sends sent (ensure_partitions database signal starts r sent).1
  unfolding ensure_partitions
  ensure_partitions-Sends [] r sent = Sends-none sent
  ensure_partitions-Sends (start ∷ starts) r sent = elim (Bool-cases (signal sent)) [
    | inl s ↦ rw (s, ensure_partitions) (Sends-none sent)
    | inr s ↦
        elim (Answer-cases (
          answer_of (read_single_boolean (units "created"))
            (database sent (ensure_partition start)))) [
              | inl (e, f) ↦
                  rw (s, ensure_partitions, f, ensure_partitions) (Sends-one sent _ ensures)
              | inr (created, f) ↦
                  rw (s, ensure_partitions, f, ensure_partitions)
                    (Sends-trans (Sends-one sent _ ensures) (ensure_partitions-Sends starts _ _))
            ]
  ]

  drop_partitions-Sends :
      (cutoff : Text) (left : ℕ) (r : RunResult) (sent : List Query)
      → Sends sent (drop_partitions database signal cutoff left r sent).1
  unfolding drop_partitions
  drop_partitions-Sends cutoff zero r sent = Sends-none sent
  drop_partitions-Sends cutoff (suc left) r sent = elim (Bool-cases (signal sent)) [
    | inl s ↦ rw (s, drop_partitions) (Sends-none sent)
    | inr s ↦
        elim (Answer-cases (
          answer_of (read_single_boolean (units "dropped"))
            (database sent (drop_partition cutoff)))) [
              | inl (e, h) ↦ rw (s, drop_partitions, h, drop_partitions) (Sends-one sent _ drops)
              | inr (false, h) ↦
                  rw (s, drop_partitions, h, drop_partitions) (Sends-one sent _ drops)
              | inr (true, h) ↦
                  rw (s, drop_partitions, h, drop_partitions)
                    (Sends-trans (Sends-one sent _ drops) (drop_partitions-Sends cutoff left _ _))
            ]
  ]

  delete_rows-Sends :
      (cutoff : Text) (left : ℕ) (r : RunResult) (sent : List Query)
      → Sends sent (delete_rows database signal cutoff left r sent).1
  unfolding delete_rows
  delete_rows-Sends cutoff zero r sent = Sends-none sent
  delete_rows-Sends cutoff (suc left) r sent = elim (Bool-cases (signal sent)) [
    | inl s ↦ rw (s, delete_rows) (Sends-none sent)
    | inr s ↦
        elim (Answer-cases (
          answer_of (read_single_count (units "deleted"))
            (database sent (delete_default cutoff 1000)))) [
              | inl (e, h) ↦ rw (s, delete_rows, h, delete_rows) (Sends-one sent _ deletes)
              | inr (deleted, h) ↦ elim (Bool-cases (ltb 1000 deleted)) [
                | inl b ↦ rw (s, delete_rows, h, delete_rows, b) (Sends-one sent _ deletes)
                | inr b ↦ elim (Bool-cases (ltb deleted 1000)) [
                  | inl l ↦ rw (s, delete_rows, h, delete_rows, b, l) (Sends-one sent _ deletes)
                  | inr l ↦
                      rw (s, delete_rows, h, delete_rows, b, l)
                        (Sends-trans (Sends-one sent _ deletes) (delete_rows-Sends cutoff left _ _))
                ]
              ]
            ]
  ]

  execute_maintenance-Sends :
      (starts : List Text) (cutoff : Text) (sent : List Query)
      → Sends sent (execute_maintenance database signal starts cutoff sent).1
  unfolding execute_maintenance
  execute_maintenance-Sends starts cutoff sent =
      let delete = λ (r : RunResult) (s : List Query). delete_rows database signal cutoff 10 r s in
      let drop = λ (r : RunResult) (s : List Query).
        and_then (drop_partitions database signal cutoff 32 r s) delete in
      and_then-Sends sent (ensure_partitions database signal starts (empty_result completed) sent)
        drop (ensure_partitions-Sends starts (empty_result completed) sent)
        λ r s.
          and_then-Sends s (drop_partitions database signal cutoff 32 r s) delete
            (drop_partitions-Sends cutoff 32 r s) λ r s. delete_rows-Sends cutoff 10 r s

  -- Whether the database said that it gave, or took back, the lock.
  abbrev pub gave_lock : Answer Bool
  gave_lock = answer_of (read_single_boolean (units "acquired")) (database [] try_lock)

  abbrev pub took_lock : List Query → Answer Bool
  took_lock sent = answer_of (read_single_boolean (units "released")) (database sent unlock)

  -- The three ways that a run deals with the lock, and the client that it gives back.
  pub data IsBalanced : Run → Type 0 where
    no_client : {r : Ended} → IsBalanced (record { queries = []; releases = []; result = r })
    no_lock :
        {r : Ended} (destroy : Bool)
        → (destroy ≡ false → gave_lock ≡ said false)
        → IsBalanced (record { queries = try_lock ∷ []; releases = destroy ∷ []; result = r })
    locked :
        {r : Ended} (destroy : Bool) (more : List Query)
        → gave_lock ≡ said true
        → All IsMaintenance more
        → (destroy ≡ false → took_lock (try_lock ∷ more) ≡ said true)
        → IsBalanced (record {
          queries = try_lock ∷ (more ++ (unlock ∷ []));
          releases = destroy ∷ [];
          result = r;
        })

  locked-IsBalanced :
      (release_throws : Bool) (ended : Ended) (more : List Query)
      → gave_lock ≡ said true
      → All IsMaintenance more
      → IsBalanced (
          release_client release_throws (
            release_lock database signal (record {
              lock_acquired = true;
              destroy_client = false;
              ended = ended;
              sent = try_lock ∷ more;
            })))
  unfolding release_lock release_client
  locked-IsBalanced release_throws ended more g m =
      elim (Answer-cases (took_lock (try_lock ∷ more))) [
        | inl (e, h) ↦ rw (h, release_lock) (locked true more g m (λ k. absurd (cc)))
        | inr (false, h) ↦ rw (h, release_lock) (locked true more g m (λ k. absurd (cc)))
        | inr (true, h) ↦ rw (h, release_lock) (locked false more g m (λ _. h))
      ]

  attempt-IsBalanced :
      (release_throws : Bool) (starts : List Text) (cutoff : Text)
      → IsBalanced (
          release_client release_throws
            (unlock_if_acquired database signal (attempt database signal starts cutoff)))
  unfolding attempt release_client
  attempt-IsBalanced release_throws starts cutoff = elim (Answer-cases gave_lock) [
    | inl (e, h) ↦ rw (h, attempt) (no_lock true (λ k. absurd (cc)))
    | inr (false, h) ↦ rw (h, attempt) (no_lock false (λ _. h))
    | inr (true, h) ↦
        let done = execute_maintenance database signal starts cutoff (try_lock ∷ []) in
        let s = execute_maintenance-Sends starts cutoff (try_lock ∷ []) in
        rw (h, attempt)
          (subst
            (λ sent. IsBalanced (
              release_client release_throws (
                release_lock database signal (record {
                  lock_acquired = true;
                  destroy_client = false;
                  ended = ended_by done.0;
                  sent = sent;
                }))))
            (sym s.after_eq)
            (locked-IsBalanced release_throws (ended_by done.0) s.more h s.are_maintenance))
  ]

  -- Whatever the database answers and whenever the run is aborted, a run either takes no client, or sends the lock query only, or sends it, maintenance queries while it holds the lock, and one unlock at the end; a client that was taken is released exactly once, and is kept in the pool only when the database said that the lock was refused or taken back.
  pub run_maintenance-IsBalanced :
      (connects release_throws : Bool) (starts : List Text) (cutoff : Text)
      → IsBalanced (run_maintenance database signal connects release_throws starts cutoff)
  unfolding run_maintenance
  run_maintenance-IsBalanced connects release_throws starts cutoff =
      if_intro IsBalanced (signal []) (λ _. no_client)
        (λ _.
          if_intro IsBalanced (not connects) (λ _. no_client)
            (λ _. attempt-IsBalanced release_throws starts cutoff))
