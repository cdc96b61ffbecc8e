-- ===== src/Ingestion/Batch/Places.antt =====
-- Where the promises of `insert` stand: settled, in a running write, or queued.
use log_stream.Base.{
  ℕ, zero, suc, ◌+◌, ◌≡◌, refl, ap, List, [], ◌∷◌, ◌++◌, map, some, arith, ltb, if◌then◌else◌,
  count, count-append, get_elem?, remove_at,
}
use log_stream.Ingestion.Batch.State.{State, PendingWrite, Flight, Outcome, settle_all}

abbrev pub settled_ids : List (ℕ × Outcome) → List ℕ
settled_ids [] = []
settled_ids ((p, o) ∷ xs) = p ∷ settled_ids xs

pub settled_ids-append :
    (xs ys : List (ℕ × Outcome)) → settled_ids (xs ++ ys) ≡ settled_ids xs ++ settled_ids ys
settled_ids-append [] ys = refl
settled_ids-append ((p, o) ∷ xs) ys = ap (◌∷◌ p) (settled_ids-append xs ys)

pub settled_ids-settle_all : (o : Outcome) (ps : List ℕ) → settled_ids (settle_all o ps) ≡ ps
settled_ids-settle_all o [] = refl
settled_ids-settle_all o (p ∷ ps) = ap (◌∷◌ p) (settled_ids-settle_all o ps)

module _ {R : Type 0} where
  abbrev pub ids : List (PendingWrite R) → List ℕ
  ids ws = map (λ w. w.promise) ws

  abbrev pub flight_ids : List (Flight R) → List ℕ
  flight_ids [] = []
  flight_ids (f ∷ fs) = ids f.writes ++ flight_ids fs

  -- The places where the promise of number p stands.
  abbrev pub places : ℕ → State R → ℕ
  places p s =
      count p (settled_ids s.settled) + count p (flight_ids s.running) + count p (ids s.pending)

  -- The promises that `insert` has returned stand in one place each, and there are no others.
  abbrev pub HasPromises : State R → Type 0
  HasPromises s = (p : ℕ) → places p s ≡ (if ltb p s.next_promise then 1 else 0)

  pub count-ids-append :
      (p : ℕ) (xs ys : List (PendingWrite R))
      → count p (ids (xs ++ ys)) ≡ count p (ids xs) + count p (ids ys)
  count-ids-append p [] ys = omega arith
  count-ids-append p (x ∷ xs) ys = ground (arith, count-ids-append p xs ys)

  pub count-flights-append :
      (p : ℕ) (xs ys : List (Flight R))
      → count p (flight_ids (xs ++ ys)) ≡ count p (flight_ids xs) + count p (flight_ids ys)
  count-flights-append p [] ys = omega arith
  count-flights-append p (x ∷ xs) ys = omega (
    arith,
    count-flights-append p xs ys,
    count-append p (ids x.writes) (flight_ids (xs ++ ys)),
    count-append p (ids x.writes) (flight_ids xs),
  )

  pub count-flights-remove_at :
      (p : ℕ) (xs : List (Flight R)) (i : ℕ) {f : Flight R}
      → get_elem? xs i ≡ some f
      → count p (flight_ids xs) ≡ count p (flight_ids (remove_at xs i)) + count p (ids f.writes)
  count-flights-remove_at p [] i h = cc
  count-flights-remove_at p (x ∷ xs) zero h =
      ground (arith, count-append p (ids x.writes) (flight_ids xs))
  count-flights-remove_at p (x ∷ xs) (suc i) h = omega (
    arith,
    count-flights-remove_at p xs i h,
    count-append p (ids x.writes) (flight_ids xs),
    count-append p (ids x.writes) (flight_ids (remove_at xs i)),
  )
