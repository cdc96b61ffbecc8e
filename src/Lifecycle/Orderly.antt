-- ===== src/Lifecycle/Orderly.antt =====
-- src/server-lifecycle.ts: the stages of a shutdown and the counts of its calls.
use log_stream.Base.{
  ℕ, ◌+◌, ◌≤◌, ◌≡◌, refl, Bool, true, false, List, [], ◌∷◌, ◌++◌, Option, none, some, arith, ◌⊎◌,
  inl, inr, subst,
}
use log_stream.Lifecycle.{
  ShutdownSignal, ShutdownState, running, closing, closed, failed, Call, close_application,
  close_database, schedule_deadline, cancel_deadline, Closure, idle, application, database, done,
  Lifecycle,
}

abbrev pub is_close_application : Call → ℕ
is_close_application close_application = 1
is_close_application _ = 0

abbrev pub is_close_database : Call → ℕ
is_close_database close_database = 1
is_close_database _ = 0

abbrev pub is_schedule : Call → ℕ
is_schedule schedule_deadline = 1
is_schedule _ = 0

abbrev pub is_cancel : Call → ℕ
is_cancel cancel_deadline = 1
is_cancel _ = 0

abbrev pub tally : (Call → ℕ) → List Call → ℕ
tally weight [] = 0
tally weight (c ∷ calls) = weight c + tally weight calls

pub tally-append :
    (weight : Call → ℕ) (xs ys : List Call)
    → tally weight (xs ++ ys) ≡ tally weight xs + tally weight ys
tally-append weight [] ys = omega arith
tally-append weight (x ∷ xs) ys = omega (arith, tally-append weight xs ys)

abbrev pub has_promise : Option ShutdownSignal → Bool
has_promise none = false
has_promise (some signal) = true

abbrev pub is_final : ShutdownState → Bool
is_final closed = true
is_final failed = true
is_final _ = false

-- A shutdown before and after the race with its deadline, with the deadlines scheduled and cancelled.
abbrev pub IsRacing : Option ShutdownSignal → ShutdownState → Bool → ℕ → ℕ → Type 0
IsRacing p st true scheduled cancelled =
    (has_promise p ≡ true) × (st ≡ closing) × (scheduled ≡ 1) × (cancelled ≡ 0)
IsRacing p st false scheduled cancelled =
    (has_promise p ≡ true) × (is_final st ≡ true) × (scheduled ≡ 1) × (cancelled ≡ 1)

-- The number of closes of the application and of the database, by where `closeResources` stands.
abbrev pub Closes : Closure → ℕ → ℕ → Type 0
Closes idle a d = (a ≡ 0) × (d ≡ 0)
Closes application a d = (a ≡ 1) × (d ≡ 0)
Closes (database f) a d = (a ≡ 1) × (d ≡ 1)
Closes done a d = (a ≡ 1) × (d ≤ 1)

abbrev pub Stage : Closure → Option ShutdownSignal → ShutdownState → Bool → ℕ → ℕ → Type 0
Stage idle p st race scheduled cancelled =
    (has_promise p ≡ false) × (st ≡ running) × (race ≡ false) × (scheduled ≡ 0) × (cancelled ≡ 0)
Stage application p st race scheduled cancelled = IsRacing p st race scheduled cancelled
Stage (database f) p st race scheduled cancelled = IsRacing p st race scheduled cancelled
Stage done p st race scheduled cancelled = IsRacing p st race scheduled cancelled

pub record IsOrderly (s : Lifecycle) : Type 0 where
  pub closes :
      Closes s.closure (tally is_close_application s.calls) (tally is_close_database s.calls)
  pub stage :
      Stage s.closure s.shutdown_promise s.state s.race_open
        (tally is_schedule s.calls)
        (tally is_cancel s.calls)

pub Closure-cases :
    (c : Closure) → (c ≡ idle) ⊎ (c ≡ application) ⊎ ((f : Bool) × (c ≡ database f)) ⊎ (c ≡ done)
Closure-cases idle = inl refl
Closure-cases application = inr (inl refl)
Closure-cases (database f) = inr (inr (inl (f, refl)))
Closure-cases done = inr (inr (inr refl))

abbrev pub Counted : Lifecycle → Closure → Type 0
Counted s c =
    Closes c (tally is_close_application s.calls) (tally is_close_database s.calls)
    × Stage c s.shutdown_promise s.state s.race_open (tally is_schedule s.calls)
        (tally is_cancel s.calls)

pub Counted-at : {s : Lifecycle} {c : Closure} → IsOrderly s → s.closure ≡ c → Counted s c
Counted-at {s} i e = subst (Counted s) e (i.closes, i.stage)

IsRacing-promise :
    (p : Option ShutdownSignal) (st : ShutdownState) (race : Bool) (m n : ℕ)
    → IsRacing p st race m n
    → has_promise p ≡ true
IsRacing-promise p st true m n r = r.0
IsRacing-promise p st false m n r = r.0

pub Stage-promise :
    (c : Closure) (p : Option ShutdownSignal) (st : ShutdownState) (race : Bool) (m n : ℕ)
    → has_promise p ≡ false
    → Stage c p st race m n
    → c ≡ idle
Stage-promise idle p st race m n h r = refl
Stage-promise application p st race m n h r = absurd (cc (IsRacing-promise p st race m n r))
Stage-promise (database f) p st race m n h r = absurd (cc (IsRacing-promise p st race m n r))
Stage-promise done p st race m n h r = absurd (cc (IsRacing-promise p st race m n r))
