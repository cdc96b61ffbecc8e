-- ===== src/Retention/Service/Timers.antt =====
-- src/modules/retention/retention-service.ts: the timers that are live.
use log_stream.Base.{
  ℕ, ◌≤◌, ◌≡◌, ◌≢◌, refl, Bool, true, false, List, [], ◌∷◌, Option, none, some, length, arith,
}
use log_stream.Retention.Service.{
  StopPromise, not_called, waiting, settled, remove_timer, has_timer, cancel_timer,
}

-- No timer is live, unless `cancel` has thrown: then the one at most that it was to cancel.
abbrev pub IsCleared : StopPromise → List ℕ → Type 0
IsCleared not_called timers = Unit
IsCleared (waiting false) timers = timers ≡ []
IsCleared (settled false) timers = timers ≡ []
IsCleared (waiting true) timers = length timers ≤ 1
IsCleared (settled true) timers = length timers ≤ 1

pub remove_timer-only : (h x : ℕ) → has_timer h (x ∷ []) ≡ true → remove_timer h (x ∷ []) ≡ []
unfolding remove_timer has_timer
remove_timer-only h x e = ground (arith, e)

pub no_timer : (h : ℕ) (tm : List ℕ) → tm ≡ [] → has_timer h tm ≢ true
unfolding has_timer
no_timer h [] e k = absurd (cc)
no_timer h (x ∷ tm) e k = absurd (cc)

remove_timer-length : (h : ℕ) (tm : List ℕ) → length (remove_timer h tm) ≤ length tm
unfolding remove_timer
remove_timer-length h [] = omega arith
remove_timer-length h (x ∷ tm) = ground (arith, remove_timer-length h tm)

remove_timer-none : (h : ℕ) (tm : List ℕ) → tm ≡ [] → remove_timer h tm ≡ []
unfolding remove_timer
remove_timer-none h [] e = refl
remove_timer-none h (x ∷ tm) e = absurd (cc)

pub remove_timer-IsCleared :
    (h : ℕ) (p : StopPromise) (tm : List ℕ) → IsCleared p tm → IsCleared p (remove_timer h tm)
remove_timer-IsCleared h not_called tm c = tt
remove_timer-IsCleared h (waiting false) tm c = remove_timer-none h tm c
remove_timer-IsCleared h (settled false) tm c = remove_timer-none h tm c
remove_timer-IsCleared h (waiting true) tm c = omega (arith, remove_timer-length h tm)
remove_timer-IsCleared h (settled true) tm c = omega (arith, remove_timer-length h tm)

pub remove_timer-own : (x : ℕ) → remove_timer x (x ∷ []) ≡ []
unfolding remove_timer
remove_timer-own x = ground arith

-- Without a handle nothing is cancelled.
pub cancelled-none :
    (w : Bool) (sc : Option ℕ) (tm : List ℕ)
    → sc ≡ none
    → tm ≡ []
    → IsCleared (waiting (cancel_timer sc w tm).1) (cancel_timer sc w tm).0
cancelled-none w none tm e h = h
cancelled-none w (some x) tm e h = absurd (cc)
