-- ===== src/Retention/Service/Consistent.antt =====
-- src/modules/retention/retention-service.ts: what holds between two events.
use log_stream.Base.{
  ℕ, ◌≡◌, refl, Bool, true, false, List, [], ◌∷◌, Option, none, some, arith, if_intro, subst,
  length, ap, ◌∙◌,
}
use log_stream.Retention.Service.{
  ActiveRun, idle, queued, running, StopPromise, not_called, waiting, settled, Service, created,
  is_active, schedule_next, finish_run, begin_run, start, execute_run, settle_run, remove_timer,
  has_timer, fire_timer, stop, resume_stop, Event, start_called, stop_resumed, stop_called,
  timer_fired, run_executed, run_settled, step, run,
}
use log_stream.Retention.Service.Timers.{
  IsCleared, remove_timer-only, no_timer, remove_timer-IsCleared, remove_timer-own, cancelled-none,
}

-- A service that is started runs or waits for its one timer, never both, unless `schedule` has thrown.
abbrev IsDue : ActiveRun → Option ℕ → Bool → List ℕ → Type 0
IsDue idle none lost timers = (lost ≡ true) × (timers ≡ [])
IsDue idle (some h) lost timers = timers ≡ h ∷ []
IsDue queued none lost timers = timers ≡ []
IsDue running none lost timers = timers ≡ []
IsDue queued (some h) lost timers = true ≡ false
IsDue running (some h) lost timers = true ≡ false

-- The promise of `stop` is there, and settles behind the active run only.
abbrev IsStopped : StopPromise → ActiveRun → Type 0
IsStopped not_called a = true ≡ false
IsStopped (waiting failed) a = Unit
IsStopped (settled failed) a = a ≡ idle

abbrev pub Holds : Bool → Bool → Option ℕ → ActiveRun → Bool → StopPromise → Bool → List ℕ → Type 0
Holds started true scheduled active aborted promise lost timers =
    (scheduled ≡ none)
    × (aborted ≡ is_active active)
    × IsStopped promise active
    × IsCleared promise timers
Holds false false scheduled active aborted promise lost timers =
    (promise ≡ not_called)
    × (aborted ≡ false)
    × (scheduled ≡ none)
    × (active ≡ idle)
    × (timers ≡ [])
Holds true false scheduled active aborted promise lost timers =
    (promise ≡ not_called) × (aborted ≡ false) × IsDue active scheduled lost timers

abbrev pub IsConsistent : Service → Type 0
IsConsistent s =
    Holds s.started s.stopping s.scheduled s.active s.aborted s.stop_promise s.lost s.timers

-- A service from its parts, for clauses on them.
abbrev pub made :
    Bool → Bool → Option ℕ → ActiveRun → Bool → StopPromise → List ℕ → ℕ → Bool → ℕ → Service
made started stopping scheduled active aborted promise timers next lost calls = record {
  started = started;
  stopping = stopping;
  scheduled = scheduled;
  active = active;
  aborted = aborted;
  stop_promise = promise;
  timers = timers;
  next_handle = next;
  lost = lost;
  calls = calls;
}

abbrev Keeps : (Service → Service) → Type 0
Keeps f =
    (a b : Bool) (sc : Option ℕ) (ac : ActiveRun) (ab : Bool) (p : StopPromise) (tm : List ℕ)
    (n : ℕ) (l : Bool) (c : ℕ)
    → Holds a b sc ac ab p l tm
    → IsConsistent (f (made a b sc ac ab p tm n l c))

start-Keeps : Keeps start
unfolding start begin_run
start-Keeps false false sc ac ab p tm n l c (hp, ha, hs, hi, ht) = rw (hi, hs, ht) (hp, refl, refl)
start-Keeps true false sc ac ab p tm n l c h = h
start-Keeps false true sc ac ab p tm n l c h = h
start-Keeps true true sc ac ab p tm n l c h = h

IsStopped-idle : (p : StopPromise) (ac : ActiveRun) → IsStopped p ac → IsStopped p idle
IsStopped-idle not_called ac h = h
IsStopped-idle (waiting failed) ac h = tt
IsStopped-idle (settled failed) ac h = refl

-- The end of a run that was active.
finish_run-Keeps :
    (schedules : Bool) (a b : Bool) (sc : Option ℕ) (ac : ActiveRun) (ab : Bool) (p : StopPromise)
    (tm : List ℕ) (n : ℕ) (l : Bool) (c : ℕ)
    → is_active ac ≡ true
    → Holds a b sc ac ab p l tm
    → IsConsistent (finish_run schedules (made a b sc ac ab p tm n l c))
unfolding finish_run schedule_next
finish_run-Keeps w a true sc ac ab p tm n l c e (hs, ha, hp, hc) =
    (hs, refl, IsStopped-idle p ac hp, hc)
finish_run-Keeps w false false sc ac ab p tm n l c e (hp, ha, hs, hi, ht) = absurd (cc)
finish_run-Keeps w true false sc idle ab p tm n l c e h = absurd (cc)
finish_run-Keeps w true false (some x) queued ab p tm n l c e (hp, ha, h) = absurd (cc)
finish_run-Keeps w true false (some x) running ab p tm n l c e (hp, ha, h) = absurd (cc)
finish_run-Keeps true true false none queued ab p tm n l c e (hp, ha, h) =
    (hp, refl, ap (λ t. n ∷ t) h)
finish_run-Keeps true true false none running ab p tm n l c e (hp, ha, h) =
    (hp, refl, ap (λ t. n ∷ t) h)
finish_run-Keeps false true false none queued ab p tm n l c e (hp, ha, h) = (hp, refl, (refl, h))
finish_run-Keeps false true false none running ab p tm n l c e (hp, ha, h) = (hp, refl, (refl, h))

IsStopped-running : (p : StopPromise) → IsStopped p queued → IsStopped p running
IsStopped-running not_called h = h
IsStopped-running (waiting failed) h = tt
IsStopped-running (settled failed) h = absurd (cc)

execute_run-Keeps : (request schedules : Bool) → Keeps (execute_run request schedules)
unfolding execute_run
execute_run-Keeps r w a b sc idle ab p tm n l c h = h
execute_run-Keeps r w a b sc running ab p tm n l c h = h
execute_run-Keeps false w a b sc queued ab p tm n l c h =
    finish_run-Keeps w a b sc queued ab p tm n l c refl h
execute_run-Keeps true w a true sc queued ab p tm n l c (hs, ha, hp, hc) =
    (hs, ha, IsStopped-running p hp, hc)
execute_run-Keeps true w false false sc queued ab p tm n l c (hp, ha, hs, hi, ht) = absurd (cc)
execute_run-Keeps true w true false none queued ab p tm n l c h = h
execute_run-Keeps true w true false (some x) queued ab p tm n l c (hp, ha, h) = absurd (cc)

settle_run-Keeps : (schedules : Bool) → Keeps (settle_run schedules)
unfolding settle_run
settle_run-Keeps w a b sc idle ab p tm n l c h = h
settle_run-Keeps w a b sc queued ab p tm n l c h = h
settle_run-Keeps w a b sc running ab p tm n l c h =
    finish_run-Keeps w a b sc running ab p tm n l c refl h

-- The callback of a timer that is set.
fired-Keeps :
    (h : ℕ) (a b : Bool) (sc : Option ℕ) (ac : ActiveRun) (ab : Bool) (p : StopPromise)
    (tm : List ℕ) (n : ℕ) (l : Bool) (c : ℕ)
    → has_timer h tm ≡ true
    → Holds a b sc ac ab p l tm
    → IsConsistent (begin_run (made a b none ac ab p (remove_timer h tm) n l c))
unfolding begin_run
fired-Keeps h a true sc ac ab p tm n l c e (hs, ha, hp, hc) =
    (refl, ha, hp, remove_timer-IsCleared h p tm hc)
fired-Keeps h false false sc ac ab p tm n l c e (hp, ha, hs, hi, ht) = absurd (no_timer h tm ht e)
fired-Keeps h true false none idle ab p tm n l c e (hp, ha, (hl, ht)) = absurd (no_timer h tm ht e)
fired-Keeps h true false none queued ab p tm n l c e (hp, ha, ht) = absurd (no_timer h tm ht e)
fired-Keeps h true false none running ab p tm n l c e (hp, ha, ht) = absurd (no_timer h tm ht e)
fired-Keeps h true false (some x) queued ab p tm n l c e (hp, ha, ht) = absurd (cc)
fired-Keeps h true false (some x) running ab p tm n l c e (hp, ha, ht) = absurd (cc)
fired-Keeps h true false (some x) idle ab p tm n l c e (hp, ha, ht) = (
  hp,
  refl,
  ap (remove_timer h) ht ∙ remove_timer-only h x (subst (λ t. has_timer h t ≡ true) ht e),
)

fire_timer-Keeps : (h : ℕ) → Keeps (fire_timer h)
unfolding fire_timer
fire_timer-Keeps h a b sc ac ab p tm n l c k =
    if_intro IsConsistent (has_timer h tm) (λ e. fired-Keeps h a b sc ac ab p tm n l c e k) (λ _. k)

stop-Keeps : (cancels : Bool) → Keeps (stop cancels)
unfolding stop
stop-Keeps w a b sc ac ab (waiting f) tm n l c h = h
stop-Keeps w a b sc ac ab (settled f) tm n l c h = h
stop-Keeps w a true sc ac ab not_called tm n l c (hs, ha, hp, hc) = absurd (cc)
stop-Keeps w false false sc ac ab not_called tm n l c (hp, ha, hs, hi, ht) =
    (refl, refl, tt, cancelled-none w sc tm hs ht)
stop-Keeps w true false none idle ab not_called tm n l c (hp, ha, (hl, ht)) = (refl, refl, tt, ht)
stop-Keeps w true false none queued ab not_called tm n l c (hp, ha, ht) = (refl, refl, tt, ht)
stop-Keeps w true false none running ab not_called tm n l c (hp, ha, ht) = (refl, refl, tt, ht)
stop-Keeps w true false (some x) queued ab not_called tm n l c (hp, ha, ht) = absurd (cc)
stop-Keeps w true false (some x) running ab not_called tm n l c (hp, ha, ht) = absurd (cc)
stop-Keeps true true false (some x) idle ab not_called tm n l c (hp, ha, ht) =
    (refl, refl, tt, ap (remove_timer x) ht ∙ remove_timer-own x)
stop-Keeps false true false (some x) idle ab not_called tm n l c (hp, ha, ht) =
    (refl, refl, tt, omega (arith, ap length ht))

resume_stop-Keeps : Keeps resume_stop
unfolding resume_stop
resume_stop-Keeps a true sc ac ab not_called tm n l c h = h
resume_stop-Keeps false false sc ac ab not_called tm n l c h = h
resume_stop-Keeps true false sc ac ab not_called tm n l c h = h
resume_stop-Keeps a true sc ac ab (settled f) tm n l c h = h
resume_stop-Keeps false false sc ac ab (settled f) tm n l c h = h
resume_stop-Keeps true false sc ac ab (settled f) tm n l c h = h
resume_stop-Keeps a true sc idle ab (waiting false) tm n l c (hs, ha, hp, hc) = (hs, ha, refl, hc)
resume_stop-Keeps a true sc idle ab (waiting true) tm n l c (hs, ha, hp, hc) = (hs, ha, refl, hc)
resume_stop-Keeps a true sc queued ab (waiting f) tm n l c h = h
resume_stop-Keeps a true sc running ab (waiting f) tm n l c h = h
resume_stop-Keeps false false sc ac ab (waiting f) tm n l c (hp, ha, hs, hi, ht) = absurd (cc)
resume_stop-Keeps true false sc ac ab (waiting f) tm n l c (hp, ha, hd) = absurd (cc)

keeps : (f : Service → Service) → Keeps f → (s : Service) → IsConsistent s → IsConsistent (f s)
keeps f k s h =
    k s.started s.stopping s.scheduled s.active s.aborted s.stop_promise s.timers s.next_handle
      s.lost s.calls h

step-IsConsistent : (e : Event) (s : Service) → IsConsistent s → IsConsistent (step e s)
unfolding step
step-IsConsistent start_called = keeps start start-Keeps
step-IsConsistent stop_resumed = keeps resume_stop resume_stop-Keeps
step-IsConsistent (stop_called w) = keeps (stop w) (stop-Keeps w)
step-IsConsistent (timer_fired h) = keeps (fire_timer h) (fire_timer-Keeps h)
step-IsConsistent (run_executed r w) = keeps (execute_run r w) (execute_run-Keeps r w)
step-IsConsistent (run_settled w) = keeps (settle_run w) (settle_run-Keeps w)

run-IsConsistent :
    (events : List Event) (s : Service) → IsConsistent s → IsConsistent (run events s)
unfolding run
run-IsConsistent [] s h = h
run-IsConsistent (e ∷ events) s h = run-IsConsistent events (step e s) (step-IsConsistent e s h)

-- After any events in any order: a service that is started and not stopped has either an active run or exactly the one timer that it holds, never both, unless a call of `schedule` has thrown; before its start it has neither; once stopped it holds no handle and no timer is live (or one at most, where the call of `cancel` has thrown), the signal of a run that is still active is aborted, and the promise of `stop` is settled only when no run is active.
pub run-created-IsConsistent : (events : List Event) → IsConsistent (run events created)
run-created-IsConsistent events = run-IsConsistent events created (refl, refl, refl, refl, refl)
