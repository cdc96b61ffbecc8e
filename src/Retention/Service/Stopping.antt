-- ===== src/Retention/Service/Stopping.antt =====
-- src/modules/retention/retention-service.ts: what `stop` promises.
use log_stream.Base.{ℕ, ◌≡◌, refl, Bool, true, false, List, [], ◌∷◌, Option, none, if_intro}
use log_stream.Retention.Service.{
  ActiveRun, idle, queued, running, StopPromise, not_called, waiting, settled, Service, created,
  schedule_next, finish_run, begin_run, start, execute_run, settle_run, remove_timer, has_timer,
  fire_timer, stop, resume_stop, Event, start_called, stop_resumed, stop_called, timer_fired,
  run_executed, run_settled, step, run,
}
use log_stream.Retention.Service.Consistent.{Holds, made, run-created-IsConsistent}

-- A promise of `stop` that is settled, with no active run and so many calls of the repository.
abbrev pub IsFrozen : ℕ → Bool → Service → Type 0
IsFrozen calls failed s = (s.active ≡ idle) × (s.stop_promise ≡ settled failed) × (s.calls ≡ calls)

IsFrozen-later :
    (more : List Event) (a : Bool) (sc : Option ℕ) (ab : Bool) (tm : List ℕ) (n : ℕ) (l : Bool)
    (c : ℕ) (f : Bool)
    → IsFrozen c f (run more (made a true sc idle ab (settled f) tm n l c))
unfolding run step start resume_stop stop fire_timer begin_run execute_run settle_run
IsFrozen-later [] a sc ab tm n l c f = (refl, refl, refl)
IsFrozen-later (start_called ∷ more) false sc ab tm n l c f =
    IsFrozen-later more false sc ab tm n l c f
IsFrozen-later (start_called ∷ more) true sc ab tm n l c f =
    IsFrozen-later more true sc ab tm n l c f
IsFrozen-later (stop_resumed ∷ more) a sc ab tm n l c f = IsFrozen-later more a sc ab tm n l c f
IsFrozen-later (stop_called w ∷ more) a sc ab tm n l c f = IsFrozen-later more a sc ab tm n l c f
IsFrozen-later (run_executed r w ∷ more) a sc ab tm n l c f = IsFrozen-later more a sc ab tm n l c f
IsFrozen-later (run_settled w ∷ more) a sc ab tm n l c f = IsFrozen-later more a sc ab tm n l c f
IsFrozen-later (timer_fired h ∷ more) a sc ab tm n l c f =
    if_intro (λ s. IsFrozen c f (run more s)) (has_timer h tm)
      (λ _. IsFrozen-later more a none ab (remove_timer h tm) n l c f)
      (λ _. IsFrozen-later more a sc ab tm n l c f)

settled-parts :
    (a b : Bool) (sc : Option ℕ) (ac : ActiveRun) (ab : Bool) (p : StopPromise) (l : Bool)
    (tm : List ℕ) {f : Bool}
    → Holds a b sc ac ab p l tm
    → p ≡ settled f
    → (b ≡ true) × (ac ≡ idle)
settled-parts a true sc ac ab (settled g) l tm (hs, ha, hi, hc) e = (refl, hi)
settled-parts a true sc ac ab not_called l tm h e = absurd (cc)
settled-parts a true sc ac ab (waiting g) l tm h e = absurd (cc)
settled-parts false false sc ac ab p l tm (hp, ha, hs, hi, ht) e = absurd (cc)
settled-parts true false sc ac ab p l tm (hp, ha, hd) e = absurd (cc)

IsFrozen-parts :
    (more : List Event) (a b : Bool) (sc : Option ℕ) (ac : ActiveRun) (ab : Bool) (p : StopPromise)
    (tm : List ℕ) (n : ℕ) (l : Bool) (c : ℕ) (f : Bool)
    → b ≡ true
    → ac ≡ idle
    → p ≡ settled f
    → IsFrozen c f (run more (made a b sc ac ab p tm n l c))
IsFrozen-parts more a b sc ac ab p tm n l c f eb ea ep =
    rw (eb, ea, ep) (IsFrozen-later more a sc ab tm n l c f)

-- Once the promise of `stop` has settled, in whatever order the events came, no later event makes a run active, calls the repository, or settles the promise otherwise.
pub run-IsFrozen :
    (events more : List Event) (failed : Bool)
    → (run events created).stop_promise ≡ settled failed
    → IsFrozen (run events created).calls failed (run more (run events created))
run-IsFrozen events more failed e =
    let s = run events created in
    let (stopped, quiet) =
      settled-parts s.started s.stopping s.scheduled s.active s.aborted s.stop_promise s.lost
        s.timers (run-created-IsConsistent events) e in
    IsFrozen-parts more s.started s.stopping s.scheduled s.active s.aborted s.stop_promise s.timers
      s.next_handle s.lost s.calls failed stopped quiet e

-- What the active run and `stop` still do.
abbrev pub closing : ActiveRun → Bool → Bool → Bool → List Event
closing idle r w x = stop_resumed ∷ []
closing running r w x = run_settled x ∷ stop_resumed ∷ []
closing queued r w x = run_executed r w ∷ run_settled x ∷ stop_resumed ∷ []

abbrev pub is_settled : StopPromise → Bool
is_settled not_called = false
is_settled (waiting f) = false
is_settled (settled f) = true

closed_parts :
    (k r w x : Bool) (a b : Bool) (sc : Option ℕ) (ac : ActiveRun) (ab : Bool) (p : StopPromise)
    (tm : List ℕ) (n : ℕ) (l : Bool) (c : ℕ)
    → Holds a b sc ac ab p l tm
    → is_settled
        (run (stop_called k ∷ closing ac r w x) (made a b sc ac ab p tm n l c)).stop_promise
      ≡ true
unfolding run step resume_stop stop execute_run settle_run finish_run schedule_next
closed_parts k r w x a b sc idle ab not_called tm n l c h = refl
closed_parts k r w x a b sc running ab not_called tm n l c h = refl
closed_parts k true w x a b sc queued ab not_called tm n l c h = refl
closed_parts k false w x a b sc queued ab not_called tm n l c h = refl
closed_parts k r w x a true sc idle ab (waiting f) tm n l c h = refl
closed_parts k r w x a true sc running ab (waiting f) tm n l c h = refl
closed_parts k true w x a true sc queued ab (waiting f) tm n l c h = refl
closed_parts k false w x a true sc queued ab (waiting f) tm n l c h = refl
closed_parts k r w x a true sc idle ab (settled f) tm n l c h = refl
closed_parts k r w x a true sc running ab (settled f) tm n l c (hs, ha, hp, hc) = absurd (cc)
closed_parts k r w x a true sc queued ab (settled f) tm n l c (hs, ha, hp, hc) = absurd (cc)
closed_parts k r w x false false sc ac ab (waiting f) tm n l c (hp, ha, hs, hi, ht) = absurd (cc)
closed_parts k r w x true false sc ac ab (waiting f) tm n l c (hp, ha, hd) = absurd (cc)
closed_parts k r w x false false sc ac ab (settled f) tm n l c (hp, ha, hs, hi, ht) = absurd (cc)
closed_parts k r w x true false sc ac ab (settled f) tm n l c (hp, ha, hd) = absurd (cc)

-- From every reachable state, when `stop` is called, its promise is settled after what is left of the active run: at most its microtask and the answer of the repository, whether or not the timer, the request or the repository fail.
pub run-stop_settles :
    (events : List Event) (cancels request schedules schedules_later : Bool)
    → is_settled
        (run
          (stop_called cancels
            ∷ closing (run events created).active request schedules schedules_later)
          (run events created)).stop_promise
      ≡ true
run-stop_settles events cancels request schedules schedules_later =
    let s = run events created in
    closed_parts cancels request schedules schedules_later s.started s.stopping s.scheduled s.active
      s.aborted s.stop_promise s.timers s.next_handle s.lost s.calls
      (run-created-IsConsistent events)
