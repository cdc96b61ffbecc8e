-- ===== src/Lifecycle/Once.antt =====
-- src/server-lifecycle.ts: what a shutdown does once, whatever the order of the events.
use log_stream.Base.{
  ℕ, ◌+◌, ◌≤◌, ◌≡◌, refl, Bool, true, false, ◌||◌, List, [], ◌∷◌, ◌++◌, Option, if_intro, arith,
  inl, inr, ap, subst, Option-cases,
}
use log_stream.Lifecycle.{
  signal_of, force_exit, ShutdownSignal, ShutdownState, closed, failed, Call, mark_not_ready,
  on_shutdown_started, on_shutdown_failed, close_application, close_database, schedule_deadline,
  cancel_deadline, Closure, idle, application, database, done, Lifecycle, installed,
  execute_shutdown, assign, shutdown, conclude, resources_done, application_settled,
  database_settled, deadline_fired, signal_received, Event, signal_arrives, shutdown_call,
  application_settles, database_settles, deadline_fires, dispose_call, step, run,
}
use log_stream.Lifecycle.Orderly.{
  is_close_application, is_close_database, is_schedule, is_cancel, tally, tally-append, has_promise,
  is_final, IsRacing, Closes, Stage, IsOrderly, Closure-cases, Counted, Counted-at, Stage-promise,
}

execute_shutdown-IsOrderly :
    (signal : ShutdownSignal) (s : Lifecycle)
    → has_promise s.shutdown_promise ≡ false
    → IsOrderly s
    → IsOrderly (assign signal (execute_shutdown signal s))
unfolding execute_shutdown
execute_shutdown-IsOrderly signal s h i =
    let e = Stage-promise s.closure s.shutdown_promise s.state s.race_open _ _ h i.stage in
    let ((a, d), (_, _, _, sc, ca)) : Counted s idle = Counted-at i e in
    let more =
      mark_not_ready ∷ on_shutdown_started signal ∷ close_application ∷ schedule_deadline ∷ [] in
    record {
      closes = (
        omega (arith, tally-append is_close_application s.calls more, a),
        omega (arith, tally-append is_close_database s.calls more, d),
      );
      stage = (
        refl,
        refl,
        omega (arith, tally-append is_schedule s.calls more, sc),
        omega (arith, tally-append is_cancel s.calls more, ca),
      );
    }

shutdown-IsOrderly :
    (signal : ShutdownSignal) (s : Lifecycle) → IsOrderly s → IsOrderly (shutdown signal s)
unfolding shutdown
shutdown-IsOrderly signal s i = elim (Option-cases s.shutdown_promise) [
  | inl n ↦ rw (n, shutdown) (execute_shutdown-IsOrderly signal s (ap has_promise n) i)
  | inr (p, e) ↦ rw (e, shutdown) i
]

-- Calls at the end of the race: one cancels the deadline, none closes anything.
abbrev EndRace : List Call → Type 0
EndRace more =
    (tally is_close_application more ≡ 0)
    × (tally is_close_database more ≡ 0)
    × (tally is_schedule more ≡ 0)
    × (tally is_cancel more ≡ 1)

ended :
    (more : List Call) (st : ShutdownState) (s : Lifecycle)
    → is_final st ≡ true
    → EndRace more
    → tally is_close_application s.calls ≡ 1
    → tally is_close_database s.calls ≤ 1
    → has_promise s.shutdown_promise ≡ true
    → tally is_schedule s.calls ≡ 1
    → tally is_cancel s.calls ≡ 0
    → IsOrderly
        (record s { closure = done; state = st; race_open = false; calls = s.calls ++ more })
ended more st s f (ma, md, ms, mc) a d p sc ca = record {
  closes = (
    omega (arith, tally-append is_close_application s.calls more, ma, a),
    omega (arith, tally-append is_close_database s.calls more, md, d),
  );
  stage = (
    p,
    f,
    omega (arith, tally-append is_schedule s.calls more, ms, sc),
    omega (arith, tally-append is_cancel s.calls more, mc, ca),
  );
}

resources_done-IsOrderly :
    (fails : Bool) (s : Lifecycle)
    → tally is_close_application s.calls ≡ 1
    → tally is_close_database s.calls ≤ 1
    → IsRacing s.shutdown_promise s.state s.race_open
        (tally is_schedule s.calls)
        (tally is_cancel s.calls)
    → IsOrderly (resources_done fails s)
unfolding resources_done conclude
resources_done-IsOrderly fails s a d r =
    if_intro IsOrderly s.race_open
      (λ e.
        let (p, st, sc, ca) =
          subst
            (λ b.
              IsRacing s.shutdown_promise s.state b (tally is_schedule s.calls)
                (tally is_cancel s.calls))
            e r in
        let signal = signal_of s in
        if_intro IsOrderly fails
          (λ _.
            ended (cancel_deadline ∷ on_shutdown_failed signal ∷ []) failed s refl
              (refl, refl, refl, refl) a d p sc ca)
          (λ _. ended (cancel_deadline ∷ []) closed s refl (refl, refl, refl, refl) a d p sc ca))
      (λ e. record { closes = (a, d); stage = r })

IsRacing-more :
    (more : List Call) (s : Lifecycle)
    → tally is_schedule more ≡ 0
    → tally is_cancel more ≡ 0
    → IsRacing s.shutdown_promise s.state s.race_open
        (tally is_schedule s.calls)
        (tally is_cancel s.calls)
    → IsRacing s.shutdown_promise s.state s.race_open
        (tally is_schedule (s.calls ++ more))
        (tally is_cancel (s.calls ++ more))
IsRacing-more more s h k r =
    let same_schedule : tally is_schedule s.calls ≡ tally is_schedule (s.calls ++ more) =
      omega (arith, tally-append is_schedule s.calls more, h) in
    let same_cancel : tally is_cancel s.calls ≡ tally is_cancel (s.calls ++ more) =
      omega (arith, tally-append is_cancel s.calls more, k) in
    subst
      (λ n. IsRacing s.shutdown_promise s.state s.race_open (tally is_schedule (s.calls ++ more)) n)
      same_cancel
      (subst (λ n. IsRacing s.shutdown_promise s.state s.race_open n (tally is_cancel s.calls))
        same_schedule r)

application_settled-IsOrderly :
    (has_database fails : Bool) (s : Lifecycle)
    → IsOrderly s
    → IsOrderly (application_settled has_database fails s)
unfolding application_settled
application_settled-IsOrderly has_database fails s i = elim (Closure-cases s.closure) [
  | inl e ↦ rw (e, application_settled) i
  | inr (inl e) ↦
      let ((a, d), r) : Counted s application = Counted-at i e in
      rw (e, application_settled)
        (if_intro IsOrderly has_database
          (λ _. record {
            closes = (
              omega (arith, tally-append is_close_application s.calls (close_database ∷ []), a),
              omega (arith, tally-append is_close_database s.calls (close_database ∷ []), d),
            );
            stage = IsRacing-more (close_database ∷ []) s refl refl r;
          })
          (λ _. resources_done-IsOrderly fails s a (omega (arith, d)) r))
  | inr (inr (inl (f, e))) ↦ rw (e, application_settled) i
  | inr (inr (inr e)) ↦ rw (e, application_settled) i
]

database_settled-IsOrderly :
    (fails : Bool) (s : Lifecycle) → IsOrderly s → IsOrderly (database_settled fails s)
unfolding database_settled
database_settled-IsOrderly fails s i = elim (Closure-cases s.closure) [
  | inl e ↦ rw (e, database_settled) i
  | inr (inl e) ↦ rw (e, database_settled) i
  | inr (inr (inl (f, e))) ↦
      let ((a, d), r) : Counted s (database f) = Counted-at i e in
      rw (e, database_settled) (resources_done-IsOrderly (f || fails) s a (omega (arith, d)) r)
  | inr (inr (inr e)) ↦ rw (e, database_settled) i
]

Closes-more :
    (c : Closure) (s : Lifecycle) (more : List Call)
    → tally is_close_application more ≡ 0
    → tally is_close_database more ≡ 0
    → Closes c (tally is_close_application s.calls) (tally is_close_database s.calls)
    → Closes c
        (tally is_close_application (s.calls ++ more))
        (tally is_close_database (s.calls ++ more))
Closes-more c s more h k r =
    let same_application : tally is_close_application s.calls
        ≡ tally is_close_application (s.calls ++ more) =
      omega (arith, tally-append is_close_application s.calls more, h) in
    let same_database : tally is_close_database s.calls
        ≡ tally is_close_database (s.calls ++ more) =
      omega (arith, tally-append is_close_database s.calls more, k) in
    subst (λ n. Closes c (tally is_close_application (s.calls ++ more)) n) same_database
      (subst (λ n. Closes c n (tally is_close_database s.calls)) same_application r)

-- An open race ends: the stage afterwards.
Stage-ended :
    (c : Closure) (p : Option ShutdownSignal) (st : ShutdownState) (race : Bool) (m n m' n' : ℕ)
    → race ≡ true
    → m' ≡ m
    → n' ≡ n + 1
    → Stage c p st race m n
    → Stage c p failed false m' n'
Stage-ended c p st false m n m' n' h u v r = absurd (cc)
Stage-ended idle p st true m n m' n' h u v (_, _, closed_race, _, _) = absurd (cc)
Stage-ended application p st true m n m' n' h u v (q, _, x, y) = (q, refl, omega arith, omega arith)
Stage-ended (database f) p st true m n m' n' h u v (q, _, x, y) =
    (q, refl, omega arith, omega arith)
Stage-ended done p st true m n m' n' h u v (q, _, x, y) = (q, refl, omega arith, omega arith)

deadline_fired-IsOrderly : (s : Lifecycle) → IsOrderly s → IsOrderly (deadline_fired s)
unfolding deadline_fired
deadline_fired-IsOrderly s i =
    let more = cancel_deadline ∷ on_shutdown_failed (signal_of s) ∷ force_exit ∷ [] in
    if_intro IsOrderly s.race_open
      (λ e. record {
        closes = Closes-more s.closure s more refl refl i.closes;
        stage =
            Stage-ended s.closure s.shutdown_promise s.state s.race_open _ _ _ _ e
              (omega (arith, tally-append is_schedule s.calls more))
              (omega (arith, tally-append is_cancel s.calls more)) i.stage;
      })
      (λ _. i)

step-IsOrderly :
    (has_database : Bool) (s : Lifecycle) (e : Event)
    → IsOrderly s
    → IsOrderly (step has_database s e)
unfolding step signal_received
step-IsOrderly has_database s (signal_arrives signal) i =
    if_intro IsOrderly s.disposed (λ _. i) (λ _. shutdown-IsOrderly signal s i)
step-IsOrderly has_database s (shutdown_call signal) i = shutdown-IsOrderly signal s i
step-IsOrderly has_database s (application_settles fails) i =
    application_settled-IsOrderly has_database fails s i
step-IsOrderly has_database s (database_settles fails) i = database_settled-IsOrderly fails s i
step-IsOrderly has_database s deadline_fires i = deadline_fired-IsOrderly s i
step-IsOrderly has_database s dispose_call i = record { closes = i.closes; stage = i.stage }

run-IsOrderly :
    (has_database : Bool) (s : Lifecycle) (es : List Event)
    → IsOrderly s
    → IsOrderly (run has_database s es)
unfolding run
run-IsOrderly has_database s [] i = i
run-IsOrderly has_database s (e ∷ es) i =
    run-IsOrderly has_database (step has_database s e) es (step-IsOrderly has_database s e i)

-- After any events in any order, repeated signals and calls included, where the functions of the options do not call `shutdown` before they return: the application is closed at most once, and the database at most once and only after it; before a shutdown no deadline is scheduled, from then on exactly one is, and it has been cancelled exactly once if the race with it has ended and not before; and the state is `running` before a shutdown, `closing` during the race, and `closed` or `failed` after it.
pub run-installed-IsOrderly :
    (has_database : Bool) (es : List Event) → IsOrderly (run has_database installed es)
run-installed-IsOrderly has_database es =
    run-IsOrderly has_database installed es
      (record { closes = (refl, refl); stage = (refl, refl, refl, refl, refl) })
