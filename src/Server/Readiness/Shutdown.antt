-- ===== src/Server/Readiness/Shutdown.antt =====
-- src/shared/readiness.ts: the readiness after a shutdown.
use log_stream.Base.{◌≡◌, refl, ap, false, List, [], ◌∷◌, ◌++◌}
use log_stream.Server.Readiness.{
  ReadinessState, stopping, is_ready, mark_ready, mark_unavailable, begin_shutdown, ReadinessCall,
  ready_call, unavailable_call, shutdown_call, apply_call, apply_calls,
}

stopping_stays : (calls : List ReadinessCall) → apply_calls calls stopping ≡ stopping
unfolding apply_calls apply_call mark_ready mark_unavailable begin_shutdown
stopping_stays [] = refl
stopping_stays (ready_call ∷ calls) = stopping_stays calls
stopping_stays (unavailable_call ∷ calls) = stopping_stays calls
stopping_stays (shutdown_call ∷ calls) = stopping_stays calls

-- Whatever is called before and after it, `beginShutdown` makes the server not ready for good.
pub is_ready-shutdown :
    (earlier later : List ReadinessCall) (s : ReadinessState)
    → is_ready (apply_calls (earlier ++ (shutdown_call ∷ later)) s) ≡ false
unfolding is_ready apply_calls apply_call begin_shutdown
is_ready-shutdown [] later s = ap is_ready (stopping_stays later)
is_ready-shutdown (c ∷ earlier) later s = is_ready-shutdown earlier later (apply_call c s)
