-- ===== src/Server/Readiness.antt =====
-- src/shared/readiness.ts.
pub mod Shutdown
use log_stream.Base.{Bool, true, false, List, [], ◌∷◌}

pub data ReadinessState : Type 0 where
  starting ready degraded stopping : ReadinessState

unfoldable pub is_ready : ReadinessState → Bool
is_ready ready = true
is_ready starting = false
is_ready degraded = false
is_ready stopping = false

unfoldable pub mark_ready : ReadinessState → ReadinessState
mark_ready stopping = stopping
mark_ready starting = ready
mark_ready ready = ready
mark_ready degraded = ready

unfoldable pub mark_unavailable : ReadinessState → ReadinessState
mark_unavailable ready = degraded
mark_unavailable degraded = degraded
mark_unavailable starting = starting
mark_unavailable stopping = stopping

unfoldable pub begin_shutdown : ReadinessState → ReadinessState
begin_shutdown s = stopping

pub data ReadinessCall : Type 0 where
  ready_call unavailable_call shutdown_call : ReadinessCall

unfoldable pub apply_call : ReadinessCall → ReadinessState → ReadinessState
apply_call ready_call s = mark_ready s
apply_call unavailable_call s = mark_unavailable s
apply_call shutdown_call s = begin_shutdown s

unfoldable pub apply_calls : List ReadinessCall → ReadinessState → ReadinessState
apply_calls [] s = s
apply_calls (c ∷ calls) s = apply_calls calls (apply_call c s)
