-- ===== src/Drain/Monotone.antt =====
-- Phases only move forward, the drain is announced once, and the gate decides by the arrival.
use acdp_control_plane.Prelude.{
  ℕ, ◌≤◌, ◌≡◌, refl, ◌⊎◌, List, [], ◌∷◌, true, false, arith, if◌then◌else◌,
}
use acdp_control_plane.Drain.{
  DrainPhase, serving, draining, closing, DrainState, initial, begin, begin_closing, is_draining,
  note_sse_termination, note_rejection, Request, mark_arrival, pass, service_draining, gate,
}

-- What may happen to the state.
pub data Event : Type 0 where
  began began_closing terminated : Event
  gated : ℕ → Request → Event

pub step : Event → DrainState → DrainState
step began s = begin s
step began_closing s = begin_closing s
step terminated s = note_sse_termination s
step (gated retry req) s = (gate retry req s).1

-- The latest event stands first.
pub run : List Event → DrainState → DrainState
run [] s = s
run (e ∷ past) s = step e (run past s)

abbrev pub rank : DrainPhase → ℕ
rank serving = 0
rank draining = 1
rank closing = 2

-- The subject has emitted once and completed exactly when the drain has begun.
pub record IsAnnounced (s : DrainState) : Type 0 where
  pub count : s.emitted ≡ (if is_draining s then 1 else 0)
  pub ended : s.completed ≡ is_draining s

step-IsAnnounced : (e : Event) (s : DrainState) → IsAnnounced s → IsAnnounced (step e s)
unfolding step begin begin_closing is_draining note_sse_termination gate
step-IsAnnounced began s h = record {
  count = ground (arith, h.count);
  ended = ground (arith, h.ended);
}
step-IsAnnounced began_closing s h = record {
  count = ground (arith, h.count);
  ended = ground (arith, h.ended);
}
step-IsAnnounced terminated s h = record { count = h.count; ended = h.ended }
step-IsAnnounced (gated retry req) s h = record {
  count = ground (arith, h.count);
  ended = ground (arith, h.ended);
}

-- Whatever events a new state has seen, `drained$` has emitted once and completed if the drain has
-- begun, and neither if not.
pub IsAnnounced-once : (past : List Event) → IsAnnounced (run past initial)
unfolding run is_draining
IsAnnounced-once [] = record { count = refl; ended = refl }
IsAnnounced-once (e ∷ past) = step-IsAnnounced e (run past initial) (IsAnnounced-once past)

step_forward : (e : Event) (s : DrainState) → rank s.current ≤ rank (step e s).current
unfolding step begin begin_closing note_sse_termination gate
step_forward began s = ground arith
step_forward began_closing s = ground arith
step_forward terminated s = omega arith
step_forward (gated retry req) s = ground arith

-- The phase never moves back, whatever events follow.
pub phase_forward :
    (past : List Event) (s : DrainState) → rank s.current ≤ rank (run past s).current
unfolding run
phase_forward [] s = omega arith
phase_forward (e ∷ past) s = omega (arith, phase_forward past s, step_forward e (run past s))

-- The gate refuses a request exactly when its headers arrived in `closing` and it is no SSE request,
-- whatever has happened to the drain since; then it counts the rejection, and else changes nothing.
pub gate-mark_arrival :
    (retry : ℕ) (req : Request) (arrived : DrainState) (now : DrainState)
    → ((gate retry (mark_arrival arrived req) now
          ≡ (service_draining retry true, note_rejection now))
        × (arrived.current ≡ closing)
        × (req.is_sse ≡ false))
      ⊎ ((gate retry (mark_arrival arrived req) now ≡ (pass, now))
          × ((arrived.current ≡ closing) → req.is_sse ≡ true))
unfolding gate mark_arrival
gate-mark_arrival retry req arrived now = ground arith
