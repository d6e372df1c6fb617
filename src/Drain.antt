-- ===== src/Drain.antt =====
-- The shutdown drain (src/shutdown-drain.ts), the gate before the guards
-- (src/middleware/drain-gate.middleware.ts).
pub mod Monotone
use acdp_control_plane.Prelude.{
  ℕ, suc, Bool, true, false, ◌||◌, not, Option, none, some, if◌then◌else◌,
}

pub data DrainPhase : Type 0 where
  serving draining closing : DrainPhase

-- `emitted` counts what the subject has emitted, and `completed` says whether it has completed.
pub record DrainState : Type 0 where
  pub emitted : ℕ
  pub completed : Bool
  pub current : DrainPhase
  pub sse_streams_terminated : ℕ
  pub drain_rejections : ℕ

abbrev pub initial : DrainState
initial = record {
  emitted = 0;
  completed = false;
  current = serving;
  sse_streams_terminated = 0;
  drain_rejections = 0;
}

unfoldable pub begin_from : DrainPhase → DrainState → DrainState
begin_from serving s = record s { current = draining; emitted = suc s.emitted; completed = true }
begin_from _ s = s

unfoldable pub begin : DrainState → DrainState
unfolding begin_from
begin s = begin_from s.current s

unfoldable pub begin_closing : DrainState → DrainState
unfolding begin
begin_closing s = record (begin s) { current = closing }

unfoldable pub is_draining : DrainState → Bool
is_draining s = elim s.current [ serving ↦ false | _ ↦ true ]

unfoldable pub note_sse_termination : DrainState → DrainState
note_sse_termination s = record s { sse_streams_terminated = suc s.sse_streams_terminated }

unfoldable pub note_rejection : DrainState → DrainState
note_rejection s = record s { drain_rejections = suc s.drain_rejections }

-- A request: the mark of `createDrainArrivalMarker`, and whether it is a GET on an SSE route.
pub record Request : Type 0 where
  pub arrival : Option DrainPhase
  pub is_sse : Bool

unfoldable pub mark_arrival : DrainState → Request → Request
mark_arrival s req = record req { arrival = some s.current }

abbrev pub is_closing : Option DrainPhase → Bool
is_closing (some closing) = true
is_closing _ = false

unfoldable pub arrived_while_closing : Request → Bool
arrived_while_closing req = is_closing req.arrival

-- `next()`, or the 503 with its two headers.
pub data GateOutcome : Type 0 where
  pass : GateOutcome
  service_draining : (retry_after : ℕ) → (connection_close : Bool) → GateOutcome

-- `DrainGateMiddleware.use`; the metric is the tally of the state.
unfoldable pub gate : ℕ → Request → DrainState → GateOutcome × DrainState
unfolding arrived_while_closing note_rejection
gate retry_after req s =
    if not (arrived_while_closing req) || req.is_sse
    then (pass, s)
    else (service_draining retry_after true, note_rejection s)
