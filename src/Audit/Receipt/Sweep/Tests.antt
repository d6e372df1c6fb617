-- ===== src/Audit/Receipt/Sweep/Tests.antt =====
-- Three sweeps of an event, the last of them without the lock.
use acdp_control_plane.Prelude.{ℕ, ◌≡◌, ◌-◌, refl, String, [], ◌∷◌, Bool, true, false, leb, arith}
use acdp_control_plane.Audit.Receipt.{ContextEvent}
use acdp_control_plane.Audit.Receipt.Sweep.{has_audit, hour_ms}
use acdp_control_plane.Audit.Receipt.Sweep.Missing.{head_is, no_events, and_event}
use acdp_control_plane.Audit.Receipt.Sweep.Reach.{
  Sweep, run_sweeps, IsInReach, enough, other, in_reach, run_sweeps_reach,
}
use acdp_control_plane.Audit.Receipt.Tests.{event, policy, up}

abbrev later_event : ContextEvent
later_event = record event { id = "2" }

abbrev sweep_at : ℕ → Bool → Sweep
sweep_at now acquired = record {
  host = up;
  policy = policy;
  acquired = acquired;
  now_ms = now;
  published = event ∷ later_event ∷ [];
}

-- The two events have arrived at 1000.
abbrev is_after : String → ℕ → Bool
is_after created since = leb since 999

reached :
    (now : ℕ)
    → leb hour_ms now ≡ true
    → is_after later_event.created_at (now - hour_ms) ≡ true
    → IsInReach is_after 1 ("1" ∷ []) later_event (sweep_at now true)
reached now late recent = record {
  before = event ∷ [];
  after = [];
  has_lock = refl;
  has_cutoff = ground (arith, late);
  in_window = recent;
  order = refl;
  early = and_event head_is no_events;
}

-- Two sweeps with room for one event each reach the later of two events.
run_sweeps_reach_example :
    has_audit "2" (
      run_sweeps is_after 1 1
        (sweep_at 3600500 true ∷ sweep_at 3600600 false ∷ sweep_at 3600900 true ∷ [])
        [])
    ≡ true
run_sweeps_reach_example =
    run_sweeps_reach is_after 1 1 ("1" ∷ []) later_event
      (sweep_at 3600500 true ∷ sweep_at 3600600 false ∷ sweep_at 3600900 true ∷ []) []
      (ground arith)
      (in_reach (reached 3600500 refl refl) (other (in_reach (reached 3600900 refl refl) enough)))
