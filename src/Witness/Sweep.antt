-- ===== src/Witness/Sweep.antt =====
-- A sweep is a history of passes, so what holds of every history holds of it.
use acdp_control_plane.Prelude.{suc, ◌≡◌, refl, ap, List, [], ◌∷◌, true, length}
use acdp_control_plane.Witness.Store.{World}
use acdp_control_plane.Witness.Quorum.{Host, WitnessConfig}
use acdp_control_plane.Witness.Pass.{Answers, RegistryEnrollment, guarded_pass, sweep_all, sweep}
use acdp_control_plane.Witness.History.{Event, passed, step, run}

-- The passes over these registries after a history, latest first.
unfoldable pub passes_after : List (RegistryEnrollment × Answers) → List Event → List Event
passes_after [] past = past
passes_after ((e, answers) ∷ rest) past = passes_after rest (passed e answers ∷ past)

module _ (host : Host) (config : WitnessConfig) where
  sweep_all-run :
      (es : List (RegistryEnrollment × Answers)) (past : List Event) (w : World)
      → (sweep_all host config es (run host config past w)).1
        ≡ run host config (passes_after es past) w
  unfolding sweep_all passes_after run step
  sweep_all-run [] past w = refl
  sweep_all-run ((e, answers) ∷ rest) past w = sweep_all-run rest (passed e answers ∷ past) w

  length-sweep_all :
      (es : List (RegistryEnrollment × Answers)) (w : World)
      → length (sweep_all host config es w).0 ≡ length es
  unfolding sweep_all
  length-sweep_all [] w = refl
  length-sweep_all ((e, answers) ∷ rest) w = ap suc (
      length-sweep_all rest
        (guarded_pass host config answers e.tenant_id e.authority e.base_url w).1)

  -- A sweep that has the lock passes over every registry once, in the order of the list, whatever any
  -- of the passes meets: it reports an outcome for each, and its world is that after the history of
  -- these passes.
  pub sweep-run :
      (es : List (RegistryEnrollment × Answers)) (past : List Event) (w : World)
      → (length (sweep host config true es (run host config past w)).0 ≡ length es)
        × ((sweep host config true es (run host config past w)).1
            ≡ run host config (passes_after es past) w)
  unfolding sweep
  sweep-run es past w = (length-sweep_all es (run host config past w), sweep_all-run es past w)
