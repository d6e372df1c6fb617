-- ===== src/Shutdown/Exit.antt =====
-- Every run that its timers drive comes to `exit`, and the code it exits with.
use acdp_control_plane.Prelude.{
  ℕ, ◌≤◌, ◌≡◌, refl, ap, ◌∙◌, String, List, [], ◌∷◌, Bool, true, false, Option, arith, length,
}
use acdp_control_plane.Shutdown.{
  ShutdownDeps, Stage, idle, delaying, racing, flushing, exited, rejected, Process, new_process,
  Event, signalled, delay_elapsed, deadline_fired, reap_tick, close_settled, telemetry_settled,
  start_close, begin_run, finish, force, on_close, exit, on_telemetry, on_tick, at_stage, step, run,
}
use acdp_control_plane.Shutdown.Once.{rank, exits_at, new-IsOrderly, at_stage-rank}

-- A history in which the events that a run waits for come in their order, from the stage of a rank on,
-- among any others.
pub data Leads : ℕ → List Event → Type 0 where
  led : {es : List Event} → Leads 4 es
  other : {r : ℕ} {es : List Event} (e : Event) → Leads r es → Leads r (e ∷ es)
  by_signal :
      {es : List Event} (signal : Option String) → Leads 1 es → Leads 0 (signalled signal ∷ es)
  by_delay : {es : List Event} → Leads 2 es → Leads 1 (delay_elapsed ∷ es)
  by_close :
      {es : List Event} (succeeded : Bool) → Leads 3 es → Leads 2 (close_settled succeeded ∷ es)
  by_deadline : {es : List Event} → Leads 3 es → Leads 2 (deadline_fired ∷ es)
  by_telemetry :
      {es : List Event} (succeeded : Bool) → Leads 4 es → Leads 3 (telemetry_settled succeeded ∷ es)

module _ (deps : ShutdownDeps) where
  pushed_signal :
      (signal : Option String) (s : Stage) (p : Process)
      → p.stage ≡ s
      → 1 ≤ rank (at_stage deps (signalled signal) s p).stage
  unfolding at_stage begin_run start_close
  pushed_signal signal idle p at = ground arith
  pushed_signal signal (delaying first) p at = omega arith
  pushed_signal signal s p at = omega (arith, ap rank at)

  pushed_delay :
      (s : Stage) (p : Process)
      → p.stage ≡ s
      → 1 ≤ rank s
      → 2 ≤ rank (at_stage deps delay_elapsed s p).stage
  unfolding at_stage start_close
  pushed_delay idle p at r = omega (arith, r)
  pushed_delay (delaying first) p at r = omega arith
  pushed_delay s p at r = omega (arith, ap rank at)

  pushed_close :
      (succeeded : Bool) (s : Stage) (p : Process)
      → p.stage ≡ s
      → 2 ≤ rank s
      → 3 ≤ rank (at_stage deps (close_settled succeeded) s p).stage
  unfolding at_stage on_close finish
  pushed_close true racing p at r = omega arith
  pushed_close false racing p at r = ground arith
  pushed_close _ s p at r = omega (arith, ap rank at, r)

  pushed_deadline :
      (s : Stage) (p : Process)
      → p.stage ≡ s
      → 2 ≤ rank s
      → 3 ≤ rank (at_stage deps deadline_fired s p).stage
  unfolding at_stage force finish
  pushed_deadline racing p at r = omega arith
  pushed_deadline s p at r = omega (arith, ap rank at, r)

  pushed_telemetry :
      (succeeded : Bool) (s : Stage) (p : Process)
      → p.stage ≡ s
      → 3 ≤ rank s
      → 4 ≤ rank (at_stage deps (telemetry_settled succeeded) s p).stage
  unfolding at_stage on_telemetry exit
  pushed_telemetry true (flushing failed) p at r = omega arith
  pushed_telemetry false (flushing failed) p at r = ground arith
  pushed_telemetry _ s p at r = omega (arith, ap rank at, r)

  kept_end : (es : List Event) (p : Process) → 4 ≤ rank p.stage → 4 ≤ rank (run deps es p).stage
  unfolding run step
  kept_end [] p at = at
  kept_end (e ∷ es) p at =
      kept_end es (step deps e p) (omega (arith, at, at_stage-rank deps e p.stage p refl))

  Leads-to_end :
      (r : ℕ) (es : List Event) (p : Process)
      → Leads r es
      → r ≤ rank p.stage
      → 4 ≤ rank (run deps es p).stage
  unfolding run step
  Leads-to_end _ _ p (led {es = es}) at = kept_end es p at
  Leads-to_end _ _ p (other {r = r} {es = es} e l) at =
      Leads-to_end r es (step deps e p) l (omega (arith, at, at_stage-rank deps e p.stage p refl))
  Leads-to_end _ _ p (by_signal {es = es} signal l) at =
      Leads-to_end 1 es (step deps (signalled signal) p) l (pushed_signal signal p.stage p refl)
  Leads-to_end _ _ p (by_delay {es = es} l) at =
      Leads-to_end 2 es (step deps delay_elapsed p) l (pushed_delay p.stage p refl at)
  Leads-to_end _ _ p (by_close {es = es} succeeded l) at =
      Leads-to_end 3 es (step deps (close_settled succeeded) p) l
        (pushed_close succeeded p.stage p refl at)
  Leads-to_end _ _ p (by_deadline {es = es} l) at =
      Leads-to_end 3 es (step deps deadline_fired p) l (pushed_deadline p.stage p refl at)
  Leads-to_end _ _ p (by_telemetry {es = es} succeeded l) at =
      Leads-to_end 4 es (step deps (telemetry_settled succeeded) p) l
        (pushed_telemetry succeeded p.stage p refl at)

abbrev pub is_rejected : Stage → Bool
is_rejected (rejected reaping) = true
is_rejected _ = false

ended : (s : Stage) → is_rejected s ≡ false → 4 ≤ rank s → s ≡ exited
ended exited a r = refl
ended (rejected reaping) a r = ground (arith, a)
ended idle a r = ground (arith, r)
ended (delaying first) a r = ground (arith, r)
ended racing a r = ground (arith, r)
ended (flushing failed) a r = ground (arith, r)

module _ (deps : ShutdownDeps) (logs : deps.error_log_throws ≡ false) where
  at_stage_not_rejected :
      (e : Event) (s : Stage) (p : Process)
      → p.stage ≡ s
      → is_rejected s ≡ false
      → is_rejected (at_stage deps e s p).stage ≡ false
  unfolding at_stage begin_run start_close on_tick on_close on_telemetry force finish exit
  at_stage_not_rejected (signalled signal) idle p at a = ground arith
  at_stage_not_rejected (signalled signal) (delaying first) p at a = refl
  at_stage_not_rejected delay_elapsed (delaying first) p at a = refl
  at_stage_not_rejected (reap_tick closed) racing p at a = ground (arith, ap is_rejected at)
  at_stage_not_rejected (reap_tick closed) (rejected true) p at a = ground (arith, a)
  at_stage_not_rejected (close_settled true) racing p at a = refl
  at_stage_not_rejected (close_settled false) racing p at a = ground (arith, logs)
  at_stage_not_rejected deadline_fired racing p at a = refl
  at_stage_not_rejected (telemetry_settled true) (flushing failed) p at a = refl
  at_stage_not_rejected (telemetry_settled false) (flushing failed) p at a = ground (arith, logs)
  at_stage_not_rejected e s p at a = ap is_rejected at ∙ a

  run_not_rejected :
      (es : List Event) (p : Process)
      → is_rejected p.stage ≡ false
      → is_rejected (run deps es p).stage ≡ false
  unfolding run step
  run_not_rejected [] p a = a
  run_not_rejected (e ∷ es) p a =
      run_not_rejected es (step deps e p) (at_stage_not_rejected e p.stage p refl a)

  -- A history in which a signal, the end of the delay, the close or its deadline, and the flush of
  -- telemetry come in this order brings the process to `exit`, and it exits once, if the error log
  -- does not throw.
  pub run_exits :
      (es : List Event)
      → Leads 0 es
      → ((run deps es new_process).stage ≡ exited) × (length (run deps es new_process).exits ≡ 1)
  run_exits es l =
      let end =
        ended (run deps es new_process).stage (run_not_rejected es new_process refl)
          (Leads-to_end deps 0 es new_process l (omega arith)) in
      (end, (new-IsOrderly deps es).exited_once ∙ ap exits_at end)
