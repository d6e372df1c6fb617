-- ===== src/Shutdown/Gate.antt =====
-- The handler, the drain and the gate together, wired as in src/bootstrap.ts.
use acdp_control_plane.Prelude.{
  ℕ, ◌≡◌, refl, ap, ◌∙◌, sym, List, [], ◌∷◌, Bool, true, false, arith, ltb, length, if◌then◌else◌,
  ◌&&◌, ◌||◌, not, ◌==◌, Option, String, some,
}
use acdp_control_plane.Drain.{
  DrainState, DrainPhase, serving, draining, closing, begin_from, is_closing, Request, mark_arrival,
  arrived_while_closing, GateOutcome, pass, service_draining, note_rejection, gate,
}
use acdp_control_plane.Drain
use acdp_control_plane.Shutdown.{
  Wiring, works, absent, throws, ShutdownDeps, Stage, idle, delaying, racing, flushing, exited,
  rejected, Process, new_process, Event, signalled, delay_elapsed, deadline_fired, reap_tick,
  close_settled, telemetry_settled, step_failed, connected, disconnected, when_working, start_close,
  begin_run, finish, force, on_close, exit, on_telemetry, on_tick, at_stage, step, run,
}
use acdp_control_plane.Shutdown.Once.{phase_at, closes_at, new-IsOrderly}

-- The drain is in the phase of the stage.
abbrev InPhase : Process → Type 0
InPhase p = p.drain.current ≡ phase_at p.stage

if-InPhase : (b : Bool) (p q : Process) → InPhase p → InPhase q → InPhase (if b then p else q)
if-InPhase true p q x y = x
if-InPhase false p q x y = y

begun_from : (c : DrainPhase) (s : DrainState) → c ≡ serving → (begin_from c s).current ≡ draining
unfolding begin_from
begun_from serving s h = refl
begun_from draining s h = absurd (ground (arith, h))
begun_from closing s h = absurd (ground (arith, h))

phase-begin : (s : DrainState) → s.current ≡ serving → (Drain.begin s).current ≡ draining
unfolding Drain.begin
phase-begin s h = begun_from s.current s h

phase-begin_closing : (s : DrainState) → (Drain.begin_closing s).current ≡ closing
unfolding Drain.begin_closing
phase-begin_closing s = refl

swapped {ℓ} :
    {A : Type ℓ} (b c : Bool) (x y : A)
    → (if not b || c then x else y) ≡ (if b && not c then y else x)
swapped true true x y = refl
swapped true false x y = refl
swapped false c x y = refl

module _ (deps : ShutdownDeps) (begins : deps.begin_drain ≡ works)
    (closes : deps.begin_closing ≡ works) where
  phase_of_working :
      (w : Wiring) (f : DrainState → DrainState) (s : DrainState)
      → w ≡ works
      → (when_working w f s).current ≡ (f s).current
  phase_of_working works f s e = refl
  phase_of_working absent f s e = absurd (ground (arith, e))
  phase_of_working throws f s e = absurd (ground (arith, e))

  start_close-InPhase : (signal : Option String) (p : Process) → InPhase (start_close deps signal p)
  unfolding start_close
  start_close-InPhase signal p =
      phase_of_working deps.begin_closing Drain.begin_closing p.drain closes
      ∙ phase-begin_closing p.drain

  at_stage-InPhase :
      (e : Event) (s : Stage) (p : Process)
      → p.stage ≡ s
      → InPhase p
      → InPhase (at_stage deps e s p)
  unfolding at_stage begin_run on_tick on_close on_telemetry force finish exit
  at_stage-InPhase (signalled signal) idle p at h =
      if-InPhase (deps.drain_delay_ms == 0) _ _
        (start_close-InPhase signal
          (record p { drain = when_working deps.begin_drain Drain.begin p.drain }))
        (phase_of_working deps.begin_drain Drain.begin p.drain begins
          ∙ phase-begin p.drain (h ∙ ap phase_at at))
  at_stage-InPhase (signalled signal) (delaying first) p at h = start_close-InPhase first p
  at_stage-InPhase delay_elapsed (delaying first) p at h = start_close-InPhase first p
  at_stage-InPhase (reap_tick closed) racing p at h = if-InPhase _ _ p h h
  at_stage-InPhase (reap_tick closed) (rejected true) p at h = if-InPhase _ _ p h h
  at_stage-InPhase (close_settled true) racing p at h = h ∙ ap phase_at at
  at_stage-InPhase (close_settled false) racing p at h =
      if-InPhase deps.error_log_throws _ _ (h ∙ ap phase_at at) (h ∙ ap phase_at at)
  at_stage-InPhase deadline_fired racing p at h = h ∙ ap phase_at at
  at_stage-InPhase (telemetry_settled true) (flushing failed) p at h = h ∙ ap phase_at at
  at_stage-InPhase (telemetry_settled false) (flushing failed) p at h =
      if-InPhase deps.error_log_throws _ _ (h ∙ ap phase_at at) (h ∙ ap phase_at at)
  at_stage-InPhase (step_failed name) s p at h = h
  at_stage-InPhase connected s p at h = h
  at_stage-InPhase disconnected s p at h = h
  at_stage-InPhase e s p at h = h

  run-InPhase : (es : List Event) (p : Process) → InPhase p → InPhase (run deps es p)
  unfolding run step
  run-InPhase [] p h = h
  run-InPhase (e ∷ es) p h = run-InPhase es (step deps e p) (at_stage-InPhase e p.stage p refl h)

  closed_phase : (s : Stage) → is_closing (some (phase_at s)) ≡ ltb 0 (closes_at s)
  closed_phase idle = refl
  closed_phase (delaying first) = refl
  closed_phase racing = refl
  closed_phase (flushing failed) = refl
  closed_phase exited = refl
  closed_phase (rejected reaping) = refl

  -- Where the drain is wired to the handler: after any history of a new process, a request that arrives
  -- is refused by the gate, and counted, exactly when the close has been called and it is no SSE
  -- request; else it passes.
  pub gate-run :
      (es : List Event) (retry_after : ℕ) (req : Request)
      → gate retry_after
          (mark_arrival (run deps es new_process).drain req)
          (run deps es new_process).drain
        ≡ (if ltb 0 (length (run deps es new_process).closes) && not req.is_sse
            then (service_draining retry_after true, note_rejection (run deps es new_process).drain)
            else (pass, (run deps es new_process).drain))
  unfolding gate mark_arrival arrived_while_closing
  gate-run es retry_after req =
      let p = run deps es new_process in
      let closing_now =
        ap (λ c. is_closing (some c)) (run-InPhase es new_process refl)
        ∙ closed_phase p.stage
        ∙ ap (ltb 0) (sym (new-IsOrderly deps es).closed_once) in
      ap
        (λ c.
          if not c || req.is_sse
          then (pass, p.drain)
          else (service_draining retry_after true, note_rejection p.drain))
        closing_now
      ∙ swapped (ltb 0 (length p.closes)) req.is_sse _ _
