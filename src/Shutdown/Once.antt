-- ===== src/Shutdown/Once.antt =====
-- The stages only move on, and each effect happens once.
use acdp_control_plane.Prelude.{
  ℕ, suc, ◌+◌, ◌≤◌, ◌≡◌, refl, ap, ◌∙◌, subst, String, List, [], ◌∷◌, Bool, true, false, Option,
  arith, length, length-append, ◌==◌, if◌then◌else◌,
}
use acdp_control_plane.Drain.{DrainState, DrainPhase, serving, draining, closing}
use acdp_control_plane.Drain
use acdp_control_plane.Shutdown.{
  ShutdownDeps, Stage, idle, delaying, racing, flushing, exited, rejected, Process, new_process,
  Event, signalled, delay_elapsed, deadline_fired, reap_tick, close_settled, telemetry_settled,
  step_failed, connected, disconnected, start_close, begin_run, finish, force, on_close, exit,
  on_telemetry, on_tick, at_stage, step, run, when_working,
}

abbrev pub rank : Stage → ℕ
rank idle = 0
rank (delaying signal) = 1
rank racing = 2
rank (flushing failed) = 3
rank exited = 4
rank (rejected reaping) = 4

-- How often `close` has been called at a stage, and `exit`.
abbrev pub closes_at : Stage → ℕ
closes_at idle = 0
closes_at (delaying signal) = 0
closes_at _ = 1

abbrev pub exits_at : Stage → ℕ
exits_at exited = 1
exits_at _ = 0

-- The phase of the drain at a stage.
abbrev pub phase_at : Stage → DrainPhase
phase_at idle = serving
phase_at (delaying signal) = draining
phase_at _ = closing

abbrev StopsFit : Stage → ℕ → Type 0
StopsFit (flushing failed) n = n ≡ 1
StopsFit exited n = n ≡ 1
StopsFit (rejected reaping) n = n ≤ 1
StopsFit _ n = n ≡ 0

-- Each effect has happened as often as the stage says.
pub record IsOrderly (p : Process) : Type 0 where
  pub closed_once : length p.closes ≡ closes_at p.stage
  pub exited_once : length p.exits ≡ exits_at p.stage
  pub flushed_once : StopsFit p.stage p.telemetry_stops

-- The same at a stage that is known.
abbrev Fits : Stage → Process → Type 0
Fits s p =
    (length p.closes ≡ closes_at s) × (length p.exits ≡ exits_at s) × StopsFit s p.telemetry_stops

Fits-at : (s : Stage) (p : Process) → p.stage ≡ s → IsOrderly p → Fits s p
Fits-at s p at h = subst (λ t. Fits t p) at (h.closed_once, h.exited_once, h.flushed_once)

if-IsOrderly :
    (b : Bool) (p q : Process) → IsOrderly p → IsOrderly q → IsOrderly (if b then p else q)
if-IsOrderly true p q x y = x
if-IsOrderly false p q x y = y

-- A stage that waits for the same effects.
moved-IsOrderly :
    (s t : Stage) (p : Process)
    → Fits s p
    → closes_at s ≡ closes_at t
    → exits_at s ≡ exits_at t
    → StopsFit t p.telemetry_stops
    → IsOrderly (record p { stage = t })
moved-IsOrderly s t p (c, x, _) cs xs st = record {
  closed_once = c ∙ cs;
  exited_once = x ∙ xs;
  flushed_once = st;
}

rank_kept : (s : Stage) (p : Process) (t : Stage) → p.stage ≡ s → t ≡ p.stage → rank s ≤ rank t
rank_kept s p t at same = omega (arith, ap rank at, ap rank same)

module _ (deps : ShutdownDeps) where
  start_close-IsOrderly :
      (signal : Option String) (p : Process) → Fits idle p → IsOrderly (start_close deps signal p)
  unfolding start_close
  start_close-IsOrderly signal p (c, x, t) = record {
    closed_once = length-append p.closes _ ∙ ap (λ n. n + 1) c;
    exited_once = x;
    flushed_once = t;
  }

  finish-IsOrderly :
      (failed : Bool) (p : Process) → Fits racing p → IsOrderly (finish deps failed p)
  unfolding finish
  finish-IsOrderly failed p (c, x, t) = record {
    closed_once = c;
    exited_once = x;
    flushed_once = ap suc t;
  }

  exit-IsOrderly :
      (code : ℕ) (failed : Bool) (p : Process)
      → Fits (flushing failed) p
      → IsOrderly (exit deps code p)
  unfolding exit
  exit-IsOrderly code failed p (c, x, t) = record {
    closed_once = c;
    exited_once = length-append p.exits _ ∙ ap (λ n. n + 1) x;
    flushed_once = t;
  }

  on_tick-IsOrderly :
      (closed : Bool) (p : Process) → IsOrderly p → IsOrderly (on_tick deps closed p)
  unfolding on_tick
  on_tick-IsOrderly closed p h =
      if-IsOrderly _ _ p
        (record {
          closed_once = h.closed_once;
          exited_once = h.exited_once;
          flushed_once = h.flushed_once;
        })
        h

  at_stage-IsOrderly :
      (e : Event) (s : Stage) (p : Process)
      → p.stage ≡ s
      → IsOrderly p
      → IsOrderly (at_stage deps e s p)
  unfolding at_stage begin_run on_tick on_close on_telemetry force
  at_stage-IsOrderly (signalled signal) idle p at h =
      let fits = Fits-at idle p at h in
      let q = record p { drain = when_working deps.begin_drain Drain.begin p.drain } in
      if-IsOrderly (deps.drain_delay_ms == 0) _ _ (start_close-IsOrderly signal q fits)
        (moved-IsOrderly idle (delaying signal) q fits refl refl fits.2)
  at_stage-IsOrderly (signalled signal) (delaying first) p at h =
      start_close-IsOrderly first p (Fits-at (delaying first) p at h)
  at_stage-IsOrderly delay_elapsed (delaying first) p at h =
      start_close-IsOrderly first p (Fits-at (delaying first) p at h)
  at_stage-IsOrderly (reap_tick closed) racing p at h = on_tick-IsOrderly closed p h
  at_stage-IsOrderly (reap_tick closed) (rejected true) p at h = on_tick-IsOrderly closed p h
  at_stage-IsOrderly (close_settled true) racing p at h =
      finish-IsOrderly false p (Fits-at racing p at h)
  at_stage-IsOrderly (close_settled false) racing p at h =
      let fits = Fits-at racing p at h in
      if-IsOrderly deps.error_log_throws _ _
        (moved-IsOrderly racing (rejected true) p fits refl refl (omega (arith, fits.2)))
        (finish-IsOrderly true p fits)
  at_stage-IsOrderly deadline_fired racing p at h =
      finish-IsOrderly true (force deps p) (Fits-at racing p at h)
  at_stage-IsOrderly (telemetry_settled true) (flushing failed) p at h =
      exit-IsOrderly _ failed p (Fits-at (flushing failed) p at h)
  at_stage-IsOrderly (telemetry_settled false) (flushing failed) p at h =
      let fits = Fits-at (flushing failed) p at h in
      if-IsOrderly deps.error_log_throws _ _
        (moved-IsOrderly (flushing failed) (rejected false) p fits refl refl
          (omega (arith, fits.2)))
        (exit-IsOrderly 1 failed p fits)
  at_stage-IsOrderly (step_failed name) s p at h = record {
    closed_once = h.closed_once;
    exited_once = h.exited_once;
    flushed_once = h.flushed_once;
  }
  at_stage-IsOrderly connected s p at h = record {
    closed_once = h.closed_once;
    exited_once = h.exited_once;
    flushed_once = h.flushed_once;
  }
  at_stage-IsOrderly disconnected s p at h = record {
    closed_once = h.closed_once;
    exited_once = h.exited_once;
    flushed_once = h.flushed_once;
  }
  at_stage-IsOrderly e s p at h = h

  step-IsOrderly : (e : Event) (p : Process) → IsOrderly p → IsOrderly (step deps e p)
  unfolding step
  step-IsOrderly e p h = at_stage-IsOrderly e p.stage p refl h

  run-IsOrderly : (es : List Event) (p : Process) → IsOrderly p → IsOrderly (run deps es p)
  unfolding run
  run-IsOrderly [] p h = h
  run-IsOrderly (e ∷ es) p h = run-IsOrderly es (step deps e p) (step-IsOrderly e p h)

  tick_rank :
      (s : Stage) (closed : Bool) (p : Process)
      → p.stage ≡ s
      → rank s ≤ rank (on_tick deps closed p).stage
  unfolding on_tick
  tick_rank s closed p at = ground (arith, rank_kept s p p.stage at refl)

  -- In every history of a process, `close`, the flush of telemetry and `exit` happen at most once, and as
  -- often as its stage says.
  pub new-IsOrderly : (es : List Event) → IsOrderly (run deps es new_process)
  new-IsOrderly es =
      run-IsOrderly es new_process
        (record { closed_once = refl; exited_once = refl; flushed_once = refl })

  -- A stage is never left for an earlier one.
  pub at_stage-rank :
      (e : Event) (s : Stage) (p : Process)
      → p.stage ≡ s
      → rank s ≤ rank (at_stage deps e s p).stage
  unfolding at_stage begin_run start_close on_tick on_close on_telemetry force finish exit
  at_stage-rank (signalled signal) idle p at = omega arith
  at_stage-rank (signalled signal) (delaying first) p at = omega arith
  at_stage-rank delay_elapsed (delaying first) p at = omega arith
  at_stage-rank (close_settled true) racing p at = omega arith
  at_stage-rank (close_settled false) racing p at = ground arith
  at_stage-rank deadline_fired racing p at = omega arith
  at_stage-rank (telemetry_settled true) (flushing failed) p at = omega arith
  at_stage-rank (telemetry_settled false) (flushing failed) p at = ground arith
  at_stage-rank (reap_tick closed) racing p at = tick_rank racing closed p at
  at_stage-rank (reap_tick closed) (rejected true) p at = tick_rank (rejected true) closed p at
  at_stage-rank e s p at = rank_kept s p p.stage at refl
