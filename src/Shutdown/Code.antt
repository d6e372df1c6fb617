-- ===== src/Shutdown/Code.antt =====
-- The code a run exits with, and the run that an error log that throws leaves without one.
use acdp_control_plane.Prelude.{
  ◌≡◌, refl, ap, ◌∙◌, sym, subst, List, [], ◌∷◌, ◌++◌, Bool, true, false, arith, if◌then◌else◌,
  ◌&&◌, ◌||◌, not,
}
use acdp_control_plane.Shutdown.{
  ShutdownDeps, racing, flushing, exited, rejected, Process, Event, deadline_fired, close_settled,
  telemetry_settled, finish, force, on_close, exit, on_telemetry, at_stage, step, run, hook_failure,
}
use acdp_control_plane.Shutdown.Waiting.{
  ends_race, ends_flush, NoneOf, failed_steps, closed_well, NoneOf-false, code_lem, run_append,
  run_parts, run-Waits,
}

module _ (deps : ShutdownDeps) where
  at_race_end :
      (e : Event) (p : Process)
      → deps.error_log_throws ≡ false
      → ends_race e ≡ true
      → ((at_stage deps e racing p).stage
          ≡ flushing (not (closed_well e) || hook_failure deps.hook_failed p.failures))
        × ((at_stage deps e racing p).exits ≡ p.exits)
  unfolding at_stage on_close finish force
  at_race_end (close_settled true) p logs q = (refl, refl)
  at_race_end (close_settled false) p logs q = ground (arith, logs)
  at_race_end deadline_fired p logs q = (refl, refl)
  at_race_end e p logs q = ground (arith, q)

  at_lost_close :
      (p : Process)
      → deps.error_log_throws ≡ true
      → ((at_stage deps (close_settled false) racing p).stage ≡ rejected true)
        × ((at_stage deps (close_settled false) racing p).exits ≡ p.exits)
  unfolding at_stage on_close
  at_lost_close p throws_log = ground (arith, throws_log)

  at_flush_end :
      (flushed failed : Bool) (p : Process)
      → deps.error_log_throws ≡ false
      → ((at_stage deps (telemetry_settled flushed) (flushing failed) p).stage ≡ exited)
        × ((at_stage deps (telemetry_settled flushed) (flushing failed) p).exits
            ≡ p.exits ++ (if failed || not flushed then 1 else 0) ∷ [])
  unfolding at_stage on_telemetry exit
  at_flush_end true true p logs = (refl, refl)
  at_flush_end true false p logs = (refl, refl)
  at_flush_end false true p logs = ground (arith, logs)
  at_flush_end false false p logs = ground (arith, logs)

  -- The end of the race, and the end of the flush.
  race_end :
      (e : Event) (p : Process)
      → deps.error_log_throws ≡ false
      → p.stage ≡ racing
      → ends_race e ≡ true
      → ((step deps e p).stage
          ≡ flushing (not (closed_well e) || hook_failure deps.hook_failed p.failures))
        × ((step deps e p).exits ≡ p.exits)
  unfolding step
  race_end e p logs at q =
      subst
        (λ s.
          ((at_stage deps e s p).stage
            ≡ flushing (not (closed_well e) || hook_failure deps.hook_failed p.failures))
          × ((at_stage deps e s p).exits ≡ p.exits))
        (sym at) (at_race_end e p logs q)

  flush_end :
      (flushed failed : Bool) (p : Process)
      → deps.error_log_throws ≡ false
      → p.stage ≡ flushing failed
      → ((step deps (telemetry_settled flushed) p).stage ≡ exited)
        × ((step deps (telemetry_settled flushed) p).exits
            ≡ p.exits ++ (if failed || not flushed then 1 else 0) ∷ [])
  unfolding step
  flush_end flushed failed p logs at =
      subst
        (λ s.
          ((at_stage deps (telemetry_settled flushed) s p).stage ≡ exited)
          × ((at_stage deps (telemetry_settled flushed) s p).exits
              ≡ p.exits ++ (if failed || not flushed then 1 else 0) ∷ []))
        (sym at) (at_flush_end flushed failed p logs)

  -- With an error log that does not throw: the run exits once, with 0 if the close succeeded in time,
  -- no hook had failed when it ended, and the telemetry was flushed, and with 1 if not, whatever else
  -- happens between and after.
  pub exit_code :
      (before between after : List Event) (e : Event) (flushed : Bool) (p : Process)
      → deps.error_log_throws ≡ false
      → p.stage ≡ racing
      → p.exits ≡ []
      → NoneOf ends_race before
      → ends_race e ≡ true
      → NoneOf ends_flush between
      → (run deps (before ++ (e ∷ (between ++ (telemetry_settled flushed ∷ after)))) p).exits
        ≡ (if closed_well e
              && not (hook_failure deps.hook_failed (p.failures ++ failed_steps before))
              && flushed
            then 0
            else 1)
          ∷ []
  exit_code before between after e flushed p logs at fresh quiet closes calm =
      let q = run deps before p in
      let r = run deps between (step deps e q) in
      let failed = not (closed_well e) || hook_failure deps.hook_failed q.failures in
      let raced = run-Waits deps before racing p at quiet in
      let closed = race_end e q logs raced.0 closes in
      let waited = run-Waits deps between (flushing failed) (step deps e q) closed.0 calm in
      let left = flush_end flushed failed r logs waited.0 in
      let stayed =
        run-Waits deps after exited (step deps (telemetry_settled flushed) r) left.0
          (NoneOf-false after) in
      ap (λ s. s.exits) (run_parts deps before between after e flushed p)
      ∙ stayed.2
      ∙ left.1
      ∙ ap (λ codes. codes ++ (if failed || not flushed then 1 else 0) ∷ [])
          (waited.2 ∙ closed.1 ∙ raced.2 ∙ fresh)
      ∙ ap (λ code. code ∷ [])
          (code_lem (closed_well e) (hook_failure deps.hook_failed q.failures) flushed
            ∙ ap
                (λ names.
                  if closed_well e && not (hook_failure deps.hook_failed names) && flushed
                  then 0
                  else 1)
                raced.1)

  run_cons :
      (e : Event) (es : List Event) (p : Process)
      → run deps (e ∷ es) p ≡ run deps es (step deps e p)
  unfolding run
  run_cons e es p = refl

  lost_close :
      (p : Process)
      → deps.error_log_throws ≡ true
      → p.stage ≡ racing
      → ((step deps (close_settled false) p).stage ≡ rejected true)
        × ((step deps (close_settled false) p).exits ≡ p.exits)
  unfolding step
  lost_close p throws_log at =
      subst
        (λ s.
          ((at_stage deps (close_settled false) s p).stage ≡ rejected true)
          × ((at_stage deps (close_settled false) s p).exits ≡ p.exits))
        (sym at) (at_lost_close p throws_log)

  -- With an error log that throws: once the close has rejected in the race, nothing that follows makes
  -- the process exit.
  pub rejected_close_never_exits :
      (before after : List Event) (p : Process)
      → deps.error_log_throws ≡ true
      → p.stage ≡ racing
      → p.exits ≡ []
      → NoneOf ends_race before
      → (run deps (before ++ (close_settled false ∷ after)) p).exits ≡ []
  rejected_close_never_exits before after p throws_log at fresh quiet =
      let q = run deps before p in
      let raced = run-Waits deps before racing p at quiet in
      let lost = lost_close q throws_log raced.0 in
      ap (λ s. s.exits)
        (run_append deps before (close_settled false ∷ after) p
          ∙ run_cons (close_settled false) after q)
      ∙ (run-Waits deps after (rejected true) (step deps (close_settled false) q) lost.0
          (NoneOf-false after)).2
      ∙ lost.1
      ∙ raced.2
      ∙ fresh
