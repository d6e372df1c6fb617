-- ===== src/Shutdown/Waiting.antt =====
-- What waits in the race, in the flush of telemetry, and past the end of a run.
use mathlib.Core.List.{append-nil, append_assoc}
use mathlib.Core.Bool.{true≢false}
use acdp_control_plane.Prelude.{
  ℕ, ◌≡◌, refl, ap, ◌∙◌, sym, subst, String, List, [], ◌∷◌, ◌++◌, Bool, true, false, if◌then◌else◌,
  ◌&&◌, ◌||◌, not,
}
use acdp_control_plane.Shutdown.{
  ShutdownDeps, Stage, idle, delaying, racing, flushing, exited, rejected, Process, Event,
  deadline_fired, reap_tick, close_settled, telemetry_settled, step_failed, connected, disconnected,
  on_tick, at_stage, step, run,
}

-- The events that end the race, and those that end the flush of telemetry.
abbrev pub ends_race : Event → Bool
ends_race (close_settled succeeded) = true
ends_race deadline_fired = true
ends_race _ = false

abbrev pub ends_flush : Event → Bool
ends_flush (telemetry_settled succeeded) = true
ends_flush _ = false

-- No event of a history passes the test.
abbrev pub NoneOf : (Event → Bool) → List Event → Type 0
NoneOf test [] = Unit
NoneOf test (e ∷ es) = (test e ≡ false) × NoneOf test es

-- The names that the teardown steps of a history fail with.
abbrev pub failed_steps : List Event → List String
failed_steps [] = []
failed_steps (step_failed name ∷ es) = name ∷ failed_steps es
failed_steps (e ∷ es) = failed_steps es

-- Whether the close itself, which an event ends, succeeded.
abbrev pub closed_well : Event → Bool
closed_well (close_settled succeeded) = succeeded
closed_well _ = false

-- The events that a stage ends with. `exit` and a rejection end with none.
abbrev pub ends : Stage → Event → Bool
ends racing = ends_race
ends (flushing failed) = ends_flush
ends exited = λ e. false
ends (rejected reaping) = λ e. false
ends _ = λ e. true

-- From one process to another, with the names recorded between, the stage and the exits stay.
abbrev pub Waits : Stage → List String → Process → Process → Type 0
Waits t names p q = (q.stage ≡ t) × (q.failures ≡ p.failures ++ names) × (q.exits ≡ p.exits)

pub failed_steps-cons :
    (e : Event) (es : List Event) → failed_steps (e ∷ es) ≡ failed_steps (e ∷ []) ++ failed_steps es
failed_steps-cons (step_failed name) es = refl
failed_steps-cons e es = refl

pub then-Waits :
    (t : Stage) (xs ys : List String) (p q r : Process)
    → Waits t xs p q
    → Waits t ys q r
    → Waits t (xs ++ ys) p r
then-Waits t xs ys p q r (_, names, codes) (at, more, same) =
    (at, more ∙ ap (λ ns. ns ++ ys) names ∙ append_assoc p.failures xs ys, same ∙ codes)

pub if-Waits :
    (b : Bool) (t : Stage) (names : List String) (p q r : Process)
    → Waits t names p q
    → Waits t names p r
    → Waits t names p (if b then q else r)
if-Waits true t names p q r x y = x
if-Waits false t names p q r x y = y

pub NoneOf-false : (es : List Event) → NoneOf (λ e. false) es
NoneOf-false [] = tt
NoneOf-false (e ∷ es) = (refl, NoneOf-false es)

pub code_lem :
    (closed hook flushed : Bool)
    → ◌≡◌ {A = ℕ}
        (if (not closed || hook) || not flushed then 1 else 0)
        (if closed && not hook && flushed then 0 else 1)
code_lem true true flushed = refl
code_lem true false true = refl
code_lem true false false = refl
code_lem false hook flushed = refl

module _ (deps : ShutdownDeps) where
  pub run_append :
      (xs ys : List Event) (p : Process) → run deps (xs ++ ys) p ≡ run deps ys (run deps xs p)
  unfolding run
  run_append [] ys p = refl
  run_append (x ∷ xs) ys p = run_append xs ys (step deps x p)

  pub run_parts :
      (before between after : List Event) (e : Event) (flushed : Bool) (p : Process)
      → run deps (before ++ (e ∷ (between ++ (telemetry_settled flushed ∷ after)))) p
        ≡ run deps after (
            step deps
              (telemetry_settled flushed)
              (run deps between (step deps e (run deps before p))))
  unfolding run
  run_parts before between after e flushed p =
      run_append before (e ∷ (between ++ (telemetry_settled flushed ∷ after))) p
      ∙ run_append between (telemetry_settled flushed ∷ after) (step deps e (run deps before p))

  on_tick-Waits :
      (closed : Bool) (t : Stage) (p : Process) → p.stage ≡ t → Waits t [] p (on_tick deps closed p)
  unfolding on_tick
  on_tick-Waits closed t p at =
      if-Waits _ t [] p _ p (at, sym (append-nil p.failures), refl)
        (at, sym (append-nil p.failures), refl)

  at_stage-Waits :
      (e : Event) (t : Stage) (p : Process)
      → p.stage ≡ t
      → ends t e ≡ false
      → Waits t (failed_steps (e ∷ [])) p (at_stage deps e t p)
  unfolding at_stage
  at_stage-Waits (reap_tick closed) racing p at q = on_tick-Waits closed racing p at
  at_stage-Waits (reap_tick closed) (rejected true) p at q =
      on_tick-Waits closed (rejected true) p at
  at_stage-Waits (step_failed name) t p at q = (at, refl, refl)
  at_stage-Waits connected t p at q = (at, sym (append-nil p.failures), refl)
  at_stage-Waits disconnected t p at q = (at, sym (append-nil p.failures), refl)
  at_stage-Waits e idle p at q = elim (true≢false q) [ ]
  at_stage-Waits e (delaying first) p at q = elim (true≢false q) [ ]
  at_stage-Waits (close_settled succeeded) racing p at q = elim (true≢false q) [ ]
  at_stage-Waits deadline_fired racing p at q = elim (true≢false q) [ ]
  at_stage-Waits e racing p at q = (at, sym (append-nil p.failures), refl)
  at_stage-Waits (telemetry_settled succeeded) (flushing failed) p at q = elim (true≢false q) [ ]
  at_stage-Waits e (flushing failed) p at q = (at, sym (append-nil p.failures), refl)
  at_stage-Waits e exited p at q = (at, sym (append-nil p.failures), refl)
  at_stage-Waits e (rejected reaping) p at q = (at, sym (append-nil p.failures), refl)

  pub run-Waits :
      (es : List Event) (t : Stage) (p : Process)
      → p.stage ≡ t
      → NoneOf (ends t) es
      → Waits t (failed_steps es) p (run deps es p)
  unfolding run step
  run-Waits [] t p at q = (at, sym (append-nil p.failures), refl)
  run-Waits (e ∷ es) t p at (q, rest) =
      let first =
        subst (λ s. Waits t (failed_steps (e ∷ [])) p (at_stage deps e s p)) (sym at)
          (at_stage-Waits e t p at q) in
      subst (λ names. Waits t names p (run deps es (step deps e p))) (sym (failed_steps-cons e es))
        (then-Waits t (failed_steps (e ∷ [])) (failed_steps es) p (step deps e p)
          (run deps es (step deps e p)) first (run-Waits es t (step deps e p) first.0 rest))
