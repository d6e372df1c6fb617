-- ===== src/Shutdown.antt =====
-- The handler of shutdown signals (src/shutdown.ts) with the collector of failed teardown steps
-- (src/shutdown-failures.ts) and the drain that src/bootstrap.ts wires to it. What the handler waits
-- for arrives as an event; `unref`, log lines and the tallies of the summary are left out.
mod Tests
pub mod Once
pub mod Exit
pub mod Waiting
pub mod Gate
pub mod Code
use acdp_control_plane.Prelude.{
  ℕ, suc, ◌-◌, String, List, [], ◌∷◌, ◌++◌, Bool, true, false, ◌||◌, ◌&&◌, not, Option, none, some,
  ◌==◌, if◌then◌else◌,
}
use acdp_control_plane.Drain.{DrainState, initial}
use acdp_control_plane.Drain

-- An optional dependency: missing, working, or throwing when it is called.
pub data Wiring : Type 0 where
  absent works throws : Wiring

pub record ShutdownDeps : Type 0 where
  pub begin_drain : Wiring
  pub begin_closing : Wiring
  pub listener_closed : Wiring
  pub reap_idle_connections : Wiring
  pub open_connections : Wiring
  pub record_forced_connections : Wiring
  pub force_close_connections : Wiring
  pub hook_failed : Wiring
  pub drain_delay_ms : ℕ
  pub error_log_throws : Bool

-- Where the handler stands: before the first signal, in the drain delay, in the race of the close
-- against its deadline, in the flush of telemetry, past `exit`, or with a rejected promise, and then
-- whether the interval of the reaper still runs.
pub data Stage : Type 0 where
  idle : Stage
  delaying : Option String → Stage
  racing : Stage
  flushing : (failed : Bool) → Stage
  exited : Stage
  rejected : (reaping : Bool) → Stage

pub record Process : Type 0 where
  pub stage : Stage
  pub drain : DrainState
  pub failures : List String
  pub open_sockets : ℕ
  pub closes : List (Option String)
  pub reaps : ℕ
  pub forced : List ℕ
  pub sockets_cut : Bool
  pub telemetry_stops : ℕ
  pub exits : List ℕ

abbrev pub new_process : Process
new_process = record {
  stage = idle;
  drain = initial;
  failures = [];
  open_sockets = 0;
  closes = [];
  reaps = 0;
  forced = [];
  sockets_cut = false;
  telemetry_stops = 0;
  exits = [];
}

-- A signal; the end of the delay; a tick of the reaper, with whether the listener is closed; the close
-- and the flush of telemetry with their success; the deadline; and what happens around the handler.
pub data Event : Type 0 where
  signalled : Option String → Event
  delay_elapsed deadline_fired : Event
  reap_tick : (listener_closed : Bool) → Event
  close_settled telemetry_settled : (succeeded : Bool) → Event
  step_failed : String → Event
  connected disconnected : Event

-- `ShutdownFailures.record` and `any`
abbrev pub record_failure : String → Process → Process
record_failure name p = record p { failures = p.failures ++ name ∷ [] }

abbrev pub any_failure : List String → Bool
any_failure [] = false
any_failure (name ∷ names) = true

-- A hook that failed inside `close`, or that could not be asked for.
unfoldable pub hook_failure : Wiring → List String → Bool
hook_failure absent names = false
hook_failure works names = any_failure names
hook_failure throws names = true

abbrev pub when_working : Wiring → (DrainState → DrainState) → DrainState → DrainState
when_working works f s = f s
when_working _ f s = s

-- The number of sockets that are cut, and `none` for `null`.
unfoldable pub forced_connections : Wiring → ℕ → Option ℕ
forced_connections works sockets = some sockets
forced_connections _ sockets = none

unfoldable pub record_forced : Wiring → Option ℕ → List ℕ → List ℕ
record_forced works (some n) counts = counts ++ n ∷ []
record_forced _ _ counts = counts

abbrev is_working : Wiring → Bool
is_working works = true
is_working _ = false

module _ (deps : ShutdownDeps) where
  -- The phase `closing`, and the call of `close`.
  unfoldable pub start_close : Option String → Process → Process
  start_close signal p = record p {
    stage = racing;
    drain = when_working deps.begin_closing Drain.begin_closing p.drain;
    closes = p.closes ++ signal ∷ [];
  }

  -- The first signal.
  unfoldable pub begin_run : Option String → Process → Process
  unfolding start_close
  begin_run signal p =
      let q = record p { drain = when_working deps.begin_drain Drain.begin p.drain } in
      if deps.drain_delay_ms == 0
      then start_close signal q
      else record q { stage = delaying signal }

  -- From the end of the race to the call of `stopTelemetry`.
  unfoldable pub finish : Bool → Process → Process
  unfolding hook_failure
  finish failed p = record p {
    stage = flushing (failed || hook_failure deps.hook_failed p.failures);
    telemetry_stops = suc p.telemetry_stops;
  }

  -- The forced path.
  unfoldable pub force : Process → Process
  unfolding forced_connections record_forced
  force p = record p {
    forced =
        record_forced deps.record_forced_connections
          (forced_connections deps.open_connections p.open_sockets) p.forced;
    sockets_cut = p.sockets_cut || is_working deps.force_close_connections;
  }

  -- `catch` around `close`, whose `logger.error` is not contained.
  unfoldable pub on_close : Bool → Process → Process
  unfolding finish
  on_close true p = finish false p
  on_close false p =
      if deps.error_log_throws then record p { stage = rejected true } else finish true p

  unfoldable pub exit : ℕ → Process → Process
  exit code p = record p { stage = exited; exits = p.exits ++ code ∷ [] }

  -- `catch` around `stopTelemetry`, whose `logger.error` is not contained.
  unfoldable pub on_telemetry : Bool → Bool → Process → Process
  unfolding exit
  on_telemetry failed true p = exit (if failed then 1 else 0) p
  on_telemetry failed false p =
      if deps.error_log_throws then record p { stage = rejected false } else exit 1 p

  -- Each tick of the interval, which the handler clears when the race has resolved.
  unfoldable pub on_tick : Bool → Process → Process
  on_tick closed p =
      if is_working deps.reap_idle_connections && is_working deps.listener_closed && closed
      then record p { reaps = suc p.reaps }
      else p

  -- What an event does at a stage that waits for it; else it does nothing.
  unfoldable pub at_stage : Event → Stage → Process → Process
  unfolding begin_run start_close on_tick on_close on_telemetry force finish
  at_stage (signalled signal) idle p = begin_run signal p
  at_stage (signalled again) (delaying signal) p = start_close signal p
  at_stage delay_elapsed (delaying signal) p = start_close signal p
  at_stage (reap_tick closed) racing p = on_tick closed p
  at_stage (reap_tick closed) (rejected true) p = on_tick closed p
  at_stage (close_settled succeeded) racing p = on_close succeeded p
  at_stage deadline_fired racing p = finish true (force p)
  at_stage (telemetry_settled succeeded) (flushing failed) p = on_telemetry failed succeeded p
  at_stage (step_failed name) _ p = record_failure name p
  at_stage connected _ p = record p { open_sockets = suc p.open_sockets }
  at_stage disconnected _ p = record p { open_sockets = p.open_sockets - 1 }
  at_stage _ _ p = p

  unfoldable pub step : Event → Process → Process
  unfolding at_stage
  step e p = at_stage e p.stage p

  -- A history, first event first.
  unfoldable pub run : List Event → Process → Process
  unfolding step
  run [] p = p
  run (e ∷ es) p = run es (step e p)
