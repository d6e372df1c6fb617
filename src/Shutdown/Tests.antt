-- ===== src/Shutdown/Tests.antt =====
-- Runs of the handler at concrete histories.
use acdp_control_plane.Prelude.{
  ltb, not, ◌&&◌, if◌then◌else◌, ◌≡◌, refl, List, [], ◌∷◌, ◌++◌, true, false, none, some, length,
}
use acdp_control_plane.Drain
use acdp_control_plane.Drain.{
  begin_from, Request, mark_arrival, arrived_while_closing, pass, service_draining, note_rejection,
  gate,
}
use acdp_control_plane.Shutdown.Gate.{gate-run}
use acdp_control_plane.Shutdown.{
  ShutdownDeps, works, racing, exited, Process, new_process, Event, signalled, delay_elapsed,
  deadline_fired, reap_tick, close_settled, telemetry_settled, step_failed, connected, start_close,
  begin_run, finish, force, on_close, exit, on_telemetry, on_tick, at_stage, step, run,
  hook_failure, forced_connections, record_forced,
}
use acdp_control_plane.Shutdown.Once.{IsOrderly, new-IsOrderly}
use acdp_control_plane.Shutdown.Exit.{
  led, other, by_signal, by_delay, by_deadline, by_telemetry, run_exits,
}
use acdp_control_plane.Shutdown.Code.{exit_code, rejected_close_never_exits}

abbrev wired : ShutdownDeps
wired = record {
  begin_drain = works;
  begin_closing = works;
  listener_closed = works;
  reap_idle_connections = works;
  open_connections = works;
  record_forced_connections = works;
  force_close_connections = works;
  hook_failed = works;
  drain_delay_ms = 5000;
  error_log_throws = false;
}

abbrev noisy : ShutdownDeps
noisy = record wired { error_log_throws = true }

-- Two signals, a hung close, and the deadline.
abbrev hung : List Event
hung =
    connected
    ∷ signalled (some "SIGTERM")
    ∷ delay_elapsed
    ∷ reap_tick true
    ∷ signalled (some "SIGINT")
    ∷ deadline_fired
    ∷ telemetry_settled true
    ∷ []

hung_run :
    (run wired hung new_process).exits ≡ 1 ∷ []
    × (run wired hung new_process).forced ≡ 1 ∷ []
    × (run wired hung new_process).reaps ≡ 1
    × (run wired hung new_process).closes ≡ some "SIGTERM" ∷ []
unfolding run step at_stage begin_run start_close on_tick on_close on_telemetry force finish exit
    hook_failure forced_connections record_forced
hung_run = (refl, refl, refl, refl)

-- A second signal ends the delay.
abbrev twice : List Event
twice =
    signalled none
    ∷ signalled (some "SIGINT")
    ∷ step_failed "Pool"
    ∷ close_settled true
    ∷ telemetry_settled true
    ∷ []

twice_run : (run wired twice new_process).exits ≡ 1 ∷ []
unfolding run step at_stage begin_run start_close on_tick on_close on_telemetry force finish exit
    hook_failure
twice_run = refl

new-IsOrderly_example : IsOrderly (run wired hung new_process)
new-IsOrderly_example = new-IsOrderly wired hung

run_exits_example :
    ((run wired hung new_process).stage ≡ exited) × (length (run wired hung new_process).exits ≡ 1)
run_exits_example = run_exits wired refl hung (
    other connected (
      by_signal (some "SIGTERM") (
        by_delay (
          other (reap_tick true)
            (other (signalled (some "SIGINT")) (by_deadline (by_telemetry true led)))))))

abbrev mid_close : Process
mid_close = record new_process { stage = racing; closes = none ∷ [] }

exit_code_example :
    (run wired
      (step_failed "Pool" ∷ []
        ++ (close_settled true ∷ (connected ∷ [] ++ (telemetry_settled true ∷ []))))
      mid_close).exits
    ≡ 1 ∷ []
unfolding hook_failure
exit_code_example =
    exit_code wired (step_failed "Pool" ∷ []) (connected ∷ []) [] (close_settled true) true
      mid_close refl refl refl (refl, tt) refl (refl, tt)

rejected_close_never_exits_example :
    (run noisy
      (connected ∷ [] ++ (close_settled false ∷ (deadline_fired ∷ telemetry_settled true ∷ [])))
      mid_close).exits
    ≡ []
rejected_close_never_exits_example =
    rejected_close_never_exits noisy (connected ∷ []) (deadline_fired ∷ telemetry_settled true ∷ [])
      mid_close refl refl refl (refl, tt)

abbrev plain : Request
plain = record { arrival = none; is_sse = false }

gate-run_example :
    gate 5
      (mark_arrival (run wired hung new_process).drain plain)
      (run wired hung new_process).drain
    ≡ (if ltb 0 (length (run wired hung new_process).closes) && not plain.is_sse
        then (service_draining 5 true, note_rejection (run wired hung new_process).drain)
        else (pass, (run wired hung new_process).drain))
gate-run_example = gate-run wired refl refl hung 5 plain

-- In the hung run the gate refuses.
hung_refuses :
    (gate 5
      (mark_arrival (run wired hung new_process).drain plain)
      (run wired hung new_process).drain).0
    ≡ service_draining 5 true
unfolding run step at_stage begin_run start_close on_tick on_close on_telemetry force finish exit
    hook_failure forced_connections record_forced gate mark_arrival arrived_while_closing
    Drain.begin begin_from Drain.begin_closing
hung_refuses = refl
