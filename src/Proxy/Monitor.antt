-- ===== src/Proxy/Monitor.antt =====
-- runBackendHealthMonitor and closeBackendGate of pkg/proxy/proxy.go. A tick of the monitor is two
-- atomic sections with the probe between them.
pub mod Confirmation
use game_server_snooze.Common.{
  ℕ, ◌+◌, Bool, true, false, not, ◌&&◌, ◌||◌, ◌==◌, ltb, Option, none, some, List, [], ◌∷◌,
  if◌then◌else◌,
}
use game_server_snooze.Errors.{Error, backend_readiness_inconclusive}
use game_server_snooze.Proxy.{Proxy, next_generation, backend_health_failure_threshold}
use game_server_snooze.Proxy.Queue.{clear_queues}
use game_server_snooze.Proxy.AutoStop.{stop_auto_stop_timer_locked}
use game_server_snooze.Proxy.Startup.{close_all_sessions}

pub record BackendHealthFailures : Type 0 where
  pub generation : ℕ
  pub count : ℕ

abbrev pub reset : BackendHealthFailures
reset = record { generation = 0; count = 0 }

-- The count is that of the result.
unfoldable pub record_failure : ℕ → BackendHealthFailures → BackendHealthFailures
record_failure generation failures =
    if failures.generation == generation
    then record failures { count = failures.count + 1 }
    else record { generation = generation; count = 1 }

unfoldable pub close_backend_gate : ℕ → Proxy → Proxy
unfolding stop_auto_stop_timer_locked close_all_sessions
close_backend_gate generation proxy =
    if not proxy.backend_ready || not (proxy.readiness_generation == generation)
    then proxy
    else close_all_sessions (
        clear_queues (
          stop_auto_stop_timer_locked (record proxy {
            backend_ready = false;
            backend_running = false;
            readiness_generation = next_generation proxy.readiness_generation;
            stop_generation = next_generation proxy.stop_generation;
          })))

-- Before the probe: the generation to probe for, if the gate is open.
unfoldable pub monitor_begin : Proxy → BackendHealthFailures → Option ℕ × BackendHealthFailures
monitor_begin proxy failures =
    if proxy.backend_ready then (some proxy.readiness_generation, failures) else (none, reset)

-- After the probe for a generation, with its result.
unfoldable pub monitor_end :
    ℕ → Option Error → Proxy → BackendHealthFailures → Proxy × BackendHealthFailures
unfolding record_failure close_backend_gate
monitor_end generation result proxy failures =
    if proxy.canceled
    then (proxy, failures)
    else if not (proxy.backend_ready && proxy.readiness_generation == generation)
    then (proxy, reset)
    else elim result [
      | none ↦ (proxy, reset)
      | some e ↦
          if backend_readiness_inconclusive e
          then (proxy, reset)
          else (let recorded = record_failure generation failures in
              if ltb recorded.count backend_health_failure_threshold
              then (proxy, recorded)
              else (close_backend_gate generation proxy, reset))
    ]

-- A tick in which nothing else runs during the probe.
unfoldable pub monitor_tick :
    Option Error → Proxy × BackendHealthFailures → Proxy × BackendHealthFailures
unfolding monitor_begin monitor_end
monitor_tick result (proxy, failures) =
    if proxy.canceled
    then (proxy, failures)
    else (let (probed, failures') = monitor_begin proxy failures in
        elim probed [
          | none ↦ (proxy, failures')
          | some generation ↦ monitor_end generation result proxy failures'
        ])

unfoldable pub run_monitor :
    List (Option Error) → Proxy × BackendHealthFailures → Proxy × BackendHealthFailures
run_monitor [] s = s
run_monitor (result ∷ results) s = run_monitor results (monitor_tick result s)
