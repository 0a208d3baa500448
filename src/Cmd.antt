-- ===== src/Cmd.antt =====
-- cmd/main.go: how run builds the parts of the program from the configuration.
pub mod Startup
pub mod HealthCheck
pub mod Main
pub mod Run
mod Tests
use game_server_snooze.Common.{String, Bool, true, false, Option, none, some, str_eq, if◌then◌else◌}
use game_server_snooze.Common.Int.{pos}
use game_server_snooze.Errors.{plain}
use game_server_snooze.Session.{Result, ok, err}
use game_server_snooze.Library.{Library, Address}
use game_server_snooze.Config.{Config}
use game_server_snooze.Games.{PalworldGame, new_configured_palworld_game}
use game_server_snooze.Proxy.{Options}
use game_server_snooze.Readiness.{PterodactylProbe, new_pterodactyl_probe}
use game_server_snooze.Readiness.A2s.{A2sProbe, new_a2s_probe}

unfoldable pub new_palworld_detector : Library → Config → Result PalworldGame
unfolding new_configured_palworld_game
new_palworld_detector library cfg = new_configured_palworld_game library (record {
  wake_policy = cfg.wake_policy;
  signatures = cfg.wake_signatures;
  log_unmatched_prefixes = cfg.log_unmatched_prefixes;
  diagnostic_prefix_bytes = cfg.diagnostic_prefix_bytes;
  diagnostic_interval = pos 0;
})

-- The nil interface of the mode `delay`, or one of the probes.
pub data BackendReadiness : Type 0 where
  no_readiness : BackendReadiness
  pterodactyl_readiness : PterodactylProbe → BackendReadiness
  a2s_readiness : A2sProbe → BackendReadiness

unfoldable pub new_backend_readiness : Library → Config → Address → Bool → Result BackendReadiness
unfolding new_pterodactyl_probe new_a2s_probe
new_backend_readiness library cfg backend has_controller =
    if str_eq cfg.backend_readiness_mode "delay"
    then ok no_readiness
    else if str_eq cfg.backend_readiness_mode "pterodactyl"
    then (elim (new_pterodactyl_probe has_controller cfg.startup_poll_interval) [
      | err e ↦ err e
      | ok probe ↦ ok (pterodactyl_readiness probe)
    ])
    else if str_eq cfg.backend_readiness_mode "a2s"
    then (let address =
          if str_eq cfg.backend_readiness_addr ""
          then library.join_host_port backend.ip "27015"
          else cfg.backend_readiness_addr in
        elim (new_a2s_probe library address cfg.startup_poll_interval) [
          | err e ↦ err e
          | ok probe ↦ ok (a2s_readiness probe)
        ])
    else err (plain "unsupported backend readiness mode")

abbrev pub has_probe : BackendReadiness → Bool
has_probe no_readiness = false
has_probe _ = true

-- The listener, the backend address, the controller and the detector are there: run has returned
-- otherwise. The options that it does not set are zero.
unfoldable pub proxy_options_from_config : Config → BackendReadiness → Options
proxy_options_from_config cfg readiness = record {
  has_listener = true;
  has_backend_addr = true;
  has_controller = true;
  has_detector = true;
  has_readiness = has_probe readiness;
  max_sessions = cfg.max_sessions;
  max_packet_size = cfg.max_packet_size;
  idle_timeout = cfg.idle_timeout;
  sweep_interval = pos 0;
  auto_stop_delay = cfg.auto_stop_delay;
  auto_stop_retry_delay = pos 0;
  startup_timeout = cfg.startup_timeout;
  startup_poll_interval = cfg.startup_poll_interval;
  startup_settle_delay = cfg.startup_settle_delay;
  startup_failure_cooldown = pos 0;
  startup_buffer_packets = cfg.startup_buffer_packets;
  startup_buffer_bytes_per_session = cfg.startup_buffer_bytes_per_session;
  startup_buffer_bytes_global = cfg.startup_buffer_bytes_global;
}
