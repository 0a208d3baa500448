-- ===== src/Cmd/Tests.antt =====
-- Witnesses for Cmd.
use game_server_snooze.Common.{◌≡◌, ◌↔◌, ◌⊎◌, refl, true, false, none, some, [], ◌∷◌}
use game_server_snooze.Common.Int.{pos}
use game_server_snooze.Errors.{plain, server_closed}
use game_server_snooze.Session.{ok}
use game_server_snooze.Store.{Heap}
use game_server_snooze.Library.{Library, Address, Url}
use game_server_snooze.Config.{Config, default_config, validate}
use game_server_snooze.Config.Env.{Env, apply_env_overrides}
use game_server_snooze.Config.Load.{File, opened, end_of_file, info_level, load_config}
use game_server_snooze.Proxy.{Proxy, new}
use game_server_snooze.Server.{PterodactylClient, new_pterodactyl_client}
use game_server_snooze.Health.{HealthState}
use game_server_snooze.Cmd.{proxy_options_from_config}
use game_server_snooze.Cmd.HealthCheck.{check_health}
use game_server_snooze.Cmd.HealthCheck.Endpoint.{
  IsLoopbackUrl, serving, check_health-new_health_handler,
}
use game_server_snooze.Cmd.Run.{
  Network, Parts, Course, proxy_ended, arrives, make_parts, config_of, run,
}
use game_server_snooze.Cmd.Run.Release.{IsReleased, run-IsReleased}
use game_server_snooze.Cmd.Run.Verdict.{IsOrderly, run-none_iff}
use game_server_snooze.Cmd.Run.Starts.{load_config-make_parts}

abbrev address : Address
address = record { ip = "127.0.0.1"; has_ip = true; is_unspecified = false; is_loopback = true }

abbrev url : Url
url = record {
  scheme = "https";
  host = "panel.example";
  hostname = "panel.example";
  has_user = false;
  path = "";
  raw_query = "";
  fragment = "";
}

abbrev library : Library
library = record {
  trim_space = λ text. text;
  split_commas = λ text. text ∷ [];
  hex_decode = λ text. some (9 ∷ 8 ∷ []);
  atoi = λ text. some (pos 7);
  parse_duration = λ text. none;
  resolve_udp = λ text. some address;
  resolve_tcp = λ text. some address;
  parse_url = λ text. some url;
  is_loopback_ip = λ text. false;
  matches_server_id = λ text. true;
  join_host_port = λ host port. host;
}

abbrev config : Config
config = record default_config {
  server_addr = "10.0.0.5:8211";
  pterodactyl = record {
    base_url = "https://panel.example";
    api_token = "token";
    server_id = "1a2b";
  };
}

config_validates : validate library config ≡ none
unfolding validate
config_validates = refl

abbrev memory : Heap
memory p = record {
  client_addr = "";
  max_packet = pos 1200;
  last_activity = 0;
  closed = false;
  close_once = false;
  socket_closed = false;
  done = false;
  upstream = [];
  replies = [];
}

abbrev file : File
file = opened (λ base. ok config) end_of_file

abbrev env : Env
env name = none

abbrev network : Network
network = record { listen_udp = none; listen_tcp = none }

-- The proxy's goroutine ends first, with an error; the health server is shut down in time.
abbrev course : Course
course = record {
  first = proxy_ended (some (plain "read public UDP packet"));
  shutdown = none;
  proxy_wait = arrives none;
  health_wait = arrives (some server_closed);
}

abbrev client : PterodactylClient
client = record {
  base_url = url;
  api_token = "token";
  server_id = "1a2b";
  timeout = pos 10_000_000_000;
}

client_lem : new_pterodactyl_client library config.pterodactyl (pos 0) ≡ ok client
unfolding new_pterodactyl_client
client_lem = refl

loaded : load_config library file env ≡ ok (config, info_level)
unfolding load_config validate apply_env_overrides
loaded = refl

run-IsReleased_example : IsReleased (run library file env network memory course).1
run-IsReleased_example = run-IsReleased library file env network memory course

load_config-make_parts_example :
    (parts : Parts) × (proxy : Proxy) × (make_parts library
        (config_of (load_config library file env))
      ≡ ok parts)
    × (new (proxy_options_from_config parts.config parts.readiness) memory ≡ ok proxy)
load_config-make_parts_example =
    load_config-make_parts library file env config info_level client memory loaded client_lem
      (λ text a e h. refl)

abbrev health_url : Url
health_url = record url {
  scheme = "http";
  host = "127.0.0.1:8080";
  hostname = "127.0.0.1";
  path = "/readyz";
}

abbrev local : Library
local = record library { parse_url = λ text. some health_url; is_loopback_ip = λ text. true }

abbrev up : HealthState
up = record { is_ready = true }

check_health-new_health_handler_example :
    (check_health local none (serving up) "http://127.0.0.1:8080/readyz" ≡ none) ↔ (
      IsLoopbackUrl local health_url
      × ((health_url.path ≡ "/healthz") ⊎ ((health_url.path ≡ "/readyz") × (up.is_ready ≡ true))))
check_health-new_health_handler_example =
    check_health-new_health_handler local up "http://127.0.0.1:8080/readyz" health_url refl

run-none_iff_example : ((run library file env network memory course).0 ≡ none) ↔ (
    (parts : Parts) × (proxy : Proxy) × (make_parts library
        (config_of (load_config library file env))
      ≡ ok parts)
    × (network.listen_udp ≡ none)
    × (new (proxy_options_from_config parts.config parts.readiness) memory ≡ ok proxy)
    × (network.listen_tcp ≡ none)
    × IsOrderly course)
run-none_iff_example = run-none_iff library file env network memory course
