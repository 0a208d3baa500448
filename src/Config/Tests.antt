-- ===== src/Config/Tests.antt =====
-- Witnesses for Config.
use game_server_snooze.Common.{
  ◌≡◌, ◌↔◌, refl, true, false, none, some, [], ◌∷◌, str_eq, if◌then◌else◌,
}
use game_server_snooze.Common.Int.{pos}
use game_server_snooze.Session.{ok}
use game_server_snooze.Library.{Library, Address, Url}
use game_server_snooze.Config.{Config, default_config, validate}
use game_server_snooze.Config.Load.{
  File, opened, end_of_file, info_level, load_config, redacted_string,
}
use game_server_snooze.Config.Load.Outcome.{
  FileGives, name_of, load_config_iff, redacted_string-hides,
}
use game_server_snooze.Config.Env.{Env, apply_env_overrides}
use game_server_snooze.Config.Env.Given.{merged, is_readable_env}
use game_server_snooze.Config.Env.Merge.{apply_env_overrides_iff}

abbrev address : Address
address = record { ip = "127.0.0.1"; has_ip = true; is_unspecified = false; is_loopback = true }

abbrev url : Url
url = record {
  scheme = "https";
  host = "panel.example";
  hostname = "panel.example";
  has_user = false;
  path = "";
  raw_query = "";
  fragment = "";
}

abbrev library : Library
library = record {
  trim_space = λ text. text;
  split_commas = λ text. text ∷ [];
  hex_decode = λ text. some (9 ∷ 8 ∷ []);
  atoi = λ text. some (pos 7);
  parse_duration = λ text. none;
  resolve_udp = λ text. some address;
  resolve_tcp = λ text. some address;
  parse_url = λ text. some url;
  is_loopback_ip = λ text. false;
  matches_server_id = λ text. true;
  join_host_port = λ host port. host;
}

abbrev env : Env
env name = if str_eq name "MAX_SESSIONS" then some "7" else none

apply_env_overrides_iff_example :
    (apply_env_overrides library env default_config
      ≡ ok (record default_config { max_sessions = pos 7 }))
    ↔ ((is_readable_env library env ≡ true)
        × (record default_config { max_sessions = pos 7 } ≡ merged library env default_config))
apply_env_overrides_iff_example =
    apply_env_overrides_iff library env default_config
      (record default_config { max_sessions = pos 7 })

abbrev file : File
file = opened (λ base. ok (record base { idle_timeout = pos 9 })) end_of_file

load_config_iff_example : (load_config library file env ≡ ok (default_config, info_level)) ↔ (
    (base : Config) × FileGives file base
    × (is_readable_env library env ≡ true)
    × (default_config ≡ merged library env base)
    × (validate library default_config ≡ none)
    × (default_config.log_level ≡ name_of info_level))
load_config_iff_example = load_config_iff library file env default_config info_level

redacted_string-hides_example :
    redacted_string
      (λ cfg. cfg.pterodactyl.api_token)
      (record default_config {
        server_addr = "10.0.0.5:8211";
        backend_readiness_addr = "";
        pterodactyl = record {
          base_url = "https://panel.example";
          api_token = "secret";
          server_id = "1a2b";
        };
      })
    ≡ redacted_string (λ cfg. cfg.pterodactyl.api_token) default_config
redacted_string-hides_example =
    redacted_string-hides (λ cfg. cfg.pterodactyl.api_token) default_config "10.0.0.5:8211" ""
      (record { base_url = "https://panel.example"; api_token = "secret"; server_id = "1a2b" }) refl
