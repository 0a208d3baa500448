-- ===== src/Config.antt =====
-- pkg/config/config.go: the configuration, its defaults and its validation. Durations are in
-- nanoseconds.
pub mod Env
pub mod Validation
pub mod Load
pub mod Defaults
mod Tests
use game_server_snooze.Common.{
  is_empty, ℕ, String, Bool, true, false, not, ◌&&◌, ◌||◌, Option, none, some, List, [], ◌∷◌, ◌++◌,
  str_eq, is_some, if◌then◌else◌,
}
use game_server_snooze.Common.Int.{ℤ, pos, negsuc, ltb_ℤ, leb_ℤ}
use game_server_snooze.Errors.{Error, plain}
use game_server_snooze.Library.{Library, Address, Url}

pub record PterodactylConfig : Type 0 where
  pub base_url : String
  pub api_token : String
  pub server_id : String

pub record Config : Type 0 where
  pub listen_addr : String
  pub server_addr : String
  pub max_sessions : ℤ
  pub max_packet_size : ℤ
  pub game : String
  pub auto_stop_delay : ℤ
  pub idle_timeout : ℤ
  pub startup_timeout : ℤ
  pub startup_poll_interval : ℤ
  pub startup_settle_delay : ℤ
  pub startup_buffer_packets : ℤ
  pub startup_buffer_bytes_per_session : ℤ
  pub startup_buffer_bytes_global : ℤ
  pub wake_policy : String
  pub wake_signatures : List String
  pub log_unmatched_prefixes : Bool
  pub diagnostic_prefix_bytes : ℤ
  pub health_addr : String
  pub backend_readiness_mode : String
  pub backend_readiness_addr : String
  pub pterodactyl : PterodactylConfig
  pub log_level : String

abbrev pub max_udp_payload_size : ℤ
max_udp_payload_size = pos 65507

abbrev pub default_config : Config
default_config = record {
  listen_addr = ":8211";
  server_addr = "";
  max_sessions = pos 32;
  max_packet_size = max_udp_payload_size;
  game = "palworld";
  auto_stop_delay = pos 60_000_000_000;
  idle_timeout = pos 30_000_000_000;
  startup_timeout = pos 300_000_000_000;
  startup_poll_interval = pos 2_000_000_000;
  startup_settle_delay = pos 5_000_000_000;
  startup_buffer_packets = pos 32;
  startup_buffer_bytes_per_session = pos 262144;
  startup_buffer_bytes_global = pos 4194304;
  wake_policy = "signature";
  wake_signatures = "09080004bc597e73" ∷ [];
  log_unmatched_prefixes = false;
  diagnostic_prefix_bytes = pos 8;
  health_addr = "127.0.0.1:8080";
  backend_readiness_mode = "pterodactyl";
  backend_readiness_addr = "";
  pterodactyl = record { base_url = ""; api_token = ""; server_id = "" };
  log_level = "info";
}

-- A failing check and its message; the error that an answer of the library carries is left out.
abbrev pub Check : Type 0
Check = Bool × String

-- The message of the first check that fails.
unfoldable pub first_failure : List Check → Option Error
first_failure [] = none
first_failure ((fails, message) ∷ checks) =
    let rest = first_failure checks in if fails then some (plain message) else rest

abbrev pub is_unspecific : Option Address → Bool
is_unspecific none = true
is_unspecific (some address) = not address.has_ip || address.is_unspecified

abbrev pub is_not_loopback : Option Address → Bool
is_not_loopback none = true
is_not_loopback (some address) = not address.has_ip || not address.is_loopback

abbrev pub is_blank : Library → String → Bool
is_blank library text = str_eq (library.trim_space text) ""

abbrev pub is_missing : Option (List ℕ) → Bool
is_missing none = true
is_missing (some []) = true
is_missing (some (x ∷ xs)) = false

abbrev pub has_bad_signature : Library → List String → Bool
has_bad_signature library [] = false
has_bad_signature library (signature ∷ signatures) =
    is_missing (library.hex_decode (library.trim_space signature))
    || has_bad_signature library signatures

abbrev pub is_none_of : String → List String → Bool
is_none_of text [] = true
is_none_of text (word ∷ words) = not (str_eq text word) && is_none_of text words

abbrev pub is_bad_panel_url : Option Url → Bool
is_bad_panel_url none = true
is_bad_panel_url (some url) =
    (not (str_eq url.scheme "http") && not (str_eq url.scheme "https"))
    || str_eq url.host ""
    || url.has_user

abbrev pub is_plaintext_panel : Library → Option Url → Bool
is_plaintext_panel library none = true
is_plaintext_panel library (some url) =
    str_eq url.scheme "http"
    && not (str_eq url.hostname "localhost")
    && not (library.is_loopback_ip url.hostname)

abbrev pub address_checks : Library → Config → List Check
address_checks library cfg =
    (not (is_some (library.resolve_udp cfg.listen_addr)), "invalid listen_addr")
    ∷ (is_blank library cfg.server_addr, "server_addr is required")
    ∷ (not (is_some (library.resolve_udp cfg.server_addr)), "invalid server_addr")
    ∷ (
      is_unspecific (library.resolve_udp cfg.server_addr),
      "server_addr must identify a specific backend host",
    )
    ∷ []

abbrev pub limit_checks : Config → List Check
limit_checks cfg =
    (ltb_ℤ cfg.max_sessions (pos 1), "max_sessions must be positive")
    ∷ (
      ltb_ℤ cfg.max_packet_size (pos 1) || ltb_ℤ max_udp_payload_size cfg.max_packet_size,
      "max_packet_size must be between 1 and 65507",
    )
    ∷ (not (str_eq cfg.game "palworld"), "game must be palworld")
    ∷ (leb_ℤ cfg.idle_timeout (pos 0), "idle_timeout must be positive")
    ∷ (leb_ℤ cfg.auto_stop_delay (pos 0), "auto_stop_delay must be positive")
    ∷ (leb_ℤ cfg.startup_timeout (pos 0), "startup_timeout must be positive")
    ∷ (
      leb_ℤ cfg.startup_poll_interval (pos 0)
          || leb_ℤ cfg.startup_timeout cfg.startup_poll_interval,
      "startup_poll_interval must be positive and shorter than startup_timeout",
    )
    ∷ (
      ltb_ℤ cfg.startup_settle_delay (pos 0) || leb_ℤ cfg.startup_timeout cfg.startup_settle_delay,
      "startup_settle_delay must be non-negative and shorter than startup_timeout",
    )
    ∷ (ltb_ℤ cfg.startup_buffer_packets (pos 1), "startup_buffer_packets must be positive")
    ∷ (
      ltb_ℤ cfg.startup_buffer_bytes_per_session cfg.max_packet_size,
      "startup_buffer_bytes_per_session must hold at least one max_packet_size datagram",
    )
    ∷ (
      ltb_ℤ cfg.startup_buffer_bytes_global cfg.startup_buffer_bytes_per_session,
      "startup_buffer_bytes_global must be at least startup_buffer_bytes_per_session",
    )
    ∷ []

abbrev pub wake_checks : Library → Config → List Check
wake_checks library cfg =
    (is_none_of cfg.wake_policy ("signature" ∷ "any" ∷ []), "wake_policy must be signature or any")
    ∷ (
      str_eq cfg.wake_policy "signature" && is_empty cfg.wake_signatures,
      "wake_signatures must not be empty under signature policy",
    )
    ∷ (
      has_bad_signature library cfg.wake_signatures,
      "wake_signatures must contain non-empty hexadecimal prefixes",
    )
    ∷ (
      ltb_ℤ cfg.diagnostic_prefix_bytes (pos 1) || ltb_ℤ (pos 32) cfg.diagnostic_prefix_bytes,
      "diagnostic_prefix_bytes must be between 1 and 32",
    )
    ∷ []

abbrev pub probe_checks : Library → Config → List Check
probe_checks library cfg =
    let given = not (str_eq cfg.backend_readiness_addr "") in
    let resolved = library.resolve_udp cfg.backend_readiness_addr in
    (not (is_some (library.resolve_tcp cfg.health_addr)), "invalid health_addr")
    ∷ (
      is_not_loopback (library.resolve_tcp cfg.health_addr),
      "health_addr must use a loopback address",
    )
    ∷ (
      is_none_of cfg.backend_readiness_mode ("pterodactyl" ∷ "a2s" ∷ "delay" ∷ []),
      "backend_readiness_mode must be pterodactyl, a2s, or delay",
    )
    ∷ (
      given && not (str_eq cfg.backend_readiness_mode "a2s"),
      "backend_readiness_addr is only valid in a2s mode",
    )
    ∷ (given && not (is_some resolved), "invalid backend_readiness_addr")
    ∷ (given && is_unspecific resolved, "backend_readiness_addr must identify a specific host")
    ∷ []

abbrev pub panel_checks : Library → Config → List Check
panel_checks library cfg =
    let panel = library.parse_url cfg.pterodactyl.base_url in
    (
      is_bad_panel_url panel,
      "pterodactyl.base_url must be a valid HTTP or HTTPS URL without user info",
    )
    ∷ (
      is_plaintext_panel library panel,
      "pterodactyl.base_url may use plaintext HTTP only for loopback tests",
    )
    ∷ (is_blank library cfg.pterodactyl.api_token, "pterodactyl.api_token is required")
    ∷ (is_blank library cfg.pterodactyl.server_id, "pterodactyl.server_id is required")
    ∷ (
      is_none_of cfg.log_level ("debug" ∷ "info" ∷ "warn" ∷ "error" ∷ "fatal" ∷ []),
      "log_level must be debug, info, warn, error, or fatal",
    )
    ∷ []

-- Config.Validate: its tests in their order.
unfoldable pub validate : Library → Config → Option Error
unfolding first_failure
validate library cfg = first_failure (
    address_checks library cfg
    ++ limit_checks cfg
    ++ wake_checks library cfg
    ++ probe_checks library cfg
    ++ panel_checks library cfg)
