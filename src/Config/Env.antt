-- ===== src/Config/Env.antt =====
-- applyEnvOverrides of pkg/config/config.go. The environment is a function, os.LookupEnv. The loops
-- over Go maps, whose order is not fixed, are taken in the order of the source.
pub mod Given
pub mod Merge
use game_server_snooze.Common.{
  String, Bool, true, false, Option, none, some, List, [], ◌∷◌, map, str_eq, if◌then◌else◌,
}
use game_server_snooze.Common.Int.{ℤ}
use game_server_snooze.Errors.{plain}
use game_server_snooze.Session.{Result, ok, err}
use game_server_snooze.Library.{Library}
use game_server_snooze.Config.{Config}

abbrev pub Env : Type 0
Env = String → Option String

-- A variable, how its value is read, and the field that it sets.
pub record Variable (A : Type 0) : Type 0 where
  pub name : String
  pub parse : String → Option A
  pub get : Config → A
  pub set : A → Config → Config

-- One `if val, ok := os.LookupEnv(name); ok` statement.
unfoldable pub override : {A : Type 0} → Env → Variable A → Config → Result Config
override env variable cfg = elim (env variable.name) [
  | none ↦ ok cfg
  | some text ↦ elim (variable.parse text) [
    | none ↦ err (plain "invalid environment variable")
    | some value ↦ ok (variable.set value cfg)
  ]
]

unfoldable pub apply_each : List (Config → Result Config) → Config → Result Config
apply_each [] cfg = ok cfg
apply_each (step ∷ steps) cfg = elim (step cfg) [ err e ↦ err e | ok next ↦ apply_each steps next ]

abbrev pub parse_switch : String → Option Bool
parse_switch text =
    if str_eq text "true" then some true else if str_eq text "false" then some false else none

abbrev pub parse_list : Library → String → Option (List String)
parse_list library text = some (map library.trim_space (library.split_commas text))

abbrev pub parse_trimmed : Library → String → Option String
parse_trimmed library text = some (library.trim_space text)

abbrev variable :
    {A : Type 0} → String → (String → Option A) → (Config → A) → (A → Config → Config) → Variable A
variable name parse get set = record { name = name; parse = parse; get = get; set = set }

module _ (library : Library) where
  abbrev pub env_listen_addr : Variable String
  env_listen_addr =
      variable "LISTEN_ADDR" some (λ cfg. cfg.listen_addr)
        (λ value cfg. record cfg { listen_addr = value })

  abbrev pub env_server_addr : Variable String
  env_server_addr =
      variable "SERVER_ADDR" some (λ cfg. cfg.server_addr)
        (λ value cfg. record cfg { server_addr = value })

  abbrev pub env_max_sessions : Variable ℤ
  env_max_sessions =
      variable "MAX_SESSIONS" library.atoi (λ cfg. cfg.max_sessions)
        (λ value cfg. record cfg { max_sessions = value })

  abbrev pub env_max_packet_size : Variable ℤ
  env_max_packet_size =
      variable "MAX_PACKET_SIZE" library.atoi (λ cfg. cfg.max_packet_size)
        (λ value cfg. record cfg { max_packet_size = value })

  abbrev pub env_game : Variable String
  env_game = variable "GAME" some (λ cfg. cfg.game) (λ value cfg. record cfg { game = value })

  abbrev pub env_auto_stop_delay : Variable ℤ
  env_auto_stop_delay =
      variable "AUTO_STOP_DELAY" library.parse_duration (λ cfg. cfg.auto_stop_delay)
        (λ value cfg. record cfg { auto_stop_delay = value })

  abbrev pub env_base_url : Variable String
  env_base_url =
      variable "PTERO_BASE_URL" some (λ cfg. cfg.pterodactyl.base_url)
        (λ value cfg. record cfg { pterodactyl = record cfg.pterodactyl { base_url = value } })

  abbrev pub env_api_token : Variable String
  env_api_token =
      variable "PTERO_API_TOKEN" some (λ cfg. cfg.pterodactyl.api_token)
        (λ value cfg. record cfg { pterodactyl = record cfg.pterodactyl { api_token = value } })

  abbrev pub env_server_id : Variable String
  env_server_id =
      variable "PTERO_SERVER_ID" some (λ cfg. cfg.pterodactyl.server_id)
        (λ value cfg. record cfg { pterodactyl = record cfg.pterodactyl { server_id = value } })

  abbrev pub env_log_level : Variable String
  env_log_level =
      variable "LOG_LEVEL" some (λ cfg. cfg.log_level)
        (λ value cfg. record cfg { log_level = value })

  abbrev pub env_idle_timeout : Variable ℤ
  env_idle_timeout =
      variable "IDLE_TIMEOUT" library.parse_duration (λ cfg. cfg.idle_timeout)
        (λ value cfg. record cfg { idle_timeout = value })

  abbrev pub env_startup_timeout : Variable ℤ
  env_startup_timeout =
      variable "STARTUP_TIMEOUT" library.parse_duration (λ cfg. cfg.startup_timeout)
        (λ value cfg. record cfg { startup_timeout = value })

  abbrev pub env_startup_poll_interval : Variable ℤ
  env_startup_poll_interval =
      variable "STARTUP_POLL_INTERVAL" library.parse_duration (λ cfg. cfg.startup_poll_interval)
        (λ value cfg. record cfg { startup_poll_interval = value })

  abbrev pub env_startup_settle_delay : Variable ℤ
  env_startup_settle_delay =
      variable "STARTUP_SETTLE_DELAY" library.parse_duration (λ cfg. cfg.startup_settle_delay)
        (λ value cfg. record cfg { startup_settle_delay = value })

  abbrev pub env_startup_buffer_packets : Variable ℤ
  env_startup_buffer_packets =
      variable "STARTUP_BUFFER_PACKETS" library.atoi (λ cfg. cfg.startup_buffer_packets)
        (λ value cfg. record cfg { startup_buffer_packets = value })

  abbrev pub env_startup_buffer_bytes_per_session : Variable ℤ
  env_startup_buffer_bytes_per_session =
      variable "STARTUP_BUFFER_BYTES_PER_SESSION" library.atoi
        (λ cfg. cfg.startup_buffer_bytes_per_session)
        (λ value cfg. record cfg { startup_buffer_bytes_per_session = value })

  abbrev pub env_startup_buffer_bytes_global : Variable ℤ
  env_startup_buffer_bytes_global =
      variable "STARTUP_BUFFER_BYTES_GLOBAL" library.atoi (λ cfg. cfg.startup_buffer_bytes_global)
        (λ value cfg. record cfg { startup_buffer_bytes_global = value })

  abbrev pub env_diagnostic_prefix_bytes : Variable ℤ
  env_diagnostic_prefix_bytes =
      variable "DIAGNOSTIC_PREFIX_BYTES" library.atoi (λ cfg. cfg.diagnostic_prefix_bytes)
        (λ value cfg. record cfg { diagnostic_prefix_bytes = value })

  abbrev pub env_wake_policy : Variable String
  env_wake_policy =
      variable "WAKE_POLICY" (parse_trimmed library) (λ cfg. cfg.wake_policy)
        (λ value cfg. record cfg { wake_policy = value })

  abbrev pub env_wake_signatures : Variable (List String)
  env_wake_signatures =
      variable "WAKE_SIGNATURES" (parse_list library) (λ cfg. cfg.wake_signatures)
        (λ value cfg. record cfg { wake_signatures = value })

  abbrev pub env_log_unmatched_prefixes : Variable Bool
  env_log_unmatched_prefixes =
      variable "LOG_UNMATCHED_PREFIXES" parse_switch (λ cfg. cfg.log_unmatched_prefixes)
        (λ value cfg. record cfg { log_unmatched_prefixes = value })

  abbrev pub env_health_addr : Variable String
  env_health_addr =
      variable "HEALTH_ADDR" some (λ cfg. cfg.health_addr)
        (λ value cfg. record cfg { health_addr = value })

  abbrev pub env_backend_readiness_mode : Variable String
  env_backend_readiness_mode =
      variable "BACKEND_READINESS_MODE" (parse_trimmed library) (λ cfg. cfg.backend_readiness_mode)
        (λ value cfg. record cfg { backend_readiness_mode = value })

  abbrev pub env_backend_readiness_addr : Variable String
  env_backend_readiness_addr =
      variable "BACKEND_READINESS_ADDR" (parse_trimmed library) (λ cfg. cfg.backend_readiness_addr)
        (λ value cfg. record cfg { backend_readiness_addr = value })

  abbrev pub overrides : Env → List (Config → Result Config)
  overrides env =
      override env env_listen_addr
      ∷ override env env_server_addr
      ∷ override env env_max_sessions
      ∷ override env env_max_packet_size
      ∷ override env env_game
      ∷ override env env_auto_stop_delay
      ∷ override env env_base_url
      ∷ override env env_api_token
      ∷ override env env_server_id
      ∷ override env env_log_level
      ∷ override env env_idle_timeout
      ∷ override env env_startup_timeout
      ∷ override env env_startup_poll_interval
      ∷ override env env_startup_settle_delay
      ∷ override env env_startup_buffer_packets
      ∷ override env env_startup_buffer_bytes_per_session
      ∷ override env env_startup_buffer_bytes_global
      ∷ override env env_diagnostic_prefix_bytes
      ∷ override env env_wake_policy
      ∷ override env env_wake_signatures
      ∷ override env env_log_unmatched_prefixes
      ∷ override env env_health_addr
      ∷ override env env_backend_readiness_mode
      ∷ override env env_backend_readiness_addr
      ∷ []

  unfoldable pub apply_env_overrides : Env → Config → Result Config
  unfolding override apply_each
  apply_env_overrides env cfg = apply_each (overrides env) cfg
