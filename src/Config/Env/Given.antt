-- ===== src/Config/Env/Given.antt =====
-- What the environment of pkg/config/config.go gives, written out on its own:
-- the name of each variable, how its text is read, and the field that it sets.
use game_server_snooze.Common.{
  String, Bool, true, false, ◌&&◌, Option, none, some, List, [], ◌∷◌, map, str_eq, is_some,
  if◌then◌else◌,
}
use game_server_snooze.Library.{Library}
use game_server_snooze.Config.{Config}
use game_server_snooze.Config.Env.{Env}

abbrev pub or_value : {A : Type 0} → Option A → A → A
or_value none fallback = fallback
or_value (some value) fallback = value

-- What the variable `name` gives for a field whose value is `fallback` so far.
abbrev pub given : {A : Type 0} → Env → String → (String → Option A) → A → A
given env name parse fallback = elim (env name) [
  | none ↦ fallback
  | some text ↦ or_value (parse text) fallback
]

-- The variable `name` is unset or its text can be read.
abbrev pub can_read : {A : Type 0} → Env → String → (String → Option A) → Bool
can_read env name parse = elim (env name) [ none ↦ true | some text ↦ is_some (parse text) ]

abbrev trimmed_of : Library → String → Option String
trimmed_of library text = some (library.trim_space text)

abbrev list_of : Library → String → Option (List String)
list_of library text = some (map library.trim_space (library.split_commas text))

abbrev switch_of : String → Option Bool
switch_of text =
    if str_eq text "true" then some true else if str_eq text "false" then some false else none

-- Every field has the value that its variable gives, and keeps its own where that is not set.
abbrev pub merged : Library → Env → Config → Config
merged library env cfg = record {
  listen_addr = given env "LISTEN_ADDR" some cfg.listen_addr;
  server_addr = given env "SERVER_ADDR" some cfg.server_addr;
  max_sessions = given env "MAX_SESSIONS" library.atoi cfg.max_sessions;
  max_packet_size = given env "MAX_PACKET_SIZE" library.atoi cfg.max_packet_size;
  game = given env "GAME" some cfg.game;
  auto_stop_delay = given env "AUTO_STOP_DELAY" library.parse_duration cfg.auto_stop_delay;
  idle_timeout = given env "IDLE_TIMEOUT" library.parse_duration cfg.idle_timeout;
  startup_timeout = given env "STARTUP_TIMEOUT" library.parse_duration cfg.startup_timeout;
  startup_poll_interval =
      given env "STARTUP_POLL_INTERVAL" library.parse_duration cfg.startup_poll_interval;
  startup_settle_delay =
      given env "STARTUP_SETTLE_DELAY" library.parse_duration cfg.startup_settle_delay;
  startup_buffer_packets =
      given env "STARTUP_BUFFER_PACKETS" library.atoi cfg.startup_buffer_packets;
  startup_buffer_bytes_per_session =
      given env "STARTUP_BUFFER_BYTES_PER_SESSION" library.atoi
        cfg.startup_buffer_bytes_per_session;
  startup_buffer_bytes_global =
      given env "STARTUP_BUFFER_BYTES_GLOBAL" library.atoi cfg.startup_buffer_bytes_global;
  diagnostic_prefix_bytes =
      given env "DIAGNOSTIC_PREFIX_BYTES" library.atoi cfg.diagnostic_prefix_bytes;
  wake_policy = given env "WAKE_POLICY" (trimmed_of library) cfg.wake_policy;
  wake_signatures = given env "WAKE_SIGNATURES" (list_of library) cfg.wake_signatures;
  log_unmatched_prefixes = given env "LOG_UNMATCHED_PREFIXES" switch_of cfg.log_unmatched_prefixes;
  health_addr = given env "HEALTH_ADDR" some cfg.health_addr;
  backend_readiness_mode =
      given env "BACKEND_READINESS_MODE" (trimmed_of library) cfg.backend_readiness_mode;
  backend_readiness_addr =
      given env "BACKEND_READINESS_ADDR" (trimmed_of library) cfg.backend_readiness_addr;
  pterodactyl = record {
    base_url = given env "PTERO_BASE_URL" some cfg.pterodactyl.base_url;
    api_token = given env "PTERO_API_TOKEN" some cfg.pterodactyl.api_token;
    server_id = given env "PTERO_SERVER_ID" some cfg.pterodactyl.server_id;
  };
  log_level = given env "LOG_LEVEL" some cfg.log_level;
}

abbrev every : List Bool → Bool
every [] = true
every (b ∷ bs) = b && every bs

-- Every variable that is set has text of its form: a number, a duration, true or false, or any.
abbrev pub is_readable_env : Library → Env → Bool
is_readable_env library env = every (
    can_read env "LISTEN_ADDR" (λ text. some text)
    ∷ can_read env "SERVER_ADDR" (λ text. some text)
    ∷ can_read env "MAX_SESSIONS" library.atoi
    ∷ can_read env "MAX_PACKET_SIZE" library.atoi
    ∷ can_read env "GAME" (λ text. some text)
    ∷ can_read env "AUTO_STOP_DELAY" library.parse_duration
    ∷ can_read env "PTERO_BASE_URL" (λ text. some text)
    ∷ can_read env "PTERO_API_TOKEN" (λ text. some text)
    ∷ can_read env "PTERO_SERVER_ID" (λ text. some text)
    ∷ can_read env "LOG_LEVEL" (λ text. some text)
    ∷ can_read env "IDLE_TIMEOUT" library.parse_duration
    ∷ can_read env "STARTUP_TIMEOUT" library.parse_duration
    ∷ can_read env "STARTUP_POLL_INTERVAL" library.parse_duration
    ∷ can_read env "STARTUP_SETTLE_DELAY" library.parse_duration
    ∷ can_read env "STARTUP_BUFFER_PACKETS" library.atoi
    ∷ can_read env "STARTUP_BUFFER_BYTES_PER_SESSION" library.atoi
    ∷ can_read env "STARTUP_BUFFER_BYTES_GLOBAL" library.atoi
    ∷ can_read env "DIAGNOSTIC_PREFIX_BYTES" library.atoi
    ∷ can_read env "WAKE_POLICY" (trimmed_of library)
    ∷ can_read env "WAKE_SIGNATURES" (list_of library)
    ∷ can_read env "LOG_UNMATCHED_PREFIXES" switch_of
    ∷ can_read env "HEALTH_ADDR" (λ text. some text)
    ∷ can_read env "BACKEND_READINESS_MODE" (trimmed_of library)
    ∷ can_read env "BACKEND_READINESS_ADDR" (trimmed_of library)
    ∷ [])
