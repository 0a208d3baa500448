-- ===== src/Config/Load.antt =====
-- LoadConfig, parseYAML, setLogLevel and RedactedString of pkg/config/config.go. What os.Open and the
-- YAML decoder answer is an argument; the lines that are printed or logged are left out.
pub mod Outcome
use game_server_snooze.Common.{
  String, Bool, true, false, not, Option, none, some, str_eq, if◌then◌else◌,
}
use game_server_snooze.Errors.{Error, plain, wrapped}
use game_server_snooze.Session.{Result, ok, err}
use game_server_snooze.Library.{Library}
use game_server_snooze.Config.{Config, PterodactylConfig, default_config, validate}
use game_server_snooze.Config.Env.{Env, apply_env_overrides}

-- The second Decode: io.EOF, another document, or an error.
pub data Trailing : Type 0 where
  end_of_file another_document : Trailing
  malformed : Error → Trailing

-- What os.Open("config.yaml") gives: no such file, a file that cannot be opened, or a file, for which
-- `decode` fills in the values that it names.
pub data File : Type 0 where
  missing unreadable : File
  opened : (Config → Result Config) → Trailing → File

unfoldable pub parse_yaml : (Config → Result Config) → Trailing → Config → Result Config
parse_yaml decode trailing cfg = elim (decode cfg) [
  | err e ↦ err e
  | ok decoded ↦ elim trailing [
    | another_document ↦ err (plain "multiple YAML documents are not allowed")
    | end_of_file ↦ ok decoded
    | malformed e ↦ err e
  ]
]

unfoldable pub read_file : File → Config → Result Config
unfolding parse_yaml
read_file missing cfg = ok cfg
read_file unreadable cfg = ok cfg
read_file (opened decode trailing) cfg = elim (parse_yaml decode trailing cfg) [
  | err e ↦ err (plain "could not parse config.yaml")
  | ok parsed ↦ ok parsed
]

pub data LogLevel : Type 0 where
  debug_level info_level warn_level error_level fatal_level : LogLevel

unfoldable pub set_log_level : String → LogLevel
set_log_level log_level =
    if str_eq log_level "debug"
    then debug_level
    else if str_eq log_level "warn"
    then warn_level
    else if str_eq log_level "error"
    then error_level
    else if str_eq log_level "fatal"
    then fatal_level
    else info_level

-- The configuration and the level that logrus is set to. The configuration that goes with an error is
-- used by no caller.
unfoldable pub load_config : Library → File → Env → Result (Config × LogLevel)
unfolding read_file set_log_level
load_config library file env = elim (read_file file default_config) [
  | err e ↦ err e
  | ok read ↦ elim (apply_env_overrides library env read) [
    | err e ↦ err e
    | ok cfg ↦ elim (validate library cfg) [
      | some e ↦ err (wrapped "invalid configuration" e)
      | none ↦ ok (cfg, set_log_level cfg.log_level)
    ]
  ]
]

abbrev pub redacted : String
redacted = "***REDACTED***"

unfoldable pub redact : Config → Config
redact cfg = record cfg {
  server_addr = redacted;
  backend_readiness_addr =
      if not (str_eq cfg.backend_readiness_addr "") then redacted else cfg.backend_readiness_addr;
  pterodactyl = record { base_url = redacted; api_token = redacted; server_id = redacted };
}

-- `format` is fmt.Sprintf with the verb %+v.
unfoldable pub redacted_string : (Config → String) → Config → String
unfolding redact
redacted_string format cfg = format (redact cfg)
