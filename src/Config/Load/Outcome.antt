-- ===== src/Config/Load/Outcome.antt =====
-- What LoadConfig returns, and what RedactedString may show (pkg/config/config.go).
use game_server_snooze.Common.{
  Option-cases, not, if◌then◌else◌, String, ◌≡◌, ◌↔◌, refl, ap, sym, ◌∙◌, true, none, some, arith,
  str_eq, eq_iff, inl, inr, Bool-cases,
}
use game_server_snooze.Session.{Result, ok, err, Result-cases}
use game_server_snooze.Errors.{wrapped}
use game_server_snooze.Library.{Library}
use game_server_snooze.Config.{Config, PterodactylConfig, default_config, validate}
use game_server_snooze.Config.Validation.{validate-Passes}
use game_server_snooze.Config.Env.{Env, apply_env_overrides}
use game_server_snooze.Config.Env.Given.{merged, is_readable_env}
use game_server_snooze.Config.Env.Merge.{apply_env_overrides_iff}
use game_server_snooze.Config.Load.{
  File, end_of_file, another_document, malformed, missing, unreadable, opened, LogLevel,
  debug_level, info_level, warn_level, error_level, fatal_level, load_config, read_file,
  set_log_level, redacted, redacted_string,
}

-- The defaults with the values of the file, if there is one that can be opened.
abbrev pub FileGives : File → Config → Type 0
FileGives missing base = base ≡ default_config
FileGives unreadable base = base ≡ default_config
FileGives (opened decode trailing) base =
    (decode default_config ≡ ok base) × (trailing ≡ end_of_file)

read_file_iff :
    (file : File) (base : Config) → (read_file file default_config ≡ ok base) ↔ FileGives file base
unfolding read_file
read_file_iff missing base = (λ h. cc, λ h. cc)
read_file_iff unreadable base = (λ h. cc, λ h. cc)
read_file_iff (opened decode end_of_file) base = elim (Result-cases (decode default_config)) [
  | inl (e, failed) ↦
      (λ h. absurd (cc (h, failed)), λ (decoded, ends). absurd (cc (decoded, failed)))
  | inr (c, decoded) ↦ (λ h. (cc (h, decoded), refl), λ (decoded', ends). cc decoded')
]
read_file_iff (opened decode another_document) base = elim (Result-cases (decode default_config)) [
  | inl (e, failed) ↦ (λ h. absurd (cc (h, failed)), λ (decoded, ends). absurd (cc ends))
  | inr (c, decoded) ↦ (λ h. absurd (cc (h, decoded)), λ (decoded', ends). absurd (cc ends))
]
read_file_iff (opened decode (malformed e)) base = elim (Result-cases (decode default_config)) [
  | inl (e', failed) ↦ (λ h. absurd (cc (h, failed)), λ (decoded, ends). absurd (cc ends))
  | inr (c, decoded) ↦ (λ h. absurd (cc (h, decoded)), λ (decoded', ends). absurd (cc ends))
]

-- The log level's name in the configuration.
abbrev pub name_of : LogLevel → String
name_of debug_level = "debug"
name_of info_level = "info"
name_of warn_level = "warn"
name_of error_level = "error"
name_of fatal_level = "fatal"

set_log_level-name_of : (level : LogLevel) → set_log_level (name_of level) ≡ level
unfolding set_log_level
set_log_level-name_of debug_level = refl
set_log_level-name_of info_level = refl
set_log_level-name_of warn_level = refl
set_log_level-name_of error_level = refl
set_log_level-name_of fatal_level = refl

-- A name that validates is that of a level.
name_of-set_log_level :
    (library : Library) (cfg : Config)
    → validate library cfg ≡ none
    → cfg.log_level ≡ name_of (set_log_level cfg.log_level)
unfolding set_log_level
name_of-set_log_level library cfg valid =
    let (_, _, _, _, panel) = validate-Passes library cfg valid in
    let (is_debug, _) = eq_iff cfg.log_level "debug" in
    let (is_warn, _) = eq_iff cfg.log_level "warn" in
    let (is_error, _) = eq_iff cfg.log_level "error" in
    let (is_fatal, _) = eq_iff cfg.log_level "fatal" in
    let (is_info, _) = eq_iff cfg.log_level "info" in
    elim (Bool-cases (str_eq cfg.log_level "debug")) [
      | inl p ↦ ground (arith, is_debug p)
      | inr not_debug ↦ elim (Bool-cases (str_eq cfg.log_level "warn")) [
        | inl p ↦ ground (arith, is_warn p)
        | inr not_warn ↦ elim (Bool-cases (str_eq cfg.log_level "error")) [
          | inl p ↦ ground (arith, is_error p)
          | inr not_error ↦ elim (Bool-cases (str_eq cfg.log_level "fatal")) [
            | inl p ↦ ground (arith, is_fatal p)
            | inr not_fatal ↦
                let p : str_eq cfg.log_level "info" ≡ true = ground (arith, panel) in
                ground (arith, is_info p)
          ]
        ]
      ]
    ]

abbrev load_from : Library → Env → Config → Result (Config × LogLevel)
load_from library env base = elim (apply_env_overrides library env base) [
  | err e ↦ err e
  | ok cfg ↦ elim (validate library cfg) [
    | some e ↦ err (wrapped "invalid configuration" e)
    | none ↦ ok (cfg, set_log_level cfg.log_level)
  ]
]

abbrev Loads : Library → Env → Config → Config → LogLevel → Type 0
Loads library env base cfg level =
    (is_readable_env library env ≡ true)
    × (cfg ≡ merged library env base)
    × (validate library cfg ≡ none)
    × (cfg.log_level ≡ name_of level)

load_from_iff :
    (library : Library) (env : Env) (base cfg : Config) (level : LogLevel)
    → (load_from library env base ≡ ok (cfg, level)) ↔ Loads library env base cfg level
load_from_iff library env base cfg level =
    elim (Result-cases (apply_env_overrides library env base)) [
      | inl (e, failed) ↦ (
        λ h. absurd (cc (h, failed)),
        λ (readable, same, valid, logged).
            absurd (cc ((apply_env_overrides_iff library env base cfg).1 (readable, same), failed)),
      )
      | inr (c, applied) ↦ elim (Option-cases (validate library c)) [
        | inr (e, invalid) ↦ (
          λ h. absurd (cc (h, applied, invalid)),
          λ (readable, same, valid, logged).
              let found = (apply_env_overrides_iff library env base cfg).1 (readable, same) in
              let e' : c ≡ cfg = cc (found, applied) in
              absurd (cc (valid, invalid, ap (validate library) e')),
        )
        | inl valid' ↦ (
          λ h.
              let e : c ≡ cfg = cc (h, applied, valid') in
              let (readable, same) = (apply_env_overrides_iff library env base c).0 applied in
              let logged : set_log_level c.log_level ≡ level = cc (h, applied, valid') in
              let named = name_of-set_log_level library c valid' in
              (
                readable,
                sym e ∙ same,
                sym (ap (validate library) e) ∙ valid',
                sym (ap (λ cfg. cfg.log_level) e) ∙ named ∙ ap name_of logged,
              ),
          λ (readable, same, valid, logged).
              let found = (apply_env_overrides_iff library env base cfg).1 (readable, same) in
              let level' = ap set_log_level logged ∙ set_log_level-name_of level in
              cc (found, level'),
        )
      ]
    ]

-- LoadConfig succeeds exactly if the file, where one can be opened, is a single YAML document that
-- decodes, every number, duration and switch of the environment can be read, and the result
-- validates; the result is the file's values over the defaults, and the environment's over both, and
-- the level is the one whose name the result has as its log level.
pub load_config_iff :
    (library : Library) (file : File) (env : Env) (cfg : Config) (level : LogLevel)
    → (load_config library file env ≡ ok (cfg, level)) ↔ (
        (base : Config) × FileGives file base
        × (is_readable_env library env ≡ true)
        × (cfg ≡ merged library env base)
        × (validate library cfg ≡ none)
        × (cfg.log_level ≡ name_of level))
unfolding load_config
load_config_iff library file env cfg level = elim (Result-cases (read_file file default_config)) [
  | inl (e, failed) ↦ (
    λ h. absurd (cc (h, failed)),
    λ (base, given, readable, same, valid, logged).
        absurd (cc ((read_file_iff file base).1 given, failed)),
  )
  | inr (base, given) ↦
      let (loads, loaded) = load_from_iff library env base cfg level in
      (
        λ h.
            let (readable, same, valid, logged) = loads (cc (h, given)) in
            (base, (read_file_iff file base).0 given, readable, same, valid, logged),
        λ (base', given', readable, same, valid, logged).
            let e : base ≡ base' = cc ((read_file_iff file base').1 given', given) in
            cc (given, loaded (readable, same ∙ sym (ap (merged library env) e), valid, logged)),
      )
]

shows :
    (a b : String)
    → str_eq a "" ≡ str_eq b ""
    → (if not (str_eq a "") then redacted else a) ≡ (if not (str_eq b "") then redacted else b)
shows a b same = ground (arith, eq_iff a "", eq_iff b "")

-- RedactedString is the same for two configurations that differ in the backend's address, in the
-- panel's URL, token and server, and in a readiness address that both give or both leave out.
pub redacted_string-hides :
    (format : Config → String) (cfg : Config) (server_addr readiness_addr : String)
    (pterodactyl : PterodactylConfig)
    → str_eq readiness_addr "" ≡ str_eq cfg.backend_readiness_addr ""
    → redacted_string format (record cfg {
      server_addr = server_addr;
      backend_readiness_addr = readiness_addr;
      pterodactyl = pterodactyl;
    })
      ≡ redacted_string format cfg
unfolding redacted_string
redacted_string-hides format cfg server_addr readiness_addr pterodactyl same =
    ap
      (λ shown. format (record cfg {
        server_addr = redacted;
        backend_readiness_addr = shown;
        pterodactyl = record { base_url = redacted; api_token = redacted; server_id = redacted };
      }))
      (shows readiness_addr cfg.backend_readiness_addr same)
