-- ===== src/Config/Env/Merge.antt =====
-- What applyEnvOverrides makes of a configuration (pkg/config/config.go).
use game_server_snooze.Common.{
  ◌≡◌, ◌↔◌, refl, Bool, true, false, ◌&&◌, List, [], ◌∷◌, arith, Bool-cases, inl, inr,
}
use game_server_snooze.Errors.{Error, plain}
use game_server_snooze.Session.{Result, ok, err}
use game_server_snooze.Library.{Library}
use game_server_snooze.Config.{Config}
use game_server_snooze.Config.Env.Given.{given, can_read, is_readable_env, merged}
use game_server_snooze.Config.Env.{
  Env, Variable, override, apply_each, apply_env_overrides, env_listen_addr, env_server_addr,
  env_max_sessions, env_max_packet_size, env_game, env_auto_stop_delay, env_base_url, env_api_token,
  env_server_id, env_log_level, env_idle_timeout, env_startup_timeout, env_startup_poll_interval,
  env_startup_settle_delay, env_startup_buffer_packets, env_startup_buffer_bytes_per_session,
  env_startup_buffer_bytes_global, env_diagnostic_prefix_bytes, env_wake_policy,
  env_wake_signatures, env_log_unmatched_prefixes, env_health_addr, env_backend_readiness_mode,
  env_backend_readiness_addr,
}

abbrev Step : Type 0
Step = Bool × (Config → Config)

abbrev step : {A : Type 0} → Env → Variable A → Step
step env v = (can_read env v.name v.parse, λ cfg. v.set (given env v.name v.parse (v.get cfg)) cfg)

-- The statement does what the step says.
abbrev Agrees : (Config → Result Config) → Step → Type 0
Agrees run (readable, merge) =
    (cfg : Config)
    → (readable ≡ true → run cfg ≡ ok (merge cfg))
      × (readable ≡ false → (e : Error) × (run cfg ≡ err e))

override-Agrees :
    {A : Type 0} (env : Env) (v : Variable A)
    → ((cfg : Config) → v.set (v.get cfg) cfg ≡ cfg)
    → Agrees (override env v) (step env v)
unfolding override
override-Agrees env v law cfg =
    (λ h. ground (arith, law cfg), λ h. (plain "invalid environment variable", ground arith))

-- A statement of the code with what it does.
record Entry : Type 0 where
  run : Config → Result Config
  does : Step
  agrees : Agrees run does

abbrev entry :
    {A : Type 0} (env : Env) (v : Variable A)
    → ((cfg : Config) → v.set (v.get cfg) cfg ≡ cfg)
    → Entry
entry env v law = record {
  run = override env v;
  does = step env v;
  agrees = override-Agrees env v law;
}

abbrev runs : List Entry → List (Config → Result Config)
runs [] = []
runs (x ∷ xs) = x.run ∷ runs xs

abbrev all_readable : List Entry → Bool
all_readable [] = true
all_readable (x ∷ xs) = x.does.0 && all_readable xs

abbrev merge_all : List Entry → Config → Config
merge_all [] cfg = cfg
merge_all (x ∷ xs) cfg = merge_all xs (x.does.1 cfg)

apply_each_iff :
    (entries : List Entry) (cfg result : Config)
    → (apply_each (runs entries) cfg ≡ ok result)
      ↔ ((all_readable entries ≡ true) × (result ≡ merge_all entries cfg))
unfolding apply_each
apply_each_iff [] cfg result = (λ h. (refl, ground arith), λ h. ground arith)
apply_each_iff (x ∷ xs) cfg result =
    let (yes', no') = x.agrees cfg in
    let (sound, complete) = apply_each_iff xs (x.does.1 cfg) result in
    elim (Bool-cases x.does.0) [
      | inl r ↦ (
        λ h. let (rest, same) = sound (cc (h, yes' r)) in (ground (arith, r, rest), same),
        λ (rest, same). cc (yes' r, complete (ground (arith, r, rest), same)),
      )
      | inr r ↦
          let (e, failed) = no' r in
          (
            λ h. absurd (ground (arith, h, failed)),
            λ (rest, same). absurd (ground (arith, r, rest)),
          )
    ]

-- The overrides succeed exactly if every number, duration and switch of the environment can be
-- read, and then each field has the value of the variable that `merged` names for it where that is
-- set, and the former value elsewhere.
pub apply_env_overrides_iff :
    (library : Library) (env : Env) (cfg result : Config)
    → (apply_env_overrides library env cfg ≡ ok result)
      ↔ ((is_readable_env library env ≡ true) × (result ≡ merged library env cfg))
unfolding apply_env_overrides
apply_env_overrides_iff library env cfg result =
    apply_each_iff
      (entry env (env_listen_addr library) (λ c. refl)
        ∷ entry env (env_server_addr library) (λ c. refl)
        ∷ entry env (env_max_sessions library) (λ c. refl)
        ∷ entry env (env_max_packet_size library) (λ c. refl)
        ∷ entry env (env_game library) (λ c. refl)
        ∷ entry env (env_auto_stop_delay library) (λ c. refl)
        ∷ entry env (env_base_url library) (λ c. refl)
        ∷ entry env (env_api_token library) (λ c. refl)
        ∷ entry env (env_server_id library) (λ c. refl)
        ∷ entry env (env_log_level library) (λ c. refl)
        ∷ entry env (env_idle_timeout library) (λ c. refl)
        ∷ entry env (env_startup_timeout library) (λ c. refl)
        ∷ entry env (env_startup_poll_interval library) (λ c. refl)
        ∷ entry env (env_startup_settle_delay library) (λ c. refl)
        ∷ entry env (env_startup_buffer_packets library) (λ c. refl)
        ∷ entry env (env_startup_buffer_bytes_per_session library) (λ c. refl)
        ∷ entry env (env_startup_buffer_bytes_global library) (λ c. refl)
        ∷ entry env (env_diagnostic_prefix_bytes library) (λ c. refl)
        ∷ entry env (env_wake_policy library) (λ c. refl)
        ∷ entry env (env_wake_signatures library) (λ c. refl)
        ∷ entry env (env_log_unmatched_prefixes library) (λ c. refl)
        ∷ entry env (env_health_addr library) (λ c. refl)
        ∷ entry env (env_backend_readiness_mode library) (λ c. refl)
        ∷ entry env (env_backend_readiness_addr library) (λ c. refl)
        ∷ [])
      cfg result
