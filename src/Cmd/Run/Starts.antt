-- ===== src/Cmd/Run/Starts.antt =====
-- A configuration that LoadConfig returns builds every part of run (cmd/main.go), but for what only
-- the panel client checks.
use game_server_snooze.Common.{
  ◌≡◌, String, refl, ap, ◌∙◌, str_eq, true, false, not, Option, none, some, arith, is_some,
}
use game_server_snooze.Common.Int.{pos}
use game_server_snooze.Session.{ok}
use game_server_snooze.Store.{Heap}
use game_server_snooze.Library.{Library, Address}
use game_server_snooze.Config.{Config, validate}
use game_server_snooze.Config.Env.{Env}
use game_server_snooze.Config.Load.{File, LogLevel, load_config}
use game_server_snooze.Config.Load.Outcome.{load_config_iff}
use game_server_snooze.Config.Validation.{validate-Passes}
use game_server_snooze.Proxy.{Proxy, new}
use game_server_snooze.Server.{PterodactylClient, new_pterodactyl_client}
use game_server_snooze.Cmd.{proxy_options_from_config}
use game_server_snooze.Cmd.Startup.{
  validate-new, validate-new_palworld_detector, validate-new_backend_readiness,
}
use game_server_snooze.Cmd.Run.{Parts, make_parts, config_of}

-- An address that ResolveUDPAddr returned with an IP address: that IP address joined with a port
-- resolves as well.
abbrev pub JoinsResolve : Library → Type 0
JoinsResolve library =
    (text : String) (a : Address)
    → library.resolve_udp text ≡ some a
    → a.has_ip ≡ true
    → is_some (library.resolve_udp (library.join_host_port a.ip "27015")) ≡ true

resolved : (o : Option Address) → not (is_some o) ≡ false → (a : Address) × (o ≡ some a)
resolved none h = absurd (ground arith)
resolved (some a) h = (a, refl)

validate-make_parts :
    (library : Library) (cfg : Config) (client : PterodactylClient)
    → validate library cfg ≡ none
    → new_pterodactyl_client library cfg.pterodactyl (pos 0) ≡ ok client
    → JoinsResolve library
    → (parts : Parts) × (make_parts library (ok cfg) ≡ ok parts) × (parts.config ≡ cfg)
unfolding make_parts
validate-make_parts library cfg client h made joins =
    let (limits, _, _, addresses, _) = validate-Passes library cfg h in
    let game : not (str_eq cfg.game "palworld") ≡ false = ground (arith, limits) in
    let (listen, e₁) = resolved (library.resolve_udp cfg.listen_addr) (ground (arith, addresses)) in
    let (backend, e₂) =
      resolved (library.resolve_udp cfg.server_addr) (ground (arith, addresses)) in
    let (detector, e₃) = validate-new_palworld_detector library cfg h in
    let has_ip : backend.has_ip ≡ true = ground (arith, addresses) in
    let joined = joins cfg.server_addr backend e₂ has_ip in
    let (readiness, e₄) = validate-new_backend_readiness library cfg backend joined h in
    (
      record {
        config = cfg;
        detector = detector;
        controller = client;
        listen_addr = listen;
        backend_addr = backend;
        readiness = readiness;
      },
      cc (game, e₃, made, e₁, e₂, e₄),
      refl,
    )

-- Where LoadConfig returned a configuration for which the panel client can be made, run makes every
-- part and New accepts the options: after that only opening a socket can fail. The IP address of an
-- address that the library resolved is taken to resolve when it is joined with the port 27015.
pub load_config-make_parts :
    (library : Library) (file : File) (env : Env) (cfg : Config) (level : LogLevel)
    (client : PterodactylClient) (heap : Heap)
    → load_config library file env ≡ ok (cfg, level)
    → new_pterodactyl_client library cfg.pterodactyl (pos 0) ≡ ok client
    → JoinsResolve library
    → (parts : Parts) × (proxy : Proxy) × (make_parts library
          (config_of (load_config library file env))
        ≡ ok parts)
      × (new (proxy_options_from_config parts.config parts.readiness) heap ≡ ok proxy)
load_config-make_parts library file env cfg level client heap loaded made joins =
    let (base, given, readable, same, valid, logged) =
      (load_config_iff library file env cfg level).0 loaded in
    let (parts, e, config) = validate-make_parts library cfg client valid made joins in
    let (proxy, e') =
      validate-new library parts.config parts.readiness heap
        (ap (validate library) config ∙ valid) in
    (parts, proxy, ap (λ r. make_parts library (config_of r)) loaded ∙ e, e')
