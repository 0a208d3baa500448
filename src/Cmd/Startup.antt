-- ===== src/Cmd/Startup.antt =====
-- A configuration that passes Validate builds every part that cmd/main.go makes from it.

use game_server_snooze.Common.{
  ℕ, ◌≡◌, String, Bool, true, false, Option, none, some, List, [], ◌∷◌, arith, is_some, if_split,
  refl,
}
use game_server_snooze.Common.Int.{ℤ, pos, ltb_ℤ, leb_ℤ}
use game_server_snooze.Session.{Packet, Result, ok, err}
use game_server_snooze.Store.{Heap, new_store}
use game_server_snooze.Library.{Library, Address}
use game_server_snooze.Config.{Config, validate, has_bad_signature, is_missing}
use game_server_snooze.Config.Validation.{validate-Passes}
use game_server_snooze.Games.{
  PalworldGame, decode_signatures, new_configured_palworld_game, or_default,
}
use game_server_snooze.Proxy.{Proxy, new, with_defaults, check_options}
use game_server_snooze.Readiness.{new_pterodactyl_probe}
use game_server_snooze.Readiness.A2s.{new_a2s_probe}
use game_server_snooze.Cmd.{
  BackendReadiness, new_palworld_detector, new_backend_readiness, proxy_options_from_config,
}

abbrev pub is_ok {ℓ} : {A : Type ℓ} → Result A → Bool
is_ok (ok x) = true
is_ok (err e) = false

pub the_result {ℓ} : {A : Type ℓ} (r : Result A) → is_ok r ≡ true → (x : A) × (r ≡ ok x)
the_result (ok x) h = (x, refl)
the_result (err e) h = absurd (ground arith)

present : (o : Option Packet) → is_missing o ≡ false → (x : ℕ) × (xs : Packet) × (o ≡ some (x ∷ xs))
present none h = absurd (ground arith)
present (some []) h = absurd (ground arith)
present (some (x ∷ xs)) h = (x, xs, refl)

decodes :
    (library : Library) (signatures : List String)
    → has_bad_signature library signatures ≡ false
    → is_some (decode_signatures library signatures) ≡ true
unfolding decode_signatures
decodes library [] h = refl
decodes library (s ∷ signatures) h =
    let rest = decodes library signatures (ground arith) in
    let (x, xs, e) = present (library.hex_decode (library.trim_space s)) (ground arith) in
    ground (arith, rest, e)

prefix_fits : (d : ℤ) → ltb_ℤ (pos 32) d ≡ false → ltb_ℤ (pos 32) (or_default d (pos 8)) ≡ false
prefix_fits d h =
    if_split (λ x. ltb_ℤ (pos 32) x ≡ false) (leb_ℤ d (pos 0)) (pos 8) d (λ e. ground arith)
      (λ e. h)

-- Validate accepts no configuration that the constructor of the detector refuses.
pub validate-new_palworld_detector :
    (library : Library) (cfg : Config)
    → validate library cfg ≡ none
    → (game : PalworldGame) × (new_palworld_detector library cfg ≡ ok game)
unfolding new_palworld_detector new_configured_palworld_game
validate-new_palworld_detector library cfg h =
    let (_, (policy, (given, (hex, (range, _)))), _, _, _) = validate-Passes library cfg h in
    the_result (new_palworld_detector library cfg) (
      ground (
        arith,
        policy,
        given,
        decodes library cfg.wake_signatures hex,
        prefix_fits cfg.diagnostic_prefix_bytes (ground (arith, range)),
      ))

-- Validate accepts no configuration that New of the proxy refuses, whatever the readiness.
pub validate-new :
    (library : Library) (cfg : Config) (readiness : BackendReadiness) (heap : Heap)
    → validate library cfg ≡ none
    → (proxy : Proxy) × (new (proxy_options_from_config cfg readiness) heap ≡ ok proxy)
unfolding new proxy_options_from_config new_store with_defaults check_options
validate-new library cfg readiness heap h =
    let (limits, _, _, _, _) = validate-Passes library cfg h in
    the_result (new (proxy_options_from_config cfg readiness) heap) (ground (arith, limits))

-- Validate accepts no configuration for which the readiness probe cannot be built, where the
-- backend's own IP address joined with the port 27015 resolves.
pub validate-new_backend_readiness :
    (library : Library) (cfg : Config) (backend : Address)
    → is_some (library.resolve_udp (library.join_host_port backend.ip "27015")) ≡ true
    → validate library cfg ≡ none
    → (readiness : BackendReadiness) × (new_backend_readiness library cfg backend true
        ≡ ok readiness)
unfolding new_backend_readiness new_pterodactyl_probe new_a2s_probe
validate-new_backend_readiness library cfg backend joins h =
    let (limits, _, probes, _, _) = validate-Passes library cfg h in
    the_result (new_backend_readiness library cfg backend true)
      (ground (arith, limits, probes, joins))
