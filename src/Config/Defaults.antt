-- ===== src/Config/Defaults.antt =====
-- The defaults of pkg/config/config.go against its own validation.
use game_server_snooze.Common.{ℕ, String, ◌≡◌, ◌↔◌, true, false, none, some, List, ◌∷◌, arith}
use game_server_snooze.Library.{Library, Address}
use game_server_snooze.Config.{
  PterodactylConfig, default_config, validate, is_blank, is_bad_panel_url, is_plaintext_panel,
  is_unspecific,
}

-- What the defaults take for granted of the library: it resolves the default addresses, the health
-- address to a loopback address, and decodes the default signature.
pub record IsUsable (library : Library) : Type 0 where
  pub listen : Address
  pub listens : library.resolve_udp ":8211" ≡ some listen
  pub byte : ℕ
  pub bytes : List ℕ
  pub decodes : library.hex_decode (library.trim_space "09080004bc597e73") ≡ some (byte ∷ bytes)
  pub health : Address
  pub resolves : library.resolve_tcp "127.0.0.1:8080" ≡ some health
  pub has_ip : health.has_ip ≡ true
  pub is_loopback : health.is_loopback ≡ true

-- The address of the backend and the panel are acceptable.
abbrev pub IsComplete : Library → String → PterodactylConfig → Type 0
IsComplete library server_addr panel =
    (is_blank library server_addr ≡ false)
    × (is_unspecific (library.resolve_udp server_addr) ≡ false)
    × (is_bad_panel_url (library.parse_url panel.base_url) ≡ false)
    × (is_plaintext_panel library (library.parse_url panel.base_url) ≡ false)
    × (is_blank library panel.api_token ≡ false)
    × (is_blank library panel.server_id ≡ false)

-- The defaults validate as soon as the backend's address and the panel are given, and not before:
-- every other check passes for them.
pub validate-default_config :
    (library : Library) (server_addr : String) (panel : PterodactylConfig)
    → IsUsable library
    → (validate library (record default_config { server_addr = server_addr; pterodactyl = panel })
        ≡ none)
      ↔ IsComplete library server_addr panel
unfolding validate
validate-default_config library server_addr panel usable = (λ h. ground arith, λ h. ground arith)
