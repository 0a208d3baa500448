-- ===== src/Games.antt =====
-- pkg/games/palworld.go: the detector of the datagrams that may wake the server. The calls of the
-- callback `diagnostic` are kept in `diagnostics`, the newest first.
pub mod Detection
mod Tests
use game_server_snooze.Common.{
  is_empty, ℕ, ◌+◌, String, Bool, true, false, not, ◌&&◌, ◌||◌, ltb, leb, ◌==◌, Option, none, some,
  List, [], ◌∷◌, ◌++◌, length, take, min, str_eq, if◌then◌else◌,
}
use game_server_snooze.Common.Int.{ℤ, pos, negsuc, ltb_ℤ, leb_ℤ}
use game_server_snooze.Errors.{Error, plain}
use game_server_snooze.Session.{Packet, Result, ok, err}
use game_server_snooze.Library.{Library}

-- `default_palworld_start_signature` in hexadecimal.
abbrev pub default_palworld_start_signature : String
default_palworld_start_signature = "09080004bc597e73"

pub record PalworldOptions : Type 0 where
  pub wake_policy : String
  pub signatures : List String
  pub log_unmatched_prefixes : Bool
  pub diagnostic_prefix_bytes : ℤ
  pub diagnostic_interval : ℤ

pub record PalworldGame : Type 0 where
  pub wake_policy : String
  pub start_signatures : List Packet
  pub log_unmatched : Bool
  pub diagnostic_prefix : ℤ
  pub diagnostic_interval : ℤ
  pub last_diagnostic : ℕ
  pub diagnostics : List (ℕ × Packet)

-- The loop over the signatures.
unfoldable pub decode_signatures : Library → List String → Option (List Packet)
decode_signatures library [] = some []
decode_signatures library (encoded ∷ rest) =
    let decoded = library.hex_decode (library.trim_space encoded) in
    let others = decode_signatures library rest in
    elim decoded [
      | none ↦ none
      | some signature ↦
          if is_empty signature
          then none
          else elim others [ none ↦ none | some signatures ↦ some (signature ∷ signatures) ]
    ]

abbrev pub or_default : ℤ → ℤ → ℤ
or_default value default = if leb_ℤ value (pos 0) then default else value

abbrev game_from : PalworldOptions → List Packet → PalworldGame
game_from o signatures = record {
  wake_policy = o.wake_policy;
  start_signatures = signatures;
  log_unmatched = o.log_unmatched_prefixes;
  diagnostic_prefix = or_default o.diagnostic_prefix_bytes (pos 8);
  diagnostic_interval = or_default o.diagnostic_interval (pos 30_000_000_000);
  last_diagnostic = 0;
  diagnostics = [];
}

unfoldable pub new_configured_palworld_game : Library → PalworldOptions → Result PalworldGame
new_configured_palworld_game library o =
    if not (str_eq o.wake_policy "signature") && not (str_eq o.wake_policy "any")
    then err (plain "invalid Palworld wake policy")
    else if str_eq o.wake_policy "signature" && is_empty o.signatures
    then err (plain "at least one Palworld wake signature is required")
    else if ltb_ℤ (pos 32) (or_default o.diagnostic_prefix_bytes (pos 8))
    then err (plain "palworld diagnostic prefix must not exceed 32 bytes")
    else if str_eq o.wake_policy "signature"
    then (elim (decode_signatures library o.signatures) [
      | none ↦ err (plain "invalid Palworld wake signature")
      | some signatures ↦ ok (game_from o signatures)
    ])
    else ok (game_from o [])

-- NewPalworldGame; an error is its panic.
unfoldable pub new_palworld_game : Library → Result PalworldGame
unfolding new_configured_palworld_game
new_palworld_game library = new_configured_palworld_game library (record {
  wake_policy = "signature";
  signatures = default_palworld_start_signature ∷ [];
  log_unmatched_prefixes = false;
  diagnostic_prefix_bytes = pos 0;
  diagnostic_interval = pos 0;
})

-- bytes.Equal.
unfoldable pub bytes_equal : Packet → Packet → Bool
bytes_equal [] [] = true
bytes_equal [] (y ∷ ys) = false
bytes_equal (x ∷ xs) [] = false
bytes_equal (x ∷ xs) (y ∷ ys) = x == y && bytes_equal xs ys

unfoldable pub matches_any : List Packet → Packet → Bool
matches_any [] bytes = false
matches_any (signature ∷ signatures) bytes =
    (leb (length signature) (length bytes) && bytes_equal (take (length signature) bytes) signature)
    || matches_any signatures bytes

-- min(n, d) for a positive d, which the constructor makes of the limit.
abbrev pub min_limit : ℕ → ℤ → ℕ
min_limit n (pos d) = min n d
min_limit n (negsuc d) = 0

abbrev pub after_interval : ℕ → ℤ → ℕ
after_interval last (pos d) = last + d
after_interval last (negsuc d) = last

unfoldable pub diagnose_unmatched : ℕ → Packet → PalworldGame → PalworldGame
diagnose_unmatched now bytes game =
    if not game.log_unmatched || is_empty bytes
    then game
    else if not (game.last_diagnostic == 0)
        && ltb now (after_interval game.last_diagnostic game.diagnostic_interval)
    then game
    else record game {
      last_diagnostic = now;
      diagnostics =
          (length bytes, take (min_limit (length bytes) game.diagnostic_prefix) bytes)
          ∷ game.diagnostics;
    }

unfoldable pub detect_start : ℕ → Packet → PalworldGame → Bool × PalworldGame
detect_start now bytes game =
    if str_eq game.wake_policy "any"
    then (not (is_empty bytes), game)
    else if matches_any game.start_signatures bytes
    then (true, game)
    else (false, diagnose_unmatched now bytes game)
