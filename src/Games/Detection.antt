-- ===== src/Games/Detection.antt =====
-- What wakes the server and what the diagnostics may show (pkg/games/palworld.go).
use game_server_snooze.Common.{
  is_empty, ℕ, ◌+◌, ◌<◌, ◌≡◌, ◌≢◌, ◌↔◌, ◌⊎◌, inl, inr, refl, Bool, true, false, some, not, ◌&&◌,
  leb, List, [], ◌∷◌, ◌++◌, arith, length, take, str_eq, eq_iff, Bool-cases,
}
use game_server_snooze.Common.Int.{pos}
use game_server_snooze.Session.{Packet, ok}
use game_server_snooze.Library.{Library}
use game_server_snooze.Games.{
  new_palworld_game, new_configured_palworld_game, decode_signatures,
  default_palworld_start_signature, PalworldGame, bytes_equal, matches_any, diagnose_unmatched,
  detect_start,
}

-- The datagram begins with the signature.
abbrev pub IsPrefix : Packet → Packet → Type 0
IsPrefix signature bytes = (rest : Packet) × (bytes ≡ signature ++ rest)

abbrev pub AnyIsPrefix : List Packet → Packet → Type 0
AnyIsPrefix [] bytes = ⊥
AnyIsPrefix (signature ∷ signatures) bytes = IsPrefix signature bytes ⊎ AnyIsPrefix signatures bytes

bytes_equal_iff : (xs ys : Packet) → (bytes_equal xs ys ≡ true) ↔ (xs ≡ ys)
unfolding bytes_equal
bytes_equal_iff [] [] = (λ h. refl, λ h. refl)
bytes_equal_iff [] (y ∷ ys) = (λ h. cc, λ h. cc)
bytes_equal_iff (x ∷ xs) [] = (λ h. cc, λ h. cc)
bytes_equal_iff (x ∷ xs) (y ∷ ys) =
    let ih = bytes_equal_iff xs ys in (λ h. ground (arith, ih), λ h. ground (arith, ih))

abbrev has_prefix : Packet → Packet → Bool
has_prefix signature bytes =
    leb (length signature) (length bytes) && bytes_equal (take (length signature) bytes) signature

has_prefix_sound : (s b : Packet) → has_prefix s b ≡ true → IsPrefix s b
unfolding bytes_equal
has_prefix_sound [] b h = (b, refl)
has_prefix_sound (x ∷ s) [] h = absurd (ground arith)
has_prefix_sound (x ∷ s) (y ∷ b) h =
    let (rest, e) = has_prefix_sound s b (ground arith) in (rest, ground (arith, e))

has_prefix_complete : (s rest : Packet) → has_prefix s (s ++ rest) ≡ true
unfolding bytes_equal
has_prefix_complete [] rest = ground arith
has_prefix_complete (x ∷ s) rest = ground (arith, has_prefix_complete s rest)

matches_any_iff :
    (signatures : List Packet) (bytes : Packet)
    → (matches_any signatures bytes ≡ true) ↔ AnyIsPrefix signatures bytes
unfolding matches_any
matches_any_iff [] bytes = (λ h. cc, λ h. absurd h)
matches_any_iff (s ∷ signatures) bytes =
    let (sound, complete) = matches_any_iff signatures bytes in
    (
      λ h. elim (Bool-cases (has_prefix s bytes)) [
        | inl found ↦ inl (has_prefix_sound s bytes found)
        | inr missing ↦ inr (sound (ground (arith, missing)))
      ],
      λ h. elim h [
        | inl (rest, e) ↦ ground (arith, has_prefix_complete s rest, e)
        | inr later ↦ ground (arith, complete later)
      ],
    )

is_empty_iff : (bytes : Packet) → (not (is_empty bytes) ≡ true) ↔ (bytes ≢ [])
is_empty_iff [] = (λ h. absurd (ground arith), λ h. absurd (h refl))
is_empty_iff (x ∷ bytes) = (λ h e. absurd (ground arith), λ h. refl)

-- Under the policy `any` every datagram that is not empty wakes the server; under any other policy
-- exactly those that begin with one of the signatures.
pub detect_start_iff :
    (now : ℕ) (bytes : Packet) (game : PalworldGame)
    → ((detect_start now bytes game).0 ≡ true) ↔ (
        ((game.wake_policy ≡ "any") × (bytes ≢ []))
        ⊎ ((game.wake_policy ≢ "any") × AnyIsPrefix game.start_signatures bytes))
unfolding detect_start
detect_start_iff now bytes game =
    let (sound, complete) = matches_any_iff game.start_signatures bytes in
    let (is_any, any_is) = eq_iff game.wake_policy "any" in
    let (filled, is_filled) = is_empty_iff bytes in
    (
      λ h. elim (Bool-cases (str_eq game.wake_policy "any")) [
        | inl any ↦ inl (is_any any, filled (ground arith))
        | inr other ↦ inr (λ e. absurd (ground (arith, any_is e)), sound (ground arith))
      ],
      λ h. elim h [
        | inl (e, ne) ↦ ground (arith, any_is e, is_filled ne)
        | inr (ne, found) ↦ elim (Bool-cases (str_eq game.wake_policy "any")) [
          | inl any ↦ absurd (ne (is_any any))
          | inr other ↦ ground (arith, complete found)
        ]
      ],
    )

-- Within the diagnostic interval after a diagnostic, detection adds no other, whatever the datagram.
pub detect_start_rate_limited :
    (now later interval : ℕ) (first second : Packet) (game : PalworldGame)
    → game.diagnostic_interval ≡ pos interval
    → now ≢ 0
    → (detect_start now first game).1.diagnostics ≢ game.diagnostics
    → later < now + interval
    → let logged = (detect_start now first game).1 in (detect_start later second logged).1 ≡ logged
unfolding detect_start diagnose_unmatched
detect_start_rate_limited now later interval first second game d nz logged soon = ground arith

-- NewPalworldGame does not panic where the default signature decodes to something; its detector then
-- waits for that signature alone, and shows nothing of other datagrams.
pub new_palworld_game_lem :
    (library : Library) (byte : ℕ) (bytes : Packet)
    → library.hex_decode (library.trim_space default_palworld_start_signature) ≡ some (byte ∷ bytes)
    → (game : PalworldGame) × (new_palworld_game library ≡ ok game)
      × (game.start_signatures ≡ (byte ∷ bytes) ∷ [])
      × (game.log_unmatched ≡ false)
unfolding new_palworld_game new_configured_palworld_game decode_signatures
new_palworld_game_lem library byte bytes decoded =
    let game : PalworldGame = record {
      wake_policy = "signature";
      start_signatures = (byte ∷ bytes) ∷ [];
      log_unmatched = false;
      diagnostic_prefix = pos 8;
      diagnostic_interval = pos 30_000_000_000;
      last_diagnostic = 0;
      diagnostics = [];
    } in
    (game, cc (decoded), refl, refl)
