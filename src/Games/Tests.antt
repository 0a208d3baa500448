-- ===== src/Games/Tests.antt =====
-- Witnesses for Games.
use game_server_snooze.Common.{◌≡◌, ◌≢◌, ◌↔◌, ◌⊎◌, true, [], ◌∷◌, arith, refl}
use game_server_snooze.Common.Int.{pos}
use game_server_snooze.Session.{Packet}
use game_server_snooze.Games.{
  PalworldGame, detect_start, diagnose_unmatched, matches_any, bytes_equal,
}
use game_server_snooze.Games.Detection.{AnyIsPrefix, detect_start_iff, detect_start_rate_limited}

abbrev game : PalworldGame
game = record {
  wake_policy = "signature";
  start_signatures = (9 ∷ 8 ∷ []) ∷ [];
  log_unmatched = true;
  diagnostic_prefix = pos 2;
  diagnostic_interval = pos 30;
  last_diagnostic = 0;
  diagnostics = [];
}

abbrev candidate : Packet
candidate = 9 ∷ 8 ∷ 7 ∷ []

detect_start_iff_example : ((detect_start 5 candidate game).0 ≡ true) ↔ (
    ((game.wake_policy ≡ "any") × (candidate ≢ []))
    ⊎ ((game.wake_policy ≢ "any") × AnyIsPrefix ((9 ∷ 8 ∷ []) ∷ []) candidate))
detect_start_iff_example = detect_start_iff 5 candidate game

detect_start_rate_limited_example :
    let logged = (detect_start 100 (1 ∷ 2 ∷ 3 ∷ []) game).1 in
    (detect_start 120 (4 ∷ []) logged).1 ≡ logged
unfolding detect_start diagnose_unmatched matches_any bytes_equal
detect_start_rate_limited_example =
    detect_start_rate_limited 100 120 30 (1 ∷ 2 ∷ 3 ∷ []) (4 ∷ []) game refl
      (λ e. absurd (ground arith)) (λ e. absurd (ground arith)) (ground arith)
