-- ===== src/Errors/Laws.antt =====
-- What marks an error as permanent (pkg/server/pterodactyl.go).
use game_server_snooze.Common.{ℕ, ◌≤◌, ◌<◌, ◌≡◌, ◌≢◌, ◌↔◌, ◌⊎◌, true, arith}
use game_server_snooze.Errors.{Error, is_permanent, classify_http_error}

-- A client error other than 408 and 429.
abbrev pub IsPermanentStatus : ℕ → Type 0
IsPermanentStatus status_code =
    (400 ≤ status_code) × (status_code < 500) × (status_code ≢ 408) × (status_code ≢ 429)

-- A classified HTTP error is permanent exactly when the status code is a client error other than
-- 408 and 429, or the error was permanent before.
pub is_permanent-classify_http_error :
    (status_code : ℕ) (e : Error)
    → (is_permanent (classify_http_error status_code e) ≡ true)
      ↔ (IsPermanentStatus status_code ⊎ (is_permanent e ≡ true))
unfolding is_permanent classify_http_error
is_permanent-classify_http_error status_code e = ground arith
