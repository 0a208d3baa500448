-- ===== src/Cmd/HealthCheck.antt =====
-- cmd/healthcheck.go: the request of the container's health check. The address is a URL as
-- url.Parse reads it; what the endpoint answers to a GET is an argument.
pub mod Endpoint
use game_server_snooze.Common.{
  ℕ, String, Bool, true, false, not, ◌&&◌, ◌||◌, ◌==◌, leb, ltb, Option, none, some, str_eq,
  if◌then◌else◌,
}
use game_server_snooze.Errors.{Error, plain, wrapped}
use game_server_snooze.Session.{Result, ok, err}
use game_server_snooze.Library.{Library, Url}

pub record Answer : Type 0 where
  pub status_code : ℕ
  pub has_location : Bool

-- The status codes for which http.Client follows the header Location.
abbrev pub is_redirect : ℕ → Bool
is_redirect code = code == 301 || code == 302 || code == 303 || code == 307 || code == 308

-- client.Do with a CheckRedirect that always fails.
unfoldable pub do_without_redirects : Result Answer → Result Answer
do_without_redirects answer = elim answer [
  | err e ↦ err e
  | ok a ↦
      if is_redirect a.status_code && a.has_location
      then err (plain "health endpoint redirects are not allowed")
      else ok a
]

abbrev pub is_not_local : Library → Url → Bool
is_not_local library endpoint =
    not (str_eq endpoint.scheme "http")
    || endpoint.has_user
    || str_eq endpoint.hostname ""
    || (not (str_eq endpoint.hostname "localhost")
        && not (library.is_loopback_ip endpoint.hostname))

-- `construct` is the error of http.NewRequestWithContext.
unfoldable pub check_health : Library → Option Error → (Url → Result Answer) → String → Option Error
unfolding do_without_redirects
check_health library construct get address = elim (library.parse_url address) [
  | none ↦ some (plain "parse health endpoint")
  | some endpoint ↦
      if is_not_local library endpoint
      then some (plain "health endpoint must be an HTTP loopback URL")
      else elim construct [
        | some e ↦ some (wrapped "create health request" e)
        | none ↦ elim (do_without_redirects (get endpoint)) [
          | err e ↦ some (wrapped "request health endpoint" e)
          | ok answer ↦
              if ltb answer.status_code 200 || leb 300 answer.status_code
              then some (plain "health endpoint returned a failure status")
              else none
        ]
      ]
]
