-- ===== src/Server.antt =====
-- pkg/server/pterodactyl.go: the client of the panel's API. What net/url, net/http and
-- encoding/json answer are arguments.
pub mod Calls
pub mod Answers
pub mod Power
pub mod Retry
mod Tests
use game_server_snooze.Common.{
  ℕ, ◌+◌, ◌*◌, String, Bool, true, false, not, ◌&&◌, ◌||◌, Option, none, some, List, [], ◌∷◌,
  length, take, str_eq, ltb, leb, if◌then◌else◌,
}
use Prim.Native.String.{◌++◌ as append}
use game_server_snooze.Common.Int.{ℤ, pos, ltb_ℤ, leb_ℤ}
use game_server_snooze.Errors.{
  Error, plain, wrapped, permanent_error, redacted_error, classify_http_error,
}
use game_server_snooze.Session.{Packet, Result, ok, err}
use game_server_snooze.Library.{Library, Url}
use game_server_snooze.Config.{PterodactylConfig, is_blank}

pub data State : Type 0 where
  offline starting running stopping : State

pub record PterodactylClient : Type 0 where
  pub base_url : Url
  pub api_token : String
  pub server_id : String
  pub timeout : ℤ

abbrev max_timeout : ℤ
max_timeout = pos 10_000_000_000

abbrev pub is_bad_base_url : Url → Bool
is_bad_base_url url =
    (not (str_eq url.scheme "http") && not (str_eq url.scheme "https"))
    || str_eq url.host ""
    || url.has_user
    || not (str_eq url.raw_query "")
    || not (str_eq url.fragment "")

abbrev pub is_plaintext : Library → Url → Bool
is_plaintext library url =
    str_eq url.scheme "http"
    && not (str_eq url.hostname "localhost")
    && not (library.is_loopback_ip url.hostname)

-- `given` is the timeout of the http.Client that is passed, zero for nil.
unfoldable pub new_pterodactyl_client : Library → PterodactylConfig → ℤ → Result PterodactylClient
new_pterodactyl_client library cfg given = elim (library.parse_url cfg.base_url) [
  | none ↦ err (plain "invalid Pterodactyl base URL")
  | some url ↦
      if is_bad_base_url url
      then err (plain "invalid Pterodactyl base URL")
      else if is_plaintext library url
      then err (plain "pterodactyl plaintext HTTP is restricted to loopback tests")
      else if is_blank library cfg.api_token || not (library.matches_server_id cfg.server_id)
      then err (plain "pterodactyl API token and valid server ID are required")
      else ok (record {
        base_url = url;
        api_token = cfg.api_token;
        server_id = cfg.server_id;
        timeout = if leb_ℤ given (pos 0) || ltb_ℤ max_timeout given then max_timeout else given;
      })
]
