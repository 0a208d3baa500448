-- ===== src/Health.antt =====
-- pkg/proxy/health.go: the ready flag and the handler of the health endpoint. The routing is that of
-- http.ServeMux for the patterns "GET /healthz" and "GET /readyz".
use game_server_snooze.Common.{ℕ, String, Bool, ◌||◌, str_eq, if◌then◌else◌}

pub record HealthState : Type 0 where
  pub is_ready : Bool

unfoldable pub set_ready : Bool → HealthState → HealthState
set_ready ready state = record state { is_ready = ready }

unfoldable pub ready : HealthState → Bool
ready state = state.is_ready

pub record Reply : Type 0 where
  pub status_code : ℕ
  pub content_type : String
  pub text : String

abbrev pub plain_text : String
plain_text = "text/plain; charset=utf-8"

-- A route of its own: the handler of GET /healthz does not look at the state.
unfoldable pub healthz : HealthState → Reply
healthz state = record { status_code = 200; content_type = plain_text; text = "ok\n" }

unfoldable pub readyz : HealthState → Reply
unfolding ready
readyz state =
    if ready state
    then record { status_code = 200; content_type = plain_text; text = "ready\n" }
    else record { status_code = 503; content_type = plain_text; text = "not ready\n" }

-- A pattern with the method GET matches HEAD too; a path that only another method reaches is
-- answered with 405, every other path with 404.
unfoldable pub route : (HealthState → Reply) → String → HealthState → Reply
route handler method state =
    if str_eq method "GET" || str_eq method "HEAD"
    then handler state
    else record { status_code = 405; content_type = plain_text; text = "Method Not Allowed\n" }

unfoldable pub new_health_handler : HealthState → String → String → Reply
unfolding healthz readyz route
new_health_handler state method path =
    if str_eq path "/healthz"
    then route healthz method state
    else if str_eq path "/readyz"
    then route readyz method state
    else record { status_code = 404; content_type = plain_text; text = "404 page not found\n" }
