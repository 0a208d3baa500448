-- ===== src/Server/Tests.antt =====
-- Witnesses for Server.
use game_server_snooze.Common.{
  ◌≡◌, ◌↔◌, ◌⊎◌, ◌≤◌, ◌<◌, String, refl, false, true, none, some, [], ◌∷◌,
}
use game_server_snooze.Errors.{is_permanent}
use game_server_snooze.Errors.Laws.{IsPermanentStatus}
use game_server_snooze.Session.{Result, ok}
use game_server_snooze.Common.Int.{pos}
use game_server_snooze.Server.{running, PterodactylClient}
use game_server_snooze.Server.Calls.{
  Response, Json, Http, Request, request, status, start, read_status, response_error, is_success,
}
use game_server_snooze.Server.Power.{power_request, IsPowerUrl, IsAccepted, power-none_iff}
use game_server_snooze.Server.Answers.{Announces, status_iff}
use game_server_snooze.Server.Retry.{IsRead, status-permanent_iff}

abbrev json : Json
json = record { current_state = λ bytes. some "running"; ends = λ bytes. true }

abbrev good : Response
good = record { status_code = 200; body = record { bytes = 1 ∷ 2 ∷ []; failure = none } }

abbrev missing : Response
missing = record { status_code = 404; body = record { bytes = []; failure = none } }

abbrev http : Http
http = record {
  join_path = λ base path. ok "https://panel.example/api/client/servers/1a2b/resources";
  new_request = λ method url. none;
  marshal_signal = λ signal. ok "{\"signal\":\"start\"}";
  replace_all = λ text old new. text;
  text_of = λ bytes. "";
  describe = λ operation status_code body truncated. operation;
  describe_unread = λ operation status_code e. operation;
}

abbrev client : PterodactylClient
client = record {
  base_url = record {
    scheme = "https";
    host = "panel.example";
    hostname = "panel.example";
    has_user = false;
    path = "";
    raw_query = "";
    fragment = "";
  };
  api_token = "token";
  server_id = "1a2b";
  timeout = pos 10_000_000_000;
}

-- The panel answers every request alike.
abbrev answers : Response → Request → Result Response
answers response asked = ok response

status_iff_example : (status http json (answers good) client ≡ ok running) ↔ (
    (asked : Request) × (response : Response) × (request http client "GET" "resources" none
      ≡ ok asked)
    × (answers good asked ≡ ok response)
    × (200 ≤ response.status_code)
    × (response.status_code < 300)
    × Announces json response.body running)
status_iff_example = status_iff http json (answers good) client running

power-none_iff_example : (start http (answers good) client ≡ none) ↔ (
    (body : String) × (url : String) × (http.marshal_signal "start" ≡ ok body)
    × IsPowerUrl http client url
    × (http.new_request "POST" url ≡ none)
    × IsAccepted (answers good (power_request client url body)))
unfolding start
power-none_iff_example = power-none_iff http (answers good) client "start"

abbrev asked : Request
asked = record {
  method = "GET";
  url = "https://panel.example/api/client/servers/1a2b/resources";
  authorization = "Bearer token";
  accept = "application/json";
  content_type = none;
  body = none;
}

status-permanent_iff_example :
    (is_permanent (response_error http client "get Pterodactyl status" missing) ≡ true)
    ↔ (IsPermanentStatus 404 ⊎ ((is_success 404 ≡ true) × IsRead missing.body))
unfolding status request read_status
status-permanent_iff_example =
    status-permanent_iff http json (answers missing) client asked missing
      (response_error http client "get Pterodactyl status" missing) refl refl tt refl
