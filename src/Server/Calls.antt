-- ===== src/Server/Calls.antt =====
-- The calls of pkg/server/pterodactyl.go: the requests that the client builds, and what it makes of
-- the panel's answers.
use game_server_snooze.Common.{
  ℕ, ◌+◌, ◌*◌, String, Bool, not, ◌&&◌, Option, none, some, List, [], ◌∷◌, length, take, str_eq,
  ltb, leb, if◌then◌else◌,
}
use Prim.Native.String.{◌++◌ as append}
use game_server_snooze.Errors.{
  Error, plain, wrapped, permanent_error, redacted_error, classify_http_error,
}
use game_server_snooze.Session.{Packet, Result, ok, err}
use game_server_snooze.Library.{Url}
use game_server_snooze.Server.{State, offline, starting, running, stopping, PterodactylClient}

-- A body: its bytes, and the error that reading meets after them, if any.
pub record Body : Type 0 where
  pub bytes : Packet
  pub failure : Option Error

pub record Response : Type 0 where
  pub status_code : ℕ
  pub body : Body

-- io.ReadAll(io.LimitReader(body, limit)).
unfoldable pub read_limited : ℕ → Body → Result Packet
read_limited limit body =
    if leb limit (length body.bytes)
    then ok (take limit body.bytes)
    else elim body.failure [ none ↦ ok body.bytes | some e ↦ err e ]

-- json.Decoder on a body: attributes.current_state of the first value, none if it cannot be
-- decoded, and whether the input ends after that value.
pub record Json : Type 0 where
  pub current_state : Packet → Option String
  pub ends : Packet → Bool

abbrev pub max_pterodactyl_status_body : ℕ
max_pterodactyl_status_body = 64 * 1024

abbrev pub is_success : ℕ → Bool
is_success status_code = leb 200 status_code && ltb status_code 300

unfoldable pub state_of : String → Option State
state_of text =
    if str_eq text "offline"
    then some offline
    else if str_eq text "starting"
    then some starting
    else if str_eq text "running"
    then some running
    else if str_eq text "stopping"
    then some stopping
    else none

-- What the client calls of net/url, net/http, encoding/json, strings and fmt: url.JoinPath of a base
-- URL; the error of http.NewRequestWithContext for a method and a URL; json.Marshal of a power signal;
-- strings.ReplaceAll of a text, an old and a new string; string(bytes); and the two formats of
-- responseError, of the operation, the status code, and the body with whether it was cut, or the
-- error of reading it.
pub record Http : Type 0 where
  pub join_path : Url → List String → Result String
  pub new_request : String → String → Option Error
  pub marshal_signal : String → Result String
  pub replace_all : String → String → String → String
  pub text_of : Packet → String
  pub describe : String → ℕ → String → Bool → String
  pub describe_unread : String → ℕ → Error → String

abbrev pub max_pterodactyl_error_body : ℕ
max_pterodactyl_error_body = 4096

abbrev pub redaction : String
redaction = "[REDACTED]"

unfoldable pub sanitize : Http → PterodactylClient → String → String
sanitize http client message =
    http.replace_all (http.replace_all message client.api_token redaction) client.server_id
      redaction

unfoldable pub sanitize_error : Error → Error
sanitize_error e = redacted_error e "Pterodactyl transport request failed"

-- The text of a response's body: at most the limit of it, sanitized.
abbrev pub error_text : Http → PterodactylClient → String → ℕ → Packet → String
error_text http client operation status_code bytes =
    let truncated = ltb max_pterodactyl_error_body (length bytes) in
    http.describe operation status_code
      (sanitize http client
        (http.text_of (if truncated then take max_pterodactyl_error_body bytes else bytes)))
      truncated

unfoldable pub response_error : Http → PterodactylClient → String → Response → Error
unfolding read_limited sanitize
response_error http client operation response =
    elim (read_limited (max_pterodactyl_error_body + 1) response.body) [
      | err e ↦
          classify_http_error response.status_code
            (plain (http.describe_unread operation response.status_code e))
      | ok bytes ↦
          classify_http_error response.status_code
            (plain (error_text http client operation response.status_code bytes))
    ]

-- An *http.Request with the headers that the client sets; none is a header or a body that is not
-- there.
pub record Request : Type 0 where
  pub method : String
  pub url : String
  pub authorization : String
  pub accept : String
  pub content_type : Option String
  pub body : Option String

unfoldable pub request : Http → PterodactylClient → String → String → Option String → Result Request
request http client method endpoint body =
    elim (http.join_path client.base_url
      ("api" ∷ "client" ∷ "servers" ∷ client.server_id ∷ endpoint ∷ [])) [
        | err e ↦ err (wrapped "construct Pterodactyl request URL" e)
        | ok url ↦ elim (http.new_request method url) [
          | some e ↦ err (wrapped "construct Pterodactyl request" e)
          | none ↦ ok (record {
            method = method;
            url = url;
            authorization = append "Bearer " client.api_token;
            accept = "application/json";
            content_type = none;
            body = body;
          })
        ]
      ]

unfoldable pub decode_status : Json → Packet → Result State
unfolding state_of
decode_status json bytes =
    if ltb max_pterodactyl_status_body (length bytes)
    then err (permanent_error (plain "pterodactyl status response exceeds 65536 bytes"))
    else elim (json.current_state bytes) [
      | none ↦ err (permanent_error (plain "decode Pterodactyl status"))
      | some text ↦
          if not (json.ends bytes)
          then err (permanent_error (plain "decode Pterodactyl status: trailing JSON value"))
          else elim (state_of text) [
            | some state ↦ ok state
            | none ↦ err (permanent_error (plain "unknown Pterodactyl state"))
          ]
    ]

-- Status, from the answer of httpClient.Do on.
unfoldable pub read_status : Http → Json → PterodactylClient → Result Response → Result State
unfolding read_limited response_error decode_status sanitize_error
read_status http json client answer = elim answer [
  | err e ↦ err (wrapped "get Pterodactyl status" (sanitize_error e))
  | ok response ↦
      if not (is_success response.status_code)
      then err (response_error http client "get Pterodactyl status" response)
      else elim (read_limited (max_pterodactyl_status_body + 1) response.body) [
        | err e ↦ err (wrapped "read Pterodactyl status" e)
        | ok bytes ↦ decode_status json bytes
      ]
]

-- `send` is httpClient.Do.
unfoldable pub status : Http → Json → (Request → Result Response) → PterodactylClient → Result State
unfolding request read_status
status http json send client = elim (request http client "GET" "resources" none) [
  | err e ↦ err e
  | ok asked ↦ read_status http json client (send asked)
]

-- power, from the answer of httpClient.Do on; none is success.
unfoldable pub read_power : Http → PterodactylClient → String → Result Response → Option Error
unfolding response_error sanitize_error
read_power http client signal answer = elim answer [
  | err e ↦ some (wrapped (append "send Pterodactyl " (append signal " signal")) (sanitize_error e))
  | ok response ↦
      if not (is_success response.status_code)
      then some (
          response_error http client (append "send Pterodactyl " (append signal " signal"))
            response)
      else none
]

unfoldable pub power :
    Http → (Request → Result Response) → PterodactylClient → String → Option Error
unfolding request read_power
power http send client signal = elim (http.marshal_signal signal) [
  | err e ↦ some (wrapped "encode Pterodactyl power signal" e)
  | ok body ↦ elim (request http client "POST" "power" (some body)) [
    | err e ↦ some e
    | ok asked ↦
        read_power http client signal
          (send (record asked { content_type = some "application/json" }))
  ]
]

unfoldable pub start : Http → (Request → Result Response) → PterodactylClient → Option Error
unfolding power
start http send client = power http send client "start"

unfoldable pub stop : Http → (Request → Result Response) → PterodactylClient → Option Error
unfolding power
stop http send client = power http send client "stop"
