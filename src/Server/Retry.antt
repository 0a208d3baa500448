-- ===== src/Server/Retry.antt =====
-- Which failures of the panel are worth another attempt (pkg/server/pterodactyl.go).
use game_server_snooze.Common.{
  ℕ, ◌+◌, ◌<◌, String, ◌≡◌, ◌↔◌, ◌⊎◌, inl, inr, subst, true, false, Option, none, some, arith,
  length, take, Bool-cases, Option-cases, leb,
}
use game_server_snooze.Errors.{Error, wrapped, plain, is_permanent, classify_http_error}
use game_server_snooze.Errors.Laws.{IsPermanentStatus, is_permanent-classify_http_error}
use game_server_snooze.Session.{Packet, Result, ok, err, Result-cases}
use game_server_snooze.Server.{PterodactylClient}
use game_server_snooze.Server.Calls.{
  Body, Response, Json, Http, Request, request, read_limited, response_error, error_text,
  decode_status, read_status, status, read_power, is_success,
}
use Prim.Native.String.{◌++◌ as append}
use game_server_snooze.Server.Answers.{status_of_body}

-- The error of reading the body, if there is one, is not permanent.
abbrev pub IsTransient : Option Error → Type 0
IsTransient none = Unit
IsTransient (some e) = is_permanent e ≡ false

-- The body was read, up to one byte over the limit.
abbrev pub IsRead : Body → Type 0
IsRead body = (65536 < length body.bytes) ⊎ (body.failure ≡ none)

decode_status-permanent :
    (json : Json) (bytes : Packet) (e : Error)
    → decode_status json bytes ≡ err e
    → is_permanent e ≡ true
unfolding decode_status is_permanent
decode_status-permanent json bytes e h = ground arith

larger : (limit size : ℕ) → leb (limit + 1) size ≡ true → limit < size
larger limit size h = ground arith

not_larger : (limit size : ℕ) → leb (limit + 1) size ≡ false → ¬ (limit < size)
not_larger limit size h = ground arith

status_of_body-permanent :
    (json : Json) (body : Body) (e : Error)
    → IsTransient body.failure
    → status_of_body json body ≡ err e
    → (is_permanent e ≡ true) ↔ IsRead body
unfolding read_limited is_permanent
status_of_body-permanent json body e transient h =
    elim (Bool-cases (leb 65537 (length body.bytes))) [
      | inl large ↦
          let permanent = decode_status-permanent json (take 65537 body.bytes) e (cc (h, large)) in
          (λ p. inl (larger 65536 (length body.bytes) large), λ r. permanent)
      | inr small ↦ elim (Option-cases body.failure) [
        | inl complete ↦
            let permanent = decode_status-permanent json body.bytes e (cc (h, small, complete)) in
            (λ p. inr complete, λ r. permanent)
        | inr (e', failed) ↦
            let t = subst IsTransient failed transient in
            let e-wraps : wrapped "read Pterodactyl status" e' ≡ e = cc (h, small, failed) in
            (
              λ p. absurd (cc (p, t, e-wraps)),
              λ r. elim r [
                | inl large ↦ absurd (not_larger 65536 (length body.bytes) small large)
                | inr complete ↦ absurd (cc (complete, failed))
              ],
            )
      ]
    ]

classified :
    (status_code : ℕ) (message : String)
    → (is_permanent (classify_http_error status_code (plain message)) ≡ true)
      ↔ IsPermanentStatus status_code
unfolding is_permanent
classified status_code message =
    let (sound, complete) = is_permanent-classify_http_error status_code (plain message) in
    (λ h. elim (sound h) [ inl p ↦ p | inr p ↦ absurd (cc p) ], λ p. complete (inl p))

response_error-permanent_iff :
    (http : Http) (client : PterodactylClient) (operation : String) (response : Response)
    → (is_permanent (response_error http client operation response) ≡ true)
      ↔ IsPermanentStatus response.status_code
unfolding response_error
response_error-permanent_iff http client operation response =
    elim (Result-cases (read_limited 4097 response.body)) [
      | inl (e, failed) ↦
          let (sound, complete) =
            classified response.status_code
              (http.describe_unread operation response.status_code e) in
          (λ h. sound (cc (h, failed)), λ p. cc (complete p, failed))
      | inr (bytes, read) ↦
          let (sound, complete) =
            classified response.status_code
              (error_text http client operation response.status_code bytes) in
          (λ h. sound (cc (h, read)), λ p. cc (complete p, read))
    ]

success_not_permanent :
    (status_code : ℕ) → is_success status_code ≡ true → ¬ IsPermanentStatus status_code
success_not_permanent status_code h p = ground arith

-- Where the request could be built and the panel answered it, the error of Status is permanent
-- exactly if the status code is a client error other than 408 and 429, or a success whose body was
-- read. The error of reading a body is assumed not to be permanent.
pub status-permanent_iff :
    (http : Http) (json : Json) (send : Request → Result Response) (client : PterodactylClient)
    (asked : Request) (response : Response) (e : Error)
    → request http client "GET" "resources" none ≡ ok asked
    → send asked ≡ ok response
    → IsTransient response.body.failure
    → status http json send client ≡ err e
    → (is_permanent e ≡ true) ↔ (
        IsPermanentStatus response.status_code
        ⊎ ((is_success response.status_code ≡ true) × IsRead response.body))
unfolding status read_status is_permanent
status-permanent_iff http json send client asked response e built answered transient h =
    elim (Bool-cases (is_success response.status_code)) [
      | inl good ↦
          let (sound, complete) =
            status_of_body-permanent json response.body e transient
              (cc (h, built, answered, good)) in
          (
            λ p. inr (good, sound p),
            λ r. elim r [
              | inl p ↦ absurd (success_not_permanent response.status_code good p)
              | inr (_, read) ↦ complete read
            ],
          )
      | inr bad ↦
          let (sound, complete) =
            response_error-permanent_iff http client "get Pterodactyl status" response in
          let same : response_error http client "get Pterodactyl status" response ≡ e =
            cc (h, built, answered, bad) in
          (
            λ p. inl (sound (cc (p, same))),
            λ r. elim r [ inl p ↦ cc (complete p, same) | inr (good, _) ↦ absurd (cc (good, bad)) ],
          )
    ]

-- Where the panel answered a power signal, the error is permanent exactly if the status code is a
-- client error other than 408 and 429.
pub power-permanent_iff :
    (http : Http) (client : PterodactylClient) (signal : String) (response : Response) (e : Error)
    → read_power http client signal (ok response) ≡ some e
    → (is_permanent e ≡ true) ↔ IsPermanentStatus response.status_code
unfolding read_power is_permanent
power-permanent_iff http client signal response e h =
    elim (Bool-cases (is_success response.status_code)) [
      | inl good ↦ absurd (cc (h, good))
      | inr bad ↦
          let operation = append "send Pterodactyl " (append signal " signal") in
          let (sound, complete) = response_error-permanent_iff http client operation response in
          let same : response_error http client operation response ≡ e = cc (h, bad) in
          (λ p. sound (cc (p, same)), λ p. cc (complete p, same))
    ]
