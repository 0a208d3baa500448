-- ===== src/Server/Answers.antt =====
-- What the answers of the panel mean to the callers of the client (pkg/server/pterodactyl.go).
use game_server_snooze.Common.{
  length-take, if◌then◌else◌, ℕ, ◌+◌, ◌≤◌, ◌<◌, String, ◌≡◌, ◌↔◌, inl, inr, refl, ◌∙◌, ap, subst,
  true, not, none, some, arith, length, take, eq_iff, Bool-cases, Option-cases, leb,
}
use game_server_snooze.Errors.{Error, wrapped}
use game_server_snooze.Session.{Packet, Result, ok, err, Result-cases}
use game_server_snooze.Server.{State, offline, starting, running, stopping, PterodactylClient}
use game_server_snooze.Server.Calls.{
  Body, Response, Json, Http, Request, request, read_limited, state_of, response_error,
  decode_status, read_status, status, is_success,
}

-- How the panel spells a state.
abbrev pub state_name : State → String
state_name offline = "offline"
state_name starting = "starting"
state_name running = "running"
state_name stopping = "stopping"

state_of-state_name : (s : State) → state_of (state_name s) ≡ some s
unfolding state_of
state_of-state_name offline = refl
state_of-state_name starting = refl
state_of-state_name running = refl
state_of-state_name stopping = refl

state_of_sound : (text : String) (s : State) → state_of text ≡ some s → text ≡ state_name s
unfolding state_of
state_of_sound text offline h = (eq_iff text "offline").0 (ground arith)
state_of_sound text starting h = (eq_iff text "starting").0 (ground arith)
state_of_sound text running h = (eq_iff text "running").0 (ground arith)
state_of_sound text stopping h = (eq_iff text "stopping").0 (ground arith)

-- The body is complete and is one JSON value with this state.
abbrev pub Announces : Json → Body → State → Type 0
Announces json body s =
    (length body.bytes ≤ 65536)
    × (body.failure ≡ none)
    × (json.current_state body.bytes ≡ some (state_name s))
    × (json.ends body.bytes ≡ true)

decode_status_iff :
    (json : Json) (bytes : Packet) (s : State)
    → (decode_status json bytes ≡ ok s) ↔ (
        (length bytes ≤ 65536)
        × (json.current_state bytes ≡ some (state_name s))
        × (json.ends bytes ≡ true))
unfolding decode_status
decode_status_iff json bytes s = (
  λ h. elim (Option-cases (json.current_state bytes)) [
    | inl e ↦ absurd (ground (arith, e))
    | inr (text, e) ↦ elim (Option-cases (state_of text)) [
      | inl e' ↦ absurd (ground (arith, e, e'))
      | inr (s', e') ↦ (
        ground (arith, e, e'),
        e ∙ ap some (state_of_sound text s (ground (arith, e, e'))),
        ground (arith, e, e'),
      )
    ]
  ],
  λ (short, named, ended). ground (arith, state_of-state_name s),
)

abbrev pub status_of_body : Json → Body → Result State
status_of_body json body = elim (read_limited 65537 body) [
  | err e ↦ err (wrapped "read Pterodactyl status" e)
  | ok bytes ↦ decode_status json bytes
]

too_large : (limit size : ℕ) → leb (limit + 1) size ≡ true → ¬ (size ≤ limit)
too_large limit size h = ground arith

status_of_body_iff :
    (json : Json) (body : Body) (s : State)
    → (status_of_body json body ≡ ok s) ↔ Announces json body s
unfolding read_limited
status_of_body_iff json body s =
    let (sound, complete) = decode_status_iff json body.bytes s in
    elim (Bool-cases (leb 65537 (length body.bytes))) [
      | inl large ↦
          let (too_short, _) = decode_status_iff json (take 65537 body.bytes) s in
          let taken = length-take 65537 body.bytes (ground arith) in
          (
            λ h. absurd (omega (arith, taken, (too_short (ground (arith, h, large))).0)),
            λ (short, complete', named, ended).
                absurd (too_large 65536 (length body.bytes) large short),
          )
      | inr small ↦ elim (Option-cases body.failure) [
        | inl e ↦ (
          λ h.
              let (short, named, ended) = sound (ground (arith, e, small)) in
              (short, e, named, ended),
          λ (short, complete', named, ended).
              ground (arith, e, small, complete (short, named, ended)),
        )
        | inr (e, failed) ↦ (
          λ h. absurd (ground (arith, failed, small)),
          λ (short, complete', named, ended). absurd (ground arith),
        )
      ]
    ]

success_iff :
    (status_code : ℕ) (e : Error) (r : Result State) (s : State)
    → ((if not (is_success status_code) then err e else r) ≡ ok s)
      ↔ ((200 ≤ status_code) × (status_code < 300) × (r ≡ ok s))
success_iff status_code e r s = (λ h. (ground arith, ground arith, ground arith), λ h. ground arith)

read_status_iff :
    (http : Http) (json : Json) (client : PterodactylClient) (answer : Result Response) (s : State)
    → (read_status http json client answer ≡ ok s) ↔ (
        (response : Response) × (answer ≡ ok response)
        × (200 ≤ response.status_code)
        × (response.status_code < 300)
        × Announces json response.body s)
unfolding read_status
read_status_iff http json client (err e) s = (λ h. cc, λ (response, answered, lo, hi, rest). cc)
read_status_iff http json client (ok response) s =
    let (announces, announced) = status_of_body_iff json response.body s in
    let (succeeds, succeeded) =
      success_iff response.status_code
        (response_error http client "get Pterodactyl status" response)
        (status_of_body json response.body) s in
    (
      λ h. let (lo, hi, read) = succeeds h in (response, refl, lo, hi, announces read),
      λ (x, answered, lo, hi, body).
          let e : x ≡ response = cc in
          succeeded (
            subst
              (λ (r : Response).
                (200 ≤ r.status_code)
                × (r.status_code < 300)
                × (status_of_body json response.body ≡ ok s))
              e (lo, hi, announced (subst (λ (r : Response). Announces json r.body s) e body))),
    )

-- Status answers a state exactly if the request could be built and was answered with a status code
-- of the 200s and a body of at most 65536 bytes, read without an error, that is one JSON value with
-- the name of that state.
pub status_iff :
    (http : Http) (json : Json) (send : Request → Result Response) (client : PterodactylClient)
    (s : State)
    → (status http json send client ≡ ok s) ↔ (
        (asked : Request) × (response : Response) × (request http client "GET" "resources" none
          ≡ ok asked)
        × (send asked ≡ ok response)
        × (200 ≤ response.status_code)
        × (response.status_code < 300)
        × Announces json response.body s)
unfolding status
status_iff http json send client s =
    elim (Result-cases (request http client "GET" "resources" none)) [
      | inl (e, failed) ↦ (
        λ h. absurd (cc (h, failed)),
        λ (asked, response, built, answered, lo, hi, body). absurd (cc (built, failed)),
      )
      | inr (asked, built) ↦
          let (sound, complete) = read_status_iff http json client (send asked) s in
          (
            λ h.
                let (response, answered, lo, hi, body) = sound (cc (h, built)) in
                (asked, response, built, answered, lo, hi, body),
            λ (asked', response, built', answered, lo, hi, body).
                let e : asked' ≡ asked = cc (built', built) in
                let answered' = subst (λ r. send r ≡ ok response) e answered in
                cc (built, complete (response, answered', lo, hi, body)),
          )
    ]
