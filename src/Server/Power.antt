-- ===== src/Server/Power.antt =====
-- The power signals of pkg/server/pterodactyl.go.
use game_server_snooze.Common.{
  ℕ, ◌≤◌, ◌<◌, String, ◌≡◌, ◌↔◌, inl, inr, refl, subst, not, none, some, [], ◌∷◌, arith,
  if◌then◌else◌, Option-cases,
}
use Prim.Native.String.{◌++◌ as append}
use game_server_snooze.Errors.{Error}
use game_server_snooze.Session.{Result, ok, err, Result-cases}
use game_server_snooze.Server.{PterodactylClient}
use game_server_snooze.Server.Calls.{
  Http, Request, Response, request, response_error, read_power, power, is_success,
}

-- A POST to this URL with the token and a JSON body.
abbrev pub power_request : PterodactylClient → String → String → Request
power_request client url body = record {
  method = "POST";
  url = url;
  authorization = append "Bearer " client.api_token;
  accept = "application/json";
  content_type = some "application/json";
  body = some body;
}

-- The power endpoint of the client's server.
abbrev pub IsPowerUrl : Http → PterodactylClient → String → Type 0
IsPowerUrl http client url =
    http.join_path client.base_url ("api" ∷ "client" ∷ "servers" ∷ client.server_id ∷ "power" ∷ [])
    ≡ ok url

abbrev pub IsAccepted : Result Response → Type 0
IsAccepted answer =
    (response : Response) × (answer ≡ ok response)
    × (200 ≤ response.status_code)
    × (response.status_code < 300)

accepted :
    (status_code : ℕ) (e : Error)
    → ((if not (is_success status_code) then some e else none) ≡ none)
      ↔ ((200 ≤ status_code) × (status_code < 300))
accepted status_code e = (λ h. (ground arith, ground arith), λ h. ground arith)

read_power_iff :
    (http : Http) (client : PterodactylClient) (signal : String) (answer : Result Response)
    → (read_power http client signal answer ≡ none) ↔ IsAccepted answer
unfolding read_power
read_power_iff http client signal (err e) = (λ h. cc, λ (response, answered, lo, hi). cc)
read_power_iff http client signal (ok response) =
    let (sound, complete) = accepted response.status_code (
      response_error http client (append "send Pterodactyl " (append signal " signal")) response) in
    (
      λ h. let (lo, hi) = sound h in (response, refl, lo, hi),
      λ (x, answered, lo, hi).
          let e : x ≡ response = cc in
          complete
            (subst (λ (r : Response). (200 ≤ r.status_code) × (r.status_code < 300)) e (lo, hi)),
    )

-- A power signal succeeds exactly if it could be encoded, the URL and the request could be built, and
-- the panel answered with a status code of the 200s to that POST to the power endpoint of the
-- client's server, which carries the client's token and the encoded signal.
pub power-none_iff :
    (http : Http) (send : Request → Result Response) (client : PterodactylClient) (signal : String)
    → (power http send client signal ≡ none) ↔ (
        (body : String) × (url : String) × (http.marshal_signal signal ≡ ok body)
        × IsPowerUrl http client url
        × (http.new_request "POST" url ≡ none)
        × IsAccepted (send (power_request client url body)))
unfolding power request
power-none_iff http send client signal =
    let path = "api" ∷ "client" ∷ "servers" ∷ client.server_id ∷ "power" ∷ [] in
    elim (Result-cases (http.marshal_signal signal)) [
      | inl (e, failed) ↦ (
        λ h. absurd (cc (h, failed)),
        λ (body, url, marshalled, joined, built, answered). absurd (cc (marshalled, failed)),
      )
      | inr (body, marshalled) ↦ elim (Result-cases (http.join_path client.base_url path)) [
        | inl (e, failed) ↦ (
          λ h. absurd (cc (h, marshalled, failed)),
          λ (body', url, marshalled', joined, built, answered). absurd (cc (joined, failed)),
        )
        | inr (url, joined) ↦ elim (Option-cases (http.new_request "POST" url)) [
          | inr (e, failed) ↦ (
            λ h. absurd (cc (h, marshalled, joined, failed)),
            λ (body', url', marshalled', joined', built, answered).
                let e' : url' ≡ url = cc (joined', joined) in absurd (cc (built, failed, e')),
          )
          | inl built ↦
              let (sound, complete) =
                read_power_iff http client signal (send (power_request client url body)) in
              (
                λ h. (
                  body,
                  url,
                  marshalled,
                  joined,
                  built,
                  sound (cc (h, marshalled, joined, built)),
                ),
                λ (body', url', marshalled', joined', built', answered).
                    let e : body' ≡ body = cc (marshalled', marshalled) in
                    let e' : url' ≡ url = cc (joined', joined) in
                    cc (
                      marshalled,
                      joined,
                      built,
                      complete (
                          subst (λ u. IsAccepted (send (power_request client u body))) e'
                            (subst (λ b. IsAccepted (send (power_request client url' b))) e
                              answered)),
                    ),
              )
        ]
      ]
    ]
