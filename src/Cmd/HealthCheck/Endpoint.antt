-- ===== src/Cmd/HealthCheck/Endpoint.antt =====
-- The health check against the health endpoint (cmd/healthcheck.go, pkg/proxy/health.go).
use game_server_snooze.Common.{
  String, ◌≡◌, ◌↔◌, ◌⊎◌, inl, inr, true, false, none, some, arith, str_eq, eq_iff, Bool-cases,
}
use game_server_snooze.Session.{Result, ok}
use game_server_snooze.Library.{Library, Url}
use game_server_snooze.Health.{HealthState, new_health_handler}
use game_server_snooze.Cmd.HealthCheck.{Answer, check_health, is_not_local}

-- A GET request that reaches the endpoint.
abbrev pub serving : HealthState → Url → Result Answer
serving state url = ok (record {
  status_code = (new_health_handler state "GET" url.path).status_code;
  has_location = false;
})

-- The URL http://<host>..., with no user info, whose host is localhost or a loopback address.
abbrev pub IsLoopbackUrl : Library → Url → Type 0
IsLoopbackUrl library url =
    (url.scheme ≡ "http")
    × (url.has_user ≡ false)
    × ¬ (url.hostname ≡ "")
    × ((url.hostname ≡ "localhost") ⊎ (library.is_loopback_ip url.hostname ≡ true))

str_eq-false : (a b : String) → ¬ (a ≡ b) → str_eq a b ≡ false
str_eq-false a b other = elim (Bool-cases (str_eq a b)) [
  | inl p ↦ absurd (other ((eq_iff a b).0 p))
  | inr p ↦ p
]

is_not_local_iff :
    (library : Library) (url : Url) → (is_not_local library url ≡ false) ↔ IsLoopbackUrl library url
is_not_local_iff library url =
    let (is_http, http) = eq_iff url.scheme "http" in
    let (is_empty, empty) = eq_iff url.hostname "" in
    let (is_localhost, localhost) = eq_iff url.hostname "localhost" in
    (
      λ h. (
        is_http (ground arith),
        ground arith,
        (λ p. absurd (ground (arith, empty p))),
        elim (Bool-cases (str_eq url.hostname "localhost")) [
          | inl p ↦ inl (is_localhost p)
          | inr p ↦ inr (ground arith)
        ],
      ),
      λ (scheme, user, named, host).
          let scheme' = http scheme in
          let named' = str_eq-false url.hostname "" named in
          elim host [ inl p ↦ let p' = localhost p in ground arith | inr p ↦ ground arith ],
    )

-- Where the address parses as a URL and the endpoint answers the request, the check succeeds exactly
-- if the scheme is http, there is no user info, the host is localhost or a loopback address, and the
-- path is /healthz, or /readyz while the process is ready.
pub check_health-new_health_handler :
    (library : Library) (state : HealthState) (address : String) (url : Url)
    → library.parse_url address ≡ some url
    → (check_health library none (serving state) address ≡ none) ↔ (
        IsLoopbackUrl library url
        × ((url.path ≡ "/healthz") ⊎ ((url.path ≡ "/readyz") × (state.is_ready ≡ true))))
unfolding check_health new_health_handler
check_health-new_health_handler library state address url parsed =
    let (is_local, local) = is_not_local_iff library url in
    let (is_health, health) = eq_iff url.path "/healthz" in
    let (is_readyz, readyz) = eq_iff url.path "/readyz" in
    (
      λ h. elim (Bool-cases (str_eq url.path "/healthz")) [
        | inl p ↦ (is_local (ground arith), inl (is_health p))
        | inr other ↦ elim (Bool-cases (str_eq url.path "/readyz")) [
          | inl p ↦ (is_local (ground arith), inr (is_readyz p, ground arith))
          | inr p ↦ absurd (ground arith)
        ]
      ],
      λ (at_home, where').
          let not_away = local at_home in
          elim where' [
            | inl p ↦ ground (arith, health p)
            | inr (p, up) ↦ elim (Bool-cases (str_eq url.path "/healthz")) [
              | inl q ↦ ground (arith, q)
              | inr q ↦ ground (arith, readyz p)
            ]
          ],
    )
