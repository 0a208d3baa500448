-- ===== src/Cmd/Main.antt =====
-- main of cmd/main.go: which of its two commands it runs, and its exit status. The results of the
-- commands are arguments; the context of the signals is part of the course of run.
use game_server_snooze.Common.{
  ℕ, String, ◌≡◌, ◌↔◌, inl, refl, Option, none, some, List, [], arith, ◌∷◌, str_eq, if◌then◌else◌,
}
use game_server_snooze.Errors.{Error}
use game_server_snooze.Library.{Library, Url}
use game_server_snooze.Health.{HealthState}
use game_server_snooze.Cmd.HealthCheck.{check_health}
use game_server_snooze.Cmd.HealthCheck.Endpoint.{
  IsLoopbackUrl, serving, check_health-new_health_handler,
}

-- The command of the arguments, the address of a health check included.
pub data Command : Type 0 where
  health_check : String → Command
  serve : Command

abbrev default_address : String
default_address = "http://127.0.0.1:8080/healthz"

abbrev address_of : List String → String
address_of [] = default_address
address_of (address ∷ rest) = address

-- os.Args begins with the name of the program.
unfoldable pub command_of : List String → Command
command_of [] = serve
command_of (program ∷ []) = serve
command_of (program ∷ name ∷ rest) =
    if str_eq name "healthcheck" then health_check (address_of rest) else serve

-- logrus.Fatal exits with 1.
abbrev exit_status : Option Error → ℕ
exit_status none = 0
exit_status (some e) = 1

unfoldable pub main : (String → Option Error) → Option Error → List String → ℕ
unfolding command_of
main check run_result args = elim (command_of args) [
  | health_check address ↦ exit_status (check address)
  | serve ↦ exit_status run_result
]

succeeds : (result : Option Error) → (exit_status result ≡ 0) ↔ (result ≡ none)
succeeds none = (λ h. refl, λ h. refl)
succeeds (some e) = (λ h. absurd (omega (arith, h)), λ h. absurd (cc h))

-- The command `healthcheck` without an address, as a container runs it beside the proxy, exits with
-- 0 whether the process is ready or not, where the default address is a loopback URL of the endpoint
-- /healthz.
pub main-new_health_handler :
    (library : Library) (state : HealthState) (url : Url) (program : String)
    (run_result : Option Error)
    → library.parse_url "http://127.0.0.1:8080/healthz" ≡ some url
    → IsLoopbackUrl library url
    → url.path ≡ "/healthz"
    → main (check_health library none (serving state)) run_result (program ∷ "healthcheck" ∷ []) ≡ 0
unfolding main
main-new_health_handler library state url program run_result parsed local path =
    let checked =
      check_health-new_health_handler library state "http://127.0.0.1:8080/healthz" url parsed in
    (succeeds (check_health library none (serving state) "http://127.0.0.1:8080/healthz")).1
      (checked.1 (local, inl path))
