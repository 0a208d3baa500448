-- ===== src/Config/Validation.antt =====
-- What a configuration that passes Validate satisfies (pkg/config/config.go).
use game_server_snooze.Common.{◌≡◌, false, none, List, [], ◌∷◌, ◌++◌, arith, All}
use game_server_snooze.Library.{Library}
use game_server_snooze.Config.{
  Config, Check, first_failure, validate, address_checks, limit_checks, wake_checks, probe_checks,
  panel_checks,
}

-- Every check passes.
abbrev pub Passes : List Check → Type 0
Passes checks = All (λ (c : Check). c.0 ≡ false) checks

first_failure-Passes : (checks : List Check) → first_failure checks ≡ none → Passes checks
unfolding first_failure
first_failure-Passes [] h = tt
first_failure-Passes ((fails, message) ∷ checks) h =
    (ground arith, first_failure-Passes checks (ground arith))

all_append : (xs ys : List Check) → Passes (xs ++ ys) → Passes xs × Passes ys
all_append [] ys h = (tt, h)
all_append (x ∷ xs) ys (here, later) =
    let (left, right) = all_append xs ys later in ((here, left), right)

-- A configuration that validates passes the checks of its addresses, limits, wake policy, readiness
-- and panel.
pub validate-Passes :
    (library : Library) (cfg : Config)
    → validate library cfg ≡ none
    → Passes (limit_checks cfg)
      × Passes (wake_checks library cfg)
      × Passes (probe_checks library cfg)
      × Passes (address_checks library cfg)
      × Passes (panel_checks library cfg)
unfolding validate
validate-Passes library cfg h =
    let wake = wake_checks library cfg in
    let probe = probe_checks library cfg in
    let (addresses, p₁) =
      all_append (address_checks library cfg)
        (limit_checks cfg ++ wake ++ probe ++ panel_checks library cfg)
        (first_failure-Passes
          (address_checks library cfg
            ++ limit_checks cfg
            ++ wake
            ++ probe
            ++ panel_checks library cfg)
          h) in
    let (limits, p₂) =
      all_append (limit_checks cfg) (wake ++ probe ++ panel_checks library cfg) p₁ in
    let (wakes, p₃) = all_append wake (probe ++ panel_checks library cfg) p₂ in
    let (probes, panels) = all_append probe (panel_checks library cfg) p₃ in
    (limits, wakes, probes, addresses, panels)
