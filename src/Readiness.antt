-- ===== src/Readiness.antt =====
-- pkg/readiness/pterodactyl.go: readiness by the panel's state. What the context, the panel and the
-- retry timer answer are arguments.
pub mod Probe
pub mod A2s
mod Tests
use game_server_snooze.Common.{
  ℕ, Bool, true, false, not, Option, none, some, List, [], ◌∷◌, is_some, if◌then◌else◌,
}
use game_server_snooze.Common.Int.{ℤ, pos, leb_ℤ}
use game_server_snooze.Errors.{Error, plain, wrapped, inconclusive_readiness_error, is_permanent}
use game_server_snooze.Session.{Result, ok, err}
use game_server_snooze.Server.{State, running}

pub record PterodactylProbe : Type 0 where
  pub poll_interval : ℤ

unfoldable pub new_pterodactyl_probe : Bool → ℤ → Result PterodactylProbe
new_pterodactyl_probe has_controller poll_interval =
    if not has_controller
    then err (plain "Pterodactyl controller and positive poll interval are required")
    else if leb_ℤ poll_interval (pos 0)
    then err (plain "Pterodactyl controller and positive poll interval are required")
    else ok (record { poll_interval = poll_interval })

abbrev pub is_running : State → Bool
is_running running = true
is_running _ = false

-- PterodactylProbe.Probe: `ctx` is ctx.Err(), `answer` that of Status.
unfoldable pub probe : Option Error → Result State → Option Error
probe ctx answer = elim ctx [
  | some e ↦ some (inconclusive_readiness_error (wrapped "probe Pterodactyl readiness" e))
  | none ↦ elim answer [
    | err e ↦ some (inconclusive_readiness_error (wrapped "probe Pterodactyl readiness" e))
    | ok state ↦
        if is_running state then none else some (plain "Pterodactyl backend state is not running")
  ]
]

-- One pass of the loop of WaitReady: ctx.Err() before the probe and after it, and the result of
-- waitForRetry.
pub record Pass : Type 0 where
  pub ctx : Option Error
  pub answer : Result State
  pub ctx_after : Option Error
  pub retry : Option Error

-- none means that the loop still runs after the passes.
unfoldable pub wait_ready : List Pass → Option (Option Error)
unfolding probe
wait_ready [] = none
wait_ready (pass ∷ passes) =
    let rest = wait_ready passes in
    elim (probe pass.ctx pass.answer) [
      | none ↦ some none
      | some e ↦ elim pass.ctx_after [
        | some c ↦ some (some (wrapped "wait for Pterodactyl readiness" c))
        | none ↦ if is_permanent e then some (some e) else elim pass.retry [
          | some c ↦ some (some (wrapped "wait for Pterodactyl readiness" c))
          | none ↦ rest
        ]
      ]
    ]
