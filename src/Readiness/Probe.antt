-- ===== src/Readiness/Probe.antt =====
-- What the panel's probe tells the health monitor and the startup (pkg/readiness/pterodactyl.go).
use game_server_snooze.Common.{
  ◌≡◌, ◌↔◌, ◌⊎◌, inl, inr, refl, false, Option, none, some, List, [], ◌∷◌, arith, Option-cases,
}
use game_server_snooze.Errors.{Error, backend_readiness_inconclusive, is_permanent}
use game_server_snooze.Session.{Result, ok, err}
use game_server_snooze.Server.{State, offline, starting, running, stopping}
use game_server_snooze.Readiness.{probe, Pass, wait_ready}

-- The panel said that the backend does not run.
abbrev pub IsDown : Result State → Type 0
IsDown (ok running) = ⊥
IsDown (ok _) = Unit
IsDown (err e) = ⊥

-- A failure of the probe counts against the backend exactly if the context was alive and the panel
-- answered with a state other than running; every other failure is inconclusive.
pub probe-inconclusive_iff :
    (ctx : Option Error) (answer : Result State) (e : Error)
    → probe ctx answer ≡ some e
    → (backend_readiness_inconclusive e ≡ false) ↔ ((ctx ≡ none) × IsDown answer)
unfolding probe backend_readiness_inconclusive
probe-inconclusive_iff (some c) answer e h =
    (λ i. absurd (cc (h, i)), λ (alive, down). absurd (cc alive))
probe-inconclusive_iff none (err x) e h = (λ i. absurd (cc (h, i)), λ (alive, down). absurd down)
probe-inconclusive_iff none (ok running) e h = absurd (ground arith)
probe-inconclusive_iff none (ok offline) e h = (λ i. (refl, tt), λ d. cc)
probe-inconclusive_iff none (ok starting) e h = (λ i. (refl, tt), λ d. cc)
probe-inconclusive_iff none (ok stopping) e h = (λ i. (refl, tt), λ d. cc)

-- A pass in which the context was alive and the panel said that the backend runs.
abbrev pub IsReady : Pass → Type 0
IsReady pass = (pass.ctx ≡ none) × (pass.answer ≡ ok running)

-- The first pass that ends the loop is ready, and every pass before it failed in a way that is
-- retried.
abbrev pub BecomesReady : List Pass → Type 0
BecomesReady [] = ⊥
BecomesReady (pass ∷ passes) =
    IsReady pass
    ⊎ ((e : Error) × (probe pass.ctx pass.answer ≡ some e)
        × (is_permanent e ≡ false)
        × (pass.ctx_after ≡ none)
        × (pass.retry ≡ none)
        × BecomesReady passes)

probe-none :
    (ctx : Option Error) (answer : Result State)
    → probe ctx answer ≡ none
    → (ctx ≡ none) × (answer ≡ ok running)
unfolding probe
probe-none (some c) answer h = absurd (ground arith)
probe-none none (err x) h = absurd (ground arith)
probe-none none (ok running) h = (refl, refl)
probe-none none (ok offline) h = absurd (ground arith)
probe-none none (ok starting) h = absurd (ground arith)
probe-none none (ok stopping) h = absurd (ground arith)

probe-IsReady : (pass : Pass) → IsReady pass → probe pass.ctx pass.answer ≡ none
unfolding probe
probe-IsReady pass (alive, up) = ground arith

-- The wait for readiness succeeds exactly if the panel says in some pass, with the context alive,
-- that the backend runs, and every pass before it failed without a permanent error while the
-- context and the retry timer went on.
pub wait_ready_iff : (passes : List Pass) → (wait_ready passes ≡ some none) ↔ BecomesReady passes
unfolding wait_ready
wait_ready_iff [] = (λ h. absurd (ground arith), λ h. absurd h)
wait_ready_iff (pass ∷ passes) =
    let (sound, complete) = wait_ready_iff passes in
    elim (Option-cases (probe pass.ctx pass.answer)) [
      | inl passed ↦
          (λ h. inl (probe-none pass.ctx pass.answer passed), λ r. ground (arith, passed))
      | inr (e, failed) ↦ (
        λ h. inr (
          e,
          failed,
          ground (arith, failed),
          ground (arith, failed),
          ground (arith, failed),
          sound (ground (arith, failed)),
        ),
        λ r. elim r [
          | inl ready ↦ absurd (cc (probe-IsReady pass ready, failed))
          | inr (e', failed', retried, alive, waited, later) ↦
              ground (arith, failed', retried, alive, waited, complete later)
        ],
      )
    ]
