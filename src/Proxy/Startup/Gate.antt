-- ===== src/Proxy/Startup/Gate.antt =====
-- When ensureRunning of pkg/proxy/proxy.go opens the startup gate.
use game_server_snooze.Common.{
  ℕ, ◌≡◌, ◌⊎◌, ◌↔◌, inl, inr, subst, Bool, true, false, Option, none, some, List, [], ◌∷◌, arith,
}
use game_server_snooze.Common.Int.{ℤ, pos, ltb_ℤ}
use game_server_snooze.Errors.{Error}
use game_server_snooze.Session.{Write, ok}
use game_server_snooze.Proxy.{Proxy}
use game_server_snooze.Proxy.AutoStop.{schedule_auto_stop}
use game_server_snooze.Server.{running}
use game_server_snooze.Proxy.Startup.{
  Round, confirmed, poll, open_startup_gate, readiness_checks, ensure_running,
}
use game_server_snooze.Proxy.Startup.Requests.{progress_split}

gate-poll :
    (round : Round) (start_sent : Bool) (p : Proxy)
    → p.backend_ready ≡ false
    → p.shutting_down ≡ false
    → ((poll round start_sent p).1.backend_ready ≡ false)
      × ((poll round start_sent p).1.shutting_down ≡ false)
unfolding poll
gate-poll round start_sent p closed up = ground arith

pub gate-open_startup_gate :
    (now : ℕ) (answers : ℕ → ℕ → Write) (p : Proxy)
    → p.shutting_down ≡ false
    → (open_startup_gate now answers p).backend_ready ≡ true
unfolding open_startup_gate schedule_auto_stop
gate-open_startup_gate now answers p up = ground arith

-- The gate fails closed: where it is closed and the proxy does not shut down, the loop opens it
-- exactly if it returns without an error.
pub ensure_running_gate :
    (now : ℕ) (answers : ℕ → ℕ → Write) (start_sent : Bool) (rounds : List Round) (p : Proxy)
    → p.backend_ready ≡ false
    → p.shutting_down ≡ false
    → ((ensure_running now answers start_sent rounds p).1.backend_ready ≡ true)
      ↔ ((ensure_running now answers start_sent rounds p).0 ≡ some none)
unfolding ensure_running
ensure_running_gate now answers start_sent [] p closed up = (λ h. cc, λ h. cc)
ensure_running_gate now answers start_sent (round ∷ rounds) p closed up =
    let polled = poll round start_sent p in
    let q = polled.1 in
    let checks = readiness_checks q.options.has_readiness q.options.startup_settle_delay round in
    let (closed', up') = gate-poll round start_sent p closed up in
    progress_split
      (λ (r : Option (Option Error) × Proxy). (r.1.backend_ready ≡ true) ↔ (r.0 ≡ some none))
      polled.0 (λ s. ensure_running now answers s rounds q) (λ e. (some (some e), q))
      (elim checks [
        | some e ↦ (some (some e), q)
        | none ↦ (some none, open_startup_gate now answers q)
      ])
      (λ s e. ensure_running_gate now answers s rounds q closed' up') (λ x e. (λ h. cc, λ h. cc))
      (λ e. ground (arith, closed', gate-open_startup_gate now answers q up'))

-- In this round the panel reported the server running, and the checks that are configured passed:
-- the wait for readiness, the settle delay and the probe after it.
abbrev pub IsVerified : Bool → ℤ → Round → Type 0
IsVerified has_readiness settle_delay round =
    (round.status ≡ ok running)
    × (has_readiness ≡ true → (round.wait_ready ≡ none) × (round.probe ≡ none))
    × (ltb_ℤ (pos 0) settle_delay ≡ true → round.settle ≡ none)

abbrev pub AnyIsVerified : Bool → ℤ → List Round → Type 0
AnyIsVerified has_readiness settle_delay [] = ⊥
AnyIsVerified has_readiness settle_delay (round ∷ rounds) =
    IsVerified has_readiness settle_delay round ⊎ AnyIsVerified has_readiness settle_delay rounds

poll-running :
    (round : Round) (start_sent : Bool) (p : Proxy)
    → (poll round start_sent p).0 ≡ confirmed
    → round.status ≡ ok running
unfolding poll
poll-running round start_sent p h = ground arith

poll-options :
    (round : Round) (start_sent : Bool) (p : Proxy)
    → (poll round start_sent p).1.options ≡ p.options
unfolding poll
poll-options round start_sent p = ground arith

readiness_checks-none :
    (has_readiness : Bool) (settle_delay : ℤ) (round : Round)
    → readiness_checks has_readiness settle_delay round ≡ none
    → (has_readiness ≡ true → (round.wait_ready ≡ none) × (round.probe ≡ none))
      × (ltb_ℤ (pos 0) settle_delay ≡ true → round.settle ≡ none)
unfolding readiness_checks
readiness_checks-none has_readiness settle_delay round h =
    (λ e. (ground arith, ground arith), λ e. ground arith)

-- Where the loop returns without an error, in one of its rounds the panel reported the server
-- running, the readiness check passed before and after the settle delay, where one is configured,
-- and the settle delay passed, where it is positive.
pub ensure_running_verified :
    (now : ℕ) (answers : ℕ → ℕ → Write) (start_sent : Bool) (rounds : List Round) (p : Proxy)
    → (ensure_running now answers start_sent rounds p).0 ≡ some none
    → AnyIsVerified p.options.has_readiness p.options.startup_settle_delay rounds
unfolding ensure_running
ensure_running_verified now answers start_sent [] p h = absurd (ground arith)
ensure_running_verified now answers start_sent (round ∷ rounds) p h =
    let polled = poll round start_sent p in
    let q = polled.1 in
    let has_readiness = q.options.has_readiness in
    let settle_delay = q.options.startup_settle_delay in
    let checks = readiness_checks has_readiness settle_delay round in
    subst (λ o. AnyIsVerified o.has_readiness o.startup_settle_delay (round ∷ rounds))
      (poll-options round start_sent p)
      (progress_split
        (λ (r : Option (Option Error) × Proxy).
          r.0 ≡ some none → AnyIsVerified has_readiness settle_delay (round ∷ rounds))
        polled.0 (λ s. ensure_running now answers s rounds q) (λ e. (some (some e), q))
        (elim checks [
          | some e ↦ (some (some e), q)
          | none ↦ (some none, open_startup_gate now answers q)
        ])
        (λ s e done. inr (ensure_running_verified now answers s rounds q done))
        (λ x e done. absurd (ground arith))
        (λ e done.
          let (ready, settled) =
            readiness_checks-none has_readiness settle_delay round (ground arith) in
          inl (poll-running round start_sent p e, ready, settled))
        h)

-- Where the gate is closed and the proxy does not shut down, the loop opens it only if in one of its
-- rounds the panel reported the server running, the readiness check passed before and after the
-- settle delay, where one is configured, and the settle delay passed, where it is positive.
pub gate_opens_verified :
    (now : ℕ) (answers : ℕ → ℕ → Write) (start_sent : Bool) (rounds : List Round) (p : Proxy)
    → p.backend_ready ≡ false
    → p.shutting_down ≡ false
    → (ensure_running now answers start_sent rounds p).1.backend_ready ≡ true
    → AnyIsVerified p.options.has_readiness p.options.startup_settle_delay rounds
gate_opens_verified now answers start_sent rounds p closed up opened =
    ensure_running_verified now answers start_sent rounds p
      ((ensure_running_gate now answers start_sent rounds p closed up).0 opened)
