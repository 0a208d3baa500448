-- ===== src/Proxy/Startup/Requests.antt =====
-- How often ensureRunning of pkg/proxy/proxy.go asks the panel to start the server, when it returns.
use game_server_snooze.Common.{
  ℕ, suc, ◌+◌, ◌≤◌, ◌≡◌, ◌≢◌, ◌⊎◌, ◌∙◌, inl, inr, refl, Bool, true, false, Option, none, some, List,
  [], ◌∷◌, arith, All, is_some,
}
use game_server_snooze.Errors.{Error}
use game_server_snooze.Session.{Write, Result, ok}
use game_server_snooze.Proxy.{Proxy, Request, start_request, stop_request}
use game_server_snooze.Proxy.AutoStop.{schedule_auto_stop}
use game_server_snooze.Server.{State, offline, running, stopping}
use game_server_snooze.Proxy.Startup.{
  Round, Progress, waiting, failed, confirmed, poll, open_startup_gate, readiness_checks,
  ensure_running,
}

abbrev pub starts : List Request → ℕ
starts [] = 0
starts (start_request ∷ requests) = suc (starts requests)
starts (stop_request ∷ requests) = starts requests

abbrev is_stopping : Result State → ℕ
is_stopping (ok stopping) = 1
is_stopping _ = 0

-- How often the panel answered that the server is stopping.
abbrev pub stopping_rounds : List Round → ℕ
stopping_rounds [] = 0
stopping_rounds (round ∷ rounds) = is_stopping round.status + stopping_rounds rounds

-- What startSent counts for.
abbrev pub sent : Bool → ℕ
sent true = 1
sent false = 0

-- What a round may add to the requests, by how it ends.
abbrev allowance : Progress → Result State → ℕ
allowance (waiting s) status = sent s + is_stopping status
allowance (failed e) status = 1
allowance confirmed status = 1

starts-poll :
    (round : Round) (start_sent : Bool) (p : Proxy)
    → starts (poll round start_sent p).1.requests + sent start_sent
      ≤ starts p.requests + allowance (poll round start_sent p).0 round.status
unfolding poll
starts-poll round start_sent p = ground arith

pub requests-open_startup_gate :
    (now : ℕ) (answers : ℕ → ℕ → Write) (p : Proxy)
    → (open_startup_gate now answers p).requests ≡ p.requests
unfolding open_startup_gate schedule_auto_stop
requests-open_startup_gate now answers p = ground arith

pub progress_split {ℓ κ} :
    {B : Type ℓ} (P : B → Type κ) (progress : Progress) (f : Bool → B) (g : Error → B) (b : B)
    → ((s : Bool) → progress ≡ waiting s → P (f s))
    → ((e : Error) → progress ≡ failed e → P (g e))
    → (progress ≡ confirmed → P b)
    → P (elim progress [ waiting s ↦ f s | failed e ↦ g e | confirmed ↦ b ])
progress_split P (waiting s) f g b x y z = x s refl
progress_split P (failed e) f g b x y z = y e refl
progress_split P confirmed f g b x y z = z refl

-- A start request is sent again only after the panel was seen stopping: the requests of one startup
-- are at most one more than the stopping answers, and one fewer if the start was sent before.
pub starts-ensure_running :
    (now : ℕ) (answers : ℕ → ℕ → Write) (start_sent : Bool) (rounds : List Round) (p : Proxy)
    → starts (ensure_running now answers start_sent rounds p).1.requests + sent start_sent
      ≤ starts p.requests + stopping_rounds rounds + 1
unfolding ensure_running
starts-ensure_running now answers start_sent [] p = ground arith
starts-ensure_running now answers start_sent (round ∷ rounds) p =
    let polled = poll round start_sent p in
    let q = polled.1 in
    let checks = readiness_checks q.options.has_readiness q.options.startup_settle_delay round in
    let step = starts-poll round start_sent p in
    progress_split
      (λ (r : Option (Option Error) × Proxy).
        starts r.1.requests + sent start_sent
        ≤ starts p.requests + stopping_rounds (round ∷ rounds) + 1)
      polled.0 (λ s. ensure_running now answers s rounds q) (λ e. (some (some e), q))
      (elim checks [
        | some e ↦ (some (some e), q)
        | none ↦ (some none, open_startup_gate now answers q)
      ])
      (λ s e. ground (arith, step, starts-ensure_running now answers s rounds q))
      (λ x e. ground (arith, step))
      (λ e. ground (arith, step, requests-open_startup_gate now answers q))

requests-poll :
    (round : Round) (start_sent : Bool) (p : Proxy)
    → round.status ≢ ok offline
    → (poll round start_sent p).1.requests ≡ p.requests
unfolding poll
requests-poll round start_sent p h = ground arith

-- Without a confirmed offline answer nothing is requested of the panel.
pub requests-ensure_running :
    (now : ℕ) (answers : ℕ → ℕ → Write) (start_sent : Bool) (rounds : List Round) (p : Proxy)
    → All (λ (round : Round). round.status ≢ ok offline) rounds
    → (ensure_running now answers start_sent rounds p).1.requests ≡ p.requests
unfolding ensure_running
requests-ensure_running now answers start_sent [] p h = refl
requests-ensure_running now answers start_sent (round ∷ rounds) p h =
    let polled = poll round start_sent p in
    let q = polled.1 in
    let checks = readiness_checks q.options.has_readiness q.options.startup_settle_delay round in
    let step : q.requests ≡ p.requests = requests-poll round start_sent p h.0 in
    progress_split (λ (r : Option (Option Error) × Proxy). r.1.requests ≡ p.requests) polled.0
      (λ s. ensure_running now answers s rounds q) (λ e. (some (some e), q))
      (elim checks [
        | some e ↦ (some (some e), q)
        | none ↦ (some none, open_startup_gate now answers q)
      ])
      (λ s e. requests-ensure_running now answers s rounds q h.1 ∙ step) (λ x e. step)
      (λ e. ground (arith, step, requests-open_startup_gate now answers q))

-- A round after which the loop does not wait any more.
abbrev pub Ends : Round → Type 0
Ends round = (round.status ≡ ok running) ⊎ (is_some round.tick ≡ true)

abbrev pub AnyEnds : List Round → Type 0
AnyEnds [] = ⊥
AnyEnds (round ∷ rounds) = Ends round ⊎ AnyEnds rounds

poll_waits :
    (round : Round) (start_sent : Bool) (p : Proxy) (s : Bool)
    → (poll round start_sent p).0 ≡ waiting s
    → ¬ Ends round
unfolding poll
poll_waits round start_sent p s h ends = ground arith

-- The loop returns in time: as soon as the panel answers that the server runs, or the deadline ends
-- the wait of a round.
pub ensure_running_total :
    (now : ℕ) (answers : ℕ → ℕ → Write) (start_sent : Bool) (rounds : List Round) (p : Proxy)
    → AnyEnds rounds
    → is_some (ensure_running now answers start_sent rounds p).0 ≡ true
unfolding ensure_running
ensure_running_total now answers start_sent [] p h = absurd h
ensure_running_total now answers start_sent (round ∷ rounds) p h =
    let polled = poll round start_sent p in
    let q = polled.1 in
    let checks = readiness_checks q.options.has_readiness q.options.startup_settle_delay round in
    progress_split (λ (r : Option (Option Error) × Proxy). is_some r.0 ≡ true) polled.0
      (λ s. ensure_running now answers s rounds q) (λ e. (some (some e), q))
      (elim checks [
        | some e ↦ (some (some e), q)
        | none ↦ (some none, open_startup_gate now answers q)
      ])
      (λ s e.
        ensure_running_total now answers s rounds q (later h (poll_waits round start_sent p s e)))
      (λ x e. refl) (λ e. ground arith)
  where
    later : Ends round ⊎ AnyEnds rounds → ¬ Ends round → AnyEnds rounds
    later (inl ends) waits = absurd (waits ends)
    later (inr after) waits = after
