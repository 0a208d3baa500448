-- ===== src/Proxy/Startup/Opens.antt =====
-- That ensureRunning of pkg/proxy/proxy.go gets the backend running.
use game_server_snooze.Common.{
  ℕ, ◌≡◌, ◌≢◌, ◌∙◌, ap, refl, sym, subst, Bool, true, false, Option, none, some, List, [], ◌∷◌,
  ◌++◌, arith, All,
}
use game_server_snooze.Common.Int.{ℤ}
use game_server_snooze.Errors.{Error, is_permanent}
use game_server_snooze.Session.{Write, Result, ok, err}
use game_server_snooze.Proxy.{Proxy, Options}
use game_server_snooze.Proxy.AutoStop.{schedule_auto_stop}
use game_server_snooze.Proxy.Queue.{flush_queues}
use game_server_snooze.Server.{State, running}
use game_server_snooze.Proxy.Startup.{
  Round, Progress, waiting, failed, confirmed, poll, open_startup_gate, readiness_checks,
  ensure_running,
}
use game_server_snooze.Proxy.Startup.Gate.{IsVerified, gate-open_startup_gate}

-- An error that is marked as permanent.
abbrev fails_for_good : Option Error → Bool
fails_for_good none = false
fails_for_good (some e) = is_permanent e

abbrev status_error : Result State → Option Error
status_error (ok state) = none
status_error (err e) = some e

-- A round that the loop survives: the panel does not report the server running, neither the query
-- nor the start request fails for good, and the next tick comes.
abbrev pub IsTransient : Round → Type 0
IsTransient round =
    (round.status ≢ ok running)
    × (fails_for_good (status_error round.status) ≡ false)
    × (fails_for_good round.start_answer ≡ false)
    × (round.tick ≡ none)

-- The parts of the state that the loop leaves alone while it waits.
abbrev IsKept : Proxy → Proxy → Type 0
IsKept p q =
    (q.queues ≡ p.queues)
    × (q.heap ≡ p.heap)
    × (q.options ≡ p.options)
    × (q.shutting_down ≡ p.shutting_down)
    × (q.store ≡ p.store)

IsKept-poll : (round : Round) (start_sent : Bool) (p : Proxy) → IsKept p (poll round start_sent p).1
unfolding poll
IsKept-poll round start_sent p = ground arith

waits :
    (progress : Progress)
    → progress ≢ confirmed
    → ((e : Error) → progress ≢ failed e)
    → (s : Bool) × (progress ≡ waiting s)
waits (waiting s) h f = (s, refl)
waits (failed e) h f = absurd (f e refl)
waits confirmed h f = absurd (h refl)

poll-IsTransient :
    (round : Round) (start_sent : Bool) (p : Proxy)
    → IsTransient round
    → (s : Bool) × ((poll round start_sent p).0 ≡ waiting s)
unfolding poll
poll-IsTransient round start_sent p h =
    waits (poll round start_sent p).0 (λ e. ground arith) (λ x e. ground arith)

poll-IsVerified :
    (has_readiness : Bool) (settle_delay : ℤ) (round : Round) (start_sent : Bool) (p : Proxy)
    → IsVerified has_readiness settle_delay round
    → ((poll round start_sent p).0 ≡ confirmed)
      × (readiness_checks has_readiness settle_delay round ≡ none)
unfolding poll readiness_checks
poll-IsVerified has_readiness settle_delay round start_sent p h = ground arith

pub heap-open_startup_gate :
    (now : ℕ) (answers : ℕ → ℕ → Write) (p : Proxy)
    → p.shutting_down ≡ false
    → ((open_startup_gate now answers p).queues ≡ [])
      × ((open_startup_gate now answers p).heap ≡ flush_queues now answers p.queues p.heap)
      × ((open_startup_gate now answers p).store ≡ p.store)
unfolding open_startup_gate schedule_auto_stop
heap-open_startup_gate now answers p up = ground arith

-- What a round answers once its readiness checks have.
abbrev checked : ℕ → (ℕ → ℕ → Write) → Proxy → Option Error → Option (Option Error) × Proxy
checked now answers q checks = elim checks [
  | some e ↦ (some (some e), q)
  | none ↦ (some none, open_startup_gate now answers q)
]

-- What a round answers once its first half has.
abbrev polled :
    ℕ → (ℕ → ℕ → Write) → Round → List Round → Proxy → Progress → Option (Option Error) × Proxy
polled now answers round rounds q progress = elim progress [
  | waiting sent ↦ ensure_running now answers sent rounds q
  | failed e ↦ (some (some e), q)
  | confirmed ↦
      checked now answers q
        (readiness_checks q.options.has_readiness q.options.startup_settle_delay round)
]

ensure_running-waiting :
    (now : ℕ) (answers : ℕ → ℕ → Write) (start_sent : Bool) (round : Round) (rounds : List Round)
    (p : Proxy) (s : Bool)
    → (poll round start_sent p).0 ≡ waiting s
    → ensure_running now answers start_sent (round ∷ rounds) p
      ≡ ensure_running now answers s rounds (poll round start_sent p).1
unfolding ensure_running
ensure_running-waiting now answers start_sent round rounds p s h =
    ap (polled now answers round rounds (poll round start_sent p).1) h

ensure_running-confirmed :
    (now : ℕ) (answers : ℕ → ℕ → Write) (start_sent : Bool) (round : Round) (rounds : List Round)
    (p : Proxy)
    → let q = (poll round start_sent p).1 in
      (poll round start_sent p).0 ≡ confirmed
      → readiness_checks q.options.has_readiness q.options.startup_settle_delay round ≡ none
      → ensure_running now answers start_sent (round ∷ rounds) p
        ≡ (some none, open_startup_gate now answers q)
unfolding ensure_running
ensure_running-confirmed now answers start_sent round rounds p h passed =
    ap (polled now answers round rounds (poll round start_sent p).1) h
    ∙ ap (checked now answers (poll round start_sent p).1) passed

abbrev Opened : ℕ → (ℕ → ℕ → Write) → Proxy → Option (Option Error) × Proxy → Type 0
Opened now answers p result =
    (result.0 ≡ some none)
    × (result.1.backend_ready ≡ true)
    × (result.1.queues ≡ [])
    × (result.1.heap ≡ flush_queues now answers p.queues p.heap)
    × (result.1.store ≡ p.store)

-- The loop gets there: after any number of rounds that it survives, the first round in which the
-- panel reports the server running and the configured checks pass makes it return without an error,
-- with the gate open, the queues flushed and empty, and every session still in the store.
pub ensure_running_opens :
    (now : ℕ) (answers : ℕ → ℕ → Write) (start_sent : Bool) (before after : List Round)
    (round : Round) (p : Proxy)
    → p.shutting_down ≡ false
    → All IsTransient before
    → IsVerified p.options.has_readiness p.options.startup_settle_delay round
    → let result = ensure_running now answers start_sent (before ++ round ∷ after) p in
      (result.0 ≡ some none)
      × (result.1.backend_ready ≡ true)
      × (result.1.queues ≡ [])
      × (result.1.heap ≡ flush_queues now answers p.queues p.heap)
      × (result.1.store ≡ p.store)
ensure_running_opens now answers start_sent [] after round p up h verified =
    let q = (poll round start_sent p).1 in
    let (queues, heap, options, shutting, store) = IsKept-poll round start_sent p in
    let (seen, passed) =
      poll-IsVerified p.options.has_readiness p.options.startup_settle_delay round start_sent p
        verified in
    let (emptied, written, stored) = heap-open_startup_gate now answers q (shutting ∙ up) in
    subst (Opened now answers p)
      (sym (
        ensure_running-confirmed now answers start_sent round after p seen (
          ap (λ (o : Options). readiness_checks o.has_readiness o.startup_settle_delay round)
            options
          ∙ passed)))
      (
        refl,
        gate-open_startup_gate now answers q (shutting ∙ up),
        emptied,
        written ∙ cc,
        stored ∙ store,
      )
ensure_running_opens now answers start_sent (r ∷ before) after round p up h verified =
    let (s, waited) = poll-IsTransient r start_sent p h.0 in
    let q = (poll r start_sent p).1 in
    let (queues, heap, options, shutting, store) = IsKept-poll r start_sent p in
    let ih = ensure_running_opens now answers s before after round q (shutting ∙ up) h.1 (
      subst (λ o. IsVerified o.has_readiness o.startup_settle_delay round) (sym options)
        verified) in
    subst (Opened now answers p)
      (sym (ensure_running-waiting now answers start_sent r (before ++ round ∷ after) p s waited))
      (ih.0, ih.1, ih.2, ih.3 ∙ cc, ih.4 ∙ store)
