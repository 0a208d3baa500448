-- ===== src/Proxy/Startup.antt =====
-- The startup goroutine of pkg/proxy/proxy.go: startServer, ensureRunning round by round, the two
-- ends of a startup and openStartupGate. The answers of the panel, of the readiness probe and of the
-- timers in one round are a `Round`.
pub mod Requests
pub mod Gate
pub mod Opens
pub mod Flushes
use game_server_snooze.Common.{
  ℕ, ◌+◌, String, Bool, true, false, not, ◌&&◌, ◌||◌, ◌==◌, ltb, Option, none, some, List, [], ◌∷◌,
  if◌then◌else◌, is_some,
}
use game_server_snooze.Common.Int.{ℤ, pos, ltb_ℤ}
use game_server_snooze.Errors.{Error, wrapped, is_permanent}
use game_server_snooze.Session.{Write, Result, ok, err}
use game_server_snooze.Store.{len, close_all}
use game_server_snooze.Server.{State, offline, starting, running, stopping}
use game_server_snooze.Proxy.{Proxy, Request, start_request, next_generation, time_after}
use game_server_snooze.Proxy.Queue.{clear_queues, flush_queues}
use game_server_snooze.Proxy.AutoStop.{schedule_auto_stop, mark_backend_not_running}

-- The goroutine that it starts is the new head of `startups`.
unfoldable pub start_server : ℕ → Proxy → Proxy
start_server now proxy =
    if proxy.shutting_down
      || proxy.backend_ready
      || proxy.startup_running
      || ltb now proxy.startup_blocked_until
    then proxy
    else (let generation = next_generation proxy.startup_generation in
        record proxy {
          startup_running = true;
          startup_generation = generation;
          startups = generation ∷ proxy.startups;
        })

abbrev pub has_queues : Proxy → Bool
has_queues proxy = elim proxy.queues [ [] ↦ false | q ∷ qs ↦ true ]

unfoldable pub complete_startup : ℕ → ℕ → Proxy → Bool × Proxy
complete_startup now generation proxy =
    if proxy.startup_generation == generation
    then (
      not proxy.shutting_down
          && not proxy.backend_ready
          && has_queues proxy
          && not (ltb now proxy.startup_blocked_until),
      record proxy { startup_running = false },
    )
    else (false, proxy)

unfoldable pub finish_startup : ℕ → ℕ → Proxy → Proxy
finish_startup now generation proxy =
    let (again, proxy') = complete_startup now generation proxy in
    if again then start_server now proxy' else proxy'

-- store.CloseAll under the heap of the proxy.
unfoldable pub close_all_sessions : Proxy → Proxy
unfolding close_all
close_all_sessions proxy =
    let (store, heap) = close_all proxy.store proxy.heap in
    record proxy { store = store; heap = heap }

-- The section of failStartup that holds mu.
abbrev pub mark_failed : ℕ → ℕ → Bool → Proxy → Proxy
mark_failed now generation permanent proxy =
    let cleared = clear_queues proxy in
    if proxy.startup_generation == generation
    then record cleared {
      startup_running = false;
      backend_running = false;
      startup_blocked_until =
          if permanent
          then time_after now proxy.options.startup_failure_cooldown
          else proxy.startup_blocked_until;
    }
    else cleared

unfoldable pub fail_startup : ℕ → ℕ → Bool → Proxy → Proxy
fail_startup now generation permanent proxy =
    close_all_sessions (mark_failed now generation permanent proxy)

abbrev pub with_ready : Proxy → Proxy
with_ready proxy = if proxy.backend_ready then proxy else record proxy {
  backend_ready = true;
  readiness_generation = next_generation proxy.readiness_generation;
}

unfoldable pub open_startup_gate : ℕ → (ℕ → ℕ → Write) → Proxy → Proxy
open_startup_gate now answers proxy =
    if proxy.shutting_down
    then proxy
    else (let opened = with_ready (
          clear_queues (record proxy {
            backend_running = true;
            heap = flush_queues now answers proxy.queues proxy.heap;
          })) in
        if len opened.store == 0 then schedule_auto_stop opened else opened)

-- What one round of the loop meets: the answer of Status, then of Start, of WaitReady, of the wait
-- for the settle delay, of Probe, and of the wait for the next tick, each an error or nil.
pub record Round : Type 0 where
  pub status : Result State
  pub start_answer : Option Error
  pub wait_ready : Option Error
  pub settle : Option Error
  pub probe : Option Error
  pub tick : Option Error

-- How a round ends: the loop goes on, with startSent; it returns an error; or the backend runs and
-- the rest of the case StateRunning follows.
pub data Progress : Type 0 where
  waiting : Bool → Progress
  failed : Error → Progress
  confirmed : Progress

-- The select at the end of the loop.
abbrev pub await_tick : Round → Bool → Progress
await_tick round start_sent = elim round.tick [
  | none ↦ waiting start_sent
  | some e ↦ failed (wrapped "wait for Pterodactyl running" e)
]

-- The case StateOffline.
unfoldable pub poll_offline : Round → Bool → Proxy → Progress × Proxy
unfolding mark_backend_not_running
poll_offline round start_sent proxy =
    let marked = mark_backend_not_running proxy in
    if start_sent
    then (await_tick round true, marked)
    else (let requested = record marked { requests = start_request ∷ marked.requests } in
        elim round.start_answer [
          | none ↦ (await_tick round true, requested)
          | some e ↦
              if is_permanent e
              then (failed (wrapped "start Pterodactyl server" e), requested)
              else (await_tick round true, requested)
        ])

unfoldable pub poll : Round → Bool → Proxy → Progress × Proxy
unfolding poll_offline mark_backend_not_running
poll round start_sent proxy = elim round.status [
  | err e ↦
      if is_permanent e
      then (failed (wrapped "query Pterodactyl status" e), proxy)
      else (await_tick round start_sent, proxy)
  | ok running ↦ (confirmed, record proxy { backend_running = true })
  | ok offline ↦ poll_offline round start_sent proxy
  | ok starting ↦ (await_tick round true, mark_backend_not_running proxy)
  | ok stopping ↦ (await_tick round false, mark_backend_not_running proxy)
]

-- The readiness checks and the settle delay of the case StateRunning, nil when the gate may open.
unfoldable pub readiness_checks : Bool → ℤ → Round → Option Error
readiness_checks has_readiness settle_delay round =
    elim (if has_readiness then round.wait_ready else none) [
      | some e ↦ some (wrapped "wait for Palworld application readiness" e)
      | none ↦ elim (if ltb_ℤ (pos 0) settle_delay then round.settle else none) [
        | some e ↦ some e
        | none ↦ elim (if has_readiness then round.probe else none) [
          | some e ↦ some (wrapped "recheck Palworld application readiness after settle" e)
          | none ↦ none
        ]
      ]
    ]

-- The loop over the rounds that the deadline allows; none means that it still waits after them.
-- Nothing else runs in between.
unfoldable pub ensure_running :
    ℕ → (ℕ → ℕ → Write) → Bool → List Round → Proxy → Option (Option Error) × Proxy
ensure_running now answers start_sent [] proxy = (none, proxy)
ensure_running now answers start_sent (round ∷ rounds) proxy =
    let polled = poll round start_sent proxy in
    elim polled.0 [
      | waiting sent ↦ ensure_running now answers sent rounds polled.1
      | failed e ↦ (some (some e), polled.1)
      | confirmed ↦
          let p = polled.1 in
          elim (readiness_checks p.options.has_readiness p.options.startup_settle_delay round) [
            | some e ↦ (some (some e), p)
            | none ↦ (some none, open_startup_gate now answers p)
          ]
    ]

-- What the goroutine does with the result of ensureRunning.
unfoldable pub end_startup : ℕ → ℕ → Option Error → Proxy → Proxy
end_startup now generation result proxy = elim result [
  | none ↦ finish_startup now generation proxy
  | some e ↦
      if proxy.canceled
      then finish_startup now generation proxy
      else fail_startup now generation (is_permanent e) proxy
]
