-- ===== src/Proxy/Ingress.antt =====
-- The path of a client datagram through pkg/proxy/proxy.go: handleClientPacket, forwardOrQueue and
-- watchSession; the sweep of idle sessions and the end of the proxy.
use game_server_snooze.Common.{
  ℕ, suc, ◌+◌, String, Bool, true, false, not, ◌&&◌, ◌||◌, ◌==◌, ltb, Option, none, some, List, [],
  ◌∷◌, length, if◌then◌else◌, is_some,
}
use game_server_snooze.Errors.{Error, session_capacity}
use game_server_snooze.Session.{
  Packet, Session, Write, Result, ok, err, record_activity, forward_client, new_session,
}
use game_server_snooze.Store.{Heap, Creation, update, get, get_or_create, remove, expire_idle}
use game_server_snooze.Proxy.{Proxy, next_generation, time_before, second}
use game_server_snooze.Proxy.Queue.{
  enqueue_locked, remove_queue, remove_closed_queues, refresh_pending_sessions,
}
use game_server_snooze.Proxy.AutoStop.{
  cancel_auto_stop, schedule_auto_stop, stop_auto_stop_timer_locked,
}
use game_server_snooze.Server.{State, running}
use game_server_snooze.Proxy.Startup.{start_server, close_all_sessions}

abbrev pub with_session : ℕ → Session → Proxy → Proxy
with_session p s proxy = record proxy { heap = update proxy.heap p s }

-- The result is whether the packet was taken.
unfoldable pub forward_or_queue : ℕ → Write → ℕ → Packet → Proxy → Bool × Proxy
forward_or_queue now write active packet proxy =
    if proxy.backend_ready
    then (let sent = forward_client now write packet (proxy.heap active) in
        (not (is_some sent.0), with_session active sent.1 proxy))
    else (let recorded = record_activity now (proxy.heap active) in
        let touched = with_session active recorded.1 proxy in
        if is_some recorded.0
        then (false, touched)
        else (true, start_server now (enqueue_locked active packet touched)))

-- The client's address as clientAddr.String() prints it, the packet, the clock, the answers of the
-- socket in the three places that may write, the dial of a new session, and the detector.
pub record Arrival : Type 0 where
  pub key : String
  pub packet : Packet
  pub now : ℕ
  pub first_write : Write
  pub second_write : Write
  pub new_write : Write
  pub dial : Option Error
  pub detected : Bool

-- The callback that handleClientPacket gives to GetOrCreate: it allocates the new session.
unfoldable pub allocate : Arrival → Proxy → Heap → Result (Option ℕ) × Heap
allocate a proxy heap =
    elim (new_session
      (record {
        client_addr = some a.key;
        has_backend_addr = proxy.options.has_backend_addr;
        has_public_conn = proxy.options.has_listener;
        max_packet_size = proxy.options.max_packet_size;
      })
      a.dial a.now) [
        | err e ↦ (err e, heap)
        | ok s ↦ (ok (some proxy.next_session), update heap proxy.next_session s)
      ]

unfoldable pub should_log_capacity_warning : ℕ → Proxy → Bool × Proxy
should_log_capacity_warning now proxy =
    if not (proxy.last_capacity_warning == 0) && ltb now (proxy.last_capacity_warning + second)
    then (false, proxy)
    else (true, record proxy { last_capacity_warning = now })

-- The goroutine that it starts is the new head of `watched`.
unfoldable pub watch_session : String → ℕ → Proxy → Proxy
watch_session key active proxy = record proxy { watched = (key, active) ∷ proxy.watched }

abbrev pub is_capacity : Error → Bool
is_capacity session_capacity = true
is_capacity _ = false

-- The first lookup, before admissionMu: whether the packet is done with.
unfoldable pub forward_existing : Arrival → Proxy → Bool × Proxy
forward_existing a proxy = elim (get a.key proxy.store) [
  | none ↦ (false, proxy)
  | some existing ↦ forward_or_queue a.now a.first_write existing a.packet proxy
]

-- store.Remove and then removeQueue; the result is that of Remove.
unfoldable pub remove_session : String → ℕ → Proxy → (Bool × ℕ) × Proxy
remove_session key active proxy =
    let removal = remove key active proxy.store proxy.heap in
    (removal.0, remove_queue active (record proxy { store = removal.1; heap = removal.2 }))

-- The second lookup, under admissionMu: a session that refuses the packet is removed.
unfoldable pub forward_or_remove : Arrival → Proxy → Bool × Proxy
forward_or_remove a proxy = elim (get a.key proxy.store) [
  | none ↦ (false, proxy)
  | some existing ↦
      let (taken, p₁) = forward_or_queue a.now a.second_write existing a.packet proxy in
      if taken then (true, p₁) else (false, (remove_session a.key existing p₁).1)
]

-- The state after GetOrCreate; a created session has used the next address.
abbrev pub after_creation : Arrival → Proxy → Creation × Proxy
after_creation a proxy =
    let outcome = get_or_create a.key (allocate a proxy) proxy.store proxy.heap in
    (
      outcome.0,
      record proxy {
        store = outcome.1;
        heap = outcome.2;
        next_session = if outcome.0.created then suc proxy.next_session else proxy.next_session;
      },
    )

-- The end of handleClientPacket, from the session on.
unfoldable pub serve_session : Arrival → Bool → Bool → ℕ → Proxy → Proxy
serve_session a ready created p proxy =
    let opened = if created then watch_session a.key p (cancel_auto_stop proxy) else proxy in
    let served = (forward_or_queue a.now a.new_write p a.packet opened).1 in
    if ready then served else start_server a.now served

abbrev pub capacity_warning : Error → ℕ → Proxy → Proxy
capacity_warning e now proxy =
    if is_capacity e then (should_log_capacity_warning now proxy).1 else proxy

-- Whether a packet of an unknown client may not create a session.
unfoldable pub admission_refused : Arrival → Proxy → Bool
admission_refused a proxy =
    ltb a.now proxy.startup_blocked_until
    || (not proxy.backend_ready && not proxy.backend_running && not a.detected)

-- From the test of the cooldown to the end, under admissionMu.
unfoldable pub admit_new : Arrival → Proxy → Proxy
admit_new a proxy =
    if admission_refused a proxy
    then proxy
    else (let (creation, p₁) = after_creation a proxy in
        elim creation.error [
          | some e ↦ capacity_warning e a.now p₁
          | none ↦ elim creation.session [
            | none ↦ p₁
            | some p ↦ serve_session a proxy.backend_ready creation.created p p₁
          ]
        ])

unfoldable pub admit : Arrival → Proxy → Proxy
admit a proxy = let (taken, p₁) = forward_or_remove a proxy in if taken then p₁ else admit_new a p₁

unfoldable pub handle_client_packet : Arrival → Proxy → Proxy
handle_client_packet a proxy =
    if length a.packet == 0
    then proxy
    else (let (taken, p₁) = forward_existing a proxy in if taken then p₁ else admit a p₁)

-- The goroutine of watchSession, after the session's channel done was closed.
unfoldable pub session_done : String → ℕ → Proxy → Proxy
session_done key active proxy =
    let (removal, p₁) = remove_session key active proxy in
    if removal.0 && removal.1 == 0 && not p₁.canceled then schedule_auto_stop p₁ else p₁

-- store.ExpireIdle, and removeClosedQueues if sessions expired; the result is that of ExpireIdle.
unfoldable pub expire_sessions : ℕ → Proxy → (ℕ × ℕ) × Proxy
expire_sessions cutoff proxy =
    let expiry = expire_idle cutoff proxy.store proxy.heap in
    let p₁ = record proxy { store = expiry.1; heap = expiry.2 } in
    (expiry.0, if ltb 0 expiry.0.0 then remove_closed_queues p₁ else p₁)

-- The tick's time, and the clock that recording an activity reads.
unfoldable pub expire_idle_sessions : ℕ → ℕ → Proxy → Proxy
expire_idle_sessions now clock proxy =
    let (expiry, p₁) =
      expire_sessions (time_before now proxy.options.idle_timeout)
        (refresh_pending_sessions clock proxy) in
    if ltb 0 expiry.0 && expiry.1 == 0 then schedule_auto_stop p₁ else p₁

-- What the select of runSweeper meets: a tick, with the clock of its recorded activities, or the end
-- of the context.
pub data SweeperEvent : Type 0 where
  ticks : ℕ → ℕ → SweeperEvent
  context_done : SweeperEvent

-- Nothing else runs between the ticks.
unfoldable pub run_sweeper : List SweeperEvent → Proxy → Proxy
unfolding expire_idle_sessions
run_sweeper [] proxy = proxy
run_sweeper (context_done ∷ events) proxy = proxy
run_sweeper (ticks now clock ∷ events) proxy =
    run_sweeper events (expire_idle_sessions now clock proxy)

-- The answer of the first Status call of Serve, after which the goroutines start.
unfoldable pub serve_start : ℕ → Result State → Proxy → Proxy
serve_start now status proxy = elim status [
  | ok running ↦
      let ready = not proxy.options.has_readiness in
      let p₁ = record proxy {
        backend_running = true;
        backend_ready = ready;
        readiness_generation =
            if ready
            then next_generation proxy.readiness_generation
            else proxy.readiness_generation;
      } in
      if proxy.options.has_readiness then start_server now p₁ else p₁
  | _ ↦ proxy
]

-- The section of shutdown that holds mu.
abbrev pub mark_shut : Proxy → Proxy
mark_shut proxy = stop_auto_stop_timer_locked (record proxy {
  shutting_down = true;
  backend_ready = false;
  readiness_generation =
      if proxy.backend_ready
      then next_generation proxy.readiness_generation
      else proxy.readiness_generation;
  backend_running = false;
  startup_running = false;
  startup_generation = next_generation proxy.startup_generation;
  stop_generation = next_generation proxy.stop_generation;
})

unfoldable pub shutdown : Proxy → Proxy
shutdown proxy = close_all_sessions (mark_shut proxy)
