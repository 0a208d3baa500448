-- ===== src/Proxy/Journey.antt =====
-- From a client's first datagram to the game server, through the whole of pkg/proxy/proxy.go.
use game_server_snooze.Common.{
  String, String, ℕ, ◌≡◌, ◌≢◌, ◌∙◌, sym, ap, subst, true, false, none, some, List, [], ◌∷◌, ◌++◌,
  arith, length, All,
}
use game_server_snooze.Common.Int.{ℤ, pos, negsuc, leb_ℤ, ltb_ℤ, leb_ℤ_trans}
use game_server_snooze.Session.{Write, ok}
use game_server_snooze.Store.{Heap, Entries, get, len, lookup}
use game_server_snooze.Proxy.{Proxy, Options, new}
use game_server_snooze.Proxy.Queue.{find_queue, empty_queue, overflows}
use game_server_snooze.Proxy.Startup.{Round, ensure_running}
use game_server_snooze.Proxy.Startup.Gate.{IsVerified}
use game_server_snooze.Proxy.Startup.Opens.{
  IsTransient, ensure_running_opens, heap-open_startup_gate,
}
use game_server_snooze.Proxy.Ingress.{Arrival, handle_client_packet}
use game_server_snooze.Proxy.Invariant.{IsSound}
use game_server_snooze.Proxy.New.{new-IsSound, new-idle}
use game_server_snooze.Proxy.New.Idle.{IsIdle, new-IsIdle}
use game_server_snooze.Proxy.Step.{Reach-IsSound}
use game_server_snooze.Proxy.Serve.Steps.{handle_client_packet-Reach}
use game_server_snooze.Proxy.Delivery.{open_startup_gate-delivers_all}
use game_server_snooze.Proxy.Wake.{handle_client_packet_wakes}

-- A first packet of the size that Serve reads fits into the startup buffer.
not_below : (limit : ℤ) (n : ℕ) → leb_ℤ (pos n) limit ≡ true → ltb_ℤ limit (pos n) ≡ false
not_below (pos k) n h = ground arith
not_below (negsuc k) n h = cc

not_full : (limit : ℤ) → leb_ℤ (pos 1) limit ≡ true → leb_ℤ limit (pos 0) ≡ false
not_full (pos k) h = ground arith
not_full (negsuc k) h = cc

overflows-IsIdle :
    (p : Proxy) (size : ℕ)
    → IsIdle p
    → leb_ℤ (pos size) p.options.max_packet_size ≡ true
    → overflows p empty_queue size ≡ false
unfolding overflows
overflows-IsIdle p size idle fits =
    let o = p.options in
    let session =
      leb_ℤ_trans (pos size) o.max_packet_size o.startup_buffer_bytes_per_session fits
        idle.per_session in
    let all =
      leb_ℤ_trans (pos size) o.startup_buffer_bytes_per_session o.startup_buffer_bytes_global
        session idle.global in
    ground (
      arith,
      idle.nothing_counted,
      not_full o.startup_buffer_packets idle.packets,
      not_below o.startup_buffer_bytes_per_session size session,
      not_below o.startup_buffer_bytes_global size all,
    )

unknown-IsIdle : (key : String) (p : Proxy) → IsIdle p → get key p.store ≡ none
unfolding get lookup
unknown-IsIdle key p idle = ground (arith, idle.no_sessions)

room-IsIdle : (p : Proxy) → IsIdle p → leb_ℤ p.store.max (pos (len p.store)) ≡ false
unfolding len
room-IsIdle p idle =
    subst (λ (es : Entries). leb_ℤ p.store.max (pos (length es)) ≡ false) (sym idle.no_sessions)
      idle.room

unqueued-IsIdle : (p : Proxy) → IsIdle p → find_queue p.next_session p.queues ≡ none
unfolding find_queue
unqueued-IsIdle p idle = ground (arith, idle.nothing_queued)

-- The whole journey: a proxy as New returns it receives a datagram that the detector recognises, not
-- empty and no larger than the maximum packet size, and the backend's socket can be dialled. After
-- any number of rounds that the startup survives comes one in which the panel reports the server
-- running and the configured checks pass. Then the startup ends without an error, the gate is open,
-- the client has its session, and if the writes to that session's socket succeed, the datagram is
-- the one thing that was written to it.
pub wakes_and_delivers :
    (options : Options) (heap : Heap) (p : Proxy) (a : Arrival) (later : ℕ)
    (answers : ℕ → ℕ → Write) (before after : List Round) (round : Round)
    → new options heap ≡ ok p
    → length a.packet ≢ 0
    → leb_ℤ (pos (length a.packet)) p.options.max_packet_size ≡ true
    → a.detected ≡ true
    → a.dial ≡ none
    → All IsTransient before
    → IsVerified p.options.has_readiness p.options.startup_settle_delay round
    → ((j : ℕ) → answers p.next_session j ≡ record { failure = none; closed_meanwhile = false })
    → let result =
        ensure_running later answers false (before ++ round ∷ after) (handle_client_packet a p) in
      (result.0 ≡ some none)
      × (result.1.backend_ready ≡ true)
      × (get a.key result.1.store ≡ some p.next_session)
      × ((result.1.heap p.next_session).upstream ≡ a.packet ∷ [])
wakes_and_delivers options heap p a later answers before after round made some_bytes fits hit dial
      transient verified good =
    let q = handle_client_packet a p in
    let idle = new-IsIdle options heap p made in
    let (known, found, timer, startups, starting, alive, unsent, up, same) =
      handle_client_packet_wakes a p (unknown-IsIdle a.key p idle) some_bytes
        (ground (arith, idle.cooldown)) idle.gate idle.startup (new-idle options heap p made).1 hit
        (room-IsIdle p idle) dial idle.has_backend_addr idle.has_listener idle.max_packet_size
        (unqueued-IsIdle p idle) (overflows-IsIdle p (length a.packet) idle fits) in
    let sound : IsSound q =
      Reach-IsSound (new-IsSound options heap p made) (handle_client_packet-Reach a p) in
    let opened =
      ensure_running_opens later answers false before after round q up transient (
        subst (λ o. IsVerified o.has_readiness o.startup_settle_delay round) (sym same) verified) in
    let delivered =
      open_startup_gate-delivers_all later answers q p.next_session up sound.accounted.unique alive
        good in
    let written = (heap-open_startup_gate later answers q up).1 in
    (
      opened.0,
      opened.1,
      ap (get a.key) opened.4 ∙ known,
      ap (λ (h : Heap). (h p.next_session).upstream) (opened.3 ∙ sym written)
          ∙ delivered
          ∙ cc (unsent, found),
    )
