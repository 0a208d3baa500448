-- ===== src/Proxy/Wake.antt =====
-- Who may wake the server, in pkg/proxy/proxy.go: the wake gate, the cooldown after a permanent
-- failure, the one startup at a time, and the packet that wakes.
pub mod Disarm
use game_server_snooze.Common.{
  ℕ, suc, ◌+◌, ◌≤◌, ◌<◌, ◌≡◌, ◌≢◌, ◌⊎◌, ◌∙◌, String, All, ap, inl, inr, refl, true, false, none,
  some, List, [], ◌∷◌, arith, length, eq_iff,
}
use game_server_snooze.Common.Int.{pos, leb_ℤ, ltb_ℤ}
use game_server_snooze.Session.{Session, record_activity, new_session}
use game_server_snooze.Session.Lifecycle.{IsConsistent, close_lem}
use game_server_snooze.Store.Sweep.{member}
use game_server_snooze.Store.Laws.{close_all_lem}
use game_server_snooze.Store.{pointers, close_all, get, len, update, get_or_create, lookup}
use game_server_snooze.Proxy.{Proxy, PacketQueue, Queues, next_generation}
use game_server_snooze.Proxy.Queue.{enqueue_locked, empty_queue, find_queue, put_queue, overflows}
use game_server_snooze.Proxy.AutoStop.{cancel_auto_stop}
use game_server_snooze.Proxy.Startup.{start_server, fail_startup, close_all_sessions}
use game_server_snooze.Proxy.Ingress.{
  Arrival, forward_or_queue, forward_existing, forward_or_remove, admission_refused, admit_new,
  admit, handle_client_packet, serve_session, watch_session, allocate, after_creation,
}

module _ (a : Arrival) (p : Proxy) (unknown : get a.key p.store ≡ none) where
  pub unknown_goes_on : (forward_existing a p ≡ (false, p)) × (forward_or_remove a p ≡ (false, p))
  unfolding forward_existing forward_or_remove
  unknown_goes_on = ground arith

  -- A datagram of an unknown client changes nothing while a startup failure cools down, nor while
  -- the server neither runs nor is ready and the detector does not recognise the datagram.
  pub handle_client_packet_refused :
      (a.now < p.startup_blocked_until)
        ⊎ ((p.backend_ready ≡ false) × (p.backend_running ≡ false) × (a.detected ≡ false))
      → handle_client_packet a p ≡ p
  unfolding handle_client_packet admit admit_new admission_refused
  handle_client_packet_refused why = ground (arith, unknown_goes_on)

-- The datagrams of these arrivals, one after the other.
abbrev pub handle_each : List Arrival → Proxy → Proxy
handle_each [] p = p
handle_each (a ∷ arrivals) p = handle_each arrivals (handle_client_packet a p)

-- A proxy without sessions, whose server neither runs nor is ready, is left as it is by any number of
-- datagrams that the detector does not recognise, whoever sends them and whenever: no session, no
-- queue, no startup and no timer comes of them.
pub flood_refused :
    (arrivals : List Arrival) (p : Proxy)
    → p.store.sessions ≡ []
    → p.backend_ready ≡ false
    → p.backend_running ≡ false
    → All (λ (a : Arrival). a.detected ≡ false) arrivals
    → handle_each arrivals p ≡ p
flood_refused [] p empty off down h = refl
flood_refused (a ∷ arrivals) p empty off down (unrecognised, h) =
    ap (handle_each arrivals)
      (handle_client_packet_refused a p (no_session a.key p empty) (inr (off, down, unrecognised)))
    ∙ flood_refused arrivals p empty off down h
  where
    no_session : (key : String) (p : Proxy) → p.store.sessions ≡ [] → get key p.store ≡ none
    no_session key p empty = unfold get lookup in ground (arith, empty)

-- A call of startServer at each of these times, one after the other.
abbrev pub start_each : List ℕ → Proxy → Proxy
start_each [] p = p
start_each (now ∷ times) p = start_each times (start_server now p)

start_each_running :
    (times : List ℕ) (p : Proxy) → p.startup_running ≡ true → start_each times p ≡ p
unfolding start_server
start_each_running [] p h = refl
start_each_running (now ∷ times) p h = ground (arith, start_each_running times p h)

-- However many clients call for the server, at most one startup begins, and none while one runs.
pub start_each_once :
    (times : List ℕ) (p : Proxy)
    → (length (start_each times p).startups ≤ length p.startups + 1)
      × (p.startup_running ≡ true → start_each times p ≡ p)
unfolding start_server
start_each_once [] p = (omega arith, λ h. refl)
start_each_once (now ∷ times) p = (
  ground (arith, (start_each_once times p).0, start_each_running times (start_server now p)),
  start_each_running (now ∷ times) p,
)

-- The failure cooldown is not negative. After the current startup failed for good, every session that was in the store is closed with its
-- socket and its reader done, where its flags were consistent before; no session is left in the store
-- and nothing is queued; until the cooldown has passed, no datagram and no call of startServer changes
-- anything.
pub fail_startup_cools_down :
    (now generation cooldown : ℕ) (p : Proxy) (a : Arrival)
    → p.startup_generation ≡ generation
    → p.options.startup_failure_cooldown ≡ pos cooldown
    → a.now < now + cooldown
    → ((active : ℕ) → IsConsistent (p.heap active))
    → let q = fail_startup now generation true p in
      (handle_client_packet a q ≡ q)
      × (start_server a.now q ≡ q)
      × (len q.store ≡ 0)
      × (q.queues ≡ [])
      × (q.queued_bytes ≡ 0)
      × ((active : ℕ)
          → member active (pointers p.store.sessions) ≡ true
          → ((q.heap active).closed ≡ true)
            × ((q.heap active).socket_closed ≡ true)
            × ((q.heap active).done ≡ true))
unfolding fail_startup close_all_sessions len
fail_startup_cools_down now generation cooldown p a current d soon consistent =
    let (emptied, closes) = close_all_lem p.store p.heap in
    let q = fail_startup now generation true p in
    let blocked : a.now < q.startup_blocked_until = ground arith in
    (
      handle_client_packet_refused a q (unfold get lookup in ground (arith, emptied)) (inl blocked),
      unfold start_server in ground (arith, blocked),
      ground (arith, emptied),
      ground arith,
      ground arith,
      λ active known.
          let (shut, socket, done, _, _, _) = close_lem (p.heap active) (consistent active) in
          ground (arith, closes active, shut, socket, done),
    )

abbrev pub fresh_session : Arrival → Proxy → Session
fresh_session a p = record {
  client_addr = a.key;
  max_packet = p.options.max_packet_size;
  last_activity = a.now;
  closed = false;
  close_once = false;
  socket_closed = false;
  done = false;
  upstream = [];
  replies = [];
}

-- The state with the session that handleClientPacket creates.
abbrev pub with_created : Arrival → Proxy → Proxy
with_created a p = record p {
  store = record p.store { sessions = (a.key, p.next_session) ∷ p.store.sessions };
  heap = update p.heap p.next_session (fresh_session a p);
  next_session = suc p.next_session;
}

pub creates :
    (a : Arrival) (p : Proxy)
    → get a.key p.store ≡ none
    → leb_ℤ p.store.max (pos (len p.store)) ≡ false
    → a.dial ≡ none
    → p.options.has_backend_addr ≡ true
    → p.options.has_listener ≡ true
    → ltb_ℤ p.options.max_packet_size (pos 1) ≡ false
    → after_creation a p ≡ (
      record {
        session = some p.next_session;
        created = true;
        count = suc (len p.store);
        error = none;
      },
      with_created a p,
    )
unfolding get get_or_create allocate new_session len
creates a p unknown room dial b l size = ground arith

pub find_queue-put :
    (p : ℕ) (queue : PacketQueue) (queues : Queues)
    → find_queue p (put_queue p queue queues) ≡ some queue
unfolding find_queue put_queue
find_queue-put p queue [] = ground arith
find_queue-put p queue ((q, old) ∷ queues) = ground (arith, find_queue-put p queue queues)

-- What the first packet of a new session does while the gate is closed and nothing starts.
first_packet :
    (a : Arrival) (p : Proxy) (active : ℕ)
    → p.backend_ready ≡ false
    → p.startup_running ≡ false
    → p.shutting_down ≡ false
    → p.startup_blocked_until ≤ a.now
    → (p.heap active).closed ≡ false
    → find_queue active p.queues ≡ none
    → overflows p empty_queue (length a.packet) ≡ false
    → let q = serve_session a false true active p in
      (find_queue active q.queues
        ≡ some
            (record { packets = a.packet ∷ []; bytes = length a.packet; overflow_logged = false }))
      × (q.store ≡ p.store)
      × (q.stop_timer ≡ none)
      × (q.startups ≡ next_generation p.startup_generation ∷ p.startups)
      × (q.startup_running ≡ true)
      × ((q.heap active).closed ≡ false)
      × ((q.heap active).upstream ≡ (p.heap active).upstream)
      × (q.shutting_down ≡ false)
      × (q.options ≡ p.options)
unfolding serve_session forward_or_queue record_activity cancel_auto_stop watch_session start_server
first_packet a p active off idle up cool alive new fits =
    unfold enqueue_locked in
    let taken = record empty_queue { packets = a.packet ∷ []; bytes = length a.packet } in
    ground (arith, find_queue-put active taken p.queues)

-- The datagram that wakes the server. It is not empty, comes from a client without a session and is
-- recognised by the detector; the gate is closed, no startup runs, no failure cools down any more and
-- no shutdown has begun; the options are such as New accepts; the store has room, the dial succeeds,
-- the new session's address has no queue, and the datagram fits the buffers. Then it creates the
-- client's session, open and with nothing sent yet, stops the pending auto-stop, is the only packet
-- of the session's queue, and begins one startup.
pub handle_client_packet_wakes :
    (a : Arrival) (p : Proxy)
    → get a.key p.store ≡ none
    → length a.packet ≢ 0
    → p.startup_blocked_until ≤ a.now
    → p.backend_ready ≡ false
    → p.startup_running ≡ false
    → p.shutting_down ≡ false
    → a.detected ≡ true
    → leb_ℤ p.store.max (pos (len p.store)) ≡ false
    → a.dial ≡ none
    → p.options.has_backend_addr ≡ true
    → p.options.has_listener ≡ true
    → ltb_ℤ p.options.max_packet_size (pos 1) ≡ false
    → find_queue p.next_session p.queues ≡ none
    → overflows p empty_queue (length a.packet) ≡ false
    → let q = handle_client_packet a p in
      (get a.key q.store ≡ some p.next_session)
      × (find_queue p.next_session q.queues
          ≡ some (record {
            packets = a.packet ∷ [];
            bytes = length a.packet;
            overflow_logged = false;
          }))
      × (q.stop_timer ≡ none)
      × (q.startups ≡ next_generation p.startup_generation ∷ p.startups)
      × (q.startup_running ≡ true)
      × ((q.heap p.next_session).closed ≡ false)
      × ((q.heap p.next_session).upstream ≡ [])
      × (q.shutting_down ≡ false)
      × (q.options ≡ p.options)
unfolding handle_client_packet admit admit_new admission_refused overflows get lookup
handle_client_packet_wakes a p unknown some_bytes cool off idle up hit room dial b l size new fits =
    let outcome = creates a p unknown room dial b l size in
    let first =
      first_packet a (with_created a p) p.next_session off idle up cool (ground arith) new fits in
    ground (arith, unknown_goes_on a p unknown, outcome, first, eq_iff a.key a.key)
