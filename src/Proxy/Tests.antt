-- ===== src/Proxy/Tests.antt =====
-- Witnesses for Proxy: a proxy for two clients, as New returns it, and with the gate open.
use game_server_snooze.Common.{
  ℕ, ◌+◌, ◌≤◌, ◌≡◌, ◌⊎◌, suc, refl, inl, inr, true, false, Option, none, some, List, [], ◌∷◌, ◌++◌,
  arith, take, is_some,
}
use game_server_snooze.Common.Int.{pos}
use game_server_snooze.Errors.{
  Error, canceled, net_closed, is_net_closed, is_permanent, backend_readiness_inconclusive, plain,
}
use game_server_snooze.Session.{Session, Write, Result, ok}
use game_server_snooze.Store.{Heap, new_store, get, len, lookup}
use game_server_snooze.Proxy.{Options, Proxy, stop_request, initial, new}
use game_server_snooze.Proxy.Queue.{find_queue, overflows}
use game_server_snooze.Proxy.AutoStop.{attempt_is_due, run_auto_stop_attempt, schedule_auto_stop}
use game_server_snooze.Proxy.AutoStop.Attempts.{auto_stop_gives_up, fire_each}
use game_server_snooze.Server.{State, offline, starting, running, stopping}
use game_server_snooze.Proxy.Startup.{
  Round, open_startup_gate, ensure_running, poll, poll_offline, readiness_checks, fail_startup,
}
use game_server_snooze.Proxy.Startup.Requests.{starts, starts-ensure_running, ensure_running_total}
use game_server_snooze.Proxy.Startup.Gate.{AnyIsVerified, gate_opens_verified}
use game_server_snooze.Proxy.Ingress.{
  Arrival, admit, shutdown, handle_client_packet, expire_idle_sessions, serve_start,
}
use game_server_snooze.Proxy.Startup.Flushes.{ensure_running_flushes}
use game_server_snooze.Proxy.Wake.Disarm.{handle_client_packet-disarms}
use game_server_snooze.Session.Lifecycle.{IsConsistent}
use game_server_snooze.Proxy.Step.Requests.{stop_requests, stops_safely}
use game_server_snooze.Proxy.Sleep.{sleeps}
use game_server_snooze.Proxy.Journey.{wakes_and_delivers}
use game_server_snooze.Proxy.Buffering.{sends, sends-open_startup_gate}
use game_server_snooze.Proxy.New.{new-IsSound}
use game_server_snooze.Proxy.Serve.{
  ReadEvent, received, read_fails, receive, leave, Serves, reads_on, stops,
}
use game_server_snooze.Proxy.Serve.Drain.{drained, drains, Serves-drained}
use game_server_snooze.Proxy.Monitor.{run_monitor, reset}
use game_server_snooze.Proxy.Monitor.Confirmation.{run_monitor-closes}
use game_server_snooze.Proxy.Invariant.{IsSound}
use game_server_snooze.Proxy.Step.{
  opens, requests_stop, here, next, sweeps, admits, shuts_down, Reach-new-IsSound,
}
use game_server_snooze.Proxy.Delivery.{delivered, open_startup_gate-delivers}
use game_server_snooze.Proxy.Wake.{
  handle_each, flood_refused, handle_client_packet_wakes, fail_startup_cools_down,
}

abbrev blank : Session
blank = record {
  client_addr = "";
  max_packet = pos 1200;
  last_activity = 0;
  closed = false;
  close_once = false;
  socket_closed = false;
  done = false;
  upstream = [];
  replies = [];
}

abbrev memory : Heap
memory p = blank

abbrev options : Options
options = record {
  has_listener = true;
  has_backend_addr = true;
  has_controller = true;
  has_detector = true;
  has_readiness = true;
  max_sessions = pos 2;
  max_packet_size = pos 1200;
  idle_timeout = pos 30;
  sweep_interval = pos 5;
  auto_stop_delay = pos 60;
  auto_stop_retry_delay = pos 7;
  startup_timeout = pos 300;
  startup_poll_interval = pos 2;
  startup_settle_delay = pos 5;
  startup_failure_cooldown = pos 9;
  startup_buffer_packets = pos 4;
  startup_buffer_bytes_per_session = pos 4096;
  startup_buffer_bytes_global = pos 8192;
}

abbrev fresh : Proxy
unfolding initial
fresh = initial options (record { max = pos 2; sessions = [] }) memory

fresh_lem : new options memory ≡ ok fresh
unfolding new new_store initial
fresh_lem = refl

abbrev written : Write
written = record { failure = none; closed_meanwhile = false }

abbrev hello : Arrival
hello = record {
  key = "192.0.2.7:40000";
  packet = 9 ∷ 8 ∷ [];
  now = 50;
  first_write = written;
  second_write = written;
  new_write = written;
  dial = none;
  detected = true;
}

abbrev good : ℕ → ℕ → Write
good p i = written

abbrev is_open : Proxy
unfolding initial
is_open = record fresh { backend_ready = true; backend_running = true; readiness_generation = 3 }

-- One session with two packets in its queue.
abbrev queued : Proxy
unfolding initial
queued = record fresh {
  queues =
      (1, record { packets = (9 ∷ []) ∷ (8 ∷ []) ∷ []; bytes = 2; overflow_logged = false }) ∷ [];
  queued_bytes = 2;
}

fresh-IsSound : IsSound fresh
fresh-IsSound = new-IsSound options memory fresh fresh_lem

Reach-new-IsSound_example : IsSound (shutdown (admit hello fresh))
Reach-new-IsSound_example =
    Reach-new-IsSound options memory fresh _ fresh_lem (next (next here (admits hello)) shuts_down)

abbrev round : Result State → Round
round status = record {
  status = status;
  start_answer = none;
  wait_ready = none;
  settle = none;
  probe = none;
  tick = none;
}

abbrev rounds : List Round
rounds =
    round (ok offline)
    ∷ round (ok offline)
    ∷ round (ok stopping)
    ∷ round (ok offline)
    ∷ round (ok starting)
    ∷ round (ok running)
    ∷ []

starts-ensure_running_example :
    starts (ensure_running 60 good false rounds fresh).1.requests + 0 ≤ 2
unfolding initial
starts-ensure_running_example = starts-ensure_running 60 good false rounds fresh

ensure_running_total_example : is_some (ensure_running 60 good false rounds fresh).0 ≡ true
ensure_running_total_example =
    ensure_running_total 60 good false rounds fresh (inr (inr (inr (inr (inr (inl (inl refl)))))))

gate_opens_verified_example : AnyIsVerified true (pos 5) rounds
unfolding initial ensure_running poll poll_offline readiness_checks open_startup_gate
    schedule_auto_stop len
gate_opens_verified_example = gate_opens_verified 60 good false rounds fresh refl refl refl

open_startup_gate-delivers_example :
    ((open_startup_gate 60 good queued).heap 1).upstream
    ≡ take (delivered 60 (good 1) 0 ((9 ∷ []) ∷ (8 ∷ []) ∷ []) blank) ((9 ∷ []) ∷ (8 ∷ []) ∷ [])
unfolding initial find_queue
open_startup_gate-delivers_example = (open_startup_gate-delivers 60 good queued 1 refl (tt, tt)).0

handle_client_packet_wakes_example : (handle_client_packet hello fresh).startups ≡ 1 ∷ []
unfolding initial get lookup len find_queue overflows
handle_client_packet_wakes_example =
    (handle_client_packet_wakes hello fresh refl (omega arith) (omega arith) refl refl refl refl
      refl refl refl refl refl refl refl).3

-- One session in the store, with packets in its queue.
abbrev failing : Proxy
unfolding initial
failing = record queued { store = record { max = pos 2; sessions = (hello.key, 1) ∷ [] } }

blank-IsConsistent : IsConsistent blank
blank-IsConsistent = record {
  once_closed = refl;
  socket_once = refl;
  done_closed = λ h. absurd (cc h);
}

fail_startup_cools_down_example : ((fail_startup 45 0 true failing).heap 1).closed ≡ true
unfolding initial
fail_startup_cools_down_example =
    ((fail_startup_cools_down 45 0 9 failing hello refl refl (omega arith)
        (λ active. blank-IsConsistent)).5
      1 refl).0

-- The new session is gone again when the timer that was armed before it fires.
handle_client_packet-disarms_example :
    run_auto_stop_attempt 0 1 none
      (record is_open { stop_generation = (handle_client_packet hello is_open).stop_generation })
    ≡ record is_open { stop_generation = (handle_client_packet hello is_open).stop_generation }
unfolding initial get lookup len
handle_client_packet-disarms_example =
    (handle_client_packet-disarms hello is_open 1 none
      (record is_open { stop_generation = (handle_client_packet hello is_open).stop_generation })
      refl (omega arith) (omega arith) (inl refl) refl refl refl refl refl (omega arith) refl).2

abbrev refusal : Error
refusal = plain "HTTP 503"

auto_stop_gives_up_example :
    (fire_each
      (some refusal ∷ some refusal ∷ some refusal ∷ [])
      (schedule_auto_stop is_open)).requests
    ≡ stop_request ∷ stop_request ∷ stop_request ∷ []
unfolding initial len
auto_stop_gives_up_example =
    (auto_stop_gives_up refusal refusal refusal is_open 7 refl refl refl refl).0

-- Two failures, a success, then three failures.
abbrev results : List (Option Error)
results = some refusal ∷ some refusal ∷ none ∷ some refusal ∷ some refusal ∷ some refusal ∷ []

run_monitor-closes_example : (run_monitor results (is_open, reset)).0.backend_ready ≡ false
unfolding initial backend_readiness_inconclusive
run_monitor-closes_example =
    run_monitor-closes results is_open reset refl refl (omega arith) (inl refl)

ensure_running_flushes_example :
    ((ensure_running 60 good false
        ((round (ok offline) ∷ round (ok starting) ∷ []) ++ round (ok running) ∷ [])
        queued).1.heap
      1).upstream
    ≡ (9 ∷ []) ∷ (8 ∷ []) ∷ []
unfolding initial is_permanent find_queue
ensure_running_flushes_example =
    (ensure_running_flushes 60 good false (round (ok offline) ∷ round (ok starting) ∷ []) []
        (round (ok running)) queued refl (tt, tt)
        (((λ e. cc), refl, refl, refl), (((λ e. cc), refl, refl, refl), tt))
        (refl, (λ e. (refl, refl)), λ e. refl)).5
      1 refl (λ j. refl)

sends-open_startup_gate_example :
    ((open_startup_gate 60 good (sends 50 written 1 ((7 ∷ []) ∷ (6 ∷ []) ∷ []) fresh)).heap
      1).upstream
    ≡ (7 ∷ []) ∷ (6 ∷ []) ∷ []
unfolding initial find_queue
sends-open_startup_gate_example =
    sends-open_startup_gate 50 60 written good 1 ((7 ∷ []) ∷ (6 ∷ []) ∷ []) fresh fresh-IsSound
      (refl, refl, refl) (refl, refl, refl) (λ j. refl)

abbrev closed_error : ReadEvent
closed_error = read_fails net_closed none (some canceled)

-- The panel says that the server runs; a packet arrives, and then the socket is closed.
abbrev served : Proxy
served = handle_client_packet hello (serve_start 40 (ok running) fresh)

serves : Serves (some canceled) (serve_start 40 (ok running) fresh) (leave served)
unfolding receive is_net_closed handle_client_packet
serves = reads_on (received hello false) refl (stops closed_error refl)

Serves-drained_example : (expire_idle_sessions 99 99 (leave served)).store.sessions ≡ []
Serves-drained_example =
    (Serves-drained 40 (ok running) options memory fresh (leave served) _ (some canceled) fresh_lem
      serves (drains drained (sweeps 99 99) tt)).1

wakes_and_delivers_example :
    ((ensure_running 60 good false
        ((round (ok offline) ∷ round (ok starting) ∷ []) ++ round (ok running) ∷ [])
        (handle_client_packet hello fresh)).1.heap
      0).upstream
    ≡ (9 ∷ 8 ∷ []) ∷ []
unfolding initial is_permanent
wakes_and_delivers_example =
    (wakes_and_delivers options memory fresh hello 60 good
      (round (ok offline) ∷ round (ok starting) ∷ []) [] (round (ok running)) fresh_lem
      (omega arith) refl refl refl
      (((λ e. cc), refl, refl, refl), (((λ e. cc), refl, refl, refl), tt))
      (refl, (λ e. (refl, refl)), λ e. refl) (λ j. refl)).3

-- The gate opens for a proxy without sessions, and the stop attempt that this schedules is due.
abbrev idle : Proxy
idle = open_startup_gate 60 good fresh

stops_safely_example :
    (stop_requests (stop_request ∷ idle.requests) ≡ stop_requests idle.requests)
    ⊎ ((stop_requests (stop_request ∷ idle.requests) ≡ suc (stop_requests idle.requests))
        × (len idle.store ≡ 0)
        × (idle.queues ≡ [])
        × (idle.backend_ready ≡ true)
        × (idle.shutting_down ≡ false))
unfolding initial open_startup_gate schedule_auto_stop attempt_is_due len
stops_safely_example =
    stops_safely options memory fresh idle _ fresh_lem (next here (opens 60 good))
      (requests_stop 1 refl)

flood_refused_example :
    handle_each
      (record hello { detected = false } ∷ record hello { key = "a"; detected = false } ∷ [])
      fresh
    ≡ fresh
unfolding initial
flood_refused_example =
    flood_refused
      (record hello { detected = false } ∷ record hello { key = "a"; detected = false } ∷ []) fresh
      refl refl refl (refl, (refl, tt))

-- One client, whose last packet was delivered at 60.
abbrev awake : Proxy
unfolding initial
awake = record fresh {
  backend_ready = true;
  backend_running = true;
  next_session = 1;
  store = record { max = pos 2; sessions = ("192.0.2.7:40000", 0) ∷ [] };
  heap = λ p. record blank { last_activity = 60 };
}

awake-IsSound : IsSound awake
unfolding initial len
awake-IsSound = ground (arith, fresh-IsSound)

sleeps_example : (expire_idle_sessions 100 100 awake).store.sessions ≡ []
unfolding initial len
sleeps_example =
    (sleeps 100 100 awake awake-IsSound refl refl (λ e. absurd (ground arith))
      (refl, omega arith, tt)).0
