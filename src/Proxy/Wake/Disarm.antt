-- ===== src/Proxy/Wake/Disarm.antt =====
-- That a new session disarms the auto-stop, in handleClientPacket of pkg/proxy/proxy.go.
use game_server_snooze.Common.{
  ℕ, ◌^◌, ◌≤◌, ◌<◌, ◌≡◌, ◌≢◌, ◌⊎◌, Bool, true, false, Option, none, some, arith, length, eq_iff,
}
use game_server_snooze.Common.Int.{pos, leb_ℤ, ltb_ℤ}
use game_server_snooze.Errors.{Error}
use game_server_snooze.Store.{get, len, lookup}
use game_server_snooze.Proxy.{Proxy, next_generation}
use game_server_snooze.Proxy.Queue.{enqueue_locked}
use game_server_snooze.Proxy.AutoStop.{attempt_is_due, run_auto_stop_attempt, cancel_auto_stop}
use game_server_snooze.Proxy.Startup.{start_server}
use game_server_snooze.Proxy.Ingress.{
  Arrival, forward_or_queue, admission_refused, admit_new, admit, handle_client_packet,
  serve_session, watch_session,
}
use game_server_snooze.Proxy.Wake.{with_created, creates, unknown_goes_on}

forward_or_queue-stops :
    (now : ℕ) (a : Arrival) (active : ℕ) (p : Proxy)
    → let q = (forward_or_queue now a.new_write active a.packet p).1 in
      (q.store ≡ p.store) × (q.stop_timer ≡ p.stop_timer) × (q.stop_generation ≡ p.stop_generation)
unfolding forward_or_queue start_server enqueue_locked
forward_or_queue-stops now a active p = ground arith

serve_session-disarms :
    (a : Arrival) (ready : Bool) (active : ℕ) (p : Proxy)
    → let q = serve_session a ready true active p in
      (q.store ≡ p.store)
      × (q.stop_timer ≡ none)
      × (q.stop_generation ≡ next_generation p.stop_generation)
unfolding serve_session cancel_auto_stop watch_session start_server
serve_session-disarms a ready active p =
    ground (
      arith,
      forward_or_queue-stops a.now a active (watch_session a.key active (cancel_auto_stop p)),
    )

another_generation :
    (g attempt : ℕ) (answer : Option Error) (r : Proxy)
    → g < 2 ^ 64
    → r.stop_generation ≡ next_generation g
    → run_auto_stop_attempt g attempt answer r ≡ r
unfolding run_auto_stop_attempt attempt_is_due
another_generation g attempt answer r bound new = ground arith

-- The stop generation is a uint64. A non-empty datagram of a client without a session is admitted: no startup failure cools down, the
-- gate is open, the server runs or the detector recognises the datagram, the store has room, the dial
-- succeeds and the options are such as New accepts. Then the client has a new session and no stop
-- timer is pending; and the callback of a timer that was armed before, should it run all the same,
-- does nothing in any later state of the same stop generation, also once the session is gone.
pub handle_client_packet-disarms :
    (a : Arrival) (p : Proxy) (attempt : ℕ) (answer : Option Error) (later : Proxy)
    → get a.key p.store ≡ none
    → length a.packet ≢ 0
    → p.startup_blocked_until ≤ a.now
    → (p.backend_ready ≡ true) ⊎ (p.backend_running ≡ true) ⊎ (a.detected ≡ true)
    → leb_ℤ p.store.max (pos (len p.store)) ≡ false
    → a.dial ≡ none
    → p.options.has_backend_addr ≡ true
    → p.options.has_listener ≡ true
    → ltb_ℤ p.options.max_packet_size (pos 1) ≡ false
    → p.stop_generation < 2 ^ 64
    → let q = handle_client_packet a p in
      later.stop_generation ≡ q.stop_generation
      → (get a.key q.store ≡ some p.next_session)
        × (q.stop_timer ≡ none)
        × (run_auto_stop_attempt p.stop_generation attempt answer later ≡ later)
unfolding handle_client_packet admit admit_new admission_refused get lookup
handle_client_packet-disarms a p attempt answer later unknown some_bytes cool why room dial b l size
      bound same =
    let outcome = creates a p unknown room dial b l size in
    let served = serve_session-disarms a p.backend_ready p.next_session (with_created a p) in
    let elsewhere = another_generation p.stop_generation attempt answer later bound in
    ground (arith, unknown_goes_on a p unknown, outcome, served, eq_iff a.key a.key, elsewhere)
