-- ===== src/Proxy/Step/Requests.antt =====
-- Which sections of pkg/proxy/proxy.go ask the panel for something.
use game_server_snooze.Common.{
  ℕ, suc, String, ◌≡◌, ◌⊎◌, inl, inr, ap, refl, Bool-cases, Bool, true, false, Option, List, [],
  ◌∷◌, arith,
}
use game_server_snooze.Errors.{Error}
use game_server_snooze.Session.{ok, Packet, Write}
use game_server_snooze.Store.{Heap, len}
use game_server_snooze.Proxy.{Proxy, Options, new, Request, start_request, stop_request}
use game_server_snooze.Proxy.Invariant.{IsSound}
use game_server_snooze.Proxy.Queue.{
  enqueue_locked, remove_queue, remove_closed_queues, refresh_pending_sessions,
}
use game_server_snooze.Proxy.AutoStop.{
  attempt_is_due, after_stop_request, schedule_auto_stop, cancel_auto_stop,
  stop_auto_stop_timer_locked,
}
use game_server_snooze.Proxy.Startup.{
  Round, start_server, complete_startup, finish_startup, fail_startup, poll, open_startup_gate,
  end_startup, close_all_sessions,
}
use game_server_snooze.Proxy.Ingress.{
  Arrival, forward_or_queue, forward_or_remove, remove_session, serve_session, watch_session,
  admit_new, admit, session_done, expire_sessions, expire_idle_sessions, shutdown,
  should_log_capacity_warning,
}
use game_server_snooze.Proxy.Monitor.{BackendHealthFailures, monitor_end, close_backend_gate}
use game_server_snooze.Proxy.Parts.{requests-Part}
use game_server_snooze.Proxy.Step.{
  Step, Reach, Reach-new-IsSound, forwards, admits, notices, sweeps, polls, opens, ends,
  requests_stop, is_answered, probes, reads, cancels, shuts_down, does_part,
}

abbrev pub stop_requests : List Request → ℕ
stop_requests [] = 0
stop_requests (stop_request ∷ requests) = suc (stop_requests requests)
stop_requests (start_request ∷ requests) = stop_requests requests

requests-start_server : (now : ℕ) (p : Proxy) → (start_server now p).requests ≡ p.requests
unfolding start_server
requests-start_server now p = ground arith

requests-schedule_auto_stop : (p : Proxy) → (schedule_auto_stop p).requests ≡ p.requests
unfolding schedule_auto_stop
requests-schedule_auto_stop p = ground arith

requests-enqueue_locked :
    (active : ℕ) (packet : Packet) (p : Proxy)
    → (enqueue_locked active packet p).requests ≡ p.requests
unfolding enqueue_locked
requests-enqueue_locked active packet p = ground arith

requests-remove_queue : (active : ℕ) (p : Proxy) → (remove_queue active p).requests ≡ p.requests
unfolding remove_queue
requests-remove_queue active p = ground arith

requests-forward_or_queue :
    (now : ℕ) (write : Write) (active : ℕ) (packet : Packet) (p : Proxy)
    → (forward_or_queue now write active packet p).1.requests ≡ p.requests
unfolding forward_or_queue start_server enqueue_locked
requests-forward_or_queue now write active packet p = ground arith

requests-remove_session :
    (key : String) (active : ℕ) (p : Proxy) → (remove_session key active p).1.requests ≡ p.requests
unfolding remove_session remove_queue
requests-remove_session key active p = ground arith

requests-forward_or_remove :
    (a : Arrival) (p : Proxy) → (forward_or_remove a p).1.requests ≡ p.requests
unfolding forward_or_remove
requests-forward_or_remove a p = grind (arith, requests-forward_or_queue, requests-remove_session)

requests-serve_session :
    (a : Arrival) (ready created : Bool) (active : ℕ) (p : Proxy)
    → (serve_session a ready created active p).requests ≡ p.requests
unfolding serve_session watch_session cancel_auto_stop
requests-serve_session a ready created active p =
    grind (arith, requests-forward_or_queue, requests-start_server)

requests-admit_new : (a : Arrival) (p : Proxy) → (admit_new a p).requests ≡ p.requests
unfolding admit_new should_log_capacity_warning
requests-admit_new a p = grind (arith, requests-serve_session)

requests-admit : (a : Arrival) (p : Proxy) → (admit a p).requests ≡ p.requests
unfolding admit
requests-admit a p = grind (arith, requests-forward_or_remove, requests-admit_new)

requests-session_done :
    (key : String) (active : ℕ) (p : Proxy) → (session_done key active p).requests ≡ p.requests
unfolding session_done
requests-session_done key active p =
    grind (arith, requests-remove_session, requests-schedule_auto_stop)

requests-expire_idle_sessions :
    (now clock : ℕ) (p : Proxy) → (expire_idle_sessions now clock p).requests ≡ p.requests
unfolding expire_idle_sessions expire_sessions remove_closed_queues refresh_pending_sessions
    schedule_auto_stop
requests-expire_idle_sessions now clock p = ground arith

stop_requests-poll :
    (round : Round) (start_sent : Bool) (p : Proxy)
    → stop_requests (poll round start_sent p).1.requests ≡ stop_requests p.requests
unfolding poll
stop_requests-poll round start_sent p = ground arith

requests-open_startup_gate :
    (now : ℕ) (answers : ℕ → ℕ → Write) (p : Proxy)
    → (open_startup_gate now answers p).requests ≡ p.requests
unfolding open_startup_gate schedule_auto_stop
requests-open_startup_gate now answers p = ground arith

requests-finish_startup :
    (now generation : ℕ) (p : Proxy) → (finish_startup now generation p).requests ≡ p.requests
unfolding finish_startup complete_startup
requests-finish_startup now generation p = grind (arith, requests-start_server)

requests-fail_startup :
    (now generation : ℕ) (permanent : Bool) (p : Proxy)
    → (fail_startup now generation permanent p).requests ≡ p.requests
unfolding fail_startup close_all_sessions
requests-fail_startup now generation permanent p = ground arith

requests-end_startup :
    (now generation : ℕ) (result : Option Error) (p : Proxy)
    → (end_startup now generation result p).requests ≡ p.requests
unfolding end_startup
requests-end_startup now generation result p =
    grind (arith, requests-finish_startup, requests-fail_startup)

requests-after_stop_request :
    (generation attempt : ℕ) (answer : Option Error) (p : Proxy)
    → (after_stop_request generation attempt answer p).requests ≡ p.requests
unfolding after_stop_request
requests-after_stop_request generation attempt answer p = ground arith

requests-monitor_end :
    (generation : ℕ) (result : Option Error) (p : Proxy) (failures : BackendHealthFailures)
    → (monitor_end generation result p failures).0.requests ≡ p.requests
unfolding monitor_end close_backend_gate
requests-monitor_end generation result p failures = ground arith

requests-shutdown : (p : Proxy) → (shutdown p).requests ≡ p.requests
unfolding shutdown close_all_sessions stop_auto_stop_timer_locked
requests-shutdown p = ground arith

-- A step keeps the number of stop requests, or sends one where the proxy is ready and without
-- sessions.
abbrev pub StopsSafely : Proxy → Proxy → Type 0
StopsSafely p q =
    (stop_requests q.requests ≡ stop_requests p.requests)
    ⊎ ((stop_requests q.requests ≡ suc (stop_requests p.requests))
        × (len p.store ≡ 0)
        × (p.backend_ready ≡ true))

due-attempt_is_due :
    (generation : ℕ) (p : Proxy)
    → attempt_is_due generation p ≡ true
    → (len p.store ≡ 0) × (p.backend_ready ≡ true)
unfolding attempt_is_due
due-attempt_is_due generation p due = ground arith

Step-StopsSafely : {p q : Proxy} → Step p q → StopsSafely p q
Step-StopsSafely {p} (forwards now write active packet) =
    inl (ap stop_requests (requests-forward_or_queue now write active packet p))
Step-StopsSafely {p} (admits a) = inl (ap stop_requests (requests-admit a p))
Step-StopsSafely {p} (notices key active) =
    inl (ap stop_requests (requests-session_done key active p))
Step-StopsSafely {p} (sweeps now clock) =
    inl (ap stop_requests (requests-expire_idle_sessions now clock p))
Step-StopsSafely {p} (polls round start_sent) = inl (stop_requests-poll round start_sent p)
Step-StopsSafely {p} (opens now answers) =
    inl (ap stop_requests (requests-open_startup_gate now answers p))
Step-StopsSafely {p} (ends now generation result) =
    inl (ap stop_requests (requests-end_startup now generation result p))
Step-StopsSafely {p} (requests_stop generation due) =
    let (empty, ready) = due-attempt_is_due generation p due in inr (refl, empty, ready)
Step-StopsSafely {p} (is_answered generation attempt answer) =
    inl (ap stop_requests (requests-after_stop_request generation attempt answer p))
Step-StopsSafely {p} (probes generation result failures) =
    inl (ap stop_requests (requests-monitor_end generation result p failures))
Step-StopsSafely {p} (reads active events) = inl refl
Step-StopsSafely {p} cancels = inl refl
Step-StopsSafely {p} shuts_down = inl (ap stop_requests (requests-shutdown p))
Step-StopsSafely (does_part part) = inl (ap stop_requests (requests-Part part))

not_shut : (p : Proxy) → IsSound p → p.backend_ready ≡ true → p.shutting_down ≡ false
not_shut p v ready = elim (Bool-cases p.shutting_down) [
  | inl shut ↦ absurd (cc (ready, v.shut_gate shut))
  | inr up ↦ up
]

-- From a proxy that New returned, whatever the order of the sections: no section but the stop
-- attempt asks the panel to stop the server, and it asks once, with no session in the store, no
-- packet queued, the gate open, and no shutdown begun.
pub stops_safely :
    (options : Options) (heap : Heap) (p q r : Proxy)
    → new options heap ≡ ok p
    → Reach p q
    → Step q r
    → (stop_requests r.requests ≡ stop_requests q.requests)
      ⊎ ((stop_requests r.requests ≡ suc (stop_requests q.requests))
          × (len q.store ≡ 0)
          × (q.queues ≡ [])
          × (q.backend_ready ≡ true)
          × (q.shutting_down ≡ false))
stops_safely options heap p q r made run step = elim (Step-StopsSafely step) [
  | inl same ↦ inl same
  | inr (more, empty, ready) ↦
      let v : IsSound q = Reach-new-IsSound options heap p q made run in
      inr (more, empty, v.gated ready, ready, not_shut q v ready)
]
