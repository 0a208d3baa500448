-- ===== src/Proxy/Serve/Drain.antt =====
-- What Serve leaves to the goroutines that it waits for (pkg/proxy/proxy.go).
use game_server_snooze.Common.{ℕ, ◌≡◌, false, Option, none, [], arith}
use game_server_snooze.Errors.{Error}
use game_server_snooze.Session.{Result, ok}
use game_server_snooze.Server.{State}
use game_server_snooze.Store.{Heap, expire_idle, sweep_entries, remove, close_all}
use game_server_snooze.Proxy.{Proxy, Options, new}
use game_server_snooze.Proxy.AutoStop.{
  attempt_is_due, cancel_auto_stop, schedule_auto_stop, stop_auto_stop_timer_locked,
}
use game_server_snooze.Proxy.Queue.{refresh_pending_sessions, remove_closed_queues, remove_queue}
use game_server_snooze.Proxy.Parts.{
  Part, refreshes, expires, discards, schedules, removes, forgets, completes, starts, fails, shuts,
  closes_all, creates, enqueues, disarms, watches, warns, touches, begins,
}
use game_server_snooze.Proxy.Startup.{start_server, complete_startup, close_all_sessions}
use game_server_snooze.Proxy.Ingress.{serve_start, watch_session, should_log_capacity_warning}
use game_server_snooze.Proxy.Invariant.{IsSound}
use game_server_snooze.Proxy.Invariant.Start.{serve_start-IsSound}
use game_server_snooze.Proxy.New.{new-IsSound, new-idle}
use game_server_snooze.Proxy.Step.{
  Step, Reach, here, next, forwards, admits, notices, sweeps, polls, opens, ends, requests_stop,
  is_answered, probes, reads, cancels, shuts_down, does_part, Reach-IsSound,
}
use game_server_snooze.Proxy.Serve.{Serves, interleaves, reads_on, stops}
use game_server_snooze.Proxy.Serve.Shut.{
  IsShut, leave-IsShut, shutdown-IsShut, session_done-IsShut, expire_idle_sessions-IsShut,
  poll-IsShut, open_startup_gate-IsShut, end_startup-IsShut, after_stop_request-IsShut,
  monitor_end-IsShut,
}
use game_server_snooze.Proxy.Serve.Steps.{Reach-trans, Serves-Reach}

-- A part of a goroutine other than the loop of Serve, which alone begins, creates sessions
-- and queues packets.
abbrev pub IsBackgroundPart : {p q : Proxy} → Part p q → Type 0
IsBackgroundPart (creates a) = ⊥
IsBackgroundPart (enqueues active packet gate) = ⊥
IsBackgroundPart (begins now status empty up) = ⊥
IsBackgroundPart _ = Unit

Part-IsShut : {p q : Proxy} (part : Part p q) → IsBackgroundPart part → IsShut p → IsShut q
unfolding refresh_pending_sessions remove_closed_queues schedule_auto_stop remove_queue
    complete_startup start_server close_all_sessions cancel_auto_stop watch_session
    should_log_capacity_warning stop_auto_stop_timer_locked expire_idle sweep_entries remove
    close_all
Part-IsShut (refreshes clock) b h = ground arith
Part-IsShut (expires cutoff) b h = ground arith
Part-IsShut discards b h = ground arith
Part-IsShut schedules b h = ground arith
Part-IsShut (removes key active) b h = ground arith
Part-IsShut (forgets active) b h = ground arith
Part-IsShut (completes now generation) b h = ground arith
Part-IsShut (starts now) b h = ground arith
Part-IsShut (fails now generation permanent) b h = ground arith
Part-IsShut shuts b h = ground arith
Part-IsShut closes_all b h = ground arith
Part-IsShut (creates a) b h = absurd b
Part-IsShut (enqueues active packet gate) b h = absurd b
Part-IsShut disarms b h = ground arith
Part-IsShut (watches key active) b h = ground arith
Part-IsShut (warns now) b h = ground arith
Part-IsShut (touches active s) b h = ground arith
Part-IsShut (begins now status empty up) b h = absurd b

-- A step of a goroutine other than the loop of Serve.
abbrev pub IsBackground : {p q : Proxy} → Step p q → Type 0
IsBackground (forwards now write active packet) = ⊥
IsBackground (admits a) = ⊥
IsBackground (does_part part) = IsBackgroundPart part
IsBackground _ = Unit

-- What the other goroutines do after the loop has ended.
pub data Drains (p : Proxy) : Proxy → Type 0 where
  drained : Drains p p
  drains : {q r : Proxy} → Drains p q → (step : Step q r) → IsBackground step → Drains p r

Step-IsShut : {p q : Proxy} (step : Step p q) → IsBackground step → IsShut p → IsShut q
Step-IsShut {p} (forwards now write active packet) b h = absurd b
Step-IsShut {p} (admits a) b h = absurd b
Step-IsShut {p} (notices key active) b h = session_done-IsShut key active p h
Step-IsShut {p} (sweeps now clock) b h = expire_idle_sessions-IsShut now clock p h
Step-IsShut {p} (polls round start_sent) b h = poll-IsShut round start_sent p h
Step-IsShut {p} (opens now answers) b h = open_startup_gate-IsShut now answers p h
Step-IsShut {p} (ends now generation result) b h = end_startup-IsShut now generation result p h
Step-IsShut {p} (requests_stop generation due) b h = h
Step-IsShut {p} (is_answered generation attempt answer) b h =
    after_stop_request-IsShut generation attempt answer p h
Step-IsShut {p} (probes generation result failures) b h =
    monitor_end-IsShut generation result p failures h
Step-IsShut {p} (reads active events) b h = h
Step-IsShut {p} cancels b h = h
Step-IsShut {p} shuts_down b h = shutdown-IsShut p
Step-IsShut (does_part part) b h = Part-IsShut part b h

Drains-IsShut : {p q : Proxy} → IsShut p → Drains p q → IsShut q
Drains-IsShut h drained = h
Drains-IsShut h (drains d step b) = Step-IsShut step b (Drains-IsShut h d)

Drains-Reach : {p q : Proxy} → Drains p q → Reach p q
Drains-Reach drained = here
Drains-Reach (drains d step b) = next (Drains-Reach d) step

Serves-IsShut : {result : Option Error} {p q : Proxy} → Serves result p q → IsShut q
Serves-IsShut (interleaves step run) = Serves-IsShut run
Serves-IsShut (reads_on event h run) = Serves-IsShut run
Serves-IsShut {p = p} (stops event h) = leave-IsShut p

-- When Serve returns, whatever the datagrams were, whatever the other goroutines did between them,
-- and whatever they still do before the deferred wait for them ends: every session has left the
-- store, the gate is closed, no stop timer is pending, no stop attempt goes on to its request, no
-- startup can begin, and the accounting of the queues is exact.
pub Serves-drained :
    (now : ℕ) (status : Result State) (options : Options) (heap : Heap) (p q r : Proxy)
    (result : Option Error)
    → new options heap ≡ ok p
    → Serves result (serve_start now status p) q
    → Drains q r
    → IsSound r
      × (r.store.sessions ≡ [])
      × (r.backend_ready ≡ false)
      × (r.stop_timer ≡ none)
      × ((generation : ℕ) → attempt_is_due generation r ≡ false)
      × ((clock : ℕ) → start_server clock r ≡ r)
unfolding attempt_is_due start_server
Serves-drained now status options heap p q r result made run drain =
    let (empty, up) = new-idle options heap p made in
    let begun = serve_start-IsSound now status p (new-IsSound options heap p made) empty up in
    let sound : IsSound r =
      Reach-IsSound begun (Reach-trans (Serves-Reach run) (Drains-Reach drain)) in
    let (shut, none_left) = Drains-IsShut (Serves-IsShut run) drain in
    let closed = sound.shut_gate shut in
    (
      sound,
      none_left,
      closed,
      sound.shut_timer shut,
      λ generation. ground arith,
      λ clock. ground arith,
    )
