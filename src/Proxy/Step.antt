-- ===== src/Proxy/Step.antt =====
-- The proxy of pkg/proxy/proxy.go as a transition system. A step is a section of one of its
-- goroutines, or a part of one (Proxy/Parts): what lies between the release of one lock and the next,
-- the start section of Serve included. The arguments of a step (clock, answers, generations,
-- sessions) are free, so the relation has every interleaving of the parts, and more.
pub mod Requests
use game_server_snooze.Common.{ℕ, String, ◌≡◌, Bool, true, Option, List, ◌∷◌, arith}
use game_server_snooze.Errors.{Error}
use game_server_snooze.Session.{Packet, Write, ReaderEvent, ok, read_backend}
use game_server_snooze.Store.{Heap, update}
use game_server_snooze.Proxy.{Proxy, Options, stop_request, new}
use game_server_snooze.Proxy.AutoStop.{attempt_is_due, after_stop_request}
use game_server_snooze.Proxy.Startup.{Round, poll, open_startup_gate, end_startup}
use game_server_snooze.Proxy.Ingress.{
  Arrival, forward_or_queue, admit, session_done, expire_idle_sessions, shutdown,
}
use game_server_snooze.Proxy.Monitor.{BackendHealthFailures, monitor_end}
use game_server_snooze.Proxy.Invariant.{
  IsSound, poll-IsSound, open_startup_gate-IsSound, end_startup-IsSound, monitor_end-IsSound,
  after_stop_request-IsSound,
}
use game_server_snooze.Proxy.Parts.{Part, Part-IsSound}
use game_server_snooze.Proxy.New.{new-IsSound}
use game_server_snooze.Proxy.Invariant.Ingress.{forward_or_queue-IsSound}
use game_server_snooze.Proxy.Invariant.Sections.{
  admit-IsSound, session_done-IsSound, expire_idle_sessions-IsSound, shutdown-IsSound,
}

pub data Step (p : Proxy) : Proxy → Type 0 where
  -- handleClientPacket: the first forwardOrQueue, for a session that a lookup found before
  forwards :
      (now : ℕ) (write : Write) (active : ℕ) (packet : Packet)
      → Step p (forward_or_queue now write active packet p).1
  -- handleClientPacket under admissionMu
  admits : (a : Arrival) → Step p (admit a p)
  -- watchSession
  notices : (key : String) (active : ℕ) → Step p (session_done key active p)
  -- runSweeper
  sweeps : (now clock : ℕ) → Step p (expire_idle_sessions now clock p)
  -- ensureRunning, up to the wait of a round
  polls : (round : Round) (start_sent : Bool) → Step p (poll round start_sent p).1
  -- ensureRunning, after the readiness checks
  opens : (now : ℕ) (answers : ℕ → ℕ → Write) → Step p (open_startup_gate now answers p)
  -- the end of the goroutine of startServer
  ends : (now generation : ℕ) (result : Option Error) → Step p (end_startup now generation result p)
  -- runAutoStopAttempt, up to the request
  requests_stop :
      (generation : ℕ)
      → attempt_is_due generation p ≡ true
      → Step p (record p { requests = stop_request ∷ p.requests })
  -- runAutoStopAttempt, after the answer
  is_answered :
      (generation attempt : ℕ) (answer : Option Error)
      → Step p (after_stop_request generation attempt answer p)
  -- runBackendHealthMonitor, after a probe
  probes :
      (generation : ℕ) (result : Option Error) (failures : BackendHealthFailures)
      → Step p (monitor_end generation result p failures).0
  -- readBackend of a session
  reads :
      (active : ℕ) (events : List ReaderEvent)
      → Step p (record p { heap = update p.heap active (read_backend (p.heap active) events) })
  -- the context of Serve is cancelled
  cancels : Step p (record p { canceled = true })
  shuts_down : Step p (shutdown p)
  does_part : {q : Proxy} → Part p q → Step p q

pub data Reach (p : Proxy) : Proxy → Type 0 where
  here : Reach p p
  next : {q r : Proxy} → Reach p q → Step q r → Reach p r

Step-IsSound : {p q : Proxy} → Step p q → IsSound p → IsSound q
Step-IsSound {p} (forwards now write active packet) v =
    forward_or_queue-IsSound now write active packet p v
Step-IsSound {p} (admits a) v = admit-IsSound a p v
Step-IsSound {p} (notices key active) v = session_done-IsSound key active p v
Step-IsSound {p} (sweeps now clock) v = expire_idle_sessions-IsSound now clock p v
Step-IsSound {p} (polls round start_sent) v = poll-IsSound round start_sent p v
Step-IsSound {p} (opens now answers) v = open_startup_gate-IsSound now answers p v
Step-IsSound {p} (ends now generation result) v = end_startup-IsSound now generation result p v
Step-IsSound {p} (requests_stop generation due) v = ground arith
Step-IsSound {p} (is_answered generation attempt answer) v =
    after_stop_request-IsSound generation attempt answer p v
Step-IsSound {p} (probes generation result failures) v =
    monitor_end-IsSound generation result p failures v
Step-IsSound {p} (reads active events) v = ground arith
Step-IsSound {p} cancels v = ground arith
Step-IsSound {p} shuts_down v = shutdown-IsSound p v
Step-IsSound (does_part part) v = Part-IsSound part v

pub Reach-IsSound : {p q : Proxy} → IsSound p → Reach p q → IsSound q
Reach-IsSound v here = v
Reach-IsSound v (next r s) = Step-IsSound s (Reach-IsSound v r)

-- From a proxy that New returned, whatever the order of the sections: the queued bytes are counted
-- exactly and the three limits of the startup buffers hold, the store is within its capacity with
-- every address and session in one entry, nothing is queued while the gate is open, a pending stop
-- timer is of the current generation, and a proxy that shuts down has no gate open and no timer.
pub Reach-new-IsSound :
    (options : Options) (heap : Heap) (p q : Proxy)
    → new options heap ≡ ok p
    → Reach p q
    → IsSound q
Reach-new-IsSound options heap p q h r = Reach-IsSound (new-IsSound options heap p h) r
