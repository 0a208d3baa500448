-- ===== src/Proxy/Parts.antt =====
-- The parts of the functions of pkg/proxy/proxy.go that take several locks one after the other, or
-- several under admissionMu: what is done between one release and the next.
use game_server_snooze.Common.{ℕ, String, ◌≡◌, Bool, false, [], arith}
use game_server_snooze.Session.{Packet, Session, Result}
use game_server_snooze.Server.{State}
use game_server_snooze.Store.{update}
use game_server_snooze.Proxy.{Proxy}
use game_server_snooze.Proxy.Queue.{
  enqueue_locked, refresh_pending_sessions, remove_closed_queues, remove_queue,
}
use game_server_snooze.Proxy.AutoStop.{
  cancel_auto_stop, schedule_auto_stop, stop_auto_stop_timer_locked,
}
use game_server_snooze.Proxy.Startup.{
  start_server, complete_startup, mark_failed, close_all_sessions,
}
use game_server_snooze.Proxy.Ingress.{
  Arrival, after_creation, should_log_capacity_warning, watch_session, mark_shut, serve_start,
}
use game_server_snooze.Proxy.Invariant.{
  IsSound, start_server-IsSound, schedule_auto_stop-IsSound, cancel_auto_stop-IsSound,
  close_all_sessions-IsSound, mark_failed-IsSound, complete_startup-IsSound,
}
use game_server_snooze.Proxy.Invariant.Ingress.{
  enqueue_locked-IsSound, remove_queue-IsSound, without_session, without_session-IsSound,
  after_creation-IsSound,
}
use game_server_snooze.Proxy.Invariant.Sections.{
  refresh_pending_sessions-IsSound, remove_closed_queues-IsSound, without_idle,
  without_idle-IsSound, mark_shut-IsSound,
}
use game_server_snooze.Proxy.Invariant.Start.{serve_start-IsSound}

pub data Part (p : Proxy) : Proxy → Type 0 where
  -- expireIdleSessions: refreshPendingSessions, store.ExpireIdle, removeClosedQueues
  refreshes : (clock : ℕ) → Part p (refresh_pending_sessions clock p)
  expires : (cutoff : ℕ) → Part p (without_idle cutoff p)
  discards : Part p (remove_closed_queues p)
  -- expireIdleSessions, watchSession
  schedules : Part p (schedule_auto_stop p)
  -- watchSession, handleClientPacket: store.Remove, removeQueue
  removes : (key : String) (active : ℕ) → Part p (without_session key active p)
  forgets : (active : ℕ) → Part p (remove_queue active p)
  -- finishStartup: completeStartup, startServer
  completes : (now generation : ℕ) → Part p (complete_startup now generation p).1
  starts : (now : ℕ) → Part p (start_server now p)
  -- failStartup and shutdown: the section of mu, store.CloseAll
  fails : (now generation : ℕ) (permanent : Bool) → Part p (mark_failed now generation permanent p)
  shuts : Part p (mark_shut p)
  closes_all : Part p (close_all_sessions p)
  -- handleClientPacket: store.GetOrCreate, cancelAutoStop, enqueueLocked, watchSession,
  -- shouldLogCapacityWarning
  creates : (a : Arrival) → Part p (after_creation a p).1
  disarms : Part p (cancel_auto_stop p)
  enqueues :
      (active : ℕ) (packet : Packet)
      → p.backend_ready ≡ false
      → Part p (enqueue_locked active packet p)
  watches : (key : String) (active : ℕ) → Part p (watch_session key active p)
  warns : (now : ℕ) → Part p (should_log_capacity_warning now p).1
  -- any part of what a session does, cut as in Session/Flow
  touches : (active : ℕ) (s : Session) → Part p (record p { heap = update p.heap active s })
  -- the start section of Serve, before which no other goroutine runs
  begins :
      (now : ℕ) (status : Result State)
      → p.queues ≡ []
      → p.shutting_down ≡ false
      → Part p (serve_start now status p)

pub Part-IsSound : {p q : Proxy} → Part p q → IsSound p → IsSound q
unfolding watch_session should_log_capacity_warning
Part-IsSound {p} (refreshes clock) v = refresh_pending_sessions-IsSound clock p v
Part-IsSound {p} (expires cutoff) v = without_idle-IsSound cutoff p v
Part-IsSound {p} discards v = remove_closed_queues-IsSound p v
Part-IsSound {p} schedules v = schedule_auto_stop-IsSound p v
Part-IsSound {p} (removes key active) v = without_session-IsSound key active p v
Part-IsSound {p} (forgets active) v = remove_queue-IsSound active p v
Part-IsSound {p} (completes now generation) v = complete_startup-IsSound now generation p v
Part-IsSound {p} (starts now) v = start_server-IsSound now p v
Part-IsSound {p} (fails now generation permanent) v =
    mark_failed-IsSound now generation permanent p v
Part-IsSound {p} shuts v = mark_shut-IsSound p v
Part-IsSound {p} closes_all v = close_all_sessions-IsSound p v
Part-IsSound {p} (creates a) v = after_creation-IsSound a p v
Part-IsSound {p} disarms v = cancel_auto_stop-IsSound p v
Part-IsSound {p} (enqueues active packet gate) v = enqueue_locked-IsSound active packet p gate v
Part-IsSound {p} (watches key active) v = ground arith
Part-IsSound {p} (warns now) v = ground arith
Part-IsSound {p} (touches active s) v = ground arith
Part-IsSound {p} (begins now status empty up) v = serve_start-IsSound now status p v empty up

pub requests-Part : {p q : Proxy} → Part p q → q.requests ≡ p.requests
unfolding enqueue_locked refresh_pending_sessions remove_closed_queues schedule_auto_stop
    remove_queue complete_startup start_server close_all_sessions cancel_auto_stop watch_session
    should_log_capacity_warning stop_auto_stop_timer_locked serve_start
requests-Part {p} (refreshes clock) = ground arith
requests-Part {p} (expires cutoff) = ground arith
requests-Part {p} discards = ground arith
requests-Part {p} schedules = ground arith
requests-Part {p} (removes key active) = ground arith
requests-Part {p} (forgets active) = ground arith
requests-Part {p} (completes now generation) = ground arith
requests-Part {p} (starts now) = ground arith
requests-Part {p} (fails now generation permanent) = ground arith
requests-Part {p} shuts = ground arith
requests-Part {p} closes_all = ground arith
requests-Part {p} (creates a) = ground arith
requests-Part {p} disarms = ground arith
requests-Part {p} (enqueues active packet gate) = ground arith
requests-Part {p} (watches key active) = ground arith
requests-Part {p} (warns now) = ground arith
requests-Part {p} (touches active s) = ground arith
requests-Part {p} (begins now status empty up) = ground arith
