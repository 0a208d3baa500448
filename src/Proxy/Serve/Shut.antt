-- ===== src/Proxy/Serve/Shut.antt =====
-- The sections of the other goroutines keep a proxy of pkg/proxy/proxy.go that shut down as it is.
use game_server_snooze.Common.{ℕ, String, ◌≡◌, Bool, true, Option, none, some, [], arith, if_split}
use game_server_snooze.Errors.{Error, is_permanent}
use game_server_snooze.Session.{Write}
use game_server_snooze.Store.{close_all, remove, expire_idle, sweep_entries}
use game_server_snooze.Proxy.{Proxy}
use game_server_snooze.Proxy.AutoStop.{
  after_stop_request, schedule_auto_stop, stop_auto_stop_timer_locked,
}
use game_server_snooze.Proxy.Queue.{remove_queue, refresh_pending_sessions, remove_closed_queues}
use game_server_snooze.Proxy.Startup.{
  Round, poll, open_startup_gate, end_startup, finish_startup, fail_startup, complete_startup,
  close_all_sessions, start_server,
}
use game_server_snooze.Proxy.Ingress.{
  shutdown, session_done, expire_idle_sessions, remove_session, expire_sessions,
}
use game_server_snooze.Proxy.Monitor.{BackendHealthFailures, monitor_end}
use game_server_snooze.Proxy.Serve.{leave}

abbrev pub IsShut : Proxy → Type 0
IsShut p = (p.shutting_down ≡ true) × (p.store.sessions ≡ [])

pub leave-IsShut : (p : Proxy) → IsShut (leave p)
unfolding leave shutdown close_all_sessions close_all stop_auto_stop_timer_locked
leave-IsShut p = ground arith

pub shutdown-IsShut : (p : Proxy) → IsShut (shutdown p)
unfolding shutdown close_all_sessions close_all stop_auto_stop_timer_locked
shutdown-IsShut p = ground arith

pub session_done-IsShut :
    (key : String) (active : ℕ) (p : Proxy) → IsShut p → IsShut (session_done key active p)
unfolding session_done remove_session remove_queue remove schedule_auto_stop
session_done-IsShut key active p h = ground arith

pub expire_idle_sessions-IsShut :
    (now clock : ℕ) (p : Proxy) → IsShut p → IsShut (expire_idle_sessions now clock p)
unfolding expire_idle_sessions expire_sessions expire_idle sweep_entries refresh_pending_sessions
    remove_closed_queues schedule_auto_stop
expire_idle_sessions-IsShut now clock p h = ground arith

pub poll-IsShut :
    (round : Round) (start_sent : Bool) (p : Proxy) → IsShut p → IsShut (poll round start_sent p).1
unfolding poll
poll-IsShut round start_sent p h = ground arith

pub open_startup_gate-IsShut :
    (now : ℕ) (answers : ℕ → ℕ → Write) (p : Proxy)
    → IsShut p
    → IsShut (open_startup_gate now answers p)
unfolding open_startup_gate
open_startup_gate-IsShut now answers p h = ground arith

pub start_server-IsShut : (now : ℕ) (p : Proxy) → IsShut p → IsShut (start_server now p)
unfolding start_server
start_server-IsShut now p h = ground arith

pub complete_startup-IsShut :
    (now generation : ℕ) (p : Proxy) → IsShut p → IsShut (complete_startup now generation p).1
unfolding complete_startup
complete_startup-IsShut now generation p h = ground arith

pub finish_startup-IsShut :
    (now generation : ℕ) (p : Proxy) → IsShut p → IsShut (finish_startup now generation p)
unfolding finish_startup
finish_startup-IsShut now generation p h =
    if_split IsShut (complete_startup now generation p).0
      (start_server now (complete_startup now generation p).1) (complete_startup now generation p).1
      (λ _. start_server-IsShut now _ completed) (λ _. completed)
  where
    completed : IsShut (complete_startup now generation p).1
    completed = complete_startup-IsShut now generation p h

pub fail_startup-IsShut :
    (now generation : ℕ) (permanent : Bool) (p : Proxy)
    → IsShut p
    → IsShut (fail_startup now generation permanent p)
unfolding fail_startup close_all_sessions close_all
fail_startup-IsShut now generation permanent p h = ground arith

pub end_startup-IsShut :
    (now generation : ℕ) (result : Option Error) (p : Proxy)
    → IsShut p
    → IsShut (end_startup now generation result p)
unfolding end_startup
end_startup-IsShut now generation none p h = finish_startup-IsShut now generation p h
end_startup-IsShut now generation (some e) p h =
    if_split IsShut p.canceled (finish_startup now generation p)
      (fail_startup now generation (is_permanent e) p)
      (λ _. finish_startup-IsShut now generation p h)
      (λ _. fail_startup-IsShut now generation (is_permanent e) p h)

pub after_stop_request-IsShut :
    (generation attempt : ℕ) (answer : Option Error) (p : Proxy)
    → IsShut p
    → IsShut (after_stop_request generation attempt answer p)
unfolding after_stop_request
after_stop_request-IsShut generation attempt answer p h = ground arith

pub monitor_end-IsShut :
    (generation : ℕ) (result : Option Error) (p : Proxy) (failures : BackendHealthFailures)
    → IsShut p
    → IsShut (monitor_end generation result p failures).0
unfolding monitor_end
monitor_end-IsShut generation result p failures h = ground arith
