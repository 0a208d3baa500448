-- ===== src/Proxy/Invariant.antt =====
-- What holds of the proxy between two atomic sections (pkg/proxy/proxy.go), and that the sections of
-- the startup, of the auto-stop and of the health monitor keep it.
pub mod Ingress
pub mod Sections
pub mod Start
use game_server_snooze.Common.{
  ℕ, zero, suc, ◌+◌, ◌%◌, ◌^◌, ◌≤◌, ◌<◌, ◌≡◌, ◌≢◌, refl, Bool, true, false, Option, none, some,
  List, [], ◌∷◌, arith, length, if◌then◌else◌, Bool-cases, if_split,
}
use game_server_snooze.Errors.{Error, is_permanent}
use game_server_snooze.Session.{Write, Result}
use game_server_snooze.Store.{Entries, Heap, Store, close_all, len}
use game_server_snooze.Store.Laws.{IsValid, close_all-IsValid}
use game_server_snooze.Proxy.{Proxy, Timer, Options, next_generation}
use game_server_snooze.Proxy.Queue.{clear_queues, flush_queues}
use game_server_snooze.Proxy.AutoStop.{
  stop_auto_stop_timer_locked, schedule_auto_stop_attempt_locked, cancel_auto_stop,
  schedule_auto_stop, mark_backend_not_running, after_stop_request,
}
use game_server_snooze.Server.{State}
use game_server_snooze.Proxy.Startup.{
  Round, start_server, complete_startup, finish_startup, mark_failed, fail_startup,
  open_startup_gate, poll_offline, poll, end_startup, close_all_sessions,
}
use game_server_snooze.Proxy.Monitor.{BackendHealthFailures, close_backend_gate, monitor_end}
use game_server_snooze.Proxy.Accounting.{IsAccounted, clear_queues-IsAccounted}

abbrev pub PointersBelow : ℕ → Entries → Type 0
PointersBelow n [] = Unit {0}
PointersBelow n ((k, p) ∷ entries) = (p < n) × PointersBelow n entries

abbrev pub TimerHas : ℕ → Option Timer → Type 0
TimerHas generation none = Unit {0}
TimerHas generation (some timer) = timer.generation ≡ generation

-- The queues are accounted for and empty while the gate is open; the store is valid and its sessions
-- were allocated; the pending timer is of the current generation; a proxy that shuts down has the
-- gate closed and no timer.
pub record IsSound (proxy : Proxy) : Type 0 where
  pub accounted : IsAccounted proxy
  pub valid : IsValid proxy.store
  pub allocated : PointersBelow proxy.next_session proxy.store.sessions
  pub gated : proxy.backend_ready ≡ true → proxy.queues ≡ []
  pub timer : TimerHas proxy.stop_generation proxy.stop_timer
  pub counter : proxy.stop_generation < 2 ^ 64
  pub shut_gate : proxy.shutting_down ≡ true → proxy.backend_ready ≡ false
  pub shut_timer : proxy.shutting_down ≡ true → proxy.stop_timer ≡ none

pub start_server-IsSound : (now : ℕ) (p : Proxy) → IsSound p → IsSound (start_server now p)
unfolding start_server
start_server-IsSound now p v = ground arith

pub schedule_auto_stop-IsSound : (p : Proxy) → IsSound p → IsSound (schedule_auto_stop p)
unfolding schedule_auto_stop
schedule_auto_stop-IsSound p v = ground arith

pub cancel_auto_stop-IsSound : (p : Proxy) → IsSound p → IsSound (cancel_auto_stop p)
unfolding cancel_auto_stop
cancel_auto_stop-IsSound p v = ground arith

pub mark_backend_not_running-IsSound :
    (p : Proxy) → IsSound p → IsSound (mark_backend_not_running p)
unfolding mark_backend_not_running
mark_backend_not_running-IsSound p v = ground arith

pub clear_queues-IsSound : (p : Proxy) → IsSound p → IsSound (clear_queues p)
clear_queues-IsSound p v = ground (arith, clear_queues-IsAccounted p v.accounted)

pub close_all_sessions-IsSound : (p : Proxy) → IsSound p → IsSound (close_all_sessions p)
unfolding close_all_sessions
close_all_sessions-IsSound p v = ground (arith, close_all-IsValid p.store p.heap v.valid)

pub after_stop_request-IsSound :
    (generation attempt : ℕ) (answer : Option Error) (p : Proxy)
    → IsSound p
    → IsSound (after_stop_request generation attempt answer p)
unfolding after_stop_request
after_stop_request-IsSound generation attempt answer p v = ground arith

pub complete_startup-IsSound :
    (now generation : ℕ) (p : Proxy) → IsSound p → IsSound (complete_startup now generation p).1
unfolding complete_startup
complete_startup-IsSound now generation p v = ground arith

pub finish_startup-IsSound :
    (now generation : ℕ) (p : Proxy) → IsSound p → IsSound (finish_startup now generation p)
unfolding finish_startup
finish_startup-IsSound now generation p v =
    if_split IsSound (complete_startup now generation p).0
      (start_server now (complete_startup now generation p).1) (complete_startup now generation p).1
      (λ _. start_server-IsSound now _ completed) (λ _. completed)
  where
    completed : IsSound (complete_startup now generation p).1
    completed = complete_startup-IsSound now generation p v

pub fail_startup-IsSound :
    (now generation : ℕ) (permanent : Bool) (p : Proxy)
    → IsSound p
    → IsSound (fail_startup now generation permanent p)
unfolding fail_startup close_all_sessions
fail_startup-IsSound now generation permanent p v =
    ground (arith, clear_queues-IsAccounted p v.accounted, close_all-IsValid p.store p.heap v.valid)

pub poll-IsSound :
    (round : Round) (start_sent : Bool) (p : Proxy)
    → IsSound p
    → IsSound (poll round start_sent p).1
unfolding poll
poll-IsSound round start_sent p v = ground arith

pub open_startup_gate-IsSound :
    (now : ℕ) (answers : ℕ → ℕ → Write) (p : Proxy)
    → IsSound p
    → IsSound (open_startup_gate now answers p)
unfolding open_startup_gate schedule_auto_stop
open_startup_gate-IsSound now answers p v = ground (arith, clear_queues-IsAccounted p v.accounted)

pub end_startup-IsSound :
    (now generation : ℕ) (result : Option Error) (p : Proxy)
    → IsSound p
    → IsSound (end_startup now generation result p)
unfolding end_startup
end_startup-IsSound now generation none p v = finish_startup-IsSound now generation p v
end_startup-IsSound now generation (some e) p v =
    if_split IsSound p.canceled (finish_startup now generation p)
      (fail_startup now generation (is_permanent e) p)
      (λ _. finish_startup-IsSound now generation p v)
      (λ _. fail_startup-IsSound now generation (is_permanent e) p v)

pub close_backend_gate-IsSound :
    (generation : ℕ) (p : Proxy) → IsSound p → IsSound (close_backend_gate generation p)
unfolding close_backend_gate
close_backend_gate-IsSound generation p v =
    ground (arith, clear_queues-IsAccounted p v.accounted, close_all-IsValid p.store p.heap v.valid)

pub monitor_end-IsSound :
    (generation : ℕ) (result : Option Error) (p : Proxy) (failures : BackendHealthFailures)
    → IsSound p
    → IsSound (monitor_end generation result p failures).0
unfolding monitor_end
monitor_end-IsSound generation result p failures v =
    ground (arith, close_backend_gate-IsSound generation p v)

pub mark_failed-IsSound :
    (now generation : ℕ) (permanent : Bool) (p : Proxy)
    → IsSound p
    → IsSound (mark_failed now generation permanent p)
mark_failed-IsSound now generation permanent p v = ground (arith, clear_queues-IsSound p v)
