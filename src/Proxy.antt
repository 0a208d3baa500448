-- ===== src/Proxy.antt =====
-- pkg/proxy/proxy.go: the options and the state of the proxy, its constructor, and what the atomic
-- sections of the children share. A method that locks, changes fields and unlocks is a function to
-- the new state; the clock and the answers of sockets and of the panel are arguments. Times and
-- durations are nanoseconds, a time of 0 is the zero time.Time.
pub mod Queue
pub mod AutoStop
pub mod Startup
pub mod Ingress
pub mod Monitor
pub mod Accounting
pub mod Invariant
pub mod New
pub mod Parts
pub mod Step
pub mod Serve
pub mod Delivery
pub mod Buffering
pub mod Journey
pub mod Sleep
pub mod Wake
mod Tests
use game_server_snooze.Common.{
  ℕ, ◌+◌, ◌-◌, ◌*◌, ◌%◌, ◌^◌, ◌/◌, String, Bool, true, false, not, ◌&&◌, ◌||◌, ltb, leb, ◌==◌,
  Option, none, some, List, [], ◌∷◌, ◌++◌, length, if◌then◌else◌,
}
use game_server_snooze.Common.Int.{ℤ, pos, negsuc, ltb_ℤ, leb_ℤ}
use game_server_snooze.Errors.{Error, plain}
use game_server_snooze.Session.{Packet, Session, Result, ok, err}
use game_server_snooze.Store.{Heap, Store, new_store}

abbrev pub second : ℕ
second = 1_000_000_000

abbrev pub max_auto_stop_attempts : ℕ
max_auto_stop_attempts = 3

abbrev pub default_auto_stop_retry_delay : ℕ
default_auto_stop_retry_delay = 5 * second

abbrev pub default_startup_failure_cooldown : ℕ
default_startup_failure_cooldown = 5 * second

abbrev pub backend_health_failure_threshold : ℕ
backend_health_failure_threshold = 3

-- The listener, the backend address, the controller and the detector are nil or not.
pub record Options : Type 0 where
  pub has_listener : Bool
  pub has_backend_addr : Bool
  pub has_controller : Bool
  pub has_detector : Bool
  pub has_readiness : Bool
  pub max_sessions : ℤ
  pub max_packet_size : ℤ
  pub idle_timeout : ℤ
  pub sweep_interval : ℤ
  pub auto_stop_delay : ℤ
  pub auto_stop_retry_delay : ℤ
  pub startup_timeout : ℤ
  pub startup_poll_interval : ℤ
  pub startup_settle_delay : ℤ
  pub startup_failure_cooldown : ℤ
  pub startup_buffer_packets : ℤ
  pub startup_buffer_bytes_per_session : ℤ
  pub startup_buffer_bytes_global : ℤ

pub record PacketQueue : Type 0 where
  pub packets : List Packet
  pub bytes : ℕ
  pub overflow_logged : Bool

abbrev pub Queues : Type 0
Queues = List (ℕ × PacketQueue)

-- A time.AfterFunc of the auto-stop, with the arguments that its function was given.
pub record Timer : Type 0 where
  pub generation : ℕ
  pub attempt : ℕ
  pub delay : ℤ

-- A power request that was sent to the panel.
pub data Request : Type 0 where
  start_request stop_request : Request

-- `next_session` is the next free address of the heap. `startups` holds the generation of each
-- goroutine that startServer has started, `watched` the sessions that watchSession waits for,
-- `scheduled` each timer that was ever set, `requests` the power requests, the newest first.
pub record Proxy : Type 0 where
  pub options : Options
  pub store : Store
  pub heap : Heap
  pub next_session : ℕ
  pub canceled : Bool
  pub backend_ready : Bool
  pub readiness_generation : ℕ
  pub backend_running : Bool
  pub startup_running : Bool
  pub startup_generation : ℕ
  pub startup_blocked_until : ℕ
  pub shutting_down : Bool
  pub queues : Queues
  pub queued_bytes : ℕ
  pub stop_timer : Option Timer
  pub stop_generation : ℕ
  pub last_capacity_warning : ℕ
  pub startups : List ℕ
  pub watched : List (String × ℕ)
  pub scheduled : List Timer
  pub requests : List Request

-- `++` on a uint64.
abbrev pub next_generation : ℕ → ℕ
next_generation g = (g + 1) % 2 ^ 64

-- now.Add(d) and now.Add(-d); time before the epoch does not occur.
abbrev pub time_after : ℕ → ℤ → ℕ
time_after now (pos d) = now + d
time_after now (negsuc d) = now - d - 1

abbrev pub time_before : ℕ → ℤ → ℕ
time_before now (pos d) = now - d
time_before now (negsuc d) = now + d + 1

-- Division of a duration by 2, which Go rounds towards zero.
abbrev pub half : ℤ → ℤ
half (pos d) = pos (d / 2)
half (negsuc d) = if ltb 0 ((d + 1) / 2) then negsuc ((d + 1) / 2 - 1) else pos 0

abbrev pub is_zero : ℤ → Bool
is_zero (pos d) = d == 0
is_zero (negsuc d) = false

unfoldable pub default_sweep_interval : ℤ → ℤ
default_sweep_interval idle_timeout =
    let interval = half idle_timeout in
    let positive = if leb_ℤ interval (pos 0) then pos 1 else interval in
    if ltb_ℤ (pos (5 * second)) positive then pos (5 * second) else positive

unfoldable pub with_defaults : Options → Options
unfolding default_sweep_interval
with_defaults o = record o {
  sweep_interval =
      if leb_ℤ o.sweep_interval (pos 0)
      then default_sweep_interval o.idle_timeout
      else o.sweep_interval;
  auto_stop_retry_delay =
      if is_zero o.auto_stop_retry_delay
      then pos default_auto_stop_retry_delay
      else o.auto_stop_retry_delay;
  startup_failure_cooldown =
      if is_zero o.startup_failure_cooldown
      then pos default_startup_failure_cooldown
      else o.startup_failure_cooldown;
}

unfoldable pub check_options : Options → Option Error
check_options o =
    if ltb_ℤ o.max_packet_size (pos 1)
      || leb_ℤ o.idle_timeout (pos 0)
      || leb_ℤ o.auto_stop_delay (pos 0)
      || ltb_ℤ o.auto_stop_retry_delay (pos 0)
      || ltb_ℤ o.startup_failure_cooldown (pos 0)
    then some (plain "packet and lifecycle limits must be positive")
    else if leb_ℤ o.startup_timeout (pos 0)
        || leb_ℤ o.startup_poll_interval (pos 0)
        || leb_ℤ o.startup_timeout o.startup_poll_interval
        || ltb_ℤ o.startup_settle_delay (pos 0)
    then some (plain "invalid startup timing")
    else if ltb_ℤ o.startup_buffer_packets (pos 1)
        || ltb_ℤ o.startup_buffer_bytes_per_session o.max_packet_size
        || ltb_ℤ o.startup_buffer_bytes_global o.startup_buffer_bytes_per_session
    then some (plain "startup buffers must hold at least one maximum-size packet per session")
    else none

unfoldable pub initial : Options → Store → Heap → Proxy
initial options store heap = record {
  options = options;
  store = store;
  heap = heap;
  next_session = 0;
  canceled = false;
  backend_ready = false;
  readiness_generation = 0;
  backend_running = false;
  startup_running = false;
  startup_generation = 0;
  startup_blocked_until = 0;
  shutting_down = false;
  queues = [];
  queued_bytes = 0;
  stop_timer = none;
  stop_generation = 0;
  last_capacity_warning = 0;
  startups = [];
  watched = [];
  scheduled = [];
  requests = [];
}

-- The heap is the memory in which sessions will be allocated.
unfoldable pub new : Options → Heap → Result Proxy
unfolding with_defaults check_options initial
new options heap =
    if not options.has_listener
      || not options.has_backend_addr
      || not options.has_controller
      || not options.has_detector
    then err (plain "listener, backend, controller, and detector are required")
    else (let options' = with_defaults options in
        elim (check_options options') [
          | some e ↦ err e
          | none ↦ elim (new_store options'.max_sessions) [
            | err e ↦ err e
            | ok store ↦ ok (initial options' store heap)
          ]
        ])
