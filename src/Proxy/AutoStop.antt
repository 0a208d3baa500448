-- ===== src/Proxy/AutoStop.antt =====
-- The auto-stop of pkg/proxy/proxy.go: scheduling, cancelling, the attempts and their retries, and
-- markBackendNotRunning.
pub mod Attempts
use game_server_snooze.Common.{
  ℕ, ◌+◌, ◌-◌, ◌*◌, ◌^◌, Bool, true, false, not, ◌&&◌, ◌||◌, ◌==◌, leb, Option, none, some, List,
  [], ◌∷◌, if◌then◌else◌,
}
use game_server_snooze.Common.Int.{ℤ, pos, negsuc}
use game_server_snooze.Errors.{Error}
use game_server_snooze.Store.{len}
use game_server_snooze.Proxy.{
  Proxy, Timer, Request, start_request, stop_request, next_generation, max_auto_stop_attempts,
}

-- A timer that could not be stopped any more runs its function all the same: any timer that was
-- ever scheduled may fire (Proxy/Step.antt).
unfoldable pub stop_auto_stop_timer_locked : Proxy → Proxy
stop_auto_stop_timer_locked proxy = record proxy { stop_timer = none }

unfoldable pub schedule_auto_stop_attempt_locked : ℕ → ℕ → ℤ → Proxy → Proxy
schedule_auto_stop_attempt_locked generation attempt delay proxy =
    let timer : Timer = record { generation = generation; attempt = attempt; delay = delay } in
    record proxy { stop_timer = some timer; scheduled = timer ∷ proxy.scheduled }

unfoldable pub cancel_auto_stop : Proxy → Proxy
unfolding stop_auto_stop_timer_locked
cancel_auto_stop proxy =
    stop_auto_stop_timer_locked
      (record proxy { stop_generation = next_generation proxy.stop_generation })

unfoldable pub schedule_auto_stop : Proxy → Proxy
unfolding stop_auto_stop_timer_locked schedule_auto_stop_attempt_locked
schedule_auto_stop proxy =
    if proxy.shutting_down || not proxy.backend_ready
    then proxy
    else (let generation = next_generation proxy.stop_generation in
        schedule_auto_stop_attempt_locked generation 1 proxy.options.auto_stop_delay
          (stop_auto_stop_timer_locked (record proxy { stop_generation = generation })))

unfoldable pub mark_backend_not_running : Proxy → Proxy
mark_backend_not_running proxy =
    let stopped = record proxy { backend_running = false } in
    if proxy.backend_ready
    then record stopped {
      backend_ready = false;
      readiness_generation = next_generation proxy.readiness_generation;
    }
    else stopped

-- A duration times a shifted 1; a duration here is far below 2 ^ 63 nanoseconds.
abbrev pub scale : ℤ → ℕ → ℤ
scale (pos d) k = pos (d * k)
scale (negsuc d) k = negsuc ((d + 1) * k - 1)

-- `if generation == proxy.stopGeneration { proxy.stopTimer = nil }`
abbrev pub forget_timer : ℕ → Proxy → Proxy
forget_timer generation proxy =
    if generation == proxy.stop_generation then record proxy { stop_timer = none } else proxy

-- Whether the attempt goes on to the request, under admissionMu.
unfoldable pub attempt_is_due : ℕ → Proxy → Bool
attempt_is_due generation proxy =
    len proxy.store == 0 && generation == proxy.stop_generation && proxy.backend_ready

-- The panel answered the stop request. Other goroutines may have run since the request was sent,
-- but for those that need admissionMu.
unfoldable pub after_stop_request : ℕ → ℕ → Option Error → Proxy → Proxy
unfolding mark_backend_not_running schedule_auto_stop_attempt_locked
after_stop_request generation attempt answer proxy = elim answer [
  | none ↦ forget_timer generation (mark_backend_not_running proxy)
  | some e ↦
      if leb max_auto_stop_attempts attempt
      then forget_timer generation proxy
      else if generation == proxy.stop_generation && proxy.backend_ready
      then schedule_auto_stop_attempt_locked generation (attempt + 1)
          (scale proxy.options.auto_stop_retry_delay (2 ^ (attempt - 1))) proxy
      else proxy
]

-- The whole attempt, when nothing else runs while the request is under way.
unfoldable pub run_auto_stop_attempt : ℕ → ℕ → Option Error → Proxy → Proxy
run_auto_stop_attempt generation attempt answer proxy =
    if attempt_is_due generation proxy
    then after_stop_request generation attempt answer
        (record proxy { requests = stop_request ∷ proxy.requests })
    else proxy
