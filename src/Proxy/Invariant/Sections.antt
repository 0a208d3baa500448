-- ===== src/Proxy/Invariant/Sections.antt =====
-- The whole handler of a client datagram, the watchers, the sweep, the start and the end of Serve
-- keep the invariant (pkg/proxy/proxy.go).
use game_server_snooze.Common.{
  ℕ, String, Bool, not, ◌&&◌, ◌==◌, ltb, none, some, arith, length, if◌then◌else◌, if_split,
  option_split,
}
use game_server_snooze.Errors.{Error}
use game_server_snooze.Store.{expire_idle}
use game_server_snooze.Store.Laws.{expire_idle-IsValid, expire_idle_lem, close_all-IsValid}
use game_server_snooze.Proxy.{Proxy, time_before}
use game_server_snooze.Proxy.Queue.{remove_closed_queues, refresh_pending_sessions}
use game_server_snooze.Proxy.AutoStop.{
  cancel_auto_stop, schedule_auto_stop, stop_auto_stop_timer_locked,
}
use game_server_snooze.Proxy.Startup.{start_server, close_all_sessions}
use game_server_snooze.Proxy.Ingress.{
  Arrival, forward_or_queue, should_log_capacity_warning, watch_session, forward_existing,
  forward_or_remove, remove_session, expire_sessions, after_creation, serve_session,
  admission_refused, admit_new, admit, handle_client_packet, session_done, expire_idle_sessions,
  shutdown, mark_shut, capacity_warning,
}
use game_server_snooze.Proxy.Accounting.Removal.{remove_closed_queues-IsAccounted}
use game_server_snooze.Proxy.Invariant.{
  IsSound, start_server-IsSound, schedule_auto_stop-IsSound, cancel_auto_stop-IsSound,
}
use game_server_snooze.Proxy.Invariant.Ingress.{
  forward_or_queue-IsSound, forward_existing-IsSound, forward_or_remove-IsSound,
  remove_session-IsSound, after_creation-IsSound, PointersBelow-survivors,
}

capacity_warning-IsSound :
    (e : Error) (now : ℕ) (p : Proxy) → IsSound p → IsSound (capacity_warning e now p)
unfolding should_log_capacity_warning
capacity_warning-IsSound e now p v = ground arith

watch_session-IsSound :
    (key : String) (active : ℕ) (p : Proxy) → IsSound p → IsSound (watch_session key active p)
unfolding watch_session
watch_session-IsSound key active p v = ground arith

serve_session-IsSound :
    (a : Arrival) (ready created : Bool) (active : ℕ) (p : Proxy)
    → IsSound p
    → IsSound (serve_session a ready created active p)
unfolding serve_session
serve_session-IsSound a ready created active p v =
    let opened = if created then watch_session a.key active (cancel_auto_stop p) else p in
    let opened_sound : IsSound opened =
      if_split IsSound created (watch_session a.key active (cancel_auto_stop p)) p
        (λ _.
          watch_session-IsSound a.key active (cancel_auto_stop p) (cancel_auto_stop-IsSound p v))
        (λ _. v) in
    let served = (forward_or_queue a.now a.new_write active a.packet opened).1 in
    let sound = forward_or_queue-IsSound a.now a.new_write active a.packet opened opened_sound in
    if_split IsSound ready served (start_server a.now served) (λ _. sound)
      (λ _. start_server-IsSound a.now served sound)

admit_new-IsSound : (a : Arrival) (p : Proxy) → IsSound p → IsSound (admit_new a p)
unfolding admit_new
admit_new-IsSound a p v =
    let (creation, p₁) = after_creation a p in
    let sound : IsSound p₁ = after_creation-IsSound a p v in
    let created = λ (active : ℕ). serve_session a p.backend_ready creation.created active p₁ in
    let answered : Proxy = elim creation.session [ none ↦ p₁ | some active ↦ created active ] in
    if_split IsSound (admission_refused a p) p
      (elim creation.error [ none ↦ answered | some e ↦ capacity_warning e a.now p₁ ]) (λ _. v)
      (λ _.
        option_split IsSound creation.error answered (λ e. capacity_warning e a.now p₁)
          (λ _.
            option_split IsSound creation.session p₁ created (λ _. sound)
              (λ active _.
                serve_session-IsSound a p.backend_ready creation.created active p₁ sound))
          (λ e _. capacity_warning-IsSound e a.now p₁ sound))

pub admit-IsSound : (a : Arrival) (p : Proxy) → IsSound p → IsSound (admit a p)
unfolding admit
admit-IsSound a p v =
    let (taken, p₁) = forward_or_remove a p in
    let sound : IsSound p₁ = forward_or_remove-IsSound a p v in
    if_split IsSound taken p₁ (admit_new a p₁) (λ _. sound) (λ _. admit_new-IsSound a p₁ sound)

-- The handler of a client datagram keeps the invariant, whatever the clock, the sockets, the dial
-- and the detector answer.
pub handle_client_packet-IsSound :
    (a : Arrival) (p : Proxy) → IsSound p → IsSound (handle_client_packet a p)
unfolding handle_client_packet
handle_client_packet-IsSound a p v =
    let (taken, p₁) = forward_existing a p in
    let sound : IsSound p₁ = forward_existing-IsSound a p v in
    if_split IsSound (length a.packet == 0) p (if taken then p₁ else admit a p₁) (λ _. v)
      (λ _. if_split IsSound taken p₁ (admit a p₁) (λ _. sound) (λ _. admit-IsSound a p₁ sound))

pub session_done-IsSound :
    (key : String) (active : ℕ) (p : Proxy) → IsSound p → IsSound (session_done key active p)
unfolding session_done
session_done-IsSound key active p v =
    let (removal, p₁) = remove_session key active p in
    let sound : IsSound p₁ = remove_session-IsSound key active p v in
    if_split IsSound (removal.0 && removal.1 == 0 && not p₁.canceled) (schedule_auto_stop p₁) p₁
      (λ _. schedule_auto_stop-IsSound p₁ sound) (λ _. sound)

pub remove_closed_queues-IsSound : (p : Proxy) → IsSound p → IsSound (remove_closed_queues p)
unfolding remove_closed_queues
remove_closed_queues-IsSound p v = ground (arith, remove_closed_queues-IsAccounted p v.accounted)

pub refresh_pending_sessions-IsSound :
    (clock : ℕ) (p : Proxy) → IsSound p → IsSound (refresh_pending_sessions clock p)
unfolding refresh_pending_sessions
refresh_pending_sessions-IsSound clock p v = ground arith

-- store.ExpireIdle under the heap of the proxy.
abbrev pub without_idle : ℕ → Proxy → Proxy
without_idle cutoff p =
    let expiry = expire_idle cutoff p.store p.heap in record p { store = expiry.1; heap = expiry.2 }

pub without_idle-IsSound : (cutoff : ℕ) (p : Proxy) → IsSound p → IsSound (without_idle cutoff p)
without_idle-IsSound cutoff p v = ground (
  arith,
  expire_idle-IsValid cutoff p.store p.heap v.valid,
  (expire_idle_lem cutoff p.store p.heap v.valid).0,
  PointersBelow-survivors p.next_session cutoff p.heap p.store.sessions v.allocated,
)

expire_sessions-IsSound :
    (cutoff : ℕ) (p : Proxy) → IsSound p → IsSound (expire_sessions cutoff p).1
unfolding expire_sessions
expire_sessions-IsSound cutoff p v =
    let expiry = expire_idle cutoff p.store p.heap in
    let p₁ = without_idle cutoff p in
    let sound = without_idle-IsSound cutoff p v in
    if_split IsSound (ltb 0 expiry.0.0) (remove_closed_queues p₁) p₁
      (λ _. remove_closed_queues-IsSound p₁ sound) (λ _. sound)

pub expire_idle_sessions-IsSound :
    (now clock : ℕ) (p : Proxy) → IsSound p → IsSound (expire_idle_sessions now clock p)
unfolding expire_idle_sessions refresh_pending_sessions
expire_idle_sessions-IsSound now clock p v =
    let refreshed = refresh_pending_sessions clock p in
    let cutoff = time_before now p.options.idle_timeout in
    let (expiry, p₁) = expire_sessions cutoff refreshed in
    let sound : IsSound p₁ = expire_sessions-IsSound cutoff refreshed (ground arith) in
    if_split IsSound (ltb 0 expiry.0 && expiry.1 == 0) (schedule_auto_stop p₁) p₁
      (λ _. schedule_auto_stop-IsSound p₁ sound) (λ _. sound)

pub shutdown-IsSound : (p : Proxy) → IsSound p → IsSound (shutdown p)
unfolding shutdown close_all_sessions stop_auto_stop_timer_locked
shutdown-IsSound p v = ground (arith, close_all-IsValid p.store p.heap v.valid)

pub mark_shut-IsSound : (p : Proxy) → IsSound p → IsSound (mark_shut p)
unfolding stop_auto_stop_timer_locked
mark_shut-IsSound p v = ground arith
