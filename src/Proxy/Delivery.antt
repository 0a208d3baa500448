-- ===== src/Proxy/Delivery.antt =====
-- The flush of the startup queues by openStartupGate of pkg/proxy/proxy.go.
use game_server_snooze.Common.{
  ℕ, suc, ◌≡◌, ◌≢◌, refl, sym, ap, ◌∙◌, true, false, none, some, List, [], ◌∷◌, ◌++◌, arith, length,
  take,
}
use mathlib.Core.List.{append-nil, append_assoc}
use game_server_snooze.Session.{Packet, Session, Write, forward_client}
use game_server_snooze.Store.{Heap, update}
use game_server_snooze.Proxy.{Proxy, Queues}
use game_server_snooze.Proxy.Queue.{flush_packets, flush_queues, find_queue, or_empty}
use game_server_snooze.Proxy.AutoStop.{schedule_auto_stop}
use game_server_snooze.Proxy.Startup.{open_startup_gate}
use game_server_snooze.Proxy.Accounting.{LacksQueue, IsUnique}

-- How many packets reach the socket before the first error.
unfoldable pub delivered : ℕ → (ℕ → Write) → ℕ → List Packet → Session → ℕ
delivered now answers i [] s = 0
delivered now answers i (packet ∷ packets) s =
    let sent = forward_client now (answers i) packet s in
    let rest = delivered now answers (suc i) packets sent.1 in
    elim sent.0 [ none ↦ suc rest | some e ↦ 0 ]

forward_client-upstream :
    (now : ℕ) (w : Write) (packet : Packet) (s : Session)
    → (((forward_client now w packet s).0 ≡ none)
        → (forward_client now w packet s).1.upstream ≡ s.upstream ++ packet ∷ [])
      × (((forward_client now w packet s).0 ≢ none)
          → (forward_client now w packet s).1.upstream ≡ s.upstream)
unfolding forward_client
forward_client-upstream now w packet s = (λ h. ground arith, λ h. ground arith)

flush_packets-prefix :
    (now : ℕ) (answers : ℕ → Write) (i : ℕ) (packets : List Packet) (s : Session)
    → (flush_packets now answers i packets s).upstream
      ≡ s.upstream ++ take (delivered now answers i packets s) packets
unfolding flush_packets delivered
flush_packets-prefix now answers i [] s = sym (append-nil s.upstream)
flush_packets-prefix now answers i (packet ∷ packets) s =
    let sent = forward_client now (answers i) packet s in
    let (taken, refused) = forward_client-upstream now (answers i) packet s in
    ground (
      arith,
      taken,
      refused,
      flush_packets-prefix now answers (suc i) packets sent.1,
      append-nil s.upstream,
      append_assoc s.upstream (packet ∷ [])
          (take (delivered now answers (suc i) packets sent.1) packets),
    )

find_queue_lacking : (p : ℕ) (queues : Queues) → LacksQueue p queues → find_queue p queues ≡ none
unfolding find_queue
find_queue_lacking p [] h = refl
find_queue_lacking p ((q, queue) ∷ queues) h = ground (arith, find_queue_lacking p queues h.1)

-- The queue of each session goes to that session.
flush_queues-at :
    (now : ℕ) (answers : ℕ → ℕ → Write) (queues : Queues) (heap : Heap) (p : ℕ)
    → IsUnique queues
    → flush_queues now answers queues heap p
      ≡ flush_packets now (answers p) 0 (or_empty (find_queue p queues)).packets (heap p)
unfolding flush_queues find_queue flush_packets
flush_queues-at now answers [] heap p u = refl
flush_queues-at now answers ((q, queue) ∷ queues) heap p u =
    let s = flush_packets now (answers q) 0 queue.packets (heap q) in
    ground (
      arith,
      flush_queues-at now answers queues (update heap q s) p u.1,
      find_queue_lacking q queues u.0,
    )

flush_packets-none :
    (now : ℕ) (answers : ℕ → Write) (packets : List Packet) (s : Session)
    → packets ≡ []
    → flush_packets now answers 0 packets s ≡ s
unfolding flush_packets
flush_packets-none now answers [] s e = refl
flush_packets-none now answers (x ∷ xs) s e = cc

-- Opening the gate empties the queues and writes to the upstream socket of each session the packets
-- that were queued for it, in their order of arrival and without a gap, up to the first write that
-- fails; a session with no queue is not touched.
pub open_startup_gate-delivers :
    (now : ℕ) (answers : ℕ → ℕ → Write) (p : Proxy) (active : ℕ)
    → p.shutting_down ≡ false
    → IsUnique p.queues
    → let queued = (or_empty (find_queue active p.queues)).packets in
      let opened = open_startup_gate now answers p in
      ((opened.heap active).upstream
        ≡ (p.heap active).upstream
          ++ take (delivered now (answers active) 0 queued (p.heap active)) queued)
      × (queued ≡ [] → opened.heap active ≡ p.heap active)
      × (opened.queues ≡ [])
      × (opened.backend_ready ≡ true)
unfolding open_startup_gate schedule_auto_stop
open_startup_gate-delivers now answers p active up u =
    let queued = (or_empty (find_queue active p.queues)).packets in
    let at = flush_queues-at now answers p.queues p.heap active u in
    let prefix = flush_packets-prefix now (answers active) 0 queued (p.heap active) in
    let untouched = flush_packets-none now (answers active) queued (p.heap active) in
    (
      ground (arith, ap (λ (s : Session). s.upstream) at, prefix),
      λ e. ground (arith, at, untouched e),
      ground arith,
      ground arith,
    )

-- When every write succeeds to a session that stays open, the whole queue is delivered.
delivered-all :
    (now : ℕ) (answers : ℕ → Write) (i : ℕ) (packets : List Packet) (s : Session)
    → s.closed ≡ false
    → ((j : ℕ) → answers j ≡ record { failure = none; closed_meanwhile = false })
    → delivered now answers i packets s ≡ length packets
unfolding delivered forward_client
delivered-all now answers i [] s alive good = refl
delivered-all now answers i (packet ∷ packets) s alive good =
    let sent = forward_client now (answers i) packet s in
    ground (arith, good i, delivered-all now answers (suc i) packets sent.1)

take-length {ℓ} : {A : Type ℓ} (xs : List A) → take (length xs) xs ≡ xs
take-length [] = refl
take-length (x ∷ xs) = ap (λ r. x ∷ r) (take-length xs)

-- If the session is open and every write to it succeeds, opening the gate delivers its whole queue.
pub open_startup_gate-delivers_all :
    (now : ℕ) (answers : ℕ → ℕ → Write) (p : Proxy) (active : ℕ)
    → p.shutting_down ≡ false
    → IsUnique p.queues
    → (p.heap active).closed ≡ false
    → ((j : ℕ) → answers active j ≡ record { failure = none; closed_meanwhile = false })
    → ((open_startup_gate now answers p).heap active).upstream
      ≡ (p.heap active).upstream ++ (or_empty (find_queue active p.queues)).packets
open_startup_gate-delivers_all now answers p active up u alive good =
    let queued = (or_empty (find_queue active p.queues)).packets in
    (open_startup_gate-delivers now answers p active up u).0
    ∙ ap (λ n. (p.heap active).upstream ++ take n queued)
        (delivered-all now (answers active) 0 queued (p.heap active) alive good)
    ∙ ap (λ packets. (p.heap active).upstream ++ packets) (take-length queued)
