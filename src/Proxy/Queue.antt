-- ===== src/Proxy/Queue.antt =====
-- The startup queues of pkg/proxy/proxy.go: enqueueLocked, removeQueue, removeClosedQueues,
-- refreshPendingSessions and the flush of openStartupGate.
use game_server_snooze.Common.{
  ℕ, suc, ◌+◌, ◌-◌, Bool, true, false, ◌||◌, ◌==◌, Option, none, some, List, [], ◌∷◌, ◌++◌, length,
  if◌then◌else◌,
}
use game_server_snooze.Common.Int.{pos, ltb_ℤ, leb_ℤ}
use game_server_snooze.Session.{Packet, Session, Write, record_activity, forward_client}
use game_server_snooze.Store.{Heap, update}
use game_server_snooze.Proxy.{Proxy, PacketQueue, Queues}

abbrev pub empty_queue : PacketQueue
empty_queue = record { packets = []; bytes = 0; overflow_logged = false }

-- proxy.queues[active], nil being the missing entry.
unfoldable pub find_queue : ℕ → Queues → Option PacketQueue
find_queue p [] = none
find_queue p ((q, queue) ∷ queues) = if q == p then some queue else find_queue p queues

unfoldable pub put_queue : ℕ → PacketQueue → Queues → Queues
put_queue p queue [] = (p, queue) ∷ []
put_queue p queue ((q, old) ∷ queues) =
    if q == p then (q, queue) ∷ queues else (q, old) ∷ put_queue p queue queues

unfoldable pub delete_queue : ℕ → Queues → Queues
delete_queue p [] = []
delete_queue p ((q, queue) ∷ queues) =
    let rest = delete_queue p queues in if q == p then queues else (q, queue) ∷ rest

abbrev pub or_empty : Option PacketQueue → PacketQueue
or_empty none = empty_queue
or_empty (some queue) = queue

-- Whether a packet of this many bytes is dropped.
unfoldable pub overflows : Proxy → PacketQueue → ℕ → Bool
overflows proxy queue size =
    leb_ℤ proxy.options.startup_buffer_packets (pos (length queue.packets))
    || ltb_ℤ proxy.options.startup_buffer_bytes_per_session (pos (queue.bytes + size))
    || ltb_ℤ proxy.options.startup_buffer_bytes_global (pos (proxy.queued_bytes + size))

-- A missing queue is created also for a packet that is dropped.
unfoldable pub enqueue_locked : ℕ → Packet → Proxy → Proxy
unfolding find_queue put_queue overflows
enqueue_locked active packet proxy =
    let queue = or_empty (find_queue active proxy.queues) in
    if overflows proxy queue (length packet)
    then record proxy {
      queues = put_queue active (record queue { overflow_logged = true }) proxy.queues;
    }
    else record proxy {
      queues =
          put_queue active
            (record queue {
              packets = queue.packets ++ packet ∷ [];
              bytes = queue.bytes + length packet;
            })
            proxy.queues;
      queued_bytes = proxy.queued_bytes + length packet;
    }

-- The subtraction is exact: the queue's bytes are part of the sum (Proxy/Accounting.antt).
unfoldable pub remove_queue : ℕ → Proxy → Proxy
unfolding find_queue delete_queue
remove_queue active proxy = elim (find_queue active proxy.queues) [
  | none ↦ proxy
  | some queue ↦ record proxy {
    queues = delete_queue active proxy.queues;
    queued_bytes = proxy.queued_bytes - queue.bytes;
  }
]

abbrev pub clear_queues : Proxy → Proxy
clear_queues proxy = record proxy { queues = []; queued_bytes = 0 }

unfoldable pub keep_open_queues : Heap → Queues → Queues
keep_open_queues heap [] = []
keep_open_queues heap ((p, queue) ∷ queues) =
    let rest = keep_open_queues heap queues in if (heap p).done then rest else (p, queue) ∷ rest

unfoldable pub closed_bytes : Heap → Queues → ℕ
closed_bytes heap [] = 0
closed_bytes heap ((p, queue) ∷ queues) =
    let rest = closed_bytes heap queues in if (heap p).done then queue.bytes + rest else rest

unfoldable pub remove_closed_queues : Proxy → Proxy
unfolding keep_open_queues closed_bytes
remove_closed_queues proxy = record proxy {
  queues = keep_open_queues proxy.heap proxy.queues;
  queued_bytes = proxy.queued_bytes - closed_bytes proxy.heap proxy.queues;
}

unfoldable pub refresh_each : ℕ → Queues → Heap → Heap
refresh_each now [] heap = heap
refresh_each now ((p, queue) ∷ queues) heap =
    refresh_each now queues (update heap p (record_activity now (heap p)).1)

unfoldable pub refresh_pending_sessions : ℕ → Proxy → Proxy
unfolding refresh_each
refresh_pending_sessions now proxy = record proxy {
  heap = refresh_each now proxy.queues proxy.heap;
}

-- The packets of one queue, in order, up to the first error. The answers of the socket are given by
-- the position in the queue.
unfoldable pub flush_packets : ℕ → (ℕ → Write) → ℕ → List Packet → Session → Session
flush_packets now answers i [] s = s
flush_packets now answers i (packet ∷ packets) s =
    let sent = forward_client now (answers i) packet s in
    let rest = flush_packets now answers (suc i) packets sent.1 in
    elim sent.0 [ none ↦ rest | some e ↦ sent.1 ]

unfoldable pub flush_queues : ℕ → (ℕ → ℕ → Write) → Queues → Heap → Heap
unfolding flush_packets
flush_queues now answers [] heap = heap
flush_queues now answers ((p, queue) ∷ queues) heap =
    flush_queues now answers queues
      (update heap p (flush_packets now (answers p) 0 queue.packets (heap p)))
