-- ===== src/Proxy/Buffering.antt =====
-- The startup buffer of pkg/proxy/proxy.go end to end: what forwardOrQueue puts in while the gate is
-- closed, openStartupGate writes out.
use game_server_snooze.Common.{
  ℕ, suc, ◌+◌, ◌≡◌, sym, ap, ◌∙◌, subst, true, false, none, List, [], ◌∷◌, ◌++◌, arith, length,
  length-append, total_length,
}
use mathlib.Core.List.{append-nil, append_assoc}
use game_server_snooze.Common.Int.{ℤ, pos, negsuc, leb_ℤ, ltb_ℤ}
use game_server_snooze.Session.{Packet, Write, record_activity}
use game_server_snooze.Proxy.{Proxy, Options, PacketQueue}
use game_server_snooze.Proxy.Queue.{find_queue, or_empty, overflows, enqueue_locked}
use game_server_snooze.Proxy.Startup.{start_server, open_startup_gate}
use game_server_snooze.Proxy.Ingress.{forward_or_queue, with_session}
use game_server_snooze.Proxy.Wake.{find_queue-put}
use game_server_snooze.Proxy.Delivery.{open_startup_gate-delivers_all}
use game_server_snooze.Proxy.Invariant.{IsSound}
use game_server_snooze.Proxy.Invariant.Ingress.{forward_or_queue-IsSound}

-- The client of a session sends these packets, one after the other.
abbrev pub sends : ℕ → Write → ℕ → List Packet → Proxy → Proxy
sends now write active [] p = p
sends now write active (packet ∷ packets) p =
    sends now write active packets (forward_or_queue now write active packet p).1

abbrev pub queued : ℕ → Proxy → PacketQueue
queued active p = or_empty (find_queue active p.queues)

-- The three limits of the startup buffer leave room for these packets.
abbrev pub HasRoomFor : ℕ → List Packet → Proxy → Type 0
HasRoomFor active packets p =
    let queue = queued active p in
    (leb_ℤ (pos (length queue.packets + length packets)) p.options.startup_buffer_packets ≡ true)
    × (leb_ℤ (pos (queue.bytes + total_length packets)) p.options.startup_buffer_bytes_per_session
        ≡ true)
    × (leb_ℤ (pos (p.queued_bytes + total_length packets)) p.options.startup_buffer_bytes_global
        ≡ true)

below : (a b : ℕ) (limit : ℤ) → leb_ℤ (pos (a + suc b)) limit ≡ true → leb_ℤ limit (pos a) ≡ false
below a b (pos k) h = ground arith
below a b (negsuc k) h = cc

within :
    (a b c : ℕ) (limit : ℤ)
    → leb_ℤ (pos (a + (b + c))) limit ≡ true
    → ltb_ℤ limit (pos (a + b)) ≡ false
within a b c (pos k) h = ground arith
within a b c (negsuc k) h = cc

overflows-HasRoomFor :
    (active : ℕ) (packet : Packet) (packets : List Packet) (p : Proxy)
    → HasRoomFor active (packet ∷ packets) p
    → overflows p (queued active p) (length packet) ≡ false
unfolding overflows
overflows-HasRoomFor active packet packets p (count, size, sum) = ground (
  arith,
  below (length (queued active p).packets) (length packets) _ count,
  within (queued active p).bytes (length packet) (total_length packets) _ size,
  within p.queued_bytes (length packet) (total_length packets) _ sum,
)

-- The proxy buffers for a session that is open.
abbrev pub Buffers : ℕ → Proxy → Type 0
Buffers active p =
    (p.backend_ready ≡ false) × (p.shutting_down ≡ false) × ((p.heap active).closed ≡ false)

-- The packet stands at the end of the queue, and nothing else that matters here has changed.
abbrev IsQueued : ℕ → Packet → Proxy → Proxy → Type 0
IsQueued active packet p q =
    ((queued active q).packets ≡ (queued active p).packets ++ packet ∷ [])
    × ((queued active q).bytes ≡ (queued active p).bytes + length packet)
    × (q.queued_bytes ≡ p.queued_bytes + length packet)
    × (q.options ≡ p.options)
    × ((q.heap active).upstream ≡ (p.heap active).upstream)
    × Buffers active q

enqueue_locked-IsQueued :
    (active : ℕ) (packet : Packet) (p : Proxy)
    → Buffers active p
    → overflows p (queued active p) (length packet) ≡ false
    → IsQueued active packet p (enqueue_locked active packet p)
unfolding enqueue_locked
enqueue_locked-IsQueued active packet p h fits =
    let queue = queued active p in
    let found =
      find_queue-put active
        (record queue {
          packets = queue.packets ++ packet ∷ [];
          bytes = queue.bytes + length packet;
        })
        p.queues in
    (
      ground (arith, found),
      ground (arith, found),
      ground arith,
      ground arith,
      ground arith,
      ground arith,
    )

start_server-IsQueued :
    (now active : ℕ) (packet : Packet) (p q : Proxy)
    → IsQueued active packet p q
    → IsQueued active packet p (start_server now q)
unfolding start_server
start_server-IsQueued now active packet p q h = ground arith

-- The activity that is recorded first.
abbrev touched : ℕ → ℕ → Proxy → Proxy
touched now active p = with_session active (record_activity now (p.heap active)).1 p

forward_or_queue-closed_gate :
    (now : ℕ) (write : Write) (active : ℕ) (packet : Packet) (p : Proxy)
    → Buffers active p
    → (forward_or_queue now write active packet p).1
      ≡ start_server now (enqueue_locked active packet (touched now active p))
unfolding forward_or_queue record_activity
forward_or_queue-closed_gate now write active packet p h = ground arith

IsQueued-touched :
    (now active : ℕ) (packet : Packet) (p q : Proxy)
    → IsQueued active packet (touched now active p) q
    → IsQueued active packet p q
unfolding record_activity
IsQueued-touched now active packet p q h = ground arith

Buffers-touched :
    (now active : ℕ) (p : Proxy) → Buffers active p → Buffers active (touched now active p)
unfolding record_activity
Buffers-touched now active p h = ground arith

forward_or_queue-IsQueued :
    (now : ℕ) (write : Write) (active : ℕ) (packet : Packet) (p : Proxy)
    → Buffers active p
    → overflows p (queued active p) (length packet) ≡ false
    → IsQueued active packet p (forward_or_queue now write active packet p).1
unfolding overflows
forward_or_queue-IsQueued now write active packet p h fits =
    let p₁ = touched now active p in
    let p₂ = enqueue_locked active packet p₁ in
    let queued' = enqueue_locked-IsQueued active packet p₁ (Buffers-touched now active p h) fits in
    subst (IsQueued active packet p)
      (sym (forward_or_queue-closed_gate now write active packet p h))
      (start_server-IsQueued now active packet p p₂
        (IsQueued-touched now active packet p p₂ queued'))

same_limit : (a b : ℕ) (l m : ℤ) → a ≡ b → l ≡ m → leb_ℤ (pos a) l ≡ true → leb_ℤ (pos b) m ≡ true
same_limit a b l m e f h = cc

HasRoomFor-IsQueued :
    (active : ℕ) (packet : Packet) (packets : List Packet) (p q : Proxy)
    → HasRoomFor active (packet ∷ packets) p
    → IsQueued active packet p q
    → HasRoomFor active packets q
HasRoomFor-IsQueued active packet packets p q (count, size, sum) h =
    let o = sym h.3 in
    (
      same_limit _ _ _ _
          (ground (arith, h.0, length-append (queued active p).packets (packet ∷ [])))
          (ap (λ (o : Options). o.startup_buffer_packets) o) count,
      same_limit _ _ _ _ (omega (arith, h.1))
          (ap (λ (o : Options). o.startup_buffer_bytes_per_session) o) size,
      same_limit _ _ _ _ (omega (arith, h.2))
          (ap (λ (o : Options). o.startup_buffer_bytes_global) o) sum,
    )

-- Packets that a client sends while the gate is closed and that the limits of the startup buffer
-- have room for reach the backend when the gate opens: after what was written to the session's
-- socket before come the packets that were queued already and then these, complete and in their
-- order, if the session stays open and the writes to it succeed.
pub sends-open_startup_gate :
    (now later : ℕ) (write : Write) (answers : ℕ → ℕ → Write) (active : ℕ) (packets : List Packet)
    (p : Proxy)
    → IsSound p
    → Buffers active p
    → HasRoomFor active packets p
    → ((j : ℕ) → answers active j ≡ record { failure = none; closed_meanwhile = false })
    → ((open_startup_gate later answers (sends now write active packets p)).heap active).upstream
      ≡ (p.heap active).upstream ++ ((queued active p).packets ++ packets)
sends-open_startup_gate now later write answers active [] p v (gate, up, alive) room good =
    open_startup_gate-delivers_all later answers p active up v.accounted.unique alive good
    ∙ ap (λ packets. (p.heap active).upstream ++ packets)
        (sym (append-nil (queued active p).packets))
sends-open_startup_gate now later write answers active (packet ∷ packets) p v h room good =
    let q = (forward_or_queue now write active packet p).1 in
    let step : IsQueued active packet p q =
      forward_or_queue-IsQueued now write active packet p h
        (overflows-HasRoomFor active packet packets p room) in
    let ih =
      sends-open_startup_gate now later write answers active packets q
        (forward_or_queue-IsSound now write active packet p v) step.5
        (HasRoomFor-IsQueued active packet packets p q room step) good in
    ih ∙ cc (step.4, step.0, append_assoc (queued active p).packets (packet ∷ []) packets)
