-- ===== src/Proxy/Accounting.antt =====
-- The byte accounting of the startup queues (pkg/proxy/proxy.go): queuedBytes is the sum over the
-- queues, and the three limits hold.
pub mod Removal
use game_server_snooze.Common.{
  ℕ, ◌+◌, ◌-◌, ◌≤◌, ◌≡◌, ◌≢◌, refl, true, false, [], ◌∷◌, ◌++◌, arith, length, length-append,
  total_length, total_length-append, inl, inr, Option-cases, Bool-cases,
}
use game_server_snooze.Common.Int.{ℤ, pos, negsuc, leb_ℤ, ltb_ℤ}
use game_server_snooze.Session.{Packet}
use game_server_snooze.Store.{Heap}
use game_server_snooze.Proxy.{Proxy, Options, PacketQueue, Queues}
use game_server_snooze.Proxy.Queue.{
  find_queue, put_queue, delete_queue, or_empty, overflows, enqueue_locked, remove_queue,
  keep_open_queues, closed_bytes, remove_closed_queues, clear_queues,
}

-- What New checks of the limits of the queues.
pub record HasRoom (o : Options) : Type 0 where
  pub packets : leb_ℤ (pos 1) o.startup_buffer_packets ≡ true
  pub per_session : leb_ℤ (pos 1) o.startup_buffer_bytes_per_session ≡ true
  pub global : leb_ℤ (pos 1) o.startup_buffer_bytes_global ≡ true

pub record FitsQueue (o : Options) (queue : PacketQueue) : Type 0 where
  pub counted : queue.bytes ≡ total_length queue.packets
  pub packets : leb_ℤ (pos (length queue.packets)) o.startup_buffer_packets ≡ true
  pub bytes : leb_ℤ (pos queue.bytes) o.startup_buffer_bytes_per_session ≡ true

abbrev pub FitQueues : Options → Queues → Type 0
FitQueues o [] = Unit {0}
FitQueues o ((p, queue) ∷ queues) = FitsQueue o queue × FitQueues o queues

abbrev pub LacksQueue : ℕ → Queues → Type 0
LacksQueue p [] = Unit {0}
LacksQueue p ((q, queue) ∷ queues) = (q ≢ p) × LacksQueue p queues

abbrev pub IsUnique : Queues → Type 0
IsUnique [] = Unit {0}
IsUnique ((p, queue) ∷ queues) = LacksQueue p queues × IsUnique queues

abbrev pub sum_bytes : Queues → ℕ
sum_bytes [] = 0
sum_bytes ((p, queue) ∷ queues) = queue.bytes + sum_bytes queues

-- The bytes that the proxy counts are those of the queued packets, each queue stands for one
-- session, and the limits on packets per session, bytes per session and bytes in all hold.
pub record IsAccounted (proxy : Proxy) : Type 0 where
  pub room : HasRoom proxy.options
  pub fit : FitQueues proxy.options proxy.queues
  pub unique : IsUnique proxy.queues
  pub summed : proxy.queued_bytes ≡ sum_bytes proxy.queues
  pub global : leb_ℤ (pos proxy.queued_bytes) proxy.options.startup_buffer_bytes_global ≡ true

-- A test that passed is an upper bound.
pub bounded : (limit : ℤ) (n : ℕ) → ltb_ℤ limit (pos n) ≡ false → leb_ℤ (pos n) limit ≡ true
bounded (pos k) n h = ground arith
bounded (negsuc k) n h = cc

pub has_place : (limit : ℤ) (n : ℕ) → leb_ℤ limit (pos n) ≡ false → leb_ℤ (pos (n + 1)) limit ≡ true
has_place (pos k) n h = ground arith
has_place (negsuc k) n h = cc

pub smaller :
    (limit : ℤ) (m n : ℕ) → m ≤ n → leb_ℤ (pos n) limit ≡ true → leb_ℤ (pos m) limit ≡ true
smaller (pos k) m n le h = ground arith
smaller (negsuc k) m n le h = cc

FitsQueue-found :
    (o : Options) (p : ℕ) (queues : Queues)
    → HasRoom o
    → FitQueues o queues
    → FitsQueue o (or_empty (find_queue p queues))
unfolding find_queue
FitsQueue-found o p [] r f = record {
  counted = refl;
  packets = smaller o.startup_buffer_packets 0 1 (omega arith) r.packets;
  bytes = smaller o.startup_buffer_bytes_per_session 0 1 (omega arith) r.per_session;
}
FitsQueue-found o p ((q, queue) ∷ queues) r f = ground (arith, FitsQueue-found o p queues r f.1)

FitQueues-put :
    (o : Options) (p : ℕ) (queue : PacketQueue) (queues : Queues)
    → FitsQueue o queue
    → FitQueues o queues
    → FitQueues o (put_queue p queue queues)
unfolding put_queue
FitQueues-put o p queue [] h f = (h, tt)
FitQueues-put o p queue ((q, old) ∷ queues) h f =
    ground (arith, FitQueues-put o p queue queues h f.1)

LacksQueue-put :
    (j p : ℕ) (queue : PacketQueue) (queues : Queues)
    → p ≢ j
    → LacksQueue j queues
    → LacksQueue j (put_queue p queue queues)
unfolding put_queue
LacksQueue-put j p queue [] ne h = (ne, tt)
LacksQueue-put j p queue ((q, old) ∷ queues) ne h =
    ground (arith, LacksQueue-put j p queue queues ne h.1)

IsUnique-put :
    (p : ℕ) (queue : PacketQueue) (queues : Queues)
    → IsUnique queues
    → IsUnique (put_queue p queue queues)
unfolding put_queue
IsUnique-put p queue [] u = (tt, tt)
IsUnique-put p queue ((q, old) ∷ queues) u =
    ground (arith, IsUnique-put p queue queues u.1, LacksQueue-put q p queue queues)

sum_bytes-put :
    (p : ℕ) (queue : PacketQueue) (queues : Queues)
    → sum_bytes (put_queue p queue queues) + (or_empty (find_queue p queues)).bytes
      ≡ sum_bytes queues + queue.bytes
unfolding put_queue find_queue
sum_bytes-put p queue [] = omega arith
sum_bytes-put p queue ((q, old) ∷ queues) = ground (arith, sum_bytes-put p queue queues)

-- A packet that does not overflow leaves the queue and the sum within the limits.
taken_fits :
    (proxy : Proxy) (queue : PacketQueue) (packet : Packet)
    → FitsQueue proxy.options queue
    → overflows proxy queue (length packet) ≡ false
    → FitsQueue proxy.options (record queue {
      packets = queue.packets ++ packet ∷ [];
      bytes = queue.bytes + length packet;
    })
      × (leb_ℤ (pos (proxy.queued_bytes + length packet)) proxy.options.startup_buffer_bytes_global
          ≡ true)
unfolding overflows
taken_fits proxy queue packet f h = ground (
  arith,
  length-append queue.packets (packet ∷ []),
  total_length-append queue.packets (packet ∷ []),
  has_place proxy.options.startup_buffer_packets (length queue.packets),
  bounded proxy.options.startup_buffer_bytes_per_session (queue.bytes + length packet),
  bounded proxy.options.startup_buffer_bytes_global (proxy.queued_bytes + length packet),
)

pub enqueue_locked-IsAccounted :
    (active : ℕ) (packet : Packet) (proxy : Proxy)
    → IsAccounted proxy
    → IsAccounted (enqueue_locked active packet proxy)
unfolding enqueue_locked
enqueue_locked-IsAccounted active packet proxy v =
    let queue = or_empty (find_queue active proxy.queues) in
    let old = FitsQueue-found proxy.options active proxy.queues v.room v.fit in
    let dropped = record queue { overflow_logged = true } in
    let taken = record queue {
      packets = queue.packets ++ packet ∷ [];
      bytes = queue.bytes + length packet;
    } in
    elim (Bool-cases (overflows proxy queue (length packet))) [
      | inl full ↦
          rw (full, enqueue_locked)
            (record {
              room = v.room;
              fit =
                  FitQueues-put proxy.options active dropped proxy.queues
                    (record { counted = old.counted; packets = old.packets; bytes = old.bytes })
                    v.fit;
              unique = IsUnique-put active dropped proxy.queues v.unique;
              summed = omega (arith, v.summed, sum_bytes-put active dropped proxy.queues);
              global = v.global;
            })
      | inr fits ↦
          rw (fits, enqueue_locked)
            (let new = taken_fits proxy queue packet old fits in
              record {
                room = v.room;
                fit = FitQueues-put proxy.options active taken proxy.queues new.0 v.fit;
                unique = IsUnique-put active taken proxy.queues v.unique;
                summed = omega (arith, v.summed, sum_bytes-put active taken proxy.queues);
                global = new.1;
              })
    ]

pub clear_queues-IsAccounted :
    (proxy : Proxy) → IsAccounted proxy → IsAccounted (clear_queues proxy)
clear_queues-IsAccounted proxy v = record {
  room = v.room;
  fit = tt;
  unique = tt;
  summed = refl;
  global = smaller proxy.options.startup_buffer_bytes_global 0 1 (omega arith) v.room.global;
}
