-- ===== src/Proxy/Accounting/Removal.antt =====
-- The byte accounting when queues are removed (removeQueue and removeClosedQueues of
-- pkg/proxy/proxy.go).
use game_server_snooze.Common.{ℕ, ◌+◌, ◌-◌, ◌≡◌, refl, [], ◌∷◌, arith, inl, inr, Option-cases}
use game_server_snooze.Store.{Heap}
use game_server_snooze.Proxy.{Proxy, Options, Queues}
use game_server_snooze.Proxy.Queue.{
  find_queue, delete_queue, or_empty, remove_queue, keep_open_queues, closed_bytes,
  remove_closed_queues,
}
use game_server_snooze.Proxy.Accounting.{
  FitQueues, LacksQueue, IsUnique, sum_bytes, IsAccounted, smaller,
}

FitQueues-delete :
    (o : Options) (p : ℕ) (queues : Queues)
    → FitQueues o queues
    → FitQueues o (delete_queue p queues)
unfolding delete_queue
FitQueues-delete o p [] f = tt
FitQueues-delete o p ((q, queue) ∷ queues) f = ground (arith, FitQueues-delete o p queues f.1)

LacksQueue-delete :
    (j p : ℕ) (queues : Queues) → LacksQueue j queues → LacksQueue j (delete_queue p queues)
unfolding delete_queue
LacksQueue-delete j p [] h = tt
LacksQueue-delete j p ((q, queue) ∷ queues) h = ground (arith, LacksQueue-delete j p queues h.1)

IsUnique-delete : (p : ℕ) (queues : Queues) → IsUnique queues → IsUnique (delete_queue p queues)
unfolding delete_queue
IsUnique-delete p [] u = tt
IsUnique-delete p ((q, queue) ∷ queues) u =
    ground (arith, IsUnique-delete p queues u.1, LacksQueue-delete q p queues u.0)

sum_bytes-delete :
    (p : ℕ) (queues : Queues)
    → sum_bytes (delete_queue p queues) + (or_empty (find_queue p queues)).bytes ≡ sum_bytes queues
unfolding delete_queue find_queue
sum_bytes-delete p [] = refl
sum_bytes-delete p ((q, queue) ∷ queues) = ground (arith, sum_bytes-delete p queues)

pub remove_queue-IsAccounted :
    (active : ℕ) (proxy : Proxy) → IsAccounted proxy → IsAccounted (remove_queue active proxy)
unfolding remove_queue
remove_queue-IsAccounted active proxy v =
    let sums = sum_bytes-delete active proxy.queues in
    elim (Option-cases (find_queue active proxy.queues)) [
      | inl e ↦ rw (e, remove_queue) v
      | inr (queue, e) ↦
          let removed : sum_bytes (delete_queue active proxy.queues) + queue.bytes
              ≡ sum_bytes proxy.queues =
            ground (arith, sums, e) in
          rw (e, remove_queue)
            (record {
              room = v.room;
              fit = FitQueues-delete proxy.options active proxy.queues v.fit;
              unique = IsUnique-delete active proxy.queues v.unique;
              summed = omega (arith, v.summed, removed);
              global =
                  smaller proxy.options.startup_buffer_bytes_global
                    (proxy.queued_bytes - queue.bytes) proxy.queued_bytes (omega arith) v.global;
            })
    ]

FitQueues-keep :
    (o : Options) (heap : Heap) (queues : Queues)
    → FitQueues o queues
    → FitQueues o (keep_open_queues heap queues)
unfolding keep_open_queues
FitQueues-keep o heap [] f = tt
FitQueues-keep o heap ((q, queue) ∷ queues) f = ground (arith, FitQueues-keep o heap queues f.1)

LacksQueue-keep :
    (j : ℕ) (heap : Heap) (queues : Queues)
    → LacksQueue j queues
    → LacksQueue j (keep_open_queues heap queues)
unfolding keep_open_queues
LacksQueue-keep j heap [] h = tt
LacksQueue-keep j heap ((q, queue) ∷ queues) h = ground (arith, LacksQueue-keep j heap queues h.1)

IsUnique-keep :
    (heap : Heap) (queues : Queues) → IsUnique queues → IsUnique (keep_open_queues heap queues)
unfolding keep_open_queues
IsUnique-keep heap [] u = tt
IsUnique-keep heap ((q, queue) ∷ queues) u =
    ground (arith, IsUnique-keep heap queues u.1, LacksQueue-keep q heap queues u.0)

sum_bytes-keep :
    (heap : Heap) (queues : Queues)
    → sum_bytes (keep_open_queues heap queues) + closed_bytes heap queues ≡ sum_bytes queues
unfolding keep_open_queues closed_bytes
sum_bytes-keep heap [] = refl
sum_bytes-keep heap ((q, queue) ∷ queues) = ground (arith, sum_bytes-keep heap queues)

pub remove_closed_queues-IsAccounted :
    (proxy : Proxy) → IsAccounted proxy → IsAccounted (remove_closed_queues proxy)
unfolding remove_closed_queues
remove_closed_queues-IsAccounted proxy v =
    let sums = sum_bytes-keep proxy.heap proxy.queues in
    record {
      room = v.room;
      fit = FitQueues-keep proxy.options proxy.heap proxy.queues v.fit;
      unique = IsUnique-keep proxy.heap proxy.queues v.unique;
      summed = omega (arith, v.summed, sums);
      global =
          smaller proxy.options.startup_buffer_bytes_global
            (proxy.queued_bytes - closed_bytes proxy.heap proxy.queues) proxy.queued_bytes
            (omega arith) v.global;
    }
