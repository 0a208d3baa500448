-- ===== src/Proxy/Invariant/Ingress.antt =====
-- The sections of a client datagram, of the watchers, of the sweep and of the shutdown keep the
-- invariant (pkg/proxy/proxy.go).
use game_server_snooze.Common.{
  ℕ, suc, String, ◌≡◌, Bool, true, false, Option, [], ◌∷◌, arith, if◌then◌else◌, if_split,
  option_split, is_some, not,
}
use game_server_snooze.Errors.{Error}
use game_server_snooze.Session.{Packet, Session, Write, record_activity, forward_client}
use game_server_snooze.Store.{Entries, Heap, delete, get, get_or_create, remove}
use game_server_snooze.Store.Entries.{LacksPointer}
use game_server_snooze.Store.Sweep.{survivors}
use game_server_snooze.Store.Laws.{IsFresh, get_or_create-IsValid, remove-IsValid}
use game_server_snooze.Proxy.{Proxy}
use game_server_snooze.Proxy.Queue.{enqueue_locked, remove_queue}
use game_server_snooze.Proxy.Startup.{start_server}
use game_server_snooze.Proxy.Ingress.{
  Arrival, forward_or_queue, allocate, forward_existing, forward_or_remove, remove_session,
  after_creation, with_session,
}
use game_server_snooze.Proxy.Accounting.{enqueue_locked-IsAccounted}
use game_server_snooze.Proxy.Accounting.Removal.{remove_queue-IsAccounted}
use game_server_snooze.Proxy.Invariant.{PointersBelow, IsSound, start_server-IsSound}

pub enqueue_locked-IsSound :
    (active : ℕ) (packet : Packet) (p : Proxy)
    → p.backend_ready ≡ false
    → IsSound p
    → IsSound (enqueue_locked active packet p)
unfolding enqueue_locked
enqueue_locked-IsSound active packet p gate v =
    ground (arith, enqueue_locked-IsAccounted active packet p v.accounted)

pub with_session-IsSound :
    (active : ℕ) (s : Session) (p : Proxy) → IsSound p → IsSound (with_session active s p)
with_session-IsSound active s p v = ground arith

pub forward_or_queue-IsSound :
    (now : ℕ) (write : Write) (active : ℕ) (packet : Packet) (p : Proxy)
    → IsSound p
    → IsSound (forward_or_queue now write active packet p).1
unfolding forward_or_queue
forward_or_queue-IsSound now write active packet p v =
    if_split (λ (r : Bool × Proxy). IsSound r.1) p.backend_ready
      (not (is_some sent.0), with_session active sent.1 p)
      (if is_some recorded.0
        then (false, touched)
        else (true, start_server now (enqueue_locked active packet touched)))
      (λ _. with_session-IsSound active sent.1 p v)
      (λ gate.
        if_split (λ (r : Bool × Proxy). IsSound r.1) (is_some recorded.0) (false, touched)
          (true, start_server now (enqueue_locked active packet touched)) (λ _. kept)
          (λ _.
            start_server-IsSound now (enqueue_locked active packet touched)
              (enqueue_locked-IsSound active packet touched gate kept)))
  where
    sent : Option Error × Session
    sent = forward_client now write packet (p.heap active)

    recorded : Option Error × Session
    recorded = record_activity now (p.heap active)

    touched : Proxy
    touched = with_session active recorded.1 p

    kept : IsSound touched
    kept = with_session-IsSound active recorded.1 p v

PointersBelow-delete :
    (n : ℕ) (key : String) (entries : Entries)
    → PointersBelow n entries
    → PointersBelow n (delete key entries)
unfolding delete
PointersBelow-delete n key [] b = tt
PointersBelow-delete n key ((k, p) ∷ entries) b =
    ground (arith, PointersBelow-delete n key entries b.1)

pub PointersBelow-survivors :
    (n cutoff : ℕ) (heap : Heap) (entries : Entries)
    → PointersBelow n entries
    → PointersBelow n (survivors cutoff heap entries)
PointersBelow-survivors n cutoff heap [] b = tt
PointersBelow-survivors n cutoff heap ((k, p) ∷ entries) b =
    ground (arith, PointersBelow-survivors n cutoff heap entries b.1)

PointersBelow-suc :
    (n : ℕ) (entries : Entries) → PointersBelow n entries → PointersBelow (suc n) entries
PointersBelow-suc n [] b = tt
PointersBelow-suc n ((k, p) ∷ entries) b = (omega arith, PointersBelow-suc n entries b.1)

LacksPointer-below : (n : ℕ) (entries : Entries) → PointersBelow n entries → LacksPointer n entries
LacksPointer-below n [] b = tt
LacksPointer-below n ((k, p) ∷ entries) b = (omega arith, LacksPointer-below n entries b.1)

pub remove_queue-IsSound : (active : ℕ) (p : Proxy) → IsSound p → IsSound (remove_queue active p)
unfolding remove_queue
remove_queue-IsSound active p v = ground (arith, remove_queue-IsAccounted active p v.accounted)

pub forward_existing-IsSound :
    (a : Arrival) (p : Proxy) → IsSound p → IsSound (forward_existing a p).1
unfolding forward_existing
forward_existing-IsSound a p v =
    option_split (λ (r : Bool × Proxy). IsSound r.1) (get a.key p.store) (false, p)
      (λ active. forward_or_queue a.now a.first_write active a.packet p) (λ _. v)
      (λ active _. forward_or_queue-IsSound a.now a.first_write active a.packet p v)

-- store.Remove under the heap of the proxy.
abbrev pub without_session : String → ℕ → Proxy → Proxy
without_session key active p =
    let removal = remove key active p.store p.heap in
    record p { store = removal.1; heap = removal.2 }

pub without_session-IsSound :
    (key : String) (active : ℕ) (p : Proxy) → IsSound p → IsSound (without_session key active p)
unfolding remove
without_session-IsSound key active p v = ground (
  arith,
  remove-IsValid key active p.store p.heap v.valid,
  PointersBelow-delete p.next_session key p.store.sessions v.allocated,
)

pub remove_session-IsSound :
    (key : String) (active : ℕ) (p : Proxy) → IsSound p → IsSound (remove_session key active p).1
unfolding remove_session
remove_session-IsSound key active p v =
    remove_queue-IsSound active (without_session key active p)
      (without_session-IsSound key active p v)

pub forward_or_remove-IsSound :
    (a : Arrival) (p : Proxy) → IsSound p → IsSound (forward_or_remove a p).1
unfolding forward_or_remove
forward_or_remove-IsSound a p v =
    option_split (λ (r : Bool × Proxy). IsSound r.1) (get a.key p.store) (false, p)
      (λ existing.
        let (taken, p₁) = forward_or_queue a.now a.second_write existing a.packet p in
        if taken then (true, p₁) else (false, (remove_session a.key existing p₁).1))
      (λ _. v)
      (λ existing _.
        let (taken, p₁) = forward_or_queue a.now a.second_write existing a.packet p in
        let sound = forward_or_queue-IsSound a.now a.second_write existing a.packet p v in
        if_split (λ (r : Bool × Proxy). IsSound r.1) taken (true, p₁)
          (false, (remove_session a.key existing p₁).1) (λ _. sound)
          (λ _. remove_session-IsSound a.key existing p₁ sound))

allocate-IsFresh :
    (a : Arrival) (p : Proxy) → IsSound p → IsFresh (allocate a p p.heap).0 p.store.sessions
unfolding allocate
allocate-IsFresh a p v =
    ground (arith, LacksPointer-below p.next_session p.store.sessions v.allocated)

pub after_creation-IsSound : (a : Arrival) (p : Proxy) → IsSound p → IsSound (after_creation a p).1
unfolding get_or_create allocate
after_creation-IsSound a p v = ground (
  arith,
  get_or_create-IsValid a.key (allocate a p) p.store p.heap v.valid (allocate-IsFresh a p v),
  PointersBelow-suc p.next_session p.store.sessions v.allocated,
)
