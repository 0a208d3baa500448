-- ===== src/Store/Sweep.antt =====
-- What ExpireIdle and CloseAll do to the sessions, against descriptions by one pass over the store
-- as it was (pkg/session/store.go).
use game_server_snooze.Common.{
  ℕ, ◌+◌, ◌≡◌, refl, Bool, false, not, ◌&&◌, ◌||◌, ◌==◌, ltb, List, [], ◌∷◌, arith, length,
  if◌then◌else◌,
}
use game_server_snooze.Session.{Session, try_expire, close}
use game_server_snooze.Store.{Heap, Entries, Swept, update, close_each, sweep_entries}
use game_server_snooze.Store.Entries.{LacksPointer, IsDistinct}

abbrev pub member : ℕ → List ℕ → Bool
member q [] = false
member q (p ∷ ps) = q == p || member q ps

close_twice : (s : Session) → close (close s) ≡ close s
unfolding close
close_twice s = ground arith

pub close_each_lem :
    (ps : List ℕ) (heap : Heap) (q : ℕ)
    → close_each ps heap q ≡ (if member q ps then close (heap q) else heap q)
unfolding close_each
close_each_lem [] heap q = refl
close_each_lem (p ∷ ps) heap q =
    ground (arith, close_each_lem ps (update heap p (close (heap p))) q, close_twice (heap q))

-- An open session whose last activity lies before the cutoff.
abbrev pub idle : ℕ → Session → Bool
idle cutoff s = not s.closed && ltb s.last_activity cutoff

abbrev pub survivors : ℕ → Heap → Entries → Entries
survivors cutoff heap [] = []
survivors cutoff heap ((k, p) ∷ entries) =
    let rest = survivors cutoff heap entries in if idle cutoff (heap p) then rest else (k, p) ∷ rest

abbrev pub idle_pointers : ℕ → Heap → Entries → List ℕ
idle_pointers cutoff heap [] = []
idle_pointers cutoff heap ((k, p) ∷ entries) =
    let rest = idle_pointers cutoff heap entries in if idle cutoff (heap p) then p ∷ rest else rest

survivors-update :
    (cutoff : ℕ) (heap : Heap) (p : ℕ) (s : Session) (entries : Entries)
    → LacksPointer p entries
    → survivors cutoff (update heap p s) entries ≡ survivors cutoff heap entries
survivors-update cutoff heap p s [] h = refl
survivors-update cutoff heap p s ((k, q) ∷ entries) h =
    ground (arith, survivors-update cutoff heap p s entries h.1)

idle_pointers-update :
    (cutoff : ℕ) (heap : Heap) (p : ℕ) (s : Session) (entries : Entries)
    → LacksPointer p entries
    → idle_pointers cutoff (update heap p s) entries ≡ idle_pointers cutoff heap entries
idle_pointers-update cutoff heap p s [] h = refl
idle_pointers-update cutoff heap p s ((k, q) ∷ entries) h =
    ground (arith, idle_pointers-update cutoff heap p s entries h.1)

member-idle_pointers :
    (cutoff : ℕ) (heap : Heap) (p : ℕ) (entries : Entries)
    → LacksPointer p entries
    → member p (idle_pointers cutoff heap entries) ≡ false
member-idle_pointers cutoff heap p [] h = refl
member-idle_pointers cutoff heap p ((k, q) ∷ entries) h =
    ground (arith, member-idle_pointers cutoff heap p entries h.1)

pub try_expire-idle : (cutoff : ℕ) (s : Session) → (try_expire cutoff s).0 ≡ idle cutoff s
unfolding try_expire
try_expire-idle cutoff s = ground arith

try_expire_kept : (cutoff : ℕ) (s : Session) → idle cutoff s ≡ false → (try_expire cutoff s).1 ≡ s
unfolding try_expire
try_expire_kept cutoff s h = ground arith

pub record SweptAsIdle (cutoff : ℕ) (heap : Heap) (entries : Entries) (swept : Swept) : Type 0 where
  pub kept : swept.kept ≡ survivors cutoff heap entries
  pub to_close : swept.to_close ≡ idle_pointers cutoff heap entries
  pub heap_at :
      (q : ℕ)
      → swept.heap q ≡ (
          if member q (idle_pointers cutoff heap entries)
          then (try_expire cutoff (heap q)).1
          else heap q)

pub sweep_entries_lem :
    (cutoff : ℕ) (entries : Entries) (heap : Heap)
    → IsDistinct entries
    → SweptAsIdle cutoff heap entries (sweep_entries cutoff entries heap)
unfolding sweep_entries
sweep_entries_lem cutoff [] heap d = record { kept = refl; to_close = refl; heap_at = λ q. refl }
sweep_entries_lem cutoff ((k, p) ∷ entries) heap d =
    let s = (try_expire cutoff (heap p)).1 in
    let ih = sweep_entries_lem cutoff entries (update heap p s) d.2 in
    let kept_eq = survivors-update cutoff heap p s entries d.1 in
    let close_eq = idle_pointers-update cutoff heap p s entries d.1 in
    let tested = try_expire-idle cutoff (heap p) in
    record {
      kept = ground (arith, ih.kept);
      to_close = ground (arith, ih.to_close);
      heap_at = λ q. ground (
        arith,
        ih.heap_at q,
        member-idle_pointers cutoff heap p entries d.1,
        try_expire_kept cutoff (heap p),
      );
    }

pub length-survivors :
    (cutoff : ℕ) (heap : Heap) (entries : Entries)
    → length (idle_pointers cutoff heap entries) + length (survivors cutoff heap entries)
      ≡ length entries
length-survivors cutoff heap [] = refl
length-survivors cutoff heap ((k, p) ∷ entries) =
    ground (arith, length-survivors cutoff heap entries)
