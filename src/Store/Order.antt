-- ===== src/Store/Order.antt =====
-- Go visits a map in no fixed order: what the operations of pkg/session/store.go return and leave
-- does not depend on the order of the entries.
use game_server_snooze.Common.{ℕ, String, ◌≡◌, Option, arith}
use game_server_snooze.Session.{Result}
use game_server_snooze.Store.{
  Heap, Store, lookup, get, len, get_or_create, remove, expire_idle, close_all,
}
use game_server_snooze.Store.Entries.{lookup-delete, length-delete}
use game_server_snooze.Store.Sweep.{survivors}
use game_server_snooze.Store.Laws.{IsValid, IsDistinct-survivors, expire_idle_lem, close_all_lem}
use game_server_snooze.Store.SameEntries.{
  SameEntries, length-SameEntries, lookup-survivors, pointers-SameEntries, idle_pointers-pointers,
}

-- Two stores that hold the same map.
abbrev pub SameMap : Store → Store → Type 0
SameMap s t = (s.max ≡ t.max) × ((j : String) → get j s ≡ get j t)

-- Two runs of an operation with the same result, the same sessions and the same map.
abbrev pub SameOutcome {ℓ} : {R : Type ℓ} → R × Store × Heap → R × Store × Heap → Type ℓ
SameOutcome (r, s, heap) (r', t, heap') = (r ≡ r') × SameMap s t × ((q : ℕ) → heap q ≡ heap' q)

module _ (s t : Store) (v : IsValid s) (w : IsValid t) (same : SameMap s t) where
  len-SameMap : len s ≡ len t
  unfolding len get
  len-SameMap = length-SameEntries s.sessions t.sessions v.distinct w.distinct same.1

  get_or_create-SameMap :
      (key : String) (create : Heap → Result (Option ℕ) × Heap) (heap : Heap)
      → SameOutcome (get_or_create key create s heap) (get_or_create key create t heap)
  unfolding get_or_create get lookup len
  get_or_create-SameMap key create heap = (
    ground (arith, len-SameMap, same.1 key),
    (
      ground (arith, len-SameMap, same.1 key),
      λ j. ground (arith, len-SameMap, same.1 key, same.1 j),
    ),
    λ q. ground (arith, len-SameMap, same.1 key),
  )

  remove-SameMap :
      (key : String) (expected : ℕ) (heap : Heap)
      → SameOutcome (remove key expected s heap) (remove key expected t heap)
  unfolding remove get lookup len
  remove-SameMap key expected heap = (
    ground (
      arith,
      len-SameMap,
      same.1 key,
      length-delete key expected s.sessions v.distinct,
      length-delete key expected t.sessions w.distinct,
    ),
    (
      ground (arith, same.1 key),
      λ j. ground (
        arith,
        same.1 key,
        same.1 j,
        lookup-delete key j s.sessions,
        lookup-delete key j t.sessions,
      ),
    ),
    λ q. ground (arith, same.1 key),
  )

  expire_idle-SameMap :
      (cutoff : ℕ) (heap : Heap)
      → SameOutcome (expire_idle cutoff s heap) (expire_idle cutoff t heap)
  unfolding get len
  expire_idle-SameMap cutoff heap =
      let a = expire_idle_lem cutoff s heap v in
      let b = expire_idle_lem cutoff t heap w in
      let agree : SameEntries (survivors cutoff heap s.sessions)
          (survivors cutoff heap t.sessions) =
        λ j. ground (
          arith,
          same.1 j,
          lookup-survivors cutoff heap j s.sessions v.distinct,
          lookup-survivors cutoff heap j t.sessions w.distinct,
        ) in
      let left =
        length-SameEntries _ _ (IsDistinct-survivors cutoff heap s.sessions v.distinct)
          (IsDistinct-survivors cutoff heap t.sessions w.distinct) agree in
      (
        ground (arith, left, a.0, a.2, a.3, b.0, b.2, b.3, len-SameMap),
        (ground (arith, a.0, b.0, same.0), λ j. ground (arith, a.0, b.0, agree j)),
        λ q. ground (
          arith,
          a.4 q,
          b.4 q,
          idle_pointers-pointers cutoff heap q s.sessions,
          idle_pointers-pointers cutoff heap q t.sessions,
          pointers-SameEntries s.sessions t.sessions q v.distinct w.distinct same.1,
        ),
      )

  close_all-SameMap :
      (heap : Heap)
      → ((q : ℕ) → (close_all s heap).1 q ≡ (close_all t heap).1 q)
        × SameMap (close_all s heap).0 (close_all t heap).0
  unfolding get
  close_all-SameMap heap =
      let (left, closed) = close_all_lem s heap in
      let (left', closed') = close_all_lem t heap in
      (
        λ q. ground (
          arith,
          closed q,
          closed' q,
          pointers-SameEntries s.sessions t.sessions q v.distinct w.distinct same.1,
        ),
        (ground (arith, left, left', same.0), λ j. ground (arith, left, left')),
      )

-- Two valid stores that hold the same map in different orders cannot be told apart: Len, GetOrCreate,
-- Remove, ExpireIdle and CloseAll return the same, do the same to every session, and leave stores
-- that hold the same map again.
pub order_irrelevant :
    (s t : Store) (heap : Heap) (key : String) (create : Heap → Result (Option ℕ) × Heap)
    (expected cutoff : ℕ)
    → IsValid s
    → IsValid t
    → SameMap s t
    → (len s ≡ len t)
      × SameOutcome (get_or_create key create s heap) (get_or_create key create t heap)
      × SameOutcome (remove key expected s heap) (remove key expected t heap)
      × SameOutcome (expire_idle cutoff s heap) (expire_idle cutoff t heap)
      × ((q : ℕ) → (close_all s heap).1 q ≡ (close_all t heap).1 q)
      × SameMap (close_all s heap).0 (close_all t heap).0
order_irrelevant s t heap key create expected cutoff v w same = (
  len-SameMap s t v w same,
  get_or_create-SameMap s t v w same key create heap,
  remove-SameMap s t v w same key expected heap,
  expire_idle-SameMap s t v w same cutoff heap,
  (close_all-SameMap s t v w same heap).0,
  (close_all-SameMap s t v w same heap).1,
)
