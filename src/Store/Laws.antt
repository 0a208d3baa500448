-- ===== src/Store/Laws.antt =====
-- What each operation of the session store promises (pkg/session/store.go).
use game_server_snooze.Common.{
  ℕ, suc, ◌+◌, ◌≤◌, String, ◌≡◌, ◌≢◌, refl, ap, Bool, true, false, ◌==◌, Option, none, some, [],
  ◌∷◌, arith, length, str_eq, if◌then◌else◌,
}
use game_server_snooze.Common.Int.{ℤ, pos, negsuc, leb_ℤ, ltb_ℤ}
use game_server_snooze.Errors.{plain, session_capacity}
use game_server_snooze.Session.Lifecycle.{IsConsistent, close_lem}
use game_server_snooze.Session.{Session, Result, ok, err, try_expire, close}
use game_server_snooze.Store.{
  Heap, Entries, Store, Creation, lookup, delete, new_store, get, len, get_or_create, remove,
  expire_idle, sweep_entries, close_all, pointers,
}
use game_server_snooze.Store.Entries.{
  LacksKey, LacksPointer, IsDistinct, lookup-delete, length-delete-le, length-delete,
  IsDistinct-delete, LacksKey-lookup,
}
use game_server_snooze.Store.Sweep.{
  member, survivors, idle, idle_pointers, sweep_entries_lem, length-survivors, close_each_lem,
}

-- The capacity holds, and every address and session stands in one entry.
pub record IsValid (store : Store) : Type 0 where
  pub capacity : leb_ℤ (pos (len store)) store.max ≡ true
  pub distinct : IsDistinct store.sessions

try_expire-ends :
    (cutoff : ℕ) (s : Session)
    → idle cutoff s ≡ true
    → let t = close (try_expire cutoff s).1 in (t.closed ≡ true) × (t.done ≡ true)
unfolding try_expire close
try_expire-ends cutoff s h = ground arith

idle_pointers-idle :
    (cutoff : ℕ) (heap : Heap) (q : ℕ) (entries : Entries)
    → member q (idle_pointers cutoff heap entries) ≡ true
    → idle cutoff (heap q) ≡ true
idle_pointers-idle cutoff heap q [] h = absurd (cc h)
idle_pointers-idle cutoff heap q ((k, p) ∷ entries) h =
    ground (arith, idle_pointers-idle cutoff heap q entries, ap (λ r. idle cutoff (heap r)))

-- A pointer that the callback of GetOrCreate hands out is not in the store yet.
abbrev pub IsFresh : Result (Option ℕ) → Entries → Type 0
IsFresh (ok (some p)) entries = LacksPointer p entries
IsFresh (ok none) entries = Unit {0}
IsFresh (err e) entries = Unit {0}

room : (max : ℤ) (n : ℕ) → leb_ℤ max (pos n) ≡ false → leb_ℤ (pos (suc n)) max ≡ true
room (pos m) n h = ground arith
room (negsuc m) n h = cc

fewer : (max : ℤ) (m n : ℕ) → m ≤ n → leb_ℤ (pos n) max ≡ true → leb_ℤ (pos m) max ≡ true
fewer (pos k) m n le h = ground arith
fewer (negsuc k) m n le h = cc

-- A store of positive capacity starts valid and empty; any other capacity is an error.
pub new_store_lem :
    (max : ℤ)
    → ((store : Store)
        → new_store max ≡ ok store
        → IsValid store × (len store ≡ 0) × (store.max ≡ max) × (ltb_ℤ max (pos 1) ≡ false))
      × (ltb_ℤ max (pos 1) ≡ true → new_store max ≡ err (plain "session capacity must be positive"))
unfolding new_store len
new_store_lem (pos max) = (λ store h. ground arith, λ h. ground arith)
new_store_lem (negsuc max) = (λ store h. ground arith, λ h. ground arith)

module _ (key : String) (create : Heap → Result (Option ℕ) × Heap) (store : Store)
    (heap : Heap) where
  abbrev outcome : Creation × Store × Heap
  outcome = get_or_create key create store heap

  -- GetOrCreate keeps the store valid, whatever the callback answers.
  pub get_or_create-IsValid :
      IsValid store → IsFresh (create heap).0 store.sessions → IsValid outcome.1
  unfolding get_or_create len
  get_or_create-IsValid v fresh =
      ground (arith, room store.max (length store.sessions), LacksKey-lookup key store.sessions)

  -- A known address gets its session, also in a full store, and nothing changes.
  pub get_or_create_known :
      {p : ℕ}
      → get key store ≡ some p
      → outcome ≡ (
        record { session = some p; created = false; count = len store; error = none },
        store,
        heap,
      )
  unfolding get get_or_create len
  get_or_create_known h = ground arith

  -- A store at its capacity refuses an unknown address with the capacity error, and neither the
  -- store nor the heap changes.
  pub get_or_create_full :
      get key store ≡ none
      → leb_ℤ store.max (pos (len store)) ≡ true
      → outcome ≡ (
        record {
          session = none;
          created = false;
          count = len store;
          error = some session_capacity;
        },
        store,
        heap,
      )
  unfolding get get_or_create len
  get_or_create_full h full = ground arith

  -- For an unknown address in a store with room, a session that the callback hands out is created:
  -- the count returned is the new one, the heap is the callback's, the address leads to the session
  -- and every other address leads where it led before.
  pub get_or_create_created :
      {p : ℕ}
      → get key store ≡ none
      → leb_ℤ store.max (pos (len store)) ≡ false
      → (create heap).0 ≡ ok (some p)
      → (outcome.0
          ≡ record { session = some p; created = true; count = len outcome.1; error = none })
        × (outcome.2 ≡ (create heap).1)
        × ((j : String) → get j outcome.1 ≡ (if str_eq key j then some p else get j store))
  unfolding get get_or_create len lookup
  get_or_create_created h room c = (ground arith, ground arith, λ j. ground arith)

module _ (key : String) (expected : ℕ) (store : Store) (heap : Heap) where
  abbrev removal : (Bool × ℕ) × Store × Heap
  removal = remove key expected store heap

  pub remove-IsValid : IsValid store → IsValid removal.1
  unfolding remove len
  remove-IsValid v = ground (
    arith,
    IsDistinct-delete key store.sessions v.distinct,
    fewer store.max (length (delete key store.sessions)) (length store.sessions)
        (length-delete-le key store.sessions) v.capacity,
  )

  -- When the address leads to the expected session of a valid store, Remove takes its entry away and returns the
  -- number of entries left, one fewer; the address is free then, and every other address leads where
  -- it led before. Close was called on the session, which is closed now with its socket and its
  -- reader done, where its flags were consistent before; every other session is as it was.
  pub remove_expected :
      IsValid store
      → get key store ≡ some expected
      → IsConsistent (heap expected)
      → (removal.0 ≡ (true, len removal.1))
        × (len removal.1 + 1 ≡ len store)
        × ((j : String) → get j removal.1 ≡ (if str_eq key j then none else get j store))
        × ((q : ℕ) → removal.2 q ≡ (if q == expected then close (heap q) else heap q))
        × ((removal.2 expected).closed ≡ true)
        × ((removal.2 expected).socket_closed ≡ true)
        × ((removal.2 expected).done ≡ true)
  unfolding get remove len
  remove_expected v h consistent =
      let (shut, socket, done, _, _, _) = close_lem (heap expected) consistent in
      (
        ground arith,
        ground (arith, length-delete key expected store.sessions v.distinct),
        λ j. ground (arith, lookup-delete key j store.sessions),
        λ q. ground arith,
        ground (arith, shut),
        ground (arith, socket),
        ground (arith, done),
      )

  -- When the address is free or leads to another session, as after a reconnect, Remove changes
  -- nothing and says so.
  pub remove_other : get key store ≢ some expected → removal ≡ ((false, len store), store, heap)
  unfolding get remove len
  remove_other ne = ground arith

LacksKey-survivors :
    (cutoff : ℕ) (heap : Heap) (key : String) (entries : Entries)
    → LacksKey key entries
    → LacksKey key (survivors cutoff heap entries)
LacksKey-survivors cutoff heap key [] h = tt
LacksKey-survivors cutoff heap key ((k, p) ∷ entries) h =
    ground (arith, LacksKey-survivors cutoff heap key entries h.1)

LacksPointer-survivors :
    (cutoff : ℕ) (heap : Heap) (q : ℕ) (entries : Entries)
    → LacksPointer q entries
    → LacksPointer q (survivors cutoff heap entries)
LacksPointer-survivors cutoff heap q [] h = tt
LacksPointer-survivors cutoff heap q ((k, p) ∷ entries) h =
    ground (arith, LacksPointer-survivors cutoff heap q entries h.1)

pub IsDistinct-survivors :
    (cutoff : ℕ) (heap : Heap) (entries : Entries)
    → IsDistinct entries
    → IsDistinct (survivors cutoff heap entries)
IsDistinct-survivors cutoff heap [] d = tt
IsDistinct-survivors cutoff heap ((k, p) ∷ entries) d = ground (
  arith,
  IsDistinct-survivors cutoff heap entries d.2,
  LacksKey-survivors cutoff heap k entries d.0,
  LacksPointer-survivors cutoff heap p entries d.1,
)

module _ (cutoff : ℕ) (store : Store) (heap : Heap) (v : IsValid store) where
  abbrev expiry : (ℕ × ℕ) × Store × Heap
  expiry = expire_idle cutoff store heap

  expire_idle_parts :
      (expiry.1 ≡ record store { sessions = survivors cutoff heap store.sessions })
      × (expiry.0.0 ≡ length (idle_pointers cutoff heap store.sessions))
      × (expiry.0.1 ≡ len expiry.1)
      × (expiry.0.0 + expiry.0.1 ≡ len store)
      × ((q : ℕ)
          → expiry.2 q ≡ (
              if member q (idle_pointers cutoff heap store.sessions)
              then close (try_expire cutoff (heap q)).1
              else heap q))
  unfolding expire_idle len
  expire_idle_parts =
      let swept = sweep_entries_lem cutoff store.sessions heap v.distinct in
      (
        ground (arith, swept.kept),
        ground (arith, swept.to_close),
        ground arith,
        ground (arith, swept.kept, swept.to_close, length-survivors cutoff heap store.sessions),
        λ q. ground (
          arith,
          swept.to_close,
          swept.heap_at q,
          close_each_lem (sweep_entries cutoff store.sessions heap).to_close
              (sweep_entries cutoff store.sessions heap).heap q,
        ),
      )

  -- In a valid store, ExpireIdle keeps exactly the entries whose session is closed already or was active since the
  -- cutoff; it returns how many went and how many are left, which add up to the entries before.
  -- On a session that went Close was called after TryExpire, so that it is closed and its reader
  -- done; every other session is as it was.
  pub expire_idle_lem :
      (expiry.1 ≡ record store { sessions = survivors cutoff heap store.sessions })
      × (expiry.0.0 ≡ length (idle_pointers cutoff heap store.sessions))
      × (expiry.0.1 ≡ len expiry.1)
      × (expiry.0.0 + expiry.0.1 ≡ len store)
      × ((q : ℕ)
          → expiry.2 q ≡ (
              if member q (idle_pointers cutoff heap store.sessions)
              then close (try_expire cutoff (heap q)).1
              else heap q))
      × ((q : ℕ)
          → member q (idle_pointers cutoff heap store.sessions) ≡ true
          → ((expiry.2 q).closed ≡ true) × ((expiry.2 q).done ≡ true))
  expire_idle_lem =
      let (kept, gone, left, all, heap_at) = expire_idle_parts in
      (
        kept,
        gone,
        left,
        all,
        heap_at,
        λ q went.
            let ended =
              try_expire-ends cutoff (heap q)
                (idle_pointers-idle cutoff heap q store.sessions went) in
            ground (arith, heap_at q, ended),
      )

  pub expire_idle-IsValid : IsValid expiry.1
  unfolding len
  expire_idle-IsValid = ground (
    arith,
    expire_idle_lem,
    IsDistinct-survivors cutoff heap store.sessions v.distinct,
    length-survivors cutoff heap store.sessions,
    fewer store.max (length (survivors cutoff heap store.sessions)) (length store.sessions),
  )

-- CloseAll empties the store; every session of it is closed and its reader done, any other session
-- is as it was.
pub close_all_lem :
    (store : Store) (heap : Heap)
    → ((close_all store heap).0 ≡ record store { sessions = [] })
      × ((q : ℕ)
          → (close_all store heap).1 q
            ≡ (if member q (pointers store.sessions) then close (heap q) else heap q))
unfolding close_all
close_all_lem store heap = (refl, λ q. close_each_lem (pointers store.sessions) heap q)

pub close_all-IsValid :
    (store : Store) (heap : Heap) → IsValid store → IsValid (close_all store heap).0
unfolding close_all len
close_all-IsValid store heap v = ground (arith, fewer store.max 0 (length store.sessions))
