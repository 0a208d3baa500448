-- ===== src/Store.antt =====
-- pkg/session/store.go: the sessions by client address. A *Session is a number that the heap maps
-- to the session, so that the proxy's queues and watchers can hold the same pointer. Go visits a map
-- in no fixed order; here the order is that of the list.
pub mod Entries
pub mod Sweep
pub mod Laws
pub mod SameEntries
pub mod Order
mod Tests
use game_server_snooze.Common.{
  ℕ, suc, String, Bool, true, false, not, ◌||◌, ◌&&◌, ◌==◌, leb, Option, none, some, List, [], ◌∷◌,
  length, str_eq, if◌then◌else◌,
}
use game_server_snooze.Common.Int.{ℤ, pos, ltb_ℤ, leb_ℤ}
use game_server_snooze.Errors.{Error, plain, session_capacity}
use game_server_snooze.Session.{Session, Result, ok, err, try_expire, close}

abbrev pub Heap : Type 0
Heap = ℕ → Session

abbrev pub update : Heap → ℕ → Session → Heap
update heap p s q = if q == p then s else heap q

abbrev pub Entries : Type 0
Entries = List (String × ℕ)

pub record Store : Type 0 where
  pub max : ℤ
  pub sessions : Entries

unfoldable pub lookup : String → Entries → Option ℕ
lookup key [] = none
lookup key ((k, p) ∷ entries) = if str_eq k key then some p else lookup key entries

unfoldable pub delete : String → Entries → Entries
delete key [] = []
delete key ((k, p) ∷ entries) =
    let rest = delete key entries in if str_eq k key then rest else (k, p) ∷ rest

unfoldable pub new_store : ℤ → Result Store
new_store max =
    if ltb_ℤ max (pos 1)
    then err (plain "session capacity must be positive")
    else ok (record { max = max; sessions = [] })

unfoldable pub get : String → Store → Option ℕ
unfolding lookup
get key store = lookup key store.sessions

unfoldable pub len : Store → ℕ
len store = length store.sessions

-- The four results of GetOrCreate.
pub record Creation : Type 0 where
  pub session : Option ℕ
  pub created : Bool
  pub count : ℕ
  pub error : Option Error

-- The callback `create` may allocate in the heap; it answers with an error or a pointer, none being
-- the nil pointer.
unfoldable pub get_or_create :
    String → (Heap → Result (Option ℕ) × Heap) → Store → Heap → Creation × Store × Heap
unfolding lookup
get_or_create key create store heap =
    let count = length store.sessions in
    elim (lookup key store.sessions) [
      | some existing ↦ (
        record { session = some existing; created = false; count = count; error = none },
        store,
        heap,
      )
      | none ↦
          if leb_ℤ store.max (pos count)
          then (
            record {
              session = none;
              created = false;
              count = count;
              error = some session_capacity;
            },
            store,
            heap,
          )
          else (let (answer, heap') = create heap in
              elim answer [
                | err e ↦ (
                  record { session = none; created = false; count = count; error = some e },
                  store,
                  heap',
                )
                | ok none ↦ (
                  record {
                    session = none;
                    created = false;
                    count = count;
                    error = some (plain "session factory returned nil");
                  },
                  store,
                  heap',
                )
                | ok (some p) ↦ (
                  record { session = some p; created = true; count = suc count; error = none },
                  record store { sessions = (key, p) ∷ store.sessions },
                  heap',
                )
              ])
    ]

abbrev same_pointer : ℕ → Option ℕ → Bool
same_pointer expected none = false
same_pointer expected (some current) = current == expected

-- The result is whether the entry was removed and how many are left.
unfoldable pub remove : String → ℕ → Store → Heap → (Bool × ℕ) × Store × Heap
unfolding lookup delete
remove key expected store heap =
    if same_pointer expected (lookup key store.sessions)
    then (let rest = delete key store.sessions in
        (
          (true, length rest),
          record store { sessions = rest },
          update heap expected (close (heap expected)),
        ))
    else ((false, length store.sessions), store, heap)

unfoldable pub close_each : List ℕ → Heap → Heap
close_each [] heap = heap
close_each (p ∷ ps) heap = close_each ps (update heap p (close (heap p)))

-- What the loop of ExpireIdle leaves: the entries kept, the sessions to close, the heap.
pub record Swept : Type 0 where
  pub kept : Entries
  pub to_close : List ℕ
  pub heap : Heap

unfoldable pub sweep_entries : ℕ → Entries → Heap → Swept
sweep_entries cutoff [] heap = record { kept = []; to_close = []; heap = heap }
sweep_entries cutoff ((key, p) ∷ entries) heap =
    let (expired, s) = try_expire cutoff (heap p) in
    let rest = sweep_entries cutoff entries (update heap p s) in
    if expired
    then record rest { to_close = p ∷ rest.to_close }
    else record rest { kept = (key, p) ∷ rest.kept }

-- The result is how many sessions expired and how many are left.
unfoldable pub expire_idle : ℕ → Store → Heap → (ℕ × ℕ) × Store × Heap
unfolding close_each sweep_entries
expire_idle cutoff store heap =
    let swept = sweep_entries cutoff store.sessions heap in
    (
      (length swept.to_close, length swept.kept),
      record store { sessions = swept.kept },
      close_each swept.to_close swept.heap,
    )

abbrev pub pointers : Entries → List ℕ
pointers [] = []
pointers ((key, p) ∷ entries) = p ∷ pointers entries

unfoldable pub close_all : Store → Heap → Store × Heap
unfolding close_each
close_all store heap = (record store { sessions = [] }, close_each (pointers store.sessions) heap)
