-- ===== src/Proxy/New.antt =====
-- What New of pkg/proxy/proxy.go accepts, and the state that it returns.
pub mod Idle
use game_server_snooze.Common.{
  ◌≡◌, refl, Bool, true, false, not, ◌||◌, Option, none, some, [], ◌∷◌, length, subst, sym, arith,
  if◌then◌else◌,
}
use game_server_snooze.Common.Int.{ℤ, pos, negsuc, leb_ℤ, ltb_ℤ, not_ltb→leb, leb_ℤ_trans}
use game_server_snooze.Errors.{Error}
use game_server_snooze.Session.{Result, ok, err}
use game_server_snooze.Store.{Heap, Store, Entries, new_store, len}
use game_server_snooze.Store.Laws.{IsValid, new_store_lem}
use game_server_snooze.Proxy.{Proxy, Options, with_defaults, check_options, initial, new}
use game_server_snooze.Proxy.Accounting.{HasRoom, smaller}
use game_server_snooze.Proxy.Invariant.{IsSound, PointersBelow}

abbrev pub HasAll : Options → Type 0
HasAll o =
    (o.has_listener ≡ true)
    × (o.has_backend_addr ≡ true)
    × (o.has_controller ≡ true)
    × (o.has_detector ≡ true)

-- The successful end of the two last checks.
checked :
    (o : Options) (heap : Heap) (c : Option Error) (r : Result Store) (p : Proxy)
    → (elim c [
      | some e ↦ err e
      | none ↦ elim r [ err e ↦ err e | ok store ↦ ok (initial o store heap) ]
    ])
      ≡ ok p
    → (store : Store) × (c ≡ none) × (r ≡ ok store) × (p ≡ initial o store heap)
checked o heap none (ok store) p h = (store, refl, refl, cc)
checked o heap none (err e) p h = cc
checked o heap (some e) r p h = cc

if_false {ℓ} :
    {A : Type ℓ} (b : Bool) (x y : A) {z : A}
    → (if b then x else y) ≡ z
    → ¬ (x ≡ z)
    → (b ≡ false) × (y ≡ z)
if_false true x y h refused = absurd (refused h)
if_false false x y h refused = (refl, h)

all_present :
    (a b c d : Bool)
    → (not a || not b || not c || not d) ≡ false
    → (a ≡ true) × (b ≡ true) × (c ≡ true) × (d ≡ true)
all_present a b c d h = ground arith

pub or_false : (a b c : Bool) → (a || b || c) ≡ false → (a ≡ false) × (b ≡ false) × (c ≡ false)
or_false a b c h = ground arith

pub or_false_first : (a b c d e : Bool) → (a || b || c || d || e) ≡ false → a ≡ false
or_false_first a b c d e h = ground arith

pub no_error :
    (a b c : Bool) (x y z : Error)
    → (if a then some x else if b then some y else if c then some z else none) ≡ none
    → (a ≡ false) × (b ≡ false) × (c ≡ false)
no_error a b c x y z h = ground arith

pub new_inverse :
    (options : Options) (heap : Heap) (p : Proxy)
    → new options heap ≡ ok p
    → let o = with_defaults options in
      HasAll options
      × ((store : Store) × (check_options o ≡ none)
          × (new_store o.max_sessions ≡ ok store)
          × (p ≡ initial o store heap))
unfolding new
new_inverse options heap p h =
    let o = with_defaults options in
    let missing =
      not options.has_listener
      || not options.has_backend_addr
      || not options.has_controller
      || not options.has_detector in
    let (present, made) = if_false missing _ _ h (λ e. cc) in
    (
      all_present options.has_listener options.has_backend_addr options.has_controller
          options.has_detector present,
      checked o heap (check_options o) (new_store o.max_sessions) p made,
    )

HasRoom-check_options : (o : Options) → check_options o ≡ none → HasRoom o
unfolding check_options
HasRoom-check_options o h =
    let (limits, timing, buffers) = no_error _ _ _ _ _ _ h in
    let (packets, per_session, rest) = or_false _ _ _ buffers in
    let size = or_false_first (ltb_ℤ o.max_packet_size (pos 1)) _ _ _ _ limits in
    let session : leb_ℤ (pos 1) o.startup_buffer_bytes_per_session ≡ true =
      leb_ℤ_trans (pos 1) o.max_packet_size o.startup_buffer_bytes_per_session
        (not_ltb→leb o.max_packet_size (pos 1) size)
        (not_ltb→leb o.startup_buffer_bytes_per_session o.max_packet_size per_session) in
    record {
      packets = not_ltb→leb o.startup_buffer_packets (pos 1) packets;
      per_session = session;
      global =
          leb_ℤ_trans (pos 1) o.startup_buffer_bytes_per_session o.startup_buffer_bytes_global
            session
            (not_ltb→leb o.startup_buffer_bytes_global o.startup_buffer_bytes_per_session rest);
    }

initial-IsSound :
    (o : Options) (store : Store) (heap : Heap)
    → HasRoom o
    → IsValid store
    → len store ≡ 0
    → IsSound (initial o store heap)
unfolding initial len
initial-IsSound o store heap room valid empty = record {
  accounted = record {
    room = room;
    fit = tt;
    unique = tt;
    summed = refl;
    global = smaller o.startup_buffer_bytes_global 0 1 (omega arith) room.global;
  };
  valid = valid;
  allocated = none_below store.sessions empty;
  gated = λ e. refl;
  timer = tt;
  counter = omega arith;
  shut_gate = λ e. refl;
  shut_timer = λ e. refl;
}
  where
    none_below : (entries : Entries) → length entries ≡ 0 → PointersBelow 0 entries
    none_below [] e = tt
    none_below ((k, p) ∷ entries) e = absurd (omega arith)

-- A proxy that New returns satisfies the invariant.
pub new-IsSound :
    (options : Options) (heap : Heap) (p : Proxy) → new options heap ≡ ok p → IsSound p
unfolding initial
new-IsSound options heap p h =
    let o = with_defaults options in
    let (_, made) = new_inverse options heap p h in
    let (store, limits, stored, is) = made in
    let (valid, empty, capacity, positive) = (new_store_lem o.max_sessions).0 store stored in
    subst IsSound (sym is)
      (initial-IsSound o store heap (HasRoom-check_options o limits) valid empty)

-- A proxy that New returns has nothing queued and does not shut down.
pub new-idle :
    (options : Options) (heap : Heap) (p : Proxy)
    → new options heap ≡ ok p
    → (p.queues ≡ []) × (p.shutting_down ≡ false)
unfolding initial
new-idle options heap p h =
    let (_, made) = new_inverse options heap p h in
    let (store, _, _, is) = made in
    subst (λ (q : Proxy). (q.queues ≡ []) × (q.shutting_down ≡ false)) (sym is) (refl, refl)
