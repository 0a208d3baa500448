-- ===== src/Proxy/New/Idle.antt =====
-- What the first datagram finds in the proxy that New of pkg/proxy/proxy.go returns.
use game_server_snooze.Common.{◌≡◌, refl, true, false, none, [], ◌∷◌, length, subst, sym, arith}
use game_server_snooze.Common.Int.{ℤ, pos, negsuc, leb_ℤ, ltb_ℤ, not_ltb→leb}
use game_server_snooze.Session.{ok}
use game_server_snooze.Store.{Heap, Entries, len}
use game_server_snooze.Store.Laws.{new_store_lem}
use game_server_snooze.Proxy.{Proxy, Options, with_defaults, check_options, initial, new}
use game_server_snooze.Proxy.New.{no_error, or_false, or_false_first, new_inverse}

-- What the first datagram finds in a proxy that New returned.
pub record IsIdle (p : Proxy) : Type 0 where
  pub gate : p.backend_ready ≡ false
  pub backend : p.backend_running ≡ false
  pub startup : p.startup_running ≡ false
  pub cooldown : p.startup_blocked_until ≡ 0
  pub nothing_queued : p.queues ≡ []
  pub nothing_counted : p.queued_bytes ≡ 0
  pub no_sessions : p.store.sessions ≡ []
  pub room : leb_ℤ p.store.max (pos 0) ≡ false
  pub has_backend_addr : p.options.has_backend_addr ≡ true
  pub has_listener : p.options.has_listener ≡ true
  pub max_packet_size : ltb_ℤ p.options.max_packet_size (pos 1) ≡ false
  pub packets : leb_ℤ (pos 1) p.options.startup_buffer_packets ≡ true
  pub per_session :
      leb_ℤ p.options.max_packet_size p.options.startup_buffer_bytes_per_session ≡ true
  pub global :
      leb_ℤ p.options.startup_buffer_bytes_per_session p.options.startup_buffer_bytes_global ≡ true

limits_checked :
    (o : Options)
    → check_options o ≡ none
    → (ltb_ℤ o.max_packet_size (pos 1) ≡ false)
      × (leb_ℤ (pos 1) o.startup_buffer_packets ≡ true)
      × (leb_ℤ o.max_packet_size o.startup_buffer_bytes_per_session ≡ true)
      × (leb_ℤ o.startup_buffer_bytes_per_session o.startup_buffer_bytes_global ≡ true)
unfolding check_options
limits_checked o h =
    let (limits, timing, buffers) = no_error _ _ _ _ _ _ h in
    let (packets, per_session, global) = or_false _ _ _ buffers in
    (
      or_false_first (ltb_ℤ o.max_packet_size (pos 1)) _ _ _ _ limits,
      not_ltb→leb o.startup_buffer_packets (pos 1) packets,
      not_ltb→leb o.startup_buffer_bytes_per_session o.max_packet_size per_session,
      not_ltb→leb o.startup_buffer_bytes_global o.startup_buffer_bytes_per_session global,
    )

no_entries : (entries : Entries) → length entries ≡ 0 → entries ≡ []
no_entries [] e = refl
no_entries ((k, p) ∷ entries) e = absurd (omega arith)

has_place_for_one :
    (max given : ℤ) → max ≡ given → ltb_ℤ given (pos 1) ≡ false → leb_ℤ max (pos 0) ≡ false
has_place_for_one (pos a) (pos b) e h = ground arith
has_place_for_one (pos a) (negsuc b) e h = cc
has_place_for_one (negsuc a) (pos b) e h = absurd cc
has_place_for_one (negsuc a) (negsuc b) e h = cc

pub new-IsIdle : (options : Options) (heap : Heap) (p : Proxy) → new options heap ≡ ok p → IsIdle p
unfolding initial len with_defaults
new-IsIdle options heap p h =
    let o = with_defaults options in
    let (present, made) = new_inverse options heap p h in
    let (store, limits, stored, is) = made in
    let (valid, empty, capacity, positive) = (new_store_lem o.max_sessions).0 store stored in
    let (size, packets, per_session, global) = limits_checked o limits in
    subst IsIdle (sym is) (record {
      gate = refl;
      backend = refl;
      startup = refl;
      cooldown = refl;
      nothing_queued = refl;
      nothing_counted = refl;
      no_sessions = no_entries store.sessions empty;
      room = has_place_for_one store.max o.max_sessions capacity positive;
      has_backend_addr = present.1;
      has_listener = present.0;
      max_packet_size = size;
      packets = packets;
      per_session = per_session;
      global = global;
    })
