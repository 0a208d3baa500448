-- ===== src/Session/Reader.antt =====
-- What readBackend relays to the client, against a description by one pass over the events.
use game_server_snooze.Common.{
  ℕ, ◌≡◌, refl, sym, Bool, true, false, not, is_some, ◌||◌, ◌==◌, ltb, List, [], ◌∷◌, ◌++◌, arith,
  length, if◌then◌else◌,
}
use mathlib.Core.List.{append-nil, append_assoc}
use game_server_snooze.Session.{
  Packet, Session, ReaderEvent, read_error, datagram, sweep, Write, relay, try_expire, read_backend,
}

-- The datagrams of the events that a session relays: non-empty, whole, until the first error of a
-- socket or the expiry. `last` is the time of the last activity.
unfoldable pub relayed : Bool → ℕ → List ReaderEvent → List Packet
relayed closed last [] = []
relayed closed last (read_error ∷ events) = []
relayed closed last (sweep cutoff ∷ events) = relayed (closed || ltb last cutoff) last events
relayed closed last (datagram bytes truncated now write ∷ events) =
    let skip = relayed closed last events in
    let rest = relayed write.closed_meanwhile now events in
    if length bytes == 0 || truncated
    then skip
    else if closed || is_some write.failure
    then []
    else bytes ∷ rest

relay_lem :
    (bytes : Packet) (now : ℕ) (write : Write) (s : Session)
    → let (goes_on, s') = relay bytes now write s in
      (goes_on ≡ not (s.closed || is_some write.failure))
      × (goes_on ≡ true
          → (s'.replies ≡ s.replies ++ bytes ∷ [])
            × (s'.upstream ≡ s.upstream)
            × (s'.closed ≡ write.closed_meanwhile)
            × (s'.last_activity ≡ now))
      × (goes_on ≡ false → (s'.replies ≡ s.replies) × (s'.upstream ≡ s.upstream))
unfolding relay
relay_lem bytes now write s = (ground arith, λ h. ground arith, λ h. ground arith)

-- The client receives exactly the relayed datagrams, in the order in which the backend sent them,
-- and the backend is sent nothing by the reader.
pub read_backend-relays :
    (s : Session) (events : List ReaderEvent)
    → ((read_backend s events).replies ≡ s.replies ++ relayed s.closed s.last_activity events)
      × ((read_backend s events).upstream ≡ s.upstream)
unfolding read_backend relayed
read_backend-relays s [] = (sym (append-nil s.replies), refl)
read_backend-relays s (read_error ∷ events) = ground (arith, append-nil s.replies)
read_backend-relays s (sweep cutoff ∷ events) =
    ground (arith, read_backend-relays (try_expire cutoff s).1 events)
read_backend-relays s (datagram bytes truncated now write ∷ events) =
    let (verdict, relays, stops) = relay_lem bytes now write s in
    ground (
      arith,
      verdict,
      relays,
      stops,
      append-nil s.replies,
      read_backend-relays s events,
      read_backend-relays (relay bytes now write s).1 events,
      append_assoc s.replies (bytes ∷ []) (relayed write.closed_meanwhile now events),
    )
