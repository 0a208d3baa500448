-- ===== src/Session/Tests.antt =====
-- Witnesses for Session.
use game_server_snooze.Common.{◌≡◌, refl, true, false, none, some, List, [], ◌∷◌, ◌++◌}
use game_server_snooze.Common.Int.{pos}
use game_server_snooze.Session.{
  Session, SessionOptions, Write, ReaderEvent, datagram, read_error, sweep, read_backend,
}
use game_server_snooze.Session.Flow.{Flow}
use game_server_snooze.Session.Reader.{relayed, read_backend-relays}

abbrev flow : Session
flow = record {
  client_addr = "192.0.2.7:40000";
  max_packet = pos 1200;
  last_activity = 100;
  closed = false;
  close_once = false;
  socket_closed = false;
  done = false;
  upstream = (1 ∷ []) ∷ [];
  replies = [];
}

abbrev written : Write
written = record { failure = none; closed_meanwhile = false }

-- An empty and a truncated datagram are skipped; the end of the socket comes before the last one.
abbrev events : List ReaderEvent
events =
    datagram (7 ∷ []) false 110 written
    ∷ datagram [] false 111 written
    ∷ datagram (8 ∷ []) true 112 written
    ∷ sweep 105
    ∷ datagram (9 ∷ []) false 113 written
    ∷ read_error
    ∷ datagram (6 ∷ []) false 114 written
    ∷ []

relayed-events : relayed false 100 events ≡ (7 ∷ []) ∷ (9 ∷ []) ∷ []
unfolding relayed
relayed-events = refl

read_backend-relays_example :
    ((read_backend flow events).replies ≡ [] ++ relayed false 100 events)
    × ((read_backend flow events).upstream ≡ (1 ∷ []) ∷ [])
read_backend-relays_example = read_backend-relays flow events

abbrev session_options : SessionOptions
session_options = record {
  client_addr = some "192.0.2.7:40000";
  has_backend_addr = true;
  has_public_conn = true;
  max_packet_size = pos 1200;
}

abbrev fresh : Session
fresh = record flow { upstream = [] }

-- The first packet was admitted and not written yet when the session expired.
abbrev expired : Flow
expired = record {
  session = record fresh { last_activity = 150; closed = true };
  sending = (1 ∷ []) ∷ [];
  reading = none;
}

-- A packet that comes too late is refused, and the first one is written.
abbrev late : Flow
late = record expired {
  session = record expired.session { upstream = (1 ∷ []) ∷ [] };
  sending = [];
}
