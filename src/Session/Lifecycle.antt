-- ===== src/Session/Lifecycle.antt =====
-- What closes a session, and what a closed session still does (pkg/session/session.go).
use game_server_snooze.Common.{ℕ, ◌≤◌, ◌<◌, ◌≡◌, ◌↔◌, true, false, none, some, arith, ◌++◌, [], ◌∷◌}
use game_server_snooze.Errors.{session_closed}
use game_server_snooze.Session.{
  Packet, Session, Write, touch, record_activity, close_resources, forward_client, try_expire,
  close,
}

-- Between two atomic sections the flag closed, the once and the socket agree, and the reader is
-- done only in a closed session.
pub record IsConsistent (s : Session) : Type 0 where
  pub once_closed : s.close_once ≡ s.closed
  pub socket_once : s.socket_closed ≡ s.close_once
  pub done_closed : s.done ≡ true → s.closed ≡ true

pub touch-IsConsistent : (now : ℕ) (s : Session) → IsConsistent s → IsConsistent (touch now s).1
unfolding touch
touch-IsConsistent now s v = ground arith

pub close_resources-IsConsistent : (s : Session) → IsConsistent s → IsConsistent (close_resources s)
unfolding close_resources
close_resources-IsConsistent s v = ground arith

pub forward_client-IsConsistent :
    (now : ℕ) (w : Write) (bytes : Packet) (s : Session)
    → IsConsistent s
    → IsConsistent (forward_client now w bytes s).1
unfolding forward_client
forward_client-IsConsistent now w bytes s v = ground arith

pub try_expire-IsConsistent :
    (cutoff : ℕ) (s : Session) → IsConsistent s → IsConsistent (try_expire cutoff s).1
unfolding try_expire
try_expire-IsConsistent cutoff s v = ground arith

pub close-IsConsistent : (s : Session) → IsConsistent s → IsConsistent (close s)
unfolding close
close-IsConsistent s v = ground arith

-- TryExpire answers true exactly for an open session whose last activity lies before the cutoff.
pub try_expire_iff :
    (cutoff : ℕ) (s : Session)
    → ((try_expire cutoff s).0 ≡ true) ↔ ((s.closed ≡ false) × (s.last_activity < cutoff))
unfolding try_expire
try_expire_iff cutoff s = ground arith

-- After TryExpire answered true, a packet of the client is refused with the error of a closed
-- session, nothing more is written upstream, and no activity is recorded.
pub forward_client-try_expire :
    (cutoff now : ℕ) (w : Write) (bytes : Packet) (s : Session)
    → (try_expire cutoff s).0 ≡ true
    → let expired = (try_expire cutoff s).1 in
      (forward_client now w bytes expired ≡ (some session_closed, expired))
      × (record_activity now expired ≡ (some session_closed, expired))
      × (expired.upstream ≡ s.upstream)
unfolding try_expire forward_client
forward_client-try_expire cutoff now w bytes s h = ground arith

-- A packet that is accepted resets the idle clock: no sweep with a cutoff up to its time ends the
-- session, and the packet is the last one written upstream.
pub try_expire-forward_client :
    (cutoff now : ℕ) (w : Write) (bytes : Packet) (s : Session)
    → (forward_client now w bytes s).0 ≡ none
    → cutoff ≤ now
    → let forwarded = (forward_client now w bytes s).1 in
      (try_expire cutoff forwarded ≡ (false, forwarded))
      × (forwarded.upstream ≡ s.upstream ++ bytes ∷ [])
unfolding try_expire forward_client
try_expire-forward_client cutoff now w bytes s h le = ground arith

-- Close leaves a closed session whose reader is done, whatever it was before, changes nothing else
-- that a client or the backend was sent, and a second Close changes nothing.
pub close_lem :
    (s : Session)
    → IsConsistent s
    → ((close s).closed ≡ true)
      × ((close s).socket_closed ≡ true)
      × ((close s).done ≡ true)
      × ((close s).upstream ≡ s.upstream)
      × ((close s).replies ≡ s.replies)
      × (close (close s) ≡ close s)
unfolding close
close_lem s v = ground arith
