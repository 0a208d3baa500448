-- ===== src/Session/Flow.antt =====
-- A session of pkg/session/session.go under its callers and its two goroutines, in any order. What
-- one of them does is cut at every lock and at every socket call, so that anything may come between:
-- `touch` is one step and the Write or WriteToUDP after it another, as are the locked section of
-- TryExpire and the once that closes the socket.
pub mod Quiet
pub mod Calls
use game_server_snooze.Common.{
  ℕ, ◌≡◌, refl, Bool, true, false, not, ◌||◌, ltb, Option, none, some, List, [], ◌∷◌, ◌++◌, arith,
  if◌then◌else◌,
}
use game_server_snooze.Errors.{Error}
use game_server_snooze.Session.{
  Packet, Session, SessionOptions, ok, touch, close_socket, once, close_resources, reader_exit,
  new_session, record_activity,
}

-- A session, the packets of the calls of ForwardClient that `touch` has admitted and that are not
-- written yet, and the datagram that the reader has admitted and not relayed yet.
pub record Flow : Type 0 where
  pub session : Session
  pub sending : List Packet
  pub reading : Option Packet

abbrev pub at_rest : Session → Flow
at_rest s = record { session = s; sending = []; reading = none }

unfoldable pub start_forward : ℕ → Packet → Flow → Flow
unfolding touch
start_forward now bytes f =
    let (alive, s) = touch now f.session in
    if alive then record f { session = s; sending = bytes ∷ f.sending } else f

unfoldable pub start_relay : ℕ → Packet → Flow → Flow
unfolding touch
start_relay now bytes f =
    let (alive, s) = touch now f.session in
    if alive then record f { session = s; reading = some bytes } else f

-- The section of TryExpire that holds activityMu.
unfoldable pub mark_expired : ℕ → Session → Session
mark_expired cutoff s =
    if s.closed || not (ltb s.last_activity cutoff) then s else record s { closed = true }

pub data Step (f : Flow) : Flow → Type 0 where
  forwards : (now : ℕ) (bytes : Packet) → Step f (start_forward now bytes f)
  sends :
      (before : List Packet) (bytes : Packet) (after : List Packet)
      → f.sending ≡ before ++ bytes ∷ after
      → Step f (record f {
        session = record f.session { upstream = f.session.upstream ++ bytes ∷ [] };
        sending = before ++ after;
      })
  -- the Write fails; a session that is closed by then is left alone
  send_fails :
      (before : List Packet) (bytes : Packet) (after : List Packet)
      → f.sending ≡ before ++ bytes ∷ after
      → Step f (record f {
        session = if f.session.closed then f.session else close_resources f.session;
        sending = before ++ after;
      })
  records : (now : ℕ) → Step f (record f { session = (record_activity now f.session).1 })
  expires : (cutoff : ℕ) → Step f (record f { session = mark_expired cutoff f.session })
  -- the end of a TryExpire that marked the session
  expires_socket :
      f.session.closed ≡ true → Step f (record f { session = once close_socket f.session })
  -- Close, the watcher of the context
  closes : Step f (record f { session = close_resources f.session })
  -- the reader, which has not returned and is between two datagrams
  reads :
      (now : ℕ) (bytes : Packet)
      → f.session.done ≡ false
      → f.reading ≡ none
      → Step f (start_relay now bytes f)
  relays :
      (bytes : Packet)
      → f.reading ≡ some bytes
      → Step f (record f {
        session = record f.session { replies = f.session.replies ++ bytes ∷ [] };
        reading = none;
      })
  -- the deferred calls of the reader, after an error of a socket or a `touch` that was refused
  reader_returns : Step f (record f { session = reader_exit f.session; reading = none })

pub data Reach (f : Flow) : Flow → Type 0 where
  here : Reach f f
  next : {g h : Flow} → Reach f g → Step g h → Reach f h

-- The socket is closed exactly if the once has run, which it does only in a closed session, and a
-- reader that has returned has run it.
pub record IsSafe (f : Flow) : Type 0 where
  pub socket_once : f.session.socket_closed ≡ f.session.close_once
  pub once_closed : f.session.close_once ≡ true → f.session.closed ≡ true
  pub done_once : f.session.done ≡ true → f.session.close_once ≡ true
  pub done_reading : f.session.done ≡ true → f.reading ≡ none

pub new_session-IsSafe :
    (options : SessionOptions) (dial : Option Error) (now : ℕ) (s : Session)
    → new_session options dial now ≡ ok s
    → IsSafe (at_rest s)
unfolding new_session
new_session-IsSafe options dial now s h = ground arith

pub Step-IsSafe : {f g : Flow} → Step f g → IsSafe f → IsSafe g
unfolding start_forward start_relay mark_expired record_activity once close_resources reader_exit
Step-IsSafe {f} (forwards now bytes) v = ground arith
Step-IsSafe {f} (sends before bytes after e) v = ground arith
Step-IsSafe {f} (send_fails before bytes after e) v = ground arith
Step-IsSafe {f} (records now) v = ground arith
Step-IsSafe {f} (expires cutoff) v = ground arith
Step-IsSafe {f} (expires_socket e) v = ground arith
Step-IsSafe {f} closes v = ground arith
Step-IsSafe {f} (reads now bytes alive idle) v = ground arith
Step-IsSafe {f} (relays bytes e) v = ground arith
Step-IsSafe {f} reader_returns v = ground arith

pub Reach-IsSafe : {f g : Flow} → Reach f g → IsSafe f → IsSafe g
Reach-IsSafe here v = v
Reach-IsSafe (next r step) v = Step-IsSafe step (Reach-IsSafe r v)
