-- ===== src/Session.antt =====
-- pkg/session/session.go: one client flow with its upstream UDP socket. A method that writes the
-- session returns the new record; a clock reading is an argument. What the sockets carried is kept
-- in `upstream` (datagrams for the backend) and `replies` (datagrams for the client), oldest first.
pub mod Lifecycle
pub mod Reader
pub mod Flow
mod Tests
use game_server_snooze.Common.{
  ◌≡◌, ◌⊎◌, inl, inr, refl, ℕ, String, Bool, true, false, not, ◌||◌, ◌==◌, ltb, Option, none, some,
  is_some, List, [], ◌∷◌, ◌++◌, length, if◌then◌else◌,
}
use game_server_snooze.Common.Int.{ℤ, pos, ltb_ℤ}
use game_server_snooze.Errors.{Error, plain, wrapped, session_closed}

abbrev pub Packet : Type 0
Packet = List ℕ

pub record Session : Type 0 where
  pub client_addr : String
  pub max_packet : ℤ
  pub last_activity : ℕ
  pub closed : Bool
  -- closeOnce has run
  pub close_once : Bool
  -- cancel() was called and the upstream socket closed
  pub socket_closed : Bool
  -- the channel done is closed: the reader has returned
  pub done : Bool
  pub upstream : List Packet
  pub replies : List Packet

pub record SessionOptions : Type 0 where
  pub client_addr : Option String
  pub has_backend_addr : Bool
  pub has_public_conn : Bool
  pub max_packet_size : ℤ

pub data Result {ℓ} (A : Type ℓ) : Type ℓ where
  ok : A → Result A
  err : Error → Result A

pub Result-cases {ℓ} :
    {A : Type ℓ} (r : Result A) → ((e : Error) × (r ≡ err e)) ⊎ ((x : A) × (r ≡ ok x))
Result-cases (ok x) = inr (x, refl)
Result-cases (err e) = inl (e, refl)

-- The answer of (*net.UDPConn).Write or WriteToUDP, and whether another goroutine closed the session meanwhile.
pub record Write : Type 0 where
  pub failure : Option Error
  pub closed_meanwhile : Bool

unfoldable pub touch : ℕ → Session → Bool × Session
touch now s = if s.closed then (false, s) else (true, record s { last_activity = now })

unfoldable pub record_activity : ℕ → Session → Option Error × Session
unfolding touch
record_activity now s =
    let (alive, s') = touch now s in if alive then (none, s') else (some session_closed, s')

unfoldable pub close_socket : Session → Session
close_socket s = record s { socket_closed = true }

-- closeOnce.Do
unfoldable pub once : (Session → Session) → Session → Session
once f s = if s.close_once then s else f (record s { close_once = true })

unfoldable pub close_resources : Session → Session
unfolding once close_socket
close_resources = once λ s. close_socket (record s { closed = true })

unfoldable pub forward_client : ℕ → Write → Packet → Session → Option Error × Session
unfolding record_activity close_resources
forward_client now write data' s =
    let (refused, s₁) = record_activity now s in
    elim refused [
      | some e ↦ (some e, s₁)
      | none ↦
          let s₂ = if write.closed_meanwhile then close_resources s₁ else s₁ in
          elim write.failure [
            | none ↦ (none, record s₂ { upstream = s₂.upstream ++ data' ∷ [] })
            | some e ↦
                if s₂.closed
                then (some session_closed, s₂)
                else (some (wrapped "forward client packet" e), close_resources s₂)
          ]
    ]

-- The end of TryExpire; from a session that is not closed, closeResources leads to the same.
abbrev pub expire : Session → Session
expire s = once close_socket (record s { closed = true })

unfoldable pub try_expire : ℕ → Session → Bool × Session
unfolding once close_socket
try_expire cutoff s =
    if s.closed || not (ltb s.last_activity cutoff) then (false, s) else (true, expire s)

-- The deferred calls of readBackend: closeResources, then close(done).
unfoldable pub reader_exit : Session → Session
unfolding close_resources
reader_exit s = record (close_resources s) { done = true }

-- watchContext: whether the context was cancelled before the reader was done.
unfoldable pub watch_context : Bool → Session → Session
unfolding close_resources
watch_context cancelled s = if cancelled then close_resources s else s

-- Close waits for the reader, which the closed socket ends; its error is always nil.
unfoldable pub close : Session → Session
unfolding close_resources reader_exit
close s = reader_exit (close_resources s)

-- What the reader of one session meets: the end of the socket, a datagram with its MSG_TRUNC flag,
-- the clock and the answer of WriteToUDP, before which another goroutine may have closed the session
-- that `touch` found open, or the sweeper's TryExpire between two datagrams.
pub data ReaderEvent : Type 0 where
  read_error : ReaderEvent
  datagram : Packet → Bool → ℕ → Write → ReaderEvent
  sweep : ℕ → ReaderEvent

-- A datagram that is not skipped, from `touch` to WriteToUDP: whether the loop goes on.
unfoldable pub relay : Packet → ℕ → Write → Session → Bool × Session
unfolding touch once close_socket
relay bytes now write s =
    let (alive, s₁) = touch now s in
    let s₂ = if write.closed_meanwhile then expire s₁ else s₁ in
    if not alive
    then (false, s₁)
    else if is_some write.failure
    then (false, s₂)
    else (true, record s₂ { replies = s₂.replies ++ bytes ∷ [] })

unfoldable pub read_backend : Session → List ReaderEvent → Session
unfolding reader_exit try_expire
read_backend s [] = s
read_backend s (read_error ∷ events) = reader_exit s
read_backend s (sweep cutoff ∷ events) = read_backend (try_expire cutoff s).1 events
read_backend s (datagram bytes truncated now write ∷ events) =
    let skip = read_backend s events in
    let (goes_on, s') = relay bytes now write s in
    let next = read_backend s' events in
    if length bytes == 0 || truncated then skip else if goes_on then next else reader_exit s'

-- The dial of the upstream socket and the clock are arguments; the two goroutines that it starts
-- are `read_backend` and `watch_context`.
unfoldable pub new_session : SessionOptions → Option Error → ℕ → Result Session
new_session options dial now = elim options.client_addr [
  | none ↦ err (plain "client, backend, and public UDP addresses are required")
  | some client ↦
      if not options.has_backend_addr || not options.has_public_conn
      then err (plain "client, backend, and public UDP addresses are required")
      else if ltb_ℤ options.max_packet_size (pos 1)
      then err (plain "max packet size must be positive")
      else elim dial [
        | some e ↦ err (wrapped "connect backend UDP socket" e)
        | none ↦ ok (record {
          client_addr = client;
          max_packet = options.max_packet_size;
          last_activity = now;
          closed = false;
          close_once = false;
          socket_closed = false;
          done = false;
          upstream = [];
          replies = [];
        })
      ]
]
