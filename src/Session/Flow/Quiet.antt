-- ===== src/Session/Flow/Quiet.antt =====
-- What is still sent once a session of pkg/session/session.go is closed.
use game_server_snooze.Common.{
  ◌+◌, ◌≤◌, ◌≡◌, ◌⊎◌, true, none, some, List, [], ◌∷◌, ◌++◌, All, length,
}
use game_server_snooze.Session.{Packet, Session}
use game_server_snooze.Session.Flow.{Flow}

-- The packet is one of the list.
abbrev pub Among : List Packet → Packet → Type 0
Among packets bytes =
    (before : List Packet) × (after : List Packet) × (packets ≡ before ++ bytes ∷ after)

-- Of the packets that were in flight, `sent` were written since and `left` still may be.
pub record AreFrom (flying sent left : List Packet) : Type 0 where
  pub sent_among : All (Among flying) sent
  pub left_among : All (Among flying) left
  pub count : length sent + length left ≤ length flying

-- Nothing was relayed since, or just the datagram that the reader held, which holds none now.
abbrev pub RelaysAtMost : Flow → Flow → Type 0
RelaysAtMost t u =
    ((u.session.replies ≡ t.session.replies) × ((u.reading ≡ none) ⊎ (u.reading ≡ t.reading)))
    ⊎ ((bytes : Packet) × (t.reading ≡ some bytes)
        × (u.session.replies ≡ t.session.replies ++ bytes ∷ [])
        × (u.reading ≡ none))

-- From the closed session `t` to `u`: it is closed still, no activity was recorded, the backend was
-- sent only packets that were in flight, each at most once, and the client at most the datagram that
-- the reader held.
pub record IsQuiet (t u : Flow) : Type 0 where
  pub closed : u.session.closed ≡ true
  pub activity : u.session.last_activity ≡ t.session.last_activity
  pub sent : List Packet
  pub upstream : u.session.upstream ≡ t.session.upstream ++ sent
  pub flying : AreFrom t.sending sent u.sending
  pub replies : RelaysAtMost t u

-- A step that sends nothing, admits nothing and leaves the session closed.
abbrev IsIdleStep : Flow → Flow → Type 0
IsIdleStep u w =
    (w.session.closed ≡ true)
    × (w.session.last_activity ≡ u.session.last_activity)
    × (w.session.upstream ≡ u.session.upstream)
    × (w.session.replies ≡ u.session.replies)
    × (w.sending ≡ u.sending)
    × ((w.reading ≡ none) ⊎ (w.reading ≡ u.reading))
