-- ===== src/Readiness/A2s/Wait.antt =====
-- WaitReady of pkg/readiness/a2s.go: the loop that asks until a server answers.
pub mod Answer
pub mod Ready
pub mod Queries
use game_server_snooze.Common.{
  Bool, true, false, not, ◌&&◌, leb, Option, none, some, List, [], ◌∷◌, ◌++◌, length, take, drop,
  if◌then◌else◌,
}
use game_server_snooze.Errors.{Error, deadline_exceeded, net_error, wrapped}
use game_server_snooze.Session.{Packet, Result, ok, err}
use game_server_snooze.Readiness.A2s.{
  is_byte, valid_a2s_info, a2s_info_query, Datagram, is_malformed, Outcome, returns, continues,
}

-- What one pass of the loop meets: ctx.Err() at its start, the errors of Write and of
-- SetReadDeadline, the answer of ReadMsgUDP, ctx.Err() after an error of it, and the answer of
-- waitForRetry.
pub record WaitPass : Type 0 where
  pub ctx : Option Error
  pub write : Option Error
  pub deadline : Option Error
  pub read : Result Datagram
  pub ctx_after : Option Error
  pub retry : Option Error

-- `netErr, ok := err.(net.Error); ok && netErr.Timeout()`, which does not look into the chain.
unfoldable pub is_net_timeout : Error → Bool
is_net_timeout (net_error timeout e) = timeout
is_net_timeout deadline_exceeded = true
is_net_timeout _ = false

abbrev pub give_up : Error → Outcome
give_up e = returns (some (wrapped "wait for A2S readiness" e))

-- waitForRetry, and the query reset.
abbrev pub try_again : WaitPass → Outcome
try_again pass = elim pass.retry [ some e ↦ give_up e | none ↦ continues a2s_info_query ]

unfoldable pub wait_answer : WaitPass → Datagram → Outcome
unfolding is_byte valid_a2s_info
wait_answer pass datagram =
    if is_malformed datagram
    then try_again pass
    else if is_byte 4 73 datagram.bytes
    then (if valid_a2s_info datagram.bytes then returns none else try_again pass)
    else if is_byte 4 65 datagram.bytes && leb 9 (length datagram.bytes)
    then continues (a2s_info_query ++ take 4 (drop 5 datagram.bytes))
    else try_again pass

unfoldable pub wait_read_error : WaitPass → Error → Outcome
unfolding is_net_timeout
wait_read_error pass e = elim pass.ctx_after [
  | some c ↦ give_up c
  | none ↦ if is_net_timeout e then continues a2s_info_query else try_again pass
]

-- A pass from the call of Write on.
unfoldable pub wait_outcome : WaitPass → Outcome
unfolding wait_answer wait_read_error
wait_outcome pass = elim pass.write [
  | some e ↦ try_again pass
  | none ↦ elim pass.deadline [
    | some e ↦ returns (some (wrapped "set A2S read deadline" e))
    | none ↦ elim pass.read [
      | err e ↦ wait_read_error pass e
      | ok datagram ↦ wait_answer pass datagram
    ]
  ]
]

-- The loop over the passes that the context allows, and the queries that it hands to Write; none
-- means that it still asks after them.
unfoldable pub wait_passes : Packet → List WaitPass → Option (Option Error) × List Packet
unfolding wait_outcome
wait_passes query [] = (none, [])
wait_passes query (pass ∷ passes) = elim pass.ctx [
  | some e ↦ (some (some (wrapped "wait for A2S readiness" e)), [])
  | none ↦ elim (wait_outcome pass) [
    | returns result ↦ (some result, query ∷ [])
    | continues another ↦ let rest = wait_passes another passes in (rest.0, query ∷ rest.1)
  ]
]

unfoldable pub a2s_wait_ready : Option Error → List WaitPass → Option (Option Error) × List Packet
unfolding wait_passes
a2s_wait_ready dial passes = elim dial [
  | some e ↦ (some (some (wrapped "dial A2S endpoint" e)), [])
  | none ↦ wait_passes a2s_info_query passes
]
