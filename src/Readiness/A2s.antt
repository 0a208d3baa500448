-- ===== src/Readiness/A2s.antt =====
-- pkg/readiness/a2s.go: the A2S query, the parser of its answer, and one probe.
pub mod Format
pub mod Exchange
pub mod Wait
use game_server_snooze.Common.Int.{ℤ, pos, leb_ℤ}
use game_server_snooze.Library.{Library, Address}
use game_server_snooze.Common.{
  String, ℕ, zero, suc, Bool, true, false, not, ◌&&◌, ◌||◌, ◌==◌, leb, ltb, Option, none, some,
  List, [], ◌∷◌, ◌++◌, length, take, drop, if◌then◌else◌,
}
use game_server_snooze.Errors.{Error, plain, wrapped}
use game_server_snooze.Session.{Packet, Result, ok, err}

-- FF FF FF FF 54 and "Source Engine Query" with its final zero.
abbrev pub a2s_info_query : Packet
a2s_info_query =
    255 ∷ 255 ∷ 255 ∷ 255 ∷ 84 ∷ 83 ∷ 111 ∷ 117 ∷ 114 ∷ 99 ∷ 101 ∷ 32 ∷ 69 ∷ 110 ∷ 103 ∷ 105 ∷ 110
    ∷ 101 ∷ 32 ∷ 81 ∷ 117 ∷ 101 ∷ 114 ∷ 121 ∷ 0 ∷ []

pub record A2sProbe : Type 0 where
  pub address : Address
  pub poll_interval : ℤ

unfoldable pub new_a2s_probe : Library → String → ℤ → Result A2sProbe
new_a2s_probe library address poll_interval =
    if leb_ℤ poll_interval (pos 0)
    then err (plain "A2S poll interval must be positive")
    else elim (library.resolve_udp address) [
      | none ↦ err (plain "resolve A2S address")
      | some resolved ↦ ok (record { address = resolved; poll_interval = poll_interval })
    ]

-- response[i] == x, where i is within bounds.
unfoldable pub is_byte : ℕ → ℕ → Packet → Bool
is_byte i x [] = false
is_byte zero x (b ∷ bytes) = b == x
is_byte (suc i) x (b ∷ bytes) = is_byte i x bytes

-- The bytes after the first zero byte; none where there is no zero byte.
unfoldable pub after_zero : Packet → Option Packet
after_zero [] = none
after_zero (b ∷ bytes) = let rest = after_zero bytes in if b == 0 then some bytes else rest

-- The strings that stand at the offset.
unfoldable pub skip_strings : ℕ → Packet → Option Packet
unfolding after_zero
skip_strings zero bytes = some bytes
skip_strings (suc n) bytes = elim (after_zero bytes) [
  | none ↦ none
  | some rest ↦ skip_strings n rest
]

-- The fields of fixed size and the version string.
unfoldable pub has_fields_and_version : Packet → Bool
has_fields_and_version bytes =
    if ltb (length bytes) 9
    then false
    else elim (after_zero (drop 9 bytes)) [ none ↦ false | some rest ↦ true ]

-- The offset of the source is the length of what was dropped.
unfoldable pub valid_a2s_info : Packet → Bool
unfolding is_byte skip_strings has_fields_and_version
valid_a2s_info response =
    if ltb (length response) 6 || not (is_byte 4 73 response)
    then false
    else elim (skip_strings 4 (drop 6 response)) [
      | none ↦ false
      | some rest ↦ has_fields_and_version rest
    ]

-- What ReadMsgUDP returns, cut to the buffer, with MSG_TRUNC.
pub record Datagram : Type 0 where
  pub bytes : Packet
  pub truncated : Bool

-- What one attempt meets: the error of Write, the answer of ReadMsgUDP, and ctx.Err() after it.
pub record Attempt : Type 0 where
  pub write : Option Error
  pub read : Result Datagram
  pub ctx : Option Error

abbrev pub is_malformed : Datagram → Bool
is_malformed datagram =
    datagram.truncated
    || ltb (length datagram.bytes) 5
    || not (is_byte 0 255 datagram.bytes)
    || not (is_byte 1 255 datagram.bytes)
    || not (is_byte 2 255 datagram.bytes)
    || not (is_byte 3 255 datagram.bytes)

-- How an attempt ends: the probe returns, or the loop goes on with another query.
pub data Outcome : Type 0 where
  returns : Option Error → Outcome
  continues : Packet → Outcome

unfoldable pub answer_outcome : Bool → Datagram → Outcome
unfolding is_byte valid_a2s_info
answer_outcome is_first datagram =
    if is_malformed datagram
    then returns (some (plain "invalid A2S response"))
    else if is_byte 4 73 datagram.bytes
    then (if valid_a2s_info datagram.bytes
        then returns none
        else returns (some (plain "invalid A2S info response")))
    else if is_byte 4 65 datagram.bytes && is_first && leb 9 (length datagram.bytes)
    then continues (a2s_info_query ++ take 4 (drop 5 datagram.bytes))
    else returns (some (plain "unexpected A2S response type"))

unfoldable pub attempt_outcome : Bool → Attempt → Outcome
unfolding answer_outcome
attempt_outcome is_first attempt = elim attempt.write [
  | some e ↦ returns (some (wrapped "write A2S probe" e))
  | none ↦ elim attempt.read [
    | err e ↦ elim attempt.ctx [
      | some c ↦ returns (some (wrapped "probe A2S readiness" c))
      | none ↦ returns (some (wrapped "read A2S probe" e))
    ]
    | ok datagram ↦ answer_outcome is_first datagram
  ]
]

-- The beginning of Probe: ctx.Err(), the dial, and the deadline of the socket.
abbrev pub probe_setup : Option Error → Option Error → Option Error → Option Error
probe_setup ctx dial deadline = elim ctx [
  | some e ↦ some (wrapped "probe A2S readiness" e)
  | none ↦ elim dial [
    | some e ↦ some (wrapped "dial A2S endpoint" e)
    | none ↦ elim deadline [ some e ↦ some (wrapped "set A2S probe deadline" e) | none ↦ none ]
  ]
]

-- The loop of Probe, and the queries that it writes.
unfoldable pub probe_attempts : Attempt → Attempt → Option Error × List Packet
unfolding attempt_outcome
probe_attempts first second = elim (attempt_outcome true first) [
  | returns result ↦ (result, a2s_info_query ∷ [])
  | continues query ↦ elim (attempt_outcome false second) [
    | returns result ↦ (result, a2s_info_query ∷ query ∷ [])
    | continues another ↦ (
      some (plain "A2S probe challenge did not produce an info response"),
      a2s_info_query ∷ query ∷ [],
    )
  ]
]

-- A2SProbe.Probe.
unfoldable pub a2s_probe :
    Option Error → Option Error → Option Error → Attempt → Attempt → Option Error × List Packet
unfolding probe_attempts
a2s_probe ctx dial deadline first second = elim (probe_setup ctx dial deadline) [
  | some e ↦ (some e, [])
  | none ↦ probe_attempts first second
]
