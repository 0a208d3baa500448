-- ===== src/Readiness/A2s/Wait/Answer.antt =====
-- What the wait of pkg/readiness/a2s.go makes of one datagram.
use game_server_snooze.Common.{
  ◌≤◌, true, false, length, ◌≡◌, ◌↔◌, ◌⊎◌, inl, inr, Option, none, arith, Bool-cases,
}
use game_server_snooze.Errors.{Error}
use game_server_snooze.Session.{Packet, ok}
use game_server_snooze.Readiness.A2s.{
  is_malformed, is_byte, a2s_info_query, Datagram, returns, continues,
}
use game_server_snooze.Readiness.A2s.Exchange.{
  IsInfo, IsChallenge, is_malformed_iff, is_malformed-IsChallenge_iff, challenge_query, one_type,
  valid_type, Outcome-cases,
}
use game_server_snooze.Readiness.A2s.Format.{valid_a2s_info_iff}
use game_server_snooze.Readiness.A2s.Wait.{WaitPass, wait_answer}

-- The query of the pass was written, and this datagram came back.
abbrev pub Receives : WaitPass → Datagram → Type 0
Receives pass d = (pass.write ≡ none) × (pass.deadline ≡ none) × (pass.read ≡ ok d)

pub wait_answer-IsInfo_iff :
    (pass : WaitPass) (d : Datagram) → (wait_answer pass d ≡ returns none) ↔ IsInfo d
unfolding wait_answer
wait_answer-IsInfo_iff pass d =
    let (sound, complete) = valid_a2s_info_iff d.bytes in
    (
      λ h. ((is_malformed_iff d).0 (ground arith), sound (ground arith)),
      λ (whole, info).
          let good = (is_malformed_iff d).1 whole in
          ground (arith, good, complete info, valid_type d.bytes (complete info)),
    )

-- A datagram after which the loop asks again: a challenge, or anything else that is no info
-- response, once the retry timer has run.
abbrev pub AsksAgain : WaitPass → Datagram → Type 0
AsksAgain pass d = (¬ IsInfo d) × (IsChallenge d ⊎ (pass.retry ≡ none))

wait_answer_continued :
    (pass : WaitPass) (d : Datagram) (query : Packet)
    → wait_answer pass d ≡ continues query
    → (((is_malformed d ≡ false) × (is_byte 4 65 d.bytes ≡ true) × (9 ≤ length d.bytes))
        × (query ≡ challenge_query d))
      ⊎ ((pass.retry ≡ none) × (query ≡ a2s_info_query))
unfolding wait_answer
wait_answer_continued pass d query h = ground arith

pub wait_answer_continues :
    (pass : WaitPass) (d : Datagram) (query : Packet)
    → wait_answer pass d ≡ continues query
    → (IsChallenge d × (query ≡ challenge_query d))
      ⊎ ((pass.retry ≡ none) × (query ≡ a2s_info_query))
wait_answer_continues pass d query h = elim (wait_answer_continued pass d query h) [
  | inl (challenge, e) ↦ inl ((is_malformed-IsChallenge_iff d).0 challenge, e)
  | inr again ↦ inr again
]

wait_answer-IsChallenge :
    (pass : WaitPass) (d : Datagram)
    → IsChallenge d
    → wait_answer pass d ≡ continues (challenge_query d)
unfolding wait_answer
wait_answer-IsChallenge pass d challenge =
    let (good, type, size) = (is_malformed-IsChallenge_iff d).1 challenge in
    elim (Bool-cases (is_byte 4 73 d.bytes)) [
      | inl info ↦ absurd (one_type 4 65 73 d.bytes (λ z. absurd (omega (arith, z))) type info)
      | inr other ↦ ground arith
    ]

wait_answer_retried :
    (pass : WaitPass) (d : Datagram) (r : Option Error)
    → pass.retry ≡ none
    → wait_answer pass d ≡ returns r
    → r ≡ none
unfolding wait_answer
wait_answer_retried pass d r waited h = ground arith

pub wait_answer-AsksAgain :
    (pass : WaitPass) (d : Datagram)
    → AsksAgain pass d
    → (query : Packet) × (wait_answer pass d ≡ continues query)
wait_answer-AsksAgain pass d (other, inl challenge) =
    (challenge_query d, wait_answer-IsChallenge pass d challenge)
wait_answer-AsksAgain pass d (other, inr waited) = elim (Outcome-cases (wait_answer pass d)) [
  | inr again ↦ again
  | inl (r, out) ↦ absurd (
      other ((wait_answer-IsInfo_iff pass d).0 (cc (out, wait_answer_retried pass d r waited out))))
]

pub AsksAgain-wait_answer :
    (pass : WaitPass) (d : Datagram) (query : Packet)
    → wait_answer pass d ≡ continues query
    → AsksAgain pass d
AsksAgain-wait_answer pass d query h = (
  (λ info. absurd (cc (h, (wait_answer-IsInfo_iff pass d).1 info))),
  elim (wait_answer_continues pass d query h) [
    | inl (challenge, e) ↦ inl challenge
    | inr (waited, e) ↦ inr waited
  ],
)
