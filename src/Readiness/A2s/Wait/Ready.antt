-- ===== src/Readiness/A2s/Wait/Ready.antt =====
-- When the wait for an A2S answer of pkg/readiness/a2s.go ends well.
use game_server_snooze.Common.{
  ◌≡◌, ◌≢◌, ◌↔◌, ◌⊎◌, inl, inr, refl, subst, true, Option, none, some, List, [], ◌∷◌, arith,
  Option-cases,
}
use game_server_snooze.Errors.{Error}
use game_server_snooze.Session.{Packet, err, Result-cases}
use game_server_snooze.Readiness.A2s.{a2s_info_query, Datagram, returns, continues}
use game_server_snooze.Readiness.A2s.Exchange.{IsInfo, IsChallenge, challenge_query, Outcome-cases}
use game_server_snooze.Readiness.A2s.Wait.{
  WaitPass, is_net_timeout, wait_answer, wait_read_error, wait_outcome, wait_passes, a2s_wait_ready,
}
use game_server_snooze.Readiness.A2s.Wait.Answer.{
  Receives, AsksAgain, wait_answer-IsInfo_iff, wait_answer_continues, wait_answer-AsksAgain,
  AsksAgain-wait_answer,
}

-- The pass ends the wait well: an info response comes back.
abbrev pub IsAnswered : WaitPass → Type 0
IsAnswered pass = (d : Datagram) × Receives pass d × IsInfo d

-- The pass goes on to the next one: the query could not be written and the retry timer ran; or the
-- read failed with the context alive, by a timeout or before the retry timer ran; or a datagram
-- came back after which the loop asks again.
abbrev pub GoesOn : WaitPass → Type 0
GoesOn pass =
    ((e : Error) × (pass.write ≡ some e) × (pass.retry ≡ none))
    ⊎ ((e : Error) × (pass.write ≡ none)
        × (pass.deadline ≡ none)
        × (pass.read ≡ err e)
        × (pass.ctx_after ≡ none)
        × ((is_net_timeout e ≡ true) ⊎ (pass.retry ≡ none)))
    ⊎ ((d : Datagram) × Receives pass d × AsksAgain pass d)

-- How a pass ends: without a datagram, or as its datagram says.
wait_cases :
    (pass : WaitPass)
    → ((wait_outcome pass ≢ returns none) × ((d : Datagram) → ¬ Receives pass d))
      ⊎ ((d : Datagram) × Receives pass d × (wait_outcome pass ≡ wait_answer pass d))
unfolding wait_outcome wait_read_error
wait_cases pass = elim (Option-cases pass.write) [
  | inr (e, w) ↦ inl ((λ h. absurd (ground (arith, w, h))), λ d (w', s, r). absurd (cc (w, w')))
  | inl w ↦ elim (Option-cases pass.deadline) [
    | inr (e, s) ↦
        inl ((λ h. absurd (ground (arith, w, s, h))), λ d (w', s', r). absurd (cc (s, s')))
    | inl s ↦ elim (Result-cases pass.read) [
      | inr (d, r) ↦ inr (d, (w, s, r), cc (w, s, r))
      | inl (e, r) ↦
          inl ((λ h. absurd (ground (arith, w, s, r, h))), λ d (w', s', r'). absurd (cc (r, r')))
    ]
  ]
]

wait-IsAnswered_iff : (pass : WaitPass) → (wait_outcome pass ≡ returns none) ↔ IsAnswered pass
wait-IsAnswered_iff pass = elim (wait_cases pass) [
  | inl (fails, nothing) ↦
      (λ h. absurd (fails h), λ (d, received, info). absurd (nothing d received))
  | inr (d, (w, s, r), out) ↦
      let (sound, complete) = wait_answer-IsInfo_iff pass d in
      (
        λ h. (d, (w, s, r), sound (cc (h, out))),
        λ (d', (w', s', r'), info).
            let same : d' ≡ d = cc (r, r') in cc (out, complete (subst IsInfo same info)),
      )
]

-- The query that may follow a pass: the plain one, or the one that answers its challenge.
abbrev pub MayFollow : WaitPass → Packet → Type 0
MayFollow pass query =
    (query ≡ a2s_info_query)
    ⊎ ((d : Datagram) × Receives pass d × IsChallenge d × (query ≡ challenge_query d))

pub wait_continues :
    (pass : WaitPass) (query : Packet)
    → wait_outcome pass ≡ continues query
    → GoesOn pass × MayFollow pass query
unfolding wait_outcome wait_read_error
wait_continues pass query h = elim (Option-cases pass.write) [
  | inr (e, w) ↦ (inl (e, w, ground (arith, w)), inl (ground (arith, w)))
  | inl w ↦ elim (Option-cases pass.deadline) [
    | inr (e, s) ↦ absurd (ground (arith, w, s))
    | inl s ↦ elim (Result-cases pass.read) [
      | inl (e, r) ↦ (
        inr (inl (e, w, s, r, ground (arith, w, s, r), ground (arith, w, s, r))),
        inl (ground (arith, w, s, r)),
      )
      | inr (d, r) ↦
          let out : wait_answer pass d ≡ continues query = cc (w, s, r, h) in
          (
            inr (inr (d, (w, s, r), AsksAgain-wait_answer pass d query out)),
            elim (wait_answer_continues pass d query out) [
              | inl (challenge, e) ↦ inr (d, (w, s, r), challenge, e)
              | inr (waited, e) ↦ inl e
            ],
          )
    ]
  ]
]

wait-GoesOn :
    (pass : WaitPass) → GoesOn pass → (query : Packet) × (wait_outcome pass ≡ continues query)
unfolding wait_outcome wait_read_error
wait-GoesOn pass (inl (e, w, waited)) = (a2s_info_query, ground arith)
wait-GoesOn pass (inr (inl (e, w, s, r, alive, ways))) = (a2s_info_query, ground arith)
wait-GoesOn pass (inr (inr (d, (w, s, r), asks))) =
    let (query, out) = wait_answer-AsksAgain pass d asks in (query, cc (w, s, r, out))

-- The first pass that does not go on is answered, and the context was alive up to it.
abbrev pub BecomesAnswered : List WaitPass → Type 0
BecomesAnswered [] = ⊥
BecomesAnswered (pass ∷ passes) =
    (pass.ctx ≡ none) × (IsAnswered pass ⊎ (GoesOn pass × BecomesAnswered passes))

wait_passes_iff :
    (query : Packet) (passes : List WaitPass)
    → ((wait_passes query passes).0 ≡ some none) ↔ BecomesAnswered passes
unfolding wait_passes
wait_passes_iff query [] = (λ h. absurd (ground arith), λ h. absurd h)
wait_passes_iff query (pass ∷ passes) = elim (Option-cases pass.ctx) [
  | inr (c, dead) ↦ (λ h. absurd (ground (arith, dead)), λ (alive, ways). absurd (cc (alive, dead)))
  | inl alive ↦ elim (Outcome-cases (wait_outcome pass)) [
    | inl (r, out) ↦ (
      λ h. (alive, inl ((wait-IsAnswered_iff pass).0 (ground (arith, alive, out)))),
      λ (_, ways). elim ways [
        | inl answered ↦ let done = (wait-IsAnswered_iff pass).1 answered in cc (alive, done)
        | inr (on, later) ↦ let (q, goes) = wait-GoesOn pass on in absurd (cc (out, goes))
      ],
    )
    | inr (another, out) ↦
        let (sound, complete) = wait_passes_iff another passes in
        (
          λ h. (alive, inr ((wait_continues pass another out).0, sound (cc (alive, out, h)))),
          λ (_, ways). elim ways [
            | inl answered ↦ absurd (cc (out, (wait-IsAnswered_iff pass).1 answered))
            | inr (on, later) ↦ cc (alive, out, complete later)
          ],
        )
  ]
]

-- The wait succeeds exactly if the dial did, and up to the first pass that an info response answers
-- the context was alive and every pass went on: the query could not be written, the read timed out
-- or failed, or some other datagram came back, and the retry timer ran, which a timeout and a
-- challenge do not wait for.
pub a2s_wait_ready_iff :
    (dial : Option Error) (passes : List WaitPass)
    → ((a2s_wait_ready dial passes).0 ≡ some none) ↔ ((dial ≡ none) × BecomesAnswered passes)
unfolding a2s_wait_ready
a2s_wait_ready_iff (some e) passes =
    (λ h. absurd (cc h), λ (dialled, answered). absurd (cc dialled))
a2s_wait_ready_iff none passes =
    let (sound, complete) = wait_passes_iff a2s_info_query passes in
    (λ h. (refl, sound h), λ (dialled, answered). complete answered)
