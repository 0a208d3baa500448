-- ===== src/Readiness/A2s/Exchange.antt =====
-- What makes one A2S probe succeed, and the queries that it writes (pkg/readiness/a2s.go).
use game_server_snooze.Common.{
  ℕ, zero, suc, ◌≤◌, ◌≡◌, ◌≢◌, ◌↔◌, ◌⊎◌, inl, inr, refl, subst, Bool, true, false, Option, none,
  some, [], ◌∷◌, ◌++◌, arith, length, take, drop, Bool-cases, Option-cases, ltb,
}
use game_server_snooze.Errors.{Error, wrapped}
use game_server_snooze.Session.{Packet, ok, Result-cases}
use game_server_snooze.Readiness.A2s.{
  is_byte, valid_a2s_info, a2s_info_query, Datagram, Attempt, Outcome, returns, continues,
  answer_outcome, attempt_outcome, probe_attempts, a2s_probe, is_malformed,
}
use game_server_snooze.Readiness.A2s.Format.{IsA2sInfo, valid_a2s_info_iff}

-- The query was written and this datagram came back.
abbrev pub Received : Attempt → Datagram → Type 0
Received attempt datagram = (attempt.write ≡ none) × (attempt.read ≡ ok datagram)

-- FF FF FF FF, a type byte and the rest, without truncation.
abbrev pub IsWhole : Datagram → Type 0
IsWhole datagram =
    (datagram.truncated ≡ false)
    × (kind : ℕ) × (rest : Packet) × (datagram.bytes ≡ 255 ∷ 255 ∷ 255 ∷ 255 ∷ kind ∷ rest)

abbrev pub IsInfo : Datagram → Type 0
IsInfo datagram = IsWhole datagram × IsA2sInfo datagram.bytes

-- A challenge: type byte 41 (hexadecimal) and at least four bytes after it.
abbrev pub IsChallenge : Datagram → Type 0
IsChallenge datagram =
    (datagram.truncated ≡ false)
    × (rest : Packet) × (datagram.bytes ≡ 255 ∷ 255 ∷ 255 ∷ 255 ∷ 65 ∷ rest)
    × (4 ≤ length rest)

header :
    (bytes : Packet)
    → ltb (length bytes) 5 ≡ false
    → is_byte 0 255 bytes ≡ true
    → is_byte 1 255 bytes ≡ true
    → is_byte 2 255 bytes ≡ true
    → is_byte 3 255 bytes ≡ true
    → (kind : ℕ) × (rest : Packet) × (bytes ≡ 255 ∷ 255 ∷ 255 ∷ 255 ∷ kind ∷ rest)
unfolding is_byte
header [] size h₀ h₁ h₂ h₃ = absurd (ground arith)
header (a ∷ []) size h₀ h₁ h₂ h₃ = absurd (ground arith)
header (a ∷ b ∷ []) size h₀ h₁ h₂ h₃ = absurd (ground arith)
header (a ∷ b ∷ c ∷ []) size h₀ h₁ h₂ h₃ = absurd (ground arith)
header (a ∷ b ∷ c ∷ d ∷ []) size h₀ h₁ h₂ h₃ = absurd (ground arith)
header (a ∷ b ∷ c ∷ d ∷ kind ∷ rest) size h₀ h₁ h₂ h₃ = (kind, rest, ground arith)

pub is_malformed_iff : (d : Datagram) → (is_malformed d ≡ false) ↔ IsWhole d
unfolding is_byte
is_malformed_iff d = (
  λ h.
      let (kind, rest, e) =
        header d.bytes (ground arith) (ground arith) (ground arith) (ground arith) (ground arith) in
      (ground arith, kind, rest, e),
  λ (whole, kind, rest, e). ground arith,
)

pub is_malformed-IsChallenge_iff :
    (d : Datagram)
    → ((is_malformed d ≡ false) × (is_byte 4 65 d.bytes ≡ true) × (9 ≤ length d.bytes))
      ↔ IsChallenge d
unfolding is_byte
is_malformed-IsChallenge_iff d = (
  λ (good, type, size).
      let (whole, kind, rest, e) = (is_malformed_iff d).0 good in
      (whole, rest, ground arith, ground arith),
  λ (whole, rest, e, size).
      ((is_malformed_iff d).1 (whole, 65, rest, e), ground arith, ground arith),
)

pub valid_type : (response : Packet) → valid_a2s_info response ≡ true → is_byte 4 73 response ≡ true
unfolding valid_a2s_info
valid_type response h = ground arith

-- 65 is not 73.
pub one_type :
    (i x y : ℕ) (response : Packet)
    → x ≢ y
    → is_byte i x response ≡ true
    → is_byte i y response ≡ true
    → ⊥
unfolding is_byte
one_type i x y [] ne h k = absurd (ground arith)
one_type zero x y (b ∷ bytes) ne h k = ground arith
one_type (suc i) x y (b ∷ bytes) ne h k = one_type i x y bytes ne h k

answer-IsInfo_iff :
    (is_first : Bool) (d : Datagram) → (answer_outcome is_first d ≡ returns none) ↔ IsInfo d
unfolding answer_outcome
answer-IsInfo_iff is_first d =
    let (sound, complete) = valid_a2s_info_iff d.bytes in
    (
      λ h. ((is_malformed_iff d).0 (ground arith), sound (ground arith)),
      λ (whole, info).
          let good = (is_malformed_iff d).1 whole in
          ground (arith, good, complete info, valid_type d.bytes (complete info)),
    )

answer-is_malformed-IsChallenge_iff :
    (d : Datagram) (query : Packet)
    → (answer_outcome true d ≡ continues query)
      ↔ (IsChallenge d × (query ≡ a2s_info_query ++ take 4 (drop 5 d.bytes)))
unfolding answer_outcome
answer-is_malformed-IsChallenge_iff d query = (
  λ h.
      ((is_malformed-IsChallenge_iff d).0 (ground arith, ground arith, ground arith), ground arith),
  λ (challenge, e).
      let (good, type, size) = (is_malformed-IsChallenge_iff d).1 challenge in
      elim (Bool-cases (is_byte 4 73 d.bytes)) [
        | inl info ↦ absurd (one_type 4 65 73 d.bytes (λ z. absurd (omega (arith, z))) type info)
        | inr other ↦ ground (arith, good, type, size, e, other)
      ],
)

-- Without a datagram an attempt fails; with one, the outcome is that of the datagram.
attempt_cases :
    (is_first : Bool) (a : Attempt)
    → ((e : Error) × (attempt_outcome is_first a ≡ returns (some e))
        × ((d : Datagram) → ¬ Received a d))
      ⊎ ((d : Datagram) × Received a d × (attempt_outcome is_first a ≡ answer_outcome is_first d))
unfolding attempt_outcome
attempt_cases is_first a = elim (Option-cases a.write) [
  | inr (e, w) ↦
      inl (wrapped "write A2S probe" e, ground (arith, w), λ d (w', r). absurd (cc (w, w')))
  | inl w ↦ elim (Result-cases a.read) [
    | inr (d, r) ↦ inr (d, (w, r), cc (w, r))
    | inl (e, r) ↦ elim (Option-cases a.ctx) [
      | inr (c, x) ↦
          inl (wrapped "probe A2S readiness" c, cc (w, r, x), λ d (w', r'). absurd (cc (r, r')))
      | inl x ↦ inl (wrapped "read A2S probe" e, cc (w, r, x), λ d (w', r'). absurd (cc (r, r')))
    ]
  ]
]

attempt-IsInfo_iff :
    (is_first : Bool) (a : Attempt)
    → (attempt_outcome is_first a ≡ returns none) ↔ ((d : Datagram) × Received a d × IsInfo d)
attempt-IsInfo_iff is_first a = elim (attempt_cases is_first a) [
  | inl (e, out, nothing) ↦
      (λ h. absurd (cc (h, out)), λ (d, received, info). absurd (nothing d received))
  | inr (d, (w, r), out) ↦
      let (sound, complete) = answer-IsInfo_iff is_first d in
      (
        λ h. (d, (w, r), sound (cc (h, out))),
        λ (d', (w', r'), info).
            let same : d' ≡ d = cc (r, r') in cc (out, complete (subst IsInfo same info)),
      )
]

abbrev pub challenge_query : Datagram → Packet
challenge_query d = a2s_info_query ++ take 4 (drop 5 d.bytes)

attempt-is_malformed-IsChallenge_iff :
    (a : Attempt) (query : Packet)
    → (attempt_outcome true a ≡ continues query)
      ↔ ((d : Datagram) × Received a d × IsChallenge d × (query ≡ challenge_query d))
attempt-is_malformed-IsChallenge_iff a query = elim (attempt_cases true a) [
  | inl (e, out, nothing) ↦
      (λ h. absurd (cc (h, out)), λ (d, received, challenge, e). absurd (nothing d received))
  | inr (d, (w, r), out) ↦
      let (sound, complete) = answer-is_malformed-IsChallenge_iff d query in
      (
        λ h. let (challenge, e) = sound (cc (h, out)) in (d, (w, r), challenge, e),
        λ (d', (w', r'), challenge, e).
            let same : d' ≡ d = cc (r, r') in
            cc (
              out,
              complete
                  (subst (λ x. IsChallenge x × (query ≡ challenge_query x)) same (challenge, e)),
            ),
      )
]

abbrev pub Informed : Attempt → Type 0
Informed a = (d : Datagram) × Received a d × IsInfo d

abbrev pub Challenged : Attempt → Type 0
Challenged a = (d : Datagram) × Received a d × IsChallenge d

pub Outcome-cases :
    (o : Outcome)
    → ((r : Option Error) × (o ≡ returns r)) ⊎ ((query : Packet) × (o ≡ continues query))
Outcome-cases (returns r) = inl (r, refl)
Outcome-cases (continues query) = inr (query, refl)

probe_attempts_iff :
    (first second : Attempt)
    → ((probe_attempts first second).0 ≡ none)
      ↔ (Informed first ⊎ (Challenged first × Informed second))
unfolding probe_attempts
probe_attempts_iff first second =
    let (informs, informed) = attempt-IsInfo_iff true first in
    elim (Outcome-cases (attempt_outcome true first)) [
      | inl (r, out) ↦ (
        λ h. inl (informs (cc (h, out))),
        λ ways. elim ways [
          | inl info ↦ cc (informed info)
          | inr ((d, received, challenge), later) ↦ absurd (
              cc (
                out,
                (attempt-is_malformed-IsChallenge_iff first (challenge_query d)).1
                    (d, received, challenge, refl),
              ))
        ],
      )
      | inr (query, out) ↦
          let (informs', informed') = attempt-IsInfo_iff false second in
          (
            λ h.
                let (d, received, challenge, e) =
                  (attempt-is_malformed-IsChallenge_iff first query).0 out in
                inr (
                  (d, received, challenge),
                  informs' (elim (Outcome-cases (attempt_outcome false second)) [
                    | inl (r, out') ↦ cc (h, out, out')
                    | inr (query', out') ↦ absurd (cc (h, out, out'))
                  ]),
                ),
            λ ways. elim ways [
              | inl info ↦ absurd (cc (out, informed info))
              | inr (challenged, info) ↦ cc (out, informed' info)
            ],
          )
    ]

-- A probe succeeds exactly if the context was alive, the dial and the deadline of the socket did not
-- fail, and either the first query was answered by a well-formed info response, or the first by a
-- challenge and the second by a well-formed info response.
pub a2s_probe_iff :
    (ctx dial deadline : Option Error) (first second : Attempt)
    → ((a2s_probe ctx dial deadline first second).0 ≡ none) ↔ (
        (ctx ≡ none)
        × (dial ≡ none)
        × (deadline ≡ none)
        × (Informed first ⊎ (Challenged first × Informed second)))
unfolding a2s_probe
a2s_probe_iff (some c) dial deadline first second =
    (λ h. absurd (cc h), λ (alive, dialled, set, ways). absurd (cc alive))
a2s_probe_iff none (some d) deadline first second =
    (λ h. absurd (cc h), λ (alive, dialled, set, ways). absurd (cc dialled))
a2s_probe_iff none none (some d) first second =
    (λ h. absurd (cc h), λ (alive, dialled, set, ways). absurd (cc set))
a2s_probe_iff none none none first second =
    let (sound, complete) = probe_attempts_iff first second in
    (λ h. (refl, refl, refl, sound h), λ (alive, dialled, set, ways). complete ways)
