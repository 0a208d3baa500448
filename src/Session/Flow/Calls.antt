-- ===== src/Session/Flow/Calls.antt =====
-- That the calls of Session, as the proxy uses them in one piece, are runs of the steps of
-- Session/Flow.
use game_server_snooze.Common.{
  suc, List, length, ◌||◌, ◌==◌, ◌∙◌, if_split, ℕ, ◌≡◌, refl, sym, ap, subst, Bool, false, none, [],
  ◌∷◌, arith, Bool-cases, inl, inr, if◌then◌else◌, Option-cases, some, true,
}
use game_server_snooze.Session.{
  Packet, Session, Write, forward_client, try_expire, close_resources, expire, relay, reader_exit,
  ReaderEvent, read_error, datagram, sweep, read_backend,
}
use game_server_snooze.Session.Flow.{
  Flow, at_rest, Reach, here, next, forwards, sends, send_fails, expires, expires_socket, closes,
  start_forward, mark_expired, reads, relays, reader_returns, start_relay,
}

ends_at : {f g h : Flow} → Reach f g → g ≡ h → Reach f h
ends_at {f} run e = subst (Reach f) e run

-- ForwardClient of an open session after its `touch`, with what other goroutines do before its Write.
abbrev touched : ℕ → Session → Session
touched now s = record s { last_activity = now }

abbrev interrupted : ℕ → Write → Session → Session
interrupted now w s = if w.closed_meanwhile then close_resources (touched now s) else touched now s

abbrev in_flight : Packet → Session → Flow
in_flight bytes s = record { session = s; sending = bytes ∷ []; reading = none }

admitted-Reach :
    (now : ℕ) (bytes : Packet) (s : Session)
    → s.closed ≡ false
    → Reach (at_rest s) (in_flight bytes (touched now s))
unfolding start_forward
admitted-Reach now bytes s alive = ends_at (next here (forwards now bytes)) (ground (arith, alive))

interrupted-Reach :
    (now : ℕ) (w : Write) (bytes : Packet) (s : Session)
    → s.closed ≡ false
    → Reach (at_rest s) (in_flight bytes (interrupted now w s))
interrupted-Reach now w bytes s alive = elim (Bool-cases w.closed_meanwhile) [
  | inl closes' ↦ ends_at (next (admitted-Reach now bytes s alive) closes) (
      sym (
        ap
          (λ (c : Bool).
            in_flight bytes (if c then close_resources (touched now s) else touched now s))
          closes'))
  | inr nothing ↦ ends_at (admitted-Reach now bytes s alive) (
      sym (
        ap
          (λ (c : Bool).
            in_flight bytes (if c then close_resources (touched now s) else touched now s))
          nothing))
]

written-Reach :
    (now : ℕ) (w : Write) (bytes : Packet) (s : Session)
    → s.closed ≡ false
    → Reach (at_rest s) (at_rest (forward_client now w bytes s).1)
unfolding forward_client
written-Reach now w bytes s alive =
    let run = interrupted-Reach now w bytes s alive in
    elim (Option-cases w.failure) [
      | inl fine ↦ ends_at (next run (sends [] bytes [] refl)) (ground (arith, alive, fine))
      | inr (e, fails) ↦
          ends_at (next run (send_fails [] bytes [] refl)) (ground (arith, alive, fails))
    ]

-- ForwardClient, in one piece, is a run of the steps.
pub forward_client-Reach :
    (now : ℕ) (w : Write) (bytes : Packet) (s : Session)
    → Reach (at_rest s) (at_rest (forward_client now w bytes s).1)
unfolding forward_client
forward_client-Reach now w bytes s = elim (Bool-cases s.closed) [
  | inl closed ↦ ends_at here (ground (arith, closed))
  | inr alive ↦ written-Reach now w bytes s alive
]

-- TryExpire, in one piece, is a run of the steps.
pub try_expire-Reach :
    (cutoff : ℕ) (s : Session) → Reach (at_rest s) (at_rest (try_expire cutoff s).1)
unfolding try_expire mark_expired
try_expire-Reach cutoff s = elim (Bool-cases (try_expire cutoff s).0) [
  | inl expired ↦
      ends_at (next (next here (expires cutoff)) (expires_socket (ground (arith, expired))))
        (ground (arith, expired))
  | inr kept ↦ ends_at here (ground (arith, kept))
]

Reach-trans : {f g h : Flow} → Reach f g → Reach g h → Reach f h
Reach-trans a here = a
Reach-trans a (next b step) = next (Reach-trans a b) step

-- The reader between its `touch` and its WriteToUDP.
abbrev holding : Packet → Session → Flow
holding bytes s = record { session = s; sending = []; reading = some bytes }

abbrev overtaken : ℕ → Write → Session → Session
overtaken now w s = if w.closed_meanwhile then expire (touched now s) else touched now s

held-Reach :
    (now : ℕ) (bytes : Packet) (s : Session)
    → s.closed ≡ false
    → s.done ≡ false
    → Reach (at_rest s) (holding bytes (touched now s))
unfolding start_relay
held-Reach now bytes s alive runs =
    ends_at (next here (reads now bytes runs refl)) (ground (arith, alive))

expire-Reach :
    (now : ℕ) (bytes : Packet) (s : Session)
    → s.closed ≡ false
    → Reach (holding bytes (touched now s)) (holding bytes (expire (touched now s)))
unfolding mark_expired
expire-Reach now bytes s alive =
    ends_at (next (next here (expires (suc now))) (expires_socket (ground (arith, alive))))
      (ground (arith, alive))

overtaken-Reach :
    (now : ℕ) (w : Write) (bytes : Packet) (s : Session)
    → s.closed ≡ false
    → s.done ≡ false
    → Reach (at_rest s) (holding bytes (overtaken now w s))
overtaken-Reach now w bytes s alive runs =
    if_split (λ t. Reach (at_rest s) (holding bytes t)) w.closed_meanwhile (expire (touched now s))
      (touched now s)
      (λ _. Reach-trans (held-Reach now bytes s alive runs) (expire-Reach now bytes s alive))
      (λ _. held-Reach now bytes s alive runs)

-- A datagram that the reader takes: relayed, or the end of the reader.
relay-Reach :
    (now : ℕ) (w : Write) (bytes : Packet) (s : Session)
    → s.done ≡ false
    → let (goes_on, t) = relay bytes now w s in
      (goes_on ≡ true → Reach (at_rest s) (at_rest t) × (t.done ≡ false))
      × (goes_on ≡ false → Reach (at_rest s) (at_rest (reader_exit t)))
unfolding relay
relay-Reach now w bytes s runs = elim (Bool-cases s.closed) [
  | inl closed ↦ (
    λ h. absurd (ground (arith, closed, h)),
    λ h. ends_at (next here reader_returns) (ground (arith, closed)),
  )
  | inr alive ↦
      let run = overtaken-Reach now w bytes s alive runs in
      (
        λ h. (
          ends_at (next run (relays bytes refl)) (ground (arith, alive, h)),
          ground (arith, alive, h),
        ),
        λ h. ends_at (next run reader_returns) (ground (arith, alive, h)),
      )
]

try_expire-done : (cutoff : ℕ) (s : Session) → (try_expire cutoff s).1.done ≡ s.done
unfolding try_expire
try_expire-done cutoff s = ground arith

-- The reader, with what else happens between its reads, is a run of the steps.
pub read_backend-Reach :
    (s : Session) (events : List ReaderEvent)
    → s.done ≡ false
    → Reach (at_rest s) (at_rest (read_backend s events))
unfolding read_backend
read_backend-Reach s [] runs = here
read_backend-Reach s (read_error ∷ events) runs = next here reader_returns
read_backend-Reach s (sweep cutoff ∷ events) runs =
    Reach-trans (try_expire-Reach cutoff s)
      (read_backend-Reach (try_expire cutoff s).1 events (try_expire-done cutoff s ∙ runs))
read_backend-Reach s (datagram bytes truncated now w ∷ events) runs =
    let (goes_on, t) = relay bytes now w s in
    let (relayed', stopped) = relay-Reach now w bytes s runs in
    if_split (λ r. Reach (at_rest s) (at_rest r)) (length bytes == 0 || truncated)
      (read_backend s events) (if goes_on then read_backend t events else reader_exit t)
      (λ _. read_backend-Reach s events runs)
      (λ _.
        if_split (λ r. Reach (at_rest s) (at_rest r)) goes_on (read_backend t events)
          (reader_exit t)
          (λ h.
            let (run, still) = relayed' h in Reach-trans run (read_backend-Reach t events still))
          (λ h. stopped h))
