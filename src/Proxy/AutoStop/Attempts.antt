-- ===== src/Proxy/AutoStop/Attempts.antt =====
-- When the auto-stop of pkg/proxy/proxy.go asks the panel to stop the server, and how often.
use game_server_snooze.Common.{
  ℕ, ◌*◌, ◌≡◌, ◌≢◌, ◌↔◌, inl, inr, ap, length, Bool-cases, true, false, Option, none, some, List,
  [], ◌∷◌, arith,
}
use game_server_snooze.Common.Int.{pos}
use game_server_snooze.Errors.{Error}
use game_server_snooze.Store.{len}
use game_server_snooze.Proxy.{Proxy, stop_request, next_generation}
use game_server_snooze.Proxy.AutoStop.{
  attempt_is_due, after_stop_request, run_auto_stop_attempt, schedule_auto_stop,
}

not_own_tail {ℓ} : {A : Type ℓ} (x : A) (xs : List A) → xs ≢ x ∷ xs
not_own_tail x xs e = absurd (omega (arith, ap length e))

due_lem :
    (generation : ℕ) (p : Proxy)
    → (attempt_is_due generation p ≡ true)
      ↔ ((len p.store ≡ 0) × (generation ≡ p.stop_generation) × (p.backend_ready ≡ true))
unfolding attempt_is_due
due_lem generation p = ground arith

-- An attempt asks the panel to stop exactly if no session is open, the gate is open and nothing has
-- invalidated the timer's generation; otherwise it changes nothing at all.
pub run_auto_stop_attempt_iff :
    (generation attempt : ℕ) (answer : Option Error) (p : Proxy)
    → ((run_auto_stop_attempt generation attempt answer p).requests ≡ stop_request ∷ p.requests)
      ↔ ((len p.store ≡ 0) × (generation ≡ p.stop_generation) × (p.backend_ready ≡ true))
unfolding run_auto_stop_attempt after_stop_request
run_auto_stop_attempt_iff generation attempt answer p =
    elim (Bool-cases (attempt_is_due generation p)) [
      | inl due ↦ ground (arith, due_lem generation p)
      | inr idle ↦ ground (arith, due_lem generation p, not_own_tail stop_request p.requests)
    ]

-- The attempt of the pending timer, with the panel's answer.
abbrev pub fire : Option Error → Proxy → Proxy
fire answer p = elim p.stop_timer [
  | none ↦ p
  | some timer ↦ run_auto_stop_attempt timer.generation timer.attempt answer p
]

abbrev pub fire_each : List (Option Error) → Proxy → Proxy
fire_each [] p = p
fire_each (answer ∷ answers) p = fire_each answers (fire answer p)

-- While the panel refuses, an idle proxy with the gate open asks three times, the second and third
-- time after the retry delay and after twice that delay, and then gives up.
pub auto_stop_gives_up :
    (e₁ e₂ e₃ : Error) (p : Proxy) (d : ℕ)
    → p.shutting_down ≡ false
    → p.backend_ready ≡ true
    → len p.store ≡ 0
    → p.options.auto_stop_retry_delay ≡ pos d
    → let q = fire_each (some e₁ ∷ some e₂ ∷ some e₃ ∷ []) (schedule_auto_stop p) in
      let g = next_generation p.stop_generation in
      (q.requests ≡ stop_request ∷ stop_request ∷ stop_request ∷ p.requests)
      × (q.stop_timer ≡ none)
      × (q.scheduled
          ≡ record { generation = g; attempt = 3; delay = pos (d * 2) }
            ∷ record { generation = g; attempt = 2; delay = pos (d * 1) }
            ∷ record { generation = g; attempt = 1; delay = p.options.auto_stop_delay }
            ∷ p.scheduled)
unfolding schedule_auto_stop run_auto_stop_attempt attempt_is_due after_stop_request
auto_stop_gives_up e₁ e₂ e₃ p d up ready empty delay = ground arith
