-- ===== src/Proxy/Monitor/Confirmation.antt =====
-- When the health monitor of pkg/proxy/proxy.go closes the gate.
use game_server_snooze.Common.{
  ℕ, zero, suc, ◌+◌, ◌-◌, ◌<◌, ◌≡◌, ◌⊎◌, inl, inr, Bool-cases, refl, ap, ◌∙◌, Bool, true, false,
  not, ◌&&◌, ◌||◌, Option, none, some, List, [], ◌∷◌, arith,
}
use game_server_snooze.Errors.{Error, backend_readiness_inconclusive}
use game_server_snooze.Proxy.{Proxy}
use game_server_snooze.Proxy.Monitor.{BackendHealthFailures, reset, monitor_tick, run_monitor}

-- A recognised non-running answer of the panel: an error that is not inconclusive.
abbrev pub definite : Option Error → Bool
definite none = false
definite (some e) = not (backend_readiness_inconclusive e)

-- The first n results are definite failures.
abbrev pub starts_with_failures : ℕ → List (Option Error) → Bool
starts_with_failures zero results = true
starts_with_failures (suc n) [] = false
starts_with_failures (suc n) (result ∷ results) = definite result && starts_with_failures n results

-- Three results in a row are definite failures.
abbrev pub has_three_failures : List (Option Error) → Bool
has_three_failures [] = false
has_three_failures (result ∷ results) =
    starts_with_failures 3 (result ∷ results) || has_three_failures results

stays_closed :
    (results : List (Option Error)) (p : Proxy) (failures : BackendHealthFailures)
    → p.backend_ready ≡ false
    → (run_monitor results (p, failures)).0.backend_ready ≡ false
unfolding run_monitor monitor_tick
stays_closed [] p failures h = h
stays_closed (result ∷ results) p failures h = ground (
  arith,
  stays_closed results p failures h,
  stays_closed results p (record { generation = 0; count = 0 }) h,
)

absorbs :
    (results : List (Option Error))
    → (starts_with_failures 3 results || has_three_failures results) ≡ has_three_failures results
absorbs [] = refl
absorbs (result ∷ results) = ground arith

fewer_starts :
    (results : List (Option Error))
    → (starts_with_failures 2 results && starts_with_failures 1 results)
      ≡ starts_with_failures 2 results
fewer_starts [] = refl
fewer_starts (x ∷ []) = ground arith
fewer_starts (x ∷ y ∷ results) = ground arith

module _ (result : Option Error) (p : Proxy) (failures : BackendHealthFailures)
    (ready : p.backend_ready ≡ true) (live : p.canceled ≡ false) where
  tick_resets : definite result ≡ false → monitor_tick result (p, failures) ≡ (p, reset)
  unfolding monitor_tick
  tick_resets h = ground arith

  tick_counts :
      definite result ≡ true
      → failures.count < 2
      → (failures.count ≡ 0) ⊎ (failures.generation ≡ p.readiness_generation)
      → monitor_tick result (p, failures)
        ≡ (p, record { generation = p.readiness_generation; count = failures.count + 1 })
  unfolding monitor_tick
  tick_counts h few gen = ground arith

  tick_closes :
      definite result ≡ true
      → failures.count ≡ 2
      → failures.generation ≡ p.readiness_generation
      → (monitor_tick result (p, failures)).0.backend_ready ≡ false
  unfolding monitor_tick
  tick_closes h full gen = ground arith

abbrev Closes : List (Option Error) → Proxy → ℕ → ℕ → Type 0
Closes results p g c =
    (run_monitor results (p, record { generation = g; count = c })).0.backend_ready
    ≡ not (starts_with_failures (3 - c) results || has_three_failures results)

module _ (result : Option Error) (results : List (Option Error)) (p : Proxy)
    (ready : p.backend_ready ≡ true) (live : p.canceled ≡ false) where
  step_resets :
      (g c : ℕ)
      → definite result ≡ false
      → starts_with_failures (3 - c) (result ∷ results) ≡ false
      → Closes results p 0 0
      → Closes (result ∷ results) p g c
  unfolding run_monitor
  step_resets g c d none_yet ih =
      ap (λ s. (run_monitor results s).0.backend_ready)
        (tick_resets result p (record { generation = g; count = c }) ready live d)
      ∙ ground (arith, ih, absorbs results)

  step_counts :
      (g c : ℕ)
      → definite result ≡ true
      → c < 2
      → (c ≡ 0) ⊎ (g ≡ p.readiness_generation)
      → (starts_with_failures (3 - c) (result ∷ results)
          || (starts_with_failures 2 results || has_three_failures results))
        ≡ (starts_with_failures (3 - (c + 1)) results || has_three_failures results)
      → Closes results p p.readiness_generation (c + 1)
      → Closes (result ∷ results) p g c
  unfolding run_monitor
  step_counts g c d few gen shift ih =
      ap (λ s. (run_monitor results s).0.backend_ready)
        (tick_counts result p (record { generation = g; count = c }) ready live d few gen)
      ∙ ground (arith, ih, shift)

closes :
    (results : List (Option Error)) (p : Proxy) (g c : ℕ)
    → p.backend_ready ≡ true
    → p.canceled ≡ false
    → c < 3
    → (c ≡ 0) ⊎ (g ≡ p.readiness_generation)
    → Closes results p g c
unfolding run_monitor
closes [] p g zero ready live few gen = ready
closes [] p g (suc zero) ready live few gen = ready
closes [] p g (suc (suc zero)) ready live few gen = ready
closes [] p g (suc (suc (suc c))) ready live few gen = absurd (omega arith)
closes (result ∷ results) p g zero ready live few gen = elim (Bool-cases (definite result)) [
  | inl d ↦
      step_counts result results p ready live g 0 d (omega arith) gen (ground arith)
        (closes results p p.readiness_generation 1 ready live (omega arith) (inr refl))
  | inr d ↦
      step_resets result results p ready live g 0 d (ground arith)
        (closes results p 0 0 ready live (omega arith) (inl refl))
]
closes (result ∷ results) p g (suc zero) ready live few gen = elim (Bool-cases (definite result)) [
  | inl d ↦
      step_counts result results p ready live g 1 d (omega arith) gen
        (ground (arith, fewer_starts results))
        (closes results p p.readiness_generation 2 ready live (omega arith) (inr refl))
  | inr d ↦
      step_resets result results p ready live g 1 d (ground arith)
        (closes results p 0 0 ready live (omega arith) (inl refl))
]
closes (result ∷ results) p g (suc (suc zero)) ready live few gen =
    elim (Bool-cases (definite result)) [
      | inl d ↦ ground (
        arith,
        stays_closed results (monitor_tick result (p, record { generation = g; count = 2 })).0
            (monitor_tick result (p, record { generation = g; count = 2 })).1
            (tick_closes result p (record { generation = g; count = 2 }) ready live d refl
              (ground arith)),
      )
      | inr d ↦
          step_resets result results p ready live g 2 d (ground arith)
            (closes results p 0 0 ready live (omega arith) (inl refl))
    ]
closes (result ∷ results) p g (suc (suc (suc c))) ready live few gen = absurd (omega arith)

-- With an open gate and a context that is not cancelled, the monitor, whose failures so far are
-- counted for the present readiness generation, closes the gate during a sequence of probes exactly
-- if it begins with the failures missing to three, or has three definite failures in a row; a
-- success or an inconclusive error in between starts the count anew.
pub run_monitor-closes :
    (results : List (Option Error)) (p : Proxy) (failures : BackendHealthFailures)
    → p.backend_ready ≡ true
    → p.canceled ≡ false
    → failures.count < 3
    → (failures.count ≡ 0) ⊎ (failures.generation ≡ p.readiness_generation)
    → (run_monitor results (p, failures)).0.backend_ready
      ≡ not (starts_with_failures (3 - failures.count) results || has_three_failures results)
run_monitor-closes results p failures ready live few gen =
    closes results p failures.generation failures.count ready live few gen
