-- ===== src/Proxy/Serve/Steps.antt =====
-- The loop of Serve (pkg/proxy/proxy.go) against the transition system of Proxy/Step.antt.
use game_server_snooze.Common.{
  List, [], ◌∷◌, ◌≡◌, Bool, true, false, Option, arith, length, ◌==◌, if◌then◌else◌, subst,
  if_split, option_split,
}
use game_server_snooze.Errors.{Error}
use game_server_snooze.Store.{get}
use game_server_snooze.Proxy.{Proxy}
use game_server_snooze.Proxy.Ingress.{
  SweeperEvent, ticks, context_done, run_sweeper, expire_idle_sessions, Arrival,
  handle_client_packet, forward_existing, admit, forward_or_queue,
}
use game_server_snooze.Proxy.Step.{sweeps, Reach, here, next, forwards, admits, cancels, shuts_down}
use game_server_snooze.Proxy.Serve.{
  ReadEvent, received, read_fails, continues, receive, leave, Serves, interleaves, reads_on, stops,
}

pub Reach-trans : {p q r : Proxy} → Reach p q → Reach q r → Reach p r
Reach-trans a here = a
Reach-trans a (next b step) = next (Reach-trans a b) step

pub handle_client_packet-Reach : (a : Arrival) (p : Proxy) → Reach p (handle_client_packet a p)
unfolding handle_client_packet forward_existing
handle_client_packet-Reach a p =
    if_split (Reach p) (length a.packet == 0) p
      (let (taken, p₁) = forward_existing a p in if taken then p₁ else admit a p₁) (λ _. here)
      (λ _.
        if_split (Reach p) (forward_existing a p).0 (forward_existing a p).1
          (admit a (forward_existing a p).1) (λ _. looked_up) (λ _. next looked_up (admits a)))
  where
    looked_up : Reach p (forward_existing a p).1
    looked_up =
        option_split (λ (r : Bool × Proxy). Reach p r.1) (get a.key p.store) (false, p)
          (λ existing. forward_or_queue a.now a.first_write existing a.packet p) (λ _. here)
          (λ existing _. next here (forwards a.now a.first_write existing a.packet))

receive-Reach : (event : ReadEvent) (p q : Proxy) → receive event p ≡ continues q → Reach p q
unfolding receive
receive-Reach (received a true) p q h = subst (Reach p) (ground arith) here
receive-Reach (received a false) p q h =
    subst (Reach p) (ground arith) (handle_client_packet-Reach a p)
receive-Reach (read_fails e serve_ctx ctx) p q h = absurd (ground arith)

leave-Reach : (p : Proxy) → Reach p (leave p)
unfolding leave
leave-Reach p = next (next here cancels) shuts_down

-- A run of the loop of Serve is a sequence of the steps, so that what holds of Reach holds of it.
pub Serves-Reach : {result : Option Error} {p q : Proxy} → Serves result p q → Reach p q
Serves-Reach (interleaves step run) = Reach-trans (next here step) (Serves-Reach run)
Serves-Reach {p = p} (reads_on event h run) =
    Reach-trans (receive-Reach event p _ h) (Serves-Reach run)
Serves-Reach {p = p} (stops event h) = leave-Reach p

-- The sweeper takes steps only.
pub run_sweeper-Reach : (events : List SweeperEvent) (p : Proxy) → Reach p (run_sweeper events p)
unfolding run_sweeper
run_sweeper-Reach [] p = here
run_sweeper-Reach (context_done ∷ events) p = here
run_sweeper-Reach (ticks now clock ∷ events) p =
    Reach-trans (next here (sweeps now clock))
      (run_sweeper-Reach events (expire_idle_sessions now clock p))
