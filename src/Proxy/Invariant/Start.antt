-- ===== src/Proxy/Invariant/Start.antt =====
-- That the start section of Serve keeps the invariant (pkg/proxy/proxy.go).
use game_server_snooze.Common.{ℕ, ◌≡◌, Bool, true, false, not, [], arith, if_split}
use game_server_snooze.Session.{Result, ok, err}
use game_server_snooze.Server.{State, offline, starting, running, stopping}
use game_server_snooze.Proxy.{Proxy}
use game_server_snooze.Proxy.Ingress.{serve_start}
use game_server_snooze.Proxy.Invariant.{IsSound, start_server-IsSound}

backend_running-IsSound :
    (p : Proxy) (ready : Bool) (generation : ℕ)
    → IsSound p
    → p.queues ≡ []
    → p.shutting_down ≡ false
    → IsSound (record p {
      backend_running = true;
      backend_ready = ready;
      readiness_generation = generation;
    })
backend_running-IsSound p ready generation v empty up = ground arith

pub serve_start-IsSound :
    (now : ℕ) (status : Result State) (p : Proxy)
    → IsSound p
    → p.queues ≡ []
    → p.shutting_down ≡ false
    → IsSound (serve_start now status p)
unfolding serve_start
serve_start-IsSound now (err e) p v empty up = v
serve_start-IsSound now (ok offline) p v empty up = v
serve_start-IsSound now (ok starting) p v empty up = v
serve_start-IsSound now (ok stopping) p v empty up = v
serve_start-IsSound now (ok running) p v empty up =
    if_split IsSound p.options.has_readiness _ _
      (λ _. start_server-IsSound now _ (set (not p.options.has_readiness) _))
      (λ _. set (not p.options.has_readiness) _)
  where
    set :
        (ready : Bool) (generation : ℕ)
        → IsSound (record p {
          backend_running = true;
          backend_ready = ready;
          readiness_generation = generation;
        })
    set ready generation = backend_running-IsSound p ready generation v empty up
