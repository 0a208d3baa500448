-- ===== src/Cmd/Run/Release.antt =====
-- What run leaves open when it returns (cmd/main.go).
use game_server_snooze.Common.{◌≡◌, ◌≢◌, refl, true, false, arith}
use game_server_snooze.Errors.{Error}
use game_server_snooze.Session.{Result, ok, err}
use game_server_snooze.Store.{Heap}
use game_server_snooze.Library.{Library}
use game_server_snooze.Config.Env.{Env}
use game_server_snooze.Config.Load.{File, load_config}
use game_server_snooze.Proxy.{Proxy}
use game_server_snooze.Cmd.Run.{
  listening, closed_socket, Resources, Network, Parts, Course, open_sockets, supervise, run,
  make_parts, config_of, after_opening, after_making,
}

-- No socket listens, the process does not report ready, and the goroutines, which the health
-- listener was opened for, are told to stop.
pub record IsReleased (r : Resources) : Type 0 where
  pub listener : r.listener ≢ listening
  pub health_listener : r.health_listener ≢ listening
  pub unready : r.health.is_ready ≡ false
  pub stopped : r.health_listener ≡ closed_socket → r.context_canceled ≡ true

supervise-IsReleased : (course : Course) (r : Resources) → IsReleased (supervise course r).1
unfolding supervise
supervise-IsReleased course r = ground arith

open_sockets-IsReleased :
    (network : Network) (heap : Heap) (parts : Parts) (e : Error)
    → (open_sockets network heap parts).0 ≡ err e
    → IsReleased (open_sockets network heap parts).1
unfolding open_sockets
open_sockets-IsReleased network heap parts e h = ground arith

after_opening-IsReleased :
    (course : Course) (opened : Result Proxy × Resources)
    → ((e : Error) → opened.0 ≡ err e → IsReleased opened.1)
    → IsReleased (after_opening course opened).1
unfolding after_opening
after_opening-IsReleased course (ok proxy, r) failed = supervise-IsReleased course r
after_opening-IsReleased course (err e, r) failed = failed e refl

after_making-IsReleased :
    (network : Network) (heap : Heap) (course : Course) (made : Result Parts)
    → IsReleased (after_making network heap course made).1
unfolding after_making
after_making-IsReleased network heap course (ok parts) =
    after_opening-IsReleased course (open_sockets network heap parts)
      (open_sockets-IsReleased network heap parts)
after_making-IsReleased network heap course (err e) = ground arith

-- However run ends, in an error before the sockets are open, between them, or after its goroutines,
-- it leaves no socket listening and the ready flag down, and where it started the goroutines it has
-- cancelled their context.
pub run-IsReleased :
    (library : Library) (file : File) (env : Env) (network : Network) (heap : Heap)
    (course : Course)
    → IsReleased (run library file env network heap course).1
unfolding run
run-IsReleased library file env network heap course =
    after_making-IsReleased network heap course
      (make_parts library (config_of (load_config library file env)))
