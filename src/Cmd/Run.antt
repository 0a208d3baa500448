-- ===== src/Cmd/Run.antt =====
-- run of cmd/main.go: what it opens, how it waits for its two goroutines, and what it closes. What
-- the network, the goroutines and the clock answer are arguments.
pub mod Release
pub mod Verdict
pub mod Starts
use game_server_snooze.Common.{
  String, Bool, true, false, not, ◌||◌, Option, none, some, str_eq, if◌then◌else◌,
}
use game_server_snooze.Common.Int.{pos}
use game_server_snooze.Errors.{Error, plain, wrapped, joined, is_canceled, is_server_closed}
use game_server_snooze.Session.{Result, ok, err}
use game_server_snooze.Store.{Heap}
use game_server_snooze.Library.{Library, Address}
use game_server_snooze.Config.{Config}
use game_server_snooze.Config.Env.{Env}
use game_server_snooze.Config.Load.{File, LogLevel, load_config}
use game_server_snooze.Games.{PalworldGame}
use game_server_snooze.Proxy.{Proxy, new}
use game_server_snooze.Server.{PterodactylClient, new_pterodactyl_client}
use game_server_snooze.Health.{HealthState, set_ready}
use game_server_snooze.Cmd.{
  BackendReadiness, new_palworld_detector, new_backend_readiness, proxy_options_from_config,
}

pub data Socket : Type 0 where
  unopened listening closed_socket : Socket

-- What run holds: the UDP listener, the listener of the health server, the ready flag, and whether
-- the context of the goroutines is cancelled.
pub record Resources : Type 0 where
  pub listener : Socket
  pub health_listener : Socket
  pub health : HealthState
  pub context_canceled : Bool

abbrev pub initially : Resources
initially = record {
  listener = unopened;
  health_listener = unopened;
  health = record { is_ready = false };
  context_canceled = false;
}

-- The answers of net.ListenUDP and net.Listen.
pub record Network : Type 0 where
  pub listen_udp : Option Error
  pub listen_tcp : Option Error

-- The parts that run makes before it opens a socket.
pub record Parts : Type 0 where
  pub config : Config
  pub detector : PalworldGame
  pub controller : PterodactylClient
  pub listen_addr : Address
  pub backend_addr : Address
  pub readiness : BackendReadiness

unfoldable pub make_parts : Library → Result Config → Result Parts
make_parts library loaded = elim loaded [
  | err e ↦ err (wrapped "load config" e)
  | ok cfg ↦
      if not (str_eq cfg.game "palworld")
      then err (plain "unsupported game")
      else elim (new_palworld_detector library cfg) [
        | err e ↦ err (wrapped "configure Palworld detector" e)
        | ok detector ↦ elim (new_pterodactyl_client library cfg.pterodactyl (pos 0)) [
          | err e ↦ err (wrapped "configure Pterodactyl client" e)
          | ok controller ↦ elim (library.resolve_udp cfg.listen_addr) [
            | none ↦ err (plain "resolve UDP listener")
            | some listen_addr ↦ elim (library.resolve_udp cfg.server_addr) [
              | none ↦ err (plain "resolve Palworld backend")
              | some backend_addr ↦ elim (new_backend_readiness library cfg backend_addr true) [
                | err e ↦ err (wrapped "configure Palworld readiness" e)
                | ok readiness ↦ ok (record {
                  config = cfg;
                  detector = detector;
                  controller = controller;
                  listen_addr = listen_addr;
                  backend_addr = backend_addr;
                  readiness = readiness;
                })
              ]
            ]
          ]
        ]
      ]
]

-- The sockets and the proxy; the proxy is there if nothing failed.
unfoldable pub open_sockets : Network → Heap → Parts → Result Proxy × Resources
open_sockets network heap parts = elim network.listen_udp [
  | some e ↦ (err (wrapped "listen for Palworld UDP" e), initially)
  | none ↦
      let opened = record initially { listener = listening } in
      let failed = record initially { listener = closed_socket } in
      elim (new (proxy_options_from_config parts.config parts.readiness) heap) [
        | err e ↦ (err (wrapped "configure UDP proxy" e), failed)
        | ok proxy ↦ elim network.listen_tcp [
          | some e ↦ (err (wrapped "listen for health checks" e), failed)
          | none ↦ (ok proxy, record opened { health_listener = listening })
        ]
      ]
]

-- What the first select of run meets: the parent's context, or the result of a goroutine.
pub data First : Type 0 where
  parent_done : First
  proxy_ended health_ended : Option Error → First

-- What a later select meets: the result of the goroutine, or the end of the five seconds.
pub data Wait : Type 0 where
  arrives : Option Error → Wait
  times_out : Error → Wait

-- The answers from the start of the goroutines on.
pub record Course : Type 0 where
  pub first : First
  pub shutdown : Option Error
  pub proxy_wait : Wait
  pub health_wait : Wait

-- errors.Join of a result so far and another error; a join of one error has that error's text and
-- chain.
abbrev pub join : Option Error → Option Error → Option Error
join none b = b
join (some a) none = some a
join (some a) (some b) = some (joined a b)

unfoldable pub proxy_failure : String → Option Error → Option Error
proxy_failure message none = none
proxy_failure message (some e) = if is_canceled e then none else some (wrapped message e)

unfoldable pub health_failure : String → Option Error → Option Error
health_failure message none = none
health_failure message (some e) = if is_server_closed e then none else some (wrapped message e)

unfoldable pub first_result : First → Option Error
unfolding proxy_failure health_failure
first_result parent_done = none
first_result (proxy_ended result) = proxy_failure "serve UDP proxy" result
first_result (health_ended result) = health_failure "serve health endpoint" result

-- The wait for the proxy's goroutine, unless it ended already.
unfoldable pub await_proxy : First → Wait → Option Error
unfolding proxy_failure
await_proxy (proxy_ended result) wait = none
await_proxy _ (arrives result) = proxy_failure "shutdown UDP proxy" result
await_proxy _ (times_out e) = some (wrapped "shutdown UDP proxy" e)

unfoldable pub await_health : First → Wait → Option Error
unfolding health_failure
await_health (health_ended result) wait = none
await_health _ (arrives result) = health_failure "shutdown health endpoint" result
await_health _ (times_out e) = some (wrapped "wait for health endpoint shutdown" e)

abbrev pub wrap : String → Option Error → Option Error
wrap message none = none
wrap message (some e) = some (wrapped message e)

-- From the start of the goroutines on.
unfoldable pub supervise : Course → Resources → Option Error × Resources
unfolding first_result await_proxy await_health set_ready
supervise course r =
    let up = record r { health = set_ready true r.health } in
    let result = first_result course.first in
    let down = record up { health = set_ready false up.health; context_canceled = true } in
    let stopped = record down { health_listener = closed_socket } in
    let result₁ = join result (wrap "shutdown health endpoint" course.shutdown) in
    let closed = record stopped { listener = closed_socket } in
    let result₂ = join result₁ (await_proxy course.first course.proxy_wait) in
    (join result₂ (await_health course.first course.health_wait), closed)

unfoldable pub after_opening : Course → Result Proxy × Resources → Option Error × Resources
unfolding supervise
after_opening course (err e, r) = (some e, r)
after_opening course (ok proxy, r) = supervise course r

unfoldable pub after_making : Network → Heap → Course → Result Parts → Option Error × Resources
unfolding open_sockets after_opening
after_making network heap course (err e) = (some e, initially)
after_making network heap course (ok parts) = after_opening course (open_sockets network heap parts)

-- The log level that LoadConfig sets is not used here.
abbrev pub config_of : Result (Config × LogLevel) → Result Config
config_of (ok (cfg, level)) = ok cfg
config_of (err e) = err e

unfoldable pub run : Library → File → Env → Network → Heap → Course → Option Error × Resources
unfolding make_parts after_making load_config
run library file env network heap course =
    after_making network heap course (make_parts library (config_of (load_config library file env)))
