-- ===== src/Lib.antt =====
-- Game Server Snooze: a UDP proxy that starts a game server when a player's datagram arrives and
-- stops it when the last session ends.
--
-- Parts, with their files here and in the repository:
--   Session       pkg/session/session.go: one client flow with its socket to the backend.
--   Store         pkg/session/store.go: the bounded map from client addresses to sessions.
--   Proxy         pkg/proxy/proxy.go: the proxy. Proxy.antt has Options, Proxy (the struct with the
--                 fields that its mutexes guard) and New; Proxy/Queue the startup queues
--                 (enqueueLocked, removeQueue, removeClosedQueues, the flush); Proxy/AutoStop the
--                 stop timer; Proxy/Startup startServer, ensureRunning and openStartupGate;
--                 Proxy/Ingress handleClientPacket, forwardOrQueue, the sweeper and shutdown;
--                 Proxy/Monitor runBackendHealthMonitor and closeBackendGate. Proxy/Accounting and
--                 Proxy/Invariant state the invariant, Proxy/Step the step relation, Proxy/Delivery
--                 and Proxy/Buffering what the gate delivers, Proxy/Wake what a datagram sets off,
--                 Proxy/Journey the way from a datagram to the backend and Proxy/Sleep the way from
--                 the last idle session to the stop request; Proxy/Serve is the loop of Serve and
--                 its deferred shutdown.
--   Games         pkg/games/palworld.go: which datagrams wake the server.
--   Readiness     pkg/readiness: the probe that asks the panel, and Readiness/A2s the A2S query, its
--                 parser, one probe, and the wait (Readiness/A2s/Wait).
--   Server        pkg/server/pterodactyl.go: the client of the panel's API, its requests and what it
--                 makes of the answers (Server/Calls).
--   Errors        the error chains of pkg/server, pkg/readiness and pkg/proxy and their predicates.
--   Config        pkg/config/config.go: defaults, validation, environment (Config/Env), and LoadConfig
--                 with the file, the log level and RedactedString (Config/Load).
--   Health        pkg/proxy/health.go: the ready flag and the health endpoint.
--   Cmd           cmd/main.go: what run builds from the configuration (Cmd.antt), and run itself with
--                 its sockets and goroutines (Cmd/Run), main (Cmd/Main); cmd/healthcheck.go:
--                 Cmd/HealthCheck.
--   Library       Go's standard library as far as the configuration and the detector call it.
--   Common        shared names, integers and lemmas on lists.
--
-- How they interact: the proxy keeps sessions in a store, the store keeps pointers into a heap of
-- sessions, both inside the proxy's state. The detector's verdict, the panel's and the probe's
-- answers, and what sockets answer to a write, are arguments of the proxy's operations, as Go calls
-- them through interfaces.
--
-- Concurrency: a function of the proxy is a function from state to state, with Go's early returns as
-- branches. Proxy/Step takes these functions as steps in any order, and, for those that take several
-- locks one after the other, the parts between the release of one lock and the next as well
-- (Proxy/Parts): the sweep, the watcher of a session, the end of a startup, the failure, the shutdown,
-- the admission of a datagram and the start section of Serve. Timers, startup goroutines and session
-- watchers are entries of lists of the state, and a step takes any of them, also a stopped timer,
-- since timer.Stop may come too late. Session/Flow does the same for one session and cuts between
-- `touch` and the socket call that follows it; Session/Flow/Calls derives ForwardClient, TryExpire
-- and readBackend in one piece from these steps.
--
-- Time is a natural number that each section reads once; durations and Go's int are unbounded
-- integers of Common/Int, while the uint64 generations of the proxy wrap around. Loops over
-- lists and queues are structural recursion; the polling loops of ensureRunning, WaitReady
-- and the health monitor are recursion on the list of rounds that they meet, and
-- theorems say which rounds end them.
--
-- Not modelled: logging, message texts, sockets, DNS and deadlines beyond their answers, wait groups
-- beyond what Proxy/Serve says of the deferred wait, the overflow of durations, the YAML decoder, the
-- HTTP server and client beyond the handler and their answers, and the signal
-- handler of main. Go walks a map in no fixed order; the lists here keep the order of insertion.
pub mod Common
pub mod Errors
pub mod Session
pub mod Store
pub mod Proxy
pub mod Library
pub mod Games
pub mod Config
pub mod Server
pub mod Readiness
pub mod Health
pub mod Cmd
