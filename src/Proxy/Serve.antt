-- ===== src/Proxy/Serve.antt =====
-- Serve of pkg/proxy/proxy.go: the loop that reads datagrams, with the other goroutines' steps
-- between its own, and the deferred shutdown.
pub mod Shut
pub mod Steps
pub mod Drain
use game_server_snooze.Common.{
  ◌≡◌, Bool, true, false, ◌||◌, Option, none, some, is_some, if◌then◌else◌,
}
use game_server_snooze.Errors.{Error, wrapped, is_net_closed}
use game_server_snooze.Proxy.{Proxy}
use game_server_snooze.Proxy.Ingress.{Arrival, handle_client_packet, shutdown}
use game_server_snooze.Proxy.Step.{Step}

-- What ReadMsgUDP answers: a datagram, with the flag MSG_TRUNC, or an error, with serveCtx.Err() at
-- the test after it and ctx.Err() at the return.
pub data ReadEvent : Type 0 where
  received : Arrival → Bool → ReadEvent
  read_fails : Error → Option Error → Option Error → ReadEvent

pub data Reception : Type 0 where
  continues : Proxy → Reception
  returns : Option Error → Reception

-- One pass of the loop.
unfoldable pub receive : ReadEvent → Proxy → Reception
receive (received a truncated) proxy =
    if truncated then continues proxy else continues (handle_client_packet a proxy)
receive (read_fails e serve_ctx ctx) proxy =
    if is_some serve_ctx || is_net_closed e
    then returns ctx
    else returns (some (wrapped "read public UDP packet" e))

-- The deferred function: cancel and shutdown.
unfoldable pub leave : Proxy → Proxy
leave proxy = shutdown (record proxy { canceled = true })

-- A run of the loop to its return, with the state and the error that it leaves.
pub data Serves (result : Option Error) : Proxy → Proxy → Type 0 where
  interleaves : {p q r : Proxy} → Step p q → Serves result q r → Serves result p r
  reads_on :
      {p q r : Proxy} (event : ReadEvent)
      → receive event p ≡ continues q
      → Serves result q r
      → Serves result p r
  stops :
      {p : Proxy} (event : ReadEvent) → receive event p ≡ returns result → Serves result p (leave p)
