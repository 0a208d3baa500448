-- ===== src/Errors.antt =====
-- Go errors as values: the chains that errors.Is and errors.As walk, and the predicates that the
-- program defines on them (pkg/server/pterodactyl.go, pkg/readiness/pterodactyl.go,
-- pkg/proxy/proxy.go). `Option Error` is Go's `error`; none is nil.
pub mod Laws
use game_server_snooze.Common.{
  ℕ, String, Bool, true, false, ◌&&◌, ◌||◌, Option, none, some, ltb, leb, ◌==◌, not, is_some,
  if◌then◌else◌,
}

pub data Error : Type 0 where
  -- fmt.Errorf without %w, errors.New
  plain : String → Error
  -- fmt.Errorf with %w
  wrapped : String → Error → Error
  -- errors.Join of two errors
  joined : Error → Error → Error
  -- context.Canceled and context.DeadlineExceeded
  canceled deadline_exceeded : Error
  -- net.ErrClosed and http.ErrServerClosed
  net_closed server_closed : Error
  -- an error of package net or net/http, a net.Error whose Timeout() is the flag
  net_error : Bool → Error → Error
  -- pkg/session
  session_closed session_capacity : Error
  -- pkg/server: permanentError and redactedError
  permanent_error : Error → Error
  redacted_error : Error → String → Error
  -- pkg/readiness: inconclusiveReadinessError
  inconclusive_readiness_error : Error → Error

abbrev or_else {ℓ} : {A : Type ℓ} → Option A → Option A → Option A
or_else none y = y
or_else (some x) y = some x

abbrev holds : Option Bool → Bool
holds none = false
holds (some b) = b

-- The answer of the first error in the chain with a method Permanent(): errors.As and its call.
unfoldable pub as_permanent : Error → Option Bool
as_permanent (plain m) = none
as_permanent (wrapped m e) = as_permanent e
as_permanent (joined a b) = or_else (as_permanent a) (as_permanent b)
as_permanent canceled = none
as_permanent net_closed = none
as_permanent server_closed = none
as_permanent deadline_exceeded = none
as_permanent (net_error t e) = as_permanent e
as_permanent session_closed = none
as_permanent session_capacity = none
as_permanent (permanent_error e) = some true
as_permanent (redacted_error e m) = as_permanent e
as_permanent (inconclusive_readiness_error e) = some (holds (as_permanent e))

unfoldable pub is_permanent : Error → Bool
unfolding as_permanent
is_permanent e = holds (as_permanent e)

unfoldable pub mark_permanent : Option Error → Option Error
mark_permanent none = none
mark_permanent (some e) = some (permanent_error e)

-- errors.Is(err, context.DeadlineExceeded).
unfoldable pub is_deadline_exceeded : Error → Bool
is_deadline_exceeded deadline_exceeded = true
is_deadline_exceeded (wrapped m e) = is_deadline_exceeded e
is_deadline_exceeded (joined a b) = is_deadline_exceeded a || is_deadline_exceeded b
is_deadline_exceeded (net_error t e) = is_deadline_exceeded e
is_deadline_exceeded (permanent_error e) = is_deadline_exceeded e
is_deadline_exceeded (redacted_error e m) = is_deadline_exceeded e
is_deadline_exceeded (inconclusive_readiness_error e) = is_deadline_exceeded e
is_deadline_exceeded _ = false

-- errors.Is(err, context.Canceled).
unfoldable pub is_canceled : Error → Bool
is_canceled canceled = true
is_canceled (wrapped m e) = is_canceled e
is_canceled (joined a b) = is_canceled a || is_canceled b
is_canceled (net_error t e) = is_canceled e
is_canceled (permanent_error e) = is_canceled e
is_canceled (redacted_error e m) = is_canceled e
is_canceled (inconclusive_readiness_error e) = is_canceled e
is_canceled _ = false

-- errors.Is(err, http.ErrServerClosed).
unfoldable pub is_server_closed : Error → Bool
is_server_closed server_closed = true
is_server_closed (wrapped m e) = is_server_closed e
is_server_closed (joined a b) = is_server_closed a || is_server_closed b
is_server_closed (net_error t e) = is_server_closed e
is_server_closed (permanent_error e) = is_server_closed e
is_server_closed (redacted_error e m) = is_server_closed e
is_server_closed (inconclusive_readiness_error e) = is_server_closed e
is_server_closed _ = false

-- errors.Is(err, net.ErrClosed).
unfoldable pub is_net_closed : Error → Bool
is_net_closed net_closed = true
is_net_closed (wrapped m e) = is_net_closed e
is_net_closed (joined a b) = is_net_closed a || is_net_closed b
is_net_closed (net_error t e) = is_net_closed e
is_net_closed (permanent_error e) = is_net_closed e
is_net_closed (redacted_error e m) = is_net_closed e
is_net_closed (inconclusive_readiness_error e) = is_net_closed e
is_net_closed _ = false

-- Timeout() of the first net.Error of the chain; context.DeadlineExceeded is one too.
unfoldable pub as_timeout : Error → Option Bool
as_timeout deadline_exceeded = some true
as_timeout (wrapped m e) = as_timeout e
as_timeout (joined a b) = or_else (as_timeout a) (as_timeout b)
as_timeout (net_error t e) = some t
as_timeout (permanent_error e) = as_timeout e
as_timeout (redacted_error e m) = as_timeout e
as_timeout (inconclusive_readiness_error e) = as_timeout e
as_timeout _ = none

pub data FailureClass : Type 0 where
  timeout cancellation probe_failure : FailureClass

unfoldable pub backend_health_failure_class : Error → FailureClass
unfolding is_deadline_exceeded is_canceled as_timeout
backend_health_failure_class e =
    if is_deadline_exceeded e
    then timeout
    else if is_canceled e
    then cancellation
    else if holds (as_timeout e)
    then timeout
    else probe_failure

unfoldable pub backend_readiness_inconclusive : Error → Bool
backend_readiness_inconclusive (wrapped m e) = backend_readiness_inconclusive e
backend_readiness_inconclusive (joined a b) =
    backend_readiness_inconclusive a || backend_readiness_inconclusive b
backend_readiness_inconclusive (net_error t e) = backend_readiness_inconclusive e
backend_readiness_inconclusive (permanent_error e) = backend_readiness_inconclusive e
backend_readiness_inconclusive (redacted_error e m) = backend_readiness_inconclusive e
backend_readiness_inconclusive (inconclusive_readiness_error e) = true
backend_readiness_inconclusive _ = false

unfoldable pub classify_http_error : ℕ → Error → Error
classify_http_error status_code e =
    if leb 400 status_code
      && ltb status_code 500
      && not (status_code == 408)
      && not (status_code == 429)
    then permanent_error e
    else e
