-- ===== src/Readiness/Tests.antt =====
-- Witnesses for Readiness.
use game_server_snooze.Common.{
  ◌≡◌, ◌↔◌, ◌⊎◌, refl, true, false, none, some, List, [], ◌∷◌, ◌++◌, Option,
}
use game_server_snooze.Errors.{Error, plain, net_error, backend_readiness_inconclusive}
use game_server_snooze.Session.{Packet, ok, err}
use game_server_snooze.Server.{offline, running}
use game_server_snooze.Readiness.{probe, Pass, wait_ready}
use game_server_snooze.Readiness.Probe.{
  IsDown, BecomesReady, probe-inconclusive_iff, wait_ready_iff,
}
use game_server_snooze.Readiness.A2s.{valid_a2s_info, is_byte, a2s_info_query, Attempt, a2s_probe}
use game_server_snooze.Readiness.A2s.Wait.{
  WaitPass, a2s_wait_ready, wait_passes, wait_outcome, wait_answer, wait_read_error, is_net_timeout,
}
use game_server_snooze.Readiness.A2s.Wait.Ready.{BecomesAnswered, a2s_wait_ready_iff}
use game_server_snooze.Readiness.A2s.Wait.Queries.{Converses, a2s_wait_ready_queries}
use game_server_snooze.Readiness.A2s.Exchange.{Informed, Challenged, a2s_probe_iff}
use game_server_snooze.Readiness.A2s.Format.{IsA2sInfo, valid_a2s_info_iff}

probe-inconclusive_iff_example :
    (backend_readiness_inconclusive (plain "Pterodactyl backend state is not running") ≡ false)
    ↔ ((◌≡◌ {A = Option Error} none none) × IsDown (ok offline))
unfolding probe
probe-inconclusive_iff_example =
    probe-inconclusive_iff none (ok offline) (plain "Pterodactyl backend state is not running") refl

abbrev passes : List Pass
passes =
    record { ctx = none; answer = err (plain "timeout"); ctx_after = none; retry = none }
    ∷ record { ctx = none; answer = ok running; ctx_after = none; retry = none }
    ∷ []

wait_ready_iff_example : (wait_ready passes ≡ some none) ↔ BecomesReady passes
wait_ready_iff_example = wait_ready_iff passes

-- Four empty strings, nine bytes and an empty version.
abbrev answer : Packet
answer =
    255 ∷ 255 ∷ 255 ∷ 255 ∷ 73 ∷ 17 ∷ 0 ∷ 0 ∷ 0 ∷ 0 ∷ 1 ∷ 2 ∷ 3 ∷ 4 ∷ 5 ∷ 6 ∷ 7 ∷ 8 ∷ 9 ∷ 0 ∷ []

valid_a2s_info_iff_example : (valid_a2s_info answer ≡ true) ↔ IsA2sInfo answer
valid_a2s_info_iff_example = valid_a2s_info_iff answer

abbrev challenged : Attempt
challenged = record {
  write = none;
  read = ok (record { bytes = 255 ∷ 255 ∷ 255 ∷ 255 ∷ 65 ∷ 1 ∷ 2 ∷ 3 ∷ 4 ∷ []; truncated = false });
  ctx = none;
}

abbrev informed : Attempt
informed = record {
  write = none;
  read = ok (record { bytes = answer; truncated = false });
  ctx = none;
}

a2s_probe_iff_example : ((a2s_probe none none none challenged informed).0 ≡ none) ↔ (
    (◌≡◌ {A = Option Error} none none)
    × (◌≡◌ {A = Option Error} none none)
    × (◌≡◌ {A = Option Error} none none)
    × (Informed challenged ⊎ (Challenged challenged × Informed informed)))
a2s_probe_iff_example = a2s_probe_iff none none none challenged informed

abbrev idle : WaitPass
idle = record {
  ctx = none;
  write = none;
  deadline = none;
  read = err (net_error true (plain "i/o timeout"));
  ctx_after = none;
  retry = none;
}

-- A timeout, a challenge, and an info response.
abbrev waits : List WaitPass
waits = idle ∷ record idle { read = challenged.read } ∷ record idle { read = informed.read } ∷ []

a2s_wait_ready_iff_example :
    ((a2s_wait_ready none waits).0 ≡ some none)
    ↔ ((◌≡◌ {A = Option Error} none none) × BecomesAnswered waits)
a2s_wait_ready_iff_example = a2s_wait_ready_iff none waits

a2s_wait_ready_queries_example :
    Converses waits (a2s_info_query ∷ a2s_info_query ∷ (a2s_info_query ++ 1 ∷ 2 ∷ 3 ∷ 4 ∷ []) ∷ [])
unfolding a2s_wait_ready wait_passes wait_outcome wait_answer wait_read_error is_net_timeout is_byte
    valid_a2s_info
a2s_wait_ready_queries_example = a2s_wait_ready_queries none waits
