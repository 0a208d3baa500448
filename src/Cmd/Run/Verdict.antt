-- ===== src/Cmd/Run/Verdict.antt =====
-- When run succeeds (cmd/main.go).
use game_server_snooze.Common.{
  ap, sym, ◌∙◌, String, ◌≡◌, ◌↔◌, refl, true, Option, none, some, arith, Option-cases, inl, inr,
}
use game_server_snooze.Errors.{Error, is_canceled, is_server_closed}
use game_server_snooze.Session.{ok, Result-cases}
use game_server_snooze.Store.{Heap}
use game_server_snooze.Library.{Library}
use game_server_snooze.Config.Env.{Env}
use game_server_snooze.Config.Load.{File, load_config}
use game_server_snooze.Proxy.{Proxy, new}
use game_server_snooze.Cmd.{proxy_options_from_config}
use game_server_snooze.Cmd.Run.{
  Resources, initially, listening, Network, Parts, First, parent_done, proxy_ended, health_ended,
  Wait, arrives, times_out, Course, make_parts, config_of, open_sockets, supervise, run,
  after_opening, after_making, first_result, await_proxy, await_health, join, wrap, proxy_failure,
  health_failure,
}

-- The proxy's goroutine, or the health server's, ended as it does when it is told to.
abbrev pub IsProxyStop : Option Error → Type 0
IsProxyStop none = Unit
IsProxyStop (some e) = is_canceled e ≡ true

abbrev pub IsHealthStop : Option Error → Type 0
IsHealthStop none = Unit
IsHealthStop (some e) = is_server_closed e ≡ true

abbrev pub StartsEnding : First → Type 0
StartsEnding parent_done = Unit
StartsEnding (proxy_ended result) = IsProxyStop result
StartsEnding (health_ended result) = IsHealthStop result

abbrev pub ProxyEnds : First → Wait → Type 0
ProxyEnds (proxy_ended result) wait = Unit
ProxyEnds _ (arrives result) = IsProxyStop result
ProxyEnds _ (times_out e) = ⊥

abbrev pub HealthEnds : First → Wait → Type 0
HealthEnds (health_ended result) wait = Unit
HealthEnds _ (arrives result) = IsHealthStop result
HealthEnds _ (times_out e) = ⊥

-- The goroutines ended in time and as they were told, and the health server shut down.
abbrev pub IsOrderly : Course → Type 0
IsOrderly course =
    StartsEnding course.first
    × (course.shutdown ≡ none)
    × ProxyEnds course.first course.proxy_wait
    × HealthEnds course.first course.health_wait

join_iff : (a b : Option Error) → (join a b ≡ none) ↔ ((a ≡ none) × (b ≡ none))
join_iff none b = (λ h. (refl, h), λ (_, h). h)
join_iff (some e) none = (λ h. absurd (cc h), λ (h, _). absurd (cc h))
join_iff (some e) (some f) = (λ h. absurd (cc h), λ (h, _). absurd (cc h))

wrap_iff : (message : String) (a : Option Error) → (wrap message a ≡ none) ↔ (a ≡ none)
wrap_iff message none = (λ h. refl, λ h. refl)
wrap_iff message (some e) = (λ h. absurd (cc h), λ h. absurd (cc h))

proxy_failure_iff :
    (message : String) (a : Option Error) → (proxy_failure message a ≡ none) ↔ IsProxyStop a
unfolding proxy_failure
proxy_failure_iff message none = (λ h. tt, λ h. refl)
proxy_failure_iff message (some e) = (λ h. ground arith, λ h. ground arith)

health_failure_iff :
    (message : String) (a : Option Error) → (health_failure message a ≡ none) ↔ IsHealthStop a
unfolding health_failure
health_failure_iff message none = (λ h. tt, λ h. refl)
health_failure_iff message (some e) = (λ h. ground arith, λ h. ground arith)

first_result_iff : (first : First) → (first_result first ≡ none) ↔ StartsEnding first
unfolding first_result
first_result_iff parent_done = (λ h. tt, λ h. refl)
first_result_iff (proxy_ended result) = proxy_failure_iff "serve UDP proxy" result
first_result_iff (health_ended result) = health_failure_iff "serve health endpoint" result

await_proxy_iff :
    (first : First) (wait : Wait) → (await_proxy first wait ≡ none) ↔ ProxyEnds first wait
unfolding await_proxy
await_proxy_iff (proxy_ended result) wait = (λ h. tt, λ h. refl)
await_proxy_iff parent_done (arrives result) = proxy_failure_iff "shutdown UDP proxy" result
await_proxy_iff parent_done (times_out e) = (λ h. absurd (cc h), λ h. absurd h)
await_proxy_iff (health_ended _) (arrives result) = proxy_failure_iff "shutdown UDP proxy" result
await_proxy_iff (health_ended _) (times_out e) = (λ h. absurd (cc h), λ h. absurd h)

await_health_iff :
    (first : First) (wait : Wait) → (await_health first wait ≡ none) ↔ HealthEnds first wait
unfolding await_health
await_health_iff (health_ended result) wait = (λ h. tt, λ h. refl)
await_health_iff parent_done (arrives result) = health_failure_iff "shutdown health endpoint" result
await_health_iff parent_done (times_out e) = (λ h. absurd (cc h), λ h. absurd h)
await_health_iff (proxy_ended _) (arrives result) =
    health_failure_iff "shutdown health endpoint" result
await_health_iff (proxy_ended _) (times_out e) = (λ h. absurd (cc h), λ h. absurd h)

supervise_iff :
    (course : Course) (r : Resources) → ((supervise course r).0 ≡ none) ↔ IsOrderly course
unfolding supervise
supervise_iff course r =
    let first = first_result course.first in
    let stopped = wrap "shutdown health endpoint" course.shutdown in
    let waited = await_proxy course.first course.proxy_wait in
    let ended = await_health course.first course.health_wait in
    let outer = join_iff (join (join first stopped) waited) ended in
    let middle = join_iff (join first stopped) waited in
    let inner = join_iff first stopped in
    let shut = wrap_iff "shutdown health endpoint" course.shutdown in
    (
      λ h.
          let (h₁, e₁) = outer.0 h in
          let (h₂, e₂) = middle.0 h₁ in
          let (h₃, e₃) = inner.0 h₂ in
          (
            (first_result_iff course.first).0 h₃,
            shut.0 e₃,
            (await_proxy_iff course.first course.proxy_wait).0 e₂,
            (await_health_iff course.first course.health_wait).0 e₁,
          ),
      λ (starts, shutdown, proxy, health). outer.1 (
        middle.1 (
          inner.1 ((first_result_iff course.first).1 starts, shut.1 shutdown),
          (await_proxy_iff course.first course.proxy_wait).1 proxy,
        ),
        (await_health_iff course.first course.health_wait).1 health,
      ),
    )

abbrev all_open : Resources
all_open = record initially { listener = listening; health_listener = listening }

opened_iff :
    (network : Network) (heap : Heap) (course : Course) (parts : Parts)
    → ((after_opening course (open_sockets network heap parts)).0 ≡ none) ↔ (
        (proxy : Proxy) × (network.listen_udp ≡ none)
        × (new (proxy_options_from_config parts.config parts.readiness) heap ≡ ok proxy)
        × (network.listen_tcp ≡ none)
        × IsOrderly course)
unfolding open_sockets after_opening
opened_iff network heap course parts = elim (Option-cases network.listen_udp) [
  | inr (e, busy) ↦
      (λ h. absurd (cc (h, busy)), λ (proxy, udp, made, tcp, orderly). absurd (cc (udp, busy)))
  | inl udp ↦
      elim (Result-cases (new (proxy_options_from_config parts.config parts.readiness) heap)) [
        | inl (e, refused) ↦ (
          λ h. absurd (cc (h, udp, refused)),
          λ (proxy, udp', made, tcp, orderly). absurd (cc (made, refused)),
        )
        | inr (proxy, made) ↦ elim (Option-cases network.listen_tcp) [
          | inr (e, busy) ↦ (
            λ h. absurd (cc (h, udp, made, busy)),
            λ (proxy', udp', made', tcp, orderly). absurd (cc (tcp, busy)),
          )
          | inl tcp ↦
              let (orderly, ended) = supervise_iff course all_open in
              (
                λ h. (proxy, udp, made, tcp, orderly (cc (h, udp, made, tcp))),
                λ (proxy', udp', made', tcp', o). cc (udp, made, tcp, ended o),
              )
        ]
      ]
]

-- run returns nil exactly if every part could be made from the configuration, both sockets could be
-- opened, New accepted the options, and then the goroutines ended in time and only because they were
-- told to, or without an error, and the health server shut down without one.
pub run-none_iff :
    (library : Library) (file : File) (env : Env) (network : Network) (heap : Heap)
    (course : Course)
    → ((run library file env network heap course).0 ≡ none) ↔ (
        (parts : Parts) × (proxy : Proxy) × (make_parts library
            (config_of (load_config library file env))
          ≡ ok parts)
        × (network.listen_udp ≡ none)
        × (new (proxy_options_from_config parts.config parts.readiness) heap ≡ ok proxy)
        × (network.listen_tcp ≡ none)
        × IsOrderly course)
unfolding run after_making
run-none_iff library file env network heap course =
    elim (Result-cases (make_parts library (config_of (load_config library file env)))) [
      | inl (e, failed) ↦ (
        λ h. absurd (cc (h, failed)),
        λ (parts, proxy, made, udp, built, tcp, orderly). absurd (cc (made, failed)),
      )
      | inr (parts, made) ↦
          let (opens, opened) = opened_iff network heap course parts in
          (
            λ h.
                let (proxy, udp, built, tcp, orderly) = opens (cc (h, made)) in
                (parts, proxy, made, udp, built, tcp, orderly),
            λ (parts', proxy, made', udp, built, tcp, orderly).
                let e : parts' ≡ parts = cc (made', made) in
                let built' =
                  ap (λ (x : Parts). new (proxy_options_from_config x.config x.readiness) heap)
                    (sym e)
                  ∙ built in
                cc (made, opened (proxy, udp, built', tcp, orderly)),
          )
    ]
