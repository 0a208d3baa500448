-- ===== src/Proxy/Sleep.antt =====
-- From the last idle session to the stop request, through pkg/proxy/proxy.go.
use game_server_snooze.Common.{
  ℕ, ◌<◌, ◌≡◌, ◌≢◌, ◌∙◌, refl, sym, ap, subst, true, false, none, some, [], ◌∷◌, arith, length,
  if◌then◌else◌, ltb, ◌==◌, ◌&&◌,
}
use game_server_snooze.Store.{Heap, Entries, Store, len}
use game_server_snooze.Store.Laws.{expire_idle_lem}
use game_server_snooze.Store.Sweep.{survivors}
use game_server_snooze.Proxy.{Proxy, Timer, stop_request, next_generation, time_before}
use game_server_snooze.Proxy.Queue.{refresh_pending_sessions, refresh_each, remove_closed_queues}
use game_server_snooze.Proxy.AutoStop.{
  schedule_auto_stop, attempt_is_due, after_stop_request, run_auto_stop_attempt,
}
use game_server_snooze.Proxy.Ingress.{expire_sessions, expire_idle_sessions}
use game_server_snooze.Proxy.Invariant.{IsSound}

-- Every session of the entries is open and was last active before the cutoff.
abbrev pub AreIdle : ℕ → Heap → Entries → Type 0
AreIdle cutoff heap [] = Unit {0}
AreIdle cutoff heap ((key, p) ∷ entries) =
    ((heap p).closed ≡ false) × ((heap p).last_activity < cutoff) × AreIdle cutoff heap entries

survivors-AreIdle :
    (cutoff : ℕ) (heap : Heap) (entries : Entries)
    → AreIdle cutoff heap entries
    → survivors cutoff heap entries ≡ []
survivors-AreIdle cutoff heap [] h = refl
survivors-AreIdle cutoff heap ((key, p) ∷ entries) (alive, old, h) =
    ground (arith, survivors-AreIdle cutoff heap entries h)

refresh_nothing : (clock : ℕ) (p : Proxy) → p.queues ≡ [] → refresh_pending_sessions clock p ≡ p
unfolding refresh_pending_sessions refresh_each
refresh_nothing clock p empty = ap (λ qs. record p { heap = refresh_each clock qs p.heap }) empty

-- What a tick leaves that expires every session.
abbrev IsEmptied : Proxy → (ℕ × ℕ) × Proxy → Type 0
IsEmptied p r =
    (r.0 ≡ (len p.store, 0))
    × (r.1.store.sessions ≡ [])
    × (r.1.backend_ready ≡ p.backend_ready)
    × (r.1.shutting_down ≡ p.shutting_down)
    × (r.1.stop_generation ≡ p.stop_generation)
    × (r.1.options ≡ p.options)
    × (r.1.requests ≡ p.requests)

IsEmptied-expire_sessions :
    (cutoff : ℕ) (p : Proxy)
    → IsSound p
    → AreIdle cutoff p.heap p.store.sessions
    → IsEmptied p (expire_sessions cutoff p)
unfolding expire_sessions remove_closed_queues len
IsEmptied-expire_sessions cutoff p v h =
    let (kept, gone, left, all, _, _) = expire_idle_lem cutoff p.store p.heap v.valid in
    let none_left = survivors-AreIdle cutoff p.heap p.store.sessions h in
    ground (arith, kept, gone, left, all, none_left)

-- The stop timer that the first attempt of a new generation waits for.
abbrev first_timer : Proxy → Timer
first_timer p = record {
  generation = next_generation p.stop_generation;
  attempt = 1;
  delay = p.options.auto_stop_delay;
}

abbrev IsScheduled : Proxy → Proxy → Type 0
IsScheduled p q =
    (q.stop_timer ≡ some (first_timer p))
    × (q.stop_generation ≡ next_generation p.stop_generation)
    × (q.store ≡ p.store)
    × (q.requests ≡ p.requests)
    × (q.backend_ready ≡ true)

schedule_auto_stop-first_timer :
    (p : Proxy)
    → p.backend_ready ≡ true
    → p.shutting_down ≡ false
    → IsScheduled p (schedule_auto_stop p)
unfolding schedule_auto_stop
schedule_auto_stop-first_timer p ready up = ground arith

expire_idle_sessions-schedules :
    (now clock : ℕ) (p : Proxy)
    → p.queues ≡ []
    → len p.store ≢ 0
    → let swept = expire_sessions (time_before now p.options.idle_timeout) p in
      swept.0 ≡ (len p.store, 0) → expire_idle_sessions now clock p ≡ schedule_auto_stop swept.1
unfolding expire_idle_sessions
expire_idle_sessions-schedules now clock p empty some_sessions h =
    let cutoff = time_before now p.options.idle_timeout in
    let swept = expire_sessions cutoff p in
    subst
      (λ (r : Proxy).
        (let (expiry, p₁) = expire_sessions cutoff r in
          if ltb 0 expiry.0 && expiry.1 == 0 then schedule_auto_stop p₁ else p₁)
        ≡ schedule_auto_stop swept.1)
      (sym (refresh_nothing clock p empty)) (ground (arith, h))

run_auto_stop_attempt-first :
    (generation : ℕ) (q : Proxy)
    → len q.store ≡ 0
    → q.stop_generation ≡ generation
    → q.backend_ready ≡ true
    → let r = run_auto_stop_attempt generation 1 none q in
      (r.requests ≡ stop_request ∷ q.requests)
      × (r.backend_ready ≡ false)
      × (r.backend_running ≡ false)
unfolding run_auto_stop_attempt attempt_is_due after_stop_request
run_auto_stop_attempt-first generation q empty current ready = ground arith

-- The way back to sleep: the gate is open, no shutdown has begun, there are sessions, and all of them
-- are open and have been idle for longer than the idle timeout. The sweeper's next tick empties the
-- store and sets the stop timer to the configured delay; when it fires, with nothing in between, it
-- asks the panel to stop the server, and once the panel accepts, the gate is closed and the server is
-- not taken to run any more.
pub sleeps :
    (now clock : ℕ) (p : Proxy)
    → IsSound p
    → p.backend_ready ≡ true
    → p.shutting_down ≡ false
    → len p.store ≢ 0
    → AreIdle (time_before now p.options.idle_timeout) p.heap p.store.sessions
    → let q = expire_idle_sessions now clock p in
      let r = run_auto_stop_attempt (next_generation p.stop_generation) 1 none q in
      (q.store.sessions ≡ [])
      × (q.stop_timer
          ≡ some (record {
            generation = next_generation p.stop_generation;
            attempt = 1;
            delay = p.options.auto_stop_delay;
          }))
      × (r.requests ≡ stop_request ∷ p.requests)
      × (r.backend_ready ≡ false)
      × (r.backend_running ≡ false)
unfolding len
sleeps now clock p v ready up some_sessions idle' =
    let cutoff = time_before now p.options.idle_timeout in
    let p₁ = (expire_sessions cutoff p).1 in
    let (swept, empty, ready₁, up₁, generation₁, options₁, requests₁) =
      IsEmptied-expire_sessions cutoff p v idle' in
    let q = expire_idle_sessions now clock p in
    let e : q ≡ schedule_auto_stop p₁ =
      expire_idle_sessions-schedules now clock p (v.gated ready) some_sessions swept in
    let (timer, generation, store, requests, ready') =
      subst (λ (x : Proxy). IsScheduled p₁ x) (sym e)
        (schedule_auto_stop-first_timer p₁ (ready₁ ∙ ready) (up₁ ∙ up)) in
    let sessions : q.store.sessions ≡ [] = ap (λ (x : Store). x.sessions) store ∙ empty in
    let (asked, closed, down) =
      run_auto_stop_attempt-first (next_generation p.stop_generation) q
        (ap (λ (es : Entries). length es) sessions) (generation ∙ ap next_generation generation₁)
        ready' in
    (sessions, timer ∙ cc (generation₁, options₁), asked ∙ cc (requests, requests₁), closed, down)
