-- ===== src/Proxy/Startup/Flushes.antt =====
-- That ensureRunning of pkg/proxy/proxy.go sends what was queued once the backend runs.
use game_server_snooze.Common.{
  ℕ, Bool, ◌≡◌, ◌∙◌, ap, sym, true, false, none, some, List, [], ◌∷◌, ◌++◌, All, take,
}
use game_server_snooze.Session.{Write}
use game_server_snooze.Store.{Heap}
use game_server_snooze.Proxy.{Proxy}
use game_server_snooze.Proxy.Queue.{find_queue, or_empty}
use game_server_snooze.Proxy.Accounting.{IsUnique}
use game_server_snooze.Proxy.Delivery.{
  delivered, open_startup_gate-delivers, open_startup_gate-delivers_all,
}
use game_server_snooze.Proxy.Startup.{Round, ensure_running}
use game_server_snooze.Proxy.Startup.Gate.{IsVerified}
use game_server_snooze.Proxy.Startup.Opens.{
  IsTransient, ensure_running_opens, heap-open_startup_gate,
}

-- The loop gets there. If no shutdown began and each session has one queue, then after any number of
-- rounds that the loop survives, the first round in which the panel reports the server running and
-- the configured checks pass makes it return without an error, with the gate open, nothing queued any
-- more and the store as it was. Each session's upstream socket carried, after what it carried before,
-- the packets queued for it at the start, in order, up to the first write that fails; all of them, if
-- the session is open and its writes succeed.
pub ensure_running_flushes :
    (now : ℕ) (answers : ℕ → ℕ → Write) (start_sent : Bool) (before after : List Round)
    (round : Round) (p : Proxy)
    → p.shutting_down ≡ false
    → IsUnique p.queues
    → All IsTransient before
    → IsVerified p.options.has_readiness p.options.startup_settle_delay round
    → let result = ensure_running now answers start_sent (before ++ round ∷ after) p in
      let queued = λ (active : ℕ). (or_empty (find_queue active p.queues)).packets in
      (result.0 ≡ some none)
      × (result.1.backend_ready ≡ true)
      × (result.1.queues ≡ [])
      × (result.1.store ≡ p.store)
      × ((active : ℕ)
          → (result.1.heap active).upstream
            ≡ (p.heap active).upstream
              ++ take
                  (delivered now (answers active) 0 (queued active) (p.heap active))
                  (queued active))
      × ((active : ℕ)
          → (p.heap active).closed ≡ false
          → ((j : ℕ) → answers active j ≡ record { failure = none; closed_meanwhile = false })
          → (result.1.heap active).upstream ≡ (p.heap active).upstream ++ queued active)
ensure_running_flushes now answers start_sent before after round p up unique transient verified =
    let result = ensure_running now answers start_sent (before ++ round ∷ after) p in
    let (ended, opened, emptied, heap, store) =
      ensure_running_opens now answers start_sent before after round p up transient verified in
    let flushed = heap ∙ sym (heap-open_startup_gate now answers p up).1 in
    let at = λ (active : ℕ). ap (λ (h : Heap). (h active).upstream) flushed in
    (
      ended,
      opened,
      emptied,
      store,
      λ active. at active ∙ (open_startup_gate-delivers now answers p active up unique).0,
      λ active alive good.
          at active ∙ open_startup_gate-delivers_all now answers p active up unique alive good,
    )
