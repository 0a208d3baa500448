-- ===== src/Store/Tests.antt =====
-- Witnesses for Store.
use game_server_snooze.Common.{
  ℕ, ◌*◌, ◌≡◌, refl, false, Option, some, [], ◌∷◌, arith, eq_iff, String, str_eq, Bool-cases, inl,
  inr, ◌⊎◌, subst, true,
}
use game_server_snooze.Common.Int.{pos}
use game_server_snooze.Session.{Session, Result, ok}
use game_server_snooze.Session.Lifecycle.{IsConsistent}
use game_server_snooze.Store.{Heap, Store, update, lookup, get, len, remove, expire_idle}
use game_server_snooze.Store.Order.{SameMap, order_irrelevant}
use game_server_snooze.Store.Laws.{IsValid, expire_idle_lem, remove_expected}

abbrev since : ℕ → Session
since t = record {
  client_addr = "192.0.2.7:40000";
  max_packet = pos 1200;
  last_activity = t;
  closed = false;
  close_once = false;
  socket_closed = false;
  done = false;
  upstream = [];
  replies = [];
}

-- The session at address p was active at 100 p.
abbrev memory : Heap
memory p = since (100 * p)

abbrev two : Store
two = record { max = pos 3; sessions = ("a", 1) ∷ ("b", 5) ∷ [] }

abbrev full : Store
full = record two { max = pos 2 }

abbrev dial : Heap → Result (Option ℕ) × Heap
dial heap = (ok (some 9), update heap 9 (since 900))

two-IsValid : IsValid two
unfolding len
two-IsValid = record { capacity = refl; distinct = ground arith }

expire_idle_lem_example :
    (((expire_idle 200 two memory).2 1).closed ≡ true)
    × (((expire_idle 200 two memory).2 1).done ≡ true)
expire_idle_lem_example = (expire_idle_lem 200 two memory two-IsValid).5 1 refl

memory-IsConsistent : (p : ℕ) → IsConsistent (memory p)
memory-IsConsistent p = record {
  once_closed = refl;
  socket_once = refl;
  done_closed = λ h. absurd (cc h);
}

remove_expected_example : ((remove "a" 1 two memory).2 1).closed ≡ true
unfolding get lookup
remove_expected_example =
    (remove_expected "a" 1 two memory two-IsValid refl (memory-IsConsistent 1)).4

abbrev turned : Store
turned = record { max = pos 3; sessions = ("b", 5) ∷ ("a", 1) ∷ [] }

turned-IsValid : IsValid turned
unfolding len
turned-IsValid = record { capacity = refl; distinct = ground arith }

turned_lem : SameMap two turned
unfolding get lookup
turned_lem = (refl, λ j. agree j (Bool-cases (str_eq "a" j)))
  where
    agree : (j : String) → (str_eq "a" j ≡ true) ⊎ (str_eq "a" j ≡ false) → get j two ≡ get j turned
    agree j (inl a) = subst (λ k. get k two ≡ get k turned) ((eq_iff "a" j).0 a) refl
    agree j (inr other) = ground (arith, other)

order_irrelevant_example : (remove "a" 1 two memory).0 ≡ (remove "a" 1 turned memory).0
order_irrelevant_example =
    (order_irrelevant two turned memory "a" dial 1 200 two-IsValid turned-IsValid turned_lem).2.0
