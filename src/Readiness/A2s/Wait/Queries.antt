-- ===== src/Readiness/A2s/Wait/Queries.antt =====
-- What the wait for an A2S answer of pkg/readiness/a2s.go writes.
use game_server_snooze.Common.{
  ◌≡◌, ◌⊎◌, inl, inr, refl, sym, subst, Option, none, some, List, [], ◌∷◌, arith, Option-cases,
}
use game_server_snooze.Errors.{Error}
use game_server_snooze.Session.{Packet}
use game_server_snooze.Readiness.A2s.{a2s_info_query}
use game_server_snooze.Readiness.A2s.Exchange.{Outcome-cases}
use game_server_snooze.Readiness.A2s.Wait.{WaitPass, wait_outcome, wait_passes, a2s_wait_ready}
use game_server_snooze.Readiness.A2s.Wait.Ready.{MayFollow, wait_continues}

-- The queries follow the passes.
abbrev pub AreQueries : List WaitPass → List Packet → Type 0
AreQueries passes [] = Unit {0}
AreQueries [] (query ∷ queries) = ⊥
AreQueries (pass ∷ passes) (query ∷ queries) = MayFollow pass query × AreQueries passes queries

-- The first is the query itself.
abbrev pub Converses : List WaitPass → List Packet → Type 0
Converses passes [] = Unit {0}
Converses passes (query ∷ queries) = (query ≡ a2s_info_query) × AreQueries passes queries

wait_passes-queries :
    (query : Packet) (passes : List WaitPass)
    → ((wait_passes query passes).1 ≡ [])
      ⊎ ((queries : List Packet) × ((wait_passes query passes).1 ≡ query ∷ queries)
          × AreQueries passes queries)
unfolding wait_passes
wait_passes-queries query [] = inl refl
wait_passes-queries query (pass ∷ passes) = elim (Option-cases pass.ctx) [
  | inr (c, dead) ↦ inl (ground (arith, dead))
  | inl alive ↦ elim (Outcome-cases (wait_outcome pass)) [
    | inl (r, out) ↦ inr ([], cc (alive, out), tt)
    | inr (another, out) ↦ elim (wait_passes-queries another passes) [
      | inl e ↦ inr ([], cc (alive, out, e), tt)
      | inr (queries, e, follow) ↦
          inr (another ∷ queries, cc (alive, out, e), ((wait_continues pass another out).1, follow))
    ]
  ]
]

-- Of what it is sent, the wait repeats only the four bytes of a challenge, and only in the query
-- after it: the first query is the plain one, and each later one is the plain one or answers the
-- challenge that came back in the pass before it.
pub a2s_wait_ready_queries :
    (dial : Option Error) (passes : List WaitPass) → Converses passes (a2s_wait_ready dial passes).1
unfolding a2s_wait_ready
a2s_wait_ready_queries (some e) passes = tt
a2s_wait_ready_queries none passes = elim (wait_passes-queries a2s_info_query passes) [
  | inl e ↦ subst (Converses passes) (sym e) tt
  | inr (queries, e, follow) ↦ subst (Converses passes) (sym e) (refl, follow)
]
