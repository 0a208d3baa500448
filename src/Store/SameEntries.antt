-- ===== src/Store/SameEntries.antt =====
-- Lists of entries that are the same map, for the store of pkg/session/store.go.
use game_server_snooze.Common.{
  ℕ, String, ◌≡◌, refl, sym, ◌∙◌, Bool, true, ◌==◌, none, some, [], ◌∷◌, arith, length, str_eq,
  eq_iff, if◌then◌else◌, ◌&&◌, inl, inr, Bool-cases,
}
use game_server_snooze.Store.{Heap, Entries, lookup, delete, pointers}
use game_server_snooze.Store.Entries.{
  LacksKey, IsDistinct, lookup-delete, length-delete, IsDistinct-delete,
}
use game_server_snooze.Store.Sweep.{idle, member, survivors, idle_pointers}

-- The entries are the same map: every address leads to the same session, or to none.
abbrev pub SameEntries : Entries → Entries → Type 0
SameEntries es fs = (j : String) → lookup j es ≡ lookup j fs

nothing_found : (fs : Entries) → ((j : String) → lookup j fs ≡ none) → length fs ≡ 0
unfolding lookup
nothing_found [] h = refl
nothing_found ((k, p) ∷ fs) h = absurd (ground (arith, h k, eq_iff k k))

lookup-LacksKey : (key : String) (es : Entries) → LacksKey key es → lookup key es ≡ none
unfolding lookup
lookup-LacksKey key [] h = refl
lookup-LacksKey key ((k, p) ∷ es) h = ground (arith, lookup-LacksKey key es h.1)

lookup_first : (k : String) (p : ℕ) (es : Entries) → lookup k ((k, p) ∷ es) ≡ some p
unfolding lookup
lookup_first k p es = ground (arith, eq_iff k k)

-- Without its first entry, a map is what is left when its address is deleted.
lookup_rest :
    (k j : String) (p : ℕ) (es : Entries)
    → LacksKey k es
    → lookup j es ≡ (if str_eq k j then none else lookup j ((k, p) ∷ es))
unfolding lookup
lookup_rest k j p es h = ground (arith, eq_iff k j, lookup-LacksKey k es h)

-- The same maps have the same number of entries.
pub length-SameEntries :
    (es fs : Entries) → IsDistinct es → IsDistinct fs → SameEntries es fs → length es ≡ length fs
unfolding lookup
length-SameEntries [] fs d c same = sym (nothing_found fs (λ j. sym (same j)))
length-SameEntries ((k, p) ∷ es) fs d c same =
    let found : lookup k fs ≡ some p = sym (same k) ∙ lookup_first k p es in
    let ih =
      length-SameEntries es (delete k fs) d.2 (IsDistinct-delete k fs c)
        (λ j. ground (arith, lookup_rest k j p es d.0, same j, lookup-delete k j fs)) in
    ground (arith, ih, length-delete k p fs c found)

-- The addresses that survive a sweep.
pub lookup-survivors :
    (cutoff : ℕ) (heap : Heap) (j : String) (es : Entries)
    → IsDistinct es
    → lookup j (survivors cutoff heap es) ≡ (elim (lookup j es) [
      | none ↦ none
      | some p ↦ if idle cutoff (heap p) then none else some p
    ])
unfolding lookup
lookup-survivors cutoff heap j [] d = refl
lookup-survivors cutoff heap j ((k, p) ∷ es) d =
    ground (arith, lookup-survivors cutoff heap j es d.2, lookup-LacksKey k es d.0, eq_iff k j)

-- A session is in the store exactly if some address leads to it.
held :
    (q : ℕ) (es : Entries)
    → IsDistinct es
    → member q (pointers es) ≡ true
    → (j : String) × (lookup j es ≡ some q)
unfolding lookup
held q [] d h = absurd (cc h)
held q ((k, p) ∷ es) d h = elim (Bool-cases (q == p)) [
  | inl here ↦ (k, ground (arith, eq_iff k k))
  | inr there ↦
      let (j, found) = held q es d.2 (ground (arith, there)) in
      (j, ground (arith, found, eq_iff k j, lookup-LacksKey k es d.0))
]

lookup_held :
    (q : ℕ) (j : String) (es : Entries) → lookup j es ≡ some q → member q (pointers es) ≡ true
unfolding lookup
lookup_held q j [] h = absurd (cc h)
lookup_held q j ((k, p) ∷ es) h = ground (arith, lookup_held q j es)

same_truth : (a b : Bool) → (a ≡ true → b ≡ true) → (b ≡ true → a ≡ true) → a ≡ b
same_truth a b f g = ground (arith, f, g)

pub pointers-SameEntries :
    (es fs : Entries) (q : ℕ)
    → IsDistinct es
    → IsDistinct fs
    → SameEntries es fs
    → member q (pointers es) ≡ member q (pointers fs)
pointers-SameEntries es fs q d c same =
    same_truth _ _
      (λ h. let (j, found) = held q es d h in lookup_held q j fs (sym (same j) ∙ found))
      (λ h. let (j, found) = held q fs c h in lookup_held q j es (same j ∙ found))

pub idle_pointers-pointers :
    (cutoff : ℕ) (heap : Heap) (q : ℕ) (es : Entries)
    → member q (idle_pointers cutoff heap es) ≡ (member q (pointers es) && idle cutoff (heap q))
idle_pointers-pointers cutoff heap q [] = refl
idle_pointers-pointers cutoff heap q ((k, p) ∷ es) =
    ground (arith, idle_pointers-pointers cutoff heap q es)
