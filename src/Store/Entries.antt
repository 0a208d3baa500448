-- ===== src/Store/Entries.antt =====
-- The laws of the map from addresses to sessions.
use game_server_snooze.Common.{
  ℕ, ◌+◌, ◌≤◌, String, ◌≡◌, ◌≢◌, refl, false, none, some, [], ◌∷◌, arith, length, str_eq, eq_iff,
  if◌then◌else◌,
}
use game_server_snooze.Store.{Entries, lookup, delete}

pub lookup-delete :
    (key j : String) (entries : Entries)
    → lookup j (delete key entries) ≡ (if str_eq key j then none else lookup j entries)
unfolding lookup delete
lookup-delete key j [] = ground arith
lookup-delete key j ((k, p) ∷ entries) =
    ground (arith, lookup-delete key j entries, eq_iff k key, eq_iff k j, eq_iff key j)

pub length-delete-le :
    (key : String) (entries : Entries) → length (delete key entries) ≤ length entries
unfolding delete
length-delete-le key [] = omega arith
length-delete-le key ((k, p) ∷ entries) = ground (arith, length-delete-le key entries)

-- No entry holds the address, or the pointer.
abbrev pub LacksKey : String → Entries → Type 0
LacksKey key [] = Unit {0}
LacksKey key ((k, p) ∷ entries) = (str_eq k key ≡ false) × LacksKey key entries

abbrev pub LacksPointer : ℕ → Entries → Type 0
LacksPointer q [] = Unit {0}
LacksPointer q ((k, p) ∷ entries) = (p ≢ q) × LacksPointer q entries

-- Every address and every session stands in one entry.
abbrev pub IsDistinct : Entries → Type 0
IsDistinct [] = Unit {0}
IsDistinct ((k, p) ∷ entries) = LacksKey k entries × LacksPointer p entries × IsDistinct entries

pub LacksKey-delete :
    (key j : String) (entries : Entries) → LacksKey j entries → LacksKey j (delete key entries)
unfolding delete
LacksKey-delete key j [] h = tt
LacksKey-delete key j ((k, p) ∷ entries) h = ground (arith, LacksKey-delete key j entries h.1)

pub LacksPointer-delete :
    (key : String) (q : ℕ) (entries : Entries)
    → LacksPointer q entries
    → LacksPointer q (delete key entries)
unfolding delete
LacksPointer-delete key q [] h = tt
LacksPointer-delete key q ((k, p) ∷ entries) h =
    ground (arith, LacksPointer-delete key q entries h.1)

pub IsDistinct-delete :
    (key : String) (entries : Entries) → IsDistinct entries → IsDistinct (delete key entries)
unfolding delete
IsDistinct-delete key [] h = tt
IsDistinct-delete key ((k, p) ∷ entries) h = ground (
  arith,
  IsDistinct-delete key entries h.2,
  LacksKey-delete key k entries h.0,
  LacksPointer-delete key p entries h.1,
)

pub delete_absent :
    (key : String) (entries : Entries) → LacksKey key entries → delete key entries ≡ entries
unfolding delete
delete_absent key [] h = refl
delete_absent key ((k, p) ∷ entries) h = ground (arith, delete_absent key entries h.1)

-- Deleting a present address takes one entry away.
pub length-delete :
    (key : String) (p : ℕ) (entries : Entries)
    → IsDistinct entries
    → lookup key entries ≡ some p
    → length (delete key entries) + 1 ≡ length entries
unfolding lookup delete
length-delete key p [] d h = cc
length-delete key p ((k, q) ∷ entries) d h =
    ground (arith, length-delete key p entries d.2, delete_absent k entries d.0, eq_iff k key)

pub LacksKey-lookup :
    (key : String) (entries : Entries) → lookup key entries ≡ none → LacksKey key entries
unfolding lookup
LacksKey-lookup key [] h = tt
LacksKey-lookup key ((k, p) ∷ entries) h = ground (arith, LacksKey-lookup key entries)
