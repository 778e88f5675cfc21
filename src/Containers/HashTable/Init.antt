-- ===== src/Containers/HashTable/Init.antt =====
-- The empty table that hash_init makes.
use feather_os.Prelude.{
  ℕ, zero, suc, ◌≡◌, refl, ap, ◌∙◌, false, some, List, [], ◌∷◌, map, arith, length, get_or,
}
use feather_os.Prelude.Cyclic.{place}
use feather_os.Containers.HashTable.{HashEntry, hash_init, hash_get, clear_flags, HashTable, home}
use feather_os.Containers.HashTable.Slots.{IsValid, hash_get-answer, never_used}

cleared :
    (l : List HashEntry) (j : ℕ)
    → (get_or
        (map clear_flags l)
        j
        (record { key = 0; value = 0; occupied = false; deleted = false })).occupied
      ≡ false
cleared [] j = ground arith
cleared (e ∷ l) zero = refl
cleared (e ∷ l) (suc j) = cleared l j

length-cleared : (l : List HashEntry) → length (map clear_flags l) ≡ length l
length-cleared [] = refl
length-cleared (e ∷ l) = ap suc (length-cleared l)

-- Where the allocation gives as many entries as it is asked for, hash_init makes a valid table in
-- which hash_get answers NULL for every key.
pub hash_init_lem :
    (cells : ℕ → List HashEntry) (initial_capacity key : ℕ)
    → ((n : ℕ) → length (cells n) ≡ n)
    → IsValid (hash_init cells initial_capacity)
      × (hash_get (hash_init cells initial_capacity) key ≡ some 0)
unfolding hash_init
hash_init_lem cells initial_capacity key enough = (
  valid,
  hash_get-answer _ key valid.roomy
      ∙ ap some (
          never_used table key (λ i li stop.
            cleared (cells table.capacity) (place table.capacity (home table key) i))),
)
  where
    table : HashTable
    table = hash_init cells initial_capacity

    valid : IsValid table
    valid = record {
      roomy = ground arith;
      stored = length-cleared _ ∙ enough _;
      reachable = λ k j lj occ here i before.
          absurd (cc (occ, cleared (cells table.capacity) (place table.capacity (home table k) j)));
    }
