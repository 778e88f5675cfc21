-- ===== src/Containers/HashTable/Tests.antt =====
-- A table of four slots with one entry, and the theorems at it.
use feather_os.Prelude.{
  ℕ, zero, suc, ◌≡◌, refl, ap, true, false, some, List, arith, length, set, replicate,
}
use feather_os.Containers.HashTable.{
  HashEntry, HashTable, home, hash_function, hash_init, hash_get, hash_put, put_from, hash_remove,
}
use feather_os.Containers.HashTable.Slots.{IsValid}
use feather_os.Containers.HashTable.Lookup.{hash_get-put_self, hash_get-put_other}
use feather_os.Containers.HashTable.Remove.{hash_remove_lem}
use feather_os.Containers.HashTable.Init.{hash_init_lem}

abbrev blank : ℕ → List HashEntry
blank n = replicate n (record { key = 7; value = 7; occupied = true; deleted = false })

blank-length : (n : ℕ) → length (blank n) ≡ n
blank-length zero = refl
blank-length (suc n) = ap suc (blank-length n)

abbrev empty : HashTable
empty = hash_init blank 4

abbrev one_entry : HashTable
one_entry = record empty {
  entries =
      set empty.entries (home empty 5)
        (record { key = 5; value = 50; occupied = true; deleted = false });
  size = 1;
}

empty-IsValid : IsValid empty
empty-IsValid = (hash_init_lem blank 4 0 blank-length).0

put_five : hash_put empty 5 50 ≡ some (one_entry, true)
unfolding hash_put put_from hash_init hash_function
put_five = refl

hash_get-put_self_example : hash_get one_entry 5 ≡ some 50
hash_get-put_self_example = hash_get-put_self 5 50 empty-IsValid put_five

hash_get-put_other_example : (hash_get one_entry 9 ≡ hash_get empty 9) × IsValid one_entry
hash_get-put_other_example =
    hash_get-put_other 5 50 9 empty-IsValid put_five (λ e. absurd (omega arith))

hash_remove_example :
    (t' : HashTable) × (value : ℕ) × (hash_remove one_entry 5 ≡ some (t', value))
    × (hash_get one_entry 5 ≡ some value)
    × (hash_get t' 9 ≡ hash_get one_entry 9)
    × IsValid t'
hash_remove_example =
    hash_remove_lem one_entry 5 9 hash_get-put_other_example.1 (λ e. absurd (omega arith))
