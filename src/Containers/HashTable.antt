-- ===== src/Containers/HashTable.antt =====
-- The open-addressing hash table of FeatherOS/kernel/lib/datastructures.c. Keys are `uint64_t`, a
-- value is a `void *`, a number, and 0 is NULL. Each `while (true)` loop takes the rounds that it
-- may still make; `none` means that they ran out.
pub mod Probe
pub mod Slots
pub mod Lookup
pub mod Remove
pub mod Init
mod Tests
use Prim.Native.Nat.{bit_xor}
use mathlib.Core.Path.{subst, fun_ext}
use mathlib.Core.Logic.{dite, ite}
use native.Mathlib.Nat.{
  add_comm, add_assoc, le_refl, le_trans, mod-eq_of_lt, mod-lt, mod-eq-sub-mod, mod-add-mod,
}
use native.Mathlib.Decide.{ℕ_discrete, dec_lt, dec_le}
use feather_os.Prelude.{
  ℕ, zero, suc, ◌+◌, ◌-◌, ◌*◌, ◌/◌, ◌%◌, ◌^◌, ◌≤◌, ◌<◌, min, max, ◌≡◌, refl, sym, ap, ◌∙◌, ◌≢◌, ◌↔◌,
  ◌⊎◌, inl, inr, Bool, true, false, not, ◌&&◌, ◌||◌, Option, none, some, List, [], ◌∷◌, ◌++◌, map,
  arith, ltb, leb, ◌==◌, if◌then◌else◌, ltb→lt, lt→ltb, leb→le, ==_iff, tests, Bool-cases,
  Option-cases, length, get_or, set, take, drop, replicate,
}

pub record HashEntry : Type 0 where
  pub key : ℕ
  pub value : ℕ
  pub occupied : Bool
  pub deleted : Bool

pub record HashTable : Type 0 where
  pub entries : List HashEntry
  pub capacity : ℕ
  pub size : ℕ
  pub max_load : ℕ

abbrev pub hash_table_load_factor : ℕ
hash_table_load_factor = 75

-- One round of the mixing: `((key >> 16) ^ key) * 0x45d9f3b`, in 64 bits.
abbrev mix : ℕ → ℕ
mix key = bit_xor (key / 2 ^ 16) key * 0x45d9f3b % 2 ^ 64

unfoldable pub hash_function : ℕ → ℕ → ℕ
hash_function key capacity = let twice = mix (mix key) in bit_xor (twice / 2 ^ 16) twice

-- Outside the array, where C has no meaning, an entry of zeros.
abbrev pub entry : HashTable → ℕ → HashEntry
entry table index =
    get_or table.entries index (record { key = 0; value = 0; occupied = false; deleted = false })

abbrev pub clear_flags : HashEntry → HashEntry
clear_flags e = record e { occupied = false; deleted = false }

-- `cells` stands for the entries that kmalloc gives, whatever they hold.
unfoldable pub hash_init : (ℕ → List HashEntry) → ℕ → HashTable
hash_init cells initial_capacity =
    let capacity = if ltb 0 initial_capacity then initial_capacity else 16 in
    record {
      entries = map clear_flags (cells capacity);
      capacity = capacity;
      size = 0;
      max_load = capacity * hash_table_load_factor % 2 ^ 64 / 100;
    }

-- `index == original_index` after the step ends a search.
unfoldable pub put_from : HashTable → ℕ → ℕ → ℕ → ℕ → ℕ → Option (HashTable × Bool)
put_from table key value original index zero = none
put_from table key value original index (suc rounds) =
    let e = entry table index in
    elim (not e.occupied || e.deleted) [
      | true ↦ some (
        record table {
          entries =
              set table.entries index
                (record { key = key; value = value; occupied = true; deleted = false });
          size = (table.size + 1) % 2 ^ 64;
        },
        true,
      )
      | false ↦ elim ((e.key == key) && not e.deleted) [
        | true ↦
            some (
              record table { entries = set table.entries index (record e { value = value }) },
              true,
            )
        | false ↦ elim (((index + 1) % table.capacity) == original) [
          | true ↦ some (table, false)
          | false ↦ put_from table key value original ((index + 1) % table.capacity) rounds
        ]
      ]
    ]

abbrev pub home : HashTable → ℕ → ℕ
home table key = hash_function key table.capacity % table.capacity

unfoldable pub hash_put : HashTable → ℕ → ℕ → Option (HashTable × Bool)
hash_put table key value =
    if leb table.max_load table.size
    then some (table, false)
    else put_from table key value (home table key) (home table key) table.capacity

unfoldable pub get_from : HashTable → ℕ → ℕ → ℕ → ℕ → Option ℕ
get_from table key original index zero = none
get_from table key original index (suc rounds) =
    let e = entry table index in
    elim (not e.occupied) [
      | true ↦ some 0
      | false ↦ elim ((e.key == key) && not e.deleted) [
        | true ↦ some e.value
        | false ↦ elim (((index + 1) % table.capacity) == original) [
          | true ↦ some 0
          | false ↦ get_from table key original ((index + 1) % table.capacity) rounds
        ]
      ]
    ]

unfoldable pub hash_get : HashTable → ℕ → Option ℕ
hash_get table key = get_from table key (home table key) (home table key) table.capacity

unfoldable pub remove_from : HashTable → ℕ → ℕ → ℕ → ℕ → Option (HashTable × ℕ)
remove_from table key original index zero = none
remove_from table key original index (suc rounds) =
    let e = entry table index in
    elim (not e.occupied) [
      | true ↦ some (table, 0)
      | false ↦ elim ((e.key == key) && not e.deleted) [
        | true ↦ some (
          record table {
            entries = set table.entries index (record e { deleted = true });
            size = (table.size + 2 ^ 64 - 1) % 2 ^ 64;
          },
          e.value,
        )
        | false ↦ elim (((index + 1) % table.capacity) == original) [
          | true ↦ some (table, 0)
          | false ↦ remove_from table key original ((index + 1) % table.capacity) rounds
        ]
      ]
    ]

unfoldable pub hash_remove : HashTable → ℕ → Option (HashTable × ℕ)
hash_remove table key = remove_from table key (home table key) (home table key) table.capacity

pub hash_contains : HashTable → ℕ → Option Bool
hash_contains table key = elim (hash_get table key) [ none ↦ none | some v ↦ some (not (v == 0)) ]

pub hash_size : HashTable → ℕ
hash_size table = table.size

pub hash_is_empty : HashTable → Bool
hash_is_empty table = table.size == 0

-- The calls that hash_foreach makes, in order.
pub live_entries : List HashEntry → List (ℕ × ℕ)
live_entries [] = []
live_entries (e ∷ es) =
    let rest = live_entries es in
    if e.occupied && not e.deleted then (e.key, e.value) ∷ rest else rest

pub hash_foreach : HashTable → List (ℕ × ℕ)
unfolding live_entries
hash_foreach table = live_entries (take table.capacity table.entries)

-- The table afterwards, and the values that `free_fn`, which may be NULL, is called with.
pub hash_destroy : HashTable → Bool → HashTable × List ℕ
unfolding live_entries
hash_destroy table has_free_fn = (
  record table { entries = []; size = 0 },
  if has_free_fn then map (λ p. p.1) (live_entries (take table.capacity table.entries)) else [],
)
