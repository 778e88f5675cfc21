-- ===== src/Containers/HashTable/Slots.antt =====
-- The invariant of the hash table, and what a successful hash_put does to the slots.
use feather_os.Prelude.{
  refl, not, ◌||◌, set, length, Bool-cases, inl, inr, if◌then◌else◌, leb, ◌==◌, get_or, ℕ, ◌+◌, ◌<◌,
  ◌≡◌, sym, ap, ◌∙◌, Bool, true, false, Option, none, some, arith,
}
use feather_os.Prelude.Arrays.{get_or-set, length-set}
use feather_os.Prelude.Cyclic.{
  place, place-lt, first_from, first_from-found, first_from-missed, Answers, NoneFrom,
  first_from-Answers,
}
use feather_os.Containers.HashTable.{hash_get, HashEntry, HashTable, entry, home, hash_put}
use feather_os.Containers.HashTable.Probe.{
  hash_get-first, slot, holds, stops_put, stops_get, write_slot, put_at, get_at, home-lt,
  hash_put-first,
}

-- Where a live entry stands, every probe before it for its key meets an entry that is or was in
-- use, so that no search for the key stops short of it.
abbrev pub IsReachable : HashTable → Type 0
IsReachable t =
    (key k : ℕ)
    → k < t.capacity
    → (slot t (home t key) k).occupied ≡ true
    → holds key (slot t (home t key) k) ≡ true
    → (i : ℕ) → i < k
    → (slot t (home t key) i).occupied ≡ true

pub record IsValid (t : HashTable) : Type 0 where
  pub roomy : 0 < t.capacity
  pub stored : length t.entries ≡ t.capacity
  pub reachable : IsReachable t

-- What a search for `key` answers, in terms of the slots.
pub answer : HashTable → ℕ → ℕ
answer t key = get_at t (home t key) (first_from (stops_get t key (home t key)) 0 t.capacity)

pub hash_get-answer :
    (t : HashTable) (key : ℕ) → 0 < t.capacity → hash_get t key ≡ some (answer t key)
unfolding answer
hash_get-answer t key h = hash_get-first t key h

pub found_at :
    (t : HashTable) (key k : ℕ)
    → k < t.capacity
    → NoneFrom (stops_get t key (home t key)) 0 k
    → stops_get t key (home t key) k ≡ true
    → answer t key ≡ get_at t (home t key) (some k)
unfolding answer
found_at t key k lt before hit =
    ap (get_at t (home t key))
      (first_from-found _ 0 t.capacity k (omega arith) (omega arith) before hit)

pub missed :
    (t : HashTable) (key : ℕ)
    → NoneFrom (stops_get t key (home t key)) 0 t.capacity
    → answer t key ≡ 0
unfolding answer
missed t key all =
    ap (get_at t (home t key))
      (first_from-missed _ 0 t.capacity (λ i lo hi. all i lo (omega arith)))

-- A search that never stops at an entry in use answers NULL.
pub never_used :
    (t : HashTable) (key : ℕ)
    → ((i : ℕ)
        → i < t.capacity
        → stops_get t key (home t key) i ≡ true
        → (slot t (home t key) i).occupied ≡ false)
    → answer t key ≡ 0
unfolding answer
never_used t key h =
    go (first_from (stops_get t key (home t key)) 0 t.capacity)
      (first_from-Answers (stops_get t key (home t key)) 0 t.capacity)
  where
    go :
        (r : Option ℕ)
        → Answers (stops_get t key (home t key)) 0 (0 + t.capacity) r
        → get_at t (home t key) r ≡ 0
    go none a = refl
    go (some q) a = let empty = h q (omega (arith, a.1)) a.3 in rw empty

-- Overwriting one slot: what every probe sees afterwards.
pub slot_after :
    (t t' : HashTable) (e : HashEntry) (h k j : ℕ)
    → length t.entries ≡ t.capacity
    → h < t.capacity
    → k < t.capacity
    → t'.capacity ≡ t.capacity
    → t'.entries ≡ set t.entries (place t.capacity h k) e
    → entry t' j ≡ (if place t.capacity h k == j then e else entry t j)
slot_after t t' e h k j stored hh hk c s = ground (
  arith,
  ap (λ l. get_or l j (record { key = 0; value = 0; occupied = false; deleted = false })) s,
  get_or-set t.entries (place t.capacity h k) j e
      (record { key = 0; value = 0; occupied = false; deleted = false }),
  place-lt t.capacity h k hh,
)

-- hash_put at the probe number `k` where its search stopped.
pub record Puts (t : HashTable) (key value k : ℕ) (t' : HashTable) : Type 0 where
  pub in_range : k < t.capacity
  pub before : NoneFrom (stops_put t key (home t key)) 0 k
  pub stopped : stops_put t key (home t key) k ≡ true
  pub same_capacity : t'.capacity ≡ t.capacity
  pub same_length : length t'.entries ≡ t.capacity
  pub seen :
      (j : ℕ)
      → entry t' j ≡ (
          if place t.capacity (home t key) k == j
          then record { key = key; value = value; occupied = true; deleted = false }
          else entry t j)

abbrev pub live : ℕ → ℕ → HashEntry
live key value = record { key = key; value = value; occupied = true; deleted = false }

-- Whether the slot was free or held the key, it holds the new pair afterwards.
written :
    (t : HashTable) (key value index : ℕ)
    → (not (entry t index).occupied || (entry t index).deleted) || holds key (entry t index) ≡ true
    → (write_slot t key value index).entries ≡ set t.entries index (live key value)
written t key value index e =
    elim (Bool-cases (not (entry t index).occupied || (entry t index).deleted)) [
      | inl free ↦ rw free
      | inr used ↦ rw used (ap (set t.entries index) (ground arith))
    ]

abbrev table_of : HashTable → Option (HashTable × Bool) → HashTable
table_of t none = t
table_of t (some r) = r.0

pub put_cases :
    (t : HashTable) (key value : ℕ) (t' : HashTable)
    → IsValid t
    → hash_put t key value ≡ some (t', true)
    → (k : ℕ) × Puts t key value k t'
put_cases t key value t' v e =
    go (first_from (stops_put t key (home t key)) 0 t.capacity)
      (first_from-Answers (stops_put t key (home t key)) 0 t.capacity)
      (sym (hash_put-first t key value v.roomy) ∙ e)
  where
    go :
        (r : Option ℕ)
        → Answers (stops_put t key (home t key)) 0 (0 + t.capacity) r
        → some (if leb t.max_load t.size then (t, false) else put_at t key value (home t key) r)
          ≡ some (t', true)
        → (k : ℕ) × Puts t key value k t'
    go none a q = absurd (ground arith)
    go (some k) a q = elim (Bool-cases (leb t.max_load t.size)) [
      | inl full ↦ absurd (ground (arith, q, full))
      | inr room ↦
          let index = place t.capacity (home t key) k in
          let done : write_slot t key value index ≡ t' = ap (table_of t) (rw room at q) in
          let cells = sym (ap (λ x. x.entries) done) ∙ written t key value index a.3 in
          let cap' : t'.capacity ≡ t.capacity = sym (ap (λ x. x.capacity) done) ∙ ground arith in
          (
            k,
            record {
              in_range = omega arith;
              before = a.2;
              stopped = a.3;
              same_capacity = cap';
              same_length =
                  ap length cells ∙ length-set t.entries index (live key value) ∙ v.stored;
              seen = λ j.
                  slot_after t t' (live key value) (home t key) k j v.stored (home-lt t key v.roomy)
                    (omega arith) cap' cells;
            },
          )
    ]
