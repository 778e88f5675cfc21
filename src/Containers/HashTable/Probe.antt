-- ===== src/Containers/HashTable/Probe.antt =====
-- Each loop of the hash table as a search for the first slot, in the order of the probes, that
-- passes the loop's test.
use mathlib.Core.Path.{subst}
use feather_os.Prelude.Cyclic.{
  place_wraps, first_from-suc, first_from-missed, place, place-suc, place-full, first_from,
}
use feather_os.Prelude.{
  ℕ, zero, suc, ◌+◌, ◌-◌, ◌%◌, ◌^◌, ◌<◌, ◌≡◌, Bool, true, false, not, ◌&&◌, ◌||◌, Option, none,
  some, arith, leb, ◌==◌, if◌then◌else◌, set,
}
use feather_os.Containers.HashTable.{
  HashEntry, HashTable, entry, put_from, get_from, remove_from, home, hash_put, hash_get,
  hash_remove,
}

-- The slot of probe number `k` for a key whose home is `h`.
abbrev pub slot : HashTable → ℕ → ℕ → HashEntry
slot t h k = entry t (place t.capacity h k)

-- A live entry of this key.
abbrev pub holds : ℕ → HashEntry → Bool
holds key e = (e.key == key) && not e.deleted

abbrev pub stops_put : HashTable → ℕ → ℕ → ℕ → Bool
stops_put t key h k = (not (slot t h k).occupied || (slot t h k).deleted) || holds key (slot t h k)

abbrev pub stops_get : HashTable → ℕ → ℕ → ℕ → Bool
stops_get t key h k = not (slot t h k).occupied || holds key (slot t h k)

-- What each loop does at the slot where it stops.
abbrev pub write_slot : HashTable → ℕ → ℕ → ℕ → HashTable
write_slot t key value index =
    if not (entry t index).occupied || (entry t index).deleted
    then record t {
      entries =
          set t.entries index
            (record { key = key; value = value; occupied = true; deleted = false });
      size = (t.size + 1) % 2 ^ 64;
    }
    else record t { entries = set t.entries index (record (entry t index) { value = value }) }

abbrev pub bury : HashTable → ℕ → HashTable
bury t index = record t {
  entries = set t.entries index (record (entry t index) { deleted = true });
  size = (t.size + 2 ^ 64 - 1) % 2 ^ 64;
}

abbrev pub put_at : HashTable → ℕ → ℕ → ℕ → Option ℕ → HashTable × Bool
put_at t key value h none = (t, false)
put_at t key value h (some k) = (write_slot t key value (place t.capacity h k), true)

abbrev pub get_at : HashTable → ℕ → Option ℕ → ℕ
get_at t h none = 0
get_at t h (some k) = if not (slot t h k).occupied then 0 else (slot t h k).value

abbrev pub remove_at : HashTable → ℕ → Option ℕ → HashTable × ℕ
remove_at t h none = (t, 0)
remove_at t h (some k) =
    if not (slot t h k).occupied
    then (t, 0)
    else (bury t (place t.capacity h k), (slot t h k).value)

get_from-suc :
    (t : HashTable) (key o i n : ℕ)
    → get_from t key o i (suc n) ≡ (
        if not (entry t i).occupied
        then some 0
        else if holds key (entry t i)
        then some (entry t i).value
        else if ((i + 1) % t.capacity) == o
        then some 0
        else get_from t key o ((i + 1) % t.capacity) n)
unfolding get_from
get_from-suc t key o i n = ground arith

get_from-first :
    (t : HashTable) (key h k n : ℕ)
    → h < t.capacity
    → k + suc n ≡ t.capacity
    → get_from t key h (place t.capacity h k) (suc n)
      ≡ some (get_at t h (first_from (stops_get t key h) k (suc n)))
get_from-first t key h k zero hh e =
    rw (get_from-suc, first_from-suc)
      (let ended =
          first_from-missed (stops_get t key h) (k + 1) 0 (λ i lo hi. absurd (omega arith)) in
        ground (arith, place-suc t.capacity h k hh, place-full t.capacity h k hh, ended))
get_from-first t key h k (suc n) hh e =
    let rest = get_from-first t key h (k + 1) n hh (omega arith) in
    rw (get_from-suc, first_from-suc)
      (ground (arith, place-suc t.capacity h k hh, place-full t.capacity h k hh, rest))

remove_from-suc :
    (t : HashTable) (key o i n : ℕ)
    → remove_from t key o i (suc n) ≡ (
        if not (entry t i).occupied
        then some (t, 0)
        else if holds key (entry t i)
        then some (bury t i, (entry t i).value)
        else if ((i + 1) % t.capacity) == o
        then some (t, 0)
        else remove_from t key o ((i + 1) % t.capacity) n)
unfolding remove_from
remove_from-suc t key o i n = ground arith

remove_from-first :
    (t : HashTable) (key h k n : ℕ)
    → h < t.capacity
    → k + suc n ≡ t.capacity
    → remove_from t key h (place t.capacity h k) (suc n)
      ≡ some (remove_at t h (first_from (stops_get t key h) k (suc n)))
remove_from-first t key h k zero hh e =
    rw (remove_from-suc, first_from-suc)
      (let ended =
          first_from-missed (stops_get t key h) (k + 1) 0 (λ i lo hi. absurd (omega arith)) in
        ground (arith, place-suc t.capacity h k hh, place-full t.capacity h k hh, ended))
remove_from-first t key h k (suc n) hh e =
    let rest = remove_from-first t key h (k + 1) n hh (omega arith) in
    rw (remove_from-suc, first_from-suc)
      (ground (arith, place-suc t.capacity h k hh, place-full t.capacity h k hh, rest))

put_from-suc :
    (t : HashTable) (key value o i n : ℕ)
    → put_from t key value o i (suc n) ≡ (
        if (not (entry t i).occupied || (entry t i).deleted) || holds key (entry t i)
        then some (write_slot t key value i, true)
        else if ((i + 1) % t.capacity) == o
        then some (t, false)
        else put_from t key value o ((i + 1) % t.capacity) n)
unfolding put_from
put_from-suc t key value o i n = ground arith

put_from-first :
    (t : HashTable) (key value h k n : ℕ)
    → h < t.capacity
    → k + suc n ≡ t.capacity
    → put_from t key value h (place t.capacity h k) (suc n)
      ≡ some (put_at t key value h (first_from (stops_put t key h) k (suc n)))
put_from-first t key value h k zero hh e =
    rw (put_from-suc, first_from-suc)
      (let ended =
          first_from-missed (stops_put t key h) (k + 1) 0 (λ i lo hi. absurd (omega arith)) in
        ground (arith, place-suc t.capacity h k hh, place-full t.capacity h k hh, ended))
put_from-first t key value h k (suc n) hh e =
    let rest = put_from-first t key value h (k + 1) n hh (omega arith) in
    rw (put_from-suc, first_from-suc)
      (ground (arith, place-suc t.capacity h k hh, place-full t.capacity h k hh, rest))

pub home-lt : (t : HashTable) (key : ℕ) → 0 < t.capacity → home t key < t.capacity
home-lt t key h = omega arith

-- A loop that is understood at every probe, run from the first probe for all rounds.
from_start :
    {A : Type 0} (loop : ℕ → ℕ → Option A) (answer : ℕ → A) (cap' h : ℕ)
    → h < cap'
    → ((n : ℕ) → suc n ≡ cap' → loop (place cap' h 0) (suc n) ≡ some (answer (suc n)))
    → loop h cap' ≡ some (answer cap')
from_start loop answer cap' h hh at =
    let rounds : suc (cap' - 1) ≡ cap' = omega arith in
    let start : place cap' h 0 ≡ h = ground (arith, place_wraps cap' h 0 hh) in
    subst (λ n. loop h n ≡ some (answer n)) rounds
      (subst (λ i. loop i (suc (cap' - 1)) ≡ some (answer (suc (cap' - 1)))) start
        (at (cap' - 1) rounds))

-- hash_get is total: it answers by the first slot of the probes that is empty or holds the key.
pub hash_get-first :
    (t : HashTable) (key : ℕ)
    → 0 < t.capacity
    → hash_get t key
      ≡ some (get_at t (home t key) (first_from (stops_get t key (home t key)) 0 t.capacity))
unfolding hash_get
hash_get-first t key h =
    let hm = home t key in
    from_start (get_from t key hm) (λ n. get_at t hm (first_from (stops_get t key hm) 0 n))
      t.capacity hm (home-lt t key h)
      (λ n e. get_from-first t key hm 0 n (home-lt t key h) (omega arith))

pub hash_remove-first :
    (t : HashTable) (key : ℕ)
    → 0 < t.capacity
    → hash_remove t key
      ≡ some (remove_at t (home t key) (first_from (stops_get t key (home t key)) 0 t.capacity))
unfolding hash_remove
hash_remove-first t key h =
    let hm = home t key in
    from_start (remove_from t key hm) (λ n. remove_at t hm (first_from (stops_get t key hm) 0 n))
      t.capacity hm (home-lt t key h)
      (λ n e. remove_from-first t key hm 0 n (home-lt t key h) (omega arith))

pub hash_put-first :
    (t : HashTable) (key value : ℕ)
    → 0 < t.capacity
    → hash_put t key value
      ≡ some (
          if leb t.max_load t.size
          then (t, false)
          else put_at t key value
              (home t key)
              (first_from (stops_put t key (home t key)) 0 t.capacity))
unfolding hash_put
hash_put-first t key value h =
    let hm = home t key in
    let searched =
      from_start (put_from t key value hm)
        (λ n. put_at t key value hm (first_from (stops_put t key hm) 0 n)) t.capacity hm
        (home-lt t key h)
        (λ n e. put_from-first t key value hm 0 n (home-lt t key h) (omega arith)) in
    ground (arith, searched)
