-- ===== src/Sync/Mutex/Exclusion.antt =====
-- Mutual exclusion of the mutex, over every interleaving.
use native.Mathlib.Decide.{dec_lt}
use feather_os.Prelude.{
  ℕ, ◌+◌, ◌≤◌, ◌<◌, ◌≡◌, refl, sym, ap, ◌≢◌, ◌⊎◌, inl, false, List, [], ◌∷◌, arith, length, get_or,
  set, replicate,
}
use feather_os.Prelude.Arrays.{get_or_out}
use feather_os.Sync.Threads.{
  total, others, total-others, total-set, total-two, others-le, total-replicate, set_out,
}
use feather_os.Sync.Atomic.{atomic_read, atomic_set, atomic_compare_and_swap}
use feather_os.Sync.Mutex.{
  Mutex, mutex_init, mutex_is_locked, Locker, outside, at_fast_path, at_slow_path, marking, trying,
  holding, clearing, releasing, mutex_lock_swap, mutex_lock_mark, mutex_trylock, mutex_unlock_clear,
  mutex_unlock_release, move_on, Request, mutex_lock, mutex_try, mutex_unlock, request, Room, Turn,
  requests, moves, turn, turns,
}

-- Whether a caller has the mutex, and whether it may have its owner set.
abbrev pub holds : Locker → ℕ
holds outside = 0
holds at_fast_path = 0
holds at_slow_path = 0
holds marking = 1
holds trying = 0
holds holding = 1
holds clearing = 1
holds releasing = 1

abbrev pub owns : Locker → ℕ
owns outside = 0
owns at_fast_path = 0
owns at_slow_path = 0
owns marking = 0
owns trying = 0
owns holding = 1
owns clearing = 1
owns releasing = 0

-- The mutex is the number of callers that have it, at most one, and its owner is set only where one
-- of them may have set it.
abbrev Agrees : Mutex → ℕ → ℕ → Type 0
Agrees m held owned =
    (m.locked.counter ≡ held) × (held ≤ 1) × (owned ≤ held) × ((m.owner ≡ 0) ⊎ (owned ≡ 1))

move_on-Agrees :
    (l : Locker) (m : Mutex) (held owned : ℕ)
    → owned ≤ held
    → Agrees m (held + holds l) (owned + owns l)
    → Agrees (move_on l m).0 (held + holds (move_on l m).1) (owned + owns (move_on l m).1)
unfolding move_on mutex_lock_swap mutex_lock_mark mutex_trylock mutex_unlock_clear
    mutex_unlock_release atomic_set atomic_compare_and_swap
move_on-Agrees outside m held owned le a = a
move_on-Agrees at_fast_path m held owned le a = ground arith
move_on-Agrees at_slow_path m held owned le a = ground arith
move_on-Agrees marking m held owned le a = ground arith
move_on-Agrees trying m held owned le a = ground arith
move_on-Agrees holding m held owned le a = a
move_on-Agrees clearing m held owned le a = ground arith
move_on-Agrees releasing m held owned le a = ground arith

request_counts :
    (q : Request) (l : Locker) → (holds (request q l) ≡ holds l) × (owns (request q l) ≡ owns l)
unfolding request
request_counts mutex_lock outside = (refl, refl)
request_counts mutex_lock at_fast_path = (refl, refl)
request_counts mutex_lock at_slow_path = (refl, refl)
request_counts mutex_lock marking = (refl, refl)
request_counts mutex_lock trying = (refl, refl)
request_counts mutex_lock holding = (refl, refl)
request_counts mutex_lock clearing = (refl, refl)
request_counts mutex_lock releasing = (refl, refl)
request_counts mutex_try outside = (refl, refl)
request_counts mutex_try at_fast_path = (refl, refl)
request_counts mutex_try at_slow_path = (refl, refl)
request_counts mutex_try marking = (refl, refl)
request_counts mutex_try trying = (refl, refl)
request_counts mutex_try holding = (refl, refl)
request_counts mutex_try clearing = (refl, refl)
request_counts mutex_try releasing = (refl, refl)
request_counts mutex_unlock outside = (refl, refl)
request_counts mutex_unlock at_fast_path = (refl, refl)
request_counts mutex_unlock at_slow_path = (refl, refl)
request_counts mutex_unlock marking = (refl, refl)
request_counts mutex_unlock trying = (refl, refl)
request_counts mutex_unlock holding = (refl, refl)
request_counts mutex_unlock clearing = (refl, refl)
request_counts mutex_unlock releasing = (refl, refl)

owns_held : (l : Locker) → owns l ≤ holds l
owns_held outside = omega arith
owns_held at_fast_path = omega arith
owns_held at_slow_path = omega arith
owns_held marking = omega arith
owns_held trying = omega arith
owns_held holding = omega arith
owns_held clearing = omega arith
owns_held releasing = omega arith

others_owned_le : (ls : List Locker) (i : ℕ) → others owns ls i ≤ others holds ls i
others_owned_le ls i =
    omega (arith, others-le (λ l. 0) owns holds ls i (λ l. omega (arith, owns_held l)))

abbrev pub Consistent : Room → Type 0
Consistent s = Agrees s.mutex (total holds s.lockers) (total owns s.lockers)

module _ (s : Room) (i : ℕ) (lt : i < length s.lockers) where
  abbrev own : Locker
  own = get_or s.lockers i outside

  apart :
      Consistent s
      → Agrees s.mutex (others holds s.lockers i + holds own) (others owns s.lockers i + owns own)
  apart v =
      rw
        (
          sym (total-others holds s.lockers i outside lt),
          sym (total-others owns s.lockers i outside lt),
        )
        v

  together :
      (m : Mutex) (l : Locker)
      → Agrees m (others holds s.lockers i + holds l) (others owns s.lockers i + owns l)
      → Consistent (record { mutex = m; lockers = set s.lockers i l })
  together m l a = rw (total-set holds s.lockers i l lt, total-set owns s.lockers i l lt) a

  moves-Consistent : Consistent s → Consistent (turn (moves i) s)
  unfolding turn
  moves-Consistent v =
      together (move_on own s.mutex).0 (move_on own s.mutex).1
        (move_on-Agrees own s.mutex _ _ (others_owned_le s.lockers i) (apart v))

  requests-Consistent : (q : Request) → Consistent s → Consistent (turn (requests i q) s)
  unfolding turn
  requests-Consistent q v =
      let same = request_counts q own in
      together s.mutex (request q own) (rw (same.0, same.1) (apart v))

turn-Consistent : (t : Turn) (s : Room) → Consistent s → Consistent (turn t s)
unfolding turn move_on
turn-Consistent (requests i q) s v = elim (dec_lt i (length s.lockers)) [
  | yes lt ↦ requests-Consistent s i lt q v
  | no out ↦ rw (set_out s.lockers i (request q (get_or s.lockers i outside)) (omega arith)) v
]
turn-Consistent (moves i) s v = elim (dec_lt i (length s.lockers)) [
  | yes lt ↦ moves-Consistent s i lt v
  | no out ↦
      let none_there = get_or_out s.lockers i outside (omega arith) in
      rw (none_there, set_out s.lockers i outside (omega arith)) v
]

turns-Consistent : (ts : List Turn) (s : Room) → Consistent s → Consistent (turns ts s)
unfolding turns
turns-Consistent [] s v = v
turns-Consistent (t ∷ ts) s v = turns-Consistent ts (turn t s) (turn-Consistent t s v)

-- `n` callers, all outside.
unfoldable pub entrance : ℕ → Room
entrance n = record { mutex = mutex_init; lockers = replicate n outside }

entrance-Consistent : (n : ℕ) → Consistent (entrance n)
unfolding entrance mutex_init
entrance-Consistent n =
    rw (total-replicate holds n outside refl, total-replicate owns n outside refl)
      (refl, omega arith, omega arith, inl refl)

-- However the steps of the callers interleave, no two of them have the mutex at the same time.
pub mutex_lock-excludes :
    (n : ℕ) (ts : List Turn) (i j : ℕ)
    → i ≢ j
    → get_or (turns ts (entrance n)).lockers i outside ≡ holding
    → get_or (turns ts (entrance n)).lockers j outside ≢ holding
mutex_lock-excludes n ts i j ne hi hj =
    let v = turns-Consistent ts (entrance n) (entrance-Consistent n) in
    let two = total-two holds (turns ts (entrance n)).lockers i j outside ne refl in
    omega (arith, v.1, two, ap holds hi, ap holds hj)

-- However the steps of the callers interleave, a mutex that is not locked has no owner.
mutex_is_locked-owner :
    (n : ℕ) (ts : List Turn)
    → mutex_is_locked (turns ts (entrance n)).mutex ≡ false
    → (turns ts (entrance n)).mutex.owner ≡ 0
unfolding mutex_is_locked atomic_read
mutex_is_locked-owner n ts free =
    let v = turns-Consistent ts (entrance n) (entrance-Consistent n) in ground (arith, v, free)
