-- ===== src/Sync/Mutex.antt =====
-- The mutex of FeatherOS/kernel/sync/sync.c, one step for each access to its fields.
pub mod Exclusion
mod Tests
use mathlib.Core.Path.{subst, fun_ext}
use mathlib.Core.Logic.{dite, ite}
use native.Mathlib.Nat.{
  add_comm, add_assoc, le_refl, le_trans, mod-eq_of_lt, mod-lt, mod-eq-sub-mod, mod-add-mod,
}
use native.Mathlib.Decide.{ℕ_discrete, dec_lt, dec_le}
use feather_os.Prelude.{
  ℕ, zero, suc, ◌+◌, ◌-◌, ◌*◌, ◌/◌, ◌%◌, ◌^◌, ◌≤◌, ◌<◌, min, max, ◌≡◌, refl, sym, ap, ◌∙◌, ◌≢◌, ◌↔◌,
  ◌⊎◌, inl, inr, Bool, true, false, not, ◌&&◌, ◌||◌, Option, none, some, List, [], ◌∷◌, ◌++◌, map,
  arith, ltb, leb, ◌==◌, if◌then◌else◌, ltb→lt, lt→ltb, leb→le, ==_iff, tests, Bool-cases,
  Option-cases, length, get_or, set, take, drop, replicate,
}
use feather_os.Sync.Atomic.{Atomic32, atomic_read, atomic_set, atomic_compare_and_swap}

-- `owner` is a pointer: 0 is NULL, and 1 the marker that mutex_lock stores.
pub record Mutex : Type 0 where
  pub locked : Atomic32
  pub owner : ℕ
  pub count : ℕ

unfoldable pub mutex_init : Mutex
mutex_init = record { locked = record { counter = 0 }; owner = 0; count = 0 }

-- Where a caller stands: outside; at the fast path of mutex_lock; in its loop; about to store the
-- owner; at mutex_trylock; with the mutex; about to clear the owner and to release in mutex_unlock.
pub data Locker : Type 0 where
  outside : Locker
  at_fast_path : Locker
  at_slow_path : Locker
  marking : Locker
  trying : Locker
  holding : Locker
  clearing : Locker
  releasing : Locker

unfoldable pub mutex_lock_swap : Mutex → Mutex × Locker
mutex_lock_swap mutex =
    let r = atomic_compare_and_swap mutex.locked 0 1 in
    (record mutex { locked = r.0 }, if r.1 then marking else at_slow_path)

unfoldable pub mutex_lock_mark : Mutex → Mutex
mutex_lock_mark mutex = record mutex { owner = 1 }

unfoldable pub mutex_trylock : Mutex → Mutex × Bool
mutex_trylock mutex =
    let r = atomic_compare_and_swap mutex.locked 0 1 in (record mutex { locked = r.0 }, r.1)

unfoldable pub mutex_unlock_clear : Mutex → Mutex
mutex_unlock_clear mutex = record mutex { owner = 0 }

unfoldable pub mutex_unlock_release : Mutex → Mutex
mutex_unlock_release mutex = record mutex { locked = atomic_set mutex.locked 0 }

unfoldable pub mutex_is_locked : Mutex → Bool
mutex_is_locked mutex = not (atomic_read mutex.locked == 0)

-- The next access of a caller.
unfoldable pub move_on : Locker → Mutex → Mutex × Locker
move_on outside mutex = (mutex, outside)
move_on at_fast_path mutex = mutex_lock_swap mutex
move_on at_slow_path mutex = mutex_lock_swap mutex
move_on marking mutex = (mutex_lock_mark mutex, holding)
move_on trying mutex = let r = mutex_trylock mutex in (r.0, if r.1 then holding else outside)
move_on holding mutex = (mutex, holding)
move_on clearing mutex = (mutex_unlock_clear mutex, releasing)
move_on releasing mutex = (mutex_unlock_release mutex, outside)

pub data Request : Type 0 where
  mutex_lock : Request
  mutex_try : Request
  mutex_unlock : Request

-- Only a caller that has the mutex calls mutex_unlock.
unfoldable pub request : Request → Locker → Locker
request mutex_lock outside = at_fast_path
request mutex_try outside = trying
request mutex_unlock holding = clearing
request _ l = l

pub record Room : Type 0 where
  pub mutex : Mutex
  pub lockers : List Locker

pub data Turn : Type 0 where
  requests : ℕ → Request → Turn
  moves : ℕ → Turn

unfoldable pub turn : Turn → Room → Room
turn (requests i q) s = record s {
  lockers = set s.lockers i (request q (get_or s.lockers i outside));
}
turn (moves i) s =
    let (m, l) = move_on (get_or s.lockers i outside) s.mutex in
    record { mutex = m; lockers = set s.lockers i l }

unfoldable pub turns : List Turn → Room → Room
turns [] s = s
turns (t ∷ ts) s = turns ts (turn t s)
