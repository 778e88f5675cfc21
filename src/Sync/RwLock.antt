-- ===== src/Sync/RwLock.antt =====
-- The spinlock and the read-write lock of FeatherOS/kernel/sync/sync.c, one step for each access
-- to shared memory. The `int32_t` counts are words.
mod Counts
mod Invariant
pub mod Exclusion
pub mod Alone
mod Tests
use mathlib.Core.Path.{subst, fun_ext}
use mathlib.Core.Logic.{dite, ite}
use native.Mathlib.Nat.{
  add_comm, add_assoc, le_refl, le_trans, mod-eq_of_lt, mod-lt, mod-eq-sub-mod, mod-add-mod,
}
use native.Mathlib.Decide.{ℕ_discrete, dec_lt, dec_le}
use feather_os.Prelude.{
  ℕ, zero, suc, ◌+◌, ◌-◌, ◌*◌, ◌/◌, ◌%◌, ◌^◌, ◌≤◌, ◌<◌, min, max, ◌≡◌, refl, sym, ap, ◌∙◌, ◌≢◌, ◌↔◌,
  ◌⊎◌, inl, inr, Bool, true, false, not, ◌&&◌, ◌||◌, Option, none, some, List, [], ◌∷◌, ◌++◌, map,
  arith, ltb, leb, ◌==◌, if◌then◌else◌, ltb→lt, lt→ltb, leb→le, ==_iff, tests, Bool-cases,
  Option-cases, length, get_or, set, take, drop, replicate,
}

pub record RwLock : Type 0 where
  pub lock : ℕ
  pub readers : ℕ
  pub writers : ℕ

pub rwlock_init : RwLock
rwlock_init = record { lock = 0; readers = 0; writers = 0 }

-- Where a thread stands inside an operation: in spin_lock; at the test of `readers` and `writers`;
-- at the spin_unlock of the branch that the test refuses; at the change of the counts; at the last
-- spin_unlock.
pub data Stage : Type 0 where
  acquire : Stage
  check : Stage
  back_off : Stage
  commit : Stage
  release : Stage

pub data Outcome : Type 0 where
  at : Stage → Outcome
  returned : Bool → Outcome

-- One round of the loop of spin_lock: its compare-and-swap, then on or round again.
unfoldable pub spin_lock : RwLock → Stage → RwLock × Outcome
spin_lock l next = if l.lock == 0 then (record l { lock = 1 }, at next) else (l, at acquire)

unfoldable pub spin_unlock : RwLock → RwLock
spin_unlock l = record l { lock = 0 }

-- A stage that an operation does not have leads on to its next.
unfoldable pub read_lock : Stage → RwLock → RwLock × Outcome
read_lock acquire l = spin_lock l check
read_lock check l = (l, at (if l.writers == 0 then commit else back_off))
read_lock back_off l = (spin_unlock l, at acquire)
read_lock commit l = (record l { readers = (l.readers + 1) % 2 ^ 32 }, at release)
read_lock release l = (spin_unlock l, returned true)

unfoldable pub read_unlock : Stage → RwLock → RwLock × Outcome
read_unlock acquire l = spin_lock l commit
read_unlock check l = (l, at commit)
read_unlock back_off l = (l, at commit)
read_unlock commit l = (record l { readers = (l.readers + 2 ^ 32 - 1) % 2 ^ 32 }, at release)
read_unlock release l = (spin_unlock l, returned true)

unfoldable pub read_trylock : Stage → RwLock → RwLock × Outcome
read_trylock acquire l = spin_lock l check
read_trylock check l = (l, at (if l.writers == 0 then commit else back_off))
read_trylock back_off l = (spin_unlock l, returned false)
read_trylock commit l = (record l { readers = (l.readers + 1) % 2 ^ 32 }, at release)
read_trylock release l = (spin_unlock l, returned true)

unfoldable pub write_lock : Stage → RwLock → RwLock × Outcome
write_lock acquire l = spin_lock l check
write_lock check l = (l, at (if (l.readers == 0) && (l.writers == 0) then commit else back_off))
write_lock back_off l = (spin_unlock l, at acquire)
write_lock commit l = (record l { writers = 1 }, at release)
write_lock release l = (spin_unlock l, returned true)

unfoldable pub write_unlock : Stage → RwLock → RwLock × Outcome
write_unlock acquire l = spin_lock l commit
write_unlock check l = (l, at commit)
write_unlock back_off l = (l, at commit)
write_unlock commit l = (record l { writers = 0 }, at release)
write_unlock release l = (spin_unlock l, returned true)

unfoldable pub write_trylock : Stage → RwLock → RwLock × Outcome
write_trylock acquire l = spin_lock l check
write_trylock check l = (l, at (if (l.readers == 0) && (l.writers == 0) then commit else back_off))
write_trylock back_off l = (spin_unlock l, returned false)
write_trylock commit l = (record l { writers = 1 }, at release)
write_trylock release l = (spin_unlock l, returned true)

-- What a thread is doing with the lock.
pub data Thread : Type 0 where
  idle : Thread
  reader : Thread
  writer : Thread
  read_locking : Stage → Thread
  read_unlocking : Stage → Thread
  read_trying : Stage → Thread
  write_locking : Stage → Thread
  write_unlocking : Stage → Thread
  write_trying : Stage → Thread

-- The thread after a step of an operation that leaves it with `won` or `lost`.
abbrev pub settle : (Stage → Thread) → Thread → Thread → Outcome → Thread
settle inside won lost (at s) = inside s
settle inside won lost (returned true) = won
settle inside won lost (returned false) = lost

abbrev pub finish : (Stage → Thread) → Thread → Thread → RwLock × Outcome → RwLock × Thread
finish inside won lost r = (r.0, settle inside won lost r.1)

unfoldable pub advance : Thread → RwLock → RwLock × Thread
advance idle l = (l, idle)
advance reader l = (l, reader)
advance writer l = (l, writer)
advance (read_locking s) l = finish read_locking reader idle (read_lock s l)
advance (read_unlocking s) l = finish read_unlocking idle idle (read_unlock s l)
advance (read_trying s) l = finish read_trying reader idle (read_trylock s l)
advance (write_locking s) l = finish write_locking writer idle (write_lock s l)
advance (write_unlocking s) l = finish write_unlocking idle idle (write_unlock s l)
advance (write_trying s) l = finish write_trying writer idle (write_trylock s l)

-- The calls of the six operations. Only a reader calls read_unlock, and only a writer write_unlock.
pub data Call : Type 0 where
  call_read_lock : Call
  call_read_trylock : Call
  call_write_lock : Call
  call_write_trylock : Call
  call_unlock : Call

unfoldable pub begin : Call → Thread → Thread
begin call_read_lock idle = read_locking acquire
begin call_read_trylock idle = read_trying acquire
begin call_write_lock idle = write_locking acquire
begin call_write_trylock idle = write_trying acquire
begin call_unlock reader = read_unlocking acquire
begin call_unlock writer = write_unlocking acquire
begin _ t = t

pub record System : Type 0 where
  pub lock : RwLock
  pub threads : List Thread

-- A thread begins a call, or takes the next step of the one it is in.
pub data Event : Type 0 where
  begins : ℕ → Call → Event
  steps : ℕ → Event

unfoldable pub happen : Event → System → System
happen (begins i c) s = record s { threads = set s.threads i (begin c (get_or s.threads i idle)) }
happen (steps i) s =
    let (l, t) = advance (get_or s.threads i idle) s.lock in
    record { lock = l; threads = set s.threads i t }

unfoldable pub run : List Event → System → System
run [] s = s
run (e ∷ es) s = run es (happen e s)
