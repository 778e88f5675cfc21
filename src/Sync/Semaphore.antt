-- ===== src/Sync/Semaphore.antt =====
-- The semaphore of FeatherOS/kernel/sync/sync.c: sem_wait, sem_trywait and sem_post, one step for
-- each access to the count, which is a word.
pub mod Permits
pub mod Alone
mod Tests
use mathlib.Core.Path.{subst, fun_ext}
use mathlib.Core.Logic.{dite, ite}
use native.Mathlib.Nat.{
  add_comm, add_assoc, le_refl, le_trans, mod-eq_of_lt, mod-lt, mod-eq-sub-mod, mod-add-mod,
}
use native.Mathlib.Decide.{ℕ_discrete, dec_lt, dec_le}
use feather_os.Prelude.{
  ℕ, zero, suc, ◌+◌, ◌-◌, ◌*◌, ◌/◌, ◌%◌, ◌^◌, ◌≤◌, ◌<◌, min, max, ◌≡◌, refl, sym, ap, ◌∙◌, ◌≢◌, ◌↔◌,
  ◌⊎◌, inl, inr, Bool, true, false, not, ◌&&◌, ◌||◌, Option, none, some, List, [], ◌∷◌, ◌++◌, map,
  arith, ltb, leb, ◌==◌, if◌then◌else◌, ltb→lt, lt→ltb, leb→le, ==_iff, tests, Bool-cases,
  Option-cases, length, get_or, set, take, drop, replicate,
}
use feather_os.Sync.Atomic.{Atomic32, atomic_read, atomic_set, atomic_inc, atomic_compare_and_swap}

pub record Semaphore : Type 0 where
  pub count : Atomic32
  pub max_count : ℕ

pub sem_init : ℕ → ℕ → Semaphore
sem_init count max_count = record { count = record { counter = count }; max_count = max_count }

-- `old <= 0`, of an `int32_t`
abbrev pub is_not_positive : ℕ → Bool
is_not_positive old = (old == 0) || leb (2 ^ 31) old

-- A caller before or after its call; about to read `old` in sem_wait or sem_trywait; about to
-- compare and swap; and with a permit, after a call that gave it one.
pub data Waiter : Type 0 where
  away : Waiter
  waiting : Waiter
  swapping : ℕ → Waiter
  trying : Waiter
  try_swapping : ℕ → Waiter
  permitted : Waiter

-- The loop of sem_wait: its read, then its compare-and-swap, or round again.
unfoldable pub sem_wait_read : Semaphore → Waiter
sem_wait_read sem =
    let old = atomic_read sem.count in if is_not_positive old then waiting else swapping old

unfoldable pub sem_wait_swap : Semaphore → ℕ → Semaphore × Waiter
sem_wait_swap sem old =
    let r = atomic_compare_and_swap sem.count old ((old + 2 ^ 32 - 1) % 2 ^ 32) in
    (record sem { count = r.0 }, if r.1 then permitted else waiting)

-- sem_trywait gives up where it reads a count that is not positive.
unfoldable pub sem_trywait_read : Semaphore → Waiter
sem_trywait_read sem =
    let old = atomic_read sem.count in if is_not_positive old then away else try_swapping old

unfoldable pub sem_trywait_swap : Semaphore → ℕ → Semaphore × Waiter
sem_trywait_swap sem old =
    let r = atomic_compare_and_swap sem.count old ((old + 2 ^ 32 - 1) % 2 ^ 32) in
    (record sem { count = r.0 }, if r.1 then permitted else trying)

unfoldable pub sem_post : Semaphore → Semaphore
sem_post sem = record sem { count = atomic_inc sem.count }

-- The next access of a caller; one with a permit posts it back.
unfoldable pub progress : Waiter → Semaphore → Semaphore × Waiter
progress away sem = (sem, away)
progress waiting sem = (sem, sem_wait_read sem)
progress (swapping old) sem = sem_wait_swap sem old
progress trying sem = (sem, sem_trywait_read sem)
progress (try_swapping old) sem = sem_trywait_swap sem old
progress permitted sem = (sem_post sem, away)

pub record Callers : Type 0 where
  pub sem : Semaphore
  pub waiters : List Waiter

pub data Act : Type 0 where
  waits : ℕ → Act
  tries : ℕ → Act
  goes_on : ℕ → Act

unfoldable pub enter : Waiter → Waiter → Waiter
enter how away = how
enter how w = w

unfoldable pub act : Act → Callers → Callers
act (waits i) c = record c { waiters = set c.waiters i (enter waiting (get_or c.waiters i away)) }
act (tries i) c = record c { waiters = set c.waiters i (enter trying (get_or c.waiters i away)) }
act (goes_on i) c =
    let (s, w) = progress (get_or c.waiters i away) c.sem in
    record { sem = s; waiters = set c.waiters i w }

unfoldable pub acts : List Act → Callers → Callers
acts [] c = c
acts (a ∷ rest) c = acts rest (act a c)
