-- ===== src/Sync/Atomic.antt =====
-- The atomic operations of FeatherOS/kernel/sync/sync.c. A counter is a word: an `int32_t` or
-- `int64_t` by its two's complement, so that the locked instructions are arithmetic modulo 2 ^ 32
-- and 2 ^ 64.
pub mod Laws
use mathlib.Core.Path.{subst, fun_ext}
use mathlib.Core.Logic.{dite, ite}
use native.Mathlib.Nat.{
  add_comm, add_assoc, le_refl, le_trans, mod-eq_of_lt, mod-lt, mod-eq-sub-mod, mod-add-mod,
}
use native.Mathlib.Decide.{ℕ_discrete, dec_lt, dec_le}
use feather_os.Prelude.{
  ℕ, zero, suc, ◌+◌, ◌-◌, ◌*◌, ◌/◌, ◌%◌, ◌^◌, ◌≤◌, ◌<◌, min, max, ◌≡◌, refl, sym, ap, ◌∙◌, ◌≢◌, ◌↔◌,
  ◌⊎◌, inl, inr, Bool, true, false, not, ◌&&◌, ◌||◌, Option, none, some, List, [], ◌∷◌, ◌++◌, map,
  arith, ltb, leb, ◌==◌, if◌then◌else◌, ltb→lt, lt→ltb, leb→le, ==_iff, tests, Bool-cases,
  Option-cases, length, get_or, set, take, drop, replicate,
}

pub record Atomic32 : Type 0 where
  pub counter : ℕ

unfoldable pub atomic_read : Atomic32 → ℕ
atomic_read v = v.counter

unfoldable pub atomic_set : Atomic32 → ℕ → Atomic32
atomic_set v val = record v { counter = val }

unfoldable pub atomic_add : Atomic32 → ℕ → Atomic32
atomic_add v val = record v { counter = (v.counter + val) % 2 ^ 32 }

unfoldable pub atomic_sub : Atomic32 → ℕ → Atomic32
atomic_sub v val = record v { counter = (v.counter + 2 ^ 32 - val) % 2 ^ 32 }

unfoldable pub atomic_inc : Atomic32 → Atomic32
atomic_inc v = record v { counter = (v.counter + 1) % 2 ^ 32 }

unfoldable pub atomic_dec : Atomic32 → Atomic32
atomic_dec v = record v { counter = (v.counter + 2 ^ 32 - 1) % 2 ^ 32 }

-- `xadd` leaves the old value in `result`.
unfoldable pub atomic_add_return : Atomic32 → ℕ → Atomic32 × ℕ
atomic_add_return v val =
    let result = v.counter in
    (record v { counter = (v.counter + val) % 2 ^ 32 }, (result + val) % 2 ^ 32)

unfoldable pub atomic_sub_return : Atomic32 → ℕ → Atomic32 × ℕ
atomic_sub_return v val = atomic_add_return v ((2 ^ 32 - val) % 2 ^ 32)

-- `prev` is the value before the `cmpxchg`, which stores `new_val` where it equals `old_val`.
unfoldable pub atomic_compare_and_swap : Atomic32 → ℕ → ℕ → Atomic32 × Bool
atomic_compare_and_swap v old_val new_val =
    let prev = v.counter in
    (if prev == old_val then record v { counter = new_val } else v, prev == old_val)

pub record Atomic64 : Type 0 where
  pub counter : ℕ

pub atomic64_read : Atomic64 → ℕ
atomic64_read v = v.counter

pub atomic64_set : Atomic64 → ℕ → Atomic64
atomic64_set v val = record v { counter = val }

unfoldable pub atomic64_add : Atomic64 → ℕ → Atomic64
atomic64_add v val = record v { counter = (v.counter + val) % 2 ^ 64 }

unfoldable pub atomic64_sub : Atomic64 → ℕ → Atomic64
atomic64_sub v val = record v { counter = (v.counter + 2 ^ 64 - val) % 2 ^ 64 }

unfoldable pub atomic64_inc : Atomic64 → Atomic64
atomic64_inc v = record v { counter = (v.counter + 1) % 2 ^ 64 }

unfoldable pub atomic64_dec : Atomic64 → Atomic64
atomic64_dec v = record v { counter = (v.counter + 2 ^ 64 - 1) % 2 ^ 64 }

unfoldable pub atomic64_add_return : Atomic64 → ℕ → Atomic64 × ℕ
atomic64_add_return v val =
    let result = v.counter in
    (record v { counter = (v.counter + val) % 2 ^ 64 }, (result + val) % 2 ^ 64)

unfoldable pub atomic64_compare_and_swap : Atomic64 → ℕ → ℕ → Atomic64 × Bool
atomic64_compare_and_swap v old_val new_val =
    let prev = v.counter in
    (if prev == old_val then record v { counter = new_val } else v, prev == old_val)
