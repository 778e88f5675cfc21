-- ===== src/Containers/KHeap.antt =====
-- The bump allocator kmalloc, kzalloc, krealloc and kfree of FeatherOS/kernel/lib/datastructures.c.
pub mod Blocks
mod Tests
use mathlib.Core.Path.{subst, fun_ext}
use mathlib.Core.Logic.{dite, ite}
use native.Mathlib.Nat.{
  add_comm, add_assoc, le_refl, le_trans, mod-eq_of_lt, mod-lt, mod-eq-sub-mod, mod-add-mod,
}
use native.Mathlib.Decide.{ℕ_discrete, dec_lt, dec_le}
use feather_os.Prelude.{
  ℕ, zero, suc, ◌+◌, ◌-◌, ◌*◌, ◌/◌, ◌%◌, ◌^◌, ◌≤◌, ◌<◌, min, max, ◌≡◌, refl, sym, ap, ◌∙◌, ◌≢◌, ◌↔◌,
  ◌⊎◌, inl, inr, Bool, true, false, not, ◌&&◌, ◌||◌, Option, none, some, List, [], ◌∷◌, ◌++◌, map,
  arith, ltb, leb, ◌==◌, if◌then◌else◌, ltb→lt, lt→ltb, leb→le, ==_iff, tests, Bool-cases,
  Option-cases, length, get_or, set, take, drop, replicate,
}

abbrev pub heap_start : ℕ
heap_start = 0x200000

abbrev pub heap_size : ℕ
heap_size = 1024 * 1024

-- The two static variables.
pub record KHeap : Type 0 where
  pub heap_ptr : ℕ
  pub heap_left : ℕ

unfoldable pub boot_heap : KHeap
boot_heap = record { heap_ptr = heap_start; heap_left = heap_size }

-- `(size + 7) & ~7` on a `size_t`
abbrev pub align8 : ℕ → ℕ
align8 size = (size + 7) % 2 ^ 64 / 8 * 8

unfoldable pub kmalloc : ℕ → KHeap → KHeap × ℕ
kmalloc size h = if size == 0 then (h, 0) else if ltb h.heap_left (align8 size) then (h, 0) else (
  record h {
    heap_ptr = (h.heap_ptr + align8 size) % 2 ^ 64;
    heap_left = h.heap_left - align8 size;
  },
  h.heap_ptr,
)

-- kfree releases nothing, and krealloc is a new allocation.
pub kfree : ℕ → KHeap → KHeap
kfree ptr h = h

pub krealloc : ℕ → ℕ → KHeap → KHeap × ℕ
krealloc ptr new_size h = kmalloc new_size h
