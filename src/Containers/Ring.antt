-- ===== src/Containers/Ring.antt =====
-- The ring buffer of FeatherOS/kernel/lib/datastructures.c. An item is a `void *`, a number, and 0
-- is NULL.
pub mod Fifo
pub mod Queue
pub mod Refine
mod Tests
use mathlib.Core.Path.{subst, fun_ext}
use mathlib.Core.Logic.{dite, ite}
use native.Mathlib.Nat.{
  add_comm, add_assoc, le_refl, le_trans, mod-eq_of_lt, mod-lt, mod-eq-sub-mod, mod-add-mod,
}
use native.Mathlib.Decide.{ℕ_discrete, dec_lt, dec_le}
use feather_os.Prelude.{
  ℕ, zero, suc, ◌+◌, ◌-◌, ◌*◌, ◌/◌, ◌%◌, ◌^◌, ◌≤◌, ◌<◌, min, max, ◌≡◌, refl, sym, ap, ◌∙◌, ◌≢◌, ◌↔◌,
  ◌⊎◌, inl, inr, Bool, true, false, not, ◌&&◌, ◌||◌, Option, none, some, List, [], ◌∷◌, ◌++◌, map,
  arith, ltb, leb, ◌==◌, if◌then◌else◌, ltb→lt, lt→ltb, leb→le, ==_iff, tests, Bool-cases,
  Option-cases, length, get_or, set, take, drop, replicate,
}

pub record RingBuffer : Type 0 where
  pub buffer : List ℕ
  pub capacity : ℕ
  pub head : ℕ
  pub tail : ℕ
  pub size : ℕ
  pub full : Bool

-- `x++` on a `size_t`
abbrev pub next64 : ℕ → ℕ
next64 n = (n + 1) % 2 ^ 64

-- `buffer` stands for the cells that kmalloc gives, whatever they hold.
pub ring_init : List ℕ → ℕ → RingBuffer
ring_init buffer capacity = record {
  buffer = buffer;
  capacity = capacity;
  head = 0;
  tail = 0;
  size = 0;
  full = false;
}

-- The buffer pointer is NULL afterwards.
pub ring_destroy : RingBuffer → RingBuffer
ring_destroy ring = record ring { buffer = []; capacity = 0; size = 0 }

pub ring_is_empty : RingBuffer → Bool
ring_is_empty ring = (ring.size == 0) && not ring.full

pub ring_is_full : RingBuffer → Bool
ring_is_full ring = ring.full

pub ring_size : RingBuffer → ℕ
ring_size ring = ring.size

pub ring_capacity : RingBuffer → ℕ
ring_capacity ring = ring.capacity

pub ring_enqueue : RingBuffer → ℕ → RingBuffer × Bool
ring_enqueue ring item =
    if ring.full
    then (ring, false)
    else (let tail = next64 ring.tail % ring.capacity in
        (
          record ring {
            buffer = set ring.buffer ring.tail item;
            tail = tail;
            size = next64 ring.size;
            full = if tail == ring.head then true else ring.full;
          },
          true,
        ))

-- `size--` runs only where the ring is not empty.
pub ring_dequeue : RingBuffer → RingBuffer × ℕ
unfolding ring_is_empty
ring_dequeue ring = if ring_is_empty ring then (ring, 0) else (
  record ring {
    head = next64 ring.head % ring.capacity;
    size = (ring.size + 2 ^ 64 - 1) % 2 ^ 64;
    full = false;
  },
  get_or ring.buffer ring.head 0,
)

pub ring_peek : RingBuffer → ℕ
unfolding ring_is_empty
ring_peek ring = if ring_is_empty ring then 0 else get_or ring.buffer ring.head 0

pub ring_clear : RingBuffer → RingBuffer
ring_clear ring = record ring { head = 0; tail = 0; size = 0; full = false }
