-- ===== src/Bitmap.antt =====
-- The bitmap of the physical memory manager, an array of `uint32_t` with one bit for each page:
-- the macros BITMAP_SET, BITMAP_CLR, BITMAP_TEST and the function find_first_free of
-- FeatherOS/kernel/mm/memory.c. A read outside the array, which C leaves undefined, gives a word of
-- zeros here, and a write outside it changes nothing.
pub mod Laws
pub mod Search
pub mod Count
use feather_os.Prelude.{ℕ, zero, suc, ◌+◌, ◌/◌, ◌%◌, ◌^◌, Bool, true, false, List, get_or, set}
use feather_os.Prelude.Int.{ℤ, negsuc, to_int}
use feather_os.Bits.{set_bit, clear_bit, test_bit}

abbrev pub Bitmap : Type 0
Bitmap = List ℕ

-- `size_t` addition
abbrev pub add64 : ℕ → ℕ → ℕ
add64 a b = (a + b) % 2 ^ 64

abbrev pub word : Bitmap → ℕ → ℕ
word bm i = get_or bm i 0

unfoldable pub bitmap_set : Bitmap → ℕ → Bitmap
unfolding set_bit
bitmap_set bm bit = set bm (bit / 32) (set_bit (word bm (bit / 32)) (bit % 32))

unfoldable pub bitmap_clr : Bitmap → ℕ → Bitmap
unfolding clear_bit
bitmap_clr bm bit = set bm (bit / 32) (clear_bit (word bm (bit / 32)) (bit % 32))

unfoldable pub bitmap_test : Bitmap → ℕ → Bool
unfolding test_bit
bitmap_test bm bit = test_bit (word bm (bit / 32)) (bit % 32)

-- The inner loop of find_first_free, from `j` on with `n` rounds left: whether `found` stays true.
all_free : Bitmap → ℕ → ℕ → ℕ → Bool
all_free bm i j zero = true
all_free bm i j (suc n) = elim (bitmap_test bm (add64 i j)) [
  | true ↦ false
  | false ↦ all_free bm i (j + 1) n
]

-- The outer loop, from `i` on with `n` rounds left.
find_from : Bitmap → ℕ → ℕ → ℕ → ℤ
find_from bm count i zero = negsuc 0
find_from bm count i (suc n) = elim (all_free bm i 0 count) [
  | true ↦ to_int i
  | false ↦ find_from bm count (i + 1) n
]

unfoldable pub find_first_free : Bitmap → ℕ → ℕ → ℤ
unfolding all_free find_from
find_first_free bm max_bits count = find_from bm count 0 max_bits
