-- ===== src/Bitmap/Laws.antt =====
-- The bitmap is an array of bits: what a set and a clear do to every bit of it.
use feather_os.Prelude.{
  ℕ, ◌*◌, ◌/◌, ◌%◌, ◌<◌, ◌≡◌, true, false, length, arith, ◌==◌, if◌then◌else◌, replicate,
}
use feather_os.Prelude.Arrays.{get_or-set, length-set, get_or-replicate}
use feather_os.Bits.{set_bit, clear_bit}
use feather_os.Bits.Laws.{test_bit-set_bit, test_bit-clear_bit, test_bit_ones}
use feather_os.Bitmap.{Bitmap, word, bitmap_set, bitmap_clr, bitmap_test}

-- After a set inside the bitmap that bit is on, and every other bit is as before.
pub test-set :
    (bm : Bitmap) (i j : ℕ)
    → i < 32 * length bm
    → bitmap_test (bitmap_set bm i) j ≡ (if i == j then true else bitmap_test bm j)
unfolding bitmap_set bitmap_test
test-set bm i j h = ground (
  arith,
  get_or-set bm (i / 32) (j / 32) (set_bit (word bm (i / 32)) (i % 32)) 0,
  test_bit-set_bit (word bm (i / 32)) (i % 32) (j % 32),
)

pub test-clr :
    (bm : Bitmap) (i j : ℕ)
    → i < 32 * length bm
    → bitmap_test (bitmap_clr bm i) j ≡ (if i == j then false else bitmap_test bm j)
unfolding bitmap_clr bitmap_test
test-clr bm i j h = ground (
  arith,
  get_or-set bm (i / 32) (j / 32) (clear_bit (word bm (i / 32)) (i % 32)) 0,
  test_bit-clear_bit (word bm (i / 32)) (i % 32) (j % 32),
)

pub length-bitmap_set : (bm : Bitmap) (i : ℕ) → length (bitmap_set bm i) ≡ length bm
unfolding bitmap_set
length-bitmap_set bm i = length-set bm (i / 32) _

pub length-bitmap_clr : (bm : Bitmap) (i : ℕ) → length (bitmap_clr bm i) ≡ length bm
unfolding bitmap_clr
length-bitmap_clr bm i = length-set bm (i / 32) _

-- A bitmap of words 0xFFFFFFFF, as `memset(…, 0xFF, …)` leaves it, has every bit on.
pub test_ones : (n j : ℕ) → j < 32 * n → bitmap_test (replicate n 0xFFFF_FFFF) j ≡ true
unfolding bitmap_test
test_ones n j h =
    rw (get_or-replicate {A = ℕ} n (j / 32) 0xFFFF_FFFF 0 (omega arith))
      (test_bit_ones (j % 32) (omega arith))
