-- ===== src/Bitmap/Count.antt =====
-- How many of the first pages of a bitmap are free, and how a set or a clear changes that.
use feather_os.Prelude.{
  ℕ, zero, suc, ◌+◌, ◌*◌, ◌≤◌, ◌<◌, ◌≡◌, refl, true, false, length, arith, if◌then◌else◌,
}
use feather_os.Bitmap.{Bitmap, bitmap_set, bitmap_clr, bitmap_test}
use feather_os.Bitmap.Laws.{test-set, test-clr}

-- The number of clear bits among the first `n`.
unfoldable pub free_count : Bitmap → ℕ → ℕ
free_count bm zero = 0
free_count bm (suc n) = free_count bm n + (if bitmap_test bm n then 0 else 1)

pub free_count-le : (bm : Bitmap) (n : ℕ) → free_count bm n ≤ n
unfolding free_count
free_count-le bm zero = omega arith
free_count-le bm (suc n) = ground (arith, free_count-le bm n)

free_count-set_ge :
    (bm : Bitmap) (i n : ℕ)
    → i < 32 * length bm
    → n ≤ i
    → free_count (bitmap_set bm i) n ≡ free_count bm n
unfolding free_count
free_count-set_ge bm i zero h le = refl
free_count-set_ge bm i (suc n) h le = ground (arith, free_count-set_ge bm i n h, test-set bm i n h)

free_count-clr_ge :
    (bm : Bitmap) (i n : ℕ)
    → i < 32 * length bm
    → n ≤ i
    → free_count (bitmap_clr bm i) n ≡ free_count bm n
unfolding free_count
free_count-clr_ge bm i zero h le = refl
free_count-clr_ge bm i (suc n) h le = ground (arith, free_count-clr_ge bm i n h, test-clr bm i n h)

-- Taking a free page leaves one free page less.
pub free_count-set :
    (bm : Bitmap) (i n : ℕ)
    → i < 32 * length bm
    → i < n
    → bitmap_test bm i ≡ false
    → free_count (bitmap_set bm i) n + 1 ≡ free_count bm n
unfolding free_count
free_count-set bm i zero h lt e = absurd (omega arith)
free_count-set bm i (suc n) h lt e =
    ground (arith, free_count-set bm i n h, free_count-set_ge bm i n h, test-set bm i n h)

-- Freeing a page that is in use leaves one free page more.
pub free_count-clr :
    (bm : Bitmap) (i n : ℕ)
    → i < 32 * length bm
    → i < n
    → bitmap_test bm i ≡ true
    → free_count (bitmap_clr bm i) n ≡ free_count bm n + 1
unfolding free_count
free_count-clr bm i zero h lt e = absurd (omega arith)
free_count-clr bm i (suc n) h lt e =
    ground (arith, free_count-clr bm i n h, free_count-clr_ge bm i n h, test-clr bm i n h)
