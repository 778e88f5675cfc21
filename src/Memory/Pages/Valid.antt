-- ===== src/Memory/Pages/Valid.antt =====
-- The invariants of the memory manager, and the single-page steps that keep them.
use feather_os.Prelude.{ℕ, ◌+◌, ◌*◌, ◌^◌, ◌≤◌, ◌<◌, ◌≡◌, true, false, length, arith, ◌%◌}
use feather_os.Bitmap.{bitmap_test}
use feather_os.Bitmap.Laws.{test-set, test-clr, length-bitmap_set, length-bitmap_clr}
use feather_os.Bitmap.Count.{free_count, free_count-le, free_count-set, free_count-clr}
use feather_os.Memory.State.{MemoryManager, memory_bitmap_magic}
use feather_os.Memory.Pages.{claim, release, settle}

-- The bitmap covers every page and one bit more, which stays set and so ends every run.
pub record IsValid (mm : MemoryManager) : Type 0 where
  pub tagged : mm.magic ≡ memory_bitmap_magic
  pub small : mm.max_pages ≤ 2 ^ 31
  pub covered : mm.max_pages < 32 * length mm.bitmap
  pub stopped : bitmap_test mm.bitmap mm.max_pages ≡ true

-- `free_pages`, a number of 64 bits, is the number of free pages and an excess `k` over it.
pub record IsCounted (k : ℕ) (mm : MemoryManager) : Type 0 where
  pub counted : mm.stats.free_pages ≡ (free_count mm.bitmap mm.max_pages + k) % 2 ^ 64

pub claim-IsValid :
    (p : ℕ) {mm : MemoryManager} → p < mm.max_pages → IsValid mm → IsValid (claim p mm)
unfolding claim
claim-IsValid p {mm} h v =
    ground (arith, test-set mm.bitmap p mm.max_pages, length-bitmap_set mm.bitmap p)

pub claim-IsCounted :
    (k p : ℕ) {mm : MemoryManager}
    → p < mm.max_pages
    → bitmap_test mm.bitmap p ≡ false
    → IsValid mm
    → IsCounted k mm
    → IsCounted k (claim p mm)
unfolding claim
claim-IsCounted k p {mm} h e v c =
    ground (arith, free_count-set mm.bitmap p mm.max_pages, free_count-le mm.bitmap mm.max_pages)

pub release-IsValid :
    (p : ℕ) {mm : MemoryManager} → p < mm.max_pages → IsValid mm → IsValid (release p mm)
unfolding release
release-IsValid p {mm} h v =
    ground (arith, test-clr mm.bitmap p mm.max_pages, length-bitmap_clr mm.bitmap p)

pub release-IsCounted :
    (k p : ℕ) {mm : MemoryManager}
    → p < mm.max_pages
    → bitmap_test mm.bitmap p ≡ true
    → IsValid mm
    → IsCounted k mm
    → IsCounted k (release p mm)
unfolding release
release-IsCounted k p {mm} h e v c = ground (
  arith,
  free_count-clr mm.bitmap p mm.max_pages,
  free_count-le mm.bitmap mm.max_pages,
  free_count-le (release p mm).bitmap mm.max_pages,
)

pub settle-IsValid : (n : ℕ) {mm : MemoryManager} → IsValid mm → IsValid (settle n mm)
unfolding settle
settle-IsValid n v = record {
  tagged = v.tagged;
  small = v.small;
  covered = v.covered;
  stopped = v.stopped;
}

pub settle-IsCounted : (k n : ℕ) {mm : MemoryManager} → IsCounted k mm → IsCounted k (settle n mm)
unfolding settle
settle-IsCounted k n c = record { counted = c.counted }
