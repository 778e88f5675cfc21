-- ===== src/Memory/Pages/Tests.antt =====
-- Runs of the page operations on a small machine, and the theorems at it.
use feather_os.Prelude.{ℕ, ◌<◌, ◌≡◌, refl, ◌↔◌, true, false, some, List, [], ◌∷◌, arith}
use feather_os.Bitmap.{bitmap_test, find_first_free, bitmap_set}
use feather_os.Bitmap.Count.{free_count}
use feather_os.Memory.State.{MemoryStats, MemoryManager, Global}
use feather_os.Memory.Pages.{
  physical_alloc_page, physical_alloc_pages, physical_free_pages, physical_free_page, alloc_pages,
  alloc_page, claim_from, claim, physical_unreserve, unreserve_from, unreserve,
}
use feather_os.Memory.Pages.Valid.{IsValid, IsCounted}
use feather_os.Memory.Pages.Alloc.{Allocates, physical_alloc_pages_lem}
use feather_os.Memory.Pages.Free.{physical_free_page-eq-pages}
use feather_os.Memory.Pages.Trace.{
  PageOp, alloc_one, alloc_many, free_one, free_many, reserve_many, unreserve_many, excess, run,
  Sound, run-Sound, bit_of, alloc_free_restores, alloc_page-zero_iff,
}

abbrev no_stats : MemoryStats
no_stats = record {
  total_pages = 20;
  free_pages = 20;
  reserved_pages = 0;
  kernel_pages = 0;
  largest_free = 20;
  allocated_pages = 0;
  freed_pages = 0;
}

-- Twenty pages; `used` is the word of their bits, whose upper twelve are set.
abbrev machine : ℕ → MemoryManager
machine used = record {
  total_memory = 81920;
  bitmap_phys_addr = 0x200000;
  bitmap = used ∷ [];
  bitmap_size = 4;
  bitmap_pages = 1;
  memory_start = 0;
  memory_end = 0;
  max_pages = 20;
  stats = no_stats;
  magic = 0xFEAD;
}

-- Pages 0, 1 and 4 are in use.
abbrev busy : MemoryManager
busy = machine 0xFFF0_0013

busy-IsValid : IsValid busy
unfolding bitmap_test
busy-IsValid = record { tagged = refl; small = omega arith; covered = omega arith; stopped = refl }

busy-IsCounted : IsCounted 3 busy
unfolding free_count bitmap_test
busy-IsCounted = record { counted = omega arith }

-- The first page that is free is page 2.
alloc_runs : (physical_alloc_page (some busy)).1 ≡ 0x2000
unfolding physical_alloc_page alloc_page find_first_free bitmap_test
alloc_runs = refl

abbrev after_two : Global × ℕ
after_two = (some (machine 0xFFF0_001F), 0x2000)

-- Pages 2 and 3 fit between 1 and 4; three pages start behind page 4.
alloc_pages_runs :
    ((physical_alloc_pages 2 (some busy)).1 ≡ 0x2000)
    × ((physical_alloc_pages 3 (some busy)).1 ≡ 0x5000)
unfolding physical_alloc_pages alloc_pages claim_from claim find_first_free bitmap_test
alloc_pages_runs = (refl, refl)

full_runs : physical_alloc_page (some (machine 0xFFFF_FFFF)) ≡ (some (machine 0xFFFF_FFFF), 0)
unfolding physical_alloc_page alloc_page find_first_free bitmap_test
full_runs = refl

physical_alloc_pages_example : Allocates busy 3 (physical_alloc_pages 3 (some busy))
physical_alloc_pages_example = physical_alloc_pages_lem 3 busy-IsValid (omega arith)

physical_free_page_example :
    physical_free_page 0x4000 (some busy) ≡ physical_free_pages 0x4000 1 (some busy)
physical_free_page_example = physical_free_page-eq-pages 0x4000 (omega arith) busy-IsValid

abbrev script : List PageOp
script =
    alloc_many 3
    ∷ free_one 0x1000
    ∷ alloc_one
    ∷ reserve_many 0x9000 2
    ∷ unreserve_many 0xB000 2
    ∷ free_many 0x5000 3
    ∷ []

run-Sound_example : Sound (excess 3 script (some busy)) 20 (run script (some busy))
run-Sound_example = run-Sound 3 script (omega arith) busy-IsValid busy-IsCounted

-- Pages 2 and 3 are free, and are taken and counted as free.
excess_grows : excess 3 (unreserve_many 0x2000 2 ∷ []) (some busy) ≡ 7
unfolding excess physical_unreserve unreserve_from unreserve bitmap_test bitmap_set free_count
excess_grows = refl

taken : physical_alloc_pages 2 (some busy) ≡ ((physical_alloc_pages 2 (some busy)).0, 0x2000)
unfolding physical_alloc_pages alloc_pages claim_from claim find_first_free bitmap_test
taken = refl

alloc_free_restores_example :
    bit_of (physical_free_pages 0x2000 2 (physical_alloc_pages 2 (some busy)).0).0 3
    ≡ bitmap_test busy.bitmap 3
alloc_free_restores_example =
    alloc_free_restores 2 0x2000 3 (physical_alloc_pages 2 (some busy)).0 busy-IsValid (omega arith)
      taken (omega arith)

-- All twenty pages are free.
abbrev idle : MemoryManager
idle = machine 0xFFF0_0000

idle-IsValid : IsValid idle
unfolding bitmap_test
idle-IsValid = record { tagged = refl; small = omega arith; covered = omega arith; stopped = refl }

idle_page_zero : bitmap_test idle.bitmap 0 ≡ false
unfolding bitmap_test
idle_page_zero = refl

busy_page_zero : bitmap_test busy.bitmap 0 ≡ true
unfolding bitmap_test
busy_page_zero = refl

alloc_page-zero_iff_example :
    ((physical_alloc_page (some busy)).1 ≡ 0)
    ↔ ((p : ℕ) → p < 20 → bitmap_test busy.bitmap p ≡ true)
alloc_page-zero_iff_example = alloc_page-zero_iff busy-IsValid busy_page_zero
