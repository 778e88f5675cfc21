-- ===== src/Memory/Pages.antt =====
-- The page operations of FeatherOS/kernel/mm/memory.c. Each takes the global pointer and gives it
-- back; the part of an operation behind the guard is a function of its own over the manager.
pub mod Valid
pub mod Alloc
pub mod Free
pub mod Reserve
pub mod Unreserve
pub mod Trace
mod Tests
use feather_os.Prelude.{
  ℕ, zero, suc, ◌+◌, Bool, true, not, Option, none, some, ltb, leb, ◌==◌, if◌then◌else◌, ◌&&◌,
}
use feather_os.Prelude.Int.{pos, negsuc}
use feather_os.Bitmap.{add64, bitmap_set, bitmap_clr, bitmap_test, find_first_free}
use feather_os.Memory.State.{
  MemoryStats, MemoryManager, Global, memory_bitmap_magic, inc64, dec64, addr_to_page, page_to_addr,
}

-- `if (!mm || mm->magic != MEMORY_BITMAP_MAGIC) return d;` and the rest.
abbrev pub guarded : {A : Type 0} → A → (MemoryManager → MemoryManager × A) → Global → Global × A
guarded d body none = (none, d)
guarded d body (some mm) =
    if mm.magic == memory_bitmap_magic
    then (let (mm', r) = body mm in (some mm', r))
    else (some mm, d)

-- `stats.free_pages--` and `stats.free_pages++`
abbrev pub take_free : MemoryManager → MemoryManager
take_free mm = record mm { stats = record (mm.stats) { free_pages = dec64 mm.stats.free_pages } }

abbrev pub give_free : MemoryManager → MemoryManager
give_free mm = record mm { stats = record (mm.stats) { free_pages = inc64 mm.stats.free_pages } }

-- `if (free_pages < largest_free) largest_free = free_pages`, after `allocated_pages += count`
pub settle : ℕ → MemoryManager → MemoryManager
settle count mm = record mm {
  stats = record (mm.stats) {
    allocated_pages = add64 mm.stats.allocated_pages count;
    largest_free =
        if ltb mm.stats.free_pages mm.stats.largest_free
        then mm.stats.free_pages
        else mm.stats.largest_free;
  };
}

-- BITMAP_SET(mm->bitmap, page); mm->stats.free_pages--;
pub claim : ℕ → MemoryManager → MemoryManager
claim page mm = record (take_free mm) { bitmap = bitmap_set mm.bitmap page }

pub alloc_page : MemoryManager → MemoryManager × ℕ
alloc_page mm = elim (find_first_free mm.bitmap mm.max_pages 1) [
  | negsuc _ ↦ (mm, 0)
  | pos page ↦ (settle 1 (claim page mm), page_to_addr page)
]

pub physical_alloc_page : Global → Global × ℕ
unfolding alloc_page
physical_alloc_page = guarded 0 alloc_page

-- BITMAP_CLR(mm->bitmap, page); mm->stats.free_pages++; mm->stats.freed_pages++;
pub release : ℕ → MemoryManager → MemoryManager
release page mm = record mm {
  bitmap = bitmap_clr mm.bitmap page;
  stats = record (mm.stats) {
    free_pages = inc64 mm.stats.free_pages;
    freed_pages = inc64 mm.stats.freed_pages;
  };
}

pub free_page : ℕ → MemoryManager → MemoryManager × Unit {0}
unfolding release
free_page addr mm =
    let page = addr_to_page addr in
    if leb mm.max_pages page
    then (mm, tt)
    else if bitmap_test mm.bitmap page
    then (release page mm, tt)
    else (mm, tt)

pub physical_free_page : ℕ → Global → Global × Unit {0}
unfolding free_page
physical_free_page addr = guarded tt (free_page addr)

-- The loop over `page + i`, from `i` on with `n` rounds left.
pub claim_from : ℕ → ℕ → ℕ → MemoryManager → MemoryManager
claim_from page i zero mm = mm
claim_from page i (suc n) mm = claim_from page (i + 1) n (claim (add64 page i) mm)

pub alloc_pages : ℕ → MemoryManager → MemoryManager × ℕ
alloc_pages count mm = elim (find_first_free mm.bitmap mm.max_pages count) [
  | negsuc _ ↦ (mm, 0)
  | pos page ↦ (settle count (claim_from page 0 count mm), page_to_addr page)
]

pub physical_alloc_pages : ℕ → Global → Global × ℕ
unfolding alloc_pages
physical_alloc_pages count = guarded 0 (alloc_pages count)

-- The body of the loop of physical_free_pages.
pub free_step : ℕ → MemoryManager → MemoryManager
unfolding release
free_step page mm =
    if ltb page mm.max_pages && bitmap_test mm.bitmap page then release page mm else mm

pub free_from : ℕ → ℕ → ℕ → MemoryManager → MemoryManager
free_from start i zero mm = mm
free_from start i (suc n) mm = free_from start (i + 1) n (free_step (add64 start i) mm)

pub physical_free_pages : ℕ → ℕ → Global → Global × Unit {0}
unfolding free_from free_step
physical_free_pages addr count = guarded tt (λ mm. (free_from (addr_to_page addr) 0 count mm, tt))

pub physical_is_allocated : ℕ → Global → Bool
physical_is_allocated addr none = true
physical_is_allocated addr (some mm) =
    let page = addr_to_page addr in
    if not (mm.magic == memory_bitmap_magic)
    then true
    else if leb mm.max_pages page
    then true
    else bitmap_test mm.bitmap page

-- The body of the loop of physical_reserve.
pub reserve : ℕ → MemoryManager → MemoryManager
unfolding claim
reserve page mm =
    if ltb page mm.max_pages
    then (let mm' = if not (bitmap_test mm.bitmap page) then claim page mm else mm in
        record mm' {
          stats = record (mm'.stats) { reserved_pages = inc64 mm'.stats.reserved_pages };
        })
    else mm

pub reserve_from : ℕ → ℕ → ℕ → MemoryManager → MemoryManager
reserve_from start i zero mm = mm
reserve_from start i (suc n) mm = reserve_from start (i + 1) n (reserve (add64 start i) mm)

pub physical_reserve : ℕ → ℕ → Global → Global × Unit {0}
unfolding reserve_from
physical_reserve addr count = guarded tt (λ mm. (reserve_from (addr_to_page addr) 0 count mm, tt))

-- The body of the loop of physical_unreserve: it tests and sets as physical_reserve does.
pub unreserve : ℕ → MemoryManager → MemoryManager
unreserve page mm =
    if ltb page mm.max_pages
    then (let mm' =
          if not (bitmap_test mm.bitmap page)
          then record (give_free mm) { bitmap = bitmap_set mm.bitmap page }
          else mm in
        record mm' {
          stats = record (mm'.stats) { reserved_pages = dec64 mm'.stats.reserved_pages };
        })
    else mm

pub unreserve_from : ℕ → ℕ → ℕ → MemoryManager → MemoryManager
unreserve_from start i zero mm = mm
unreserve_from start i (suc n) mm = unreserve_from start (i + 1) n (unreserve (add64 start i) mm)

pub physical_unreserve : ℕ → ℕ → Global → Global × Unit {0}
unfolding unreserve_from
physical_unreserve addr count =
    guarded tt (λ mm. (unreserve_from (addr_to_page addr) 0 count mm, tt))

pub memory_get_stats : Global → Option MemoryStats
memory_get_stats none = none
memory_get_stats (some mm) = some mm.stats
