-- ===== src/Memory/State.antt =====
-- The state of the physical memory manager and its address arithmetic, as
-- FeatherOS/include/memory.h declares them. All numbers are `uint64_t` or `size_t`, but `magic`,
-- which is `uint32_t`.
use feather_os.Prelude.{ℕ, ◌+◌, ◌-◌, ◌*◌, ◌/◌, ◌%◌, ◌^◌, Bool, Option, ◌==◌}
use feather_os.Bitmap.{Bitmap}

pub record MemoryStats : Type 0 where
  pub total_pages : ℕ
  pub free_pages : ℕ
  pub reserved_pages : ℕ
  pub kernel_pages : ℕ
  pub largest_free : ℕ
  pub allocated_pages : ℕ
  pub freed_pages : ℕ

pub record MemoryManager : Type 0 where
  pub total_memory : ℕ
  pub bitmap_phys_addr : ℕ
  pub bitmap : Bitmap
  pub bitmap_size : ℕ
  pub bitmap_pages : ℕ
  pub memory_start : ℕ
  pub memory_end : ℕ
  pub max_pages : ℕ
  pub stats : MemoryStats
  pub magic : ℕ

-- The global pointer `mem_manager`, `none` for NULL.
abbrev pub Global : Type 0
Global = Option MemoryManager

abbrev pub memory_bitmap_magic : ℕ
memory_bitmap_magic = 0xFEAD

abbrev pub page_size : ℕ
page_size = 4096

-- `x++` and `x--` on a `uint64_t`
abbrev pub inc64 : ℕ → ℕ
inc64 n = (n + 1) % 2 ^ 64

abbrev pub dec64 : ℕ → ℕ
dec64 n = (n + 2 ^ 64 - 1) % 2 ^ 64

abbrev pub bytes_to_pages : ℕ → ℕ
bytes_to_pages bytes = (bytes + page_size - 1) % 2 ^ 64 / 2 ^ 12

abbrev pub pages_to_bytes : ℕ → ℕ
pages_to_bytes pages = pages * 2 ^ 12 % 2 ^ 64

-- `& ~(PAGE_SIZE - 1)` takes the low 12 bits off, and `& (PAGE_SIZE - 1)` keeps only those.
abbrev pub page_align_up : ℕ → ℕ
page_align_up addr = (addr + page_size - 1) % 2 ^ 64 / 2 ^ 12 * 2 ^ 12

abbrev pub page_align_down : ℕ → ℕ
page_align_down addr = addr / 2 ^ 12 * 2 ^ 12

abbrev pub is_page_aligned : ℕ → Bool
is_page_aligned addr = addr % 2 ^ 12 == 0

abbrev pub addr_to_page : ℕ → ℕ
addr_to_page addr = addr / 2 ^ 12

abbrev pub page_to_addr : ℕ → ℕ
page_to_addr page = page * 2 ^ 12 % 2 ^ 64
