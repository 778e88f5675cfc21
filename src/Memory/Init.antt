-- ===== src/Memory/Init.antt =====
-- Memory detection and the initialisation of the manager: memory_detect_e820 and
-- memory_manager_init of FeatherOS/kernel/mm/memory.c. The map is the simulated one that the code
-- fills in; the memory at 2 MB, where the bitmap is put, is the field `bitmap`.
pub mod Valid
mod Tests
use mathlib.Core.Path.{subst, fun_ext}
use mathlib.Core.Logic.{dite, ite}
use native.Mathlib.Nat.{
  add_comm, add_assoc, le_refl, le_trans, mod-eq_of_lt, mod-lt, mod-eq-sub-mod, mod-add-mod,
}
use native.Mathlib.Decide.{ℕ_discrete, dec_lt, dec_le}
use feather_os.Prelude.{
  ℕ, zero, suc, ◌+◌, ◌-◌, ◌*◌, ◌/◌, ◌%◌, ◌^◌, ◌≤◌, ◌<◌, min, max, ◌≡◌, refl, sym, ap, ◌∙◌, ◌≢◌, ◌↔◌,
  ◌⊎◌, inl, inr, Bool, true, false, not, ◌&&◌, ◌||◌, Option, none, some, List, [], ◌∷◌, ◌++◌, map,
  arith, ltb, leb, ◌==◌, if◌then◌else◌, ltb→lt, lt→ltb, leb→le, ==_iff, tests, Bool-cases,
  Option-cases, length, get_or, set, take, drop, replicate,
}
use feather_os.Bitmap.{Bitmap, bitmap_clr}
use feather_os.Memory.State.{
  MemoryStats, MemoryManager, Global, memory_bitmap_magic, page_size, bytes_to_pages,
}

pub record E820Entry : Type 0 where
  pub base : ℕ
  pub length : ℕ
  pub type : ℕ
  pub acpi_ext : ℕ

abbrev pub e820_type_free : ℕ
e820_type_free = 1

abbrev pub e820_type_reserved : ℕ
e820_type_reserved = 2

abbrev pub e820_max_entries : ℕ
e820_max_entries = 128

abbrev pub zero_entry : E820Entry
zero_entry = record { base = 0; length = 0; type = 0; acpi_ext = 0 }

-- The array after `memset` and the four entries, and the count.
pub memory_detect_e820 : ℕ → List E820Entry × ℕ
memory_detect_e820 max_entries =
    (set (set (set (set (replicate max_entries zero_entry) 0 low) 1 rom) 2 main) 3 high, 4)
  where
    low : E820Entry
    low = record { base = 0x0; length = 0x9F000; type = e820_type_free; acpi_ext = 0 }

    rom : E820Entry
    rom = record { base = 0x9F000; length = 0x61000; type = e820_type_reserved; acpi_ext = 0 }

    main : E820Entry
    main = record { base = 0x100000; length = 0x0FF00000; type = e820_type_free; acpi_ext = 0 }

    high : E820Entry
    high = record { base = 0x100000000; length = 0x10000000; type = e820_type_free; acpi_ext = 0 }

-- The first loop: the lengths of the free entries, summed in a `uint64_t`.
pub total_free : ℕ → List E820Entry → ℕ
total_free total [] = total
total_free total (e ∷ es) =
    total_free (if e.type == e820_type_free then (total + e.length) % 2 ^ 64 else total) es

-- The pages `lo … hi - 1` hold the bitmap itself.
module _ (max_pages lo hi : ℕ) where
  -- The loop over `p`, with `n` rounds left.
  pub mark_pages : ℕ → ℕ → ℕ → Bitmap → Bitmap
  mark_pages start p zero bm = bm
  mark_pages start p (suc n) bm = elim (ltb ((start + p) % 2 ^ 64) max_pages) [
    | true ↦ mark_pages start (p + 1) n (
        if leb lo ((start + p) % 2 ^ 64) && ltb ((start + p) % 2 ^ 64) hi
        then bm
        else bitmap_clr bm ((start + p) % 2 ^ 64))
    | false ↦ bm
  ]

  -- The loop over the entries.
  pub mark_entries : List E820Entry → Bitmap → Bitmap
  unfolding mark_pages
  mark_entries [] bm = bm
  mark_entries (e ∷ es) bm = mark_entries es (
      if e.type == e820_type_free
      then mark_pages (bytes_to_pages e.base) 0 (bytes_to_pages e.length) bm
      else bm)

-- The manager that is built from a map of `count` entries.
pub manager_of : List E820Entry → ℕ → MemoryManager
unfolding total_free mark_entries
manager_of entries count =
    let total = total_free 0 (take count entries) in
    let max_pages = bytes_to_pages total in
    let bitmap_pages = bytes_to_pages ((max_pages + 7) % 2 ^ 64 / 8) in
    let bitmap_size = bitmap_pages * page_size % 2 ^ 64 in
    let lo = bytes_to_pages 0x200000 in
    record {
      total_memory = total;
      bitmap_phys_addr = 0x200000;
      bitmap =
          mark_entries max_pages lo (lo + bitmap_pages) (take count entries)
            (replicate (bitmap_size / 4) 0xFFFF_FFFF);
      bitmap_size = bitmap_size;
      bitmap_pages = bitmap_pages;
      memory_start = 0;
      memory_end = 0;
      max_pages = max_pages;
      stats = record {
        total_pages = max_pages;
        free_pages = max_pages;
        reserved_pages = bitmap_pages;
        kernel_pages = 0;
        largest_free = max_pages;
        allocated_pages = 0;
        freed_pages = 0;
      };
      magic = memory_bitmap_magic;
    }

-- The new value of `mem_manager`, and the result.
pub memory_manager_init : Global × ℕ
unfolding memory_detect_e820 manager_of
memory_manager_init =
    let (entries, count) = memory_detect_e820 e820_max_entries in
    (some (manager_of entries count), 0)

pub memory_manager_destroy : Global → Global
memory_manager_destroy mm = none
