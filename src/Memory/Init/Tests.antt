-- ===== src/Memory/Init/Tests.antt =====
-- The theorems on the initialisation at a small map.
use feather_os.Prelude.{◌≡◌, refl, List, [], ◌∷◌, arith}
use feather_os.Memory.Init.{E820Entry, e820_type_free, e820_type_reserved, manager_of, total_free}
use feather_os.Memory.Init.Valid.{manager_of-IsValid}
use feather_os.Memory.Pages.Valid.{IsValid}

-- 4 MB in two free regions, with a hole of 4 KB.
abbrev small_map : List E820Entry
small_map =
    record { base = 0; length = 0x9F000; type = e820_type_free; acpi_ext = 0 }
    ∷ record { base = 0x9F000; length = 0x1000; type = e820_type_reserved; acpi_ext = 0 }
    ∷ record { base = 0xA0000; length = 0x361000; type = e820_type_free; acpi_ext = 0 }
    ∷ []

manager_of-IsValid_example : IsValid (manager_of small_map 3)
unfolding total_free
manager_of-IsValid_example = manager_of-IsValid small_map 3 (omega arith) (omega arith)

small_map_own : (manager_of small_map 3).bitmap_pages ≡ 1
unfolding manager_of
small_map_own = refl
