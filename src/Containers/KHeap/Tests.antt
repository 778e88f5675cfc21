-- ===== src/Containers/KHeap/Tests.antt =====
-- The bump allocator at a short sequence of calls.
use feather_os.Prelude.{ℕ, ◌≡◌, refl, List, [], ◌∷◌, arith}
use feather_os.Containers.KHeap.{boot_heap, kmalloc}
use feather_os.Containers.KHeap.Blocks.{
  IsValid, Stacked, allocate, allocate-Stacked, boot_heap-IsValid,
}

abbrev sizes : List ℕ
sizes = 5 ∷ 0 ∷ 64 ∷ 2_000_000 ∷ 8 ∷ []

allocate_runs :
    (allocate sizes boot_heap).1
    ≡ (0x200000, 5) ∷ (0, 0) ∷ (0x200008, 64) ∷ (0, 2_000_000) ∷ (0x200048, 8) ∷ []
unfolding allocate kmalloc boot_heap
allocate_runs = refl

allocate-Stacked_example :
    IsValid (allocate sizes boot_heap).0 × Stacked boot_heap.heap_ptr (allocate sizes boot_heap).1
allocate-Stacked_example = allocate-Stacked sizes boot_heap-IsValid (omega arith)
