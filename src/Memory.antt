-- ===== src/Memory.antt =====
-- The physical memory manager: FeatherOS/include/memory.h and FeatherOS/kernel/mm/memory.c.
pub mod State
pub mod Pages
pub mod Init
pub mod Slab
pub mod Vma
