-- ===== src/Containers.antt =====
-- The kernel's data structures: FeatherOS/include/datastructures.h and
-- FeatherOS/kernel/lib/datastructures.c.
pub mod KHeap
pub mod Ring
pub mod Vector
pub mod HashTable
