-- ===== src/Memory.antt =====
-- kernel/memory/pmm.c and kernel/memory/allocator.c: the map of physical pages, and blocks of pages
-- with a header in their last page.
pub mod Pages
pub mod Alloc
pub mod Marking
pub mod Blocks
pub mod Malloc
pub mod Free
pub mod Heap
pub mod Limits
mod Examples
