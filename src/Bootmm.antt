-- ===== src/Bootmm.antt =====
-- kernel/mm/bootmm.c: the allocator of pages at boot.
pub mod State
pub mod Table
pub mod Pages
pub mod Alloc
mod Covers
mod Rewrite
mod Insert
mod Find
mod Tests
