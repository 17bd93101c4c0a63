-- ===== src/Fat.antt =====
-- kernel/fs/fat32.c: the allocation table of a volume, its clusters, and the names of its entries.
pub mod Types
pub mod Words
pub mod Links
pub mod LinkLaws
pub mod Free
pub mod Chain
pub mod Volume
pub mod Contents
pub mod Names
pub mod ShortNames
pub mod Walk
mod Examples
mod NameExamples
