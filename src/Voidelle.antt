-- ===== src/Voidelle.antt =====
-- The Voidelle file system: kernel/fs/voidelle.c. Types has what lies in its voids and how, Disk the
-- voids and the map of those in use, Voidites the lists of voidites, Directory the directories.
pub mod Bytes
pub mod Types
pub mod Fields
pub mod Disk
pub mod Storage
pub mod MapBytes
pub mod VoidMap
pub mod Voidites
pub mod Chunks
pub mod Names
pub mod Reading
pub mod Directory
pub mod Creation
pub mod Children
pub mod Removal
mod Examples
mod ReadingExamples
mod DirectoryExamples
