-- ===== src/Vfs.antt =====
-- kernel/system/vfs.c and kernel/interface/fio.c: mount points, file references, and the calls that
-- open, read and write files through them.
pub mod Hash
pub mod Types
pub mod Mounts
pub mod Files
pub mod Fio
pub mod Prefixes
pub mod MountLaws
pub mod Handles
pub mod Permissions
mod Examples
