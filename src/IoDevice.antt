-- ===== src/IoDevice.antt =====
-- kernel/interface/iodevice.c: the table of IO devices, the tokens by which processes own them, and
-- the system calls over both.
pub mod Types
pub mod Table
pub mod Tokens
pub mod Calls
pub mod TableLaws
pub mod Permissions
pub mod Exclusive
pub mod Branches
pub mod Invariant
pub mod Mediation
pub mod Handover
pub mod Syscalls
pub mod Ownership
mod Examples
