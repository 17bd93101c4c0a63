-- ===== src/Lib.antt =====
-- The kernel of VeilOS, a small operating system for the Raspberry Pi: the ownership of I/O
-- devices, the FAT32 allocation table on the SD card and the names of its entries, the Voidelle
-- file system, the users, the virtual file system that processes open files through, the ring of
-- tasks of the scheduler, the pages of memory and what a task has mapped of them, formatted
-- output, and the string functions that all of them use.
--
-- The parts, and the files that model them:
--   * IoDevice (kernel/interface/iodevice.c, and the loop over devices of `KillTask` in
--     kernel/scheduler/task.c): Types is the device table, a list of links with a list of devices
--     each; Table has `getInternalDevice`, `createLink`, `AddIODevice`; Tokens has
--     `ownIODeviceWithToken`, `OwnIODevice`, `FreeIODevice`, `checkDevice`; Calls the calls that reach
--     a driver; Syscalls the system calls. A write through a pointer to a device is `put_device`.
--   * Emmc (kernel/drivers/emmc.c): a card is a function from block numbers to lists of bytes;
--     `read_at` and `write_at` are a seek followed by `ReadFromEMMC` or `WriteToEMMC`.
--   * Fat (kernel/fs/fat32.c, kernel/fs/fat32.h): Types the volume, Words the little-endian words of a
--     sector, Links `NextCluster`, `WriteClusterLink`, `FreeCluster`, `LinkFreeCluster`, `ReadCluster` and
--     `WriteCluster`, which use Emmc; Volume the boot sector, Contents the reading of a file, Names the
--     long and short names of entries. Chain, Free and LinkLaws are about the table, Walk about reading
--     along a chain, ShortNames about the names.
--   * User (kernel/system/user.c): the list of users.
--   * Vfs (kernel/system/vfs.c, kernel/interface/fio.c): Hash `murmurHash`, Mounts the mount points,
--     Files the file references, Fio the calls of a process. `OpenFile` asks User who the process is,
--     and the file system of a mount point is a record of functions. Prefixes and MountLaws are about
--     `GetMountPoint`, Permissions about `OpenFile`, Handles about the file references.
--   * Strings (kernel/lib/string.c): the functions over a memory of bytes; Copies is about `memset` and
--     `memcpy`, Reads about the functions that stop at a terminator.
--   * Scheduler (kernel/scheduler/scheduler.c): a store of tasks by address; Ring is about `AddTask`,
--     Search about `GetTaskByPID`, Kill about the tasks that `get_next_task` takes out. A loop of
--     `get_next_task` is `next_task_from`, and one round of it before it moves on is `reap`.
--   * Memory (kernel/memory/pmm.c, kernel/memory/allocator.c): Pages has the flags of the pages and
--     `GetPhysicalPage`, Alloc the allocator. Blocks says what a block is, Marking and Malloc are about
--     giving one out, Free about taking it back, Heap about sequences of both, Limits about the ends of
--     the memory. What `MapTablePage` and `UnmapTablePage` do is the interface `Mapper` of Alloc.
--   * TaskMap (kernel/scheduler/task.c): the tree of mapped pages of a task; Grow, Descend, Parents and
--     MapGet are about `MapTaskPage`, Search about `GetTaskValidVA`. The tables of the processor are the
--     interface `Mmu`.
--   * Printf (kernel/lib/printf.c): `vsprintf` and the writing of numbers; Digits and Padding are about
--     numbers, Formats about the loop over the format, which is the memory from its first byte on.
--   * Voidelle (kernel/fs/voidelle.c, kernel/fs/voidelle.h): Bytes and Types have the structs and their
--     bytes, Disk the voids and the map of those in use, Voidites the lists of voidites, Directory the
--     directories and the set-up. Fields and Storage are about structs that are written and read back,
--     MapBytes and VoidMap about `get_free_void`, Chunks, Names and Creation about the name of a new
--     voidelle, Reading about the contents of a file, Children and Removal about directories. It uses
--     Emmc.
--   * Base: the words, lists and flags that the parts share.
--
-- Conventions: numbers are natural numbers with the wrap-around of C's unsigned types written out
-- where the code relies on it; a signed result is `pos n` or `negsuc n`, and an error is negative.
-- A C array is a list, a null pointer is `none`, and a result of `none` where the C function has
-- one is a kernel panic. The walk to the end of a chain in `LinkFreeCluster` has fuel, and the
-- theorems about it say how much is enough: one unit for each cluster of the chain. The loops of the
-- strings and of the scheduler have fuel too: one unit for each byte and the terminator, and one for
-- each task of the ring. `vsprintf` has one unit for each byte of the format and the terminator; the
-- walk to the root in `MapTaskPage` one for each node of the tree; the search of `GetTaskValidVA` one
-- for each page below the end of a task's addresses. The loops along the lists of Voidelle have one
-- for each voidite or voidelle and one for the end of the list. A shift by -1 in `get_free_void`,
-- which C leaves undefined, is taken to set no bit.
--
-- The flags of the pages are a list, and the headers of the allocator a function of the address. A
-- request for memory is below 4 GiB, as `unsigned int` sizes are, and the memory below 2 GiB, so that
-- products of `int` do not overflow. A node of the tree of a task has the number of its allocation as
-- its address, and the address of a freed node is not given out again. A write of the allocator
-- behind the null pointer changes no page.
--
-- Parameters of the model: what a driver or a file system does when it is called, the hash function
-- of the passwords (kernel/lib/crypt), the random salts, which process runs, the user of a task, and
-- the contents of uninitialised memory. The translation tables are interfaces of the allocator and
-- of the tree of a task.
--
-- Not modelled: the protocol of the SD controller and the other drivers, the directories of FAT32
-- and the writing of files, the file systems' ends of the file interface, the translation tables,
-- the context switch, the system calls for memory, the removal of a whole tree of mappings, the
-- loading of programs, and boot code. Outside Memory, allocation is taken to succeed.
pub mod Base
pub mod IoDevice
pub mod Emmc
pub mod Fat
pub mod User
pub mod Vfs
pub mod Strings
pub mod Scheduler
pub mod Memory
pub mod Printf
pub mod TaskMap
pub mod Voidelle
