-- ===== src/Vfs/Types.antt =====
-- The data of kernel/system/vfs.h and kernel/interface/fio.h. A path is the list of its bytes up to
-- the terminator. What a file system does is a function over the rest of the machine, `W`; the key
-- of a mount point is part of that function. `none` is a null function pointer.
use veil_os.Base.{ℕ, ℤ, Bool, Option, List}

-- `enum File_Mode`
abbrev pub file_write : ℕ
file_write = 1

abbrev pub file_read : ℕ
file_read = 2

abbrev pub file_execute : ℕ
file_execute = 4

-- `enum File_Permissions`
abbrev pub user_execute : ℕ
user_execute = 1

abbrev pub user_read : ℕ
user_read = 2

abbrev pub user_write : ℕ
user_write = 4

abbrev pub other_execute : ℕ
other_execute = 8

abbrev pub other_read : ℕ
other_read = 16

abbrev pub other_write : ℕ
other_write = 32

abbrev pub mount_count : ℕ
mount_count = 128

pub record FileMeta : Type 0 where
  pub file_data : ℕ
  pub flags : ℕ
  pub permissions : ℕ
  pub owner_id : ℕ

pub record FilesystemInterface (W : Type 0) : Type 0 where
  pub fcreate_file : Option (List ℕ → ℕ → W → W × ℤ)
  pub fcreate_directory : Option (List ℕ → ℕ → W → W × ℤ)
  pub fopen : Option (List ℕ → ℕ → FileMeta → W → W × FileMeta × ℤ)
  pub fread : Option (List ℕ → (buf size offset file : ℕ) → W → W × ℤ)
  pub fwrite : Option (List ℕ → (buf size offset file : ℕ) → W → W × ℤ)
  pub fsize : Option (List ℕ → W → W × ℤ)

pub record MountPoint (W : Type 0) : Type 0 where
  pub path : List ℕ
  pub hash_value : ℕ
  pub fs : FilesystemInterface W

pub record FileReference : Type 0 where
  pub owner_process : ℕ
  pub mode : ℕ
  pub path : List ℕ
  pub meta : FileMeta
  pub mount_idx : ℕ
  pub cut_path : List ℕ
  pub used : Bool

-- The list has `files_count` cells.
pub record Vfs (W : Type 0) : Type 0 where
  pub mounts : ℕ → MountPoint W
  pub files : List FileReference
