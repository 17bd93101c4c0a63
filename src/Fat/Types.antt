-- ===== src/Fat/Types.antt =====
-- The data of kernel/fs/fat32.h.
use veil_os.Base.{ℕ, List}

-- What `FatFS` and its boot sector `Fat32BS` hold of the geometry. `offset` is the partition's.
pub record FatFs : Type 0 where
  pub offset : ℕ
  pub bytes_per_sector : ℕ
  pub sectors_per_cluster : ℕ
  pub root_cluster : ℕ
  pub first_data_sector : ℕ
  pub first_fat_sector : ℕ
  pub sectors_per_fat : ℕ

pub record Fat32DirEntry : Type 0 where
  pub name : List ℕ
  pub ext : List ℕ
  pub attrs : ℕ
  pub cluster_high : ℕ
  pub cluster_low : ℕ
  pub size : ℕ
