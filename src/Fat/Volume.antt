-- ===== src/Fat/Volume.antt =====
-- `get_fat` and `FatFSInit` of kernel/fs/fat32.c: the boot sector of a volume.
use veil_os.Base.{
  ℕ, ◌+◌, ◌-◌, ◌*◌, ◌/◌, ◌^◌, not, ◌||◌, Option, none, some, List, get_or, ◌==◌, if◌then◌else◌,
}
use veil_os.Emmc.{Card, read_at}
use veil_os.Fat.Types.{FatFs}
use veil_os.Fat.Words.{word_at}
use veil_os.Fat.Links.{u32}

-- Two bytes of the boot sector, the low one first.
unfoldable pub half_at : List ℕ → ℕ → ℕ
half_at bytes i = get_or bytes i 0 + get_or bytes (i + 1) 0 * 2 ^ 8

-- The sectors of a root directory of fixed size. The processor's division by 0 gives 0.
unfoldable pub root_dir_sectors : List ℕ → ℕ
root_dir_sectors bs =
    let bytes_per_sector = half_at bs 11 in
    if bytes_per_sector == 0
    then 0
    else (half_at bs 17 * 32 + bytes_per_sector - 1) / bytes_per_sector

-- The boot sector at the start of a partition, if it is one of a FAT32 volume.
unfoldable pub get_fat : Card → (offset : ℕ) → Option (List ℕ)
get_fat card offset = elim (read_at card offset 512) [
  | none ↦ none
  | some bs ↦
      if not (get_or bs 0 0 == 0xeb) || not (root_dir_sectors bs == 0) then none else some bs
]

unfoldable pub fat_fs_init : Card → (offset : ℕ) → Option FatFs
fat_fs_init card offset = elim (get_fat card offset) [
  | none ↦ none
  | some bs ↦ some (record {
    offset = offset;
    bytes_per_sector = half_at bs 11;
    sectors_per_cluster = get_or bs 13 0;
    root_cluster = word_at bs 44;
    first_data_sector = u32 (half_at bs 14 + u32 (get_or bs 16 0 * word_at bs 36));
    first_fat_sector = half_at bs 14;
    sectors_per_fat = word_at bs 36;
  })
]
