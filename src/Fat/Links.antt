-- ===== src/Fat/Links.antt =====
-- The file allocation table: `FatClusterSize`, `FreeCluster`, `NextCluster`, `ReadCluster`,
-- `WriteCluster`, `WriteClusterLink` and `LinkFreeCluster` of kernel/fs/fat32.c. Sums and products
-- of `unsigned int` wrap at 32 bits. `stale` is what a stack buffer holds where a read fails.
use veil_os.Base.{
  ℕ, zero, suc, ◌+◌, ◌-◌, ◌*◌, ◌/◌, ◌%◌, ◌^◌, ◌&&◌, Option, none, some, List, leb, ◌==◌,
  if◌then◌else◌, bit_and,
}
use veil_os.Emmc.{or_stale, Card, read_at, write_at}
use veil_os.Fat.Types.{FatFs}
use veil_os.Fat.Words.{word_at, set_word}

abbrev pub u32 : ℕ → ℕ
u32 n = n % 2 ^ 32

abbrev pub link_mask : ℕ
link_mask = 0x0fff_ffff

-- The first link value that ends a chain.
abbrev pub end_of_chain : ℕ
end_of_chain = 0x0fff_fff8

unfoldable pub fat_cluster_size : FatFs → ℕ
fat_cluster_size fs = fs.sectors_per_cluster * fs.bytes_per_sector

-- Where on the card the sector of the table stands that holds a cluster's link.
unfoldable pub fat_sector_offset : FatFs → (cluster_no : ℕ) → ℕ
fat_sector_offset fs cluster_no =
    let fat_offset = u32 (cluster_no * 4) in
    let fat_sector = u32 (fs.first_fat_sector + fat_offset / fs.bytes_per_sector) in
    fs.offset + u32 (fat_sector * 512)

unfoldable pub ent_offset : FatFs → (cluster_no : ℕ) → ℕ
ent_offset fs cluster_no = u32 (cluster_no * 4) % fs.bytes_per_sector

unfoldable pub decode_link : ℕ → ℕ
decode_link value =
    let table_value = bit_and value link_mask in
    if leb end_of_chain table_value then 0 else table_value

unfoldable pub data_offset : FatFs → (cluster : ℕ) → ℕ
data_offset fs cluster =
    let cluster_sector =
      u32 (u32 (u32 (cluster + 2 ^ 32 - 2) * fs.sectors_per_cluster) + fs.first_data_sector) in
    fs.offset + u32 (cluster_sector * 512)

module _ (stale : List ℕ) (fs : FatFs) where
  unfoldable pub next_cluster : Card → ℕ → ℕ
  next_cluster card cluster_no = decode_link (
      word_at (or_stale (read_at card (fat_sector_offset fs cluster_no) 512) stale)
        (ent_offset fs cluster_no))

  unfoldable pub write_cluster_link : Card → (cluster_no value : ℕ) → Card
  write_cluster_link card cluster_no value = write_at card (fat_sector_offset fs cluster_no) (
      set_word (or_stale (read_at card (fat_sector_offset fs cluster_no) 512) stale)
        (ent_offset fs cluster_no) (bit_and value link_mask))

  -- The inner loop of `FreeCluster`: `rounds` entries of sector `i` from `entry` on.
  unfoldable pub free_in_sector : List ℕ → (rounds i entries entry : ℕ) → Option ℕ
  free_in_sector table zero i entries entry = none
  free_in_sector table (suc n) i entries entry =
      let cluster = u32 (i * entries + entry) in
      if bit_and (word_at table (entry * 4)) link_mask == 0 && leb 2 cluster
      then some cluster
      else free_in_sector table n i entries (entry + 1)

  -- The outer loop: `rounds` sectors of the table from sector `i` on.
  unfoldable pub free_from : Card → (rounds i entries : ℕ) → ℕ
  free_from card zero i entries = 0
  free_from card (suc n) i entries =
      let table =
        or_stale (read_at card (fs.offset + u32 (u32 (fs.first_fat_sector + i) * 512)) 512) stale in
      let rest = free_from card n (i + 1) entries in
      elim (free_in_sector table entries i entries 0) [ some cluster ↦ cluster | none ↦ rest ]

  unfoldable pub free_cluster : Card → ℕ
  free_cluster card = free_from card fs.sectors_per_fat 0 (fs.bytes_per_sector / 4)

  -- The loop of `LinkFreeCluster`, on fuel.
  unfoldable pub last_cluster : (fuel : ℕ) → Card → ℕ → Option ℕ
  last_cluster zero card last = none
  last_cluster (suc fuel) card last =
      let next = next_cluster card last in
      let rest = last_cluster fuel card next in if next == 0 then some last else rest

  -- The new card and the cluster that was linked; `none` if the fuel does not reach the end.
  unfoldable pub link_free_cluster : (fuel : ℕ) → Card → ℕ → Option (Card × ℕ)
  link_free_cluster fuel card cluster =
      let free = free_cluster card in
      elim (last_cluster fuel card cluster) [
        | none ↦ none
        | some last ↦
            some (write_cluster_link (write_cluster_link card last free) free 0x0fff_ffff, free)
      ]

  unfoldable pub read_cluster : Card → ℕ → Option (List ℕ)
  read_cluster card cluster = read_at card (data_offset fs cluster) (fat_cluster_size fs)

  unfoldable pub write_cluster : Card → ℕ → List ℕ → Card
  write_cluster card cluster buf = write_at card (data_offset fs cluster) buf
