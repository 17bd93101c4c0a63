-- ===== src/Fat/Contents.antt =====
-- `read_fat_node_index` and `ReadFatNode` of kernel/fs/fat32.c: the contents of a file. `stale` is
-- what a buffer holds before a read that fails.
use veil_os.Base.{
  ℕ, zero, suc, ◌+◌, ◌-◌, ◌/◌, ◌%◌, ◌^◌, min, Option, none, some, List, [], ◌++◌, take, drop, ◌==◌,
  if◌then◌else◌, has,
}
use veil_os.Emmc.{or_stale, Card}
use veil_os.Fat.Types.{FatFs}
use veil_os.Fat.Links.{fat_cluster_size, next_cluster, read_cluster}

module _ (stale : List ℕ) (fs : FatFs) where
  -- The cluster that is `index` links behind, or none where the chain ends.
  unfoldable pub nth_cluster : Card → (index cluster : ℕ) → Option ℕ
  nth_cluster card zero cluster = some cluster
  nth_cluster card (suc index) cluster =
      let next = next_cluster stale fs card cluster in
      let rest = nth_cluster card index next in if next == 0 then none else rest

  unfoldable pub read_fat_node_index : Card → (content_cluster index : ℕ) → Option (List ℕ)
  read_fat_node_index card content_cluster index = elim (nth_cluster card index content_cluster) [
    | none ↦ none
    | some cluster ↦
        if fat_cluster_size fs == 0
        then none
        else some (or_stale (read_cluster stale fs card cluster) stale)
  ]

  -- The loop of `ReadFatNode` over `rounds` clusters from `index` on: the bytes that are written
  -- behind those before.
  unfoldable pub read_clusters :
      Card → (content_cluster first last start end : ℕ) → (rounds index size : ℕ) → List ℕ
  read_clusters card content_cluster first last start end zero index size = []
  read_clusters card content_cluster first last start end (suc rounds) index size =
      let clsize = fat_cluster_size fs in
      let skip = if index == first then start else 0 in
      let len = if index == last then (if end == 0 then size else end) else clsize - skip in
      let cpy_len = min len size in
      let rest =
        read_clusters card content_cluster first last start end rounds (index + 1)
          (size - cpy_len) in
      elim (read_fat_node_index card content_cluster index) [
        | none ↦ []
        | some content ↦ take cpy_len (drop skip content) ++ rest
      ]

  -- The bytes that `ReadFatNode` leaves in the buffer; their number is its result.
  unfoldable pub read_fat_node : Card → (attrs content_cluster offset size : ℕ) → List ℕ
  read_fat_node card attrs content_cluster offset size =
      let clsize = fat_cluster_size fs in
      let first = offset / clsize in
      let last = (offset + size + (2 ^ 64 - 1)) % 2 ^ 64 / clsize in
      if has attrs 0x10
      then []
      else if content_cluster == 0
      then []
      else read_clusters card content_cluster first last (offset % clsize)
          ((offset + size) % 2 ^ 64 % clsize) (last + 1 - first) first size
