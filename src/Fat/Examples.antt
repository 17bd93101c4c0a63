-- ===== src/Fat/Examples.antt =====
-- The theorems about the allocation table at a small volume.
use veil_os.Base.{
  ℕ, ◌+◌, ◌%◌, ◌^◌, ◌<◌, ◌≡◌, ◌≢◌, refl, some, List, [], ◌∷◌, replicate, length-replicate, ◌==◌,
  if◌then◌else◌, arith, ◌∙◌,
}
use veil_os.Emmc.{Card, read_blocks, read_at, is_transfer}
use veil_os.Fat.Types.{FatFs}
use veil_os.Fat.Words.{word_at, set_word, length-set_word}
use veil_os.Fat.Links.{
  decode_link, next_cluster, write_cluster_link, free_in_sector, free_from, free_cluster,
  link_free_cluster, data_offset,
}
use veil_os.Fat.LinkLaws.{IsSane, IsCard, links, next-write}
use veil_os.Fat.Free.{link, Answer, free_cluster-Answer}
use veil_os.Fat.Contents.{nth_cluster}
use veil_os.Fat.Walk.{nth_cluster-IsChain}
use veil_os.Fat.Chain.{IsChain, link_free_cluster-IsChain, link_free_cluster_full, data_offset-wrap}

-- One sector of table behind two reserved ones.
abbrev volume : FatFs
volume = record {
  offset = 1024;
  bytes_per_sector = 512;
  sectors_per_cluster = 8;
  root_cluster = 2;
  first_data_sector = 3;
  first_fat_sector = 2;
  sectors_per_fat = 1;
}

volume-IsSane : IsSane volume
volume-IsSane = omega arith

-- Clusters 2, 3 are a chain and the rest is free.
small_table : List ℕ
small_table = set_word (set_word (replicate 512 0) 8 3) 12 0x0fff_ffff

small_card : Card
small_card b = small_table

small_card-IsCard : IsCard small_card
unfolding small_card small_table
small_card-IsCard b =
    length-set_word (set_word (replicate 512 0) 8 3) 12 0x0fff_ffff
    ∙ length-set_word (replicate 512 0) 8 3
    ∙ length-replicate {A = ℕ} 512 0

small-IsChain : IsChain volume small_card 2 (3 ∷ [])
unfolding small_card small_table set_word word_at
small-IsChain = (omega arith, refl, omega arith, omega arith, (omega arith, omega arith))

small-free : free_cluster [] volume small_card ≢ 0
unfolding free_cluster free_from free_in_sector small_card small_table set_word word_at read_at
    is_transfer read_blocks
small-free = omega arith

next-write_example :
    next_cluster [] volume (write_cluster_link [] volume small_card 5 7) 5
    ≡ (if 5 == 5 then decode_link (7 % 2 ^ 28) else next_cluster [] volume small_card 5)
next-write_example =
    next-write [] volume-IsSane small_card 5 7 5 small_card-IsCard (omega arith) (omega arith)

free_cluster-Answer_example :
    Answer volume small_card 0 (links volume) (free_cluster [] volume small_card)
free_cluster-Answer_example = free_cluster-Answer volume small_card [] volume-IsSane

link_free_cluster-IsChain_example :
    (new : Card) × (f : ℕ) × (link_free_cluster [] volume 5 small_card 2 ≡ some (new, f))
    × (link volume small_card f ≡ 0)
    × IsChain volume new 2 (3 ∷ f ∷ [])
    × ((m : ℕ) → m < 128 → m ≢ f → m ≢ 3 → link volume new m ≡ link volume small_card m)
link_free_cluster-IsChain_example =
    link_free_cluster-IsChain [] volume-IsSane small_card small_card-IsCard 5 2 (3 ∷ [])
      small-IsChain (omega arith) small-free

nth_cluster-IsChain_example : nth_cluster [] volume small_card 1 2 ≡ some 3
nth_cluster-IsChain_example =
    nth_cluster-IsChain [] volume volume-IsSane small_card 1 2 (3 ∷ []) small-IsChain

-- The same volume with every link an end mark.
full_table : ℕ → List ℕ
full_table _ = replicate 512 255

filled-IsCard : IsCard full_table
unfolding full_table
filled-IsCard b = length-replicate {A = ℕ} 512 255

full-IsChain : IsChain volume full_table 2 []
unfolding full_table word_at
full-IsChain = (omega arith, omega arith)

full-free : free_cluster [] volume full_table ≡ 0
unfolding free_cluster free_from free_in_sector full_table word_at read_at is_transfer read_blocks
full-free = refl

link_free_cluster_full_example :
    (new : Card) × (link_free_cluster [] volume 5 full_table 2 ≡ some (new, 0))
    × (link volume new 2 ≡ 0)
    × (link volume new 0 ≡ 0x0fff_ffff)
link_free_cluster_full_example =
    link_free_cluster_full [] volume-IsSane full_table filled-IsCard 5 2 [] full-IsChain
      (omega arith) (omega arith) full-free

data_offset-wrap_example : data_offset volume (5 + 2 ^ 20) ≡ data_offset volume 5
data_offset-wrap_example = data_offset-wrap volume 5 (2 ^ 20) (omega arith) (omega arith) refl
