-- ===== src/Fat/LinkLaws.antt =====
-- Links that are written and read back.
use veil_os.Base.{
  ℕ, ◌+◌, ◌*◌, ◌/◌, ◌%◌, ◌^◌, ◌≤◌, ◌<◌, ◌≡◌, ◌≢◌, ◌⊎◌, inl, inr, ap, ◌∙◌, List, length, ◌==◌,
  if◌then◌else◌, bit_and, arith, Bool-cases, ==→eq, ==→ne,
}
use veil_os.Base.Bits.{bit_and-mask}
use veil_os.Emmc.Blocks.{read_one_block, write_one_block, write_block_self, write_block-ne}
use veil_os.Emmc.{or_stale, Card, read_at, write_block}
use veil_os.Fat.Types.{FatFs}
use veil_os.Fat.Words.{word_at, set_word, length-set_word, word-set_word_self, word-set_word_ne}
use veil_os.Fat.Links.{
  u32, link_mask, end_of_chain, fat_sector_offset, ent_offset, decode_link, next_cluster,
  write_cluster_link,
}

-- A volume whose tables lie within the first 4 GiB of the partition, in sectors of 512 bytes, and
-- whose cluster numbers are below the values that end a chain.
pub record IsSane (fs : FatFs) : Type 0 where
  pub aligned : fs.offset % 512 ≡ 0
  pub sector : fs.bytes_per_sector ≡ 512
  pub tables : (fs.first_fat_sector + fs.sectors_per_fat) * 512 < 2 ^ 32
  pub reach : fs.offset / 512 + fs.first_fat_sector + fs.sectors_per_fat < 2 ^ 32
  pub count : fs.sectors_per_fat * 128 ≤ end_of_chain

-- A card whose blocks hold 512 bytes.
abbrev pub IsCard : Card → Type 0
IsCard card = (b : ℕ) → length (card b) ≡ 512

-- The number of links in the table.
abbrev pub links : FatFs → ℕ
links fs = fs.sectors_per_fat * 128

-- The block of a cluster's link, and the link's place in it.
abbrev pub link_block : FatFs → ℕ → ℕ
link_block fs c = fs.offset / 512 + fs.first_fat_sector + c / 128

-- The raw link of a cluster.
abbrev pub link_at : FatFs → Card → ℕ → ℕ
link_at fs card c = word_at (card (link_block fs c)) (c % 128 * 4)

module _ {fs : FatFs} (v : IsSane fs) (c : ℕ) (within : c < links fs) where
  fat_sector_offset-block :
      (fat_sector_offset fs c % 512 ≡ 0) × (fat_sector_offset fs c / 512 % 2 ^ 32 ≡ link_block fs c)
  unfolding fat_sector_offset
  fat_sector_offset-block =
      let small : u32 (c * 4) ≡ c * 4 = omega arith in
      let sum : u32 (fs.first_fat_sector + c * 4 / 512) ≡ fs.first_fat_sector + c / 128 =
        omega arith in
      let product : u32 ((fs.first_fat_sector + c / 128) * 512)
          ≡ (fs.first_fat_sector + c / 128) * 512 =
        omega arith in
      rw (v.sector, small, sum, product) (omega arith)

  ent_offset-place : ent_offset fs c ≡ c % 128 * 4
  unfolding ent_offset
  ent_offset-place = rw v.sector (omega arith)

module _ (stale : List ℕ) {fs : FatFs} (v : IsSane fs) where
  table_sector :
      (card : Card) (c : ℕ)
      → c < links fs
      → or_stale (read_at card (fat_sector_offset fs c) 512) stale ≡ card (link_block fs c)
  table_sector card c within =
      let (aligned, block) = fat_sector_offset-block v c within in
      rw (read_one_block card (fat_sector_offset fs c) aligned) (ap card block)

  pub next_cluster-link :
      (card : Card) (c : ℕ)
      → c < links fs
      → next_cluster stale fs card c ≡ decode_link (link_at fs card c)
  unfolding next_cluster
  next_cluster-link card c within = rw (table_sector card c within, ent_offset-place v c within)

  pub write_cluster_link-block :
      (card : Card) (c value : ℕ)
      → IsCard card
      → c < links fs
      → write_cluster_link stale fs card c value
        ≡ write_block card
            (link_block fs c)
            (set_word (card (link_block fs c)) (c % 128 * 4) (bit_and value link_mask))
  unfolding write_cluster_link
  write_cluster_link-block card c value full within =
      let (aligned, block) = fat_sector_offset-block v c within in
      let place = c % 128 * 4 in
      let bytes = set_word (card (link_block fs c)) place (bit_and value link_mask) in
      rw (table_sector card c within, ent_offset-place v c within)
        (write_one_block card (fat_sector_offset fs c) bytes aligned (
            length-set_word (card (link_block fs c)) place (bit_and value link_mask)
            ∙ full (link_block fs c))
          ∙ ap (λ b. write_block card b bytes) block)

  link-write_self :
      (card : Card) (c value : ℕ)
      → IsCard card
      → c < links fs
      → link_at fs (write_cluster_link stale fs card c value) c ≡ value % 2 ^ 28
  link-write_self card c value full within =
      rw
        (write_cluster_link-block card c value full within, write_block_self, bit_and-mask 28 value)
        (word-set_word_self (card (link_block fs c)) (c % 128 * 4) (value % 2 ^ 28)
          (omega (arith, full (link_block fs c))) (omega arith))

  link-write_ne :
      (card : Card) (c value d : ℕ)
      → IsCard card
      → c < links fs
      → c ≢ d
      → link_at fs (write_cluster_link stale fs card c value) d ≡ link_at fs card d
  link-write_ne card c value d full within ne =
      rw (write_cluster_link-block card c value full within)
        (elim (Bool-cases (link_block fs d == link_block fs c)) [
          | inl same ↦
              let e = ==→eq (link_block fs d) (link_block fs c) same in
              rw (e, write_block_self)
                (word-set_word_ne (card (link_block fs c)) (c % 128 * 4) (d % 128 * 4)
                  (bit_and value link_mask) (apart (omega arith)))
          | inr other ↦
              ap (λ bytes. word_at bytes (d % 128 * 4))
                (write_block-ne card _ _ _ (==→ne _ _ other))
        ])
    where
      apart :
          (c % 128 ≢ d % 128) → (d % 128 * 4 + 3 < c % 128 * 4) ⊎ (c % 128 * 4 + 3 < d % 128 * 4)
      apart h = omega arith

  -- The raw link that a write leaves: the low 28 bits of the value, and no other link.
  pub link-write :
      (card : Card) (c value d : ℕ)
      → IsCard card
      → c < links fs
      → d < links fs
      → link_at fs (write_cluster_link stale fs card c value) d
        ≡ (if c == d then value % 2 ^ 28 else link_at fs card d)
  link-write card c value d full within inside = elim (Bool-cases (c == d)) [
    | inl hit ↦ rw (hit, ← ==→eq c d hit) (link-write_self card c value full within)
    | inr miss ↦ rw miss (link-write_ne card c value d full within (==→ne c d miss))
  ]

  pub write_cluster_link-IsCard :
      (card : Card) (c value : ℕ)
      → IsCard card
      → c < links fs
      → IsCard (write_cluster_link stale fs card c value)
  write_cluster_link-IsCard card c value full within b =
      rw (write_cluster_link-block card c value full within) (
        unfold write_block in
        ground (
          arith,
          full b,
          full (link_block fs c),
          length-set_word (card (link_block fs c)) (c % 128 * 4) (bit_and value link_mask),
        ))

  -- `WriteClusterLink` then `NextCluster`: the link that was written, as `NextCluster` reads it (its
  -- low 28 bits, or 0 from 0x0FFFFFF8 on), and the old link of every other cluster.
  pub next-write :
      (card : Card) (c value d : ℕ)
      → IsCard card
      → c < links fs
      → d < links fs
      → next_cluster stale fs (write_cluster_link stale fs card c value) d
        ≡ (if c == d then decode_link (value % 2 ^ 28) else next_cluster stale fs card d)
  next-write card c value d full within inside = elim (Bool-cases (c == d)) [
    | inl hit ↦ rw (
      hit,
      next_cluster-link (write_cluster_link stale fs card c value) d inside,
      link-write card c value d full within inside,
      hit,
    )
    | inr miss ↦ rw (
      miss,
      next_cluster-link (write_cluster_link stale fs card c value) d inside,
      link-write card c value d full within inside,
      miss,
      next_cluster-link card d inside,
    )
  ]
