-- ===== src/Fat/Free.antt =====
-- `FreeCluster` finds the first cluster whose link is 0.
use veil_os.Base.{
  ℕ, zero, suc, ◌+◌, ◌*◌, ◌/◌, ◌%◌, ◌^◌, ◌≤◌, ◌<◌, ◌≡◌, ◌≢◌, ◌⊎◌, inl, inr, refl, ap, ◌&&◌, Option,
  none, some, List, leb, ◌==◌, bit_and, arith, Bool-cases, ==→eq, ==→ne,
}
use native.Mathlib.Decide.{dec_lt}
use veil_os.Base.Bits.{bit_and-mask}
use veil_os.Emmc.Blocks.{read_one_block}
use veil_os.Emmc.{or_stale, Card, read_at}
use veil_os.Fat.Types.{FatFs}
use veil_os.Fat.Words.{word_at}
use veil_os.Fat.Links.{u32, link_mask, free_in_sector, free_from, free_cluster}
use veil_os.Fat.LinkLaws.{IsSane, links, link_at}

-- The link of a cluster, without its four reserved bits.
abbrev pub link : FatFs → Card → ℕ → ℕ
link fs card c = link_at fs card c % 2 ^ 28

-- No cluster of the range can be given out: clusters 0 and 1 never are.
abbrev pub AllTaken : FatFs → Card → (lo hi : ℕ) → Type 0
AllTaken fs card lo hi = (d : ℕ) → lo ≤ d → d < hi → 2 ≤ d → link fs card d ≢ 0

-- The first free cluster of a range.
pub record IsFirstFree (fs : FatFs) (card : Card) (lo hi c : ℕ) : Type 0 where
  pub above : lo ≤ c
  pub below : c < hi
  pub usable : 2 ≤ c
  pub free : link fs card c ≡ 0
  pub first : AllTaken fs card lo c

abbrev Found : FatFs → Card → (lo hi : ℕ) → Option ℕ → Type 0
Found fs card lo hi none = AllTaken fs card lo hi
Found fs card lo hi (some c) = IsFirstFree fs card lo hi c

module _ (fs : FatFs) (card : Card) where
  -- A search that starts one cluster later.
  Found-step :
      (lo hi : ℕ) (o : Option ℕ)
      → ¬ ((link fs card lo ≡ 0) × (2 ≤ lo))
      → Found fs card (lo + 1) hi o
      → Found fs card lo hi o
  Found-step lo hi none taken h = λ d a b u e. elim (Bool-cases (d == lo)) [
    | inl hit ↦ let s : d ≡ lo = ==→eq d lo hit in taken (rw (← s) e, omega arith)
    | inr miss ↦ h d (omega (arith, ==→ne d lo miss)) b u e
  ]
  Found-step lo hi (some c) taken h = record {
    above = omega (arith, h.above);
    below = h.below;
    usable = h.usable;
    free = h.free;
    first = λ d a b u e. elim (Bool-cases (d == lo)) [
      | inl hit ↦ let s : d ≡ lo = ==→eq d lo hit in taken (rw (← s) e, omega arith)
      | inr miss ↦ h.first d (omega (arith, ==→ne d lo miss)) b u e
    ];
  }

  free_in_sector-Found :
      (stale : List ℕ) (n i entry : ℕ)
      → IsSane fs
      → i < fs.sectors_per_fat
      → entry + n ≡ 128
      → Found fs card
          (i * 128 + entry)
          (i * 128 + 128)
          (free_in_sector stale fs (card (fs.offset / 512 + fs.first_fat_sector + i)) n i 128 entry)
  unfolding free_in_sector
  free_in_sector-Found stale zero i entry v inside e = λ d a b u z. omega arith
  free_in_sector-Found stale (suc n) i entry v inside e =
      let c = i * 128 + entry in
      let index : u32 c ≡ c = omega (arith, v.tables) in
      let sector : c / 128 ≡ i = omega arith in
      let place : c % 128 ≡ entry = omega arith in
      let later = free_in_sector-Found stale n i (entry + 1) v inside (omega arith) in
      let raw : bit_and (word_at (card (fs.offset / 512 + fs.first_fat_sector + i)) (entry * 4))
            link_mask
          ≡ link fs card c =
        rw (sector, place)
          (bit_and-mask 28
            (word_at (card (fs.offset / 512 + fs.first_fat_sector + i)) (entry * 4))) in
      let next : c + 1 ≡ i * 128 + (entry + 1) = omega arith in
      rw (raw, index)
        (elim (Bool-cases ((link fs card c == 0) && leb 2 c)) [
          | inl ok ↦ rw ok (record {
            above = omega arith;
            below = omega arith;
            usable = ground arith;
            free = ground arith;
            first = λ d a b u z. omega arith;
          })
          | inr bad ↦
              rw bad
                (Found-step c (i * 128 + 128) _ (λ h. ground (arith, h.0, h.1)) (rw next later))
        ])

  -- The answer of the outer loop: a first free cluster, or 0 if there is none.
  abbrev pub Answer : (lo hi c : ℕ) → Type 0
  Answer lo hi c = ((c ≡ 0) × AllTaken fs card lo hi) ⊎ IsFirstFree fs card lo hi c

  join_ranges :
      (lo mid hi c : ℕ) → lo ≤ mid → AllTaken fs card lo mid → Answer mid hi c → Answer lo hi c
  join_ranges lo mid hi c le taken (inl (z, rest)) = inl (
    z,
    λ d a b u. elim (dec_lt d mid) [ yes p ↦ taken d a p u | no p ↦ rest d (omega arith) b u ],
  )
  join_ranges lo mid hi c le taken (inr h) = inr (record {
    above = omega (arith, h.above);
    below = h.below;
    usable = h.usable;
    free = h.free;
    first = λ d a b u. elim (dec_lt d mid) [
      | yes p ↦ taken d a p u
      | no p ↦ h.first d (omega arith) b u
    ];
  })

  widen :
      (lo mid hi : ℕ) (c : ℕ)
      → mid ≤ hi
      → IsFirstFree fs card lo mid c
      → IsFirstFree fs card lo hi c
  widen lo mid hi c le h = record {
    above = h.above;
    below = omega (arith, h.below);
    usable = h.usable;
    free = h.free;
    first = h.first;
  }

  one_sector :
      (lo mid hi : ℕ) (o : Option ℕ) (rest : ℕ)
      → lo ≤ mid
      → mid ≤ hi
      → Found fs card lo mid o
      → Answer mid hi rest
      → Answer lo hi (elim o [ some c ↦ c | none ↦ rest ])
  one_sector lo mid hi none rest a b here later = join_ranges lo mid hi rest a here later
  one_sector lo mid hi (some c) rest a b here later = inr (widen lo mid hi c b here)

  sector_of_table :
      (stale : List ℕ) (i : ℕ)
      → IsSane fs
      → i < fs.sectors_per_fat
      → or_stale (read_at card (fs.offset + u32 (u32 (fs.first_fat_sector + i) * 512)) 512) stale
        ≡ card (fs.offset / 512 + fs.first_fat_sector + i)
  sector_of_table stale i v inside =
      let sum : u32 (fs.first_fat_sector + i) ≡ fs.first_fat_sector + i = omega (arith, v.tables) in
      let product : u32 ((fs.first_fat_sector + i) * 512) ≡ (fs.first_fat_sector + i) * 512 =
        omega (arith, v.tables) in
      let block : (fs.offset + (fs.first_fat_sector + i) * 512) / 512 % 2 ^ 32
          ≡ fs.offset / 512 + fs.first_fat_sector + i =
        omega (arith, v.aligned, v.reach) in
      rw
        (
          sum,
          product,
          read_one_block card (fs.offset + (fs.first_fat_sector + i) * 512)
              (omega (arith, v.aligned)),
        )
        (ap card block)

  free_from-suc :
      (stale : List ℕ) (n i : ℕ)
      → IsSane fs
      → i < fs.sectors_per_fat
      → free_from stale fs card (suc n) i 128
        ≡ elim (free_in_sector stale fs
            (card (fs.offset / 512 + fs.first_fat_sector + i))
            128
            i
            128
            0) [ some c ↦ c | none ↦ free_from stale fs card n (i + 1) 128 ]
  unfolding free_from
  free_from-suc stale n i v inside =
      ap
        (λ table.
          let found : ℕ = elim (free_in_sector stale fs table 128 i 128 0) [
            | some c ↦ c
            | none ↦ free_from stale fs card n (i + 1) 128
          ] in
          found)
        (sector_of_table stale i v inside)

  free_from-Answer :
      (stale : List ℕ) (n i : ℕ)
      → IsSane fs
      → i + n ≡ fs.sectors_per_fat
      → Answer (i * 128) (links fs) (free_from stale fs card n i 128)
  free_from-Answer stale zero i v e = inl (unfold free_from in refl, λ d a b u z. omega arith)
  free_from-Answer stale (suc n) i v e =
      let later = free_from-Answer stale n (i + 1) v (omega arith) in
      let here = free_in_sector-Found stale 128 i 0 v (omega arith) refl in
      let start : i * 128 + 0 ≡ i * 128 = omega arith in
      rw (free_from-suc stale n i v (omega arith)) (
        one_sector (i * 128) (i * 128 + 128) (links fs) _ _ (omega arith) (omega arith)
          (rw start at here)
          (let same : (i + 1) * 128 ≡ i * 128 + 128 = omega arith in rw same at later))

  free_cluster-eq :
      (stale : List ℕ)
      → IsSane fs
      → free_cluster stale fs card ≡ free_from stale fs card fs.sectors_per_fat 0 128
  unfolding free_cluster
  free_cluster-eq stale v = ap (λ n. free_from stale fs card fs.sectors_per_fat 0 (n / 4)) v.sector

  -- `FreeCluster` returns the first cluster from 2 on whose link is 0, or 0 when no cluster of the
  -- table is free.
  pub free_cluster-Answer :
      (stale : List ℕ) → IsSane fs → Answer 0 (links fs) (free_cluster stale fs card)
  free_cluster-Answer stale v =
      rw (free_cluster-eq stale v) (free_from-Answer stale fs.sectors_per_fat 0 v (omega arith))
