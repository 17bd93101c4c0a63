-- ===== src/Fat/Chain.antt =====
-- Chains of clusters: `NextCluster` follows them and `LinkFreeCluster` makes them longer.
use veil_os.Base.{
  ℕ, zero, suc, ◌+◌, ◌-◌, ◌*◌, ◌%◌, ◌^◌, ◌≤◌, ◌<◌, ◌≡◌, ◌≢◌, inl, inr, ap, sym, ◌∙◌, some, List, [],
  ◌∷◌, ◌++◌, length, leb, ◌==◌, if◌then◌else◌, arith, ne→==,
}
use veil_os.Base.Bits.{bit_and-mask}
use veil_os.Emmc.{Card}
use veil_os.Fat.Types.{FatFs}
use veil_os.Fat.Links.{
  u32, end_of_chain, decode_link, next_cluster, write_cluster_link, free_cluster, last_cluster,
  link_free_cluster, data_offset,
}
use veil_os.Fat.LinkLaws.{
  IsSane, IsCard, links, link_at, next_cluster-link, link-write, write_cluster_link-IsCard,
}
use veil_os.Fat.Free.{link, free_cluster-Answer}

-- From `c` on the links lead through the clusters of the list, and the last one ends the chain.
abbrev pub IsChain : FatFs → Card → ℕ → List ℕ → Type 0
IsChain fs card c [] = (c < links fs) × (end_of_chain ≤ link fs card c)
IsChain fs card c (d ∷ ds) =
    (c < links fs) × (link fs card c ≡ d) × (d ≢ 0) × (d < end_of_chain) × IsChain fs card d ds

abbrev pub last_of : ℕ → List ℕ → ℕ
last_of c [] = c
last_of c (d ∷ ds) = last_of d ds

decode_link-eq : (w : ℕ) → decode_link w ≡ (if leb end_of_chain (w % 2 ^ 28) then 0 else w % 2 ^ 28)
unfolding decode_link
decode_link-eq w = rw (bit_and-mask 28 w)

module _ (stale : List ℕ) {fs : FatFs} (v : IsSane fs) where
  pub next-link :
      (card : Card) (c : ℕ)
      → c < links fs
      → next_cluster stale fs card c
        ≡ (if leb end_of_chain (link fs card c) then 0 else link fs card c)
  next-link card c within =
      next_cluster-link stale v card c within ∙ decode_link-eq (link_at fs card c)

  -- The walk reaches the end of the chain, with a unit of fuel for each cluster.
  pub last_cluster-chain :
      (fuel : ℕ) (card : Card) (c : ℕ) (ds : List ℕ)
      → IsChain fs card c ds
      → length ds < fuel
      → last_cluster stale fs fuel card c ≡ some (last_of c ds)
  unfolding last_cluster
  last_cluster-chain zero card c ds h f = absurd (omega arith)
  last_cluster-chain (suc fuel) card c [] h f = ground (arith, next-link card c h.0)
  last_cluster-chain (suc fuel) card c (d ∷ ds) h f =
      let next : next_cluster stale fs card c ≡ d = ground (arith, next-link card c h.0) in
      rw (next, ne→== d 0 h.2) (last_cluster-chain fuel card d ds h.4 (omega arith))

last_of-chain :
    (fs : FatFs) (card : Card) (c : ℕ) (ds : List ℕ)
    → IsChain fs card c ds
    → (last_of c ds < links fs) × (end_of_chain ≤ link fs card (last_of c ds))
last_of-chain fs card c [] h = h
last_of-chain fs card c (d ∷ ds) h = last_of-chain fs card d ds h.4

-- The links after the last cluster has been linked to a free one.
abbrev Linked : FatFs → Card → Card → (l f : ℕ) → Type 0
Linked fs card new l f =
    (m : ℕ)
    → m < links fs
    → link fs new m ≡ (if f == m then 0x0fff_ffff else if l == m then f else link fs card m)

extend-IsChain :
    (fs : FatFs) (card new : Card) (c f : ℕ) (ds : List ℕ)
    → Linked fs card new (last_of c ds) f
    → IsChain fs card c ds
    → link fs card f ≡ 0
    → f ≢ 0
    → f < links fs
    → links fs ≤ end_of_chain
    → IsChain fs new c (ds ++ f ∷ [])
extend-IsChain fs card new c f [] linked h free ne within count =
    let here = linked c h.0 in let there = linked f within in ground (arith, here, there)
extend-IsChain fs card new c f (d ∷ ds) linked h free ne within count =
    let end = last_of-chain fs card d ds h.4 in
    let here = linked c h.0 in
    let rest = extend-IsChain fs card new d f ds linked h.4 free ne within count in
    let other : f ≢ c = λ e. h.2 (sym h.1 ∙ ap (link fs card) (sym e) ∙ free) in
    let before : last_of d ds ≢ c = λ e. omega (arith, ap (link fs card) e, end.1, h.1, h.3) in
    let kept : link fs new c ≡ d = here ∙ rw (ne→== f c other, ne→== (last_of d ds) c before) h.1 in
    (h.0, kept, h.2, h.3, rest)

module _ (stale : List ℕ) {fs : FatFs} (v : IsSane fs) (card : Card) (full : IsCard card) where
  link_two :
      (l f : ℕ)
      → l < links fs
      → f < links fs
      → Linked fs card
          (write_cluster_link stale fs (write_cluster_link stale fs card l f) f 0x0fff_ffff)
          l
          f
  link_two l f lin fin m min = ground (
    arith,
    link-write stale v (write_cluster_link stale fs card l f) f 0x0fff_ffff m
        (write_cluster_link-IsCard stale v card l f full lin) fin min,
    link-write stale v card l f m full lin min,
    v.count,
  )

  link_free_cluster-last :
      (fuel c l : ℕ)
      → last_cluster stale fs fuel card c ≡ some l
      → link_free_cluster stale fs fuel card c
        ≡ some (
          write_cluster_link stale fs
              (write_cluster_link stale fs card l (free_cluster stale fs card))
              (free_cluster stale fs card)
              0x0fff_ffff,
          free_cluster stale fs card,
        )
  unfolding link_free_cluster
  link_free_cluster-last fuel c l e = rw (e, link_free_cluster)

  -- `LinkFreeCluster` on a chain, while the table has a free cluster: it links a cluster that was
  -- free behind the last one, ends the chain there, and changes the links of these two only.
  pub link_free_cluster-IsChain :
      (fuel c : ℕ) (ds : List ℕ)
      → IsChain fs card c ds
      → length ds < fuel
      → free_cluster stale fs card ≢ 0
      → (new : Card) × (f : ℕ) × (link_free_cluster stale fs fuel card c ≡ some (new, f))
        × (link fs card f ≡ 0)
        × IsChain fs new c (ds ++ f ∷ [])
        × ((m : ℕ) → m < links fs → m ≢ f → m ≢ last_of c ds → link fs new m ≡ link fs card m)
  link_free_cluster-IsChain fuel c ds h enough more = elim (free_cluster-Answer fs card stale v) [
    | inl none_left ↦ absurd (more none_left.0)
    | inr a ↦
        let f = free_cluster stale fs card in
        let l = last_of c ds in
        let linked = link_two l f (last_of-chain fs card c ds h).0 a.below in
        let new =
          write_cluster_link stale fs (write_cluster_link stale fs card l f) f 0x0fff_ffff in
        (
          new,
          f,
          link_free_cluster-last fuel c l (last_cluster-chain stale v fuel card c ds h enough),
          a.free,
          extend-IsChain fs card new c f ds linked h a.free more a.below v.count,
          λ m min nf nl.
              linked m min ∙ rw (ne→== f m (λ e. nf (sym e)), ne→== l m (λ e. nl (sym e))),
        )
  ]

  -- When the table has no free cluster, `LinkFreeCluster` on a chain that does not start at cluster
  -- 0 returns 0 all the same, writes 0 over the mark that ended the chain, and an end mark over the
  -- link of cluster 0.
  pub link_free_cluster_full :
      (fuel c : ℕ) (ds : List ℕ)
      → IsChain fs card c ds
      → length ds < fuel
      → last_of c ds ≢ 0
      → free_cluster stale fs card ≡ 0
      → (new : Card) × (link_free_cluster stale fs fuel card c ≡ some (new, 0))
        × (link fs new (last_of c ds) ≡ 0)
        × (link fs new 0 ≡ 0x0fff_ffff)
  link_free_cluster_full fuel c ds h enough ne none_left =
      let l = last_of c ds in
      let lin = (last_of-chain fs card c ds h).0 in
      let linked = link_two l 0 lin (omega arith) in
      (
        write_cluster_link stale fs (write_cluster_link stale fs card l 0) 0 0x0fff_ffff,
        link_free_cluster-last fuel c l (last_cluster-chain stale v fuel card c ds h enough)
            ∙ ap
                (λ f. some (
                  write_cluster_link stale fs (write_cluster_link stale fs card l f) f 0x0fff_ffff,
                  f,
                ))
                none_left,
        ground (arith, linked l lin),
        ground (arith, linked 0 (omega arith)),
      )

-- `ReadCluster` and `WriteCluster` compute the position on the card in 32 bits: clusters whose
-- distance covers 2 ^ 23 sectors (4 GiB) get the same position.
pub data_offset-wrap :
    (fs : FatFs) (c k : ℕ)
    → 2 ≤ c
    → c + k < 2 ^ 32
    → k * fs.sectors_per_cluster ≡ 2 ^ 23
    → data_offset fs (c + k) ≡ data_offset fs c
unfolding data_offset
data_offset-wrap fs c k two fits far =
    let near : u32 (c + 2 ^ 32 - 2) ≡ c - 2 = omega arith in
    let next : u32 (c + k + 2 ^ 32 - 2) ≡ c - 2 + k = omega arith in
    let apart : (c - 2 + k) * fs.sectors_per_cluster ≡ (c - 2) * fs.sectors_per_cluster + 2 ^ 23 =
      distribute (c - 2) k fs.sectors_per_cluster
      ∙ ap (λ t. (c - 2) * fs.sectors_per_cluster + t) far in
    rw (near, next, apart) (omega arith)
  where
    distribute : (x y z : ℕ) → (x + y) * z ≡ x * z + y * z
    distribute x y z = omega arith
