-- ===== src/Fat/Walk.antt =====
-- `read_fat_node_index` of kernel/fs/fat32.c walks along a chain.
use veil_os.Base.{ℕ, zero, suc, ◌≡◌, refl, List, [], ◌∷◌, get_elem?, arith, eq→==, ne→==}
use veil_os.Emmc.{Card}
use veil_os.Fat.Types.{FatFs}
use veil_os.Fat.Links.{next_cluster}
use veil_os.Fat.LinkLaws.{IsSane}
use veil_os.Fat.Chain.{IsChain, next-link}
use veil_os.Fat.Contents.{nth_cluster}

-- On a sane volume, the walk of `read_fat_node_index` along a chain finds the cluster with the index
-- in the chain, and reports that there is none for an index past its end.
pub nth_cluster-IsChain :
    (stale : List ℕ) (fs : FatFs) (v : IsSane fs) (card : Card) (index c : ℕ) (ds : List ℕ)
    → IsChain fs card c ds
    → nth_cluster stale fs card index c ≡ get_elem? (c ∷ ds) index
unfolding nth_cluster
nth_cluster-IsChain stale fs v card zero c ds h = refl
nth_cluster-IsChain stale fs v card (suc index) c [] h =
    let next : next_cluster stale fs card c ≡ 0 = ground (arith, next-link stale v card c h.0) in
    rw (eq→== _ _ next) refl
nth_cluster-IsChain stale fs v card (suc index) c (d ∷ ds) h =
    let next : next_cluster stale fs card c ≡ d = ground (arith, next-link stale v card c h.0) in
    rw (next, ne→== d 0 h.2) (nth_cluster-IsChain stale fs v card index d ds h.4)
