-- ===== src/Memory/Heap.antt =====
-- What holds of the blocks after any sequence of `malloc` and `free`.
use mathlib.Core.Option.{some_inj}
use mathlib.Core.Path.{subst}
use veil_os.Base.{ℕ, ◌+◌, ◌<◌, ◌≡◌, ◌≢◌, ◌⊎◌, inl, inr, sym, ap, ◌∙◌, some, List, [], ◌∷◌, length}
use veil_os.Memory.Alloc.{Mapper, Memory, malloc, free, memory_size}
use veil_os.Memory.Blocks.{Block, IsBlock, address_of, blocks_apart}
use veil_os.Memory.Malloc.{Fits, pages_of, block_at, malloc-IsBlock, malloc_keeps-IsBlock}
use veil_os.Memory.Free.{freed, free-IsBlock, free_keeps-IsBlock, memory_size-IsBlock}

-- The list with one of its blocks taken out.
pub data Removed (b : Block) : List Block → List Block → Type 0 where
  here : {bs : List Block} → Removed b (b ∷ bs) bs
  there : {c : Block} {bs cs : List Block} → Removed b bs cs → Removed b (c ∷ bs) (c ∷ cs)

abbrev pub In : Block → List Block → Type 0
In b [] = ⊥
In b (c ∷ bs) = (b ≡ c) ⊎ In b bs

-- The blocks start at different pages.
abbrev pub Fresh : Block → List Block → Type 0
Fresh b [] = Unit {0}
Fresh b (c ∷ bs) = (c.first ≢ b.first) × Fresh b bs

abbrev pub AllApart : List Block → Type 0
AllApart [] = Unit {0}
AllApart (b ∷ bs) = Fresh b bs × AllApart bs

Fresh-Removed :
    (a b : Block) {bs cs : List Block}
    → Removed b bs cs
    → Fresh a bs
    → Fresh a cs × (b.first ≢ a.first)
Fresh-Removed a b here apart = (apart.1, apart.0)
Fresh-Removed a b (there r) apart =
    let rest = Fresh-Removed a b r (apart.1) in ((apart.0, rest.0), rest.1)

AllApart-Removed :
    (b : Block) {bs cs : List Block} → Removed b bs cs → AllApart bs → Fresh b cs × AllApart cs
AllApart-Removed b here apart = apart
AllApart-Removed b (there {c} r) apart =
    let rest = AllApart-Removed b r (apart.1) in
    let fresh = Fresh-Removed c b r (apart.0) in
    (((λ e. fresh.1 (sym e)), rest.0), (fresh.0, rest.1))

module _ {T : Type 0} (mapper : Mapper T) where
  abbrev pub AllBlocks : Memory T → List Block → Type 0
  AllBlocks mem [] = Unit {0}
  AllBlocks mem (b ∷ bs) = IsBlock mem b × AllBlocks mem bs

  -- The memory, with the blocks that are given out, after calls of `malloc` and `free`: requests that
  -- fit and are answered inside the memory, and blocks that are freed once.
  pub data Heap : Memory T → List Block → Type 0 where
    start : (mem : Memory T) → Heap mem []
    allocate :
        {mem : Memory T} {bs : List Block} (size i : ℕ)
        → Heap mem bs
        → Fits mapper mem size
        → (malloc mapper mem size).1 ≡ address_of i
        → i + pages_of size < length mem.pages
        → Heap ((malloc mapper mem size).0) (block_at i size ∷ bs)
    release :
        {mem mem' : Memory T} {bs cs : List Block} (b : Block) {asked : ℕ}
        → Heap mem bs
        → Removed b bs cs
        → free mapper mem (address_of b.first) ≡ some (mem', asked)
        → Heap mem' cs

  AllBlocks-malloc :
      (mem : Memory T) (size i : ℕ) (bs : List Block)
      → Fits mapper mem size
      → (malloc mapper mem size).1 ≡ address_of i
      → i + pages_of size < length mem.pages
      → AllBlocks mem bs
      → AllBlocks ((malloc mapper mem size).0) bs × Fresh (block_at i size) bs
  AllBlocks-malloc mem size i [] fits e room all = (tt, tt)
  AllBlocks-malloc mem size i (b ∷ bs) fits e room all =
      let kept = malloc_keeps-IsBlock mapper mem size i fits e room b (all.0) in
      let rest = AllBlocks-malloc mem size i bs fits e room (all.1) in
      ((kept.0, rest.0), (kept.1, rest.1))

  AllBlocks-Removed :
      (mem : Memory T) (b : Block) {bs cs : List Block}
      → Removed b bs cs
      → AllBlocks mem bs
      → IsBlock mem b × AllBlocks mem cs
  AllBlocks-Removed mem b here all = all
  AllBlocks-Removed mem b (there r) all =
      let rest = AllBlocks-Removed mem b r (all.1) in (rest.0, (all.0, rest.1))

  AllBlocks-freed :
      (mem : Memory T) (b : Block) (h : IsBlock mem b) (cs : List Block)
      → AllBlocks mem cs
      → Fresh b cs
      → AllBlocks (freed mem b h mapper) cs
  AllBlocks-freed mem b h [] all apart = tt
  AllBlocks-freed mem b h (c ∷ cs) all apart = (
    free_keeps-IsBlock mem b h mapper c (all.0) (λ e. apart.0 (sym e)),
    AllBlocks-freed mem b h cs (all.1) (apart.1),
  )

  AllBlocks-In :
      (mem : Memory T) (b : Block) (bs : List Block) → AllBlocks mem bs → In b bs → IsBlock mem b
  AllBlocks-In mem b [] all one = absurd one
  AllBlocks-In mem b (c ∷ bs) all (inl e) = subst (λ x. IsBlock mem x) (sym e) (all.0)
  AllBlocks-In mem b (c ∷ bs) all (inr one) = AllBlocks-In mem b bs (all.1) one

  -- After any such sequence all the blocks are there, and no two of them start at one page.
  pub Heap-AllBlocks :
      {mem : Memory T} {bs : List Block} → Heap mem bs → AllBlocks mem bs × AllApart bs
  Heap-AllBlocks (start mem) = (tt, tt)
  Heap-AllBlocks (allocate {mem} {bs} size i h fits e room) =
      let before = Heap-AllBlocks h in
      let kept = AllBlocks-malloc mem size i bs fits e room (before.0) in
      (((malloc-IsBlock mapper mem size i fits e room).0, kept.0), (kept.1, before.1))
  Heap-AllBlocks (release {mem} {mem'} {bs} {cs} b h r e) =
      let before = Heap-AllBlocks h in
      let there = AllBlocks-Removed mem b r (before.0) in
      let apart = AllApart-Removed b r (before.1) in
      let same = some_inj.0 (sym (free-IsBlock mem b (there.0) mapper) ∙ e) in
      (
        subst (λ m. AllBlocks m cs) (ap (λ p. p.0) same)
            (AllBlocks-freed mem b (there.0) cs (there.1) (apart.0)),
        apart.1,
      )

  -- After any such sequence two different blocks have no page in common, and `MemorySize` and `free`
  -- of each give the size that it was asked for with.
  pub Heap-sound :
      {mem : Memory T} {bs : List Block} (b c : Block)
      → Heap mem bs
      → In b bs
      → In c bs
      → ((b.first ≢ c.first → (b.first + b.count < c.first) ⊎ (c.first + c.count < b.first)))
        × (memory_size mem (address_of b.first) ≡ some b.asked)
        × (mem' : Memory T) × (free mapper mem (address_of b.first) ≡ some (mem', b.asked))
  Heap-sound {mem} {bs} b c h in_b in_c =
      let all = (Heap-AllBlocks h).0 in
      let hb = AllBlocks-In mem b bs all in_b in
      let hc = AllBlocks-In mem c bs all in_c in
      (
        blocks_apart mem b c hb hc,
        memory_size-IsBlock mem b hb,
        freed mem b hb mapper,
        free-IsBlock mem b hb mapper,
      )
