-- ===== src/Memory/Free.antt =====
-- `free`, `MemorySize` and the header that they find.
use veil_os.Base.{
  ℕ, ◌+◌, ◌-◌, ◌*◌, ◌/◌, ◌≤◌, ◌<◌, ◌≡◌, ◌≢◌, ◌⊎◌, inl, inr, refl, sym, ap, ◌∙◌, some, length, leb,
  le→ltb, ◌&&◌, if◌then◌else◌, arith,
}
use veil_os.Memory.Pages.{page_free, page_header, page_size, high_va}
use veil_os.Memory.Alloc.{
  Mapper, Memory, flag_at, release_pages, get_header, free, free_with, memory_size, index_of,
}
use veil_os.Memory.Marking.{find_header-end, release_pages-flag, release_pages-length}
use veil_os.Memory.Blocks.{Block, IsBlock, address_of, header_of, blocks_apart}

module _ {T : Type 0} (mem : Memory T) (b : Block) (h : IsBlock mem b) where
  index_eq : index_of (address_of b.first) ≡ b.first
  unfolding index_of
  index_eq = rw (le→ltb (address_of b.first) high_va (omega arith)) (omega arith)

  get_header-IsBlock : get_header mem b.first ≡ some (header_of b)
  unfolding get_header
  get_header-IsBlock =
      let at =
        find_header-end mem.pages b.count (length mem.pages - b.first) b.first before h.ended
          (omega (arith, h.within)) in
      rw (at, get_header) (ap some h.headed)
    where
      before : (m : ℕ) → b.first ≤ m → m < b.first + b.count → flag_at mem.pages m ≢ page_header
      before m lo hi e = absurd (omega (arith, sym (h.occupied m lo hi) ∙ e))

  -- `MemorySize` of a block is the size that was asked for.
  pub memory_size-IsBlock : memory_size mem (address_of b.first) ≡ some b.asked
  unfolding memory_size
  memory_size-IsBlock = rw (index_eq, memory_size, get_header-IsBlock) refl

  module _ (mapper : Mapper T) where
    abbrev pub freed : Memory T
    freed =
        let (pages, tables) =
          release_pages mapper (b.count + 1) (address_of b.first) b.first mem.pages mem.tables in
        record mem { pages = pages; tables = tables }

    pub free-IsBlock : free mapper mem (address_of b.first) ≡ some (freed, b.asked)
    unfolding free free_with
    free-IsBlock =
        let address = address_of b.first in
        let count : b.count * page_size / page_size ≡ b.count = omega arith in
        ap (λ i. free_with mapper mem address i (get_header mem i)) index_eq
        ∙ ap (free_with mapper mem address b.first) get_header-IsBlock
        ∙ ap (λ n. some (released n, b.asked)) count
      where
        released : ℕ → Memory T
        released n =
            let (pages, tables) =
              release_pages mapper (n + 1) (address_of b.first) b.first mem.pages mem.tables in
            record mem { pages = pages; tables = tables }

    -- The pages of a block that is freed are free, and every other page keeps its flag.
    pub freed-flag :
        (m : ℕ)
        → m < length mem.pages
        → flag_at freed.pages m
          ≡ (if leb b.first m && leb m (b.first + b.count) then page_free else flag_at mem.pages m)
    freed-flag m lt = ground (
      arith,
      release_pages-flag mapper (b.count + 1) (address_of b.first) b.first m mem.pages mem.tables
          lt,
    )

    freed_same :
        (m : ℕ)
        → m < length mem.pages
        → (m < b.first) ⊎ (b.first + b.count < m)
        → flag_at freed.pages m ≡ flag_at mem.pages m
    freed_same m lt out = ground (arith, freed-flag m lt, out)

    -- `free` of a block keeps every other block.
    pub free_keeps-IsBlock : (c : Block) → IsBlock mem c → b.first ≢ c.first → IsBlock freed c
    free_keeps-IsBlock c hc ne =
        let apart = blocks_apart mem b c h hc ne in
        record {
          within = omega (
            arith,
            hc.within,
            release_pages-length mapper (b.count + 1) (address_of b.first) b.first mem.pages
                mem.tables,
          );
          occupied = λ m lo hi.
              freed_same m (omega (arith, hc.within)) (outside apart m lo (omega arith))
              ∙ hc.occupied m lo hi;
          ended =
              freed_same (c.first + c.count) hc.within
                (outside apart (c.first + c.count) (omega arith) (omega arith))
              ∙ hc.ended;
          headed = hc.headed;
        }
      where
        outside :
            (b.first + b.count < c.first) ⊎ (c.first + c.count < b.first)
            → (m : ℕ) → c.first ≤ m
            → m ≤ c.first + c.count
            → (m < b.first) ⊎ (b.first + b.count < m)
        outside (inl lt) m lo hi = inr (omega arith)
        outside (inr lt) m lo hi = inl (omega arith)
