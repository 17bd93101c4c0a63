-- ===== src/Memory/Malloc.antt =====
-- The block that `malloc` gives out, and that it keeps the others.
use mathlib.Core.Path.{subst}
use veil_os.Base.{
  ℕ, ◌+◌, ◌*◌, ◌/◌, ◌^◌, ◌≤◌, ◌<◌, ◌≡◌, ◌≢◌, inl, inr, refl, sym, ap, ◌∙◌, Option, some, length,
  ltb, ◌==◌, if◌then◌else◌, arith, Bool-cases, Option-cases, ltb→lt, ltb→le, eq→==, ne→==,
}
use veil_os.Memory.Pages.{page_free, page_size}
use veil_os.Memory.Alloc.{
  u32, head_block, take_pages, Mapper, Memory, flag_at, find_free, mark_pages, round_up, set_header,
  get_free_page, malloc,
}
use veil_os.Memory.Marking.{
  check_memory-free, find_free-check, mark_pages-length, mark_pages_outside, mark_pages_inside,
}
use veil_os.Memory.Blocks.{Block, IsBlock, address_of, first_used}

-- The number of pages in front of the header.
abbrev pub pages_of : ℕ → ℕ
pages_of size = (size + 4095) / 4096

abbrev pub block_at : (first size : ℕ) → Block
block_at first size = record { first = first; count = pages_of size; asked = size }

module _ {T : Type 0} (mapper : Mapper T) (mem : Memory T) (size : ℕ) where
  -- A request that fits: it is not for nothing, and its size does not wrap around with its header.
  abbrev pub Fits : Type 0
  Fits = (0 < size) × (size + 8192 ≤ 2 ^ 32)

  count_eq : Fits → u32 (page_size + round_up size) / page_size ≡ pages_of size + 1
  count_eq fits = omega (arith, fits)

  round_eq : Fits → round_up size ≡ pages_of size * page_size
  round_eq fits = omega (arith, fits)

  unfoldable pub search : Option ℕ
  search = find_free mem.pages (length mem.pages) 0 (pages_of size + 1)

  pub malloc-eq :
      Fits
      → malloc mapper mem size ≡ head_block size (take_pages mapper mem (pages_of size + 1) search)
  unfolding malloc get_free_page search
  malloc-eq fits = rw (ne→== size 0 (omega (arith, fits))) (
      ap
        (λ n.
          head_block size (take_pages mapper mem n (find_free mem.pages (length mem.pages) 0 n)))
        (count_eq fits))

  -- The memory that `malloc` leaves when it found the page `i`.
  left : ℕ → Memory T
  left i = record {
    pages = (mark_pages mapper (pages_of size + 1) i mem.pages mem.tables).0;
    headers = λ a.
        if a == address_of i + round_up size
        then record { size = round_up size; start = address_of i; initial_size = size }
        else mem.headers a;
    tables = (mark_pages mapper (pages_of size + 1) i mem.pages mem.tables).1;
  }

  malloc_found :
      (i : ℕ)
      → Fits
      → (malloc mapper mem size).1 ≡ address_of i
      → (search ≡ some i) × (malloc mapper mem size ≡ (left i, address_of i))
  unfolding head_block take_pages set_header left
  malloc_found i fits e = elim (Option-cases search) [
    | inl missing ↦
        let all =
          malloc-eq fits
          ∙ ap (λ o. head_block size (take_pages mapper mem (pages_of size + 1) o)) missing in
        let null = sym e ∙ ap (λ r. r.1) all in absurd (omega (arith, null))
    | inr (k, found) ↦
        let all =
          malloc-eq fits
          ∙ ap (λ o. head_block size (take_pages mapper mem (pages_of size + 1) o)) found in
        let same = sym e ∙ ap (λ r. r.1) all in
        let k_i : k ≡ i = omega (arith, same) in
        (found ∙ ap some k_i, all ∙ ap (λ j. (left j, address_of j)) k_i)
  ]

  module _ (i : ℕ) (fits : Fits) (found : (malloc mapper mem size).1 ≡ address_of i)
      (room : i + pages_of size < length mem.pages) where
    checked : (m : ℕ) → i ≤ m → m < i + (pages_of size + 1) → flag_at mem.pages m ≡ page_free
    unfolding search
    checked m lo hi =
        let at =
          find_free-check mem.pages (length mem.pages) 0 (pages_of size + 1)
            ((malloc_found i fits found).0) in
        check_memory-free mem.pages (pages_of size + 1) i m (at.0) lo hi (omega arith)

    left-eq : left i ≡ (malloc mapper mem size).0
    left-eq = sym (ap (λ r. r.0) ((malloc_found i fits found).1))

    left-IsBlock : IsBlock (left i) (block_at i size)
    unfolding left
    left-IsBlock = record {
      within = omega (arith, mark_pages-length mapper (pages_of size + 1) i mem.pages mem.tables);
      occupied = λ m lo hi.
          let inside =
            mark_pages_inside mapper (pages_of size + 1) i m mem.pages mem.tables lo (omega arith)
              (omega arith) in
          ground (arith, inside);
      ended =
          let inside =
            mark_pages_inside mapper (pages_of size + 1) i (i + pages_of size) mem.pages mem.tables
              (omega arith) (omega arith) (omega arith) in
          ground (arith, inside);
      headed =
          let at : address_of (i + pages_of size) ≡ address_of i + round_up size =
            omega (arith, round_eq fits) in
          rw (eq→== _ _ at, round_eq fits) refl;
    }

    left-length : length (left i).pages ≡ length mem.pages
    unfolding left
    left-length = mark_pages-length mapper (pages_of size + 1) i mem.pages mem.tables

    -- A header elsewhere stays.
    left-headers : (a : ℕ) → a ≢ address_of (i + pages_of size) → (left i).headers a ≡ mem.headers a
    unfolding left
    left-headers a ne =
        let at : address_of (i + pages_of size) ≡ address_of i + round_up size =
          omega (arith, round_eq fits) in
        rw (ne→== a (address_of i + round_up size) (λ e. ne (e ∙ sym at))) refl

    left_keeps :
        (m : ℕ) → flag_at mem.pages m ≢ page_free → flag_at (left i).pages m ≡ flag_at mem.pages m
    unfolding left
    left_keeps m used = elim (Bool-cases (ltb m i)) [
      | inl below ↦
          mark_pages_outside mapper (pages_of size + 1) i m mem.pages mem.tables
            (inl (ltb→lt m i below)) used
      | inr above ↦ elim (Bool-cases (ltb m (i + (pages_of size + 1)))) [
        | inl inside ↦ absurd (used (checked m (ltb→le m i above) (ltb→lt m _ inside)))
        | inr past ↦
            mark_pages_outside mapper (pages_of size + 1) i m mem.pages mem.tables
              (inr (ltb→le m _ past)) used
      ]
    ]

    -- A request that fits and that `malloc` answers with a page of memory, with all of the block
    -- inside the memory, gives a block of the size asked for, of pages that were free. The pages
    -- that were not free keep their flags.
    pub malloc-IsBlock :
        IsBlock ((malloc mapper mem size).0) (block_at i size)
        × ((m : ℕ) → i ≤ m → m ≤ i + pages_of size → flag_at mem.pages m ≡ page_free)
        × ((m : ℕ)
            → flag_at mem.pages m ≢ page_free
            → flag_at (malloc mapper mem size).0.pages m ≡ flag_at mem.pages m)
    malloc-IsBlock = (
      subst (λ r. IsBlock r (block_at i size)) left-eq left-IsBlock,
      λ m lo hi. checked m lo (omega arith),
      λ m used. ap (λ r. flag_at r.pages m) (sym left-eq) ∙ left_keeps m used,
    )

    -- Every other block that was given out still is.
    pub malloc_keeps-IsBlock :
        (c : Block) → IsBlock mem c → IsBlock ((malloc mapper mem size).0) c × (c.first ≢ i)
    malloc_keeps-IsBlock c h =
        let header_used : flag_at mem.pages (c.first + c.count) ≢ page_free =
          λ e. absurd (omega (arith, sym h.ended ∙ e)) in
        let page_used : (m : ℕ)
            → c.first ≤ m
            → m < c.first + c.count
            → flag_at mem.pages m ≢ page_free =
          λ m lo hi e. absurd (omega (arith, sym (h.occupied m lo hi) ∙ e)) in
        let kept : IsBlock (left i) c = record {
          within = omega (arith, left-length, h.within);
          occupied = λ m lo hi. left_keeps m (page_used m lo hi) ∙ h.occupied m lo hi;
          ended = left_keeps (c.first + c.count) header_used ∙ h.ended;
          headed =
              left-headers (address_of (c.first + c.count)) (λ e. header_used (
                ap (flag_at mem.pages) (omega (arith, e))
                ∙ checked (i + pages_of size) (omega arith) (omega arith)))
              ∙ h.headed;
        } in
        (
          subst (λ r. IsBlock r c) left-eq kept,
          λ e.
              first_used mem c h (ap (flag_at mem.pages) e ∙ checked i (omega arith) (omega arith)),
        )
