-- ===== src/Memory/Alloc.antt =====
-- kernel/memory/allocator.c. The tables of the kernel are of a type `T`; mapping a page may take
-- pages for new tables, so it changes the flags as well. `Mapper` is what the allocator relies on.
use veil_os.Base.{
  ℕ, zero, suc, ◌+◌, ◌-◌, ◌*◌, ◌/◌, ◌%◌, ◌^◌, ◌≡◌, ◌≢◌, Bool, true, false, not, Option, none, some,
  length, get_or, set, leb, ltb, ◌==◌, if◌then◌else◌,
}
use veil_os.Memory.Pages.{
  Pages, page_free, page_occupied, page_header, page_reserved, page_size, high_va,
}

abbrev pub u32 : ℕ → ℕ
u32 n = n % 2 ^ 32

abbrev pub flag_at : Pages → ℕ → ℕ
flag_at pages i = get_or pages i page_reserved

-- `MapTablePage` and `UnmapTablePage` on the tables of the kernel. Mapping keeps the number of pages
-- and every page that is not free.
pub record Mapper (T : Type 0) : Type 0 where
  pub map_page : (va pa : ℕ) → Pages → T → Pages × T
  pub unmap_page : (va : ℕ) → T → T
  pub map_length :
      (va pa : ℕ) (pages : Pages) (t : T) → length ((map_page va pa pages t).0) ≡ length pages
  pub map_keeps :
      (va pa : ℕ) (pages : Pages) (t : T) (i : ℕ)
      → flag_at pages i ≢ page_free
      → flag_at ((map_page va pa pages t).0) i ≡ flag_at pages i

pub record MHeader : Type 0 where
  pub size : ℕ
  pub start : ℕ
  pub initial_size : ℕ

-- The headers stand at addresses.
pub record Memory (T : Type 0) : Type 0 where
  pub pages : Pages
  pub headers : ℕ → MHeader
  pub tables : T

-- `check_memory`, with `rounds` pages to go: past the last page it stops and is content.
unfoldable pub check_memory : Pages → (rounds index : ℕ) → Bool
check_memory pages zero index = true
check_memory pages (suc n) index =
    if not (ltb index (length pages))
    then true
    else if not (flag_at pages index == page_free)
    then false
    else check_memory pages n (index + 1)

-- The outer loop of `get_free_page`, with `rounds` pages to go from page `i` on.
unfoldable pub find_free : Pages → (rounds i count : ℕ) → Option ℕ
find_free pages zero i count = none
find_free pages (suc n) i count =
    if check_memory pages count i then some i else find_free pages n (i + 1) count

-- The page of the header: the first one from `i` on that is flagged so.
unfoldable pub find_header : Pages → (rounds i : ℕ) → Option ℕ
find_header pages zero i = none
find_header pages (suc n) i =
    if not (flag_at pages i == page_header) then find_header pages n (i + 1) else some i

-- `((unsigned long)data - HIGH_VA) / PAGE_SIZE`
unfoldable pub index_of : ℕ → ℕ
index_of address =
    if ltb address high_va
    then (address + (2 ^ 64 - high_va)) / page_size
    else (address - high_va) / page_size

abbrev pub round_up : ℕ → ℕ
round_up size = u32 (size + (page_size - 1)) / page_size * page_size

module _ {T : Type 0} where
  unfoldable pub set_header : Memory T → (address : ℕ) → MHeader → Memory T
  set_header mem address header = record mem {
    headers = λ a. if a == address then header else mem.headers a;
  }

  -- The header behind the pages that were found.
  unfoldable pub head_block : (size : ℕ) → Memory T × ℕ → Memory T × ℕ
  head_block size (mem, page) =
      let header : MHeader = record { size = round_up size; start = page; initial_size = size } in
      (set_header mem (page + round_up size) header, page)

  unfoldable pub get_header : Memory T → (index : ℕ) → Option MHeader
  get_header mem index = elim (find_header mem.pages (length mem.pages - index) index) [
    | none ↦ none
    | some i ↦ some (mem.headers (high_va + i * page_size))
  ]

  unfoldable pub memory_size : Memory T → (address : ℕ) → Option ℕ
  memory_size mem address = elim (get_header mem (index_of address)) [
    | none ↦ none
    | some header ↦ some header.initial_size
  ]

module _ {T : Type 0} (mapper : Mapper T) where
  -- The inner loop, with `rounds` pages to go from page `i` on; the last one becomes the header.
  unfoldable pub mark_pages : (rounds i : ℕ) → Pages → T → Pages × T
  mark_pages zero i pages t = (pages, t)
  mark_pages (suc n) i pages t =
      let (pages', t') = mapper.map_page (high_va + i * page_size) (i * page_size) pages t in
      let flag = if n == 0 then page_header else page_occupied in
      mark_pages n (i + 1) (set pages' i flag) t'

  unfoldable pub take_pages : Memory T → (count : ℕ) → Option ℕ → Memory T × ℕ
  take_pages mem count none = (mem, 0)
  take_pages mem count (some i) =
      let (pages, tables) = mark_pages count i mem.pages mem.tables in
      (record mem { pages = pages; tables = tables }, high_va + i * page_size)

  -- The memory, and the address of the first page or 0.
  unfoldable pub get_free_page : Memory T → (size : ℕ) → Memory T × ℕ
  get_free_page mem size =
      take_pages mem (size / page_size)
        (find_free mem.pages (length mem.pages) 0 (size / page_size))

  -- Where no page is found the header is written behind the null pointer.
  unfoldable pub malloc : Memory T → (size : ℕ) → Memory T × ℕ
  malloc mem size =
      if size == 0
      then (mem, 0)
      else head_block size (get_free_page mem (u32 (page_size + round_up size)))

  -- The loop of `free`.
  unfoldable pub release_pages : (rounds : ℕ) → (va index : ℕ) → Pages → T → Pages × T
  release_pages zero va index pages t = (pages, t)
  release_pages (suc n) va index pages t =
      release_pages n (va + page_size) (index + 1) (set pages index page_free)
        (mapper.unmap_page va t)

  -- `none` where the kernel panics.
  unfoldable pub free_with : Memory T → (address index : ℕ) → Option MHeader → Option (Memory T × ℕ)
  free_with mem address index none = none
  free_with mem address index (some header) =
      let (pages, tables) =
        release_pages (header.size / page_size + 1) address index mem.pages mem.tables in
      some (record mem { pages = pages; tables = tables }, header.initial_size)

  unfoldable pub free : Memory T → (address : ℕ) → Option (Memory T × ℕ)
  free mem address =
      let index = index_of address in free_with mem address index (get_header mem index)

  -- `realloc` but for the copy of the bytes, which this memory does not hold.
  unfoldable pub realloc : Memory T → (address size : ℕ) → Option (Memory T × ℕ)
  realloc mem address size = elim (memory_size mem address) [
    | none ↦ none
    | some old ↦
        let (mem', new_address) = malloc mem size in
        let freed = free mem' address in
        if leb size old
        then none
        else (elim freed [ none ↦ none | some (mem'', n) ↦ some (mem'', new_address) ])
  ]
