-- ===== src/Memory/Pages.antt =====
-- kernel/memory/pmm.c: the flags of the pages, one for each. A write through the null pointer that
-- `GetPageAtIndex` gives past the last page is taken as no change.
use veil_os.Base.{
  ℕ, zero, suc, ◌+◌, ◌-◌, ◌*◌, ◌/◌, ◌^◌, Option, List, [], ◌∷◌, length, get_elem?, set, replicate,
  ltb, ◌==◌, if◌then◌else◌,
}

-- `enum Page_Flags`
abbrev pub page_free : ℕ
page_free = 0

abbrev pub page_occupied : ℕ
page_occupied = 1

abbrev pub page_header : ℕ
page_header = 2

abbrev pub page_reserved : ℕ
page_reserved = 3

abbrev pub page_size : ℕ
page_size = 4096

abbrev pub high_va : ℕ
high_va = 0xffff_0000_0000_0000

abbrev pub low_memory : ℕ
low_memory = 2 * 2 ^ 21

abbrev pub Pages : Type 0
Pages = List ℕ

unfoldable pub get_page_at_index : Pages → ℕ → Option ℕ
get_page_at_index pages index = get_elem? pages index

unfoldable pub get_page_at_address : Pages → ℕ → Option ℕ
get_page_at_address pages address = get_elem? pages (address / page_size)

-- The first free page, counted from `i` on; the length of the list past the end if there is none.
unfoldable pub first_free : Pages → ℕ
first_free [] = 0
first_free (flag ∷ pages) = if flag == page_free then 0 else suc (first_free pages)

-- `GetPhysicalPage`: the flags, and the address of the page, or 0 if no page is free.
unfoldable pub get_physical_page : Pages → Pages × ℕ
get_physical_page pages =
    let i = first_free pages in
    if ltb i (length pages) then (set pages i page_occupied, i * page_size) else (pages, 0)

-- A loop of `PMMInit`: `rounds` pages from the one at `address` on.
unfoldable pub set_pages : (flag rounds address : ℕ) → Pages → Pages
set_pages flag zero address pages = pages
set_pages flag (suc n) address pages =
    set_pages flag n (address + page_size) (set pages (address / page_size) flag)

-- The number of rounds of `for (addr = address; addr < end; addr += PAGE_SIZE)`.
abbrev pub rounds_below : (address end : ℕ) → ℕ
rounds_below address end = (end - address + (page_size - 1)) / page_size

abbrev pub rounds_to : (address end : ℕ) → ℕ
rounds_to address end = rounds_below address (end + 1)

-- The loop over the entries of `/memory@0/reg`, each an address and a size.
unfoldable pub free_entries : List (ℕ × ℕ) → Pages → Pages
free_entries [] pages = pages
free_entries ((address, size) ∷ entries) pages =
    free_entries entries (set_pages page_free (rounds_below address (address + size)) address pages)

-- `PMMInit`, with addresses relative to `HIGH_VA`: `peripherals` and `gic` are the bases of the two
-- device regions.
unfoldable pub pmm_init : List (ℕ × ℕ) → (memsize last_page peripherals gic : ℕ) → Pages
pmm_init entries memsize last_page peripherals gic =
    let pages = free_entries entries (replicate (memsize / page_size) page_occupied) in
    let pages = set_pages page_reserved (rounds_to low_memory last_page) low_memory pages in
    let pages = set_pages page_reserved (rounds_to 0 low_memory) 0 pages in
    let pages =
      set_pages page_reserved (rounds_to peripherals (peripherals + page_size * page_size))
        peripherals pages in
    set_pages page_reserved (rounds_to gic (gic + page_size * 2)) gic pages
