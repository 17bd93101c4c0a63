-- ===== src/Memory/Examples.antt =====
-- Blocks in a memory of eight pages, the first of which is reserved. The mapper takes a page for a
-- table at its first call.
use veil_os.Base.{
  ℕ, zero, suc, ◌+◌, ◌≤◌, ◌<◌, ◌≡◌, ◌≢◌, ◌⊎◌, inl, inr, refl, sym, ◌∙◌, some, [], ◌∷◌, length,
  length-set, ltb, arith, Bool-cases, ap, ltb→lt,
}
use veil_os.Memory.Pages.{Pages, page_free, page_occupied, first_free, get_physical_page}
use veil_os.Memory.Alloc.{
  Mapper, Memory, flag_at, malloc, free, memory_size, get_free_page, take_pages, find_free,
  check_memory, mark_pages, head_block, set_header,
}
use veil_os.Memory.Blocks.{IsBlock, address_of}
use veil_os.Memory.Malloc.{block_at, malloc-IsBlock}
use veil_os.Memory.Heap.{Heap, Heap-sound}
use veil_os.Memory.Limits.{malloc_past_end, first_free-flag}
use veil_os.Memory.Marking.{flag_at-set_ne}

take_table : (va pa : ℕ) → Pages → ℕ → Pages × ℕ
take_table va pa pages zero = ((get_physical_page pages).0, 1)
take_table va pa pages (suc n) = (pages, suc n)

get_physical_page-length : (pages : Pages) → length ((get_physical_page pages).0) ≡ length pages
unfolding get_physical_page
get_physical_page-length pages = elim (Bool-cases (ltb (first_free pages) (length pages))) [
  | inl found ↦ rw found (length-set pages (first_free pages) page_occupied)
  | inr full ↦ rw full refl
]

get_physical_page_keeps :
    (pages : Pages) (i : ℕ)
    → flag_at pages i ≢ page_free
    → flag_at ((get_physical_page pages).0) i ≡ flag_at pages i
unfolding get_physical_page
get_physical_page_keeps pages i used = elim (Bool-cases (ltb (first_free pages) (length pages))) [
  | inl found ↦
      let apart : first_free pages ≢ i =
        λ e. used (sym (ap (flag_at pages) e) ∙ first_free-flag pages (ltb→lt _ _ found)) in
      rw found (flag_at-set_ne pages (first_free pages) i page_occupied apart)
  | inr full ↦ rw full refl
]

take_table-length :
    (va pa : ℕ) (pages : Pages) (t : ℕ) → length ((take_table va pa pages t).0) ≡ length pages
unfolding take_table
take_table-length va pa pages zero = get_physical_page-length pages
take_table-length va pa pages (suc n) = refl

take_table_keeps :
    (va pa : ℕ) (pages : Pages) (t i : ℕ)
    → flag_at pages i ≢ page_free
    → flag_at ((take_table va pa pages t).0) i ≡ flag_at pages i
unfolding take_table
take_table_keeps va pa pages zero i used = get_physical_page_keeps pages i used
take_table_keeps va pa pages (suc n) i used = refl

abbrev mapper : Mapper ℕ
mapper = record {
  map_page = take_table;
  unmap_page = λ va t. t;
  map_length = take_table-length;
  map_keeps = take_table_keeps;
}

abbrev empty : Memory ℕ
empty = record {
  pages = 3 ∷ 0 ∷ 0 ∷ 0 ∷ 0 ∷ 0 ∷ 0 ∷ 0 ∷ [];
  headers = λ a. record { size = 0; start = 0; initial_size = 0 };
  tables = 0;
}

abbrev one : Memory ℕ
one = (malloc mapper empty 5000).0

first_address : (malloc mapper empty 5000).1 ≡ address_of 1
unfolding malloc head_block get_free_page take_pages find_free check_memory
first_address = refl

malloc-IsBlock_example :
    IsBlock one (block_at 1 5000)
    × ((m : ℕ) → 1 ≤ m → m ≤ 3 → flag_at empty.pages m ≡ page_free)
    × ((m : ℕ) → flag_at empty.pages m ≢ page_free → flag_at one.pages m ≡ flag_at empty.pages m)
malloc-IsBlock_example =
    malloc-IsBlock mapper empty 5000 1 (omega arith) first_address (omega arith)

second_address : (malloc mapper one 10).1 ≡ address_of 4
unfolding malloc head_block get_free_page take_pages find_free check_memory mark_pages set_header
    take_table get_physical_page first_free
second_address = refl

one_length : 4 + 1 < length one.pages
unfolding malloc head_block get_free_page take_pages find_free check_memory mark_pages set_header
    take_table get_physical_page first_free
one_length = omega arith

two_blocks : Heap mapper ((malloc mapper one 10).0) (block_at 4 10 ∷ block_at 1 5000 ∷ [])
two_blocks =
    Heap.allocate 10 4
      (Heap.allocate 5000 1 (Heap.start empty) (omega arith) first_address (omega arith))
      (omega arith) second_address one_length

Heap-sound_example :
    (◌≢◌ {A = ℕ} 4 1 → ((4 + 1 < 1) ⊎ (1 + 2 < 4)))
    × (memory_size ((malloc mapper one 10).0) (address_of 4) ≡ some 10)
    × (mem' : Memory ℕ) × (free mapper ((malloc mapper one 10).0) (address_of 4) ≡ some (mem', 10))
Heap-sound_example =
    Heap-sound mapper (block_at 4 10) (block_at 1 5000) two_blocks (inl refl) (inr (inl refl))

abbrev full : Memory ℕ
full = record empty { pages = 1 ∷ 2 ∷ [] }

full_used : (m : ℕ) → m < 2 → flag_at full.pages m ≢ page_free
full_used zero lt = omega arith
full_used (suc zero) lt = omega arith
full_used (suc (suc m)) lt = absurd (omega arith)

abbrev nearly_full : Memory ℕ
nearly_full = record empty { pages = 1 ∷ 2 ∷ 0 ∷ [] }

nearly_full_used : (m : ℕ) → m < 2 → flag_at nearly_full.pages m ≢ page_free
nearly_full_used zero lt = omega arith
nearly_full_used (suc zero) lt = omega arith
nearly_full_used (suc (suc m)) lt = absurd (omega arith)

malloc_past_end_example :
    ((malloc mapper nearly_full 10).1 ≡ address_of 2) × (length nearly_full.pages < 4)
malloc_past_end_example =
    malloc_past_end mapper nearly_full 10 (omega arith) 2 refl nearly_full_used refl
