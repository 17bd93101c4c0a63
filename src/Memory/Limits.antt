-- ===== src/Memory/Limits.antt =====
-- The allocator at the limits of the memory, and the page that a new table takes.
use veil_os.Base.{
  ℕ, zero, suc, ◌+◌, ◌-◌, ◌*◌, ◌≤◌, ◌<◌, ◌≡◌, ◌≢◌, inl, inr, refl, sym, ap, ◌∙◌, true, false,
  Option, none, some, [], ◌∷◌, length, ltb, ◌==◌, if◌then◌else◌, arith, Bool-cases, ==→eq, eq→==,
  ne→==, lt→ltb, le→ltb, ltb→lt, ltb→le,
}
use veil_os.Memory.Pages.{Pages, page_free, page_occupied, page_size, first_free, get_physical_page}
use veil_os.Memory.Alloc.{
  Mapper, Memory, flag_at, check_memory, find_free, take_pages, head_block, malloc,
}
use veil_os.Memory.Marking.{flag_at-set_self, flag_at-set_ne}
use veil_os.Memory.Blocks.{address_of}
use veil_os.Memory.Malloc.{Fits, pages_of, malloc-eq, search}

check_memory_used :
    (pages : Pages) (n i : ℕ)
    → i < length pages
    → flag_at pages i ≢ page_free
    → check_memory pages (suc n) i ≡ false
unfolding check_memory
check_memory_used pages n i lt used = rw (lt→ltb i (length pages) lt, ne→== _ _ used) refl

-- The search skips the pages that are in use.
find_free-skip :
    (pages : Pages) (k rounds i n : ℕ)
    → i + k ≤ length pages
    → ((m : ℕ) → i ≤ m → m < i + k → flag_at pages m ≢ page_free)
    → find_free pages (k + rounds) i (suc n) ≡ find_free pages rounds (i + k) (suc n)
unfolding find_free
find_free-skip pages zero rounds i n room used =
    let e : 0 + rounds ≡ rounds = omega arith in let e' : i + 0 ≡ i = omega arith in rw (e, e') refl
find_free-skip pages (suc k) rounds i n room used =
    let e : suc k + rounds ≡ suc (k + rounds) = omega arith in
    let shift : i + suc k ≡ i + 1 + k = omega arith in
    let here = check_memory_used pages n i (omega arith) (used i (omega arith) (omega arith)) in
    rw (e, shift, here)
      (find_free-skip pages k rounds (i + 1) n (omega arith)
        (λ m lo hi. used m (omega arith) (omega arith)))

no_rounds : (pages : Pages) (i n : ℕ) → find_free pages 0 i n ≡ none
unfolding find_free
no_rounds pages i n = refl

check_memory_past : (pages : Pages) (n i : ℕ) → length pages ≤ i → check_memory pages n i ≡ true
unfolding check_memory
check_memory_past pages zero i past = refl
check_memory_past pages (suc n) i past = rw (le→ltb i (length pages) past) refl

-- The last page, when it is free, passes the check for any number of pages.
one_round :
    (pages : Pages) (i n : ℕ)
    → i < length pages
    → length pages ≤ i + 1
    → flag_at pages i ≡ page_free
    → find_free pages 1 i (suc n) ≡ some i
unfolding find_free check_memory
one_round pages i n lt last e =
    rw (lt→ltb i (length pages) lt, eq→== _ _ e, check_memory_past pages n (i + 1) last) refl

module _ {T : Type 0} (mapper : Mapper T) (mem : Memory T) (size : ℕ)
    (fits : Fits mapper mem size) where
  answer : Option ℕ → ℕ
  answer o = (head_block size (take_pages mapper mem (pages_of size + 1) o)).1

  malloc-answer :
      (o : Option ℕ)
      → find_free mem.pages (length mem.pages) 0 (suc (pages_of size)) ≡ o
      → (malloc mapper mem size).1 ≡ answer o
  unfolding answer search
  malloc-answer o e =
      let one_more : pages_of size + 1 ≡ suc (pages_of size) = omega arith in
      ap (λ r. r.1) (malloc-eq mapper mem size fits)
      ∙ ap (λ n. answer (find_free mem.pages (length mem.pages) 0 n)) one_more
      ∙ ap answer e

  -- With no free page `malloc` gives the null pointer.
  pub malloc_full :
      ((m : ℕ) → m < length mem.pages → flag_at mem.pages m ≢ page_free)
      → (malloc mapper mem size).1 ≡ 0
  unfolding answer head_block take_pages
  malloc_full used =
      let whole : length mem.pages + 0 ≡ length mem.pages = omega arith in
      let skipped =
        find_free-skip mem.pages (length mem.pages) 0 0 (pages_of size) (omega arith)
          (λ m lo hi. used m (omega arith)) in
      malloc-answer none (
        ap (λ k. find_free mem.pages k 0 (suc (pages_of size))) (sym whole)
        ∙ skipped
        ∙ no_rounds mem.pages (0 + length mem.pages) (suc (pages_of size)))

  -- When the last page is the only free one, `malloc` gives it out for a block that needs a second
  -- page at least, and so runs past the end of the memory.
  pub malloc_past_end :
      (last : ℕ)
      → length mem.pages ≡ last + 1
      → ((m : ℕ) → m < last → flag_at mem.pages m ≢ page_free)
      → flag_at mem.pages last ≡ page_free
      → ((malloc mapper mem size).1 ≡ address_of last)
        × (length mem.pages < last + (pages_of size + 1))
  unfolding answer head_block take_pages
  malloc_past_end last size_eq used is_free =
      let skipped =
        find_free-skip mem.pages last 1 0 (pages_of size) (omega (arith, size_eq))
          (λ m lo hi. used m (omega arith)) in
      let at : 0 + last ≡ last = omega arith in
      let count : pages_of size ≡ suc (pages_of size - 1) = omega (arith, fits) in
      let found =
        ap (λ k. find_free mem.pages k 0 (suc (pages_of size))) size_eq
        ∙ skipped
        ∙ ap (λ i. find_free mem.pages 1 i (suc (pages_of size))) at
        ∙ one_round mem.pages last (pages_of size) (omega (arith, size_eq)) (omega (arith, size_eq))
            is_free in
      (malloc-answer (some last) found, omega (arith, size_eq, fits))

first_free-lt :
    (pages : Pages) (i : ℕ) → i < length pages → flag_at pages i ≡ page_free → first_free pages ≤ i
unfolding first_free
first_free-lt [] i lt e = absurd (omega arith)
first_free-lt (x ∷ xs) zero lt e = ground (arith, e)
first_free-lt (x ∷ xs) (suc i) lt e = ground (arith, first_free-lt xs i, e)

pub first_free-flag :
    (pages : Pages) → first_free pages < length pages → flag_at pages (first_free pages) ≡ page_free
unfolding first_free
first_free-flag [] lt = absurd (omega arith)
first_free-flag (x ∷ xs) lt = elim (Bool-cases (x == page_free)) [
  | inl hit ↦ rw hit (==→eq x page_free hit)
  | inr miss ↦ rw miss (
      first_free-flag xs
        (omega (arith, sym (ap (λ b. if b then 0 else suc (first_free xs)) miss), lt)))
]

-- `GetPhysicalPage` takes the first free page, if there is one, and no other page changes.
pub get_physical_page-first :
    (pages : Pages) (i : ℕ)
    → i < length pages
    → flag_at pages i ≡ page_free
    → ((m : ℕ) → m < i → flag_at pages m ≢ page_free)
    → ((get_physical_page pages).1 ≡ i * page_size)
      × (flag_at ((get_physical_page pages).0) i ≡ page_occupied)
      × ((m : ℕ) → i ≢ m → flag_at ((get_physical_page pages).0) m ≡ flag_at pages m)
unfolding get_physical_page
get_physical_page-first pages i lt is_free used =
    rw (at, lt→ltb i (length pages) lt)
      (
        refl,
        flag_at-set_self pages i page_occupied lt,
        λ m ne. flag_at-set_ne pages i m page_occupied ne,
      )
  where
    le : first_free pages ≤ i
    le = first_free-lt pages i lt is_free

    at : first_free pages ≡ i
    at = elim (Bool-cases (ltb (first_free pages) i)) [
      | inl below ↦ absurd (
          used (first_free pages) (ltb→lt _ _ below)
            (first_free-flag pages (omega (arith, ltb→lt (first_free pages) i below))))
      | inr above ↦ omega (arith, le, ltb→le (first_free pages) i above)
    ]
