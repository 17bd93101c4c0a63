-- ===== src/Memory/Marking.antt =====
-- The loops of the allocator: which pages they test, and which flags they leave.
use mathlib.Core.Option.{some_inj}
use veil_os.Base.{
  ◌&&◌, leb, ℕ, zero, suc, ◌+◌, ◌*◌, ◌≤◌, ◌<◌, ◌≡◌, ◌≢◌, ◌⊎◌, inl, inr, refl, sym, ap, ◌∙◌, true,
  some, [], ◌∷◌, length, set, length-set, ltb, ◌==◌, if◌then◌else◌, arith, Bool-cases, ==→eq, ==→ne,
  eq→==, ne→==,
}
use veil_os.Memory.Pages.{Pages, page_free, page_occupied, page_header, page_size, high_va}
use veil_os.Memory.Alloc.{
  Mapper, flag_at, check_memory, find_free, mark_pages, find_header, release_pages,
}

pub flag_at-set_self : (pages : Pages) (i v : ℕ) → i < length pages → flag_at (set pages i v) i ≡ v
flag_at-set_self [] i v lt = absurd (omega arith)
flag_at-set_self (x ∷ xs) zero v lt = refl
flag_at-set_self (x ∷ xs) (suc i) v lt = flag_at-set_self xs i v (omega arith)

pub flag_at-set_ne :
    (pages : Pages) (i j v : ℕ) → i ≢ j → flag_at (set pages i v) j ≡ flag_at pages j
flag_at-set_ne [] i j v ne = refl
flag_at-set_ne (x ∷ xs) zero zero v ne = absurd (ne refl)
flag_at-set_ne (x ∷ xs) zero (suc j) v ne = refl
flag_at-set_ne (x ∷ xs) (suc i) zero v ne = refl
flag_at-set_ne (x ∷ xs) (suc i) (suc j) v ne = flag_at-set_ne xs i j v (λ e. ne (ap suc e))

-- Every page that `check_memory` was content with is free, as far as there are pages.
pub check_memory-free :
    (pages : Pages) (n i m : ℕ)
    → check_memory pages n i ≡ true
    → i ≤ m
    → m < i + n
    → m < length pages
    → flag_at pages m ≡ page_free
unfolding check_memory
check_memory-free pages zero i m h lo hi lt = absurd (omega arith)
check_memory-free pages (suc n) i m h lo hi lt = elim (Bool-cases (i == m)) [
  | inl hit ↦ ground (arith, ==→eq i m hit, ap (flag_at pages) (==→eq i m hit))
  | inr miss ↦ ground (arith, ==→ne i m miss, check_memory-free pages n (i + 1) m)
]

-- What `find_free` finds passed the check.
pub find_free-check :
    (pages : Pages) (n i count : ℕ) {k : ℕ}
    → find_free pages n i count ≡ some k
    → (check_memory pages count k ≡ true) × (k < i + n)
unfolding find_free
find_free-check pages zero i count h = ground arith
find_free-check pages (suc n) i count {k} h = elim (Bool-cases (check_memory pages count i)) [
  | inl hit ↦
      let found = sym (ap (λ b. if b then some i else find_free pages n (i + 1) count) hit) ∙ h in
      let e : i ≡ k = some_inj.0 found in
      (ap (check_memory pages count) (sym e) ∙ hit, omega (arith, e))
  | inr miss ↦
      let later = sym (ap (λ b. if b then some i else find_free pages n (i + 1) count) miss) ∙ h in
      let found = find_free-check pages n (i + 1) count later in (found.0, omega (arith, found.1))
]

flag_ne : (n : ℕ) → (if n == 0 then page_header else page_occupied) ≢ page_free
flag_ne zero e = absurd (omega (arith, e))
flag_ne (suc n) e = absurd (ground (arith, e))

last :
    (n i m : ℕ)
    → i ≡ m
    → (if n == 0 then page_header else page_occupied)
      ≡ (if m + 1 == i + suc n then page_header else page_occupied)
last n i m e = ground arith

module _ {T : Type 0} (mapper : Mapper T) where
  pub mark_pages-length :
      (n i : ℕ) (pages : Pages) (t : T) → length ((mark_pages mapper n i pages t).0) ≡ length pages
  unfolding mark_pages
  mark_pages-length zero i pages t = refl
  mark_pages-length (suc n) i pages t =
      mark_pages-length n (i + 1) _ _
      ∙ length-set _ i _
      ∙ mapper.map_length (high_va + i * page_size) (i * page_size) pages t

  outside_apart :
      (i m n : ℕ) → (m < i) ⊎ (i + suc n ≤ m) → (i ≢ m) × ((m < i + 1) ⊎ (i + 1 + n ≤ m))
  outside_apart i m n (inl lt) = (omega arith, inl (omega arith))
  outside_apart i m n (inr le) = (omega arith, inr (omega arith))

  -- A page outside that is not free keeps its flag.
  pub mark_pages_outside :
      (n i m : ℕ) (pages : Pages) (t : T)
      → (m < i) ⊎ (i + n ≤ m)
      → flag_at pages m ≢ page_free
      → flag_at ((mark_pages mapper n i pages t).0) m ≡ flag_at pages m
  unfolding mark_pages
  mark_pages_outside zero i m pages t out used = refl
  mark_pages_outside (suc n) i m pages t out used =
      let mapped = (mapper.map_page (high_va + i * page_size) (i * page_size) pages t).0 in
      let flag = if n == 0 then page_header else page_occupied in
      let apart = outside_apart i m n out in
      let kept =
        flag_at-set_ne mapped i m flag (apart.0)
        ∙ mapper.map_keeps (high_va + i * page_size) (i * page_size) pages t m used in
      mark_pages_outside n (i + 1) m (set mapped i flag) _ (apart.1) (λ e. used (sym kept ∙ e))
      ∙ kept

  -- The pages of the block are occupied, and the last one has the header.
  pub mark_pages_inside :
      (n i m : ℕ) (pages : Pages) (t : T)
      → i ≤ m
      → m < i + n
      → i + n ≤ length pages
      → flag_at ((mark_pages mapper n i pages t).0) m
        ≡ (if m + 1 == i + n then page_header else page_occupied)
  unfolding mark_pages
  mark_pages_inside zero i m pages t lo hi room = absurd (omega arith)
  mark_pages_inside (suc n) i m pages t lo hi room = elim (Bool-cases (i == m)) [
    | inl hit ↦
        let same = ==→eq i m hit in
        let size = mapper.map_length (high_va + i * page_size) (i * page_size) pages t in
        let marked = flag_at-set_self mapped m flag (omega (arith, size)) in
        let at : flag_at (set mapped i flag) m ≡ flag =
          ap (λ k. flag_at (set mapped k flag) m) same ∙ marked in
        mark_pages_outside n (i + 1) m (set mapped i flag) _ (inl (omega (arith, same)))
          (λ e. flag_ne n (sym at ∙ e))
        ∙ at
        ∙ last n i m same
    | inr miss ↦
        let ne = ==→ne i m miss in
        let size = mapper.map_length (high_va + i * page_size) (i * page_size) pages t in
        let size' = length-set mapped i flag in
        let shift : i + suc n ≡ i + 1 + n = omega arith in
        mark_pages_inside n (i + 1) m (set mapped i flag) _ (omega (arith, ne)) (omega arith)
          (omega (arith, size, size'))
        ∙ ap (λ e. if m + 1 == e then page_header else page_occupied) (sym shift)
  ]
    where
      mapped : Pages
      mapped = (mapper.map_page (high_va + i * page_size) (i * page_size) pages t).0

      flag : ℕ
      flag = if n == 0 then page_header else page_occupied

-- The first page with a header is the one behind the occupied ones.
pub find_header-end :
    (pages : Pages) (n rounds i : ℕ)
    → ((m : ℕ) → i ≤ m → m < i + n → flag_at pages m ≢ page_header)
    → flag_at pages (i + n) ≡ page_header
    → n < rounds
    → find_header pages rounds i ≡ some (i + n)
unfolding find_header
find_header-end pages n zero i before at lt = absurd (omega arith)
find_header-end pages zero (suc rounds) i before at lt =
    let e : i + 0 ≡ i = omega arith in rw (e, eq→== _ _ (ap (flag_at pages) (sym e) ∙ at)) refl
find_header-end pages (suc n) (suc rounds) i before at lt =
    let shift : i + suc n ≡ i + 1 + n = omega arith in
    rw (ne→== _ _ (before i (omega arith) (omega arith)), shift)
      (find_header-end pages n rounds (i + 1) (λ m lo hi. before m (omega arith) (omega arith))
        (ap (flag_at pages) (sym shift) ∙ at) (omega arith))

module _ {T : Type 0} (mapper : Mapper T) where
  -- `free` makes the pages of its range free and leaves the others.
  pub release_pages-flag :
      (n va i m : ℕ) (pages : Pages) (t : T)
      → m < length pages
      → flag_at ((release_pages mapper n va i pages t).0) m
        ≡ (if leb i m && ltb m (i + n) then page_free else flag_at pages m)
  unfolding release_pages
  release_pages-flag zero va i m pages t lt = ground arith
  release_pages-flag (suc n) va i m pages t lt =
      let size = length-set pages i page_free in
      let rest =
        release_pages-flag n (va + page_size) (i + 1) m (set pages i page_free)
          (mapper.unmap_page va t) (omega (arith, size)) in
      elim (Bool-cases (i == m)) [
        | inl hit ↦
            let same = ==→eq i m hit in
            let at : flag_at (set pages i page_free) m ≡ page_free =
              ap (λ k. flag_at (set pages k page_free) m) same
              ∙ flag_at-set_self pages m page_free lt in
            ground (arith, rest, at, same)
        | inr miss ↦
            ground
              (arith, rest, flag_at-set_ne pages i m page_free (==→ne i m miss), ==→ne i m miss)
      ]

  pub release_pages-length :
      (n va i : ℕ) (pages : Pages) (t : T)
      → length ((release_pages mapper n va i pages t).0) ≡ length pages
  unfolding release_pages
  release_pages-length zero va i pages t = refl
  release_pages-length (suc n) va i pages t =
      release_pages-length n (va + page_size) (i + 1) _ _ ∙ length-set pages i page_free
