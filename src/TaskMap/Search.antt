-- ===== src/TaskMap/Search.antt =====
-- `GetTaskValidVA`: the search for addresses without a page.
use veil_os.Base.{
  ℕ, zero, suc, ◌+◌, ◌-◌, ◌*◌, ◌≤◌, ◌<◌, ◌≡◌, ◌≢◌, inl, inr, refl, ap, ◌∙◌, true, false, some, ltb,
  ◌==◌, arith, Bool-cases, ==→eq, ==→ne, eq→==, ne→==, ltb→lt, le→ltb, ◌/◌, ◌%◌, ◌^◌,
}
use mathlib.Core.Path.{subst}
use veil_os.TaskMap.{TaskTree, get_page_pa, valid_from, get_task_valid_va, page_bytes, user_limit}

module _ {T : Type 0} where
  module _ (s : TaskTree T) (root : ℕ) where
    -- The `n` pages from an address on are below the end of a task's addresses, and not mapped.
    abbrev pub Unmapped : (v n : ℕ) → Type 0
    Unmapped v n =
        (v + n * page_bytes < user_limit + page_bytes)
        × ((j : ℕ) → j < n → get_page_pa s root (v + page_bytes * j) ≡ 0)

    -- The `k` pages before an address are not mapped.
    abbrev Free : (va k : ℕ) → Type 0
    Free va k = (j : ℕ) → j < k → get_page_pa s root (va - page_bytes * (j + 1)) ≡ 0

    next-Free : (va k : ℕ) → Free va k → get_page_pa s root va ≡ 0 → Free (va + page_bytes) (k + 1)
    next-Free va k free here zero lt =
        let e : va + page_bytes - page_bytes * 1 ≡ va = omega arith in
        ap (get_page_pa s root) e ∙ here
    next-Free va k free here (suc j) lt =
        let e : va + page_bytes - page_bytes * (suc j + 1) ≡ va - page_bytes * (j + 1) =
          omega arith in
        ap (get_page_pa s root) e ∙ free j (omega arith)

    Free-Unmapped :
        (va k : ℕ)
        → Free (va + page_bytes) (k + 1)
        → k * page_bytes < va
        → va < user_limit
        → Unmapped (va - k * page_bytes) (k + 1)
    Free-Unmapped va k free lt below = (
      omega arith,
      λ j j_lt.
          let e : va - k * page_bytes + page_bytes * j
              ≡ va + page_bytes - page_bytes * (k - j + 1) =
            omega arith in
          ap (get_page_pa s root) e ∙ free (k - j) (omega arith),
    )

    valid_from-mapped :
        (fuel va current_size size : ℕ)
        → ltb va user_limit ≡ true
        → get_page_pa s root va == 0 ≡ false
        → valid_from (suc fuel) s root va current_size size
          ≡ valid_from fuel s root (va + page_bytes) 0 size
    unfolding valid_from
    valid_from-mapped fuel va current_size size below mapped = rw (below, mapped) refl

    valid_from-whole :
        (fuel va k n : ℕ)
        → ltb va user_limit ≡ true
        → get_page_pa s root va == 0 ≡ true
        → k + 1 ≡ n
        → valid_from (suc fuel) s root va (k * page_bytes) (n * page_bytes)
          ≡ some (va - k * page_bytes)
    unfolding valid_from
    valid_from-whole fuel va k n below is_free whole =
        let hit : k * page_bytes + page_bytes == n * page_bytes ≡ true =
          eq→== _ _ (omega (arith, whole)) in
        rw (below, is_free, hit) (ap some (omega arith))

    valid_from-short :
        (fuel va k n : ℕ)
        → ltb va user_limit ≡ true
        → get_page_pa s root va == 0 ≡ true
        → k + 1 ≢ n
        → valid_from (suc fuel) s root va (k * page_bytes) (n * page_bytes)
          ≡ valid_from fuel s root (va + page_bytes) ((k + 1) * page_bytes) (n * page_bytes)
    unfolding valid_from
    valid_from-short fuel va k n below is_free ne =
        let miss : k * page_bytes + page_bytes == n * page_bytes ≡ false =
          ne→== _ _ (λ e. ne (omega (arith, e))) in
        let longer : k * page_bytes + page_bytes ≡ (k + 1) * page_bytes = omega arith in
        rw (below, is_free, miss, longer) refl

    valid_from_ends :
        (fuel va k n : ℕ)
        → user_limit ≤ va + fuel * page_bytes
        → k * page_bytes < va
        → k < n
        → Free va k
        → (v : ℕ) × (valid_from (suc fuel) s root va (k * page_bytes) (n * page_bytes) ≡ some v)
          × (v ≢ 0 → Unmapped v n)
    unfolding valid_from
    valid_from_ends zero va k n enough lt room free =
        (0, rw (le→ltb va user_limit (omega (arith, enough))) refl, λ ne. absurd (ne refl))
    valid_from_ends (suc fuel) va k n enough lt room free = elim (Bool-cases (ltb va user_limit)) [
      | inr past ↦ (0, rw past refl, λ ne. absurd (ne refl))
      | inl below ↦ elim (Bool-cases (get_page_pa s root va == 0)) [
        | inr mapped ↦
            let (v, e, rest) =
              valid_from_ends fuel (va + page_bytes) 0 n (omega (arith, enough)) (omega arith)
                (omega (arith, room)) (λ j j_lt. absurd (omega (arith, j_lt))) in
            (
              v,
              valid_from-mapped (suc fuel) va (k * page_bytes) (n * page_bytes) below mapped ∙ e,
              rest,
            )
        | inl is_free ↦
            let more = next-Free va k free (==→eq _ 0 is_free) in
            let longer : k * page_bytes + page_bytes ≡ (k + 1) * page_bytes = omega arith in
            elim (Bool-cases (k + 1 == n)) [
              | inl whole ↦ (
                va - k * page_bytes,
                valid_from-whole (suc fuel) va k n below is_free (==→eq _ n whole),
                λ ne.
                    subst (Unmapped (va - k * page_bytes)) (==→eq _ n whole)
                      (Free-Unmapped va k more lt (ltb→lt va user_limit below)),
              )
              | inr short ↦
                  let ne = ==→ne (k + 1) n short in
                  let (v, e, rest) =
                    valid_from_ends fuel (va + page_bytes) (k + 1) n (omega (arith, enough))
                      (omega (arith, lt)) (omega (arith, room, ne)) more in
                  (v, valid_from-short (suc fuel) va k n below is_free ne ∙ e, rest)
            ]
      ]
    ]

  -- With fuel for the addresses of a task, and a size from 1 byte to 4 GB less a page, `GetTaskValidVA`
  -- comes to an end; an answer that is not 0 is where pages for the size begin, none of them mapped and
  -- all of them below the end of a task's addresses.
  pub get_task_valid_va-Unmapped :
      (s : TaskTree T) (root fuel size : ℕ)
      → user_limit < fuel * page_bytes
      → 0 < size
      → size + page_bytes ≤ 2 ^ 32
      → (v : ℕ) × (get_task_valid_va fuel s root size ≡ some v)
        × (v ≢ 0 → Unmapped s root v ((size + (page_bytes - 1)) / page_bytes))
  unfolding get_task_valid_va
  get_task_valid_va-Unmapped s root zero size enough some_size small =
      absurd (omega (arith, enough))
  get_task_valid_va-Unmapped s root (suc fuel) size enough some_size small =
      let n = (size + (page_bytes - 1)) / page_bytes in
      let e : (size + (page_bytes - 1)) % 2 ^ 32 / page_bytes ≡ n = omega (arith, small) in
      rw e (
        valid_from_ends s root fuel page_bytes 0 n (omega (arith, enough)) (omega arith)
          (omega (arith, some_size)) (λ j lt. absurd (omega (arith, lt))))
