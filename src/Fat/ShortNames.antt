-- ===== src/Fat/ShortNames.antt =====
-- The short names of kernel/fs/fat32.c: `generate_short` and `set_basic_filename`.
use veil_os.Base.{
  inl, inr, ==→eq, ==→ne, lt→ltb, le→ltb, ℕ, zero, suc, ◌+◌, ◌≤◌, ◌<◌, ◌≡◌, ◌≢◌, refl, sym, ap, ◌∙◌,
  true, false, List, [], ◌∷◌, ◌++◌, length, get_or, take, replicate, ltb, ◌==◌, if◌then◌else◌,
  arith, ne→==, eq→==, length-replicate, Bool-cases,
}
use veil_os.Strings.{toupper}
use veil_os.Fat.Types.{Fat32DirEntry}
use veil_os.Fat.Names.{
  space, dot_char, last_nonspace, set_basic_filename, find_dot, base_chars, ext_chars,
  generate_short,
}

get_or-append_left :
    (xs ys : List ℕ) (i d : ℕ) → i < length xs → get_or (xs ++ ys) i d ≡ get_or xs i d
get_or-append_left [] ys i d lt = absurd (omega arith)
get_or-append_left (x ∷ xs) ys zero d lt = refl
get_or-append_left (x ∷ xs) ys (suc i) d lt = get_or-append_left xs ys i d (omega arith)

get_or-append_right :
    (xs ys : List ℕ) (i d : ℕ) → get_or (xs ++ ys) (length xs + i) d ≡ get_or ys i d
get_or-append_right [] ys i d = ap (λ k. get_or ys k d) (omega arith)
get_or-append_right (x ∷ xs) ys i d =
    let e : suc (length xs) + i ≡ suc (length xs + i) = omega arith in
    rw e (get_or-append_right xs ys i d)

get_or-replicate : (n v i : ℕ) → get_or (replicate n v) i v ≡ v
get_or-replicate zero v i = refl
get_or-replicate (suc n) v zero = refl
get_or-replicate (suc n) v (suc i) = get_or-replicate n v i

length-base_chars : (n : ℕ) (name : ℕ → ℕ) (i : ℕ) → length (base_chars n name i) ≡ n
unfolding base_chars
length-base_chars zero name i = refl
length-base_chars (suc n) name i = elim (Bool-cases (name i == dot_char)) [
  | inl hit ↦ rw hit (length-replicate (suc n) space)
  | inr miss ↦ rw miss (ap suc (length-base_chars n name (i + 1)))
]

module _ (name : ℕ → ℕ) (dot : ℕ) where
  at_dot : (i : ℕ) → name dot ≡ dot_char → (i == dot) ≡ true → name i ≡ dot_char
  at_dot i at hit = ap name (==→eq i dot hit) ∙ at

  find_dot-first :
      (n i : ℕ)
      → name dot ≡ dot_char
      → ((k : ℕ) → k < dot → name k ≢ dot_char)
      → i ≤ dot
      → dot < i + n
      → find_dot n name i ≡ dot
  unfolding find_dot
  find_dot-first zero i at before le lt = absurd (omega arith)
  find_dot-first (suc n) i at before le lt = elim (Bool-cases (i == dot)) [
    | inl hit ↦ rw (eq→== _ _ (at_dot i at hit)) (==→eq i dot hit)
    | inr miss ↦
        let lt' : i < dot = omega (arith, ==→ne i dot miss) in
        rw (ne→== _ _ (before i lt'))
          (find_dot-first n (i + 1) at before (omega arith) (omega arith))
  ]

  base_chars-at :
      (n i j : ℕ)
      → name dot ≡ dot_char
      → ((k : ℕ) → k < dot → name k ≢ dot_char)
      → i ≤ dot
      → j < n
      → get_or (base_chars n name i) j space
        ≡ (if ltb (i + j) dot then toupper (name (i + j)) else space)
  unfolding base_chars
  base_chars-at zero i j at before le lt = absurd (omega arith)
  base_chars-at (suc n) i j at before le lt = elim (Bool-cases (i == dot)) [
    | inl hit ↦
        let past : ltb (i + j) dot ≡ false = le→ltb (i + j) dot (omega (arith, ==→eq i dot hit)) in
        rw (eq→== _ _ (at_dot i at hit), past) (get_or-replicate (suc n) space j)
    | inr miss ↦
        let lt' : i < dot = omega (arith, ==→ne i dot miss) in
        rw (ne→== _ _ (before i lt'))
          (kept j lt lt' (λ k below. base_chars-at n (i + 1) k at before (omega arith) below))
  ]
    where
      kept :
          (j : ℕ)
          → j < suc n
          → i < dot
          → ((k : ℕ)
              → k < n
              → get_or (base_chars n name (i + 1)) k space
                ≡ (if ltb (i + 1 + k) dot then toupper (name (i + 1 + k)) else space))
          → get_or (toupper (name i) ∷ base_chars n name (i + 1)) j space
            ≡ (if ltb (i + j) dot then toupper (name (i + j)) else space)
      kept zero lt lt' rest = let e : i + 0 ≡ i = omega arith in rw (e, lt→ltb i dot lt') refl
      kept (suc j) lt lt' rest =
          let e : i + suc j ≡ i + 1 + j = omega arith in rw e (rest j (omega arith))

module _ (name : ℕ → ℕ) where
  ext_chars-at :
      (n i len j : ℕ)
      → ((k : ℕ) → k < len → name (i + k) ≢ 0)
      → name (i + len) ≡ 0
      → j < n
      → get_or (ext_chars n name i) j space ≡ (if ltb j len then toupper (name (i + j)) else space)
  unfolding ext_chars
  ext_chars-at zero i len j chars end lt = absurd (omega arith)
  ext_chars-at (suc n) i zero j chars end lt =
      let e : i + 0 ≡ i = omega arith in
      let stop : name i ≡ 0 = ap name (sym e) ∙ end in
      let none_left : ltb j 0 ≡ false = le→ltb j 0 (omega arith) in
      rw (eq→== _ _ stop, none_left) (get_or-replicate (suc n) space j)
  ext_chars-at (suc n) i (suc len) zero chars end lt =
      let e : i + 0 ≡ i = omega arith in
      rw
        (
          ne→== _ _ (λ z. chars 0 (omega arith) (ap name e ∙ z)),
          e,
          lt→ltb 0 (suc len) (omega arith),
        )
        refl
  ext_chars-at (suc n) i (suc len) (suc j) chars end lt =
      let e : i + 0 ≡ i = omega arith in
      let shift : i + suc j ≡ i + 1 + j = omega arith in
      let same : ltb (suc j) (suc len) ≡ ltb j len = ground arith in
      let chars' : (k : ℕ) → k < len → name (i + 1 + k) ≢ 0 =
        λ k lt z. chars (suc k) (omega arith) (ap name (omega arith) ∙ z) in
      let end' : name (i + 1 + len) ≡ 0 = ap name (omega arith) ∙ end in
      rw (ne→== _ _ (λ z. chars 0 (omega arith) (ap name e ∙ z)), shift, same)
        (ext_chars-at n (i + 1) len j chars' end' (omega arith))

  -- For a name with a dot, `generate_short` gives the bytes in front of the first dot and the bytes
  -- behind it, in capitals: at most eight and three of them, each part filled up with spaces.
  pub generate_short-dot :
      (dot len i j : ℕ)
      → ((k : ℕ) → k < dot → name k ≢ dot_char)
      → name dot ≡ dot_char
      → ((k : ℕ) → k < len → name (dot + 1 + k) ≢ 0)
      → name (dot + 1 + len) ≡ 0
      → i < 8
      → j < 3
      → (get_or (generate_short name (dot + 1 + len)) i space
          ≡ (if ltb i dot then toupper (name i) else space))
        × (get_or (generate_short name (dot + 1 + len)) (8 + j) space
            ≡ (if ltb j len then toupper (name (dot + 1 + j)) else space))
  unfolding generate_short
  generate_short-dot dot len i j before at chars end lt_i lt_j =
      let found = find_dot-first name dot (dot + 1 + len) 0 at before (omega arith) (omega arith) in
      let base = base_chars 8 name 0 in
      let size = length-base_chars 8 name 0 in
      let e : 0 + i ≡ i = omega arith in
      (
        get_or-append_left base _ i space (omega (arith, size))
            ∙ base_chars-at name dot 8 0 i at before (omega arith) lt_i
            ∙ ap (λ k. if ltb k dot then toupper (name k) else space) e,
        ap
              (λ n.
                get_or (base ++ ext_chars 3 name (find_dot (dot + 1 + len) name 0 + 1)) (n + j)
                  space)
              (sym size)
            ∙ get_or-append_right base _ j space
            ∙ ap (λ d. get_or (ext_chars 3 name (d + 1)) j space) found
            ∙ ext_chars-at 3 (dot + 1) len j chars end lt_j,
      )

find_dot-none :
    (name : ℕ → ℕ) (n i : ℕ) → ((k : ℕ) → k < i + n → name k ≢ dot_char) → find_dot n name i ≡ 0
unfolding find_dot
find_dot-none name zero i chars = refl
find_dot-none name (suc n) i chars =
    rw (ne→== _ _ (chars i (omega arith)))
      (find_dot-none name n (i + 1) (λ k lt. chars k (omega arith)))

-- For a name without a dot, the extension that `generate_short` gives is not empty: it is the second
-- to fourth bytes of the name in capitals, as far as the name has them.
pub generate_short_no_dot :
    (name : ℕ → ℕ) (m j : ℕ)
    → ((k : ℕ) → k < suc m → name k ≢ dot_char)
    → ((k : ℕ) → k < m → name (1 + k) ≢ 0)
    → name (1 + m) ≡ 0
    → j < 3
    → get_or (generate_short name (suc m)) (8 + j) space
      ≡ (if ltb j m then toupper (name (1 + j)) else space)
unfolding generate_short
generate_short_no_dot name m j plain chars end lt =
    let base = base_chars 8 name 0 in
    let missing = find_dot-none name (suc m) 0 (λ k lt. plain k (omega arith)) in
    ap (λ n. get_or (base ++ ext_chars 3 name (find_dot (suc m) name 0 + 1)) (n + j) space)
      (sym (length-base_chars 8 name 0))
    ∙ get_or-append_right base _ j space
    ∙ ap (λ d. get_or (ext_chars 3 name (d + 1)) j space) missing
    ∙ ext_chars-at name 3 1 m j chars end lt

-- The last byte that is not a space, of the bytes below a bound, or 0.
last_nonspace_end :
    (n size : ℕ) (s : List ℕ)
    → n < size
    → ((k : ℕ) → n < k → k < size → get_or s k space ≡ space)
    → get_or s n space ≢ space
    → last_nonspace size s ≡ n
unfolding last_nonspace
last_nonspace_end n zero s lt after at = absurd (omega arith)
last_nonspace_end n (suc i) s lt after at = elim (Bool-cases (i == n)) [
  | inl hit ↦
      let i_n = ==→eq i n hit in
      rw (ne→== _ _ (λ e. at (ap (λ k. get_or s k space) (sym i_n) ∙ e))) i_n
  | inr miss ↦
      let above : n < i = omega (arith, ==→ne i n miss) in
      rw (eq→== _ _ (after i above (omega arith)))
        (last_nonspace_end n i s above (λ k lo hi. after k lo (omega arith)) at)
]

last_nonspace_blank :
    (size : ℕ) (s : List ℕ)
    → ((k : ℕ) → k < size → get_or s k space ≡ space)
    → last_nonspace size s ≡ 0
unfolding last_nonspace
last_nonspace_blank zero s blank = refl
last_nonspace_blank (suc i) s blank =
    rw (eq→== _ _ (blank i (omega arith))) (last_nonspace_blank i s (λ k lt. blank k (omega arith)))

blank_ext : last_nonspace 3 (space ∷ space ∷ space ∷ []) ≡ 0
unfolding last_nonspace
blank_ext = refl

-- `set_basic_filename` of an entry without an extension ends the name with a dot and a space, which
-- are not part of it.
pub set_basic_filename_no_ext :
    (entry : Fat32DirEntry) (n : ℕ)
    → n < 8
    → ((k : ℕ) → n < k → k < 8 → get_or entry.name k space ≡ space)
    → get_or entry.name n space ≢ space
    → entry.ext ≡ space ∷ space ∷ space ∷ []
    → set_basic_filename entry ≡ take (n + 1) entry.name ++ dot_char ∷ space ∷ []
unfolding set_basic_filename
set_basic_filename_no_ext entry n lt after at blank =
    let base = last_nonspace_end n 8 entry.name lt after at in
    let ext : last_nonspace 3 entry.ext ≡ 0 = ap (last_nonspace 3) blank ∙ blank_ext in
    rw (base, ext, blank) refl
