-- ===== src/Strings/Reads.antt =====
-- The functions of kernel/lib/string.c that stop at a terminator, against the list of bytes in front
-- of it.
use mathlib.Core.Option.{some_inj}
use veil_os.Base.{
  ℕ, zero, suc, ◌+◌, ◌≤◌, ◌<◌, ◌≡◌, ◌≢◌, ◌⊎◌, inl, inr, refl, sym, ap, ◌∙◌, ℤ, pos, minus_one,
  false, not, ◌&&◌, some, List, [], ◌∷◌, length, ◌==◌, if◌then◌else◌, arith, Bool-cases, ==→ne,
  ==→eq, ne→==, eq→==,
}
use veil_os.Strings.{
  Memory, set_byte, strlen_from, strlen, order, strcmp, strcpy_from, strcpy, memcpy_from, memcpy,
}

-- The string at an address: bytes other than 0, then a 0.
abbrev pub IsString : Memory → ℕ → List ℕ → Type 0
IsString mem s [] = mem s ≡ 0
IsString mem s (c ∷ cs) = (mem s ≡ c) × (c ≢ 0) × IsString mem (s + 1) cs

-- The order of two strings as `strcmp` tells it.
unfoldable pub compare_strings : List ℕ → List ℕ → ℤ
compare_strings [] [] = pos 0
compare_strings [] (d ∷ ds) = minus_one
compare_strings (c ∷ cs) [] = pos 1
compare_strings (c ∷ cs) (d ∷ ds) = if c == d then compare_strings cs ds else order c d

strlen_from-IsString :
    (fuel : ℕ) (mem : Memory) (s done : ℕ) (bytes : List ℕ)
    → IsString mem (s + done) bytes
    → length bytes < fuel
    → strlen_from fuel mem s done ≡ some (done + length bytes)
unfolding strlen_from
strlen_from-IsString zero mem s done bytes h lt = absurd (omega arith)
strlen_from-IsString (suc fuel) mem s done [] h lt =
    let e : done + 0 ≡ done = omega arith in rw (eq→== _ _ h, e) refl
strlen_from-IsString (suc fuel) mem s done (c ∷ cs) h lt =
    let e : done + suc (length cs) ≡ done + 1 + length cs = omega arith in
    let here : s + done + 1 ≡ s + (done + 1) = omega arith in
    let next : IsString mem (s + (done + 1)) cs = rw⁻¹ here (h.2) in
    let more : (mem (s + done) == 0) ≡ false = ne→== _ _ (λ z. h.1 (sym (h.0) ∙ z)) in
    rw (more, e) (strlen_from-IsString fuel mem s (done + 1) cs next (omega arith))

-- `strlen` of a string is the number of its bytes, with fuel for one more.
pub strlen-IsString :
    (fuel : ℕ) (mem : Memory) (s : ℕ) (bytes : List ℕ)
    → IsString mem s bytes
    → length bytes < fuel
    → strlen fuel mem s ≡ some (length bytes)
unfolding strlen
strlen-IsString fuel mem s bytes h lt =
    let e : s + 0 ≡ s = omega arith in
    let at : IsString mem (s + 0) bytes = rw e h in
    strlen_from-IsString fuel mem s 0 bytes at lt ∙ ap some (omega arith)

order_zero : (c : ℕ) → c ≢ 0 → (order c 0 ≡ pos 1) × (order 0 c ≡ minus_one) × (order 0 0 ≡ pos 0)
unfolding order
order_zero c ne = (ground arith, ground arith, refl)

strcmp_step :
    (fuel : ℕ) (mem : Memory) (s1 s2 c d : ℕ)
    → mem s1 ≡ c
    → mem s2 ≡ d
    → strcmp (suc fuel) mem s1 s2
      ≡ (if not (c == 0) && (c == d) then strcmp fuel mem (s1 + 1) (s2 + 1) else some (order c d))
unfolding strcmp
strcmp_step fuel mem s1 s2 c d e1 e2 = rw (e1, e2) refl

-- `strcmp` of two strings compares them byte by byte, with fuel for one more than the first one has.
pub strcmp-IsString :
    (fuel : ℕ) (mem : Memory) (s1 s2 : ℕ) (a b : List ℕ)
    → IsString mem s1 a
    → IsString mem s2 b
    → length a < fuel
    → strcmp fuel mem s1 s2 ≡ some (compare_strings a b)
unfolding compare_strings order
strcmp-IsString zero mem s1 s2 a b h1 h2 lt = absurd (omega arith)
strcmp-IsString (suc fuel) mem s1 s2 [] [] h1 h2 lt = strcmp_step fuel mem s1 s2 0 0 h1 h2 ∙ refl
strcmp-IsString (suc fuel) mem s1 s2 [] (d ∷ ds) h1 h2 lt =
    strcmp_step fuel mem s1 s2 0 d h1 (h2.0) ∙ ap some ((order_zero d (h2.1)).1)
strcmp-IsString (suc fuel) mem s1 s2 (c ∷ cs) [] h1 h2 lt =
    strcmp_step fuel mem s1 s2 c 0 (h1.0) h2 ∙ ground (arith, h1.1)
strcmp-IsString (suc fuel) mem s1 s2 (c ∷ cs) (d ∷ ds) h1 h2 lt =
    let next = strcmp-IsString fuel mem (s1 + 1) (s2 + 1) cs ds (h1.2) (h2.2) (omega arith) in
    strcmp_step fuel mem s1 s2 c d (h1.0) (h2.0) ∙ ground (arith, h1.1, next)

order_ne : (c d : ℕ) → c ≢ d → order c d ≢ pos 0
unfolding order
order_ne c d ne e = ground arith

compare_strings-eq : (a b : List ℕ) → compare_strings a b ≡ pos 0 → a ≡ b
unfolding compare_strings
compare_strings-eq [] [] e = refl
compare_strings-eq [] (d ∷ ds) e = ground arith
compare_strings-eq (c ∷ cs) [] e = ground arith
compare_strings-eq (c ∷ cs) (d ∷ ds) e = elim (Bool-cases (c == d)) [
  | inl same ↦
      let rest = sym (ap (λ b. if b then compare_strings cs ds else order c d) same) ∙ e in
      ap (λ x. x ∷ cs) (==→eq c d same) ∙ ap (λ xs. d ∷ xs) (compare_strings-eq cs ds rest)
  | inr differ ↦ absurd (
      order_ne c d (==→ne c d differ)
        (sym (ap (λ b. if b then compare_strings cs ds else order c d) differ) ∙ e))
]

past : (s a n : ℕ) → (a < s) ⊎ (s + suc n < a) → (a < s + 1) ⊎ (s + 1 + n < a)
past s a n (inl lt) = inl (omega arith)
past s a n (inr lt) = inr (omega arith)

IsString-set_byte :
    (mem : Memory) (s a v : ℕ) (bytes : List ℕ)
    → (a < s) ⊎ (s + length bytes < a)
    → IsString mem s bytes
    → IsString (set_byte mem a v) s bytes
unfolding set_byte
IsString-set_byte mem s a v [] apart h = ground (arith, h)
IsString-set_byte mem s a v (c ∷ cs) apart h = (
  ground (arith, h.0),
  h.1,
  IsString-set_byte mem (s + 1) a v cs (past s a (length cs) apart) (h.2),
)

written_apart :
    (dest source i n : ℕ)
    → (dest ≤ source) ⊎ (source + i + suc n < dest)
    → ((dest + i < source + i + 1) ⊎ (source + i + 1 + n < dest + i))
      × ((dest ≤ source) ⊎ (source + (i + 1) + n < dest))
written_apart dest source i n (inl le) = (inl (omega arith), inl le)
written_apart dest source i n (inr lt) = (inr (omega arith), inr (omega arith))

strcpy_from-memcpy_from :
    (fuel : ℕ) (mem : Memory) (dest source i : ℕ) (bytes : List ℕ)
    → IsString mem (source + i) bytes
    → (dest ≤ source) ⊎ (source + i + length bytes < dest)
    → length bytes < fuel
    → strcpy_from fuel mem dest source i ≡ some (memcpy_from (length bytes + 1) mem dest source i)
unfolding strcpy_from memcpy_from
strcpy_from-memcpy_from zero mem dest source i bytes h apart lt = absurd (omega arith)
strcpy_from-memcpy_from (suc fuel) mem dest source i [] h apart lt = rw (eq→== _ _ h) refl
strcpy_from-memcpy_from (suc fuel) mem dest source i (c ∷ cs) h apart lt =
    let apart' = written_apart dest source i (length cs) apart in
    let more : (mem (source + i) == 0) ≡ false = ne→== _ _ (λ z. h.1 (sym (h.0) ∙ z)) in
    let written = set_byte mem (dest + i) (mem (source + i)) in
    let here : source + i + 1 ≡ source + (i + 1) = omega arith in
    let kept =
      IsString-set_byte mem (source + i + 1) (dest + i) (mem (source + i)) cs (apart'.0) (h.2) in
    let next : IsString written (source + (i + 1)) cs = rw⁻¹ here kept in
    let count : suc (length cs) + 1 ≡ suc (length cs + 1) = omega arith in
    rw (more, count)
      (strcpy_from-memcpy_from fuel written dest source (i + 1) cs next (apart'.1) (omega arith))

-- `strcpy` of a string is `memcpy` of its bytes and the terminator, with fuel for one more than its
-- bytes, if the destination does not start inside the source behind its first byte.
pub strcpy-memcpy :
    (fuel : ℕ) (mem : Memory) (dest source : ℕ) (bytes : List ℕ)
    → IsString mem source bytes
    → (dest ≤ source) ⊎ (source + length bytes < dest)
    → length bytes < fuel
    → strcpy fuel mem dest source ≡ some (memcpy mem dest source (length bytes + 1))
unfolding strcpy memcpy
strcpy-memcpy fuel mem dest source bytes h apart lt =
    let e : source + 0 ≡ source = omega arith in
    let at : IsString mem (source + 0) bytes = rw e h in
    let apart' : (dest ≤ source) ⊎ (source + 0 + length bytes < dest) = rw e apart in
    strcpy_from-memcpy_from fuel mem dest source 0 bytes at apart' lt

-- With enough fuel, `strcmp` of two strings is 0 only if they have the same bytes.
pub strcmp_zero :
    (fuel : ℕ) (mem : Memory) (s1 s2 : ℕ) (a b : List ℕ)
    → IsString mem s1 a
    → IsString mem s2 b
    → length a < fuel
    → strcmp fuel mem s1 s2 ≡ some (pos 0)
    → a ≡ b
strcmp_zero fuel mem s1 s2 a b h1 h2 lt e =
    compare_strings-eq a b (some_inj.0 (sym (strcmp-IsString fuel mem s1 s2 a b h1 h2 lt) ∙ e))
