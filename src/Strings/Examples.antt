-- ===== src/Strings/Examples.antt =====
-- Runs of kernel/lib/string.c on the string `hi` at address 10.
use veil_os.Base.{
  ℕ, ◌-◌, ◌≡◌, inl, refl, pos, some, List, [], ◌∷◌, get_or, ltb, if◌then◌else◌, arith,
}
use veil_os.Strings.{Memory, memcpy, strcmp, order}
use veil_os.Strings.Copies.{memcpy_lem}
use veil_os.Strings.Reads.{IsString, compare_strings, strcmp-IsString}

abbrev bytes_at_10 : Memory
bytes_at_10 j =
    if ltb j 10 then 0 else get_or (b'h' ∷ b'i' ∷ 0 ∷ b'h' ∷ b'o' ∷ 0 ∷ b'h' ∷ b'i' ∷ []) (j - 10) 0

abbrev hi : List ℕ
hi = b'h' ∷ b'i' ∷ []

abbrev ho : List ℕ
ho = b'h' ∷ b'o' ∷ []

hi_at : IsString bytes_at_10 10 hi
hi_at = (refl, omega arith, (refl, omega arith, refl))

ho_at : IsString bytes_at_10 13 ho
ho_at = (refl, omega arith, (refl, omega arith, refl))

-- Down by one byte, where source and destination overlap.
memcpy_lem_example : memcpy bytes_at_10 9 10 2 10 ≡ b'i'
memcpy_lem_example = memcpy_lem bytes_at_10 9 10 2 10 (inl (omega arith))

strcmp-IsString_example : strcmp 3 bytes_at_10 10 13 ≡ some (compare_strings hi ho)
strcmp-IsString_example = strcmp-IsString 3 bytes_at_10 10 13 hi ho hi_at ho_at (omega arith)

other_hi_at : IsString bytes_at_10 16 hi
other_hi_at = (refl, omega arith, (refl, omega arith, refl))

same : strcmp 3 bytes_at_10 10 16 ≡ some (pos 0)
unfolding strcmp order
same = refl
