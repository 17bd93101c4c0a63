-- ===== src/Strings.antt =====
-- kernel/lib/string.c. Memory is a function from addresses to bytes, a pointer is an address, and a
-- loop that stops at a terminator has fuel: it gives `none` when the fuel runs out.
pub mod Copies
pub mod Reads
mod Examples
use veil_os.Base.{
  ℕ, zero, suc, ◌+◌, ◌-◌, ◌%◌, ℤ, pos, negsuc, minus_one, Bool, true, false, not, ◌&&◌, Option,
  none, some, ltb, leb, ◌==◌, if◌then◌else◌,
}

abbrev pub Memory : Type 0
Memory = ℕ → ℕ

unfoldable pub set_byte : Memory → (address value : ℕ) → Memory
set_byte mem address value j = if j == address then value else mem j

-- `strlen` and `ustrlen` from the character at `s + length` on.
unfoldable pub strlen_from : (fuel : ℕ) → Memory → (s length : ℕ) → Option ℕ
strlen_from zero mem s length = none
strlen_from (suc fuel) mem s length =
    let rest = strlen_from fuel mem s (length + 1) in
    if mem (s + length) == 0 then some length else rest

unfoldable pub strlen : (fuel : ℕ) → Memory → (s : ℕ) → Option ℕ
strlen fuel mem s = strlen_from fuel mem s 0

-- `(a > b) - (b > a)`
unfoldable pub order : (a b : ℕ) → ℤ
order a b = if ltb b a then pos 1 else if ltb a b then minus_one else pos 0

-- `strcmp`, whose `char` is unsigned on this machine, and `ustrcmp`.
unfoldable pub strcmp : (fuel : ℕ) → Memory → (s1 s2 : ℕ) → Option ℤ
strcmp zero mem s1 s2 = none
strcmp (suc fuel) mem s1 s2 =
    let rest = strcmp fuel mem (s1 + 1) (s2 + 1) in
    if not (mem s1 == 0) && (mem s1 == mem s2) then rest else some (order (mem s1) (mem s2))

-- `strcpy` from the character `i` on. The counter is an `int` in the source: strings are shorter than
-- 2 ^ 31 bytes.
unfoldable pub strcpy_from : (fuel : ℕ) → Memory → (dest source i : ℕ) → Option Memory
strcpy_from zero mem dest source i = none
strcpy_from (suc fuel) mem dest source i =
    let value = mem (source + i) in
    let written = set_byte mem (dest + i) value in
    let rest = strcpy_from fuel written dest source (i + 1) in
    if value == 0 then some written else rest

unfoldable pub strcpy : (fuel : ℕ) → Memory → (dest source : ℕ) → Option Memory
strcpy fuel mem dest source = strcpy_from fuel mem dest source 0

-- The loop of `strrchr`, with the last address that was found.
unfoldable pub strrchr_from : (fuel : ℕ) → Memory → (s c : ℕ) → Option ℕ → Option (Option ℕ)
strrchr_from zero mem s c p = none
strrchr_from (suc fuel) mem s c p =
    let p' = if mem s == c then some s else p in
    let rest = strrchr_from fuel mem (s + 1) c p' in if mem s == 0 then some p' else rest

unfoldable pub strrchr : (fuel : ℕ) → Memory → (s c : ℕ) → Option (Option ℕ)
strrchr fuel mem s c = strrchr_from fuel mem s (c % 256) none

-- The first loop finds the end of `dest`, the second one copies.
unfoldable pub strcat : (fuel : ℕ) → Memory → (dest src : ℕ) → Option Memory
strcat fuel mem dest src = elim (strlen fuel mem dest) [
  | none ↦ none
  | some length ↦ strcpy fuel mem (dest + length) src
]

-- `toupper` and `utoupper`
unfoldable pub toupper : ℕ → ℕ
toupper x = if leb b'a' x && leb x b'z' then x - (b'a' - b'A') else x

unfoldable pub memset : Memory → (ptr value size : ℕ) → Memory
memset mem ptr value zero = mem
memset mem ptr value (suc size) = memset (set_byte mem ptr (value % 256)) (ptr + 1) value size

-- `memcpy`, with `n` bytes to go from the byte `i` on. The counter is an `int` in the source: sizes
-- are below 2 ^ 31.
unfoldable pub memcpy_from : (n : ℕ) → Memory → (dst src i : ℕ) → Memory
memcpy_from zero mem dst src i = mem
memcpy_from (suc n) mem dst src i =
    memcpy_from n (set_byte mem (dst + i) (mem (src + i))) dst src (i + 1)

unfoldable pub memcpy : Memory → (dst src size : ℕ) → Memory
memcpy mem dst src size = memcpy_from size mem dst src 0

-- `a - b` of two bytes.
unfoldable pub difference : (a b : ℕ) → ℤ
difference a b = if ltb a b then negsuc (b - a - 1) else pos (a - b)

-- `memcmp`, with `n` bytes to go.
unfoldable pub memcmp : (n : ℕ) → Memory → (s1 s2 : ℕ) → ℤ
memcmp zero mem s1 s2 = pos 0
memcmp (suc n) mem s1 s2 =
    let rest = memcmp n mem (s1 + 1) (s2 + 1) in
    if not (mem s1 == mem s2) then difference (mem s1) (mem s2) else rest
