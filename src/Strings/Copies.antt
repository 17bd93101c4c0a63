-- ===== src/Strings/Copies.antt =====
-- What `memset` and `memcpy` leave at every address.
use veil_os.Base.{
  ℕ, zero, suc, ◌+◌, ◌-◌, ◌%◌, ◌≤◌, ◌≡◌, ◌⊎◌, inl, inr, refl, ◌&&◌, ltb, leb, ◌==◌, if◌then◌else◌,
  arith,
}
use veil_os.Strings.{Memory, set_byte, memset, memcpy_from, memcpy}

set_byte_lem : (mem : Memory) (a v j : ℕ) → set_byte mem a v j ≡ (if j == a then v else mem j)
unfolding set_byte
set_byte_lem mem a v j = refl

-- `memset` sets the bytes of its range to the low eight bits of the value, and no other byte.
pub memset_lem :
    (mem : Memory) (ptr value size j : ℕ)
    → memset mem ptr value size j ≡ (if leb ptr j && ltb j (ptr + size) then value % 256 else mem j)
unfolding memset
memset_lem mem ptr value zero j = ground arith
memset_lem mem ptr value (suc size) j = ground (
  arith,
  memset_lem (set_byte mem ptr (value % 256)) (ptr + 1) value size j,
  set_byte_lem mem ptr (value % 256) j,
)

ahead :
    (n dst src i : ℕ)
    → (dst ≤ src) ⊎ (src + (i + suc n) ≤ dst)
    → (dst ≤ src) ⊎ (src + (i + 1 + n) ≤ dst)
ahead n dst src i (inl le) = inl le
ahead n dst src i (inr le) = inr (omega arith)

copy_lem :
    (n : ℕ) (mem : Memory) (dst src i j : ℕ)
    → (dst ≤ src) ⊎ (src + (i + n) ≤ dst)
    → memcpy_from n mem dst src i j
      ≡ (if leb (dst + i) j && ltb j (dst + i + n) then mem (src + (j - dst)) else mem j)
unfolding memcpy_from
copy_lem zero mem dst src i j apart = ground arith
copy_lem (suc n) mem dst src i j apart =
    let written = set_byte mem (dst + i) (mem (src + i)) in
    ground (
      arith,
      copy_lem n written dst src (i + 1) j (ahead n dst src i apart),
      set_byte_lem mem (dst + i) (mem (src + i)) j,
      set_byte_lem mem (dst + i) (mem (src + i)) (src + (j - dst)),
    )

from_start :
    (size dst src : ℕ) → (dst ≤ src) ⊎ (src + size ≤ dst) → (dst ≤ src) ⊎ (src + (0 + size) ≤ dst)
from_start size dst src (inl le) = inl le
from_start size dst src (inr le) = inr (omega arith)

-- `memcpy` copies the bytes that the source held before, and changes no byte outside the
-- destination, if the destination does not start inside the source behind its first byte.
pub memcpy_lem :
    (mem : Memory) (dst src size j : ℕ)
    → (dst ≤ src) ⊎ (src + size ≤ dst)
    → memcpy mem dst src size j
      ≡ (if leb dst j && ltb j (dst + size) then mem (src + (j - dst)) else mem j)
unfolding memcpy
memcpy_lem mem dst src size j apart =
    ground (arith, copy_lem size mem dst src 0 j (from_start size dst src apart))
