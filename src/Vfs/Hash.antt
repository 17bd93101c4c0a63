-- ===== src/Vfs/Hash.antt =====
-- `murmurHash` of kernel/system/vfs.c, on 32-bit words.
use Prim.Native.Nat.{bit_xor}
use veil_os.Base.{ℕ, ◌+◌, ◌-◌, ◌*◌, ◌/◌, ◌%◌, ◌^◌, List, [], ◌∷◌, length, bit_or, ◌≡◌, refl}

abbrev u32 : ℕ → ℕ
u32 n = n % 2 ^ 32

unfoldable pub rotate_left : (x bits : ℕ) → ℕ
rotate_left x bits = bit_or (u32 (x * 2 ^ bits)) (x / 2 ^ (32 - bits))

unfoldable pub murmur_32_scramble : ℕ → ℕ
unfolding rotate_left
murmur_32_scramble k = u32 (rotate_left (u32 (k * 0xcc9e_2d51)) 15 * 0x1b87_3593)

-- One round of the first loop, for the word that the next four bytes make.
unfoldable pub murmur_round : (h k : ℕ) → ℕ
unfolding murmur_32_scramble rotate_left
murmur_round h k = u32 (rotate_left (bit_xor h (murmur_32_scramble k)) 13 * 5 + 0xe654_6b64)

-- The second loop: the bytes that are left, the last one first.
unfoldable pub murmur_tail : List ℕ → ℕ
murmur_tail [] = 0
murmur_tail (c ∷ cs) = bit_or (u32 (murmur_tail cs * 2 ^ 8)) c

unfoldable pub murmur_mix : (h : ℕ) → List ℕ → ℕ
unfolding murmur_round murmur_tail
murmur_mix h (a ∷ b ∷ c ∷ d ∷ key) =
    murmur_mix (murmur_round h (a + b * 2 ^ 8 + c * 2 ^ 16 + d * 2 ^ 24)) key
murmur_mix h key = bit_xor h (murmur_32_scramble (murmur_tail key))

unfoldable pub murmur_finish : ℕ → ℕ
murmur_finish h =
    let h1 = u32 (bit_xor h (h / 2 ^ 16) * 0x85eb_ca6b) in
    let h2 = u32 (bit_xor h1 (h1 / 2 ^ 13) * 0xc2b2_ae35) in bit_xor h2 (h2 / 2 ^ 16)

-- The list holds the `len` bytes at `key`.
unfoldable pub murmur_hash : List ℕ → ℕ
unfolding murmur_mix murmur_finish
murmur_hash key = murmur_finish (bit_xor (murmur_mix 0 key) (u32 (length key)))

murmur_hash_hello : murmur_hash (b'h' ∷ b'e' ∷ b'l' ∷ b'l' ∷ b'o' ∷ []) ≡ 0x248b_fa47
unfolding murmur_hash
murmur_hash_hello = refl
