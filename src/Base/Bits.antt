-- ===== src/Base/Bits.antt =====
-- C's bit operations at variables: one binary digit at a time, and tests of single flags.
use Prim.Native.Nat.{
  ℕ, zero, suc, ◌+◌, ◌-◌, ◌*◌, ◌/◌, ◌%◌, ◌^◌, ◌≤◌, ◌<◌, min, max, digits, bitwise, bit_and, bit_or,
  bit_and-bitwise, bit_or-bitwise,
}
use mathlib.Core.Path.{◌≡◌, refl, ap, ◌∙◌}
use mathlib.Core.Bool.{Bool, not, ◌&&◌, ◌||◌}
use native.Mathlib.Nat.{pow-suc, one-le-pow}
use native.Mathlib.Omega.{arith}
use veil_os.Base.Tests.{◌==◌}

-- The fuel of the library's digit recursion does not matter once it covers the first number.
module _ (rest : ℕ → ℕ) (op : ℕ → ℕ → ℕ) where
  agree : (a b n m : ℕ) → a ≤ n → a ≤ m → digits rest op n a b ≡ digits rest op m a b
  agree zero b zero zero hn hm = refl
  agree zero b (suc n) zero hn hm = refl
  agree zero b zero (suc m) hn hm = refl
  agree zero b (suc n) (suc m) hn hm = refl
  agree (suc a) b zero m hn hm = absurd (omega arith)
  agree (suc a) b (suc n) zero hn hm = absurd (omega arith)
  agree (suc a) b (suc n) (suc m) hn hm =
      ap (λ t. t * 2 + op (suc a % 2) (b % 2))
        (agree (suc a / 2) (b / 2) n m (omega arith) (omega arith))

  lowest :
      (a b : ℕ)
      → bitwise rest op (suc a) b ≡ op (suc a % 2) (b % 2) + bitwise rest op (suc a / 2) (b / 2) * 2
  lowest a b = omega (arith, agree (suc a / 2) (b / 2) a (suc a / 2) (omega arith) (omega arith))

pub bit_or_low : (a b : ℕ) → bit_or a b ≡ max (a % 2) (b % 2) + bit_or (a / 2) (b / 2) * 2
bit_or_low zero b = simp bit_or-bitwise (omega arith)
bit_or_low (suc a) b = simp bit_or-bitwise (lowest (λ n. n) max a b)

pub bit_and_low : (a b : ℕ) → bit_and a b ≡ min (a % 2) (b % 2) + bit_and (a / 2) (b / 2) * 2
bit_and_low zero b = simp bit_and-bitwise (omega arith)
bit_and_low (suc a) b = simp bit_and-bitwise (lowest (λ n. 0) min a b)

-- The digit of `a` at place `k`.
pub bit : ℕ → ℕ → ℕ
bit zero a = a % 2
bit (suc k) a = bit k (a / 2)

bit-lt : (k a : ℕ) → bit k a < 2
unfolding bit
bit-lt zero a = omega arith
bit-lt (suc k) a = bit-lt k (a / 2)

bit-bit_or : (k a b : ℕ) → bit k (bit_or a b) ≡ max (bit k a) (bit k b)
unfolding bit
bit-bit_or zero a b = omega (arith, bit_or_low a b)
bit-bit_or (suc k) a b =
    let half : bit_or a b / 2 ≡ bit_or (a / 2) (b / 2) = omega (arith, bit_or_low a b) in
    ap (bit k) half ∙ bit-bit_or k (a / 2) (b / 2)

bit-bit_and : (k a b : ℕ) → bit k (bit_and a b) ≡ min (bit k a) (bit k b)
unfolding bit
bit-bit_and zero a b = omega (arith, bit_and_low a b)
bit-bit_and (suc k) a b =
    let half : bit_and a b / 2 ≡ bit_and (a / 2) (b / 2) = omega (arith, bit_and_low a b) in
    ap (bit k) half ∙ bit-bit_and k (a / 2) (b / 2)

bit_and-zero : (n a : ℕ) → a ≤ n → bit_and a 0 ≡ 0
bit_and-zero n zero h = refl
bit_and-zero zero (suc a) h = absurd (omega arith)
bit_and-zero (suc n) (suc a) h =
    omega (arith, bit_and_low (suc a) 0, bit_and-zero n (suc a / 2) (omega arith))

-- A mask of one flag leaves that flag.
pub bit_and-flag : (k a : ℕ) → bit_and a (2 ^ k) ≡ bit k a * 2 ^ k
unfolding bit
bit_and-flag zero a = omega (arith, bit_and_low a 1, bit_and-zero (a / 2) (a / 2) (omega arith))
bit_and-flag (suc k) a =
    let half : 2 ^ suc k / 2 ≡ 2 ^ k = omega (arith, pow-suc 2 k) in
    let tail : bit_and (a / 2) (2 ^ suc k / 2) ≡ bit k (a / 2) * 2 ^ k =
      ap (bit_and (a / 2)) half ∙ bit_and-flag k (a / 2) in
    omega (
      arith,
      bit_and_low a (2 ^ suc k),
      pow-suc 2 k,
      tail,
      ap (λ (t : ℕ). bit k (a / 2) * t) (pow-suc 2 k),
    )

-- C's `a & m`, as a condition.
abbrev pub has : ℕ → ℕ → Bool
has a m = not (bit_and a m == 0)

has-bit : (k a : ℕ) → has a (2 ^ k) ≡ (bit k a == 1)
has-bit k a = rw (bit_and-flag k a) (ground (arith, bit-lt k a, one-le-pow k 2))

-- A flag of `a | b`, and of `a & b`.
pub has-bit_or : (k a b : ℕ) → has (bit_or a b) (2 ^ k) ≡ (has a (2 ^ k) || has b (2 ^ k))
has-bit_or k a b =
    rw (has-bit k (bit_or a b), has-bit k a, has-bit k b, bit-bit_or k a b)
      (ground (arith, bit-lt k a, bit-lt k b))

pub has-bit_and : (k a b : ℕ) → has (bit_and a b) (2 ^ k) ≡ (has a (2 ^ k) && has b (2 ^ k))
has-bit_and k a b =
    rw (has-bit k (bit_and a b), has-bit k a, has-bit k b, bit-bit_and k a b)
      (ground (arith, bit-lt k a, bit-lt k b))

-- A mask of the `k` lowest bits leaves the remainder by `2 ^ k`.
bit_and-ones : (k q r : ℕ) → r < 2 ^ k → bit_and (q * 2 ^ k + r) (2 ^ k - 1) ≡ r
bit_and-ones zero q r h = bit_and-zero (q * 1 + r) (q * 1 + r) (omega arith) ∙ omega arith
bit_and-ones (suc k) q r h =
    let double : q * 2 ^ suc k ≡ 2 * (q * 2 ^ k) =
      omega (arith, ap (λ (t : ℕ). q * t) (pow-suc 2 k)) in
    let mask : (2 ^ suc k - 1) / 2 ≡ 2 ^ k - 1 = omega (arith, pow-suc 2 k, one-le-pow k 2) in
    let half : (q * 2 ^ suc k + r) / 2 ≡ q * 2 ^ k + r / 2 = omega (arith, double) in
    let tail : bit_and ((q * 2 ^ suc k + r) / 2) ((2 ^ suc k - 1) / 2) ≡ r / 2 =
      rw (half, mask) (bit_and-ones k q (r / 2) (omega (arith, pow-suc 2 k))) in
    omega (
      arith,
      bit_and_low (q * 2 ^ suc k + r) (2 ^ suc k - 1),
      pow-suc 2 k,
      one-le-pow k 2,
      tail,
      double,
    )

pub bit_and-mask : (k a : ℕ) → bit_and a (2 ^ k - 1) ≡ a % 2 ^ k
bit_and-mask k a = ground (arith, one-le-pow k 2, bit_and-ones k (a / 2 ^ k) (a % 2 ^ k))
