-- ===== src/Voidelle/Bytes.antt =====
-- Little-endian numbers of `k` bytes, and fields of a packed struct.
use veil_os.Base.{
  ℕ, zero, suc, ◌+◌, ◌*◌, ◌/◌, ◌%◌, ◌^◌, ◌≤◌, ◌≡◌, refl, ap, sym, List, [], ◌∷◌, ◌++◌, length, take,
  drop, arith,
}

unfoldable pub bytes_of : (k n : ℕ) → List ℕ
bytes_of zero n = []
bytes_of (suc k) n = (n % 2 ^ 8) ∷ bytes_of k (n / 2 ^ 8)

unfoldable pub number_of : (k : ℕ) → List ℕ → ℕ
number_of zero bytes = 0
number_of (suc k) [] = 0
number_of (suc k) (b ∷ bytes) = b + number_of k bytes * 2 ^ 8

-- A buffer of zeros with the bytes at its start.
unfoldable pub padded : (size : ℕ) → List ℕ → List ℕ
padded zero bytes = []
padded (suc n) [] = 0 ∷ padded n []
padded (suc n) (b ∷ bytes) = b ∷ padded n bytes

pub length-padded : (n : ℕ) (bytes : List ℕ) → length (padded n bytes) ≡ n
unfolding padded
length-padded zero bytes = refl
length-padded (suc n) [] = ap suc (length-padded n [])
length-padded (suc n) (b ∷ bytes) = ap suc (length-padded n bytes)

pub take-padded :
    (n : ℕ) (bytes : List ℕ) → length bytes ≤ n → take (length bytes) (padded n bytes) ≡ bytes
unfolding padded
take-padded n [] le = refl
take-padded zero (b ∷ bytes) le = absurd (omega arith)
take-padded (suc n) (b ∷ bytes) le = ap (λ r. b ∷ r) (take-padded n bytes (omega arith))

pub length-bytes_of : (k n : ℕ) → length (bytes_of k n) ≡ k
unfolding bytes_of
length-bytes_of zero n = refl
length-bytes_of (suc k) n = ap suc (length-bytes_of k (n / 2 ^ 8))

-- A number of `k` bytes.
abbrev pub FitsIn : (k n : ℕ) → Type 0
FitsIn zero n = n ≡ 0
FitsIn (suc k) n = FitsIn k (n / 2 ^ 8)

-- The field of a struct that starts with it.
pub number-bytes_of :
    (k n : ℕ) (rest : List ℕ) → FitsIn k n → number_of k (bytes_of k n ++ rest) ≡ n
unfolding number_of bytes_of
number-bytes_of zero n rest fits = sym fits
number-bytes_of (suc k) n rest fits = omega (arith, number-bytes_of k (n / 2 ^ 8) rest fits)

pub drop-bytes_of : (k n : ℕ) (rest : List ℕ) → drop k (bytes_of k n ++ rest) ≡ rest
unfolding bytes_of
drop-bytes_of zero n rest = refl
drop-bytes_of (suc k) n rest = drop-bytes_of k (n / 2 ^ 8) rest
