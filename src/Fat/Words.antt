-- ===== src/Fat/Words.antt =====
-- Little-endian 32-bit words in a buffer: `*(unsigned int *)&buf[i]`.
use veil_os.Base.{
  ℕ, suc, ◌+◌, ◌*◌, ◌/◌, ◌%◌, ◌^◌, ◌<◌, ◌≡◌, ◌≢◌, ◌⊎◌, List, length, length-set, set, get_or, arith,
  refl, ap, ◌∙◌, zero, [], ◌∷◌,
}

abbrev pub byte_at : List ℕ → ℕ → ℕ
byte_at buf i = get_or buf i 0

unfoldable pub word_at : List ℕ → ℕ → ℕ
word_at buf i =
    byte_at buf i
    + byte_at buf (i + 1) * 2 ^ 8
    + byte_at buf (i + 2) * 2 ^ 16
    + byte_at buf (i + 3) * 2 ^ 24

unfoldable pub set_word : List ℕ → ℕ → ℕ → List ℕ
set_word buf i v =
    set (set (set (set buf i (v % 2 ^ 8)) (i + 1) (v / 2 ^ 8 % 2 ^ 8)) (i + 2) (v / 2 ^ 16 % 2 ^ 8))
      (i + 3) (v / 2 ^ 24 % 2 ^ 8)

byte-set_self : (buf : List ℕ) (i v : ℕ) → i < length buf → byte_at (set buf i v) i ≡ v
byte-set_self [] i v h = absurd (omega arith)
byte-set_self (x ∷ xs) zero v h = refl
byte-set_self (x ∷ xs) (suc i) v h = byte-set_self xs i v (omega arith)

byte-set_ne : (buf : List ℕ) (i j v : ℕ) → i ≢ j → byte_at (set buf i v) j ≡ byte_at buf j
byte-set_ne [] i j v h = refl
byte-set_ne (x ∷ xs) zero zero v h = absurd (h refl)
byte-set_ne (x ∷ xs) zero (suc j) v h = refl
byte-set_ne (x ∷ xs) (suc i) zero v h = refl
byte-set_ne (x ∷ xs) (suc i) (suc j) v h = byte-set_ne xs i j v (λ e. h (ap suc e))

pub length-set_word : (buf : List ℕ) (i v : ℕ) → length (set_word buf i v) ≡ length buf
unfolding set_word
length-set_word buf i v = simp length-set

-- The bytes that `set_word` leaves.
byte-set_word_ne :
    (buf : List ℕ) (i j v : ℕ)
    → (j < i) ⊎ (i + 3 < j)
    → byte_at (set_word buf i v) j ≡ byte_at buf j
unfolding set_word
byte-set_word_ne buf i j v h =
    byte-set_ne _ (i + 3) j _ (omega arith)
    ∙ byte-set_ne _ (i + 2) j _ (omega arith)
    ∙ byte-set_ne _ (i + 1) j _ (omega arith)
    ∙ byte-set_ne buf i j _ (omega arith)

pub word-set_word_self :
    (buf : List ℕ) (i v : ℕ) → i + 3 < length buf → v < 2 ^ 32 → word_at (set_word buf i v) i ≡ v
unfolding word_at set_word
word-set_word_self buf i v h fits =
    let b0 = set buf i (v % 2 ^ 8) in
    let b1 = set b0 (i + 1) (v / 2 ^ 8 % 2 ^ 8) in
    let b2 = set b1 (i + 2) (v / 2 ^ 16 % 2 ^ 8) in
    omega (
      arith,
      byte-set_ne b2 (i + 3) i (v / 2 ^ 24 % 2 ^ 8) (omega arith),
      byte-set_ne b1 (i + 2) i (v / 2 ^ 16 % 2 ^ 8) (omega arith),
      byte-set_ne b0 (i + 1) i (v / 2 ^ 8 % 2 ^ 8) (omega arith),
      byte-set_self buf i (v % 2 ^ 8) (omega arith),
      byte-set_ne b2 (i + 3) (i + 1) (v / 2 ^ 24 % 2 ^ 8) (omega arith),
      byte-set_ne b1 (i + 2) (i + 1) (v / 2 ^ 16 % 2 ^ 8) (omega arith),
      byte-set_self b0 (i + 1) (v / 2 ^ 8 % 2 ^ 8) (omega (arith, length-set buf i (v % 2 ^ 8))),
      byte-set_ne b2 (i + 3) (i + 2) (v / 2 ^ 24 % 2 ^ 8) (omega arith),
      byte-set_self b1 (i + 2) (v / 2 ^ 16 % 2 ^ 8)
          (omega (arith, length-set buf i (v % 2 ^ 8), length-set b0 (i + 1) (v / 2 ^ 8 % 2 ^ 8))),
      byte-set_self b2 (i + 3) (v / 2 ^ 24 % 2 ^ 8) (
          omega (
            arith,
            length-set buf i (v % 2 ^ 8),
            length-set b0 (i + 1) (v / 2 ^ 8 % 2 ^ 8),
            length-set b1 (i + 2) (v / 2 ^ 16 % 2 ^ 8),
          )),
    )

pub word-set_word_ne :
    (buf : List ℕ) (i j v : ℕ)
    → (j + 3 < i) ⊎ (i + 3 < j)
    → word_at (set_word buf i v) j ≡ word_at buf j
unfolding word_at
word-set_word_ne buf i j v h = omega (
  arith,
  byte-set_word_ne buf i j v (side (omega arith)),
  byte-set_word_ne buf i (j + 1) v (side (omega arith)),
  byte-set_word_ne buf i (j + 2) v (side (omega arith)),
  byte-set_word_ne buf i (j + 3) v (side (omega arith)),
)
  where
    side : {k : ℕ} → (k < i) ⊎ (i + 3 < k) → (k < i) ⊎ (i + 3 < k)
    side h = h
