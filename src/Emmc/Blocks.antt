-- ===== src/Emmc/Blocks.antt =====
-- Transfers of one block.
use mathlib.Core.List.{append-nil}
use veil_os.Base.{
  ℕ, zero, suc, ◌/◌, ◌%◌, ◌^◌, ◌≡◌, ◌≢◌, refl, ap, some, List, length, arith, take, [], ◌∷◌,
}
use veil_os.Emmc.{Card, read_at, write_at, read_blocks, write_blocks, write_block, is_transfer}

pub take_all {ℓ} : {A : Type ℓ} (n : ℕ) (xs : List A) → length xs ≡ n → take n xs ≡ xs
take_all zero [] h = refl
take_all zero (x ∷ xs) h = absurd (omega arith)
take_all (suc n) [] h = refl
take_all (suc n) (x ∷ xs) h = ap (λ t. x ∷ t) (take_all n xs (omega arith))

-- One block, read and written.
pub read_one_block :
    (card : Card) (offset : ℕ)
    → offset % 512 ≡ 0
    → read_at card offset 512 ≡ some (card (offset / 512 % 2 ^ 32))
unfolding read_at is_transfer read_blocks
read_one_block card offset aligned = rw (aligned, append-nil)

pub write_one_block :
    (card : Card) (offset : ℕ) (bytes : List ℕ)
    → offset % 512 ≡ 0
    → length bytes ≡ 512
    → write_at card offset bytes ≡ write_block card (offset / 512 % 2 ^ 32) bytes
unfolding write_at is_transfer
write_one_block card offset bytes aligned size =
    rw (aligned, size) (unfold write_blocks in rw (take_all 512 bytes size))

pub write_block_self : (card : Card) (b : ℕ) (bytes : List ℕ) → write_block card b bytes b ≡ bytes
unfolding write_block
write_block_self card b bytes = ground arith

pub write_block-ne :
    (card : Card) (b : ℕ) (bytes : List ℕ) (d : ℕ) → d ≢ b → write_block card b bytes d ≡ card d
unfolding write_block
write_block-ne card b bytes d ne = ground arith
