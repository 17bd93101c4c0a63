-- ===== src/Emmc.antt =====
-- The SD card behind kernel/drivers/emmc.c, as the file systems use it: `SeekInEMMC` followed by
-- `ReadFromEMMC` or `WriteToEMMC`. Every transfer of the file systems has its own seek in front of
-- it, so the position is an argument here. The transfer of blocks by the controller is taken to
-- succeed; the tests that the driver makes before it are modelled.
pub mod Blocks
use veil_os.Base.{
  ℕ, zero, suc, ◌+◌, ◌/◌, ◌%◌, ◌^◌, Bool, ◌&&◌, not, Option, none, some, List, [], ◌++◌, length,
  take, drop, ltb, ◌==◌, if◌then◌else◌,
}

abbrev pub block_size : ℕ
block_size = 512

-- The card: the bytes of each block.
abbrev pub Card : Type 0
Card = ℕ → List ℕ

unfoldable pub read_blocks : Card → (block count : ℕ) → List ℕ
read_blocks card block zero = []
read_blocks card block (suc n) = card block ++ read_blocks card (block + 1) n

unfoldable pub write_block : Card → ℕ → List ℕ → Card
write_block card block bytes b = if b == block then bytes else card b

unfoldable pub write_blocks : Card → (block count : ℕ) → List ℕ → Card
write_blocks card block zero bytes = card
write_blocks card block (suc n) bytes =
    write_blocks (write_block card block (take block_size bytes)) (block + 1) n
      (drop block_size bytes)

-- The tests of `ReadFromEMMC`, `WriteToEMMC` and `do_data_command`.
unfoldable pub is_transfer : (offset size : ℕ) → Bool
is_transfer offset size =
    offset % block_size == 0 && (not (ltb size block_size) && size % block_size == 0)

-- `none` where the driver returns -1 and leaves the buffer alone.
unfoldable pub read_at : Card → (offset size : ℕ) → Option (List ℕ)
read_at card offset size =
    if is_transfer offset size
    then some (read_blocks card (offset / block_size % 2 ^ 32) (size / block_size))
    else none

unfoldable pub write_at : Card → (offset : ℕ) → List ℕ → Card
write_at card offset bytes =
    if is_transfer offset (length bytes)
    then write_blocks card (offset / block_size % 2 ^ 32) (length bytes / block_size) bytes
    else card

abbrev pub or_stale : Option (List ℕ) → List ℕ → List ℕ
or_stale none stale = stale
or_stale (some bytes) stale = bytes
