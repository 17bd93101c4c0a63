-- ===== src/Voidelle/Disk.antt =====
-- The voids of a Voidelle partition, and the map of those in use. A transfer at a position that is no
-- multiple of a sector fails; a read then leaves its buffer as it was, which is `stale` here.
use veil_os.Base.{
  ℕ, zero, suc, ◌+◌, ◌-◌, ◌*◌, ◌/◌, ◌%◌, ◌^◌, Bool, true, false, bit_and, bit_or, Option, none,
  some, List, [], ◌∷◌, length, take, get_or, set, ltb, ◌==◌, if◌then◌else◌,
}
use veil_os.Emmc.{Card, read_at, write_at, or_stale}
use veil_os.Voidelle.Bytes.{padded}
use veil_os.Voidelle.Types.{
  Voidelle, Voidite, Voidom, void_size, voidelle_size, encode_voidite, decode_voidite,
  encode_voidelle, decode_voidelle,
}

-- `bits | (1 << (ctz(bits) - 1))` and that exponent plus one, for the lowest bit set from `k` on. With
-- the lowest bit set the shift is by -1; it is taken to set no bit of the byte.
unfoldable pub lowest_bit : (rounds k bits : ℕ) → ℕ
lowest_bit zero k bits = k
lowest_bit (suc n) k bits = if bits / 2 ^ k % 2 == 1 then k else lowest_bit n (k + 1) bits

unfoldable pub take_bit : (bits : ℕ) → ℕ × ℕ
take_bit bits =
    let k = lowest_bit 8 0 bits in
    if bits == 0 then (0x80, 8) else if k == 0 then (bits, 0) else (bit_or bits (2 ^ (k - 1)), k)

module _ (fs : Voidom) where
  -- `disk_seek` and `disk_write`
  unfoldable pub disk_write : Card → (seek : ℕ) → List ℕ → Card
  disk_write card seek bytes = write_at card (fs.offset + seek) (padded void_size bytes)

  unfoldable pub disk_size : ℕ
  disk_size = fs.num_sectors * 512 % 2 ^ 32

  unfoldable pub write_void : Card → (position : ℕ) → List ℕ → Card × Bool
  write_void card position bytes =
      if ltb void_size (length bytes)
      then (card, false)
      else (disk_write card position (padded void_size bytes), true)

  unfoldable pub write_voidite : Card → Voidite → Card
  write_voidite card v = (write_void card v.position (encode_voidite v)).0

  unfoldable pub write_voidelle : Card → Voidelle → Card
  write_voidelle card v = (write_void card v.position (encode_voidelle v)).0

module _ (stale : List ℕ) (fs : Voidom) where
  -- `disk_seek` and `disk_read`
  unfoldable pub disk_read : Card → (seek size : ℕ) → List ℕ
  disk_read card seek size = take size (or_stale (read_at card (fs.offset + seek) void_size) stale)

  unfoldable pub read_void : Card → (position size : ℕ) → Option (List ℕ)
  read_void card position size =
      if ltb void_size size then none else some (disk_read card position size)

  -- A round of `get_free_void`, with what the rounds behind it give.
  unfoldable pub take_void :
      Card → (seek i : ℕ) → (total_bits : List ℕ) → Card × ℕ → (bits : ℕ) → Card × ℕ
  take_void card seek i total_bits rest bits =
      let (taken, k) = take_bit bits in
      if bits == 0xff then rest else (
        disk_write fs card seek (set total_bits (i % void_size) taken),
        (i * 8 + (8 - k)) * void_size,
      )

  -- The loop of `get_free_void`, with `rounds` bytes to go from byte `i` on.
  unfoldable pub free_void_from : (rounds : ℕ) → Card → (i : ℕ) → List ℕ → Card × ℕ
  free_void_from zero card i total_bits = (card, 0)
  free_void_from (suc n) card i total_bits =
      let seek = fs.voidlet.voidmap + i / void_size in
      let total_bits = if i % void_size == 0 then disk_read card seek void_size else total_bits in
      let bits = get_or total_bits (i % void_size) 0 in
      let rest = free_void_from n card (i + 1) total_bits in
      take_void card seek i total_bits rest bits

  unfoldable pub get_free_void : Card → Card × ℕ
  get_free_void card = free_void_from fs.voidlet.voidmap_size card 0 stale

  unfoldable pub invalidate_section : Card → (pos : ℕ) → Card
  invalidate_section card pos =
      let seek = fs.voidlet.voidmap + pos / 8 in
      let bits = get_or (disk_read card seek 1) 0 0 in
      disk_write fs card seek (bit_and bits (0xff - 2 ^ (7 - pos % 8)) ∷ [])

  -- `read_void` and `write_void` of the structs, which fit in a void.
  unfoldable pub read_voidite : Card → (position : ℕ) → Voidite
  read_voidite card position = decode_voidite (disk_read card position void_size)

  unfoldable pub read_voidelle_at : Card → (position : ℕ) → Voidelle
  read_voidelle_at card position = decode_voidelle (disk_read card position voidelle_size)
