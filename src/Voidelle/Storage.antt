-- ===== src/Voidelle/Storage.antt =====
-- Voids that are written and read back.
use veil_os.Base.{
  ℕ, zero, suc, ◌+◌, ◌/◌, ◌%◌, ◌^◌, ◌≤◌, ◌<◌, ◌≡◌, ◌≢◌, refl, ap, sym, ◌∙◌, List, [], ◌∷◌, length,
  take, le→ltb, arith,
}
use veil_os.Emmc.{Card, write_block}
use veil_os.Emmc.Blocks.{read_one_block, write_one_block, write_block_self, write_block-ne}
use veil_os.Voidelle.Bytes.{padded, length-padded, take-padded}
use veil_os.Voidelle.Types.{
  Voidelle, Voidite, Voidom, encode_voidite, decode_voidite, encode_voidelle, decode_voidelle,
}
use veil_os.Voidelle.Disk.{
  disk_read, disk_write, write_void, write_voidite, write_voidelle, read_voidite, read_voidelle_at,
}
use veil_os.Voidelle.Fields.{
  IsVoidite, IsVoidelle, length-encode_voidite, decode-encode_voidite, length-encode_voidelle,
  decode-encode_voidelle,
}

-- A position of a sector of the card.
pub record IsVoid (fs : Voidom) (p : ℕ) : Type 0 where
  pub aligned : (fs.offset + p) % 512 ≡ 0
  pub reach : (fs.offset + p) / 512 < 2 ^ 32

abbrev pub block_of : Voidom → ℕ → ℕ
block_of fs p = (fs.offset + p) / 512

padded-padded : (n : ℕ) (bytes : List ℕ) → padded n (padded n bytes) ≡ padded n bytes
unfolding padded
padded-padded zero bytes = refl
padded-padded (suc n) [] = ap (λ r. 0 ∷ r) (padded-padded n [])
padded-padded (suc n) (b ∷ bytes) = ap (λ r. b ∷ r) (padded-padded n bytes)

module _ (fs : Voidom) (p : ℕ) (v : IsVoid fs p) where
  block_eq : (fs.offset + p) / 512 % 2 ^ 32 ≡ block_of fs p
  block_eq = omega (arith, v.reach)

  pub disk_read-void :
      (stale : List ℕ) (card : Card) (size : ℕ)
      → disk_read stale fs card p size ≡ take size (card (block_of fs p))
  unfolding disk_read
  disk_read-void stale card size = rw (read_one_block card (fs.offset + p) v.aligned, block_eq) refl

  pub disk_write-void :
      (card : Card) (bytes : List ℕ)
      → disk_write fs card p bytes ≡ write_block card (block_of fs p) (padded 512 bytes)
  unfolding disk_write
  disk_write-void card bytes =
      rw
        (
          write_one_block card (fs.offset + p) (padded 512 bytes) v.aligned
              (length-padded 512 bytes),
          block_eq,
        )
        refl

  pub write_void-block :
      (card : Card) (bytes : List ℕ)
      → length bytes ≤ 512
      → (write_void fs card p bytes).0 ≡ write_block card (block_of fs p) (padded 512 bytes)
  unfolding write_void
  write_void-block card bytes le = rw (le→ltb 512 (length bytes) le) (
      disk_write-void card (padded 512 bytes)
      ∙ ap (write_block card (block_of fs p)) (padded-padded 512 bytes))

pub block_of-ne :
    (fs : Voidom) (p q : ℕ) → IsVoid fs p → IsVoid fs q → p ≢ q → block_of fs p ≢ block_of fs q
block_of-ne fs p q v w ne = omega (arith, v.aligned, w.aligned, ne)

module _ (fs : Voidom) (card : Card) (stale : List ℕ) where
  module _ (p : ℕ) (v : IsVoid fs p) (bytes : List ℕ) (le : length bytes ≤ 512) where
    written : Card
    written = (write_void fs card p bytes).0

    read-write_void : disk_read stale fs written p (length bytes) ≡ bytes
    unfolding written
    read-write_void =
        disk_read-void fs p v stale written (length bytes)
        ∙ ap (λ c. take (length bytes) (c (block_of fs p))) (write_void-block fs p v card bytes le)
        ∙ ap (take (length bytes)) (write_block_self card (block_of fs p) (padded 512 bytes))
        ∙ take-padded 512 bytes le

    read-write_void_ne :
        (q size : ℕ)
        → IsVoid fs q
        → p ≢ q
        → disk_read stale fs written q size ≡ disk_read stale fs card q size
    unfolding written
    read-write_void_ne q size w ne =
        disk_read-void fs q w stale written size
        ∙ ap (λ c. take size (c (block_of fs q))) (write_void-block fs p v card bytes le)
        ∙ ap (take size) (
            write_block-ne card (block_of fs p) (padded 512 bytes) (block_of fs q)
              (λ e. block_of-ne fs p q v w ne (sym e)))
        ∙ sym (disk_read-void fs q w stale card size)

  -- A voidite with full contents and fields of 64 bits that is written to its void, which is a
  -- sector of the card, is read back from it, and what is read from every other void stays the
  -- same.
  pub read-write_voidite :
      (v : Voidite)
      → IsVoidite v
      → IsVoid fs v.position
      → (read_voidite stale fs (write_voidite fs card v) v.position ≡ v)
        × ((q size : ℕ)
            → IsVoid fs q
            → v.position ≢ q
            → disk_read stale fs (write_voidite fs card v) q size ≡ disk_read stale fs card q size)
  unfolding read_voidite write_voidite written
  read-write_voidite v h at =
      let whole = length-encode_voidite v h in
      let le : length (encode_voidite v) ≤ 512 = omega (arith, whole) in
      (
        ap
              (λ n.
                decode_voidite
                  (disk_read stale fs (written v.position at (encode_voidite v) le) v.position n))
              (sym whole)
            ∙ ap decode_voidite (read-write_void v.position at (encode_voidite v) le)
            ∙ decode-encode_voidite v h,
        read-write_void_ne v.position at (encode_voidite v) le,
      )

  -- A voidelle with a header of 5 bytes and fields of 64 bits that is written to its void, which
  -- is a sector of the card, is read back from it, and what is read from every other void stays
  -- the same.
  pub read-write_voidelle :
      (v : Voidelle)
      → IsVoidelle v
      → IsVoid fs v.position
      → (read_voidelle_at stale fs (write_voidelle fs card v) v.position ≡ v)
        × ((q size : ℕ)
            → IsVoid fs q
            → v.position ≢ q
            → disk_read stale fs (write_voidelle fs card v) q size ≡ disk_read stale fs card q size)
  unfolding read_voidelle_at write_voidelle written
  read-write_voidelle v h at =
      let whole = length-encode_voidelle v h in
      let le : length (encode_voidelle v) ≤ 512 = omega (arith, whole) in
      (
        ap
              (λ n.
                decode_voidelle
                  (disk_read stale fs (written v.position at (encode_voidelle v) le) v.position n))
              (sym whole)
            ∙ ap decode_voidelle (read-write_void v.position at (encode_voidelle v) le)
            ∙ decode-encode_voidelle v h,
        read-write_void_ne v.position at (encode_voidelle v) le,
      )
