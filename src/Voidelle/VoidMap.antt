-- ===== src/Voidelle/VoidMap.antt =====
-- `get_free_void` on a map whose used voids are the first ones: the map stands for their number.
use veil_os.Base.{
  ℕ, zero, suc, ◌+◌, ◌-◌, ◌*◌, ◌/◌, ◌%◌, ◌≤◌, ◌<◌, ◌≡◌, ◌≢◌, inl, inr, refl, ap, sym, ◌∙◌, List,
  length, length-set, get_or, set, ltb, ltb→lt, ltb→le, ◌==◌, ne→==, ==→eq, ==→ne, false,
  Bool-cases, if◌then◌else◌, arith,
}
use veil_os.Emmc.{Card, write_block}
use veil_os.Emmc.Blocks.{take_all, write_block_self, write_block-ne}
use veil_os.Voidelle.Bytes.{padded}
use veil_os.Voidelle.Types.{Voidom, void_size}
use veil_os.Voidelle.Disk.{disk_read, take_void, free_void_from, get_free_void}
use veil_os.Voidelle.Storage.{IsVoid, block_of, disk_read-void, disk_write-void}
use veil_os.Voidelle.MapBytes.{
  used_byte, used_byte-full, take_bit-used_byte, get_or-set_self, get_or-set_ne, padded_all,
}

-- The sector of the map, with the first `n` voids in use.
pub record IsMap (fs : Voidom) (card : Card) (n : ℕ) : Type 0 where
  pub sector_size : length (card (block_of fs fs.voidlet.voidmap)) ≡ 512
  pub used :
      (i : ℕ) → i < 512 → get_or (card (block_of fs fs.voidlet.voidmap)) i 0 ≡ used_byte (n - 8 * i)

module _ (stale : List ℕ) (fs : Voidom) (at : IsVoid fs fs.voidlet.voidmap) (card : Card) (n : ℕ)
    (m : IsMap fs card n) where
  sector : List ℕ
  sector = card (block_of fs fs.voidlet.voidmap)

  buffer :
      (i : ℕ) (total : List ℕ)
      → i < 512
      → (0 < i → total ≡ sector)
      → (if i % void_size == 0
          then disk_read stale fs card (fs.voidlet.voidmap + i / void_size) void_size
          else total)
        ≡ sector
  unfolding sector
  buffer zero total lt same =
      let e : fs.voidlet.voidmap + 0 / 512 ≡ fs.voidlet.voidmap = omega arith in
      ap (λ q. disk_read stale fs card q 512) e
      ∙ disk_read-void fs fs.voidlet.voidmap at stale card 512
      ∙ take_all 512 (card (block_of fs fs.voidlet.voidmap)) m.sector_size
  buffer (suc i) total lt same =
      let z : suc i % 512 == 0 ≡ false = ne→== (suc i % 512) 0 (omega (arith, lt)) in
      rw z (same (omega arith))

  -- What the loop does at a byte of the first sector, with that sector in its buffer.
  round : (rounds i bits : ℕ) → Card × ℕ
  round rounds i bits =
      take_void stale fs card fs.voidlet.voidmap i sector
        (free_void_from stale fs rounds card (i + 1) sector) bits

  free_void_from-round :
      (rounds i : ℕ) (total : List ℕ)
      → i < 512
      → (0 < i → total ≡ sector)
      → free_void_from stale fs (suc rounds) card i total ≡ round rounds i (used_byte (n - 8 * i))
  unfolding free_void_from round sector
  free_void_from-round rounds i total lt same =
      let seek : fs.voidlet.voidmap + i / void_size ≡ fs.voidlet.voidmap = omega (arith, lt) in
      let low : i % void_size ≡ i = omega (arith, lt) in
      ap
        (λ b.
          take_void stale fs card (fs.voidlet.voidmap + i / void_size) i b
            (free_void_from stale fs rounds card (i + 1) b) (get_or b (i % void_size) 0))
        (buffer i total lt same)
      ∙ ap
          (λ q.
            take_void stale fs card q i sector (free_void_from stale fs rounds card (i + 1) sector)
              (get_or sector (i % void_size) 0))
          seek
      ∙ ap (λ j. round rounds i (get_or sector j 0)) low
      ∙ ap (round rounds i) (m.used i lt)

  round_full :
      (rounds i : ℕ)
      → 8 * (i + 1) ≤ n
      → round rounds i (used_byte (n - 8 * i)) ≡ free_void_from stale fs rounds card (i + 1) sector
  unfolding round take_void
  round_full rounds i le = rw (used_byte-full (n - 8 * i) (omega (arith, le))) refl

  marked : Card
  marked =
      write_block card (block_of fs fs.voidlet.voidmap) (set sector (n / 8) (used_byte (n % 8 + 1)))

  round_free :
      (rounds : ℕ)
      → n / 8 < 512
      → round rounds (n / 8) (used_byte (n - 8 * (n / 8))) ≡ (marked, n * void_size)
  unfolding round take_void marked sector
  round_free rounds lt =
      let rest : n - 8 * (n / 8) ≡ n % 8 = omega arith in
      let (taken, free) = take_bit-used_byte (n % 8) (omega arith) in
      let low : n / 8 % void_size ≡ n / 8 = omega (arith, lt) in
      let place : n / 8 * 8 + (8 - (8 - n % 8)) ≡ n = omega arith in
      let bytes = set sector (n / 8) (used_byte (n % 8 + 1)) in
      let full : padded 512 bytes ≡ bytes =
        padded_all 512 bytes (length-set sector (n / 8) (used_byte (n % 8 + 1)) ∙ m.sector_size) in
      let stored =
        disk_write-void fs fs.voidlet.voidmap at card bytes
        ∙ ap (write_block card (block_of fs fs.voidlet.voidmap)) full in
      rw (rest, ne→== _ _ free, taken, low, place, stored) refl

  marked-ne : (b : ℕ) → b ≢ block_of fs fs.voidlet.voidmap → marked b ≡ card b
  unfolding marked
  marked-ne b ne =
      write_block-ne card (block_of fs fs.voidlet.voidmap)
        (set sector (n / 8) (used_byte (n % 8 + 1))) b ne

  -- From byte `i` on, with `d` full bytes in front of the first one with room.
  free_void_from-IsMap :
      (d rounds i : ℕ) (total : List ℕ)
      → i + d ≡ n / 8
      → n / 8 < 512
      → (0 < i → total ≡ sector)
      → free_void_from stale fs (d + suc rounds) card i total ≡ (marked, n * void_size)
  free_void_from-IsMap zero rounds i total e lt same =
      let more : 0 + suc rounds ≡ suc rounds = omega arith in
      let here : i ≡ n / 8 = omega (arith, e) in
      ap (λ r. free_void_from stale fs r card i total) more
      ∙ free_void_from-round rounds i total (omega (arith, e, lt)) same
      ∙ ap (λ j. round rounds j (used_byte (n - 8 * j))) here
      ∙ round_free rounds lt
  free_void_from-IsMap (suc d) rounds i total e lt same =
      let more : suc d + suc rounds ≡ suc (d + suc rounds) = omega arith in
      ap (λ r. free_void_from stale fs r card i total) more
      ∙ free_void_from-round (d + suc rounds) i total (omega (arith, e, lt)) same
      ∙ round_full (d + suc rounds) i (omega (arith, e))
      ∙ free_void_from-IsMap d rounds (i + 1) sector (omega (arith, e)) lt (λ pos. refl)

  -- After full bytes alone the loop ends without a void.
  free_void_from-full :
      (d i : ℕ) (total : List ℕ)
      → 8 * (i + d) ≤ n
      → i + d ≤ 512
      → (0 < i → total ≡ sector)
      → free_void_from stale fs d card i total ≡ (card, 0)
  unfolding free_void_from
  free_void_from-full zero i total le lt same = refl
  free_void_from-full (suc d) i total le lt same =
      free_void_from-round d i total (omega (arith, lt)) same
      ∙ round_full d i (omega (arith, le))
      ∙ free_void_from-full d (i + 1) sector (omega (arith, le)) (omega (arith, lt)) (λ pos. refl)

  marked-IsMap : n / 8 < 512 → IsMap fs marked (n + 1)
  unfolding marked sector
  marked-IsMap lt =
      let block = block_of fs fs.voidlet.voidmap in
      let here = write_block_self card block (set sector (n / 8) (used_byte (n % 8 + 1))) in
      record {
        sector_size =
            ap length here ∙ length-set sector (n / 8) (used_byte (n % 8 + 1)) ∙ m.sector_size;
        used = λ j j_lt. ap (λ bytes. get_or bytes j 0) here ∙ marked_byte j j_lt;
      }
    where
      marked_byte :
          (j : ℕ)
          → j < 512
          → get_or (set sector (n / 8) (used_byte (n % 8 + 1))) j 0 ≡ used_byte (n + 1 - 8 * j)
      marked_byte j j_lt = elim (Bool-cases (n / 8 == j)) [
        | inl hit ↦
            let e = ==→eq (n / 8) j hit in
            let count : n % 8 + 1 ≡ n + 1 - 8 * (n / 8) = omega arith in
            ap (λ q. get_or (set sector (n / 8) (used_byte (n % 8 + 1))) q 0) (sym e)
            ∙ get_or-set_self sector (n / 8) (used_byte (n % 8 + 1)) 0
                (omega (arith, m.sector_size, lt))
            ∙ ap used_byte count
            ∙ ap (λ q. used_byte (n + 1 - 8 * q)) e
        | inr miss ↦
            get_or-set_ne sector (n / 8) j (used_byte (n % 8 + 1)) 0 (==→ne (n / 8) j miss)
            ∙ m.used j j_lt
            ∙ same_byte j (==→ne (n / 8) j miss)
      ]
        where
          same_byte : (q : ℕ) → n / 8 ≢ q → used_byte (n - 8 * q) ≡ used_byte (n + 1 - 8 * q)
          same_byte q ne = elim (Bool-cases (ltb (n / 8) q)) [
            | inl above ↦
                let none_before : n - 8 * q ≡ n + 1 - 8 * q =
                  omega (arith, ltb→lt (n / 8) q above) in
                ap used_byte none_before
            | inr below ↦
                let lower = ltb→le (n / 8) q below in
                used_byte-full (n - 8 * q) (omega (arith, lower, ne))
                ∙ sym (used_byte-full (n + 1 - 8 * q) (omega (arith, lower, ne)))
          ]

-- The abstract map of `limit` voids: the number of those in use, and what a request gets.
unfoldable pub next_void : (limit n : ℕ) → ℕ × ℕ
next_void limit n = if ltb n limit then (n + 1, n * void_size) else (n, 0)

-- On a map that starts at a sector, fits in one and has its used voids in front, `get_free_void`
-- does what the abstract map does: it gives the first void behind those in use and marks it, and
-- nothing else on the card changes, or it gives 0 when all the voids are in use.
pub get_free_void-next_void :
    (stale : List ℕ) (fs : Voidom) (card : Card) (n : ℕ)
    → IsVoid fs fs.voidlet.voidmap
    → fs.voidlet.voidmap_size ≤ 512
    → IsMap fs card n
    → let limit = 8 * fs.voidlet.voidmap_size in
      ((get_free_void stale fs card).1 ≡ (next_void limit n).1)
      × IsMap fs ((get_free_void stale fs card).0) ((next_void limit n).0)
      × ((b : ℕ) → b ≢ block_of fs fs.voidlet.voidmap → (get_free_void stale fs card).0 b ≡ card b)
unfolding get_free_void next_void
get_free_void-next_void stale fs card n at small m =
    let size = fs.voidlet.voidmap_size in
    elim (Bool-cases (ltb n (8 * size))) [
      | inl room ↦
          let below = ltb→lt n (8 * size) room in
          let lt : n / 8 < 512 = omega (arith, below, small) in
          let rounds : n / 8 + suc (size - n / 8 - 1) ≡ size = omega (arith, below) in
          let found =
            ap (λ r. free_void_from stale fs r card 0 stale) (sym rounds)
            ∙ free_void_from-IsMap stale fs at card n m (n / 8) (size - n / 8 - 1) 0 stale
                (omega arith) lt (λ pos. absurd (omega (arith, pos))) in
          rw (found, room)
            (
              refl,
              marked-IsMap stale fs at card n m lt,
              λ b ne. marked-ne stale fs at card n m b ne,
            )
      | inr full ↦
          let above = ltb→le n (8 * size) full in
          let found =
            free_void_from-full stale fs at card n m size 0 stale (omega (arith, above))
              (omega (arith, small)) (λ pos. absurd (omega (arith, pos))) in
          rw (found, full) (refl, m, λ b ne. refl)
    ]
