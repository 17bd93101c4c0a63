-- ===== src/Voidelle/Voidites.antt =====
-- kernel/fs/voidelle.c: the lists of voidites that hold a name or the contents of a file. A loop along
-- a list is on fuel; `none` says that it ran out.
use veil_os.Base.{
  ℕ, zero, suc, ◌+◌, ◌-◌, ◌/◌, ◌%◌, ◌^◌, has, Option, none, some, List, [], ◌∷◌, ◌++◌, length, take,
  drop, replicate, ltb, leb, ◌==◌, if◌then◌else◌,
}
use veil_os.Emmc.{Card}
use veil_os.Voidelle.Bytes.{padded}
use veil_os.Voidelle.Types.{
  Voidelle, Voidite, Voidom, voidite_content_size, voidelle_directory, decode_voidite,
}
use veil_os.Voidelle.Disk.{
  get_free_void, invalidate_section, read_voidite, write_voidite, write_voidelle,
}

-- A voidite of zeros.
abbrev pub empty_voidite : (position : ℕ) → Voidite
empty_voidite position = record {
  position = position;
  next_voidite = 0;
  bytes = replicate voidite_content_size 0;
}

-- The links between the sections of `populate_voidite_data`.
unfoldable pub link_sections : List Voidite → List Voidite
link_sections [] = []
link_sections (v ∷ []) = v ∷ []
link_sections (v ∷ w ∷ sections) =
    record v { next_voidite = w.position } ∷ link_sections (w ∷ sections)

unfoldable pub first_section : Voidite → List Voidite → Voidite
first_section stale_voidite [] = stale_voidite
first_section stale_voidite (v ∷ sections) = v

module _ (stale : List ℕ) (fs : Voidom) where
  -- The loop of `clear_voidites_after`.
  unfoldable pub clear_voidites_from : (fuel : ℕ) → Card → (pos : ℕ) → Option Card
  clear_voidites_from zero card pos = none
  clear_voidites_from (suc fuel) card pos =
      let v = read_voidite stale fs card pos in
      let card' = write_voidite fs card (record v { next_voidite = 0 }) in
      let rest =
        clear_voidites_from fuel (invalidate_section stale fs card' v.position) v.next_voidite in
      if pos == 0 then some card else rest

  unfoldable pub clear_voidites_after : (fuel : ℕ) → Card → Voidite → Option Card
  clear_voidites_after fuel card start = elim (clear_voidites_from fuel card start.next_voidite) [
    | none ↦ none
    | some card' ↦ some (write_voidite fs card' (record start { next_voidite = 0 }))
  ]

  -- The list of voidites at a position that is not 0, with its first.
  unfoldable pub clear_voidites : (fuel : ℕ) → Card → (pos : ℕ) → Option Card
  clear_voidites fuel card pos =
      let v = read_voidite stale fs card pos in
      elim (clear_voidites_after fuel card v) [
        | none ↦ none
        | some card' ↦ some (invalidate_section stale fs card' v.position)
      ]

  unfoldable pub clear_voidelle_name : (fuel : ℕ) → Card → Voidelle → Option (Card × Voidelle)
  clear_voidelle_name fuel card voidelle =
      let cleared = record voidelle { name = 0 } in
      elim (clear_voidites fuel card voidelle.name) [
        | none ↦ if voidelle.name == 0 then some (card, voidelle) else none
        | some card' ↦
            if voidelle.name == 0
            then some (card, voidelle)
            else some (write_voidelle fs card' cleared, cleared)
      ]

  -- The loop of `fill_content_voidites` and `fill_name_voidites` along the list: its last voidite, and
  -- the number of those it went over.
  unfoldable pub last_voidite :
      (fuel : ℕ) → Card → (pos : ℕ) → Voidite → (existing : ℕ) → Option (Voidite × ℕ)
  last_voidite zero card pos last existing = none
  last_voidite (suc fuel) card pos last existing =
      let v = read_voidite stale fs card pos in
      let rest = last_voidite fuel card v.next_voidite v (existing + 1) in
      if pos == 0 then some (last, existing) else rest

  -- Their second loop: `rounds` more voidites behind the last one.
  unfoldable pub append_voidites : (rounds : ℕ) → Card → Voidite → Card
  append_voidites zero card last = card
  append_voidites (suc n) card last =
      let (card', position) = get_free_void stale fs card in
      let card'' = write_voidite fs card' (record last { next_voidite = position }) in
      append_voidites n (write_voidite fs card'' (empty_voidite position)) (empty_voidite position)

  unfoldable pub fill_content_voidites :
      (fuel : ℕ) → Card → Voidelle → (count : ℕ) → Option (Card × Voidelle)
  fill_content_voidites fuel card voidelle count =
      let (card1, position) = get_free_void stale fs card in
      let given = record voidelle { content = position } in
      let card2 = write_voidite fs (write_voidelle fs card1 given) (empty_voidite position) in
      let (card', voidelle') = if voidelle.content == 0 then (card2, given) else (card, voidelle) in
      elim (last_voidite fuel card' voidelle'.content (decode_voidite stale) 0) [
        | none ↦ none
        | some (last, existing) ↦
            if leb count existing
            then some (card', voidelle')
            else some (append_voidites (count - existing) card' last, voidelle')
      ]

  -- Here the count wraps around where the list is longer.
  unfoldable pub fill_name_voidites :
      (fuel : ℕ) → Card → Voidelle → (count : ℕ) → Option (Card × Voidelle)
  fill_name_voidites fuel card voidelle count =
      let (card1, position) = get_free_void stale fs card in
      let given = record voidelle { name = position } in
      let card2 = write_voidite fs (write_voidelle fs card1 given) (empty_voidite position) in
      let (card', voidelle') = if voidelle.name == 0 then (card2, given) else (card, voidelle) in
      elim (last_voidite fuel card' voidelle'.name (decode_voidite stale) 0) [
        | none ↦ none
        | some (last, existing) ↦
            some (append_voidites ((count + 2 ^ 64 - existing) % 2 ^ 64) card' last, voidelle')
      ]

  -- The first loop of `populate_voidite_data`.
  unfoldable pub collect_sections : (rounds : ℕ) → Card → List ℕ → Card × List Voidite
  collect_sections zero card content = (card, [])
  collect_sections (suc n) card content =
      let (card', position) = get_free_void stale fs card in
      let left = drop voidite_content_size content in
      let (card'', sections) = collect_sections n card' left in
      let v : Voidite = record {
        position = position;
        next_voidite = 0;
        bytes = padded voidite_content_size (take voidite_content_size content);
      } in
      if length left == 0 then (card', v ∷ []) else (card'', v ∷ sections)

  unfoldable pub write_sections : Card → List Voidite → Card
  write_sections card [] = card
  write_sections card (v ∷ sections) = write_sections (write_voidite fs card v) sections

  -- The card, and the voidite in `first_voidite_buf`.
  unfoldable pub populate_voidite_data : Card → List ℕ → Card × Voidite
  populate_voidite_data card content =
      let rounds = (length content + (voidite_content_size - 1)) / voidite_content_size in
      let (card', sections) = collect_sections rounds card content in
      let linked = link_sections sections in
      (write_sections card' linked, first_section (decode_voidite stale) linked)

  -- The loop of `get_voidelle_name`, with `size` bytes to go: what it writes into the buffer.
  unfoldable pub name_from : (fuel : ℕ) → Card → (pos size : ℕ) → Option (List ℕ)
  name_from zero card pos size = none
  name_from (suc fuel) card pos size =
      let aligned_size = if ltb voidite_content_size size then voidite_content_size else size in
      let v = read_voidite stale fs card pos in
      let rest = name_from fuel card v.next_voidite (size - aligned_size) in
      if pos == 0
      then some []
      else (elim rest [ none ↦ none | some bytes ↦ some (take aligned_size v.bytes ++ bytes) ])

  unfoldable pub get_voidelle_name : (fuel : ℕ) → Card → Voidelle → Option (List ℕ)
  get_voidelle_name fuel card voidelle = name_from fuel card voidelle.name voidelle.name_size

  -- The voidite with an index in the list at `pos`, if there is one.
  unfoldable pub voidite_at : Card → (pos index : ℕ) → Option Voidite
  voidite_at card pos zero = if pos == 0 then none else some (read_voidite stale fs card pos)
  voidite_at card pos (suc index) =
      let rest = voidite_at card (read_voidite stale fs card pos).next_voidite index in
      if pos == 0 then none else rest

  unfoldable pub get_content_voidite_at : Card → Voidelle → (index : ℕ) → Option Voidite
  get_content_voidite_at card voidelle index = voidite_at card voidelle.content index

  unfoldable pub get_name_voidite_at : Card → Voidelle → (index : ℕ) → Option Voidite
  get_name_voidite_at card voidelle index = voidite_at card voidelle.name index

  unfoldable pub content_or_zeros : Option Voidite → List ℕ
  content_or_zeros none = replicate voidite_content_size 0
  content_or_zeros (some v) = v.bytes

  -- The loop of `read_voidelle`, with `rounds` voidites to go from `index` on. A copy that is longer
  -- than what is left of the voidite would read behind it.
  unfoldable pub read_from :
      (rounds : ℕ) → Card → Voidelle → (index first last start end size : ℕ) → List ℕ
  read_from zero card voidelle index first last start end size = []
  read_from (suc n) card voidelle index first last start end size =
      let bytes = content_or_zeros (get_content_voidite_at card voidelle index) in
      let skipped = if index == first then start else 0 in
      let asked =
        if index == last
        then (if end == 0 then size else end)
        else voidite_content_size - skipped in
      let copied = if ltb size asked then size else asked in
      take copied (drop skipped bytes)
      ++ read_from n card voidelle (index + 1) first last start end (size - copied)

  unfoldable pub read_voidelle : Card → Voidelle → (offset size : ℕ) → List ℕ
  read_voidelle card voidelle offset size =
      let first = offset / voidite_content_size in
      let last = (offset + size + (2 ^ 64 - 1)) % 2 ^ 64 / voidite_content_size in
      if has voidelle.flags voidelle_directory
      then []
      else read_from (last + 1 - first) card voidelle first first last
          (offset % voidite_content_size) ((offset + size) % voidite_content_size) size
