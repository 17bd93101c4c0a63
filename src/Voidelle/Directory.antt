-- ===== src/Voidelle/Directory.antt =====
-- kernel/fs/voidelle.c: the directories, which are lists of voidelles, and the set-up of a partition.
-- A loop along a list is on fuel; `none` says that it ran out.
use veil_os.Base.{
  ℕ, zero, suc, ◌+◌, ◌-◌, ◌/◌, ◌%◌, Bool, true, false, not, has, Option, none, some, List, [], ◌∷◌,
  ◌++◌, length, replicate, ◌==◌, if◌then◌else◌,
}
use veil_os.Emmc.{Card}
use veil_os.Voidelle.Types.{
  Voidelle, Voidlet, Voidom, void_size, voidelle_directory, decode_voidelle, encode_voidelle,
  encode_voidlet,
}
use veil_os.Voidelle.Disk.{
  get_free_void, invalidate_section, disk_size, write_void, read_voidelle_at, write_voidelle,
}
use veil_os.Voidelle.Voidites.{clear_voidites, clear_voidelle_name, populate_voidite_data}

abbrev pub success : ℕ
success = 0

abbrev pub unknown_error : ℕ
unknown_error = 2

-- `VELLE` and `VOID`
abbrev pub voidelle_header : List ℕ
voidelle_header = b'V' ∷ b'E' ∷ b'L' ∷ b'L' ∷ b'E' ∷ []

abbrev pub voidlet_header : List ℕ
voidlet_header = b'V' ∷ b'O' ∷ b'I' ∷ b'D' ∷ []

module _ (stale : List ℕ) (fs : Voidom) where
  -- The loop of `get_previous_link_position` and `remove_voidelle`: the neighbour whose link is the
  -- position sought, or else the last one.
  unfoldable pub find_neighbour : (fuel : ℕ) → Card → (pos sought : ℕ) → Voidelle → Option Voidelle
  find_neighbour zero card pos sought neighbour = none
  find_neighbour (suc fuel) card pos sought neighbour =
      let v = read_voidelle_at stale fs card pos in
      let rest = find_neighbour fuel card v.next sought v in
      if pos == 0 then some neighbour else if v.next == sought then some v else rest

  unfoldable pub get_previous_link_position :
      (fuel : ℕ) → Card → (parent voidelle : Voidelle) → Option ℕ
  get_previous_link_position fuel card parent voidelle =
      elim (find_neighbour fuel card parent.content voidelle.position (decode_voidelle stale)) [
        | none ↦ if parent.content == voidelle.position then some parent.content else none
        | some neighbour ↦
            if parent.content == voidelle.position
            then some parent.content
            else if not (neighbour.next == voidelle.position)
            then some 0
            else some neighbour.position
      ]

  unfoldable pub invalidate_if : Bool → Card → (pos : ℕ) → Card
  invalidate_if invalidate card pos =
      if invalidate then invalidate_section stale fs card pos else card

  -- What `remove_voidelle` does with the neighbour that was found. Where the voidelle is the first of
  -- its parent none is looked for.
  unfoldable pub unlink_voidelle :
      Card
      → (parent voidelle : Voidelle) → (invalidate : Bool) → Option Voidelle
      → Option (Card × Voidelle × Bool)
  unlink_voidelle card parent voidelle invalidate none =
      let parent' = record parent { content = voidelle.next } in
      let unlinked = write_voidelle fs card parent' in
      if parent.content == voidelle.position
      then some (invalidate_if invalidate unlinked voidelle.position, parent', true)
      else none
  unlink_voidelle card parent voidelle invalidate (some neighbour) =
      let parent' = record parent { content = voidelle.next } in
      let unlinked = write_voidelle fs card parent' in
      let card' = write_voidelle fs card (record neighbour { next = voidelle.next }) in
      if parent.content == voidelle.position
      then some (invalidate_if invalidate unlinked voidelle.position, parent', true)
      else if not (neighbour.next == voidelle.position)
      then some (card, parent, false)
      else some (invalidate_if invalidate card' voidelle.position, parent, true)

  -- The card, the parent, and whether the voidelle was there.
  unfoldable pub remove_voidelle :
      (fuel : ℕ)
      → Card
      → (parent voidelle : Voidelle) → (invalidate : Bool) → Option (Card × Voidelle × Bool)
  remove_voidelle fuel card parent voidelle invalidate =
      unlink_voidelle card parent voidelle invalidate
        (find_neighbour fuel card parent.content voidelle.position (decode_voidelle stale))

  -- The card, the parent and the voidelle.
  unfoldable pub add_voidelle : Card → (parent voidelle : Voidelle) → Card × Voidelle × Voidelle
  add_voidelle card parent voidelle =
      let voidelle' = record voidelle { next = parent.content } in
      let parent' = record parent { content = voidelle.position } in
      (write_voidelle fs (write_voidelle fs card voidelle') parent', parent', voidelle')

  -- The loop of `add_voidelle_with_check`: the last neighbour, or `none` where the voidelle is there.
  unfoldable pub last_neighbour :
      (fuel : ℕ) → Card → (pos sought : ℕ) → Voidelle → Option (Option Voidelle)
  last_neighbour zero card pos sought neighbour = none
  last_neighbour (suc fuel) card pos sought neighbour =
      let v = read_voidelle_at stale fs card pos in
      let rest = last_neighbour fuel card v.next sought v in
      if pos == 0 then some (some neighbour) else if pos == sought then some none else rest

  unfoldable pub add_voidelle_with_check :
      (fuel : ℕ) → Card → (parent voidelle : Voidelle) → Option (Card × Voidelle)
  add_voidelle_with_check fuel card parent voidelle =
      let parent' = record parent { content = voidelle.position } in
      let first : Card × Voidelle = (write_voidelle fs card parent', parent') in
      elim (last_neighbour fuel card parent.content voidelle.position (decode_voidelle stale)) [
        | none ↦ if parent.content == 0 then some first else none
        | some none ↦ if parent.content == 0 then some first else some (card, parent)
        | some (some neighbour) ↦
            if parent.content == 0
            then some first
            else some
                (write_voidelle fs card (record neighbour { next = voidelle.position }), parent)
      ]

  -- The card and the two voidelles.
  unfoldable pub swap_voidelles :
      Card → (first second : Voidelle) → (swaps : ℕ) → Card × Voidelle × Voidelle
  swap_voidelles card first second swaps =
      let names = has swaps 1 in
      let contents = has swaps 2 in
      let first' : Voidelle = record first {
        position = second.position;
        next = second.next;
        name = if names then second.name else first.name;
        name_size = if names then second.name_size else first.name_size;
        content = if contents then second.content else first.content;
        content_size = if contents then second.content_size else first.content_size;
      } in
      let second' : Voidelle = record second {
        position = first.position;
        next = first.next;
        name = if names then first.name else second.name;
        name_size = if names then first.name_size else second.name_size;
        content = if contents then first.content else second.content;
        content_size = if contents then first.content_size else second.content_size;
      } in
      (write_voidelle fs (write_voidelle fs card first') second', first', second')

  unfoldable mutual
    pub clear_voidelle_content : (fuel : ℕ) → Card → Voidelle → Option (Card × Voidelle)
    clear_voidelle_content zero card voidelle = none
    clear_voidelle_content (suc fuel) card voidelle =
        let of_directory = clear_children fuel card voidelle voidelle.content in
        let of_file : Option (Card × Voidelle) =
          elim (clear_voidites stale fs fuel card voidelle.content) [
            | none ↦ none
            | some card' ↦ some (card', voidelle)
          ] in
        let cleared = if has voidelle.flags voidelle_directory then of_directory else of_file in
        if voidelle.content == 0 then some (card, voidelle) else (elim cleared [
          | none ↦ none
          | some (card', voidelle') ↦ some (
            write_voidelle fs card' (record voidelle' { content = 0 }),
            record voidelle' { content = 0 },
          )
        ])

    pub clear_children :
        (fuel : ℕ) → Card → (parent : Voidelle) → (pos : ℕ) → Option (Card × Voidelle)
    clear_children zero card parent pos = none
    clear_children (suc fuel) card parent pos =
        let child = read_voidelle_at stale fs card pos in
        let rest : Option (Card × Voidelle) = elim (remove_voidelle fuel card parent child true) [
          | none ↦ none
          | some (card1, parent', found) ↦ elim (clear_voidelle_content fuel card1 child) [
            | none ↦ none
            | some (card2, child') ↦ elim (clear_voidelle_name stale fs fuel card2 child') [
              | none ↦ none
              | some (card3, child'') ↦ clear_children fuel card3 parent' child''.next
            ]
          ]
        ] in
        if pos == 0 then some (card, parent) else rest

  -- `create_voidelle` without its `buf`: the error, the card and the voidelle.
  unfoldable pub create_voidelle :
      Card → (name : List ℕ) → (flags owner_id owner_perm other_perm : ℕ) → ℕ × Card × Voidelle
  create_voidelle card name flags owner_id owner_perm other_perm =
      let (card1, position) = get_free_void stale fs card in
      let (card2, name_voidite) = populate_voidite_data stale fs card1 (name ++ (0 ∷ [])) in
      let voidelle : Voidelle = record {
        header = voidelle_header;
        flags = flags;
        name = name_voidite.position;
        name_size = length name + 1;
        content = 0;
        content_size = 0;
        next = 0;
        position = position;
        creation_seconds = 0;
        modification_seconds = 0;
        access_seconds = 0;
        owner_id = owner_id;
        other_permission = other_perm;
        owner_permission = owner_perm;
      } in
      let (card3, written) = write_void fs card2 position (encode_voidelle voidelle) in
      (if not written then unknown_error else success, card3, voidelle)

  -- The loop of `create_voidlet` over the sectors of the map.
  unfoldable pub clear_map : (rounds : ℕ) → Card → (seek : ℕ) → Card
  clear_map zero card seek = card
  clear_map (suc n) card seek =
      clear_map n ((write_void fs card seek (replicate void_size 0)).0) (seek + void_size)

  -- The error, the card and the voidlet of the voidom.
  unfoldable pub create_voidlet : Card → ℕ × Card × Voidlet
  create_voidlet card =
      let voidmap_size = (disk_size fs / void_size + 7) / 8 in
      let bitmap_offset = disk_size fs - voidmap_size in
      let voidmap = bitmap_offset - bitmap_offset % void_size in
      let voidlet : Voidlet = record {
        header = voidlet_header;
        void_size = void_size;
        voidmap_size = voidmap_size;
        voidmap = voidmap;
      } in
      let (card1, written) = write_void fs card 0 (encode_voidlet voidlet) in
      let card2 = clear_map ((voidmap_size + (void_size - 1)) / void_size) card1 voidmap in
      if not written
      then (unknown_error, card1, fs.voidlet)
      else (success, (write_void fs card2 voidmap (0x80 ∷ [])).0, voidlet)

  -- `VoidelleFSInit`, for a partition that `fs` has the place of.
  unfoldable pub voidelle_fs_init : Card → Voidom
  voidelle_fs_init card = record fs { root = read_voidelle_at stale fs card void_size }
