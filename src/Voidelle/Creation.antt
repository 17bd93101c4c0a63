-- ===== src/Voidelle/Creation.antt =====
-- `create_voidelle`, and the name that is then read.
use mathlib.Core.Path.{subst}
use veil_os.Base.{
  ℕ, zero, suc, ◌+◌, ◌-◌, ◌*◌, ◌/◌, ◌^◌, ◌≤◌, ◌<◌, ◌≡◌, refl, ap, sym, ◌∙◌, List, [], ◌∷◌, ◌++◌,
  length, length-append, drop, le→ltb, ◌==◌, ==→eq, ==→ne, true, not, Bool-cases, inl, inr,
  if◌then◌else◌, some, arith,
}
use veil_os.Emmc.{Card}
use veil_os.Base.{not}
use veil_os.Voidelle.Voidites.{name_from}
use veil_os.Voidelle.Types.{
  Voidelle, Voidite, Voidom, void_size, voidite_content_size, encode_voidelle, decode_voidite,
}
use veil_os.Voidelle.Disk.{
  get_free_void, read_voidite, read_voidelle_at, write_void, write_voidelle,
}
use veil_os.Voidelle.Fields.{IsVoidelle, length-encode_voidelle}
use veil_os.Voidelle.Storage.{IsVoid, read-write_voidelle}
use veil_os.Voidelle.VoidMap.{IsMap}
use veil_os.Voidelle.Voidites.{
  link_sections, first_section, collect_sections, write_sections, populate_voidite_data,
  get_voidelle_name, name_from,
}
use veil_os.Voidelle.Chunks.{chunks, length-drop, Room, Room-IsVoid, link-last, link-more}
use veil_os.Voidelle.Names.{Agree, sections_card, name_from-chunks, taken, collect_sections-chunks}
use veil_os.Voidelle.Directory.{create_voidelle, success, unknown_error}

first-chunks :
    (stale : Voidite) (r n : ℕ) (content : List ℕ)
    → length content ≤ suc r * voidite_content_size
    → (first_section stale (link_sections (chunks (suc r) n content))).position ≡ n * void_size
unfolding first_section
first-chunks stale zero n content le =
    ap (λ ss. (first_section stale ss).position)
      (link-last 0 n content (omega (arith, le, length-drop 496 content)))
first-chunks stale (suc q) n content le = elim (Bool-cases (length (drop 496 content) == 0)) [
  | inl hit ↦
      ap (λ ss. (first_section stale ss).position) (link-last (suc q) n content (==→eq _ 0 hit))
  | inr miss ↦ ap (λ ss. (first_section stale ss).position) (link-more q n content (==→ne _ 0 miss))
]

-- The voids that the name and its terminator take.
abbrev pub name_voids : List ℕ → ℕ
name_voids name = (length name + 1 + (voidite_content_size - 1)) / voidite_content_size

module _ (stale : List ℕ) (fs : Voidom) (card : Card) (n : ℕ) (name : List ℕ)
    (at : IsVoid fs fs.voidlet.voidmap) (small : fs.voidlet.voidmap_size ≤ 512)
    (m : IsMap fs card n) (le : n + (name_voids name + 1) ≤ 8 * fs.voidlet.voidmap_size)
    (room : Room fs n (name_voids name + 1)) where
  content : List ℕ
  content = name ++ (0 ∷ [])

  card1 : Card
  card1 = (get_free_void stale fs card).0

  card2 : Card
  card2 =
      (collect_sections stale fs
        ((length content + (voidite_content_size - 1)) / voidite_content_size) card1 content).0

  populated : Card × Voidite
  populated = populate_voidite_data stale fs card1 content

  content_size : length content ≡ length name + 1
  unfolding content
  content_size = length-append name (0 ∷ [])

  last : ℕ
  last = name_voids name - 1

  voids_eq : name_voids name ≡ suc last
  unfolding last
  voids_eq = omega arith

  sections_eq :
      (collect_sections stale fs
        ((length content + (voidite_content_size - 1)) / voidite_content_size)
        card1
        content).1
      ≡ chunks (suc last) (n + 1) content
  unfolding card1
  sections_eq =
      ap
        (λ k.
          (collect_sections stale fs ((k + (voidite_content_size - 1)) / voidite_content_size) card1
            content).1)
        content_size
      ∙ collect_sections-chunks stale fs at small (name_voids name) (n + 1) content card1
          ((taken stale fs at small n card m (omega (arith, le))).1) (omega (arith, le))
      ∙ ap (λ k. chunks k (n + 1) content) voids_eq

  fits : length content ≤ suc last * voidite_content_size
  fits = omega (arith, content_size, voids_eq)

  populated-card : (populated.0) ≡ sections_card stale fs last (n + 1) content card2
  unfolding populated populate_voidite_data sections_card card2
  populated-card = ap (λ ss. write_sections stale fs card2 (link_sections ss)) sections_eq

  populated-first : (populated.1).position ≡ (n + 1) * void_size
  unfolding populated populate_voidite_data
  populated-first =
      ap (λ ss. (first_section (decode_voidite stale) (link_sections ss)).position) sections_eq
      ∙ first-chunks (decode_voidite stale) last (n + 1) content fits

  given : (get_free_void stale fs card).1 ≡ n * void_size
  given = (taken stale fs at small n card m (omega (arith, le))).0

  module _ (flags owner_id owner_perm other_perm : ℕ) (flags_lt : flags < 2 ^ 64)
      (owner_lt : owner_id < 2 ^ 64) where
    voidelle : Voidelle
    voidelle = (create_voidelle stale fs card name flags owner_id owner_perm other_perm).2

    voidelle-IsVoidelle : IsVoidelle voidelle
    unfolding voidelle create_voidelle populated card1 content
    voidelle-IsVoidelle = record {
      header_size = refl;
      flags_lt = flags_lt;
      name_lt = omega (arith, populated-first, room.reach);
      name_size_lt = omega (arith, room.reach);
      content_lt = omega arith;
      content_size_lt = omega arith;
      next_lt = omega arith;
      position_lt = omega (arith, given, room.reach);
      creation_lt = omega arith;
      modification_lt = omega arith;
      access_lt = omega arith;
      owner_lt = owner_lt;
    }

    created-card :
        (create_voidelle stale fs card name flags owner_id owner_perm other_perm).1
        ≡ write_voidelle fs (populated.0) voidelle
    unfolding voidelle create_voidelle populated card1 content write_voidelle
    created-card = refl

    voidelle-position : voidelle.position ≡ n * void_size
    unfolding voidelle create_voidelle
    voidelle-position = given

    voidelle-name : voidelle.name ≡ (n + 1) * void_size
    unfolding voidelle create_voidelle populated card1 content
    voidelle-name = populated-first

    voidelle-name_size : voidelle.name_size ≡ length content
    unfolding voidelle create_voidelle
    voidelle-name_size = sym content_size

    voidelle-IsVoid : IsVoid fs voidelle.position
    voidelle-IsVoid = subst (IsVoid fs) (sym voidelle-position) (
        Room-IsVoid fs n (name_voids name) (record {
          aligned = room.aligned;
          first = room.first;
          reach = omega (arith, room.reach);
        }))

    is_written : (c : Card) (p : ℕ) → (write_void fs c p (encode_voidelle voidelle)).1 ≡ true
    unfolding write_void
    is_written c p =
        rw
          (le→ltb void_size (length (encode_voidelle voidelle))
            (omega (arith, length-encode_voidelle voidelle voidelle-IsVoidelle)))
          refl

    created-success :
        (create_voidelle stale fs card name flags owner_id owner_perm other_perm).0 ≡ success
    unfolding create_voidelle voidelle populated card1 content
    created-success =
        ap (λ w. if not w then unknown_error else success)
          (is_written (populated.0) ((get_free_void stale fs card).1))

    created-Agree :
        Agree stale fs
          (n + 1)
          last
          (sections_card stale fs last (n + 1) content card2)
          (write_voidelle fs (populated.0) voidelle)
    unfolding read_voidite
    created-Agree k lo hi =
        let storage =
          read-write_voidelle fs (populated.0) stale voidelle voidelle-IsVoidelle voidelle-IsVoid in
        let place : IsVoid fs (k * void_size) = record {
          aligned = omega (arith, room.aligned);
          reach = omega (arith, room.aligned, room.reach, voids_eq, hi);
        } in
        ap decode_voidite
          (storage.1 (k * void_size) void_size place (omega (arith, voidelle-position, lo)))
        ∙ ap (λ c. read_voidite stale fs c (k * void_size)) populated-card

    created-get_name :
        (fuel : ℕ)
        → name_voids name ≤ fuel
        → get_voidelle_name stale fs (suc fuel) (write_voidelle fs (populated.0) voidelle) voidelle
          ≡ some content
    unfolding get_voidelle_name
    created-get_name fuel enough =
        let final = write_voidelle fs (populated.0) voidelle in
        let later : Room fs (n + 1) (suc last) = record {
          aligned = room.aligned;
          first = omega arith;
          reach = omega (arith, room.reach, voids_eq);
        } in
        ap (λ p. name_from stale fs (suc fuel) final p voidelle.name_size) voidelle-name
        ∙ ap (name_from stale fs (suc fuel) final ((n + 1) * void_size)) voidelle-name_size
        ∙ name_from-chunks stale fs last fuel (n + 1) content card2 final
            (omega (arith, voids_eq, enough)) later fits created-Agree

    -- On a volume whose map starts at a sector, fits in one and has its used voids in front, with
    -- room for the name and the voidelle, and with flags and an owner of 64 bits,
    -- `create_voidelle` succeeds: the voidelle is then read from its position, and
    -- `get_voidelle_name`, with fuel for the voids of the name, gives the name with its
    -- terminator.
    pub create_voidelle-name :
        (fuel : ℕ)
        → name_voids name ≤ fuel
        → let r = create_voidelle stale fs card name flags owner_id owner_perm other_perm in
          (r.0 ≡ success)
          × (read_voidelle_at stale fs (r.1) (r.2.position) ≡ r.2)
          × (get_voidelle_name stale fs (suc fuel) (r.1) (r.2) ≡ some (name ++ (0 ∷ [])))
    unfolding voidelle content
    create_voidelle-name fuel enough = (
      created-success,
      ap (λ c. read_voidelle_at stale fs c voidelle.position) created-card
          ∙ (read-write_voidelle fs (populated.0) stale voidelle voidelle-IsVoidelle
              voidelle-IsVoid).0,
      ap (λ c. get_voidelle_name stale fs (suc fuel) c voidelle) created-card
          ∙ created-get_name fuel enough,
    )
