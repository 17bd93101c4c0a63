-- ===== src/Voidelle/Names.antt =====
-- A name that `create_voidelle` writes, and that `get_voidelle_name` reads.
use mathlib.Core.Path.{subst}
use mathlib.Core.List.{append-nil}
use veil_os.Base.{
  ℕ, zero, suc, ◌+◌, ◌*◌, ◌≤◌, ◌<◌, ◌≡◌, ◌≢◌, inl, inr, refl, ap, ◌∙◌, List, [], ◌++◌, length, take,
  drop, ltb, lt→ltb, ◌==◌, ne→==, ==→eq, ==→ne, false, Bool-cases, if◌then◌else◌, some, arith,
}
use veil_os.Emmc.{Card}
use veil_os.Voidelle.Types.{Voidom, void_size, voidite_content_size}
use veil_os.Voidelle.Disk.{get_free_void, read_voidite, write_voidite}
use veil_os.Voidelle.Storage.{IsVoid, read-write_voidite}
use veil_os.Voidelle.VoidMap.{IsMap, next_void, get_free_void-next_void}
use veil_os.Voidelle.Voidites.{link_sections, collect_sections, write_sections, name_from}
use veil_os.Voidelle.Chunks.{
  chunk, chunks, length-drop, take_more, take-drop, piece, piece-take, left, Room, Room-next,
  Room-IsVoid, chunk-IsVoidite, written-last, written-more, write_sections-before,
}

module _ (stale : List ℕ) (fs : Voidom) where
  -- A round of `get_voidelle_name` at a chunk.
  name_from-chunk :
      (fuel n next : ℕ) (content rest : List ℕ) (card : Card)
      → 0 < n
      → read_voidite stale fs card (n * void_size) ≡ chunk n next content
      → name_from stale fs fuel card next (length (drop 496 content)) ≡ some rest
      → name_from stale fs (suc fuel) card (n * void_size) (length content)
        ≡ some (take 496 content ++ rest)
  unfolding name_from piece
  name_from-chunk fuel n next content rest card some_n here e =
      let nonzero : n * void_size == 0 ≡ false = ne→== (n * void_size) 0 (omega (arith, some_n)) in
      rw (nonzero, here, left content, e)
        (ap
            (λ v. some (
              take
                (if ltb voidite_content_size (length content)
                  then voidite_content_size
                  else length content)
                v.bytes
              ++ rest))
            here
          ∙ ap (λ t. some (t ++ rest)) (piece-take content))

  name_end :
      (fuel : ℕ) (card : Card) (size : ℕ) → name_from stale fs (suc fuel) card 0 size ≡ some []
  unfolding name_from
  name_end fuel card size = refl

  -- The voids from `n` to `n + r` are the same on two cards.
  abbrev pub Agree : (n r : ℕ) → (card card' : Card) → Type 0
  Agree n r card card' =
      (k : ℕ)
      → n ≤ k
      → k ≤ n + r
      → read_voidite stale fs card' (k * void_size) ≡ read_voidite stale fs card (k * void_size)

  -- The sections of the bytes, written.
  unfoldable pub sections_card : (r n : ℕ) → List ℕ → Card → Card
  sections_card r n content card =
      write_sections stale fs card (link_sections (chunks (suc r) n content))

  -- The last chunk, written and read.
  last_chunk :
      (r fuel n : ℕ) (content : List ℕ) (card card' : Card)
      → Room fs n (suc r)
      → length (drop 496 content) ≡ 0
      → Agree n r (sections_card r n content card) card'
      → name_from stale fs (suc (suc fuel)) card' (n * void_size) (length content) ≡ some content
  unfolding sections_card
  last_chunk r fuel n content card card' room e agree =
      let at = Room-IsVoid fs n r room in
      let here =
        agree n (omega arith) (omega arith)
        ∙ ap (λ c. read_voidite stale fs c (n * void_size))
            (written-last stale fs r n content card e)
        ∙ (read-write_voidite fs card stale (chunk n 0 content)
            (chunk-IsVoidite n 0 content (omega (arith, room.reach)) (omega arith)) at).0 in
      name_from-chunk (suc fuel) n 0 content [] card' room.first here
        (name_end fuel card' (length (drop 496 content)))
      ∙ ap some (
          append-nil (take 496 content)
          ∙ take_more 496 content (omega (arith, e, length-drop 496 content)))

  pub name_from-chunks :
      (r fuel n : ℕ) (content : List ℕ) (card card' : Card)
      → r < fuel
      → Room fs n (suc r)
      → length content ≤ suc r * voidite_content_size
      → Agree n r (sections_card r n content card) card'
      → name_from stale fs (suc fuel) card' (n * void_size) (length content) ≡ some content
  unfolding sections_card
  name_from-chunks r zero n content card card' enough room le agree = absurd (omega (arith, enough))
  name_from-chunks zero (suc fuel) n content card card' enough room le agree =
      last_chunk 0 fuel n content card card' room (omega (arith, le, length-drop 496 content)) agree
  name_from-chunks (suc q) (suc fuel) n content card card' enough room le agree =
      elim (Bool-cases (length (drop 496 content) == 0)) [
        | inl hit ↦ last_chunk (suc q) fuel n content card card' room (==→eq _ 0 hit) agree
        | inr miss ↦
            let ne : length (drop 496 content) ≢ 0 = ==→ne _ 0 miss in
            let next = (n + 1) * void_size in
            let rest = drop 496 content in
            let card1 = write_voidite fs card (chunk n next content) in
            let shorter : length rest ≤ suc q * voidite_content_size =
              omega (arith, le, length-drop 496 content) in
            let later = Room-next fs n (suc q) room in
            let at = Room-IsVoid fs n (suc q) room in
            let same = written-more stale fs q n content card ne in
            let here =
              agree n (omega arith) (omega arith)
              ∙ ap (λ c. read_voidite stale fs c (n * void_size)) same
              ∙ write_sections-before stale fs q (n + 1) (n * void_size) rest card1 later shorter at
                  (omega arith)
              ∙ (read-write_voidite fs card stale (chunk n next content)
                  (chunk-IsVoidite n next content (omega (arith, room.reach))
                    (omega (arith, room.reach)))
                  at).0 in
            let all =
              name_from-chunks q fuel (n + 1) rest card1 card' (omega (arith, enough)) later shorter
                (λ k lo hi.
                  agree k (omega (arith, lo)) (omega (arith, hi))
                  ∙ ap (λ c. read_voidite stale fs c (k * void_size)) same) in
            name_from-chunk (suc fuel) n next content rest card' room.first here all
            ∙ ap some (take-drop 496 content)
      ]

  module _ (at : IsVoid fs fs.voidlet.voidmap) (small : fs.voidlet.voidmap_size ≤ 512) where
    pub taken :
        (n : ℕ) (card : Card)
        → IsMap fs card n
        → n < 8 * fs.voidlet.voidmap_size
        → ((get_free_void stale fs card).1 ≡ n * void_size)
          × IsMap fs ((get_free_void stale fs card).0) (n + 1)
    unfolding next_void
    taken n card m lt =
        let got = get_free_void-next_void stale fs card n at small m in
        let room = lt→ltb n (8 * fs.voidlet.voidmap_size) lt in
        (
          got.0 ∙ rw room refl,
          subst (λ k. IsMap fs ((get_free_void stale fs card).0) k) (rw room refl) (got.1),
        )

    pub collect_sections-chunks :
        (r n : ℕ) (content : List ℕ) (card : Card)
        → IsMap fs card n
        → n + r ≤ 8 * fs.voidlet.voidmap_size
        → (collect_sections stale fs r card content).1 ≡ chunks r n content
    unfolding collect_sections chunks
    collect_sections-chunks zero n content card m le = refl
    collect_sections-chunks (suc r) n content card m le =
        let (position, m') = taken n card m (omega (arith, le)) in
        let later =
          collect_sections-chunks r (n + 1) (drop 496 content) ((get_free_void stale fs card).0) m'
            (omega (arith, le)) in
        elim (Bool-cases (length (drop 496 content) == 0)) [
          | inl hit ↦ rw (hit, position) refl
          | inr miss ↦ rw (miss, position, later) refl
        ]
