-- ===== src/Voidelle/Chunks.antt =====
-- The voidites that `populate_voidite_data` writes.
use veil_os.Base.{
  ℕ, zero, suc, ◌+◌, ◌-◌, ◌*◌, ◌/◌, ◌%◌, ◌^◌, ◌≤◌, ◌<◌, ◌≡◌, ◌≢◌, inl, inr, refl, ap, sym, ◌∙◌,
  List, [], ◌∷◌, ◌++◌, length, take, drop, ltb, ltb→lt, ltb→le, ◌==◌, ne→==, eq→==, ==→eq, ==→ne,
  Bool-cases, if◌then◌else◌, arith,
}
use veil_os.Emmc.{Card}
use veil_os.Voidelle.Bytes.{padded, length-padded, take-padded}
use veil_os.Voidelle.Types.{Voidite, Voidom, void_size, voidite_content_size, decode_voidite}
use veil_os.Voidelle.Disk.{read_voidite, write_voidite}
use veil_os.Voidelle.Fields.{IsVoidite}
use veil_os.Voidelle.Storage.{IsVoid, read-write_voidite}
use veil_os.Voidelle.Voidites.{link_sections, write_sections}

-- The voidite of the first bytes, in void `n`.
abbrev pub chunk : (n next : ℕ) → List ℕ → Voidite
chunk n next content = record {
  position = n * void_size;
  next_voidite = next;
  bytes = padded voidite_content_size (take voidite_content_size content);
}

-- The sections of the bytes in the voids from `n` on, before they are linked.
unfoldable pub chunks : (rounds n : ℕ) → List ℕ → List Voidite
chunks zero n content = []
chunks (suc r) n content =
    let left = drop voidite_content_size content in
    let rest = chunks r (n + 1) left in chunk n 0 content ∷ (if length left == 0 then [] else rest)

pub length-drop : (k : ℕ) (xs : List ℕ) → length (drop k xs) ≡ length xs - k
length-drop zero xs = omega arith
length-drop (suc k) [] = omega arith
length-drop (suc k) (x ∷ xs) = length-drop k xs ∙ omega arith

pub length-take : (k : ℕ) (xs : List ℕ) → k ≤ length xs → length (take k xs) ≡ k
length-take zero xs le = refl
length-take (suc k) [] le = absurd (omega arith)
length-take (suc k) (x ∷ xs) le = ap suc (length-take k xs (omega arith))

pub take_more : (k : ℕ) (xs : List ℕ) → length xs ≤ k → take k xs ≡ xs
take_more zero [] le = refl
take_more (suc k) [] le = refl
take_more zero (x ∷ xs) le = absurd (omega arith)
take_more (suc k) (x ∷ xs) le = ap (λ r. x ∷ r) (take_more k xs (omega arith))

pub take-drop : (k : ℕ) (xs : List ℕ) → take k xs ++ drop k xs ≡ xs
take-drop zero xs = refl
take-drop (suc k) [] = refl
take-drop (suc k) (x ∷ xs) = ap (λ r. x ∷ r) (take-drop k xs)

-- What `get_voidelle_name` takes of a voidite.
unfoldable pub piece : List ℕ → List ℕ
piece content =
    let size = length content in
    take (if ltb voidite_content_size size then voidite_content_size else size)
      (padded voidite_content_size (take voidite_content_size content))

pub piece-take : (content : List ℕ) → piece content ≡ take voidite_content_size content
unfolding piece
piece-take content = elim (Bool-cases (ltb voidite_content_size (length content))) [
  | inl more ↦
      let size = length-take 496 content (omega (arith, ltb→lt 496 (length content) more)) in
      rw more (
        ap (λ k. take k (padded 496 (take 496 content))) (sym size)
        ∙ take-padded 496 (take 496 content) (omega (arith, size)))
  | inr last ↦
      let le = ltb→le 496 (length content) last in
      let whole = take_more 496 content le in rw (last, whole) (take-padded 496 content le)
]

pub left :
    (content : List ℕ)
    → (length content
        - (if ltb voidite_content_size (length content)
            then voidite_content_size
            else length content))
      ≡ length (drop 496 content)
left content = elim (Bool-cases (ltb voidite_content_size (length content))) [
  | inl more ↦ rw more (sym (length-drop 496 content))
  | inr last ↦ rw last (omega (arith, length-drop 496 content, ltb→le 496 (length content) last))
]

pub link-last :
    (r n : ℕ) (content : List ℕ)
    → length (drop 496 content) ≡ 0
    → link_sections (chunks (suc r) n content) ≡ chunk n 0 content ∷ []
unfolding link_sections chunks
link-last r n content e = rw (eq→== (length (drop 496 content)) 0 e) refl

pub link-more :
    (r n : ℕ) (content : List ℕ)
    → length (drop 496 content) ≢ 0
    → link_sections (chunks (suc (suc r)) n content)
      ≡ chunk n ((n + 1) * void_size) content
        ∷ link_sections (chunks (suc r) (n + 1) (drop 496 content))
unfolding link_sections chunks
link-more r n content ne = rw (ne→== (length (drop 496 content)) 0 ne) refl

-- Voids of the partition, `rounds` of them from `n` on.
pub record Room (fs : Voidom) (n rounds : ℕ) : Type 0 where
  pub aligned : fs.offset % 512 ≡ 0
  pub first : 0 < n
  pub reach : fs.offset / 512 + n + rounds < 2 ^ 32

pub Room-next : (fs : Voidom) (n r : ℕ) → Room fs n (suc r) → Room fs (n + 1) r
Room-next fs n r room = record {
  aligned = room.aligned;
  first = omega arith;
  reach = omega (arith, room.reach);
}

pub Room-IsVoid : (fs : Voidom) (n r : ℕ) → Room fs n (suc r) → IsVoid fs (n * void_size)
Room-IsVoid fs n r room = record {
  aligned = omega (arith, room.aligned);
  reach = omega (arith, room.aligned, room.reach);
}

pub chunk-IsVoidite :
    (n next : ℕ) (content : List ℕ) → n < 2 ^ 32 → next < 2 ^ 64 → IsVoidite (chunk n next content)
chunk-IsVoidite n next content lt next_lt = record {
  position_lt = omega (arith, lt);
  next_lt = next_lt;
  full = length-padded 496 (take 496 content);
}

module _ (stale : List ℕ) (fs : Voidom) where
  pub one-before :
      (n r next p : ℕ) (content : List ℕ) (card : Card)
      → Room fs n (suc r)
      → next < 2 ^ 64
      → IsVoid fs p
      → p < n * void_size
      → read_voidite stale fs (write_voidite fs card (chunk n next content)) p
        ≡ read_voidite stale fs card p
  unfolding read_voidite
  one-before n r next p content card room next_lt at lt =
      let v = chunk-IsVoidite n next content (omega (arith, room.reach)) next_lt in
      let kept =
        (read-write_voidite fs card stale (chunk n next content) v (Room-IsVoid fs n r room)).1 in
      ap decode_voidite (kept p void_size at (omega (arith, lt)))

  pub written-last :
      (r n : ℕ) (content : List ℕ) (card : Card)
      → length (drop 496 content) ≡ 0
      → write_sections stale fs card (link_sections (chunks (suc r) n content))
        ≡ write_voidite fs card (chunk n 0 content)
  unfolding write_sections
  written-last r n content card e = ap (write_sections stale fs card) (link-last r n content e)

  pub written-more :
      (r n : ℕ) (content : List ℕ) (card : Card)
      → length (drop 496 content) ≢ 0
      → write_sections stale fs card (link_sections (chunks (suc (suc r)) n content))
        ≡ write_sections stale fs
            (write_voidite fs card (chunk n ((n + 1) * void_size) content))
            (link_sections (chunks (suc r) (n + 1) (drop 496 content)))
  unfolding write_sections
  written-more r n content card ne = ap (write_sections stale fs card) (link-more r n content ne)

  -- Sections that are written behind a void do not change it.
  pub write_sections-before :
      (r n p : ℕ) (content : List ℕ) (card : Card)
      → Room fs n (suc r)
      → length content ≤ suc r * voidite_content_size
      → IsVoid fs p
      → p < n * void_size
      → read_voidite stale fs
          (write_sections stale fs card (link_sections (chunks (suc r) n content)))
          p
        ≡ read_voidite stale fs card p
  write_sections-before zero n p content card room le at lt =
      ap (λ c. read_voidite stale fs c p)
        (written-last 0 n content card (omega (arith, le, length-drop 496 content)))
      ∙ one-before n 0 0 p content card room (omega arith) at lt
  write_sections-before (suc q) n p content card room le at lt =
      elim (Bool-cases (length (drop 496 content) == 0)) [
        | inl hit ↦
            ap (λ c. read_voidite stale fs c p)
              (written-last (suc q) n content card (==→eq _ 0 hit))
            ∙ one-before n (suc q) 0 p content card room (omega arith) at lt
        | inr miss ↦
            ap (λ c. read_voidite stale fs c p) (written-more q n content card (==→ne _ 0 miss))
            ∙ write_sections-before q (n + 1) p (drop 496 content)
                (write_voidite fs card (chunk n ((n + 1) * void_size) content))
                (Room-next fs n (suc q) room) (omega (arith, le, length-drop 496 content)) at
                (omega (arith, lt))
            ∙ one-before n (suc q) ((n + 1) * void_size) p content card room
                (omega (arith, room.reach)) at lt
      ]
