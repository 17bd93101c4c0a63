-- ===== src/Voidelle/Reading.antt =====
-- `read_voidelle` gives the bytes of the contents.
use mathlib.Core.Path.{subst}
use veil_os.Base.{
  ℕ, zero, suc, ◌+◌, ◌-◌, ◌*◌, ◌/◌, ◌%◌, ◌^◌, ◌≤◌, ◌<◌, ◌≡◌, ◌≢◌, refl, ap, sym, ◌∙◌, List, [], ◌∷◌,
  ◌++◌, length, length-append, take, drop, get_or, has, ltb, le→ltb, ltb→lt, ltb→le, ◌==◌, ne→==,
  ==→ne, ==_refl, false, Bool-cases, inl, inr, if◌then◌else◌, arith,
}
use veil_os.Emmc.{Card}
use veil_os.Voidelle.Types.{Voidelle, Voidom, voidite_content_size, voidelle_directory}
use veil_os.Voidelle.Voidites.{content_or_zeros, get_content_voidite_at, read_from, read_voidelle}
use veil_os.Voidelle.Chunks.{length-drop, length-take}

get_or-front : (xs ys : List ℕ) (i : ℕ) → i < length xs → get_or (xs ++ ys) i 0 ≡ get_or xs i 0
get_or-front [] ys i lt = absurd (omega arith)
get_or-front (x ∷ xs) ys zero lt = refl
get_or-front (x ∷ xs) ys (suc i) lt = get_or-front xs ys i (omega arith)

get_or-behind : (xs ys : List ℕ) (i : ℕ) → get_or (xs ++ ys) (length xs + i) 0 ≡ get_or ys i 0
get_or-behind [] ys i = ap (λ k. get_or ys k 0) (omega arith)
get_or-behind (x ∷ xs) ys i =
    let e : suc (length xs) + i ≡ suc (length xs + i) = omega arith in
    ap (λ k. get_or (x ∷ xs ++ ys) k 0) e ∙ get_or-behind xs ys i

get_or-take : (k : ℕ) (xs : List ℕ) (i : ℕ) → i < k → get_or (take k xs) i 0 ≡ get_or xs i 0
get_or-take zero xs i lt = absurd (omega arith)
get_or-take (suc k) [] i lt = refl
get_or-take (suc k) (x ∷ xs) zero lt = refl
get_or-take (suc k) (x ∷ xs) (suc i) lt = get_or-take k xs i (omega arith)

get_or-drop : (k : ℕ) (xs : List ℕ) (i : ℕ) → get_or (drop k xs) i 0 ≡ get_or xs (k + i) 0
get_or-drop zero xs i = ap (λ j. get_or xs j 0) (omega arith)
get_or-drop (suc k) [] i = refl
get_or-drop (suc k) (x ∷ xs) i =
    let e : suc k + i ≡ suc (k + i) = omega arith in
    get_or-drop k xs i ∙ sym (ap (λ j. get_or (x ∷ xs) j 0) e)

module _ (stale : List ℕ) (fs : Voidom) (card : Card) (voidelle : Voidelle) where
  -- The bytes of the voidite with an index, zeros where there is none.
  abbrev pub part : ℕ → List ℕ
  part index = content_or_zeros stale fs (get_content_voidite_at stale fs card voidelle index)

  -- A byte of the contents.
  abbrev pub content_byte : ℕ → ℕ
  content_byte k = get_or (part (k / voidite_content_size)) (k % voidite_content_size) 0

  -- A list holds the `size` bytes of the contents from `pos` on.
  abbrev pub Holds : List ℕ → (pos size : ℕ) → Type 0
  Holds bytes pos size =
      (length bytes ≡ size) × ((i : ℕ) → i < size → get_or bytes i 0 ≡ content_byte (pos + i))

  module _ (whole : (index : ℕ) → length (part index) ≡ voidite_content_size) where
    -- A copy out of one voidite, and the rest behind it.
    Holds-copy :
        (index skipped copied size : ℕ) (rest : List ℕ)
        → skipped + copied ≤ voidite_content_size
        → copied ≤ size
        → Holds rest (index * voidite_content_size + skipped + copied) (size - copied)
        → Holds
            (take copied (drop skipped (part index)) ++ rest)
            (index * voidite_content_size + skipped)
            size
    Holds-copy index skipped copied size rest le small holds =
        let piece = take copied (drop skipped (part index)) in
        let there : length piece ≡ copied =
          length-take copied (drop skipped (part index))
            (omega (arith, length-drop skipped (part index), whole index)) in
        (
          omega (arith, length-append piece rest, there, holds.0),
          λ i lt. elim (Bool-cases (ltb i copied)) [
            | inl front ↦
                let within = ltb→lt i copied front in
                let block : index
                    ≡ (index * voidite_content_size + skipped + i) / voidite_content_size =
                  omega (arith, within, le) in
                let at : skipped + i
                    ≡ (index * voidite_content_size + skipped + i) % voidite_content_size =
                  omega (arith, within, le) in
                get_or-front piece rest i (omega (arith, there, within))
                ∙ get_or-take copied (drop skipped (part index)) i within
                ∙ get_or-drop skipped (part index) i
                ∙ ap (λ b. get_or (part b) (skipped + i) 0) block
                ∙ ap
                    (λ j.
                      get_or
                        (part ((index * voidite_content_size + skipped + i) / voidite_content_size))
                        j 0)
                    at
            | inr behind ↦
                let past = ltb→le i copied behind in
                let split : i ≡ length piece + (i - copied) = omega (arith, there, past) in
                let same : index * voidite_content_size + skipped + copied + (i - copied)
                    ≡ index * voidite_content_size + skipped + i =
                  omega (arith, past) in
                ap (λ j. get_or (piece ++ rest) j 0) split
                ∙ get_or-behind piece rest (i - copied)
                ∙ holds.1 (i - copied) (omega (arith, lt, past))
                ∙ ap content_byte same
          ],
        )

    module _ (first last start : ℕ) (start_lt : start < voidite_content_size) (size0 : ℕ) where
      -- The end of what is read.
      end_of : ℕ
      end_of = first * voidite_content_size + start + size0

      -- How far into a voidite the copy starts.
      skip : ℕ → ℕ
      skip index = if index == first then start else 0

      asked_of : (index size : ℕ) → ℕ
      asked_of index size =
          if index == last
          then (if end_of % voidite_content_size == 0 then size else end_of % voidite_content_size)
          else voidite_content_size - skip index

      copied_of : (index size : ℕ) → ℕ
      copied_of index size = if ltb size (asked_of index size) then size else asked_of index size

      end_eq : end_of ≡ first * voidite_content_size + start + size0
      unfolding end_of
      end_eq = refl

      skip_first : skip first ≡ start
      unfolding skip
      skip_first = rw (==_refl first) refl

      skip-lt : (index : ℕ) → skip index < voidite_content_size
      unfolding skip
      skip-lt index = elim (Bool-cases (index == first)) [
        | inl hit ↦ rw hit start_lt
        | inr miss ↦ rw miss (omega arith)
      ]

      -- The last copy is all that is left.
      copied_last :
          (size : ℕ)
          → last * voidite_content_size + skip last + size ≡ end_of
          → skip last + size ≤ voidite_content_size
          → 0 < size
          → copied_of last size ≡ size
      unfolding copied_of asked_of
      copied_last size e le some_size = elim (Bool-cases (end_of % voidite_content_size == 0)) [
        | inl zero_end ↦ rw (==_refl last, zero_end, le→ltb size size (omega arith)) refl
        | inr rest ↦ rw (==_refl last, rest) (smaller (==→ne _ 0 rest))
      ]
        where
          smaller :
              end_of % voidite_content_size ≢ 0
              → (if ltb size (end_of % voidite_content_size)
                  then size
                  else end_of % voidite_content_size)
                ≡ size
          smaller ne = elim (Bool-cases (ltb size (end_of % voidite_content_size))) [
            | inl more ↦ rw more refl
            | inr same ↦ rw same (
                omega
                  (arith, ltb→le size (end_of % voidite_content_size) same, e, le, ne, some_size))
          ]

      copied_before :
          (index size : ℕ)
          → index ≢ last
          → voidite_content_size ≤ skip index + size
          → copied_of index size ≡ voidite_content_size - skip index
      unfolding copied_of asked_of
      copied_before index size ne le =
          rw
            (
              ne→== index last ne,
              le→ltb size (voidite_content_size - skip index) (omega (arith, le)),
            )
            refl

      skip_later : (index : ℕ) → first ≤ index → skip (index + 1) ≡ 0
      unfolding skip
      skip_later index le = rw (ne→== (index + 1) first (omega (arith, le))) refl

      -- The loop of `read_voidelle` with its constant arguments.
      loop : (rounds index size : ℕ) → List ℕ
      loop n index size =
          read_from stale fs n card voidelle index first last start (end_of % voidite_content_size)
            size

      loop_end : (index size : ℕ) → loop 0 index size ≡ []
      unfolding loop read_from
      loop_end index size = refl

      loop_round :
          (n index size : ℕ)
          → loop (suc n) index size
            ≡ take (copied_of index size) (drop (skip index) (part index))
              ++ loop n (index + 1) (size - copied_of index size)
      unfolding loop read_from copied_of asked_of skip
      loop_round n index size = refl

      loop-Holds :
          (n index size : ℕ)
          → index + n ≡ last
          → first ≤ index
          → 0 < size
          → last * voidite_content_size < end_of
          → end_of ≤ last * voidite_content_size + voidite_content_size
          → index * voidite_content_size + skip index + size ≡ end_of
          → Holds (loop (suc n) index size) (index * voidite_content_size + skip index) size
      loop-Holds zero index size e le some_size low high sum =
          let here : index ≡ last = omega (arith, e) in
          let all : copied_of index size ≡ size =
            subst
              (λ k.
                k * voidite_content_size + skip k + size ≡ end_of
                → skip k + size ≤ voidite_content_size
                → copied_of k size ≡ size)
              (sym here) (λ sum' room. copied_last size sum' room some_size) sum
              (omega (arith, sum, high, here)) in
          let none_left : Holds []
              (index * voidite_content_size + skip index + copied_of index size)
              (size - copied_of index size) =
            (omega (arith, all), λ i lt. absurd (omega (arith, all, lt))) in
          subst (λ b. Holds b (index * voidite_content_size + skip index) size)
            (sym (
              loop_round 0 index size
              ∙ ap (λ r. take (copied_of index size) (drop (skip index) (part index)) ++ r)
                  (loop_end (index + 1) (size - copied_of index size))))
            (Holds-copy index (skip index) (copied_of index size) size []
              (omega (arith, all, sum, high, here)) (omega (arith, all)) none_left)
      loop-Holds (suc n) index size e le some_size low high sum =
          let before : index + 1 ≤ last = omega (arith, e) in
          let part_of : copied_of index size ≡ voidite_content_size - skip index =
            copied_before index size (omega (arith, before)) (omega (arith, before, sum, low)) in
          let later = skip_later index le in
          let next : (index + 1) * voidite_content_size + skip (index + 1)
              ≡ index * voidite_content_size + skip index + copied_of index size =
            omega (arith, part_of, later, skip-lt index) in
          let rest =
            loop-Holds n (index + 1) (size - copied_of index size) (omega (arith, e))
              (omega (arith, le)) (omega (arith, part_of, before, sum, low, skip-lt index)) low high
              (omega (arith, part_of, before, sum, low, later, skip-lt index)) in
          subst (λ b. Holds b (index * voidite_content_size + skip index) size)
            (sym (loop_round (suc n) index size))
            (Holds-copy index (skip index) (copied_of index size) size
              (loop (suc n) (index + 1) (size - copied_of index size))
              (omega (arith, part_of, skip-lt index))
              (omega (arith, part_of, before, sum, low, skip-lt index))
              (subst
                (λ p.
                  Holds (loop (suc n) (index + 1) (size - copied_of index size)) p
                    (size - copied_of index size))
                next rest))

    -- `read_voidelle` of a file, of one byte or more, where the offset and size together have 64
    -- bits and the voidites read from the card are whole, gives as many bytes as it was asked for:
    -- those of the contents from the offset on, with zeros for the voidites that the file does not
    -- have.
    pub read_voidelle-Holds :
        (offset size : ℕ)
        → has voidelle.flags voidelle_directory ≡ false
        → 0 < size
        → offset + size < 2 ^ 64
        → Holds (read_voidelle stale fs card voidelle offset size) offset size
    unfolding read_voidelle loop
    read_voidelle-Holds offset size is_file some_size lt =
        let first = offset / voidite_content_size in
        let start = offset % voidite_content_size in
        let last = (offset + size + (2 ^ 64 - 1)) % 2 ^ 64 / voidite_content_size in
        let start_lt : start < voidite_content_size = omega arith in
        let wrapped : (offset + size + (2 ^ 64 - 1)) % 2 ^ 64 ≡ offset + size - 1 =
          omega (arith, some_size, lt) in
        let ends : end_of first last start start_lt size ≡ offset + size =
          end_eq first last start start_lt size ∙ omega arith in
        let rounds : last + 1 - first ≡ suc (last - first) = omega (arith, wrapped, some_size) in
        let begins : first * voidite_content_size + skip first last start start_lt size first
            ≡ offset =
          omega (arith, skip_first first last start start_lt size) in
        let read =
          loop-Holds first last start start_lt size (last - first) first size
            (omega (arith, wrapped, some_size)) (omega arith) some_size
            (omega (arith, ends, wrapped, some_size)) (omega (arith, ends, wrapped, some_size))
            (omega (arith, begins, ends)) in
        let opened : loop first last start start_lt size (suc (last - first)) first size
            ≡ read_from stale fs (last + 1 - first) card voidelle first first last start
                ((offset + size) % voidite_content_size) size =
          ap
            (λ e.
              read_from stale fs (suc (last - first)) card voidelle first first last start
                (e % voidite_content_size) size)
            ends
          ∙ ap
              (λ r.
                read_from stale fs r card voidelle first first last start
                  ((offset + size) % voidite_content_size) size)
              (sym rounds) in
        rw is_file (
          subst (λ b. Holds b offset size) opened
            (subst
              (λ p.
                Holds (loop first last start start_lt size (suc (last - first)) first size) p size)
              begins read))
