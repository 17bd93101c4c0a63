-- ===== src/Voidelle/Children.antt =====
-- The voidelles of a directory as a list of positions.
use mathlib.Core.Path.{subst}
use veil_os.Base.{ℕ, ◌≡◌, ◌≢◌, refl, ap, sym, ◌∙◌, List, [], ◌∷◌}
use veil_os.Emmc.{Card}
use veil_os.Voidelle.Types.{Voidelle, Voidom, decode_voidelle, voidelle_size}
use veil_os.Voidelle.Disk.{read_voidelle_at, write_voidelle}
use veil_os.Voidelle.Fields.{IsVoidelle, IsVoidelle-content, IsVoidelle-next}
use veil_os.Voidelle.Storage.{IsVoid, read-write_voidelle}
use veil_os.Voidelle.Directory.{add_voidelle}

-- A position is not in a list.
abbrev pub Absent : ℕ → List ℕ → Type 0
Absent p [] = Unit {0}
Absent p (q ∷ ps) = (p ≢ q) × Absent p ps

module _ (stale : List ℕ) (fs : Voidom) where
  -- The positions that are linked from `pos` on. Each voidelle there knows its position.
  abbrev pub IsLinked : Card → (pos : ℕ) → List ℕ → Type 0
  IsLinked card pos [] = pos ≡ 0
  IsLinked card pos (p ∷ ps) =
      (pos ≡ p)
      × (p ≢ 0)
      × IsVoid fs p
      × ((read_voidelle_at stale fs card p).position ≡ p)
      × IsVoidelle (read_voidelle_at stale fs card p)
      × IsLinked card ((read_voidelle_at stale fs card p).next) ps

  -- The first of these, for a voidelle `v` that is read there.
  abbrev pub Entry : Card → (pos p : ℕ) → List ℕ → Voidelle → Type 0
  Entry card pos p ps v =
      (pos ≡ p) × (p ≢ 0) × IsVoid fs p × (v.position ≡ p) × IsVoidelle v × IsLinked card v.next ps

  -- A write elsewhere keeps the list.
  pub IsLinked-kept :
      (card : Card) (v : Voidelle) (pos : ℕ) (ps : List ℕ)
      → IsVoidelle v
      → IsVoid fs v.position
      → Absent v.position ps
      → IsLinked card pos ps
      → IsLinked (write_voidelle fs card v) pos ps
  unfolding read_voidelle_at
  IsLinked-kept card v pos [] h at absent l = l
  IsLinked-kept card v pos (p ∷ ps) h at absent l =
      let (e, nonzero, place, own, ok, rest) = l in
      let kept = (read-write_voidelle fs card stale v h at).1 p voidelle_size place (absent.0) in
      subst (Entry (write_voidelle fs card v) pos p ps) (sym (ap decode_voidelle kept)) (
        e,
        nonzero,
        place,
        own,
        ok,
        IsLinked-kept card v ((read_voidelle_at stale fs card p).next) ps h at (absent.1) rest,
      )

  -- `add_voidelle` puts a voidelle, at a void of its own that is not 0, in front of a directory:
  -- the other voidelles stay there in their order, and the parent and the voidelle are stored as
  -- they are returned. The parent lies outside the directory, and their fields have 64 bits.
  pub add_voidelle-IsLinked :
      (card : Card) (parent v : Voidelle) (ps : List ℕ)
      → IsLinked card parent.content ps
      → IsVoidelle parent
      → IsVoid fs parent.position
      → Absent parent.position ps
      → IsVoidelle v
      → IsVoid fs v.position
      → Absent v.position ps
      → v.position ≢ 0
      → parent.position ≢ v.position
      → let r = add_voidelle stale fs card parent v in
        IsLinked (r.0) (r.1.content) (v.position ∷ ps)
        × (read_voidelle_at stale fs (r.0) parent.position ≡ r.1)
        × (read_voidelle_at stale fs (r.0) v.position ≡ r.2)
  unfolding add_voidelle read_voidelle_at
  add_voidelle-IsLinked card parent v ps l parent_ok parent_at parent_absent v_ok v_at v_absent
        nonzero ne =
      let v' = record v { next = parent.content } in
      let parent' = record parent { content = v.position } in
      let v'_ok = IsVoidelle-next v parent.content v_ok parent_ok.content_lt in
      let parent'_ok = IsVoidelle-content parent v.position parent_ok v_ok.position_lt in
      let card1 = write_voidelle fs card v' in
      let first = read-write_voidelle fs card stale v' v'_ok v_at in
      let second = read-write_voidelle fs card1 stale parent' parent'_ok parent_at in
      let stored = ap decode_voidelle (second.1 v.position voidelle_size v_at ne) ∙ first.0 in
      let rest =
        IsLinked-kept card1 parent' parent.content ps parent'_ok parent_at parent_absent
          (IsLinked-kept card v' parent.content ps v'_ok v_at v_absent l) in
      (
        subst (Entry (write_voidelle fs card1 parent') v.position v.position ps) (sym stored)
            (refl, nonzero, v_at, refl, v'_ok, rest),
        second.0,
        stored,
      )
