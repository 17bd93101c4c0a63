-- ===== src/Voidelle/Removal.antt =====
-- `remove_voidelle` on a directory.
use mathlib.Core.Path.{subst}
use veil_os.Base.{
  ℕ, zero, suc, ◌≤◌, ◌<◌, ◌≡◌, ◌≢◌, refl, ap, sym, ◌∙◌, List, [], ◌∷◌, ◌++◌, length, ◌==◌, ne→==,
  eq→==, Bool, true, false, Option, none, some, arith,
}
use veil_os.Emmc.{Card}
use veil_os.Voidelle.Types.{Voidelle, Voidom, decode_voidelle, voidelle_size}
use veil_os.Voidelle.Disk.{read_voidelle_at, write_voidelle}
use veil_os.Voidelle.Fields.{IsVoidelle, IsVoidelle-content, IsVoidelle-next}
use veil_os.Voidelle.Storage.{IsVoid, read-write_voidelle}
use veil_os.Voidelle.Directory.{find_neighbour, invalidate_if, remove_voidelle, unlink_voidelle}
use veil_os.Voidelle.Children.{IsLinked, Entry, Absent, IsLinked-kept}

-- No position stands in the list twice.
abbrev pub Distinct : List ℕ → Type 0
Distinct [] = Unit {0}
Distinct (p ∷ ps) = Absent p ps × Distinct ps

last_of : ℕ → List ℕ → ℕ
last_of q [] = q
last_of q (p ∷ ps) = last_of p ps

Absent-behind :
    (p t : ℕ) (qs ps : List ℕ) → Absent p (qs ++ (t ∷ ps)) → (p ≢ t) × Absent p (qs ++ ps)
Absent-behind p t [] ps absent = absent
Absent-behind p t (q ∷ qs) ps absent =
    let rest = Absent-behind p t qs ps (absent.1) in (rest.0, (absent.0, rest.1))

Absent-last : (p q t : ℕ) (qs ps : List ℕ) → Absent p (q ∷ qs ++ (t ∷ ps)) → p ≢ last_of q qs
unfolding last_of
Absent-last p q t [] ps absent = absent.0
Absent-last p q t (r ∷ qs) ps absent = Absent-last p r t qs ps (absent.1)

module _ (stale : List ℕ) (fs : Voidom) where
  next_at : Card → ℕ → ℕ
  next_at card p = (read_voidelle_at stale fs card p).next

  -- The loop that looks for the voidelle in front of `t` finds it, with fuel for those it passes.
  find_neighbour-IsLinked :
      (qs : List ℕ) (fuel : ℕ) (card : Card) (pos q t : ℕ) (ps : List ℕ) (neighbour : Voidelle)
      → length qs < fuel
      → IsLinked stale fs card pos (q ∷ qs ++ (t ∷ ps))
      → Distinct (q ∷ qs ++ (t ∷ ps))
      → find_neighbour stale fs fuel card pos t neighbour
        ≡ some (read_voidelle_at stale fs card (last_of q qs))
  unfolding find_neighbour last_of next_at
  find_neighbour-IsLinked qs zero card pos q t ps neighbour enough l distinct =
      absurd (omega (arith, enough))
  find_neighbour-IsLinked [] (suc fuel) card pos q t ps neighbour enough l distinct =
      let (here, nonzero, place, own, ok, tail) = l in
      let next = tail.0 in
      let some_pos : pos == 0 ≡ false = ne→== pos 0 (λ e. nonzero (sym here ∙ e)) in
      let found : next_at card pos == t ≡ true = eq→== _ t (ap (next_at card) here ∙ next) in
      rw (some_pos, found) (ap (λ p. some (read_voidelle_at stale fs card p)) here)
  find_neighbour-IsLinked (r ∷ qs) (suc fuel) card pos q t ps neighbour enough l distinct =
      let (here, nonzero, place, own, ok, rest) = l in
      let some_pos : pos == 0 ≡ false = ne→== pos 0 (λ e. nonzero (sym here ∙ e)) in
      let r_t = (Absent-behind r t qs ps (distinct.1.0)).0 in
      let miss : next_at card pos == t ≡ false =
        ne→== _ t (λ e. r_t (sym (rest.0) ∙ sym (ap (next_at card) here) ∙ e)) in
      let further =
        subst (λ p. IsLinked stale fs card (next_at card p) (r ∷ qs ++ (t ∷ ps))) (sym here) rest in
      rw (some_pos, miss)
        (find_neighbour-IsLinked qs fuel card (next_at card pos) r t ps
          (read_voidelle_at stale fs card pos) (omega (arith, enough)) further (distinct.1))

  -- The last of these, with the link behind `t` written to it.
  cut : Card → (q : ℕ) → List ℕ → (t : ℕ) → Voidelle
  cut card q qs t = record (read_voidelle_at stale fs card (last_of q qs)) { next = next_at card t }

  IsLinked-cut :
      (qs : List ℕ) (card : Card) (pos q t : ℕ) (ps : List ℕ)
      → IsLinked stale fs card pos (q ∷ qs ++ (t ∷ ps))
      → Distinct (q ∷ qs ++ (t ∷ ps))
      → (IsVoidelle (cut card q qs t) × IsVoid fs (cut card q qs t).position)
        × ((cut card q qs t).position ≡ last_of q qs)
        × IsLinked stale fs (write_voidelle fs card (cut card q qs t)) pos (q ∷ qs ++ ps)
  unfolding cut last_of next_at read_voidelle_at
  IsLinked-cut [] card pos q t ps l distinct =
      let (here, nonzero, place, own, ok, tail) = l in
      let (e, _, _, _, removed_ok, after) = tail in
      let v = cut card q [] t in
      let v_ok =
        IsVoidelle-next (read_voidelle_at stale fs card q) (next_at card t) ok removed_ok.next_lt in
      let v_at = subst (IsVoid fs) (sym own) place in
      let absent = subst (λ p. Absent p ps) (sym own) ((Absent-behind q t [] ps (distinct.0)).1) in
      let card' = write_voidelle fs card v in
      let stored =
        ap (read_voidelle_at stale fs card') (sym own)
        ∙ (read-write_voidelle fs card stale v v_ok v_at).0 in
      (
        (v_ok, v_at),
        own,
        subst (Entry stale fs card' pos q ps) (sym stored) (
          here,
          nonzero,
          place,
          own,
          v_ok,
          IsLinked-kept stale fs card v (next_at card t) ps v_ok v_at absent after,
        ),
      )
  IsLinked-cut (r ∷ qs) card pos q t ps l distinct =
      let (here, nonzero, place, own, ok, tail) = l in
      let v = cut card r qs t in
      let ((v_ok, v_at), at_last, linked) =
        IsLinked-cut qs card (next_at card q) r t ps tail (distinct.1) in
      let other = Absent-last q r t qs ps (distinct.0) in
      let kept =
        (read-write_voidelle fs card stale v v_ok v_at).1 q voidelle_size place
          (λ e. other (sym e ∙ at_last)) in
      (
        (v_ok, v_at),
        at_last,
        subst (Entry stale fs (write_voidelle fs card v) pos q (r ∷ qs ++ ps))
            (sym (ap decode_voidelle kept)) (here, nonzero, place, own, ok, linked),
      )

  last-next :
      (qs : List ℕ) (card : Card) (pos q t : ℕ) (ps : List ℕ)
      → IsLinked stale fs card pos (q ∷ qs ++ (t ∷ ps))
      → next_at card (last_of q qs) ≡ t
  unfolding next_at last_of
  last-next [] card pos q t ps l = let (here, nonzero, place, own, ok, tail) = l in tail.0
  last-next (r ∷ qs) card pos q t ps l =
      let (here, nonzero, place, own, ok, tail) = l in
      last-next qs card (next_at card q) r t ps tail

  -- The part of the list from `t` on.
  IsLinked-from :
      (qs : List ℕ) (card : Card) (pos t : ℕ) (ps : List ℕ)
      → IsLinked stale fs card pos (qs ++ (t ∷ ps))
      → IsLinked stale fs card t (t ∷ ps)
  IsLinked-from [] card pos t ps l =
      let (here, nonzero, place, own, ok, tail) = l in (refl, nonzero, place, own, ok, tail)
  IsLinked-from (q ∷ qs) card pos t ps l =
      let (here, nonzero, place, own, ok, tail) = l in
      IsLinked-from qs card (read_voidelle_at stale fs card q).next t ps tail

  module _ (card : Card) (parent : Voidelle) (t : ℕ) (ps : List ℕ) where
    removed : (fuel : ℕ) → Option (Card × Voidelle × Bool)
    removed fuel =
        remove_voidelle stale fs fuel card parent (read_voidelle_at stale fs card t) false

    -- The directory without `t`, and its parent, on the card.
    abbrev pub Removed : List ℕ → Option (Card × Voidelle × Bool) → Type 0
    Removed qs r =
        (card' : Card) × (parent' : Voidelle) × (r ≡ some (card', parent', true))
        × IsLinked stale fs card' parent'.content (qs ++ ps)
        × (read_voidelle_at stale fs card' parent.position ≡ parent')

    removed_first :
        (o : Option Voidelle)
        → parent.content ≡ (read_voidelle_at stale fs card t).position
        → let parent' = record parent { content = next_at card t } in
          unlink_voidelle stale fs card parent (read_voidelle_at stale fs card t) false o
          ≡ some (write_voidelle fs card parent', parent', true)
    unfolding unlink_voidelle invalidate_if next_at
    removed_first none e = rw (eq→== _ _ e) refl
    removed_first (some neighbour) e = rw (eq→== _ _ e) refl

    removed_later :
        (q : ℕ) (qs : List ℕ)
        → parent.content ≢ (read_voidelle_at stale fs card t).position
        → next_at card (last_of q qs) ≡ (read_voidelle_at stale fs card t).position
        → unlink_voidelle stale fs card parent
            (read_voidelle_at stale fs card t)
            false
            (some (read_voidelle_at stale fs card (last_of q qs)))
          ≡ some (write_voidelle fs card (cut card q qs t), parent, true)
    unfolding unlink_voidelle invalidate_if next_at cut
    removed_later q qs ne linked =
        let v = read_voidelle_at stale fs card t in
        rw
          (
            ne→== parent.content v.position ne,
            eq→== (next_at card (last_of q qs)) v.position linked,
          )
          refl

    -- `remove_voidelle` of a voidelle of a directory, without clearing its bit in the map, ends
    -- and returns true, with fuel for the voidelles in front of it. The directory has the other
    -- voidelles in their order, and the parent is stored as it is returned. The voidelles lie at
    -- different voids, and the parent, whose fields have 64 bits, is stored at another one.
    pub remove_voidelle-IsLinked :
        (qs : List ℕ) (fuel : ℕ)
        → length qs ≤ fuel
        → IsLinked stale fs card parent.content (qs ++ (t ∷ ps))
        → Distinct (qs ++ (t ∷ ps))
        → IsVoidelle parent
        → IsVoid fs parent.position
        → Absent parent.position (qs ++ (t ∷ ps))
        → read_voidelle_at stale fs card parent.position ≡ parent
        → Removed qs
            (remove_voidelle stale fs fuel card parent (read_voidelle_at stale fs card t) false)
    unfolding remove_voidelle next_at cut read_voidelle_at
    remove_voidelle-IsLinked [] fuel enough l distinct parent_ok parent_at absent stored =
        let (here, nonzero, place, own, ok, tail) = l in
        let parent' = record parent { content = next_at card t } in
        let parent'_ok = IsVoidelle-content parent (next_at card t) parent_ok ok.next_lt in
        (
          write_voidelle fs card parent',
          parent',
          removed_first _ (here ∙ sym own),
          IsLinked-kept stale fs card parent' (next_at card t) ps parent'_ok parent_at (absent.1)
              tail,
          (read-write_voidelle fs card stale parent' parent'_ok parent_at).0,
        )
    remove_voidelle-IsLinked (q ∷ qs) fuel enough l distinct parent_ok parent_at absent stored =
        let (here, nonzero, place, own, ok, tail) = l in
        let own_t = (IsLinked-from (q ∷ qs) card parent.content t ps l).3 in
        let q_t = (Absent-behind q t qs ps (distinct.0)).0 in
        let found =
          ap (λ p. find_neighbour stale fs fuel card parent.content p (decode_voidelle stale)) own_t
          ∙ find_neighbour-IsLinked qs fuel card parent.content q t ps (decode_voidelle stale)
              (omega (arith, enough)) l distinct in
        let ((v_ok, v_at), at_last, linked) =
          IsLinked-cut qs card parent.content q t ps l distinct in
        let other = Absent-last parent.position q t qs ps absent in
        (
          write_voidelle fs card (cut card q qs t),
          parent,
          ap (unlink_voidelle stale fs card parent (read_voidelle_at stale fs card t) false) found
              ∙ removed_later q qs (λ e. q_t (sym here ∙ e ∙ own_t))
                  (last-next qs card parent.content q t ps l ∙ sym own_t),
          linked,
          parent_kept (cut card q qs t) v_ok v_at (λ e. other (sym e ∙ at_last)),
        )
      where
        parent_kept :
            (v : Voidelle)
            → IsVoidelle v
            → IsVoid fs v.position
            → v.position ≢ parent.position
            → read_voidelle_at stale fs (write_voidelle fs card v) parent.position ≡ parent
        parent_kept v v_ok v_at ne =
            ap decode_voidelle (
              (read-write_voidelle fs card stale v v_ok v_at).1 parent.position voidelle_size
                parent_at ne)
            ∙ stored
