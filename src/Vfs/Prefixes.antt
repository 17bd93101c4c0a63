-- ===== src/Vfs/Prefixes.antt =====
-- The loop of `GetMountPoint` over the prefixes of a path.
use veil_os.Base.{
  ℕ, zero, suc, ◌+◌, ◌≤◌, ◌<◌, ◌≡◌, inl, inr, refl, Option, none, some, List, length, ◌==◌, arith,
  Bool-cases, ap, ◌∙◌, ==→eq, ==→ne,
}
use veil_os.Vfs.Types.{MountPoint, Vfs}
use veil_os.Vfs.Mounts.{mount_at, best_mount}

module _ {W : Type 0} (vfs : Vfs W) (path : List ℕ) where
  abbrev pub NoneIn : (lo hi : ℕ) → Type 0
  NoneIn lo hi = (j : ℕ) → lo ≤ j → j < hi → mount_at vfs path j ≡ none

  -- The best mount of the prefixes below `hi`, where `lo` was the first one tried.
  abbrev pub IsBest : (lo hi : ℕ) → Option (ℕ × MountPoint W) → Type 0
  IsBest lo hi none = NoneIn lo hi
  IsBest lo hi (some (i, mount)) =
      (lo ≤ i) × (i < hi) × (mount_at vfs path i ≡ some mount) × NoneIn (i + 1) hi

  extend-case :
      (lo hi : ℕ) (best : Option (ℕ × MountPoint W)) (o : Option (MountPoint W))
      → mount_at vfs path hi ≡ o
      → lo ≤ hi
      → IsBest lo hi best
      → IsBest lo (hi + 1) (elim o [ none ↦ best | some mount ↦ some (hi, mount) ])
  extend-case lo hi none none e le h = λ j a b. elim (Bool-cases (j == hi)) [
    | inl hit ↦ ap (mount_at vfs path) (==→eq j hi hit) ∙ e
    | inr miss ↦ h j a (omega (arith, ==→ne j hi miss))
  ]
  extend-case lo hi (some (i, mount)) none e le h = (
    h.0,
    omega arith,
    h.2,
    λ j a b. elim (Bool-cases (j == hi)) [
      | inl hit ↦ ap (mount_at vfs path) (==→eq j hi hit) ∙ e
      | inr miss ↦ h.3 j a (omega (arith, ==→ne j hi miss))
    ],
  )
  extend-case lo hi best (some mount) e le h = (le, omega arith, e, λ j a b. absurd (omega arith))

  best_mount-IsBest :
      (lo rounds i : ℕ) (best : Option (ℕ × MountPoint W))
      → lo ≤ i
      → IsBest lo i best
      → IsBest lo (i + rounds) (best_mount vfs path rounds i best)
  unfolding best_mount
  best_mount-IsBest lo zero i best le h = let e : i + 0 ≡ i = omega arith in rw e h
  best_mount-IsBest lo (suc n) i best le h =
      let e : i + suc n ≡ i + 1 + n = omega arith in
      rw e (
        best_mount-IsBest lo n (i + 1) _ (omega arith)
          (extend-case lo i best (mount_at vfs path i) refl le h))

  pub longest-IsBest : IsBest 1 (1 + length path) (best_mount vfs path (length path) 1 none)
  longest-IsBest =
      best_mount-IsBest 1 (length path) 1 none (omega arith) (λ j a b. absurd (omega arith))
