-- ===== src/Vfs/MountLaws.antt =====
-- `GetMountPoint` finds the longest prefix of a path that is mounted.
use veil_os.Base.{
  ℕ, zero, suc, ◌+◌, ◌≤◌, ◌≡◌, ◌≢◌, ◌⊎◌, inl, inr, refl, true, false, ◌||◌, Option, none, some,
  List, [], ◌∷◌, ◌++◌, length, take, drop, take-append-drop, ◌==◌, arith, Bool-cases, sym, ap, ◌∙◌,
  ==→eq, ==→ne, ==_refl,
}
use mathlib.Core.Path.{subst}
use mathlib.Core.Option.{some_inj, none-ne-some}
use veil_os.Vfs.Types.{MountPoint, FilesystemInterface, Vfs}
use veil_os.Vfs.Hash.{murmur_hash}
use veil_os.Vfs.Mounts.{
  slash, mount_index, char_at, mount_at, best_mount, choose_mount, get_mount_point, set_mount,
  add_mount_point,
}
use veil_os.Vfs.Prefixes.{NoneIn, IsBest, longest-IsBest}

module _ {W : Type 0} (vfs : Vfs W) (path : List ℕ) where
  -- A prefix of the path that a component of it ends: a slash or the terminator is behind it.
  abbrev pub EndsComponent : ℕ → Type 0
  EndsComponent i = (char_at path i ≡ slash) ⊎ (char_at path i ≡ 0)

  -- A name is mounted: the entry of the table for its hash has that hash.
  abbrev pub Mounted : List ℕ → MountPoint W → Type 0
  Mounted name mount =
      (vfs.mounts (mount_index (murmur_hash name)) ≡ mount) × (mount.hash_value ≡ murmur_hash name)

  -- No prefix of at least `lo` bytes that a component ends is mounted.
  abbrev pub NoneMounted : (lo : ℕ) → Type 0
  NoneMounted lo =
      (j : ℕ)
      → lo ≤ j
      → j ≤ length path
      → EndsComponent j
      → (mount : MountPoint W) → ¬ Mounted (take j path) mount

  ends_cases :
      (i : ℕ)
      → (EndsComponent i × (((char_at path i == slash) || (char_at path i == 0)) ≡ true))
        ⊎ ((¬ EndsComponent i) × (((char_at path i == slash) || (char_at path i == 0)) ≡ false))
  ends_cases i = elim (Bool-cases (char_at path i == slash)) [
    | inl is_slash ↦ inl (inl (==→eq _ _ is_slash), rw is_slash refl)
    | inr no_slash ↦ elim (Bool-cases (char_at path i == 0)) [
      | inl is_end ↦ inl (inr (==→eq _ _ is_end), rw (no_slash, is_end) refl)
      | inr no_end ↦
          inr (neither (==→ne _ _ no_slash) (==→ne _ _ no_end), rw (no_slash, no_end) refl)
    ]
  ]
    where
      neither : char_at path i ≢ slash → char_at path i ≢ 0 → ¬ EndsComponent i
      neither ns ne (inl e) = ns e
      neither ns ne (inr e) = ne e

  -- What `mount_at` says of a prefix.
  mount_at-Mounted :
      (i : ℕ)
      → ((mount_at vfs path i ≡ none)
          × (EndsComponent i → (mount : MountPoint W) → ¬ Mounted (take i path) mount))
        ⊎ ((mount : MountPoint W) × (mount_at vfs path i ≡ some mount)
            × EndsComponent i
            × Mounted (take i path) mount)
  unfolding mount_at
  mount_at-Mounted i =
      let hash = murmur_hash (take i path) in
      let mount = vfs.mounts (mount_index hash) in
      elim (ends_cases i) [
        | inr (inside, e) ↦ inl (rw e refl, λ ends. absurd (inside ends))
        | inl (ends, e) ↦ elim (Bool-cases (mount.hash_value == hash)) [
          | inl hit ↦ inr (mount, rw (e, hit) refl, ends, (refl, ==→eq _ _ hit))
          | inr miss ↦ inl (
            rw (e, miss) refl,
            λ ends' m mounted. ==→ne _ _ miss (ap (λ p. p.hash_value) (mounted.0) ∙ mounted.1),
          )
        ]
      ]

  mount_at-eq-none :
      (i : ℕ)
      → mount_at vfs path i ≡ none
      → EndsComponent i
      → (mount : MountPoint W) → ¬ Mounted (take i path) mount
  mount_at-eq-none i e = elim (mount_at-Mounted i) [
    | inl (_, free) ↦ free
    | inr (mount, found, _, _) ↦ absurd (none-ne-some mount (sym e ∙ found))
  ]

  mount_at-eq-some :
      (i : ℕ) (mount : MountPoint W)
      → mount_at vfs path i ≡ some mount
      → EndsComponent i × Mounted (take i path) mount
  mount_at-eq-some i mount e = elim (mount_at-Mounted i) [
    | inl (missing, _) ↦ absurd (none-ne-some mount (sym missing ∙ e))
    | inr (m, found, ends, mounted) ↦
        (ends, subst (Mounted (take i path)) (some_inj.0 (sym found ∙ e)) mounted)
  ]

  NoneIn-NoneMounted : (lo : ℕ) → NoneIn vfs path lo (1 + length path) → NoneMounted lo
  NoneIn-NoneMounted lo free j lo_le le = mount_at-eq-none j (free j lo_le (omega (arith, le)))

  -- The answer of `GetMountPoint`.
  pub data Resolved : Option (MountPoint W × List ℕ) → Type 0 where
    relative : char_at path 0 ≢ slash → Resolved none
    prefix :
        (i : ℕ) (mount : MountPoint W) (extra : List ℕ)
        → char_at path 0 ≡ slash
        → 1 ≤ i
        → i ≤ length path
        → take i path ++ extra ≡ path
        → EndsComponent i
        → Mounted (take i path) mount
        → NoneMounted (i + 1)
        → Resolved (some (mount, extra))
    root :
        (mount : MountPoint W)
        → char_at path 0 ≡ slash
        → NoneMounted 1
        → Mounted (slash ∷ []) mount
        → Resolved (some (mount, path))
    missing :
        char_at path 0 ≡ slash
        → NoneMounted 1
        → ((mount : MountPoint W) → ¬ Mounted (slash ∷ []) mount)
        → Resolved none

  resolve :
      (best : Option (ℕ × MountPoint W))
      → char_at path 0 ≡ slash
      → IsBest vfs path 1 (1 + length path) best
      → Resolved (choose_mount vfs path best)
  unfolding choose_mount
  resolve (some (i, mount)) absolute (lo, hi, found, free) =
      let (ends, mounted) = mount_at-eq-some i mount found in
      prefix i mount (drop i path) absolute lo (omega (arith, hi)) (take-append-drop i path) ends
        mounted (NoneIn-NoneMounted (i + 1) free)
  resolve none absolute free =
      let mount = vfs.mounts (mount_index (murmur_hash (slash ∷ []))) in
      elim (Bool-cases (mount.hash_value == murmur_hash (slash ∷ []))) [
        | inl hit ↦ rw hit (root mount absolute (NoneIn-NoneMounted 1 free) (refl, ==→eq _ _ hit))
        | inr miss ↦ rw miss (
            missing absolute (NoneIn-NoneMounted 1 free)
              (λ m mounted. ==→ne _ _ miss (ap (λ p. p.hash_value) (mounted.0) ∙ mounted.1)))
      ]

  -- `GetMountPoint` fails for a path that does not begin with a slash. For any other path it gives the
  -- entry of the table of mount points for the longest mounted prefix that a component of the path
  -- ends, and the rest of the path; without one, the entry of the root and the whole path, if the root
  -- is mounted; and it fails otherwise. A name is mounted if the entry for its hash has that hash.
  pub get_mount_point-Resolved : Resolved (get_mount_point vfs path)
  unfolding get_mount_point
  get_mount_point-Resolved = elim (Bool-cases (char_at path 0 == slash)) [
    | inl absolute ↦ rw absolute (resolve _ (==→eq _ _ absolute) (longest-IsBest vfs path))
    | inr other ↦ rw other (relative (==→ne _ _ other))
  ]

  best_mount-last :
      (n i : ℕ) (best : Option (ℕ × MountPoint W)) {mount : MountPoint W}
      → mount_at vfs path (i + n) ≡ some mount
      → best_mount vfs path (suc n) i best ≡ some (i + n, mount)
  unfolding best_mount
  best_mount-last zero i best e =
      let here : i + 0 ≡ i = omega arith in
      rw (here, ap (mount_at vfs path) (sym here) ∙ e, best_mount) refl
  best_mount-last (suc n) i best {mount} e =
      let next : i + suc n ≡ i + 1 + n = omega arith in
      best_mount-last n (i + 1) _ (ap (mount_at vfs path) (sym next) ∙ e)
      ∙ ap (λ k. some (k, mount)) (sym next)

char_at_end : (path : List ℕ) → char_at path (length path) ≡ 0
char_at_end [] = refl
char_at_end (c ∷ cs) = char_at_end cs

take_all : (path : List ℕ) → take (length path) path ≡ path
take_all [] = refl
take_all (c ∷ cs) = ap (λ t. c ∷ t) (take_all cs)

drop_all : (path : List ℕ) → drop (length path) path ≡ []
drop_all [] = refl
drop_all (c ∷ cs) = drop_all cs

module _ {W : Type 0} (vfs : Vfs W) where
  abbrev added_mount : List ℕ → FilesystemInterface W → MountPoint W
  added_mount rest fs = record {
    path = slash ∷ rest;
    hash_value = murmur_hash (slash ∷ rest);
    fs = fs;
  }

  mount_at-add :
      (path : List ℕ) (fs : FilesystemInterface W)
      → mount_at (add_mount_point vfs path fs) path (length path)
        ≡ some (record { path = path; hash_value = murmur_hash path; fs = fs })
  unfolding mount_at add_mount_point set_mount
  mount_at-add path fs =
      rw
        (
          char_at_end path,
          take_all path,
          ==_refl (mount_index (murmur_hash path)),
          ==_refl (murmur_hash path),
        )
        refl

  -- After `AddMountPoint` of an absolute path, `GetMountPoint` of that path gives the new mount
  -- point and nothing left of the path, whatever else is mounted.
  pub add-get_mount_point :
      (rest : List ℕ) (fs : FilesystemInterface W)
      → get_mount_point (add_mount_point vfs (slash ∷ rest) fs) (slash ∷ rest)
        ≡ some (added_mount rest fs, [])
  unfolding get_mount_point choose_mount
  add-get_mount_point rest fs =
      let vfs' = add_mount_point vfs (slash ∷ rest) fs in
      let shift : 1 + length rest ≡ suc (length rest) = omega arith in
      let at = ap (mount_at vfs' (slash ∷ rest)) shift ∙ mount_at-add (slash ∷ rest) fs in
      ap (choose_mount vfs' (slash ∷ rest))
        (best_mount-last vfs' (slash ∷ rest) (length rest) 1 none at)
      ∙ ap (λ n. some (added_mount rest fs, drop n (slash ∷ rest))) shift
      ∙ ap (λ left. some (added_mount rest fs, left)) (drop_all rest)
