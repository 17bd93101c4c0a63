-- ===== src/Vfs/Handles.antt =====
-- The file references of kernel/system/vfs.c: a handle names one reference until it is removed.
use mathlib.Core.Option.{none-ne-some, some_inj}
use veil_os.Base.{
  ℕ, ℤ, error, zero, suc, ◌<◌, ◌≤◌, ◌≡◌, ◌≢◌, inl, inr, refl, Bool, true, false, not, Option, none,
  some, List, [], ◌∷◌, length, get_elem?, set, get_elem?-set_self, get_elem?-set_ne, get_elem?-lt,
  ◌==◌, if◌then◌else◌, arith, Bool-cases, Option-cases, sym, ap, ◌∙◌, ==→ne, ==→eq, eq→==,
}
use veil_os.Vfs.Types.{FilesystemInterface, MountPoint, FileReference, Vfs}
use veil_os.Vfs.Files.{
  first_unused, in_use, remove_found, place_reference, add_file_reference, get_file_reference,
  remove_file_reference,
}
use veil_os.Vfs.Fio.{close_file, transfer, transfer_found, read_file, write_file, e_no_file}

first_unused-le : (fs : List FileReference) → first_unused fs ≤ length fs
unfolding first_unused
first_unused-le [] = omega arith
first_unused-le (f ∷ fs) = ground (arith, first_unused-le fs)

if_not_some :
    {A : Type 0} (b : Bool) {x y : A}
    → (if b then none else some x) ≡ some y
    → (b ≡ false) × (x ≡ y)
if_not_some true e = absurd (ground arith)
if_not_some false e = (refl, some_inj.0 e)

in_use-used : (f : FileReference) → f.used ≡ true → in_use (some f) ≡ some f
unfolding in_use
in_use-used f u = ap (λ b. if not b then none else some f) u

in_use-unused : (f : FileReference) → f.used ≡ false → in_use (some f) ≡ none
unfolding in_use
in_use-unused f u = ap (λ b. if not b then none else some f) u

first_unused-none : (fs : List FileReference) → in_use (get_elem? fs (first_unused fs)) ≡ none
unfolding first_unused in_use
first_unused-none [] = refl
first_unused-none (f ∷ fs) = elim (Bool-cases f.used) [
  | inl u ↦
      ap (λ b. in_use (get_elem? (f ∷ fs) (if not b then 0 else suc (first_unused fs)))) u
      ∙ first_unused-none fs
  | inr u ↦
      ap (λ b. in_use (get_elem? (f ∷ fs) (if not b then 0 else suc (first_unused fs)))) u
      ∙ in_use-unused f u
]

first_unused-all :
    (fs : List FileReference)
    → ((i : ℕ) (f : FileReference) → get_elem? fs i ≡ some f → f.used ≡ true)
    → first_unused fs ≡ length fs
unfolding first_unused
first_unused-all [] h = refl
first_unused-all (f ∷ fs) h =
    ap (λ b. if not b then 0 else suc (first_unused fs)) (h zero f refl)
    ∙ ap suc (first_unused-all fs (λ i g e. h (suc i) g e))

module _ {W : Type 0} where
  module _ (unset : MountPoint W × List ℕ) (vfs : Vfs W) (reference : FileReference) where
    added : Vfs W
    added = record vfs {
      files = set vfs.files (first_unused vfs.files) (place_reference unset vfs reference);
    }

    add_cases :
        {vfs' : Vfs W} {handle : ℕ}
        → add_file_reference unset vfs reference ≡ some (vfs', handle)
        → (first_unused vfs.files < length vfs.files)
          × (first_unused vfs.files ≡ handle)
          × (set vfs.files (first_unused vfs.files) (place_reference unset vfs reference)
              ≡ vfs'.files)
    unfolding add_file_reference
    add_cases e =
        let found = if_not_some _ e in
        (
          omega (arith, ==→ne _ _ (found.0), first_unused-le vfs.files),
          ap (λ p. p.1) (found.1),
          ap (λ p. p.0.files) (found.1),
        )

    -- A reference in use that `AddFileReference` accepts gets a handle that named no reference
    -- before, and `GetFileReference` finds the reference there, with its mount point and its rest of
    -- the path filled in. Every other handle names what it named before.
    pub add-get :
        {vfs' : Vfs W} {handle : ℕ}
        → reference.used ≡ true
        → add_file_reference unset vfs reference ≡ some (vfs', handle)
        → (get_file_reference vfs handle ≡ none)
          × (get_file_reference vfs' handle ≡ some (place_reference unset vfs reference))
          × ((other : ℕ)
              → handle ≢ other
              → get_file_reference vfs' other ≡ get_file_reference vfs other)
    unfolding get_file_reference place_reference
    add-get {vfs'} {handle} u e =
        let c = add_cases e in
        let (lt, at, files) = c in
        let placed : in_use (some (place_reference unset vfs reference))
            ≡ some (place_reference unset vfs reference) =
          in_use-used _ u in
        (
          ap (λ i. in_use (get_elem? vfs.files i)) (sym at) ∙ first_unused-none vfs.files,
          ap (λ fs. in_use (get_elem? fs handle)) (sym files)
              ∙ ap
                  (λ i. in_use (
                    get_elem?
                      (set vfs.files (first_unused vfs.files) (place_reference unset vfs reference))
                      i))
                  (sym at)
              ∙ ap in_use (get_elem?-set_self vfs.files (first_unused vfs.files) _ lt)
              ∙ placed,
          λ other ne.
              ap (λ fs. in_use (get_elem? fs other)) (sym files)
              ∙ ap in_use (get_elem?-set_ne vfs.files _ other _ (λ same. ne (sym at ∙ same))),
        )

    -- When every reference is in use, `AddFileReference` gives no handle.
    pub add_full :
        ((i : ℕ) (f : FileReference) → get_elem? vfs.files i ≡ some f → f.used ≡ true)
        → add_file_reference unset vfs reference ≡ none
    unfolding add_file_reference added
    add_full all =
        ap (λ b. if b then none else some (added, first_unused vfs.files))
          (eq→== _ _ (first_unused-all vfs.files all))

  get_file_reference-lt :
      (vfs : Vfs W) (handle : ℕ) (reference : FileReference)
      → get_file_reference vfs handle ≡ some reference
      → handle < length vfs.files
  unfolding get_file_reference in_use
  get_file_reference-lt vfs handle reference e = elim (Option-cases (get_elem? vfs.files handle)) [
    | inl out ↦ absurd (none-ne-some _ (sym (ap in_use out) ∙ e))
    | inr (f, found) ↦ get_elem?-lt vfs.files handle found
  ]

  close_some :
      (vfs : Vfs W) (handle other : ℕ) (reference : FileReference)
      → get_file_reference vfs handle ≡ some reference
      → get_file_reference (close_file vfs handle) other
        ≡ in_use (get_elem? (set vfs.files handle (record reference { used = false })) other)
  unfolding close_file remove_file_reference remove_found get_file_reference
  close_some vfs handle other reference e =
      ap (λ o. in_use (get_elem? (remove_found vfs handle o).files other)) e

  close_none :
      (vfs : Vfs W) (handle : ℕ)
      → get_file_reference vfs handle ≡ none
      → close_file vfs handle ≡ vfs
  unfolding close_file remove_file_reference remove_found
  close_none vfs handle e = ap (remove_found vfs handle) e

  close_hit : (vfs : Vfs W) (handle : ℕ) → get_file_reference (close_file vfs handle) handle ≡ none
  close_hit vfs handle = elim (Option-cases (get_file_reference vfs handle)) [
    | inl e ↦ ap (λ v. get_file_reference v handle) (close_none vfs handle e) ∙ e
    | inr (f, e) ↦
        close_some vfs handle handle f e
        ∙ ap in_use (get_elem?-set_self vfs.files handle _ (get_file_reference-lt vfs handle f e))
        ∙ in_use-unused _ refl
  ]

  close_miss :
      (vfs : Vfs W) (handle other : ℕ)
      → handle ≢ other
      → get_file_reference (close_file vfs handle) other ≡ get_file_reference vfs other
  unfolding get_file_reference
  close_miss vfs handle other ne = elim (Option-cases (get_file_reference vfs handle)) [
    | inl e ↦ ap (λ v. get_file_reference v other) (close_none vfs handle e)
    | inr (f, e) ↦
        close_some vfs handle other f e ∙ ap in_use (get_elem?-set_ne vfs.files handle other _ ne)
  ]

  -- After `CloseFile` of a handle the handle names no reference, and every other handle names what
  -- it named before.
  pub close-get :
      (vfs : Vfs W) (handle other : ℕ)
      → get_file_reference (close_file vfs handle) other
        ≡ (if handle == other then none else get_file_reference vfs other)
  close-get vfs handle other = elim (Bool-cases (handle == other)) [
    | inl same ↦
        ap (λ h. get_file_reference (close_file vfs handle) h) (sym (==→eq _ _ same))
        ∙ close_hit vfs handle
        ∙ sym (ap (λ b. if b then none else get_file_reference vfs other) same)
    | inr ne ↦
        close_miss vfs handle other (==→ne _ _ ne)
        ∙ sym (ap (λ b. if b then none else get_file_reference vfs other) ne)
  ]

  remove_found-mounts :
      (vfs : Vfs W) (handle : ℕ) (o : Option FileReference)
      → (remove_found vfs handle o).mounts ≡ vfs.mounts
  unfolding remove_found
  remove_found-mounts vfs handle none = refl
  remove_found-mounts vfs handle (some f) = refl

  close-mounts : (vfs : Vfs W) (handle : ℕ) → (close_file vfs handle).mounts ≡ vfs.mounts
  unfolding close_file remove_file_reference
  close-mounts vfs handle = remove_found-mounts vfs handle (get_file_reference vfs handle)

  -- After `CloseFile` a read or a write through the handle is refused with `-E_NO_FILE`, and one
  -- through another handle is what it was.
  pub close-transfer :
      (vfs : Vfs W) (handle other buf size offset : ℕ) (w : W)
      → (read_file (close_file vfs handle) other buf size offset w ≡ (
          if handle == other then (w, error e_no_file) else read_file vfs other buf size offset w))
        × (write_file (close_file vfs handle) other buf size offset w ≡ (
            if handle == other
            then (w, error e_no_file)
            else write_file vfs other buf size offset w))
  unfolding read_file write_file transfer transfer_found
  close-transfer vfs handle other buf size offset w = (go (λ fs. fs.fread), go (λ fs. fs.fwrite))
    where
      go :
          (func : FilesystemInterface W → Option (List ℕ → (buf size offset file : ℕ) → W → W × ℤ))
          → transfer func (close_file vfs handle) other buf size offset w ≡ (
              if handle == other
              then (w, error e_no_file)
              else transfer func vfs other buf size offset w)
      go func =
          ap
            (λ m.
              transfer_found func m (get_file_reference (close_file vfs handle) other) buf size
                offset w)
            (close-mounts vfs handle)
          ∙ ap (λ o. transfer_found func vfs.mounts o buf size offset w)
              (close-get vfs handle other)
          ∙ choose (handle == other)
        where
          choose :
              (b : Bool)
              → transfer_found func vfs.mounts
                  (if b then none else get_file_reference vfs other)
                  buf
                  size
                  offset
                  w
                ≡ (if b then (w, error e_no_file) else transfer func vfs other buf size offset w)
          choose true = refl
          choose false = refl
