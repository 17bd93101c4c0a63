-- ===== src/Vfs/Files.antt =====
-- The file references of kernel/system/vfs.c. `unset` is what `GetMountPoint` leaves in the
-- caller's `MountPoint` and path when it fails: the contents of uninitialised memory, but for the path of
-- an absolute path without a root.
use veil_os.Base.{
  take, ℕ, suc, false, not, Option, none, some, List, [], ◌∷◌, length, get_elem?, set, ◌==◌,
  if◌then◌else◌,
}
use veil_os.Vfs.Types.{MountPoint, FileReference, Vfs}
use veil_os.Vfs.Mounts.{get_mount_point, mount_index, char_at, slash}

-- The index of the first reference that is not in use, or the number of references.
unfoldable pub first_unused : List FileReference → ℕ
first_unused [] = 0
first_unused (f ∷ fs) = if not f.used then 0 else suc (first_unused fs)

-- A cell of the array as the reference that is in use there.
unfoldable pub in_use : Option FileReference → Option FileReference
in_use none = none
in_use (some f) = if not f.used then none else some f

module _ {W : Type 0} (unset : MountPoint W × List ℕ) where
  abbrev pub mount_or_unset : List ℕ → Option (MountPoint W × List ℕ) → MountPoint W × List ℕ
  mount_or_unset path none = (unset.0, if char_at path 0 == slash then path else unset.1)
  mount_or_unset path (some m) = m

  unfoldable pub place_reference : Vfs W → FileReference → FileReference
  place_reference vfs reference =
      let (point, cut) = mount_or_unset reference.path (get_mount_point vfs reference.path) in
      record reference { mount_idx = mount_index point.hash_value; cut_path = cut }

  -- With no reference free, `realloc` is called with twice the number of references as its size in
  -- bytes. It panics unless that is more than the old size; if it is more, the reference is written
  -- behind the array. Both are `none`.
  unfoldable pub add_file_reference : Vfs W → FileReference → Option (Vfs W × ℕ)
  add_file_reference vfs reference =
      let i = first_unused vfs.files in
      let files = set vfs.files i (place_reference vfs reference) in
      if i == length vfs.files then none else some (record vfs { files = files }, i)

module _ {W : Type 0} where
  -- A handle outside the array is read as one that is not in use.
  unfoldable pub get_file_reference : Vfs W → (handle : ℕ) → Option FileReference
  get_file_reference vfs handle = in_use (get_elem? vfs.files handle)

  unfoldable pub get_file_mount : Vfs W → (handle : ℕ) → Option (MountPoint W)
  get_file_mount vfs handle = elim (get_file_reference vfs handle) [
    | none ↦ none
    | some reference ↦ some (vfs.mounts reference.mount_idx)
  ]

  unfoldable pub remove_found : Vfs W → (handle : ℕ) → Option FileReference → Vfs W
  remove_found vfs handle none = vfs
  remove_found vfs handle (some reference) = record vfs {
    files = set vfs.files handle (record reference { used = false });
  }

  unfoldable pub remove_file_reference : Vfs W → (handle : ℕ) → Vfs W
  remove_file_reference vfs handle = remove_found vfs handle (get_file_reference vfs handle)

  -- `VFSInit`: the 20 references are the contents of uninitialised memory.
  unfoldable pub vfs_init : (uninitialised : List FileReference) → Vfs W
  vfs_init uninitialised = record {
    mounts = λ i. record {
      path = [];
      hash_value = 0;
      fs = record {
        fcreate_file = none;
        fcreate_directory = none;
        fopen = none;
        fread = none;
        fwrite = none;
        fsize = none;
      };
    };
    files = take 20 uninitialised;
  }
