-- ===== src/Vfs/Fio.antt =====
-- kernel/interface/fio.c. `current_pid` is what `GetCurrentPID` returns, `task_uid` the user of the
-- task with an id. A result is none where the kernel panics. `unset` and `stored` are the mount points
-- and paths that `GetMountPoint` leaves unset in the caller and in `AddFileReference`.
use veil_os.Base.{
  ℕ, ℤ, pos, error, int_eq, Bool, true, false, not, ◌&&◌, ◌||◌, Option, none, some, List, [], ◌∷◌,
  ◌==◌, if◌then◌else◌, has,
}
use veil_os.User.{User, get_user, get_user_from_process}
use veil_os.Vfs.Types.{
  FileMeta, FilesystemInterface, MountPoint, FileReference, Vfs, file_write, file_read,
  file_execute, user_execute, user_read, user_write, other_execute, other_read, other_write,
}
use veil_os.Vfs.Mounts.{get_mount_point, slash}
use veil_os.Vfs.Files.{
  mount_or_unset, add_file_reference, get_file_reference, remove_file_reference,
}

-- kernel/interface/errno.h
abbrev pub e_no_file : ℕ
e_no_file = 1

abbrev pub e_no_mount : ℕ
e_no_mount = 2

abbrev pub e_invalid_operation : ℕ
e_invalid_operation = 3

abbrev pub e_no_permission : ℕ
e_no_permission = 6

-- The tests at the end of `OpenFile` for one class of users: true if a mode that is asked for lacks
-- its permission.
unfoldable pub lacks : (mode permissions execute read write : ℕ) → Bool
lacks mode permissions execute read write =
    (not (has permissions execute) && has mode file_execute)
    || ((not (has permissions read) && has mode file_read)
        || (not (has permissions write) && has mode file_write))

unfoldable pub is_denied : (is_owner : Bool) (mode permissions : ℕ) → Bool
is_denied is_owner mode permissions =
    if is_owner
    then lacks mode permissions user_execute user_read user_write
    else lacks mode permissions other_execute other_read other_write

unfoldable pub owner_id : List User → FileMeta → ℕ
owner_id users meta = elim (get_user users meta.owner_id) [
  | none ↦ meta.owner_id
  | some owner ↦ owner.id
]

module _ {W : Type 0} (unset : MountPoint W × List ℕ) where
  unfoldable pub create_entry : Vfs W → List ℕ → (permissions : ℕ) → (dir : Bool) → W → W × ℤ
  create_entry vfs path permissions dir w =
      let (mount, extra) = mount_or_unset unset path (get_mount_point vfs path) in
      elim (if dir then mount.fs.fcreate_directory else mount.fs.fcreate_file) [
        | none ↦ (w, error e_invalid_operation)
        | some create ↦ create extra permissions w
      ]

  unfoldable pub create_file : Vfs W → List ℕ → (permissions : ℕ) → W → W × ℤ
  create_file vfs path permissions = create_entry vfs path permissions false

  unfoldable pub create_directory : Vfs W → List ℕ → (permissions : ℕ) → W → W × ℤ
  create_directory vfs path permissions = create_entry vfs path permissions true

abbrev pub new_reference : (process mode : ℕ) → List ℕ → FileReference
new_reference process mode path = record {
  owner_process = process;
  mode = mode;
  path = path;
  meta = record { file_data = 0; flags = 0; permissions = 0; owner_id = 1 };
  mount_idx = 0;
  cut_path = [];
  used = true;
}

module _ {W : Type 0} where
  unfoldable pub handle_of : Option (Vfs W × ℕ) → Option (Vfs W × ℤ)
  handle_of none = none
  handle_of (some (vfs, handle)) = some (vfs, pos handle)

module _ {W : Type 0} (stored : MountPoint W × List ℕ) where
  unfoldable pub admit_user : List User → Vfs W → FileReference → Option User → Option (Vfs W × ℤ)
  admit_user users vfs reference none = some (vfs, error e_no_permission)
  admit_user users vfs reference (some current) =
      let is_owner = current.id == owner_id users reference.meta in
      if is_denied is_owner reference.mode reference.meta.permissions
      then some (vfs, error e_no_permission)
      else handle_of (add_file_reference stored vfs reference)

  -- `OpenFile` from the answer of `fopen` on: who asks, what the file allows, and the handle.
  unfoldable pub admit :
      (task_uid : ℕ → Option ℕ) → List User → Vfs W → FileReference → Option (Vfs W × ℤ)
  admit task_uid users vfs reference =
      admit_user users vfs reference (get_user_from_process task_uid users reference.owner_process)

  -- What follows `fopen`: a result other than 0 is passed on.
  unfoldable pub opened :
      (task_uid : ℕ → Option ℕ)
      → List User
      → Vfs W
      → FileReference
      → W × FileMeta × ℤ
      → Option (Vfs W × ℤ) × W
  opened task_uid users vfs reference (w, meta, ret) =
      if int_eq ret (pos 0)
      then (admit task_uid users vfs (record reference { meta = meta }), w)
      else (some (vfs, ret), w)

module _ {W : Type 0} (unset stored : MountPoint W × List ℕ) where
  unfoldable pub open_file :
      (task_uid : ℕ → Option ℕ)
      → List User
      → (current_pid : ℕ) → Vfs W
      → (mode : ℕ) → List ℕ
      → W
      → Option (Vfs W × ℤ) × W
  open_file task_uid users current_pid vfs mode path w =
      let reference = new_reference current_pid mode path in
      let (mount, extra) = mount_or_unset unset path (get_mount_point vfs path) in
      elim mount.fs.fopen [
        | none ↦ (admit stored task_uid users vfs reference, w)
        | some fopen ↦
            opened stored task_uid users vfs reference (fopen extra mode reference.meta w)
      ]

module _ {W : Type 0} where
  unfoldable pub close_file : Vfs W → (handle : ℕ) → Vfs W
  close_file = remove_file_reference

  unfoldable pub transfer_found :
      (FilesystemInterface W → Option (List ℕ → (buf size offset file : ℕ) → W → W × ℤ))
      → (ℕ → MountPoint W)
      → Option FileReference
      → (buf size offset : ℕ) → W
      → W × ℤ
  transfer_found func mounts none buf size offset w = (w, error e_no_file)
  transfer_found func mounts (some reference) buf size offset w =
      elim (func (mounts reference.mount_idx).fs) [
        | none ↦ (w, error e_invalid_operation)
        | some f ↦ f reference.cut_path buf size offset reference.meta.file_data w
      ]

  -- `ReadFile` and `WriteFile`, which differ in the function that they call.
  unfoldable pub transfer :
      (FilesystemInterface W → Option (List ℕ → (buf size offset file : ℕ) → W → W × ℤ))
      → Vfs W
      → (handle buf size offset : ℕ) → W
      → W × ℤ
  transfer func vfs handle buf size offset =
      transfer_found func vfs.mounts (get_file_reference vfs handle) buf size offset

  unfoldable pub read_file : Vfs W → (handle buf size offset : ℕ) → W → W × ℤ
  read_file = transfer (λ fs. fs.fread)

  unfoldable pub write_file : Vfs W → (handle buf size offset : ℕ) → W → W × ℤ
  write_file = transfer (λ fs. fs.fwrite)

  unfoldable pub get_file_size : Vfs W → List ℕ → W → W × ℤ
  get_file_size vfs path w = elim (get_mount_point vfs path) [
    | none ↦ (w, error e_no_mount)
    | some (mount, extra) ↦ elim mount.fs.fsize [
      | none ↦ (w, error e_invalid_operation)
      | some fsize ↦ fsize extra w
    ]
  ]

-- `strrchr(path, '/')` as the number of bytes behind the last slash, or none.
unfoldable pub after_last_slash : List ℕ → Option (List ℕ)
after_last_slash [] = none
after_last_slash (c ∷ cs) = elim (after_last_slash cs) [
  | some rest ↦ some rest
  | none ↦ if c == slash then some cs else none
]

unfoldable pub get_filename : List ℕ → List ℕ
get_filename path = elim (after_last_slash path) [ some rest ↦ rest | none ↦ path ]
