-- ===== src/Vfs/Mounts.antt =====
-- `AddMountPoint` and `GetMountPoint` of kernel/system/vfs.c.
use veil_os.Base.{
  ℕ, zero, suc, ◌+◌, ◌-◌, ◌||◌, not, Option, none, some, List, [], ◌∷◌, length, get_or, take, drop,
  ◌==◌, if◌then◌else◌, bit_and,
}
use veil_os.Vfs.Types.{MountPoint, FilesystemInterface, Vfs, mount_count}
use veil_os.Vfs.Hash.{murmur_hash}

abbrev pub slash : ℕ
slash = b'/'

abbrev pub mount_index : ℕ → ℕ
mount_index hash = bit_and hash (mount_count - 1)

-- `path[i]`, which is the terminator at the end.
abbrev pub char_at : List ℕ → ℕ → ℕ
char_at path i = get_or path i 0

module _ {W : Type 0} where
  unfoldable pub set_mount : (ℕ → MountPoint W) → ℕ → MountPoint W → ℕ → MountPoint W
  set_mount mounts i mount j = if j == i then mount else mounts j

  unfoldable pub add_mount_point : Vfs W → List ℕ → FilesystemInterface W → Vfs W
  add_mount_point vfs path interface =
      let hash = murmur_hash path in
      record vfs {
        mounts =
            set_mount vfs.mounts (mount_index hash)
              (record { path = path; hash_value = hash; fs = interface });
      }

  -- The mount point of the first `i` bytes of the path, if they end a component.
  unfoldable pub mount_at : Vfs W → List ℕ → ℕ → Option (MountPoint W)
  mount_at vfs path i =
      if (char_at path i == slash) || (char_at path i == 0)
      then (let hash = murmur_hash (take i path) in
          let mount = vfs.mounts (mount_index hash) in
          if mount.hash_value == hash then some mount else none)
      else none

  -- The loop over the prefixes from `i` on: the last one that is mounted.
  unfoldable pub best_mount :
      Vfs W → List ℕ → (rounds i : ℕ) → Option (ℕ × MountPoint W) → Option (ℕ × MountPoint W)
  best_mount vfs path zero i best = best
  best_mount vfs path (suc n) i best =
      best_mount vfs path n (i + 1)
        (elim (mount_at vfs path i) [ none ↦ best | some mount ↦ some (i, mount) ])

  -- What follows the loop: with no prefix mounted, the root takes the whole path.
  unfoldable pub choose_mount :
      Vfs W → List ℕ → Option (ℕ × MountPoint W) → Option (MountPoint W × List ℕ)
  choose_mount vfs path (some (i, mount)) = some (mount, drop i path)
  choose_mount vfs path none =
      let hash = murmur_hash (slash ∷ []) in
      let root = vfs.mounts (mount_index hash) in
      if not (root.hash_value == hash) then none else some (root, path)

  -- The mount point and the rest of the path; `none` where the result is `false`.
  unfoldable pub get_mount_point : Vfs W → List ℕ → Option (MountPoint W × List ℕ)
  get_mount_point vfs path =
      if not (char_at path 0 == slash)
      then none
      else choose_mount vfs path (best_mount vfs path (length path) 1 none)
