-- ===== src/Vfs/Examples.antt =====
-- Runs of kernel/system/vfs.c and kernel/interface/fio.c on a small machine: a file system at `/a`,
-- whose writes count the bytes written, and a user with one process.
use mathlib.Core.Option.{none-ne-some}
use veil_os.Base.{
  ℕ, zero, suc, ◌+◌, ◌≡◌, ◌≢◌, refl, ap, sym, get_elem?, pos, error, Bool, true, false, Option,
  none, some, List, [], ◌∷◌, ◌==◌, if◌then◌else◌,
}
use veil_os.User.{User, get_user, get_user_from_process}
use veil_os.Vfs.Types.{FilesystemInterface, MountPoint, FileReference, Vfs, file_read}
use veil_os.Vfs.Hash.{murmur_hash}
use veil_os.Vfs.Mounts.{
  add_mount_point, get_mount_point, choose_mount, best_mount, mount_at, set_mount,
}
use veil_os.Vfs.MountLaws.{Resolved, get_mount_point-Resolved, add-get_mount_point}
use veil_os.Vfs.Files.{add_file_reference, first_unused, place_reference, get_file_reference}
use veil_os.Vfs.Fio.{
  new_reference, open_file, opened, admit, admit_user, owner_id, is_denied, lacks, close_file,
  read_file, write_file, e_no_file,
}
use veil_os.Vfs.Handles.{add-get, close-transfer}
use veil_os.Vfs.Permissions.{Answered, fopen_answer, open_file-Answered}

abbrev no_fs : FilesystemInterface ℕ
no_fs = record {
  fcreate_file = none;
  fcreate_directory = none;
  fopen = none;
  fread = none;
  fwrite = none;
  fsize = none;
}

abbrev counting_fs : FilesystemInterface ℕ
counting_fs = record no_fs {
  fopen = some (λ path mode meta w. (w, record meta { permissions = 4 + 16 }, pos 0));
  fread = some (λ path buf size offset file w. (w, pos size));
  fwrite = some (λ path buf size offset file w. (w + size, pos size));
}

abbrev no_mount : MountPoint ℕ
no_mount = record { path = []; hash_value = 0; fs = no_fs }

abbrev unset : MountPoint ℕ × List ℕ
unset = (no_mount, [])

abbrev closed : FileReference
closed = record {
  owner_process = 0;
  mode = 0;
  path = [];
  meta = record { file_data = 0; flags = 0; permissions = 0; owner_id = 0 };
  mount_idx = 0;
  cut_path = [];
  used = false;
}

abbrev busy : FileReference
busy = record closed { used = true }

abbrev mount_path : List ℕ
mount_path = b'/' ∷ b'a' ∷ []

abbrev file_path : List ℕ
file_path = b'/' ∷ b'a' ∷ b'/' ∷ b'b' ∷ []

abbrev empty : Vfs ℕ
empty = record { mounts = λ i. no_mount; files = busy ∷ closed ∷ closed ∷ [] }

abbrev full : Vfs ℕ
full = record empty { files = busy ∷ busy ∷ [] }

unfoldable mounted : Vfs ℕ
mounted = add_mount_point empty mount_path counting_fs

abbrev mount_a : MountPoint ℕ
mount_a = record { path = mount_path; hash_value = murmur_hash mount_path; fs = counting_fs }

resolved : get_mount_point mounted file_path ≡ some (mount_a, b'/' ∷ b'b' ∷ [])
unfolding mounted get_mount_point choose_mount best_mount mount_at add_mount_point set_mount
    murmur_hash
resolved = refl

get_mount_point-Resolved_example : Resolved mounted file_path (get_mount_point mounted file_path)
get_mount_point-Resolved_example = get_mount_point-Resolved mounted file_path

add-get_mount_point_example :
    get_mount_point (add_mount_point empty (b'/' ∷ b'a' ∷ []) counting_fs) (b'/' ∷ b'a' ∷ [])
    ≡ some (mount_a, [])
add-get_mount_point_example = add-get_mount_point empty (b'a' ∷ []) counting_fs

abbrev request : FileReference
request = new_reference 7 file_read file_path

abbrev placed : FileReference
placed = record request { mount_idx = 17; cut_path = b'/' ∷ b'b' ∷ [] }

abbrev after : Vfs ℕ
after = record mounted { files = busy ∷ placed ∷ closed ∷ [] }

added : add_file_reference unset mounted request ≡ some (after, 1)
unfolding mounted get_mount_point choose_mount best_mount mount_at add_mount_point set_mount
    murmur_hash add_file_reference first_unused place_reference
added = refl

add-get_example :
    (get_file_reference mounted 1 ≡ none)
    × (get_file_reference after 1 ≡ some (place_reference unset mounted request))
    × ((other : ℕ) → 1 ≢ other → get_file_reference after other ≡ get_file_reference mounted other)
add-get_example = add-get unset mounted request refl added

abbrev used_of : Option FileReference → Bool
used_of none = true
used_of (some f) = f.used

all_used : (i : ℕ) (f : FileReference) → get_elem? full.files i ≡ some f → f.used ≡ true
all_used zero f e = sym (ap (λ o. used_of o) e)
all_used (suc zero) f e = sym (ap (λ o. used_of o) e)
all_used (suc (suc i)) f e = absurd (none-ne-some _ e)

close-transfer_example :
    (read_file (close_file after 1) 1 0 5 0 3 ≡ (3, error e_no_file))
    × (write_file (close_file after 1) 1 0 5 0 3 ≡ (3, error e_no_file))
close-transfer_example = close-transfer after 1 1 0 5 0 3

abbrev root_user : User
root_user = record { id = 1; name = []; passline = []; owned = [] }

abbrev task_uid : ℕ → Option ℕ
task_uid pid = if pid == 7 then some 1 else none

open_file-Answered_example :
    Answered unset unset
      (root_user ∷ [])
      mounted
      task_uid
      7
      file_read
      file_path
      0
      (fopen_answer unset unset (root_user ∷ []) mounted file_read file_path 0)
      (open_file unset unset task_uid (root_user ∷ []) 7 mounted file_read file_path 0)
open_file-Answered_example =
    open_file-Answered unset unset (root_user ∷ []) mounted task_uid 7 file_read file_path 0

-- The owner may not read with the mode of another user's permission.
open_denied :
    open_file unset unset task_uid (root_user ∷ []) 7 mounted file_read file_path 0
    ≡ (some (mounted, error 6), 0)
unfolding mounted get_mount_point choose_mount best_mount mount_at add_mount_point set_mount
    murmur_hash open_file opened admit admit_user owner_id is_denied lacks get_user
    get_user_from_process
open_denied = refl
