-- ===== src/Vfs/Permissions.antt =====
-- What `OpenFile` of kernel/interface/fio.c lets a process do.
use mathlib.Core.Path.{subst}
use veil_os.Base.{
  ℕ, ◌+◌, ==→eq, ==→ne, ℤ, pos, negsuc, error, int_eq, ◌≡◌, ◌≢◌, ◌⊎◌, inl, inr, refl, sym, ap, Bool,
  true, false, not, ◌&&◌, ◌||◌, Option, none, some, List, [], ◌==◌, has, arith, Bool-cases,
}
use veil_os.User.{User, get_user_from_process}
use veil_os.Vfs.Types.{
  FileMeta, MountPoint, FileReference, Vfs, file_write, file_read, file_execute, user_execute,
  user_read, user_write, other_execute, other_read, other_write,
}
use veil_os.Vfs.Mounts.{get_mount_point}
use veil_os.Vfs.Files.{add_file_reference, mount_or_unset}
use veil_os.Vfs.Fio.{
  lacks, is_denied, owner_id, handle_of, admit_user, admit, opened, open_file, e_no_permission,
}

-- Every mode that is asked for has its permission.
abbrev pub Allows : (mode permissions execute read write : ℕ) → Type 0
Allows mode permissions execute read write =
    (has mode file_execute ≡ true → has permissions execute ≡ true)
    × (has mode file_read ≡ true → has permissions read ≡ true)
    × (has mode file_write ≡ true → has permissions write ≡ true)

-- The permissions of a file allow its owner, or another user, every mode that is asked for.
abbrev pub Permits : (is_owner : Bool) (mode permissions : ℕ) → Type 0
Permits true mode permissions = Allows mode permissions user_execute user_read user_write
Permits false mode permissions = Allows mode permissions other_execute other_read other_write

lacks_bits :
    (pe me pr mr pw mw : Bool)
    → ((not pe && me) || ((not pr && mr) || (not pw && mw))) ≡ false
    → (me ≡ true → pe ≡ true) × (mr ≡ true → pr ≡ true) × (mw ≡ true → pw ≡ true)
lacks_bits pe me pr mr pw mw e = (λ h. ground arith, λ h. ground arith, λ h. ground arith)

or_cases : (a b : Bool) → (a || b) ≡ true → (a ≡ true) ⊎ (b ≡ true)
or_cases true b e = inl refl
or_cases false b e = inr e

one_lacks : (p m : Bool) → (not p && m) ≡ true → ¬ (m ≡ true → p ≡ true)
one_lacks true m e h = absurd (ground arith)
one_lacks false true e h = absurd (ground (arith, h refl))
one_lacks false false e h = absurd (ground arith)

lacks_some :
    (pe me pr mr pw mw : Bool)
    → ((not pe && me) || ((not pr && mr) || (not pw && mw))) ≡ true
    → ¬ ((me ≡ true → pe ≡ true) × (mr ≡ true → pr ≡ true) × (mw ≡ true → pw ≡ true))
lacks_some pe me pr mr pw mw e all = elim (or_cases (not pe && me) _ e) [
  | inl execute ↦ one_lacks pe me execute (all.0)
  | inr more ↦ elim (or_cases (not pr && mr) _ more) [
    | inl read ↦ one_lacks pr mr read (all.1)
    | inr write ↦ one_lacks pw mw write (all.2)
  ]
]

is_denied-Permits :
    (is_owner : Bool) (mode permissions : ℕ)
    → is_denied is_owner mode permissions ≡ false
    → Permits is_owner mode permissions
unfolding is_denied lacks
is_denied-Permits true mode permissions e = lacks_bits _ _ _ _ _ _ e
is_denied-Permits false mode permissions e = lacks_bits _ _ _ _ _ _ e

is_denied-not_Permits :
    (is_owner : Bool) (mode permissions : ℕ)
    → is_denied is_owner mode permissions ≡ true
    → ¬ Permits is_owner mode permissions
unfolding is_denied lacks
is_denied-not_Permits true mode permissions e = lacks_some _ _ _ _ _ _ e
is_denied-not_Permits false mode permissions e = lacks_some _ _ _ _ _ _ e

magnitude : ℤ → ℕ
magnitude (pos n) = n
magnitude (negsuc n) = n + 1

zero_cases : (ret : ℤ) → (ret ≡ pos 0) ⊎ ((int_eq ret (pos 0) ≡ false) × (ret ≢ pos 0))
unfolding magnitude
zero_cases (negsuc n) = inr (refl, λ e. absurd (omega (arith, ap magnitude e)))
zero_cases (pos n) = elim (Bool-cases (n == 0)) [
  | inl hit ↦ inl (ap pos (==→eq n 0 hit))
  | inr miss ↦ inr (miss, λ e. ==→ne n 0 miss (ap magnitude e))
]

-- What a file has before `fopen` fills it in.
abbrev pub blank : FileMeta
blank = record { file_data = 0; flags = 0; permissions = 0; owner_id = 1 }

module _ {W : Type 0} (unset stored : MountPoint W × List ℕ) (users : List User) (vfs : Vfs W) where
  -- What `fopen` of the mount point of a path answers, or `none` where there is no such function.
  abbrev pub fopen_answer : (mode : ℕ) → List ℕ → W → Option (W × FileMeta × ℤ)
  fopen_answer mode path w =
      let (mount, extra) = mount_or_unset unset path (get_mount_point vfs path) in
      elim mount.fs.fopen [ none ↦ none | some fopen ↦ some (fopen extra mode blank w) ]

  -- The metadata that a file is opened with, and the machine then: those of `fopen`, if it succeeds.
  pub data Filled (w : W) : Option (W × FileMeta × ℤ) → W → FileMeta → Type 0 where
    no_fopen : Filled w none w blank
    fopened : (w' : W) (meta : FileMeta) → Filled w (some (w', meta, pos 0)) w' meta

  module _ (task_uid : ℕ → Option ℕ) (pid mode : ℕ) (path : List ℕ) where
    -- The reference that is stored, but for its mount point.
    abbrev pub requested : FileMeta → FileReference
    requested meta = record {
      owner_process = pid;
      mode = mode;
      path = path;
      meta = meta;
      mount_idx = 0;
      cut_path = [];
      used = true;
    }

    -- What `OpenFile` may do when `fopen` gives an answer on a machine `w`.
    pub data Answered (w : W) (answer : Option (W × FileMeta × ℤ))
        : Option (Vfs W × ℤ) × W → Type 0 where
      failed :
          (w' : W) (meta : FileMeta) (ret : ℤ)
          → answer ≡ some (w', meta, ret)
          → ret ≢ pos 0
          → Answered w answer (some (vfs, ret), w')
      unknown_user :
          (w' : W) (meta : FileMeta)
          → Filled w answer w' meta
          → get_user_from_process task_uid users pid ≡ none
          → Answered w answer (some (vfs, error e_no_permission), w')
      denied :
          (w' : W) (meta : FileMeta) (current : User)
          → Filled w answer w' meta
          → get_user_from_process task_uid users pid ≡ some current
          → ¬ Permits (current.id == owner_id users meta) mode meta.permissions
          → Answered w answer (some (vfs, error e_no_permission), w')
      admitted :
          (w' : W) (meta : FileMeta) (current : User)
          → Filled w answer w' meta
          → get_user_from_process task_uid users pid ≡ some current
          → Permits (current.id == owner_id users meta) mode meta.permissions
          → Answered w answer (handle_of (add_file_reference stored vfs (requested meta)), w')

    admit_user-Answered :
        (w w' : W) (answer : Option (W × FileMeta × ℤ)) (meta : FileMeta) (user : Option User)
        → Filled w answer w' meta
        → get_user_from_process task_uid users pid ≡ user
        → Answered w answer (admit_user stored users vfs (requested meta) user, w')
    unfolding admit_user
    admit_user-Answered w w' answer meta none filled e = unknown_user w' meta filled e
    admit_user-Answered w w' answer meta (some current) filled e =
        elim (Bool-cases (is_denied (current.id == owner_id users meta) mode meta.permissions)) [
          | inl refused ↦ rw refused (
              denied w' meta current filled e
                (is_denied-not_Permits _ mode meta.permissions refused))
          | inr granted ↦ rw granted (
              admitted w' meta current filled e (is_denied-Permits _ mode meta.permissions granted))
        ]

    admit-Answered :
        (w w' : W) (answer : Option (W × FileMeta × ℤ)) (meta : FileMeta)
        → Filled w answer w' meta
        → Answered w answer (admit stored task_uid users vfs (requested meta), w')
    unfolding admit
    admit-Answered w w' answer meta filled = admit_user-Answered w w' answer meta _ filled refl

    opened-Answered :
        (w : W) (answer : W × FileMeta × ℤ)
        → Answered w (some answer) (opened stored task_uid users vfs (requested blank) answer)
    unfolding opened
    opened-Answered w (w', meta, ret) = elim (zero_cases ret) [
      | inl ok ↦
          subst
            (λ r.
              Answered w (some (w', meta, r))
                (opened stored task_uid users vfs (requested blank) (w', meta, r)))
            (sym ok) (admit-Answered w w' (some (w', meta, pos 0)) meta (fopened w' meta))
      | inr (bad, ne) ↦ rw bad (failed w' meta ret refl ne)
    ]

    dispatch :
        (w : W) (extra : List ℕ) (o : Option (List ℕ → ℕ → FileMeta → W → W × FileMeta × ℤ))
        → Answered w
            (elim o [ none ↦ none | some fopen ↦ some (fopen extra mode blank w) ])
            (elim o [
              | none ↦ (admit stored task_uid users vfs (requested blank), w)
              | some fopen ↦
                  opened stored task_uid users vfs (requested blank) (fopen extra mode blank w)
            ])
    dispatch w extra none = admit-Answered w w none blank no_fopen
    dispatch w extra (some fopen) = opened-Answered w (fopen extra mode blank w)

    -- What `OpenFile` does follows from the answer of `fopen` of the mount point of the path. If that
    -- is not 0, it is passed on. If not, and so too without a function `fopen`, a process without a
    -- user gets `-E_NO_PERMISSION`, and so does one whose user, as the owner of the file or as another
    -- user, lacks the permission of a mode asked for. The file references stay as they are in these
    -- cases. Every other process gets the handle from `AddFileReference` for a reference of the
    -- process, mode and path with the metadata of `fopen`, unless that panics.
    pub open_file-Answered :
        (w : W)
        → Answered w
            (fopen_answer mode path w)
            (open_file unset stored task_uid users pid vfs mode path w)
    unfolding open_file
    open_file-Answered w =
        let (mount, extra) = mount_or_unset unset path (get_mount_point vfs path) in
        dispatch w extra mount.fs.fopen
