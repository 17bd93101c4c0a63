-- ===== src/IoDevice/Invariant.antt =====
-- The invariant of the whole table, over every sequence of calls.
use veil_os.Base.{
  ℕ, ◌≤◌, ◌≡◌, refl, ℤ, Bool, false, some, List, [], ◌∷◌, ◌==◌, if◌then◌else◌, arith, has,
  Option-cases, Bool-cases, inl, inr,
}
use mathlib.Core.Path.{subst}
use mathlib.Core.Option.{some_inj}
use veil_os.IoDevice.Types.{
  IoDevice, IoDeviceToken, IoDeviceCursor, Table, io_read, io_write, io_request, io_multiple_read,
  io_multiple_write, io_multiple_request,
}
use veil_os.IoDevice.Table.{
  find_child, get_internal_device, put_child, put_device, has_link, insert_link, create_link,
  has_child, add_child, add_link, add_start_link, reset_device, add_io_device,
}
use veil_os.IoDevice.Tokens.{
  own_io_device_with_token, own_io_device, new_token, is_available, grant, free_io_device, release,
}
use veil_os.IoDevice.Calls.{set_io_device_cursor}
use veil_os.IoDevice.Branches.{
  live_token-Held, own_missing, own_refused, own_granted, free_cases, cursor_cases,
}
use veil_os.IoDevice.Permissions.{holders}
use veil_os.IoDevice.Exclusive.{IsGuarded, grant-IsGuarded, release-IsGuarded}

abbrev AllGuarded : List IoDevice → Type 0
AllGuarded [] = Unit {0}
AllGuarded (d ∷ ds) = IsGuarded d × AllGuarded ds

-- Every device of the table is guarded.
abbrev pub IsGuardedTable : Table → Type 0
IsGuardedTable [] = Unit {0}
IsGuardedTable (l ∷ ls) = AllGuarded l.child × IsGuardedTable ls

find_child-IsGuarded :
    (ds : List IoDevice) (code : ℕ) {d : IoDevice}
    → AllGuarded ds
    → find_child ds code ≡ some d
    → IsGuarded d
unfolding find_child
find_child-IsGuarded [] code v e = absurd (ground arith)
find_child-IsGuarded (c ∷ ds) code v e = elim (Bool-cases (c.code == code)) [
  | inl hit ↦ subst IsGuarded (some_inj.0 (rw hit at e)) v.0
  | inr miss ↦ find_child-IsGuarded ds code v.1 (rw miss at e)
]

put_child-AllGuarded :
    (ds : List IoDevice) (code : ℕ) (d : IoDevice)
    → AllGuarded ds
    → IsGuarded d
    → AllGuarded (put_child ds code d)
unfolding put_child
put_child-AllGuarded [] code d v w = tt
put_child-AllGuarded (c ∷ ds) code d v w = elim (Bool-cases (c.code == code)) [
  | inl hit ↦ rw hit (w, v.1)
  | inr miss ↦ rw miss (v.0, put_child-AllGuarded ds code d v.1 w)
]

pub get-IsGuarded :
    (t : Table) (category code : ℕ) {d : IoDevice}
    → IsGuardedTable t
    → get_internal_device t category code ≡ some d
    → IsGuarded d
unfolding get_internal_device
get-IsGuarded [] category code v e = absurd (ground arith)
get-IsGuarded (l ∷ ls) category code v e = elim (Bool-cases (l.category == category)) [
  | inl hit ↦ find_child-IsGuarded l.child code v.0 (rw hit at e)
  | inr miss ↦ get-IsGuarded ls category code v.1 (rw miss at e)
]

put-IsGuardedTable :
    (t : Table) (category code : ℕ) (d : IoDevice)
    → IsGuardedTable t
    → IsGuarded d
    → IsGuardedTable (put_device t category code d)
unfolding put_device
put-IsGuardedTable [] category code d v w = tt
put-IsGuardedTable (l ∷ ls) category code d v w = elim (Bool-cases (l.category == category)) [
  | inl hit ↦ rw hit (put_child-AllGuarded l.child code d v.0 w, v.1)
  | inr miss ↦ rw miss (v.0, put-IsGuardedTable ls category code d v.1 w)
]

reset-IsGuarded : (d : IoDevice) → IsGuarded (reset_device d)
unfolding reset_device
reset-IsGuarded d = record {
  reading = record { exclusive = λ e. refl; usable = λ e. refl };
  writing = record { exclusive = λ e. refl; usable = λ e. refl };
  requesting = record { exclusive = λ e. refl; usable = λ e. refl };
}

add_child-IsGuardedTable :
    (t : Table) (d : IoDevice) → IsGuardedTable t → IsGuarded d → IsGuardedTable (add_child t d).0
unfolding add_child
add_child-IsGuardedTable [] d v w = tt
add_child-IsGuardedTable (l ∷ ls) d v w = elim (Bool-cases (l.category == d.category)) [
  | inl hit ↦ elim (Bool-cases (has_child l.child d.code)) [
    | inl taken ↦ rw (hit, taken) v
    | inr free ↦ rw (hit, free) ((w, v.0), v.1)
  ]
  | inr miss ↦ rw miss (v.0, add_child-IsGuardedTable ls d v.1 w)
]

add_link-IsGuardedTable :
    (t : Table) (category : ℕ) → IsGuardedTable t → IsGuardedTable (add_link t category)
unfolding add_link insert_link create_link
add_link-IsGuardedTable [] category v = (tt, tt)
add_link-IsGuardedTable (l ∷ ls) category v = elim (Bool-cases (has_link (l ∷ ls) category)) [
  | inl old ↦ rw old v
  | inr new ↦ rw new (v.0, (tt, v.1))
]

add_io_device-IsGuardedTable :
    (t : Table) (d : IoDevice) → IsGuardedTable t → IsGuardedTable (add_io_device t d).0
unfolding add_io_device add_start_link
add_io_device-IsGuardedTable [] d v =
    add_child-IsGuardedTable _ (reset_device d) (add_link-IsGuardedTable _ d.category (tt, tt))
      (reset-IsGuarded d)
add_io_device-IsGuardedTable (l ∷ ls) d v =
    add_child-IsGuardedTable _ (reset_device d) (add_link-IsGuardedTable (l ∷ ls) d.category v)
      (reset-IsGuarded d)

pub own-IsGuardedTable :
    (t : Table) (category code : ℕ) (token : IoDeviceToken)
    → IsGuardedTable t
    → token.available ≡ false
    → IsGuardedTable (own_io_device_with_token t category code token).0
own-IsGuardedTable t category code token v out =
    elim (Option-cases (get_internal_device t category code)) [
      | inl missing ↦ rw (own_missing t category code token missing) v
      | inr (d, found) ↦ elim (Bool-cases (is_available d token)) [
        | inl ok ↦ rw (own_granted t category code token d found ok) (
            put-IsGuardedTable t category code (grant d token) v
              (grant-IsGuarded d token (get-IsGuarded t category code v found) out ok))
        | inr busy ↦ rw (own_refused t category code token d found busy) v
      ]
    ]

pub free-IsGuardedTable :
    (current : ℕ) (t : Table) (token : ℤ) (category code : ℕ)
    → IsGuardedTable t
    → IsGuardedTable (free_io_device current t token category code)
free-IsGuardedTable current t token category code v =
    elim (free_cases t category code current token) [
      | inl same ↦ rw same v
      | inr (d, i, held, found, live, freed) ↦
          let (e, at, out, mine) = live_token-Held current d token live in
          rw freed (
            put-IsGuardedTable t category code (release d i held) v
              (release-IsGuarded d i held (get-IsGuarded t category code v found) at out))
    ]

pub cursor-IsGuardedTable :
    (current : ℕ) (t : Table) (token : ℤ) (category code : ℕ) (cursor : IoDeviceCursor)
    → IsGuardedTable t
    → IsGuardedTable (set_io_device_cursor current t token category code cursor)
cursor-IsGuardedTable current t token category code cursor v =
    elim (cursor_cases t category code current token cursor) [
      | inl same ↦ rw same v
      | inr (d, found, ok, moved) ↦ rw moved (
          put-IsGuardedTable t category code (record d { cursor = cursor }) v
            (move (get-IsGuarded t category code v found)))
    ]
  where
    move : {d : IoDevice} → IsGuarded d → IsGuarded (record d { cursor = cursor })
    move v = record {
      reading = record { exclusive = v.reading.exclusive; usable = v.reading.usable };
      writing = record { exclusive = v.writing.exclusive; usable = v.writing.usable };
      requesting = record { exclusive = v.requesting.exclusive; usable = v.requesting.usable };
    }

-- A call that changes the table, by the process with the id that it names.
pub data Step : Table → Table → Type 0 where
  adds : (t : Table) (device : IoDevice) → Step t (add_io_device t device).0
  owns :
      (t : Table) (process category code permission : ℕ)
      → Step t (own_io_device process t category code permission).0
  frees :
      (t : Table) (process : ℕ) (token : ℤ) (category code : ℕ)
      → Step t (free_io_device process t token category code)
  moves :
      (t : Table) (process : ℕ) (token : ℤ) (category code : ℕ) (cursor : IoDeviceCursor)
      → Step t (set_io_device_cursor process t token category code cursor)

-- The tables that the calls can build, from the null `start_link`.
pub data Reach : Table → Type 0 where
  boot : Reach []
  next : {t u : Table} → Reach t → Step t u → Reach u

Step-IsGuardedTable : {t u : Table} → Step t u → IsGuardedTable t → IsGuardedTable u
unfolding own_io_device
Step-IsGuardedTable (adds t device) v = add_io_device-IsGuardedTable t device v
Step-IsGuardedTable (owns t process category code permission) v =
    own-IsGuardedTable t category code (new_token process permission) v refl
Step-IsGuardedTable (frees t process token category code) v =
    free-IsGuardedTable process t token category code v
Step-IsGuardedTable (moves t process token category code cursor) v =
    cursor-IsGuardedTable process t token category code cursor v

pub Reach-IsGuardedTable : {t : Table} → Reach t → IsGuardedTable t
Reach-IsGuardedTable boot = tt
Reach-IsGuardedTable (next r s) = Step-IsGuardedTable s (Reach-IsGuardedTable r)

-- After any sequence of registrations, requests for ownership, releases and cursor moves, by any
-- processes: a device without the flag that allows several readers has at most one token out with
-- the read permission, and likewise for writing and for requests.
pub Reach-exclusive :
    {t : Table} (category code : ℕ) {d : IoDevice}
    → Reach t
    → get_internal_device t category code ≡ some d
    → (has d.flags io_multiple_read ≡ false → holders io_read d.tokens ≤ 1)
      × (has d.flags io_multiple_write ≡ false → holders io_write d.tokens ≤ 1)
      × (has d.flags io_multiple_request ≡ false → holders io_request d.tokens ≤ 1)
Reach-exclusive category code r found =
    let v = get-IsGuarded _ category code (Reach-IsGuardedTable r) found in
    (
      λ e. at_most_one _ (v.reading.exclusive e),
      λ e. at_most_one _ (v.writing.exclusive e),
      λ e. at_most_one _ (v.requesting.exclusive e),
    )
  where
    at_most_one : {n : ℕ} (b : Bool) → n ≡ (if b then 1 else 0) → n ≤ 1
    at_most_one b e = ground arith
