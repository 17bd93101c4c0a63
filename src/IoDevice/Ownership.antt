-- ===== src/IoDevice/Ownership.antt =====
-- What a task's own list of devices says after the system calls, and what `KillTask` returns by it.
use veil_os.Base.{
  ℕ, ◌≡◌, refl, ◌≢◌, ◌⊎◌, inl, inr, ℤ, pos, negsuc, minus_one, int_eq, Bool, true, false, some,
  List, [], ◌∷◌, get_elem?, if◌then◌else◌, arith, sym, ◌∙◌, Bool-cases, ◌==◌,
}
use veil_os.IoDevice.Types.{IoDevice, IoDeviceToken, IoDeviceOwnership, Table}
use veil_os.IoDevice.Table.{get_internal_device}
use veil_os.IoDevice.TableLaws.{get-put, code-get}
use veil_os.IoDevice.Tokens.{own_io_device, free_io_device, release}
use veil_os.IoDevice.Exclusive.{release-Same}
use veil_os.IoDevice.Branches.{free_cases, live_token-Held}
use veil_os.IoDevice.Syscalls.{
  to_uint, to_int, add_ownership, finish_own, own_device, clear_ownership, free_device,
  release_devices,
}

-- How many cells of the list name this token of this device.
abbrev same_ownership : IoDeviceOwnership → IoDeviceOwnership → Bool
same_ownership o p =
    if int_eq o.token p.token
    then (if o.category == p.category then o.code == p.code else false)
    else false

abbrev pub records : List IoDeviceOwnership → IoDeviceOwnership → Bool
records [] p = false
records (o ∷ os) p = if same_ownership o p then true else records os p

int_eq_refl : (z : ℤ) → int_eq z z ≡ true
int_eq_refl (pos n) = ground arith
int_eq_refl (negsuc n) = ground arith

int_eq_sound : (a b : ℤ) → int_eq a b ≡ true → a ≡ b
int_eq_sound (pos a) (pos b) h = ground arith
int_eq_sound (pos a) (negsuc b) h = absurd (ground arith)
int_eq_sound (negsuc a) (pos b) h = absurd (ground arith)
int_eq_sound (negsuc a) (negsuc b) h = ground arith

int_eq_symm : (a b : ℤ) → int_eq a b ≡ int_eq b a
int_eq_symm (pos a) (pos b) = ground arith
int_eq_symm (pos a) (negsuc b) = refl
int_eq_symm (negsuc a) (pos b) = refl
int_eq_symm (negsuc a) (negsuc b) = ground arith

records-add_ownership :
    (os : List IoDeviceOwnership) (new : IoDeviceOwnership)
    → records (add_ownership os new) new ≡ true
unfolding add_ownership
records-add_ownership [] new = ground (arith, int_eq_refl new.token)
records-add_ownership (o ∷ os) new =
    ground (arith, int_eq_refl new.token, records-add_ownership os new)

kept-add_ownership :
    (os : List IoDeviceOwnership) (new p : IoDeviceOwnership)
    → int_eq p.token minus_one ≡ false
    → records os p ≡ true
    → records (add_ownership os new) p ≡ true
unfolding add_ownership
kept-add_ownership [] new p live r = ground arith
kept-add_ownership (o ∷ os) new p live r = ground (
  arith,
  int_eq_sound o.token p.token,
  int_eq_sound o.token minus_one,
  kept-add_ownership os new p live,
)

-- When the system call gives a token out, the task's list records it with the device's category and
-- code, and still records every token that it recorded; when it refuses, the list is unchanged.
pub own_device-records :
    (current : ℕ) (t : Table) (devices : List IoDeviceOwnership) (x0 x1 x2 : ℕ)
    → let (u, devices', result) = own_device current t devices x0 x1 x2 in
      ((result ≡ minus_one) × (devices' ≡ devices))
      ⊎ ((records devices' (record { token = result; category = to_uint x0; code = to_uint x1 })
            ≡ true)
          × ((p : IoDeviceOwnership)
              → int_eq p.token minus_one ≡ false
              → records devices p ≡ true
              → records devices' p ≡ true))
unfolding own_device
own_device-records current t devices x0 x1 x2 =
    go (own_io_device current t (to_uint x0) (to_uint x1) (to_uint x2))
  where
    go :
        (r : Table × ℤ)
        → let (u, devices', result) = finish_own r devices (to_uint x0) (to_uint x1) in
          ((result ≡ minus_one) × (devices' ≡ devices))
          ⊎ ((records devices' (record { token = result; category = to_uint x0; code = to_uint x1 })
                ≡ true)
              × ((p : IoDeviceOwnership)
                  → int_eq p.token minus_one ≡ false
                  → records devices p ≡ true
                  → records devices' p ≡ true))
    go (u, token) = elim (Bool-cases (int_eq token minus_one)) [
      | inl refused ↦ inl (unfold finish_own in ground arith)
      | inr given ↦
          let new : IoDeviceOwnership = record {
            token = token;
            category = to_uint x0;
            code = to_uint x1;
          } in
          inr (
            unfold finish_own in
            rw given (records-add_ownership devices new, λ p. kept-add_ownership devices new p))
    ]

-- The task's list names tokens of the process `owner`.
abbrev pub AllOwnedBy : ℕ → Table → List IoDeviceOwnership → Type 0
AllOwnedBy owner t [] = Unit {0}
AllOwnedBy owner t (o ∷ os) =
    ((d : IoDevice) (i : ℕ) (held : IoDeviceToken)
      → get_internal_device t o.category o.code ≡ some d
      → o.token ≡ pos i
      → get_elem? d.tokens i ≡ some held
      → held.process ≡ owner)
    × AllOwnedBy owner t os

-- `FreeIODevice` leaves a token of another process alone.
free_other :
    (owner current : ℕ) (t : Table) (o : IoDeviceOwnership)
    → owner ≢ current
    → ((d : IoDevice) (i : ℕ) (held : IoDeviceToken)
        → get_internal_device t o.category o.code ≡ some d
        → o.token ≡ pos i
        → get_elem? d.tokens i ≡ some held
        → held.process ≡ owner)
    → free_io_device current t o.token o.category o.code ≡ t
free_other owner current t o ne mine = elim (free_cases t o.category o.code current o.token) [
  | inl same ↦ same
  | inr (d, i, held, found, live, freed) ↦
      let (e, at, out, process) = live_token-Held current d o.token live in
      absurd (ne (sym (mine d i held found e at) ∙ process))
]

-- When a task is killed while another process runs, the loop of `KillTask` that returns the task's
-- devices changes nothing: every token of the task stays out.
pub release_devices_by_other :
    (owner current : ℕ) (t : Table) (devices : List IoDeviceOwnership)
    → owner ≢ current
    → AllOwnedBy owner t devices
    → release_devices current t devices ≡ t
unfolding release_devices
release_devices_by_other owner current t [] ne v = refl
release_devices_by_other owner current t (o ∷ os) ne v =
    elim (Bool-cases (int_eq o.token minus_one)) [
      | inl empty ↦ rw empty (release_devices_by_other owner current t os ne v.1)
      | inr used ↦
          rw (used, free_other owner current t o ne v.0)
            (release_devices_by_other owner current t os ne v.1)
    ]

-- When a task gives a token back, the first cell of its list with that token number is cleared, and
-- it may be another device's: that device's token is still out, and is no longer recorded.
pub free_device_forgets :
    (current : ℕ) (t : Table) (o : IoDeviceOwnership) (os : List IoDeviceOwnership) (x0 x1 x2 : ℕ)
    → o.token ≡ to_int x0
    → o.category ≢ to_uint x1
    → records os o ≡ false
    → int_eq o.token minus_one ≡ false
    → (records (o ∷ os) o ≡ true)
      × (records (free_device current t (o ∷ os) x0 x1 x2).1 o ≡ false)
      × (get_internal_device (free_device current t (o ∷ os) x0 x1 x2).0 o.category o.code
          ≡ get_internal_device t o.category o.code)
unfolding free_device clear_ownership
free_device_forgets current t o os x0 x1 x2 e ne once live =
    let same : int_eq o.token (to_int x0) ≡ true = rw (← e) (int_eq_refl o.token) in
    (
      ground (arith, int_eq_refl o.token),
      rw same (ground (arith, int_eq_symm minus_one o.token)),
      others,
    )
  where
    others :
        get_internal_device
          (free_io_device current t (to_int x0) (to_uint x1) (to_uint x2))
          o.category
          o.code
        ≡ get_internal_device t o.category o.code
    others = elim (free_cases t (to_uint x1) (to_uint x2) current (to_int x0)) [
      | inl same ↦ rw same
      | inr (d, i, held, found, alive, freed) ↦ rw freed (
          ground (
            arith,
            get-put t (to_uint x1) (to_uint x2) o.category o.code (release d i held)
                ((release-Same d i held).5 ∙ code-get t (to_uint x1) (to_uint x2) found),
          ))
    ]
