-- ===== src/IoDevice/Tokens.antt =====
-- `ownIODeviceWithToken`, `OwnIODevice`, `FreeIODevice` and `checkDevice` of
-- kernel/interface/iodevice.c. `current` is what `GetCurrentPID` returns.
use veil_os.Base.{
  ℕ, suc, ◌-◌, ◌^◌, ℤ, pos, negsuc, minus_one, Bool, true, false, not, ◌&&◌, Option, none, some,
  List, [], ◌∷◌, ◌==◌, if◌then◌else◌, has, get_elem?, set, bit_and, bit_or,
}
use veil_os.IoDevice.Types.{
  IoDevice, IoDeviceToken, Table, io_read, io_write, io_request, io_multiple_read,
  io_multiple_write, io_multiple_request,
}
use veil_os.IoDevice.Table.{get_internal_device, put_device}

-- The macro `CHECK_AVAILABILITY`: true if it lets the function go on.
unfoldable pub check_availability : (perm multiple func : ℕ) → IoDevice → IoDeviceToken → Bool
check_availability perm multiple func device token =
    if has token.permissions perm
    then (if not (has device.flags multiple) && has device.permissions_taken perm
        then false
        else not (func == 0))
    else true

unfoldable pub take_permission : (perm multiple : ℕ) → IoDevice → IoDeviceToken → IoDevice
take_permission perm multiple device token =
    if not (has device.flags multiple) && has token.permissions perm
    then record device { permissions_taken = bit_or device.permissions_taken perm }
    else device

-- The token goes to the first cell that is available, or to a new cell at the end.
unfoldable pub place_token : List IoDeviceToken → IoDeviceToken → List IoDeviceToken × ℕ
place_token [] token = (token ∷ [], 0)
place_token (t ∷ ts) token =
    if t.available then (token ∷ ts, 0) else let (ts', i) = place_token ts token in (t ∷ ts', suc i)

unfoldable pub take_permissions : IoDevice → IoDeviceToken → IoDevice
take_permissions device token =
    take_permission io_write io_multiple_write
      (take_permission io_request io_multiple_request
        (take_permission io_read io_multiple_read device token) token)
      token

unfoldable pub is_available : IoDevice → IoDeviceToken → Bool
is_available device token =
    check_availability io_read io_multiple_read device.read device token
    && (check_availability io_write io_multiple_write device.write device token
        && check_availability io_request io_multiple_request device.request device token)

unfoldable pub grant : IoDevice → IoDeviceToken → IoDevice
grant device token = record (take_permissions device token) {
  tokens = (place_token device.tokens token).0;
}

unfoldable pub own_io_device_with_token : Table → (category code : ℕ) → IoDeviceToken → Table × ℤ
own_io_device_with_token t category code token = elim (get_internal_device t category code) [
  | none ↦ (t, minus_one)
  | some device ↦
      if is_available device token
      then (
        put_device t category code (grant device token),
        pos (place_token device.tokens token).1,
      )
      else (t, minus_one)
]

abbrev pub new_token : (current permission : ℕ) → IoDeviceToken
new_token current permission = record {
  permissions = permission;
  process = current;
  available = false;
}

unfoldable pub own_io_device : (current : ℕ) → Table → (category code permission : ℕ) → Table × ℤ
own_io_device current t category code permission =
    own_io_device_with_token t category code (new_token current permission)

-- `permissions_taken &= ~perm`, on 32 bits.
unfoldable pub drop_permission : (perm multiple func : ℕ) → IoDevice → IoDeviceToken → IoDevice
drop_permission perm multiple func device token =
    if not (func == 0) && (not (has device.flags multiple) && has token.permissions perm)
    then record device { permissions_taken = bit_and device.permissions_taken (2 ^ 32 - 1 - perm) }
    else device

unfoldable pub drop_permissions : IoDevice → IoDeviceToken → IoDevice
drop_permissions device token =
    drop_permission io_request io_multiple_request device.request
      (drop_permission io_write io_multiple_write device.write
        (drop_permission io_read io_multiple_read device.read device token) token)
      token

unfoldable pub release : IoDevice → ℕ → IoDeviceToken → IoDevice
release device i token = record (drop_permissions device token) {
  tokens = set device.tokens i (record token { available = true });
}

-- The tests that `FreeIODevice` and `checkDevice` make of a token: in range, not given back, and
-- the caller's. `none` where one of them fails.
unfoldable pub live_token : (current : ℕ) → IoDevice → ℤ → Option (ℕ × IoDeviceToken)
live_token current device (negsuc n) = none
live_token current device (pos i) = elim (get_elem? device.tokens i) [
  | none ↦ none
  | some token ↦
      if token.available then none else if token.process == current then some (i, token) else none
]

unfoldable pub free_io_device : (current : ℕ) → Table → ℤ → (category code : ℕ) → Table
free_io_device current t token category code = elim (get_internal_device t category code) [
  | none ↦ t
  | some device ↦ elim (live_token current device token) [
    | none ↦ t
    | some (i, held) ↦ put_device t category code (release device i held)
  ]
]

unfoldable pub check_device : (current : ℕ) → Option IoDevice → ℤ → (permission : ℕ) → Bool
check_device current none token permission = false
check_device current (some device) token permission = elim (live_token current device token) [
  | none ↦ false
  | some (i, held) ↦ has held.permissions permission
]
