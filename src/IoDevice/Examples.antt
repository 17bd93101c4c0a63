-- ===== src/IoDevice/Examples.antt =====
-- The theorems about devices at a console with a reader and a writer.
use veil_os.Base.{
  ℕ, suc, ◌≤◌, ◌≡◌, refl, ◌≢◌, ℤ, pos, error, minus_one, Bool, true, false, not, ◌&&◌, some, [],
  ◌∷◌, ◌==◌, has, arith, if◌then◌else◌,
}
use veil_os.IoDevice.Types.{
  IoDevice, IoDeviceToken, IoDeviceOwnership, Table, io_read, io_write, io_request,
  io_multiple_read, io_multiple_write, io_multiple_request,
}
use veil_os.IoDevice.Table.{
  find_child, get_internal_device, put_child, put_device, create_link, has_link, insert_link,
  has_child, add_child, reset_device, add_start_link, add_link, add_io_device,
}
use veil_os.IoDevice.TableLaws.{is_some, get-add_io_device}
use veil_os.IoDevice.Tokens.{
  check_availability, take_permission, place_token, take_permissions, is_available, grant,
  own_io_device_with_token, own_io_device, free_io_device,
}
use veil_os.IoDevice.Calls.{
  Invoke, read_io_device, write_io_device, request_io_device, e_no_io_device,
}
use veil_os.IoDevice.Permissions.{holders}
use veil_os.IoDevice.Invariant.{Reach, boot, next, adds, owns, Reach-exclusive}
use veil_os.IoDevice.Mediation.{Authorised, Mediated, calls-Mediated}
use veil_os.IoDevice.Handover.{own-read, own_exclusive, free-own}
use veil_os.IoDevice.Ownership.{AllOwnedBy}

abbrev uart : IoDevice
uart = record {
  read = 100;
  write = 200;
  request = 0;
  cursor = record { x_position = 0; y_position = 0; cursor_visible = false };
  tokens = [];
  permissions_taken = 0;
  flags = 0;
  category = 0;
  code = 0;
}

abbrev registered : Table
registered = (add_io_device [] uart).0

-- Process 7 reads and writes.
abbrev shell_token : IoDeviceToken
shell_token = record { permissions = 3; process = 7; available = false }

abbrev owned : Table
owned = (own_io_device 7 registered 0 0 3).0

abbrev owned_uart : IoDevice
owned_uart = record uart { tokens = shell_token ∷ []; permissions_taken = 3 }

-- A driver that counts its calls and returns the length.
abbrev counting : Invoke ℕ ℤ
counting func token buf len t w = (t, suc w, pos len)

abbrev asking : Invoke ℕ Bool
asking func token buf len t w = (t, suc w, true)

registered_lem : get_internal_device registered 0 0 ≡ some uart
unfolding get_internal_device find_child add_io_device add_child has_child reset_device
    add_start_link add_link has_link insert_link create_link
registered_lem = refl

owned_lem : get_internal_device owned 0 0 ≡ some owned_uart
unfolding registered_lem own_io_device own_io_device_with_token is_available check_availability
    grant take_permissions take_permission place_token put_device put_child
owned_lem = refl

Reach-owned : Reach owned
Reach-owned = next (next boot (adds [] uart)) (owns registered 7 0 0 3)

Authorised-owned : Authorised owned 7 (pos 0) 0 0 io_read owned_uart
Authorised-owned = record {
  index = 0;
  held = shell_token;
  named = refl;
  found = owned_lem;
  at = refl;
  out = refl;
  mine = refl;
  allowed = refl;
}

get-add_io_device_example :
    ((add_io_device owned uart).1 ≡ not (is_some (get_internal_device owned 0 0)))
    × (get_internal_device (add_io_device owned uart).0 0 1 ≡ (
        if ((0 == 0) && (0 == 1)) && not (is_some (get_internal_device owned 0 1))
        then some (reset_device uart)
        else get_internal_device owned 0 1))
get-add_io_device_example = get-add_io_device owned uart 0 1

Reach-exclusive_example :
    (has 0 io_multiple_read ≡ false → holders io_read (shell_token ∷ []) ≤ 1)
    × (has 0 io_multiple_write ≡ false → holders io_write (shell_token ∷ []) ≤ 1)
    × (has 0 io_multiple_request ≡ false → holders io_request (shell_token ∷ []) ≤ 1)
Reach-exclusive_example = Reach-exclusive 0 0 {d = owned_uart} Reach-owned owned_lem

calls-Mediated_example :
    Mediated counting
      (λ d. d.read)
      7
      io_read
      (error e_no_io_device)
      (pos 0)
      0
      0
      4096
      80
      owned
      5
      (read_io_device counting 7 (pos 0) 0 0 4096 80 owned 5)
    × Mediated counting
        (λ d. d.write)
        7
        io_write
        (error e_no_io_device)
        (pos 0)
        0
        0
        4096
        80
        owned
        5
        (write_io_device counting 7 (pos 0) 0 0 4096 80 owned 5)
    × Mediated asking
        (λ d. d.request)
        7
        io_request
        false
        (pos 0)
        0
        0
        4096
        80
        owned
        5
        (request_io_device asking 7 (pos 0) 0 0 4096 80 owned 5)
calls-Mediated_example = calls-Mediated counting asking 7 (pos 0) 0 0 4096 80 5 Reach-owned

own-read_example :
    (d : IoDevice) × (get_internal_device registered 0 0 ≡ some d)
    × (d.read ≢ 0)
    × (read_io_device counting 7 (pos 0) 0 0 4096 80 owned 5
        ≡ counting d.read (pos 0) 4096 80 owned 5)
unfolding owned_lem
own-read_example = own-read counting 7 0 0 3 4096 80 0 registered owned 5 refl refl

own_exclusive_example : own_io_device 9 owned 0 0 io_read ≡ (owned, minus_one)
own_exclusive_example =
    own_exclusive 7 9 0 0 io_read (pos 0) owned Reach-owned Authorised-owned refl refl

free-own_example :
    (u : Table) × (i : ℕ) × (own_io_device 9 (free_io_device 7 owned (pos 0) 0 0) 0 0 io_read
      ≡ (u, pos i))
free-own_example = free-own 7 9 0 0 (pos 0) owned Reach-owned Authorised-owned refl

-- A task with token 0 of the console and token 0 of a device of category 1.
abbrev console_ownership : IoDeviceOwnership
console_ownership = record { token = pos 0; category = 0; code = 0 }

abbrev screen_ownership : IoDeviceOwnership
screen_ownership = record { token = pos 0; category = 1; code = 0 }

AllOwnedBy-owned : AllOwnedBy 7 owned (console_ownership ∷ [])
AllOwnedBy-owned = ((λ d i held found named at. ground (arith, owned_lem)), tt)
