-- ===== src/IoDevice/Syscalls.antt =====
-- The system calls of kernel/interface/iodevice.c, and the loop of `KillTask` in
-- kernel/scheduler/task.c that returns the devices of a task. The registers `x0` to `x4` are 64-bit
-- numbers; `task->devices` is the list of the task that runs, with a token of -1 in an unused cell.
use veil_os.Base.{
  ℕ, ◌%◌, ◌^◌, ◌-◌, ℤ, pos, negsuc, minus_one, int_eq, Bool, List, [], ◌∷◌, ltb, if◌then◌else◌,
}
use veil_os.IoDevice.Types.{IoDeviceOwnership, Table}
use veil_os.IoDevice.Tokens.{own_io_device, free_io_device}
use veil_os.IoDevice.Calls.{Invoke, Outcome, read_io_device, write_io_device, request_io_device}

-- A 64-bit register as an `unsigned int` or an enum, and as an `int`.
abbrev pub to_uint : ℕ → ℕ
to_uint x = x % 2 ^ 32

unfoldable pub to_int : ℕ → ℤ
to_int x = let w : ℕ = x % 2 ^ 32 in if ltb w (2 ^ 31) then pos w else negsuc (2 ^ 32 - w - 1)

-- The loop of `own_device`: the first unused cell, or a new one at the end.
unfoldable pub add_ownership : List IoDeviceOwnership → IoDeviceOwnership → List IoDeviceOwnership
add_ownership [] ownership = ownership ∷ []
add_ownership (o ∷ os) ownership =
    if int_eq o.token minus_one then ownership ∷ os else o ∷ add_ownership os ownership

-- What a system call leaves: the device table, the devices of the task, and `x0`.
abbrev pub Result : Type 0
Result = Table × List IoDeviceOwnership × ℤ

unfoldable pub finish_own : Table × ℤ → List IoDeviceOwnership → (category code : ℕ) → Result
finish_own (t, token) devices category code =
    if int_eq token minus_one then (t, devices, minus_one) else (
      t,
      add_ownership devices (record { token = token; category = category; code = code }),
      token,
    )

unfoldable pub own_device : (current : ℕ) → Table → List IoDeviceOwnership → (x0 x1 x2 : ℕ) → Result
own_device current t devices x0 x1 x2 =
    finish_own (own_io_device current t (to_uint x0) (to_uint x1) (to_uint x2)) devices (to_uint x0)
      (to_uint x1)

unfoldable pub read_device :
    {W : Type 0} → Invoke W ℤ → (current x0 x1 x2 x3 x4 : ℕ) → Table → W → Outcome W ℤ
read_device invoke current x0 x1 x2 x3 x4 =
    read_io_device invoke current (to_int x0) (to_uint x1) (to_uint x2) x3 x4

unfoldable pub write_device :
    {W : Type 0} → Invoke W ℤ → (current x0 x1 x2 x3 x4 : ℕ) → Table → W → Outcome W ℤ
write_device invoke current x0 x1 x2 x3 x4 =
    write_io_device invoke current (to_int x0) (to_uint x1) (to_uint x2) x3 x4

unfoldable pub request_device :
    {W : Type 0} → Invoke W Bool → (current x0 x1 x2 x3 x4 : ℕ) → Table → W → Outcome W Bool
request_device invoke current x0 x1 x2 x3 x4 =
    request_io_device invoke current (to_int x0) (to_uint x1) (to_uint x2) (to_uint x3) x4

-- The loop of `free_device`: the first cell with that token, whatever its device.
unfoldable pub clear_ownership : List IoDeviceOwnership → ℤ → List IoDeviceOwnership
clear_ownership [] token = []
clear_ownership (o ∷ os) token =
    if int_eq o.token token
    then record o { token = minus_one } ∷ os
    else o ∷ clear_ownership os token

unfoldable pub free_device :
    (current : ℕ) → Table → List IoDeviceOwnership → (x0 x1 x2 : ℕ) → Result
free_device current t devices x0 x1 x2 = (
  free_io_device current t (to_int x0) (to_uint x1) (to_uint x2),
  clear_ownership devices (to_int x0),
  pos 0,
)

-- `KillTask`, its first loop.
unfoldable pub release_devices : (current : ℕ) → Table → List IoDeviceOwnership → Table
release_devices current t [] = t
release_devices current t (o ∷ os) =
    release_devices current
      (if int_eq o.token minus_one then t else free_io_device current t o.token o.category o.code)
      os
