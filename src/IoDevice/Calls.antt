-- ===== src/IoDevice/Calls.antt =====
-- `ReadIODevice`, `WriteIODevice`, `RequestIODevice` and `SetIODeviceCursor` of
-- kernel/interface/iodevice.c. What a driver does when it is called through its function pointer is
-- a parameter over the device table and the rest of the machine.
use veil_os.Base.{ℕ, ℤ, error, Bool, false, none, some, if◌then◌else◌}
use veil_os.IoDevice.Types.{IoDevice, IoDeviceCursor, Table, io_read, io_write, io_request}
use veil_os.IoDevice.Table.{get_internal_device, put_device}
use veil_os.IoDevice.Tokens.{check_device}

-- `E_NO_IO_DEVICE` of kernel/interface/errno.h.
abbrev pub e_no_io_device : ℕ
e_no_io_device = 4

-- What the caller sees: the tables, the machine and the result.
abbrev pub Outcome : Type 0 → Type 0 → Type 0
Outcome W A = Table × W × A

-- A call of the function at an address, with a token, a message or buffer, and a length.
abbrev pub Invoke : Type 0 → Type 0 → Type 0
Invoke W A = (func : ℕ) → (token : ℤ) → (buf len : ℕ) → Table → W → Outcome W A

module _ {W A : Type 0} (invoke : Invoke W A) (current : ℕ) where
  -- The common shape of the three calls: the function of the device if the token allows it, and
  -- the refusal otherwise. With a null device the test fails.
  unfoldable pub call_device :
      (func : IoDevice → ℕ) (permission : ℕ) (refusal : A)
      → ℤ
      → (category code buf len : ℕ) → Table
      → W
      → Outcome W A
  call_device func permission refusal token category code buf len t w =
      elim (get_internal_device t category code) [
        | none ↦ (t, w, refusal)
        | some device ↦
            if check_device current (some device) token permission
            then invoke (func device) token buf len t w
            else (t, w, refusal)
      ]

module _ {W : Type 0} (invoke : Invoke W ℤ) (current : ℕ) where
  unfoldable pub read_io_device : ℤ → (category code buf len : ℕ) → Table → W → Outcome W ℤ
  read_io_device = call_device invoke current (λ d. d.read) io_read (error e_no_io_device)

  unfoldable pub write_io_device : ℤ → (category code buf len : ℕ) → Table → W → Outcome W ℤ
  write_io_device = call_device invoke current (λ d. d.write) io_write (error e_no_io_device)

module _ {W : Type 0} (invoke : Invoke W Bool) (current : ℕ) where
  unfoldable pub request_io_device :
      ℤ → (category code message payload : ℕ) → Table → W → Outcome W Bool
  request_io_device = call_device invoke current (λ d. d.request) io_request false

unfoldable pub set_io_device_cursor :
    (current : ℕ) → Table → ℤ → (category code : ℕ) → IoDeviceCursor → Table
set_io_device_cursor current t token category code cursor =
    elim (get_internal_device t category code) [
      | none ↦ t
      | some device ↦
          if check_device current (some device) token io_request
          then put_device t category code (record device { cursor = cursor })
          else t
    ]
