-- ===== src/IoDevice/Types.antt =====
-- The data of kernel/interface/iodevice.h and `struct IOLink`. A function pointer is its address,
-- and 0 is the null pointer. `tokens_length` is the length of the array that `tokens` points at.
use veil_os.Base.{ℕ, ℤ, Bool, List}

-- `enum IO_Permissions`
abbrev pub io_read : ℕ
io_read = 1

abbrev pub io_write : ℕ
io_write = 2

abbrev pub io_request : ℕ
io_request = 4

-- `enum IO_Flags`
abbrev pub io_multiple_read : ℕ
io_multiple_read = 2

abbrev pub io_multiple_write : ℕ
io_multiple_write = 4

abbrev pub io_multiple_request : ℕ
io_multiple_request = 8

pub record IoDeviceOwnership : Type 0 where
  pub token : ℤ
  pub category : ℕ
  pub code : ℕ

pub record IoDeviceToken : Type 0 where
  pub permissions : ℕ
  pub process : ℕ
  pub available : Bool

pub record IoDeviceCursor : Type 0 where
  pub x_position : ℕ
  pub y_position : ℕ
  pub cursor_visible : Bool

pub record IoDevice : Type 0 where
  pub read : ℕ
  pub write : ℕ
  pub request : ℕ
  pub cursor : IoDeviceCursor
  pub tokens : List IoDeviceToken
  pub permissions_taken : ℕ
  pub flags : ℕ
  pub category : ℕ
  pub code : ℕ

-- The outer list of links has one link for each category; the child list of a link holds the
-- devices of the category.
pub record IoLink : Type 0 where
  pub category : ℕ
  pub child : List IoDevice

-- The list that `start_link` heads.
abbrev pub Table : Type 0
Table = List IoLink
