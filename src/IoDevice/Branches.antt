-- ===== src/IoDevice/Branches.antt =====
-- The operations on tokens, branch by branch, for proofs that keep them shut.
use veil_os.Base.{
  ℕ, ◌≡◌, ◌⊎◌, inl, inr, ℤ, pos, negsuc, minus_one, true, false, none, some, arith, get_elem?,
  Option-cases, Bool-cases,
}
use veil_os.IoDevice.Types.{IoDevice, IoDeviceToken, IoDeviceCursor, Table, io_request}
use veil_os.IoDevice.Table.{get_internal_device, put_device}
use veil_os.IoDevice.Tokens.{
  own_io_device_with_token, is_available, grant, place_token, free_io_device, live_token, release,
  check_device,
}
use veil_os.IoDevice.Calls.{set_io_device_cursor}

-- What a token that `FreeIODevice` and `checkDevice` accept is.
pub live_token-Held :
    (current : ℕ) (d : IoDevice) (token : ℤ) {i : ℕ} {held : IoDeviceToken}
    → live_token current d token ≡ some (i, held)
    → (token ≡ pos i)
      × (get_elem? d.tokens i ≡ some held)
      × (held.available ≡ false)
      × (held.process ≡ current)
unfolding live_token
live_token-Held current d (negsuc n) e = absurd (ground arith)
live_token-Held current d (pos j) e = ground arith

pub live_token_of_held :
    (current : ℕ) (d : IoDevice) (i : ℕ) {held : IoDeviceToken}
    → get_elem? d.tokens i ≡ some held
    → held.available ≡ false
    → held.process ≡ current
    → live_token current d (pos i) ≡ some (i, held)
unfolding live_token
live_token_of_held current d i at out mine = ground arith

module _ (t : Table) (category code : ℕ) where
  pub own_missing :
      (token : IoDeviceToken)
      → get_internal_device t category code ≡ none
      → own_io_device_with_token t category code token ≡ (t, minus_one)
  unfolding own_io_device_with_token
  own_missing token e = rw (e, own_io_device_with_token)

  pub own_refused :
      (token : IoDeviceToken) (d : IoDevice)
      → get_internal_device t category code ≡ some d
      → is_available d token ≡ false
      → own_io_device_with_token t category code token ≡ (t, minus_one)
  unfolding own_io_device_with_token
  own_refused token d e f = rw (e, own_io_device_with_token, f)

  pub own_granted :
      (token : IoDeviceToken) (d : IoDevice)
      → get_internal_device t category code ≡ some d
      → is_available d token ≡ true
      → own_io_device_with_token t category code token
        ≡ (put_device t category code (grant d token), pos (place_token d.tokens token).1)
  unfolding own_io_device_with_token
  own_granted token d e f = rw (e, own_io_device_with_token, f)

  pub free_done :
      (current : ℕ) (token : ℤ) {d : IoDevice} {i : ℕ} {held : IoDeviceToken}
      → get_internal_device t category code ≡ some d
      → live_token current d token ≡ some (i, held)
      → free_io_device current t token category code ≡ put_device t category code (release d i held)
  unfolding free_io_device
  free_done current token found live = rw (found, free_io_device, live)

  -- `FreeIODevice` does nothing, or gives one token back.
  pub free_cases :
      (current : ℕ) (token : ℤ)
      → (free_io_device current t token category code ≡ t)
        ⊎ ((d : IoDevice) × (i : ℕ) × (held : IoDeviceToken) × (get_internal_device t category code
              ≡ some d)
            × (live_token current d token ≡ some (i, held))
            × (free_io_device current t token category code
                ≡ put_device t category code (release d i held)))
  unfolding free_io_device
  free_cases current token = elim (Option-cases (get_internal_device t category code)) [
    | inl missing ↦ inl (rw (missing, free_io_device))
    | inr (d, found) ↦ elim (Option-cases (live_token current d token)) [
      | inl dead ↦ inl (rw (found, free_io_device, dead))
      | inr ((i, held), live) ↦ inr (d, i, held, found, live, rw (found, free_io_device, live))
    ]
  ]

  pub cursor_cases :
      (current : ℕ) (token : ℤ) (cursor : IoDeviceCursor)
      → (set_io_device_cursor current t token category code cursor ≡ t)
        ⊎ ((d : IoDevice) × (get_internal_device t category code ≡ some d)
            × (check_device current (some d) token io_request ≡ true)
            × (set_io_device_cursor current t token category code cursor
                ≡ put_device t category code (record d { cursor = cursor })))
  unfolding set_io_device_cursor
  cursor_cases current token cursor = elim (Option-cases (get_internal_device t category code)) [
    | inl missing ↦ inl (rw (missing, set_io_device_cursor))
    | inr (d, found) ↦ elim (Bool-cases (check_device current (some d) token io_request)) [
      | inl ok ↦ inr (d, found, ok, rw (found, set_io_device_cursor, ok))
      | inr refused ↦ inl (rw (found, set_io_device_cursor, refused))
    ]
  ]
