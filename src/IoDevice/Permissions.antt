-- ===== src/IoDevice/Permissions.antt =====
-- What a grant and a release do to the holders of a permission and to `permissions_taken`.
use veil_os.Base.{
  ℕ, zero, suc, ◌+◌, ◌-◌, ◌^◌, ◌≡◌, Bool, true, false, not, ◌&&◌, ◌||◌, some, List, [], ◌∷◌, ◌==◌,
  if◌then◌else◌, arith, has, has-bit_or, has-bit_and, get_elem?, set,
}
use veil_os.IoDevice.Types.{
  IoDevice, IoDeviceToken, io_read, io_write, io_request, io_multiple_read, io_multiple_write,
  io_multiple_request,
}
use veil_os.IoDevice.Tokens.{
  take_permission, take_permissions, place_token, drop_permission, drop_permissions,
}

-- How many tokens are out with a permission.
abbrev pub holders : ℕ → List IoDeviceToken → ℕ
holders perm [] = 0
holders perm (t ∷ ts) =
    (if not t.available && has t.permissions perm then 1 else 0) + holders perm ts

-- A cell that is taken over was available, so no holder is lost.
pub holders-place_token :
    (perm : ℕ) (ts : List IoDeviceToken) (token : IoDeviceToken)
    → token.available ≡ false
    → holders perm (place_token ts token).0
      ≡ holders perm ts + (if has token.permissions perm then 1 else 0)
unfolding place_token
holders-place_token perm [] token out = ground arith
holders-place_token perm (t ∷ ts) token out = ground (arith, holders-place_token perm ts token out)

pub holders-give_back :
    (perm : ℕ) (ts : List IoDeviceToken) (i : ℕ) (token : IoDeviceToken)
    → get_elem? ts i ≡ some token
    → token.available ≡ false
    → holders perm (set ts i (record token { available = true }))
        + (if has token.permissions perm then 1 else 0)
      ≡ holders perm ts
holders-give_back perm [] i token at out = absurd (ground arith)
holders-give_back perm (t ∷ ts) zero token at out = ground arith
holders-give_back perm (t ∷ ts) (suc i) token at out =
    ground (arith, holders-give_back perm ts i token at out)

-- `|= perm` and `&= ~perm` at one flag, for the three permissions.
abbrev pub wanted : (perm multiple : ℕ) → IoDevice → IoDeviceToken → Bool
wanted perm multiple d token = not (has d.flags multiple) && has token.permissions perm

-- What neither changes.
abbrev pub Same : IoDevice → IoDevice → Type 0
Same e d =
    (e.flags ≡ d.flags)
    × (e.read ≡ d.read)
    × (e.write ≡ d.write)
    × (e.request ≡ d.request)
    × (e.category ≡ d.category)
    × (e.code ≡ d.code)

module _ (k j multiple : ℕ) (d : IoDevice) (token : IoDeviceToken) where
  taken-take_permission :
      has (take_permission (2 ^ j) multiple d token).permissions_taken (2 ^ k) ≡ (
        has d.permissions_taken (2 ^ k) || (wanted (2 ^ j) multiple d token && has (2 ^ j) (2 ^ k)))
  unfolding take_permission
  taken-take_permission = ground (arith, has-bit_or k d.permissions_taken (2 ^ j))

  taken-drop_permission :
      (func : ℕ)
      → has (drop_permission (2 ^ j) multiple func d token).permissions_taken (2 ^ k) ≡ (
          has d.permissions_taken (2 ^ k)
          && not (
              not (func == 0)
              && (wanted (2 ^ j) multiple d token && not (has (2 ^ 32 - 1 - 2 ^ j) (2 ^ k)))))
  unfolding drop_permission
  taken-drop_permission func =
      ground (arith, has-bit_and k d.permissions_taken (2 ^ 32 - 1 - 2 ^ j))

Same-take_permission :
    (perm multiple : ℕ) (d : IoDevice) (token : IoDeviceToken)
    → Same (take_permission perm multiple d token) d
unfolding take_permission
Same-take_permission perm multiple d token = ground arith

Same-drop_permission :
    (perm multiple func : ℕ) (d : IoDevice) (token : IoDeviceToken)
    → Same (drop_permission perm multiple func d token) d
unfolding drop_permission
Same-drop_permission perm multiple func d token = ground arith

pub Same-take_permissions :
    (d : IoDevice) (token : IoDeviceToken) → Same (take_permissions d token) d
unfolding take_permissions
Same-take_permissions d token = grind (arith, Same-take_permission)

pub Same-drop_permissions :
    (d : IoDevice) (token : IoDeviceToken) → Same (drop_permissions d token) d
unfolding drop_permissions
Same-drop_permissions d token = grind (arith, Same-drop_permission)

module _ (k : ℕ) (d : IoDevice) (token : IoDeviceToken) where
  pub taken-take_permissions : has (take_permissions d token).permissions_taken (2 ^ k) ≡ (
      has d.permissions_taken (2 ^ k)
      || ((wanted io_read io_multiple_read d token && has io_read (2 ^ k))
          || ((wanted io_request io_multiple_request d token && has io_request (2 ^ k))
              || (wanted io_write io_multiple_write d token && has io_write (2 ^ k)))))
  unfolding take_permissions
  taken-take_permissions =
      let first = take_permission io_read io_multiple_read d token in
      let second = take_permission io_request io_multiple_request first token in
      ground (
        arith,
        taken-take_permission k 0 io_multiple_read d token,
        taken-take_permission k 2 io_multiple_request first token,
        taken-take_permission k 1 io_multiple_write second token,
        Same-take_permission io_read io_multiple_read d token,
        Same-take_permission io_request io_multiple_request first token,
      )

  pub taken-drop_permissions : has (drop_permissions d token).permissions_taken (2 ^ k) ≡ (
      has d.permissions_taken (2 ^ k)
      && (not (
            not (d.read == 0)
            && (wanted io_read io_multiple_read d token
                && not (has (2 ^ 32 - 1 - io_read) (2 ^ k))))
          && (not (
                not (d.write == 0)
                && (wanted io_write io_multiple_write d token
                    && not (has (2 ^ 32 - 1 - io_write) (2 ^ k))))
              && not (
                  not (d.request == 0)
                  && (wanted io_request io_multiple_request d token
                      && not (has (2 ^ 32 - 1 - io_request) (2 ^ k)))))))
  unfolding drop_permissions
  taken-drop_permissions =
      let first = drop_permission io_read io_multiple_read d.read d token in
      let second = drop_permission io_write io_multiple_write d.write first token in
      ground (
        arith,
        taken-drop_permission k 0 io_multiple_read d token d.read,
        taken-drop_permission k 1 io_multiple_write first token d.write,
        taken-drop_permission k 2 io_multiple_request second token d.request,
        Same-drop_permission io_read io_multiple_read d.read d token,
        Same-drop_permission io_write io_multiple_write d.write first token,
      )
