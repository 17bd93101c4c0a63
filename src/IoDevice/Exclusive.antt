-- ===== src/IoDevice/Exclusive.antt =====
-- Exclusive permissions: a device that does not allow several holders of a permission has at most
-- one, and `permissions_taken` says whether it has one.
use veil_os.Base.{
  ℕ, ◌≡◌, true, false, not, ◌&&◌, ◌||◌, some, ◌==◌, if◌then◌else◌, arith, has, get_elem?,
}
use veil_os.IoDevice.Types.{
  IoDevice, IoDeviceToken, io_read, io_write, io_request, io_multiple_read, io_multiple_write,
  io_multiple_request,
}
use veil_os.IoDevice.Tokens.{
  check_availability, is_available, grant, release, take_permissions, drop_permissions,
}
use veil_os.IoDevice.Permissions.{
  Same, wanted, holders, holders-place_token, holders-give_back, Same-take_permissions,
  Same-drop_permissions, taken-take_permissions, taken-drop_permissions,
}

-- For one permission, its flag for several holders and its function.
pub record Guarded (perm multiple func : ℕ) (d : IoDevice) : Type 0 where
  pub exclusive :
      has d.flags multiple ≡ false
      → holders perm d.tokens ≡ (if has d.permissions_taken perm then 1 else 0)
  pub usable : func ≡ 0 → holders perm d.tokens ≡ 0

pub record IsGuarded (d : IoDevice) : Type 0 where
  pub reading : Guarded io_read io_multiple_read d.read d
  pub writing : Guarded io_write io_multiple_write d.write d
  pub requesting : Guarded io_request io_multiple_request d.request d

-- One permission of a grant and of a release. `func` is the function after the change.
module _ (perm multiple func : ℕ) (d : IoDevice) (token : IoDeviceToken) where
  grant-Guarded :
      (before : ℕ)
      → func ≡ before
      → Guarded perm multiple before d
      → token.available ≡ false
      → check_availability perm multiple before d token ≡ true
      → has (take_permissions d token).permissions_taken perm
        ≡ (has d.permissions_taken perm || wanted perm multiple d token)
      → Guarded perm multiple func (grant d token)
  unfolding grant check_availability
  grant-Guarded before same v out ok taken = record {
    exclusive = ground (
      arith,
      holders-place_token perm d.tokens token out,
      Same-take_permissions d token,
      v.exclusive,
    );
    usable = ground (arith, holders-place_token perm d.tokens token out, v.usable);
  }

  release-Guarded :
      (before i : ℕ)
      → func ≡ before
      → Guarded perm multiple before d
      → get_elem? d.tokens i ≡ some token
      → token.available ≡ false
      → has (drop_permissions d token).permissions_taken perm
        ≡ (has d.permissions_taken perm && not (not (before == 0) && wanted perm multiple d token))
      → Guarded perm multiple func (release d i token)
  unfolding release
  release-Guarded before i same v at out taken = record {
    exclusive = ground (
      arith,
      holders-give_back perm d.tokens i token at out,
      Same-drop_permissions d token,
      v.exclusive,
      v.usable,
    );
    usable = ground (arith, holders-give_back perm d.tokens i token at out, v.usable);
  }

pub grant-Same : (d : IoDevice) (token : IoDeviceToken) → Same (grant d token) d
unfolding grant
grant-Same d token = Same-take_permissions d token

pub release-Same : (d : IoDevice) (i : ℕ) (token : IoDeviceToken) → Same (release d i token) d
unfolding release
release-Same d i token = Same-drop_permissions d token

-- A grant that the tests let through keeps the books of all three permissions.
pub grant-IsGuarded :
    (d : IoDevice) (token : IoDeviceToken)
    → IsGuarded d
    → token.available ≡ false
    → is_available d token ≡ true
    → IsGuarded (grant d token)
unfolding is_available
grant-IsGuarded d token v out ok = record {
  reading =
      grant-Guarded io_read io_multiple_read _ d token d.read ((grant-Same d token).1) v.reading out
        (ground arith) (ground (arith, taken-take_permissions 0 d token));
  writing =
      grant-Guarded io_write io_multiple_write _ d token d.write ((grant-Same d token).2) v.writing
        out (ground arith) (ground (arith, taken-take_permissions 1 d token));
  requesting =
      grant-Guarded io_request io_multiple_request _ d token d.request ((grant-Same d token).3)
        v.requesting out (ground arith) (ground (arith, taken-take_permissions 2 d token));
}

-- So does a release of a token that is out.
pub release-IsGuarded :
    (d : IoDevice) (i : ℕ) (token : IoDeviceToken)
    → IsGuarded d
    → get_elem? d.tokens i ≡ some token
    → token.available ≡ false
    → IsGuarded (release d i token)
release-IsGuarded d i token v at out = record {
  reading =
      release-Guarded io_read io_multiple_read _ d token d.read i ((release-Same d i token).1)
        v.reading at out (ground (arith, taken-drop_permissions 0 d token));
  writing =
      release-Guarded io_write io_multiple_write _ d token d.write i ((release-Same d i token).2)
        v.writing at out (ground (arith, taken-drop_permissions 1 d token));
  requesting =
      release-Guarded io_request io_multiple_request _ d token d.request i
        ((release-Same d i token).3) v.requesting at out
        (ground (arith, taken-drop_permissions 2 d token));
}
