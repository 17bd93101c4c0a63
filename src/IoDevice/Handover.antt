-- ===== src/IoDevice/Handover.antt =====
-- What ownership gives its holder, what it takes from the others, and what its return gives back.
use veil_os.Base.{
  ℕ, ◌≡◌, refl, ◌≢◌, inl, inr, ℤ, pos, error, minus_one, true, false, some, arith, has, get_elem?,
  List, [], ◌∷◌, Option-cases, Bool-cases, ◌∙◌, ap,
}
use veil_os.IoDevice.Types.{IoDevice, IoDeviceToken, Table, io_read, io_multiple_read}
use veil_os.IoDevice.Table.{get_internal_device, put_device}
use veil_os.IoDevice.TableLaws.{get-put, code-get}
use veil_os.IoDevice.Tokens.{
  own_io_device_with_token, own_io_device, new_token, is_available, check_availability, grant,
  place_token, free_io_device, live_token, release, check_device,
}
use veil_os.IoDevice.Calls.{call_device, read_io_device, Invoke}
use veil_os.IoDevice.Permissions.{Same, holders-give_back}
use veil_os.IoDevice.Exclusive.{grant-Same, release-Same, release-IsGuarded}
use veil_os.IoDevice.Branches.{live_token_of_held, own_missing, own_refused, own_granted, free_done}
use veil_os.IoDevice.Invariant.{get-IsGuarded, Reach, Reach-IsGuardedTable}
use veil_os.IoDevice.Mediation.{Authorised, holders_pos}

get-place_token :
    (ts : List IoDeviceToken) (token : IoDeviceToken)
    → let (ts', i) = place_token ts token in get_elem? ts' i ≡ some token
unfolding place_token
get-place_token [] token = refl
get-place_token (t ∷ ts) token = ground (arith, get-place_token ts token)

-- A successful request, inverted.
own-eq-pos :
    (t : Table) (category code : ℕ) (token : IoDeviceToken) {u : Table} {i : ℕ}
    → own_io_device_with_token t category code token ≡ (u, pos i)
    → (d : IoDevice) × (get_internal_device t category code ≡ some d)
      × (is_available d token ≡ true)
      × (u ≡ put_device t category code (grant d token))
      × (i ≡ (place_token d.tokens token).1)
own-eq-pos t category code token e = elim (Option-cases (get_internal_device t category code)) [
  | inl missing ↦ absurd (ground (arith, own_missing t category code token missing))
  | inr (d, found) ↦ elim (Bool-cases (is_available d token)) [
    | inl ok ↦ (
      d,
      found,
      ok,
      ground (arith, own_granted t category code token d found ok),
      ground (arith, own_granted t category code token d found ok),
    )
    | inr busy ↦ absurd (ground (arith, own_refused t category code token d found busy))
  ]
]

get-put_self :
    (t : Table) (category code : ℕ) {d e : IoDevice}
    → get_internal_device t category code ≡ some d
    → Same e d
    → get_internal_device (put_device t category code e) category code ≡ some e
get-put_self t category code {d} {e} found same =
    ground
      (arith, get-put t category code category code e (same.5 ∙ code-get t category code found))

call_allowed :
    {W A : Type 0} (invoke : Invoke W A) (current : ℕ) (func : IoDevice → ℕ) (permission : ℕ)
    (refusal : A) (category code buf len i : ℕ) (u : Table) (w : W) {d : IoDevice}
    {held : IoDeviceToken}
    → get_internal_device u category code ≡ some d
    → live_token current d (pos i) ≡ some (i, held)
    → has held.permissions permission ≡ true
    → call_device invoke current func permission refusal (pos i) category code buf len u w
      ≡ invoke (func d) (pos i) buf len u w
unfolding call_device check_device
call_allowed invoke current func permission refusal category code buf len i u w found live ok =
    rw (found, call_device, live, check_device, ok)

-- A process that `OwnIODevice` gave a token with the read permission can read: with that token
-- `ReadIODevice` calls the read function of the device, which is not null.
pub own-read :
    {W : Type 0} (invoke : Invoke W ℤ) (current category code permission buf len i : ℕ)
    (t u : Table) (w : W)
    → own_io_device current t category code permission ≡ (u, pos i)
    → has permission io_read ≡ true
    → (d : IoDevice) × (get_internal_device t category code ≡ some d)
      × (d.read ≢ 0)
      × (read_io_device invoke current (pos i) category code buf len u w
          ≡ invoke d.read (pos i) buf len u w)
unfolding own_io_device read_io_device
own-read invoke current category code permission buf len i t u w owned allowed =
    let token = new_token current permission in
    let (d, found, ok, put, at) = own-eq-pos t category code token owned in
    let same = grant-Same d token in
    let live : live_token current (grant d token) (pos (place_token d.tokens token).1)
        ≡ some ((place_token d.tokens token).1, token) =
      unfold grant in
      live_token_of_held current (grant d token) _ (get-place_token d.tokens token) refl refl in
    (
      d,
      found,
      (unfold is_available check_availability in ground arith),
      rw (put, at)
          (call_allowed invoke current (λ e. e.read) io_read (error 4) category code buf len _ _ w
              (get-put_self t category code found same) live allowed
            ∙ ap
                (λ f.
                  invoke f (pos (place_token d.tokens token).1) buf len
                    (put_device t category code (grant d token)) w)
                same.1),
    )

-- While a token with an exclusive read permission is out, `OwnIODevice` refuses every process that
-- asks to read, and changes nothing.
pub own_exclusive :
    (current other category code permission : ℕ) (token : ℤ) (t : Table) {d : IoDevice}
    → Reach t
    → Authorised t current token category code io_read d
    → has d.flags io_multiple_read ≡ false
    → has permission io_read ≡ true
    → own_io_device other t category code permission ≡ (t, minus_one)
unfolding own_io_device
own_exclusive current other category code permission token t {d} r a single wants =
    let g = get-IsGuarded t category code (Reach-IsGuardedTable r) a.found in
    own_refused t category code (new_token other permission) d a.found (
      unfold is_available check_availability in
      ground (
        arith,
        holders_pos io_read d.tokens a.index a.at a.out a.allowed,
        g.reading.exclusive single,
      ))

-- When the holder of an exclusive read permission returns its token by `FreeIODevice`, the next
-- process that asks to read alone is given one.
pub free-own :
    (current other category code : ℕ) (token : ℤ) (t : Table) {d : IoDevice}
    → Reach t
    → Authorised t current token category code io_read d
    → has d.flags io_multiple_read ≡ false
    → (u : Table) × (i : ℕ) × (own_io_device other
          (free_io_device current t token category code)
          category
          code
          io_read
        ≡ (u, pos i))
unfolding own_io_device
free-own current other category code token t {d} r a single =
    let g = get-IsGuarded t category code (Reach-IsGuardedTable r) a.found in
    let live = live_token_of_held current d a.index a.at a.out a.mine in
    let after = release d a.index a.held in
    let same = release-Same d a.index a.held in
    let v = release-IsGuarded d a.index a.held g a.at a.out in
    let freed : free_io_device current t token category code ≡ put_device t category code after =
      free_done t category code current token a.found (rw a.named live) in
    let ok : is_available after (new_token other io_read) ≡ true =
      unfold is_available check_availability release in
      ground (
        arith,
        v.reading.exclusive,
        holders_pos io_read d.tokens a.index a.at a.out a.allowed,
        g.reading.exclusive single,
        holders-give_back io_read d.tokens a.index a.held a.at a.out,
        same,
      ) in
    let next = new_token other io_read in
    (
      put_device (put_device t category code after) category code (grant after next),
      (place_token after.tokens next).1,
      rw freed (
          own_granted _ category code (new_token other io_read) after
            (get-put_self t category code a.found same) ok),
    )
