-- ===== src/IoDevice/Mediation.antt =====
-- Access through tokens: what a call of a device needs, and what a token and its return give.
use veil_os.Base.{
  ℕ, zero, suc, ◌≡◌, ◌≢◌, ◌⊎◌, inl, inr, ℤ, pos, error, Bool, true, false, some, arith, has,
  get_elem?, List, [], ◌∷◌, Option-cases, Bool-cases,
}
use veil_os.IoDevice.Types.{IoDevice, IoDeviceToken, Table, io_read, io_write, io_request}
use veil_os.IoDevice.Table.{get_internal_device}
use veil_os.IoDevice.Tokens.{live_token, check_device}
use veil_os.IoDevice.Calls.{
  call_device, read_io_device, write_io_device, request_io_device, e_no_io_device, Invoke, Outcome,
}
use veil_os.IoDevice.Permissions.{holders}
use veil_os.IoDevice.Exclusive.{IsGuarded}
use veil_os.IoDevice.Branches.{live_token-Held}
use veil_os.IoDevice.Invariant.{IsGuardedTable, get-IsGuarded, Reach, Reach-IsGuardedTable}

-- The caller holds a token of the device, which is out with the permission.
pub record Authorised (t : Table) (current : ℕ) (token : ℤ) (category code permission : ℕ)
    (d : IoDevice) : Type 0 where
  pub index : ℕ
  pub held : IoDeviceToken
  pub named : token ≡ pos index
  pub found : get_internal_device t category code ≡ some d
  pub at : get_elem? d.tokens index ≡ some held
  pub out : held.available ≡ false
  pub mine : held.process ≡ current
  pub allowed : has held.permissions permission ≡ true

-- A token that is out is one of the holders.
pub holders_pos :
    (perm : ℕ) (ts : List IoDeviceToken) (i : ℕ) {held : IoDeviceToken}
    → get_elem? ts i ≡ some held
    → held.available ≡ false
    → has held.permissions perm ≡ true
    → holders perm ts ≢ 0
holders_pos perm [] i at out allowed = absurd (ground arith)
holders_pos perm (t ∷ ts) zero at out allowed = ground arith
holders_pos perm (t ∷ ts) (suc i) at out allowed =
    ground (arith, holders_pos perm ts i at out allowed)

-- The outcome of a call through a token: refused with nothing changed, or passed on to a function
-- that is not null, for a caller that is authorised.
abbrev pub Mediated :
    {W A : Type 0}
    → Invoke W A
    → (func : IoDevice → ℕ) → (current : ℕ) → (permission : ℕ) → (refusal : A) → ℤ
    → (category code buf len : ℕ) → Table
    → W
    → Outcome W A
    → Type 0
Mediated invoke func current permission refusal token category code buf len t w r =
    (r ≡ (t, w, refusal))
    ⊎ ((d : IoDevice) × Authorised t current token category code permission d
        × (func d ≢ 0)
        × (r ≡ invoke (func d) token buf len t w))

check_device-Authorised :
    (t : Table) (current : ℕ) (token : ℤ) (category code permission : ℕ) (d : IoDevice)
    → get_internal_device t category code ≡ some d
    → check_device current (some d) token permission ≡ true
    → Authorised t current token category code permission d
unfolding check_device
check_device-Authorised t current token category code permission d found ok =
    elim (Option-cases (live_token current d token)) [
      | inl dead ↦ absurd (ground arith)
      | inr ((i, held), live) ↦
          let (e, at, out, mine) = live_token-Held current d token live in
          record {
            index = i;
            held = held;
            named = e;
            found = found;
            at = at;
            out = out;
            mine = mine;
            allowed = ground arith;
          }
    ]

module _ {W A : Type 0} (invoke : Invoke W A) (current : ℕ) (func : IoDevice → ℕ) (permission : ℕ)
    (refusal : A)
    (nonnull : (d : IoDevice) → IsGuarded d → func d ≡ 0 → holders permission d.tokens ≡ 0) where
  call_device-Mediated :
      (token : ℤ) (category code buf len : ℕ) {t : Table} (w : W)
      → IsGuardedTable t
      → Mediated invoke func current permission refusal token category code buf len t w
          (call_device invoke current func permission refusal token category code buf len t w)
  call_device-Mediated token category code buf len {t} w v =
      elim (Option-cases (get_internal_device t category code)) [
        | inl missing ↦ inl (unfold call_device in rw (missing, call_device))
        | inr (d, found) ↦ elim (Bool-cases (check_device current (some d) token permission)) [
          | inl ok ↦
              let a = check_device-Authorised t current token category code permission d found ok in
              inr (
                d,
                a,
                (λ null.
                    holders_pos permission d.tokens a.index a.at a.out a.allowed
                      (nonnull d (get-IsGuarded t category code v found) null)),
                unfold call_device in rw (found, call_device, ok),
              )
          | inr refused ↦ inl (unfold call_device in rw (found, call_device, refused))
        ]
      ]

-- In every table that the calls can build, `ReadIODevice`, `WriteIODevice` and `RequestIODevice`
-- each either refuse, changing nothing, or call the device's function for it: a function that is
-- not null, for a process that holds a token of this device which is out and has the permission.
pub calls-Mediated :
    {W : Type 0} (invoke : Invoke W ℤ) (ask : Invoke W Bool) (current : ℕ) (token : ℤ)
    (category code buf len : ℕ) {t : Table} (w : W)
    → Reach t
    → Mediated invoke
        (λ d. d.read)
        current
        io_read
        (error e_no_io_device)
        token
        category
        code
        buf
        len
        t
        w
        (read_io_device invoke current token category code buf len t w)
      × Mediated invoke
          (λ d. d.write)
          current
          io_write
          (error e_no_io_device)
          token
          category
          code
          buf
          len
          t
          w
          (write_io_device invoke current token category code buf len t w)
      × Mediated ask
          (λ d. d.request)
          current
          io_request
          false
          token
          category
          code
          buf
          len
          t
          w
          (request_io_device ask current token category code buf len t w)
unfolding read_io_device write_io_device request_io_device
calls-Mediated invoke ask current token category code buf len w r =
    let v = Reach-IsGuardedTable r in
    (
      call_device-Mediated invoke current (λ d. d.read) io_read (error e_no_io_device)
          (λ d g e. g.reading.usable e) token category code buf len w v,
      call_device-Mediated invoke current (λ d. d.write) io_write (error e_no_io_device)
          (λ d g e. g.writing.usable e) token category code buf len w v,
      call_device-Mediated ask current (λ d. d.request) io_request false
          (λ d g e. g.requesting.usable e) token category code buf len w v,
    )
