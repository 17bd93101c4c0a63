-- ===== src/User/Laws.antt =====
-- User ids are fresh, and look-ups find what was registered.
use veil_os.Base.{
  ℕ, ◌+◌, ◌-◌, ◌%◌, ◌^◌, ltb, inl, inr, Bool-cases, ◌∙◌, ◌<◌, ◌≤◌, ◌≡◌, ◌≢◌, refl, ap, true, false,
  none, some, List, [], ◌∷◌, ◌++◌, ◌==◌, if◌then◌else◌, arith,
}
use veil_os.User.{
  User, max_id, get_uid, new_user, register_user, get_user, append_owned, user_own_process, owns,
  check_owns_process,
}

max_id-ge : (max : ℕ) (us : List User) → max ≤ max_id max us
unfolding max_id
max_id-ge max [] = omega arith
max_id-ge max (u ∷ us) = ground (arith, max_id-ge u.id us, max_id-ge max us)

-- No user has an id above the maximum.
get_user_above : (max uid : ℕ) (us : List User) → max_id max us < uid → get_user us uid ≡ none
unfolding max_id get_user
get_user_above max uid [] h = refl
get_user_above max uid (u ∷ us) h = ground (
  arith,
  get_user_above u.id uid us,
  get_user_above max uid us,
  max_id-ge u.id us,
  max_id-ge max us,
)

get_user-append :
    (us : List User) (new : User) (uid : ℕ)
    → get_user us new.id ≡ none
    → get_user (us ++ new ∷ []) uid ≡ (if new.id == uid then some new else get_user us uid)
unfolding get_user
get_user-append [] new uid free = refl
get_user-append (u ∷ us) new uid free = ground (arith, get_user-append us new uid)

-- Every user has an id below the largest one of 64 bits.
abbrev pub Counted : List User → Type 0
Counted [] = Unit {0}
Counted (u ∷ us) = (u.id + 1 < 2 ^ 64) × Counted us

max_id-Counted :
    (max : ℕ) (us : List User) → max + 1 < 2 ^ 64 → Counted us → max_id max us + 1 < 2 ^ 64
unfolding max_id
max_id-Counted max [] lt counted = lt
max_id-Counted max (u ∷ us) lt counted = elim (Bool-cases (ltb max u.id)) [
  | inl more ↦ rw more (max_id-Counted u.id us (counted.0) (counted.1))
  | inr same ↦ rw same (max_id-Counted max us lt (counted.1))
]

-- While no user has the largest id of 64 bits, a registered user gets an id that no user had, which
-- is not 0, and `GetUser` finds it there. Every other id finds what it found before.
pub get-register :
    (hash : List ℕ → List ℕ) (us : List User) (salt name password : List ℕ) (uid : ℕ)
    → Counted us
    → (get_user us (get_uid us) ≡ none)
      × (get_uid us ≢ 0)
      × (get_user (register_user hash us salt name password) uid ≡ (
          if get_uid us == uid
          then some (new_user hash us salt name password)
          else get_user us uid))
unfolding register_user new_user get_uid
get-register hash us salt name password uid counted =
    let next : (max_id 0 us + 1) % 2 ^ 64 ≡ max_id 0 us + 1 =
      omega (arith, max_id-Counted 0 us (omega arith) counted) in
    let free = ap (get_user us) next ∙ get_user_above 0 (max_id 0 us + 1) us (omega arith) in
    (free, omega (arith, next), get_user-append us (new_user hash us salt name password) uid free)

-- With a user of the largest id of 64 bits the next user gets the id 0.
pub get_uid_wraps : (us : List User) → max_id 0 us ≡ 2 ^ 64 - 1 → get_uid us ≡ 0
unfolding get_uid
get_uid_wraps us e = rw e refl

-- A user without processes never comes to own one: after `UserOwnProcess` on it, for any process,
-- `CheckOwnsProcess` still answers no for every process.
pub own-first_lost :
    (user : User) (pid other : ℕ)
    → user.owned ≡ []
    → check_owns_process (user_own_process user pid) other ≡ false
unfolding check_owns_process user_own_process append_owned owns
own-first_lost user pid other e = ap (λ ps. owns (append_owned ps pid) other) e

owns-append :
    (ps : List ℕ) (pid other : ℕ)
    → owns (ps ++ pid ∷ []) other ≡ (if pid == other then true else owns ps other)
unfolding owns
owns-append [] pid other = ground arith
owns-append (p ∷ ps) pid other = ground (arith, owns-append ps pid other)

-- A user who owns a process owns what `UserOwnProcess` adds, and what it owned before.
pub own-next :
    (user : User) (pid other : ℕ)
    → user.owned ≢ []
    → check_owns_process (user_own_process user pid) other
      ≡ (if pid == other then true else check_owns_process user other)
unfolding check_owns_process user_own_process append_owned
own-next user pid other some_owned = go user.owned some_owned
  where
    go :
        (ps : List ℕ)
        → ps ≢ []
        → owns (append_owned ps pid) other ≡ (if pid == other then true else owns ps other)
    go [] h = absurd (h refl)
    go (p ∷ ps) h = owns-append (p ∷ ps) pid other
