-- ===== src/User.antt =====
-- kernel/system/user.c. The list that `admin` heads is a list here; `sha256_easy_hash_hex` of the
-- vendored kernel/lib/crypt is a parameter, and so are the random numbers of the salts.
pub mod Laws
mod Examples
use veil_os.Base.{
  ℕ, ◌+◌, ◌%◌, ◌^◌, Bool, true, false, Option, none, some, List, [], ◌∷◌, ◌++◌, ltb, ◌==◌,
  if◌then◌else◌,
}

-- `owned` is the list of processes that the pointer of that name leads to.
pub record User : Type 0 where
  pub id : ℕ
  pub name : List ℕ
  pub passline : List ℕ
  pub owned : List ℕ

-- The loop of `get_uid`; an id is an `unsigned long`.
unfoldable pub max_id : ℕ → List User → ℕ
max_id max [] = max
max_id max (u ∷ us) = max_id (if ltb max u.id then u.id else max) us

unfoldable pub get_uid : List User → ℕ
get_uid users = (max_id 0 users + 1) % 2 ^ 64

unfoldable pub new_user :
    (hash : List ℕ → List ℕ) → List User → (salt name password : List ℕ) → User
new_user hash users salt name password = record {
  id = get_uid users;
  name = name;
  passline = salt ++ b';' ∷ hash (salt ++ password);
  owned = [];
}

-- `admin` if the list is empty, and the `next` of the last user if not.
unfoldable pub register_user :
    (hash : List ℕ → List ℕ) → List User → (salt name password : List ℕ) → List User
register_user hash users salt name password = users ++ new_user hash users salt name password ∷ []

unfoldable pub get_user : List User → ℕ → Option User
get_user [] uid = none
get_user (u ∷ us) uid = if u.id == uid then some u else get_user us uid

-- `GetUserFromProcess`: `task_uid` is the user of the task that `GetTaskByPID` finds.
unfoldable pub get_user_from_process :
    (task_uid : ℕ → Option ℕ) → List User → (pid : ℕ) → Option User
get_user_from_process task_uid [] pid =
    if pid == 0 then none else elim (task_uid pid) [ none ↦ none | some uid ↦ none ]
get_user_from_process task_uid (admin ∷ us) pid =
    if pid == 0
    then some admin
    else elim (task_uid pid) [ none ↦ none | some uid ↦ get_user (admin ∷ us) uid ]

unfoldable pub users_init :
    (hash : List ℕ → List ℕ)
    → (admin_pass admin_salt guest_salt admin_name guest_name : List ℕ) → List User
users_init hash admin_pass admin_salt guest_salt admin_name guest_name =
    register_user hash (register_user hash [] admin_salt admin_name admin_pass) guest_salt
      guest_name []

unfoldable pub append_owned : List ℕ → (pid : ℕ) → List ℕ
append_owned [] pid = []
append_owned (p ∷ ps) pid = (p ∷ ps) ++ pid ∷ []

-- `UserOwnProcess` gets a copy of the user: the list that `owned` points at is shared with the
-- caller, the pointer is not. The result is the list as the caller sees it.
unfoldable pub user_own_process : User → (pid : ℕ) → User
user_own_process user pid = record user { owned = append_owned user.owned pid }

unfoldable pub owns : List ℕ → ℕ → Bool
owns [] pid = false
owns (p ∷ ps) pid = if p == pid then true else owns ps pid

unfoldable pub check_owns_process : User → (pid : ℕ) → Bool
check_owns_process user pid = owns user.owned pid
