-- ===== src/User/Examples.antt =====
-- Runs of kernel/system/user.c with a hash function that keeps the input.
use veil_os.Base.{ℕ, ◌≡◌, ◌≢◌, none, some, List, [], ◌∷◌, ◌==◌, if◌then◌else◌, arith}
use veil_os.User.{User, get_uid, new_user, users_init, register_user, get_user, max_id}
use veil_os.User.Laws.{Counted, get-register}

abbrev identity : List ℕ → List ℕ
identity bytes = bytes

abbrev users : List User
users = users_init identity (b'p' ∷ []) (1 ∷ 2 ∷ []) (3 ∷ 4 ∷ []) (b'a' ∷ []) (b'g' ∷ [])

users-Counted : Counted users
unfolding users_init register_user new_user get_uid max_id
users-Counted = (omega arith, (omega arith, tt))

get-register_example :
    (get_user users (get_uid users) ≡ none)
    × (get_uid users ≢ 0)
    × (get_user (register_user identity users (5 ∷ []) (b'x' ∷ []) (b'y' ∷ [])) 3 ≡ (
        if get_uid users == 3
        then some (new_user identity users (5 ∷ []) (b'x' ∷ []) (b'y' ∷ []))
        else get_user users 3))
get-register_example = get-register identity users (5 ∷ []) (b'x' ∷ []) (b'y' ∷ []) 3 users-Counted
