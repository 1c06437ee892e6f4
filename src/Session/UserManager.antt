-- ===== src/Session/UserManager.antt =====
-- UserManager.h: the pool of users, one for each connection, and the dictionary from the id of a
-- logged-in user to its connection.
pub mod Registry
pub mod Examples
use unreal5_gas.Base.{
  ℕ, zero, suc, ◌+◌, ◌≡◌, ◌≢◌, ◌⊎◌, Option, none, some, List, [], ◌∷◌, get_elem?, set,
}
use unreal5_gas.Base.Dict.{find, insert, erase}
use unreal5_gas.Base.Int.{ℤ, pos, negsuc}
use unreal5_gas.Session.User.{User, new_user, none_state}
use unreal5_gas.Session.User

-- `mCurrentUserCnt` is read and written by nothing in the server and is left out.
pub record UserManager : Type 0 where
  pub max_user_cnt : ℕ
  pub user_obj_pool : List User
  pub user_id_dictionary : List (List ℕ × ℕ)

-- The loop of `Init`, with `left` users still to make.
init_users : (left i : ℕ) → List User
init_users zero i = []
init_users (suc left) i = User.init (pos i) new_user ∷ init_users left (i + 1)

pub init : ℕ → UserManager
unfolding init_users
init max_user_count = record {
  max_user_cnt = max_user_count;
  user_obj_pool = init_users max_user_count 0;
  user_id_dictionary = [];
}

-- `mUserObjPool[i]`: `none` is a read past the end of the vector.
unfoldable pub get_user_by_conn_idx : UserManager → ℕ → Option User
get_user_by_conn_idx m i = get_elem? m.user_obj_pool i

-- `*mUserObjPool[i] = u`, for a user that the caller has changed.
unfoldable pub put_user : ℕ → User → UserManager → UserManager
put_user i u m = record m { user_obj_pool = set m.user_obj_pool i u }

-- -1 where the id is not known.
abbrev index_or_none : Option ℕ → ℤ
index_or_none none = negsuc 0
index_or_none (some i) = pos i

unfoldable pub find_user_index_by_id : UserManager → List ℕ → ℤ
find_user_index_by_id m id = index_or_none (find id m.user_id_dictionary)

abbrev add_login : List ℕ → ℕ → UserManager → Option User → Option UserManager
add_login id i m none = none
add_login id i m (some u) = some (record m {
  user_obj_pool = set m.user_obj_pool i (User.set_login id u);
  user_id_dictionary = insert id i m.user_id_dictionary;
})

-- `AddUser`, which always returns `ERROR_CODE::NONE`.
unfoldable pub add_user : List ℕ → ℕ → UserManager → Option UserManager
unfolding get_user_by_conn_idx
add_user id i m = add_login id i m (get_user_by_conn_idx m i)

-- `DeleteUserInfo` of the user `u` that stands at `i`.
unfoldable pub delete_user_info : ℕ → User → UserManager → UserManager
unfolding put_user
delete_user_info i u m =
    put_user i (User.clear u)
      (record m { user_id_dictionary = erase u.user_id m.user_id_dictionary })

-- The dictionary and the users agree: each entry leads to a user that is logged in under its id, and
-- each user that is logged in is found under its id.
pub record IsCoherent (m : UserManager) : Type 0 where
  pub entry_user :
      (id : List ℕ) (i : ℕ)
      → find id m.user_id_dictionary ≡ some i
      → (u : User) × (get_elem? m.user_obj_pool i ≡ some u)
        × (u.user_id ≡ id)
        × (u.cur_domain_state ≢ none_state)
  pub user_entry :
      (i : ℕ) (u : User)
      → get_elem? m.user_obj_pool i ≡ some u
      → u.cur_domain_state ≢ none_state
      → find u.user_id m.user_id_dictionary ≡ some i
