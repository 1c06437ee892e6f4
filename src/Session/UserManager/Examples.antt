-- ===== src/Session/UserManager/Examples.antt =====
-- Tests of UserManager.h's model.
use unreal5_gas.Base.{ℕ, zero, suc, ◌≡◌, refl, some, none, List, [], ◌∷◌, arith, get_elem?}
use unreal5_gas.Base.Dict.{find, insert, bytes_eq, bytes_eq_iff}
use unreal5_gas.Base.Int.{pos}
use unreal5_gas.Session.User.{User, new_user, set_login, none_state}
use unreal5_gas.Session.UserManager.{
  UserManager, IsCoherent, add_user, delete_user_info, get_user_by_conn_idx, find_user_index_by_id,
}
use unreal5_gas.Session.UserManager.Registry.{
  add_user-IsCoherent, delete_user_info-IsCoherent, add_user_taken,
}

abbrev name : List ℕ
name = 97 ∷ []

abbrev idle : UserManager
idle = record { max_user_cnt = 1; user_obj_pool = new_user ∷ []; user_id_dictionary = [] }

idle_user :
    (i : ℕ) (u : User) → get_elem? (new_user ∷ []) i ≡ some u → u.cur_domain_state ≡ none_state
unfolding new_user
idle_user zero u e = cc
idle_user (suc i) u e = cc

idle-IsCoherent : IsCoherent idle
unfolding find
idle-IsCoherent = record {
  entry_user = λ id i e. cc;
  user_entry = λ i u e h. absurd (h (idle_user i u e));
}

add_user-IsCoherent_example : (n : UserManager) × (add_user name 0 idle ≡ some n) × IsCoherent n
unfolding get_user_by_conn_idx new_user find
add_user-IsCoherent_example =
    add_user-IsCoherent name 0 idle new_user idle-IsCoherent refl refl refl

abbrev member : User
member = set_login name new_user

abbrev busy : UserManager
busy = record { max_user_cnt = 2; user_obj_pool = member ∷ []; user_id_dictionary = (name, 0) ∷ [] }

busy_entry :
    (i : ℕ) (u : User)
    → get_elem? (member ∷ []) i ≡ some u
    → find u.user_id ((name, 0) ∷ []) ≡ some i
unfolding set_login new_user find
busy_entry zero u e = ground (arith, bytes_eq_iff name u.user_id)
busy_entry (suc i) u e = cc

busy-IsCoherent : IsCoherent busy
unfolding find set_login
busy-IsCoherent = record {
  entry_user = λ id i e.
      (member, ground (arith, bytes_eq_iff name id), ground (arith, bytes_eq_iff name id), λ x. cc);
  user_entry = λ i u e h. busy_entry i u e;
}

delete_user_info-IsCoherent_example :
    IsCoherent (delete_user_info 0 member busy)
    × (find name (delete_user_info 0 member busy).user_id_dictionary ≡ none)
unfolding get_user_by_conn_idx set_login
delete_user_info-IsCoherent_example =
    delete_user_info-IsCoherent 0 busy member busy-IsCoherent refl (λ x. cc)

abbrev crowd : UserManager
crowd = record busy { user_obj_pool = member ∷ new_user ∷ [] }

abbrev doubled : UserManager
doubled = record busy { user_obj_pool = member ∷ member ∷ [] }

add_user_taken_example : (find_user_index_by_id doubled name ≡ pos 0) × ¬ IsCoherent doubled
unfolding get_user_by_conn_idx find add_user insert set_login bytes_eq
add_user_taken_example =
    add_user_taken name 1 0 crowd doubled new_user refl refl (λ e. omega arith) refl
