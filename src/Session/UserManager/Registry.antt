-- ===== src/Session/UserManager/Registry.antt =====
-- UserManager.h: what keeps the dictionary of logged-in users right, and what breaks it.
use unreal5_gas.Base.{
  ℕ, ◌≡◌, ◌≢◌, sym, ◌∙◌, inl, inr, none, some, List, get_elem?, set, arith, get_elem?-set, ◌==◌,
  Bool-cases, if◌then◌else◌,
}
use unreal5_gas.Base.Dict.{
  find, insert, find-insert, find-erase, insert_taken, bytes_eq, bytes_eq_iff,
}
use unreal5_gas.Base.Int.{pos}
use unreal5_gas.Session.User.{User, set_login, clear, none_state}
use unreal5_gas.Session.UserManager.{
  UserManager, IsCoherent, add_user, delete_user_info, get_user_by_conn_idx, find_user_index_by_id,
  put_user,
}

-- Logging a user in, under an id that is not in use, on a connection that is not logged in, succeeds
-- and keeps the dictionary and the users in agreement.
pub add_user-IsCoherent :
    (id : List ℕ) (i : ℕ) (m : UserManager) (u : User)
    → IsCoherent m
    → get_user_by_conn_idx m i ≡ some u
    → u.cur_domain_state ≡ none_state
    → find id m.user_id_dictionary ≡ none
    → (n : UserManager) × (add_user id i m ≡ some n) × IsCoherent n
unfolding add_user get_user_by_conn_idx set_login
add_user-IsCoherent id i m u c at_i idle fresh = (
  record m {
    user_obj_pool = set m.user_obj_pool i (set_login id u);
    user_id_dictionary = insert id i m.user_id_dictionary;
  },
  rw (at_i, add_user),
  record {
    entry_user = λ k j e. elim (Bool-cases (bytes_eq id k)) [
      | inl t ↦ (
        set_login id u,
        ground (arith, found k j e, written j (set_login id u)),
        (bytes_eq_iff id k).0 t,
        λ x. cc,
      )
      | inr f ↦
          let (x, at_j, same, busy) = c.entry_user k j (ground (arith, found k j e)) in
          (x, ground (arith, written j (set_login id u), busy), same, busy)
    ];
    user_entry = λ j v e h. elim (Bool-cases (i == j)) [
      | inl t ↦ ground (
        arith,
        written j (set_login id u),
        find-insert id v.user_id i m.user_id_dictionary fresh,
        bytes_eq_iff id v.user_id,
      )
      | inr f ↦
          let held = c.user_entry j v (ground (arith, written j (set_login id u))) h in
          ground (
            arith,
            held,
            find-insert id v.user_id i m.user_id_dictionary fresh,
            bytes_eq_iff id v.user_id,
          )
    ];
  },
)
  where
    found :
        (k : List ℕ) (j : ℕ)
        → find k (insert id i m.user_id_dictionary) ≡ some j
        → (if bytes_eq id k then some i else find k m.user_id_dictionary) ≡ some j
    found k j e = sym (find-insert id k i m.user_id_dictionary fresh) ∙ e

    written :
        (j : ℕ) (v : User)
        → get_elem? (set m.user_obj_pool i v) j
          ≡ (if i == j then some v else get_elem? m.user_obj_pool j)
    written j v = get_elem?-set m.user_obj_pool i j u v at_i

-- Logging a user out forgets its id, and keeps the dictionary and the users in agreement.
pub delete_user_info-IsCoherent :
    (i : ℕ) (m : UserManager) (u : User)
    → IsCoherent m
    → get_user_by_conn_idx m i ≡ some u
    → u.cur_domain_state ≢ none_state
    → IsCoherent (delete_user_info i u m)
      × (find u.user_id (delete_user_info i u m).user_id_dictionary ≡ none)
unfolding delete_user_info get_user_by_conn_idx clear
delete_user_info-IsCoherent i m u c at_i busy = (
  record {
    entry_user = λ k j e.
        let (x, at_j, same, busy_x) =
          c.entry_user k j (ground (arith, find-erase u.user_id k m.user_id_dictionary)) in
        (
          x,
          ground (
            arith,
            written j,
            same,
            find-erase u.user_id k m.user_id_dictionary,
            bytes_eq_iff u.user_id k,
          ),
          same,
          busy_x,
        );
    user_entry = λ j v e h. elim (Bool-cases (i == j)) [
      | inl t ↦ absurd (h (ground (arith, written j)))
      | inr f ↦
          let held = c.user_entry j v (ground (arith, written j)) h in
          ground (
            arith,
            held,
            c.user_entry i u at_i busy,
            find-erase u.user_id v.user_id m.user_id_dictionary,
            bytes_eq_iff u.user_id v.user_id,
          )
    ];
  },
  ground (
    arith,
    find-erase u.user_id u.user_id m.user_id_dictionary,
    bytes_eq_iff u.user_id u.user_id,
  ),
)
  where
    written :
        (j : ℕ)
        → get_elem? (set m.user_obj_pool i (clear u)) j
          ≡ (if i == j then some (clear u) else get_elem? m.user_obj_pool j)
    written j = get_elem?-set m.user_obj_pool i j u (clear u) at_i

-- Logging a second connection in under an id that another connection already uses breaks the
-- agreement: the old entry stays, so the second user is logged in and not found.
pub add_user_taken :
    (id : List ℕ) (i j : ℕ) (m n : UserManager) (u : User)
    → get_user_by_conn_idx m i ≡ some u
    → find id m.user_id_dictionary ≡ some j
    → i ≢ j
    → add_user id i m ≡ some n
    → (find_user_index_by_id n id ≡ pos j) × ¬ IsCoherent n
unfolding add_user get_user_by_conn_idx set_login find_user_index_by_id
add_user_taken id i j m n u at_i taken apart added = (
  ground (arith, insert_taken id i j m.user_id_dictionary taken),
  λ c.
      let held =
        c.user_entry i (set_login id u)
          (ground (arith, get_elem?-set m.user_obj_pool i i u (set_login id u) at_i)) (λ e. cc) in
      ground (arith, held, insert_taken id i j m.user_id_dictionary taken),
)

-- The user that a changed manager has at a place.
pub get_user-put_user :
    (m : UserManager) (i j : ℕ) (u v : User)
    → get_user_by_conn_idx m i ≡ some u
    → get_user_by_conn_idx (put_user i v m) j
      ≡ (if i == j then some v else get_user_by_conn_idx m j)
unfolding get_user_by_conn_idx put_user
get_user-put_user m i j u v at_i = get_elem?-set m.user_obj_pool i j u v at_i

pub get_user-put_user_self :
    (m : UserManager) (i : ℕ) (u v : User)
    → get_user_by_conn_idx m i ≡ some u
    → get_user_by_conn_idx (put_user i v m) i ≡ some v
get_user-put_user_self m i u v at_i = get_user-put_user m i i u v at_i ∙ ground arith

pub add_user_lem :
    (id : List ℕ) (i : ℕ) (m : UserManager) (u : User)
    → get_user_by_conn_idx m i ≡ some u
    → add_user id i m
      ≡ some (record m {
        user_obj_pool = set m.user_obj_pool i (set_login id u);
        user_id_dictionary = insert id i m.user_id_dictionary;
      })
unfolding add_user
add_user_lem id i m u at_i = rw at_i

pub add_user_at :
    (id : List ℕ) (i : ℕ) (m : UserManager) (u : User)
    → get_user_by_conn_idx m i ≡ some u
    → (n : UserManager) × (add_user id i m ≡ some n)
      × (get_user_by_conn_idx n i ≡ some (set_login id u))
unfolding get_user_by_conn_idx
add_user_at id i m u at_i = (
  record m {
    user_obj_pool = set m.user_obj_pool i (set_login id u);
    user_id_dictionary = insert id i m.user_id_dictionary;
  },
  add_user_lem id i m u at_i,
  get_elem?-set m.user_obj_pool i i u (set_login id u) at_i ∙ ground arith,
)
