-- ===== src/Session/DbAgent/Examples.antt =====
-- Tests of DBAgent.cpp's model.
use unreal5_gas.Base.{
  ℕ, ◌↔◌, ◌⊎◌, ◌≡◌, refl, true, false, some, none, List, [], ◌∷◌, ◌++◌, arith, replicate,
}
use unreal5_gas.Base.Fallible.{◌>>=◌}
use unreal5_gas.Session.Packet.{DataPtr, block, packet_bytes, login_request}
use unreal5_gas.Session.User.{User, login, new_user}
use unreal5_gas.Session.DoubleBuffer.{new_buffer}
use unreal5_gas.Session.UserManager.{get_user_by_conn_idx}
use unreal5_gas.Session.PacketManager
use unreal5_gas.Session.PacketManager.{Server, c_string, bytes_at, response_bytes}
use unreal5_gas.Session.DbAgent.{
  Outcome, unset, closed, build_query, process_login, process_login_query, query_middle,
}
use unreal5_gas.Session.DbAgent.Answers.{login_round_trip}
use unreal5_gas.Session.DbAgent.Query.{build_query-injective, build_query_injection}
use unreal5_gas.Session.DbAgent.Faults.{process_login_query_fault}

-- A database in which every query finds one row.
abbrev generous : List ℕ → Outcome
generous query = record {
  init_fails = false;
  connects = true;
  query_ok = true;
  rows = some 1;
  errno = 0;
}

abbrev server : Server
server = record {
  users = record { max_user_cnt = 1; user_obj_pool = new_user ∷ []; user_id_dictionary = [] };
  incoming = [];
  system_queue = [];
  db_queue = new_buffer;
  server_queue = new_buffer;
  sent = [];
}

abbrev name_field : List ℕ
name_field = 97 ∷ replicate 32 0

abbrev request : DataPtr
request = block (packet_bytes login_request 0 (name_field ++ name_field))

login_round_trip_example :
    (t : Server) × (r : Server) × (v : User) × (process_login generous 0 request unset server
      ≡ some (closed, t))
    × ((PacketManager.process_queue t >>= PacketManager.process_queue) ≡ some r)
    × (get_user_by_conn_idx r.users 0 ≡ some v)
    × (v.cur_domain_state ≡ login)
    × (v.user_id ≡ 97 ∷ [])
    × (r.sent ≡ (0, response_bytes 0 name_field 1) ∷ [])
unfolding c_string bytes_at get_user_by_conn_idx new_buffer
login_round_trip_example =
    login_round_trip generous 0 request unset server 0 name_field name_field [] (97 ∷ []) (97 ∷ [])
      refl refl refl refl refl refl refl new_user refl refl refl refl

abbrev name : List ℕ
name = 97 ∷ []

abbrev pw : List ℕ
pw = 98 ∷ 39 ∷ []

build_query-injective_example : (name ≡ name) × (pw ≡ pw)
build_query-injective_example =
    build_query-injective name name pw pw ((λ e. omega arith), tt) ((λ e. omega arith), tt) refl

build_query_injection_example :
    build_query (97 ∷ (query_middle ++ (98 ∷ []))) (99 ∷ [])
    ≡ build_query (97 ∷ []) (98 ∷ (query_middle ++ (99 ∷ [])))
build_query_injection_example = build_query_injection (97 ∷ []) (98 ∷ []) (99 ∷ [])

abbrev unreachable : Outcome
unreachable = record {
  init_fails = false;
  connects = false;
  query_ok = false;
  rows = none;
  errno = 2003;
}

process_login_query_fault_example : (process_login_query unreachable false unset ≡ none) ↔ (
    ((unreachable.init_fails ≡ false) × (unreachable.connects ≡ false))
    ⊎ ((unreachable.init_fails ≡ true) × (unset ≡ closed)))
process_login_query_fault_example = process_login_query_fault unreachable false unset
