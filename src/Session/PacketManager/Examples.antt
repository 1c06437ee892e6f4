-- ===== src/Session/PacketManager/Examples.antt =====
-- Tests of PacketManager.cpp's model, with a server of one connection.
use unreal5_gas.Base.{
  ℕ, ◌+◌, ◌^◌, ◌≤◌, ◌<◌, ◌≡◌, refl, some, List, [], ◌∷◌, ◌++◌, arith, length, replicate,
}
use unreal5_gas.Base.Dict.{find}
use unreal5_gas.Session.Packet.{
  PacketInfo, null, packet_bytes, packet_header_length, login_request, login_response,
  sys_user_connect,
}
use unreal5_gas.Session.User.{User, login, new_user}
use unreal5_gas.Session.User.Samples.{user_with, user_with-IsValid, unread-user_with}
use unreal5_gas.Session.DoubleBuffer.{new_buffer}
use unreal5_gas.Session.UserManager.{get_user_by_conn_idx}
use unreal5_gas.Session.PacketManager.{Server, Build, serve_client, c_string}
use unreal5_gas.Session.PacketManager.Dispatch.{HasPacket, after_cut, serve_client_system_id}
use unreal5_gas.Session.PacketManager.Login.{login_step, login_request_step, forged_login}

abbrev build : Build
build = record {
  lobby_request = 207;
  lobby_response = 208;
  stack_type = 0;
  stack_id = replicate 33 0;
}

abbrev server_of : User → List ℕ → List PacketInfo → Server
server_of u incoming system = record {
  users = record { max_user_cnt = 1; user_obj_pool = u ∷ []; user_id_dictionary = [] };
  incoming = incoming;
  system_queue = system;
  db_queue = new_buffer;
  server_queue = new_buffer;
  sent = [];
}

abbrev sender : ℕ → List ℕ → List ℕ → User
sender id payload rest = user_with (packet_bytes id 0 payload ++ rest)

sender-HasPacket :
    (id : ℕ) (payload rest : List ℕ)
    → length (packet_bytes id 0 payload ++ rest) ≤ 8096
    → packet_header_length + length payload < 2 ^ 16
    → HasPacket 0 [] id 0 payload rest
        (sender id payload rest)
        (server_of (sender id payload rest) (0 ∷ []) [])
unfolding get_user_by_conn_idx new_user
sender-HasPacket id payload rest fits small = record {
  queued = refl;
  user_at = refl;
  valid = user_with-IsValid (packet_bytes id 0 payload ++ rest) fits;
  own_index = refl;
  small = small;
  first = unread-user_with (packet_bytes id 0 payload ++ rest);
}

abbrev name_field : List ℕ
name_field = 97 ∷ replicate 32 0

abbrev claimed : List ℕ
claimed = name_field ++ (1 ∷ [])

forged_login_example :
    (t : Server) × (v : User) × (serve_client build
        (server_of (sender login_response claimed []) (0 ∷ []) [])
      ≡ some t)
    × (get_user_by_conn_idx t.users 0 ≡ some v)
    × (v.cur_domain_state ≡ login)
    × (v.user_id ≡ 97 ∷ [])
    × (t.db_queue ≡ new_buffer)
unfolding c_string
forged_login_example =
    forged_login build 0 [] 0 name_field [] (97 ∷ []) (sender login_response claimed [])
      (server_of (sender login_response claimed []) (0 ∷ []) [])
      (record { request = λ e. omega arith; response = λ e. omega arith })
      (sender-HasPacket login_response claimed [] (omega arith) (omega arith)) refl refl

abbrev asking : User
asking = sender login_request (name_field ++ name_field) []

login_request_step_example :
    serve_client build (server_of asking (0 ∷ []) [])
    ≡ some (
        login_step
          (find (97 ∷ []) [])
          build
          0
          asking
          (after_cut 0 [] 71 asking (server_of asking (0 ∷ []) [])))
unfolding c_string
login_request_step_example =
    login_request_step build 0 [] 0 name_field name_field [] (97 ∷ []) asking
      (server_of asking (0 ∷ []) [])
      (record { request = λ e. omega arith; response = λ e. omega arith })
      (sender-HasPacket login_request (name_field ++ name_field) [] (omega arith) (omega arith))
      refl refl

abbrev twice : User
twice = sender 205 (1 ∷ []) (packet_bytes 205 0 (2 ∷ []))

abbrev notice : PacketInfo
notice = record { client_index = 0; packet_id = sys_user_connect; data_size = 0; data_ptr = null }

abbrev intruder : User
intruder = sender 11 [] []

serve_client_system_id_example :
    serve_client build (server_of intruder (0 ∷ []) [])
    ≡ some (after_cut 0 [] 5 intruder (server_of intruder (0 ∷ []) []))
serve_client_system_id_example =
    serve_client_system_id build 0 [] 11 0 [] [] intruder (server_of intruder (0 ∷ []) [])
      (sender-HasPacket 11 [] [] (omega arith) (omega arith)) (omega arith)
