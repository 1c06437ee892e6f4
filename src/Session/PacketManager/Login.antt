-- ===== src/Session/PacketManager/Login.antt =====
-- PacketManager.cpp: the login of a client, from its request to the answer, and how a client can
-- answer itself.
use unreal5_gas.Base.{
  ℕ, ◌+◌, ◌-◌, ◌≡◌, ◌≢◌, refl, sym, ap, ◌∙◌, Option, none, some, List, [], ◌∷◌, ◌++◌, length, arith,
  append_assoc, length-append, drop,
}
use unreal5_gas.Base.Dict.{find}
use unreal5_gas.Session.Packet.{
  DataPtr, in_buffer, packet_bytes, header_bytes, login_request, login_response,
  packet_header_length, login_response_packet_size,
}
use unreal5_gas.Session.User.{User, set_login, login}
use unreal5_gas.Session.DoubleBuffer.{enqueue_write_packet}
use unreal5_gas.Session.UserManager.{get_user_by_conn_idx, find_user_index_by_id, put_user}
use unreal5_gas.Session.UserManager.Registry.{get_user-put_user_self, add_user_at}
use unreal5_gas.Session.PacketManager.{
  Server, Build, bytes_at, c_string, serve_client, process_recv_packet, process_login,
  process_login_response, response_bytes, send,
}
use unreal5_gas.Session.PacketManager.Response.{response_accepted, c_string-append}
use unreal5_gas.Session.PacketManager.Dispatch.{
  HasPacket, serve_client-cut, bytes_at-cut, cut_info, after_cut,
}

packet-response :
    (type : ℕ) (field : List ℕ) (result : ℕ)
    → length field ≡ 33
    → packet_bytes login_response type (field ++ (result ∷ [])) ≡ response_bytes type field result
packet-response type field result len =
    ap
      (λ n.
        header_bytes (record { packet_length = n; packet_id = login_response; type = type })
        ++ (field ++ (result ∷ [])))
      {x = packet_header_length + length (field ++ (result ∷ []))} {y = login_response_packet_size}
      (omega (arith, length-append field (result ∷ [])))

-- Neither of the enumerators that Packet.h lacks takes the place of `id`.
pub record IsApart (id : ℕ) (b : Build) : Type 0 where
  pub request : id ≢ b.lobby_request
  pub response : id ≢ b.lobby_response

dispatch_response :
    (b : Build) (i n : ℕ) (u : User) (s : Server)
    → IsApart login_response b
    → process_recv_packet b (cut_info i login_response n u) s
      ≡ process_login_response i n (in_buffer u.index u.r_pos) s
unfolding process_recv_packet
dispatch_response b i n u s a = ground arith

dispatch_request :
    (b : Build) (i n : ℕ) (u : User) (s : Server)
    → IsApart login_request b
    → process_recv_packet b (cut_info i login_request n u) s
      ≡ process_login b i n (in_buffer u.index u.r_pos) s
unfolding process_recv_packet
dispatch_request b i n u s a = ground arith

-- A client that sends a `LOGIN_RESPONSE` of its own, with result 1, is logged in under whatever id it
-- writes into it. The database is not asked: its queue stays as it is.
pub forged_login :
    (b : Build) (i : ℕ) (waiting : List ℕ) (type : ℕ) (field rest id : List ℕ) (u : User)
    (s : Server)
    → IsApart login_response b
    → HasPacket i waiting login_response type (field ++ (1 ∷ [])) rest u s
    → length field ≡ 33
    → c_string field ≡ some id
    → (t : Server) × (v : User) × (serve_client b s ≡ some t)
      × (get_user_by_conn_idx t.users i ≡ some v)
      × (v.cur_domain_state ≡ login)
      × (v.user_id ≡ id)
      × (t.db_queue ≡ s.db_queue)
unfolding set_login
forged_login b i waiting type field rest id u s apart h len field_id =
    let (m, added, user_at) = add_user_at id i cut.users u' at_i in
    (
      send i (response_bytes type field 1) (record cut { users = m }),
      set_login id u',
      serve_client-cut b i waiting login_response type payload rest u s h
          ∙ dispatch_response b i n u cut apart
          ∙ ap (λ k. process_login_response i k ptr cut) {x = n} {y = 39}
              (omega (arith, length-append field (1 ∷ [])))
          ∙ response_accepted i ptr cut type field _ id m len field_id added at_ptr,
      user_at,
      refl,
      refl,
      refl,
    )
  where
    payload : List ℕ
    payload = field ++ (1 ∷ [])

    n : ℕ
    n = packet_header_length + length payload

    ptr : DataPtr
    ptr = in_buffer u.index u.r_pos

    u' : User
    u' = record u { r_pos = u.r_pos + n }

    cut : Server
    cut = after_cut i waiting n u s

    at_i : get_user_by_conn_idx cut.users i ≡ some u'
    at_i = get_user-put_user_self s.users i u u' h.user_at

    at_ptr :
        bytes_at ptr cut
        ≡ some (
            response_bytes type field 1
            ++ (rest ++ drop (u.w_pos - u.r_pos) (drop u.r_pos u.packet_data_buffer)))
    at_ptr =
        bytes_at-cut b i waiting login_response type payload rest u s h
        ∙ ap
            (λ bytes.
              some
                (bytes ++ (rest ++ drop (u.w_pos - u.r_pos) (drop u.r_pos u.packet_data_buffer))))
            (packet-response type field 1 len)

-- What a login request comes to, by the connection that is logged in under its id: without one the
-- request goes to the database, with one the client is told so (result 4).
abbrev pub login_step : Option ℕ → Build → ℕ → User → Server → Server
login_step none b i u s = record s {
  db_queue = enqueue_write_packet (cut_info i login_request 71 u) s.db_queue;
}
login_step (some j) b i u s = send i (response_bytes b.stack_type b.stack_id 4) s

process_login_cases :
    (b : Build) (i : ℕ) (u : User) (s : Server) (bytes id : List ℕ) (o : Option ℕ)
    → bytes_at (in_buffer u.index u.r_pos) s ≡ some bytes
    → c_string (drop 5 bytes) ≡ some id
    → find id s.users.user_id_dictionary ≡ o
    → process_login b i 71 (in_buffer u.index u.r_pos) s ≡ some (login_step o b i u s)
unfolding process_login find_user_index_by_id
process_login_cases b i u s bytes id none at_ptr at_id e = rw (at_ptr, at_id, e)
process_login_cases b i u s bytes id (some j) at_ptr at_id e = rw (at_ptr, at_id, e)

-- A well-formed login request of a client is answered, or handed to the database with a pointer to
-- its bytes, by whether its id is in the dictionary; no user changes but in its read position.
pub login_request_step :
    (b : Build) (i : ℕ) (waiting : List ℕ) (type : ℕ) (field pw rest id : List ℕ) (u : User)
    (s : Server)
    → IsApart login_request b
    → HasPacket i waiting login_request type (field ++ pw) rest u s
    → length (field ++ pw) ≡ 66
    → c_string field ≡ some id
    → serve_client b s
      ≡ some (login_step (find id s.users.user_id_dictionary) b i u (after_cut i waiting 71 u s))
unfolding put_user
login_request_step b i waiting type field pw rest id u s apart h len field_id =
    serve_client-cut b i waiting login_request type (field ++ pw) rest u s h
    ∙ dispatch_request b i n u (after_cut i waiting n u s) apart
    ∙ process_login-size
    ∙ process_login_cases b i u (after_cut i waiting 71 u s) bytes id
        (find id s.users.user_id_dictionary) at_ptr at_id refl
  where
    n : ℕ
    n = packet_header_length + length (field ++ pw)

    bytes : List ℕ
    bytes =
        packet_bytes login_request type (field ++ pw)
        ++ (rest ++ drop (u.w_pos - u.r_pos) (drop u.r_pos u.packet_data_buffer))

    size : n ≡ 71
    size = omega arith

    process_login-size :
        process_login b i n (in_buffer u.index u.r_pos) (after_cut i waiting n u s)
        ≡ process_login b i 71 (in_buffer u.index u.r_pos) (after_cut i waiting 71 u s)
    process_login-size =
        ap (λ k. process_login b i k (in_buffer u.index u.r_pos) (after_cut i waiting k u s)) size

    at_ptr : bytes_at (in_buffer u.index u.r_pos) (after_cut i waiting 71 u s) ≡ some bytes
    at_ptr =
        ap (λ k. bytes_at (in_buffer u.index u.r_pos) (after_cut i waiting k u s)) (sym size)
        ∙ bytes_at-cut b i waiting login_request type (field ++ pw) rest u s h

    at_id : c_string (drop 5 bytes) ≡ some id
    at_id = ap c_string (append_assoc field pw _) ∙ c_string-append field _ field_id
