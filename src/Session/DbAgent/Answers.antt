-- ===== src/Session/DbAgent/Answers.antt =====
-- DBAgent.cpp: what a login request is answered, and how the answer logs the client in.
use unreal5_gas.Base.{
  ℕ, ◌+◌, ◌≡◌, refl, sym, ap, ◌∙◌, Bool, true, false, ◌&&◌, Option, none, some, List, [], ◌∷◌, ◌++◌,
  arith, length, drop, append_assoc, append-nil, ltb, ◌==◌, if◌then◌else◌,
}
use unreal5_gas.Base.Fallible.{◌>>=◌}
use unreal5_gas.Base.Slices.{drop-append_eq}
use unreal5_gas.Session.Packet.{
  DataPtr, packet_bytes, login_request, login_response, PacketInfo, block,
}
use unreal5_gas.Session.User.{User, set_login, login}
use unreal5_gas.Session.DoubleBuffer.{
  DoubleBuffer, swap_queue, dequeue_read_packet, enqueue_write_packet,
}
use unreal5_gas.Session.UserManager.{get_user_by_conn_idx}
use unreal5_gas.Session.UserManager.Registry.{add_user_at}
use unreal5_gas.Session.PacketManager
use unreal5_gas.Session.PacketManager.{
  Server, bytes_at, c_string, read_bytes, response_bytes, send, process_login_response,
}
use unreal5_gas.Session.PacketManager.Response.{read_bytes-append, response_accepted}
use unreal5_gas.Session.DbAgent.{
  Handle, closed, Outcome, process_login_query, process_login, build_query, login_code, reply,
  to_server,
}
use unreal5_gas.Session.DbAgent.Query.{fits_query-build_query}

-- The code by what the database did: 3 where the exchange failed, or there was no result; else 1 or 2
-- by whether the result has a row.
abbrev rows_code : Option ℕ → ℕ
rows_code none = 3
rows_code (some n) = if ltb 0 n then 1 else 2

abbrev pub outcome_code : Outcome → ℕ
outcome_code o = if o.query_ok && o.errno == 0 then rows_code o.rows else 3

query_code :
    (o : Outcome) (h : Handle) (rows : Option ℕ)
    → o.init_fails ≡ false
    → o.connects ≡ true
    → o.rows ≡ rows
    → (returned result : Bool) × (process_login_query o false h ≡ some (returned, result, closed))
      × (login_code returned result ≡ outcome_code o)
unfolding process_login_query
query_code o h none up connected e = (false, false, ground arith, ground arith)
query_code o h (some n) up connected e = (
  o.query_ok && o.errno == 0,
  o.query_ok && (o.errno == 0 && ltb 0 n),
  ground arith,
  ground arith,
)

-- An empty queue that was swapped once.
abbrev emptied : DoubleBuffer → DoubleBuffer
emptied q = record q { read_queue = []; write_queue = []; swap_count = q.swap_count + 1 }

-- The first round finds nothing and swaps, the second one serves the answer.
two_rounds :
    (p : PacketInfo) (s : Server)
    → s.server_queue.read_queue ≡ []
    → s.server_queue.write_queue ≡ []
    → p.packet_id ≡ login_response
    → (PacketManager.process_queue (to_server p s) >>= PacketManager.process_queue)
      ≡ process_login_response p.client_index p.data_size p.data_ptr
          (record s { server_queue = emptied s.server_queue })
unfolding PacketManager.process_queue swap_queue dequeue_read_packet enqueue_write_packet
two_rounds p s no_read no_write answers = simp (no_read, no_write, answers)

module _ (mysql : List ℕ → Outcome) (i : ℕ) (ptr : DataPtr) (h : Handle) (s : Server) (type : ℕ)
    (id_field pw_field more id pw : List ℕ) (id_len : length id_field ≡ 33)
    (pw_len : length pw_field ≡ 33) (at_id : c_string id_field ≡ some id)
    (at_pw : c_string pw_field ≡ some pw) (up : (mysql (build_query id pw)).init_fails ≡ false)
    (connected : (mysql (build_query id pw)).connects ≡ true)
    (at_ptr : bytes_at ptr s
      ≡ some (packet_bytes login_request type (id_field ++ pw_field) ++ more)) where
  id_bytes : read_bytes 33 ((id_field ++ pw_field) ++ more) ≡ some id_field
  id_bytes =
      ap (read_bytes 33) (append_assoc id_field pw_field more)
      ∙ read_bytes-append 33 id_field (pw_field ++ more) (sym id_len)

  pw_bytes : read_bytes 33 (drop 33 ((id_field ++ pw_field) ++ more)) ≡ some pw_field
  pw_bytes =
      ap (λ b. read_bytes 33 (drop 33 b)) (append_assoc id_field pw_field more)
      ∙ ap (read_bytes 33) (drop-append_eq 33 id_field (pw_field ++ more) (sym id_len))
      ∙ read_bytes-append 33 pw_field more (sym pw_len)

  -- If the database can be reached, a login request is answered with the code of the outcome, under
  -- its own id field, in a block of its own; the connection to the database is closed.
  pub process_login_answer :
      process_login mysql i ptr h s
      ≡ some (closed, to_server (reply i id_field (outcome_code (mysql (build_query id pw)))) s)
  unfolding process_login
  process_login_answer =
      let (returned, result, asked, code) =
        query_code (mysql (build_query id pw)) h (mysql (build_query id pw)).rows up connected
          refl in
      rw (
        at_ptr,
        id_bytes,
        pw_bytes,
        at_id,
        at_pw,
        fits_query-build_query id_field pw_field id pw id_len pw_len at_id at_pw,
        asked,
        code,
      )

  -- From the answer to the login: if the result has a row, the connection `i` is there, its id is not
  -- in use and the queue of the server was empty, then two rounds of the server's loop, one that swaps
  -- and one that reads, log `i` in under the id of the request and send it the answer.
  pub login_round_trip :
      (u : User)
      → outcome_code (mysql (build_query id pw)) ≡ 1
      → get_user_by_conn_idx s.users i ≡ some u
      → s.server_queue.read_queue ≡ []
      → s.server_queue.write_queue ≡ []
      → (t : Server) × (r : Server) × (v : User) × (process_login mysql i ptr h s
          ≡ some (closed, t))
        × ((PacketManager.process_queue t >>= PacketManager.process_queue) ≡ some r)
        × (get_user_by_conn_idx r.users i ≡ some v)
        × (v.cur_domain_state ≡ login)
        × (v.user_id ≡ id)
        × (r.sent ≡ s.sent ++ ((i, response_bytes 0 id_field 1) ∷ []))
  unfolding set_login bytes_at
  login_round_trip u found at_i no_read no_write =
      let (m, added, user_at) = add_user_at id i s.users u at_i in
      (
        to_server (reply i id_field 1) s,
        send i (response_bytes 0 id_field 1)
            (record s { users = m; server_queue = emptied s.server_queue }),
        set_login id u,
        process_login_answer ∙ ap (λ c. some (closed, to_server (reply i id_field c) s)) found,
        two_rounds (reply i id_field 1) s no_read no_write refl
            ∙ response_accepted i (block (response_bytes 0 id_field 1))
                (record s { server_queue = emptied s.server_queue }) 0 id_field [] id m id_len at_id
                added (ap some (sym (append-nil (response_bytes 0 id_field 1)))),
        user_at,
        refl,
        refl,
        refl,
      )
