-- ===== src/Session/PacketManager.antt =====
-- PacketManager.cpp: the queues of what came in, the two loops that serve them, and the handlers.
-- `none` is a fault: a read or write outside a block, or through a null pointer.
pub mod Dispatch
pub mod Response
pub mod Login
pub mod Batching
pub mod Examples
use unreal5_gas.Base.{
  ℕ, ◌+◌, ◌≡◌, Bool, true, false, not, ◌&&◌, Option, none, some, List, [], ◌∷◌, ◌++◌, ◌==◌, ltb,
  leb, if◌then◌else◌, length, get_elem?, take, drop,
}
use unreal5_gas.Base.Fallible.{◌>>=◌}
use unreal5_gas.Base.Int.{ℤ, pos, negsuc}
use unreal5_gas.Session.Packet.{
  DataPtr, null, in_buffer, block, PacketInfo, empty_packet, sys_user_connect, sys_user_disconnect,
  sys_end, login_request, login_response, character_info_request, packet_header_length,
  login_request_packet_size, login_response_packet_size, character_info_request_packet_size,
  header_bytes,
}
use unreal5_gas.Session.User.{
  User, DomainState, none_state, login, room, get_packet, set_packet_data,
}
use unreal5_gas.Session.User
use unreal5_gas.Session.UserManager.{
  UserManager, get_user_by_conn_idx, put_user, find_user_index_by_id, add_user, delete_user_info,
}
use unreal5_gas.Session.DoubleBuffer.{
  DoubleBuffer, enqueue_write_packet, swap_queue, dequeue_read_packet,
}

-- What the source leaves open: the two enumerators that `Init` names and Packet.h does not declare,
-- and the bytes that an uninitialised `LOGIN_RESPONSE_PACKET` holds in `Type` and `UserID`.
pub record Build : Type 0 where
  pub lobby_request : ℕ
  pub lobby_response : ℕ
  pub stack_type : ℕ
  pub stack_id : List ℕ

pub record Server : Type 0 where
  pub users : UserManager
  -- `mInComingPacketUserIndex` and `mSystemPacketQueue`, front first.
  pub incoming : List ℕ
  pub system_queue : List PacketInfo
  pub db_queue : DoubleBuffer
  pub server_queue : DoubleBuffer
  -- The calls of `SendPacketFunc`, oldest first.
  pub sent : List (ℕ × List ℕ)

-- The bytes from a pointer to the end of its block.
abbrev of_user : ℕ → Option User → Option (List ℕ)
of_user offset none = none
of_user offset (some u) = some (drop offset u.packet_data_buffer)

unfoldable pub bytes_at : DataPtr → Server → Option (List ℕ)
unfolding get_user_by_conn_idx
bytes_at null s = none
bytes_at (in_buffer (pos i) offset) s = of_user offset (get_user_by_conn_idx s.users i)
bytes_at (in_buffer (negsuc i) offset) s = none
bytes_at (block bytes) s = some bytes

-- A string up to its terminator. `none` if the block ends first.
abbrev prepend : ℕ → Option (List ℕ) → Option (List ℕ)
prepend b none = none
prepend b (some bytes) = some (b ∷ bytes)

unfoldable pub c_string : List ℕ → Option (List ℕ)
c_string [] = none
c_string (b ∷ bytes) = let rest = c_string bytes in if b == 0 then some [] else prepend b rest

-- `n` bytes for `memcpy`.
abbrev pub read_bytes : ℕ → List ℕ → Option (List ℕ)
read_bytes n bytes = if leb n (length bytes) then some (take n bytes) else none

abbrev pub response_bytes : ℕ → List ℕ → ℕ → List ℕ
response_bytes type id result =
    header_bytes (record {
      packet_length = login_response_packet_size;
      packet_id = login_response;
      type = type;
    })
    ++ (id ++ (result ∷ []))

abbrev pub send : ℕ → List ℕ → Server → Server
send i bytes s = record s { sent = s.sent ++ ((i, bytes) ∷ []) }

abbrev to_db : PacketInfo → Server → Server
to_db p s = record s { db_queue = enqueue_write_packet p s.db_queue }

unfoldable pub process_user_connect : ℕ → Server → Option Server
process_user_connect i s = do
  u ← get_user_by_conn_idx s.users i
  some (record s { users = put_user i (User.clear u) s.users })

abbrev is_none_state : DomainState → Bool
is_none_state none_state = true
is_none_state login = false
is_none_state room = false

-- `ProcessUserDisConnect` with `ClearConnectionInfo`.
unfoldable pub process_user_disconnect : ℕ → Server → Option Server
process_user_disconnect i s = do
  u ← get_user_by_conn_idx s.users i
  if is_none_state u.cur_domain_state
      then some s
      else some (record s { users = delete_user_info i u s.users })

abbrev is_minus_one : ℤ → Bool
is_minus_one (pos n) = false
is_minus_one (negsuc n) = n == 0

unfoldable pub process_login : Build → ℕ → ℕ → DataPtr → Server → Option Server
process_login b i size ptr s = if not (login_request_packet_size == size) then some s else do
  bytes ← bytes_at ptr s
  id ← c_string (drop packet_header_length bytes)
  if is_minus_one (find_user_index_by_id s.users id)
      then some (
          to_db
            (record {
              client_index = i;
              packet_id = login_request;
              data_size = size;
              data_ptr = ptr;
            })
            s)
      else some (send i (response_bytes b.stack_type b.stack_id 4) s)

-- The `switch` of `ProcessLoginResponse`.
abbrev log_in : ℕ → ℕ → List ℕ → Server → Option Server
log_in result i bytes s = if not (result == 1) then some s else do
  id ← c_string (drop packet_header_length bytes)
  m ← add_user id i s.users
  some (record s { users = m })

unfoldable pub process_login_response : ℕ → ℕ → DataPtr → Server → Option Server
process_login_response i size ptr s =
    if not (login_response_packet_size == size) then some s else do
      bytes ← bytes_at ptr s
      reply ← read_bytes login_response_packet_size bytes
      result ← get_elem? reply 38
      s' ← log_in result i bytes s
      some (send i reply s')

unfoldable pub process_lobby_character : ℕ → ℕ → DataPtr → Server → Option Server
process_lobby_character i size ptr s =
    if not (character_info_request_packet_size == size)
    then some s
    else some (
        to_db
          (record {
            client_index = i;
            packet_id = character_info_request;
            data_size = size;
            data_ptr = ptr;
          })
          s)

unfoldable pub process_lobby_character_response : ℕ → ℕ → DataPtr → Server → Option Server
process_lobby_character_response i size ptr s = some s

-- `mRecvFuntionDictionary` as `Init` fills it: of two entries with one key the later one stays.
unfoldable pub process_recv_packet : Build → PacketInfo → Server → Option Server
process_recv_packet b p s =
    if p.packet_id == b.lobby_response
    then process_lobby_character_response p.client_index p.data_size p.data_ptr s
    else if p.packet_id == b.lobby_request
    then process_lobby_character p.client_index p.data_size p.data_ptr s
    else if p.packet_id == login_response
    then process_login_response p.client_index p.data_size p.data_ptr s
    else if p.packet_id == login_request
    then process_login b p.client_index p.data_size p.data_ptr s
    else if p.packet_id == sys_user_disconnect
    then process_user_disconnect p.client_index s
    else if p.packet_id == sys_user_connect
    then process_user_connect p.client_index s
    else some s

unfoldable pub receive_packet_data : ℕ → List ℕ → Server → Option Server
receive_packet_data i bytes s = do
  u ← get_user_by_conn_idx s.users i
  u' ← set_packet_data bytes u
  some (record s { users = put_user i u' s.users; incoming = s.incoming ++ (i ∷ []) })

unfoldable pub push_system_packet : PacketInfo → Server → Server
push_system_packet p s = record s { system_queue = s.system_queue ++ (p ∷ []) }

abbrev deque_from : List ℕ → Server → Option (PacketInfo × Server)
deque_from [] s = some (empty_packet, s)
deque_from (i ∷ rest) s = do
  u ← get_user_by_conn_idx s.users i
  let (p, u') = get_packet u
  some (record p { client_index = i }, record s { users = put_user i u' s.users; incoming = rest })

unfoldable pub deque_packet_data : Server → Option (PacketInfo × Server)
deque_packet_data s = deque_from s.incoming s

abbrev deque_system_from : List PacketInfo → Server → PacketInfo × Server
deque_system_from [] s = (empty_packet, s)
deque_system_from (p ∷ rest) s = (p, record s { system_queue = rest })

unfoldable pub deque_system_packet_data : Server → PacketInfo × Server
deque_system_packet_data s = deque_system_from s.system_queue s

-- The first half of the loop of `ProcessPacket`: one packet of a client.
unfoldable pub serve_client : Build → Server → Option Server
serve_client b s = do
  r ← deque_packet_data s
  if ltb sys_end r.0.packet_id then process_recv_packet b r.0 r.1 else some r.1

-- The second half: one system packet.
unfoldable pub serve_system : Build → Server → Option Server
serve_system b s =
    let (p, s') = deque_system_packet_data s in
    if not (p.packet_id == 0) then process_recv_packet b p s' else some s'

-- One round of the loop of `ProcessPacket`.
unfoldable pub process_packet : Build → Server → Option Server
process_packet b s = do s' ← serve_client b s; serve_system b s'

abbrev answer : Option PacketInfo → Server → Option Server
answer none s = some (record s { server_queue = swap_queue s.server_queue })
answer (some p) s =
    if p.packet_id == login_response
    then process_login_response p.client_index p.data_size p.data_ptr s
    else some s

-- One round of the loop of `ProcessQueue`, which serves the answers of the database.
unfoldable pub process_queue : Server → Option Server
process_queue s =
    let (o, q) = dequeue_read_packet s.server_queue in answer o (record s { server_queue = q })
