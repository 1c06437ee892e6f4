-- ===== src/Session/DbAgent.antt =====
-- DBAgent.cpp: the thread that takes requests from the database queue, asks MySQL and answers. What
-- the client library of MySQL does in one exchange is an argument, an `Outcome`.
pub mod Query
pub mod Answers
pub mod Faults
pub mod Examples
use unreal5_gas.Base.{
  ℕ, zero, suc, ◌+◌, ◌≡◌, Bool, true, false, not, Option, none, some, List, [], ◌∷◌, ◌++◌, ◌==◌,
  ltb, if◌then◌else◌, length, drop, set,
}
use unreal5_gas.Base.Fallible.{◌>>=◌}
use unreal5_gas.Base.Int.{pos, negsuc}
use unreal5_gas.Session.Packet.{
  DataPtr, null, in_buffer, block, PacketInfo, login_request, login_response,
  character_info_request, max_user_id_len, max_user_pw_len, login_response_packet_size,
}
use unreal5_gas.Session.UserManager.{get_user_by_conn_idx, put_user}
use unreal5_gas.Session.DoubleBuffer.{enqueue_write_packet, swap_queue, dequeue_read_packet}
use unreal5_gas.Session.PacketManager.{Server, bytes_at, c_string, read_bytes, response_bytes}
use text.Mathlib.Text.{◌==◌ as str_eq}
use Prim.Native.String.{String}
use Prim.Native.Char.{code}

-- The member `mysql`: never set, connected to by `mysql_init`, or closed.
pub data Handle : Type 0 where
  unset connected closed : Handle

-- What the client library returns in one exchange.
pub record Outcome : Type 0 where
  -- `mysql_library_init` does not return 0.
  pub init_fails : Bool
  -- `mysql_real_connect` does not return NULL.
  pub connects : Bool
  -- `mysql_query` returns 0.
  pub query_ok : Bool
  -- `mysql_store_result`: NULL, or a result with this many rows.
  pub rows : Option ℕ
  pub errno : ℕ

-- `mysql_close`. Closing twice frees the connection twice, a fault.
abbrev pub close : Handle → Option Handle
close unset = some unset
close connected = some closed
close closed = none

-- The code at `label_return`. The two flags are the return value and `result_`.
abbrev label_return : Bool → Handle → Option (Bool × Bool × Handle)
label_return result h = do h' ← close h; some (false, result, h')

abbrev fetch : Outcome → Bool → Option ℕ → Option (Bool × Bool × Handle)
fetch o result none = label_return false connected
fetch o result (some n) =
    if not (o.errno == 0)
    then label_return result connected
    else do h' ← close connected; some (true, ltb 0 n, h')

-- `ProcessLoginQuery` and its copy `ProcessCharacterInfoQuery`, from the handle before it.
unfoldable pub process_login_query : Outcome → Bool → Handle → Option (Bool × Bool × Handle)
process_login_query o result h =
    if o.init_fails
    then label_return result h
    else if not o.connects
    then (close connected >>= label_return result)
    else if o.query_ok
    then fetch o result o.rows
    else label_return result connected

abbrev pub codes : String → List ℕ
codes String.[] = []
codes (String.◌∷◌ c s) = code c ∷ codes s

abbrev pub query_head : List ℕ
query_head = codes "SELECT ID, PW FROM USER_LOGIN_INFO WHERE ID = '"

abbrev pub query_middle : List ℕ
query_middle = codes "' AND PW = '"

-- The `sprintf`.
unfoldable pub build_query : List ℕ → List ℕ → List ℕ
build_query id pw = query_head ++ (id ++ (query_middle ++ (pw ++ codes "'")))

-- `char query[512]`: a longer text overruns it.
unfoldable pub fits_query : List ℕ → Option (List ℕ)
fits_query text = if ltb (length text) 512 then some text else none

abbrev pub login_code : Bool → Bool → ℕ
login_code false result = 3
login_code true true = 1
login_code true false = 2

-- The answer, in a block of its own, as it is put into the server's queue.
abbrev pub reply : ℕ → List ℕ → ℕ → PacketInfo
reply i field result = record {
  client_index = i;
  packet_id = login_response;
  data_size = login_response_packet_size;
  data_ptr = block (response_bytes 0 field result);
}

abbrev pub to_server : PacketInfo → Server → Server
to_server p s = record s { server_queue = enqueue_write_packet p s.server_queue }

unfoldable pub process_login :
    (List ℕ → Outcome) → ℕ → DataPtr → Handle → Server → Option (Handle × Server)
unfolding build_query fits_query
process_login mysql i ptr h s = do
  bytes ← bytes_at ptr s
  id_field ← read_bytes (max_user_id_len + 1) (drop 5 bytes)
  pw_field ← read_bytes (max_user_pw_len + 1) (drop (max_user_id_len + 1 + 5) bytes)
  id ← c_string id_field
  pw ← c_string pw_field
  query ← fits_query (build_query id pw)
  r ← process_login_query (mysql query) false h
  some (r.2, to_server (reply i id_field (login_code r.0 r.1)) s)

-- `ProcessCharacterInfo`. The source names a `PW` that it does not declare: it is the argument `pw`.
unfoldable pub process_character_info :
    (List ℕ → Outcome) → List ℕ → ℕ → DataPtr → Handle → Server → Option (Handle × Server)
unfolding build_query fits_query
process_character_info mysql pw i ptr h s = do
  bytes ← bytes_at ptr s
  id_field ← read_bytes (max_user_id_len + 1) (drop 5 bytes)
  id ← c_string id_field
  query ← fits_query (build_query id pw)
  r ← process_login_query (mysql query) false h
  some (r.2, to_server (reply i id_field (login_code r.0 r.1)) s)

abbrev serve : (List ℕ → Outcome) → List ℕ → PacketInfo → Handle → Server → Option (Handle × Server)
serve mysql pw p h s =
    if p.packet_id == login_request
    then process_login mysql p.client_index p.data_ptr h s
    else if p.packet_id == character_info_request
    then process_character_info mysql pw p.client_index p.data_ptr h s
    else some (h, s)

-- `delete[]` of a pointer. At the start of a user's receive buffer it frees that buffer; further on
-- in one it is a fault.
unfoldable pub delete_array : DataPtr → Server → Option Server
delete_array null s = some s
delete_array (block bytes) s = some s
delete_array (in_buffer (pos i) zero) s = do
  u ← get_user_by_conn_idx s.users i
  some (record s { users = put_user i (record u { packet_data_buffer = [] }) s.users })
delete_array (in_buffer (pos i) (suc offset)) s = none
delete_array (in_buffer (negsuc i) offset) s = none

-- The body of the loop of `ProcessQueue` once the queue was asked. Where nothing was there the code
-- calls `SwapQueue` and then, below the `if`, reads `data->pDataPtr` through the null `data`.
abbrev serve_next :
    (List ℕ → Outcome) → List ℕ → Option PacketInfo → Handle → Server → Option (Handle × Server)
serve_next mysql pw none h s = none
serve_next mysql pw (some p) h s = do
  r ← serve mysql pw p h s
  s' ← delete_array p.data_ptr r.1
  some (r.0, s')

unfoldable pub process_queue :
    (List ℕ → Outcome) → List ℕ → Handle → Server → Option (Handle × Server)
process_queue mysql pw h s =
    let (o, q) = dequeue_read_packet s.db_queue in
    serve_next mysql pw o h (record s { db_queue = q })
