-- ===== src/Session/IocpServer.antt =====
-- ServerNetwork/IOCPServer.h with the overrides of SessionServer.h: the slots, the thread that offers
-- free ones to new clients, and the threads that serve completions.
pub mod Slots
pub mod Completions
pub mod Examples
use unreal5_gas.Base.{
  ℕ, zero, suc, ◌+◌, ◌-◌, ◌≡◌, Bool, true, false, not, ◌&&◌, ◌||◌, Option, none, some, List, [],
  ◌∷◌, ◌==◌, ltb, leb, if◌then◌else◌, get_elem?, set,
}
use unreal5_gas.Base.Fallible.{◌>>=◌}
use unreal5_gas.Session.Packet.{null, sys_user_connect, sys_user_disconnect}
use unreal5_gas.Session.PacketManager.{Server, push_system_packet, receive_packet_data}
use unreal5_gas.Session.ClientInfo.{
  ClientInfo, HandleValue, IoResult, post_accept, accept_completion, close, send_completed,
  send_msg,
}
use unreal5_gas.Session.ClientInfo

pub record IocpServer : Type 0 where
  pub client_infos : List ClientInfo
  pub client_cnt : ℕ
  pub is_worker_run : Bool
  -- The packet manager of the session server.
  pub packets : Server

-- `CreateClient`, with `left` slots still to make.
unfoldable pub create_client : (left i : ℕ) → HandleValue → List ClientInfo
create_client zero i h = []
create_client (suc left) i h = ClientInfo.init i h ∷ create_client left (i + 1) h

-- `OnConnect` and `OnClose` of SessionServer.h.
unfoldable pub on_connect : ℕ → Server → Server
on_connect i s =
    push_system_packet
      (record { client_index = i; packet_id = sys_user_connect; data_size = 0; data_ptr = null }) s

unfoldable pub on_close : ℕ → Server → Server
on_close i s =
    push_system_packet
      (record { client_index = i; packet_id = sys_user_disconnect; data_size = 0; data_ptr = null })
      s

-- `GetEmptyClientInfo`.
unfoldable pub get_empty_client_info : List ClientInfo → Option ClientInfo
get_empty_client_info [] = none
get_empty_client_info (c ∷ cs) = if not c.is_connect then some c else get_empty_client_info cs

abbrev pub re_use_session_wait_timesec : ℕ
re_use_session_wait_timesec = 3

-- The body of the loop of `AccepterThread` over the slots, at the second `now`.
unfoldable pub offer : ℕ → Option ℕ → IoResult → ClientInfo → ClientInfo
offer now made accepted c =
    if c.is_connect
    then c
    else if ltb now c.latest_closed_time_sec
    then c
    else if leb (now - c.latest_closed_time_sec) re_use_session_wait_timesec
    then c
    else (post_accept made accepted c).1

-- One round of `AccepterThread`. The outcomes of `WSASocket` and `AcceptEx` are by slot.
unfoldable pub accepter_thread :
    ℕ → (ℕ → Option ℕ) → (ℕ → IoResult) → List ClientInfo → List ClientInfo
accepter_thread now made accepted [] = []
accepter_thread now made accepted (c ∷ cs) =
    offer now (made c.index) (accepted c.index) c ∷ accepter_thread now made accepted cs

unfoldable pub send_to : ℕ → List ℕ → IocpServer → Option (Bool × IocpServer)
send_to i bytes s = do
  c ← get_elem? s.client_infos i
  let (sent, c') = send_msg bytes c
  some (sent, record s { client_infos = set s.client_infos i c' })

abbrev close_slot : ℕ → ℕ → ClientInfo → IocpServer → IocpServer
close_slot i now c s = if not c.is_connect then s else record s {
  client_infos = set s.client_infos i (close now c);
  packets = on_close c.index s.packets;
}

-- `CloseSocket`, at the second `now`. `none` as a slot is the null pointer.
unfoldable pub close_socket : Option ℕ → ℕ → IocpServer → Option IocpServer
close_socket none now s = none
close_socket (some i) now s = do c ← get_elem? s.client_infos i; some (close_slot i now c s)

pub data IoOperation : Type 0 where
  accept recv send : IoOperation

-- What `GetQueuedCompletionStatus` returns, and what the calls made while serving it return. The
-- completion key is a slot, or null: the listening socket is bound with key 0.
pub record Completion : Type 0 where
  pub success : Bool
  pub key : Option ℕ
  pub io_size : ℕ
  pub operation : Option IoOperation
  pub session_index : ℕ
  pub bytes : List ℕ
  pub bound : HandleValue
  pub received : IoResult
  pub now : ℕ

abbrev is_accept : IoOperation → Bool
is_accept accept = true
is_accept recv = false
is_accept send = false

abbrev accepted_slot : ℕ → Completion → Bool → IocpServer → Option IocpServer
accepted_slot i c true s =
    some (record s { client_cnt = s.client_cnt + 1; packets = on_connect i s.packets })
accepted_slot i c false s = close_socket (some c.session_index) c.now s

unfoldable pub complete_accept : Completion → IocpServer → Option IocpServer
complete_accept c s = do
  slot ← get_elem? s.client_infos c.session_index
  let (connected, slot') = accept_completion c.bound c.received slot
  accepted_slot slot.index c connected
      (record s { client_infos = set s.client_infos c.session_index slot' })

-- Data came in. The next `BindRecv` changes nothing here.
unfoldable pub complete_recv : ℕ → Completion → IocpServer → Option IocpServer
complete_recv i c s = do
  slot ← get_elem? s.client_infos i
  p ← receive_packet_data slot.index c.bytes s.packets
  some (record s { packets = p })

unfoldable pub complete_send : ℕ → IocpServer → Option IocpServer
complete_send i s = do
  slot ← get_elem? s.client_infos i
  slot' ← send_completed slot
  some (record s { client_infos = set s.client_infos i slot' })

abbrev keyed : Option ℕ → (ℕ → Option IocpServer) → Option IocpServer
keyed none f = none
keyed (some i) f = f i

abbrev dispatch : IoOperation → Completion → IocpServer → Option IocpServer
dispatch accept c s = complete_accept c s
dispatch recv c s = keyed c.key (λ i. complete_recv i c s)
dispatch send c s = keyed c.key (λ i. complete_send i s)

abbrev serve_operation : Option IoOperation → Completion → IocpServer → Option IocpServer
serve_operation none c s =
    if c.success && c.io_size == 0 then some (record s { is_worker_run = false }) else some s
serve_operation (some op) c s =
    if not c.success || (c.io_size == 0 && not (is_accept op))
    then close_socket c.key c.now s
    else dispatch op c s

-- The body of the loop of `WokerThread`.
unfoldable pub woker_thread : Completion → IocpServer → Option IocpServer
woker_thread c s = serve_operation c.operation c s
