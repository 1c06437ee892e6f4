-- ===== src/Session/ClientInfo.antt =====
-- ServerNetwork/ClientInfo.h: one slot for a connection. What the calls of Winsock return is an
-- argument of each function; what is handed to `WSASend` is recorded.
pub mod Sending
pub mod Examples
use unreal5_gas.Base.{
  ℕ, suc, ◌+◌, ◌-◌, ◌^◌, ◌≡◌, Bool, true, false, Option, none, some, List, [], ◌∷◌, ◌++◌, ◌==◌,
  if◌then◌else◌, length,
}

-- The value of a `HANDLE`.
pub data HandleValue : Type 0 where
  null_handle invalid_handle : HandleValue
  handle : ℕ → HandleValue

pub record ClientInfo : Type 0 where
  pub index : ℕ
  pub iocp_handle : HandleValue
  -- `mIsConnect == 1`.
  pub is_connect : Bool
  pub latest_closed_time_sec : ℕ
  -- `none` is `INVALID_SOCKET`.
  pub socket : Option ℕ
  pub send_data_queue : List (List ℕ)
  -- The buffers of the calls of `WSASend`, oldest first.
  pub issued : List (List ℕ)

-- The constructor with `Init`.
unfoldable pub init : ℕ → HandleValue → ClientInfo
init i h = record {
  index = i;
  iocp_handle = h;
  is_connect = false;
  latest_closed_time_sec = 0;
  socket = none;
  send_data_queue = [];
  issued = [];
}

-- `BindIOCompletionPort`, by what `CreateIoCompletionPort` returns.
unfoldable pub bind_io_completion_port : HandleValue → Bool
bind_io_completion_port null_handle = true
bind_io_completion_port invalid_handle = false
bind_io_completion_port (handle n) = true

-- What `WSARecv`, `WSASend` and `AcceptEx` do: complete at once, go on, or fail.
pub data IoResult : Type 0 where
  done pending failed : IoResult

abbrev pub is_posted : IoResult → Bool
is_posted done = true
is_posted pending = true
is_posted failed = false

-- `OnConnect`, which `AcceptCompletion` calls with the slot's own handle and socket.
unfoldable pub accept_completion : HandleValue → IoResult → ClientInfo → Bool × ClientInfo
unfolding bind_io_completion_port
accept_completion bound received c = (
  if bind_io_completion_port bound then is_posted received else false,
  record c { is_connect = true },
)

unfoldable pub close : ℕ → ClientInfo → ClientInfo
close now c = record c { is_connect = false; latest_closed_time_sec = now; socket = none }

abbrev pub uint32_max : ℕ
uint32_max = 2 ^ 32 - 1

abbrev accept_on : Option ℕ → IoResult → Bool
accept_on none accepted = false
accept_on (some socket) accepted = is_posted accepted

-- By what `WSASocket` and `AcceptEx` return.
unfoldable pub post_accept : Option ℕ → IoResult → ClientInfo → Bool × ClientInfo
post_accept made accepted c =
    (accept_on made accepted, record c { latest_closed_time_sec = uint32_max; socket = made })

-- `SendIO`: the oldest message goes to `WSASend`. The callers do not look at what it returns, so
-- neither is it returned here.
abbrev send_first : List (List ℕ) → ClientInfo → ClientInfo
send_first [] c = c
send_first (m ∷ ms) c = record c { issued = c.issued ++ (m ∷ []) }

unfoldable pub send_io : ClientInfo → ClientInfo
send_io c = send_first c.send_data_queue c

unfoldable pub send_msg : List ℕ → ClientInfo → Bool × ClientInfo
unfolding send_io
send_msg m c =
    let queued = record c { send_data_queue = c.send_data_queue ++ (m ∷ []) } in
    (true, if length queued.send_data_queue == 1 then send_io queued else queued)

-- `none`: the front of an empty queue.
abbrev complete_first : List (List ℕ) → ClientInfo → Option ClientInfo
complete_first [] c = none
complete_first (m ∷ ms) c = some (send_first ms (record c { send_data_queue = ms }))

unfoldable pub send_completed : ClientInfo → Option ClientInfo
send_completed c = complete_first c.send_data_queue c
