-- ===== src/Session/PacketManager/Dispatch.antt =====
-- PacketManager.cpp: how the packet of a client gets from its buffer to a handler.
use unreal5_gas.Base.{
  ℕ, ◌+◌, ◌-◌, ◌^◌, ◌≤◌, ◌<◌, ◌≡◌, ap, ◌∙◌, some, List, ◌∷◌, ◌++◌, ltb, if◌then◌else◌, length,
  arith, append_assoc, drop,
}
use unreal5_gas.Base.Int.{pos}
use unreal5_gas.Session.Packet.{PacketInfo, in_buffer, packet_bytes, packet_header_length, sys_end}
use unreal5_gas.Session.User.{User, IsValid, unread}
use unreal5_gas.Session.User.Framing.{from_unread, get_packet-cut}
use unreal5_gas.Session.UserManager.{get_user_by_conn_idx, put_user}
use unreal5_gas.Session.UserManager.Registry.{get_user-put_user_self}
use unreal5_gas.Session.PacketManager.{
  Server, Build, bytes_at, serve_client, deque_packet_data, process_recv_packet,
}

-- The descriptor of a packet of `n` bytes that is cut from the buffer of `u`, as the handlers of
-- connection `i` get it.
abbrev pub cut_info : ℕ → ℕ → ℕ → User → PacketInfo
cut_info i id n u = record {
  client_index = i;
  packet_id = id;
  data_size = n;
  data_ptr = in_buffer u.index u.r_pos;
}

-- The server once that packet is taken from the front of the queue.
abbrev pub after_cut : ℕ → List ℕ → ℕ → User → Server → Server
after_cut i rest n u s = record s {
  users = put_user i (record u { r_pos = u.r_pos + n }) s.users;
  incoming = rest;
}

-- Connection `i` stands first in the queue, and a whole packet stands first in its unread bytes.
pub record HasPacket (i : ℕ) (waiting : List ℕ) (id type : ℕ) (payload rest : List ℕ) (u : User)
    (s : Server) : Type 0 where
  pub queued : s.incoming ≡ i ∷ waiting
  pub user_at : get_user_by_conn_idx s.users i ≡ some u
  pub valid : IsValid u
  pub own_index : u.index ≡ pos i
  pub small : packet_header_length + length payload < 2 ^ 16
  pub first : unread u ≡ packet_bytes id type payload ++ rest

pub bytes_at-in_buffer :
    (i offset : ℕ) (s : Server) (u : User)
    → get_user_by_conn_idx s.users i ≡ some u
    → bytes_at (in_buffer (pos i) offset) s ≡ some (drop offset u.packet_data_buffer)
unfolding bytes_at
bytes_at-in_buffer i offset s u at_i = rw at_i

module _ (b : Build) (i : ℕ) (waiting : List ℕ) (id type : ℕ) (payload rest : List ℕ) (u : User)
    (s : Server) (h : HasPacket i waiting id type payload rest u s) where
  abbrev size : ℕ
  size = packet_header_length + length payload

  pub serve_client-cut : serve_client b s ≡ (
      if ltb sys_end id
      then process_recv_packet b (cut_info i id size u) (after_cut i waiting size u s)
      else some (after_cut i waiting size u s))
  unfolding serve_client deque_packet_data
  serve_client-cut =
      rw (h.queued, h.user_at, get_packet-cut u id type payload rest h.valid h.small h.first)

  pub bytes_at-cut :
      bytes_at (in_buffer u.index u.r_pos) (after_cut i waiting size u s)
      ≡ some (
          packet_bytes id type payload
          ++ (rest ++ drop (u.w_pos - u.r_pos) (drop u.r_pos u.packet_data_buffer)))
  bytes_at-cut =
      ap (λ x. bytes_at (in_buffer x u.r_pos) (after_cut i waiting size u s)) h.own_index
      ∙ bytes_at-in_buffer i u.r_pos (after_cut i waiting size u s)
          (record u { r_pos = u.r_pos + size })
          (get_user-put_user_self s.users i u (record u { r_pos = u.r_pos + size }) h.user_at)
      ∙ ap some (
          from_unread u (packet_bytes id type payload ++ rest) h.first
          ∙ append_assoc (packet_bytes id type payload) rest _)

  -- A whole packet that a client sends under an id up to `SYS_END` is dropped when it is served: it is
  -- passed over in its buffer, and nothing else changes but the queue. So a client cannot forge a
  -- system packet.
  pub serve_client_system_id : id ≤ sys_end → serve_client b s ≡ some (after_cut i waiting size u s)
  serve_client_system_id low = serve_client-cut ∙ ground arith
