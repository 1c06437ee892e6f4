-- ===== src/Session/PacketManager/Batching.antt =====
-- PacketManager.cpp: one packet is taken for each time that data came in, and the notice of a new
-- connection empties its buffer.
use unreal5_gas.Base.{ℕ, ◌+◌, ◌≡◌, ◌≢◌, refl, ◌∙◌, some, List, [], ◌∷◌, length, arith, subst}
use unreal5_gas.Session.Packet.{
  PacketInfo, DataPtr, empty_packet, packet_header_length, sys_user_connect,
}
use unreal5_gas.Session.User.{User, unread, clear, none_state}
use unreal5_gas.Session.User.Framing.{get_packet-cut, get_packet_framing}
use unreal5_gas.Session.UserManager.{get_user_by_conn_idx, put_user}
use unreal5_gas.Session.UserManager.Registry.{get_user-put_user_self}
use unreal5_gas.Session.PacketManager.{
  Server, Build, deque_packet_data, serve_system, deque_system_packet_data, process_recv_packet,
  process_user_connect,
}
use unreal5_gas.Session.PacketManager.Dispatch.{HasPacket, cut_info, after_cut}
use unreal5_gas.Session.PacketManager.Login.{IsApart}

-- When two packets come in at once, the second stays in the buffer: once the first is taken the queue
-- is empty, and taking again finds nothing and changes nothing, until more data comes in.
pub second_packet_waits :
    (i id type : ℕ) (payload rest : List ℕ) (u : User) (s : Server)
    → HasPacket i [] id type payload rest u s
    → (t : Server) × (v : User) × (deque_packet_data s
        ≡ some (cut_info i id (packet_header_length + length payload) u, t))
      × (get_user_by_conn_idx t.users i ≡ some v)
      × (unread v ≡ rest)
      × (deque_packet_data t ≡ some (empty_packet, t))
unfolding deque_packet_data
second_packet_waits i id type payload rest u s h =
    let n = packet_header_length + length payload in
    let framing = get_packet_framing u id type payload rest h.valid h.small h.first in
    (
      after_cut i [] n u s,
      record u { r_pos = u.r_pos + n },
      rw (h.queued, h.user_at, get_packet-cut u id type payload rest h.valid h.small h.first),
      get_user-put_user_self s.users i u (record u { r_pos = u.r_pos + n }) h.user_at,
      subst (λ r. unread r.1 ≡ rest) framing.0 framing.2,
      refl,
    )

dispatch_connect :
    (b : Build) (p : PacketInfo) (s : Server)
    → IsApart sys_user_connect b
    → p.packet_id ≡ sys_user_connect
    → process_recv_packet b p s ≡ process_user_connect p.client_index s
unfolding process_recv_packet
dispatch_connect b p s a e = ground arith

serve_system-first :
    (b : Build) (p : PacketInfo) (more : List PacketInfo) (s : Server)
    → s.system_queue ≡ p ∷ more
    → p.packet_id ≢ 0
    → serve_system b s ≡ process_recv_packet b p (record s { system_queue = more })
unfolding serve_system deque_system_packet_data
serve_system-first b p more s queued real = simp queued (ground arith)

-- The notice of a new connection logs its user out and drops whatever its buffer holds, also what
-- came in after the connection was made.
pub connect_drops_data :
    (b : Build) (i : ℕ) (more : List PacketInfo) (ptr : DataPtr) (u : User) (s : Server)
    → IsApart sys_user_connect b
    → s.system_queue
      ≡ record { client_index = i; packet_id = sys_user_connect; data_size = 0; data_ptr = ptr }
        ∷ more
    → get_user_by_conn_idx s.users i ≡ some u
    → (t : Server) × (v : User) × (serve_system b s ≡ some t)
      × (t.system_queue ≡ more)
      × (get_user_by_conn_idx t.users i ≡ some v)
      × (unread v ≡ [])
      × (v.cur_domain_state ≡ none_state)
unfolding process_user_connect clear
connect_drops_data b i more ptr u s apart queued user_at = (
  record s { users = put_user i (clear u) s.users; system_queue = more },
  clear u,
  serve_system-first b notice more s queued (λ e. cc)
      ∙ dispatch_connect b notice (record s { system_queue = more }) apart refl
      ∙ rw user_at,
  refl,
  get_user-put_user_self s.users i u (clear u) user_at,
  refl,
  refl,
)
  where
    notice : PacketInfo
    notice = record {
      client_index = i;
      packet_id = sys_user_connect;
      data_size = 0;
      data_ptr = ptr;
    }
