-- ===== src/Session/User.antt =====
-- User.h: one connection's user, and the buffer that its packets are cut from.
pub mod Buffer
pub mod Framing
pub mod Samples
pub mod Examples
use unreal5_gas.Base.{
  ℕ, ◌+◌, ◌-◌, ◌%◌, ◌^◌, ◌≤◌, ◌≡◌, Bool, true, false, Option, none, some, List, [], ltb, leb,
  if◌then◌else◌, length, drop, replicate, ◌||◌, ◌==◌,
}
use unreal5_gas.Base.Int.{ℤ, pos, negsuc}
use unreal5_gas.Base.Slices.{slice, write}
use unreal5_gas.Session.Packet.{
  PacketInfo, empty_packet, in_buffer, packet_header_length, read_header,
}

pub data DomainState : Type 0 where
  none_state login room : DomainState

abbrev pub packet_data_buffer_size : ℕ
packet_data_buffer_size = 8096

pub record User : Type 0 where
  pub index : ℤ
  pub room_index : ℤ
  pub user_id : List ℕ
  pub is_confirm : Bool
  pub cur_domain_state : DomainState
  pub w_pos : ℕ
  pub r_pos : ℕ
  -- `[]` until `Init` allocates it.
  pub packet_data_buffer : List ℕ

-- `new User()`, with the members' initialisers.
unfoldable pub new_user : User
new_user = record {
  index = negsuc 0;
  room_index = negsuc 0;
  user_id = [];
  is_confirm = false;
  cur_domain_state = none_state;
  w_pos = 0;
  r_pos = 0;
  packet_data_buffer = [];
}

-- The buffer's bytes are not initialised; no read sees them before a write.
unfoldable pub init : ℤ → User → User
init i u = record u { index = i; packet_data_buffer = replicate packet_data_buffer_size 0 }

unfoldable pub clear : User → User
clear u = record u {
  room_index = negsuc 0;
  user_id = [];
  is_confirm = false;
  cur_domain_state = none_state;
  w_pos = 0;
  r_pos = 0;
}

unfoldable pub set_login : List ℕ → User → User
set_login id u = record u { cur_domain_state = login; user_id = id }

unfoldable pub enter_room : ℤ → User → User
enter_room r u = record u { room_index = r; cur_domain_state = room }

-- UINT32 subtraction and addition.
abbrev pub sub32 : ℕ → ℕ → ℕ
sub32 a b = (a + 2 ^ 32 - b) % 2 ^ 32

abbrev pub add32 : ℕ → ℕ → ℕ
add32 a b = (a + b) % 2 ^ 32

-- The second `CopyMemory` of `SetPacketData`: `none` is a write past the end of the buffer.
store : List ℕ → User → Option User
store bytes u =
    if leb (u.w_pos + length bytes) (length u.packet_data_buffer)
    then some (record u {
      w_pos = add32 u.w_pos (length bytes);
      packet_data_buffer = write u.packet_data_buffer u.w_pos bytes;
    })
    else none

-- The compaction: the unread bytes move to the front. `none` is a copy whose source leaves the
-- buffer or overlaps its destination, for which `CopyMemory` promises nothing.
compact : User → Option User
compact u =
    let remain = sub32 u.w_pos u.r_pos in
    if ltb 0 remain
    then (if ltb u.r_pos remain || ltb (length u.packet_data_buffer) (u.r_pos + remain)
        then none
        else some (record u {
          w_pos = remain;
          r_pos = 0;
          packet_data_buffer =
              write u.packet_data_buffer 0 (slice u.r_pos remain u.packet_data_buffer);
        }))
    else some (record u { w_pos = 0; r_pos = 0 })

abbrev after_compact : List ℕ → Option User → Option User
after_compact bytes none = none
after_compact bytes (some u) = store bytes u

unfoldable pub set_packet_data : List ℕ → User → Option User
unfolding store compact
set_packet_data bytes u =
    if leb packet_data_buffer_size (add32 u.w_pos (length bytes))
    then after_compact bytes (compact u)
    else store bytes u

unfoldable pub get_packet : User → PacketInfo × User
get_packet u =
    let remain = sub32 u.w_pos u.r_pos in
    let header = read_header (drop u.r_pos u.packet_data_buffer) in
    if ltb remain packet_header_length
    then (empty_packet, u)
    else if ltb remain header.packet_length
    then (empty_packet, u)
    else (
      record {
        client_index = 0;
        packet_id = header.packet_id;
        data_size = header.packet_length;
        data_ptr = in_buffer u.index u.r_pos;
      },
      record u { r_pos = add32 u.r_pos header.packet_length },
    )

-- The bytes received and not yet handed out.
abbrev pub unread : User → List ℕ
unread u = slice u.r_pos (u.w_pos - u.r_pos) u.packet_data_buffer

-- What every operation keeps from `Init` on.
pub record IsValid (u : User) : Type 0 where
  pub allocated : length u.packet_data_buffer ≡ packet_data_buffer_size
  pub read_le : u.r_pos ≤ u.w_pos
  pub written_le : u.w_pos ≤ packet_data_buffer_size
