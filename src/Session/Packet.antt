-- ===== src/Session/Packet.antt =====
-- Packet.h: packet headers, packet ids and the descriptors that the queues carry. A byte is a
-- number below 256. Integers are little-endian, as on the x64 machines that the server is built for.
use unreal5_gas.Base.{ℕ, ◌+◌, ◌*◌, ◌/◌, ◌%◌, List, [], ◌∷◌, ◌++◌, length, drop}
use unreal5_gas.Base.Int.{ℤ}

-- Where a `char*` points: nowhere, into the receive buffer of the user with an index, or to the
-- start of a block of its own.
pub data DataPtr : Type 0 where
  null : DataPtr
  in_buffer : ℤ → ℕ → DataPtr
  block : List ℕ → DataPtr

pub record PacketInfo : Type 0 where
  pub client_index : ℕ
  pub packet_id : ℕ
  pub data_size : ℕ
  pub data_ptr : DataPtr

-- `PacketInfo()`.
abbrev pub empty_packet : PacketInfo
empty_packet = record { client_index = 0; packet_id = 0; data_size = 0; data_ptr = null }

-- `enum class PACKET_ID`.
abbrev pub sys_user_connect : ℕ
sys_user_connect = 11

abbrev pub sys_user_disconnect : ℕ
sys_user_disconnect = 12

abbrev pub sys_end : ℕ
sys_end = 30

abbrev pub db_end : ℕ
db_end = 199

abbrev pub login_request : ℕ
login_request = 201

abbrev pub login_response : ℕ
login_response = 202

abbrev pub character_info_request : ℕ
character_info_request = 205

abbrev pub character_info_response : ℕ
character_info_response = 206

-- `sizeof(PACKET_HEADER)`, packed to one byte.
abbrev pub packet_header_length : ℕ
packet_header_length = 5

abbrev pub max_user_id_len : ℕ
max_user_id_len = 32

abbrev pub max_user_pw_len : ℕ
max_user_pw_len = 32

abbrev pub login_request_packet_size : ℕ
login_request_packet_size = packet_header_length + (max_user_id_len + 1) + (max_user_pw_len + 1)

abbrev pub login_response_packet_size : ℕ
login_response_packet_size = packet_header_length + (max_user_id_len + 1) + 1

abbrev pub character_info_request_packet_size : ℕ
character_info_request_packet_size = packet_header_length + (max_user_id_len + 1)

pub record PacketHeader : Type 0 where
  pub packet_length : ℕ
  pub packet_id : ℕ
  pub type : ℕ

-- The UINT16 that a block starts with.
abbrev pub u16 : List ℕ → ℕ
u16 (a ∷ b ∷ bytes) = a + 256 * b
u16 _ = 0

abbrev pub u8 : List ℕ → ℕ
u8 (a ∷ bytes) = a
u8 [] = 0

-- The cast to `PACKET_HEADER*`.
abbrev pub read_header : List ℕ → PacketHeader
read_header bytes = record {
  packet_length = u16 bytes;
  packet_id = u16 (drop 2 bytes);
  type = u8 (drop 4 bytes);
}

abbrev pub u16_bytes : ℕ → List ℕ
u16_bytes n = n % 256 ∷ n / 256 ∷ []

abbrev pub header_bytes : PacketHeader → List ℕ
header_bytes h = u16_bytes h.packet_length ++ (u16_bytes h.packet_id ++ (h.type ∷ []))

-- A packet as a client lays it out: the header, its length field the size of the whole, then the
-- payload.
abbrev pub packet_bytes : ℕ → ℕ → List ℕ → List ℕ
packet_bytes id type payload =
    header_bytes (record {
      packet_length = packet_header_length + length payload;
      packet_id = id;
      type = type;
    })
    ++ payload
