-- ===== src/Session/User/Framing.antt =====
-- The packets that `GetPacket` of User.h cuts from the unread bytes.
use unreal5_gas.Base.{
  ℕ, ◌+◌, ◌-◌, ◌^◌, ◌≤◌, ◌<◌, ◌≡◌, refl, sym, ◌⊎◌, ap, ◌∙◌, List, ◌++◌, arith, length, drop,
  take-append-drop, length-append,
}
use unreal5_gas.Base.Slices.{slice, slice-split, length-slice, slice_cong}
use unreal5_gas.Session.Packet.{
  PacketInfo, empty_packet, in_buffer, packet_bytes, packet_header_length, u16,
}
use unreal5_gas.Session.User.{User, IsValid, unread, get_packet, sub32}

pub from_unread :
    (u : User) (bytes : List ℕ)
    → unread u ≡ bytes
    → drop u.r_pos u.packet_data_buffer
      ≡ bytes ++ drop (u.w_pos - u.r_pos) (drop u.r_pos u.packet_data_buffer)
from_unread u bytes e =
    sym (take-append-drop (u.w_pos - u.r_pos) (drop u.r_pos u.packet_data_buffer))
    ∙ ap (λ b. b ++ drop (u.w_pos - u.r_pos) (drop u.r_pos u.packet_data_buffer)) e

length-unread : (u : User) → IsValid u → length (unread u) ≡ u.w_pos - u.r_pos
length-unread u v = length-slice u.r_pos (u.w_pos - u.r_pos) u.packet_data_buffer (omega arith)

-- What `GetPacket` hands out for a packet with `payload`, and the user after it.
abbrev pub cut_packet : ℕ → List ℕ → User → PacketInfo × User
cut_packet id payload u = (
  record {
    client_index = 0;
    packet_id = id;
    data_size = packet_header_length + length payload;
    data_ptr = in_buffer u.index u.r_pos;
  },
  record u { r_pos = u.r_pos + (packet_header_length + length payload) },
)

pub get_packet-cut :
    (u : User) (id type : ℕ) (payload rest : List ℕ)
    → IsValid u
    → packet_header_length + length payload < 2 ^ 16
    → unread u ≡ packet_bytes id type payload ++ rest
    → get_packet u ≡ cut_packet id payload u
unfolding get_packet
get_packet-cut u id type payload rest v hl e =
    rw (no_wrap, from_unread u (packet_bytes id type payload ++ rest) e)
      (ground (arith, has_length))
  where
    has_length : u.w_pos - u.r_pos ≡ 5 + length payload + length rest
    has_length = omega (arith, length-unread u v, ap length e, length-append payload rest)

    no_wrap : sub32 u.w_pos u.r_pos ≡ 5 + length payload + length rest
    no_wrap = omega (arith, has_length)

-- If a whole packet stands first in the unread bytes, `GetPacket` hands out its id, its size and a
-- pointer to exactly its bytes, and the bytes after it are what is left unread, in a user that is
-- well-formed still.
pub get_packet_framing :
    (u : User) (id type : ℕ) (payload rest : List ℕ)
    → IsValid u
    → packet_header_length + length payload < 2 ^ 16
    → unread u ≡ packet_bytes id type payload ++ rest
    → (get_packet u ≡ cut_packet id payload u)
      × IsValid (get_packet u).1
      × (unread (get_packet u).1 ≡ rest)
      × (slice u.r_pos (packet_header_length + length payload) u.packet_data_buffer
          ≡ packet_bytes id type payload)
get_packet_framing u id type payload rest v small e =
    let buffer = u.packet_data_buffer in
    let cut = get_packet-cut u id type payload rest v small e in
    let (first, last) =
      slice-split u.r_pos (length rest) buffer (packet_bytes id type payload) rest (
        slice_cong buffer u.r_pos u.r_pos _ (u.w_pos - u.r_pos) refl (omega (arith, has_length))
        ∙ e) in
    (
      cut,
      rw cut (record {
        allocated = v.allocated;
        read_le = omega (arith, has_length);
        written_le = v.written_le;
      }),
      rw cut (
          slice_cong buffer _ (u.r_pos + length (packet_bytes id type payload)) _ (length rest)
            (omega arith) (omega (arith, has_length))
          ∙ last),
      slice_cong buffer u.r_pos u.r_pos _ (length (packet_bytes id type payload)) refl (omega arith)
          ∙ first,
    )
  where
    has_length : u.w_pos - u.r_pos ≡ 5 + length payload + length rest
    has_length = omega (arith, length-unread u v, ap length e, length-append payload rest)

-- A packet that has not come in whole is left alone: with less than a header unread, or less than
-- the length that the header states, `GetPacket` returns the empty descriptor and changes nothing.
get_packet_incomplete :
    (u : User)
    → IsValid u
    → (length (unread u) < packet_header_length)
      ⊎ (length (unread u) < u16 (drop u.r_pos u.packet_data_buffer))
    → get_packet u ≡ (empty_packet, u)
unfolding get_packet
get_packet_incomplete u v few = ground (arith, length-unread u v)

-- A header that states length 0 is handed out again and again: the read position does not move.
pub get_packet_stuck :
    (u : User)
    → IsValid u
    → packet_header_length ≤ length (unread u)
    → u16 (drop u.r_pos u.packet_data_buffer) ≡ 0
    → ((get_packet u).1 ≡ u)
      × ((get_packet u).0.packet_id ≡ u16 (drop 2 (drop u.r_pos u.packet_data_buffer)))
unfolding get_packet
get_packet_stuck u v enough zero_length = ground (arith, length-unread u v)
