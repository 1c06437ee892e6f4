-- ===== src/Client.antt =====
-- AuraSocket.cpp and AuraGameInstance.cpp: the game's side of the login. What lies in memory behind a
-- string that the engine converted is an argument. `none` is a read outside a block.
pub mod Login
pub mod Examples
use unreal5_gas.Base.{
  ℕ, ◌+◌, ◌≡◌, not, Option, none, some, List, [], ◌∷◌, ◌++◌, ◌==◌, if◌then◌else◌, length, drop,
  take, get_elem?,
}
use unreal5_gas.Base.Fallible.{◌>>=◌}
use unreal5_gas.Base.Slices.{write}
use unreal5_gas.Session.Packet.{
  header_bytes, u16, login_request, login_response, character_info_request,
}
use unreal5_gas.Session.PacketManager.{c_string, read_bytes}

pub record Client : Type 0 where
  -- The socket's buffer of `MAX_BUFFER` bytes.
  pub recv_buffer : List ℕ
  pub player_id : List ℕ
  -- The packets handed to `send`, and the results handed to the login widget, oldest first.
  pub sent : List (List ℕ)
  pub results : List ℕ

-- `memcpy` of 33 bytes from a converted string, which ends with 0 and is followed by `beyond`.
abbrev pub copy_field : List ℕ → List ℕ → Option (List ℕ)
copy_field text beyond = read_bytes 33 (text ++ (0 ∷ beyond))

-- The packet of `SendLoginPacket`.
unfoldable pub login_packet : List ℕ → List ℕ → List ℕ → List ℕ → Option (List ℕ)
login_packet id pw beyond_id beyond_pw = do
  id_field ← copy_field id beyond_id
  pw_field ← copy_field pw beyond_pw
  some (
      header_bytes (record { packet_length = 71; packet_id = login_request; type = 0 })
      ++ (id_field ++ pw_field))

-- `SendCharacterInfoRequestPacket`.
unfoldable pub send_character_info_request_packet : List ℕ → Client → Option Client
send_character_info_request_packet beyond c = do
  id_field ← copy_field c.player_id beyond
  some (record c {
    sent =
        c.sent
        ++ ((header_bytes
                (record { packet_length = 38; packet_id = character_info_request; type = 0 })
              ++ id_field)
            ∷ []);
  })

-- The `switch` of `RecvLoginResult`.
abbrev on_result : List ℕ → ℕ → List ℕ → Client → Option Client
on_result beyond result id_field c = if not (result == 1) then some c else do
  id ← c_string id_field
  send_character_info_request_packet beyond (record c { player_id = id })

unfoldable pub recv_login_result : List ℕ → List ℕ → Client → Option Client
unfolding send_character_info_request_packet
recv_login_result beyond buffer c = do
  id_field ← read_bytes 33 buffer
  result ← get_elem? buffer 33
  c' ← on_result beyond result id_field c
  some (record c' { results = c'.results ++ (result ∷ []) })

abbrev pub get_buffer_header : List ℕ → ℕ
get_buffer_header buffer = u16 (drop 2 buffer)

-- One round of `Run`, in which `recv` returned `bytes`. `RecvCharacterInfo` is empty.
unfoldable pub run : List ℕ → List ℕ → Client → Option Client
run beyond bytes c =
    let buffer = write c.recv_buffer 0 bytes in
    let c' = record c { recv_buffer = buffer } in
    if get_buffer_header buffer == login_response
    then recv_login_result beyond (drop 5 buffer) c'
    else some c'
