-- ===== src/Client/Examples.antt =====
-- Tests of the game's side of the login.
use unreal5_gas.Base.{ℕ, ◌≡◌, refl, some, List, [], ◌∷◌, ◌++◌, arith, length, replicate}
use unreal5_gas.Session.Packet.{packet_bytes, login_request, character_info_request}
use unreal5_gas.Session.PacketManager.{c_string, response_bytes}
use unreal5_gas.Client.{Client, login_packet, run}
use unreal5_gas.Client.Login.{FitsField, field_of, login_packet-packet_bytes, run_accepted}

abbrev name : List ℕ
name = 97 ∷ 98 ∷ []

abbrev zeros : List ℕ
zeros = replicate 40 0

name-FitsField : FitsField name zeros
name-FitsField = record {
  short = omega arith;
  no_zero = ((λ e. omega arith), ((λ e. omega arith), tt));
  readable = omega arith;
}

login_packet-packet_bytes_example :
    (id_field pw_field : List ℕ) × (login_packet name name zeros zeros
      ≡ some (packet_bytes login_request 0 (id_field ++ pw_field)))
    × (length id_field ≡ 33)
    × (length pw_field ≡ 33)
    × (c_string id_field ≡ some name)
    × (c_string pw_field ≡ some name)
login_packet-packet_bytes_example =
    login_packet-packet_bytes name name zeros zeros name-FitsField name-FitsField

abbrev playing : Client
playing = record { recv_buffer = replicate 100 0; player_id = []; sent = []; results = [] }

abbrev field : List ℕ
field = name ++ replicate 31 0

run_accepted_example :
    (d : Client) × (run zeros (response_bytes 0 field 1 ++ (7 ∷ 0 ∷ [])) playing ≡ some d)
    × (d.player_id ≡ name)
    × (d.results ≡ 1 ∷ [])
    × (d.sent ≡ packet_bytes character_info_request 0 (field_of name zeros) ∷ [])
unfolding c_string
run_accepted_example = run_accepted zeros 0 field name (7 ∷ 0 ∷ []) playing refl refl name-FitsField
