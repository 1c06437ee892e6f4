-- ===== src/Session/User/Examples.antt =====
-- Tests of User.h's model, and its theorems at concrete inputs.
use unreal5_gas.Base.{ℕ, ◌≡◌, refl, inl, List, [], ◌∷◌, ◌++◌, arith, replicate}
use unreal5_gas.Base.Slices.{slice}
use unreal5_gas.Session.Packet.{packet_bytes}
use unreal5_gas.Session.User.{User, IsValid, unread, set_packet_data, get_packet, new_user}
use unreal5_gas.Session.User.Samples.{user_with, user_with-IsValid, unread-user_with}
use unreal5_gas.Session.User.Buffer.{IsStored, set_packet_data-IsStored}
use unreal5_gas.Session.User.Framing.{cut_packet, get_packet_framing}

abbrev hello : List ℕ
hello = packet_bytes 205 0 (104 ∷ 105 ∷ [])

hello_bytes : hello ≡ 7 ∷ 0 ∷ 205 ∷ 0 ∷ 0 ∷ 104 ∷ 105 ∷ []
hello_bytes = refl

cut_hello : (get_packet (user_with (hello ++ (9 ∷ [])))).0.packet_id ≡ 205
unfolding get_packet new_user
cut_hello = refl

-- 7,900 bytes are unread behind a read position of 100.
abbrev crowded : User
crowded = record new_user { w_pos = 8000; r_pos = 100; packet_data_buffer = replicate 8096 0 }

set_packet_data-IsStored_example :
    IsStored (1 ∷ 2 ∷ []) (user_with hello) (set_packet_data (1 ∷ 2 ∷ []) (user_with hello))
unfolding new_user
set_packet_data-IsStored_example =
    set_packet_data-IsStored (1 ∷ 2 ∷ []) (user_with hello) (user_with-IsValid hello (omega arith))
      (omega arith) (inl (omega arith))

get_packet_framing_example :
    let u = user_with (hello ++ (9 ∷ [])) in
    (get_packet u ≡ cut_packet 205 (104 ∷ 105 ∷ []) u)
    × IsValid (get_packet u).1
    × (unread (get_packet u).1 ≡ 9 ∷ [])
    × (slice u.r_pos 7 u.packet_data_buffer ≡ hello)
get_packet_framing_example =
    get_packet_framing (user_with (hello ++ (9 ∷ []))) 205 0 (104 ∷ 105 ∷ []) (9 ∷ [])
      (user_with-IsValid (hello ++ (9 ∷ [])) (omega arith)) (omega arith)
      (unread-user_with (hello ++ (9 ∷ [])))
